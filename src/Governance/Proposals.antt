-- ===== src/Governance/Proposals.antt =====
-- src/core/governance/ProposalManager.ts: proposals that wait for the user's approval.
-- A method takes the clock reading `now` and, where it makes up an identifier, the identifier. The
-- event bus is the list of the events emitted, the newest at the head. `setTimeout` puts an entry
-- under a fresh handle on `scheduled`, and `clearTimeout` takes it off; `fire` is the event loop
-- running an entry that is due. The variation selector of the clock sign is left out. Listeners of the bus do not call back into the manager.
pub mod History
pub mod Consent
use sera_core.Prelude.{
  ℕ, ◌+◌, String, Bool, true, false, not, Option, none, some, List, [], ◌∷◌, if◌then◌else◌, filter,
  nat_eq, truthy, or_text, leb,
}
use sera_core.Dict
use sera_core.Dict.{Dict}

-- `_responseContext`, an object with the flag that a refusal resets
pub record ResponseContext : Type 0 where
  pub channel : String
  pub is_voice_message : Bool

-- `Record<string, any>`, with the one entry that the manager reads
pub record Parameters : Type 0 where
  pub response_context : Option ResponseContext
  pub entries : List (String × String)

pub record Proposal : Type 0 where
  pub intent : String
  pub parameters : Parameters
  pub user_message : Option String

pub record ProposeGoalPayload : Type 0 where
  pub proposal_id : Option String
  pub proposal : Proposal

pub data Event : Type 0 where
  proposal_generated : (proposal_id intent : String) → Parameters → Event
  goal_spawned : (request_id intent : String) → Parameters → (user_message : Option String) → Event
  agent_speak : (text : String) → Option ResponseContext → Event
  proposal_expired : (proposal_id intent : String) → Parameters → Event

pub record Timeout : Type 0 where
  pub handle : ℕ
  pub proposal_id : String
  pub due : ℕ

pub record ProposalManager : Type 0 where
  pub pending : Dict Proposal
  pub timers : Dict ℕ
  pub scheduled : List Timeout
  pub next_handle : ℕ
  pub events : List Event

-- PROPOSAL_TTL_MS
abbrev pub proposal_ttl_ms : ℕ
proposal_ttl_ms = 60000

unfoldable pub emit : Event → ProposalManager → ProposalManager
emit e m = record m { events = e ∷ m.events }

-- `payload.proposalId || …`: `fresh` is the identifier that would be made up
abbrev pub id_of : String → ProposeGoalPayload → String
id_of fresh p = or_text p.proposal_id fresh

unfoldable pub create_proposal :
    ℕ → String → ProposeGoalPayload → ProposalManager → String × ProposalManager
create_proposal now fresh p m =
    let id = id_of fresh p in
    (
      id,
      emit (proposal_generated id p.proposal.intent p.proposal.parameters) (record m {
        pending = Dict.set m.pending id p.proposal;
        scheduled =
            record { handle = m.next_handle; proposal_id = id; due = now + proposal_ttl_ms }
            ∷ m.scheduled;
        timers = Dict.set m.timers id m.next_handle;
        next_handle = m.next_handle + 1;
      }),
    )

unfoldable pub clear_timer : String → ProposalManager → ProposalManager
clear_timer id m = elim (Dict.get m.timers id) [
  | none ↦ m
  | some h ↦ record m {
    scheduled = filter (λ t. not (nat_eq t.handle h)) m.scheduled;
    timers = Dict.delete m.timers id;
  }
]

unfoldable pub drop_pending : String → ProposalManager → ProposalManager
drop_pending id m = record m { pending = Dict.delete m.pending id }

-- the key that stands alone, if one does
unfoldable pub single_key : Dict Proposal → Option String
single_key ((k, p) ∷ []) = some k
single_key _ = none

-- the proposal that an approval or a rejection is about: the one named, or else the only one
unfoldable pub resolve : String → ProposalManager → Option (String × Proposal)
resolve id m = elim (Dict.get m.pending id) [
  | some p ↦ some (id, p)
  | none ↦ elim (single_key m.pending) [
    | none ↦ none
    | some k ↦ elim (Dict.get m.pending k) [ none ↦ none | some p ↦ some (k, p) ]
  ]
]

unfoldable pub approve_proposal : String → String → ProposalManager → Bool × ProposalManager
approve_proposal request_id id m = elim (resolve id m) [
  | none ↦ (false, m)
  | some (target, p) ↦ (
    true,
    drop_pending target (
        emit (goal_spawned request_id p.intent p.parameters p.user_message) (clear_timer target m)),
  )
]

-- `{ ...responseContext, isVoiceMessage: false }`
abbrev quiet : Option ResponseContext → Option ResponseContext
quiet none = none
quiet (some c) = some (record c { is_voice_message = false })

abbrev pub rejection : Proposal → Event
rejection p =
    agent_speak "❌ Tindakan dibatalkan sesuai permintaan." (quiet p.parameters.response_context)

abbrev pub expiration : Proposal → Event
expiration p =
    agent_speak "⏱ Waktu konfirmasi (60 detik) telah habis. Tindakan dibatalkan secara aman."
      (quiet p.parameters.response_context)

unfoldable pub reject_proposal : String → ProposalManager → Bool × ProposalManager
reject_proposal id m = elim (resolve id m) [
  | none ↦ (false, m)
  | some (target, p) ↦ (true, emit (rejection p) (drop_pending target (clear_timer target m)))
]

unfoldable pub expire_proposal : String → ProposalManager → Bool × ProposalManager
expire_proposal id m = elim (Dict.get m.pending id) [
  | none ↦ (false, m)
  | some p ↦ (
    true,
    emit (expiration p)
        (emit (proposal_expired id p.intent p.parameters) (drop_pending id (clear_timer id m))),
  )
]

-- `listPendingProposals`
abbrev pub list_pending_proposals : ProposalManager → List (String × Proposal)
list_pending_proposals m = m.pending

-- the event loop takes an entry off and runs its callback
unfoldable pub fire : Timeout → ProposalManager → ProposalManager
fire t m =
    (expire_proposal t.proposal_id
      (record m { scheduled = filter (λ u. not (nat_eq u.handle t.handle)) m.scheduled })).1

abbrev pub start : ProposalManager
start = record { pending = []; timers = []; scheduled = []; next_handle = 0; events = [] }

-- ===== src/Memory/Working.antt =====
-- src/memory/WorkingMemory.ts: events, and beliefs with two indices of them. The objects of a belief
-- in the three maps are one; a method changes only one that it then takes out of all of them, so the
-- values here are copies. `sort` is taken to be stable. `emitted` is the log of the events of
-- changes, the latest first, if there is a bus; `now` is the clock reading of a call and `fresh` the
-- id that it draws.
mod Index
pub mod History
unfoldable pub use Index.*
use sera_core.Prelude.{
  ℕ, ◌-◌, String, Bool, true, false, ◌&&◌, ◌||◌, not, Option, none, some, List, [], ◌∷◌, ◌++◌, ◌==◌,
  if◌then◌else◌, or_text, get_or, truthy, is_text, any, filter, length, take, drop, leb, ltb,
}
use sera_core.Dict
use sera_core.Dict.{Dict}
use sera_core.Text.{starts_with}
use sera_core.Memory.PolicyEngine.{
  MemorySource, reflection_inference, VerificationLevel, MemoryStatus, active, superseded,
  invalidated, pending, EpistemicStatus, Belief, MemoryProposal, set_of, Reason, Verdict, rejected,
  throws, mutates, evaluate,
}

unfoldable pub emit : MemoryItemMutated → WorkingMemory → WorkingMemory
emit e s = if s.has_bus then record s { emitted = e ∷ s.emitted } else s

unfoldable pub load_each : List Belief → WorkingMemory → WorkingMemory
load_each [] s = s
load_each (b ∷ bs) s = load_each bs (add_belief_to_index b s)

-- a snapshot has events and beliefs
unfoldable pub load_snapshot : List String → List Belief → WorkingMemory → WorkingMemory
load_snapshot events bs s =
    load_each bs (record s { events = events; beliefs = []; category_index = []; key_index = [] })

unfoldable pub get_snapshot : WorkingMemory → List String × List Belief
get_snapshot s = (s.events, Dict.values s.beliefs)

unfoldable pub store : String → WorkingMemory → WorkingMemory
store event s = prune (record s { events = s.events ++ event ∷ [] })

unfoldable pub add_id : Option String → List String → List String
add_id none ids = ids
add_id (some x) ids = if any (λ y. y == x) ids then ids else ids ++ x ∷ []

-- `new Set(ids)`
unfoldable pub to_set : List String → List String → List String
to_set [] seen = seen
to_set (x ∷ xs) seen = to_set xs (add_id (some x) seen)

-- the ids of a belief with the same content
unfoldable pub kept_ids : (Belief → List String) → String → Option Belief → List String
kept_ids ids content none = []
kept_ids ids content (some b) = if b.content == content then to_set (ids b) [] else []

unfoldable pub created_at_of : ℕ → Option Belief → ℕ
created_at_of now none = now
created_at_of now (some b) = b.created_at

unfoldable pub new_item :
    ℕ
    → String
    → MemoryProposal
    → MemoryStatus
    → VerificationLevel
    → EpistemicStatus
    → Option Belief
    → Belief
new_item now fresh p status verification epistemic existing = record {
  id = fresh;
  category = get_or (truthy p.category) "SEMANTIC";
  key = some p.key;
  status = some status;
  source = some p.source;
  verification_level = some verification;
  content = p.value;
  epistemic_status = epistemic;
  confidence = p.confidence;
  evidence_ids = add_id p.evidence (kept_ids (λ b. b.evidence_ids) p.value existing);
  contradiction_ids =
      add_id (truthy p.contradiction_id) (kept_ids (λ b. b.contradiction_ids) p.value existing);
  created_at = created_at_of now existing;
  updated_at = now;
}

-- the status of the belief that was there, which a change to ACTIVE has set to SUPERSEDED
unfoldable pub previous_status : MemoryStatus → Option Belief → Option MemoryStatus
previous_status status none = none
previous_status active (some b) = some superseded
previous_status _ (some b) = b.status

unfoldable pub leave_existing : Option Belief → WorkingMemory → WorkingMemory
leave_existing none s = s
leave_existing (some b) s = remove_belief_from_index b s

unfoldable pub mutate_protected :
    ℕ
    → String
    → MemoryProposal
    → MemoryStatus
    → VerificationLevel
    → EpistemicStatus
    → WorkingMemory
    → WorkingMemory
mutate_protected now fresh p status verification epistemic s =
    let existing = Dict.get s.key_index p.key in
    let item = new_item now fresh p status verification epistemic existing in
    emit
      (record {
        key = p.key;
        previous_status = previous_status status existing;
        new_status = status;
        source = some p.source;
        confidence = p.confidence;
      })
      (prune (add_belief_to_index item (leave_existing existing s)))

-- what the engine decides, carried out; `none` is a call that returns
unfoldable pub carry_out :
    ℕ → String → MemoryProposal → Verdict → WorkingMemory → Option Verdict × WorkingMemory
carry_out now fresh p (rejected r) s = (some (rejected r), s)
carry_out now fresh p throws s = (some throws, s)
carry_out now fresh p (mutates status verification epistemic) s =
    (none, mutate_protected now fresh p status verification epistemic s)

unfoldable pub propose_belief :
    ℕ → String → MemoryProposal → WorkingMemory → Option Verdict × WorkingMemory
propose_belief now fresh p s = carry_out now fresh p (evaluate p (Dict.get s.key_index p.key)) s

-- the proposal that a belief of the wallet is turned into
unfoldable pub proposal_of : String → Belief → MemoryProposal
proposal_of key b = record {
  key = key;
  value = b.content;
  source = get_or b.source reflection_inference;
  evidence = some (elim b.evidence_ids [ [] ↦ "unknown" | x ∷ xs ↦ or_text (some x) "unknown" ]);
  contradiction_id = none;
  confidence = b.confidence;
  category = none;
}

unfoldable pub wallet_key : Belief → Option String
wallet_key b = elim (truthy b.key) [
  | none ↦ none
  | some key ↦ if is_wallet key then some key else none
]

unfoldable pub store_plain : Belief → WorkingMemory → WorkingMemory
store_plain b s =
    emit
      (record {
        key = or_text b.key b.id;
        previous_status = none;
        new_status = get_or b.status active;
        source = b.source;
        confidence = b.confidence;
      })
      (prune (add_belief_to_index b s))

unfoldable pub store_belief : ℕ → String → Belief → WorkingMemory → Option Verdict × WorkingMemory
store_belief now fresh b s = elim (wallet_key b) [
  | some key ↦ propose_belief now fresh (proposal_of key b) s
  | none ↦ (none, store_plain b s)
]

unfoldable pub get_belief : String → WorkingMemory → Option Belief
get_belief id s = Dict.get s.beliefs id

unfoldable pub get_all_beliefs : WorkingMemory → List Belief
get_all_beliefs s = Dict.values s.beliefs

unfoldable pub get_beliefs_by_category : String → WorkingMemory → List Belief
get_beliefs_by_category category s = get_or (Dict.get s.category_index category) []

unfoldable pub get_belief_by_key : String → WorkingMemory → Option Belief
get_belief_by_key key s = Dict.get s.key_index key

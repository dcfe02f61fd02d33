-- ===== src/Governance/Proposals/History.antt =====
-- ProposalManager.ts: calls of the manager in a sequence, and which proposals they resolve.
use sera_core.Prelude.{
  ℕ, ◌+◌, ◌≤◌, String, ◌≡◌, refl, Option, none, some, List, [], ◌∷◌, arith, Option-cases,
  Bool-cases, inl, inr, ◌==◌, eq_iff, if◌then◌else◌, is_some, filter, not, nat_eq,
}
use sera_core.Dict
use sera_core.Dict.{Dict}
use sera_core.Dict.Laws.{get-set, get-delete}
use sera_core.Governance.Proposals.{
  Proposal, ProposeGoalPayload, Event, proposal_generated, goal_spawned, agent_speak, Timeout,
  ProposalManager, emit, create_proposal, clear_timer, drop_pending, id_of, resolve,
  approve_proposal, reject_proposal, expire_proposal, fire, start,
}

-- a call of the manager, with the identifiers and clock readings that it takes
pub data Command : Type 0 where
  create : ℕ → String → ProposeGoalPayload → Command
  approve : String → String → Command
  reject : String → Command
  expire : String → Command
  elapse : Timeout → Command

unfoldable pub run_command : Command → ProposalManager → ProposalManager
run_command (create now fresh p) m = (create_proposal now fresh p m).1
run_command (approve request_id id) m = (approve_proposal request_id id m).1
run_command (reject id) m = (reject_proposal id m).1
run_command (expire id) m = (expire_proposal id m).1
run_command (elapse t) m = fire t m

unfoldable pub run_commands : List Command → ProposalManager → ProposalManager
run_commands [] m = m
run_commands (c ∷ cs) m = run_commands cs (run_command c m)

abbrev target_of : Option (String × Proposal) → Option String
target_of none = none
target_of (some (k, p)) = some k

abbrev if_found : String → Option Proposal → Option String
if_found id none = none
if_found id (some p) = some id

-- the proposal that a call resolves, if it resolves one
abbrev resolved_by : Command → ProposalManager → Option String
resolved_by (create now fresh p) m = none
resolved_by (approve request_id id) m = target_of (resolve id m)
resolved_by (reject id) m = target_of (resolve id m)
resolved_by (expire id) m = if_found id (Dict.get m.pending id)
resolved_by (elapse t) m = if_found t.proposal_id (Dict.get m.pending t.proposal_id)

abbrev tally : String → Option String → ℕ
tally j none = 0
tally j (some k) = if k == j then 1 else 0

abbrev one_of : Option String → ℕ
one_of none = 0
one_of (some k) = 1

-- the calls that resolve a proposal
unfoldable pub resolutions : String → List Command → ProposalManager → ℕ
resolutions j [] m = 0
resolutions j (c ∷ cs) m = tally j (resolved_by c m) + resolutions j cs (run_command c m)

-- the calls that resolve any proposal
unfoldable pub all_resolutions : List Command → ProposalManager → ℕ
all_resolutions [] m = 0
all_resolutions (c ∷ cs) m = one_of (resolved_by c m) + all_resolutions cs (run_command c m)

-- the proposal cards of an identifier that were shown
abbrev pub generated : String → List Event → ℕ
generated j [] = 0
generated j (proposal_generated id i ps ∷ es) = generated j es + (if id == j then 1 else 0)
generated j (_ ∷ es) = generated j es

-- the resolutions on the record: a goal spawned, or the word that it was cancelled or ran out
abbrev pub resolved : List Event → ℕ
resolved [] = 0
resolved (goal_spawned r i ps u ∷ es) = resolved es + 1
resolved (agent_speak t c ∷ es) = resolved es + 1
resolved (_ ∷ es) = resolved es

-- one if the proposal waits, or else none
abbrev pub waiting : String → ProposalManager → ℕ
waiting j m = if is_some (Dict.get m.pending j) then 1 else 0

-- what a step from one state to another does to each identifier's proposals and to the record
record Accounts (o : Option String) (m m' : ProposalManager) : Type 0 where
  each :
      (j : String)
      → waiting j m' + tally j o + generated j m.events ≤ waiting j m + generated j m'.events
  on_record : resolved m'.events ≡ resolved m.events + one_of o

-- what `resolve` finds is pending
pub resolve-pending :
    (id : String) (m : ProposalManager) (k : String) (p : Proposal)
    → resolve id m ≡ some (k, p)
    → Dict.get m.pending k ≡ some p
unfolding resolve
resolve-pending id m k p h = ground arith

pub pending-clear_timer :
    (id : String) (m : ProposalManager) → (clear_timer id m).pending ≡ m.pending
unfolding clear_timer
pending-clear_timer id m = ground arith

pub events-clear_timer : (id : String) (m : ProposalManager) → (clear_timer id m).events ≡ m.events
unfolding clear_timer
events-clear_timer id m = ground arith

waiting-delete :
    (k j : String) (p : Proposal) (m m' : ProposalManager)
    → Dict.get m.pending k ≡ some p
    → m'.pending ≡ Dict.delete m.pending k
    → waiting j m' + tally j (some k) ≤ waiting j m
waiting-delete k j p m m' g d = elim (Bool-cases (k == j)) [
  | inl same ↦
      let there : Dict.get m.pending j ≡ some p = rw (← (eq_iff k j).0 same) g in
      rw (d, get-delete, same, there) (omega arith)
  | inr other ↦ rw (d, get-delete, other) (omega arith)
]

-- A pending proposal comes off the list as its resolution goes on the record.
close-Accounts :
    (k : String) (p : Proposal) (m m' : ProposalManager)
    → Dict.get m.pending k ≡ some p
    → m'.pending ≡ Dict.delete m.pending k
    → resolved m'.events ≡ resolved m.events + 1
    → ((j : String) → generated j m'.events ≡ generated j m.events)
    → Accounts (some k) m m'
close-Accounts k p m m' g d r e = record {
  each = λ j. omega (arith, waiting-delete k j p m m' g d, e j);
  on_record = r;
}

still-Accounts : (m : ProposalManager) → Accounts none m m
still-Accounts m = record { each = λ j. omega arith; on_record = omega arith }

create-Accounts :
    (now : ℕ) (fresh : String) (p : ProposeGoalPayload) (m : ProposalManager)
    → Accounts none m (create_proposal now fresh p m).1
unfolding create_proposal emit
create-Accounts now fresh p m = record {
  each = λ j. ground (arith, get-set m.pending (id_of fresh p) j p.proposal);
  on_record = omega arith;
}

approve-Accounts :
    (request_id id : String) (m : ProposalManager)
    → Accounts (resolved_by (approve request_id id) m) m (approve_proposal request_id id m).1
unfolding approve_proposal emit drop_pending
approve-Accounts request_id id m = elim (Option-cases (resolve id m)) [
  | inl e ↦ rw (e, approve_proposal) (still-Accounts m)
  | inr ((k, p), e) ↦
      rw (e, approve_proposal)
        (close-Accounts k p m _ (resolve-pending id m k p e) (rw pending-clear_timer refl)
          (rw events-clear_timer refl) (λ j. rw events-clear_timer refl))
]

reject-Accounts :
    (id : String) (m : ProposalManager)
    → Accounts (resolved_by (reject id) m) m (reject_proposal id m).1
unfolding reject_proposal emit drop_pending
reject-Accounts id m = elim (Option-cases (resolve id m)) [
  | inl e ↦ rw (e, reject_proposal) (still-Accounts m)
  | inr ((k, p), e) ↦
      rw (e, reject_proposal)
        (close-Accounts k p m _ (resolve-pending id m k p e) (rw pending-clear_timer refl)
          (rw events-clear_timer refl) (λ j. rw events-clear_timer refl))
]

expire-Accounts :
    (id : String) (m : ProposalManager)
    → Accounts (resolved_by (expire id) m) m (expire_proposal id m).1
unfolding expire_proposal emit drop_pending
expire-Accounts id m = elim (Option-cases (Dict.get m.pending id)) [
  | inl e ↦ rw (e, expire_proposal) (still-Accounts m)
  | inr (p, e) ↦
      rw (e, expire_proposal)
        (close-Accounts id p m _ e (rw pending-clear_timer refl) (rw events-clear_timer refl)
          (λ j. rw events-clear_timer refl))
]

run_command-Accounts :
    (c : Command) (m : ProposalManager) → Accounts (resolved_by c m) m (run_command c m)
unfolding run_command fire
run_command-Accounts (create now fresh p) m = create-Accounts now fresh p m
run_command-Accounts (approve request_id id) m = approve-Accounts request_id id m
run_command-Accounts (reject id) m = reject-Accounts id m
run_command-Accounts (expire id) m = expire-Accounts id m
run_command-Accounts (elapse t) m =
    let a =
      expire-Accounts t.proposal_id
        (record m { scheduled = filter (λ u. not (nat_eq u.handle t.handle)) m.scheduled }) in
    record { each = a.each; on_record = a.on_record }

run_commands-each :
    (j : String) (cs : List Command) (m : ProposalManager)
    → waiting j (run_commands cs m) + resolutions j cs m + generated j m.events
      ≤ waiting j m + generated j (run_commands cs m).events
unfolding run_commands resolutions
run_commands-each j [] m = omega arith
run_commands-each j (c ∷ cs) m =
    let a = run_command-Accounts c m in
    omega (arith, a.each j, run_commands-each j cs (run_command c m))

run_commands-resolved :
    (cs : List Command) (m : ProposalManager)
    → resolved (run_commands cs m).events ≡ resolved m.events + all_resolutions cs m
unfolding run_commands all_resolutions
run_commands-resolved [] m = omega arith
run_commands-resolved (c ∷ cs) m =
    let a = run_command-Accounts c m in
    omega (arith, a.on_record, run_commands-resolved cs (run_command c m))

-- After any history of creations, approvals, rejections, expirations and timeouts, stale and repeated
-- ones included: the calls that resolved the proposal of an identifier, and one more if a proposal
-- waits under it, are at most the cards that were shown with that identifier, so that a card shown
-- once is resolved at most once; and the calls that resolved any proposal are as many as the goals
-- spawned and the words of a cancellation or an expiration on the record.
pub resolved-le-generated :
    (cs : List Command)
    → ((j : String)
        → waiting j (run_commands cs start) + resolutions j cs start
          ≤ generated j (run_commands cs start).events)
      × (resolved (run_commands cs start).events ≡ all_resolutions cs start)
unfolding Dict.get
resolved-le-generated cs = (
  λ j. omega (arith, run_commands-each j cs start),
  omega (arith, run_commands-resolved cs start),
)

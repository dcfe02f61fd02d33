-- ===== src/Policy/Agreements/History.antt =====
-- What any history of calls keeps: an agreement that has ended stays ended, and what is granted is
-- bounded.
use sera_core.Prelude.{ℕ, String, ◌≡◌, ◌≢◌, refl, false, Option, none, some, List, [], ◌∷◌}
use sera_core.Dict
use sera_core.Dict.{Dict}
use sera_core.Policy.Agreements.{
  AutonomyAgreement, CreateAutonomyAgreement, AutonomyAgreementStore, AgreementStatus, active,
  revoked, expired, is_active, activate, get, get_all, revoke, record_activity, to_delegation_scope,
  has_full_access_for,
}
use sera_core.Policy.Agreements.Change.{
  after, IsBounded, Change, same, chain, Change-Ended, Change-AllBounded, expire_if_needed-Change,
  expire_each-Change, revoke-Change, record_activity-Change, to_delegation_scope-Change,
  activate-Change,
}

-- a call of the store, with its clock reading and the id that it generates
pub data Command : Type 0 where
  activates : (now : ℕ) (fresh : String) (q : CreateAutonomyAgreement) → Command
  gets : (now : ℕ) (id : String) → Command
  gets_all : (now : ℕ) → Command
  revokes : (now : ℕ) (id : String) (reason : Option String) → Command
  records : (now : ℕ) (id last : String) (next : Option String) → Command
  scopes : (now : ℕ) (id : String) → Command
  asks : (now : ℕ) (action : String) (principal : Option String) → Command

unfoldable pub run_command : Command → AutonomyAgreementStore → AutonomyAgreementStore
run_command (activates now fresh q) s = after (activate now fresh q s)
run_command (gets now id) s = (get now id s).1
run_command (gets_all now) s = (get_all now s).1
run_command (revokes now id reason) s = after (revoke now id reason s)
run_command (records now id last next) s = after (record_activity now id last next s)
run_command (scopes now id) s = after (to_delegation_scope now id s)
run_command (asks now action principal) s = (has_full_access_for now action principal s).1

unfoldable pub run_commands : List Command → AutonomyAgreementStore → AutonomyAgreementStore
run_commands [] s = s
run_commands (c ∷ cs) s = run_commands cs (run_command c s)

run_command-Change : (c : Command) (s : AutonomyAgreementStore) → Change s (run_command c s)
unfolding run_command get get_all has_full_access_for
run_command-Change (activates now fresh q) s = activate-Change now fresh q s
run_command-Change (gets now id) s = expire_if_needed-Change now id s
run_command-Change (gets_all now) s = expire_each-Change now (Dict.keys s) s
run_command-Change (revokes now id reason) s = revoke-Change now id reason s
run_command-Change (records now id last next) s = record_activity-Change now id last next s
run_command-Change (scopes now id) s = to_delegation_scope-Change now id s
run_command-Change (asks now action principal) s = expire_each-Change now (Dict.keys s) s

run_commands-Change :
    (cs : List Command) (s : AutonomyAgreementStore) → Change s (run_commands cs s)
unfolding run_commands
run_commands-Change [] s = same
run_commands-Change (c ∷ cs) s =
    chain (run_command-Change c s) (run_commands-Change cs (run_command c s))

unless_active : (s : AgreementStatus) → s ≢ active → is_active s ≡ false
unfolding is_active
unless_active active h = absurd (h refl)
unless_active revoked h = refl
unless_active expired h = refl

-- An agreement that is revoked or has expired stays so: no history of calls, activations under its
-- own id included, removes it or makes it active again.
pub run_commands-Ended :
    (cs : List Command) (s : AutonomyAgreementStore) (id : String) (a : AutonomyAgreement)
    → Dict.get s id ≡ some a
    → a.status ≢ active
    → (b : AutonomyAgreement) × (Dict.get (run_commands cs s) id ≡ some b) × (b.status ≡ a.status)
run_commands-Ended cs s id a g off =
    Change-Ended id a.status (unless_active a.status off) (run_commands-Change cs s) (a, g, refl)

-- After any history of calls from an empty store, every agreement that gives full access to
-- everything has tool chains.
run_commands-IsBounded :
    (cs : List Command) (id : String) (a : AutonomyAgreement)
    → Dict.get (run_commands cs []) id ≡ some a
    → IsBounded a
unfolding Dict.get
run_commands-IsBounded cs id a e =
    Change-AllBounded (run_commands-Change cs []) (λ i b g. let z : none ≡ some b = g in cc) id a e

-- ===== src/Policy/Agreements.antt =====
-- src/core/autonomy/AutonomyAgreementStore.ts: the agreements that give an agent its autonomy. A
-- method takes one clock reading `now`; a method that reads an agreement may first let it expire, so
-- each returns the store. The objects that the map holds are changed in place, here by a `set` on
-- their own key; what is handed out are copies.
pub mod Grants
pub mod Change
pub mod History
use sera_core.Prelude.{
  ℕ, String, Bool, true, false, ◌||◌, ◌&&◌, not, Option, none, some, List, [], ◌∷◌, ◌==◌,
  if◌then◌else◌, any, is_empty, or_text, truthy,
}
use Prim.Native.String.{◌++◌}
use sera_core.Dict
use sera_core.Dict.{Dict}
use sera_core.Text.{trim}
use sera_core.Policy.Authority.{
  AutonomyMode, assistant, full_access, Permission, ToolChain, DelegationScope, has_expired,
}

pub data AgreementStatus : Type 0 where
  active revoked expired : AgreementStatus

pub record AutonomyAgreement : Type 0 where
  pub id : String
  pub principal_id : String
  pub title : String
  pub intent : String
  pub mode : AutonomyMode
  pub permissions : List String
  pub status : AgreementStatus
  pub created_at : ℕ
  pub updated_at : ℕ
  pub expires_at : Option ℕ
  pub last_action_summary : Option String
  pub next_action_summary : Option String
  pub revocation_reason : Option String
  pub allowed_tool_chains : Option (List ToolChain)

pub record CreateAutonomyAgreement : Type 0 where
  pub id : Option String
  pub principal_id : String
  pub title : String
  pub intent : String
  pub mode : AutonomyMode
  pub permissions : List String
  pub expires_at : Option ℕ
  pub next_action_summary : Option String
  pub allowed_tool_chains : Option (List ToolChain)

abbrev pub AutonomyAgreementStore : Type 0
AutonomyAgreementStore = Dict AutonomyAgreement

-- the messages of the errors thrown
pub data AgreementError : Type 0 where
  incomplete no_permission wildcard_without_chains : AgreementError
  already_exists does_not_exist not_active : String → AgreementError

-- a method that may throw; what it changed before stays changed
pub data Result {ℓ} (A : Type ℓ) : Type ℓ where
  ok : A → AutonomyAgreementStore → Result A
  throw : AgreementError → AutonomyAgreementStore → Result A

unfoldable pub is_active : AgreementStatus → Bool
is_active active = true
is_active _ = false

unfoldable pub is_full : AutonomyMode → Bool
is_full full_access = true
is_full assistant = false

-- `list.includes(x)`
abbrev pub contains : String → List String → Bool
contains x xs = any (λ y. y == x) xs

-- `[...new Set(xs)]`: the first of equal texts stays
unfoldable pub unique_after : List String → List String → List String
unique_after seen [] = []
unique_after seen (x ∷ xs) =
    let rest = unique_after (x ∷ seen) xs in if contains x seen then rest else x ∷ rest

unfoldable pub lacks_chains : Option (List ToolChain) → Bool
lacks_chains none = true
lacks_chains (some []) = true
lacks_chains (some (c ∷ cs)) = false

-- the checks of the input, in their order
unfoldable pub rejected : CreateAutonomyAgreement → Option AgreementError
rejected q =
    if is_empty (trim q.principal_id) || is_empty (trim q.title) || is_empty (trim q.intent)
    then some incomplete
    else elim q.permissions [
      | [] ↦ some no_permission
      | p ∷ ps ↦
          if is_full q.mode && contains "*" (p ∷ ps) && lacks_chains q.allowed_tool_chains
          then some wildcard_without_chains
          else none
    ]

unfoldable pub new_agreement : ℕ → String → CreateAutonomyAgreement → AutonomyAgreement
new_agreement now id q = record {
  id = id;
  principal_id = q.principal_id;
  title = q.title;
  intent = q.intent;
  mode = q.mode;
  permissions = unique_after [] q.permissions;
  status = active;
  created_at = now;
  updated_at = now;
  expires_at = q.expires_at;
  last_action_summary = none;
  next_action_summary = q.next_action_summary;
  revocation_reason = none;
  allowed_tool_chains = q.allowed_tool_chains;
}

-- `fresh` is the generated id
unfoldable pub activate :
    ℕ → String → CreateAutonomyAgreement → AutonomyAgreementStore → Result AutonomyAgreement
activate now fresh q s = elim (rejected q) [
  | some e ↦ throw e s
  | none ↦
      let id = or_text q.id fresh in
      if Dict.has s id
      then throw (already_exists id) s
      else let a = new_agreement now id q in ok a (Dict.set s id a)
]

unfoldable pub lapsed : ℕ → AutonomyAgreement → AutonomyAgreement
lapsed now a =
    if is_active a.status && has_expired now a.expires_at
    then record a { status = expired; updated_at = now }
    else a

unfoldable pub expire_if_needed : ℕ → String → AutonomyAgreementStore → AutonomyAgreementStore
expire_if_needed now id s = elim (Dict.get s id) [
  | none ↦ s
  | some a ↦ Dict.set s id (lapsed now a)
]

unfoldable pub get :
    ℕ → String → AutonomyAgreementStore → Option AutonomyAgreement × AutonomyAgreementStore
get now id s = let s' = expire_if_needed now id s in (Dict.get s' id, s')

unfoldable pub expire_each : ℕ → List String → AutonomyAgreementStore → AutonomyAgreementStore
expire_each now [] s = s
expire_each now (id ∷ ids) s = expire_each now ids (expire_if_needed now id s)

unfoldable pub get_all :
    ℕ → AutonomyAgreementStore → List AutonomyAgreement × AutonomyAgreementStore
get_all now s = let s' = expire_each now (Dict.keys s) s in (Dict.values s', s')

abbrev or_reason : Option String → String
or_reason none = "Revoked by user"
or_reason (some r) = r

unfoldable pub withdrawn : ℕ → Option String → AutonomyAgreement → AutonomyAgreement
withdrawn now reason a = record a {
  status = revoked;
  revocation_reason = some (or_reason reason);
  updated_at = now;
}

-- an agreement that is not active is left as it is
unfoldable pub revoke :
    ℕ → String → Option String → AutonomyAgreementStore → Result AutonomyAgreement
revoke now id reason s = elim (Dict.get s id) [
  | none ↦ throw (does_not_exist id) s
  | some a ↦
      if is_active a.status
      then ok (withdrawn now reason a) (Dict.set s id (withdrawn now reason a))
      else ok a s
]

unfoldable pub require_active : ℕ → String → AutonomyAgreementStore → Result AutonomyAgreement
require_active now id s =
    let s' = expire_if_needed now id s in
    elim (Dict.get s' id) [
      | none ↦ throw (not_active id) s'
      | some a ↦ if is_active a.status then ok a s' else throw (not_active id) s'
    ]

unfoldable pub record_activity :
    ℕ → String → String → Option String → AutonomyAgreementStore → Result (Unit {0})
record_activity now id last next s = elim (require_active now id s) [
  | throw e s' ↦ throw e s'
  | ok a s' ↦ ok tt (
      Dict.set s' id (record a {
        last_action_summary = some last;
        next_action_summary = next;
        updated_at = now;
      }))
]

unfoldable pub permission_each : List String → List Permission
permission_each [] = []
permission_each (action ∷ rest) = record { action = action } ∷ permission_each rest

unfoldable pub scope_of : AutonomyAgreement → DelegationScope
scope_of a = record {
  id = "scope-" ++ a.id;
  principal_id = a.principal_id;
  allowed_permissions = permission_each a.permissions;
  requires_approval_permissions = if is_full a.mode then [] else permission_each a.permissions;
  expires_at = a.expires_at;
  autonomy_mode = some a.mode;
  agreement_id = some a.id;
  allowed_tool_chains = a.allowed_tool_chains;
}

unfoldable pub to_delegation_scope : ℕ → String → AutonomyAgreementStore → Result DelegationScope
to_delegation_scope now id s = elim (require_active now id s) [
  | throw e s' ↦ throw e s'
  | ok a s' ↦ ok (scope_of a) s'
]

-- an absent or empty principal stands for all
unfoldable pub is_principal : Option String → AutonomyAgreement → Bool
is_principal principal_id a = elim (truthy principal_id) [
  | none ↦ true
  | some p ↦ a.principal_id == p
]

unfoldable pub grants : String → Option String → AutonomyAgreement → Bool
grants action principal_id a =
    is_active a.status
    && is_principal principal_id a
    && is_full a.mode
    && any (λ p. p == action || p == "*") a.permissions

unfoldable pub has_full_access_for :
    ℕ → String → Option String → AutonomyAgreementStore → Bool × AutonomyAgreementStore
has_full_access_for now action principal_id s =
    let (agreements, s') = get_all now s in (any (grants action principal_id) agreements, s')

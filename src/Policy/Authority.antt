-- ===== src/Policy/Authority.antt =====
-- src/delegation/: the scope of a delegation, and the authority that an action has under it. Of the
-- permissions, only the actions are kept; `now` is the clock.
pub mod Laws
use sera_core.Prelude.{
  ℕ, String, Bool, true, false, ◌||◌, ◌&&◌, not, Option, none, some, List, ◌==◌, if◌then◌else◌, any,
  ltb, nat_eq,
}

pub data AutonomyMode : Type 0 where
  assistant full_access : AutonomyMode

pub record Permission : Type 0 where
  pub action : String

pub record ToolChain : Type 0 where
  pub chain : List String
  pub label : Option String

pub record DelegationScope : Type 0 where
  pub id : String
  pub principal_id : String
  pub allowed_permissions : List Permission
  pub requires_approval_permissions : List Permission
  pub expires_at : Option ℕ
  pub autonomy_mode : Option AutonomyMode
  pub agreement_id : Option String
  pub allowed_tool_chains : Option (List ToolChain)

pub record AuthorityContext : Type 0 where
  pub principal_id : String
  pub goal_id : Option String
  pub work_item_id : Option String
  pub action : String

pub data AuthorityStatus : Type 0 where
  allowed denied requires_approval : AuthorityStatus

-- why; the texts of the reasons carry the action and the agreement
pub data Reason : Type 0 where
  principal_mismatch scope_expired : Reason
  not_permitted needs_approval is_allowed : String → Reason
  by_agreement : String → String → Reason

pub record AuthorityDecision : Type 0 where
  pub status : AuthorityStatus
  pub reason : Reason

-- an action or the wildcard
unfoldable pub permits : String → Permission → Bool
permits action p = p.action == action || p.action == "*"

-- `scope.expiresAt && Date.now() > scope.expiresAt`
unfoldable pub has_expired : ℕ → Option ℕ → Bool
has_expired now none = false
has_expired now (some e) = not (nat_eq e 0) && ltb e now

unfoldable pub is_full_access : Option AutonomyMode → Bool
is_full_access (some full_access) = true
is_full_access _ = false

-- `scope.agreementId || scope.id`
abbrev agreement_of : DelegationScope → String
agreement_of scope = elim scope.agreement_id [
  | none ↦ scope.id
  | some a ↦ if a == "" then scope.id else a
]

unfoldable pub evaluate : ℕ → AuthorityContext → DelegationScope → AuthorityDecision
evaluate now context scope =
    if not (scope.principal_id == context.principal_id)
    then record { status = denied; reason = principal_mismatch }
    else if has_expired now scope.expires_at
    then record { status = denied; reason = scope_expired }
    else if not (any (permits context.action) scope.allowed_permissions)
    then record { status = denied; reason = not_permitted context.action }
    else if any (permits context.action) scope.requires_approval_permissions
        && not (is_full_access scope.autonomy_mode)
    then record { status = requires_approval; reason = needs_approval context.action }
    else record {
      status = allowed;
      reason =
          if is_full_access scope.autonomy_mode
          then by_agreement context.action (agreement_of scope)
          else is_allowed context.action;
    }

-- ===== src/Policy/Authority/Laws.antt =====
-- When an action is allowed, and what full access changes.
use sera_core.Prelude.{
  ℕ, ◌≤◌, ◌≡◌, ◌↔◌, ◌⊎◌, refl, true, false, Option, none, some, eq_iff, any, arith,
}
use sera_core.Policy.Authority.{
  full_access, DelegationScope, AuthorityContext, allowed, denied, requires_approval, permits,
  has_expired, is_full_access, evaluate,
}

-- the scope lasts: it has no expiry, or zero, or one that is not past
abbrev pub Lasts : ℕ → Option ℕ → Type 0
Lasts now none = Unit
Lasts now (some e) = (e ≡ 0) ⊎ (now ≤ e)

pub has_expired-Lasts : (now : ℕ) (o : Option ℕ) → (has_expired now o ≡ false) ↔ Lasts now o
unfolding has_expired
has_expired-Lasts now none = (λ h. tt, λ h. refl)
has_expired-Lasts now (some e) = ground arith

-- An action is allowed exactly when the scope is the principal's own, has not expired, permits the
-- action, and demands no approval of it or is under full access.
pub evaluate-allowed_iff :
    (now : ℕ) (context : AuthorityContext) (scope : DelegationScope)
    → ((evaluate now context scope).status ≡ allowed) ↔ (
        (scope.principal_id ≡ context.principal_id)
        × Lasts now scope.expires_at
        × (any (permits context.action) scope.allowed_permissions ≡ true)
        × ((any (permits context.action) scope.requires_approval_permissions ≡ false)
            ⊎ (is_full_access scope.autonomy_mode ≡ true)))
unfolding evaluate
evaluate-allowed_iff now context scope =
    ground (
      arith,
      has_expired-Lasts now scope.expires_at,
      eq_iff scope.principal_id context.principal_id,
    )

-- Full access turns every demand for approval into an allowance, and changes no denial and no
-- allowance.
evaluate-full_access :
    (now : ℕ) (context : AuthorityContext) (scope : DelegationScope)
    → (evaluate now context (record scope { autonomy_mode = some full_access })).status
      ≡ elim (evaluate now context scope).status [
        | denied ↦ denied
        | requires_approval ↦ allowed
        | allowed ↦ allowed
      ]
unfolding evaluate is_full_access
evaluate-full_access now context scope = ground arith

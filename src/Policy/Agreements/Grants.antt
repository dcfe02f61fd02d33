-- ===== src/Policy/Agreements/Grants.antt =====
-- What an agreement grants, through the scope that is made of it and the authority under that scope.
use sera_core.Prelude.{
  ℕ, String, ◌≡◌, ◌↔◌, ◌⊎◌, refl, true, false, ◌||◌, none, some, List, [], ◌∷◌, ◌==◌, eq_refl, any,
  arith, Bool-cases, Option-cases, inl, inr, ◌∙◌, ap, sym, subst,
}
use sera_core.Dict
use sera_core.Dict.{Dict}
use sera_core.Dict.Laws.{get-set}
use sera_core.Policy.Authority
use sera_core.Policy.Authority.{
  AuthorityContext, DelegationScope, AutonomyMode, AuthorityStatus, permits, has_expired,
  is_full_access, full_access, assistant,
}
use sera_core.Policy.Authority.Laws.{Lasts, has_expired-Lasts, evaluate-allowed_iff}
use sera_core.Policy.Agreements.{
  AutonomyAgreement, AutonomyAgreementStore, active, Result, ok, throw, is_active, is_full, lapsed,
  not_active, expire_if_needed, require_active, scope_of, permission_each, to_delegation_scope,
}

-- an action is allowed under the scope that was made, if one was
abbrev pub Authorizes : ℕ → AuthorityContext → Result DelegationScope → Type 0
Authorizes now context (throw e s) = ⊥
Authorizes now context (ok scope s) =
    (Authority.evaluate now context scope).status ≡ AuthorityStatus.allowed

any-permission_each :
    (action : String) (ps : List String)
    → any (permits action) (permission_each ps) ≡ any (λ p. p == action || p == "*") ps
unfolding permission_each permits
any-permission_each action [] = refl
any-permission_each action (p ∷ ps) = rw (any-permission_each action ps) refl

-- what a grant of an action asks of an agreement
abbrev pub Grants : ℕ → AuthorityContext → AutonomyAgreement → Type 0
Grants now context a =
    (a.status ≡ active)
    × Lasts now a.expires_at
    × (a.mode ≡ full_access)
    × (a.principal_id ≡ context.principal_id)
    × (any (λ p. p == context.action || p == "*") a.permissions ≡ true)

is_full-cases : (m : AutonomyMode) → (m ≡ full_access) ⊎ (m ≡ assistant)
is_full-cases full_access = inl refl
is_full-cases assistant = inr refl

Authorizes-scope_of :
    (now : ℕ) (context : AuthorityContext) (a : AutonomyAgreement)
    → ((Authority.evaluate now context (scope_of a)).status ≡ AuthorityStatus.allowed) ↔ (
        Lasts now a.expires_at
        × (a.mode ≡ full_access)
        × (a.principal_id ≡ context.principal_id)
        × (any (λ p. p == context.action || p == "*") a.permissions ≡ true))
unfolding scope_of is_full is_full_access
Authorizes-scope_of now context a =
    let (to, from) = evaluate-allowed_iff now context (scope_of a) in
    let permitted = any-permission_each context.action a.permissions in
    elim (is_full-cases a.mode) [
      | inl full ↦ (
        λ h. let k = to h in (k.1, full, k.0, sym permitted ∙ k.2),
        λ h. from (h.2, h.0, permitted ∙ h.3, inr (ap (λ m. is_full_access (some m)) full)),
      )
      | inr assist ↦
          let asks : is_full a.mode ≡ false = ap is_full assist in
          let bound : is_full_access (some a.mode) ≡ false =
            ap (λ m. is_full_access (some m)) assist in
          (
            λ h. let k = to h in absurd (ground (arith, k, asks, bound)),
            λ h. let z = sym assist ∙ h.1 in cc,
          )
    ]

lapsed-IsActive :
    (now : ℕ) (a : AutonomyAgreement)
    → (is_active (lapsed now a).status ≡ true)
      ↔ ((a.status ≡ active) × (has_expired now a.expires_at ≡ false))
unfolding lapsed is_active
lapsed-IsActive now a = ground arith

lapsed_live :
    (now : ℕ) (a : AutonomyAgreement) → has_expired now a.expires_at ≡ false → lapsed now a ≡ a
unfolding lapsed
lapsed_live now a h = ground arith

get-expire_if_needed :
    (now : ℕ) (id : String) (s : AutonomyAgreementStore) (a : AutonomyAgreement)
    → Dict.get s id ≡ some a
    → Dict.get (expire_if_needed now id s) id ≡ some (lapsed now a)
unfolding expire_if_needed
get-expire_if_needed now id s a h =
    rw (h, expire_if_needed) (rw (get-set s id id (lapsed now a)) (rw eq_refl refl))

-- what `Authorizes` says of a scope that is to be made
Authorizes-known :
    (now : ℕ) (id : String) (context : AuthorityContext) (s : AutonomyAgreementStore)
    (a : AutonomyAgreement)
    → Dict.get s id ≡ some a
    → Authorizes now context (to_delegation_scope now id s) ↔ Grants now context a
unfolding to_delegation_scope require_active
Authorizes-known now id context s a h =
    let on = lapsed-IsActive now a in
    let allows = Authorizes-scope_of now context a in
    rw (get-expire_if_needed now id s a h, to_delegation_scope)
      (elim (Bool-cases (is_active (lapsed now a).status)) [
        | inr off ↦ rw off (
          λ h. absurd h,
          λ h. let z = on.1 (h.0, (has_expired-Lasts now a.expires_at).1 h.1) in cc,
        )
        | inl live ↦
            let (is_on, lasts) = on.0 live in
            rw live (
              rw (lapsed_live now a lasts) (
                λ h. let k = allows.0 h in (is_on, k.0, k.1, k.2, k.3),
                λ h. allows.1 (h.1, h.2, h.3, h.4),
              ))
      ])

expire_if_needed-unknown :
    (now : ℕ) (id : String) (s : AutonomyAgreementStore)
    → Dict.get s id ≡ none
    → expire_if_needed now id s ≡ s
unfolding expire_if_needed
expire_if_needed-unknown now id s h = rw (h, expire_if_needed) refl

to_delegation_scope-unknown :
    (now : ℕ) (id : String) (s : AutonomyAgreementStore)
    → Dict.get s id ≡ none
    → to_delegation_scope now id s ≡ throw (not_active id) (expire_if_needed now id s)
unfolding to_delegation_scope require_active
to_delegation_scope-unknown now id s h =
    let gone : Dict.get (expire_if_needed now id s) id ≡ none =
      rw (expire_if_needed-unknown now id s h) h in
    rw (gone, to_delegation_scope) refl

-- An action is allowed under the scope that is made of an agreement exactly when the store has the
-- agreement, it is active and has not expired, it gives full access, to that principal, and it names
-- the action or the wildcard.
pub Authorizes-iff :
    (now : ℕ) (id : String) (context : AuthorityContext) (s : AutonomyAgreementStore)
    → Authorizes now context (to_delegation_scope now id s)
      ↔ ((a : AutonomyAgreement) × (Dict.get s id ≡ some a) × Grants now context a)
Authorizes-iff now id context s = elim (Option-cases (Dict.get s id)) [
  | inl h ↦ (λ k. absurd (rw (to_delegation_scope-unknown now id s h) at k), λ k. let e = k.1 in cc)
  | inr (a, h) ↦
      let known = Authorizes-known now id context s a h in
      (
        λ k. (a, h, known.0 k),
        λ k.
            let (x, e, g) = k in
            let same : x ≡ a = cc (e, h) in known.1 (subst (Grants now context) same g),
      )
]

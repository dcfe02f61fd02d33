-- ===== src/Identity/SessionToken/Laws.antt =====
-- A session token reads back for seven days.
use Prim.Native.String.{◌++◌}
use sera_core.Prelude.{
  ℕ, ◌+◌, String, ◌≡◌, refl, false, Option, none, some, [], ◌∷◌, eq_refl, is_empty, if◌then◌else◌,
  ltb, nat_eq, arith, ◌∙◌, ap,
}
use sera_core.Text.{split_on}
use sera_core.Text.Laws.{split_on-Free, split_on-append, dot, dot-append}
use sera_core.Identity.SessionToken.{
  SessionTokenPrincipal, Signing, session_ttl, has_lapsed, is_absent, accepted,
  generate_session_token, verify_parts, verify_session_token,
}

-- the principal of a token that is made now
abbrev pub principal_of : ℕ → String → Option String → Option String → SessionTokenPrincipal
principal_of now user_id wallet email = record {
  user_id = some user_id;
  personal_wallet_address = wallet;
  email = email;
  expiry = some (now + session_ttl);
}

accepted_lem :
    (now now' : ℕ) (user_id : String) (wallet email : Option String)
    → is_empty user_id ≡ false
    → accepted now' (some (principal_of now user_id wallet email)) ≡ (
        if ltb (now + session_ttl) now' then none else some (principal_of now user_id wallet email))
unfolding accepted is_absent has_lapsed
accepted_lem now now' user_id wallet email filled =
    let named : is_absent (some user_id) ≡ false = rw (filled, is_absent) refl in
    let pos : nat_eq (now + session_ttl) 0 ≡ false = ground arith in
    rw (named, accepted) (rw (pos, has_lapsed) refl)

module _ (c : Signing) where
  split-token :
      (now : ℕ) (user_id : String) (wallet email : Option String)
      → split_on b'.' (generate_session_token c now user_id wallet email)
        ≡ c.encode (principal_of now user_id wallet email)
          ∷ c.hmac (c.encode (principal_of now user_id wallet email))
          ∷ []
  unfolding generate_session_token
  split-token now user_id wallet email =
      let payload = c.encode (principal_of now user_id wallet email) in
      ap (λ t. split_on b'.' (payload ++ t)) (dot-append (c.hmac payload))
      ∙ split_on-append b'.' dot payload (c.hmac payload) refl (c.encode-Free _)
      ∙ ap (λ ws. payload ∷ ws) (split_on-Free b'.' (c.hmac payload) (c.hmac-Free payload))

  -- A session token reads back as its principal for seven days, their end included, and is refused
  -- after; for a user that is not empty, and where the encoding reads the principal back.
  pub verify-generate :
      (now now' : ℕ) (user_id : String) (wallet email : Option String)
      → c.decode (c.encode (principal_of now user_id wallet email))
        ≡ some (principal_of now user_id wallet email)
      → is_empty user_id ≡ false
      → verify_session_token c now' (generate_session_token c now user_id wallet email) ≡ (
          if ltb (now + session_ttl) now'
          then none
          else some (principal_of now user_id wallet email))
  unfolding verify_session_token verify_parts
  verify-generate now now' user_id wallet email readable filled =
      rw (split-token now user_id wallet email) (
        rw (c.encode_filled _) (
          rw (c.hmac_filled _)
            (rw eq_refl (rw readable (accepted_lem now now' user_id wallet email filled)))))

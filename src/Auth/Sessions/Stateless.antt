-- ===== src/Auth/Sessions/Stateless.antt =====
-- An access token carries its session in its signed text, so every replica reads it without the map.
use Prim.Native.Char.{Char}
use Prim.Native.String.{◌++◌}
use text.Mathlib.TextLemmas.{cons-append}
use sera_core.Prelude.{
  ℕ, ◌≤◌, ◌<◌, String, ◌≡◌, refl, false, none, some, is_empty, truthy, Bool-cases, Option-cases,
  inl, inr, ap, sym, subst, ◌==◌,
}
use sera_core.Dict
use sera_core.Dict.{Dict}
use sera_core.Dict.Laws.{get-delete, get-delete_self}
use sera_core.Text.{to_lower, lower_char}
use sera_core.Text.Laws.{IsPlain, trim-IsPlain, cons-filled}
use sera_core.Auth.OauthStore.{Payload, Crypto, ReadsBack, OauthToken, OauthStore, sign}
use sera_core.Auth.OauthStore.Signed.{verify-sign, sign-IsPlain}
use sera_core.Auth.Sessions.{
  strip_ci, clean_token, resolve_signed, resolve_clean, resolve_session, revoke_access,
  revoke_refresh, revoke_token,
}

abbrev s_char : Char
s_char = Char.char 115 tt

strip_ci-token : (rest : String) → strip_ci "bearer" ("sera_mcp_at_" ++ rest) ≡ none
unfolding strip_ci lower_char
strip_ci-token rest = rw (cons-append s_char "era_mcp_at_" rest) refl

clean_token-plain :
    (rest : String)
    → IsPlain ("sera_mcp_at_" ++ rest)
    → clean_token ("sera_mcp_at_" ++ rest) ≡ "sera_mcp_at_" ++ rest
unfolding clean_token
clean_token-plain rest plain = rw (strip_ci-token rest, clean_token) (trim-IsPlain _ plain)

-- what the halves of a revocation leave: the secret, and no entry of the text
abbrev Drops : String → OauthStore → OauthStore → Type 0
Drops text s s' = (s'.signing_secret ≡ s.signing_secret) × (Dict.get s'.tokens text ≡ none)

get-delete-none :
    (d : Dict OauthToken) (k j : String) → Dict.get d j ≡ none → Dict.get (Dict.delete d k) j ≡ none
get-delete-none d k j h = elim (Bool-cases (k == j)) [
  | inl e ↦ rw (get-delete, e) refl
  | inr e ↦ rw (get-delete, e) h
]

revoke_access-Drops : (text : String) (s : OauthStore) → Drops text s (revoke_access text s).1
unfolding revoke_access
revoke_access-Drops text s = elim (Option-cases (Dict.get s.tokens text)) [
  | inl g ↦ rw (g, revoke_access) (refl, g)
  | inr (t, g) ↦ rw (g, revoke_access) (refl, get-delete_self s.tokens text)
]

revoke_refresh-Drops :
    (text : String) (s s' : OauthStore) → Drops text s s' → Drops text s (revoke_refresh text s').1
unfolding revoke_refresh
revoke_refresh-Drops text s s' h = elim (Option-cases (Dict.get s'.refresh_tokens text)) [
  | inl g ↦ rw (g, revoke_refresh) h
  | inr (t, g) ↦ rw (g, revoke_refresh) (h.0, get-delete-none s'.tokens t.access_token text h.1)
]

revoke_token-Drops : (text : String) (s : OauthStore) → Drops text s (revoke_token text s).1
unfolding revoke_token
revoke_token-Drops text s =
    revoke_refresh-Drops text s (revoke_access text s).1 (revoke_access-Drops text s)

module _ (c : Crypto) where
  clean_token-sign :
      (secret : String) (p : Payload)
      → clean_token (sign c "sera_mcp_at_" secret p) ≡ sign c "sera_mcp_at_" secret p
  unfolding sign
  clean_token-sign secret p = clean_token-plain _ (
      unfold sign in
      sign-IsPlain c "sera_mcp_at_" secret p (
        refl,
        (refl, (refl, (refl, (refl, (refl, (refl, (refl, (refl, (refl, (refl, (refl, tt))))))))))),
      ))

  sign-filled : (secret : String) (p : Payload) → is_empty (sign c "sera_mcp_at_" secret p) ≡ false
  unfolding sign
  sign-filled secret p =
      rw (cons-append s_char "era_mcp_at_" (c.encode p ++ ("." ++ c.hmac secret (c.encode p))))
        (cons-filled s_char _)

  -- A text that was signed as an access token, with a session that is not empty and an expiry after
  -- zero, resolves to its session in lower case on every store with the same secret that does not
  -- hold it, up to and at its expiry; where the encoding reads the payload back.
  pub resolve_session-signed :
      (now e : ℕ) (p : Payload) (session : String) (s : OauthStore)
      → ReadsBack c p
      → p.exp ≡ some e
      → 0 < e
      → now ≤ e
      → p.sub ≡ some session
      → is_empty session ≡ false
      → Dict.get s.tokens (sign c "sera_mcp_at_" s.signing_secret p) ≡ none
      → resolve_session c now (sign c "sera_mcp_at_" s.signing_secret p) s
        ≡ (some (to_lower session), s)
  unfolding resolve_session resolve_clean resolve_signed
  resolve_session-signed now e p session s readable h pos live sub filled gone =
      rw (sign-filled s.signing_secret p) (
        rw (clean_token-sign s.signing_secret p) (
          rw (gone, resolve_clean)
            (rw
              (
                verify-sign c "sera_mcp_at_" s.signing_secret now e p readable h pos live,
                resolve_signed,
              )
              (rw (sub, truthy) (rw filled refl)))))

  -- Revoking an access token does not end it: after `revoke_token` with the token's own text, on any
  -- state of the maps, the text still resolves to its session in lower case up to and at its expiry;
  -- for a session that is not empty, an expiry after zero, and where the encoding reads the payload
  -- back.
  pub revoke_token-resolves :
      (now e : ℕ) (p : Payload) (session : String) (s : OauthStore)
      → ReadsBack c p
      → p.exp ≡ some e
      → 0 < e
      → now ≤ e
      → p.sub ≡ some session
      → is_empty session ≡ false
      → (resolve_session c now
          (sign c "sera_mcp_at_" s.signing_secret p)
          (revoke_token (sign c "sera_mcp_at_" s.signing_secret p) s).1).0
        ≡ some (to_lower session)
  revoke_token-resolves now e p session s readable h pos live sub filled =
      let (key, gone) = revoke_token-Drops (sign c "sera_mcp_at_" s.signing_secret p) s in
      ap (λ r. r.0)
        (subst
          (λ k.
            resolve_session c now (sign c "sera_mcp_at_" k p)
              (revoke_token (sign c "sera_mcp_at_" s.signing_secret p) s).1
            ≡ (
              some (to_lower session),
              (revoke_token (sign c "sera_mcp_at_" s.signing_secret p) s).1,
            ))
          key
          (resolve_session-signed now e p session
            (revoke_token (sign c "sera_mcp_at_" s.signing_secret p) s).1 readable h pos live sub
            filled
            (subst
              (λ k.
                Dict.get (revoke_token (sign c "sera_mcp_at_" s.signing_secret p) s).1.tokens
                  (sign c "sera_mcp_at_" k p)
                ≡ none)
              (sym key) gone)))

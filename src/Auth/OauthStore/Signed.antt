-- ===== src/Auth/OauthStore/Signed.antt =====
-- A signed text reads back on every replica that has the secret, until it expires.
use Prim.Native.String.{◌++◌}
use sera_core.Prelude.{ℕ, ◌≤◌, ◌<◌, ◌≡◌, refl, String, some, [], ◌∷◌, arith, eq_refl, ◌∙◌, ap}
use sera_core.Text.{split_on}
use sera_core.Text.Laws.{
  strip_prefix-append, split_on-Free, split_on-append, dot, dot-append, IsPlain, IsPlain-append,
}
use sera_core.Auth.OauthStore.{Payload, Crypto, ReadsBack, sign, checked, current, verify}

module _ (c : Crypto) where
  split-signed :
      (secret : String) (p : Payload)
      → split_on b'.' (c.encode p ++ ("." ++ c.hmac secret (c.encode p)))
        ≡ c.encode p ∷ c.hmac secret (c.encode p) ∷ []
  split-signed secret p =
      let encoded = c.encode p in
      let sig = c.hmac secret encoded in
      ap (λ t. split_on b'.' (encoded ++ t)) (dot-append sig)
      ∙ split_on-append b'.' dot encoded sig refl (c.encode-Free p)
      ∙ ap (λ ws. encoded ∷ ws) (split_on-Free b'.' sig (c.hmac-Free secret encoded))

  -- A text that the store signed is read back with its payload, for any prefix, by any store with the
  -- same secret, up to and at the end of its lifetime; where the encoding reads the payload back.
  pub verify-sign :
      (prefix secret : String) (now e : ℕ) (p : Payload)
      → ReadsBack c p
      → p.exp ≡ some e
      → 0 < e
      → now ≤ e
      → verify c prefix secret now (sign c prefix secret p) ≡ some (p, e)
  unfolding verify sign checked current
  verify-sign prefix secret now e p readable h pos live =
      rw (strip_prefix-append, verify)
        (rw (split-signed secret p) (rw eq_refl (rw readable (rw h (ground arith)))))

  -- a signed text behind a prefix without white space has none
  pub sign-IsPlain :
      (prefix secret : String) (p : Payload) → IsPlain prefix → IsPlain (sign c prefix secret p)
  unfolding sign
  sign-IsPlain prefix secret p h = IsPlain-append prefix _ h (
      IsPlain-append (c.encode p) _ (c.encode-IsPlain p)
        (IsPlain-append "." _ (refl, tt) (c.hmac-IsPlain secret (c.encode p))))

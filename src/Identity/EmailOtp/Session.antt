-- ===== src/Identity/EmailOtp/Session.antt =====
-- What a verified code gives: a session token of the address.
use Prim.Native.Char.{Char}
use Prim.Native.String.{◌++◌}
use text.Mathlib.TextLemmas.{cons-append}
use sera_core.Prelude.{
  ℕ, ◌+◌, String, ◌≡◌, refl, false, none, some, if◌then◌else◌, is_empty, ltb, Bool-cases,
  Option-cases, inl, inr, nat_eq, ◌==◌, leb, subst,
}
use sera_core.Dict
use sera_core.Text.{keep_digits, trim, text_length}
use sera_core.Text.Laws.{cons-filled}
use sera_core.Identity.SessionToken.{
  Signing, session_ttl, generate_session_token, verify_session_token,
}
use sera_core.Identity.SessionToken.Laws.{principal_of, verify-generate}
use sera_core.Identity.EmailOtp.{
  PendingOtpRecord, EmailOtpService, VerifyOtpResult, verified, normalize_email, is_valid_email,
  check_code, verify_otp, max_verify_attempts,
}

abbrev e_char : Char
e_char = Char.char 101 tt

user-filled : (address : String) → is_empty ("email:" ++ address) ≡ false
user-filled address =
    rw (cons-append e_char "mail:" address) (cons-filled e_char ("mail:" ++ address))

-- what an answer of success carries
abbrev Carries : Signing → ℕ → String → VerifyOtpResult → Type 0
Carries c now address (verified user token email) =
    (user ≡ "email:" ++ address)
    × (email ≡ address)
    × (token ≡ generate_session_token c now ("email:" ++ address) none (some address))
Carries c now address _ = Unit

module _ (c : Signing) where
  check_code-Carries :
      (now : ℕ) (address otp : String) (r : PendingOtpRecord) (s : EmailOtpService)
      → Carries c now address (check_code c now address otp r s).0
  unfolding check_code
  check_code-Carries now address otp r s = elim (Bool-cases (ltb r.expires_at now)) [
    | inl e ↦ rw e tt
    | inr e ↦ rw e (elim (Bool-cases (r.code == otp)) [
      | inl d ↦ rw d (refl, refl, refl)
      | inr d ↦ rw d (elim (Bool-cases (leb max_verify_attempts (r.attempts + 1))) [
        | inl f ↦ rw f tt
        | inr f ↦ rw f tt
      ])
    ])
  ]

  verify_otp-Carries :
      (now : ℕ) (email otp : String) (s : EmailOtpService)
      → Carries c now (normalize_email email) (verify_otp c now email otp s).0
  unfolding verify_otp
  verify_otp-Carries now email otp s =
      let own = normalize_email email in
      elim (Bool-cases (is_valid_email own)) [
        | inr e ↦ rw e tt
        | inl e ↦ rw e (elim (Bool-cases (nat_eq (text_length (keep_digits (trim otp))) 6)) [
          | inr d ↦ rw d tt
          | inl d ↦ rw d (elim (Option-cases (Dict.get s.pending_otps own)) [
            | inl g ↦ rw (g, verify_otp) tt
            | inr (r, g) ↦
                rw (g, verify_otp) (check_code-Carries now own (keep_digits (trim otp)) r s)
          ])
        ])
      ]

  -- A code that is verified gives a session token that reads back as the user of the address, whose
  -- address it is, for seven days, their end included, and is refused after; where the encoding reads
  -- the principal back.
  pub verify_otp-token :
      (now now' : ℕ) (email otp user token address : String) (s : EmailOtpService)
      → (verify_otp c now email otp s).0 ≡ verified user token address
      → c.decode (c.encode (principal_of now user none (some address)))
        ≡ some (principal_of now user none (some address))
      → (user ≡ "email:" ++ normalize_email email)
        × (verify_session_token c now' token ≡ (
            if ltb (now + session_ttl) now'
            then none
            else some (principal_of now user none (some address))))
  verify_otp-token now now' email otp user token address s h readable =
      let (named, own, made) =
        subst (Carries c now (normalize_email email)) h (verify_otp-Carries now email otp s) in
      let signed : token ≡ generate_session_token c now user none (some address) =
        rw named (rw own made) in
      (
        named,
        rw signed (
            verify-generate c now now' user none (some address) readable
              (rw named (user-filled (normalize_email email)))),
      )

-- ===== src/Identity/EmailOtp/Guesses.antt =====
-- How often the code of an address can be guessed.
use sera_core.Prelude.{
  ℕ, ◌+◌, ◌*◌, ◌-◌, ◌≤◌, ◌<◌, String, ◌≡◌, ◌⊎◌, refl, Bool, true, false, Option, none, some, List,
  [], ◌∷◌, ◌==◌, eq_iff, if◌then◌else◌, nat_eq, arith, Bool-cases, Option-cases, inl, inr, subst,
  ap, ◌∙◌, sym,
}
use sera_core.Dict
use sera_core.Text.{decimal, trim, keep_digits, text_length}
use sera_core.Dict.Laws.{get-set, get-delete, get-set_self, get-delete_self}
use sera_core.Identity.SessionToken.{Signing}
use sera_core.Identity.EmailOtp.{
  PendingOtpRecord, EmailOtpService, new_service, Environment, normalize_email, is_valid_email,
  is_disposable_email, limit_phone, limit_email, put_code, delivery, send_otp, drop_code,
  count_attempt, check_code, verify_otp, max_verify_attempts, otp_ttl_ms,
}
use sera_core.Identity.EmailOtp.History.{
  Command, sends, verifies, is_made, is_guess, is_verified, run_command, made, guessed, opened,
  total,
}

-- the guesses that are left, and whether a code is pending
unfoldable budget : Option PendingOtpRecord → ℕ
budget none = 0
budget (some r) = max_verify_attempts - r.attempts

unfoldable live : Option PendingOtpRecord → ℕ
live none = 0
live (some r) = 1

abbrev IsWithin : Option PendingOtpRecord → Type 0
IsWithin none = Unit
IsWithin (some r) = r.attempts < max_verify_attempts

limit_phone-pending :
    (now : ℕ) (phone : Option String) (s s' : EmailOtpService)
    → limit_phone now phone s ≡ some s'
    → s'.pending_otps ≡ s.pending_otps
unfolding limit_phone
limit_phone-pending now phone s s' h = ground arith

limit_email-pending :
    (now : ℕ) (email : String) (s s' : EmailOtpService)
    → limit_email now email s ≡ some s'
    → s'.pending_otps ≡ s.pending_otps
unfolding limit_email
limit_email-pending now email s s' h = ground arith

pub delivery_made :
    (env : Environment) (failure : Option String) (otp : String)
    → is_made (delivery env failure otp) ≡ 1
unfolding delivery is_made
delivery_made env none otp = ground arith
delivery_made env (some m) otp = ground arith

unfoldable fresh_record : ℕ → ℕ → PendingOtpRecord
fresh_record now draw = record {
  code = decimal draw;
  expires_at = now + otp_ttl_ms;
  attempts = 0;
  created_at = now;
}

-- a send either makes no code and leaves the pending ones, or stores a fresh one
send_otp-pending :
    (now draw : ℕ) (env : Environment) (failure : Option String) (email : String)
    (phone : Option String) (s : EmailOtpService)
    → let (answer, s') = send_otp now draw env failure email phone s in
      ((is_made answer ≡ 0) × (s'.pending_otps ≡ s.pending_otps))
      ⊎ ((is_made answer ≡ 1)
          × (r : PendingOtpRecord) × (r.attempts ≡ 0)
          × (s'.pending_otps ≡ Dict.set s.pending_otps (normalize_email email) r))
unfolding send_otp is_made put_code fresh_record
send_otp-pending now draw env failure email phone s =
    let address = normalize_email email in
    elim (Bool-cases (is_valid_email address)) [
      | inr e ↦ rw e (inl (refl, refl))
      | inl e ↦ rw e (elim (Bool-cases (is_disposable_email address)) [
        | inl d ↦ rw d (inl (refl, refl))
        | inr d ↦ rw d (elim (Option-cases (limit_phone now phone s)) [
          | inl p ↦ rw p (inl (refl, refl))
          | inr (s1, p) ↦ rw p (elim (Option-cases (limit_email now address s1)) [
            | inl q ↦ rw q (inl (refl, limit_phone-pending now phone s s1 p))
            | inr (s2, q) ↦
                let kept =
                  limit_email-pending now address s1 s2 q ∙ limit_phone-pending now phone s s1 p in
                rw q (
                  inr (
                    delivery_made env failure _,
                    fresh_record now draw,
                    refl,
                    ap (λ d. Dict.set d address (fresh_record now draw)) kept,
                  ))
          ])
        ])
      ])
    ]

-- what one call does to the guesses of an address
abbrev Spends : ℕ → ℕ → ℕ → Option PendingOtpRecord → Option PendingOtpRecord → Type 0
Spends made guesses opens before after =
    IsWithin after
    × (guesses + budget after ≤ budget before + max_verify_attempts * made)
    × (opens + live after ≤ live before + made)

-- a call that neither makes nor compares a code, asked about its address or another
Spends-nothing :
    (b : Bool) (o : Option PendingOtpRecord)
    → IsWithin o
    → Spends 0 (if b then 0 else 0) (if b then 0 else 0) o o
Spends-nothing true o h = (h, omega arith, omega arith)
Spends-nothing false o h = (h, omega arith, omega arith)

made_nothing :
    (b : Bool) (o : Option PendingOtpRecord) → IsWithin o → Spends (if b then 0 else 0) 0 0 o o
made_nothing true o h = (h, omega arith, omega arith)
made_nothing false o h = (h, omega arith, omega arith)

module _ (c : Signing) where
  check_code-Spends :
      (now : ℕ) (address otp : String) (r : PendingOtpRecord) (s : EmailOtpService)
      → Dict.get s.pending_otps address ≡ some r
      → r.attempts < max_verify_attempts
      → Spends 0
          (is_guess (check_code c now address otp r s).0)
          (is_verified (check_code c now address otp r s).0)
          (Dict.get s.pending_otps address)
          (Dict.get (check_code c now address otp r s).1.pending_otps address)
  unfolding check_code drop_code count_attempt is_guess is_verified budget live
  check_code-Spends now address otp r s g h = ground (
    arith,
    get-delete_self s.pending_otps address,
    get-set_self s.pending_otps address (record r { attempts = r.attempts + 1 }),
  )

  check_code_other :
      (now : ℕ) (email address otp : String) (r : PendingOtpRecord) (s : EmailOtpService)
      → (email == address) ≡ false
      → Dict.get (check_code c now email otp r s).1.pending_otps address
        ≡ Dict.get s.pending_otps address
  unfolding check_code drop_code count_attempt
  check_code_other now email address otp r s ne = ground (
    arith,
    get-delete s.pending_otps email address,
    get-set s.pending_otps email address (record r { attempts = r.attempts + 1 }),
  )

  verify_otp-Spends :
      (now : ℕ) (email otp address : String) (s : EmailOtpService)
      → IsWithin (Dict.get s.pending_otps address)
      → Spends 0
          (guessed c address (verifies now email otp) s)
          (opened c address (verifies now email otp) s)
          (Dict.get s.pending_otps address)
          (Dict.get (verify_otp c now email otp s).1.pending_otps address)
  unfolding guessed opened verify_otp is_guess is_verified
  verify_otp-Spends now email otp address s h =
      let own = normalize_email email in
      let quiet = Spends-nothing (own == address) (Dict.get s.pending_otps address) h in
      elim (Bool-cases (is_valid_email own)) [
        | inr e ↦ rw e quiet
        | inl e ↦ rw e (elim (Bool-cases (nat_eq (text_length (keep_digits (trim otp))) 6)) [
          | inr d ↦ rw d quiet
          | inl d ↦ rw d (elim (Option-cases (Dict.get s.pending_otps own)) [
            | inl g ↦ rw (g, verify_otp) quiet
            | inr (r, g) ↦
                rw (g, verify_otp)
                  (elim (Bool-cases (own == address)) [
                    | inr m ↦ rw m (
                        rw (check_code_other now own address (keep_digits (trim otp)) r s m)
                          (h, omega arith, omega arith))
                    | inl m ↦
                        let p : own ≡ address = (eq_iff own address).0 m in
                        let within : IsWithin (Dict.get s.pending_otps own) =
                          subst (λ a. IsWithin (Dict.get s.pending_otps a)) (sym p) h in
                        rw m (
                          subst
                            (λ a.
                              Spends 0
                                (is_guess (check_code c now own (keep_digits (trim otp)) r s).0)
                                (is_verified (check_code c now own (keep_digits (trim otp)) r s).0)
                                (Dict.get s.pending_otps a)
                                (Dict.get
                                  (check_code c now own (keep_digits (trim otp)) r s).1.pending_otps
                                  a))
                            p
                            (check_code-Spends now own (keep_digits (trim otp)) r s g
                              (rw g at within)))
                  ])
          ])
        ])
      ]

  send_otp-Spends :
      (now draw : ℕ) (env : Environment) (failure : Option String) (email : String)
      (phone : Option String) (address : String) (s : EmailOtpService)
      → IsWithin (Dict.get s.pending_otps address)
      → Spends
          (made c address (sends now draw env failure email phone) s)
          0
          0
          (Dict.get s.pending_otps address)
          (Dict.get (send_otp now draw env failure email phone s).1.pending_otps address)
  unfolding made budget live
  send_otp-Spends now draw env failure email phone address s h =
      elim (send_otp-pending now draw env failure email phone s) [
        | inl (zero_made, kept) ↦
            rw (zero_made, kept) (made_nothing (normalize_email email == address) _ h)
        | inr (one_made, r, zero_attempts, stored) ↦
            rw (one_made, stored)
              (rw (get-set s.pending_otps (normalize_email email) address r)
                (elim (Bool-cases (normalize_email email == address)) [
                  | inl e ↦ rw e (omega arith, omega arith, ground arith)
                  | inr e ↦ rw e (h, omega arith, omega arith)
                ]))
      ]

  -- over a history, from any state
  total-Spends :
      (ks : List Command) (address : String) (s : EmailOtpService)
      → IsWithin (Dict.get s.pending_otps address)
      → (total c (guessed c address) ks s
          ≤ budget (Dict.get s.pending_otps address)
            + max_verify_attempts * total c (made c address) ks s)
        × (total c (opened c address) ks s
            ≤ live (Dict.get s.pending_otps address) + total c (made c address) ks s)
  unfolding total run_command guessed opened made
  total-Spends [] address s h = (omega arith, omega arith)
  total-Spends (sends now draw env failure email phone ∷ ks) address s h =
      let (within, spent, used) = send_otp-Spends now draw env failure email phone address s h in
      let (guesses, opens) =
        total-Spends ks address (send_otp now draw env failure email phone s).1 within in
      (omega arith, omega arith)
  total-Spends (verifies now email otp ∷ ks) address s h =
      let (within, spent, used) = verify_otp-Spends now email otp address s h in
      let (guesses, opens) = total-Spends ks address (verify_otp c now email otp s).1 within in
      (omega arith, omega arith)

  -- Over any history of calls from an empty service, of any addresses, with any draws and any answers
  -- of the mail service: the codes that are compared for an address are at most five for each code
  -- that was made for it, and the verifications that succeed are at most one for each.
  pub guesses_bounded :
      (ks : List Command) (address : String)
      → (total c (guessed c address) ks new_service
          ≤ max_verify_attempts * total c (made c address) ks new_service)
        × (total c (opened c address) ks new_service ≤ total c (made c address) ks new_service)
  unfolding new_service Dict.get budget live
  guesses_bounded ks address =
      let (guesses, opens) = total-Spends ks address new_service tt in (omega arith, omega arith)

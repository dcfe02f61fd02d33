-- ===== src/Identity/EmailOtp/Rate.antt =====
-- How many codes an address gets in ten minutes.
use sera_core.Prelude.{
  ℕ, ◌+◌, ◌-◌, ◌≤◌, ◌<◌, String, ◌≡◌, ◌⊎◌, refl, Option, some, List, [], ◌∷◌, ◌++◌, ◌==◌, eq_iff,
  if◌then◌else◌, get_or, length, filter, ltb, arith, Bool-cases, Option-cases, inl, inr, subst,
}
use sera_core.Dict
use sera_core.Dict.{Dict}
use sera_core.Dict.Laws.{get-set}
use sera_core.Text.{keep_digits, trim}
use sera_core.Identity.SessionToken.{Signing}
use sera_core.Identity.EmailOtp.{
  PendingOtpRecord, EmailOtpService, new_service, Environment, normalize_email, is_valid_email,
  is_disposable_email, recent, take_slot, limit_phone, limit_email, put_code, send_otp, drop_code,
  count_attempt, check_code, verify_otp, rate_limit_window_ms, max_requests_per_window,
}
use sera_core.Identity.EmailOtp.History.{
  Command, sends, verifies, IsTimed, is_made, run_command, made, made_times,
}
use sera_core.Identity.EmailOtp.Guesses.{delivery_made}

-- how many of the times lie in the ten minutes before `now`
unfoldable pub in_window : ℕ → List ℕ → ℕ
in_window now times = length (recent rate_limit_window_ms now times)

in_window-cons :
    (now t : ℕ) (times : List ℕ)
    → in_window now (t ∷ times)
      ≡ (if ltb (now - t) rate_limit_window_ms then 1 else 0) + in_window now times
unfolding in_window recent filter
in_window-cons now t times = ground arith

in_window-append :
    (now t : ℕ) (times : List ℕ) → in_window now (times ++ t ∷ []) ≡ in_window now (t ∷ times)
unfolding in_window recent filter
in_window-append now t [] = refl
in_window-append now t (x ∷ times) = ground (arith, in_window-append now t times)

-- a later window holds fewer, and those that an earlier one kept
in_window-recent :
    (now later : ℕ) (times : List ℕ)
    → now ≤ later
    → in_window later (recent rate_limit_window_ms now times) ≡ in_window later times
unfolding in_window recent filter
in_window-recent now later [] h = refl
in_window-recent now later (t ∷ times) h = ground (arith, in_window-recent now later times h)

in_window_shrinks :
    (now later : ℕ) (times : List ℕ) → now ≤ later → in_window later times ≤ in_window now times
unfolding in_window recent filter
in_window_shrinks now later [] h = omega arith
in_window_shrinks now later (t ∷ times) h = ground (arith, in_window_shrinks now later times h)

abbrev rates_of : EmailOtpService → String → List ℕ
rates_of s address = get_or (Dict.get s.rate_limits address) []

limit_phone-rates :
    (now : ℕ) (phone : Option String) (s s' : EmailOtpService)
    → limit_phone now phone s ≡ some s'
    → s'.rate_limits ≡ s.rate_limits
unfolding limit_phone
limit_phone-rates now phone s s' h = ground arith

limit_email-rates :
    (now : ℕ) (address : String) (s s' : EmailOtpService)
    → limit_email now address s ≡ some s'
    → (in_window now (rates_of s address) < max_requests_per_window)
      × (s'.rate_limits
          ≡ Dict.set s.rate_limits address
              (recent rate_limit_window_ms now (rates_of s address) ++ now ∷ []))
unfolding limit_email take_slot in_window
limit_email-rates now address s s' h = ground arith

send_otp-rates :
    (now draw : ℕ) (env : Environment) (failure : Option String) (email : String)
    (phone : Option String) (s : EmailOtpService)
    → let (answer, s') = send_otp now draw env failure email phone s in
      let own = normalize_email email in
      ((is_made answer ≡ 0) × (s'.rate_limits ≡ s.rate_limits))
      ⊎ ((is_made answer ≡ 1)
          × (in_window now (rates_of s own) < max_requests_per_window)
          × (s'.rate_limits
              ≡ Dict.set s.rate_limits own
                  (recent rate_limit_window_ms now (rates_of s own) ++ now ∷ [])))
unfolding send_otp is_made put_code
send_otp-rates now draw env failure email phone s =
    let own = normalize_email email in
    elim (Bool-cases (is_valid_email own)) [
      | inr e ↦ rw e (inl (refl, refl))
      | inl e ↦ rw e (elim (Bool-cases (is_disposable_email own)) [
        | inl d ↦ rw d (inl (refl, refl))
        | inr d ↦ rw d (elim (Option-cases (limit_phone now phone s)) [
          | inl p ↦ rw p (inl (refl, refl))
          | inr (s1, p) ↦ rw p (
              let kept = limit_phone-rates now phone s s1 p in
              elim (Option-cases (limit_email now own s1)) [
                | inl q ↦ rw q (inl (refl, kept))
                | inr (s2, q) ↦ rw q (
                    inr (
                      delivery_made env failure _,
                      rw kept at ((limit_email-rates now own s1 s2 q).0),
                      rw kept at ((limit_email-rates now own s1 s2 q).1),
                    ))
              ])
        ])
      ])
    ]

-- from `start` on, the list of the service knows all that is made, and that is within the limit
Covers : ℕ → List ℕ → List ℕ → Type 0
Covers start rates log =
    (now : ℕ)
    → start ≤ now
    → (in_window now log ≤ in_window now rates) × (in_window now log ≤ max_requests_per_window)

Covers-later :
    (start later : ℕ) (rates log : List ℕ)
    → start ≤ later
    → Covers start rates log
    → Covers later rates log
unfolding Covers
Covers-later start later rates log h cover now k = cover now (omega arith)

Covers-made :
    (start now : ℕ) (rates log : List ℕ)
    → start ≤ now
    → in_window now rates < max_requests_per_window
    → Covers start rates log
    → Covers now (recent rate_limit_window_ms now rates ++ now ∷ []) (now ∷ log)
unfolding Covers
Covers-made start now rates log h room cover later k =
    let (fewer, within) = cover later (omega arith) in
    let (fewer_now, within_now) = cover now h in
    ground (
      arith,
      in_window-append later now (recent rate_limit_window_ms now rates),
      in_window-cons later now (recent rate_limit_window_ms now rates),
      in_window-cons later now log,
      in_window-recent now later rates k,
      in_window_shrinks now later log k,
    )

rates-set :
    (s s' : EmailOtpService) (own address : String) (times : List ℕ)
    → s'.rate_limits ≡ Dict.set s.rate_limits own times
    → rates_of s' address ≡ (if own == address then times else rates_of s address)
rates-set s s' own address times h =
    rw h (rw (get-set s.rate_limits own address times) (ground arith))

module _ (c : Signing) where
  check_code-rates :
      (now : ℕ) (address otp : String) (r : PendingOtpRecord) (s : EmailOtpService)
      → (check_code c now address otp r s).1.rate_limits ≡ s.rate_limits
  unfolding check_code drop_code count_attempt
  check_code-rates now address otp r s = ground arith

  verify_otp-rates :
      (now : ℕ) (email otp : String) (s : EmailOtpService)
      → (verify_otp c now email otp s).1.rate_limits ≡ s.rate_limits
  unfolding verify_otp
  verify_otp-rates now email otp s =
      let own = normalize_email email in
      elim (Option-cases (Dict.get s.pending_otps own)) [
        | inl g ↦ rw (g, verify_otp) (ground arith)
        | inr (r, g) ↦
            rw (g, verify_otp)
              (ground (arith, check_code-rates now own (keep_digits (trim otp)) r s))
      ]

  made_times-Covers :
      (ks : List Command) (address : String) (start end : ℕ) (s : EmailOtpService) (log : List ℕ)
      → IsTimed start ks end
      → Covers start (rates_of s address) log
      → in_window end (made_times c address ks s) + in_window end log ≤ max_requests_per_window
  unfolding made_times run_command made
  made_times-Covers [] address start end s log h cover =
      unfold Covers in_window recent filter in omega (arith, (cover end h).1)
  made_times-Covers (verifies now email otp ∷ ks) address start end s log (h, timed) cover =
      made_times-Covers ks address now end (verify_otp c now email otp s).1 log timed
        (rw (verify_otp-rates now email otp s) (Covers-later start now _ log h cover))
  made_times-Covers (sends now draw env failure email phone ∷ ks) address start end s log (h, timed)
        cover =
      let own = normalize_email email in
      let s' = (send_otp now draw env failure email phone s).1 in
      elim (send_otp-rates now draw env failure email phone s) [
        | inl (none_made, kept) ↦
            let rest =
              made_times-Covers ks address now end s' log timed
                (rw kept (Covers-later start now _ log h cover)) in
            elim (Bool-cases (own == address)) [
              | inl m ↦ rw m (rw none_made rest)
              | inr m ↦ rw m rest
            ]
        | inr (one_made, room, stored) ↦ elim (Bool-cases (own == address)) [
          | inr m ↦ rw m (
              made_times-Covers ks address now end s' log timed (
                rw (rates-set s s' own address _ stored)
                  (rw m (Covers-later start now _ log h cover))))
          | inl m ↦
              let same = (eq_iff own address).0 m in
              let mine : in_window now (rates_of s address) < max_requests_per_window =
                subst (λ a. in_window now (rates_of s a) < max_requests_per_window) same room in
              let held = rates-set s s' own address _ stored in
              let rest = made_times-Covers ks address now end s' (now ∷ log) timed (
                rw held
                  (rw m (rw same (Covers-made start now (rates_of s address) log h mine cover)))) in
              rw m (
                rw one_made (
                  omega (
                    arith,
                    rest,
                    in_window-cons end now (made_times c address ks s'),
                    in_window-cons end now log,
                  )))
        ]
      ]

  -- From a new service, with a clock that does not go back: at most five codes are made for an
  -- address within any ten minutes that end at or after the last call of the history, whoever asks
  -- and whatever else happens.
  pub codes_limited :
      (ks : List Command) (address : String) (end : ℕ)
      → IsTimed 0 ks end
      → in_window end (made_times c address ks new_service) ≤ max_requests_per_window
  unfolding new_service Dict.get Covers in_window recent filter
  codes_limited ks address end timed =
      let all =
        made_times-Covers ks address 0 end new_service [] timed
          (λ now k. (omega arith, omega arith)) in
      omega (arith, all)

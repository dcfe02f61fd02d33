-- ===== src/Identity/Tests.antt =====
-- One-time passwords, run. The functions of the signature are constants, and the encoding reads back
-- the one principal of the run.
use Prim.Native.String.{◌++◌}
use sera_core.Prelude.{
  ◌+◌, ◌*◌, ◌≤◌, ◌≡◌, refl, true, false, none, some, List, [], ◌∷◌, if◌then◌else◌, ltb, arith,
  filter,
}
use sera_core.Dict
use sera_core.Text.{to_lower, trim, keep_digits, text_length, decimal, split_on}
use sera_core.Identity.SessionToken.{
  SessionTokenPrincipal, Signing, session_ttl, generate_session_token, verify_session_token,
}
use sera_core.Identity.SessionToken.Laws.{principal_of}
use sera_core.Identity.EmailOtp.{
  EmailOtpService, new_service, Environment, verified, cut_at, drop_dots, before_plus,
  canonical_user, normalize_email, is_atom, has_inner_dot, is_domain, is_valid_email, second_part,
  is_disposable_email, recent, take_slot, limit_phone, limit_email, put_code, delivery, send_otp,
  drop_code, count_attempt, check_code, verify_otp, max_verify_attempts, max_requests_per_window,
}
use sera_core.Identity.EmailOtp.History.{
  Command, sends, verifies, run_command, run_commands, made, guessed, opened, total, made_times,
  is_made, is_guess, is_verified,
}
use sera_core.Identity.EmailOtp.Guesses.{guesses_bounded}
use sera_core.Identity.EmailOtp.Rate.{in_window, codes_limited}
use sera_core.Identity.EmailOtp.Session.{verify_otp-token}

code : Unit {0}
unfolding Dict.get Dict.set Dict.delete to_lower trim keep_digits text_length decimal split_on
    filter new_service cut_at drop_dots before_plus canonical_user normalize_email is_atom
    has_inner_dot is_domain is_valid_email second_part is_disposable_email recent take_slot
    limit_phone limit_email put_code delivery send_otp drop_code count_attempt check_code verify_otp
    run_command run_commands made guessed opened total made_times is_made is_guess is_verified
code = tt

-- the functions of a run with one principal
abbrev constant : SessionTokenPrincipal → Signing
constant p = record {
  hmac = λ text. "sig";
  encode = λ q. "pay";
  decode = λ text. some p;
  encode-Free = λ q. (refl, (refl, (refl, tt)));
  hmac-Free = λ text. (refl, (refl, (refl, tt)));
  encode_filled = λ q. refl;
  hmac_filled = λ text. refl;
}

abbrev ann : SessionTokenPrincipal
ann = principal_of 1200 "email:ann@gmail.com" none (some "ann@gmail.com")

abbrev production : Environment
production = record { has_key = true; is_test = false }

gmail_is_canonical : normalize_email " A.nn+shop@Gmail.com" ≡ "ann@gmail.com"
unfolding code
gmail_is_canonical = refl

-- a code is made, guessed wrong, and verified
abbrev commands : List Command
commands =
    sends 1000 123456 production none "A.nn@gmail.com" none
    ∷ verifies 1100 "ann@gmail.com" "123457"
    ∷ verifies 1200 "ann@gmail.com" "123 456"
    ∷ []

two_guesses : total (constant ann) (guessed (constant ann) "ann@gmail.com") commands new_service ≡ 2
unfolding code
two_guesses = refl

guesses_bounded_example :
    (total (constant ann) (guessed (constant ann) "ann@gmail.com") commands new_service
      ≤ max_verify_attempts
        * total (constant ann) (made (constant ann) "ann@gmail.com") commands new_service)
    × (total (constant ann) (opened (constant ann) "ann@gmail.com") commands new_service
        ≤ total (constant ann) (made (constant ann) "ann@gmail.com") commands new_service)
guesses_bounded_example = guesses_bounded (constant ann) commands "ann@gmail.com"

codes_limited_example :
    in_window 1300 (made_times (constant ann) "ann@gmail.com" commands new_service)
    ≤ max_requests_per_window
codes_limited_example =
    codes_limited (constant ann) commands "ann@gmail.com" 1300
      (omega arith, (omega arith, (omega arith, omega arith)))

-- a service with a code for ann
abbrev pending : EmailOtpService
pending =
    put_code 1000 "ann@gmail.com" "123456"
      (record { pending_otps = []; rate_limits = []; phone_rate_limits = [] })

ann_verified :
    (verify_otp (constant ann) 1200 "ann@gmail.com" "123456" pending).0
    ≡ verified "email:ann@gmail.com"
        (generate_session_token
          (constant ann)
          1200
          "email:ann@gmail.com"
          none
          (some "ann@gmail.com"))
        "ann@gmail.com"
unfolding code
ann_verified = refl

verify_otp-token_example :
    ("email:ann@gmail.com" ≡ "email:" ++ normalize_email "ann@gmail.com")
    × (verify_session_token (constant ann) 9999 (
          generate_session_token
            (constant ann)
            1200
            "email:ann@gmail.com"
            none
            (some "ann@gmail.com"))
        ≡ (if ltb (1200 + session_ttl) 9999 then none else some ann))
verify_otp-token_example =
    verify_otp-token (constant ann) 1200 9999 "ann@gmail.com" "123456" "email:ann@gmail.com"
      (generate_session_token (constant ann) 1200 "email:ann@gmail.com" none (some "ann@gmail.com"))
      "ann@gmail.com" pending ann_verified refl

-- ===== src/Identity/EmailOtp/History.antt =====
-- A history of calls of the e-mail codes, and what it counts.
use sera_core.Prelude.{ℕ, ◌+◌, ◌≤◌, String, Option, List, [], ◌∷◌, ◌==◌, if◌then◌else◌, nat_eq}
use sera_core.Identity.SessionToken.{Signing}
use sera_core.Identity.EmailOtp.{
  EmailOtpService, Environment, SendOtpResult, delivery_failed, unavailable, delivered,
  VerifyOtpResult, too_many_attempts, incorrect, verified, normalize_email, send_otp, verify_otp,
}

-- a call of the service, with its clock reading, its draw, its environment and the mail's answer
pub data Command : Type 0 where
  sends :
      (now draw : ℕ) (env : Environment) (failure : Option String) (email : String)
      (phone : Option String)
      → Command
  verifies : (now : ℕ) (email otp : String) → Command

abbrev pub time_of : Command → ℕ
time_of (sends now draw env failure email phone) = now
time_of (verifies now email otp) = now

-- the clock does not go back, and stands at `end` or before
abbrev pub IsTimed : ℕ → List Command → ℕ → Type 0
IsTimed start [] end = start ≤ end
IsTimed start (k ∷ ks) end = (start ≤ time_of k) × IsTimed (time_of k) ks end

-- a code was made
unfoldable pub is_made : SendOtpResult → ℕ
is_made (delivery_failed m) = 1
is_made (unavailable o) = 1
is_made (delivered o) = 1
is_made _ = 0

-- a code was compared with the pending one
unfoldable pub is_guess : VerifyOtpResult → ℕ
is_guess too_many_attempts = 1
is_guess (incorrect n) = 1
is_guess (verified u t e) = 1
is_guess _ = 0

unfoldable pub is_verified : VerifyOtpResult → ℕ
is_verified (verified u t e) = 1
is_verified _ = 0

module _ (c : Signing) where
  unfoldable pub run_command : Command → EmailOtpService → EmailOtpService
  run_command (sends now draw env failure email phone) s =
      (send_otp now draw env failure email phone s).1
  run_command (verifies now email otp) s = (verify_otp c now email otp s).1

  unfoldable pub run_commands : List Command → EmailOtpService → EmailOtpService
  run_commands [] s = s
  run_commands (k ∷ ks) s = run_commands ks (run_command k s)

  -- whether a call made, guessed or verified the code of an address
  unfoldable pub made : String → Command → EmailOtpService → ℕ
  made address (sends now draw env failure email phone) s =
      if normalize_email email == address
      then is_made (send_otp now draw env failure email phone s).0
      else 0
  made address (verifies now email otp) s = 0

  unfoldable pub guessed : String → Command → EmailOtpService → ℕ
  guessed address (sends now draw env failure email phone) s = 0
  guessed address (verifies now email otp) s =
      if normalize_email email == address then is_guess (verify_otp c now email otp s).0 else 0

  unfoldable pub opened : String → Command → EmailOtpService → ℕ
  opened address (sends now draw env failure email phone) s = 0
  opened address (verifies now email otp) s =
      if normalize_email email == address then is_verified (verify_otp c now email otp s).0 else 0

  -- the sum of a count over the calls of a history
  unfoldable pub total : (Command → EmailOtpService → ℕ) → List Command → EmailOtpService → ℕ
  total count [] s = 0
  total count (k ∷ ks) s = count k s + total count ks (run_command k s)

  -- the clock readings at which a code was made for an address
  unfoldable pub made_times : String → List Command → EmailOtpService → List ℕ
  made_times address [] s = []
  made_times address (k ∷ ks) s =
      let rest = made_times address ks (run_command k s) in
      if nat_eq (made address k s) 1 then time_of k ∷ rest else rest

-- ===== src/Identity/EmailOtp.antt =====
-- src/core/identity/EmailOtpService.ts: one-time passwords by e-mail. A method takes one clock reading
-- `now`. `sendOtp` takes the number that it draws, the keys and the mode of the environment, and the
-- answer of the mail service, `none` where the mail went out; the service is called only with a key.
pub mod History
pub mod Guesses
pub mod Rate
pub mod Session
use Prim.Native.Char.{code}
use Prim.Native.String
use sera_core.Prelude.{
  ℕ, suc, ◌+◌, ◌*◌, ◌-◌, String, Bool, true, false, ◌||◌, ◌&&◌, not, Option, none, some, List, [],
  ◌∷◌, ◌++◌, ◌==◌, if◌then◌else◌, get_or, is_empty, truthy, is_some, any, filter, length, leb, ltb,
  nat_eq,
}
use sera_core.Dict
use sera_core.Dict.{Dict}
use sera_core.Text.{to_lower, trim, is_space, keep_digits, text_length, decimal, split_on}
use sera_core.Identity.SessionToken.{Signing, generate_session_token}

pub record PendingOtpRecord : Type 0 where
  pub code : String
  pub expires_at : ℕ
  pub attempts : ℕ
  pub created_at : ℕ

pub record EmailOtpService : Type 0 where
  pub pending_otps : Dict PendingOtpRecord
  pub rate_limits : Dict (List ℕ)
  pub phone_rate_limits : Dict (List ℕ)

unfoldable pub new_service : EmailOtpService
new_service = record { pending_otps = []; rate_limits = []; phone_rate_limits = [] }

abbrev pub otp_ttl_ms : ℕ
otp_ttl_ms = 5 * 60 * 1000

abbrev pub rate_limit_window_ms : ℕ
rate_limit_window_ms = 10 * 60 * 1000

abbrev pub max_requests_per_window : ℕ
max_requests_per_window = 5

abbrev pub max_verify_attempts : ℕ
max_verify_attempts = 5

abbrev pub phone_rate_limit_window_ms : ℕ
phone_rate_limit_window_ms = 60 * 60 * 1000

abbrev pub max_phone_requests_per_window : ℕ
max_phone_requests_per_window = 3

abbrev disposable_domains : List String
disposable_domains =
    "temp-mail.org" ∷ "tempmail.com" ∷ "temp-mail.io" ∷ "guerrillamail.com" ∷ "guerrillamail.net"
    ∷ "guerrillamail.org" ∷ "mailinator.com" ∷ "10minutemail.com" ∷ "10minutemail.net"
    ∷ "throwawaymail.com" ∷ "yopmail.com" ∷ "yopmail.fr" ∷ "trashmail.com" ∷ "trashmail.net"
    ∷ "sharklasers.com" ∷ "grr.la" ∷ "guerrillamailblock.com" ∷ "pokemail.net" ∷ "spam4.me"
    ∷ "dispostable.com" ∷ "getairmail.com" ∷ "fakemailgenerator.com" ∷ "mohmal.com"
    ∷ "crazymailing.com" ∷ "generator.email" ∷ "tempail.com" ∷ "emailondeck.com" ∷ "dropmail.me"
    ∷ "inboxkitten.com" ∷ []

-- the texts before and behind the first `c`; `none` where there is no `c`
unfoldable pub cut_at : ℕ → String → Option (String × String)
cut_at c String.[] = none
cut_at c (String.◌∷◌ d s) =
    let rest = cut_at c s in
    if nat_eq (code d) c
    then some ("", s)
    else elim rest [ none ↦ none | some (a, b) ↦ some (String.◌∷◌ d a, b) ]

-- `user.replace(/\./g, '')`
unfoldable pub drop_dots : String → String
drop_dots String.[] = String.[]
drop_dots (String.◌∷◌ d s) =
    let rest = drop_dots s in if nat_eq (code d) b'.' then rest else String.◌∷◌ d rest

-- what stands before a plus
unfoldable pub before_plus : String → String
before_plus user = elim (cut_at b'+' user) [ none ↦ user | some (a, b) ↦ a ]

unfoldable pub canonical_user : String → String → String
canonical_user user domain =
    if domain == "gmail.com" || domain == "googlemail.com"
    then drop_dots (before_plus user)
    else user

unfoldable pub normalize_email : String → String
normalize_email email =
    let raw = to_lower (trim email) in
    elim (cut_at b'@' raw) [
      | none ↦ raw
      | some (user, domain) ↦
          Prim.Native.String.◌++◌ (canonical_user user domain) (Prim.Native.String.◌++◌ "@" domain)
    ]

-- `[^\s@]` throughout
unfoldable pub is_atom : String → Bool
is_atom String.[] = true
is_atom (String.◌∷◌ d s) = not (is_space d) && (not (nat_eq (code d) b'@') && is_atom s)

-- a dot that is not the last character
unfoldable pub has_inner_dot : String → Bool
has_inner_dot String.[] = false
has_inner_dot (String.◌∷◌ d s) = nat_eq (code d) b'.' && not (is_empty s) || has_inner_dot s

-- `[^\s@]+\.[^\s@]+`
unfoldable pub is_domain : String → Bool
is_domain String.[] = false
is_domain (String.◌∷◌ d s) = is_atom (String.◌∷◌ d s) && has_inner_dot s

-- `/^[^\s@]+@[^\s@]+\.[^\s@]+$/` on the normalised text
unfoldable pub is_valid_email : String → Bool
is_valid_email email = elim (cut_at b'@' (normalize_email email)) [
  | none ↦ false
  | some (user, domain) ↦ not (is_empty user) && (is_atom user && is_domain domain)
]

unfoldable pub second_part : List String → Option String
second_part (a ∷ b ∷ rest) = some b
second_part _ = none

unfoldable pub is_disposable_email : String → Bool
is_disposable_email email = elim (second_part (split_on b'@' (normalize_email email))) [
  | none ↦ false
  | some domain ↦ any (λ d. d == domain) disposable_domains
]

-- the answers of `sendOtp`; `delivered` carries the code where it is shown to a developer
pub data SendOtpResult : Type 0 where
  invalid_address disposable_address phone_limited address_limited : SendOtpResult
  delivery_failed : String → SendOtpResult
  unavailable : String → SendOtpResult
  delivered : Option String → SendOtpResult

-- `RESEND_API_KEY || RESEND_API` is set; the mode of the process is a test
pub record Environment : Type 0 where
  pub has_key : Bool
  pub is_test : Bool

-- the times of a list that lie less than `window` before now
unfoldable pub recent : ℕ → ℕ → List ℕ → List ℕ
recent window now times = filter (λ t. ltb (now - t) window) times

-- one list of a rate limit: `none` where the limit is reached, or the list with the new time
unfoldable pub take_slot : ℕ → ℕ → ℕ → Option (List ℕ) → Option (List ℕ)
take_slot window limit now times =
    let requests = recent window now (get_or times []) in
    if leb limit (length requests) then none else some (requests ++ (now ∷ []))

-- the limit of the phone number that asks, if one does
unfoldable pub limit_phone : ℕ → Option String → EmailOtpService → Option EmailOtpService
limit_phone now phone s = elim (truthy phone) [
  | none ↦ some s
  | some number ↦
      let clean = keep_digits number in
      if is_empty clean
      then some s
      else elim (take_slot phone_rate_limit_window_ms max_phone_requests_per_window now
          (Dict.get s.phone_rate_limits clean)) [
            | none ↦ none
            | some times ↦
                some (record s { phone_rate_limits = Dict.set s.phone_rate_limits clean times })
          ]
]

unfoldable pub limit_email : ℕ → String → EmailOtpService → Option EmailOtpService
limit_email now email s =
    elim (take_slot rate_limit_window_ms max_requests_per_window now
      (Dict.get s.rate_limits email)) [
        | none ↦ none
        | some times ↦ some (record s { rate_limits = Dict.set s.rate_limits email times })
      ]

unfoldable pub put_code : ℕ → String → String → EmailOtpService → EmailOtpService
put_code now email otp s = record s {
  pending_otps =
      Dict.set s.pending_otps email
        (record { code = otp; expires_at = now + otp_ttl_ms; attempts = 0; created_at = now });
}

-- what the caller is told, once the code is stored
unfoldable pub delivery : Environment → Option String → String → SendOtpResult
delivery env failure otp =
    if env.has_key
    then elim failure [ some message ↦ delivery_failed message | none ↦ delivered none ]
    else if env.is_test
    then delivered (some otp)
    else unavailable otp

-- `draw` is `Math.floor(100000 + Math.random() * 900000)`
unfoldable pub send_otp :
    ℕ
    → ℕ
    → Environment
    → Option String
    → String
    → Option String
    → EmailOtpService
    → SendOtpResult × EmailOtpService
send_otp now draw env failure email_input phone s =
    let email = normalize_email email_input in
    if not (is_valid_email email)
    then (invalid_address, s)
    else if is_disposable_email email
    then (disposable_address, s)
    else elim (limit_phone now phone s) [
      | none ↦ (phone_limited, s)
      | some s' ↦ elim (limit_email now email s') [
        | none ↦ (address_limited, s')
        | some s'' ↦ (delivery env failure (decimal draw), put_code now email (decimal draw) s'')
      ]
    ]

-- the answers of `verifyOtp`
pub data VerifyOtpResult : Type 0 where
  bad_address bad_code unknown_code expired_code : VerifyOtpResult
  too_many_attempts : VerifyOtpResult
  incorrect : ℕ → VerifyOtpResult
  verified : (user_id token email : String) → VerifyOtpResult

unfoldable pub drop_code : String → EmailOtpService → EmailOtpService
drop_code email s = record s { pending_otps = Dict.delete s.pending_otps email }

-- the count goes up in the record that the map holds
unfoldable pub count_attempt : String → PendingOtpRecord → EmailOtpService → EmailOtpService
count_attempt email r s = record s {
  pending_otps = Dict.set s.pending_otps email (record r { attempts = r.attempts + 1 });
}

module _ (c : Signing) where
  -- a code of six digits against the pending record
  unfoldable pub check_code :
      ℕ → String → String → PendingOtpRecord → EmailOtpService → VerifyOtpResult × EmailOtpService
  check_code now email otp r s =
      if ltb r.expires_at now
      then (expired_code, drop_code email s)
      else if r.code == otp
      then (
        verified (Prim.Native.String.◌++◌ "email:" email)
            (generate_session_token c now (Prim.Native.String.◌++◌ "email:" email) none
              (some email))
            email,
        drop_code email s,
      )
      else if leb max_verify_attempts (r.attempts + 1)
      then (too_many_attempts, drop_code email s)
      else (incorrect (max_verify_attempts - (r.attempts + 1)), count_attempt email r s)

  unfoldable pub verify_otp :
      ℕ → String → String → EmailOtpService → VerifyOtpResult × EmailOtpService
  verify_otp now email_input code_input s =
      let email = normalize_email email_input in
      let otp = keep_digits (trim code_input) in
      if not (is_valid_email email)
      then (bad_address, s)
      else if not (nat_eq (text_length otp) 6)
      then (bad_code, s)
      else elim (Dict.get s.pending_otps email) [
        | none ↦ (unknown_code, s)
        | some r ↦ check_code now email otp r s
      ]

-- ===== src/Auth/LinkCodes.antt =====
-- src/server/auth/oauth/OAuthStore.ts: the six-digit codes that link a device. They are a map of the
-- store of their own, which no other method reads.
pub mod Laws
use sera_core.Prelude.{
  ℕ, ◌+◌, String, Bool, true, false, ◌||◌, Option, none, some, [], ◌∷◌, ◌==◌, if◌then◌else◌,
  is_empty, leb, ltb, nat_eq,
}
use Prim.Native.Char.{code}
use sera_core.Dict
use sera_core.Dict.{Dict}
use sera_core.Text.{is_space}

pub record LinkCode : Type 0 where
  pub user_id : String
  pub expires_at : ℕ
  pub attempts : ℕ

-- the answer of a verification
pub data Verdict : Type 0 where
  linked : String → Verdict
  code_required unknown_code code_expired too_many_attempts : Verdict

-- the sweep of the codes that have expired
unfoldable pub sweep : ℕ → Dict LinkCode → Dict LinkCode
sweep now [] = []
sweep now ((k, m) ∷ d) =
    let rest = sweep now d in if leb m.expires_at now then rest else (k, m) ∷ rest

-- `code` is the number drawn; `none` is the error thrown for a user that is no user
unfoldable pub create_link_code :
    ℕ → String → String → ℕ → Dict LinkCode → Option (String × ℕ) × Dict LinkCode
create_link_code now code user_id ttl_ms d =
    if is_empty user_id || user_id == "default" then (none, d) else (
      some (code, now + ttl_ms),
      Dict.set (sweep now d) code
          (record { user_id = user_id; expires_at = now + ttl_ms; attempts = 0 }),
    )

-- `.replace(/[\s-]+/g, '').trim()`
unfoldable pub clean_code : String → String
clean_code String.[] = String.[]
clean_code (String.◌∷◌ c s) =
    let rest = clean_code s in
    if is_space c || nat_eq (code c) b'-' then rest else String.◌∷◌ c rest

unfoldable pub verify_and_burn_link_code : ℕ → String → Dict LinkCode → Verdict × Dict LinkCode
verify_and_burn_link_code now raw_code d =
    if is_empty raw_code then (code_required, d) else elim (Dict.get d (clean_code raw_code)) [
      | none ↦ (unknown_code, d)
      | some m ↦
          if ltb m.expires_at now
          then (code_expired, Dict.delete d (clean_code raw_code))
          else if leb 3 m.attempts
          then (too_many_attempts, Dict.delete d (clean_code raw_code))
          else (linked m.user_id, Dict.delete d (clean_code raw_code))
    ]

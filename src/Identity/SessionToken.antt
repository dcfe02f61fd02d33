-- ===== src/Identity/SessionToken.antt =====
-- src/server/socket/socketAuth.ts: the signed tokens of a session. `createHmac` under the process's
-- secret, and JSON in base64url, are the record `Signing`; its laws are that these texts hold no dot
-- and are not empty. That a principal reads back is a hypothesis on it.
pub mod Laws
use Prim.Native.Char.{code}
use Prim.Native.String.{◌++◌}
use sera_core.Prelude.{
  ℕ, ◌+◌, ◌*◌, String, Bool, true, false, ◌||◌, Option, none, some, List, [], ◌∷◌, ◌≡◌, ◌==◌,
  if◌then◌else◌, is_empty, truthy, ltb, nat_eq,
}
use sera_core.Text.{split_on}
use sera_core.Text.Laws.{Free}

-- a parsed object may lack its user or its expiry
pub record SessionTokenPrincipal : Type 0 where
  pub user_id : Option String
  pub personal_wallet_address : Option String
  pub email : Option String
  pub expiry : Option ℕ

pub record Signing : Type 0 where
  pub hmac : String → String
  pub encode : SessionTokenPrincipal → String
  pub decode : String → Option SessionTokenPrincipal
  pub encode-Free : (p : SessionTokenPrincipal) → Free b'.' (encode p)
  pub hmac-Free : (text : String) → Free b'.' (hmac text)
  pub encode_filled : (p : SessionTokenPrincipal) → is_empty (encode p) ≡ false
  pub hmac_filled : (text : String) → is_empty (hmac text) ≡ false

-- seven days
abbrev pub session_ttl : ℕ
session_ttl = 1000 * 60 * 60 * 24 * 7

unfoldable pub has_lapsed : ℕ → Option ℕ → Bool
has_lapsed now none = true
has_lapsed now (some e) = nat_eq e 0 || ltb e now

unfoldable pub is_absent : Option String → Bool
is_absent o = elim (truthy o) [ none ↦ true | some t ↦ false ]

-- what a parsed principal has to have
unfoldable pub accepted : ℕ → Option SessionTokenPrincipal → Option SessionTokenPrincipal
accepted now none = none
accepted now (some p) = if is_absent p.user_id || has_lapsed now p.expiry then none else some p

module _ (c : Signing) where
  unfoldable pub generate_session_token : ℕ → String → Option String → Option String → String
  generate_session_token now user_id wallet email =
      let payload = c.encode (record {
        user_id = some user_id;
        personal_wallet_address = wallet;
        email = email;
        expiry = some (now + session_ttl);
      }) in
      payload ++ ("." ++ c.hmac payload)

  -- the first two parts of the split are read, and others are not
  unfoldable pub verify_parts : ℕ → List String → Option SessionTokenPrincipal
  verify_parts now (payload ∷ signature ∷ rest) =
      if is_empty payload || is_empty signature
      then none
      else if signature == c.hmac payload
      then accepted now (c.decode payload)
      else none
  verify_parts now _ = none

  unfoldable pub verify_session_token : ℕ → String → Option SessionTokenPrincipal
  verify_session_token now token = verify_parts now (split_on b'.' token)

-- ===== src/Auth/Tokens.antt =====
-- src/server/auth/oauth/OAuthStore.ts: authorization codes, their exchange, and refresh.
pub mod Exchange
pub mod Replay
pub mod Refresh
use Prim.Native.String
use sera_core.Prelude.{
  ℕ, ◌+◌, ◌*◌, String, Bool, true, false, ◌||◌, ◌&&◌, not, Option, none, some, ◌==◌, if◌then◌else◌,
  get_or, is_empty, truthy, or_text, is_text, leb, ltb,
}
use sera_core.Dict
use sera_core.Text.{to_lower}
use sera_core.Auth.OauthStore.{
  Payload, Crypto, OauthAuthorizationCode, OauthToken, OauthStore, sign, verify,
}

-- the messages of the errors thrown; `no_session` is the TypeError of `undefined.toLowerCase()`
pub data OauthError : Type 0 where
  invalid_code expired_code client_mismatch verifier_required invalid_verifier : OauthError
  invalid_refresh_token no_session : OauthError

-- a method that may throw; what it changed before stays changed
pub data Result {ℓ} (A : Type ℓ) : Type ℓ where
  ok : A → OauthStore → Result A
  throw : OauthError → OauthStore → Result A

abbrev pub code_ttl : ℕ
code_ttl = 10 * 60 * 1000

-- 30 days, in seconds
abbrev pub expires_in : ℕ
expires_in = 30 * 24 * 60 * 60

-- 90 days, in milliseconds
abbrev pub refresh_ttl : ℕ
refresh_ttl = 90 * 24 * 60 * 60 * 1000

pub record CodeParams : Type 0 where
  pub client_id : String
  pub redirect_uri : String
  pub session_id : String
  pub scope : Option String
  pub code_challenge : Option String
  pub code_challenge_method : Option String

pub record ExchangeParams : Type 0 where
  pub code : String
  pub client_id : String
  pub redirect_uri : Option String
  pub code_verifier : Option String

-- the random texts of a pair of tokens
pub record Nonces : Type 0 where
  pub access : String
  pub refresh : String

unfoldable pub code_payload : ℕ → String → CodeParams → Payload
code_payload now nonce p = record {
  sub = some (to_lower p.session_id);
  cid = some p.client_id;
  ruri = some p.redirect_uri;
  scope = some (or_text p.scope "mcp:all");
  scp = none;
  cc = some (or_text p.code_challenge "");
  ccm = some (or_text p.code_challenge_method "S256");
  exp = some (now + code_ttl);
  nonce = some nonce;
}

unfoldable pub token_payload : String → Option String → Option String → ℕ → String → Payload
token_payload session client scope exp nonce = record {
  sub = some (to_lower session);
  cid = client;
  ruri = none;
  scope = none;
  scp = some (or_text scope "mcp:all");
  cc = none;
  ccm = none;
  exp = some exp;
  nonce = some nonce;
}

abbrev pub from_payload : String → Payload → ℕ → OauthAuthorizationCode
from_payload code p exp = record {
  code = code;
  client_id = p.cid;
  redirect_uri = p.ruri;
  session_id = p.sub;
  scope = p.scope;
  code_challenge = p.cc;
  code_challenge_method = p.ccm;
  expires_at = exp;
}

abbrev refresh_text : OauthToken → String
refresh_text t = get_or t.refresh_token ""

unfoldable pub store_token : OauthToken → OauthStore → OauthStore
store_token t s = record s {
  tokens = Dict.set s.tokens t.access_token t;
  refresh_tokens = Dict.set s.refresh_tokens (refresh_text t) t;
}

abbrev pub drop_code : String → OauthStore → OauthStore
drop_code code s = record s { auth_codes = Dict.delete s.auth_codes code }

-- the old tokens leave the maps
unfoldable pub invalidate : String → OauthToken → OauthStore → OauthStore
invalidate text old s = record s {
  tokens = if is_empty old.access_token then s.tokens else Dict.delete s.tokens old.access_token;
  refresh_tokens = Dict.delete s.refresh_tokens text;
}

module _ (c : Crypto) where
  unfoldable pub create_authorization_code :
      ℕ → String → CodeParams → OauthStore → String × OauthStore
  create_authorization_code now nonce p s =
      let code = sign c "sera_code_" s.signing_secret (code_payload now nonce p) in
      let auth_code : OauthAuthorizationCode = record {
        code = code;
        client_id = some p.client_id;
        redirect_uri = some p.redirect_uri;
        session_id = some (to_lower p.session_id);
        scope = p.scope;
        code_challenge = p.code_challenge;
        code_challenge_method = some (or_text p.code_challenge_method "S256");
        expires_at = now + code_ttl;
      } in
      (code, record s { auth_codes = Dict.set s.auth_codes code auth_code })

  -- `method` defaults to 'S256' only where it is absent
  unfoldable pub verify_pkce : String → String → Option String → Bool
  verify_pkce verifier challenge method =
      if get_or method "S256" == "plain"
      then verifier == challenge
      else c.sha256 verifier == challenge

  -- the code from memory, or else from its signed text
  unfoldable pub find_code : ℕ → String → OauthStore → Option OauthAuthorizationCode
  find_code now code s = elim (Dict.get s.auth_codes code) [
    | some a ↦ some a
    | none ↦ elim (verify c "sera_code_" s.signing_secret now code) [
      | none ↦ none
      | some (p, e) ↦ some (from_payload code p e)
    ]
  ]

  -- PKCE on the challenge, the verifier and the method, where an empty text is absent
  unfoldable pub pkce_error : Option String → Option String → Option String → Option OauthError
  pkce_error none verifier method = none
  pkce_error (some challenge) none method = some verifier_required
  pkce_error (some challenge) (some verifier) method =
      if verify_pkce verifier challenge method then none else some invalid_verifier

  -- the checks of the client and of PKCE, in their order
  unfoldable pub refused : ExchangeParams → OauthAuthorizationCode → Option OauthError
  refused q a =
      if is_text a.client_id q.client_id
      then pkce_error (truthy a.code_challenge) (truthy q.code_verifier) a.code_challenge_method
      else some client_mismatch

  -- the pair of tokens of a session, both signed
  unfoldable pub new_token :
      ℕ
      → Nonces
      → String
      → String
      → Option String
      → Option String
      → Option String
      → Option String
      → OauthToken
  new_token now n secret session client signed_scope scope session_id = record {
    access_token =
        sign c "sera_mcp_at_" secret
          (token_payload session client signed_scope (now + expires_in * 1000) n.access);
    expires_in = expires_in;
    refresh_token = some (
        sign c "sera_mcp_rt_" secret
          (token_payload session client signed_scope (now + refresh_ttl) n.refresh));
    scope = scope;
    session_id = session_id;
    client_id = client;
    created_at = now;
  }

  -- the code is used up, then the tokens are made for its session
  unfoldable pub grant :
      ℕ → Nonces → String → OauthAuthorizationCode → Option String → OauthStore → Result OauthToken
  grant now n code a none s = throw no_session (drop_code code s)
  grant now n code a (some session) s =
      let t =
        new_token now n s.signing_secret session a.client_id a.scope
          (some (or_text a.scope "mcp:all")) (some (to_lower session)) in
      ok t (store_token t (drop_code code s))

  unfoldable pub exchange_code : ℕ → Nonces → ExchangeParams → OauthStore → Result OauthToken
  exchange_code now n q s = elim (find_code now q.code s) [
    | none ↦ throw invalid_code s
    | some a ↦
        if ltb a.expires_at now
        then throw expired_code (drop_code q.code s)
        else elim (refused q a) [ some e ↦ throw e s | none ↦ grant now n q.code a a.session_id s ]
  ]

  -- the refresh token from memory, or else from its signed text
  unfoldable pub find_refresh : ℕ → String → OauthStore → Option OauthToken
  find_refresh now text s = elim (Dict.get s.refresh_tokens text) [
    | some t ↦ some t
    | none ↦ elim (verify c "sera_mcp_rt_" s.signing_secret now text) [
      | none ↦ none
      | some (p, e) ↦ some (record {
        access_token = "";
        expires_in = expires_in;
        refresh_token = some text;
        scope = p.scp;
        session_id = p.sub;
        client_id = p.cid;
        created_at = now;
      })
    ]
  ]

  unfoldable pub rotate :
      ℕ → Nonces → String → OauthToken → Option String → OauthStore → Result OauthToken
  rotate now n text old none s = throw no_session (invalidate text old s)
  rotate now n text old (some session) s =
      let t =
        new_token now n s.signing_secret session old.client_id old.scope old.scope (some session) in
      ok t (store_token t (invalidate text old s))

  unfoldable pub refresh_access_token :
      ℕ → Nonces → String → String → OauthStore → Result OauthToken
  refresh_access_token now n text client_id s = elim (find_refresh now text s) [
    | none ↦ throw invalid_refresh_token s
    | some old ↦
        if is_text old.client_id client_id
        then rotate now n text old old.session_id s
        else throw invalid_refresh_token s
  ]

-- ===== src/Auth/OauthStore.antt =====
-- src/server/auth/oauth/OAuthStore.ts: the store's state, its clients and its signed texts.
-- The cryptographic library and the encodings of Node (`createHmac`, `createHash`, `Buffer`, `JSON`)
-- are the record `Crypto`: its laws are that base64url and hexadecimal texts hold neither a dot nor
-- white space. That an encoded payload reads back is `ReadsBack`. A method takes one clock reading
-- `now` and the random texts that it draws.
pub mod Signed
use Prim.Native.Char.{code}
use Prim.Native.String
use sera_core.Prelude.{
  ℕ, String, Bool, true, false, ◌||◌, ◌&&◌, not, Option, none, some, List, [], ◌∷◌, ◌≡◌, ◌==◌,
  if◌then◌else◌, get_or, is_empty, truthy, or_text, leb, nat_eq,
}
use sera_core.Dict
use sera_core.Dict.{Dict}
use sera_core.Text.{to_lower, strip_prefix, split_on, is_space}
use sera_core.Text.Laws.{Free, IsPlain}

-- the JSON object of an authorization code, an access token or a refresh token; a field that the
-- object lacks is `none`
pub record Payload : Type 0 where
  pub sub : Option String
  pub cid : Option String
  pub ruri : Option String
  pub scope : Option String
  pub scp : Option String
  pub cc : Option String
  pub ccm : Option String
  pub exp : Option ℕ
  pub nonce : Option String

pub record Crypto : Type 0 where
  pub hmac : String → String → String
  pub sha256 : String → String
  pub encode : Payload → String
  pub decode : String → Option Payload
  pub encode-Free : (p : Payload) → Free b'.' (encode p)
  pub hmac-Free : (key text : String) → Free b'.' (hmac key text)
  pub encode-IsPlain : (p : Payload) → IsPlain (encode p)
  pub hmac-IsPlain : (key text : String) → IsPlain (hmac key text)

-- `JSON.parse` and base64url give back the payload that they wrote
abbrev pub ReadsBack : Crypto → Payload → Type 0
ReadsBack c p = c.decode (c.encode p) ≡ some p

pub data AuthMethod : Type 0 where
  no_secret client_secret_post client_secret_basic : AuthMethod

pub record OauthClient : Type 0 where
  pub client_id : String
  pub client_secret : Option String
  pub client_name : Option String
  pub client_uri : Option String
  pub logo_uri : Option String
  pub redirect_uris : List String
  pub grant_types : List String
  pub response_types : List String
  pub scope : Option String
  pub token_endpoint_auth_method : AuthMethod
  pub created_at : ℕ

-- a code that was read from its signed text may lack any field
pub record OauthAuthorizationCode : Type 0 where
  pub code : String
  pub client_id : Option String
  pub redirect_uri : Option String
  pub session_id : Option String
  pub scope : Option String
  pub code_challenge : Option String
  pub code_challenge_method : Option String
  pub expires_at : ℕ

-- `token_type` is always 'Bearer'
pub record OauthToken : Type 0 where
  pub access_token : String
  pub expires_in : ℕ
  pub refresh_token : Option String
  pub scope : Option String
  pub session_id : Option String
  pub client_id : Option String
  pub created_at : ℕ

pub record OauthStore : Type 0 where
  pub clients : Dict OauthClient
  pub auth_codes : Dict OauthAuthorizationCode
  pub tokens : Dict OauthToken
  pub refresh_tokens : Dict OauthToken
  pub signing_secret : String

unfoldable pub claude_client : ℕ → OauthClient
claude_client now = record {
  client_id = "claude-ai-mcp";
  client_secret = none;
  client_name = some "Anthropic Claude";
  client_uri = none;
  logo_uri = none;
  redirect_uris =
      "https://claude.ai/oauth/callback" ∷ "http://localhost:3000/oauth/callback"
      ∷ "https://chatgpt.com/aip/oauth/callback" ∷ [];
  grant_types = "authorization_code" ∷ "refresh_token" ∷ [];
  response_types = "code" ∷ [];
  scope = none;
  token_endpoint_auth_method = no_secret;
  created_at = now;
}

-- the constructor, with `initWellKnownClients`; `secret` is SESSION_SECRET
unfoldable pub new_store : ℕ → Option String → OauthStore
new_store now secret = record {
  clients = ("claude-ai-mcp", claude_client now) ∷ [];
  auth_codes = [];
  tokens = [];
  refresh_tokens = [];
  signing_secret = or_text secret "sera-oauth-stateless-secret-key-prod-2026";
}

-- `Partial<OAuthClient>`
pub record ClientMetadata : Type 0 where
  pub client_name : Option String
  pub client_uri : Option String
  pub logo_uri : Option String
  pub redirect_uris : Option (List String)
  pub grant_types : Option (List String)
  pub response_types : Option (List String)
  pub scope : Option String
  pub token_endpoint_auth_method : Option AuthMethod

abbrev wants_no_secret : Option AuthMethod → Bool
wants_no_secret (some no_secret) = true
wants_no_secret _ = false

abbrev uris_of : Option (List String) → List String
uris_of (some (u ∷ us)) = u ∷ us
uris_of _ = "https://claude.ai/oauth/callback" ∷ []

-- `id` and `secret` are the random parts, in hexadecimal
unfoldable pub register_client :
    ℕ → String → String → ClientMetadata → OauthStore → OauthClient × OauthStore
register_client now id secret m s =
    let client_id = Prim.Native.String.◌++◌ "sera_client_" id in
    let client_secret =
      if wants_no_secret m.token_endpoint_auth_method
      then none
      else some (Prim.Native.String.◌++◌ "sera_cs_" secret) in
    let client : OauthClient = record {
      client_id = client_id;
      client_secret = client_secret;
      client_name = some (or_text m.client_name "External MCP Client");
      client_uri = m.client_uri;
      logo_uri = m.logo_uri;
      redirect_uris = uris_of m.redirect_uris;
      grant_types = get_or m.grant_types ("authorization_code" ∷ "refresh_token" ∷ []);
      response_types = get_or m.response_types ("code" ∷ []);
      scope = some (or_text m.scope "mcp:chat mcp:wallet mcp:memory mcp:tools");
      token_endpoint_auth_method = get_or m.token_endpoint_auth_method client_secret_post;
      created_at = now;
    } in
    (client, record s { clients = Dict.set s.clients client_id client })

unfoldable pub get_client : String → OauthStore → Option OauthClient
get_client client_id s = Dict.get s.clients client_id

module _ (c : Crypto) where
  -- `${prefix}${encoded}.${sig}`
  unfoldable pub sign : String → String → Payload → String
  sign prefix secret p =
      let encoded = c.encode p in
      Prim.Native.String.◌++◌ prefix
        (Prim.Native.String.◌++◌ encoded (Prim.Native.String.◌++◌ "." (c.hmac secret encoded)))

  -- `sig === expectedSig`, then `JSON.parse`; a throw of it is caught
  unfoldable pub checked : String → List String → Option Payload
  checked secret (encoded ∷ sig ∷ []) =
      if sig == c.hmac secret encoded then c.decode encoded else none
  checked secret _ = none

  -- a payload with `decoded.exp && Date.now() <= decoded.exp`
  unfoldable pub current : ℕ → Option Payload → Option (Payload × ℕ)
  current now none = none
  current now (some p) = elim p.exp [
    | none ↦ none
    | some e ↦ if nat_eq e 0 then none else if leb now e then some (p, e) else none
  ]

  -- the signed text read without the store's maps, as another replica reads it
  unfoldable pub verify : String → String → ℕ → String → Option (Payload × ℕ)
  verify prefix secret now text = elim (strip_prefix prefix text) [
    | none ↦ none
    | some rest ↦ current now (checked secret (split_on b'.' rest))
  ]

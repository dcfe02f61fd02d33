-- ===== src/Auth/Tests/Tokens.antt =====
-- Codes and tokens, run. The cryptographic functions of the runs are constants, and the encoding
-- reads back the one payload of the run.
use sera_core.Prelude.{String, get_or, ◌≡◌, ◌↔◌, refl, true, none, some, [], arith, is_some}
use sera_core.Dict
use sera_core.Text.{to_lower}
use sera_core.Auth.OauthStore.{Payload, Crypto, OauthToken, OauthStore, sign, new_store}
use sera_core.Auth.Tokens.Refresh.{refresh_access_token-chain}
use sera_core.Auth.Tokens.{
  find_refresh, invalidate, rotate, refresh_access_token, ok, CodeParams, ExchangeParams, Nonces,
  code_payload, token_payload, create_authorization_code, verify_pkce, find_code, pkce_error,
  refused, new_token, store_token, grant, exchange_code,
}
use sera_core.Auth.Tokens.Exchange.{
  succeeds, created, IsEntitled, exchange_code-succeeds_iff, find_code-created,
}
use sera_core.Auth.Tokens.Replay.{exchange_code-replay}
use sera_core.Auth.Sessions.{resolve_session, revoke_token}
use sera_core.Auth.Sessions.Stateless.{resolve_session-signed, revoke_token-resolves}

code : Unit {0}
unfolding Dict.get Dict.set Dict.delete to_lower new_store code_payload create_authorization_code
    created verify_pkce find_code pkce_error refused new_token store_token grant exchange_code sign
    find_refresh invalidate rotate refresh_access_token
code = tt

-- the functions of a run with one payload
abbrev constant : Payload → Crypto
constant p = record {
  hmac = λ key text. "sig";
  sha256 = λ text. text;
  encode = λ q. "pay";
  decode = λ text. some p;
  encode-Free = λ q. (refl, (refl, (refl, tt)));
  hmac-Free = λ key text. (refl, (refl, (refl, tt)));
  encode-IsPlain = λ q. (refl, (refl, (refl, tt)));
  hmac-IsPlain = λ key text. (refl, (refl, (refl, tt)));
}

abbrev params : CodeParams
params = record {
  client_id = "claude-ai-mcp";
  redirect_uri = "https://claude.ai/oauth/callback";
  session_id = "0xabc";
  scope = none;
  code_challenge = some "challenge";
  code_challenge_method = some "plain";
}

abbrev store : OauthStore
store = record {
  clients = [];
  auth_codes = [];
  tokens = [];
  refresh_tokens = [];
  signing_secret = "secret";
}

abbrev code_crypto : Crypto
code_crypto = constant (code_payload 1000 "n0" params)

abbrev issued : OauthStore
issued = (create_authorization_code code_crypto 1000 "n0" params store).1

abbrev request : ExchangeParams
request = record {
  code = (create_authorization_code code_crypto 1000 "n0" params store).0;
  client_id = "claude-ai-mcp";
  redirect_uri = none;
  code_verifier = some "challenge";
}

abbrev nonces : Nonces
nonces = record { access = "n1"; refresh = "n2" }

-- the token of the first exchange, and the store after it
abbrev token : OauthToken
token =
    new_token code_crypto 2000 nonces "secret" "0xabc" (some "claude-ai-mcp") none (some "mcp:all")
      (some "0xabc")

abbrev exchanged : OauthStore
exchanged = store_token token (record store { auth_codes = [] })

first_exchange : exchange_code code_crypto 2000 nonces request issued ≡ ok token exchanged
unfolding code
first_exchange = refl

exchange_code-replay_example :
    succeeds (exchange_code code_crypto 3000 nonces request exchanged) ≡ true
exchange_code-replay_example =
    exchange_code-replay code_crypto 1000 2000 3000 "n0" params store request nonces nonces token
      exchanged refl refl first_exchange (omega arith)

request-IsEntitled :
    IsEntitled code_crypto 2000 request (created code_crypto 1000 "n0" params store)
unfolding code
request-IsEntitled = (omega arith, refl, refl)

created_named : is_some (created code_crypto 1000 "n0" params store).session_id ≡ true
unfolding code
created_named = refl

exchange_code-succeeds_iff_example :
    (succeeds (exchange_code code_crypto 2000 nonces request issued) ≡ true)
    ↔ IsEntitled code_crypto 2000 request (created code_crypto 1000 "n0" params store)
exchange_code-succeeds_iff_example =
    exchange_code-succeeds_iff code_crypto 2000 nonces request issued
      (created code_crypto 1000 "n0" params store)
      (find_code-created code_crypto 1000 2000 "n0" params store) created_named

abbrev access_payload : Payload
access_payload = token_payload "0xABC" (some "claude-ai-mcp") none 9000 "n1"

access_exp : access_payload.exp ≡ some 9000
unfolding token_payload
access_exp = refl

access_sub : access_payload.sub ≡ some "0xabc"
unfolding token_payload to_lower
access_sub = refl

resolve_session-signed_example :
    resolve_session
      (constant access_payload)
      8000
      (sign (constant access_payload) "sera_mcp_at_" "secret" access_payload)
      store
    ≡ (some (to_lower "0xabc"), store)
unfolding Dict.get
resolve_session-signed_example =
    resolve_session-signed (constant access_payload) 8000 9000 access_payload "0xabc" store refl
      access_exp (omega arith) (omega arith) access_sub refl refl

revoke_token-resolves_example :
    (resolve_session
      (constant access_payload)
      8000
      (sign (constant access_payload) "sera_mcp_at_" "secret" access_payload)
      (revoke_token
        (sign (constant access_payload) "sera_mcp_at_" "secret" access_payload)
        store).1).0
    ≡ some (to_lower "0xabc")
revoke_token-resolves_example =
    revoke_token-resolves (constant access_payload) 8000 9000 access_payload "0xabc" store refl
      access_exp (omega arith) (omega arith) access_sub refl

-- the first token is refreshed
abbrev refresh_token_text : String
refresh_token_text = get_or token.refresh_token ""

abbrev second_token : OauthToken
second_token =
    new_token code_crypto 4000 nonces "secret" "0xabc" (some "claude-ai-mcp") (some "mcp:all")
      (some "mcp:all") (some "0xabc")

abbrev refreshed : OauthStore
refreshed = store_token second_token (invalidate refresh_token_text token exchanged)

first_refresh :
    refresh_access_token code_crypto 4000 nonces refresh_token_text "claude-ai-mcp" exchanged
    ≡ ok second_token refreshed
unfolding code
first_refresh = refl

refresh_access_token-chain_example :
    succeeds (
      refresh_access_token code_crypto 5000 nonces
        (get_or second_token.refresh_token "")
        "claude-ai-mcp"
        refreshed)
    ≡ true
refresh_access_token-chain_example =
    refresh_access_token-chain code_crypto 4000 5000 nonces nonces refresh_token_text
      "claude-ai-mcp" exchanged second_token refreshed first_refresh

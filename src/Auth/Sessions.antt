-- ===== src/Auth/Sessions.antt =====
-- src/server/auth/oauth/OAuthStore.ts: who a bearer token stands for, and revocation.
pub mod Stateless
use Prim.Native.Char.{Char, code}
use Prim.Native.String
use sera_core.Prelude.{
  ℕ, ◌+◌, ◌*◌, String, Bool, true, false, ◌||◌, ◌&&◌, not, Option, none, some, List, [], ◌∷◌, ◌==◌,
  if◌then◌else◌, get_or, is_empty, is_text, truthy, ltb, leb, nat_eq, is_some, any,
}
use sera_core.Dict
use sera_core.Dict.{Dict}
use sera_core.Text.{to_lower, lower_char, trim, is_space}
use sera_core.Auth.OauthStore.{Payload, Crypto, OauthToken, OauthClient, OauthStore, verify}

-- a prefix in lower case taken off a text of any case
unfoldable pub strip_ci : String → String → Option String
strip_ci String.[] s = some s
strip_ci (String.◌∷◌ d p) String.[] = none
strip_ci (String.◌∷◌ d p) (String.◌∷◌ c s) =
    if nat_eq (code d) (code (lower_char c)) then strip_ci p s else none

unfoldable pub starts_with_space : String → Bool
starts_with_space String.[] = false
starts_with_space (String.◌∷◌ c s) = is_space c

-- `.replace(/^Bearer\s+/i, '').trim()`; the white space behind the word goes with the trimming
unfoldable pub clean_token : String → String
clean_token text = elim (strip_ci "bearer" text) [
  | none ↦ trim text
  | some rest ↦ if starts_with_space rest then trim rest else trim text
]

abbrev pub expires_at : OauthToken → ℕ
expires_at t = t.created_at + t.expires_in * 1000

abbrev drop_refresh : OauthToken → Dict OauthToken → Dict OauthToken
drop_refresh t d = elim (truthy t.refresh_token) [ none ↦ d | some r ↦ Dict.delete d r ]

module _ (c : Crypto) where
  -- `parsed.sub && parsed.exp && Date.now() <= parsed.exp`
  unfoldable pub resolve_signed : ℕ → String → OauthStore → Option String
  resolve_signed now text s = elim (verify c "sera_mcp_at_" s.signing_secret now text) [
    | none ↦ none
    | some (p, e) ↦ elim (truthy p.sub) [ none ↦ none | some sub ↦ some (to_lower sub) ]
  ]

  -- on the cleaned text; an expired token leaves the maps
  unfoldable pub resolve_clean : ℕ → String → OauthStore → Option String × OauthStore
  resolve_clean now text s = elim (Dict.get s.tokens text) [
    | some t ↦
        if ltb (expires_at t) now
        then (
          none,
          record s {
            tokens = Dict.delete s.tokens text;
            refresh_tokens = drop_refresh t s.refresh_tokens;
          },
        )
        else (t.session_id, s)
    | none ↦ (resolve_signed now text s, s)
  ]

  unfoldable pub resolve_session : ℕ → String → OauthStore → Option String × OauthStore
  resolve_session now text s =
      if is_empty text then (none, s) else resolve_clean now (clean_token text) s

-- the first half: the text is an access token of the map
unfoldable pub revoke_access : String → OauthStore → Bool × OauthStore
revoke_access text s = elim (Dict.get s.tokens text) [
  | none ↦ (false, s)
  | some t ↦ (
    true,
    record s {
      tokens = Dict.delete s.tokens text;
      refresh_tokens = drop_refresh t s.refresh_tokens;
    },
  )
]

-- the second half: it is a refresh token
unfoldable pub revoke_refresh : String → OauthStore → Bool × OauthStore
revoke_refresh text s = elim (Dict.get s.refresh_tokens text) [
  | none ↦ (false, s)
  | some t ↦ (
    true,
    record s {
      tokens = Dict.delete s.tokens t.access_token;
      refresh_tokens = Dict.delete s.refresh_tokens text;
    },
  )
]

unfoldable pub revoke_token : String → OauthStore → Bool × OauthStore
revoke_token text s =
    let (access, s') = revoke_access text s in
    let (refresh, s'') = revoke_refresh text s' in (access || refresh, s'')

-- whether a session's token is one to revoke; an absent client stands for all
abbrev pub revocable : String → Option String → OauthToken → Bool
revocable user_id client_id t =
    is_text t.session_id user_id
    && elim (truthy client_id) [ none ↦ true | some k ↦ is_text t.client_id k ]

-- the loop over a copy of the entries
unfoldable pub revoke_each :
    String → Option String → Dict OauthToken → OauthStore → Bool × OauthStore
revoke_each user_id client_id [] s = (false, s)
revoke_each user_id client_id ((k, t) ∷ d) s =
    let hit = revocable user_id client_id t in
    let s' : OauthStore =
      if hit
      then record s {
        tokens = Dict.delete s.tokens k;
        refresh_tokens = drop_refresh t s.refresh_tokens;
      }
      else s in
    let (rest, s'') = revoke_each user_id client_id d s' in (hit || rest, s'')

unfoldable pub revoke_platform_session : String → Option String → OauthStore → Bool × OauthStore
revoke_platform_session user_id client_id s = revoke_each user_id client_id s.tokens s

pub record ConnectedPlatform : Type 0 where
  pub client_id : Option String
  pub client_name : String
  pub created_at : ℕ

abbrev name_of : OauthStore → OauthToken → String
name_of s t = elim t.client_id [
  | none ↦ "External MCP Client"
  | some k ↦ elim (Dict.get s.clients k) [
    | none ↦ "External MCP Client"
    | some client ↦ elim (truthy client.client_name) [
      | none ↦ "External MCP Client"
      | some name ↦ name
    ]
  ]
]

abbrev same_client : Option String → Option String → Bool
same_client none none = true
same_client (some a) b = is_text b a
same_client none (some b) = false

-- the loop over the tokens, with the clients seen so far
unfoldable pub connected :
    ℕ → String → OauthStore → List (Option String) → Dict OauthToken → List ConnectedPlatform
connected now user_id s seen [] = []
connected now user_id s seen ((k, t) ∷ d) =
    let live = is_text t.session_id user_id && leb now (expires_at t) in
    let fresh = live && not (any (same_client t.client_id) seen) in
    let rest = connected now user_id s (if fresh then t.client_id ∷ seen else seen) d in
    if fresh
    then record { client_id = t.client_id; client_name = name_of s t; created_at = t.created_at }
      ∷ rest
    else rest

unfoldable pub list_connected_platforms : ℕ → String → OauthStore → List ConnectedPlatform
list_connected_platforms now user_id s = connected now user_id s [] s.tokens

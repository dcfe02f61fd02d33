-- ===== src/Auth/ApiKeys.antt =====
-- src/mcp/McpApiKeyStore.ts: the API keys of users, in a map from keys to users and one from users
-- to the sets of their keys. A set is a list in insertion order.
pub mod Agreement
pub mod History
use Prim.Native.String
use sera_core.Prelude.{
  ℕ, ◌+◌, ◌-◌, String, Bool, true, false, ◌||◌, ◌&&◌, not, Option, none, some, List, [], ◌∷◌, ◌++◌,
  ◌==◌, if◌then◌else◌, get_or, is_empty, truthy, any, filter, length, nat_eq,
}
use sera_core.Dict
use sera_core.Dict.{Dict}
use sera_core.Text.{to_lower, starts_with, includes, text_length, take_text, drop_text}
use sera_core.Auth.OauthStore.{Crypto, OauthStore}
use sera_core.Auth.Sessions.{clean_token, resolve_session}

pub record McpApiKeyStore : Type 0 where
  pub key_to_user : Dict String
  pub user_to_keys : Dict (List String)

abbrev admin_user_id : String
admin_user_id = "admin-system-user"

-- the constructor; `key` is SERA_API_KEY
unfoldable pub new_key_store : Option String → McpApiKeyStore
new_key_store key = elim (truthy key) [
  | none ↦ record { key_to_user = []; user_to_keys = [] }
  | some k ↦ record {
    key_to_user = (k, admin_user_id) ∷ [];
    user_to_keys = (admin_user_id, k ∷ []) ∷ [];
  }
]

abbrev pub has_key : String → List String → Bool
has_key key keys = any (λ k. k == key) keys

-- `Set.add`
abbrev pub add_key : String → List String → List String
add_key key keys = if has_key key keys then keys else keys ++ (key ∷ [])

-- `Set.delete`
abbrev pub remove_key : String → List String → List String
remove_key key keys = filter (λ k. not (k == key)) keys

-- `hex` is the random part
unfoldable pub generate_key : String → String → McpApiKeyStore → String × McpApiKeyStore
generate_key hex user_id s =
    let key = Prim.Native.String.◌++◌ "sk-sera-" hex in
    (
      key,
      record {
        key_to_user = Dict.set s.key_to_user key user_id;
        user_to_keys =
            Dict.set s.user_to_keys user_id
              (add_key key (get_or (Dict.get s.user_to_keys user_id) []));
      },
    )

-- the texts that are taken for the user's id or wallet address itself
unfoldable pub resolve_self : String → Option String
resolve_self clean =
    if starts_with clean "0x" && nat_eq (text_length clean) 42
    then some (to_lower clean)
    else if includes clean "@" && includes clean "."
    then some (to_lower clean)
    else none

-- through the OAuth store, if one is set
unfoldable pub resolve_oauth :
    Crypto → ℕ → String → Option OauthStore → Option String × Option OauthStore
resolve_oauth c now clean none = (none, none)
resolve_oauth c now clean (some o) =
    let (user, o') = resolve_session c now clean o in (truthy user, some o')

unfoldable pub resolve_user :
    Crypto → ℕ → String → Option OauthStore → McpApiKeyStore → Option String × Option OauthStore
resolve_user c now text oauth s =
    if is_empty text
    then (none, oauth)
    else elim (truthy (Dict.get s.key_to_user (clean_token text))) [
      | some direct ↦ (some (to_lower direct), oauth)
      | none ↦
          let (user, oauth') = resolve_oauth c now (clean_token text) oauth in
          elim user [
            | some u ↦ (some (to_lower u), oauth')
            | none ↦ (resolve_self (clean_token text), oauth')
          ]
    ]

-- the user's set without the key; an empty set leaves the map
unfoldable pub drop_key :
    String → Option (List String) → String → Dict (List String) → Dict (List String)
drop_key user_id none key d = d
drop_key user_id (some keys) key d = elim (remove_key key keys) [
  | [] ↦ Dict.delete d user_id
  | k ∷ ks ↦ Dict.set d user_id (k ∷ ks)
]

unfoldable pub revoke_key : String → McpApiKeyStore → Bool × McpApiKeyStore
revoke_key key s = elim (truthy (Dict.get s.key_to_user key)) [
  | none ↦ (false, s)
  | some user_id ↦ (
    true,
    record {
      key_to_user = Dict.delete s.key_to_user key;
      user_to_keys = drop_key user_id (Dict.get s.user_to_keys user_id) key s.user_to_keys;
    },
  )
]

unfoldable pub delete_keys : List String → Dict String → Dict String
delete_keys [] d = d
delete_keys (k ∷ ks) d = delete_keys ks (Dict.delete d k)

-- the keys revoked, counted
unfoldable pub revoke_all_for_user : String → McpApiKeyStore → ℕ × McpApiKeyStore
revoke_all_for_user user_id s = elim (Dict.get s.user_to_keys user_id) [
  | none ↦ (0, s)
  | some keys ↦ (
    length keys,
    record {
      key_to_user = delete_keys keys s.key_to_user;
      user_to_keys = Dict.delete s.user_to_keys user_id;
    },
  )
]

pub record ListedKey : Type 0 where
  pub key : String
  pub masked : String

-- `${key.slice(0, 10)}...${key.slice(-4)}`
unfoldable pub mask : String → String
mask key =
    Prim.Native.String.◌++◌ (take_text 10 key)
      (Prim.Native.String.◌++◌ "..." (drop_text (text_length key - 4) key))

unfoldable pub list_each : List String → List ListedKey
list_each [] = []
list_each (k ∷ ks) = record { key = k; masked = mask k } ∷ list_each ks

unfoldable pub list_keys : String → McpApiKeyStore → List ListedKey
list_keys user_id s = elim (Dict.get s.user_to_keys user_id) [
  | none ↦ []
  | some keys ↦ list_each keys
]

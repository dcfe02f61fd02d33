-- ===== src/Auth/ApiKeys/History.antt =====
-- What a history of API keys leaves, by key and by user.
use Prim.Native.String
use sera_core.Prelude.{
  String, ◌≡◌, ◌↔◌, refl, Bool, true, Option, none, some, List, [], ◌∷◌, ◌==◌, any, Option-cases,
  inl, inr,
}
use sera_core.Dict
use sera_core.Dict.{Dict}
use sera_core.Auth.ApiKeys.{
  McpApiKeyStore, has_key, new_key_store, generate_key, revoke_key, revoke_all_for_user, ListedKey,
  list_each, list_keys,
}
use sera_core.Auth.ApiKeys.Agreement.{
  keys_of, Agrees, without, generate_key-Agrees, revoke_key-Agrees, revoke_all_for_user-get,
  revoke_all_for_user-Agrees, new_key_store-Agrees,
}

-- a call of the store, with the random part that it draws
pub data Command : Type 0 where
  generate : (hex user_id : String) → Command
  revoke : (key : String) → Command
  revoke_all : (user_id : String) → Command

unfoldable pub run_command : Command → McpApiKeyStore → McpApiKeyStore
run_command (generate hex user_id) s = (generate_key hex user_id s).1
run_command (revoke key) s = (revoke_key key s).1
run_command (revoke_all user_id) s = (revoke_all_for_user user_id s).1

unfoldable pub run_commands : List Command → McpApiKeyStore → McpApiKeyStore
run_commands [] s = s
run_commands (c ∷ cs) s = run_commands cs (run_command c s)

-- a key that is drawn is not in use
abbrev pub IsFresh : Command → McpApiKeyStore → Type 0
IsFresh (generate hex user_id) s =
    Dict.get s.key_to_user (Prim.Native.String.◌++◌ "sk-sera-" hex) ≡ none
IsFresh (revoke key) s = Unit
IsFresh (revoke_all user_id) s = Unit

abbrev pub AllFresh : List Command → McpApiKeyStore → Type 0
AllFresh [] s = Unit
AllFresh (c ∷ cs) s = IsFresh c s × AllFresh cs (run_command c s)

run_commands-Agrees :
    (cs : List Command) (s : McpApiKeyStore) → Agrees s → AllFresh cs s → Agrees (run_commands cs s)
unfolding run_commands run_command
run_commands-Agrees [] s h fresh = h
run_commands-Agrees (generate hex user_id ∷ cs) s h fresh =
    run_commands-Agrees cs _ (generate_key-Agrees hex user_id s h fresh.0) fresh.1
run_commands-Agrees (revoke key ∷ cs) s h fresh =
    run_commands-Agrees cs _ (revoke_key-Agrees key s h) fresh.1
run_commands-Agrees (revoke_all user_id ∷ cs) s h fresh =
    run_commands-Agrees cs _ (revoke_all_for_user-Agrees user_id s h) fresh.1

-- After any history of keys generated and revoked from a new store, where no key that is drawn is in
-- use: revoking all keys of a user leaves no key that is that user's, and leaves every other key
-- with its user.
pub revoke_all_for_user_lem :
    (env : Option String) (cs : List Command) (user key : String)
    → AllFresh cs (new_key_store env)
    → Dict.get (revoke_all_for_user user (run_commands cs (new_key_store env))).1.key_to_user key
      ≡ without user (Dict.get (run_commands cs (new_key_store env)).key_to_user key)
revoke_all_for_user_lem env cs user key fresh =
    revoke_all_for_user-get (run_commands cs (new_key_store env)) user key
      (run_commands-Agrees cs (new_key_store env) (new_key_store-Agrees env) fresh)

abbrev pub lists : String → List ListedKey → Bool
lists key ls = any (λ l. l.key == key) ls

lists-each : (key : String) (keys : List String) → lists key (list_each keys) ≡ has_key key keys
unfolding list_each
lists-each key [] = refl
lists-each key (k ∷ ks) = rw (lists-each key ks) refl

lists-keys_of :
    (key user : String) (s : McpApiKeyStore)
    → lists key (list_keys user s) ≡ has_key key (keys_of s.user_to_keys user)
unfolding list_keys
lists-keys_of key user s = elim (Option-cases (Dict.get s.user_to_keys user)) [
  | inl g ↦ rw (g, list_keys) refl
  | inr (keys, g) ↦ rw (g, list_keys) (lists-each key keys)
]

-- After any history of keys generated and revoked from a new store, where no key that is drawn is in
-- use: the keys listed for a user are exactly those that the other map gives to that user.
list_keys_iff :
    (env : Option String) (cs : List Command) (user key : String)
    → AllFresh cs (new_key_store env)
    → (lists key (list_keys user (run_commands cs (new_key_store env))) ≡ true)
      ↔ (Dict.get (run_commands cs (new_key_store env)).key_to_user key ≡ some user)
list_keys_iff env cs user key fresh =
    let s = run_commands cs (new_key_store env) in
    let (to, from) =
      run_commands-Agrees cs (new_key_store env) (new_key_store-Agrees env) fresh key user in
    rw (lists-keys_of key user s) (from, to)

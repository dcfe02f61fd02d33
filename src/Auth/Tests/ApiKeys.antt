-- ===== src/Auth/Tests/ApiKeys.antt =====
-- The keys of two users, run.
use sera_core.Prelude.{◌≡◌, refl, some, List, [], ◌∷◌}
use sera_core.Dict
use sera_core.Text.{to_lower, text_length, strip_prefix}
use sera_core.Auth.ApiKeys.{
  new_key_store, generate_key, revoke_key, revoke_all_for_user, resolve_self,
}
use sera_core.Auth.ApiKeys.Agreement.{without}
use sera_core.Auth.ApiKeys.History.{
  Command, generate, revoke, run_command, run_commands, AllFresh, revoke_all_for_user_lem,
}

-- two keys of one user, one of another; the first is revoked
abbrev commands : List Command
commands =
    generate "01" "0xabc" ∷ generate "02" "0xabc" ∷ generate "03" "0xdef" ∷ revoke "sk-sera-01" ∷ []

commands-AllFresh : AllFresh commands (new_key_store (some "sk-env"))
unfolding new_key_store generate_key run_command revoke_key Dict.get Dict.set Dict.delete
commands-AllFresh = (refl, (refl, (refl, (tt, tt))))

revoke_all_for_user_lem_example :
    Dict.get
      (revoke_all_for_user "0xabc"
        (run_commands commands (new_key_store (some "sk-env")))).1.key_to_user
      "sk-sera-03"
    ≡ without "0xabc"
        (Dict.get (run_commands commands (new_key_store (some "sk-env"))).key_to_user "sk-sera-03")
revoke_all_for_user_lem_example =
    revoke_all_for_user_lem (some "sk-env") commands "0xabc" "sk-sera-03" commands-AllFresh

-- no key at all, and taken for a user
any_address_resolves :
    resolve_self "0x0000000000000000000000000000000000000000"
    ≡ some "0x0000000000000000000000000000000000000000"
unfolding resolve_self to_lower text_length strip_prefix
any_address_resolves = refl

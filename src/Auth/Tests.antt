-- ===== src/Auth/Tests.antt =====
-- Codes, tokens and link codes, run. The cryptographic functions of the runs are constants, and the
-- encoding reads back the one payload of the run.
mod ApiKeys
mod Tokens
use Prim.Native.String
use sera_core.Prelude.{
  ℕ, ◌+◌, ◌≤◌, String, ◌≡◌, ◌≢◌, ◌↔◌, refl, Bool, true, false, none, some, [], ◌∷◌, if◌then◌else◌,
  ltb, arith,
}
use sera_core.Dict
use sera_core.Dict.{Dict}
use sera_core.Text.{to_lower}
use sera_core.Auth.OauthStore.{Payload, Crypto, OauthStore, sign, verify, new_store}
use sera_core.Auth.OauthStore.Signed.{verify-sign}
use sera_core.Auth.LinkCodes.{
  LinkCode, Verdict, linked, unknown_code, code_expired, too_many_attempts, sweep, create_link_code,
  clean_code, verify_and_burn_link_code,
}
use sera_core.Auth.LinkCodes.Laws.{
  Command, create, burn, run_commands, verify-burns, verify-ne-too_many_attempts,
}

code : Unit {0}
unfolding Dict.get Dict.set Dict.delete sweep create_link_code clean_code verify_and_burn_link_code
    run_commands
code = tt

abbrev codes : Dict LinkCode
codes = ("123456", record { user_id = "0xabc"; expires_at = 300000; attempts = 0 }) ∷ []

first_links : (verify_and_burn_link_code 5 "123-456" codes).0 ≡ linked "0xabc"
unfolding code
first_links = refl

same_code : clean_code "123 456" ≡ clean_code "123-456"
unfolding code
same_code = refl

verify-burns_example :
    (verify_and_burn_link_code 6 "123 456" (verify_and_burn_link_code 5 "123-456" codes).1).0
    ≡ unknown_code
verify-burns_example = verify-burns 5 6 "123-456" "123 456" "0xabc" codes first_links same_code refl

code_654321 : clean_code "654-321" ≡ "654321"
unfolding code
code_654321 = refl

verify-ne-too_many_attempts_example :
    (verify_and_burn_link_code 40 "654321" (
      run_commands
        (create 10 "654321" "0xdef" 300000
          ∷ burn 20 "000000"
          ∷ burn 21 "000001"
          ∷ burn 22 "000002"
          ∷ [])
        [])).0
    ≢ too_many_attempts
verify-ne-too_many_attempts_example =
    verify-ne-too_many_attempts
      (create 10 "654321" "0xdef" 300000
        ∷ burn 20 "000000"
        ∷ burn 21 "000001"
        ∷ burn 22 "000002"
        ∷ [])
      40 "654321"

-- ===== src/Settlement/Classifier/Laws.antt =====
-- The flags of a classification, and when it is a success.
use sera_core.Prelude.{
  ℕ, String, Bool, true, false, ◌≡◌, ◌↔◌, Option, arith, get_or, is_some, not, ◌||◌,
}
use sera_core.Text.{to_lower}
use sera_core.Settlement.Classifier.{
  Category, success, in_progress, unauthorized, validation, forbidden, not_found, server_error,
  unknown, SnapClassificationResult, succeeds, decide, classify,
}

abbrev is_category : Category → Category → Bool
is_category success success = true
is_category in_progress in_progress = true
is_category unauthorized unauthorized = true
is_category validation validation = true
is_category forbidden forbidden = true
is_category not_found not_found = true
is_category server_error server_error = true
is_category unknown unknown = true
is_category _ _ = false

-- each flag says whether the category is its own, and a refusal of a known kind has a reason
pub record IsConsistent (r : SnapClassificationResult) : Type 0 where
  pub success : r.is_success ≡ is_category success r.category
  pub progress : r.is_in_progress ≡ is_category in_progress r.category
  pub unauthorized : r.is_unauthorized ≡ is_category unauthorized r.category
  pub not_found : r.is_not_found ≡ is_category not_found r.category
  pub forbidden : r.is_forbidden ≡ is_category forbidden r.category
  pub validation : r.is_validation_error ≡ is_category validation r.category
  pub server_error : r.is_server_error ≡ is_category server_error r.category

decide-IsConsistent :
    (http : ℕ) (code msg : String) (message : Option String)
    → IsConsistent (decide http code msg message)
unfolding decide
decide-IsConsistent http code msg message = ground arith

-- For every answer of the bank: each flag of the classification is up exactly when the category is
-- the flag's own.
classify-IsConsistent :
    (http : ℕ) (response_code response_message : Option String)
    → IsConsistent (classify http response_code response_message)
unfolding classify
classify-IsConsistent http response_code response_message =
    decide-IsConsistent http (get_or response_code "") (to_lower (get_or response_message ""))
      response_message

decide-success_iff :
    (http : ℕ) (code msg : String) (message : Option String)
    → ((decide http code msg message).is_success ≡ true) ↔ (succeeds http code msg ≡ true)
unfolding decide
decide-success_iff http code msg message = ground arith

decide-reason :
    (http : ℕ) (code msg : String) (message : Option String)
    → is_some (decide http code msg message).reason_code
      ≡ not (
          is_category success (decide http code msg message).category
          || is_category unknown (decide http code msg message).category)
unfolding decide
decide-reason http code msg message = ground arith

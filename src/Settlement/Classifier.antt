-- ===== src/Settlement/Classifier.antt =====
-- src/capabilities/fintech/dana/SnapResponseClassifier.ts: the bank's answers by their codes.
pub mod Laws
use sera_core.Prelude.{
  ℕ, String, Bool, true, false, ◌||◌, ◌&&◌, Option, none, some, ◌==◌, if◌then◌else◌, get_or,
  or_text, nat_eq, leb,
}
use sera_core.Text.{to_lower, starts_with, ends_with, includes}

pub data Category : Type 0 where
  success in_progress unauthorized validation forbidden not_found server_error unknown : Category

pub record SnapClassificationResult : Type 0 where
  pub category : Category
  pub is_success : Bool
  pub is_in_progress : Bool
  pub is_unauthorized : Bool
  pub is_not_found : Bool
  pub is_forbidden : Bool
  pub is_validation_error : Bool
  pub is_server_error : Bool
  pub reason_code : Option String
  pub user_facing_message : Option String

-- the object literal of each branch starts with all flags down
abbrev plain : Category → Option String → Option String → SnapClassificationResult
plain category reason message = record {
  category = category;
  is_success = false;
  is_in_progress = false;
  is_unauthorized = false;
  is_not_found = false;
  is_forbidden = false;
  is_validation_error = false;
  is_server_error = false;
  reason_code = reason;
  user_facing_message = message;
}

-- the guards, in the order in which they are tried; `msg` is in lower case
unfoldable pub succeeds : ℕ → String → String → Bool
succeeds http code msg =
    starts_with code "200" || (nat_eq http 200 && (msg == "success" || msg == "successful"))

unfoldable pub progresses : ℕ → String → String → Bool
progresses http code msg = nat_eq http 202 || starts_with code "202" || includes msg "in progress"

unfoldable pub lacks_authority : ℕ → String → String → Bool
lacks_authority http code msg =
    nat_eq http 401
    || starts_with code "401"
    || code == "4000002"
    || code == "4010000"
    || includes msg "unauthorized"
    || includes msg "invalid signature"

unfoldable pub forbids : ℕ → String → Bool
forbids http code = nat_eq http 403 || starts_with code "403"

unfoldable pub misses : ℕ → String → Bool
misses http code = nat_eq http 404 || starts_with code "404"

unfoldable pub invalid : ℕ → String → Bool
invalid http code = nat_eq http 400 || starts_with code "400"

unfoldable pub breaks : ℕ → String → String → Bool
breaks http code msg =
    leb 500 http
    || starts_with code "500"
    || includes msg "internal server error"
    || includes msg "general error"

unfoldable pub forbidden_reason : String → String → String
forbidden_reason code msg =
    if code == "4035815" || includes msg "transaction not permitted"
    then "TRANSACTION_NOT_PERMITTED"
    else if code == "4035814"
        || code == "4034314"
        || code == "4033814"
        || code == "4034214"
        || includes msg "insufficient fund"
    then "INSUFFICIENT_FUNDS"
    else if code == "4034303" || includes msg "suspected fraud"
    then "SUSPECTED_FRAUD"
    else if code == "4033805" || code == "4033705" || includes msg "do not honor"
    then "DO_NOT_HONOR"
    else if code == "4034318" || code == "4034218" || includes msg "inactive account"
    then "INACTIVE_ACCOUNT"
    else if code == "4033702" || includes msg "exceed"
    then "EXCEED_LIMIT"
    else "FORBIDDEN"

unfoldable pub not_found_reason : String → String → String
not_found_reason code msg =
    if code == "4045818"
      || code == "4045418"
      || code == "4044318"
      || code == "4043818"
      || includes msg "inconsistent request"
    then "INCONSISTENT_REQUEST"
    else if code == "4045808"
        || includes msg "merchant status abnormal"
        || includes msg "invalid merchant"
    then "MERCHANT_STATUS_ABNORMAL"
    else if code == "4045800" || code == "4045700" || includes msg "invalid transaction status"
    then "INVALID_TRANSACTION_STATUS"
    else if code == "4045801" || code == "4043901" || includes msg "not found"
    then "TRANSACTION_NOT_FOUND"
    else "NOT_FOUND"

unfoldable pub validation_reason : String → String → String
validation_reason code msg =
    if ends_with code "02" || includes msg "mandatory field"
    then "MISSING_MANDATORY_FIELD"
    else if ends_with code "01" || includes msg "invalid field format"
    then "INVALID_FIELD_FORMAT"
    else "VALIDATION_ERROR"

-- the chain of early returns, on the code and the lowered message; `message` is the one to show
unfoldable pub decide : ℕ → String → String → Option String → SnapClassificationResult
decide http code msg message =
    if succeeds http code msg
    then record (plain success none none) { is_success = true }
    else if progresses http code msg
    then record (plain in_progress (some "REQUEST_IN_PROGRESS")
        (some "Transaction is currently in progress upstream.")) { is_in_progress = true }
    else if lacks_authority http code msg
    then record (plain unauthorized (some "UNAUTHORIZED_SIGNATURE") (
        some "Unauthorized request. Please verify SNAP BI client credentials and RSA signature.")) {
          is_unauthorized = true;
        }
    else if forbids http code
    then record (plain forbidden (some (forbidden_reason code msg))
        (some (or_text message "Transaction forbidden by payment provider."))) {
          is_forbidden = true;
        }
    else if misses http code
    then record (plain not_found (some (not_found_reason code msg))
        (some (or_text message "Resource or transaction not found upstream."))) {
          is_not_found = true;
        }
    else if invalid http code
    then record (plain validation (some (validation_reason code msg))
        (some (or_text message "Invalid request parameter or field format."))) {
          is_validation_error = true;
        }
    else if breaks http code msg
    then record (plain server_error (some "INTERNAL_SERVER_ERROR") (
        some
          "Upstream payment provider encountered an internal error. Transaction held pending retry.")) {
            is_server_error = true;
          }
    else plain unknown none (some (or_text message "Unknown payment provider response."))

unfoldable pub classify : ℕ → Option String → Option String → SnapClassificationResult
classify http response_code response_message =
    decide http (get_or response_code "") (to_lower (get_or response_message "")) response_message

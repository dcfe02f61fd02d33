-- ===== src/Memory/PolicyEngine.antt =====
-- src/core/memory/MemoryPolicyEngine.ts: whether a proposal may change a belief, and into what. The
-- memory is a parameter: what it believes under the key is an argument, and the call of
-- `__mutate_protected` is the result. A confidence is a number of millionths; a value is its text.
pub mod Laws
use sera_core.Prelude.{
  ℕ, String, Bool, true, false, ◌&&◌, ◌||◌, not, Option, none, some, List, [], ◌∷◌, ◌++◌, ◌==◌,
  if◌then◌else◌, get_or, is_some, any, length, leb, ltb, nat_eq,
}
use sera_core.Dict
use sera_core.Dict.{Dict}
use sera_core.Text.{split_on, starts_with}

pub data MemorySource : Type 0 where
  system_event user_statement user_direct_instruction : MemorySource
  blockchain_observation reflection_inference external_api : MemorySource

pub data VerificationLevel : Type 0 where
  unverified user_confirmed system_observed externally_verified : VerificationLevel

pub data MemoryStatus : Type 0 where
  active superseded invalidated pending : MemoryStatus

pub data EpistemicStatus : Type 0 where
  hypothesis confirmed verified_sensitive : EpistemicStatus

pub record MemoryPolicy : Type 0 where
  pub namespace : String
  pub minimum_verification : VerificationLevel
  pub require_evidence : Bool
  pub min_confidence_for_auto_confirm : ℕ
  pub protected_keys : List String

pub record Belief : Type 0 where
  pub id : String
  pub category : String
  pub key : Option String
  pub status : Option MemoryStatus
  pub source : Option MemorySource
  pub verification_level : Option VerificationLevel
  pub content : String
  pub epistemic_status : EpistemicStatus
  pub confidence : ℕ
  pub evidence_ids : List String
  pub contradiction_ids : List String
  pub created_at : ℕ
  pub updated_at : ℕ

-- of the evidence, its reference
pub record MemoryProposal : Type 0 where
  pub key : String
  pub value : String
  pub source : MemorySource
  pub evidence : Option String
  pub contradiction_id : Option String
  pub confidence : ℕ
  pub category : Option String

abbrev pub default_policy : MemoryPolicy
default_policy = record {
  namespace = "*";
  minimum_verification = unverified;
  require_evidence = true;
  min_confidence_for_auto_confirm = 700000;
  protected_keys = "system.version" ∷ [];
}

abbrev pub wallet_policy : MemoryPolicy
wallet_policy = record {
  namespace = "wallet";
  minimum_verification = system_observed;
  require_evidence = true;
  min_confidence_for_auto_confirm = 900000;
  protected_keys = "wallet.address" ∷ "wallet.privateKey" ∷ [];
}

-- `key.split('.')[0]`
unfoldable pub namespace_of : String → String
namespace_of key = elim (split_on b'.' key) [ [] ↦ "" | name ∷ rest ↦ name ]

-- of the two policies that are loaded, one is the fallback
unfoldable pub get_policy_for : String → MemoryPolicy
get_policy_for key = if namespace_of key == "wallet" then wallet_policy else default_policy

-- a user's word or a reflection, which no protected key takes
unfoldable pub is_unverified : MemorySource → Bool
is_unverified reflection_inference = true
is_unverified user_statement = true
is_unverified user_direct_instruction = true
is_unverified _ = false

unfoldable pub proposed_verification : MemorySource → VerificationLevel
proposed_verification blockchain_observation = system_observed
proposed_verification system_event = system_observed
proposed_verification user_statement = user_confirmed
proposed_verification user_direct_instruction = user_confirmed
proposed_verification _ = unverified

unfoldable pub get_verification_weight : VerificationLevel → ℕ
get_verification_weight externally_verified = 40
get_verification_weight system_observed = 30
get_verification_weight user_confirmed = 20
get_verification_weight unverified = 10

unfoldable pub is_active : Option MemoryStatus → Bool
is_active (some active) = true
is_active _ = false

unfoldable pub weight_of : Belief → ℕ
weight_of b = get_verification_weight (get_or b.verification_level unverified)

-- the belief that a proposal has to match, if there is an active one
unfoldable pub in_force : Option Belief → Option Belief
in_force none = none
in_force (some b) = if is_active b.status then some b else none

unfoldable pub outweighs : Option Belief → MemorySource → Bool
outweighs none source = false
outweighs (some b) source =
    ltb (get_verification_weight (proposed_verification source)) (weight_of b)

unfoldable pub contradicts : Option Belief → MemoryProposal → Bool
contradicts none p = false
contradicts (some b) p =
    nat_eq (get_verification_weight (proposed_verification p.source)) (weight_of b)
    && not (b.content == p.value)

unfoldable pub new_status : Option Belief → MemoryProposal → MemoryStatus
new_status existing p =
    if contradicts (in_force existing) p
      || ltb p.confidence (get_policy_for p.key).min_confidence_for_auto_confirm
    then pending
    else active

-- `new Set(ids)` and `add`, with the ids in reverse order
unfoldable pub set_of : List String → List String → List String
set_of [] seen = seen
set_of (x ∷ xs) seen = set_of xs (if any (λ y. y == x) seen then seen else x ∷ seen)

unfoldable pub evidence_count : Option Belief → String → ℕ
evidence_count none reference = 1
evidence_count (some b) reference = length (set_of (b.evidence_ids ++ reference ∷ []) [])

unfoldable pub is_recorded_fact : Option String → Bool
is_recorded_fact none = false
is_recorded_fact (some c) =
    c == "GOVERNANCE_DECISION_RECORD"
    || c == "GOVERNANCE_OUTCOME_RECORD"
    || c == "GOVERNANCE_PATTERN_RECORD"

unfoldable pub is_observed : VerificationLevel → Bool
is_observed system_observed = true
is_observed _ = false

-- the confirmation by the source, its confidence and the number of its evidences
unfoldable pub confirms : MemorySource → ℕ → ℕ → Bool
confirms blockchain_observation confidence count = true
confirms system_event confidence count = true
confirms user_direct_instruction confidence count = leb 700000 confidence
confirms reflection_inference confidence count = leb 3 count && leb 700000 confidence
confirms _ confidence count = false

unfoldable pub resolve_epistemic_status :
    MemoryProposal → MemoryStatus → VerificationLevel → ℕ → EpistemicStatus
resolve_epistemic_status p pending verification count = hypothesis
resolve_epistemic_status p _ verification count =
    if starts_with p.key "wallet." && is_observed verification
    then verified_sensitive
    else if is_recorded_fact p.category || confirms p.source p.confidence count
    then confirmed
    else hypothesis

pub data Reason : Type 0 where
  protected_key missing_evidence lower_weight : Reason

-- `throws` is the error of reading the reference of an evidence that is not there
pub data Verdict : Type 0 where
  rejected : Reason → Verdict
  throws : Verdict
  mutates : MemoryStatus → VerificationLevel → EpistemicStatus → Verdict

unfoldable pub is_protected : MemoryProposal → Bool
is_protected p =
    any (λ k. k == p.key) (get_policy_for p.key).protected_keys && is_unverified p.source

unfoldable pub evaluate : MemoryProposal → Option Belief → Verdict
evaluate p existing =
    if is_protected p
    then rejected protected_key
    else if (get_policy_for p.key).require_evidence && not (is_some p.evidence)
    then rejected missing_evidence
    else if outweighs (in_force existing) p.source
    then rejected lower_weight
    else (elim p.evidence [
      | none ↦ throws
      | some reference ↦
          let status = new_status existing p in
          let verification = proposed_verification p.source in
          mutates status verification
            (resolve_epistemic_status p status verification (evidence_count existing reference))
    ])

-- ===== src/Memory/Tests.antt =====
-- Proposals, judged: a system's observation of a wallet against a user's word, and a reflection.
mod Working
use sera_core.Prelude.{◌≡◌, ◌≢◌, ◌⊎◌, ◌↔◌, refl, none, some, [], ◌∷◌}
use sera_core.Text.{split_on, strip_prefix}
use sera_core.Memory.PolicyEngine.{
  Belief, MemoryProposal, MemorySource, user_statement, blockchain_observation,
  reflection_inference, active, pending, unverified, system_observed, hypothesis, confirmed,
  verified_sensitive, namespace_of, get_policy_for, is_unverified, proposed_verification,
  get_verification_weight, is_active, weight_of, in_force, outweighs, contradicts, new_status,
  set_of, evidence_count, is_recorded_fact, is_observed, confirms, resolve_epistemic_status,
  is_protected, evaluate, rejected, throws, mutates, Reason, protected_key, lower_weight,
}
use sera_core.Memory.PolicyEngine.Laws.{IsGuarded, IsOutweighed, evaluate-rejects}

abbrev balance : Belief
balance = record {
  id = "b1";
  category = "SEMANTIC";
  key = some "wallet.balance";
  source = some blockchain_observation;
  content = "12";
  epistemic_status = verified_sensitive;
  confidence = 950000;
  contradiction_ids = [];
  created_at = 1;
  updated_at = 2;
  status = some active;
  verification_level = some system_observed;
  evidence_ids = "e1" ∷ "e2" ∷ "e1" ∷ [];
}

abbrev proposal : MemorySource → MemoryProposal
proposal source = record {
  key = "wallet.balance";
  value = "13";
  source = source;
  evidence = some "e3";
  contradiction_id = none;
  confidence = 950000;
  category = none;
}

evaluate-rejects_example :
    (evaluate (proposal user_statement) (some balance) ≢ throws)
    × (((r : Reason) × (evaluate (proposal user_statement) (some balance) ≡ rejected r)) ↔ (
        IsGuarded (proposal user_statement)
        ⊎ ((proposal user_statement).evidence ≡ none)
        ⊎ IsOutweighed (proposal user_statement) (some balance)))
evaluate-rejects_example = evaluate-rejects (proposal user_statement) (some balance)

-- the user is outweighed, the chain contradicts, and is sure of what is new; three evidences
-- confirm a reflection
evaluate-verdicts :
    evaluate (proposal user_statement) (some balance)
      ∷ evaluate (proposal blockchain_observation) (some balance)
      ∷ evaluate (proposal blockchain_observation) none
      ∷ evaluate (record (proposal reflection_inference) { key = "wallet.address" }) none
      ∷ evaluate
          (record (proposal reflection_inference) { key = "mood" })
          (some (record balance { verification_level = none; content = "13" }))
      ∷ []
    ≡ rejected lower_weight
      ∷ mutates pending system_observed hypothesis
      ∷ mutates active system_observed verified_sensitive
      ∷ rejected protected_key
      ∷ mutates active unverified confirmed
      ∷ []
unfolding split_on strip_prefix namespace_of get_policy_for is_unverified proposed_verification
    get_verification_weight is_active weight_of in_force outweighs contradicts new_status set_of
    evidence_count is_recorded_fact is_observed confirms resolve_epistemic_status is_protected
    evaluate
evaluate-verdicts = refl

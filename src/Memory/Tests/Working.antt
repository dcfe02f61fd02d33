-- ===== src/Memory/Tests/Working.antt =====
-- The memory, run: the balance of a wallet that the chain has shown, and what is said about it.
use sera_core.Prelude.{
  String, ◌≡◌, ◌≤◌, length, ◌++◌, refl, true, Option, none, some, List, [], ◌∷◌, arith, filter,
  take, drop,
}
use sera_core.Dict
use sera_core.Text.{
  split_on, strip_prefix, to_lower, trim, trim_start, trim_end, decimal, decimal_onto,
}
use sera_core.Memory.PolicyEngine
use sera_core.Memory.PolicyEngine.{
  Belief, MemoryProposal, MemorySource, user_statement, blockchain_observation,
  reflection_inference, active, system_observed, verified_sensitive, get_verification_weight,
  proposed_verification, weight_of, namespace_of, get_policy_for, is_unverified, is_active,
  in_force, outweighs, new_status, set_of, evidence_count, is_recorded_fact, is_observed, confirms,
  resolve_epistemic_status, is_protected, evaluate,
}
use sera_core.Memory.Working.{
  WorkingMemory, is_wallet, get_belief_by_key, emit, insert_newest, sort_newest, evict, evict_each,
  prune_category, prune_each, prune_events, prune, push_belief, add_belief_to_index, leave_category,
  leave_key, remove_belief_from_index, store, kept_ids, add_id, to_set, created_at_of, new_item,
  previous_status, leave_existing, mutate_protected, carry_out, propose_belief, proposal_of,
  wallet_key, store_plain, store_belief, get_all_beliefs, load_snapshot, get_beliefs_by_category,
  max_events, max_beliefs_per_category,
}
use sera_core.Memory.Working.History.{
  Command, stores, stores_belief, proposes, run_command, run_commands,
}
use sera_core.Memory.Working.History.Protection.{empty_memory, AllWeaker, run_commands-protected}
use sera_core.Memory.Working.History.Bounds.{memory-IsBounded}
use sera_core.Memory.Working.{get_belief}
use sera_core.Memory.Ingress.{
  memory_proposal_requested, communication_observed, or_number, record_of, states_fact, fact_of,
  proposal_for, submit, submit_some, handle_event, request_memory, hypothesis_key,
  hypothesis_confidence, hypothesis_proposal, propose_hypothesis, includes_id, evidence_proposal,
  first_or, contradiction_proposal, when_new, unless_known, add_evidence, add_contradiction,
}
use sera_core.Memory.Ingress.Trusted.{
  Step, receives, hypothesizes, supports, contradicts, run_step, run_steps, RequestsWeaker,
  run_steps-protected,
}

-- opens the memory for the tests
code : Unit {0}
unfolding Dict.get Dict.set Dict.delete Dict.values filter take drop split_on strip_prefix
    get_verification_weight proposed_verification weight_of namespace_of get_policy_for
    is_unverified is_active in_force outweighs PolicyEngine.contradicts new_status set_of
    evidence_count is_recorded_fact is_observed confirms resolve_epistemic_status is_protected
    evaluate emit insert_newest sort_newest evict evict_each prune_category prune_each prune_events
    prune push_belief add_belief_to_index leave_category leave_key remove_belief_from_index store
    kept_ids add_id to_set created_at_of new_item previous_status leave_existing mutate_protected
    carry_out propose_belief proposal_of wallet_key store_plain store_belief get_belief_by_key
    get_all_beliefs run_command run_commands
code = tt

-- opens the ingress and the engine of hypotheses
ingress_code : Unit {0}
unfolding to_lower trim trim_start trim_end decimal decimal_onto or_number record_of states_fact
    fact_of proposal_for submit submit_some handle_event request_memory hypothesis_key
    hypothesis_confidence hypothesis_proposal propose_hypothesis includes_id evidence_proposal
    first_or contradiction_proposal when_new unless_known add_evidence add_contradiction get_belief
    run_step run_steps
ingress_code = tt

abbrev says : MemorySource → String → MemoryProposal
says source value = record {
  key = "wallet.balance";
  value = value;
  source = source;
  evidence = some "e1";
  contradiction_id = none;
  confidence = 950000;
  category = none;
}

abbrev balance : Belief
balance = record {
  id = "m1";
  category = "SEMANTIC";
  key = some "wallet.balance";
  status = some active;
  source = some blockchain_observation;
  verification_level = some system_observed;
  content = "12";
  epistemic_status = verified_sensitive;
  confidence = 950000;
  evidence_ids = "e1" ∷ [];
  contradiction_ids = [];
  created_at = 10;
  updated_at = 10;
}

-- a guess of the balance, stored past the proposals
abbrev guess : Belief
guess = record balance { id = "g"; source = none; content = "99" }

abbrev before : List Command
before = stores "hello" ∷ proposes 10 "m1" (says blockchain_observation "12") ∷ []

abbrev after : List Command
after =
    proposes 11 "m2" (says user_statement "13")
    ∷ stores_belief 12 "m3" guess
    ∷ stores_belief 13 "m4" (record guess { key = some "mood" })
    ∷ stores "bye"
    ∷ []

known : get_belief_by_key "wallet.balance" (run_commands before (empty_memory true)) ≡ some balance
unfolding code
known = refl

weaker : AllWeaker "wallet.balance" (weight_of balance) after
unfolding code
weaker = ((λ e. omega arith), ((λ e. omega arith), ((λ e. omega arith), (tt, tt))))

wallet : is_wallet "wallet.balance" ≡ true
unfolding code
wallet = refl

run_commands-protected_example :
    get_belief_by_key "wallet.balance"
      (run_commands after (run_commands before (empty_memory true)))
    ≡ some balance
run_commands-protected_example =
    run_commands-protected before after true "wallet.balance" balance wallet known refl weaker

-- two events come with the snapshot
abbrev loaded : WorkingMemory
loaded = load_snapshot ("seen" ∷ "said" ∷ []) (balance ∷ []) (empty_memory true)

memory-IsBounded_example :
    (length (run_commands before (store "tick" loaded)).events ≤ max_events)
    × (length (get_beliefs_by_category "SEMANTIC" (run_commands before (store "tick" loaded)))
        ≤ max_beliefs_per_category)
memory-IsBounded_example = memory-IsBounded loaded "tick" before "SEMANTIC"

-- an observation of another value waits in place of the balance, and a reflection then takes it
abbrev content_at : String → WorkingMemory → Option String
content_at key s = elim (get_belief_by_key key s) [ none ↦ none | some b ↦ some b.content ]

opened-content :
    content_at "wallet.balance" (
        run_commands
          (before ++ proposes 20 "m5" (says blockchain_observation "14") ∷ [])
          (empty_memory true))
      ∷ content_at "wallet.balance" (
          run_commands
            (before
              ++ proposes 20 "m5" (says blockchain_observation "14")
                ∷ proposes 21 "m6" (says reflection_inference "0")
                ∷ [])
            (empty_memory true))
      ∷ []
    ≡ some "14" ∷ some "0" ∷ []
unfolding code
opened-content = refl

abbrev no_hash : String → String
no_hash text = "0"

abbrev talk : List Step
talk =
    receives 20 "m5" (communication_observed "e5" "my balance is 99")
    ∷ receives 21 "m6" (memory_proposal_requested (says reflection_inference "0"))
    ∷ hypothesizes 22 "m7" "the user trades" "SEMANTIC" none
    ∷ supports 23 "m8" "m7" "e8" 300000
    ∷ contradicts 24 "m9" "m1" "e9" 400000
    ∷ []

-- the hypothesis is kept and supported, and so is what the message says
talk-content :
    content_at "epistemic.semantic.0"
        (run_steps no_hash talk (run_commands before (empty_memory true)))
      ∷ content_at "workspace.fact.20"
          (run_steps no_hash talk (run_commands before (empty_memory true)))
      ∷ []
    ≡ some "the user trades" ∷ some "my balance is 99" ∷ []
unfolding code ingress_code
talk-content = refl

talk-RequestsWeaker : RequestsWeaker "wallet.balance" (weight_of balance) talk
unfolding code
talk-RequestsWeaker = (tt, ((λ e. omega arith), (tt, (tt, (tt, tt)))))

run_steps-protected_example :
    get_belief_by_key "wallet.balance"
      (run_steps no_hash talk (run_commands before (empty_memory true)))
    ≡ some balance
unfolding code
run_steps-protected_example =
    run_steps-protected before no_hash talk true "wallet.balance" balance wallet known refl
      (omega arith) talk-RequestsWeaker

-- ===== src/Memory/Ingress/Trusted.antt =====
-- MemoryIngress.ts and EpistemicPolicyEngine.ts over WorkingMemory.ts: events and hypotheses in a
-- sequence, and what they leave alone.
use sera_core.Prelude.{
  ℕ, ◌<◌, String, ◌≡◌, Bool, true, false, Option, none, some, List, [], ◌∷◌, truthy, arith,
  Bool-cases, inl, inr,
}
use sera_core.Dict
use sera_core.Memory.PolicyEngine.{
  active, Belief, MemoryProposal, proposed_verification, get_verification_weight, weight_of,
}
use sera_core.Memory.Working.{WorkingMemory, is_wallet, get_belief, get_belief_by_key}
use sera_core.Memory.Working.History.{Command, proposes, run_command, run_commands}
use sera_core.Memory.Working.History.Keys.{IsKeyed}
use sera_core.Memory.Working.History.Protection.{
  empty_memory, source_weight, run_command-IsKeyed, run_commands-IsKeyed, empty-IsKeyed,
  run_command-stands,
}
use sera_core.Memory.Ingress.{
  DomainEvent, memory_proposal_requested, governance_decision_recorded, governance_outcome_recorded,
  governance_pattern_recorded, communication_observed, record_of, states_fact, fact_of,
  proposal_for, submit, submit_some, handle_event, request_memory, hypothesis_proposal,
  propose_hypothesis, evidence_proposal, contradiction_proposal, when_new, unless_known,
  includes_id, add_evidence, add_contradiction,
}

-- an event of the bus, or a call of the epistemic engine
pub data Step : Type 0 where
  receives : (now : ℕ) (fresh : String) (e : DomainEvent) → Step
  hypothesizes : (now : ℕ) (fresh content category : String) (evidence_id : Option String) → Step
  supports : (now : ℕ) (fresh belief_id evidence_id : String) (boost : ℕ) → Step
  contradicts : (now : ℕ) (fresh belief_id contradiction_id : String) (fall : ℕ) → Step

unfoldable pub run_step : (String → String) → Step → WorkingMemory → WorkingMemory
run_step digest (receives now fresh e) s = handle_event now fresh e s
run_step digest (hypothesizes now fresh content category evidence_id) s =
    (propose_hypothesis digest now fresh content category evidence_id s).1
run_step digest (supports now fresh belief_id evidence_id boost) s =
    add_evidence now fresh belief_id evidence_id boost s
run_step digest (contradicts now fresh belief_id contradiction_id fall) s =
    add_contradiction now fresh belief_id contradiction_id fall s

unfoldable pub run_steps : (String → String) → List Step → WorkingMemory → WorkingMemory
run_steps digest [] s = s
run_steps digest (x ∷ xs) s = run_steps digest xs (run_step digest x s)

-- a proposal that others request under a key comes from a source of less weight
abbrev pub IsRequestWeaker : String → ℕ → Step → Type 0
IsRequestWeaker k weight (receives now fresh (memory_proposal_requested p)) =
    p.key ≡ k → source_weight p.source < weight
IsRequestWeaker k weight _ = Unit

abbrev pub RequestsWeaker : String → ℕ → List Step → Type 0
RequestsWeaker k weight [] = Unit
RequestsWeaker k weight (x ∷ xs) = IsRequestWeaker k weight x × RequestsWeaker k weight xs

-- the memory after a step that proposes, or does not
abbrev IsKept : String → Belief → WorkingMemory → Type 0
IsKept k b s = IsKeyed s.key_index × (Dict.get s.key_index k ≡ some b)

-- a proposal that may be there, of a source of less weight
abbrev IsWeakerSome : ℕ → Option MemoryProposal → Type 0
IsWeakerSome weight none = Unit
IsWeakerSome weight (some p) = source_weight p.source < weight

module _ (k : String) (b : Belief) (wallet : is_wallet k ≡ true)
    (ready : b.status ≡ some active) where
  submit-IsKept :
      (now : ℕ) (fresh : String) (p : MemoryProposal) (s : WorkingMemory)
      → (p.key ≡ k → source_weight p.source < weight_of b)
      → IsKept k b s
      → IsKept k b (submit now fresh p s)
  unfolding submit run_command
  submit-IsKept now fresh p s weaker h = (
    run_command-IsKeyed (proposes now fresh p) s h.0,
    run_command-stands (proposes now fresh p) k b s wallet h.0 h.1 ready weaker,
  )

  submit_some-IsKept :
      (now : ℕ) (fresh : String) (p : Option MemoryProposal) (s : WorkingMemory)
      → IsWeakerSome (weight_of b) p
      → IsKept k b s
      → IsKept k b (submit_some now fresh p s)
  unfolding submit_some
  submit_some-IsKept now fresh none s weaker h = h
  submit_some-IsKept now fresh (some p) s weaker h = submit-IsKept now fresh p s (λ _. weaker) h

  when_new-IsWeaker :
      (key : Option String) (known : Bool) (proposal : String → MemoryProposal)
      → ((j : String) → source_weight (proposal j).source < weight_of b)
      → IsWeakerSome (weight_of b) (when_new key known proposal)
  unfolding when_new
  when_new-IsWeaker none known proposal weaker = tt
  when_new-IsWeaker (some key) true proposal weaker = tt
  when_new-IsWeaker (some key) false proposal weaker = weaker key

  -- all that the engine and the ingress propose themselves weighs no more than a user's word
  unless_known-IsWeaker :
      (ids : Belief → List String) (id : String) (proposal : Belief → String → MemoryProposal)
      (o : Option Belief)
      → ((c : Belief) (key : String) → source_weight (proposal c key).source < weight_of b)
      → IsWeakerSome (weight_of b) (unless_known ids id proposal o)
  unfolding unless_known
  unless_known-IsWeaker ids id proposal none weaker = tt
  unless_known-IsWeaker ids id proposal (some c) weaker =
      when_new-IsWeaker (truthy c.key) (includes_id id (ids c)) (proposal c) (weaker c)

  module _ (digest : String → String) (heavy : 20 < weight_of b) where
    run_step-IsKept :
        (x : Step) (s : WorkingMemory)
        → IsRequestWeaker k (weight_of b) x
        → IsKept k b s
        → IsKept k b (run_step digest x s)
    unfolding run_step handle_event proposal_for submit_some propose_hypothesis request_memory
        record_of fact_of hypothesis_proposal add_evidence add_contradiction evidence_proposal
        contradiction_proposal get_verification_weight proposed_verification
    run_step-IsKept (receives now fresh (memory_proposal_requested p)) s weaker h =
        submit-IsKept now fresh p s weaker h
    run_step-IsKept (receives now fresh (governance_decision_recorded id payload payload_id)) s
          weaker h =
        submit-IsKept now fresh _ s (λ _. omega arith) h
    run_step-IsKept
          (receives now fresh (governance_outcome_recorded id payload payload_id confidence)) s
          weaker h =
        submit-IsKept now fresh _ s (λ _. omega arith) h
    run_step-IsKept
          (receives now fresh (governance_pattern_recorded id payload context_signature confidence))
          s weaker h =
        submit-IsKept now fresh _ s (λ _. omega arith) h
    run_step-IsKept (receives now fresh (communication_observed id message)) s weaker h =
        elim (Bool-cases (states_fact message)) [
          | inl t ↦ rw t (submit-IsKept now fresh (fact_of now id message) s (λ _. heavy) h)
          | inr f ↦ rw f h
        ]
    run_step-IsKept (hypothesizes now fresh content category evidence_id) s weaker h =
        submit-IsKept now fresh _ s (λ _. omega arith) h
    run_step-IsKept (supports now fresh belief_id evidence_id boost) s weaker h =
        submit_some-IsKept now fresh _ s
          (unless_known-IsWeaker (λ c. c.evidence_ids) evidence_id
            (evidence_proposal evidence_id boost) (get_belief belief_id s) (λ c key. omega arith))
          h
    run_step-IsKept (contradicts now fresh belief_id contradiction_id fall) s weaker h =
        submit_some-IsKept now fresh _ s
          (unless_known-IsWeaker (λ c. c.contradiction_ids) contradiction_id
            (contradiction_proposal contradiction_id fall) (get_belief belief_id s)
            (λ c key. omega arith))
          h

    run_steps-IsKept :
        (xs : List Step) (s : WorkingMemory)
        → RequestsWeaker k (weight_of b) xs
        → IsKept k b s
        → IsKept k b (run_steps digest xs s)
    unfolding run_steps
    run_steps-IsKept [] s weaker h = h
    run_steps-IsKept (x ∷ xs) s weaker h =
        run_steps-IsKept xs (run_step digest x s) weaker.1 (run_step-IsKept x s weaker.0 h)

-- In any memory that calls have built from an empty one, an active belief under a key of the wallet
-- that weighs more than a user's word stands, to the letter, over any events of the bus and any
-- hypotheses, evidence and contradictions, for any hash, as long as each proposal that is requested
-- of the ingress under that very key comes from a source of less weight.
pub run_steps-protected :
    (before : List Command) (digest : String → String) (after : List Step) (has_bus : Bool)
    (k : String) (b : Belief)
    → is_wallet k ≡ true
    → get_belief_by_key k (run_commands before (empty_memory has_bus)) ≡ some b
    → b.status ≡ some active
    → 20 < weight_of b
    → RequestsWeaker k (weight_of b) after
    → get_belief_by_key k (run_steps digest after (run_commands before (empty_memory has_bus)))
      ≡ some b
unfolding get_belief_by_key
run_steps-protected before digest after has_bus k b wallet found ready heavy weaker =
    (run_steps-IsKept k b wallet ready digest heavy after
      (run_commands before (empty_memory has_bus)) weaker
      (run_commands-IsKeyed before (empty_memory has_bus) (empty-IsKeyed has_bus), found)).1

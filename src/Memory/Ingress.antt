-- ===== src/Memory/Ingress.antt =====
-- src/core/memory/MemoryIngress.ts, which turns events of the bus into proposals to the memory, and
-- src/core/memory/EpistemicPolicyEngine.ts, which asks the memory through it. The payload of an event
-- is its text and the fields that are read; `now` is the clock reading and `fresh` the id that a call
-- draws. The hash of a hypothesis is the parameter `digest`. The ingress is taken to be the one listener.
pub mod Trusted
use sera_core.Prelude.{
  ℕ, zero, suc, ◌+◌, ◌-◌, String, Bool, true, false, ◌||◌, ◌==◌, Option, none, some, List, [], ◌∷◌,
  if◌then◌else◌, get_or, truthy, or_text, is_some, any, ltb,
}
use sera_core.Text.{to_lower, trim, decimal, includes}
use sera_core.Memory.PolicyEngine.{
  MemorySource, reflection_inference, user_statement, Belief, MemoryProposal,
}
use sera_core.Memory.Working.{WorkingMemory, propose_belief, get_belief, get_belief_by_key}
use Prim.Native.String.append
use Prim.Native.String

abbrev pub join : String → String → String
join a b = Prim.Native.String.◌++◌ a b

pub data DomainEvent : Type 0 where
  memory_proposal_requested : (p : MemoryProposal) → DomainEvent
  governance_decision_recorded : (id payload payload_id : String) → DomainEvent
  governance_outcome_recorded :
      (id payload payload_id : String) (confidence : Option ℕ) → DomainEvent
  governance_pattern_recorded :
      (id payload context_signature : String) (confidence : Option ℕ) → DomainEvent
  communication_observed : (id message : String) → DomainEvent

-- `confidence || d`, in millionths
unfoldable pub or_number : Option ℕ → ℕ → ℕ
or_number none d = d
or_number (some zero) d = d
or_number (some (suc n)) d = suc n

unfoldable pub record_of : String → String → String → ℕ → String → MemoryProposal
record_of key payload id confidence category = record {
  key = key;
  value = payload;
  source = reflection_inference;
  evidence = some id;
  contradiction_id = none;
  confidence = confidence;
  category = some category;
}

-- a message that states something
unfoldable pub states_fact : String → Bool
states_fact message = includes (to_lower message) "is " || includes (to_lower message) "are "

unfoldable pub fact_of : ℕ → String → String → MemoryProposal
fact_of now id message = record {
  key = join "workspace.fact." (decimal now);
  value = message;
  source = user_statement;
  evidence = some id;
  contradiction_id = none;
  confidence = 500000;
  category = some "SEMANTIC";
}

unfoldable pub proposal_for : ℕ → DomainEvent → Option MemoryProposal
proposal_for now (memory_proposal_requested p) = some p
proposal_for now (governance_decision_recorded id payload payload_id) = some (
    record_of (join "governance.decision." payload_id) payload id 1000000
      "GOVERNANCE_DECISION_RECORD")
proposal_for now (governance_outcome_recorded id payload payload_id confidence) = some (
    record_of (join "governance.outcome." payload_id) payload id (or_number confidence 850000)
      "GOVERNANCE_OUTCOME_RECORD")
proposal_for now (governance_pattern_recorded id payload context_signature confidence) = some (
    record_of (join "governance.pattern." context_signature) payload id
      (or_number confidence 1000000) "GOVERNANCE_PATTERN_RECORD")
proposal_for now (communication_observed id message) =
    if states_fact message then some (fact_of now id message) else none

-- an error of the memory is logged
unfoldable pub submit : ℕ → String → MemoryProposal → WorkingMemory → WorkingMemory
submit now fresh p s = (propose_belief now fresh p s).1

unfoldable pub submit_some : ℕ → String → Option MemoryProposal → WorkingMemory → WorkingMemory
submit_some now fresh none s = s
submit_some now fresh (some p) s = submit now fresh p s

unfoldable pub handle_event : ℕ → String → DomainEvent → WorkingMemory → WorkingMemory
handle_event now fresh e s = submit_some now fresh (proposal_for now e) s

-- `requestMemory`, whose event the ingress handles before it returns
unfoldable pub request_memory : ℕ → String → MemoryProposal → WorkingMemory → WorkingMemory
request_memory now fresh p s = handle_event now fresh (memory_proposal_requested p) s

abbrev pub default_boost : ℕ
default_boost = 300000

-- `Math.min(1.0, n)`
abbrev pub capped : ℕ → ℕ
capped n = if ltb n 1000000 then n else 1000000

unfoldable pub hypothesis_key : (String → String) → String → String → String
hypothesis_key digest content category = join "epistemic." (
    join (to_lower category)
      (join "." (digest (join category (join ":" (to_lower (trim content)))))))

unfoldable pub hypothesis_confidence : Option Belief → ℕ
hypothesis_confidence none = 500000
hypothesis_confidence (some b) = capped (b.confidence + default_boost)

unfoldable pub hypothesis_proposal :
    (String → String) → ℕ → String → String → Option String → WorkingMemory → MemoryProposal
hypothesis_proposal digest now content category evidence_id s =
    let key = hypothesis_key digest content category in
    record {
      key = key;
      value = content;
      source = reflection_inference;
      evidence = some (or_text evidence_id (join "epistemic-origin-" (decimal now)));
      contradiction_id = none;
      confidence = hypothesis_confidence (get_belief_by_key key s);
      category = some category;
    }

-- the belief, or `none` for the error that the proposal was not accepted
unfoldable pub propose_hypothesis :
    (String → String)
    → ℕ
    → String
    → String
    → String
    → Option String
    → WorkingMemory
    → Option Belief × WorkingMemory
propose_hypothesis digest now fresh content category evidence_id s =
    let s' =
      request_memory now fresh (hypothesis_proposal digest now content category evidence_id s) s in
    (get_belief_by_key (hypothesis_key digest content category) s', s')

unfoldable pub includes_id : String → List String → Bool
includes_id id ids = any (λ x. x == id) ids

unfoldable pub evidence_proposal : String → ℕ → Belief → String → MemoryProposal
evidence_proposal evidence_id boost b key = record {
  key = key;
  value = b.content;
  source = reflection_inference;
  evidence = some evidence_id;
  contradiction_id = none;
  confidence = capped (b.confidence + boost);
  category = some b.category;
}

unfoldable pub first_or : String → List String → String
first_or d [] = d
first_or d (x ∷ xs) = or_text (some x) d

-- a confidence stops at 0
unfoldable pub contradiction_proposal : String → ℕ → Belief → String → MemoryProposal
contradiction_proposal contradiction_id fall b key = record {
  key = key;
  value = b.content;
  source = reflection_inference;
  evidence = some (first_or b.id b.evidence_ids);
  contradiction_id = some contradiction_id;
  confidence = b.confidence - fall;
  category = some b.category;
}

-- a key, and an id that is not known
unfoldable pub when_new : Option String → Bool → (String → MemoryProposal) → Option MemoryProposal
when_new none known proposal = none
when_new (some key) true proposal = none
when_new (some key) false proposal = some (proposal key)

-- a belief with a key that has no such id among its own
unfoldable pub unless_known :
    (Belief → List String)
    → String
    → (Belief → String → MemoryProposal)
    → Option Belief
    → Option MemoryProposal
unless_known ids id proposal none = none
unless_known ids id proposal (some b) =
    when_new (truthy b.key) (includes_id id (ids b)) (proposal b)

unfoldable pub add_evidence : ℕ → String → String → String → ℕ → WorkingMemory → WorkingMemory
add_evidence now fresh belief_id evidence_id boost s =
    submit_some now fresh
      (unless_known (λ b. b.evidence_ids) evidence_id (evidence_proposal evidence_id boost)
        (get_belief belief_id s))
      s

unfoldable pub add_contradiction : ℕ → String → String → String → ℕ → WorkingMemory → WorkingMemory
add_contradiction now fresh belief_id contradiction_id fall s =
    submit_some now fresh
      (unless_known (λ b. b.contradiction_ids) contradiction_id
        (contradiction_proposal contradiction_id fall) (get_belief belief_id s))
      s

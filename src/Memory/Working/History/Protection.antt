-- ===== src/Memory/Working/History/Protection.antt =====
-- src/memory/WorkingMemory.ts with its policy engine: what stands under a key of the wallet.
use sera_core.Prelude.{
  ℕ, ◌<◌, String, ◌≡◌, ◌≢◌, refl, ap, ◌∙◌, Bool, true, none, some, List, [], ◌∷◌, ◌==◌, eq_iff,
  get_or, truthy, Bool-cases, Option-cases, inl, inr,
}
use sera_core.Dict
use sera_core.Dict.{Dict}
use sera_core.Memory.PolicyEngine.{
  MemorySource, reflection_inference, active, Belief, MemoryProposal, proposed_verification,
  get_verification_weight, weight_of,
}
use sera_core.Memory.PolicyEngine.Laws.{evaluate-rejects}
use sera_core.Memory.Working.{
  WorkingMemory, is_wallet, carry_out, propose_belief, proposal_of, wallet_key, store_belief, store,
  get_belief_by_key,
}
use sera_core.Memory.Working.History.{
  Command, stores, stores_belief, proposes, run_command, run_commands,
}
use sera_core.Memory.Working.History.Keys.{
  IsKeyed, prune-IsKeyed, prune-Keeps, propose_belief-IsKeyed, propose_belief-Keeps,
  store_plain-IsKeyed, store_plain-Keeps,
}

abbrev pub empty_memory : Bool → WorkingMemory
empty_memory has_bus = record {
  events = [];
  beliefs = [];
  category_index = [];
  key_index = [];
  has_bus = has_bus;
  emitted = [];
}

abbrev pub source_weight : MemorySource → ℕ
source_weight source = get_verification_weight (proposed_verification source)

-- a call that would change what stands under a key comes from a source of less weight
abbrev pub IsWeaker : String → ℕ → Command → Type 0
IsWeaker k weight (stores event) = Unit
IsWeaker k weight (stores_belief now fresh b) =
    wallet_key b ≡ some k → source_weight (get_or b.source reflection_inference) < weight
IsWeaker k weight (proposes now fresh p) = p.key ≡ k → source_weight p.source < weight

abbrev pub AllWeaker : String → ℕ → List Command → Type 0
AllWeaker k weight [] = Unit
AllWeaker k weight (c ∷ cs) = IsWeaker k weight c × AllWeaker k weight cs

store_belief-IsKeyed :
    (now : ℕ) (fresh : String) (b : Belief) (s : WorkingMemory)
    → IsKeyed s.key_index
    → IsKeyed (store_belief now fresh b s).1.key_index
unfolding store_belief proposal_of
store_belief-IsKeyed now fresh b s h = elim (Option-cases (wallet_key b)) [
  | inl plain ↦ rw (plain, store_belief) (store_plain-IsKeyed b s h)
  | inr (key, wallet) ↦
      rw (wallet, store_belief) (propose_belief-IsKeyed now fresh (proposal_of key b) s h)
]

pub run_command-IsKeyed :
    (c : Command) (s : WorkingMemory) → IsKeyed s.key_index → IsKeyed (run_command c s).key_index
unfolding run_command store
run_command-IsKeyed (stores event) s h = prune-IsKeyed _ h
run_command-IsKeyed (stores_belief now fresh b) s h = store_belief-IsKeyed now fresh b s h
run_command-IsKeyed (proposes now fresh p) s h = propose_belief-IsKeyed now fresh p s h

pub run_commands-IsKeyed :
    (cs : List Command) (s : WorkingMemory)
    → IsKeyed s.key_index
    → IsKeyed (run_commands cs s).key_index
unfolding run_commands
run_commands-IsKeyed [] s h = h
run_commands-IsKeyed (c ∷ cs) s h =
    run_commands-IsKeyed cs (run_command c s) (run_command-IsKeyed c s h)

pub empty-IsKeyed : (has_bus : Bool) → IsKeyed (empty_memory has_bus).key_index
unfolding Dict.get
empty-IsKeyed has_bus k b e = let z : none ≡ some b = e in cc

-- a proposal of less weight than the active belief under its key changes nothing
propose_belief-weaker :
    (now : ℕ) (fresh : String) (p : MemoryProposal) (b : Belief) (s : WorkingMemory)
    → Dict.get s.key_index p.key ≡ some b
    → b.status ≡ some active
    → source_weight p.source < weight_of b
    → (propose_belief now fresh p s).1 ≡ s
unfolding propose_belief carry_out
propose_belief-weaker now fresh p b s found ready less =
    let (r, verdict) = (evaluate-rejects p (some b)).1.1 (inr (inr (b, refl, ready, less))) in
    rw (found, verdict) refl

propose_belief-stands :
    (now : ℕ) (fresh : String) (p : MemoryProposal) (k : String) (b : Belief) (s : WorkingMemory)
    → is_wallet k ≡ true
    → IsKeyed s.key_index
    → Dict.get s.key_index k ≡ some b
    → b.status ≡ some active
    → (p.key ≡ k → source_weight p.source < weight_of b)
    → Dict.get (propose_belief now fresh p s).1.key_index k ≡ some b
propose_belief-stands now fresh p k b s wallet h found ready weaker =
    elim (Bool-cases (p.key == k)) [
      | inl same ↦
          let name = (eq_iff p.key k).0 same in
          let here = ap (λ j. Dict.get s.key_index j) name ∙ found in
          let whole = propose_belief-weaker now fresh p b s here ready (weaker name) in
          ap (λ t. Dict.get t.key_index k) whole ∙ found
      | inr differs ↦
          let other : p.key ≢ k = λ e. let z = (eq_iff p.key k).1 e in cc in
          (propose_belief-Keeps k now fresh p s wallet other h).0 ∙ found
    ]

wallet_key-none :
    (x : Belief) (k : String) → is_wallet k ≡ true → wallet_key x ≡ none → truthy x.key ≢ some k
unfolding wallet_key
wallet_key-none x k wallet plain own =
    let seen : wallet_key x ≡ some k = rw (own, wallet_key) (rw wallet refl) in cc (plain, seen)

store_belief-stands :
    (now : ℕ) (fresh : String) (x : Belief) (k : String) (b : Belief) (s : WorkingMemory)
    → is_wallet k ≡ true
    → IsKeyed s.key_index
    → Dict.get s.key_index k ≡ some b
    → b.status ≡ some active
    → IsWeaker k (weight_of b) (stores_belief now fresh x)
    → Dict.get (store_belief now fresh x s).1.key_index k ≡ some b
unfolding store_belief proposal_of
store_belief-stands now fresh x k b s wallet h found ready weaker =
    elim (Option-cases (wallet_key x)) [
      | inl plain ↦
          rw (plain, store_belief)
            ((store_plain-Keeps k x s wallet (wallet_key-none x k wallet plain)).0 ∙ found)
      | inr (key, there) ↦
          let less = λ (e : key ≡ k). weaker (there ∙ ap some e) in
          rw (there, store_belief)
            (propose_belief-stands now fresh (proposal_of key x) k b s wallet h found ready less)
    ]

-- the belief under a key of the wallet stands after a call
pub run_command-stands :
    (c : Command) (k : String) (b : Belief) (s : WorkingMemory)
    → is_wallet k ≡ true
    → IsKeyed s.key_index
    → Dict.get s.key_index k ≡ some b
    → b.status ≡ some active
    → IsWeaker k (weight_of b) c
    → Dict.get (run_command c s).key_index k ≡ some b
unfolding run_command store
run_command-stands (stores event) k b s wallet h found ready weaker =
    (prune-Keeps k wallet _).0 ∙ found
run_command-stands (proposes now fresh p) k b s wallet h found ready weaker =
    propose_belief-stands now fresh p k b s wallet h found ready weaker
run_command-stands (stores_belief now fresh x) k b s wallet h found ready weaker =
    store_belief-stands now fresh x k b s wallet h found ready weaker

run_commands-stands :
    (cs : List Command) (k : String) (b : Belief) (s : WorkingMemory)
    → is_wallet k ≡ true
    → IsKeyed s.key_index
    → Dict.get s.key_index k ≡ some b
    → b.status ≡ some active
    → AllWeaker k (weight_of b) cs
    → Dict.get (run_commands cs s).key_index k ≡ some b
unfolding run_commands
run_commands-stands [] k b s wallet h found ready weaker = found
run_commands-stands (c ∷ cs) k b s wallet h found ready weaker =
    run_commands-stands cs k b (run_command c s) wallet (run_command-IsKeyed c s h)
      (run_command-stands c k b s wallet h found ready weaker.0) ready weaker.1

-- In any memory that calls have built from an empty one, an active belief under a key of the wallet
-- stands, to the letter, over any further calls in which what is stored or proposed under that key
-- comes from sources of less weight, whatever else is stored and evicted.
pub run_commands-protected :
    (before after : List Command) (has_bus : Bool) (k : String) (b : Belief)
    → is_wallet k ≡ true
    → get_belief_by_key k (run_commands before (empty_memory has_bus)) ≡ some b
    → b.status ≡ some active
    → AllWeaker k (weight_of b) after
    → get_belief_by_key k (run_commands after (run_commands before (empty_memory has_bus))) ≡ some b
unfolding get_belief_by_key
run_commands-protected before after has_bus k b wallet found ready weaker =
    let s = run_commands before (empty_memory has_bus) in
    let keyed = run_commands-IsKeyed before (empty_memory has_bus) (empty-IsKeyed has_bus) in
    run_commands-stands after k b s wallet keyed found ready weaker

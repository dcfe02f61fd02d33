-- ===== src/Memory/Working/Index.antt =====
-- src/memory/WorkingMemory.ts: the state, its indices and their pruning.
use sera_core.Prelude.{
  ℕ, ◌-◌, String, Bool, not, Option, none, some, List, [], ◌∷◌, ◌++◌, ◌==◌, if◌then◌else◌, get_or,
  truthy, any, filter, length, take, drop, leb, ltb,
}
use sera_core.Dict
use sera_core.Dict.{Dict}
use sera_core.Text.{starts_with}
use sera_core.Memory.PolicyEngine.{MemorySource, MemoryStatus, Belief}

-- the event of a change, as far as the call determines it
pub record MemoryItemMutated : Type 0 where
  pub key : String
  pub previous_status : Option MemoryStatus
  pub new_status : MemoryStatus
  pub source : Option MemorySource
  pub confidence : ℕ

pub record WorkingMemory : Type 0 where
  pub events : List String
  pub beliefs : Dict Belief
  pub category_index : Dict (List Belief)
  pub key_index : Dict Belief
  pub has_bus : Bool
  pub emitted : List MemoryItemMutated

abbrev pub max_events : ℕ
max_events = 500

abbrev pub max_beliefs_per_category : ℕ
max_beliefs_per_category = 100

-- a key of the wallet, which is not evicted
abbrev pub is_wallet : String → Bool
is_wallet key = starts_with key "wallet."

-- the newest first
unfoldable pub insert_newest : Belief → List Belief → List Belief
insert_newest b [] = b ∷ []
insert_newest b (c ∷ cs) =
    let rest = insert_newest b cs in if leb c.updated_at b.updated_at then b ∷ c ∷ cs else c ∷ rest

unfoldable pub sort_newest : List Belief → List Belief
sort_newest [] = []
sort_newest (b ∷ bs) = insert_newest b (sort_newest bs)

unfoldable pub evict : Belief → WorkingMemory → WorkingMemory
evict b s = elim (truthy b.key) [
  | none ↦ record s { beliefs = Dict.delete s.beliefs b.id }
  | some key ↦ if is_wallet key then s else record s {
    beliefs = Dict.delete s.beliefs b.id;
    key_index = Dict.delete s.key_index key;
  }
]

unfoldable pub evict_each : List Belief → WorkingMemory → WorkingMemory
evict_each [] s = s
evict_each (b ∷ bs) s = evict_each bs (evict b s)

unfoldable pub prune_category : String → List Belief → WorkingMemory → WorkingMemory
prune_category category bs s =
    if ltb max_beliefs_per_category (length bs)
    then (let sorted = sort_newest bs in
        let s' = evict_each (drop max_beliefs_per_category sorted) s in
        record s' {
          category_index =
              Dict.set s'.category_index category (take max_beliefs_per_category sorted);
        })
    else s

unfoldable pub prune_each : Dict (List Belief) → WorkingMemory → WorkingMemory
prune_each [] s = s
prune_each ((category, bs) ∷ rest) s = prune_each rest (prune_category category bs s)

unfoldable pub prune_events : WorkingMemory → WorkingMemory
prune_events s = record s { events = drop (length s.events - max_events) s.events }

unfoldable pub prune : WorkingMemory → WorkingMemory
prune s = prune_each s.category_index (prune_events s)

-- the list of a category, with a belief that it has by id left as it is
unfoldable pub push_belief : Belief → List Belief → List Belief
push_belief b bs = if any (λ c. c.id == b.id) bs then bs else bs ++ b ∷ []

unfoldable pub add_belief_to_index : Belief → WorkingMemory → WorkingMemory
add_belief_to_index b s = record s {
  beliefs = Dict.set s.beliefs b.id b;
  category_index =
      Dict.set s.category_index b.category
        (push_belief b (get_or (Dict.get s.category_index b.category) []));
  key_index = elim (truthy b.key) [ none ↦ s.key_index | some key ↦ Dict.set s.key_index key b ];
}

unfoldable pub leave_category : Belief → Dict (List Belief) → Dict (List Belief)
leave_category b index = elim (Dict.get index b.category) [
  | none ↦ index
  | some bs ↦ Dict.set index b.category (filter (λ c. not (c.id == b.id)) bs)
]

unfoldable pub leave_key : Belief → Dict Belief → Dict Belief
leave_key b index = elim (truthy b.key) [
  | none ↦ index
  | some key ↦ elim (Dict.get index key) [
    | none ↦ index
    | some c ↦ if c.id == b.id then Dict.delete index key else index
  ]
]

unfoldable pub remove_belief_from_index : Belief → WorkingMemory → WorkingMemory
remove_belief_from_index b s = record s {
  beliefs = Dict.delete s.beliefs b.id;
  category_index = leave_category b s.category_index;
  key_index = leave_key b s.key_index;
}

-- ===== src/Dict.antt =====
-- JavaScript's `Map` with string keys, iterated in insertion order: `set` on a present key keeps
-- its place, `set` on a new key appends. Also used for the objects that serve as dictionaries.
-- The laws are in the modules below.
pub mod Laws
pub mod Keys
use sera_core.Prelude.{
  String, Bool, Option, none, some, List, [], ◌∷◌, ◌++◌, ◌==◌, not, if◌then◌else◌, is_some, get_or,
  filter,
}

abbrev pub Dict {ℓ} : Type ℓ → Type ℓ
Dict V = List (String × V)

module _ {ℓ} {V : Type ℓ} where
  unfoldable pub get : Dict V → String → Option V
  get [] k = none
  get ((j, v) ∷ d) k = if j == k then some v else get d k

  unfoldable pub set : Dict V → String → V → Dict V
  set [] k v = (k, v) ∷ []
  set ((j, w) ∷ d) k v = let rest = set d k v in if j == k then (j, v) ∷ d else (j, w) ∷ rest

  unfoldable pub delete : Dict V → String → Dict V
  delete [] k = []
  delete ((j, v) ∷ d) k = let rest = delete d k in if j == k then rest else (j, v) ∷ rest

  abbrev pub has : Dict V → String → Bool
  has d k = is_some (get d k)

  unfoldable pub keys : Dict V → List String
  keys [] = []
  keys ((j, v) ∷ d) = j ∷ keys d

  unfoldable pub values : Dict V → List V
  values [] = []
  values ((j, v) ∷ d) = v ∷ values d

  -- `{ ...d, ...e }`: the keys of `d`, with the values of `e` where it has them, then the others
  unfoldable pub override : Dict V → Dict V → Dict V
  override [] e = []
  override ((j, v) ∷ d) e = (j, get_or (get e j) v) ∷ override d e

  unfoldable pub merge : Dict V → Dict V → Dict V
  merge d e = override d e ++ filter (λ p. not (has d p.0)) e

-- ===== src/Dict/Laws.antt =====
-- What a lookup sees after an update.
use sera_core.Prelude.{
  String, ◌≡◌, refl, ◌≢◌, Option, none, some, [], ◌∷◌, ◌++◌, arith, ◌==◌, eq_iff, eq_refl,
  if◌then◌else◌, not, filter,
}
use sera_core.Dict.{Dict, get, set, delete, has, override, merge}

module _ {ℓ} {V : Type ℓ} where
  pub get-set :
      (d : Dict V) (k j : String) (v : V) → get (set d k v) j ≡ (if k == j then some v else get d j)
  unfolding get set
  get-set [] k j v = refl
  get-set ((i, w) ∷ d) k j v = ground (arith, eq_iff k j, eq_iff i k, eq_iff i j, get-set d k j v)

  pub get-delete :
      (d : Dict V) (k j : String) → get (delete d k) j ≡ (if k == j then none else get d j)
  unfolding get delete
  get-delete [] k j = ground arith
  get-delete ((i, v) ∷ d) k j = ground (arith, eq_iff i k, eq_iff i j, eq_iff k j, get-delete d k j)

  pub get-set_self : (d : Dict V) (k : String) (v : V) → get (set d k v) k ≡ some v
  get-set_self d k v = simp (get-set, eq_refl)

  pub get-set_ne : (d : Dict V) (k j : String) (v : V) → k ≢ j → get (set d k v) j ≡ get d j
  get-set_ne d k j v h = simp get-set (ground (arith, eq_iff k j))

  pub get-delete_self : (d : Dict V) (k : String) → get (delete d k) k ≡ none
  get-delete_self d k = simp (get-delete, eq_refl)

  pub get-delete_ne : (d : Dict V) (k j : String) → k ≢ j → get (delete d k) j ≡ get d j
  get-delete_ne d k j h = simp get-delete (ground (arith, eq_iff k j))

  -- the value of a second dictionary, or else of the first
  abbrev pub first_of : Option V → Option V → Option V
  first_of none o = o
  first_of (some v) o = some v

  get-append : (d e : Dict V) (k : String) → get (d ++ e) k ≡ first_of (get d k) (get e k)
  unfolding get
  get-append [] e k = refl
  get-append ((j, v) ∷ d) e k = ground (arith, get-append d e k)

  get-override :
      (d e : Dict V) (k : String)
      → get (override d e) k ≡ (if has d k then first_of (get e k) (get d k) else none)
  unfolding get override
  get-override [] e k = refl
  get-override ((j, v) ∷ d) e k = ground (arith, eq_iff j k, get-override d e k)

  get-filter :
      (d e : Dict V) (k : String)
      → get (filter (λ p. not (has d p.0)) e) k ≡ (if has d k then none else get e k)
  unfolding get filter
  get-filter d [] k = ground arith
  get-filter d ((j, v) ∷ e) k = ground (arith, eq_iff j k, get-filter d e k)

  pub get-merge : (d e : Dict V) (k : String) → get (merge d e) k ≡ first_of (get e k) (get d k)
  unfolding merge
  get-merge d e k = ground (
    arith,
    get-append (override d e) (filter (λ p. not (has d p.0)) e) k,
    get-override d e k,
    get-filter d e k,
  )

pub ruleset dict_laws = (get-set, get-delete, eq_refl)

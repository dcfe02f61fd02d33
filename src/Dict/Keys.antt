-- ===== src/Dict/Keys.antt =====
-- The keys of a dictionary are distinct, and every operation keeps them so.
use sera_core.Prelude.{
  ◌+◌, length, ◌+◌, String, ◌≡◌, refl, ◌≢◌, none, [], ◌∷◌, ◌++◌, ◌↔◌, arith, eq_iff, length,
}
use sera_core.Dict.{Dict, get, set, delete}

module _ {ℓ} {V : Type ℓ} where
  -- no entry of `d` has the key `k`
  abbrev pub Lacks : String → Dict V → Type 0
  Lacks k [] = Unit
  Lacks k ((j, v) ∷ d) = (j ≢ k) × Lacks k d

  abbrev pub IsDistinct : Dict V → Type 0
  IsDistinct [] = Unit
  IsDistinct ((j, v) ∷ d) = Lacks j d × IsDistinct d

  Lacks-set : (d : Dict V) (k j : String) (v : V) → k ≢ j → Lacks j d → Lacks j (set d k v)
  unfolding set
  Lacks-set [] k j v n h = (n, tt)
  Lacks-set ((i, w) ∷ d) k j v n h = ground (arith, eq_iff i k, Lacks-set d k j v n h.1)

  Lacks-delete : (d : Dict V) (k j : String) → Lacks j d → Lacks j (delete d k)
  unfolding delete
  Lacks-delete [] k j h = tt
  Lacks-delete ((i, w) ∷ d) k j h = ground (arith, Lacks-delete d k j h.1)

  pub set-IsDistinct : (d : Dict V) (k : String) (v : V) → IsDistinct d → IsDistinct (set d k v)
  unfolding set
  set-IsDistinct [] k v h = (tt, tt)
  set-IsDistinct ((i, w) ∷ d) k v h =
      ground (arith, eq_iff i k, eq_iff k i, Lacks-set d k i v, set-IsDistinct d k v h.1)

  pub delete-IsDistinct : (d : Dict V) (k : String) → IsDistinct d → IsDistinct (delete d k)
  unfolding delete
  delete-IsDistinct [] k h = tt
  delete-IsDistinct ((i, w) ∷ d) k h =
      ground (arith, Lacks-delete d k i h.0, delete-IsDistinct d k h.1)

  pub get-Lacks : (d : Dict V) (k : String) → Lacks k d → get d k ≡ none
  unfolding get
  get-Lacks [] k h = refl
  get-Lacks ((i, w) ∷ d) k h = ground (arith, eq_iff i k, get-Lacks d k h.1)

  -- a new key goes to the end
  pub set-Lacks : (d : Dict V) (k : String) (v : V) → Lacks k d → set d k v ≡ d ++ (k, v) ∷ []
  unfolding set
  set-Lacks [] k v h = refl
  set-Lacks ((i, w) ∷ d) k v h = ground (arith, eq_iff i k, set-Lacks d k v h.1)

  pub Lacks-append : (d e : Dict V) (k : String) → Lacks k (d ++ e) ↔ (Lacks k d × Lacks k e)
  Lacks-append [] e k = (λ h. (tt, h), λ h. h.1)
  Lacks-append ((i, w) ∷ d) e k = ground (arith, Lacks-append d e k)

  pub Lacks-middle : (d e : Dict V) (k : String) (v : V) → IsDistinct (d ++ (k, v) ∷ e) → Lacks k d
  Lacks-middle [] e k v h = tt
  Lacks-middle ((i, w) ∷ d) e k v h =
      ground (arith, (Lacks-append d ((k, v) ∷ e) i).0 h.0, Lacks-middle d e k v h.1)

  pub length-set_new :
      (d : Dict V) (k : String) (v : V) → get d k ≡ none → length (set d k v) ≡ length d + 1
  unfolding get set
  length-set_new [] k v h = omega arith
  length-set_new ((i, w) ∷ d) k v h = ground (arith, eq_iff i k, length-set_new d k v)

-- ===== src/Auth/LinkCodes/Laws.antt =====
-- Link codes: single use, exact lifetime, and a guard that never fires.
use sera_core.Prelude.{
  ℕ, ◌+◌, String, ◌≡◌, ◌≢◌, refl, false, ◌||◌, some, List, [], ◌∷◌, ◌==◌, if◌then◌else◌, is_empty,
  leb, ltb, arith, Bool-cases, inl, inr, Option-cases,
}
use sera_core.Dict
use sera_core.Dict.{Dict}
use sera_core.Dict.Laws.{get-set_self, get-delete_self}
use sera_core.Auth.LinkCodes.{
  LinkCode, linked, unknown_code, code_expired, too_many_attempts, sweep, create_link_code,
  clean_code, verify_and_burn_link_code,
}

-- A code links at most once: when it has linked, the same text, or any that is cleaned to the same
-- code, is unknown at once.
pub verify-burns :
    (now now' : ℕ) (raw raw' user : String) (d : Dict LinkCode)
    → (verify_and_burn_link_code now raw d).0 ≡ linked user
    → clean_code raw' ≡ clean_code raw
    → is_empty raw' ≡ false
    → (verify_and_burn_link_code now' raw' (verify_and_burn_link_code now raw d).1).0 ≡ unknown_code
unfolding verify_and_burn_link_code
verify-burns now now' raw raw' user d h same filled =
    ground (arith, get-delete_self d (clean_code raw))

-- A code that was created links its user up to and at the end of its lifetime, and is expired after;
-- for any user but the empty one and 'default', over any codes that were there.
verify-create :
    (now now' ttl : ℕ) (code raw user : String) (d : Dict LinkCode)
    → (is_empty user || user == "default") ≡ false
    → clean_code raw ≡ code
    → is_empty raw ≡ false
    → (verify_and_burn_link_code now' raw (create_link_code now code user ttl d).1).0
      ≡ (if ltb (now + ttl) now' then code_expired else linked user)
unfolding verify_and_burn_link_code create_link_code
verify-create now now' ttl code raw user d valid same filled = ground (
  arith,
  get-set_self (sweep now d) code (record { user_id = user; expires_at = now + ttl; attempts = 0 }),
)

-- a call of the store, with the code that it draws
pub data Command : Type 0 where
  create : (now : ℕ) (code user : String) (ttl : ℕ) → Command
  burn : (now : ℕ) (raw : String) → Command

unfoldable pub run_commands : List Command → Dict LinkCode → Dict LinkCode
run_commands [] d = d
run_commands (create now code user ttl ∷ cs) d =
    run_commands cs (create_link_code now code user ttl d).1
run_commands (burn now raw ∷ cs) d = run_commands cs (verify_and_burn_link_code now raw d).1

abbrev Untried : Dict LinkCode → Type 0
Untried [] = Unit
Untried ((k, m) ∷ d) = (m.attempts ≡ 0) × Untried d

Untried-sweep : (now : ℕ) (d : Dict LinkCode) → Untried d → Untried (sweep now d)
unfolding sweep
Untried-sweep now [] h = tt
Untried-sweep now ((k, m) ∷ d) h = elim (Bool-cases (leb m.expires_at now)) [
  | inl e ↦ rw e (Untried-sweep now d h.1)
  | inr e ↦ rw e (h.0, Untried-sweep now d h.1)
]

Untried-set :
    (d : Dict LinkCode) (k : String) (m : LinkCode)
    → m.attempts ≡ 0
    → Untried d
    → Untried (Dict.set d k m)
unfolding Dict.set
Untried-set [] k m z h = (z, tt)
Untried-set ((i, n) ∷ d) k m z h = elim (Bool-cases (i == k)) [
  | inl e ↦ rw e (z, h.1)
  | inr e ↦ rw e (h.0, Untried-set d k m z h.1)
]

Untried-delete : (d : Dict LinkCode) (k : String) → Untried d → Untried (Dict.delete d k)
unfolding Dict.delete
Untried-delete [] k h = tt
Untried-delete ((i, n) ∷ d) k h = elim (Bool-cases (i == k)) [
  | inl e ↦ rw e (Untried-delete d k h.1)
  | inr e ↦ rw e (h.0, Untried-delete d k h.1)
]

Untried-get :
    (d : Dict LinkCode) (k : String) (m : LinkCode)
    → Untried d
    → Dict.get d k ≡ some m
    → m.attempts ≡ 0
unfolding Dict.get
Untried-get [] k m h g = cc
Untried-get ((i, n) ∷ d) k m h g = ground (arith, Untried-get d k m h.1)

burn-Untried :
    (now : ℕ) (raw : String) (d : Dict LinkCode)
    → Untried d
    → Untried (verify_and_burn_link_code now raw d).1
unfolding verify_and_burn_link_code
burn-Untried now raw d h = ground (arith, Untried-delete d (clean_code raw) h)

create-Untried :
    (now : ℕ) (code user : String) (ttl : ℕ) (d : Dict LinkCode)
    → Untried d
    → Untried (create_link_code now code user ttl d).1
unfolding create_link_code
create-Untried now code user ttl d h = ground (
  arith,
  Untried-set (sweep now d) code (record { user_id = user; expires_at = now + ttl; attempts = 0 })
      refl (Untried-sweep now d h),
)

run_commands-Untried :
    (cs : List Command) (d : Dict LinkCode) → Untried d → Untried (run_commands cs d)
unfolding run_commands
run_commands-Untried [] d h = h
run_commands-Untried (create now code user ttl ∷ cs) d h =
    run_commands-Untried cs _ (create-Untried now code user ttl d h)
run_commands-Untried (burn now raw ∷ cs) d h = run_commands-Untried cs _ (burn-Untried now raw d h)

-- The guard on the attempts never fires: after any history of creations and verifications from the
-- empty map, however many of them fail, no verification answers that there were too many attempts.
pub verify-ne-too_many_attempts :
    (cs : List Command) (now : ℕ) (raw : String)
    → (verify_and_burn_link_code now raw (run_commands cs [])).0 ≢ too_many_attempts
unfolding verify_and_burn_link_code
verify-ne-too_many_attempts cs now raw e =
    let d = run_commands cs [] in
    elim (Option-cases (Dict.get d (clean_code raw))) [
      | inl g ↦ ground (arith, g, e)
      | inr (m, g) ↦
          ground (arith, g, e, Untried-get d (clean_code raw) m (run_commands-Untried cs [] tt) g)
    ]

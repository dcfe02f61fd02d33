-- ===== src/Triggers/Engine/Tick.antt =====
-- What a tick of src/core/triggers/TriggerEngine.ts does to one trigger: it evaluates it, if it is
-- active, between effects on the others.
use sera_core.Prelude.{
  ℕ, ◌+◌, String, ◌≡◌, ◌≢◌, refl, sym, ◌∙◌, Bool, true, false, Option, none, some, List, [], ◌∷◌,
  ◌==◌, eq_iff, if◌then◌else◌, filter, All, All-filter, Bool-cases, inl, inr, subst, ap, arith,
}
use sera_core.Dict
use sera_core.Dict.{Dict}
use sera_core.Dict.Keys.{IsDistinct, Lacks}
use sera_core.Triggers.{Trigger, is_active, get_active_triggers}
use sera_core.Triggers.Engine.{TriggerEngine, evaluate, evaluate_each, handle_temporal_tick}
use sera_core.Triggers.Engine.Effect.{IsKeyed, IsFiled, focus, Effect-focus, Effect-IsFiled}
use sera_core.Triggers.Engine.Own.{evaluate-Effect}

abbrev stays_active : List Trigger → List Trigger
stays_active ts = filter (λ t. is_active t.state) (filter (λ t. is_active t.state) ts)

All-other :
    (k : String) (d : Dict Trigger) → IsKeyed d → Lacks k d → All (λ t. t.id ≢ k) (Dict.values d)
unfolding Dict.values
All-other k [] h l = tt
All-other k ((j, t) ∷ d) h l = ((λ e. l.0 (sym h.0 ∙ e)), All-other k d h.1 l.1)

stays_active-inactive :
    (t : Trigger) (ts : List Trigger)
    → is_active t.state ≡ false
    → stays_active (t ∷ ts) ≡ stays_active ts
unfolding filter
stays_active-inactive t ts off = rw (off, filter) refl

stays_active-active :
    (t : Trigger) (ts : List Trigger)
    → is_active t.state ≡ true
    → stays_active (t ∷ ts) ≡ t ∷ stays_active ts
unfolding filter
stays_active-active t ts on = rw (on, filter) (rw (on, filter) refl)

module _ (cron : String → ℕ → Option ℕ) (listeners : String → Bool) (now now_utc : ℕ) where
  others-focus :
      (k : String) (ts : List Trigger) (e : TriggerEngine)
      → All (λ t. t.id ≢ k) ts
      → focus k (evaluate_each cron listeners now now_utc ts e) ≡ focus k e
  unfolding evaluate_each
  others-focus k [] e h = refl
  others-focus k (t ∷ ts) e h =
      others-focus k ts (evaluate cron listeners now now_utc t e) h.1
      ∙ Effect-focus k h.0 (evaluate-Effect cron listeners now now_utc t e)

  -- an engine that holds and has emitted the same of a trigger
  abbrev pub Like : String → TriggerEngine → Type 0
  Like k e = (e' : TriggerEngine) × (focus k e' ≡ focus k e)

  -- what a tick has made of a trigger, when it ends with a list of triggers
  abbrev Evaluated : String → Trigger → List Trigger → TriggerEngine → Type 0
  Evaluated k t ts e =
      (like : Like k e) × (focus k (evaluate_each cron listeners now now_utc ts e) ≡ (
        if is_active t.state
        then focus k (evaluate cron listeners now now_utc t like.0)
        else focus k e))

  -- the trigger comes first, and others after it
  first-Evaluated :
      (k : String) (t : Trigger) (ts : List Trigger) (e : TriggerEngine)
      → All (λ u. u.id ≢ k) (stays_active ts)
      → Evaluated k t (stays_active (t ∷ ts)) e
  unfolding evaluate_each
  first-Evaluated k t ts e h = elim (Bool-cases (is_active t.state)) [
    | inl on ↦
        rw (stays_active-active t ts on, on)
          ((e, refl), others-focus k (stays_active ts) (evaluate cron listeners now now_utc t e) h)
    | inr off ↦
        rw (stays_active-inactive t ts off, off) ((e, refl), others-focus k (stays_active ts) e h)
  ]

  -- another trigger comes first
  later-Evaluated :
      (k : String) (t u : Trigger) (ts : List Trigger) (e : TriggerEngine)
      → u.id ≢ k
      → ((e : TriggerEngine) → Evaluated k t (stays_active ts) e)
      → Evaluated k t (stays_active (u ∷ ts)) e
  unfolding evaluate_each
  later-Evaluated k t u ts e other rest = elim (Bool-cases (is_active u.state)) [
    | inr off ↦ rw (stays_active-inactive u ts off) (rest e)
    | inl on ↦
        let e' = evaluate cron listeners now now_utc u e in
        let same = Effect-focus k other (evaluate-Effect cron listeners now now_utc u e) in
        let (like, seen) = rest e' in
        rw (stays_active-active u ts on) (
          (like.0, like.1 ∙ same),
          seen
              ∙ ap
                  (λ f.
                    if is_active t.state
                    then focus k (evaluate cron listeners now now_utc t like.0)
                    else f)
                  same,
        )
  ]

  -- one trigger among those of a dictionary
  evaluate_each-Evaluated :
      (k : String) (d : Dict Trigger) (t : Trigger) (e : TriggerEngine)
      → IsKeyed d
      → IsDistinct d
      → Dict.get d k ≡ some t
      → Evaluated k t (stays_active (Dict.values d)) e
  unfolding Dict.get Dict.values
  evaluate_each-Evaluated k [] t e keyed distinct found = let z : none ≡ some t = found in cc
  evaluate_each-Evaluated k ((j, u) ∷ d) t e keyed distinct found = elim (Bool-cases (j == k)) [
    | inl same ↦
        let name = (eq_iff j k).0 same in
        let here : u ≡ t = ground arith in
        let lacks = subst (λ i. Lacks i d) name distinct.0 in
        let others =
          All-filter (λ v. v.id ≢ k) (λ v. is_active v.state)
            (filter (λ v. is_active v.state) (Dict.values d))
            (All-filter (λ v. v.id ≢ k) (λ v. is_active v.state) (Dict.values d)
              (All-other k d keyed.1 lacks)) in
        subst (λ v. Evaluated k v (stays_active (u ∷ Dict.values d)) e) here
          (first-Evaluated k u (Dict.values d) e others)
    | inr other ↦
        let apart : u.id ≢ k =
          λ h. let z : (j == k) ≡ true = (eq_iff j k).1 (sym keyed.0 ∙ h) in cc in
        let found' : Dict.get d k ≡ some t = rw other at found in
        later-Evaluated k t u (Dict.values d) e apart
          (λ e. evaluate_each-Evaluated k d t e keyed.1 distinct.1 found')
  ]

  pub tick-Evaluated :
      (k : String) (t : Trigger) (e : TriggerEngine)
      → IsFiled e
      → Dict.get e.store.triggers k ≡ some t
      → (like : Like k e) × (focus k (handle_temporal_tick cron listeners now now_utc e) ≡ (
          if is_active t.state
          then focus k (evaluate cron listeners now now_utc t like.0)
          else focus k e))
  unfolding handle_temporal_tick get_active_triggers
  tick-Evaluated k t e filed found =
      evaluate_each-Evaluated k e.store.triggers t (record e { cycle_count = e.cycle_count + 1 })
        filed.0 filed.1 found

  evaluate_each-IsFiled :
      (ts : List Trigger) (e : TriggerEngine)
      → IsFiled e
      → IsFiled (evaluate_each cron listeners now now_utc ts e)
  unfolding evaluate_each
  evaluate_each-IsFiled [] e h = h
  evaluate_each-IsFiled (t ∷ ts) e h =
      evaluate_each-IsFiled ts (evaluate cron listeners now now_utc t e)
        (Effect-IsFiled (evaluate-Effect cron listeners now now_utc t e) h)

  pub tick-IsFiled :
      (e : TriggerEngine) → IsFiled e → IsFiled (handle_temporal_tick cron listeners now now_utc e)
  unfolding handle_temporal_tick
  tick-IsFiled e h =
      let e' = record e { cycle_count = e.cycle_count + 1 } in
      evaluate_each-IsFiled (filter (λ t. is_active t.state) (get_active_triggers e'.store)) e' h

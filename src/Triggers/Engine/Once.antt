-- ===== src/Triggers/Engine/Once.antt =====
-- src/core/triggers/TriggerEngine.ts: a trigger for one exact time, over any history of ticks and of
-- changes to other triggers.
use sera_core.Prelude.{
  ℕ, suc, String, ◌≡◌, refl, ap, ◌∙◌, Bool, false, Option, some, ◌∷◌, eq_refl, if◌then◌else◌, leb,
  Bool-cases, inl, inr,
}
use sera_core.Triggers.{exact, time, active, firing, completed, once, Trigger, is_active}
use sera_core.Triggers.Engine.{
  TriggerEngine, save_trigger, should_fire_time, should_fire_type, should_fire, is_recurring,
  next_scheduled, settled_state, fired_event, fire, evaluate,
}
use sera_core.Triggers.Engine.Effect.{fired_count, focus, focus-save_trigger}

-- active, to fire once, at or after an exact time
pub record IsArmed (target : ℕ) (t : Trigger) : Type 0 where
  pub timed : t.kind ≡ time
  pub exactly : t.condition.kind ≡ some exact
  pub after : t.condition.execute_after_utc ≡ some target
  pub one_time : t.fire_policy ≡ once
  pub ready : t.state ≡ active

-- what an engine holds and has emitted of a trigger that does not fire again
abbrev pub IsSpent : ℕ → Option Trigger × ℕ → Type 0
IsSpent n (held, count) =
    (t : Trigger) × (held ≡ some t) × (is_active t.state ≡ false) × (count ≡ n)

module _ (cron : String → ℕ → Option ℕ) where
  pub evaluate-IsArmed :
      (listeners : String → Bool) (now now_utc target : ℕ) (t : Trigger) (e : TriggerEngine)
      → IsArmed target t
      → evaluate cron listeners now now_utc t e
        ≡ (if leb target now_utc then fire cron listeners now now_utc t e else e)
  unfolding evaluate should_fire should_fire_type should_fire_time
  evaluate-IsArmed listeners now now_utc target t e a = rw (a.timed, a.exactly, a.after) refl

  next_scheduled-IsArmed :
      (now target : ℕ) (t : Trigger)
      → IsArmed target t
      → next_scheduled cron now (record t { state = firing; last_fired_at = some now })
        ≡ record t { state = firing; last_fired_at = some now }
  unfolding next_scheduled is_recurring
  next_scheduled-IsArmed now target t a =
      let plain : is_recurring t.condition.kind ≡ false = ap is_recurring a.exactly in
      rw (plain, next_scheduled) refl

  -- the engine after the event is sent
  abbrev sent : ℕ → ℕ → Trigger → TriggerEngine → TriggerEngine
  sent now now_utc t e =
      record (save_trigger (record t { state = firing; last_fired_at = some now }) e) {
        emitted = fired_event now_utc t e ∷ e.emitted;
      }

  fire-IsArmed :
      (listeners : String → Bool) (now now_utc target : ℕ) (t : Trigger) (e : TriggerEngine)
      → IsArmed target t
      → fire cron listeners now now_utc t e ≡ (
          if listeners t.id
          then save_trigger
              (record t { state = completed; last_fired_at = some now })
              (sent now now_utc t e)
          else sent now now_utc t e)
  unfolding fire settled_state save_trigger
  fire-IsArmed listeners now now_utc target t e a =
      ap
        (λ f.
          let saved = record (save_trigger f e) { emitted = fired_event now_utc t e ∷ e.emitted } in
          if listeners t.id
          then save_trigger (record f { state = settled_state t.fire_policy }) saved
          else saved)
        (next_scheduled-IsArmed now target t a)
      ∙ ap
          (λ p.
            if listeners t.id
            then save_trigger (record t { state = settled_state p; last_fired_at = some now })
                (sent now now_utc t e)
            else sent now now_utc t e)
          a.one_time

  sent-IsSpent :
      (now now_utc : ℕ) (t : Trigger) (e : TriggerEngine)
      → IsSpent (suc (fired_count t.id e.emitted)) (focus t.id (sent now now_utc t e))
  unfolding fired_count fired_event is_active
  sent-IsSpent now now_utc t e =
      let u = record t { state = firing; last_fired_at = some now } in
      let held = ap (λ f. f.0) (focus-save_trigger u e t.id) in
      (u, held ∙ rw (eq_refl t.id) refl, refl, rw (eq_refl t.id) refl)

  pub fire-IsSpent :
      (listeners : String → Bool) (now now_utc target : ℕ) (t : Trigger) (e : TriggerEngine)
      → IsArmed target t
      → IsSpent
          (suc (fired_count t.id e.emitted))
          (focus t.id (fire cron listeners now now_utc t e))
  unfolding is_active
  fire-IsSpent listeners now now_utc target t e a =
      rw (fire-IsArmed listeners now now_utc target t e a) (elim (Bool-cases (listeners t.id)) [
        | inr throws ↦ rw throws (sent-IsSpent now now_utc t e)
        | inl returns ↦
            let u = record t { state = completed; last_fired_at = some now } in
            let seen = focus-save_trigger u (sent now now_utc t e) t.id in
            let held = ap (λ f. f.0) seen in
            let count = ap (λ f. f.1) seen in
            let (v, v_held, v_off, v_count) = sent-IsSpent now now_utc t e in
            rw returns (u, held ∙ rw (eq_refl t.id) refl, refl, count ∙ v_count)
      ])

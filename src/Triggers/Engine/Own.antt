-- ===== src/Triggers/Engine/Own.antt =====
-- The engine's functions as effects on the one trigger that they are called with.
use sera_core.Prelude.{
  ℕ, ◌+◌, String, ◌≡◌, refl, Bool, Option, none, some, Bool-cases, Option-cases, inl, inr, truthy,
}
use sera_core.Triggers.{
  exact, recurring, time, event, system, firing, Trigger, ConditionType, TriggerType,
}
use sera_core.Triggers.Engine.{
  TriggerEngine, positive, cron_next, is_recurring, register, schedule_recurring, should_fire_time,
  should_fire_type, fired_event, should_fire, next_scheduled, settled_state, fire, evaluate,
}
use sera_core.Triggers.Engine.Effect.{Effect, nothing, saving, emitting}

module _ (cron : String → ℕ → Option ℕ) where
  cron_next-id : (from : ℕ) (t : Trigger) → (cron_next cron from t).id ≡ t.id
  unfolding cron_next
  cron_next-id from t = elim (Option-cases (truthy t.condition.internal_compiled)) [
    | inl absent ↦ rw (absent, cron_next) refl
    | inr (text, there) ↦
        rw (there, cron_next)
          (elim (Option-cases (cron text from)) [
            | inl fails ↦ rw (fails, cron_next) refl
            | inr (next, parses) ↦ rw (parses, cron_next) refl
          ])
  ]

  next_scheduled-id : (now : ℕ) (t : Trigger) → (next_scheduled cron now t).id ≡ t.id
  unfolding next_scheduled
  next_scheduled-id now t = elim (Bool-cases (is_recurring t.condition.kind)) [
    | inr other ↦ rw (other, next_scheduled) refl
    | inl repeats ↦
        rw (repeats, next_scheduled)
          (elim (Option-cases (positive t.condition.interval_ms)) [
            | inr (interval, there) ↦ rw (there, next_scheduled) refl
            | inl absent ↦ rw (absent, next_scheduled) (cron_next-id now t)
          ])
  ]

  pub register-Effect :
      (now : ℕ) (t : Trigger) (e : TriggerEngine) → Effect t.id e (register cron now t e)
  unfolding register
  register-Effect now t e = elim (Option-cases (positive t.condition.interval_ms)) [
    | inr (interval, there) ↦
        rw (there, register)
          (saving (record t { next_execution_utc = some (now + interval) }) refl nothing)
    | inl absent ↦
        rw (absent, register)
          (elim (Bool-cases (is_recurring t.condition.kind)) [
            | inl repeats ↦
                rw (repeats, register) (saving (cron_next cron now t) (cron_next-id now t) nothing)
            | inr other ↦ rw (other, register) (saving t refl nothing)
          ])
  ]

  schedule_recurring-Effect :
      (now now_utc : ℕ) (t : Trigger) (e : TriggerEngine)
      → Effect t.id e (schedule_recurring cron now now_utc t e)
  unfolding schedule_recurring
  schedule_recurring-Effect now now_utc t e =
      elim (Option-cases (positive t.condition.interval_ms)) [
        | inr (interval, there) ↦
            rw (there, schedule_recurring)
              (saving (record t { next_execution_utc = some (now + interval) }) refl nothing)
        | inl absent ↦
            rw (absent, schedule_recurring)
              (elim (Option-cases (truthy t.condition.internal_compiled)) [
                | inl empty ↦ rw (empty, schedule_recurring) nothing
                | inr (text, there) ↦
                    rw (there, schedule_recurring)
                      (elim (Option-cases (cron text now_utc)) [
                        | inl fails ↦ rw (fails, schedule_recurring) nothing
                        | inr (next, parses) ↦
                            rw (parses, schedule_recurring)
                              (saving (record t { next_execution_utc = some next }) refl nothing)
                      ])
              ])
      ]

  should_fire_time-Effect :
      (kind : Option ConditionType) (now now_utc : ℕ) (t : Trigger) (e : TriggerEngine)
      → Effect t.id e (should_fire_time cron kind now now_utc t e).1
  unfolding should_fire_time
  should_fire_time-Effect none now now_utc t e = nothing
  should_fire_time-Effect (some exact) now now_utc t e = nothing
  should_fire_time-Effect (some recurring) now now_utc t e =
      elim (Option-cases (positive t.next_execution_utc)) [
        | inr (next, there) ↦ rw (there, should_fire_time) nothing
        | inl absent ↦ rw (absent, should_fire_time) (schedule_recurring-Effect now now_utc t e)
      ]

  should_fire_type-Effect :
      (kind : TriggerType) (now now_utc : ℕ) (t : Trigger) (e : TriggerEngine)
      → Effect t.id e (should_fire_type cron kind now now_utc t e).1
  unfolding should_fire_type
  should_fire_type-Effect event now now_utc t e = nothing
  should_fire_type-Effect system now now_utc t e = nothing
  should_fire_type-Effect time now now_utc t e =
      should_fire_time-Effect t.condition.kind now now_utc t e

  fire-Effect :
      (listeners : String → Bool) (now now_utc : ℕ) (t : Trigger) (e e' : TriggerEngine)
      → Effect t.id e e'
      → Effect t.id e (fire cron listeners now now_utc t e')
  unfolding fire fired_event
  fire-Effect listeners now now_utc t e e' h =
      let fired = next_scheduled cron now (record t { state = firing; last_fired_at = some now }) in
      let own = next_scheduled-id now (record t { state = firing; last_fired_at = some now }) in
      let emitted = emitting (fired_event now_utc t e') refl (saving fired own h) in
      elim (Bool-cases (listeners t.id)) [
        | inl returns ↦
            rw (returns, fire)
              (saving (record fired { state = settled_state t.fire_policy }) own emitted)
        | inr throws ↦ rw (throws, fire) emitted
      ]

  pub evaluate-Effect :
      (listeners : String → Bool) (now now_utc : ℕ) (t : Trigger) (e : TriggerEngine)
      → Effect t.id e (evaluate cron listeners now now_utc t e)
  unfolding evaluate should_fire
  evaluate-Effect listeners now now_utc t e =
      let h = should_fire_type-Effect t.kind now now_utc t e in
      elim (Bool-cases (should_fire cron now now_utc t e).0) [
        | inl fires ↦
            rw (fires, evaluate)
              (fire-Effect listeners now now_utc t e (should_fire cron now now_utc t e).1 h)
        | inr waits ↦ rw (waits, evaluate) h
      ]

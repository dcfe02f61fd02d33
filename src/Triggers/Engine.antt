-- ===== src/Triggers/Engine.antt =====
-- src/core/triggers/TriggerEngine.ts: which triggers fire on a tick of the clock. `now` is what the
-- calls of `Date.now()` return while a call runs; `cron` is the package's parser, the time that the
-- expression gives next after a time, `none` where it throws; `listeners` says for a trigger's id
-- whether the listeners of its event return (`true`) or one throws. The listeners are taken to leave
-- the store alone before they return, and a trigger to have a condition.
pub mod Effect
pub mod Own
pub mod Tick
pub mod Once
pub mod History
use sera_core.Prelude.{
  ℕ, ◌+◌, ◌%◌, String, Bool, true, false, ◌&&◌, Option, none, some, List, [], ◌∷◌, ◌++◌,
  if◌then◌else◌, is_text, truthy, leb, ltb, nat_eq, filter,
}
use sera_core.Triggers.{
  ConditionType, exact, recurring, TemporalCondition, TriggerAction, TriggerType, time, event,
  system, TriggerState, active, firing, completed, FirePolicy, once, repeat, conditional, Trigger,
  InMemoryTriggerStore, save, is_active, get_active_triggers,
}

-- the event 'system.trigger.fired', as far as the trigger determines it
pub record TriggerFired : Type 0 where
  pub trigger_id : String
  pub action : TriggerAction
  pub timestamp_utc : ℕ
  pub cycle_count : ℕ

-- `emitted` is the log of the events, the latest first
pub record TriggerEngine : Type 0 where
  pub store : InMemoryTriggerStore
  pub cycle_count : ℕ
  pub started : Bool
  pub emitted : List TriggerFired

unfoldable pub start : TriggerEngine → TriggerEngine
start e = if e.started then e else record e { started = true }

unfoldable pub stop : TriggerEngine → TriggerEngine
stop e = if e.started then record e { started = false } else e

-- a number that is there and not 0
unfoldable pub positive : Option ℕ → Option ℕ
positive none = none
positive (some n) = if nat_eq n 0 then none else some n

unfoldable pub save_trigger : Trigger → TriggerEngine → TriggerEngine
save_trigger t e = record e { store = save t e.store }

unfoldable pub is_recurring : Option ConditionType → Bool
is_recurring (some recurring) = true
is_recurring _ = false

unfoldable pub settled_state : FirePolicy → TriggerState
settled_state once = completed
settled_state repeat = active
settled_state conditional = active

unfoldable pub fired_event : ℕ → Trigger → TriggerEngine → TriggerFired
fired_event now_utc t e = record {
  trigger_id = t.id;
  action = t.action;
  timestamp_utc = now_utc;
  cycle_count = e.cycle_count;
}

module _ (cron : String → ℕ → Option ℕ) where
  -- the next execution after `from` by a cron text, where it is there and parses
  unfoldable pub cron_next : ℕ → Trigger → Trigger
  cron_next from t = elim (truthy t.condition.internal_compiled) [
    | none ↦ t
    | some text ↦ elim (cron text from) [
      | none ↦ t
      | some next ↦ record t { next_execution_utc = some next }
    ]
  ]

  unfoldable pub register : ℕ → Trigger → TriggerEngine → TriggerEngine
  register now t e = elim (positive t.condition.interval_ms) [
    | some interval ↦ save_trigger (record t { next_execution_utc = some (now + interval) }) e
    | none ↦ save_trigger (if is_recurring t.condition.kind then cron_next now t else t) e
  ]

  -- the fallback of a recurring trigger without a next execution: it is given one and saved
  unfoldable pub schedule_recurring : ℕ → ℕ → Trigger → TriggerEngine → TriggerEngine
  schedule_recurring now now_utc t e = elim (positive t.condition.interval_ms) [
    | some interval ↦ save_trigger (record t { next_execution_utc = some (now + interval) }) e
    | none ↦ elim (truthy t.condition.internal_compiled) [
      | none ↦ e
      | some text ↦ elim (cron text now_utc) [
        | none ↦ e
        | some next ↦ save_trigger (record t { next_execution_utc = some next }) e
      ]
    ]
  ]

  -- the test of a TIME trigger, by the type of its condition
  unfoldable pub should_fire_time :
      Option ConditionType → ℕ → ℕ → Trigger → TriggerEngine → Bool × TriggerEngine
  should_fire_time none now now_utc t e = (false, e)
  should_fire_time (some exact) now now_utc t e =
      (elim t.condition.execute_after_utc [ none ↦ false | some target ↦ leb target now_utc ], e)
  should_fire_time (some recurring) now now_utc t e = elim (positive t.next_execution_utc) [
    | some next ↦ (leb next now_utc, e)
    | none ↦ (false, schedule_recurring now now_utc t e)
  ]

  -- the test by the type of the trigger
  unfoldable pub should_fire_type :
      TriggerType → ℕ → ℕ → Trigger → TriggerEngine → Bool × TriggerEngine
  should_fire_type event now now_utc t e = (false, e)
  should_fire_type system now now_utc t e = (
    elim (positive t.condition.threshold) [
      | none ↦ false
      | some n ↦
          is_text t.condition.expression "system:CYCLE_COMPLETED" && nat_eq (e.cycle_count % n) 0
    ],
    e,
  )
  should_fire_type time now now_utc t e = should_fire_time t.condition.kind now now_utc t e

  unfoldable pub should_fire : ℕ → ℕ → Trigger → TriggerEngine → Bool × TriggerEngine
  should_fire now now_utc t e = should_fire_type t.kind now now_utc t e

  unfoldable pub next_scheduled : ℕ → Trigger → Trigger
  next_scheduled now t =
      if is_recurring t.condition.kind
      then (elim (positive t.condition.interval_ms) [
        | some interval ↦ record t { next_execution_utc = some (now + interval) }
        | none ↦ cron_next now t
      ])
      else t

  -- the error of a listener is caught by the tick, and leaves the trigger as it was saved first
  unfoldable pub fire : (String → Bool) → ℕ → ℕ → Trigger → TriggerEngine → TriggerEngine
  fire listeners now now_utc t e =
      let fired = next_scheduled now (record t { state = firing; last_fired_at = some now }) in
      let saved = save_trigger fired e in
      let published = record saved { emitted = fired_event now_utc t e ∷ saved.emitted } in
      if listeners t.id
      then save_trigger (record fired { state = settled_state t.fire_policy }) published
      else published

  unfoldable pub evaluate : (String → Bool) → ℕ → ℕ → Trigger → TriggerEngine → TriggerEngine
  evaluate listeners now now_utc t e =
      let (fires, e') = should_fire now now_utc t e in
      if fires then fire listeners now now_utc t e' else e'

  unfoldable pub evaluate_each :
      (String → Bool) → ℕ → ℕ → List Trigger → TriggerEngine → TriggerEngine
  evaluate_each listeners now now_utc [] e = e
  evaluate_each listeners now now_utc (t ∷ ts) e =
      evaluate_each listeners now now_utc ts (evaluate listeners now now_utc t e)

  unfoldable pub handle_temporal_tick : (String → Bool) → ℕ → ℕ → TriggerEngine → TriggerEngine
  handle_temporal_tick listeners now now_utc e =
      let e' = record e { cycle_count = e.cycle_count + 1 } in
      evaluate_each listeners now now_utc
        (filter (λ t. is_active t.state) (get_active_triggers e'.store)) e'

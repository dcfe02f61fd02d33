-- ===== src/Triggers/Tests.antt =====
-- Triggers, run: one for an exact time, one for each cycle, one by an interval.
use sera_core.Prelude.{
  ℕ, ◌+◌, String, ◌≡◌, ◌≢◌, refl, Bool, true, false, Option, none, some, List, [], ◌∷◌, ◌==◌,
  eq_iff, if◌then◌else◌, filter,
}
use sera_core.Dict
use sera_core.Triggers.{
  exact, recurring, TemporalCondition, TriggerType, time, system, active, FirePolicy, once, repeat,
  Trigger, persist_local, save, delete, is_active, get_all, get_active_triggers,
}
use sera_core.Triggers.Engine.{
  TriggerEngine, positive, save_trigger, is_recurring, settled_state, fired_event, cron_next,
  register, schedule_recurring, should_fire_time, should_fire_type, should_fire, next_scheduled,
  fire, evaluate, evaluate_each, handle_temporal_tick,
}
use sera_core.Triggers.Engine.Effect.{IsFiled, fired_count}
use sera_core.Triggers.Engine.Once.{IsArmed}
use sera_core.Triggers.Engine.History.{
  Command, ticks, registers, deletes, Spares, is_due, run_command, run_commands,
  run_commands-fired_count,
}

abbrev no_condition : TemporalCondition
no_condition = record {
  kind = none;
  internal_compiled = none;
  execute_after_utc = none;
  interval_ms = none;
  expression = none;
  threshold = none;
}

abbrev trigger : String → TriggerType → FirePolicy → TemporalCondition → Trigger
trigger id kind policy condition = record {
  id = id;
  kind = kind;
  state = active;
  fire_policy = policy;
  condition = condition;
  action = record { kind = "THREADS_PUBLISH"; target_id = none; payload = "{}" };
  created_at = 0;
  last_fired_at = none;
  next_execution_utc = none;
}

abbrev alarm : Trigger
alarm =
    trigger "alarm" time once
      (record no_condition { kind = some exact; execute_after_utc = some 100 })

abbrev each_cycle : Trigger
each_cycle =
    trigger "cycle" system repeat
      (record no_condition { expression = some "system:CYCLE_COMPLETED"; threshold = some 1 })

abbrev poll : Trigger
poll =
    trigger "poll" time repeat
      (record no_condition { kind = some recurring; interval_ms = some 40 })

abbrev engine : TriggerEngine
engine = record {
  store = record {
    triggers = ("cycle", each_cycle) ∷ ("alarm", alarm) ∷ [];
    file = none;
    persist_locally = true;
    writable = true;
  };
  cycle_count = 0;
  started = true;
  emitted = [];
}

abbrev no_cron : String → ℕ → Option ℕ
no_cron text from = none

-- the listeners of the alarm's event throw
abbrev some_throw : String → Bool
some_throw id = if id == "alarm" then false else true

abbrev calls : List Command
calls =
    ticks some_throw 50 50
    ∷ registers 60 poll
    ∷ ticks some_throw 100 100
    ∷ deletes "cycle"
    ∷ ticks some_throw 160 160
    ∷ []

apart : (s t : String) → (s == t) ≡ false → s ≢ t
apart s t differ same = let z : (s == t) ≡ true = (eq_iff s t).1 same in cc

filed : IsFiled engine
filed = ((refl, (refl, tt)), ((apart "alarm" "cycle" refl, tt), (tt, tt)))

armed : IsArmed 100 alarm
armed = record { timed = refl; exactly = refl; after = refl; one_time = refl; ready = refl }

spares : Spares "alarm" calls
spares = (apart "poll" "alarm" refl, (apart "cycle" "alarm" refl, tt))

run_commands-fired_count_example :
    fired_count "alarm" (run_commands no_cron calls engine).emitted
    ≡ fired_count "alarm" [] + (if is_due 100 calls then 1 else 0)
unfolding Dict.get
run_commands-fired_count_example =
    run_commands-fired_count no_cron calls 100 alarm engine filed refl armed spares

-- two cycles while it was there, the alarm once, the poll twice
calls-fired :
    fired_count "cycle" (run_commands no_cron calls engine).emitted
      ∷ fired_count "alarm" (run_commands no_cron calls engine).emitted
      ∷ fired_count "poll" (run_commands no_cron calls engine).emitted
      ∷ []
    ≡ 2 ∷ 1 ∷ 2 ∷ []
unfolding Dict.get Dict.set Dict.delete Dict.values filter persist_local save delete is_active
    get_all get_active_triggers positive save_trigger is_recurring settled_state fired_event
    cron_next register schedule_recurring should_fire_time should_fire_type should_fire
    next_scheduled fire evaluate evaluate_each handle_temporal_tick fired_count run_command
    run_commands
calls-fired = refl

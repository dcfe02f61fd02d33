-- ===== src/Triggers.antt =====
-- src/core/triggers/types.ts and src/core/triggers/InMemoryTriggerStore.ts: triggers and their
-- store, in memory and in a file. A method keeps the stored object, so what the engine changes in
-- it and saves again is one `set`. A condition has the fields that the engine reads; its type is
-- absent on a condition that is not of time, and the time of an EXACT one is a number. A
-- save to the cloud is a function of the snapshot that is there when the store answers.
pub mod Engine
mod Tests
use sera_core.Prelude.{
  ℕ, String, Bool, true, false, Option, none, some, List, [], ◌∷◌, if◌then◌else◌, filter,
}
use sera_core.Dict
use sera_core.Dict.{Dict}

pub data ConditionType : Type 0 where
  exact recurring : ConditionType

pub record TemporalCondition : Type 0 where
  pub kind : Option ConditionType
  pub internal_compiled : Option String
  pub execute_after_utc : Option ℕ
  pub interval_ms : Option ℕ
  pub expression : Option String
  pub threshold : Option ℕ

pub record TriggerAction : Type 0 where
  pub kind : String
  pub target_id : Option String
  pub payload : String

pub data TriggerType : Type 0 where
  time event system : TriggerType

pub data TriggerState : Type 0 where
  active paused firing disabled completed : TriggerState

pub data FirePolicy : Type 0 where
  once repeat conditional : FirePolicy

pub record Trigger : Type 0 where
  pub id : String
  pub kind : TriggerType
  pub state : TriggerState
  pub fire_policy : FirePolicy
  pub condition : TemporalCondition
  pub action : TriggerAction
  pub created_at : ℕ
  pub last_fired_at : Option ℕ
  pub next_execution_utc : Option ℕ

pub record InMemoryTriggerStore : Type 0 where
  pub triggers : Dict Trigger
  pub file : Option (List Trigger)
  pub persist_locally : Bool
  pub writable : Bool

unfoldable pub set_each : Dict Trigger → List Trigger → Dict Trigger
set_each d [] = d
set_each d (t ∷ ts) = set_each (Dict.set d t.id t) ts

unfoldable pub get_all : InMemoryTriggerStore → List Trigger
get_all s = Dict.values s.triggers

unfoldable pub persist_local : InMemoryTriggerStore → InMemoryTriggerStore
persist_local s =
    if s.persist_locally
    then (if s.writable then record s { file = some (get_all s) } else s)
    else s

unfoldable pub load_local : InMemoryTriggerStore → InMemoryTriggerStore
load_local s =
    if s.persist_locally
    then (elim s.file [ none ↦ s | some items ↦ record s { triggers = set_each s.triggers items } ])
    else s

-- `snapshot` is the list of the snapshot's triggers, `none` where there is none
unfoldable pub load_from_cloud : Option (List Trigger) → InMemoryTriggerStore → InMemoryTriggerStore
load_from_cloud none s = s
load_from_cloud (some []) s = s
load_from_cloud (some (t ∷ ts)) s =
    persist_local (record s { triggers = set_each s.triggers (t ∷ ts) })

-- of the snapshot of a session, which other stores share, the triggers and the other fields
pub record TriggerSnapshot : Type 0 where
  pub cloud_triggers : Option (List Trigger)
  pub others : String

unfoldable pub persist_cloud : InMemoryTriggerStore → TriggerSnapshot → TriggerSnapshot
persist_cloud s snapshot = record snapshot { cloud_triggers = some (get_all s) }

unfoldable pub save : Trigger → InMemoryTriggerStore → InMemoryTriggerStore
save t s = persist_local (record s { triggers = Dict.set s.triggers t.id t })

unfoldable pub delete : String → InMemoryTriggerStore → InMemoryTriggerStore
delete id s = persist_local (record s { triggers = Dict.delete s.triggers id })

unfoldable pub get : String → InMemoryTriggerStore → Option Trigger
get id s = Dict.get s.triggers id

unfoldable pub is_active : TriggerState → Bool
is_active active = true
is_active _ = false

unfoldable pub get_active_triggers : InMemoryTriggerStore → List Trigger
get_active_triggers s = filter (λ t. is_active t.state) (Dict.values s.triggers)

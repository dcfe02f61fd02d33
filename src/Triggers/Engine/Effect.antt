-- ===== src/Triggers/Engine/Effect.antt =====
-- What the evaluation of a trigger does: it saves versions of that trigger and emits events of it,
-- so the rest of the store and of the log stays as it is.
use sera_core.Prelude.{
  ℕ, suc, String, ◌≡◌, ◌≢◌, refl, ap, ◌∙◌, false, Option, some, List, [], ◌∷◌, ◌==◌, eq_iff,
  if◌then◌else◌, arith,
}
use sera_core.Dict
use sera_core.Dict.{Dict}
use sera_core.Dict.Keys.{IsDistinct, set-IsDistinct}
use sera_core.Dict.Laws.{get-set}
use sera_core.Triggers.{Trigger, InMemoryTriggerStore, persist_local, save}
use sera_core.Triggers.Engine.{TriggerFired, TriggerEngine, save_trigger}

pub data Effect (id : String) (e : TriggerEngine) : TriggerEngine → Type 0 where
  nothing : Effect id e e
  saving :
      {e' : TriggerEngine} (u : Trigger)
      → u.id ≡ id
      → Effect id e e'
      → Effect id e (save_trigger u e')
  emitting :
      {e' : TriggerEngine} (f : TriggerFired)
      → f.trigger_id ≡ id
      → Effect id e e'
      → Effect id e (record e' { emitted = f ∷ e'.emitted })

-- every trigger is stored once, under its own id
abbrev pub IsKeyed : Dict Trigger → Type 0
IsKeyed [] = Unit
IsKeyed ((k, t) ∷ d) = (t.id ≡ k) × IsKeyed d

abbrev pub IsFiled : TriggerEngine → Type 0
IsFiled e = IsKeyed e.store.triggers × IsDistinct e.store.triggers

pub triggers-persist_local : (s : InMemoryTriggerStore) → (persist_local s).triggers ≡ s.triggers
unfolding persist_local
triggers-persist_local s = ground arith

pub triggers-save_trigger :
    (t : Trigger) (e : TriggerEngine)
    → (save_trigger t e).store.triggers ≡ Dict.set e.store.triggers t.id t
unfolding save_trigger save
triggers-save_trigger t e =
    triggers-persist_local (record e.store { triggers = Dict.set e.store.triggers t.id t })

pub emitted-save_trigger :
    (t : Trigger) (e : TriggerEngine) → (save_trigger t e).emitted ≡ e.emitted
unfolding save_trigger
emitted-save_trigger t e = refl

set-IsKeyed : (d : Dict Trigger) (t : Trigger) → IsKeyed d → IsKeyed (Dict.set d t.id t)
unfolding Dict.set
set-IsKeyed [] t h = (refl, tt)
set-IsKeyed ((k, u) ∷ d) t h = ground (arith, eq_iff k t.id, set-IsKeyed d t)

pub save_trigger-IsFiled :
    (t : Trigger) (e : TriggerEngine) → IsFiled e → IsFiled (save_trigger t e)
save_trigger-IsFiled t e h =
    rw (triggers-save_trigger t e)
      (set-IsKeyed e.store.triggers t h.0, set-IsDistinct e.store.triggers t.id t h.1)

pub Effect-IsFiled : {id : String} {e e' : TriggerEngine} → Effect id e e' → IsFiled e → IsFiled e'
Effect-IsFiled nothing h = h
Effect-IsFiled (saving {e'} u own rest) h = save_trigger-IsFiled u e' (Effect-IsFiled rest h)
Effect-IsFiled (emitting f own rest) h = Effect-IsFiled rest h

-- the number of events of a trigger
unfoldable pub fired_count : String → List TriggerFired → ℕ
fired_count id [] = 0
fired_count id (f ∷ fs) =
    let rest = fired_count id fs in if f.trigger_id == id then suc rest else rest

-- what an engine holds and has emitted of a trigger
abbrev pub focus : String → TriggerEngine → Option Trigger × ℕ
focus id e = (Dict.get e.store.triggers id, fired_count id e.emitted)

pub focus-save_trigger :
    (t : Trigger) (e : TriggerEngine) (id : String)
    → focus id (save_trigger t e)
      ≡ ((if t.id == id then some t else Dict.get e.store.triggers id), fired_count id e.emitted)
focus-save_trigger t e id =
    ap (λ d. (Dict.get d id, fired_count id (save_trigger t e).emitted)) (triggers-save_trigger t e)
    ∙ ap (λ fs. (Dict.get (Dict.set e.store.triggers t.id t) id, fired_count id fs))
        (emitted-save_trigger t e)
    ∙ ap (λ o. (o, fired_count id e.emitted)) (get-set e.store.triggers t.id id t)

pub Effect-focus :
    {id : String} {e e' : TriggerEngine} (k : String)
    → id ≢ k
    → Effect id e e'
    → focus k e' ≡ focus k e
unfolding fired_count
Effect-focus k other nothing = refl
Effect-focus {id} {e} k other (saving {e'} u own rest) =
    let apart : (u.id == k) ≡ false = rw own (ground (arith, eq_iff id k)) in
    focus-save_trigger u e' k ∙ rw apart (Effect-focus k other rest)
Effect-focus {id} {e} k other (emitting {e'} f own rest) =
    let apart : (f.trigger_id == k) ≡ false = rw own (ground (arith, eq_iff id k)) in
    rw apart (Effect-focus k other rest)

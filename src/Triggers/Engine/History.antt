-- ===== src/Triggers/Engine/History.antt =====
-- src/core/triggers/TriggerEngine.ts over histories of ticks, of registrations and of deletions.
use sera_core.Prelude.{
  ℕ, suc, ◌+◌, String, ◌≡◌, ◌≢◌, sym, ap, ◌∙◌, Bool, true, false, ◌||◌, Option, some, List, [], ◌∷◌,
  if◌then◌else◌, leb, arith, Bool-cases, inl, inr, subst,
}
use sera_core.Dict
use sera_core.Dict.{Dict}
use sera_core.Dict.Keys.{delete-IsDistinct}
use sera_core.Dict.Laws.{get-delete_ne}
use sera_core.Triggers.{Trigger, is_active, delete}
use sera_core.Triggers.Engine.{TriggerEngine, register, fire, handle_temporal_tick}
use sera_core.Triggers.Engine.Effect.{
  IsKeyed, IsFiled, fired_count, focus, triggers-persist_local, Effect-focus, Effect-IsFiled,
}
use sera_core.Triggers.Engine.Own.{register-Effect}
use sera_core.Triggers.Engine.Tick.{tick-Evaluated, tick-IsFiled}
use sera_core.Triggers.Engine.Once.{IsArmed, IsSpent, evaluate-IsArmed, fire-IsSpent}

pub data Command : Type 0 where
  ticks : (listeners : String → Bool) (now now_utc : ℕ) → Command
  registers : (now : ℕ) (t : Trigger) → Command
  deletes : (id : String) → Command

-- no call registers or deletes the trigger
abbrev pub Spares : String → List Command → Type 0
Spares k [] = Unit
Spares k (ticks listeners now now_utc ∷ cs) = Spares k cs
Spares k (registers now t ∷ cs) = (t.id ≢ k) × Spares k cs
Spares k (deletes id ∷ cs) = (id ≢ k) × Spares k cs

-- some tick is at the time or after it
unfoldable pub is_due : ℕ → List Command → Bool
is_due target [] = false
is_due target (ticks listeners now now_utc ∷ cs) = leb target now_utc || is_due target cs
is_due target (registers now t ∷ cs) = is_due target cs
is_due target (deletes id ∷ cs) = is_due target cs

delete-IsKeyed : (d : Dict Trigger) (k : String) → IsKeyed d → IsKeyed (Dict.delete d k)
unfolding Dict.delete
delete-IsKeyed [] k h = tt
delete-IsKeyed ((j, t) ∷ d) k h = ground (arith, delete-IsKeyed d k h.1)

module _ (cron : String → ℕ → Option ℕ) where
  unfoldable pub run_command : Command → TriggerEngine → TriggerEngine
  run_command (ticks listeners now now_utc) e = handle_temporal_tick cron listeners now now_utc e
  run_command (registers now t) e = register cron now t e
  run_command (deletes id) e = record e { store = delete id e.store }

  unfoldable pub run_commands : List Command → TriggerEngine → TriggerEngine
  run_commands [] e = e
  run_commands (c ∷ cs) e = run_commands cs (run_command c e)

  run_command-IsFiled : (c : Command) (e : TriggerEngine) → IsFiled e → IsFiled (run_command c e)
  unfolding run_command delete
  run_command-IsFiled (ticks listeners now now_utc) e h =
      tick-IsFiled cron listeners now now_utc e h
  run_command-IsFiled (registers now t) e h = Effect-IsFiled (register-Effect cron now t e) h
  run_command-IsFiled (deletes id) e h =
      rw (triggers-persist_local (record e.store { triggers = Dict.delete e.store.triggers id }))
        (delete-IsKeyed e.store.triggers id h.0, delete-IsDistinct e.store.triggers id h.1)

  deletes-focus :
      (k id : String) (e : TriggerEngine)
      → id ≢ k
      → focus k (run_command (deletes id) e) ≡ focus k e
  unfolding run_command delete
  deletes-focus k id e other =
      ap (λ d. (Dict.get d k, fired_count k e.emitted))
        (triggers-persist_local (record e.store { triggers = Dict.delete e.store.triggers id }))
      ∙ ap (λ o. (o, fired_count k e.emitted)) (get-delete_ne e.store.triggers id k other)

  registers-focus :
      (k : String) (now : ℕ) (t : Trigger) (e : TriggerEngine)
      → t.id ≢ k
      → focus k (run_command (registers now t) e) ≡ focus k e
  unfolding run_command
  registers-focus k now t e other = Effect-focus k other (register-Effect cron now t e)

  -- a trigger that is not active is left alone
  tick-IsSpent :
      (listeners : String → Bool) (now now_utc n : ℕ) (k : String) (e : TriggerEngine)
      → IsFiled e
      → IsSpent n (focus k e)
      → focus k (run_command (ticks listeners now now_utc) e) ≡ focus k e
  unfolding run_command
  tick-IsSpent listeners now now_utc n k e filed (t, held, off, count) =
      let (like, seen) = tick-Evaluated cron listeners now now_utc k t e filed held in
      rw off at seen

  run_commands-IsSpent :
      (cs : List Command) (n : ℕ) (k : String) (e : TriggerEngine)
      → Spares k cs
      → IsFiled e
      → IsSpent n (focus k e)
      → IsSpent n (focus k (run_commands cs e))
  unfolding run_commands
  run_commands-IsSpent [] n k e spares filed h = h
  run_commands-IsSpent (ticks listeners now now_utc ∷ cs) n k e spares filed h =
      let c = ticks listeners now now_utc in
      run_commands-IsSpent cs n k (run_command c e) spares (run_command-IsFiled c e filed)
        (subst (IsSpent n) (sym (tick-IsSpent listeners now now_utc n k e filed h)) h)
  run_commands-IsSpent (registers now t ∷ cs) n k e spares filed h =
      let c = registers now t in
      run_commands-IsSpent cs n k (run_command c e) spares.1 (run_command-IsFiled c e filed)
        (subst (IsSpent n) (sym (registers-focus k now t e spares.0)) h)
  run_commands-IsSpent (deletes id ∷ cs) n k e spares filed h =
      let c = deletes id in
      run_commands-IsSpent cs n k (run_command c e) spares.1 (run_command-IsFiled c e filed)
        (subst (IsSpent n) (sym (deletes-focus k id e spares.0)) h)

  -- a tick fires an armed trigger when its time has come, and leaves it alone before
  tick-IsArmed :
      (listeners : String → Bool) (now now_utc target : ℕ) (t : Trigger) (e : TriggerEngine)
      → IsFiled e
      → Dict.get e.store.triggers t.id ≡ some t
      → IsArmed target t
      → (if leb target now_utc
          then IsSpent
              (suc (fired_count t.id e.emitted))
              (focus t.id (run_command (ticks listeners now now_utc) e))
          else (focus t.id (run_command (ticks listeners now now_utc) e) ≡ focus t.id e))
  unfolding run_command is_active
  tick-IsArmed listeners now now_utc target t e filed held armed =
      let (like, seen) = tick-Evaluated cron listeners now now_utc t.id t e filed held in
      let on : is_active t.state ≡ true = ap is_active armed.ready in
      let evaluated = rw on at seen in
      let step = evaluate-IsArmed cron listeners now now_utc target t like.0 armed in
      let count = ap (λ f. f.1) like.1 in
      elim (Bool-cases (leb target now_utc)) [
        | inl due ↦
            let fires = evaluated ∙ ap (focus t.id) (rw due at step) in
            let spent = fire-IsSpent cron listeners now now_utc target t like.0 armed in
            rw due (
              subst (IsSpent (suc (fired_count t.id e.emitted))) (sym fires) (
                subst (λ n. IsSpent (suc n) (focus t.id (fire cron listeners now now_utc t like.0)))
                  count spent))
        | inr early ↦ rw early (evaluated ∙ ap (focus t.id) (rw early at step) ∙ like.1)
      ]

  -- In an engine that stores each trigger once, under its own id, a trigger that is active, of policy
  -- ONCE, for an EXACT time fires exactly once over any history of ticks and of registrations and
  -- deletions of other triggers in which some tick is at that time or after it, whether or not its
  -- listeners throw, and not at all over any other.
  pub run_commands-fired_count :
      (cs : List Command) (target : ℕ) (t : Trigger) (e : TriggerEngine)
      → IsFiled e
      → Dict.get e.store.triggers t.id ≡ some t
      → IsArmed target t
      → Spares t.id cs
      → fired_count t.id (run_commands cs e).emitted
        ≡ fired_count t.id e.emitted + (if is_due target cs then 1 else 0)
  unfolding run_commands is_due
  run_commands-fired_count [] target t e filed held armed spares = omega arith
  run_commands-fired_count (registers now u ∷ cs) target t e filed held armed spares =
      let c = registers now u in
      let same = registers-focus t.id now u e spares.0 in
      let rest =
        run_commands-fired_count cs target t (run_command c e) (run_command-IsFiled c e filed)
          (ap (λ f. f.0) same ∙ held) armed spares.1 in
      rest ∙ ap (λ n. n + (if is_due target cs then 1 else 0)) (ap (λ f. f.1) same)
  run_commands-fired_count (deletes id ∷ cs) target t e filed held armed spares =
      let c = deletes id in
      let same = deletes-focus t.id id e spares.0 in
      let rest =
        run_commands-fired_count cs target t (run_command c e) (run_command-IsFiled c e filed)
          (ap (λ f. f.0) same ∙ held) armed spares.1 in
      rest ∙ ap (λ n. n + (if is_due target cs then 1 else 0)) (ap (λ f. f.1) same)
  run_commands-fired_count (ticks listeners now now_utc ∷ cs) target t e filed held armed spares =
      let c = ticks listeners now now_utc in
      let tick = tick-IsArmed listeners now now_utc target t e filed held armed in
      let filed' = run_command-IsFiled c e filed in
      elim (Bool-cases (leb target now_utc)) [
        | inl due ↦
            let spent =
              run_commands-IsSpent cs (suc (fired_count t.id e.emitted)) t.id (run_command c e)
                spares filed' (rw due at tick) in
            let (u, u_held, u_off, count) = spent in rw due (count ∙ omega arith)
        | inr early ↦
            let same = rw early at tick in
            let rest =
              run_commands-fired_count cs target t (run_command c e) filed'
                (ap (λ f. f.0) same ∙ held) armed spares in
            rw early (rest ∙ ap (λ n. n + (if is_due target cs then 1 else 0)) (ap (λ f. f.1) same))
      ]

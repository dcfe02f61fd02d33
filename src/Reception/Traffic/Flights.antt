-- ===== src/Reception/Traffic/Flights.antt =====
-- src/reception/publicReceptionRouter.ts: how many requests of a client wait for the provider.
use sera_core.Prelude.{
  ℕ, ◌+◌, ◌-◌, ◌≤◌, ◌≡◌, refl, sym, ap, ◌∙◌, String, Option, none, some, List, [], ◌∷◌, ◌==◌,
  eq_iff, if◌then◌else◌, arith, Bool-cases, inl, inr,
}
use sera_core.Dict
use sera_core.Reception.{Limits, Reception}
use sera_core.Reception.Chat.{Flight, Begun, ended, asks, Answer, finish_chat}
use sera_core.Reception.Traffic.{
  System, Event, begins, answers, empty_system, put_back, take_flight, begun, answered, run_event,
  run_events,
}
use sera_core.Reception.Traffic.Effects.{
  active, waiting, IsBegun, begin_chat-IsBegun, finish_chat-active,
}

-- each client's open requests are those that wait, of which there is at most one
abbrev IsTracked : System → Type 0
IsTracked y =
    (c : String) → (active c y.reception ≡ waiting c y.flights) × (waiting c y.flights ≤ 1)

put_back-some :
    (g : Flight) (o : Option (Flight × List Flight)) (f : Flight) (rest : List Flight)
    → put_back g o ≡ some (f, rest)
    → (hs : List Flight) × (o ≡ some (f, hs)) × (g ∷ hs ≡ rest)
unfolding put_back
put_back-some g none f rest e = absurd cc
put_back-some g (some (h, hs)) f rest e = (hs, cc, cc)

take_flight-waiting :
    (client c : String) (fs : List Flight) (f : Flight) (rest : List Flight)
    → take_flight client fs ≡ some (f, rest)
    → (f.client ≡ client) × (waiting c fs ≡ (if client == c then 1 else 0) + waiting c rest)
unfolding take_flight put_back
take_flight-waiting client c [] f rest e = absurd cc
take_flight-waiting client c (g ∷ fs) f rest e = elim (Bool-cases (g.client == client)) [
  | inl t ↦
      let e' : ◌≡◌ {A = Option (Flight × List Flight)} (some (g, fs)) (some (f, rest)) =
        rw t at e in
      let k : g ≡ f = cc in
      let r : fs ≡ rest = cc in
      let j = (eq_iff g.client client).0 t in
      (
        ap (λ h. h.client) (sym k) ∙ j,
        ap (λ n. (if n == c then 1 else 0) + waiting c fs) j
            ∙ ap (λ hs. (if client == c then 1 else 0) + waiting c hs) r,
      )
  | inr n ↦
      let b = put_back-some g (take_flight client fs) f rest (rw n at e) in
      let h = take_flight-waiting client c fs f b.0 b.1 in
      (h.0, omega (arith, h.1, ap (waiting c) b.2))
]

begun-IsTracked :
    (now : ℕ) (y : System) (r : Begun × Reception)
    → IsBegun y.reception r
    → IsTracked y
    → IsTracked (begun now y r)
unfolding begun
begun-IsTracked now y (ended reply, s) h k = λ c. (h c ∙ (k c).0, (k c).1)
begun-IsTracked now y (asks f, s) h k = λ c. elim (Bool-cases (f.client == c)) [
  | inl t ↦
      let idle = ap (λ j. active j y.reception) (sym ((eq_iff f.client c).0 t)) ∙ h.0 in
      let open_now : active c s ≡ 1 = h.1 c ∙ rw t refl in
      rw t (omega (arith, idle, open_now, (k c).0), omega (arith, idle, (k c).0))
  | inr n ↦
      let same : active c s ≡ active c y.reception = h.1 c ∙ rw n refl in
      rw n (omega (arith, same, (k c).0), omega (arith, (k c).1))
]

answered-IsTracked :
    (now : ℕ) (client : String) (a : Answer) (y : System)
    → (o : Option (Flight × List Flight)) → take_flight client y.flights ≡ o
    → IsTracked y
    → IsTracked (answered now a y o)
unfolding answered
answered-IsTracked now client a y none e k = k
answered-IsTracked now client a y (some (f, rest)) e k = λ c.
    let w = take_flight-waiting client c y.flights f rest e in
    let after =
      finish_chat-active now f a y.reception c
      ∙ ap (λ j. if j == c then active c y.reception - 1 else active c y.reception) w.0 in
    elim (Bool-cases (client == c)) [
      | inl t ↦
          let w' : waiting c y.flights ≡ 1 + waiting c rest = w.1 ∙ rw t refl in
          let after' : active c (finish_chat now f a y.reception).1 ≡ active c y.reception - 1 =
            after ∙ rw t refl in
          (omega (arith, w', after', (k c).0), omega (arith, w', (k c).1))
      | inr n ↦
          let w' : waiting c y.flights ≡ 0 + waiting c rest = w.1 ∙ rw n refl in
          let after' : active c (finish_chat now f a y.reception).1 ≡ active c y.reception =
            after ∙ rw n refl in
          (omega (arith, w', after', (k c).0), omega (arith, w', (k c).1))
    ]

run_events-IsTracked :
    (l : Limits) (es : List Event) (y : System) → IsTracked y → IsTracked (run_events l es y)
unfolding run_events run_event
run_events-IsTracked l [] y k = k
run_events-IsTracked l (begins now configured client message history ∷ es) y k =
    run_events-IsTracked l es _ (
      begun-IsTracked now y _
        (begin_chat-IsBegun l now configured client message history y.reception) k)
run_events-IsTracked l (answers now client a ∷ es) y k =
    run_events-IsTracked l es _
      (answered-IsTracked now client a y (take_flight client y.flights) refl k)

-- However the requests of all clients overlap, are refused, are answered from the cache, fail or
-- are answered: at most one request of each client waits for the provider, and the count that the
-- router keeps for the client is the number of those that wait.
pub run_events-one_flight :
    (l : Limits) (es : List Event) (c : String)
    → let y = run_events l es empty_system in
      (waiting c y.flights ≤ 1) × (active c y.reception ≡ waiting c y.flights)
unfolding Dict.get
run_events-one_flight l es c =
    let h = run_events-IsTracked l es empty_system (λ d. (refl, omega arith)) c in (h.1, h.0)

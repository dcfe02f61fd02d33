-- ===== src/Reception/Traffic/Budget.antt =====
-- src/reception/publicReceptionRouter.ts: how often the provider is asked on a day.
use sera_core.Prelude.{
  ℕ, ◌+◌, ◌-◌, ◌≤◌, ◌<◌, ◌≡◌, refl, sym, ap, subst, String, Bool, true, false, Option, none, some,
  List, [], ◌∷◌, if◌then◌else◌, nat_eq, arith, Bool-cases, inl, inr,
}
use sera_core.Dict
use sera_core.Reception.{
  Limits, ClientUsage, ReceptionReply, Reception, Admission, admitted, retry_after, utc_day,
  usage_of, roll_minute, roll_day, is_today, roll_global, admission, settle, acquire_request,
  release,
}
use sera_core.Reception.Question.{ReceptionTurn}
use sera_core.Reception.Chat.{
  Flight, Begun, ended, asks, Answer, no_answer, unreadable, parsed, is_bad, answer_or_ask, let_in,
  flight_of, begin_chat, put_reply, finish_chat, cached_reply,
}
use sera_core.Reception.Traffic.{
  System, Event, begins, answers, empty_system, take_flight, begun, answered, run_event, run_events,
}
use sera_core.Reception.Traffic.Counters.{
  IsTallied, rolled, roll-IsTallied, count-IsTallied, weaken-IsTallied, later-IsTallied,
  IsTallied-le,
}

is_today-some : (today : ℕ) (o : Option ℕ) → is_today today o ≡ true → o ≡ some today
unfolding is_today
is_today-some today none e = absurd cc
is_today-some today (some day) e = ap some (ground arith)

-- the calls of the provider on a day
abbrev pub calls : ℕ → List (ℕ × String) → ℕ
calls d [] = 0
calls d ((day, client) ∷ asked) = (if nat_eq day d then 1 else 0) + calls d asked

-- the calls of a router and their counter
abbrev IsWithin : Limits → ℕ → Reception → (ℕ → ℕ) → Type 0
IsWithin l now s f = IsTallied l.daily_budget now s.global_day s.global_requests f

-- a router that has counted a request of today that is not in `f`
abbrev HasCounted : Limits → ℕ → Reception → (ℕ → ℕ) → Type 0
HasCounted l now s f =
    (n : ℕ) × (s.global_requests ≡ n + 1)
    × (n < l.daily_budget)
    × (s.global_day ≡ some (utc_day now))
    × IsTallied l.daily_budget now (some (utc_day now)) n f

roll_global-IsWithin :
    (l : Limits) (before now : ℕ) (s : Reception) (f : ℕ → ℕ)
    → before ≤ now
    → IsWithin l before s f
    → ((roll_global (utc_day now) s).global_day ≡ some (utc_day now))
      × IsTallied l.daily_budget now
          (some (utc_day now))
          (roll_global (utc_day now) s).global_requests
          f
unfolding roll_global
roll_global-IsWithin l before now s f h k =
    let r = roll-IsTallied l.daily_budget before now s.global_day s.global_requests f h k in
    elim (Bool-cases (is_today (utc_day now) s.global_day)) [
      | inl t ↦ rw t (
        is_today-some (utc_day now) s.global_day t,
        subst
            (λ b. IsTallied l.daily_budget now (some (utc_day now)) (rolled b s.global_requests) f)
            t r,
      )
      | inr e ↦ rw e (
        refl,
        subst
            (λ b. IsTallied l.daily_budget now (some (utc_day now)) (rolled b s.global_requests) f)
            e r,
      )
    ]

admission-budget :
    (l : Limits) (now : ℕ) (u : ClientUsage) (n : ℕ)
    → admission l now u n ≡ admitted
    → n < l.daily_budget
unfolding admission
admission-budget l now u n e = ground arith

abbrev IsLetIn : Limits → ℕ → (ℕ → ℕ) → Admission × Reception → Type 0
IsLetIn l now f (retry_after seconds, s) = IsWithin l now s f
IsLetIn l now f (admitted, s) = HasCounted l now s f

settle-IsLetIn :
    (l : Limits) (now : ℕ) (client : String) (u : ClientUsage) (s : Reception) (f : ℕ → ℕ)
    (a : Admission)
    → s.global_day ≡ some (utc_day now)
    → IsTallied l.daily_budget now (some (utc_day now)) s.global_requests f
    → (a ≡ admitted → s.global_requests < l.daily_budget)
    → IsLetIn l now f (settle client u s a)
unfolding settle
settle-IsLetIn l now client u s f (retry_after seconds) e k fits =
    subst (λ day. IsTallied l.daily_budget now day s.global_requests f) (sym e) k
settle-IsLetIn l now client u s f admitted e k fits = (s.global_requests, refl, fits refl, e, k)

acquire_request-IsLetIn :
    (l : Limits) (before now : ℕ) (client : String) (s : Reception) (f : ℕ → ℕ)
    → before ≤ now
    → IsWithin l before s f
    → IsLetIn l now f (acquire_request l now client s)
unfolding acquire_request
acquire_request-IsLetIn l before now client s f h k =
    let u =
      roll_day (utc_day now) (roll_minute now (usage_of now (Dict.get s.client_usage client))) in
    let s' = roll_global (utc_day now) s in
    let r = roll_global-IsWithin l before now s f h k in
    settle-IsLetIn l now client u s' f (admission l now u s'.global_requests) r.0 r.1
      (admission-budget l now u s'.global_requests)

-- the calls with the one that a request asks for
abbrev IsSpent : Limits → ℕ → (ℕ → ℕ) → Begun × Reception → Type 0
IsSpent l now f (ended reply, s) = IsWithin l now s f
IsSpent l now f (asks g, s) =
    IsWithin l now s (λ d. (if nat_eq (utc_day now) d then 1 else 0) + f d)

HasCounted-less :
    (l : Limits) (now m : ℕ) (s : Reception) (f : ℕ → ℕ)
    → HasCounted l now s f
    → s.global_requests ≤ m + 1
    → IsTallied l.daily_budget now s.global_day m f
HasCounted-less l now m s f h k =
    subst (λ day. IsTallied l.daily_budget now day m f) (sym h.3)
      (weaken-IsTallied l.daily_budget now h.0 m (some (utc_day now)) f (omega (arith, h.1)) h.4)

answer_or_ask-IsSpent :
    (l : Limits) (now : ℕ) (configured : Bool) (g : Flight) (reply : Option ReceptionReply)
    (s : Reception) (f : ℕ → ℕ)
    → HasCounted l now s f
    → IsSpent l now f (answer_or_ask configured g reply s)
unfolding answer_or_ask release
answer_or_ask-IsSpent l now configured g (some reply) s f h =
    HasCounted-less l now (s.global_requests - 1) s f h (omega arith)
answer_or_ask-IsSpent l now false g none s f h =
    HasCounted-less l now s.global_requests s f h (omega arith)
answer_or_ask-IsSpent l now true g none s f h =
    let added : ℕ → ℕ = λ d. (if nat_eq (utc_day now) d then 1 else 0) + f d in
    let k = count-IsTallied l.daily_budget now h.0 f added h.2 (λ d. refl) h.4 in
    subst (λ day. IsTallied l.daily_budget now day s.global_requests added) (sym h.3)
      (subst (λ n. IsTallied l.daily_budget now (some (utc_day now)) n added) (sym h.1) k)

let_in-IsSpent :
    (l : Limits) (now : ℕ) (configured : Bool) (g : Flight) (f : ℕ → ℕ) (r : Admission × Reception)
    → IsLetIn l now f r
    → IsSpent l now f (let_in now configured g r)
unfolding let_in
let_in-IsSpent l now configured g f (retry_after seconds, s) h = h
let_in-IsSpent l now configured g f (admitted, s) h =
    answer_or_ask-IsSpent l now configured g (cached_reply now g.cache_key s) s f h

begin_chat-IsSpent :
    (l : Limits) (before now : ℕ) (configured : Bool) (client : String) (message : Option String)
    (history : List ReceptionTurn) (s : Reception) (f : ℕ → ℕ)
    → before ≤ now
    → IsWithin l before s f
    → IsSpent l now f (begin_chat l now configured client message history s)
unfolding begin_chat
begin_chat-IsSpent l before now configured client none history s f h k =
    later-IsTallied l.daily_budget before now s.global_requests s.global_day f h k
begin_chat-IsSpent l before now configured client (some text) history s f h k =
    elim (Bool-cases (is_bad (some text))) [
      | inl t ↦
          rw t (later-IsTallied l.daily_budget before now s.global_requests s.global_day f h k)
      | inr e ↦ rw e (
          let_in-IsSpent l now configured (flight_of client text history) f
            (acquire_request l now client s) (acquire_request-IsLetIn l before now client s f h k))
    ]

put_reply-global :
    (now : ℕ) (key : Option String) (reply : ReceptionReply) (s : Reception)
    → ((put_reply now key reply s).global_day ≡ s.global_day)
      × ((put_reply now key reply s).global_requests ≡ s.global_requests)
unfolding put_reply
put_reply-global now none reply s = (refl, refl)
put_reply-global now (some key) reply s = (refl, refl)

finish_chat-global :
    (now : ℕ) (g : Flight) (a : Answer) (s : Reception)
    → ((finish_chat now g a s).1.global_day ≡ s.global_day)
      × ((finish_chat now g a s).1.global_requests ≡ s.global_requests)
unfolding finish_chat release
finish_chat-global now g no_answer s = (refl, refl)
finish_chat-global now g unreadable s = (refl, refl)
finish_chat-global now g (parsed reply) s = put_reply-global now g.cache_key _ s

-- the clock of a history does not go back
abbrev IsTimed : ℕ → List Event → Type 0
IsTimed before [] = Unit
IsTimed before (begins now configured client message history ∷ es) = (before ≤ now) × IsTimed now es
IsTimed before (answers now client a ∷ es) = (before ≤ now) × IsTimed now es

abbrev IsSafe : Limits → ℕ → System → Type 0
IsSafe l now y = IsWithin l now y.reception (λ d. calls d y.asked)

begun-IsSafe :
    (l : Limits) (now : ℕ) (y : System) (r : Begun × Reception)
    → IsSpent l now (λ d. calls d y.asked) r
    → IsSafe l now (begun now y r)
unfolding begun
begun-IsSafe l now y (ended reply, s) h = h
begun-IsSafe l now y (asks g, s) h = h

answered-IsSafe :
    (l : Limits) (before now : ℕ) (a : Answer) (y : System) (o : Option (Flight × List Flight))
    → before ≤ now
    → IsSafe l before y
    → IsSafe l now (answered now a y o)
unfolding answered
answered-IsSafe l before now a y none h k = later-IsTallied l.daily_budget before now _ _ _ h k
answered-IsSafe l before now a y (some (g, rest)) h k =
    let same = finish_chat-global now g a y.reception in
    subst
      (λ day.
        IsTallied l.daily_budget now day (finish_chat now g a y.reception).1.global_requests
          (λ d. calls d y.asked))
      (sym same.0)
      (subst (λ n. IsTallied l.daily_budget now y.reception.global_day n (λ d. calls d y.asked))
        (sym same.1) (later-IsTallied l.daily_budget before now _ _ _ h k))

run_events-calls :
    (l : Limits) (before : ℕ) (es : List Event) (y : System) (d : ℕ)
    → IsTimed before es
    → IsSafe l before y
    → calls d (run_events l es y).asked ≤ l.daily_budget
unfolding run_events run_event
run_events-calls l before [] y d timed k = IsTallied-le l.daily_budget before _ d _ _ k
run_events-calls l before (begins now configured client message history ∷ es) y d timed k =
    run_events-calls l now es _ d timed.1 (
      begun-IsSafe l now y _
        (begin_chat-IsSpent l before now configured client message history y.reception _ timed.0 k))
run_events-calls l before (answers now client a ∷ es) y d timed k =
    run_events-calls l now es _ d timed.1
      (answered-IsSafe l before now a y (take_flight client y.flights) timed.0 k)

-- From a router that has just started, with a clock that does not go back: on no day, in
-- coordinated universal time, is the provider asked more often than the daily budget allows,
-- however the requests of all clients overlap and whatever else happens.
pub run_events-budget :
    (l : Limits) (start : ℕ) (es : List Event) (d : ℕ)
    → IsTimed start es
    → calls d (run_events l es empty_system).asked ≤ l.daily_budget
run_events-budget l start es d timed = run_events-calls l start es empty_system d timed (λ e. refl)

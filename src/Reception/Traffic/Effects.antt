-- ===== src/Reception/Traffic/Effects.antt =====
-- src/reception/publicReceptionRouter.ts: what one call changes in the open requests of a client.
use sera_core.Prelude.{
  ℕ, ◌+◌, ◌-◌, ◌≡◌, refl, sym, ap, ◌∙◌, String, Bool, true, false, Option, none, some, List, [],
  ◌∷◌, ◌==◌, eq_iff, if◌then◌else◌, arith, Bool-cases, inl, inr,
}
use sera_core.Dict
use sera_core.Dict.Laws.{get-set}
use sera_core.Reception.{
  Limits, ClientUsage, Reception, ReceptionReply, Admission, admitted, retry_after, usage_of,
  roll_minute, roll_day, utc_day, roll_global, admission, keep_usage, counted, settle,
  acquire_request, released, release,
}
use sera_core.Reception.Question.{ReceptionTurn}
use sera_core.Reception.Chat.{
  Flight, Begun, ended, asks, Answer, no_answer, unreadable, parsed, is_bad, answer_or_ask, let_in,
  flight_of, begin_chat, put_reply, finish_chat, cached_reply,
}

abbrev active_of : Option ClientUsage → ℕ
active_of none = 0
active_of (some u) = u.active_requests

-- the requests that a client is held to have open
abbrev pub active : String → Reception → ℕ
active c s = active_of (Dict.get s.client_usage c)

-- the requests of a client that wait
abbrev pub waiting : String → List Flight → ℕ
waiting c [] = 0
waiting c (f ∷ fs) = (if f.client == c then 1 else 0) + waiting c fs

roll-active :
    (now : ℕ) (o : Option ClientUsage)
    → (roll_day (utc_day now) (roll_minute now (usage_of now o))).active_requests ≡ active_of o
unfolding roll_day roll_minute usage_of
roll-active now none = ground arith
roll-active now (some u) = ground arith

roll_global-usage :
    (today : ℕ) (s : Reception) → (roll_global today s).client_usage ≡ s.client_usage
unfolding roll_global
roll_global-usage today s = ground arith

active_of-set :
    (d : Dict.Dict ClientUsage) (k c : String) (u : ClientUsage)
    → active_of (Dict.get (Dict.set d k u) c)
      ≡ (if k == c then u.active_requests else active_of (Dict.get d c))
active_of-set d k c u = rw (get-set d k c u) (ground arith)

if-same :
    (d : Dict.Dict ClientUsage) (k c : String) (u : ClientUsage)
    → u.active_requests ≡ active_of (Dict.get d k)
    → (if k == c then u.active_requests else active_of (Dict.get d c)) ≡ active_of (Dict.get d c)
if-same d k c u e = elim (Bool-cases (k == c)) [
  | inl t ↦ rw t (e ∙ ap (λ j. active_of (Dict.get d j)) ((eq_iff k c).0 t))
  | inr f ↦ rw f refl
]

active_of-keep :
    (d : Dict.Dict ClientUsage) (k c : String) (u : ClientUsage)
    → u.active_requests ≡ active_of (Dict.get d k)
    → active_of (Dict.get (keep_usage k u d) c) ≡ active_of (Dict.get d c)
unfolding keep_usage
active_of-keep d k c u e = elim (Bool-cases (Dict.has d k)) [
  | inl t ↦ rw t (active_of-set d k c u ∙ if-same d k c u e)
  | inr f ↦ rw f refl
]

admission-idle :
    (l : Limits) (now : ℕ) (u : ClientUsage) (n : ℕ)
    → admission l now u n ≡ admitted
    → u.active_requests ≡ 0
unfolding admission
admission-idle l now u n e = ground arith

-- a request that is let in is the one of its client that is open
abbrev IsAcquired : String → Reception → Admission × Reception → Type 0
IsAcquired client s (retry_after seconds, s') = (c : String) → active c s' ≡ active c s
IsAcquired client s (admitted, s') =
    (active client s ≡ 0) × ((c : String) → active c s' ≡ (if client == c then 1 else active c s))

settle-IsAcquired :
    (client : String) (u : ClientUsage) (s s' : Reception) (a : Admission)
    → s'.client_usage ≡ s.client_usage
    → u.active_requests ≡ active client s
    → (a ≡ admitted → u.active_requests ≡ 0)
    → IsAcquired client s (settle client u s' a)
unfolding settle counted
settle-IsAcquired client u s s' (retry_after seconds) e k idle = λ c.
    ap (λ d. active_of (Dict.get (keep_usage client u d) c)) e
    ∙ active_of-keep s.client_usage client c u k
settle-IsAcquired client u s s' admitted e k idle = (
  sym k ∙ idle refl,
  λ c.
      ap (λ d. active_of (Dict.get (Dict.set d client (counted u)) c)) e
      ∙ active_of-set s.client_usage client c (counted u)
      ∙ ap (λ n. if client == c then n else active c s) (let z = idle refl in ground arith),
)

acquire_request-IsAcquired :
    (l : Limits) (now : ℕ) (client : String) (s : Reception)
    → IsAcquired client s (acquire_request l now client s)
unfolding acquire_request
acquire_request-IsAcquired l now client s =
    let u =
      roll_day (utc_day now) (roll_minute now (usage_of now (Dict.get s.client_usage client))) in
    let s' = roll_global (utc_day now) s in
    settle-IsAcquired client u s s' (admission l now u s'.global_requests)
      (roll_global-usage (utc_day now) s) (roll-active now (Dict.get s.client_usage client))
      (admission-idle l now u s'.global_requests)

released-active :
    (client c : String) (o : Option ClientUsage) (d : Dict.Dict ClientUsage)
    → Dict.get d client ≡ o
    → active_of (Dict.get (released o client d) c)
      ≡ (if client == c then active_of (Dict.get d c) - 1 else active_of (Dict.get d c))
unfolding released
released-active client c none d e = elim (Bool-cases (client == c)) [
  | inl t ↦
      let z = ap active_of (ap (Dict.get d) (sym ((eq_iff client c).0 t)) ∙ e) in
      rw t (omega (arith, z))
  | inr f ↦ rw f refl
]
released-active client c (some u) d e =
    active_of-set d client c (record u { active_requests = u.active_requests - 1 })
    ∙ elim (Bool-cases (client == c)) [
      | inl t ↦
          let z = ap active_of (ap (Dict.get d) (sym ((eq_iff client c).0 t)) ∙ e) in
          rw t (omega (arith, z))
      | inr f ↦ rw f refl
    ]

release-active :
    (client c : String) (s : Reception)
    → active c (release client s) ≡ (if client == c then active c s - 1 else active c s)
unfolding release
release-active client c s =
    released-active client c (Dict.get s.client_usage client) s.client_usage refl

-- what a request that begins changes
abbrev pub IsBegun : Reception → Begun × Reception → Type 0
IsBegun s (ended reply, s') = (c : String) → active c s' ≡ active c s
IsBegun s (asks f, s') =
    (active f.client s ≡ 0)
    × ((c : String) → active c s' ≡ (if f.client == c then 1 else active c s))

-- a request that is let in and answered at once is closed again
release-after :
    (f : Flight) (s s' s'' : Reception)
    → IsAcquired f.client s (admitted, s')
    → s''.client_usage ≡ s'.client_usage
    → (c : String) → active c (release f.client s'') ≡ active c s
release-after f s s' s'' h e c = release-active f.client c s'' ∙ elim (Bool-cases (f.client == c)) [
  | inl t ↦
      let was = ap (λ j. active j s) (sym ((eq_iff f.client c).0 t)) ∙ h.0 in
      let now : active c s' ≡ 1 = h.1 c ∙ rw t refl in
      let same = ap (λ d. active_of (Dict.get d c)) e in rw t (omega (arith, was, now, same))
  | inr n ↦ rw n (ap (λ d. active_of (Dict.get d c)) e ∙ h.1 c ∙ rw n refl)
]

answer_or_ask-IsBegun :
    (configured : Bool) (f : Flight) (reply : _) (s s' : Reception)
    → IsAcquired f.client s (admitted, s')
    → IsBegun s (answer_or_ask configured f reply s')
unfolding answer_or_ask
answer_or_ask-IsBegun configured f (some reply) s s' h = release-after f s s' _ h refl
answer_or_ask-IsBegun true f none s s' h = h
answer_or_ask-IsBegun false f none s s' h = release-after f s s' s' h refl

let_in-IsBegun :
    (now : ℕ) (configured : Bool) (f : Flight) (s : Reception) (r : Admission × Reception)
    → IsAcquired f.client s r
    → IsBegun s (let_in now configured f r)
unfolding let_in
let_in-IsBegun now configured f s (retry_after seconds, s') h = h
let_in-IsBegun now configured f s (admitted, s') h =
    answer_or_ask-IsBegun configured f (cached_reply now f.cache_key s') s s' h

pub begin_chat-IsBegun :
    (l : Limits) (now : ℕ) (configured : Bool) (client : String) (message : Option String)
    (history : List ReceptionTurn) (s : Reception)
    → IsBegun s (begin_chat l now configured client message history s)
unfolding begin_chat flight_of
begin_chat-IsBegun l now configured client none history s = λ c. refl
begin_chat-IsBegun l now configured client (some text) history s =
    elim (Bool-cases (is_bad (some text))) [
      | inl t ↦ rw t (λ c. refl)
      | inr f ↦ rw f (
          let_in-IsBegun now configured (flight_of client text history) s
            (acquire_request l now client s) (acquire_request-IsAcquired l now client s))
    ]

put_reply-usage :
    (now : ℕ) (key : Option String) (reply : ReceptionReply) (s : Reception)
    → (put_reply now key reply s).client_usage ≡ s.client_usage
unfolding put_reply
put_reply-usage now none reply s = refl
put_reply-usage now (some key) reply s = refl

pub finish_chat-active :
    (now : ℕ) (f : Flight) (a : Answer) (s : Reception) (c : String)
    → active c (finish_chat now f a s).1 ≡ (if f.client == c then active c s - 1 else active c s)
unfolding finish_chat
finish_chat-active now f no_answer s c = release-active f.client c s
finish_chat-active now f unreadable s c = release-active f.client c s
finish_chat-active now f (parsed reply) s c =
    release-active f.client c (put_reply now f.cache_key _ s)
    ∙ ap (λ d. if f.client == c then active_of (Dict.get d c) - 1 else active_of (Dict.get d c))
        (put_reply-usage now f.cache_key _ s)

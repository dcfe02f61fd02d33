-- ===== src/Reception/Traffic.antt =====
-- src/reception/publicReceptionRouter.ts: requests that overlap, in any order.
pub mod Effects
pub mod Flights
pub mod Counters
pub mod Budget
use sera_core.Prelude.{
  ℕ, ◌+◌, String, Bool, true, false, ◌&&◌, ◌==◌, Option, none, some, List, [], ◌∷◌, if◌then◌else◌,
  nat_eq,
}
use sera_core.Reception.{Limits, Reception, utc_day}
use sera_core.Reception.Question.{ReceptionTurn}
use sera_core.Reception.Chat.{Flight, Begun, ended, asks, Answer, begin_chat, finish_chat}

-- the router, the requests that wait for the provider, and the day and the client of each call of
-- the provider, the latest first
pub record System : Type 0 where
  pub reception : Reception
  pub flights : List Flight
  pub asked : List (ℕ × String)

pub data Event : Type 0 where
  begins :
      (now : ℕ) (configured : Bool) (client : String) (message : Option String)
      (history : List ReceptionTurn)
      → Event
  answers : (now : ℕ) (client : String) (a : Answer) → Event

abbrev pub empty_system : System
empty_system = record {
  reception = record {
    client_usage = [];
    public_reply_cache = [];
    global_day = none;
    global_requests = 0;
  };
  flights = [];
  asked = [];
}

unfoldable pub put_back : Flight → Option (Flight × List Flight) → Option (Flight × List Flight)
put_back f none = none
put_back f (some (g, gs)) = some (g, f ∷ gs)

-- the first request of a client that waits, and the others
unfoldable pub take_flight : String → List Flight → Option (Flight × List Flight)
take_flight client [] = none
take_flight client (f ∷ fs) =
    let rest = put_back f (take_flight client fs) in
    if f.client == client then some (f, fs) else rest

unfoldable pub begun : ℕ → System → Begun × Reception → System
begun now y (ended reply, s) = record y { reception = s }
begun now y (asks f, s) = record {
  reception = s;
  flights = f ∷ y.flights;
  asked = (utc_day now, f.client) ∷ y.asked;
}

unfoldable pub answered : ℕ → Answer → System → Option (Flight × List Flight) → System
answered now a y none = y
answered now a y (some (f, fs)) = record y {
  reception = (finish_chat now f a y.reception).1;
  flights = fs;
}

unfoldable pub run_event : Limits → Event → System → System
run_event l (begins now configured client message history) y =
    begun now y (begin_chat l now configured client message history y.reception)
run_event l (answers now client a) y = answered now a y (take_flight client y.flights)

unfoldable pub run_events : Limits → List Event → System → System
run_events l [] y = y
run_events l (e ∷ es) y = run_events l es (run_event l e y)

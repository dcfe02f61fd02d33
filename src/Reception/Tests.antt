-- ===== src/Reception/Tests.antt =====
-- Runs of the public chat, and each theorem at an input.
use sera_core.Prelude.{◌≤◌, ◌≡◌, refl, true, some, List, [], ◌∷◌, arith, drop, filter}
use sera_core.Dict
use sera_core.Text.{to_lower, lower_char, trim, trim_start, trim_end, text_length, take_text}
use sera_core.Reception
use sera_core.Reception.{Limits, ReceptionReply}
use sera_core.Reception.Question
use sera_core.Reception.Question.{ReceptionTurn, user_role}
use sera_core.Reception.Chat
use sera_core.Reception.Chat.{
  ChatReply, Begun, ended, asks, busy, replied, parsed, no_answer, begin_chat,
}
use sera_core.Reception.Traffic
use sera_core.Reception.Traffic.{Event, begins, answers, empty_system, run_event, run_events}
use sera_core.Reception.Traffic.Effects.{active, waiting}
use sera_core.Reception.Traffic.Flights.{run_events-one_flight}
use sera_core.Reception.Traffic.Budget.{calls, run_events-budget}

code : Unit {0}
unfolding to_lower lower_char trim trim_start trim_end text_length take_text Dict.get Dict.set drop
    filter Reception.usage_of Reception.roll_minute Reception.roll_day Reception.is_today
    Reception.roll_global Reception.admission Reception.keep_usage Reception.counted
    Reception.settle Reception.acquire_request Reception.released Reception.release Question.is_turn
    Question.cut_turn Question.temporary_session_history Question.starts_blank Question.collapse
    Question.is_launch_request Question.visual_for_public_question Chat.is_bad Chat.cache_key_of
    Chat.fresh_reply Chat.cached_reply Chat.answer_or_ask Chat.let_in Chat.flight_of Chat.begin_chat
    Chat.put_reply Chat.finish_chat Traffic.put_back Traffic.take_flight Traffic.begun
    Traffic.answered run_event run_events
code = tt

abbrev limits : Limits
limits = record { per_minute = 10; per_day = 50; daily_budget = 2 }

abbrev introduction : ReceptionReply
introduction = record {
  visual = "introduction";
  label = "";
  response = "SERA prepares proposals.";
  suggested_questions = [];
}

abbrev visits : List Event
visits =
    begins 1000 true "ann" (some "What is   SERA?") []
    ∷ begins 1100 true "ann" (some "and then?") []
    ∷ answers 2000 "ann" (parsed introduction)
    ∷ begins 3000 true "bob" (some " what is SERA? ") []
    ∷ begins 4000 true "bob" (some "How do I pay?") []
    ∷ []

-- ann's second question is refused, bob's first is answered from the cache
visits-asked : (run_events limits visits empty_system).asked ≡ (0, "bob") ∷ (0, "ann") ∷ []
unfolding code
visits-asked = refl

-- the budget of two calls is spent, and the next day it is there again
third_refused :
    (begin_chat limits 5000 true "cem"
      (some "How do I pay?")
      []
      (run_events limits visits empty_system).reception).0
    ≡ ended (busy 3600)
unfolding code
third_refused = refl

next_day :
    (run_events limits
      (begins 86400000 true "cem" (some "How do I pay?") [] ∷ [])
      (run_events limits visits empty_system)).asked
    ≡ (1, "cem") ∷ (0, "bob") ∷ (0, "ann") ∷ []
unfolding code
next_day = refl

run_events-one_flight_example :
    (waiting "bob" (run_events limits visits empty_system).flights ≤ 1)
    × (active "bob" (run_events limits visits empty_system).reception
        ≡ waiting "bob" (run_events limits visits empty_system).flights)
run_events-one_flight_example = run_events-one_flight limits visits "bob"

run_events-budget_example : calls 0 (run_events limits visits empty_system).asked ≤ 2
run_events-budget_example =
    run_events-budget limits 0 visits 0
      (omega arith, (omega arith, (omega arith, (omega arith, (omega arith, tt)))))

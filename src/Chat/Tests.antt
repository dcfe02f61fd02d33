-- ===== src/Chat/Tests.antt =====
-- Runs of the chat history, and each theorem at an input.
use sera_core.Prelude.{
  ℕ, ◌-◌, ◌≤◌, ◌≡◌, refl, true, none, some, List, [], ◌∷◌, length, take, drop, get_or, All, arith,
}
use sera_core.Dict
use sera_core.Dict.{Dict}
use sera_core.Text.{trim, trim_start, trim_end}
use sera_core.Chat
use sera_core.Chat.{
  UiMessage, PlatformTurn, ChatHistoryState, ChatSnapshot, ChatHistoryStore, user_turn,
  assistant_turn, agent, append_ui_message, get_platform_turns, new_chat_history,
  max_platform_turns, max_ui_messages, max_detailed_turns,
}
use sera_core.Chat.Shift.{last}
use sera_core.Chat.History.{
  Command, appends_turn, appends_message, loads, migrates, clears, run_command, run_commands,
}
use sera_core.Chat.History.Turns.{given, all_given, AllShort, get_platform_turns-last}
use sera_core.Chat.History.Bounds.{IsBounded, HasNoDetails, messages-IsBounded}

code : Unit {0}
unfolding trim trim_start trim_end Dict.get Dict.set Dict.merge Dict.override drop take
    Chat.shift_to Chat.loaded_messages Chat.load_local Chat.new_chat_history Chat.save_local
    Chat.sync_messages Chat.load_cloud_messages Chat.load_cloud_turns Chat.load_from_cloud
    Chat.get_platform_turns Chat.append_platform_turn Chat.is_same_message Chat.merge_message
    Chat.put_message Chat.pruned Chat.prune_message Chat.prune_before Chat.prune_older
    Chat.append_ui_message Chat.migrate_from Chat.set_status Chat.update_first
    Chat.update_proposal_status Chat.clear run_command run_commands given all_given
code = tt

abbrev question : PlatformTurn
question = record { role = user_turn; content = "hello"; timestamp = some 5 }

abbrev answer : PlatformTurn
answer = record { role = assistant_turn; content = "hi"; timestamp = some 7 }

abbrev snapshot : ChatSnapshot
snapshot = record {
  ui_messages = none;
  platform_messages = some (("whatsapp:62", question ∷ []) ∷ ("web:1", question ∷ []) ∷ []);
}

abbrev turns : List Command
turns =
    appends_turn 1 "web" "1" user_turn "dropped by the clear"
    ∷ clears
    ∷ loads (some snapshot)
    ∷ appends_turn 6 "web" "1" user_turn "  "
    ∷ appends_turn 7 "web" "1" assistant_turn "hi"
    ∷ []

abbrev fresh_history : ChatHistoryStore
fresh_history = new_chat_history true none

turns_run : get_platform_turns "web:1" (run_commands turns fresh_history) ≡ question ∷ answer ∷ []
unfolding code
turns_run = refl

-- two channels whose keys are one share their turns
shared_key :
    get_platform_turns "a:b:c" (
      run_commands
        (appends_turn 5 "a:b" "c" user_turn "hello"
          ∷ appends_turn 7 "a" "b:c" assistant_turn "hi"
          ∷ [])
        fresh_history)
    ≡ question ∷ answer ∷ []
unfolding code
shared_key = refl

fresh_has_none : Dict.get fresh_history.turns "web:1" ≡ none
unfolding code
fresh_has_none = refl

turns-AllShort : AllShort "web:1" turns
unfolding code
turns-AllShort = (omega arith, tt)

get_platform_turns-last_example :
    get_platform_turns "web:1" (run_commands turns fresh_history)
    ≡ last max_platform_turns (get_or (all_given "web:1" turns none) [])
get_platform_turns-last_example =
    get_platform_turns-last "web:1" turns fresh_history fresh_has_none turns-AllShort

abbrev report : ℕ → UiMessage
report id = record {
  id = id;
  client_message_id = none;
  role = some agent;
  type = none;
  content = some "done";
  images = none;
  documents = none;
  proposal = none;
  action_links = none;
  observations = some ("seen" ∷ []);
  cognitive_steps = some [];
  duration_seconds = some 3;
  had_tools = some true;
}

abbrev reports : List Command
reports =
    migrates (report 1 ∷ report 2 ∷ report 3 ∷ report 4 ∷ report 5 ∷ report 6 ∷ [])
    ∷ appends_message (report 7)
    ∷ []

-- the observations of the oldest of seven messages are dropped
oldest_pruned :
    take 1 (run_commands reports fresh_history).messages
    ≡ record (report 1) { observations = none } ∷ []
unfolding code
oldest_pruned = refl

-- a file as a save has written it
abbrev old_file : ChatHistoryState
old_file = record { ui_messages = report 0 ∷ []; platform_messages = none }

messages-IsBounded_example :
    IsBounded (run_commands reports (new_chat_history true (some old_file)))
    × ((msg : UiMessage)
        → let ms =
            (append_ui_message msg
              (run_commands reports (new_chat_history true (some old_file)))).messages in
          (length ms ≤ max_ui_messages)
          × All HasNoDetails (take (length ms - max_detailed_turns) ms))
messages-IsBounded_example = messages-IsBounded true (some old_file) reports (omega arith, tt)

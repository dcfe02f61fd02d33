-- ===== src/Chat/History.antt =====
-- src/capabilities/dialogue/ChatHistoryStore.ts: calls of the store in a sequence.
pub mod Turns
pub mod Bounds
use sera_core.Prelude.{ℕ, String, Bool, Option, List, [], ◌∷◌}
use sera_core.Chat.{
  UiMessage, TurnRole, ProposalStatus, ChatSnapshot, ChatHistoryStore, load_from_cloud,
  append_platform_turn, append_ui_message, migrate_from, update_proposal_status, clear,
}

pub data Command : Type 0 where
  appends_turn :
      (now : ℕ) (platform channel_id : String) (role : TurnRole) (content : String) → Command
  appends_message : (msg : UiMessage) → Command
  loads : (snapshot : Option ChatSnapshot) → Command
  migrates : (source : List UiMessage) → Command
  updates_status : (proposal_id : String) (status : ProposalStatus) → Command
  clears : Command

unfoldable pub run_command : Command → ChatHistoryStore → ChatHistoryStore
run_command (appends_turn now platform channel_id role content) s =
    append_platform_turn now platform channel_id role content s
run_command (appends_message msg) s = append_ui_message msg s
run_command (loads snapshot) s = load_from_cloud snapshot s
run_command (migrates source) s = (migrate_from source s).1
run_command (updates_status proposal_id status) s = update_proposal_status proposal_id status s
run_command clears s = clear s

unfoldable pub run_commands : List Command → ChatHistoryStore → ChatHistoryStore
run_commands [] s = s
run_commands (c ∷ cs) s = run_commands cs (run_command c s)

-- ===== src/Chat/State.antt =====
-- src/capabilities/dialogue/ChatHistoryStore.ts: the messages, the turns and the state of the store.
use sera_core.Prelude.{ℕ, String, Bool, Option, List}
use sera_core.Dict.{Dict}

pub data UiRole : Type 0 where
  user : UiRole
  agent : UiRole

pub data ProposalStatus : Type 0 where
  waiting : ProposalStatus
  approved : ProposalStatus
  rejected : ProposalStatus

-- of a proposal, what the store reads and writes
pub record ChatProposal : Type 0 where
  pub proposal_id : String
  pub status : ProposalStatus

-- an optional field is `none` where the object lacks it
pub record UiMessage : Type 0 where
  pub id : ℕ
  pub client_message_id : Option String
  pub role : Option UiRole
  pub type : Option String
  pub content : Option String
  pub images : Option (List String)
  pub documents : Option (List String)
  pub proposal : Option ChatProposal
  pub action_links : Option (List (String × String))
  pub observations : Option (List String)
  pub cognitive_steps : Option (List String)
  pub duration_seconds : Option ℕ
  pub had_tools : Option Bool

pub data TurnRole : Type 0 where
  user_turn : TurnRole
  assistant_turn : TurnRole

pub record PlatformTurn : Type 0 where
  pub role : TurnRole
  pub content : String
  pub timestamp : Option ℕ

-- what the file holds: every save writes a list of messages, and the type has one
pub record ChatHistoryState : Type 0 where
  pub ui_messages : List UiMessage
  pub platform_messages : Option (Dict (List PlatformTurn))

-- what the store reads of a snapshot of the cloud, which others write as well
pub record ChatSnapshot : Type 0 where
  pub ui_messages : Option (List UiMessage)
  pub platform_messages : Option (Dict (List PlatformTurn))

pub record ChatHistoryStore : Type 0 where
  pub messages : List UiMessage
  pub turns : Dict (List PlatformTurn)
  pub persist_locally : Bool
  pub file : Option ChatHistoryState

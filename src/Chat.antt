-- ===== src/Chat.antt =====
-- src/capabilities/dialogue/ChatHistoryStore.ts: the messages of a session's chat and the turns of its
-- other channels, kept in a file and in a snapshot in the cloud. `file` is what `writeFileSync` has
-- written; a file that holds no list of messages, which the type of the state does not allow and no
-- save writes, is left out, as are `session` and the paths. The answer of the cloud to a load is an
-- argument; a save to it is a function of the snapshot that is there when the store answers. Messages
-- are values: that a migration shares the objects of the messages with its source is left out.
mod State
pub mod History
pub mod Shift
mod Tests
unfoldable pub use State.*
use sera_core.Prelude.{
  ℕ, zero, suc, ◌-◌, String, Bool, true, false, not, ◌&&◌, ◌||◌, Option, none, some, List, [], ◌∷◌,
  ◌++◌, ◌==◌, if◌then◌else◌, is_empty, is_text, is_some, get_or, any, filter, length, drop, ltb,
  nat_eq, map, truthy,
}
use sera_core.Dict
use sera_core.Dict.{Dict}
use sera_core.Text.{trim}
use Prim.Native.String.append
use Prim.Native.String

abbrev pub max_ui_messages : ℕ
max_ui_messages = 30

abbrev pub max_detailed_turns : ℕ
max_detailed_turns = 6

abbrev pub max_platform_turns : ℕ
max_platform_turns = 20

-- `while (xs.length > n) xs.shift()`
unfoldable pub shift_to {ℓ} : {A : Type ℓ} → ℕ → List A → List A
shift_to n [] = []
shift_to n (x ∷ xs) = let rest = shift_to n xs in if ltb n (length (x ∷ xs)) then rest else x ∷ xs

abbrev pub is_activity : UiMessage → Bool
is_activity m = is_text m.type "activity"

-- the messages that a load keeps: no activity, and the last ones of the rest
unfoldable pub loaded_messages : List UiMessage → List UiMessage
loaded_messages ms =
    let kept = filter (λ m. not (is_activity m)) ms in drop (length kept - max_ui_messages) kept

-- `none` is no file, or one that does not parse
unfoldable pub load_local : Option ChatHistoryState → List UiMessage × Dict (List PlatformTurn)
load_local none = ([], [])
load_local (some state) = (loaded_messages state.ui_messages, get_or state.platform_messages [])

unfoldable pub new_chat_history : Bool → Option ChatHistoryState → ChatHistoryStore
new_chat_history persist_locally file =
    let state = load_local file in
    record { messages = state.0; turns = state.1; persist_locally = persist_locally; file = file }

unfoldable pub save_local : ChatHistoryStore → ChatHistoryStore
save_local s =
    if s.persist_locally
    then record s {
      file = some (record { ui_messages = s.messages; platform_messages = some s.turns });
    }
    else s

-- the snapshot after a save, of which other fields are left out
unfoldable pub save_cloud : ChatHistoryStore → ChatSnapshot → ChatSnapshot
save_cloud s snapshot = record { ui_messages = some s.messages; platform_messages = some s.turns }

-- whether the cloud's messages replace the store's
unfoldable pub sync_messages : List UiMessage → List UiMessage → Bool
sync_messages cloud messages =
    ltb 0 (length cloud)
    && (nat_eq (length messages) 0 || not (ltb (length cloud) (length messages)))

unfoldable pub load_cloud_messages : Option (List UiMessage) → ChatHistoryStore → ChatHistoryStore
load_cloud_messages none s = s
load_cloud_messages (some ms) s =
    let cloud = loaded_messages ms in
    if sync_messages cloud s.messages then save_local (record s { messages = cloud }) else s

unfoldable pub load_cloud_turns :
    Option (Dict (List PlatformTurn)) → ChatHistoryStore → ChatHistoryStore
load_cloud_turns none s = s
load_cloud_turns (some cloud) s = save_local (record s { turns = Dict.merge cloud s.turns })

-- `none` is a cloud without a snapshot, or a failure
unfoldable pub load_from_cloud : Option ChatSnapshot → ChatHistoryStore → ChatHistoryStore
load_from_cloud none s = s
load_from_cloud (some snapshot) s =
    load_cloud_turns snapshot.platform_messages (load_cloud_messages snapshot.ui_messages s)

unfoldable pub get_platform_turns : String → ChatHistoryStore → List PlatformTurn
get_platform_turns key s = get_or (Dict.get s.turns key) []

abbrev pub is_blank : String → Bool
is_blank content = is_empty content || is_empty (trim content)

abbrev pub channel_key : String → String → String
channel_key platform channel_id =
    Prim.Native.String.◌++◌ platform (Prim.Native.String.◌++◌ ":" channel_id)

unfoldable pub append_platform_turn :
    ℕ → String → String → TurnRole → String → ChatHistoryStore → ChatHistoryStore
append_platform_turn now platform channel_id role content s =
    if is_blank content
    then s
    else (let key = channel_key platform channel_id in
        let turn : PlatformTurn = record { role = role; content = content; timestamp = some now } in
        save_local (record s {
          turns =
              Dict.set s.turns key
                (shift_to max_platform_turns (get_or (Dict.get s.turns key) [] ++ turn ∷ []));
        }))

-- the client's id, where the message has one, or the id
unfoldable pub is_same_message : UiMessage → UiMessage → Bool
is_same_message msg m =
    (elim (truthy msg.client_message_id) [
      | none ↦ false
      | some client ↦ is_text m.client_message_id client
    ])
    || nat_eq m.id msg.id

abbrev pub newer {ℓ} : {A : Type ℓ} → Option A → Option A → Option A
newer old none = old
newer old (some x) = some x

-- `{ ...old, ...msg }`
unfoldable pub merge_message : UiMessage → UiMessage → UiMessage
merge_message old msg = record {
  id = msg.id;
  client_message_id = newer old.client_message_id msg.client_message_id;
  role = newer old.role msg.role;
  type = newer old.type msg.type;
  content = newer old.content msg.content;
  images = newer old.images msg.images;
  documents = newer old.documents msg.documents;
  proposal = newer old.proposal msg.proposal;
  action_links = newer old.action_links msg.action_links;
  observations = newer old.observations msg.observations;
  cognitive_steps = newer old.cognitive_steps msg.cognitive_steps;
  duration_seconds = newer old.duration_seconds msg.duration_seconds;
  had_tools = newer old.had_tools msg.had_tools;
}

-- the first message that is the same is replaced, or else the message is added at the end
unfoldable pub put_message : UiMessage → List UiMessage → List UiMessage
put_message msg [] = msg ∷ []
put_message msg (m ∷ ms) =
    let rest = put_message msg ms in
    if is_same_message msg m then merge_message m msg ∷ ms else m ∷ rest

-- `delete` of a list that has entries
unfoldable pub pruned : Option (List String) → Option (List String)
pruned none = none
pruned (some []) = some []
pruned (some (x ∷ xs)) = none

unfoldable pub prune_message : UiMessage → UiMessage
prune_message m = record m {
  observations = pruned m.observations;
  cognitive_steps = pruned m.cognitive_steps;
}

-- the messages before an index
unfoldable pub prune_before : ℕ → List UiMessage → List UiMessage
prune_before zero ms = ms
prune_before (suc n) [] = []
prune_before (suc n) (m ∷ ms) = prune_message m ∷ prune_before n ms

unfoldable pub prune_older : List UiMessage → List UiMessage
prune_older ms = prune_before (length ms - max_detailed_turns) ms

unfoldable pub append_ui_message : UiMessage → ChatHistoryStore → ChatHistoryStore
append_ui_message msg s =
    save_local
      (record s { messages = prune_older (shift_to max_ui_messages (put_message msg s.messages)) })

unfoldable pub migrate_from : List UiMessage → ChatHistoryStore → Bool × ChatHistoryStore
migrate_from [] s = (false, s)
migrate_from (m ∷ ms) s =
    if nat_eq (length s.messages) 0
    then (true, save_local (record s { messages = m ∷ ms }))
    else (false, s)

abbrev pub has_proposal : String → UiMessage → Bool
has_proposal proposal_id m = elim m.proposal [
  | none ↦ false
  | some p ↦ p.proposal_id == proposal_id
]

unfoldable pub set_status : ProposalStatus → Option ChatProposal → Option ChatProposal
set_status status none = none
set_status status (some p) = some (record p { status = status })

-- the first message with the proposal
unfoldable pub update_first : String → ProposalStatus → List UiMessage → List UiMessage
update_first proposal_id status [] = []
update_first proposal_id status (m ∷ ms) =
    let rest = update_first proposal_id status ms in
    if has_proposal proposal_id m
    then record m { proposal = set_status status m.proposal } ∷ ms
    else m ∷ rest

unfoldable pub update_proposal_status :
    String → ProposalStatus → ChatHistoryStore → ChatHistoryStore
update_proposal_status proposal_id status s =
    if any (has_proposal proposal_id) s.messages
    then save_local (record s { messages = update_first proposal_id status s.messages })
    else s

unfoldable pub clear : ChatHistoryStore → ChatHistoryStore
clear s = save_local (record s { messages = []; turns = [] })

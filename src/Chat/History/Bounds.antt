-- ===== src/Chat/History/Bounds.antt =====
-- ChatHistoryStore.ts: how many messages there are, and which of them have details.
use sera_core.Prelude.{
  ℕ, zero, suc, ◌-◌, ◌≤◌, ◌≡◌, refl, ap, String, Bool, Option, none, some, List, [], ◌∷◌, filter,
  not, length, take, length-drop, All, arith,
}
use sera_core.Chat.{
  UiMessage, ProposalStatus, ChatHistoryState, ChatSnapshot, ChatHistoryStore, save_local,
  loaded_messages, is_activity, load_cloud_messages, load_cloud_turns, load_from_cloud, load_local,
  new_chat_history, append_platform_turn, append_ui_message, migrate_from, update_proposal_status,
  update_first, clear, pruned, prune_message, prune_before, prune_older, put_message, shift_to,
  max_ui_messages, max_detailed_turns,
}
use sera_core.Chat.Shift.{length-shift_to-le}
use sera_core.Chat.History.{
  Command, appends_turn, appends_message, loads, migrates, updates_status, clears, run_command,
  run_commands,
}

-- a list that is absent or empty
abbrev pub IsBare : Option (List String) → Type 0
IsBare none = Unit
IsBare (some []) = Unit
IsBare (some (x ∷ xs)) = ⊥

abbrev pub HasNoDetails : UiMessage → Type 0
HasNoDetails m = IsBare m.observations × IsBare m.cognitive_steps

pruned-IsBare : (o : Option (List String)) → IsBare (pruned o)
unfolding pruned
pruned-IsBare none = tt
pruned-IsBare (some []) = tt
pruned-IsBare (some (x ∷ xs)) = tt

prune_message-HasNoDetails : (m : UiMessage) → HasNoDetails (prune_message m)
unfolding prune_message
prune_message-HasNoDetails m = (pruned-IsBare m.observations, pruned-IsBare m.cognitive_steps)

length-prune_before : (n : ℕ) (ms : List UiMessage) → length (prune_before n ms) ≡ length ms
unfolding prune_before
length-prune_before zero ms = refl
length-prune_before (suc n) [] = refl
length-prune_before (suc n) (m ∷ ms) = ap suc (length-prune_before n ms)

prune_before-bare : (n : ℕ) (ms : List UiMessage) → All HasNoDetails (take n (prune_before n ms))
unfolding prune_before take
prune_before-bare zero ms = tt
prune_before-bare (suc n) [] = tt
prune_before-bare (suc n) (m ∷ ms) = (prune_message-HasNoDetails m, prune_before-bare n ms)

prune_older-bare :
    (ms : List UiMessage)
    → All HasNoDetails (take (length (prune_older ms) - max_detailed_turns) (prune_older ms))
unfolding prune_older
prune_older-bare ms =
    rw (length-prune_before (length ms - max_detailed_turns) ms)
      (prune_before-bare (length ms - max_detailed_turns) ms)

-- there are at most as many messages as the store keeps
abbrev pub IsBounded : ChatHistoryStore → Type 0
IsBounded s = length s.messages ≤ max_ui_messages

-- a migration is from a store that is bounded as well
abbrev pub AllBounded : List Command → Type 0
AllBounded [] = Unit
AllBounded (migrates source ∷ cs) = (length source ≤ max_ui_messages) × AllBounded cs
AllBounded (c ∷ cs) = AllBounded cs

save_local-messages : (s : ChatHistoryStore) → (save_local s).messages ≡ s.messages
unfolding save_local
save_local-messages s = ground arith

length-loaded_messages : (ms : List UiMessage) → length (loaded_messages ms) ≤ max_ui_messages
unfolding loaded_messages
length-loaded_messages ms =
    let kept = filter (λ m. not (is_activity m)) ms in
    omega (arith, length-drop (length kept - max_ui_messages) kept)

load_cloud_messages-IsBounded :
    (ms : Option (List UiMessage)) (s : ChatHistoryStore)
    → IsBounded s
    → IsBounded (load_cloud_messages ms s)
unfolding load_cloud_messages save_local
load_cloud_messages-IsBounded none s h = h
load_cloud_messages-IsBounded (some ms) s h = ground (arith, length-loaded_messages ms)

load_cloud_turns-messages :
    (turns : _) (s : ChatHistoryStore) → (load_cloud_turns turns s).messages ≡ s.messages
unfolding load_cloud_turns
load_cloud_turns-messages none s = refl
load_cloud_turns-messages (some cloud) s = save_local-messages _

load_from_cloud-IsBounded :
    (snapshot : Option ChatSnapshot) (s : ChatHistoryStore)
    → IsBounded s
    → IsBounded (load_from_cloud snapshot s)
unfolding load_from_cloud
load_from_cloud-IsBounded none s h = h
load_from_cloud-IsBounded (some snapshot) s h =
    rw (load_cloud_turns-messages snapshot.platform_messages _)
      (load_cloud_messages-IsBounded snapshot.ui_messages s h)

append_ui_message-messages :
    (msg : UiMessage) (s : ChatHistoryStore)
    → (append_ui_message msg s).messages
      ≡ prune_older (shift_to max_ui_messages (put_message msg s.messages))
unfolding append_ui_message
append_ui_message-messages msg s = save_local-messages _

append_ui_message-IsBounded :
    (msg : UiMessage) (s : ChatHistoryStore) → IsBounded (append_ui_message msg s)
unfolding prune_older
append_ui_message-IsBounded msg s =
    let ms = shift_to max_ui_messages (put_message msg s.messages) in
    rw (append_ui_message-messages msg s, length-prune_before (length ms - max_detailed_turns) ms)
      (length-shift_to-le max_ui_messages (put_message msg s.messages))

append_platform_turn-messages :
    (now : ℕ) (platform channel_id : String) (role : _) (content : String) (s : ChatHistoryStore)
    → (append_platform_turn now platform channel_id role content s).messages ≡ s.messages
unfolding append_platform_turn save_local
append_platform_turn-messages now platform channel_id role content s = ground arith

length-update_first :
    (id : String) (status : ProposalStatus) (ms : List UiMessage)
    → length (update_first id status ms) ≡ length ms
unfolding update_first
length-update_first id status [] = refl
length-update_first id status (m ∷ ms) = ground (arith, length-update_first id status ms)

update_proposal_status-IsBounded :
    (id : String) (status : ProposalStatus) (s : ChatHistoryStore)
    → IsBounded s
    → IsBounded (update_proposal_status id status s)
unfolding update_proposal_status save_local
update_proposal_status-IsBounded id status s h =
    ground (arith, length-update_first id status s.messages)

migrate_from-IsBounded :
    (source : List UiMessage) (s : ChatHistoryStore)
    → length source ≤ max_ui_messages
    → IsBounded s
    → IsBounded (migrate_from source s).1
unfolding migrate_from save_local
migrate_from-IsBounded [] s k h = h
migrate_from-IsBounded (m ∷ ms) s k h = ground arith

new-IsBounded :
    (persist : Bool) (file : Option ChatHistoryState) → IsBounded (new_chat_history persist file)
unfolding new_chat_history load_local
new-IsBounded persist none = omega arith
new-IsBounded persist (some state) = length-loaded_messages _

run_commands-IsBounded :
    (cs : List Command) (s : ChatHistoryStore)
    → AllBounded cs
    → IsBounded s
    → IsBounded (run_commands cs s)
unfolding run_commands run_command clear
run_commands-IsBounded [] s h k = k
run_commands-IsBounded (appends_turn now platform channel_id role content ∷ cs) s h k =
    run_commands-IsBounded cs _ h
      (rw (append_platform_turn-messages now platform channel_id role content s) k)
run_commands-IsBounded (appends_message msg ∷ cs) s h k =
    run_commands-IsBounded cs _ h (append_ui_message-IsBounded msg s)
run_commands-IsBounded (loads snapshot ∷ cs) s h k =
    run_commands-IsBounded cs _ h (load_from_cloud-IsBounded snapshot s k)
run_commands-IsBounded (migrates source ∷ cs) s h k =
    run_commands-IsBounded cs _ h.1 (migrate_from-IsBounded source s h.0 k)
run_commands-IsBounded (updates_status id status ∷ cs) s h k =
    run_commands-IsBounded cs _ h (update_proposal_status-IsBounded id status s k)
run_commands-IsBounded (clears ∷ cs) s h k =
    run_commands-IsBounded cs _ h (rw (save_local-messages _) (omega arith))

-- A store that is opened without a file, or on one that holds a list of messages of any length, has at
-- most thirty messages after any calls whose migrations bring at most thirty; and once a message is added, all messages but the last six have neither
-- observations nor steps, whatever loads and migrations brought.
pub messages-IsBounded :
    (persist : Bool) (file : Option ChatHistoryState) (cs : List Command)
    → AllBounded cs
    → IsBounded (run_commands cs (new_chat_history persist file))
      × ((msg : UiMessage)
          → let ms =
              (append_ui_message msg (run_commands cs (new_chat_history persist file))).messages in
            (length ms ≤ max_ui_messages)
            × All HasNoDetails (take (length ms - max_detailed_turns) ms))
messages-IsBounded persist file cs h =
    let s = run_commands cs (new_chat_history persist file) in
    (
      run_commands-IsBounded cs (new_chat_history persist file) h (new-IsBounded persist file),
      λ msg. (
        append_ui_message-IsBounded msg s,
        rw (append_ui_message-messages msg s)
            (prune_older-bare (shift_to max_ui_messages (put_message msg s.messages))),
      ),
    )

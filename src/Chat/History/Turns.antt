-- ===== src/Chat/History/Turns.antt =====
-- ChatHistoryStore.ts: the turns of a channel over any calls.
use sera_core.Prelude.{
  ℕ, ◌≤◌, ◌≡◌, refl, sym, ap, ◌∙◌, String, Option, none, some, List, [], ◌∷◌, ◌++◌, ◌==◌, eq_iff,
  if◌then◌else◌, get_or, length, arith, Bool-cases, inl, inr,
}
use sera_core.Dict
use sera_core.Dict.{Dict}
use sera_core.Dict.Laws.{first_of, get-set, get-merge}
use sera_core.Chat.{
  UiMessage, TurnRole, PlatformTurn, ChatSnapshot, ChatHistoryStore, shift_to, save_local,
  load_cloud_messages, load_cloud_turns, load_from_cloud, is_blank, channel_key, ProposalStatus,
  get_platform_turns, append_platform_turn, append_ui_message, migrate_from, update_proposal_status,
  clear, max_platform_turns,
}
use sera_core.Chat.Shift.{last, shift_to-short, shift_to-last, shift_to-append}
use sera_core.Chat.History.{
  Command, appends_turn, appends_message, loads, migrates, updates_status, clears, run_command,
  run_commands,
}

-- the turns of a snapshot under a key
abbrev pub turns_of : String → Option (Dict (List PlatformTurn)) → Option (List PlatformTurn)
turns_of key none = none
turns_of key (some turns) = Dict.get turns key

abbrev pub snapshot_turns : String → Option ChatSnapshot → Option (List PlatformTurn)
snapshot_turns key none = none
snapshot_turns key (some snapshot) = turns_of key snapshot.platform_messages

-- all turns that a channel has been given since the last `clear`, none forgotten
unfoldable pub given : String → Command → Option (List PlatformTurn) → Option (List PlatformTurn)
given key (appends_turn now platform channel_id role content) o =
    if is_blank content
    then o
    else if channel_key platform channel_id == key
    then some (get_or o [] ++ record { role = role; content = content; timestamp = some now } ∷ [])
    else o
given key (loads snapshot) o = first_of o (snapshot_turns key snapshot)
given key clears o = none
given key (appends_message msg) o = o
given key (migrates source) o = o
given key (updates_status proposal_id status) o = o

unfoldable pub all_given :
    String → List Command → Option (List PlatformTurn) → Option (List PlatformTurn)
all_given key [] o = o
all_given key (c ∷ cs) o = all_given key cs (given key c o)

-- the last turns
abbrev pub kept : Option (List PlatformTurn) → Option (List PlatformTurn)
kept none = none
kept (some turns) = some (shift_to max_platform_turns turns)

abbrev pub IsShort : Option (List PlatformTurn) → Type 0
IsShort none = Unit
IsShort (some turns) = length turns ≤ max_platform_turns

-- the snapshots that are loaded have no more turns under the key than the store keeps
abbrev pub AllShort : String → List Command → Type 0
AllShort key [] = Unit
AllShort key (loads snapshot ∷ cs) = IsShort (snapshot_turns key snapshot) × AllShort key cs
AllShort key (c ∷ cs) = AllShort key cs

abbrev of : String → ChatHistoryStore → Option (List PlatformTurn)
of key s = Dict.get s.turns key

save_local-turns : (s : ChatHistoryStore) → (save_local s).turns ≡ s.turns
unfolding save_local
save_local-turns s = ground arith

kept-first_of :
    (o p : Option (List PlatformTurn)) → IsShort p → first_of (kept o) p ≡ kept (first_of o p)
kept-first_of none none h = refl
kept-first_of none (some turns) h = ap some (sym (shift_to-short max_platform_turns turns h))
kept-first_of (some turns) p h = refl

kept-append :
    (o : Option (List PlatformTurn)) (turn : PlatformTurn)
    → shift_to max_platform_turns (get_or (kept o) [] ++ turn ∷ [])
      ≡ shift_to max_platform_turns (get_or o [] ++ turn ∷ [])
kept-append none turn = refl
kept-append (some turns) turn = shift_to-append max_platform_turns turns (turn ∷ [])

load_cloud_messages-turns :
    (ms : Option (List UiMessage)) (s : ChatHistoryStore)
    → (load_cloud_messages ms s).turns ≡ s.turns
unfolding load_cloud_messages save_local
load_cloud_messages-turns none s = refl
load_cloud_messages-turns (some ms) s = ground arith

first_of-none : (o : Option (List PlatformTurn)) → first_of o none ≡ o
first_of-none none = refl
first_of-none (some turns) = refl

load_cloud_turns-of :
    (key : String) (turns : Option (Dict (List PlatformTurn))) (s : ChatHistoryStore)
    → of key (load_cloud_turns turns s) ≡ first_of (of key s) (turns_of key turns)
unfolding load_cloud_turns
load_cloud_turns-of key none s = sym (first_of-none (of key s))
load_cloud_turns-of key (some cloud) s =
    ap (λ d. Dict.get d key) (save_local-turns _) ∙ get-merge cloud s.turns key

load_from_cloud-of :
    (key : String) (snapshot : Option ChatSnapshot) (s : ChatHistoryStore)
    → of key (load_from_cloud snapshot s) ≡ first_of (of key s) (snapshot_turns key snapshot)
unfolding load_from_cloud
load_from_cloud-of key none s = sym (first_of-none (of key s))
load_from_cloud-of key (some snapshot) s =
    load_cloud_turns-of key snapshot.platform_messages (load_cloud_messages snapshot.ui_messages s)
    ∙ ap (λ d. first_of (Dict.get d key) (turns_of key snapshot.platform_messages))
        (load_cloud_messages-turns snapshot.ui_messages s)

append_turn-of :
    (key k : String) (turn : PlatformTurn) (s : ChatHistoryStore) (o : Option (List PlatformTurn))
    → of key s ≡ kept o
    → (if k == key
        then some (shift_to max_platform_turns (get_or (of k s) [] ++ turn ∷ []))
        else of key s)
      ≡ kept (if k == key then some (get_or o [] ++ turn ∷ []) else o)
append_turn-of key k turn s o e = elim (Bool-cases (k == key)) [
  | inl t ↦ rw t (
      ap some (
        ap (λ p. shift_to max_platform_turns (get_or p [] ++ turn ∷ []))
          (ap (Dict.get s.turns) ((eq_iff k key).0 t) ∙ e)
        ∙ kept-append o turn))
  | inr f ↦ rw f e
]

append_platform_turn-of :
    (key : String) (now : ℕ) (platform channel_id : String) (role : TurnRole) (content : String)
    (s : ChatHistoryStore) (o : Option (List PlatformTurn))
    → of key s ≡ kept o
    → of key (append_platform_turn now platform channel_id role content s)
      ≡ kept (given key (appends_turn now platform channel_id role content) o)
unfolding append_platform_turn given
append_platform_turn-of key now platform channel_id role content s o e =
    let k = channel_key platform channel_id in
    let turn : PlatformTurn = record { role = role; content = content; timestamp = some now } in
    elim (Bool-cases (is_blank content)) [
      | inl t ↦ rw t e
      | inr f ↦ rw f (
          ap (λ d. Dict.get d key) (save_local-turns _)
          ∙ get-set s.turns k key (shift_to max_platform_turns (get_or (of k s) [] ++ turn ∷ []))
          ∙ append_turn-of key k turn s o e)
    ]

migrate_from-turns :
    (ms : List UiMessage) (s : ChatHistoryStore) → (migrate_from ms s).1.turns ≡ s.turns
unfolding migrate_from save_local
migrate_from-turns [] s = refl
migrate_from-turns (m ∷ ms) s = ground arith

update_proposal_status-turns :
    (id : String) (status : ProposalStatus) (s : ChatHistoryStore)
    → (update_proposal_status id status s).turns ≡ s.turns
unfolding update_proposal_status save_local
update_proposal_status-turns id status s = ground arith

run_command-of :
    (key : String) (c : Command) (s : ChatHistoryStore) (o : Option (List PlatformTurn))
    → AllShort key (c ∷ [])
    → of key s ≡ kept o
    → of key (run_command c s) ≡ kept (given key c o)
unfolding run_command given append_ui_message clear Dict.get
run_command-of key (appends_turn now platform channel_id role content) s o h e =
    append_platform_turn-of key now platform channel_id role content s o e
run_command-of key (loads snapshot) s o h e =
    load_from_cloud-of key snapshot s
    ∙ ap (λ p. first_of p (snapshot_turns key snapshot)) e
    ∙ kept-first_of o (snapshot_turns key snapshot) h.0
run_command-of key clears s o h e = ap (λ d. Dict.get d key) (save_local-turns _)
run_command-of key (appends_message msg) s o h e = ap (λ d. Dict.get d key) (save_local-turns _) ∙ e
run_command-of key (migrates source) s o h e =
    ap (λ d. Dict.get d key) (migrate_from-turns source s) ∙ e
run_command-of key (updates_status id status) s o h e =
    ap (λ d. Dict.get d key) (update_proposal_status-turns id status s) ∙ e

AllShort-split :
    (key : String) (c : Command) (cs : List Command)
    → AllShort key (c ∷ cs)
    → AllShort key (c ∷ []) × AllShort key cs
AllShort-split key (loads snapshot) cs h = ((h.0, tt), h.1)
AllShort-split key (appends_turn now platform channel_id role content) cs h = (tt, h)
AllShort-split key (appends_message msg) cs h = (tt, h)
AllShort-split key (migrates source) cs h = (tt, h)
AllShort-split key (updates_status id status) cs h = (tt, h)
AllShort-split key clears cs h = (tt, h)

run_commands-of :
    (key : String) (cs : List Command) (s : ChatHistoryStore) (o : Option (List PlatformTurn))
    → AllShort key cs
    → of key s ≡ kept o
    → of key (run_commands cs s) ≡ kept (all_given key cs o)
unfolding run_commands all_given
run_commands-of key [] s o h e = e
run_commands-of key (c ∷ cs) s o h e =
    let k = AllShort-split key c cs h in
    run_commands-of key cs (run_command c s) (given key c o) k.1 (run_command-of key c s o k.0 e)

kept-last :
    (o : Option (List PlatformTurn)) → get_or (kept o) [] ≡ last max_platform_turns (get_or o [])
unfolding shift_to
kept-last none = shift_to-last max_platform_turns []
kept-last (some turns) = shift_to-last max_platform_turns turns

-- On a store that has no turns under a key, over any calls that load no snapshot with more than
-- twenty turns under it, the turns of the channel are the last twenty of all that it was given
-- since the last `clear`: each one that is not blank, in order, after those of the first snapshot
-- that was loaded while the channel had none.
pub get_platform_turns-last :
    (key : String) (cs : List Command) (s : ChatHistoryStore)
    → Dict.get s.turns key ≡ none
    → AllShort key cs
    → get_platform_turns key (run_commands cs s)
      ≡ last max_platform_turns (get_or (all_given key cs none) [])
unfolding get_platform_turns
get_platform_turns-last key cs s e h =
    ap (λ o. get_or o []) (run_commands-of key cs s none h e) ∙ kept-last (all_given key cs none)

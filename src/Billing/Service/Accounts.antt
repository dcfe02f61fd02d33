-- ===== src/Billing/Service/Accounts.antt =====
-- SubscriptionService.ts against an abstract bank: a number of credits for each lower-case address.
use sera_core.Prelude.{
  ℕ, ◌+◌, ◌-◌, String, ◌≡◌, refl, sym, ◌∙◌, Bool, true, false, Option, none, some, List, [], ◌∷◌,
  ◌==◌, if◌then◌else◌, get_or, ltb, nat_eq, arith, Bool-cases, Option-cases, inl, inr, ap,
}
use mathlib.Core.Path.{fun_ext}
use sera_core.Dict
use sera_core.Dict.Laws.{get-set}
use sera_core.Text.{to_lower}
use sera_core.Billing.Ledger.{
  SubscriptionEntry, SubscriptionLedger, get_entry, credited, debited, put_entry, credit,
  debit_credits, has_credit, save_to_file, save_to_file_local_only, schedule_cloud_save,
}
use sera_core.Billing.Service.{
  usdc, calculate_tokens, record_top_up, is_dev, has_active_entitlement, consume_credits,
  add_credits_directly, Balance, infinite, finite, get_agent_credits,
}

-- a call of the service, with its clock reading
pub data Command : Type 0 where
  tops_up : (now : ℕ) (address : String) (amount : ℕ) → Command
  consumes : (now : ℕ) (address : String) (amount : ℕ) → Command
  adds : (now : ℕ) (address : String) (amount : ℕ) → Command
  asks : (address : String) → Command
  shows : (address : String) → Command

pub data Reply : Type 0 where
  total : Option ℕ → Reply
  accepted : Bool → Reply
  done : Reply
  shown : Balance → Reply

unfoldable pub run_command : Command → SubscriptionLedger → Reply × SubscriptionLedger
run_command (tops_up now address amount) s =
    let (n, s') = record_top_up now address amount s in (total n, s')
run_command (consumes now address amount) s =
    let (ok, s') = consume_credits now address amount s in (accepted ok, s')
run_command (adds now address amount) s = (done, add_credits_directly now address amount s)
run_command (asks address) s = (accepted (has_active_entitlement address s), s)
run_command (shows address) s = (shown (get_agent_credits address s), s)

unfoldable pub run_commands : List Command → SubscriptionLedger → List Reply × SubscriptionLedger
run_commands [] s = ([], s)
run_commands (c ∷ cs) s =
    let (r, s') = run_command c s in let (rs, s'') = run_commands cs s' in (r ∷ rs, s'')

-- the abstract bank: the accounts that are open, with their credits
abbrev pub Bank : Type 0
Bank = String → Option ℕ

abbrev pub credits_in : Option SubscriptionEntry → Option ℕ
credits_in none = none
credits_in (some e) = some e.agent_credits

unfoldable pub view : SubscriptionLedger → Bank
view s key = credits_in (Dict.get s.entries key)

abbrev write : String → ℕ → Bank → Bank
write key n b k = if key == k then some n else b k

abbrev held : String → Bank → ℕ
held key b = get_or (b key) 0

unfoldable pub bank_command : Command → Bank → Reply × Bank
bank_command (tops_up now address amount) b =
    let key = to_lower address in
    let n = held key b + calculate_tokens amount in
    if ltb amount usdc then (total none, b) else (total (some n), write key n b)
bank_command (consumes now address amount) b =
    let key = to_lower address in
    if is_dev address then (accepted true, b) else (elim (b key) [
      | none ↦ (accepted false, b)
      | some n ↦
          if ltb n amount then (accepted false, b) else (accepted true, write key (n - amount) b)
    ])
bank_command (adds now address amount) b =
    let key = to_lower address in
    (done, if nat_eq amount 0 then b else write key (held key b + amount) b)
bank_command (asks address) b =
    (accepted (if is_dev address then true else ltb 0 (held (to_lower address) b)), b)
bank_command (shows address) b =
    (shown (if is_dev address then infinite else finite (held (to_lower address) b)), b)

unfoldable pub bank_commands : List Command → Bank → List Reply × Bank
bank_commands [] b = ([], b)
bank_commands (c ∷ cs) b =
    let (r, b') = bank_command c b in let (rs, b'') = bank_commands cs b' in (r ∷ rs, b'')

pub save_to_file-entries : (s : SubscriptionLedger) → (save_to_file s).entries ≡ s.entries
unfolding save_to_file save_to_file_local_only schedule_cloud_save
save_to_file-entries s = ground arith

-- an entry that is put is what the view then shows
view-put_entry :
    (key : String) (e : SubscriptionEntry) (s : SubscriptionLedger)
    → view (put_entry key e s) ≡ write key e.agent_credits (view s)
unfolding put_entry view
view-put_entry key e s = fun_ext (λ k.
    ap (λ d. credits_in (Dict.get d k))
      (save_to_file-entries (record s { entries = Dict.set s.entries key e }))
    ∙ ap credits_in (get-set s.entries key k e)
    ∙ elim (Bool-cases (key == k)) [ inl same ↦ rw same refl | inr other ↦ rw other refl ])

credited-held :
    (now : ℕ) (key : String) (n amount : ℕ) (e : Option SubscriptionEntry)
    → (credited now key n amount e).agent_credits ≡ get_or (credits_in e) 0 + n
unfolding credited
credited-held now key n amount none = omega arith
credited-held now key n amount (some e) = refl

view-credit :
    (now : ℕ) (address : String) (n amount : ℕ) (s : SubscriptionLedger)
    → ((credit now address n amount s).0.agent_credits ≡ held (to_lower address) (view s) + n)
      × (view (credit now address n amount s).1
          ≡ write (to_lower address) (held (to_lower address) (view s) + n) (view s))
unfolding credit view
view-credit now address n amount s =
    let key = to_lower address in
    let entry = credited now key n amount (Dict.get s.entries key) in
    let total = credited-held now key n amount (Dict.get s.entries key) in
    (total, view-put_entry key entry s ∙ ap (λ m. write key m (view s)) total)

abbrev Matches : Command → SubscriptionLedger → Type 0
Matches c s =
    ((run_command c s).0 ≡ (bank_command c (view s)).0)
    × (view (run_command c s).1 ≡ (bank_command c (view s)).1)

pub tops_up-Matches :
    (now : ℕ) (address : String) (amount : ℕ) (s : SubscriptionLedger)
    → Matches (tops_up now address amount) s
unfolding run_command bank_command record_top_up
tops_up-Matches now address amount s = elim (Bool-cases (ltb amount usdc)) [
  | inl low ↦ rw low (refl, refl)
  | inr enough ↦
      let (entry, after) = view-credit now address (calculate_tokens amount) amount s in
      rw enough (ap (λ n. total (some n)) entry, after)
]

consumes-Matches :
    (now : ℕ) (address : String) (amount : ℕ) (s : SubscriptionLedger)
    → Matches (consumes now address amount) s
unfolding run_command bank_command consume_credits debit_credits debited view
consumes-Matches now address amount s = elim (Bool-cases (is_dev address)) [
  | inl dev ↦ rw dev (refl, refl)
  | inr other ↦ rw other (elim (Option-cases (Dict.get s.entries (to_lower address))) [
    | inl closed ↦ rw (closed, debit_credits) (refl, refl)
    | inr (e, known) ↦
        rw (known, debit_credits)
          (elim (Bool-cases (ltb e.agent_credits amount)) [
            | inl short ↦ rw short (refl, refl)
            | inr enough ↦
                rw enough (refl, view-put_entry (to_lower address) (debited now amount e) s)
          ])
  ])
]

adds-Matches :
    (now : ℕ) (address : String) (amount : ℕ) (s : SubscriptionLedger)
    → Matches (adds now address amount) s
unfolding run_command bank_command add_credits_directly
adds-Matches now address amount s = elim (Bool-cases (nat_eq amount 0)) [
  | inl nothing ↦ rw nothing (refl, refl)
  | inr some_credits ↦ rw some_credits (refl, (view-credit now address amount 0 s).1)
]

asks-Matches : (address : String) (s : SubscriptionLedger) → Matches (asks address) s
unfolding run_command bank_command has_active_entitlement has_credit view
asks-Matches address s = elim (Option-cases (Dict.get s.entries (to_lower address))) [
  | inl closed ↦ rw (closed, has_credit) (refl, refl)
  | inr (e, known) ↦ rw (known, has_credit) (refl, refl)
]

shows-Matches : (address : String) (s : SubscriptionLedger) → Matches (shows address) s
unfolding run_command bank_command get_agent_credits get_entry view
shows-Matches address s = elim (Option-cases (Dict.get s.entries (to_lower address))) [
  | inl closed ↦ rw closed (refl, refl)
  | inr (e, known) ↦ rw known (refl, refl)
]

run_command-Matches : (c : Command) (s : SubscriptionLedger) → Matches c s
run_command-Matches (tops_up now address amount) s = tops_up-Matches now address amount s
run_command-Matches (consumes now address amount) s = consumes-Matches now address amount s
run_command-Matches (adds now address amount) s = adds-Matches now address amount s
run_command-Matches (asks address) s = asks-Matches address s
run_command-Matches (shows address) s = shows-Matches address s

-- The ledger behind the service is a bank with one account for each address, whatever the case of
-- its letters: over any history of calls, the replies are the bank's and so are the credits held
-- afterwards.
pub run_commands-refines :
    (cs : List Command) (s : SubscriptionLedger)
    → ((run_commands cs s).0 ≡ (bank_commands cs (view s)).0)
      × (view (run_commands cs s).1 ≡ (bank_commands cs (view s)).1)
unfolding run_commands bank_commands
run_commands-refines [] s = (refl, refl)
run_commands-refines (c ∷ cs) s =
    let (reply, after) = run_command-Matches c s in
    let (replies, last) = run_commands-refines cs (run_command c s).1 in
    rw (sym reply, sym after) (ap (λ rs. (run_command c s).0 ∷ rs) replies, last)

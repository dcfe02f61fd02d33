-- ===== src/Billing/Service/Restart.antt =====
-- src/server/billing/SubscriptionLedger.ts behind the service: what a restart reads back.
use sera_core.Prelude.{
  ℕ, String, ◌≡◌, refl, sym, ap, ◌∙◌, Bool, true, none, List, [], ◌∷◌, ◌++◌, ◌==◌, get_or, ltb,
  nat_eq, subst, Bool-cases, Option-cases, inl, inr,
}
use mathlib.Core.List.{append-nil, append_assoc}
use sera_core.Dict
use sera_core.Dict.{Dict}
use sera_core.Dict.Keys.{IsDistinct, Lacks-middle, set-IsDistinct, set-Lacks}
use sera_core.Text.{to_lower}
use sera_core.Text.Laws.{to_lower_idem}
use sera_core.Billing.Ledger.{
  SubscriptionEntry, SubscriptionLedger, load_entries, load_from_file, load_from_cloud, open_ledger,
  credited, debited, put_entry, credit, debit_credits, save_to_file, save_to_file_local_only,
  schedule_cloud_save,
}
use sera_core.Billing.Service.{
  usdc, calculate_tokens, record_top_up, is_dev, consume_credits, add_credits_directly,
}
use sera_core.Billing.Service.Accounts.{
  Command, tops_up, consumes, adds, asks, shows, run_command, run_commands,
}

abbrev pub AllLower : Dict SubscriptionEntry → Type 0
AllLower [] = Unit
AllLower ((k, e) ∷ d) = (to_lower k ≡ k) × AllLower d

-- the file system takes writes, the file holds the entries, under distinct lower-case addresses
abbrev pub IsSaved : SubscriptionLedger → Type 0
IsSaved s =
    (s.writable ≡ true) × (get_or s.file [] ≡ s.entries) × IsDistinct s.entries × AllLower s.entries

set-AllLower :
    (d : Dict SubscriptionEntry) (k : String) (e : SubscriptionEntry)
    → to_lower k ≡ k
    → AllLower d
    → AllLower (Dict.set d k e)
unfolding Dict.set
set-AllLower [] k e low h = (low, tt)
set-AllLower ((j, f) ∷ d) k e low h = elim (Bool-cases (j == k)) [
  | inl same ↦ rw same h
  | inr other ↦ rw other (h.0, set-AllLower d k e low h.1)
]

load_entries-append :
    (d acc : Dict SubscriptionEntry)
    → AllLower d
    → IsDistinct (acc ++ d)
    → load_entries d acc ≡ acc ++ d
unfolding load_entries
load_entries-append [] acc low u = sym (append-nil acc)
load_entries-append ((k, e) ∷ d) acc low u =
    rw (low.0, set-Lacks acc k e (Lacks-middle acc d k e u))
      (load_entries-append d (acc ++ (k, e) ∷ []) low.1
          (subst IsDistinct (sym (append_assoc acc ((k, e) ∷ []) d)) u)
        ∙ append_assoc acc ((k, e) ∷ []) d)

save_to_file-IsSaved :
    (s : SubscriptionLedger)
    → s.writable ≡ true
    → IsDistinct s.entries
    → AllLower s.entries
    → IsSaved (save_to_file s)
unfolding save_to_file save_to_file_local_only schedule_cloud_save
save_to_file-IsSaved s writable distinct lower = elim (Bool-cases s.has_cloud) [
  | inl cloud ↦ rw (writable, cloud) (refl, refl, distinct, lower)
  | inr none_there ↦ rw (writable, none_there) (refl, refl, distinct, lower)
]

put_entry-IsSaved :
    (address : String) (e : SubscriptionEntry) (s : SubscriptionLedger)
    → IsSaved s
    → IsSaved (put_entry (to_lower address) e s)
unfolding put_entry
put_entry-IsSaved address e s (writable, held, distinct, lower) =
    let key = to_lower address in
    save_to_file-IsSaved (record s { entries = Dict.set s.entries key e }) writable
      (set-IsDistinct s.entries key e distinct)
      (set-AllLower s.entries key e (to_lower_idem address) lower)

credit-IsSaved :
    (now : ℕ) (address : String) (n amount : ℕ) (s : SubscriptionLedger)
    → IsSaved s
    → IsSaved (credit now address n amount s).1
unfolding credit
credit-IsSaved now address n amount s h =
    put_entry-IsSaved address
      (credited now (to_lower address) n amount (Dict.get s.entries (to_lower address))) s h

run_command-IsSaved :
    (c : Command) (s : SubscriptionLedger) → IsSaved s → IsSaved (run_command c s).1
unfolding run_command record_top_up consume_credits debit_credits add_credits_directly
run_command-IsSaved (tops_up now address amount) s h = elim (Bool-cases (ltb amount usdc)) [
  | inl low ↦ rw low h
  | inr enough ↦ rw enough (credit-IsSaved now address (calculate_tokens amount) amount s h)
]
run_command-IsSaved (consumes now address amount) s h = elim (Bool-cases (is_dev address)) [
  | inl dev ↦ rw dev h
  | inr other ↦ rw other (elim (Option-cases (Dict.get s.entries (to_lower address))) [
    | inl closed ↦ rw (closed, debit_credits) h
    | inr (e, known) ↦
        rw (known, debit_credits)
          (elim (Bool-cases (ltb e.agent_credits amount)) [
            | inl short ↦ rw short h
            | inr enough ↦ rw enough (put_entry-IsSaved address (debited now amount e) s h)
          ])
  ])
]
run_command-IsSaved (adds now address amount) s h = elim (Bool-cases (nat_eq amount 0)) [
  | inl nothing ↦ rw nothing h
  | inr some_credits ↦ rw some_credits (credit-IsSaved now address amount 0 s h)
]
run_command-IsSaved (asks address) s h = h
run_command-IsSaved (shows address) s h = h

run_commands-IsSaved :
    (cs : List Command) (s : SubscriptionLedger) → IsSaved s → IsSaved (run_commands cs s).1
unfolding run_commands
run_commands-IsSaved [] s h = h
run_commands-IsSaved (c ∷ cs) s h =
    run_commands-IsSaved cs (run_command c s).1 (run_command-IsSaved c s h)

open_ledger-IsSaved :
    (s : SubscriptionLedger) (has_cloud : Bool)
    → IsSaved s
    → (open_ledger s.file true has_cloud none).entries ≡ s.entries
unfolding open_ledger load_from_cloud load_from_file load_entries
open_ledger-IsSaved s has_cloud (writable, held, distinct, lower) = elim (Option-cases s.file) [
  | inl missing ↦ rw (missing, load_from_file) (ap (λ f. get_or f []) (sym missing) ∙ held)
  | inr (object, found) ↦
      let same : object ≡ s.entries = ap (λ f. get_or f []) (sym found) ∙ held in
      rw (found, load_from_file)
        (ap (λ d. load_entries d []) same ∙ load_entries-append s.entries [] lower distinct)
]

-- A service that starts with its entries in the file, or with none of either, under distinct
-- lower-case addresses, and whose file can be written, loses nothing: after any history of calls, a
-- ledger opened on the file, without a snapshot from the cloud, holds the entries that were in
-- memory.
pub run_commands-restart :
    (cs : List Command) (s : SubscriptionLedger) (has_cloud : Bool)
    → IsSaved s
    → (open_ledger (run_commands cs s).1.file true has_cloud none).entries
      ≡ (run_commands cs s).1.entries
run_commands-restart cs s has_cloud h =
    open_ledger-IsSaved (run_commands cs s).1 has_cloud (run_commands-IsSaved cs s h)

-- ===== src/Billing/Treasury/Deposits.antt =====
-- src/server/billing/TreasuryDepositWatcher.ts: which transfers of a chain become credits when the
-- polls do not overlap. `chain n` is the list of the Transfer events to the treasury in block `n`.
use sera_core.Prelude.{
  ℕ, zero, suc, ◌+◌, ◌-◌, ◌≤◌, ◌≡◌, ◌≢◌, refl, sym, ap, ◌∙◌, Bool, true, false, Option, none, some,
  List, [], ◌∷◌, ◌++◌, eq_iff, if◌then◌else◌, get_or, leb, arith, Bool-cases, Option-cases, inl,
  inr,
}
use mathlib.Core.List.{append_assoc}
use sera_core.Billing.Ledger.{SubscriptionLedger}
use sera_core.Billing.Service.{record_top_up}
use sera_core.Billing.Service.Accounts.{
  Bank, view, run_command, bank_command, tops_up, tops_up-Matches,
}
use sera_core.Billing.Treasury.{
  TreasuryDepositWatcher, zero_address, max_range, from_block, poll_range, TransferLog, deposit_of,
  credit_logs, poll_finish, poll_deposit_logs,
}

-- a poll: its clock reading, what `getBlockNumber` answers, and whether `getLogs` answers
pub record Poll : Type 0 where
  pub now : ℕ
  pub head : Option ℕ
  pub answers : Bool

-- the events of `n` blocks from a block on
unfoldable pub blocks : (ℕ → List TransferLog) → ℕ → ℕ → List TransferLog
blocks chain from zero = []
blocks chain from (suc n) = chain from ++ blocks chain (from + 1) n

abbrev pub logs_of : (ℕ → List TransferLog) → Bool → ℕ → ℕ → Option (List TransferLog)
logs_of chain answers from to = if answers then some (blocks chain from (to + 1 - from)) else none

unfoldable pub run_polls :
    (ℕ → List TransferLog)
    → List Poll
    → TreasuryDepositWatcher
    → SubscriptionLedger
    → TreasuryDepositWatcher × SubscriptionLedger
run_polls chain [] w s = (w, s)
run_polls chain (p ∷ ps) w s =
    let (w', s') = poll_deposit_logs p.now p.head (logs_of chain p.answers) w s in
    run_polls chain ps w' s'

-- the bank of a service after deposits
unfoldable pub deposit_all : List TransferLog → Bank → Bank
deposit_all [] b = b
deposit_all (log ∷ logs) b = elim (deposit_of log) [
  | none ↦ deposit_all logs b
  | some (sender, amount) ↦ deposit_all logs (bank_command (tops_up 0 sender amount) b).1
]

-- the last block that a poll processes, from the one that was
unfoldable pub reach : ℕ → Option ℕ → Bool → ℕ
reach last none answers = last
reach last (some head) answers = if answers then (if leb head last then last else head) else last

unfoldable pub furthest : ℕ → List Poll → ℕ
furthest last [] = last
furthest last (p ∷ ps) = furthest (reach last p.head p.answers) ps

-- no poll finds the head of the chain further ahead than one request covers
abbrev pub IsClose : ℕ → List Poll → Type 0
IsClose last [] = Unit
IsClose last (p ∷ ps) =
    (get_or p.head last ≤ last + max_range) × IsClose (reach last p.head p.answers) ps

deposit_all-append :
    (xs ys : List TransferLog) (b : Bank)
    → deposit_all (xs ++ ys) b ≡ deposit_all ys (deposit_all xs b)
unfolding deposit_all
deposit_all-append [] ys b = refl
deposit_all-append (x ∷ xs) ys b = elim (Option-cases (deposit_of x)) [
  | inl skipped ↦ rw (skipped, deposit_all) (deposit_all-append xs ys b)
  | inr ((sender, amount), found) ↦
      rw (found, deposit_all)
        (deposit_all-append xs ys (bank_command (tops_up 0 sender amount) b).1)
]

blocks-append :
    (chain : ℕ → List TransferLog) (from m n : ℕ)
    → blocks chain from (m + n) ≡ blocks chain from m ++ blocks chain (from + m) n
unfolding blocks
blocks-append chain from zero n =
    let here : from + 0 ≡ from = omega arith in
    let all : 0 + n ≡ n = omega arith in rw (all, here) refl
blocks-append chain from (suc m) n =
    let count : suc m + n ≡ suc (m + n) = omega arith in
    let next : from + 1 + m ≡ from + suc m = omega arith in
    rw count (
      ap (λ l. chain from ++ l) (blocks-append chain (from + 1) m n)
      ∙ sym (append_assoc (chain from) (blocks chain (from + 1) m) (blocks chain (from + 1 + m) n))
      ∙ ap (λ k. (chain from ++ blocks chain (from + 1) m) ++ blocks chain k n) next)

credit_logs-view :
    (now : ℕ) (logs : List TransferLog) (s : SubscriptionLedger)
    → view (credit_logs now logs s).1 ≡ deposit_all logs (view s)
unfolding credit_logs deposit_all run_command bank_command
credit_logs-view now [] s = refl
credit_logs-view now (log ∷ logs) s = elim (Option-cases (deposit_of log)) [
  | inl skipped ↦ rw (skipped, credit_logs, deposit_all) (credit_logs-view now logs s)
  | inr ((sender, amount), found) ↦
      rw (found, credit_logs, deposit_all)
        (credit_logs-view now logs (record_top_up now sender amount s).1
          ∙ ap (deposit_all logs) (tops_up-Matches now sender amount s).1)
]

nothing_polled :
    (chain : ℕ → List TransferLog) (last : ℕ) (s : SubscriptionLedger)
    → view s ≡ deposit_all (blocks chain (last + 1) (last - last)) (view s)
unfolding blocks deposit_all
nothing_polled chain last s = let none_left : last - last ≡ 0 = omega arith in rw none_left refl

poll_range-none : (w : TreasuryDepositWatcher) → poll_range none w ≡ none
unfolding poll_range
poll_range-none w = refl

poll_range-IsClose :
    (head : ℕ) (w : TreasuryDepositWatcher)
    → w.is_running ≡ true
    → w.treasury ≢ zero_address
    → head ≤ w.last_processed_block + max_range
    → poll_range (some head) w
      ≡ (if leb head w.last_processed_block then none else some (w.last_processed_block + 1, head))
unfolding poll_range from_block
poll_range-IsClose head w running set near = ground (arith, eq_iff w.treasury zero_address)

-- one poll, as far as the head is in reach of a request
poll-IsClose :
    (chain : ℕ → List TransferLog) (now : ℕ) (head : Option ℕ) (answers : Bool)
    (w : TreasuryDepositWatcher) (s : SubscriptionLedger)
    → w.is_running ≡ true
    → w.treasury ≢ zero_address
    → get_or head w.last_processed_block ≤ w.last_processed_block + max_range
    → (let (w', s') = poll_deposit_logs now head (logs_of chain answers) w s in
        let last = w.last_processed_block in
        (w' ≡ record w { last_processed_block = reach last head answers })
        × (view s'
            ≡ deposit_all (blocks chain (last + 1) (reach last head answers - last)) (view s)))
unfolding reach poll_deposit_logs poll_finish
poll-IsClose chain now none answers w s running set near =
    rw (poll_range-none w, poll_deposit_logs) (refl, nothing_polled chain w.last_processed_block s)
poll-IsClose chain now (some head) false w s running set near =
    let last = w.last_processed_block in
    rw (poll_range-IsClose head w running set near, poll_deposit_logs)
      (elim (Bool-cases (leb head last)) [
        | inl old ↦ rw old (refl, nothing_polled chain last s)
        | inr ahead ↦ rw ahead (refl, nothing_polled chain last s)
      ])
poll-IsClose chain now (some head) true w s running set near =
    let last = w.last_processed_block in
    let count : head + 1 - (last + 1) ≡ head - last = omega arith in
    rw (poll_range-IsClose head w running set near, poll_deposit_logs)
      (elim (Bool-cases (leb head last)) [
        | inl old ↦ rw old (refl, nothing_polled chain last s)
        | inr ahead ↦ rw ahead (
          refl,
          credit_logs-view now (blocks chain (last + 1) (head + 1 - (last + 1))) s
              ∙ ap (λ n. deposit_all (blocks chain (last + 1) n) (view s)) count,
        )
      ])

reach-grows : (last : ℕ) (head : Option ℕ) (answers : Bool) → last ≤ reach last head answers
unfolding reach
reach-grows last none answers = omega arith
reach-grows last (some head) answers = ground arith

furthest-grows : (last : ℕ) (ps : List Poll) → last ≤ furthest last ps
unfolding furthest
furthest-grows last [] = omega arith
furthest-grows last (p ∷ ps) =
    let next = reach last p.head p.answers in
    let a = reach-grows last p.head p.answers in let b = furthest-grows next ps in omega arith

-- the blocks of two stretches that meet
deposit_all-meet :
    (chain : ℕ → List TransferLog) (b : Bank) (from middle to : ℕ)
    → from ≤ middle
    → middle ≤ to
    → deposit_all
        (blocks chain (middle + 1) (to - middle))
        (deposit_all (blocks chain (from + 1) (middle - from)) b)
      ≡ deposit_all (blocks chain (from + 1) (to - from)) b
deposit_all-meet chain b from middle to low high =
    let m = middle - from in
    let n = to - middle in
    let start : from + 1 + m ≡ middle + 1 = omega arith in
    let count : m + n ≡ to - from = omega arith in
    ap (λ k. deposit_all (blocks chain k n) (deposit_all (blocks chain (from + 1) m) b)) (sym start)
    ∙ sym (deposit_all-append (blocks chain (from + 1) m) (blocks chain (from + 1 + m) n) b)
    ∙ ap (λ l. deposit_all l b) (sym (blocks-append chain (from + 1) m n))
    ∙ ap (λ k. deposit_all (blocks chain (from + 1) k) b) count

-- A running watcher with a treasury whose polls do not overlap and find the head of the chain at
-- most 9000 blocks ahead, some of them failing, makes a top-up of the deposits of every block after
-- the one that it started from, up to the furthest head that a poll reached, once each and in
-- order: the credits are those that the bank gives for these top-ups.
pub run_polls-deposits :
    (chain : ℕ → List TransferLog) (ps : List Poll) (w : TreasuryDepositWatcher)
    (s : SubscriptionLedger)
    → w.is_running ≡ true
    → w.treasury ≢ zero_address
    → IsClose w.last_processed_block ps
    → (let (w', s') = run_polls chain ps w s in
        let last = w.last_processed_block in
        (w' ≡ record w { last_processed_block = furthest last ps })
        × (view s' ≡ deposit_all (blocks chain (last + 1) (furthest last ps - last)) (view s)))
unfolding run_polls furthest
run_polls-deposits chain [] w s running set close =
    (refl, nothing_polled chain w.last_processed_block s)
run_polls-deposits chain (p ∷ ps) w s running set close =
    let last = w.last_processed_block in
    let next = reach last p.head p.answers in
    let after = poll_deposit_logs p.now p.head (logs_of chain p.answers) w s in
    let (watcher, credited) = poll-IsClose chain p.now p.head p.answers w s running set close.0 in
    let rest = furthest next ps in
    let (watcher', credited') =
      run_polls-deposits chain ps (record w { last_processed_block = next }) after.1 running set
        close.1 in
    rw (watcher, run_polls)
      (
        watcher',
        credited'
            ∙ ap (deposit_all (blocks chain (next + 1) (rest - next))) credited
            ∙ deposit_all-meet chain (view s) last next rest (reach-grows last p.head p.answers)
                (furthest-grows next ps),
      )

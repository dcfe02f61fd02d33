-- ===== src/Billing/Ledger.antt =====
-- src/server/billing/SubscriptionLedger.ts: the credits of each address, in memory, in a file and in a
-- snapshot in the cloud. Credits are counted in fiftieths and USDC in millionths, which every rate
-- makes whole; the floating-point rounding of the source is left out. The file holds the object of
-- the entries, whose keys are no array indices; `writable` says whether the file system accepts a
-- write. The process is no test, so the file is always used. A row of the snapshot is an argument.
use sera_core.Prelude.{
  ℕ, ◌+◌, ◌-◌, String, Bool, true, false, ◌||◌, ◌&&◌, not, Option, none, some, [], ◌∷◌,
  if◌then◌else◌, leb, ltb, nat_eq,
}
use sera_core.Dict
use sera_core.Dict.{Dict}
use sera_core.Text.{to_lower}

pub record SubscriptionEntry : Type 0 where
  pub address : String
  pub agent_credits : ℕ
  pub total_top_up_usdc : ℕ
  pub last_deducted_at : ℕ
  pub created_at : ℕ
  pub updated_at : ℕ

pub record SubscriptionLedger : Type 0 where
  pub entries : Dict SubscriptionEntry
  pub file : Option (Dict SubscriptionEntry)
  pub writable : Bool
  pub has_cloud : Bool
  pub cloud_save_due : Bool

-- the loop over the entries of the file's object
unfoldable pub load_entries :
    Dict SubscriptionEntry → Dict SubscriptionEntry → Dict SubscriptionEntry
load_entries [] entries = entries
load_entries ((key, value) ∷ rest) entries =
    load_entries rest (Dict.set entries (to_lower key) value)

unfoldable pub load_from_file : SubscriptionLedger → SubscriptionLedger
load_from_file s = elim s.file [
  | none ↦ s
  | some object ↦ record s { entries = load_entries object s.entries }
]

unfoldable pub save_to_file_local_only : SubscriptionLedger → SubscriptionLedger
save_to_file_local_only s = if s.writable then record s { file = some s.entries } else s

-- `!existing || (cloudEntry.updatedAt && cloudEntry.updatedAt >= (existing.updatedAt || 0))`
unfoldable pub takes_cloud : SubscriptionEntry → Option SubscriptionEntry → Bool
takes_cloud cloud none = true
takes_cloud cloud (some existing) =
    not (nat_eq cloud.updated_at 0) && leb existing.updated_at cloud.updated_at

-- the loop over the entries of the snapshot, with whether any was taken
unfoldable pub merge_cloud :
    Dict SubscriptionEntry → Bool → Dict SubscriptionEntry → Dict SubscriptionEntry × Bool
merge_cloud [] modified entries = (entries, modified)
merge_cloud ((key, cloud) ∷ rest) modified entries =
    let takes = takes_cloud cloud (Dict.get entries (to_lower key)) in
    merge_cloud rest (takes || modified)
      (if takes then Dict.set entries (to_lower key) cloud else entries)

-- `snapshot` is `rows[0].snapshot.entries`, `none` where the row or the service is not there
unfoldable pub load_from_cloud :
    Option (Dict SubscriptionEntry) → SubscriptionLedger → SubscriptionLedger
load_from_cloud none s = s
load_from_cloud (some snapshot) s =
    if s.has_cloud
    then (let (entries, modified) = merge_cloud snapshot false s.entries in
        if modified then save_to_file_local_only (record s { entries = entries }) else s)
    else s

-- the constructor, and the load of the snapshot that it starts
unfoldable pub open_ledger :
    Option (Dict SubscriptionEntry)
    → Bool
    → Bool
    → Option (Dict SubscriptionEntry)
    → SubscriptionLedger
open_ledger file writable has_cloud snapshot = load_from_cloud snapshot (
    load_from_file (record {
      entries = [];
      file = file;
      writable = writable;
      has_cloud = has_cloud;
      cloud_save_due = false;
    }))

-- the timer of the save replaces one that was set
unfoldable pub schedule_cloud_save : SubscriptionLedger → SubscriptionLedger
schedule_cloud_save s = if s.has_cloud then record s { cloud_save_due = true } else s

unfoldable pub save_to_file : SubscriptionLedger → SubscriptionLedger
save_to_file s = schedule_cloud_save (save_to_file_local_only s)

unfoldable pub destroy : SubscriptionLedger → SubscriptionLedger
destroy s = record s { cloud_save_due = false }

-- what the timer upserts, if it is due
unfoldable pub save_to_cloud :
    SubscriptionLedger → Option (Dict SubscriptionEntry) × SubscriptionLedger
save_to_cloud s =
    if s.cloud_save_due && s.has_cloud
    then (some s.entries, record s { cloud_save_due = false })
    else (none, s)

unfoldable pub get_entry : String → SubscriptionLedger → Option SubscriptionEntry
get_entry address s = Dict.get s.entries (to_lower address)

unfoldable pub credited : ℕ → String → ℕ → ℕ → Option SubscriptionEntry → SubscriptionEntry
credited now key credits amount (some existing) = record existing {
  agent_credits = existing.agent_credits + credits;
  total_top_up_usdc = existing.total_top_up_usdc + amount;
  updated_at = now;
}
credited now key credits amount none = record {
  address = key;
  agent_credits = credits;
  total_top_up_usdc = amount;
  last_deducted_at = now;
  created_at = now;
  updated_at = now;
}

unfoldable pub put_entry : String → SubscriptionEntry → SubscriptionLedger → SubscriptionLedger
put_entry key e s = save_to_file (record s { entries = Dict.set s.entries key e })

unfoldable pub credit :
    ℕ → String → ℕ → ℕ → SubscriptionLedger → SubscriptionEntry × SubscriptionLedger
credit now address credits amount s =
    let key = to_lower address in
    let entry = credited now key credits amount (Dict.get s.entries key) in
    (entry, put_entry key entry s)

unfoldable pub debited : ℕ → ℕ → SubscriptionEntry → SubscriptionEntry
debited now amount e = record e {
  agent_credits = e.agent_credits - amount;
  last_deducted_at = now;
  updated_at = now;
}

unfoldable pub debit_credits : ℕ → String → ℕ → SubscriptionLedger → Bool × SubscriptionLedger
debit_credits now address amount s = elim (Dict.get s.entries (to_lower address)) [
  | none ↦ (false, s)
  | some e ↦
      if ltb e.agent_credits amount
      then (false, s)
      else (true, put_entry (to_lower address) (debited now amount e) s)
]

unfoldable pub has_credit : String → SubscriptionLedger → Bool
has_credit address s = elim (Dict.get s.entries (to_lower address)) [
  | none ↦ false
  | some e ↦ ltb 0 e.agent_credits
]

-- ===== src/Settlement/Tests.antt =====
-- Runs of the settlement code on small inputs, and the theorems at those inputs.
mod Ledger
use sera_core.Prelude.{
  ℕ, ◌+◌, ◌≤◌, ◌<◌, ◌*◌, String, ◌≡◌, refl, ◌↔◌, true, false, none, some, List, [], ◌∷◌, arith,
  length, if◌then◌else◌, filter, find_first,
}
use sera_core.Dict
use sera_core.Text
use sera_core.Settlement.Store.{
  OrderSettlementRecord, OrderSettlementStore, dana, bank, success, done, CancelDetails,
  get_settlement, has_been_settled, record_settlement, put_record, save_records, open_store,
  load_items, get_user_transaction_history, get_failed_settlements, list_store_settlements,
  find_settlement_by_reference, has_reference,
}
use sera_core.Settlement.Store.Durable.{IsDurable, empty_store, empty_store-IsDurable}
use sera_core.Settlement.Reversal.{record_cancel, tracked, placeholder, cancel, after_cancel}
use sera_core.Settlement.Request.{
  StoreProfile, StoreSettlementParams, Provider, no_flags, in_progress, settled,
}
use sera_core.Settlement.Payout.{
  fee_of, net_of, percent_of, platform_fee, net_payout, check_existing, refusal, ledger_entry,
  duplicate_result, inconsistent_result,
}
use sera_core.Settlement.Payout.Fees.{payout_split}
use Prim.Native.Nat.{◌^◌}
use sera_core.Settlement.Double.{nearest, rounded, double_of, percent_rate, times, math_round}
use sera_core.Settlement.Coordinator.{
  answered, begin, begin_balance, begin_bank, refuse, route, payout_method,
}
use sera_core.Settlement.Coordinator.Answer.{
  settle_store_order, finish, finish_balance, finish_bank, balance_result, bank_result,
  record_unless_settled, balance_status, bank_status, retry_failed_settlements, retry_each,
}
use sera_core.Settlement.Coordinator.Idempotence.{begin-settled}
use sera_core.Settlement.Coordinator.Payouts.{Call, payouts, IsClear, AllClear, payouts-le-one}
use sera_core.Settlement.Coordinator.Retry.{retry-keeps}
use sera_core.Settlement.Coordinator.Interleaving.{
  System, begins, Reach, here, next, on_bank, Reach-keeps_settled,
}
use sera_core.Settlement.Coordinator.Sending.{IsOpen, sends, has_destination, begin-sends_iff}
use sera_core.Settlement.Coordinator.Transfers.{IsCorrect, begin-IsCorrect}
use sera_core.Settlement.Ledger.{Operation, settle, cancel as cancel_op, perform, perform_all}
use sera_core.Settlement.Ledger.Restart.{restart_lem, perform-IsDurable}
use sera_core.Settlement.Classifier.{
  classify, decide, succeeds, progresses, lacks_authority, forbids, misses, invalid, breaks,
  forbidden_reason,
}
use sera_core.Settlement.Classifier.Laws.{IsConsistent}

pub code : Unit {0}
unfolding Dict.get Dict.set Dict.values filter find_first Text.keep_digits Text.strip_prefix
    Text.decimal Text.to_lower get_settlement has_been_settled record_settlement put_record
    save_records open_store load_items get_user_transaction_history get_failed_settlements
    list_store_settlements find_settlement_by_reference nearest rounded double_of percent_rate times
    math_round fee_of net_of percent_of platform_fee net_payout check_existing refusal ledger_entry
    duplicate_result inconsistent_result begin begin_balance begin_bank refuse route
    settle_store_order finish finish_balance finish_bank balance_result bank_result
    record_unless_settled balance_status bank_status retry_failed_settlements retry_each payouts
    record_cancel tracked placeholder cancel after_cancel perform perform_all classify decide
    succeeds progresses lacks_authority forbids misses invalid breaks forbidden_reason
code = tt

abbrev pub warung : StoreProfile
warung = record {
  store_id = "warung";
  store_name = "Warung";
  owner_whatsapp = "+62 811";
  settlement_info = none;
}

abbrev pub toko : StoreProfile
toko = record {
  store_id = "toko";
  store_name = "Toko";
  owner_whatsapp = "";
  settlement_info = some (record {
    payout_method = bank;
    dana_number = none;
    bank_details = some (record { account_number = "001"; bank_code = "014" });
    platform_fee_percent = some 150;
  });
}

abbrev pub order : StoreProfile → String → ℕ → StoreSettlementParams
order store id gross = record {
  store = store;
  gross_amount = gross;
  order_id = id;
  custom_fee_percent = none;
}

-- a provider that pays DANA accounts at once and leaves bank transfers in progress
abbrev pub api : Provider
api = record {
  disburse_to_balance = λ q. record {
    success = true;
    flags = no_flags;
    response_code = some "2003800";
    response_message = some "Successful";
    partner_reference_no = q.partner_reference_no;
    reference_no = some "REF";
    error = none;
  };
  disburse_to_bank = λ q. record {
    success = true;
    status = in_progress;
    flags = record no_flags { pending = some true };
    response_code = some "2024300";
    response_message = some "In Progress";
    partner_reference_no = q.partner_reference_no;
    reference_no = none;
    error = none;
  };
}

-- 2% of 50.000 is kept, and the digits of the WhatsApp number are the destination
pays_net : (settle_store_order api 5 (order warung "o1" 50000) empty_store).0.net_payout ≡ 49000
unfolding code
pays_net = refl

pays_to : (settle_store_order api 5 (order warung "o1" 50000) empty_store).0.destination ≡ "62811"
unfolding code
pays_to = refl

abbrev pub one_settled : OrderSettlementStore
one_settled = (settle_store_order api 5 (order warung "o1" 50000) empty_store).1

second_is_duplicate :
    (settle_store_order api 9 (order warung "o1" 50000) one_settled).0.is_duplicate ≡ some true
unfolding code
second_is_duplicate = refl

other_amount_is_refused :
    (settle_store_order api 9 (order warung "o1" 70000) one_settled).0.error
    ≡ some
        "Inconsistent Request: duplicate transfer for order o1 with mismatched gross amount (recorded: Rp 50000, attempted: Rp 70000). Duplicate transfer rejected. Please retry transaction properly."
unfolding code
other_amount_is_refused = refl

abbrev calls : List Call
calls =
    record { api = api; now = 5; params = order warung "o1" 50000 }
    ∷ record { api = api; now = 6; params = order toko "o2" 90000 }
    ∷ record { api = api; now = 7; params = order warung "o1" 50000 }
    ∷ []

one_payout : payouts "o1" calls empty_store ≡ 1
unfolding code
one_payout = refl

api-IsClear : IsClear api
api-IsClear q h = let z : false ≡ true = h in cc

calls-AllClear : AllClear calls
calls-AllClear = (api-IsClear, (api-IsClear, (api-IsClear, tt)))

payouts-le-one_example :
    payouts "o1" calls empty_store + (if has_been_settled empty_store "o1" then 1 else 0) ≤ 1
payouts-le-one_example = payouts-le-one "o1" calls empty_store calls-AllClear

-- a bank answer that is a success and in progress is recorded as PENDING, and the order sent again
abbrev unclear_api : Provider
unclear_api = record api {
  disburse_to_bank = λ q. record {
    success = true;
    status = settled;
    flags = record no_flags { pending = some true };
    response_code = some "2004300";
    response_message = some "Successful";
    partner_reference_no = q.partner_reference_no;
    reference_no = none;
    error = none;
  };
}

abbrev unclear_call : Call
unclear_call = record { api = unclear_api; now = 6; params = order toko "o2" 90000 }

unclear_pays_twice : payouts "o2" (unclear_call ∷ unclear_call ∷ []) empty_store ≡ 2
unfolding code
unclear_pays_twice = refl

-- halves that the doubles miss: 14.5% of 100, 29% of 50; and one that they hit, 2.5% of 100
halves :
    fee_of 1450 100 ∷ fee_of 2900 50 ∷ fee_of 250 100 ∷ fee_of 200 50000 ∷ []
    ≡ 14 ∷ 14 ∷ 3 ∷ 1000 ∷ []
unfolding code
halves = refl

payout_split_example :
    (10000 * platform_fee (order toko "o2" 90001)
      ≤ percent_of (order toko "o2" 90001) * 90001 + 5104)
    × (percent_of (order toko "o2" 90001) * 90001
        ≤ 10000 * platform_fee (order toko "o2" 90001) + 5104)
    × (platform_fee (order toko "o2" 90001) + net_payout (order toko "o2" 90001) ≡ 90001)
payout_split_example =
    payout_split (order toko "o2" 90001) (unfold code in omega arith) (omega arith)

-- an order that the bank still works on, and is sent to the bank again
abbrev one_pending : OrderSettlementStore
one_pending = (settle_store_order api 6 (order toko "o2" 90000) empty_store).1

pending_is_sent_again : sends (begin 8 (order toko "o2" 90000) one_pending) ≡ true
unfolding code
pending_is_sent_again = refl

begin-sends_iff_example : (sends (begin 8 (order toko "o2" 90000) one_pending) ≡ true) ↔ (
    IsOpen (order toko "o2" 90000) (get_settlement one_pending "o2")
    × (0 < net_payout (order toko "o2" 90000))
    × (has_destination (payout_method toko) toko ≡ true))
begin-sends_iff_example = begin-sends_iff 8 (order toko "o2" 90000) one_pending

begin-IsCorrect_example :
    IsCorrect (order warung "o1" 50000) (begin 5 (order warung "o1" 50000) empty_store)
begin-IsCorrect_example = begin-IsCorrect 5 (order warung "o1" 50000) empty_store

abbrev pub settled_o1 : OrderSettlementRecord
settled_o1 = record {
  order_id = "o1";
  store_id = "warung";
  store_name = "Warung";
  gross_amount = 50000;
  platform_fee = 1000;
  net_payout = 49000;
  payout_method = dana;
  destination = "62811";
  status = success;
  partner_reference_no = some "PAYOUT-o1";
  reference_no = some "REF";
  error = none;
  settled_at = 5;
  attempts = some 1;
  last_attempt_at = some 5;
  refund_details = none;
  cancel_details = none;
}

o1_is_settled : get_settlement one_settled "o1" ≡ some settled_o1
unfolding code
o1_is_settled = refl

-- two calls for one order overlap: the second begins while the first is awaited
abbrev idle : System
idle = record { ledger = one_settled; flights = [] }

abbrev busy : System
busy = record {
  ledger = one_settled;
  flights =
      on_bank (order toko "o2" 90000)
        (record {
          beneficiary_account_number = "001";
          beneficiary_bank_code = "014";
          amount = 88650;
          partner_reference_no = "PAYOUT-BANK-o2";
          fund_type = "MERCHANT_WITHDRAW_FOR_CORPORATE";
          need_notify = true;
        })
        (record { account_number = "001"; bank_code = "014" })
      ∷ [];
}

idle-busy : Reach idle busy
unfolding code
idle-busy = next here (begins idle 6 (order toko "o2" 90000))

Reach-keeps_settled_example : get_settlement busy.ledger "o1" ≡ some settled_o1
Reach-keeps_settled_example = Reach-keeps_settled "o1" settled_o1 refl idle-busy o1_is_settled

-- ===== src/Settlement/Request.antt =====
-- src/capabilities/fintech/dana/types.ts and the payout fields of `StoreProfile`: what a settlement
-- is asked with, what it asks of the disbursement provider, and what it answers.
use sera_core.Prelude.{ℕ, String, Bool, Option, none}
use sera_core.Settlement.Store.{PayoutMethod}

pub record BankDetails : Type 0 where
  pub account_number : String
  pub bank_code : String

pub record StoreSettlementInfo : Type 0 where
  pub payout_method : PayoutMethod
  pub dana_number : Option String
  pub bank_details : Option BankDetails
  pub platform_fee_percent : Option ℕ

pub record StoreProfile : Type 0 where
  pub store_id : String
  pub store_name : String
  pub owner_whatsapp : String
  pub settlement_info : Option StoreSettlementInfo

pub record StoreSettlementParams : Type 0 where
  pub store : StoreProfile
  pub gross_amount : ℕ
  pub order_id : String
  pub custom_fee_percent : Option ℕ

-- the optional flags of an answer; one that is absent is `none`
pub record Flags : Type 0 where
  pub pending : Option Bool
  pub inconsistent : Option Bool
  pub insufficient_fund : Option Bool
  pub inactive_account : Option Bool
  pub invalid_field_format : Option Bool
  pub missing_mandatory_field : Option Bool
  pub do_not_honor : Option Bool
  pub internal_server_error : Option Bool
  pub general_error : Option Bool
  pub unauthorized : Option Bool
  pub suspected_fraud : Option Bool

abbrev pub no_flags : Flags
no_flags = record {
  pending = none;
  inconsistent = none;
  insufficient_fund = none;
  inactive_account = none;
  invalid_field_format = none;
  missing_mandatory_field = none;
  do_not_honor = none;
  internal_server_error = none;
  general_error = none;
  unauthorized = none;
  suspected_fraud = none;
}

-- 'SUCCESS' | 'IN_PROGRESS' | 'FAILED'
pub data ResultStatus : Type 0 where
  settled in_progress not_settled : ResultStatus

pub record StoreSettlementResult : Type 0 where
  pub success : Bool
  pub status : Option ResultStatus
  pub flags : Flags
  pub response_code : Option String
  pub response_message : Option String
  pub order_id : String
  pub store_id : String
  pub store_name : String
  pub gross_amount : ℕ
  pub platform_fee : ℕ
  pub net_payout : ℕ
  pub payout_method : PayoutMethod
  pub destination : String
  pub partner_reference_no : Option String
  pub reference_no : Option String
  pub is_duplicate : Option Bool
  pub error : Option String

pub record BalanceRequest : Type 0 where
  pub customer_number : String
  pub amount : ℕ
  pub fee_amount : ℕ
  pub partner_reference_no : String
  pub fund_type : String

pub record BankRequest : Type 0 where
  pub beneficiary_account_number : String
  pub beneficiary_bank_code : String
  pub amount : ℕ
  pub partner_reference_no : String
  pub fund_type : String
  pub need_notify : Bool

-- `DisburseToBalanceResult`, without the fields that the coordinator does not read
pub record BalanceAnswer : Type 0 where
  pub success : Bool
  pub flags : Flags
  pub response_code : Option String
  pub response_message : Option String
  pub partner_reference_no : String
  pub reference_no : Option String
  pub error : Option String

-- `DisburseToBankResult`, likewise
pub record BankAnswer : Type 0 where
  pub success : Bool
  pub status : ResultStatus
  pub flags : Flags
  pub response_code : Option String
  pub response_message : Option String
  pub partner_reference_no : String
  pub reference_no : Option String
  pub error : Option String

-- `IDanaDisbursementProvider`
pub record Provider : Type 0 where
  pub disburse_to_balance : BalanceRequest → BalanceAnswer
  pub disburse_to_bank : BankRequest → BankAnswer

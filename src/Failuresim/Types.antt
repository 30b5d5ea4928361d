-- ===== src/Failuresim/Types.antt =====
-- internal/failuresim/types.go: the records of the deterministic protocol model, and its errors.
use payment_platform.Common.{ℕ, String, Bool, List}
use payment_platform.Ledger.Amount.{Amount, Side, LedgerError}

pub data Error : Type 0 where
  invalid_configuration region_down no_quorum stale_epoch insufficient_funds : Error
  insufficient_rights idempotency_conflict effect_conflict response_lost : Error
  crash_before_commit crash_after_commit payment_not_found refund_exceeded : Error
  transfer_invalid transfer_conflict consumer_crash coordinator_down : Error
  coordinator_crash external_timeout cashback_exceeded : Error
  ledger_error : LedgerError → Error

abbrev pub user_account : String
user_account = "wallet:customer"

abbrev pub merchant_account : String
merchant_account = "payable:merchant"

abbrev pub funding_account : String
funding_account = "clearing:funding"

abbrev pub cashback_expense_account : String
cashback_expense_account = "expense:cashback"

abbrev pub authority_issuer_account : String
authority_issuer_account = "authority:issuer"

abbrev pub authority_consumed_account : String
authority_consumed_account = "authority:consumed"

abbrev pub authority_transit_account : String
authority_transit_account = "authority:in-transit"

abbrev pub authority_unallocated_account : String
authority_unallocated_account = "authority:unallocated"

pub record Fence : Type 0 where
  pub region : String
  pub epoch : ℕ

pub record JournalLine : Type 0 where
  pub account : String
  pub asset : String
  pub side : Side
  pub amount : Amount

-- A `[32]byte` is the number of its bytes, highest first.
pub record JournalTransaction : Type 0 where
  pub sequence : ℕ
  pub id : String
  pub effect_id : String
  pub kind : String
  pub request_hash : ℕ
  pub previous_hash : ℕ
  pub hash : ℕ
  pub lines : List JournalLine

pub record Receipt : Type 0 where
  pub idempotency_key : String
  pub effect_id : String
  pub transaction_id : String
  pub commit_sequence : ℕ
  pub duplicate : Bool

pub data PaymentState : Type 0 where
  captured partially_refunded refunded reversed disputed : PaymentState

pub record TransferCertificate : Type 0 where
  pub transfer_id : String
  pub asset : String
  pub source_region : String
  pub destination_region : String
  pub amount : Amount
  pub source_epoch : ℕ
  pub commit_sequence : ℕ
  pub commit_proof : ℕ

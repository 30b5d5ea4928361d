-- ===== src/Ledger/Posting.antt =====
-- internal/ledger/types.go: the posting request and `Validate`.
use payment_platform.Common.{
  ℕ, String, str_eq, Bool, true, false, not, ◌&&◌, ◌||◌, Option, none, some, List, [], ◌∷◌, Result,
  ok, ◌>>=◌, ◌>>◌, fail_if, ltb, leb, pos, ◌+ℤ◌, eqb_ℤ, length,
}
use payment_platform.Common.Bytes.{utf8}
use payment_platform.Common.Dict.{Dict, get, insert}
use payment_platform.Ledger.Amount.{
  Amount, Side, debit, credit, other_side, LedgerError, invalid_posting, unbalanced,
  amount_overflow, fits_decimal38, is_not_positive, is_negative,
}

pub record Line : Type 0 where
  pub account_id : String
  pub asset_id : String
  pub side : Side
  pub amount_atoms : Amount
  pub memo : String

-- `metadata` is raw JSON; a `[32]byte` is the number of its bytes, highest first.
pub record PostRequest : Type 0 where
  pub transaction_id : String
  pub book_id : String
  pub operation_id : String
  pub effect_id : String
  pub kind : String
  pub reference_transaction_id : Option String
  pub posting_rule_version : String
  pub schema_version : Amount
  pub request_hash : ℕ
  pub metadata : List ℕ
  pub lines : List Line

pub record Account : Type 0 where
  pub account_id : String
  pub book_id : String
  pub asset_id : String
  pub account_type : String
  pub normal_side : Side
  pub enforce_spend_limit : Bool
  pub credit_limit_atoms : Amount

pub record Totals : Type 0 where
  pub debit : Amount
  pub credit : Amount

abbrev pub no_totals : Totals
no_totals = record { debit = pos 0; credit = pos 0 }

-- `validID`: the length is in bytes.
unfoldable pub valid_id : String → Bool
valid_id value = not (str_eq value "") && leb (length (utf8 value)) 512

abbrev pub is_side : Side → Bool
is_side debit = true
is_side credit = true
is_side (other_side s) = false

abbrev pub valid_reference : Option String → Bool
valid_reference none = true
valid_reference (some id) = valid_id id

unfoldable pub add_side : Side → Amount → Totals → Totals
add_side debit amount t = record t { debit = t.debit +ℤ amount }
add_side _ amount t = record t { credit = t.credit +ℤ amount }

-- One line: its checks, its total, and the bound on the total.
unfoldable pub check_line : Line → Dict Totals → Result LedgerError (Dict Totals)
check_line l totals = do
  fail_if (not (valid_id l.account_id) || not (valid_id l.asset_id)) invalid_posting
  fail_if (not (is_side l.side)) invalid_posting
  fail_if (is_not_positive l.amount_atoms || not (fits_decimal38 l.amount_atoms)) invalid_posting
  let t = add_side l.side l.amount_atoms (get no_totals l.asset_id totals)
  fail_if (not (fits_decimal38 t.debit) || not (fits_decimal38 t.credit)) amount_overflow
  ok (insert l.asset_id t totals)

unfoldable pub check_lines : List Line → Dict Totals → Result LedgerError (Dict Totals)
check_lines [] totals = ok totals
check_lines (l ∷ ls) totals = check_line l totals >>= check_lines ls

unfoldable pub all_equal : Dict Totals → Bool
all_equal [] = true
all_equal ((_, t) ∷ rest) = eqb_ℤ t.debit t.credit && all_equal rest

module _ (reencode_json : List ℕ → Option (List ℕ)) where
  -- `CanonicalJSON`: `reencode_json` decodes one value to the end of the text and writes it again.
  unfoldable pub canonical_json : List ℕ → Option (List ℕ)
  canonical_json [] = some (utf8 "{}")
  canonical_json (byte ∷ bytes) = reencode_json (byte ∷ bytes)

  abbrev pub is_json : List ℕ → Bool
  is_json raw = elim (canonical_json raw) [ none ↦ false | some _ ↦ true ]

  unfoldable pub validate : PostRequest → Result LedgerError (Unit {0})
  validate r = do
    fail_if
        (not (valid_id r.transaction_id)
          || (not (valid_id r.book_id)
              || (not (valid_id r.operation_id)
                  || (not (valid_id r.effect_id)
                      || (str_eq r.kind "" || str_eq r.posting_rule_version "")))))
        invalid_posting
    fail_if (is_not_positive r.schema_version) invalid_posting
    fail_if (not (valid_reference r.reference_transaction_id)) invalid_posting
    fail_if (ltb (length r.lines) 2) invalid_posting
    fail_if (not (is_json r.metadata)) invalid_posting
    totals ← check_lines r.lines []
    fail_if (not (all_equal totals)) unbalanced

-- `Account.Validate`
unfoldable pub validate_account : Account → Result LedgerError (Unit {0})
validate_account a = do
  fail_if
      (not (valid_id a.account_id)
        || (not (valid_id a.book_id) || (not (valid_id a.asset_id) || str_eq a.account_type "")))
      invalid_posting
  fail_if (not (is_side a.normal_side)) invalid_posting
  fail_if (is_negative a.credit_limit_atoms || not (fits_decimal38 a.credit_limit_atoms))
      invalid_posting

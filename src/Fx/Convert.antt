-- ===== src/Fx/Convert.antt =====
-- internal/fx/service.go: `Convert`, the checks of `CreateQuote` and the lines of `Exchange`.
use payment_platform.Common.{
  ℕ, ◌+◌, ◌*◌, ◌/◌, ◌%◌, pos, pos_part, String, str_eq, Bool, true, false, not, ◌&&◌, ◌||◌, List,
  [], ◌∷◌, Result, ok, err, ltb, ◌==◌, if◌then◌else◌,
}
use payment_platform.Ledger.Amount.{
  Amount, LedgerError, amount_overflow, fits_decimal38, is_not_positive, debit, credit,
}
use payment_platform.Ledger.Posting.{Line}
use Prim.Native.String

-- A rule read from a request may be any text.
pub data RoundingRule : Type 0 where
  floor ceiling half_even : RoundingRule
  other_rule : String → RoundingRule

pub data FxError : Type 0 where
  invalid_quote quote_not_found quote_expired quote_consumed empty_id : FxError
  ledger_error : LedgerError → FxError

abbrev pub is_rule : RoundingRule → Bool
is_rule (other_rule s) = false
is_rule _ = true

-- The quotient as the rule rounds it, from the remainder.
unfoldable pub round : RoundingRule → ℕ → ℕ → ℕ → ℕ
round ceiling quotient remainder denominator = if remainder == 0 then quotient else quotient + 1
round half_even quotient remainder denominator =
    if ltb denominator (2 * remainder) || (2 * remainder == denominator && quotient % 2 == 1)
    then quotient + 1
    else quotient
round _ quotient remainder denominator = quotient

-- `ParseAmount` of a natural number's decimal text.
unfoldable pub amount_of : ℕ → Result FxError Amount
amount_of n = if fits_decimal38 (pos n) then ok (pos n) else err (ledger_error amount_overflow)

-- `Convert`
unfoldable pub convert : Amount → Amount → Amount → RoundingRule → Result FxError Amount
convert base numerator denominator rule =
    let product = pos_part base * pos_part numerator in
    if is_not_positive base
      || (is_not_positive numerator || (is_not_positive denominator || not (is_rule rule)))
    then err invalid_quote
    else amount_of (
        round rule (product / pos_part denominator) (product % pos_part denominator)
          (pos_part denominator))

pub record Quote : Type 0 where
  pub quote_id : String
  pub base_asset_id : String
  pub quote_asset_id : String
  pub rate_numerator : Amount
  pub rate_denominator : Amount
  pub base_amount : Amount
  pub quote_amount : Amount
  pub rounding_rule : RoundingRule
  pub expires_at : ℕ

pub record CreateQuoteRequest : Type 0 where
  pub base_asset_id : String
  pub quote_asset_id : String
  pub rate_numerator : Amount
  pub rate_denominator : Amount
  pub base_amount : Amount
  pub rounding_rule : RoundingRule
  pub expires_at : ℕ

unfoldable pub quote_of : CreateQuoteRequest → String → Amount → Quote
quote_of q id amount = record {
  quote_id = String.◌++◌ "quote_" id;
  base_asset_id = q.base_asset_id;
  quote_asset_id = q.quote_asset_id;
  rate_numerator = q.rate_numerator;
  rate_denominator = q.rate_denominator;
  base_amount = q.base_amount;
  quote_amount = amount;
  rounding_rule = q.rounding_rule;
  expires_at = q.expires_at;
}

abbrev pub positive_quote : Result FxError Amount → Result FxError Amount
positive_quote (err e) = err invalid_quote
positive_quote (ok amount) = if is_not_positive amount then err invalid_quote else ok amount

-- `CreateQuote` up to its insert, with the identifier that the generator gave; time zero is unset.
unfoldable pub create_quote : CreateQuoteRequest → String → Result FxError Quote
create_quote q id =
    if str_eq q.base_asset_id ""
      || (str_eq q.quote_asset_id ""
          || (str_eq q.base_asset_id q.quote_asset_id || q.expires_at == 0))
    then err invalid_quote
    else elim (positive_quote
        (convert q.base_amount q.rate_numerator q.rate_denominator q.rounding_rule)) [
          | err e ↦ err e
          | ok amount ↦ if str_eq id "" then err empty_id else ok (quote_of q id amount)
        ]

pub record ExchangeAccounts : Type 0 where
  pub base_debit : String
  pub base_position : String
  pub quote_position : String
  pub quote_credit : String

-- The lines that `Exchange` posts: each currency is balanced on its own.
unfoldable pub exchange_lines : Quote → ExchangeAccounts → List Line
exchange_lines q a =
    record {
      account_id = a.base_debit;
      asset_id = q.base_asset_id;
      side = debit;
      amount_atoms = q.base_amount;
      memo = "FX base debit";
    }
    ∷ record {
      account_id = a.base_position;
      asset_id = q.base_asset_id;
      side = credit;
      amount_atoms = q.base_amount;
      memo = "FX base position";
    }
    ∷ record {
      account_id = a.quote_position;
      asset_id = q.quote_asset_id;
      side = debit;
      amount_atoms = q.quote_amount;
      memo = "FX quote position";
    }
    ∷ record {
      account_id = a.quote_credit;
      asset_id = q.quote_asset_id;
      side = credit;
      amount_atoms = q.quote_amount;
      memo = "FX quote credit";
    }
    ∷ []

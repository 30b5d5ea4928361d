-- ===== src/Transfer/Legs.antt =====
-- internal/transfer/service.go and legs.go: the checks of a transfer and the postings that it becomes.
use payment_platform.Common.{
  ℕ, String, str_eq, Bool, false, not, ◌&&◌, ◌||◌, none, List, [], ◌∷◌, Result, ok, err, ◌>>=◌,
  ◌>>◌, fail_if, ltb, leb, ◌==◌, if◌then◌else◌, length, pos,
}
use payment_platform.Common.Bytes.{utf8}
use payment_platform.Ledger.Amount.{Amount, debit, credit, is_not_positive}
use payment_platform.Ledger.Posting.{Line, PostRequest}
use Prim.Native.String
use Prim.Native.Char.{code}
use Prim.Native.String.{compare}
use text.Mathlib.Text.{is_lt}

pub data TransferError : Type 0 where
  invalid_request account_not_usable asset_mismatch same_account : TransferError
  settlement_missing : TransferError

pub record Request : Type 0 where
  pub transfer_id : String
  pub idempotency_scope : String
  pub idempotency_key : String
  pub principal_id : String
  pub asset_id : String
  pub payer_account_id : String
  pub payee_account_id : String
  pub amount_atoms : Amount
  pub memo : String

-- A row of `accounts`.
pub record Party : Type 0 where
  pub account_id : String
  pub book_id : String
  pub asset_id : String
  pub status : String

pub data Leg : Type 0 where
  single payer payee : Leg

pub record LegPlan : Type 0 where
  pub leg : Leg
  pub book_id : String
  pub transaction_id : String
  pub effect_id : String
  pub kind : String
  pub metadata : List ℕ
  pub lines : List Line

-- The white space of `strings.TrimSpace`.
is_space : ℕ → Bool
is_space c =
    (leb 9 c && leb c 13)
    || (c == 32
        || (c == 0x85
            || (c == 0xA0
                || (c == 0x1680
                    || ((leb 0x2000 c && leb c 0x200A)
                        || (c == 0x2028
                            || (c == 0x2029 || (c == 0x202F || (c == 0x205F || c == 0x3000)))))))))

starts_with_space : String → Bool
unfolding is_space
starts_with_space String.[] = false
starts_with_space (String.◌∷◌ c s) = is_space (code c)

ends_with_space : String → Bool
unfolding is_space
ends_with_space String.[] = false
ends_with_space (String.◌∷◌ c s) =
    let rest = ends_with_space s in if str_eq s "" then is_space (code c) else rest

-- `strings.TrimSpace(value) == value`
abbrev is_trimmed : String → Bool
is_trimmed value = not (starts_with_space value) && not (ends_with_space value)

-- `boundedID`
unfoldable pub bounded_id : String → Bool
unfolding starts_with_space ends_with_space
bounded_id value = not (str_eq value "") && (leb (length (utf8 value)) 512 && is_trimmed value)

-- `Request.validate`
unfoldable pub validate_request : Request → Result TransferError (Unit {0})
validate_request r = do
  fail_if
      (not (bounded_id r.transfer_id)
        || (not (bounded_id r.idempotency_scope)
            || (not (bounded_id r.idempotency_key)
                || (not (bounded_id r.principal_id)
                    || (not (bounded_id r.asset_id)
                        || (not (bounded_id r.payer_account_id)
                            || not (bounded_id r.payee_account_id)))))))
      invalid_request
  fail_if (is_not_positive r.amount_atoms) invalid_request
  fail_if (str_eq r.payer_account_id r.payee_account_id) same_account
  fail_if (ltb 512 (length (utf8 r.memo))) invalid_request

-- `checkParties`
unfoldable pub check_parties : Request → Party → Party → Result TransferError (Unit {0})
check_parties r from to = do
  fail_if (str_eq from.account_id to.account_id) same_account
  fail_if (not (str_eq from.asset_id to.asset_id)) asset_mismatch
  fail_if (not (str_eq from.asset_id r.asset_id)) asset_mismatch
  fail_if (not (str_eq from.status "ACTIVE")) account_not_usable
  fail_if (not (str_eq to.status "ACTIVE")) account_not_usable

abbrev out_line : String → Request → String → Line
out_line account r memo = record {
  account_id = account;
  asset_id = r.asset_id;
  side = debit;
  amount_atoms = r.amount_atoms;
  memo = memo;
}

abbrev in_line : String → Request → String → Line
in_line account r memo = record {
  account_id = account;
  asset_id = r.asset_id;
  side = credit;
  amount_atoms = r.amount_atoms;
  memo = memo;
}

-- One book: one transaction.
unfoldable pub single_leg : Request → Party → Party → String → List ℕ → LegPlan
single_leg r from to transaction metadata = record {
  leg = single;
  book_id = from.book_id;
  transaction_id = transaction;
  effect_id = String.◌++◌ (r.transfer_id) ":single";
  kind = "TRANSFER";
  metadata = metadata;
  lines = out_line from.account_id r "transfer out" ∷ in_line to.account_id r "transfer in" ∷ [];
}

-- Two books: the payer's value leaves for its book's settlement account, and the payee's comes from its
-- own.
unfoldable pub payer_leg : Request → Party → String → String → List ℕ → LegPlan
payer_leg r from settlement transaction metadata = record {
  leg = payer;
  book_id = from.book_id;
  transaction_id = transaction;
  effect_id = String.◌++◌ (r.transfer_id) ":payer";
  kind = "TRANSFER";
  metadata = metadata;
  lines = out_line from.account_id r "transfer out" ∷ in_line settlement r "due to peer book" ∷ [];
}

unfoldable pub payee_leg : Request → Party → String → String → List ℕ → LegPlan
payee_leg r to settlement transaction metadata = record {
  leg = payee;
  book_id = to.book_id;
  transaction_id = transaction;
  effect_id = String.◌++◌ (r.transfer_id) ":payee";
  kind = "TRANSFER_SETTLEMENT";
  metadata = metadata;
  lines = out_line settlement r "due from peer book" ∷ in_line to.account_id r "transfer in" ∷ [];
}

-- The JSON object of the request, for the encoder.
abbrev pub metadata_of : Request → List (String × String)
metadata_of r =
    ("transfer_id", r.transfer_id)
    ∷ ("idempotency_scope", r.idempotency_scope)
    ∷ ("idempotency_key", r.idempotency_key)
    ∷ ("memo", r.memo)
    ∷ []

-- A row of `interbook_settlement_accounts`: book, asset and account.
pub record Settlement : Type 0 where
  pub book_id : String
  pub asset_id : String
  pub account_id : String

-- `settlementAccount`: the registry is asked, not the naming convention.
unfoldable pub settlement_account : List Settlement → String → String → Result TransferError String
settlement_account [] book asset = err settlement_missing
settlement_account (s ∷ rows) book asset =
    if str_eq s.book_id book && str_eq s.asset_id asset
    then ok s.account_id
    else settlement_account rows book asset

module _ (marshal : List (String × String) → List ℕ) (rows : List Settlement) where
  -- `planLegs`
  unfoldable pub plan_legs :
      Request → Party → Party → String → String → Result TransferError (List LegPlan)
  plan_legs r from to payer_transaction payee_transaction =
      let metadata = marshal (metadata_of r) in
      if str_eq from.book_id to.book_id
      then ok (single_leg r from to payer_transaction metadata ∷ [])
      else do
        payer_settlement ← settlement_account rows from.book_id r.asset_id
        payee_settlement ← settlement_account rows to.book_id r.asset_id
        ok (
            payer_leg r from payer_settlement payer_transaction metadata
            ∷ payee_leg r to payee_settlement payee_transaction metadata
            ∷ [])

  -- The checks and the plan, as `Execute` calls them for a transfer that is new.
  unfoldable pub plan_transfer :
      Request → Party → Party → String → String → Result TransferError (List LegPlan)
  plan_transfer r from to payer_transaction payee_transaction = do
    validate_request r
    check_parties r from to
    plan_legs r from to payer_transaction payee_transaction

-- `sort.Slice` by the book, on the one or two legs of a plan.
unfoldable pub place_leg : LegPlan → List LegPlan → List LegPlan
place_leg l [] = l ∷ []
place_leg l (m ∷ ms) =
    let rest = place_leg l ms in
    if is_lt (compare m.book_id l.book_id) then m ∷ rest else l ∷ m ∷ ms

unfoldable pub order_legs : List LegPlan → List LegPlan
order_legs [] = []
order_legs (l ∷ ls) = place_leg l (order_legs ls)

-- The request that `Execute` posts for a leg.
unfoldable pub post_request : Request → String → ℕ → LegPlan → PostRequest
post_request r policy hash l = record {
  transaction_id = l.transaction_id;
  book_id = l.book_id;
  operation_id = r.transfer_id;
  effect_id = l.effect_id;
  kind = l.kind;
  reference_transaction_id = none;
  posting_rule_version = policy;
  schema_version = pos 1;
  request_hash = hash;
  metadata = l.metadata;
  lines = l.lines;
}

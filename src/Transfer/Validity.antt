-- ===== src/Transfer/Validity.antt =====
-- What the checks of a transfer say, and the checks that the ledger makes of a leg.
use payment_platform.Common.{
  ℕ, ◌+◌, ◌≤◌, String, str_eq, ◌≡◌, refl, ◌∙◌, arith, true, false, ok, List, [], ◌∷◌, length,
  length-append, pos, eq_iff,
}
use payment_platform.Common.Bytes.{utf8, utf8-append}
use payment_platform.Common.Dict.{Dict, get, lookup, insert}
use payment_platform.Common.{Option, pos_part, neg_part, ==_iff, zero_+ℤ, str_eq_refl}
use text.Mathlib.TextLemmas.{append-eq-nil_iff}
use payment_platform.Ledger.Amount.{Amount, fits_decimal38, is_not_positive, debit, credit, Side}
use payment_platform.Ledger.Posting.{
  Line, Totals, no_totals, is_side, valid_id, is_json, check_lines, check_line, all_equal, add_side,
  validate,
}
use payment_platform.Transfer.Legs.{Request, LegPlan, bounded_id, validate_request, post_request}
use Prim.Native.String

-- What the request's own checks say.
pub record IsRequest (r : Request) : Type 0 where
  pub transfer : valid_id r.transfer_id ≡ true
  pub asset : valid_id r.asset_id ≡ true
  pub payer : valid_id r.payer_account_id ≡ true
  pub payee : valid_id r.payee_account_id ≡ true
  pub positive : is_not_positive r.amount_atoms ≡ false

bounded_id-valid : (value : String) → bounded_id value ≡ true → valid_id value ≡ true
unfolding bounded_id valid_id
bounded_id-valid value h = ground arith

pub validate_request-IsRequest : (r : Request) → validate_request r ≡ ok tt → IsRequest r
unfolding validate_request
validate_request-IsRequest r h = record {
  transfer = bounded_id-valid r.transfer_id (ground arith);
  asset = bounded_id-valid r.asset_id (ground arith);
  payer = bounded_id-valid r.payer_account_id (ground arith);
  payee = bounded_id-valid r.payee_account_id (ground arith);
  positive = ground arith;
}

-- A suffix keeps an identifier within the ledger's bound if it fits.
pub valid_id-append :
    (id suffix : String)
    → valid_id id ≡ true
    → length (utf8 id) + length (utf8 suffix) ≤ 512
    → valid_id (String.◌++◌ id suffix) ≡ true
unfolding valid_id
valid_id-append id suffix h fits = ground (
  arith,
  utf8-append id suffix,
  length-append (utf8 id) (utf8 suffix),
  eq_iff id "",
  eq_iff (String.◌++◌ id suffix) "",
  append-eq-nil_iff {p = id} {q = suffix},
)

-- A line that passes its checks is added to its asset.
check_line-accepts :
    (l : Line) (totals : Dict Totals)
    → valid_id l.account_id ≡ true
    → valid_id l.asset_id ≡ true
    → is_side l.side ≡ true
    → is_not_positive l.amount_atoms ≡ false
    → fits_decimal38 l.amount_atoms ≡ true
    → let t : Totals = add_side l.side l.amount_atoms (get no_totals l.asset_id totals) in
      fits_decimal38 t.debit ≡ true
      → fits_decimal38 t.credit ≡ true
      → check_line l totals ≡ ok (insert l.asset_id t totals)
unfolding check_line
check_line-accepts l totals account asset side positive fits d c =
    simp (account, asset, side, positive, fits, d, c)

fits_zero : fits_decimal38 (pos 0) ≡ true
unfolding fits_decimal38
fits_zero = refl

module _ (key : String) (t : Totals) where
  get-one : get no_totals key ((key, t) ∷ []) ≡ t
  unfolding get lookup
  get-one = simp (str_eq_refl key)

  insert-one : (u : Totals) → insert key u ((key, t) ∷ []) ≡ (key, u) ∷ []
  unfolding insert
  insert-one u = simp (str_eq_refl key)

abbrev pub a_line : String → String → Side → Amount → String → Line
a_line account asset side amount memo = record {
  account_id = account;
  asset_id = asset;
  side = side;
  amount_atoms = amount;
  memo = memo;
}

-- Two lines of one amount, out of one account and into another, are balanced.
module _ (a b asset memo_a memo_b : String) (amount : Amount) (ha : valid_id a ≡ true)
    (hb : valid_id b ≡ true) (hs : valid_id asset ≡ true)
    (positive : is_not_positive amount ≡ false) (fits : fits_decimal38 amount ≡ true) where
  abbrev after_debit : Totals
  after_debit = record { debit = amount; credit = pos 0 }

  abbrev after_both : Totals
  after_both = record { debit = amount; credit = amount }

  debit_checked :
      check_line (a_line a asset debit amount memo_a) [] ≡ ok ((asset, after_debit) ∷ [])
  unfolding add_side get lookup insert
  debit_checked =
      check_line-accepts (a_line a asset debit amount memo_a) [] ha hs refl positive fits
        (rw (zero_+ℤ amount) fits) fits_zero
      ∙ simp (zero_+ℤ amount)

  credit_checked :
      check_line (a_line b asset credit amount memo_b) ((asset, after_debit) ∷ [])
      ≡ ok ((asset, after_both) ∷ [])
  unfolding add_side
  credit_checked =
      check_line-accepts (a_line b asset credit amount memo_b) ((asset, after_debit) ∷ []) hb hs
        refl positive fits (rw (get-one asset after_debit) fits)
        (rw (get-one asset after_debit, zero_+ℤ amount) fits)
      ∙ simp (get-one asset after_debit, zero_+ℤ amount, insert-one asset after_debit after_both)

  check_lines_pair :
      check_lines (a_line a asset debit amount memo_a ∷ a_line b asset credit amount memo_b ∷ []) []
      ≡ ok ((asset, after_both) ∷ [])
  unfolding check_lines
  check_lines_pair = rw (debit_checked, credit_checked) refl

  all_equal-both : all_equal ((asset, after_both) ∷ []) ≡ true
  unfolding all_equal
  all_equal-both = simp ((==_iff (pos_part amount + neg_part amount) _).1 refl)

  -- A leg of two such lines is accepted.
  pub leg-validates :
      (reencode_json : List ℕ → Option (List ℕ)) (r : Request) (policy : String) (hash : ℕ)
      (l : LegPlan)
      → l.lines ≡ a_line a asset debit amount memo_a ∷ a_line b asset credit amount memo_b ∷ []
      → valid_id l.transaction_id ≡ true
      → valid_id l.book_id ≡ true
      → valid_id r.transfer_id ≡ true
      → valid_id l.effect_id ≡ true
      → str_eq l.kind "" ≡ false
      → str_eq policy "" ≡ false
      → is_json reencode_json l.metadata ≡ true
      → validate reencode_json (post_request r policy hash l) ≡ ok tt
  unfolding validate post_request
  leg-validates reencode_json r policy hash l lines transaction book transfer effect kind ruled
        json =
      simp (
        lines, transaction, book, transfer, effect, kind, ruled, json, check_lines_pair,
        all_equal-both,
      )

-- ===== src/Ledger/DoubleEntry.antt =====
-- What `PostRequest.Validate` of internal/ledger/types.go accepts.
use payment_platform.Common.{
  ℕ, String, str_eq, eq_iff, ◌≡◌, refl, inl, inr, pos, ◌+ℤ◌, ℤ, int_laws, arith, true, List, [],
  ◌∷◌, Option, ok, if◌then◌else◌, >>=-eq-ok, Result-cases, Bool-cases, parts, +ℤ_zero, length, ◌≤◌,
  All, ltb_ℤ,
}
use payment_platform.Common.Dict.{Dict, lookup, get, get-insert, insert}
use payment_platform.Ledger.Amount.{Amount, Side, debit, credit, other_side, fits_decimal38}
use payment_platform.Ledger.Posting.{
  Line, PostRequest, Totals, no_totals, add_side, check_line, check_lines, all_equal, validate,
}

abbrev debit_part : Side → Amount → ℤ
debit_part debit amount = amount
debit_part _ amount = pos 0

abbrev credit_part : Side → Amount → ℤ
credit_part debit amount = pos 0
credit_part _ amount = amount

-- The sums of the debit and of the credit lines in one asset.
abbrev pub debit_sum : String → List Line → ℤ
debit_sum a [] = pos 0
debit_sum a (l ∷ ls) =
    (if str_eq l.asset_id a then debit_part l.side l.amount_atoms else pos 0) +ℤ debit_sum a ls

abbrev pub credit_sum : String → List Line → ℤ
credit_sum a [] = pos 0
credit_sum a (l ∷ ls) =
    (if str_eq l.asset_id a then credit_part l.side l.amount_atoms else pos 0) +ℤ credit_sum a ls

add_side-parts :
    (side : Side) (amount : Amount) (t : Totals)
    → ((add_side side amount t).debit ≡ t.debit +ℤ debit_part side amount)
      × ((add_side side amount t).credit ≡ t.credit +ℤ credit_part side amount)
unfolding add_side
add_side-parts debit amount t = (refl, omega int_laws)
add_side-parts credit amount t = (omega int_laws, refl)
add_side-parts (other_side s) amount t = (omega int_laws, refl)

-- A line that is accepted has a positive amount that fits, and has been added to its asset.
record IsChecked (l : Line) (totals totals' : Dict Totals) : Type 0 where
  positive : ltb_ℤ (pos 0) l.amount_atoms ≡ true
  fits : fits_decimal38 l.amount_atoms ≡ true
  added :
      totals'
      ≡ insert l.asset_id (add_side l.side l.amount_atoms (get no_totals l.asset_id totals)) totals

check_line-ok :
    (l : Line) (totals : Dict Totals) {totals' : Dict Totals}
    → check_line l totals ≡ ok totals'
    → IsChecked l totals totals'
unfolding check_line
check_line-ok l totals h = record {
  positive = ground arith;
  fits = ground arith;
  added = ground arith;
}

check_line-sums :
    (l : Line) (totals : Dict Totals) (a : String) {totals' : Dict Totals}
    → check_line l totals ≡ ok totals'
    → ((get no_totals a totals').debit
        ≡ (get no_totals a totals).debit
          +ℤ (if str_eq l.asset_id a then debit_part l.side l.amount_atoms else pos 0))
      × ((get no_totals a totals').credit
          ≡ (get no_totals a totals).credit
            +ℤ (if str_eq l.asset_id a then credit_part l.side l.amount_atoms else pos 0))
check_line-sums l totals a h = ground (
  arith,
  (check_line-ok l totals h).added,
  get-insert no_totals l.asset_id a
      (add_side l.side l.amount_atoms (get no_totals l.asset_id totals)) totals,
  add_side-parts l.side l.amount_atoms (get no_totals l.asset_id totals),
  eq_iff l.asset_id a,
  +ℤ_zero (get no_totals a totals).debit,
  +ℤ_zero (get no_totals a totals).credit,
)

check_lines-sums :
    (ls : List Line) (totals : Dict Totals) (a : String) {totals' : Dict Totals}
    → check_lines ls totals ≡ ok totals'
    → ((get no_totals a totals').debit ≡ (get no_totals a totals).debit +ℤ debit_sum a ls)
      × ((get no_totals a totals').credit ≡ (get no_totals a totals).credit +ℤ credit_sum a ls)
unfolding check_lines
check_lines-sums [] totals a h =
    ground (arith, +ℤ_zero (get no_totals a totals).debit, +ℤ_zero (get no_totals a totals).credit)
check_lines-sums (l ∷ ls) totals a h =
    let (next, first, rest) = >>=-eq-ok (check_line l totals) (check_lines ls) h in
    let one = check_line-sums l totals a first in
    let more = check_lines-sums ls next a rest in
    (rw (more.0, one.0) (omega int_laws), rw (more.1, one.1) (omega int_laws))

get-all_equal :
    (a : String) (d : Dict Totals)
    → all_equal d ≡ true
    → (get no_totals a d).debit ≡ (get no_totals a d).credit
unfolding all_equal get lookup
get-all_equal a [] h = refl
get-all_equal a ((k, t) ∷ d) h = ground (arith, get-all_equal a d)

-- An amount that may stand in a line.
pub record IsLine (l : Line) : Type 0 where
  pub positive : ltb_ℤ (pos 0) l.amount_atoms ≡ true
  pub fits : fits_decimal38 l.amount_atoms ≡ true

check_lines-All :
    (ls : List Line) (totals : Dict Totals) {totals' : Dict Totals}
    → check_lines ls totals ≡ ok totals'
    → All IsLine ls
unfolding check_lines
check_lines-All [] totals h = tt
check_lines-All (l ∷ ls) totals h =
    let (next, first, rest) = >>=-eq-ok (check_line l totals) (check_lines ls) h in
    let c = check_line-ok l totals first in
    (record { positive = c.positive; fits = c.fits }, check_lines-All ls next rest)

-- A request that is accepted has at least two lines.
pub record IsPosting (r : PostRequest) : Type 0 where
  pub two : 2 ≤ length r.lines
  pub amounts : All IsLine r.lines
  pub balanced : (asset : String) → debit_sum asset r.lines ≡ credit_sum asset r.lines

-- `Validate` accepts only postings of two lines or more, of positive amounts of at most 38 digits, in
-- which the debits and the credits of every asset are equal.
pub validate-IsPosting :
    (reencode_json : List ℕ → Option (List ℕ)) (r : PostRequest)
    → validate reencode_json r ≡ ok tt
    → IsPosting r
unfolding validate get lookup
validate-IsPosting reencode_json r h = elim (Result-cases (check_lines r.lines [])) [
  | inl (e, failed) ↦ ground arith
  | inr (totals, e) ↦ elim (Bool-cases (all_equal totals)) [
    | inr differ ↦ ground arith
    | inl equal ↦ record {
      two = ground arith;
      amounts = check_lines-All r.lines [] e;
      balanced = λ asset.
          let sums = check_lines-sums r.lines [] asset e in
          omega (int_laws, parts sums.0, parts sums.1, parts (get-all_equal asset totals equal));
    }
  ]
]

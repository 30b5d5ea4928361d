-- ===== src/Failuresim/Book/Totals.antt =====
-- Double entry: what `postLocked` accepts balances in every asset.
use payment_platform.Common.{
  String, str_eq, eq_iff, ◌≡◌, refl, inl, inr, pos, ◌+ℤ◌, int_laws, arith, true, List, [], ◌∷◌, ok,
  if◌then◌else◌, Result-cases, >>=-eq-ok, +ℤ_zero, ℤ,
}
use payment_platform.Common.Dict.{Dict, lookup, get, get-insert}
use payment_platform.Ledger.Amount.{Amount, Side, debit, credit, other_side, add, add-ok}
use payment_platform.Failuresim.Types.{JournalLine}
use payment_platform.Failuresim.Book.{
  AssetTotals, no_totals, add_total, Tally, tally_line, tally_lines, all_balanced,
}
use payment_platform.Failuresim.Book.Balances.{tally_line-ok}

abbrev debit_amount : Side → Amount → ℤ
debit_amount debit amount = amount
debit_amount _ amount = pos 0

abbrev credit_amount : Side → Amount → ℤ
credit_amount debit amount = pos 0
credit_amount _ amount = amount

-- The sum of the debit lines in one asset, and of the credit lines.
abbrev pub debits_of : String → List JournalLine → ℤ
debits_of a [] = pos 0
debits_of a (l ∷ ls) =
    (if str_eq l.asset a then debit_amount l.side l.amount else pos 0) +ℤ debits_of a ls

abbrev pub credits_of : String → List JournalLine → ℤ
credits_of a [] = pos 0
credits_of a (l ∷ ls) =
    (if str_eq l.asset a then credit_amount l.side l.amount else pos 0) +ℤ credits_of a ls

add_total-sides :
    (side : Side) (amount : Amount) (t : AssetTotals) {t' : AssetTotals}
    → add_total side amount t ≡ ok t'
    → (t'.debits ≡ t.debits +ℤ debit_amount side amount)
      × (t'.credits ≡ t.credits +ℤ credit_amount side amount)
unfolding add_total
add_total-sides debit amount t h = elim (Result-cases (add t.debits amount)) [
  | inl (e, failed) ↦ ground arith
  | inr (sum, added) ↦ ground (arith, add-ok t.debits amount added, +ℤ_zero t.credits)
]
add_total-sides credit amount t h = elim (Result-cases (add t.credits amount)) [
  | inl (e, failed) ↦ ground arith
  | inr (sum, added) ↦ ground (arith, add-ok t.credits amount added, +ℤ_zero t.debits)
]
add_total-sides (other_side s) amount t h = elim (Result-cases (add t.credits amount)) [
  | inl (e, failed) ↦ ground arith
  | inr (sum, added) ↦ ground (arith, add-ok t.credits amount added, +ℤ_zero t.debits)
]

abbrev of_asset : String → Tally → AssetTotals
of_asset a t = get no_totals a t.per_asset

tally_line-totals :
    (bal : Dict Amount) (l : JournalLine) (t : Tally) (a : String) {t' : Tally}
    → tally_line bal l t ≡ ok t'
    → ((of_asset a t').debits
        ≡ (of_asset a t).debits
          +ℤ (if str_eq l.asset a then debit_amount l.side l.amount else pos 0))
      × ((of_asset a t').credits
          ≡ (of_asset a t).credits
            +ℤ (if str_eq l.asset a then credit_amount l.side l.amount else pos 0))
tally_line-totals bal l t a h =
    let (total, balance, _, added, _, e) = tally_line-ok bal l t h in
    ground (
      arith,
      e,
      get-insert no_totals l.asset a total t.per_asset,
      add_total-sides l.side l.amount (of_asset l.asset t) added,
      eq_iff l.asset a,
      +ℤ_zero (of_asset a t).debits,
      +ℤ_zero (of_asset a t).credits,
    )

pub tally_lines-totals :
    (bal : Dict Amount) (ls : List JournalLine) (t : Tally) (a : String) {t' : Tally}
    → tally_lines bal ls t ≡ ok t'
    → ((of_asset a t').debits ≡ (of_asset a t).debits +ℤ debits_of a ls)
      × ((of_asset a t').credits ≡ (of_asset a t).credits +ℤ credits_of a ls)
unfolding tally_lines
tally_lines-totals bal [] t a h =
    ground (arith, +ℤ_zero (of_asset a t).debits, +ℤ_zero (of_asset a t).credits)
tally_lines-totals bal (l ∷ ls) t a h =
    let (t₁, first, rest) = >>=-eq-ok (tally_line bal l t) (tally_lines bal ls) h in
    let one = tally_line-totals bal l t a first in
    let more = tally_lines-totals bal ls t₁ a rest in
    (rw (more.0, one.0) (omega int_laws), rw (more.1, one.1) (omega int_laws))

pub get-all_balanced :
    (a : String) (d : Dict AssetTotals)
    → all_balanced d ≡ true
    → (get no_totals a d).debits ≡ (get no_totals a d).credits
unfolding all_balanced get lookup
get-all_balanced a [] h = refl
get-all_balanced a ((k, t) ∷ d) h = ground (arith, get-all_balanced a d)

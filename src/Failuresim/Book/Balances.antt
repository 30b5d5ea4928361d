-- ===== src/Failuresim/Book/Balances.antt =====
-- How the loop of `postLocked` moves the balances.
use payment_platform.Common.{
  String, str_eq, eq_iff, ◌≡◌, refl, inl, inr, ℤ, pos, ◌+ℤ◌, ◌-ℤ◌, int_laws, arith, List, [], ◌∷◌,
  ok, if◌then◌else◌, Result-cases, >>=-eq-ok, Bool-cases, +ℤ_zero, true,
}
use payment_platform.Common.Dict.{Dict, lookup, insert, get, lookup-insert, get-insert}
use payment_platform.Ledger.Amount.{Amount, Side, debit, credit, other_side, add-ok, sub-ok}
use payment_platform.Failuresim.Types.{JournalLine}
use payment_platform.Failuresim.Book.{
  AssetTotals, no_totals, is_line, add_total, Tally, move, current, tally_line, tally_lines,
  store_all,
}

-- What a line adds to its account.
abbrev pub signed : Side → Amount → ℤ
signed credit amount = amount
signed _ amount = pos 0 -ℤ amount

-- What the lines add to an account in all.
abbrev pub net : String → List JournalLine → ℤ
net a [] = pos 0
net a (l ∷ ls) = (if str_eq l.account a then signed l.side l.amount else pos 0) +ℤ net a ls

pub move-signed :
    (side : Side) (amount balance : Amount) {balance' : Amount}
    → move side amount balance ≡ ok balance'
    → balance' ≡ balance +ℤ signed side amount
unfolding move
move-signed credit amount balance h = add-ok balance amount h
move-signed debit amount balance h = rw (sub-ok balance amount h) (omega int_laws)
move-signed (other_side s) amount balance h = rw (sub-ok balance amount h) (omega int_laws)

current-insert :
    (bal p : Dict Amount) (k a : String) (v : Amount)
    → current bal (insert k v p) a ≡ (if str_eq k a then v else current bal p a)
unfolding current
current-insert bal p k a v = ground (arith, lookup-insert k a v p)

-- A line that passes: its side and amount are sound, and the two maps have been written.
pub tally_line-ok :
    (bal : Dict Amount) (l : JournalLine) (t : Tally) {t' : Tally}
    → tally_line bal l t ≡ ok t'
    → (total : AssetTotals) × (balance : Amount) × (is_line l ≡ true)
      × (add_total l.side l.amount (get no_totals l.asset t.per_asset) ≡ ok total)
      × (move l.side l.amount (current bal t.prospective l.account) ≡ ok balance)
      × (t' ≡ record {
        per_asset = insert l.asset total t.per_asset;
        prospective = insert l.account balance t.prospective;
      })
unfolding tally_line
tally_line-ok bal l t h = elim (Bool-cases (is_line l)) [
  | inr bad ↦ ground arith
  | inl passed ↦
      elim (Result-cases (add_total l.side l.amount (get no_totals l.asset t.per_asset))) [
        | inl (e, failed) ↦ ground arith
        | inr (total, added) ↦
            elim (Result-cases (move l.side l.amount (current bal t.prospective l.account))) [
              | inl (e, failed) ↦ ground arith
              | inr (balance, moved) ↦ (total, balance, passed, added, moved, ground arith)
            ]
      ]
]

pub current-tally_line :
    (bal : Dict Amount) (l : JournalLine) (t : Tally) (a : String) {t' : Tally}
    → tally_line bal l t ≡ ok t'
    → current bal t'.prospective a
      ≡ current bal t.prospective a
        +ℤ (if str_eq l.account a then signed l.side l.amount else pos 0)
current-tally_line bal l t a h =
    let (total, balance, _, _, moved, e) = tally_line-ok bal l t h in
    ground (
      arith,
      e,
      current-insert bal t.prospective l.account a balance,
      move-signed l.side l.amount (current bal t.prospective l.account) moved,
      eq_iff l.account a,
      +ℤ_zero (current bal t.prospective a),
    )

pub current-tally_lines :
    (bal : Dict Amount) (ls : List JournalLine) (t : Tally) (a : String) {t' : Tally}
    → tally_lines bal ls t ≡ ok t'
    → current bal t'.prospective a ≡ current bal t.prospective a +ℤ net a ls
unfolding tally_lines
current-tally_lines bal [] t a h = ground (arith, +ℤ_zero (current bal t.prospective a))
current-tally_lines bal (l ∷ ls) t a h =
    let (t₁, first, rest) = >>=-eq-ok (tally_line bal l t) (tally_lines bal ls) h in
    rw (current-tally_lines bal ls t₁ a rest, current-tally_line bal l t a first) (omega int_laws)

pub get-store_all :
    (p bal : Dict Amount) (a : String) → get (pos 0) a (store_all p bal) ≡ current bal p a
unfolding store_all current lookup
get-store_all [] bal a = refl
get-store_all ((k, v) ∷ p) bal a =
    ground (arith, get-insert (pos 0) k a v (store_all p bal), get-store_all p bal a)

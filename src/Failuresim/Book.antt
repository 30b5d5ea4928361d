-- ===== src/Failuresim/Book.antt =====
-- internal/failuresim/world.go: the journal of the model and `postLocked`, its only writer.
pub mod Totals
pub mod Balances
pub mod Posts
pub mod Invariant
pub mod Retries
use payment_platform.Common.{
  ℕ, suc, ◌+◌, ◌%◌, ◌^◌, String, str_eq, Bool, true, false, not, ◌&&◌, ◌||◌, Option, none, some,
  List, [], ◌∷◌, ◌++◌, Result, ok, err, ◌>>=◌, ◌>>◌, fail_if, lift, length, ltb, ◌==◌, eqb_ℤ, pos,
  if◌then◌else◌,
}
use payment_platform.Common.Bytes.{utf8, big_endian, padded}
use payment_platform.Common.Dict.{Dict, lookup, insert, get, default}
use payment_platform.Ledger.Amount.{
  Amount, Side, debit, credit, other_side, LedgerError, invalid_posting, unbalanced, add, sub,
  to_string, is_not_positive,
}
use payment_platform.Failuresim.Hashing.{Primitives, hash_transaction}
use payment_platform.Failuresim.Types.{
  Error, effect_conflict, ledger_error, JournalLine, JournalTransaction, Receipt,
}
use Prim.Native.String

pub record EffectRecord : Type 0 where
  pub fingerprint : ℕ
  pub receipt : Receipt

-- The fields of `World` that `postLocked` reads and writes.
pub record Book : Type 0 where
  pub balances : Dict Amount
  pub journal : List JournalTransaction
  pub effects : Dict EffectRecord
  pub sequence : ℕ
  pub head_hash : ℕ

pub record AssetTotals : Type 0 where
  pub debits : Amount
  pub credits : Amount

-- The two maps of the loop over the lines.
pub record Tally : Type 0 where
  pub per_asset : Dict AssetTotals
  pub prospective : Dict Amount

abbrev pub no_totals : AssetTotals
no_totals = record { debits = pos 0; credits = pos 0 }

abbrev pub start : Tally
start = record { per_asset = []; prospective = [] }

abbrev pub is_side : Side → Bool
is_side debit = true
is_side credit = true
is_side (other_side s) = false

abbrev pub is_line : JournalLine → Bool
is_line l = not (
    str_eq l.account ""
    || (str_eq l.asset "" || (is_not_positive l.amount || not (is_side l.side))))

-- The running totals of the line's asset; a side that is not a debit is a credit here.
unfoldable pub add_total : Side → Amount → AssetTotals → Result LedgerError AssetTotals
add_total debit amount t = do sum ← add t.debits amount; ok (record t { debits = sum })
add_total _ amount t = do sum ← add t.credits amount; ok (record t { credits = sum })

-- A credit raises the account's balance, anything else lowers it.
unfoldable pub move : Side → Amount → Amount → Result LedgerError Amount
move credit amount balance = add balance amount
move _ amount balance = sub balance amount

-- `prospective[account]`, or the stored balance where the account has not been touched.
unfoldable pub current : Dict Amount → Dict Amount → String → Amount
current balances prospective account =
    default (get (pos 0) account balances) (lookup account prospective)

unfoldable pub tally_line : Dict Amount → JournalLine → Tally → Result LedgerError Tally
tally_line balances l t = do
  fail_if (not (is_line l)) invalid_posting
  total ← add_total l.side l.amount (get no_totals l.asset t.per_asset)
  balance ← move l.side l.amount (current balances t.prospective l.account)
  ok (record {
    per_asset = insert l.asset total t.per_asset;
    prospective = insert l.account balance t.prospective;
  })

unfoldable pub tally_lines : Dict Amount → List JournalLine → Tally → Result LedgerError Tally
tally_lines balances [] t = ok t
tally_lines balances (l ∷ ls) t = tally_line balances l t >>= tally_lines balances ls

-- `total.debit.Cmp(total.credit) == 0` for every asset
unfoldable pub all_balanced : Dict AssetTotals → Bool
all_balanced [] = true
all_balanced ((_, t) ∷ rest) = eqb_ℤ t.debits t.credits && all_balanced rest

-- `for account, balance := range prospective { w.balances[account] = balance }`
unfoldable pub store_all : Dict Amount → Dict Amount → Dict Amount
store_all [] balances = balances
store_all ((account, balance) ∷ rest) balances = insert account balance (store_all rest balances)

unfoldable pub receipt_of : JournalTransaction → Receipt
receipt_of t = record {
  idempotency_key = "";
  effect_id = t.effect_id;
  transaction_id = t.id;
  commit_sequence = t.sequence;
  duplicate = false;
}

unfoldable pub commit : Book → JournalTransaction → Dict Amount → Book
unfolding receipt_of
commit b t prospective = record {
  balances = store_all prospective b.balances;
  journal = b.journal ++ t ∷ [];
  effects = insert t.effect_id effect b.effects;
  sequence = t.sequence;
  head_hash = t.hash;
}
  where
    effect : EffectRecord
    effect = record { fingerprint = t.request_hash; receipt = receipt_of t }

-- A known effect is answered from its record, or refused for another request.
unfoldable pub replay : Book → ℕ → EffectRecord → Result Error (Book × Receipt)
replay b fingerprint existing =
    if existing.fingerprint == fingerprint
    then ok (b, record (existing.receipt) { duplicate = true })
    else err effect_conflict

module _ (prim : Primitives) where
  -- The transaction that the lines become, at the head of the book.
  unfoldable pub transaction_of : Book → String → String → ℕ → List JournalLine → JournalTransaction
  transaction_of b effect_id kind fingerprint lines = record draft {
    hash = hash_transaction prim draft;
  }
    where
      next : ℕ
      next = (b.sequence + 1) % 2 ^ 64

      draft : JournalTransaction
      draft = record {
        sequence = next;
        id = String.◌++◌ "tx-" (padded 20 next);
        effect_id = effect_id;
        kind = kind;
        request_hash = fingerprint;
        previous_hash = b.head_hash;
        hash = 0;
        lines = lines;
      }

  unfoldable pub append :
      Book → String → String → ℕ → List JournalLine → Result Error (Book × Receipt)
  unfolding receipt_of
  append b effect_id kind fingerprint lines = do
    t ← lift ledger_error (tally_lines b.balances lines start)
    fail_if (not (all_balanced t.per_asset)) (ledger_error unbalanced)
    let transaction = transaction_of b effect_id kind fingerprint lines
    ok (commit b transaction t.prospective, receipt_of transaction)

  unfoldable pub post_locked :
      String → String → ℕ → List JournalLine → Book → Result Error (Book × Receipt)
  unfolding replay append
  post_locked effect_id kind fingerprint lines b =
      if str_eq effect_id "" || (str_eq kind "" || ltb (length lines) 2)
      then err effect_conflict
      else elim (lookup effect_id b.effects) [
        | some existing ↦ replay b fingerprint existing
        | none ↦ append b effect_id kind fingerprint lines
      ]

-- ===== src/Failuresim/Book/Retries.antt =====
-- `postLocked` as its callers rely on it: what a post moves, and what a second one does.
use payment_platform.Common.{
  str_eq_refl, ℕ, String, str_eq, ◌≡◌, refl, inl, inr, pos, ◌+ℤ◌, arith, true, false, some, List,
  ok, err, ◌==◌, if◌then◌else◌, ltb, length, +ℤ_zero, sym,
}
use payment_platform.Common.Dict.{get, lookup, lookup-insert}
use payment_platform.Failuresim.Types.{JournalLine, Receipt, effect_conflict}
use payment_platform.Failuresim.Hashing.{Primitives}
use payment_platform.Failuresim.Book.{
  Book, EffectRecord, transaction_of, receipt_of, commit, replay, post_locked,
}
use payment_platform.Failuresim.Book.Balances.{net}
use payment_platform.Failuresim.Book.Totals.{debits_of, credits_of}
use payment_platform.Failuresim.Book.Posts.{post_locked-cases, get-append, append-balanced}

module _ (prim : Primitives) (effect_id kind : String) (fingerprint : ℕ) (lines : List JournalLine)
    (b : Book) {b' : Book} {r : Receipt}
    (posted : post_locked prim effect_id kind fingerprint lines b ≡ ok (b', r)) where
  -- A post that succeeds moves every balance by the lines on its account, once: a post whose receipt
  -- says that it is a duplicate moves none.
  pub post_locked-moves :
      (a : String)
      → get (pos 0) a b'.balances
        ≡ get (pos 0) a b.balances +ℤ (if r.duplicate then pos 0 else net a lines)
  unfolding receipt_of
  post_locked-moves a = elim (post_locked-cases prim effect_id kind fingerprint lines b posted) [
    | inl replayed ↦ rw (replayed.unchanged, replayed.answered) (sym (+ℤ_zero _))
    | inr appended ↦
        rw appended.answered (get-append prim effect_id kind fingerprint lines b a appended)
  ]

  -- A post that appends a transaction has equal debits and credits in every asset.
  pub post_locked-balanced :
      (asset : String) → r.duplicate ≡ false → debits_of asset lines ≡ credits_of asset lines
  post_locked-balanced asset first =
      elim (post_locked-cases prim effect_id kind fingerprint lines b posted) [
        | inl replayed ↦ ground (arith, replayed.answered)
        | inr appended ↦ append-balanced prim effect_id kind fingerprint lines b asset appended
      ]

  named : str_eq effect_id "" ≡ false
  unfolding post_locked
  named = ground arith

  -- The record that a post leaves, whichever way it succeeded.
  recorded_after :
      (effect : EffectRecord) × (lookup effect_id b'.effects ≡ some effect)
      × (effect.fingerprint ≡ fingerprint)
      × (record (effect.receipt) { duplicate = true } ≡ record r { duplicate = true })
  unfolding commit transaction_of
  recorded_after = elim (post_locked-cases prim effect_id kind fingerprint lines b posted) [
    | inl replayed ↦ (
      replayed.existing,
      rw replayed.unchanged replayed.known,
      replayed.same_request,
      rw replayed.answered refl,
    )
    | inr appended ↦ (
      record { fingerprint = fingerprint; receipt = r },
      rw (appended.committed, appended.answered) (rw (lookup-insert, str_eq_refl effect_id) refl),
      refl,
      refl,
    )
  ]

  -- A second post of an effect, under any kind that is not empty and with any lines, at least two of
  -- them, changes nothing: the same request is answered by the first receipt, marked as a duplicate,
  -- and another request is refused.
  pub post_locked-again :
      (kind' : String) (fingerprint' : ℕ) (lines' : List JournalLine)
      → str_eq kind' "" ≡ false
      → ltb (length lines') 2 ≡ false
      → post_locked prim effect_id kind' fingerprint' lines' b' ≡ (
          if fingerprint == fingerprint'
          then ok (b', record r { duplicate = true })
          else err effect_conflict)
  unfolding post_locked replay
  post_locked-again kind' fingerprint' lines' k l =
      let (effect, found, same, answer) = recorded_after in
      rw (named, k, l, found, same, answer) refl

-- ===== src/Failuresim/Book/Posts.antt =====
-- `postLocked` from outside: the ways in which it can succeed, and what a commit does.
use payment_platform.Common.{
  false, ℕ, String, str_eq, ◌≡◌, refl, ◌⊎◌, inl, inr, pos, ◌+ℤ◌, arith, int_laws, parts, ◌∙◌, ap,
  true, none, some, List, [], ok, Result-cases, Option-cases, Bool-cases, ltb, ◌||◌, length, ◌==◌,
}
use payment_platform.Common.Dict.{lookup-insert, lookup, get}
use payment_platform.Failuresim.Types.{JournalLine, Receipt}
use payment_platform.Failuresim.Hashing.{Primitives}
use payment_platform.Failuresim.Book.{
  EffectRecord, no_totals, Book, Tally, start, current, tally_lines, all_balanced, transaction_of,
  receipt_of, commit, replay, append, post_locked,
}
use payment_platform.Failuresim.Book.Balances.{net, current-tally_lines, get-store_all}
use payment_platform.Failuresim.Book.Totals.{
  debits_of, credits_of, tally_lines-totals, get-all_balanced,
}

-- The post was the replay of a known effect.
pub record IsReplay (effect_id : String) (fingerprint : ℕ) (b b' : Book) (r : Receipt)
    : Type 0 where
  pub existing : EffectRecord
  pub known : lookup effect_id b.effects ≡ some existing
  pub same_request : existing.fingerprint ≡ fingerprint
  pub unchanged : b' ≡ b
  pub answered : r ≡ record (existing.receipt) { duplicate = true }

replay-ok :
    (effect_id : String) (fingerprint : ℕ) (existing : EffectRecord) (b : Book) {b' : Book}
    {r : Receipt}
    → lookup effect_id b.effects ≡ some existing
    → replay b fingerprint existing ≡ ok (b', r)
    → IsReplay effect_id fingerprint b b' r
unfolding replay
replay-ok effect_id fingerprint existing b known h =
    elim (Bool-cases (existing.fingerprint == fingerprint)) [
      | inr bad ↦ ground arith
      | inl good ↦ record {
        existing = existing;
        known = known;
        same_request = ground arith;
        unchanged = ground arith;
        answered = ground arith;
      }
    ]

untouched : (a : String) (b : Book) → current b.balances [] a ≡ get (pos 0) a b.balances
unfolding current lookup
untouched a b = refl

untouched_totals : (a : String) → get no_totals a [] ≡ no_totals
unfolding get lookup
untouched_totals a = refl

module _ (prim : Primitives) where
  -- The post appended a transaction.
  pub record IsAppend (effect_id kind : String) (fingerprint : ℕ) (lines : List JournalLine)
      (b b' : Book) (r : Receipt) : Type 0 where
    pub tally : Tally
    pub new_effect : lookup effect_id b.effects ≡ none
    pub tallied : tally_lines b.balances lines start ≡ ok tally
    pub balanced : all_balanced tally.per_asset ≡ true
    pub committed :
        b' ≡ commit b (transaction_of prim b effect_id kind fingerprint lines) tally.prospective
    pub answered : r ≡ receipt_of (transaction_of prim b effect_id kind fingerprint lines)

  append-ok :
      (effect_id kind : String) (fingerprint : ℕ) (lines : List JournalLine) (b : Book) {b' : Book}
      {r : Receipt}
      → lookup effect_id b.effects ≡ none
      → append prim b effect_id kind fingerprint lines ≡ ok (b', r)
      → IsAppend effect_id kind fingerprint lines b b' r
  unfolding append
  append-ok effect_id kind fingerprint lines b new h =
      elim (Result-cases (tally_lines b.balances lines start)) [
        | inl (e, failed) ↦ ground arith
        | inr (t, done) ↦ elim (Bool-cases (all_balanced t.per_asset)) [
          | inr bad ↦ ground arith
          | inl good ↦ record {
            tally = t;
            new_effect = new;
            tallied = done;
            balanced = good;
            committed = ground arith;
            answered = ground arith;
          }
        ]
      ]

  pub post_locked-cases :
      (effect_id kind : String) (fingerprint : ℕ) (lines : List JournalLine) (b : Book) {b' : Book}
      {r : Receipt}
      → post_locked prim effect_id kind fingerprint lines b ≡ ok (b', r)
      → IsReplay effect_id fingerprint b b' r ⊎ IsAppend effect_id kind fingerprint lines b b' r
  unfolding post_locked
  post_locked-cases effect_id kind fingerprint lines b h =
      elim (Bool-cases (str_eq effect_id "" || (str_eq kind "" || ltb (length lines) 2))) [
        | inl bad ↦ ground arith
        | inr good ↦ elim (Option-cases (lookup effect_id b.effects)) [
          | inl new ↦ inr (append-ok effect_id kind fingerprint lines b new (rw (good, new) at h))
          | inr (existing, known) ↦
              inl (replay-ok effect_id fingerprint existing b known (rw (good, known) at h))
        ]
      ]

  -- A committed post moves each balance by the lines on its account.
  pub get-append :
      (effect_id kind : String) (fingerprint : ℕ) (lines : List JournalLine) (b : Book) {b' : Book}
      {r : Receipt} (a : String)
      → IsAppend effect_id kind fingerprint lines b b' r
      → get (pos 0) a b'.balances ≡ get (pos 0) a b.balances +ℤ net a lines
  unfolding commit
  get-append effect_id kind fingerprint lines b a p =
      rw (p.committed, get-store_all p.tally.prospective b.balances a)
        (current-tally_lines b.balances lines start a p.tallied
          ∙ ap (λ v. v +ℤ net a lines) (untouched a b))

  -- Its lines balance in every asset.
  pub append-balanced :
      (effect_id kind : String) (fingerprint : ℕ) (lines : List JournalLine) (b : Book) {b' : Book}
      {r : Receipt} (asset : String)
      → IsAppend effect_id kind fingerprint lines b b' r
      → debits_of asset lines ≡ credits_of asset lines
  append-balanced effect_id kind fingerprint lines b asset p =
      let (d, c) = tally_lines-totals b.balances lines start asset p.tallied in
      omega (
        int_laws,
        parts d,
        parts c,
        parts (get-all_balanced asset p.tally.per_asset p.balanced),
        parts (ap (λ t. t.debits) (untouched_totals asset)),
        parts (ap (λ t. t.credits) (untouched_totals asset)),
      )

  -- A committed post adds its own effect and no other.
  pub lookup-append :
      (effect_id kind : String) (fingerprint : ℕ) (lines : List JournalLine) (b : Book) {b' : Book}
      {r : Receipt} (e : String)
      → IsAppend effect_id kind fingerprint lines b b' r
      → str_eq effect_id e ≡ false
      → lookup e b'.effects ≡ lookup e b.effects
  unfolding commit transaction_of
  lookup-append effect_id kind fingerprint lines b e p other =
      rw p.committed (rw lookup-insert (rw other))

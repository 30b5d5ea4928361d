-- ===== src/Failuresim/Book/Invariant.antt =====
-- What holds of a book between two posts: the journal is a gapless hash chain of balanced transactions,
-- it explains every balance, and every effect is in it once.
use payment_platform.Common.{
  ℕ, ◌+◌, ◌%◌, ◌^◌, String, str_eq, eq_iff, ◌≡◌, refl, inl, inr, pos, ℤ, ◌+ℤ◌, arith, int_laws,
  none, some, Option, List, [], ◌∷◌, ◌++◌, ok, All, All-append, count, count-append, ◌∙◌, sym, ap,
  Bool-cases,
}
use payment_platform.Common.Dict.{Dict, lookup, insert, get, lookup-insert}
use payment_platform.Failuresim.Types.{JournalLine, JournalTransaction, Receipt}
use payment_platform.Failuresim.Hashing.{Primitives, hash_transaction}
use payment_platform.Failuresim.Book.{
  EffectRecord, Book, transaction_of, receipt_of, commit, post_locked,
}
use payment_platform.Failuresim.Book.Balances.{net}
use payment_platform.Failuresim.Book.Totals.{debits_of, credits_of}
use payment_platform.Failuresim.Book.Posts.{
  IsAppend, post_locked-cases, get-append, append-balanced,
}
use mathlib.Core.List.{Memᴰ}

-- The balance of an account as the journal gives it.
abbrev pub folded : String → List JournalTransaction → ℤ
folded a [] = pos 0
folded a (t ∷ ts) = net a t.lines +ℤ folded a ts

pub folded-append :
    (a : String) (ts : List JournalTransaction) (t : JournalTransaction)
    → folded a (ts ++ t ∷ []) ≡ folded a ts +ℤ net a t.lines
folded-append a [] t = omega int_laws
folded-append a (u ∷ ts) t = rw (folded-append a ts t) (omega int_laws)

-- The journal runs from a head and a sequence number to another pair, without a gap, and every
-- transaction carries the hash of its predecessor and of itself.
abbrev pub IsChain : Primitives → ℕ → ℕ → List JournalTransaction → ℕ → ℕ → Type 0
IsChain prim h n [] h' n' = (h' ≡ h) × (n' ≡ n)
IsChain prim h n (t ∷ ts) h' n' =
    (t.sequence ≡ (n + 1) % 2 ^ 64)
    × (t.previous_hash ≡ h)
    × (t.hash ≡ hash_transaction prim t)
    × IsChain prim t.hash t.sequence ts h' n'

pub IsChain-append :
    (prim : Primitives) (h n : ℕ) (ts : List JournalTransaction) (h' n' : ℕ)
    (t : JournalTransaction)
    → IsChain prim h n ts h' n'
    → t.sequence ≡ (n' + 1) % 2 ^ 64
    → t.previous_hash ≡ h'
    → t.hash ≡ hash_transaction prim t
    → IsChain prim h n (ts ++ t ∷ []) t.hash t.sequence
IsChain-append prim h n [] h' n' t c e p q = (rw (← c.1) e, rw (← c.0) p, q, (refl, refl))
IsChain-append prim h n (u ∷ ts) h' n' t c e p q =
    (c.0, c.1, c.2, IsChain-append prim u.hash u.sequence ts h' n' t c.3 e p q)

abbrev pub IsBalanced : JournalTransaction → Type 0
IsBalanced t = (asset : String) → debits_of asset t.lines ≡ credits_of asset t.lines

-- How many transactions of the journal carry an effect.
abbrev pub effect_count : String → List JournalTransaction → ℕ
effect_count e = count (λ t. str_eq t.effect_id e)

abbrev pub present {ℓ} : {A : Type ℓ} → Option A → ℕ
present none = 0
present (some _) = 1

-- An effect record points to its transaction.
pub record IsRecorded (e : String) (r : EffectRecord) (ts : List JournalTransaction) : Type 0 where
  pub transaction : JournalTransaction
  pub member : Memᴰ transaction ts
  pub same_effect : transaction.effect_id ≡ e
  pub same_request : transaction.request_hash ≡ r.fingerprint
  pub receipt : r.receipt ≡ receipt_of transaction

pub record IsSound (prim : Primitives) (b : Book) : Type 0 where
  pub explained : (a : String) → get (pos 0) a b.balances ≡ folded a b.journal
  pub chained : IsChain prim 0 0 b.journal b.head_hash b.sequence
  pub balanced : All IsBalanced b.journal
  pub once : (e : String) → effect_count e b.journal ≡ present (lookup e b.effects)
  pub recorded :
      (e : String) (r : EffectRecord) → lookup e b.effects ≡ some r → IsRecorded e r b.journal

Memᴰ-append_left :
    {t : JournalTransaction} (ts us : List JournalTransaction) → Memᴰ t ts → Memᴰ t (ts ++ us)
Memᴰ-append_left [] us m = elim m [ ]
Memᴰ-append_left (x ∷ ts) us (Memᴰ.head e) = Memᴰ.head e
Memᴰ-append_left (x ∷ ts) us (Memᴰ.tail m) = Memᴰ.tail (Memᴰ-append_left ts us m)

Memᴰ_last : (t : JournalTransaction) (ts : List JournalTransaction) → Memᴰ t (ts ++ t ∷ [])
Memᴰ_last t [] = Memᴰ.head refl
Memᴰ_last t (x ∷ ts) = Memᴰ.tail (Memᴰ_last t ts)

IsRecorded-append :
    (e : String) (r : EffectRecord) (ts us : List JournalTransaction)
    → IsRecorded e r ts
    → IsRecorded e r (ts ++ us)
IsRecorded-append e r ts us h = record {
  transaction = h.transaction;
  member = Memᴰ-append_left ts us h.member;
  same_effect = h.same_effect;
  same_request = h.same_request;
  receipt = h.receipt;
}

effect_of : JournalTransaction → EffectRecord
effect_of t = record { fingerprint = t.request_hash; receipt = receipt_of t }

effect_count-append :
    (e : String) (ts : List JournalTransaction) (t : JournalTransaction)
    (effects : Dict EffectRecord)
    → lookup t.effect_id effects ≡ none
    → effect_count e ts ≡ present (lookup e effects)
    → effect_count e (ts ++ t ∷ []) ≡ present (lookup e (insert t.effect_id (effect_of t) effects))
effect_count-append e ts t effects new h =
    rw count-append
      (ground (arith, lookup-insert t.effect_id e (effect_of t) effects, eq_iff t.effect_id e))

lookup-append :
    (ts : List JournalTransaction) (t : JournalTransaction) (effects : Dict EffectRecord)
    (e : String) (r : EffectRecord)
    → ((e : String) (r : EffectRecord) → lookup e effects ≡ some r → IsRecorded e r ts)
    → lookup e (insert t.effect_id (effect_of t) effects) ≡ some r
    → IsRecorded e r (ts ++ t ∷ [])
unfolding effect_of
lookup-append ts t effects e r old h = elim (Bool-cases (str_eq t.effect_id e)) [
  | inl same ↦ record {
    transaction = t;
    member = Memᴰ_last t ts;
    same_effect = (eq_iff t.effect_id e).0 same;
    same_request = ground (arith, lookup-insert t.effect_id e (effect_of t) effects);
    receipt = ground (arith, lookup-insert t.effect_id e (effect_of t) effects);
  }
  | inr other ↦
      IsRecorded-append e r ts (t ∷ [])
        (old e r (ground (arith, lookup-insert t.effect_id e (effect_of t) effects)))
]

pub IsSound-commit :
    (prim : Primitives) (effect_id kind : String) (fingerprint : ℕ) (lines : List JournalLine)
    (b : Book) {b' : Book} {r : Receipt}
    → IsSound prim b
    → IsAppend prim effect_id kind fingerprint lines b b' r
    → IsSound prim b'
unfolding commit transaction_of hash_transaction effect_of
IsSound-commit prim effect_id kind fingerprint lines b v p = rw p.committed (record {
  explained = λ a.
      (rw p.committed at (get-append prim effect_id kind fingerprint lines b a p))
      ∙ (ap (λ x. x +ℤ net a lines) (v.explained a) ∙ sym (folded-append a b.journal t));
  chained = IsChain-append prim 0 0 b.journal b.head_hash b.sequence t v.chained refl refl refl;
  balanced =
      All-append IsBalanced b.journal (t ∷ []) v.balanced
        (λ asset. append-balanced prim effect_id kind fingerprint lines b asset p, tt);
  once = λ e. effect_count-append e b.journal t b.effects p.new_effect (v.once e);
  recorded = λ e r. lookup-append b.journal t b.effects e r v.recorded;
})
  where
    t : JournalTransaction
    t = transaction_of prim b effect_id kind fingerprint lines

-- A successful post keeps the book sound.
pub post_locked-IsSound :
    (prim : Primitives) (effect_id kind : String) (fingerprint : ℕ) (lines : List JournalLine)
    (b : Book) {b' : Book} {r : Receipt}
    → IsSound prim b
    → post_locked prim effect_id kind fingerprint lines b ≡ ok (b', r)
    → IsSound prim b'
post_locked-IsSound prim effect_id kind fingerprint lines b v h =
    elim (post_locked-cases prim effect_id kind fingerprint lines b h) [
      | inl replayed ↦ rw replayed.unchanged v
      | inr appended ↦ IsSound-commit prim effect_id kind fingerprint lines b v appended
    ]

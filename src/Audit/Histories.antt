-- ===== src/Audit/Histories.antt =====
-- Two ranges that `VerifyRange` of internal/audit/verifier.go accepts.
use payment_platform.Common.{
  ℕ, ◌+◌, String, str_eq, not, ◌||◌, Bool, true, false, Option, List, [], ◌∷◌, Result, ok, err,
  fail_if, lift, ◌==◌, length, ◌≡◌, refl, sym, ap, ◌∙◌, ◌⊎◌, inl, inr, arith, >>=-eq-ok,
}
use payment_platform.Ledger.Posting.{PostRequest}
use payment_platform.Ledger.Entries.{EntryError, hash_entry}
use payment_platform.Ledger.Bindings.{IsSameEntry, IsEntryText, hash_entry-binds, hash_entry-digest}
use payment_platform.Audit.Collisions.{IsDigest, big_endian_inj, IsCollision, IsCollision-imp}
use payment_platform.Audit.Verifier.{
  Transaction, Range, Verification, AuditError, sequence_gap, previous_hash, wrong_entry_hash,
  unhashable, verify_from, verify_range, last_sequence,
}

fail_if-ok : (e : AuditError) (b : Bool) → fail_if b e ≡ ok tt → b ≡ false
fail_if-ok e true h = cc
fail_if-ok e false h = refl

lift-ok : (r : Result EntryError ℕ) {n : ℕ} → lift unhashable r ≡ ok n → r ≡ ok n
lift-ok (ok m) h = ground arith
lift-ok (err e) h = cc

ok_inj : {x y : Verification} → ◌≡◌ {A = Result AuditError Verification} (ok x) (ok y) → x ≡ y
ok_inj h = cc

module _ (reencode_json : List ℕ → Option (List ℕ)) (sha256 : List ℕ → ℕ) where
  -- The same facts in the same order, with the same hashes.
  abbrev pub SameHistory : List Transaction → List Transaction → Type 0
  SameHistory [] [] = Unit {0}
  SameHistory [] (u ∷ us) = ⊥
  SameHistory (t ∷ ts) [] = ⊥
  SameHistory (t ∷ ts) (u ∷ us) =
      (t.entry_hash ≡ u.entry_hash)
      × (IsSameEntry reencode_json t.request u.request × SameHistory ts us)

  -- The texts that are hashed to check a chain: the canonical bytes of each entry after its predecessor.
  pub data IsChainText : ℕ → List Transaction → List ℕ → Type 0 where
    here :
        {expected : ℕ} {t : Transaction} {ts : List Transaction} {text : List ℕ}
        → IsEntryText reencode_json sha256 expected t.sequence_no t.request text
        → IsChainText expected (t ∷ ts) text
    later :
        {expected : ℕ} {t : Transaction} {ts : List Transaction} {text : List ℕ}
        → IsChainText t.entry_hash ts text
        → IsChainText expected (t ∷ ts) text

  -- A step of the loop that passed.
  record IsChained (book : String) (expected sequence : ℕ) (t : Transaction) (ts : List Transaction)
      (last : ℕ) : Type 0 where
    hashed : hash_entry reencode_json sha256 expected t.sequence_no t.request ≡ ok t.entry_hash
    rest : verify_from reencode_json sha256 book t.entry_hash (sequence + 1) ts ≡ ok last

  verify_from-IsChained :
      (book : String) (expected sequence : ℕ) (t : Transaction) (ts : List Transaction) {last : ℕ}
      → verify_from reencode_json sha256 book expected sequence (t ∷ ts) ≡ ok last
      → IsChained book expected sequence t ts last
  unfolding verify_from
  verify_from-IsChained book expected sequence t ts h =
      let (u₁, e₁, h₁) =
        >>=-eq-ok
          (fail_if (not (str_eq t.request.book_id book) || not (t.sequence_no == sequence))
            sequence_gap)
          _ h in
      let (u₂, e₂, h₂) = >>=-eq-ok (fail_if (not (t.prev_hash == expected)) previous_hash) _ h₁ in
      let (c, e₃, h₃) =
        >>=-eq-ok
          (lift unhashable (hash_entry reencode_json sha256 expected t.sequence_no t.request)) _
          h₂ in
      let (u₄, e₄, h₄) = >>=-eq-ok (fail_if (not (c == t.entry_hash)) wrong_entry_hash) _ h₃ in
      let same : c ≡ t.entry_hash =
        ground (arith, fail_if-ok wrong_entry_hash (not (c == t.entry_hash)) e₄) in
      record {
        hashed =
            lift-ok (hash_entry reencode_json sha256 expected t.sequence_no t.request) e₃
            ∙ ap ok same;
        rest = h₄;
      }

  -- A range that passed.
  record IsVerified (q : Range) (ts : List Transaction) (v : Verification) : Type 0 where
    counted : length ts + q.first ≡ q.last + 1
    chained : verify_from reencode_json sha256 q.book_id q.expected_prev q.first ts ≡ ok v.last_hash

  verify_range-IsVerified :
      (q : Range) (ts : List Transaction) {v : Verification}
      → verify_range reencode_json sha256 q ts ≡ ok v
      → IsVerified q ts v
  unfolding verify_range
  verify_range-IsVerified q [] h = cc
  verify_range-IsVerified q (t ∷ ts) {v} h =
      let bad : Bool =
        not (t.sequence_no == q.first)
        || (not (last_sequence t ts == q.last) || not (length (t ∷ ts) + q.first == q.last + 1)) in
      let (u₁, e₁, h₁) = >>=-eq-ok (fail_if bad sequence_gap) _ h in
      let (last, e₂, h₂) =
        >>=-eq-ok (verify_from reencode_json sha256 q.book_id q.expected_prev q.first (t ∷ ts)) _
          h₁ in
      let good = fail_if-ok sequence_gap bad e₁ in
      record {
        counted = ground (arith, good);
        chained = e₂ ∙ ap ok (ap (λ x. x.last_hash) (ok_inj h₂));
      }

  module _ (digests : (bytes : List ℕ) → IsDigest (sha256 bytes)) where
    hash_entry-IsDigest :
        (previous sequence : ℕ) (r : PostRequest) {h : ℕ}
        → hash_entry reencode_json sha256 previous sequence r ≡ ok h
        → IsDigest h
    hash_entry-IsDigest previous sequence r e =
        let (bytes, same) = hash_entry-digest reencode_json sha256 previous sequence r e in
        rw (← same) (digests bytes)

    verify_from-binds :
        (book book' : String) (e e' sequence : ℕ) (ts us : List Transaction) {last : ℕ}
        → IsDigest e
        → IsDigest e'
        → length ts ≡ length us
        → verify_from reencode_json sha256 book e sequence ts ≡ ok last
        → verify_from reencode_json sha256 book' e' sequence us ≡ ok last
        → ((e ≡ e') × SameHistory ts us) ⊎ IsCollision sha256 (IsChainText e ts) (IsChainText e' us)
    unfolding verify_from
    verify_from-binds book book' e e' sequence [] [] d d' l h k = inl (cc, tt)
    verify_from-binds book book' e e' sequence [] (u ∷ us) d d' l h k = ground arith
    verify_from-binds book book' e e' sequence (t ∷ ts) [] d d' l h k = ground arith
    verify_from-binds book book' e e' sequence (t ∷ ts) (u ∷ us) d d' l h k =
        let p = verify_from-IsChained book e sequence t ts h in
        let q = verify_from-IsChained book' e' sequence u us k in
        elim (verify_from-binds book book' t.entry_hash u.entry_hash (sequence + 1) ts us
          (hash_entry-IsDigest e t.sequence_no t.request p.hashed)
          (hash_entry-IsDigest e' u.sequence_no u.request q.hashed) (omega (arith, l)) p.rest
          q.rest) [
            | inr collision ↦ inr (IsCollision-imp (λ x. later) (λ x. later) collision)
            | inl (same, rest) ↦
                elim (hash_entry-binds reencode_json sha256 e e' t.sequence_no u.sequence_no
                  t.request u.request p.hashed (q.hashed ∙ ap ok (sym same))) [
                    | inr collision ↦ inr (IsCollision-imp (λ x. here) (λ x. here) collision)
                    | inl (before, number, entry) ↦
                        inl (big_endian_inj 32 e e' d d' before, (same, (entry, rest)))
                  ]
          ]

    -- Two verified ranges with the same numbers and the same last hash hold the same facts in the same
    -- order and start from the same hash, or the canonical bytes of an entry of the one and those of an
    -- entry of the other differ and have one digest, where digests and the expected hashes have 32 bytes.
    pub verify_range-binds :
        (q q' : Range) (ts us : List Transaction) {v v' : Verification}
        → verify_range reencode_json sha256 q ts ≡ ok v
        → verify_range reencode_json sha256 q' us ≡ ok v'
        → IsDigest q.expected_prev
        → IsDigest q'.expected_prev
        → q.first ≡ q'.first
        → q.last ≡ q'.last
        → v.last_hash ≡ v'.last_hash
        → ((q.expected_prev ≡ q'.expected_prev) × SameHistory ts us)
          ⊎ IsCollision sha256 (IsChainText q.expected_prev ts) (IsChainText q'.expected_prev us)
    verify_range-binds q q' ts us {v} {v'} h k d d' first last same =
        let x = verify_range-IsVerified q ts h in
        let y = verify_range-IsVerified q' us k in
        verify_from-binds q.book_id q'.book_id q.expected_prev q'.expected_prev q.first ts us d d'
          (omega (arith, x.counted, y.counted, first, last)) x.chained
          (rw first (y.chained ∙ ap ok (sym same)))

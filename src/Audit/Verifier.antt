-- ===== src/Audit/Verifier.antt =====
-- internal/audit/verifier.go: `VerifyRange`, the check of a closed range of a book's journal.
use payment_platform.Common.{
  ℕ, ◌+◌, String, str_eq, not, ◌||◌, List, [], ◌∷◌, map, Result, ok, err, ◌>>=◌, ◌>>◌, fail_if,
  lift, ◌==◌, length, Option,
}
use payment_platform.Ledger.Posting.{PostRequest}
use payment_platform.Ledger.Entries.{EntryError, hash_entry}
use payment_platform.Audit.Merkle.{merkle_root}

-- `ledger.Transaction`, a posted request with its place in the chain.
pub record Transaction : Type 0 where
  pub request : PostRequest
  pub sequence_no : ℕ
  pub prev_hash : ℕ
  pub entry_hash : ℕ

pub data AuditError : Type 0 where
  empty_range sequence_gap previous_hash wrong_entry_hash : AuditError
  unhashable : EntryError → AuditError

pub record Range : Type 0 where
  pub book_id : String
  pub first : ℕ
  pub last : ℕ
  pub expected_prev : ℕ

pub record Verification : Type 0 where
  pub book_id : String
  pub first : ℕ
  pub last : ℕ
  pub count : ℕ
  pub last_hash : ℕ
  pub merkle : ℕ

abbrev pub entry_hash_of : Transaction → ℕ
entry_hash_of t = t.entry_hash

-- `transactions[len(transactions)-1].SequenceNo`
abbrev pub last_sequence : Transaction → List Transaction → ℕ
last_sequence t [] = t.sequence_no
last_sequence t (u ∷ us) = last_sequence u us

module _ (reencode_json : List ℕ → Option (List ℕ)) (sha256 : List ℕ → ℕ) where
  -- The loop, from the hash and the number that are expected; it answers with the last hash.
  unfoldable pub verify_from : String → ℕ → ℕ → List Transaction → Result AuditError ℕ
  verify_from book expected sequence [] = ok expected
  verify_from book expected sequence (t ∷ ts) = do
    fail_if (not (str_eq t.request.book_id book) || not (t.sequence_no == sequence)) sequence_gap
    fail_if (not (t.prev_hash == expected)) previous_hash
    calculated ← lift unhashable (hash_entry reencode_json sha256 expected t.sequence_no t.request)
    fail_if (not (calculated == t.entry_hash)) wrong_entry_hash
    verify_from book t.entry_hash (sequence + 1) ts

  -- `VerifyRange`
  unfoldable pub verify_range : Range → List Transaction → Result AuditError Verification
  verify_range q [] = err empty_range
  verify_range q (t ∷ ts) = do
    fail_if
        (not (t.sequence_no == q.first)
          || (not (last_sequence t ts == q.last) || not (length (t ∷ ts) + q.first == q.last + 1)))
        sequence_gap
    last_hash ← verify_from q.book_id q.expected_prev q.first (t ∷ ts)
    ok (record {
      book_id = q.book_id;
      first = q.first;
      last = q.last;
      count = length (t ∷ ts);
      last_hash = last_hash;
      merkle = merkle_root sha256 (map entry_hash_of (t ∷ ts));
    })

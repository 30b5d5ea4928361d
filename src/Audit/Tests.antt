-- ===== src/Audit/Tests.antt =====
-- Runs of internal/audit/verifier.go at concrete inputs, with a constant digest.
use payment_platform.Common.{
  ℕ, pos, none, some, Option, List, [], ◌∷◌, ◌≡◌, refl, err, arith, ◌⊎◌, ◌+ℤ◌,
}
use payment_platform.Common.Bytes.{utf8}
use payment_platform.Common.Dict.{get, insert, lookup}
use payment_platform.Ledger.Amount.{debit, credit, fits_decimal38, to_string}
use payment_platform.Ledger.Posting.{
  PostRequest, validate, valid_id, check_lines, check_line, add_side, all_equal, canonical_json,
}
use payment_platform.Failuresim.Hashing.{side_text}
use payment_platform.Ledger.Entries.{
  hash_entry, canonical_bytes, framed, write_all, write_bytes, write_reference, write_lines,
}
use payment_platform.Audit.Merkle.{merkle_root, climb}
use payment_platform.Audit.Collisions.{bound, IsDigest, IsCollision}
use payment_platform.Audit.Verifier.{
  Transaction, Range, Verification, previous_hash, verify_from, verify_range,
}
use payment_platform.Audit.Histories.{SameHistory, IsChainText, verify_range-binds}

abbrev posted : PostRequest
posted = record {
  transaction_id = "tx1";
  book_id = "book1";
  operation_id = "op1";
  effect_id = "effect1";
  kind = "PAYMENT";
  reference_transaction_id = none;
  posting_rule_version = "v1";
  schema_version = pos 1;
  request_hash = 0;
  metadata = [];
  lines =
      record { account_id = "a"; asset_id = "EUR"; side = debit; amount_atoms = pos 5; memo = "" }
      ∷ record {
        account_id = "b";
        asset_id = "EUR";
        side = credit;
        amount_atoms = pos 5;
        memo = "";
      }
      ∷ [];
}

abbrev any_json : List ℕ → Option (List ℕ)
any_json bytes = some bytes

abbrev three : List ℕ → ℕ
three bytes = 3

abbrev entry : Transaction
entry = record { request = posted; sequence_no = 1; prev_hash = 0; entry_hash = 3 }

abbrev first_entry : Range
first_entry = record { book_id = posted.book_id; first = 1; last = 1; expected_prev = 0 }

abbrev verified : Verification
verified = record {
  book_id = posted.book_id;
  first = 1;
  last = 1;
  count = 1;
  last_hash = 3;
  merkle = 3;
}

other_start :
    verify_range any_json three (record first_entry { expected_prev = 9 }) (entry ∷ [])
    ≡ err previous_hash
unfolding verify_range verify_from
other_start = refl

three-IsDigest : (bytes : List ℕ) → IsDigest (three bytes)
unfolding bound
three-IsDigest bytes = ground arith

verify_range-binds_example :
    ((first_entry.expected_prev ≡ first_entry.expected_prev)
      × SameHistory any_json three (entry ∷ []) (entry ∷ []))
    ⊎ IsCollision three
        (IsChainText any_json three first_entry.expected_prev (entry ∷ []))
        (IsChainText any_json three first_entry.expected_prev (entry ∷ []))
unfolding bound verify_range verify_from hash_entry canonical_bytes framed write_all write_bytes
    write_reference write_lines merkle_root climb validate valid_id check_lines check_line add_side
    all_equal canonical_json fits_decimal38 ◌+ℤ◌ get insert lookup utf8 side_text to_string
verify_range-binds_example =
    verify_range-binds any_json three three-IsDigest first_entry first_entry (entry ∷ [])
      (entry ∷ []) {v = verified} {v' = verified} refl refl (ground arith) (ground arith) refl refl
      refl

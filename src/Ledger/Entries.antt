-- ===== src/Ledger/Entries.antt =====
-- internal/ledger/hash.go: the canonical bytes of an entry and its hash, `HashEntry`.
use payment_platform.Common.{
  ℕ, ◌+◌, ◌-◌, ◌^◌, ℤ, pos, negsuc, String, Option, none, some, List, [], ◌∷◌, ◌++◌, Result, ok,
  err, ◌>>=◌, ◌>>◌, fail_if, lift, leb, ◌==◌, length,
}
use payment_platform.Common.Bytes.{utf8, big_endian}
use payment_platform.Ledger.Amount.{LedgerError, invalid_posting, to_string}
use payment_platform.Ledger.Posting.{Line, PostRequest, canonical_json, validate}
use payment_platform.Failuresim.Hashing.{side_text}

pub data EntryError : Type 0 where
  ledger_error : LedgerError → EntryError
  malformed_metadata field_too_long : EntryError

-- `writeBytes`
unfoldable pub write_bytes : List ℕ → Result EntryError (List ℕ)
write_bytes value =
    fail_if (leb (2 ^ 32) (length value)) field_too_long
    >> ok (big_endian 4 (length value) ++ value)

unfoldable pub write_all : List (List ℕ) → Result EntryError (List ℕ)
write_all [] = ok []
write_all (value ∷ values) = do
  first ← write_bytes value
  rest ← write_all values
  ok (first ++ rest)

-- `writeInt64`: the two's complement of a negative number.
abbrev pub int64_bytes : ℤ → List ℕ
int64_bytes (pos n) = big_endian 8 n
int64_bytes (negsuc n) = big_endian 8 (2 ^ 64 - (n + 1))

abbrev pub names_of : PostRequest → List (List ℕ)
names_of r =
    utf8 r.transaction_id
    ∷ utf8 r.book_id
    ∷ utf8 r.operation_id
    ∷ utf8 r.effect_id
    ∷ utf8 r.kind
    ∷ utf8 r.posting_rule_version
    ∷ []

unfoldable pub write_reference : Option String → Result EntryError (List ℕ)
write_reference none = ok (0 ∷ [])
write_reference (some id) = do bytes ← write_all (utf8 id ∷ []); ok (1 ∷ bytes)

abbrev pub fields_of : Line → List (List ℕ)
fields_of l =
    utf8 l.account_id
    ∷ utf8 l.asset_id
    ∷ utf8 (side_text l.side)
    ∷ utf8 l.memo
    ∷ utf8 (to_string l.amount_atoms)
    ∷ []

-- The lines from a number on.
unfoldable pub write_lines : ℕ → List Line → Result EntryError (List ℕ)
write_lines n [] = ok []
write_lines n (l ∷ ls) = do
  fields ← write_all (fields_of l)
  rest ← write_lines (n + 1) ls
  ok (big_endian 8 n ++ (fields ++ rest))

abbrev pub hash_domain : List ℕ
hash_domain = utf8 "payment-platform/ledger-entry/v1\0"

-- The parts in their order: the names, the reference, the metadata and the lines come as written.
unfoldable pub framed : ℕ → ℕ → PostRequest → List ℕ → List ℕ → List ℕ → List ℕ → List ℕ
framed previous sequence r names reference described lines =
    hash_domain
    ++ (big_endian 32 previous
        ++ (big_endian 8 sequence
            ++ (names
                ++ (int64_bytes r.schema_version
                    ++ (reference
                        ++ (big_endian 32 r.request_hash
                            ++ (described ++ (big_endian 4 (length r.lines) ++ lines))))))))

unfoldable pub canonical_bytes : ℕ → ℕ → PostRequest → List ℕ → Result EntryError (List ℕ)
canonical_bytes previous sequence r metadata = do
  names ← write_all (names_of r)
  reference ← write_reference r.reference_transaction_id
  described ← write_all (metadata ∷ [])
  lines ← write_lines 1 r.lines
  ok (framed previous sequence r names reference described lines)

module _ (reencode_json : List ℕ → Option (List ℕ)) where
  abbrev pub canonical_metadata : PostRequest → Result EntryError (List ℕ)
  canonical_metadata r = elim (canonical_json reencode_json r.metadata) [
    | none ↦ err malformed_metadata
    | some metadata ↦ ok metadata
  ]

  -- `HashEntry`; a sequence number that is not positive is zero here.
  unfoldable pub hash_entry : (List ℕ → ℕ) → ℕ → ℕ → PostRequest → Result EntryError ℕ
  hash_entry sha256 previous sequence r = do
    fail_if (sequence == 0) (ledger_error invalid_posting)
    lift ledger_error (validate reencode_json r)
    metadata ← canonical_metadata r
    bytes ← canonical_bytes previous sequence r metadata
    ok (sha256 bytes)

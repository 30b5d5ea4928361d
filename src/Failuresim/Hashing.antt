-- ===== src/Failuresim/Hashing.antt =====
-- internal/failuresim/world.go: the bytes under the model's hashes.
use payment_platform.Common.{ℕ, String, Option, List, [], ◌∷◌, ◌++◌, length}
use payment_platform.Common.Bytes.{utf8, big_endian}
use payment_platform.Ledger.Amount.{Side, debit, credit, other_side, to_string}
use payment_platform.Failuresim.Types.{JournalLine, JournalTransaction, TransferCertificate}

-- What the model takes from Go's standard library: `sha256.Sum256`, an HMAC over it, and the JSON
-- encoder and decoder at the type of a certificate.
pub record Primitives : Type 0 where
  pub sha256 : List ℕ → ℕ
  pub hmac_sha256 : List ℕ → List ℕ → ℕ
  pub marshal_certificate : TransferCertificate → List ℕ
  pub unmarshal_certificate : List ℕ → Option TransferCertificate

-- `writeLengthPrefixed`: the length as a `uint32`, then the bytes.
unfoldable pub length_prefixed : List ℕ → List ℕ
length_prefixed value = big_endian 4 (length value) ++ value

unfoldable pub length_prefixed_all : List String → List ℕ
length_prefixed_all [] = []
length_prefixed_all (part ∷ parts) = length_prefixed (utf8 part) ++ length_prefixed_all parts

unfoldable pub request_fingerprint : Primitives → List String → ℕ
request_fingerprint prim parts =
    prim.sha256 (utf8 "payment-platform/failuresim/request/v1\0" ++ length_prefixed_all parts)

unfoldable pub side_text : Side → String
side_text debit = "DEBIT"
side_text credit = "CREDIT"
side_text (other_side s) = s

unfoldable pub line_bytes : List JournalLine → List ℕ
line_bytes [] = []
line_bytes (l ∷ ls) =
    length_prefixed_all (l.account ∷ l.asset ∷ side_text l.side ∷ to_string l.amount ∷ [])
    ++ line_bytes ls

-- `hashTransaction`: the transaction's own `hash` is not read.
unfoldable pub hash_transaction : Primitives → JournalTransaction → ℕ
hash_transaction prim t = prim.sha256 (
    utf8 "payment-platform/failuresim/journal/v1\0"
    ++ (big_endian 32 t.previous_hash
        ++ (big_endian 8 t.sequence
            ++ (length_prefixed_all (t.id ∷ t.effect_id ∷ t.kind ∷ [])
                ++ (big_endian 32 t.request_hash ++ line_bytes t.lines)))))

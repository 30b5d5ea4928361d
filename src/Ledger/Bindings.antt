-- ===== src/Ledger/Bindings.antt =====
-- What `HashEntry` of internal/ledger/hash.go is taken of.
use payment_platform.Common.{
  ℕ, ◌+◌, ◌-◌, ◌^◌, ℤ, pos, negsuc, Option, some, List, [], ◌∷◌, Result, ok, fail_if, lift, ◌==◌,
  length, ◌≡◌, refl, sym, ap, ◌∙◌, ◌⊎◌, inl, inr, arith, append_inj, >>=-eq-ok, bytes_cases,
  Option-cases,
}
use payment_platform.Common.Bytes.{utf8, big_endian, length-big_endian}
use payment_platform.Ledger.Amount.{invalid_posting}
use payment_platform.Ledger.Posting.{PostRequest, canonical_json, validate}
use payment_platform.Ledger.Entries.{
  EntryError, ledger_error, write_all, int64_bytes, names_of, write_reference, write_lines,
  hash_domain, framed, canonical_bytes, canonical_metadata, hash_entry,
}
use payment_platform.Audit.Collisions.{IsCollision}
use payment_platform.Ledger.Decoding.{
  text_of, SameLines, write_all_inj, write_reference_inj, write_lines_inj,
}

-- Two requests whose entries say the same, field by field, byte by byte.
pub record IsSameEntry (reencode_json : List ℕ → Option (List ℕ)) (r r' : PostRequest)
    : Type 0 where
  pub transaction : utf8 r.transaction_id ≡ utf8 r'.transaction_id
  pub book : utf8 r.book_id ≡ utf8 r'.book_id
  pub operation : utf8 r.operation_id ≡ utf8 r'.operation_id
  pub effect : utf8 r.effect_id ≡ utf8 r'.effect_id
  pub kind : utf8 r.kind ≡ utf8 r'.kind
  pub rule : utf8 r.posting_rule_version ≡ utf8 r'.posting_rule_version
  pub schema : int64_bytes r.schema_version ≡ int64_bytes r'.schema_version
  pub reference : text_of r.reference_transaction_id ≡ text_of r'.reference_transaction_id
  pub request : big_endian 32 r.request_hash ≡ big_endian 32 r'.request_hash
  pub described : canonical_json reencode_json r.metadata ≡ canonical_json reencode_json r'.metadata
  pub lines : SameLines r.lines r'.lines

length-int64_bytes : (x : ℤ) → length (int64_bytes x) ≡ 8
length-int64_bytes (pos n) = length-big_endian 8 n
length-int64_bytes (negsuc n) = length-big_endian 8 (2 ^ 64 - (n + 1))

-- The parts of an entry's bytes.
record IsFramed (previous sequence : ℕ) (r : PostRequest) (metadata bytes : List ℕ) : Type 0 where
  pub names : List ℕ
  pub reference : List ℕ
  pub described : List ℕ
  pub lines : List ℕ
  pub named : write_all (names_of r) ≡ ok names
  pub referred : write_reference r.reference_transaction_id ≡ ok reference
  pub told : write_all (metadata ∷ []) ≡ ok described
  pub listed : write_lines 1 r.lines ≡ ok lines
  pub whole : framed previous sequence r names reference described lines ≡ bytes

canonical_bytes-IsFramed :
    (previous sequence : ℕ) (r : PostRequest) (metadata : List ℕ) {a : List ℕ}
    → canonical_bytes previous sequence r metadata ≡ ok a
    → IsFramed previous sequence r metadata a
unfolding canonical_bytes
canonical_bytes-IsFramed previous sequence r metadata h =
    let (n, hn, h₁) = >>=-eq-ok (write_all (names_of r)) _ h in
    let (f, hf, h₂) = >>=-eq-ok (write_reference r.reference_transaction_id) _ h₁ in
    let (d, hd, h₃) = >>=-eq-ok (write_all (metadata ∷ [])) _ h₂ in
    let (l, hl, h₄) = >>=-eq-ok (write_lines 1 r.lines) _ h₃ in
    record {
      names = n;
      reference = f;
      described = d;
      lines = l;
      named = hn;
      referred = hf;
      told = hd;
      listed = hl;
      whole = cc;
    }

IsFramed-inj :
    (reencode_json : List ℕ → Option (List ℕ)) (previous previous' sequence sequence' : ℕ)
    (r r' : PostRequest) (metadata metadata' a : List ℕ)
    → canonical_json reencode_json r.metadata ≡ some metadata
    → canonical_json reencode_json r'.metadata ≡ some metadata'
    → IsFramed previous sequence r metadata a
    → IsFramed previous' sequence' r' metadata' a
    → (big_endian 32 previous ≡ big_endian 32 previous')
      × (big_endian 8 sequence ≡ big_endian 8 sequence')
      × IsSameEntry reencode_json r r'
unfolding framed
IsFramed-inj reencode_json previous previous' sequence sequence' r r' metadata metadata' a m m' p
      q =
    let (e₀, t₀) = append_inj hash_domain hash_domain _ _ refl (p.whole ∙ sym q.whole) in
    let (e₁, t₁) =
      append_inj (big_endian 32 previous) (big_endian 32 previous') _ _
        (length-big_endian 32 previous ∙ sym (length-big_endian 32 previous')) t₀ in
    let (e₂, t₂) =
      append_inj (big_endian 8 sequence) (big_endian 8 sequence') _ _
        (length-big_endian 8 sequence ∙ sym (length-big_endian 8 sequence')) t₁ in
    let (e₃, t₃) = write_all_inj (names_of r) (names_of r') _ _ refl p.named q.named t₂ in
    let (e₄, t₄) =
      append_inj (int64_bytes r.schema_version) (int64_bytes r'.schema_version) _ _
        (length-int64_bytes r.schema_version ∙ sym (length-int64_bytes r'.schema_version)) t₃ in
    let (e₅, t₅) =
      write_reference_inj r.reference_transaction_id r'.reference_transaction_id _ _ p.referred
        q.referred t₄ in
    let (e₆, t₆) =
      append_inj (big_endian 32 r.request_hash) (big_endian 32 r'.request_hash) _ _
        (length-big_endian 32 r.request_hash ∙ sym (length-big_endian 32 r'.request_hash)) t₅ in
    let (e₇, t₇) = write_all_inj (metadata ∷ []) (metadata' ∷ []) _ _ refl p.told q.told t₆ in
    let (e₈, t₈) =
      append_inj (big_endian 4 (length r.lines)) (big_endian 4 (length r'.lines)) p.lines q.lines
        (length-big_endian 4 (length r.lines) ∙ sym (length-big_endian 4 (length r'.lines))) t₇ in
    let told : metadata ≡ metadata' = cc in
    (
      e₁,
      e₂,
      record {
        transaction = cc;
        book = cc;
        operation = cc;
        effect = cc;
        kind = cc;
        rule = cc;
        schema = e₄;
        reference = e₅;
        request = e₆;
        described = m ∙ (ap some told ∙ sym m');
        lines = write_lines_inj 1 r.lines r'.lines p.listed (q.listed ∙ ap ok (sym t₈));
      },
    )

module _ (reencode_json : List ℕ → Option (List ℕ)) (sha256 : List ℕ → ℕ) where
  ok_inj : {x y : List ℕ} → ◌≡◌ {A = Result EntryError (List ℕ)} (ok x) (ok y) → x ≡ y
  ok_inj h = cc

  canonical_metadata-ok :
      (r : PostRequest) {metadata : List ℕ}
      → canonical_metadata reencode_json r ≡ ok metadata
      → canonical_json reencode_json r.metadata ≡ some metadata
  canonical_metadata-ok r h = elim (Option-cases (canonical_json reencode_json r.metadata)) [
    | inl none_read ↦ ground (arith, rw (none_read, canonical_metadata) at h)
    | inr (m, e) ↦ e ∙ ap some (ok_inj (rw (e, canonical_metadata) at h))
  ]

  -- What a hash was taken of.
  record IsHashed (previous sequence : ℕ) (r : PostRequest) (h : ℕ) : Type 0 where
    pub metadata : List ℕ
    pub bytes : List ℕ
    pub read : canonical_json reencode_json r.metadata ≡ some metadata
    pub written : canonical_bytes previous sequence r metadata ≡ ok bytes
    pub digest : sha256 bytes ≡ h

  hash_entry-IsHashed :
      (previous sequence : ℕ) (r : PostRequest) {h : ℕ}
      → hash_entry reencode_json sha256 previous sequence r ≡ ok h
      → IsHashed previous sequence r h
  unfolding hash_entry
  hash_entry-IsHashed previous sequence r e =
      let (u₁, e₁, k₁) = >>=-eq-ok (fail_if (sequence == 0) (ledger_error invalid_posting)) _ e in
      let (u₂, e₂, k₂) = >>=-eq-ok (lift ledger_error (validate reencode_json r)) _ k₁ in
      let (m, e₃, k₃) = >>=-eq-ok (canonical_metadata reencode_json r) _ k₂ in
      let (bytes, e₄, k₄) = >>=-eq-ok (canonical_bytes previous sequence r m) _ k₃ in
      record {
        metadata = m;
        bytes = bytes;
        read = canonical_metadata-ok r e₃;
        written = e₄;
        digest = cc;
      }

  -- The canonical bytes of an entry.
  pub record IsEntryText (previous sequence : ℕ) (r : PostRequest) (text : List ℕ) : Type 0 where
    pub metadata : List ℕ
    pub read : canonical_json reencode_json r.metadata ≡ some metadata
    pub written : canonical_bytes previous sequence r metadata ≡ ok text

  pub hash_entry-digest :
      (previous sequence : ℕ) (r : PostRequest) {h : ℕ}
      → hash_entry reencode_json sha256 previous sequence r ≡ ok h
      → (bytes : List ℕ) × (sha256 bytes ≡ h)
  hash_entry-digest previous sequence r e =
      let p = hash_entry-IsHashed previous sequence r e in (p.bytes, p.digest)

  -- Two entries with one hash have the same previous hash and sequence number and say the same, or their
  -- canonical bytes differ and have one digest.
  pub hash_entry-binds :
      (previous previous' sequence sequence' : ℕ) (r r' : PostRequest) {h : ℕ}
      → hash_entry reencode_json sha256 previous sequence r ≡ ok h
      → hash_entry reencode_json sha256 previous' sequence' r' ≡ ok h
      → ((big_endian 32 previous ≡ big_endian 32 previous')
          × (big_endian 8 sequence ≡ big_endian 8 sequence')
          × IsSameEntry reencode_json r r')
        ⊎ IsCollision sha256 (IsEntryText previous sequence r) (IsEntryText previous' sequence' r')
  hash_entry-binds previous previous' sequence sequence' r r' h k =
      let p = hash_entry-IsHashed previous sequence r h in
      let q = hash_entry-IsHashed previous' sequence' r' k in
      elim (bytes_cases p.bytes q.bytes) [
        | inr apart ↦ inr (record {
          first_text = p.bytes;
          second_text = q.bytes;
          first_hashed = record { metadata = p.metadata; read = p.read; written = p.written };
          second_hashed = record { metadata = q.metadata; read = q.read; written = q.written };
          differ = apart;
          same_digest = p.digest ∙ sym q.digest;
        })
        | inl one ↦ inl (
            IsFramed-inj reencode_json previous previous' sequence sequence' r r' p.metadata
              q.metadata p.bytes p.read q.read
              (canonical_bytes-IsFramed previous sequence r p.metadata p.written)
              (canonical_bytes-IsFramed previous' sequence' r' q.metadata
                (q.written ∙ ap ok (sym one))))
      ]

-- ===== src/Idempotency/Records.antt =====
-- internal/idempotency/service.go: `Claim`, `Complete` and `Fail` on the table of records. An error aborts
-- the transaction that a call runs in, so a call that fails leaves the table as it was.
use payment_platform.Common.{
  ℕ, ◌+◌, ◌/◌, ℤ, pos, negsuc, String, str_eq, Bool, true, false, not, ◌&&◌, ◌||◌, Option, none,
  some, List, [], ◌∷◌, Result, ok, err, leb, ◌==◌, if◌then◌else◌,
}
use payment_platform.Ledger.Posting.{canonical_json}

-- The errors of the package; `bad_response` is the JSON encoder's, `refused_json` and `no_row` the database's.
pub data Error : Type 0 where
  invalid_request key_conflict in_progress lost_claim bad_response refused_json no_row : Error

pub data State : Type 0 where
  processing succeeded failed : State

-- A row of `idempotency_records`; times are microseconds.
pub record Row : Type 0 where
  pub scope : String
  pub key : String
  pub request_hash : ℕ
  pub state : State
  pub owner_token : String
  pub lease_expires_at : ℕ
  pub operation_id : String
  pub ledger_transaction_id : Option String
  pub response_code : Option ℤ
  pub response_payload : Option (List ℕ)
  pub failure_code : Option String

abbrev pub Table : Type 0
Table = List Row

-- `LeaseDuration` in nanoseconds.
pub record ClaimRequest : Type 0 where
  pub scope : String
  pub key : String
  pub request_hash : ℕ
  pub owner_token : String
  pub operation_id : String
  pub lease_duration : ℤ

-- The record that a claim answers with: owned, or finished already.
pub data Claim : Type 0 where
  acquired cached : Row → Claim

abbrev pub is_row : String → String → Row → Bool
is_row scope key r = str_eq r.scope scope && str_eq r.key key

-- The row of a primary key.
unfoldable pub find : String → String → Table → Option Row
find scope key [] = none
find scope key (r ∷ rows) = if is_row scope key r then some r else find scope key rows

-- `UPDATE … WHERE scope=$1 AND idempotency_key=$2`
unfoldable pub update : String → String → (Row → Row) → Table → Table
update scope key f [] = []
update scope key f (r ∷ rows) = (if is_row scope key r then f r else r) ∷ update scope key f rows

-- `Duration.Microseconds`, at least one.
abbrev pub lease_micros : ℤ → ℕ
lease_micros (pos nanos) = if nanos / 1000 == 0 then 1 else nanos / 1000
lease_micros (negsuc n) = 1

abbrev is_lease : ℤ → Bool
is_lease (pos nanos) = not (nanos == 0)
is_lease (negsuc n) = false

unfoldable pub new_row : ℕ → ClaimRequest → Row
new_row now q = record {
  scope = q.scope;
  key = q.key;
  request_hash = q.request_hash;
  state = processing;
  owner_token = q.owner_token;
  lease_expires_at = now + lease_micros q.lease_duration;
  operation_id = q.operation_id;
  ledger_transaction_id = none;
  response_code = none;
  response_payload = none;
  failure_code = none;
}

-- `INSERT … ON CONFLICT DO NOTHING`
unfoldable pub insert_row : ℕ → ClaimRequest → Table → Table
unfolding new_row
insert_row now q t = elim (find q.scope q.key t) [ some _ ↦ t | none ↦ new_row now q ∷ t ]

abbrev pub is_processing : State → Bool
is_processing processing = true
is_processing _ = false

abbrev pub taken_over : ℕ → ClaimRequest → Row → Row
taken_over now q r = record r {
  owner_token = q.owner_token;
  lease_expires_at = now + lease_micros q.lease_duration;
}

-- The row that the claim finds after its insert.
unfoldable pub claim_row : ℕ → ClaimRequest → Table → Row → Result Error (Table × Claim)
claim_row now q t r =
    if not (r.request_hash == q.request_hash)
    then err key_conflict
    else if not (is_processing r.state)
    then ok (t, cached r)
    else if str_eq r.owner_token q.owner_token
    then ok (t, acquired r)
    else if not (leb r.lease_expires_at now)
    then err in_progress
    else ok (update q.scope q.key (taken_over now q) t, acquired (taken_over now q r))

unfoldable pub valid_claim : ClaimRequest → Bool
valid_claim q = not (
    str_eq q.scope ""
    || (str_eq q.key ""
        || (str_eq q.owner_token ""
            || (str_eq q.operation_id "" || not (is_lease q.lease_duration)))))

-- `Claim` at the transaction's time.
unfoldable pub claim : ℕ → ClaimRequest → Table → Result Error (Table × Claim)
claim now q t =
    if not (valid_claim q)
    then err invalid_request
    else elim (find q.scope q.key (insert_row now q t)) [
      | none ↦ err no_row
      | some r ↦ claim_row now q (insert_row now q t) r
    ]

-- `UPDATE … AND owner_token=$3 AND state='PROCESSING'`: a row that is another's or finished is lost.
unfoldable pub finish : String → String → String → (Row → Row) → Table → Result Error Table
finish scope key owner f t = elim (find scope key t) [
  | none ↦ err lost_claim
  | some r ↦
      if str_eq r.owner_token owner && is_processing r.state
      then ok (update scope key f t)
      else err lost_claim
]

-- The row that `Complete` writes, with the response as its JSONB column returns it.
abbrev pub succeed : String → ℤ → List ℕ → Row → Row
succeed transaction code response r = record r {
  state = succeeded;
  ledger_transaction_id = some transaction;
  response_code = some code;
  response_payload = some response;
  failure_code = none;
}

abbrev pub fail_row : String → List ℕ → Row → Row
fail_row code response r = record r {
  state = failed;
  response_payload = some response;
  failure_code = some code;
}

-- `jsonb_text` is the database's: the text that it returns of a text cast to JSONB, where it takes it.
module _ (reencode_json jsonb_text : List ℕ → Option (List ℕ)) where
  -- The canonical response, cast to JSONB.
  unfoldable pub stored_response : List ℕ → Result Error (List ℕ)
  stored_response raw = elim (canonical_json reencode_json raw) [
    | none ↦ err bad_response
    | some payload ↦ elim (jsonb_text payload) [ none ↦ err refused_json | some text ↦ ok text ]
  ]

  -- `Complete`, with the response as `json.Marshal` wrote it.
  unfoldable pub complete :
      String → String → String → String → ℤ → List ℕ → Table → Result Error Table
  complete scope key owner transaction code raw t =
      if str_eq scope "" || (str_eq key "" || (str_eq owner "" || str_eq transaction ""))
      then err invalid_request
      else elim (stored_response raw) [
        | err e ↦ err e
        | ok response ↦ finish scope key owner (succeed transaction code response) t
      ]

  -- `Fail`
  unfoldable pub fail : String → String → String → String → List ℕ → Table → Result Error Table
  fail scope key owner code raw t =
      if str_eq scope "" || (str_eq key "" || (str_eq owner "" || str_eq code ""))
      then err invalid_request
      else elim (stored_response raw) [
        | err e ↦ err e
        | ok response ↦ finish scope key owner (fail_row code response) t
      ]

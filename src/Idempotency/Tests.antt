-- ===== src/Idempotency/Tests.antt =====
-- Runs of internal/idempotency at concrete inputs.
use payment_platform.Common.{ℕ, pos, none, some, Option, List, [], ◌∷◌, ◌≡◌, refl, err}
use payment_platform.Ledger.Posting.{canonical_json}
use payment_platform.Idempotency.Records.{
  processing, Row, ClaimRequest, in_progress, find, update, new_row, insert_row, claim_row,
  valid_claim, claim, finish, succeed, stored_response, complete,
}
use payment_platform.Idempotency.Calls.{claiming, completing, run_calls}
use payment_platform.Idempotency.Answers.{IsFinished, complete-IsFinished}
use payment_platform.Idempotency.Leases.{IsExclusive, claim-IsExclusive}

abbrev same_text : List ℕ → Option (List ℕ)
same_text bytes = some bytes

-- A database that returns a text with a space before it.
abbrev spaced : List ℕ → Option (List ℕ)
spaced bytes = some (32 ∷ bytes)

abbrev first_claim : ClaimRequest
first_claim = record {
  scope = "pay";
  key = "k1";
  request_hash = 9;
  owner_token = "one";
  operation_id = "op1";
  lease_duration = pos 5000;
}

abbrev second_claim : ClaimRequest
second_claim = record first_claim { owner_token = "two"; operation_id = "op2" }

abbrev claimed : Row
claimed = record {
  scope = "pay";
  key = "k1";
  request_hash = 9;
  state = processing;
  owner_token = "one";
  lease_expires_at = 105;
  operation_id = "op1";
  ledger_transaction_id = none;
  response_code = none;
  response_payload = none;
  failure_code = none;
}

claim_while_leased : claim 104 second_claim (claimed ∷ []) ≡ err in_progress
unfolding claim valid_claim find insert_row claim_row
claim_while_leased = refl

complete-IsFinished_example :
    (r : Row) × (find "pay" "k1" (claimed ∷ []) ≡ some r)
    × IsFinished first_claim (succeed "t1" (pos 200) (32 ∷ 1 ∷ []) r) (
        run_calls same_text spaced
          (claiming 999 second_claim ∷ completing "pay" "k1" "two" "t2" (pos 500) (2 ∷ []) ∷ [])
          (succeed "t1" (pos 200) (32 ∷ 1 ∷ []) claimed ∷ []))
unfolding valid_claim canonical_json stored_response complete finish find update
complete-IsFinished_example =
    complete-IsFinished same_text spaced first_claim "one" (1 ∷ []) (claimed ∷ []) refl "t1"
      (pos 200) refl refl
      (claiming 999 second_claim ∷ completing "pay" "k1" "two" "t2" (pos 500) (2 ∷ []) ∷ [])

claim-IsExclusive_example : IsExclusive first_claim second_claim claimed (claimed ∷ [])
unfolding claim valid_claim find insert_row new_row claim_row
claim-IsExclusive_example = claim-IsExclusive 100 first_claim second_claim [] refl refl (record {
  same_scope = refl;
  same_key = refl;
  same_hash = refl;
  other_owner = refl;
  valid = refl;
})

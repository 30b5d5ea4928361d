-- ===== src/Idempotency/Answers.antt =====
-- How a request that has finished is answered, internal/idempotency/service.go.
use payment_platform.Common.{
  ℕ, ℤ, String, str_eq, ◌≡◌, refl, ap, ◌∙◌, inl, inr, arith, true, false, ◌||◌, Option, some, List,
  ok, err, ◌==◌, if◌then◌else◌, Bool-cases,
}
use payment_platform.Common.Dict.{apply_to}
use payment_platform.Idempotency.Records.{
  key_conflict, lost_claim, Row, Table, ClaimRequest, cached, is_row, find, is_processing,
  claim_row, valid_claim, claim, finish, succeed, fail_row, stored_response, complete, fail,
}
use payment_platform.Idempotency.Replay.{find-update, claim-known, finish-ok, finish-terminal}
use payment_platform.Idempotency.Calls.{Call, run_calls, run_calls-Stands}

-- A claim is answered by the row that stands for its key, whatever the time, and nobody finishes it again.
pub record IsFinished (q : ClaimRequest) (row : Row) (t : Table) : Type 0 where
  pub replayed :
      (now : ℕ)
      → claim now q t
        ≡ (if row.request_hash == q.request_hash then ok (t, cached row) else err key_conflict)
  pub final : (owner : String) (f : Row → Row) → finish q.scope q.key owner f t ≡ err lost_claim

find-IsFinished :
    (q : ClaimRequest) (row : Row) (t : Table)
    → is_processing row.state ≡ false
    → valid_claim q ≡ true
    → find q.scope q.key t ≡ some row
    → IsFinished q row t
unfolding claim_row
find-IsFinished q row t done valid stands = record {
  replayed = λ now.
      claim-known now q t valid stands ∙ (elim (Bool-cases (row.request_hash == q.request_hash)) [
        | inl one ↦ simp (one, done)
        | inr other ↦ simp (other)
      ]);
  final = λ owner f. finish-terminal q.scope q.key owner f t stands done;
}

module _ (reencode_json jsonb_text : List ℕ → Option (List ℕ)) (q : ClaimRequest) (owner : String)
    (raw : List ℕ) (t : Table) {t' : Table} (valid : valid_claim q ≡ true) where
  finish-IsFinished :
      (result : Row → Row)
      → ((r : Row) → is_row q.scope q.key (result r) ≡ is_row q.scope q.key r)
      → ((r : Row) → is_processing (result r).state ≡ false)
      → finish q.scope q.key owner result t ≡ ok t'
      → (calls : List Call)
      → (r : Row) × (find q.scope q.key t ≡ some r)
        × IsFinished q (result r) (run_calls reencode_json jsonb_text calls t')
  finish-IsFinished result same done h calls =
      let (r, e, written) = finish-ok q.scope q.key owner result t h in
      let stands : find q.scope q.key t' ≡ some (result r) =
        ap (find q.scope q.key) written
        ∙ find-update q.scope q.key result same t
        ∙ ap (apply_to result) e in
      (
        r,
        e,
        find-IsFinished q (result r) (run_calls reencode_json jsonb_text calls t') (done r) valid (
            run_calls-Stands reencode_json jsonb_text q.scope q.key (result r) (done r) calls t'
              stands),
      )

  -- A request that was completed is answered from then on by its record, whatever is claimed, completed or
  -- failed in between: a claim with the same hash finds the transaction, the code and the response as its
  -- JSONB column returns it and writes nothing, a claim with another hash is a conflict, and no owner
  -- completes or fails it again.
  pub complete-IsFinished :
      (transaction : String) (code : ℤ) {response : List ℕ}
      → stored_response reencode_json jsonb_text raw ≡ ok response
      → complete reencode_json jsonb_text q.scope q.key owner transaction code raw t ≡ ok t'
      → (calls : List Call)
      → (r : Row) × (find q.scope q.key t ≡ some r)
        × IsFinished q
            (succeed transaction code response r)
            (run_calls reencode_json jsonb_text calls t')
  unfolding complete
  complete-IsFinished transaction code {response} stored h calls =
      elim (Bool-cases
        (str_eq q.scope "" || (str_eq q.key "" || (str_eq owner "" || str_eq transaction "")))) [
          | inl bad ↦ ground (arith, rw bad at h)
          | inr good ↦
              finish-IsFinished (succeed transaction code response) (λ r. refl) (λ r. refl)
                (rw (good, stored, complete) at h) calls
        ]

  -- The same of a request that failed for good, with its failure's code and response.
  pub fail-IsFinished :
      (code : String) {response : List ℕ}
      → stored_response reencode_json jsonb_text raw ≡ ok response
      → fail reencode_json jsonb_text q.scope q.key owner code raw t ≡ ok t'
      → (calls : List Call)
      → (r : Row) × (find q.scope q.key t ≡ some r)
        × IsFinished q (fail_row code response r) (run_calls reencode_json jsonb_text calls t')
  unfolding fail
  fail-IsFinished code {response} stored h calls =
      elim (Bool-cases
        (str_eq q.scope "" || (str_eq q.key "" || (str_eq owner "" || str_eq code "")))) [
          | inl bad ↦ ground (arith, rw bad at h)
          | inr good ↦
              finish-IsFinished (fail_row code response) (λ r. refl) (λ r. refl)
                (rw (good, stored, fail) at h) calls
        ]

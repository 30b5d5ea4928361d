-- ===== src/Idempotency/Calls.antt =====
-- Runs of `Claim`, `Complete` and `Fail` by any owners, internal/idempotency/service.go.
use payment_platform.Common.{
  ℕ, ℤ, String, str_eq, eq_iff, ◌≡◌, refl, sym, ap, ◌∙◌, inl, inr, arith, true, false, ◌&&◌, ◌||◌,
  Option, some, List, [], ◌∷◌, Result, ok, err, leb, ◌==◌, Bool-cases, Option-cases, Result-cases,
}
use payment_platform.Idempotency.Records.{
  Error, Row, Table, ClaimRequest, Claim, is_row, find, update, insert_row, new_row, is_processing,
  taken_over, claim_row, valid_claim, claim, finish, succeed, fail_row, stored_response, complete,
  fail,
}
use payment_platform.Idempotency.Replay.{claim-known, find-found, finish-ok, finish-terminal}

-- A call with its arguments; a claim with the time of its transaction.
pub data Call : Type 0 where
  claiming : ℕ → ClaimRequest → Call
  completing : String → String → String → String → ℤ → List ℕ → Call
  failing : String → String → String → String → List ℕ → Call

-- A call that fails aborts its transaction and leaves the table as it was.
abbrev pub claimed_or : Result Error (Table × Claim) → Table → Table
claimed_or (ok (t', c)) t = t'
claimed_or (err e) t = t

abbrev pub written_or : Result Error Table → Table → Table
written_or (ok t') t = t'
written_or (err e) t = t

module _ (reencode_json jsonb_text : List ℕ → Option (List ℕ)) where
  abbrev pub run_call : Call → Table → Table
  run_call (claiming now q) t = claimed_or (claim now q t) t
  run_call (completing scope key owner transaction code raw) t =
      written_or (complete reencode_json jsonb_text scope key owner transaction code raw t) t
  run_call (failing scope key owner code raw) t =
      written_or (fail reencode_json jsonb_text scope key owner code raw t) t

  abbrev pub run_calls : List Call → Table → Table
  run_calls [] t = t
  run_calls (c ∷ calls) t = run_calls calls (run_call c t)

module _ (scope key : String) (r : Row) (done : is_processing r.state ≡ false) where
  -- The row of a key, when it is finished.
  abbrev Stands : Table → Type 0
  Stands t = find scope key t ≡ some r

  Stands-update :
      (scope' key' : String) (f : Row → Row) (t : Table)
      → ((x : Row) → is_row scope key (f x) ≡ is_row scope key x)
      → is_row scope' key' r ≡ false
      → Stands t
      → Stands (update scope' key' f t)
  unfolding find update
  Stands-update scope' key' f [] same other h = h
  Stands-update scope' key' f (x ∷ rows) same other h = elim (Bool-cases (is_row scope key x)) [
    | inl here ↦
        let found : x ≡ r = ground (arith, rw here at h) in
        let kept : is_row scope' key' x ≡ false = rw found other in rw (kept, here) (ap some found)
    | inr past ↦
        let rest = Stands-update scope' key' f rows same other (rw past at h) in
        elim (Bool-cases (is_row scope' key' x)) [
          | inl there ↦ rw (there, same x, past) rest
          | inr elsewhere ↦ rw (elsewhere, past) rest
        ]
  ]

  -- A key that is the row's is this key.
  same_key :
      (scope' key' : String) (t : Table)
      → Stands t
      → is_row scope' key' r ≡ true
      → (scope' ≡ scope) × (key' ≡ key)
  same_key scope' key' t h own =
      let found = find-found scope key t h in
      (
        sym ((eq_iff r.scope scope').0 (ground arith)) ∙ (eq_iff r.scope scope).0 (ground arith),
        sym ((eq_iff r.key key').0 (ground arith)) ∙ (eq_iff r.key key).0 (ground arith),
      )

  finish-Stands :
      (scope' key' owner : String) (f : Row → Row) (t : Table)
      → ((x : Row) → is_row scope key (f x) ≡ is_row scope key x)
      → Stands t
      → Stands (written_or (finish scope' key' owner f t) t)
  finish-Stands scope' key' owner f t same h = elim (Bool-cases (is_row scope' key' r)) [
    | inl own ↦
        let (p, q) = same_key scope' key' t h own in
        rw (p, q) (rw (finish-terminal scope key owner f t h done) h)
    | inr other ↦ elim (Result-cases (finish scope' key' owner f t)) [
      | inl (e, failed) ↦ rw failed h
      | inr (t', e) ↦
          let (x, known, written) = finish-ok scope' key' owner f t e in
          rw e (rw written (Stands-update scope' key' f t same other h))
    ]
  ]

  claim_row-Stands :
      (now : ℕ) (q : ClaimRequest) (t t' : Table) (x : Row)
      → is_row q.scope q.key r ≡ false
      → Stands t
      → Stands t'
      → Stands (claimed_or (claim_row now q t' x) t)
  unfolding claim_row
  claim_row-Stands now q t t' x other h h' = elim (Bool-cases (x.request_hash == q.request_hash)) [
    | inr differ ↦ rw differ h
    | inl same ↦ elim (Bool-cases (is_processing x.state)) [
      | inr finished ↦ rw (same, finished) h'
      | inl running ↦ elim (Bool-cases (str_eq x.owner_token q.owner_token)) [
        | inl own ↦ rw (same, running, own) h'
        | inr foreign ↦ elim (Bool-cases (leb x.lease_expires_at now)) [
          | inr held ↦ rw (same, running, foreign, held) h
          | inl expired ↦
              rw (same, running, foreign, expired)
                (Stands-update q.scope q.key (taken_over now q) t' (λ y. refl) other h')
        ]
      ]
    ]
  ]

  new_row-apart :
      (now : ℕ) (q : ClaimRequest)
      → is_row q.scope q.key r ≡ false
      → is_row scope key r ≡ true
      → is_row scope key (new_row now q) ≡ false
  unfolding new_row
  new_row-apart now q other found = elim (Bool-cases (str_eq q.scope scope && str_eq q.key key)) [
    | inr apart ↦ apart
    | inl same ↦
        let p : q.scope ≡ scope = (eq_iff q.scope scope).0 (ground (arith, same)) in
        let k : q.key ≡ key = (eq_iff q.key key).0 (ground (arith, same)) in
        let missed : is_row scope key r ≡ false = rw (p, k) at other in cc
  ]

  insert_row-Stands :
      (now : ℕ) (q : ClaimRequest) (t : Table)
      → is_row q.scope q.key r ≡ false
      → Stands t
      → Stands (insert_row now q t)
  unfolding insert_row new_row find
  insert_row-Stands now q t other h = elim (Option-cases (find q.scope q.key t)) [
    | inr (x, e) ↦ rw (e, insert_row) h
    | inl new ↦
        let found = find-found scope key t h in
        let apart : is_row scope key (new_row now q) ≡ false = new_row-apart now q other found in
        rw (new, insert_row) (rw apart h)
  ]

  claim-Stands :
      (now : ℕ) (q : ClaimRequest) (t : Table) → Stands t → Stands (claimed_or (claim now q t) t)
  unfolding claim claim_row
  claim-Stands now q t h = elim (Bool-cases (valid_claim q)) [
    | inr invalid ↦ rw (invalid, claim) h
    | inl valid ↦ elim (Bool-cases (is_row q.scope q.key r)) [
      | inl own ↦
          let (p, k) = same_key q.scope q.key t h own in
          let known : find q.scope q.key t ≡ some r = rw (p, k) h in
          rw (claim-known now q t valid known)
            (elim (Bool-cases (r.request_hash == q.request_hash)) [
              | inl same ↦ rw (same, done) h
              | inr differ ↦ rw differ h
            ])
      | inr other ↦
          let kept = insert_row-Stands now q t other h in
          elim (Option-cases (find q.scope q.key (insert_row now q t))) [
            | inl missing ↦ rw (valid, claim, missing) h
            | inr (x, e) ↦
                rw (valid, claim, e) (claim_row-Stands now q t (insert_row now q t) x other h kept)
          ]
    ]
  ]

module _ (reencode_json jsonb_text : List ℕ → Option (List ℕ)) (scope key : String) (r : Row)
    (done : is_processing r.state ≡ false) where
  run_call-Stands :
      (c : Call) (t : Table)
      → Stands scope key r done t
      → Stands scope key r done (run_call reencode_json jsonb_text c t)
  unfolding complete fail
  run_call-Stands (claiming now q) t h = claim-Stands scope key r done now q t h
  run_call-Stands (completing s k owner transaction code raw) t h =
      elim (Bool-cases
        (str_eq s "" || (str_eq k "" || (str_eq owner "" || str_eq transaction "")))) [
          | inl bad ↦ rw bad h
          | inr good ↦ elim (Result-cases (stored_response reencode_json jsonb_text raw)) [
            | inl (e, failed) ↦ rw (good, failed, complete) h
            | inr (response, e) ↦
                rw (good, e, complete)
                  (finish-Stands scope key r done s k owner (succeed transaction code response) t
                    (λ x. refl) h)
          ]
        ]
  run_call-Stands (failing s k owner code raw) t h =
      elim (Bool-cases (str_eq s "" || (str_eq k "" || (str_eq owner "" || str_eq code "")))) [
        | inl bad ↦ rw bad h
        | inr good ↦ elim (Result-cases (stored_response reencode_json jsonb_text raw)) [
          | inl (e, failed) ↦ rw (good, failed, fail) h
          | inr (response, e) ↦
              rw (good, e, fail)
                (finish-Stands scope key r done s k owner (fail_row code response) t (λ x. refl) h)
        ]
      ]

  -- A finished row stands for good, whatever is claimed, completed or failed after it.
  pub run_calls-Stands :
      (calls : List Call) (t : Table)
      → find scope key t ≡ some r
      → find scope key (run_calls reencode_json jsonb_text calls t) ≡ some r
  run_calls-Stands [] t h = h
  run_calls-Stands (c ∷ calls) t h =
      run_calls-Stands calls (run_call reencode_json jsonb_text c t) (run_call-Stands c t h)

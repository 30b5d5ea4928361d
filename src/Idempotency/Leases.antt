-- ===== src/Idempotency/Leases.antt =====
-- Owners and rivals of a running request, internal/idempotency/service.go.
use payment_platform.Common.{
  ℕ, str_eq, str_eq_refl, eq_iff, ◌≡◌, refl, sym, ap, ◌∙◌, inl, inr, arith, true, false, not, none,
  some, ◌∷◌, ok, err, leb, ◌==◌, ==_iff, if◌then◌else◌, Bool-cases, Option-cases,
}
use payment_platform.Common.Dict.{apply_to}
use payment_platform.Idempotency.Records.{
  in_progress, lost_claim, State, processing, succeeded, failed, Row, Table, ClaimRequest, acquired,
  find, update, insert_row, new_row, is_processing, taken_over, claim_row, valid_claim, claim,
  finish,
}
use payment_platform.Idempotency.Replay.{find-update, claim-known}

-- The row of a claim that was acquired.
pub record IsOwned (q : ClaimRequest) (r : Row) (t : Table) : Type 0 where
  pub found : find q.scope q.key t ≡ some r
  pub owner : r.owner_token ≡ q.owner_token
  pub running : r.state ≡ processing
  pub same_request : r.request_hash ≡ q.request_hash

is_processing-true : (s : State) → is_processing s ≡ true → s ≡ processing
is_processing-true processing h = refl
is_processing-true succeeded h = cc
is_processing-true failed h = cc

claim_row-IsOwned :
    (now : ℕ) (q : ClaimRequest) (t : Table) (x : Row) {t' : Table} {r : Row}
    → find q.scope q.key t ≡ some x
    → claim_row now q t x ≡ ok (t', acquired r)
    → IsOwned q r t'
unfolding claim_row
claim_row-IsOwned now q t x {t'} {r} e h = elim (Bool-cases (x.request_hash == q.request_hash)) [
  | inr other ↦ ground (arith, rw other at h)
  | inl same ↦ elim (Bool-cases (is_processing x.state)) [
    | inr done ↦ ground (arith, rw (same, done) at h)
    | inl running ↦ elim (Bool-cases (str_eq x.owner_token q.owner_token)) [
      | inl own ↦
          let k = rw (same, running, own) at h in
          let table : t ≡ t' = cc in
          let row : x ≡ r = cc in
          rw (← table) (
            rw (← row) (record {
              found = e;
              owner = (eq_iff x.owner_token q.owner_token).0 own;
              running = is_processing-true x.state running;
              same_request = (==_iff _ _).0 same;
            }))
      | inr foreign ↦ elim (Bool-cases (leb x.lease_expires_at now)) [
        | inr held ↦ ground (arith, rw (same, running, foreign, held) at h)
        | inl expired ↦
            let k = rw (same, running, foreign, expired) at h in
            let table : update q.scope q.key (taken_over now q) t ≡ t' = cc in
            let row : taken_over now q x ≡ r = cc in
            rw (← table) (
              rw (← row) (record {
                found =
                    find-update q.scope q.key (taken_over now q) (λ y. refl) t
                    ∙ ap (apply_to (taken_over now q)) e;
                owner = refl;
                running = is_processing-true x.state running;
                same_request = (==_iff _ _).0 same;
              }))
      ]
    ]
  ]
]

find-insert_row :
    (now : ℕ) (q : ClaimRequest) (t : Table)
    → find q.scope q.key t ≡ none
    → (insert_row now q t ≡ new_row now q ∷ t)
      × (find q.scope q.key (new_row now q ∷ t) ≡ some (new_row now q))
unfolding insert_row new_row find
find-insert_row now q t new = (rw (new, insert_row) refl, simp (str_eq_refl))

-- A claim that acquires its row owns it, whether the row is new, its own or taken over.
claim-IsOwned :
    (now : ℕ) (q : ClaimRequest) (t : Table) {t' : Table} {r : Row}
    → valid_claim q ≡ true
    → claim now q t ≡ ok (t', acquired r)
    → IsOwned q r t'
unfolding claim
claim-IsOwned now q t valid h = elim (Option-cases (find q.scope q.key t)) [
  | inr (x, e) ↦ claim_row-IsOwned now q t x e (sym (claim-known now q t valid e) ∙ h)
  | inl new ↦
      let (table, row) = find-insert_row now q t new in
      claim_row-IsOwned now q (new_row now q ∷ t) (new_row now q) row
        (rw table at (rw (valid, table, row, claim) at h))
]

-- Two claims of one key and one request by different owners.
pub record IsRival (q q' : ClaimRequest) : Type 0 where
  pub same_scope : q'.scope ≡ q.scope
  pub same_key : q'.key ≡ q.key
  pub same_hash : q'.request_hash ≡ q.request_hash
  pub other_owner : str_eq q.owner_token q'.owner_token ≡ false
  pub valid : valid_claim q' ≡ true

-- What a rival meets: until the lease has run out the request is in progress; after that the rival
-- takes the row over, and the first owner can no longer finish it.
pub record IsExclusive (q q' : ClaimRequest) (r : Row) (t : Table) : Type 0 where
  pub met :
      (now : ℕ)
      → claim now q' t ≡ (
          if not (leb r.lease_expires_at now)
          then err in_progress
          else ok (update q'.scope q'.key (taken_over now q') t, acquired (taken_over now q' r)))
  pub lost :
      (now : ℕ) (f : Row → Row)
      → finish q.scope q.key q.owner_token f (update q'.scope q'.key (taken_over now q') t)
        ≡ err lost_claim

rival_row :
    (now : ℕ) (q q' : ClaimRequest) (r : Row) (t : Table)
    → IsOwned q r t
    → IsRival q q'
    → claim now q' t ≡ (
        if not (leb r.lease_expires_at now)
        then err in_progress
        else ok (update q'.scope q'.key (taken_over now q') t, acquired (taken_over now q' r)))
unfolding claim_row
rival_row now q q' r t o v =
    let same : (r.request_hash == q'.request_hash) ≡ true = ground arith in
    let known : find q'.scope q'.key t ≡ some r = rw (v.same_scope, v.same_key) o.found in
    let foreign : str_eq r.owner_token q'.owner_token ≡ false = rw o.owner v.other_owner in
    claim-known now q' t v.valid known ∙ simp (same, o.running, foreign)

finish-stolen :
    (now : ℕ) (q q' : ClaimRequest) (r : Row) (t : Table) (f : Row → Row)
    → IsOwned q r t
    → IsRival q q'
    → finish q.scope q.key q.owner_token f (update q'.scope q'.key (taken_over now q') t)
      ≡ err lost_claim
unfolding finish
finish-stolen now q q' r t f o v =
    let found : find q.scope q.key (update q.scope q.key (taken_over now q') t)
        ≡ some (taken_over now q' r) =
      find-update q.scope q.key (taken_over now q') (λ y. refl) t
      ∙ ap (apply_to (taken_over now q')) o.found in
    let lost : str_eq q'.owner_token q.owner_token ≡ false = ground (
      arith,
      v.other_owner,
      eq_iff q.owner_token q'.owner_token,
      eq_iff q'.owner_token q.owner_token,
    ) in
    rw (v.same_scope, v.same_key, found, finish, lost) refl

-- A claim that acquired its row keeps every rival for the same request out until its lease has run out;
-- after that a rival takes the row over, and the first owner can neither complete nor fail it.
pub claim-IsExclusive :
    (now : ℕ) (q q' : ClaimRequest) (t : Table) {t' : Table} {r : Row}
    → valid_claim q ≡ true
    → claim now q t ≡ ok (t', acquired r)
    → IsRival q q'
    → IsExclusive q q' r t'
claim-IsExclusive now q q' t {t'} {r} valid h v =
    let o = claim-IsOwned now q t valid h in
    record {
      met = λ later. rival_row later q q' r t' o v;
      lost = λ later f. finish-stolen later q q' r t' f o v;
    }

-- ===== src/Idempotency/Replay.antt =====
-- Requests that have finished, internal/idempotency/service.go.
use payment_platform.Common.{
  ℕ, String, str_eq, ◌≡◌, refl, inl, inr, arith, true, false, ◌&&◌, some, [], ◌∷◌, ok, err,
  Bool-cases, Option-cases,
}
use payment_platform.Common.Dict.{apply_to}
use payment_platform.Idempotency.Records.{
  lost_claim, Row, Table, ClaimRequest, is_row, find, update, insert_row, is_processing, claim_row,
  valid_claim, claim, finish,
}

module _ (scope key : String) (f : Row → Row)
    (same : (r : Row) → is_row scope key (f r) ≡ is_row scope key r) where
  pub find-update :
      (t : Table) → find scope key (update scope key f t) ≡ apply_to f (find scope key t)
  unfolding find update
  find-update [] = refl
  find-update (r ∷ rows) = ground (arith, same r, find-update rows)

pub find-found :
    (scope key : String) (t : Table) {r : Row}
    → find scope key t ≡ some r
    → is_row scope key r ≡ true
unfolding find
find-found scope key [] h = ground arith
find-found scope key (x ∷ rows) h = elim (Bool-cases (is_row scope key x)) [
  | inl here ↦ ground arith
  | inr later ↦ find-found scope key rows (rw later at h)
]

insert_row-known :
    (now : ℕ) (q : ClaimRequest) (t : Table) {r : Row}
    → find q.scope q.key t ≡ some r
    → insert_row now q t ≡ t
unfolding insert_row
insert_row-known now q t h = rw (h, insert_row) refl

-- A claim of a row that stands already.
pub claim-known :
    (now : ℕ) (q : ClaimRequest) (t : Table) {r : Row}
    → valid_claim q ≡ true
    → find q.scope q.key t ≡ some r
    → claim now q t ≡ claim_row now q t r
unfolding claim
claim-known now q t h e =
    rw (h, insert_row-known now q t e, e, claim) (rw (insert_row-known now q t e) refl)

pub finish-ok :
    (scope key owner : String) (f : Row → Row) (t : Table) {t' : Table}
    → finish scope key owner f t ≡ ok t'
    → (r : Row) × (find scope key t ≡ some r) × (t' ≡ update scope key f t)
unfolding finish
finish-ok scope key owner f t h = elim (Option-cases (find scope key t)) [
  | inl missing ↦ ground (arith, rw (missing, finish) at h)
  | inr (r, e) ↦ elim (Bool-cases (str_eq r.owner_token owner && is_processing r.state)) [
    | inl owned ↦ (r, e, ground (arith, rw (e, finish, owned) at h))
    | inr lost ↦ ground (arith, rw (e, finish, lost) at h)
  ]
]

-- A row that is not processing is no claim's to finish.
pub finish-terminal :
    (scope key owner : String) (f : Row → Row) (t : Table) {r : Row}
    → find scope key t ≡ some r
    → is_processing r.state ≡ false
    → finish scope key owner f t ≡ err lost_claim
unfolding finish
finish-terminal scope key owner f t {r} e done =
    rw (e, finish)
      (elim (Bool-cases (str_eq r.owner_token owner)) [
        | inl own ↦ rw (own, done) refl
        | inr other ↦ rw (other) refl
      ])

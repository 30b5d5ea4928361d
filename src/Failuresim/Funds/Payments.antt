-- ===== src/Failuresim/Funds/Payments.antt =====
-- A payment keeps the conservation laws, however it ends.
use payment_platform.Common.{
  ℕ, String, str_eq, ◌≡◌, refl, inl, inr, some, pos, ◌+ℤ◌, ◌-ℤ◌, ◌≤ℤ◌, ℤ, Bool-cases, Result-cases,
  arith, int_laws, parts, ◌==◌, ◌||◌, ◌∙◌, ok,
}
use payment_platform.Common.Int.{ -ℤ_parts}
use payment_platform.Common.Dict.{lookup}
use payment_platform.Ledger.Amount.{Amount, is_not_positive, add, sub, add-ok, sub-ok}
use payment_platform.Failuresim.Types.{Receipt, Fence, user_account}
use payment_platform.Failuresim.Hashing.{Primitives}
use payment_platform.Failuresim.Book.{Book, post_locked, receipt_of}
use payment_platform.Failuresim.Book.Posts.{post_locked-cases}
use payment_platform.Failuresim.World.{
  World, RegionState, IdempotencyRecord, balance_of, consume_counter, require_writer, fence_of,
}
use payment_platform.Failuresim.Effects.{remember, add_outbox}
use payment_platform.Failuresim.Payments.{
  pay_lines, pay_plan, pay_apply, pay_finish, pay_post, payment_effect, pay_fresh, pay_new,
  pay_seen, pay_writer, pay_with_fence, pay,
}
use payment_platform.Failuresim.Funds.{Funded}
use payment_platform.Failuresim.Funds.Frames.{halt-Funded, once-Funded, require_writer-ok}
use payment_platform.Failuresim.Funds.Effects.{IsForeign-letter}
use payment_platform.Failuresim.Funds.Shift.{IsFunded-shift}
use payment_platform.Failuresim.Funds.Lines.{pay_lines-IsShift}

-- What an accepted plan says.
pub record IsPlanned (amount : Amount) (s : RegionState) (w : World) (plan : Amount × Amount)
    : Type 0 where
  pub rights : plan.0 ≡ s.rights -ℤ amount
  pub authority : plan.1 ≡ w.authority_total -ℤ amount
  pub funds : amount ≤ℤ balance_of user_account w +ℤ w.credit_limit
  pub covered : pos 0 ≤ℤ plan.0
  pub solvent : pos 0 ≤ℤ plan.1

pub pay_plan-ok :
    (amount : Amount) (s : RegionState) (w : World) {plan : Amount × Amount}
    → pay_plan amount s w ≡ ok plan
    → IsPlanned amount s w plan
unfolding pay_plan
pay_plan-ok amount s w h = elim (Result-cases (add (balance_of user_account w) w.credit_limit)) [
  | inl (e, failed) ↦ ground arith
  | inr (available, p) ↦ elim (Result-cases (sub s.rights amount)) [
    | inl (e, failed) ↦ ground arith
    | inr (rights, q) ↦ elim (Result-cases (sub w.authority_total amount)) [
      | inl (e, failed) ↦ ground arith
      | inr (authority, r) ↦
          let e₁ = add-ok (balance_of user_account w) w.credit_limit p in
          let e₂ = sub-ok s.rights amount q in
          let e₃ = sub-ok w.authority_total amount r in
          record {
            rights = ground (arith, e₂);
            authority = ground (arith, e₃);
            funds = ground (arith, e₁);
            covered = ground (arith, parts e₂, -ℤ_parts s.rights amount);
            solvent = ground (arith, e₃);
          }
    ]
  ]
]

sub_as_add : (a b : ℤ) → a -ℤ b ≡ a +ℤ (pos 0 -ℤ b)
sub_as_add a b = omega int_laws

module _ (prim : Primitives) where
  pay_finish-Funded :
      (region key : String) (fingerprint : ℕ) (receipt : Receipt) (w : World)
      → Funded prim w
      → Funded prim (pay_finish region key fingerprint receipt w).0
  unfolding pay_finish remember
  pay_finish-Funded region key fingerprint receipt w v =
      elim (Bool-cases (consume_counter w.crash_after_commit key).0) [
        | inl crashed ↦ rw crashed (halt-Funded prim region _ v)
        | inr running ↦ rw running v
      ]

  -- What a post that succeeded makes of the funds.
  pay_apply-Funded :
      (region key operation : String) (fingerprint : ℕ) (amount : Amount) (s : RegionState)
      (plan : Amount × Amount) (w : World) {book : Book} {receipt : Receipt}
      → lookup region w.regions ≡ some s
      → IsPlanned amount s w plan
      → post_locked prim
          (payment_effect operation)
          "PAYMENT_CAPTURE"
          fingerprint
          (pay_lines w region amount)
          w.book
        ≡ ok (book, receipt)
      → Funded prim w
      → Funded prim (pay_apply region operation amount plan book receipt w)
  unfolding pay_apply add_outbox receipt_of
  pay_apply-Funded region key operation fingerprint amount s plan w {book} {receipt} known p posted
        v =
      elim (post_locked-cases prim (payment_effect operation) "PAYMENT_CAPTURE" fingerprint
        (pay_lines w region amount) w.book posted) [
          | inl replayed ↦ rw (replayed.answered) (rw replayed.unchanged v)
          | inr appended ↦
              rw (appended.answered, p.authority ∙ sub_as_add w.authority_total amount)
                (IsFunded-shift prim w.credit_limit w.unallocated w.authority_total w.regions
                  w.transfers (payment_effect operation) "PAYMENT_CAPTURE" fingerprint
                  (pay_lines w region amount) v appended region s (pos 0 -ℤ amount) plan.0 known
                  (pay_lines-IsShift w region amount) (p.rights ∙ sub_as_add s.rights amount)
                  p.covered (IsForeign-letter "p" "ayment:" operation refl refl)
                  (rw (← sub_as_add w.authority_total amount, ← p.authority) p.solvent))
        ]

  pay_post-Funded :
      (region key operation : String) (fingerprint : ℕ) (amount : Amount) (s : RegionState)
      (plan : Amount × Amount) (w : World)
      → lookup region w.regions ≡ some s
      → IsPlanned amount s w plan
      → Funded prim w
      → Funded prim (pay_post prim region key operation fingerprint amount plan w).0
  unfolding pay_post
  pay_post-Funded region key operation fingerprint amount s plan w known p v =
      elim (Result-cases (
        post_locked prim (payment_effect operation) "PAYMENT_CAPTURE" fingerprint
          (pay_lines w region amount) w.book)) [
            | inl (e, failed) ↦ rw (failed, pay_post) v
            | inr (posted, e) ↦
                rw (e, pay_post)
                  (pay_finish-Funded region key fingerprint posted.1 _
                    (pay_apply-Funded region key operation fingerprint amount s plan w known p e v))
          ]

  pay_fresh-Funded :
      (region key operation : String) (fingerprint : ℕ) (amount : Amount) (s : RegionState)
      (w : World)
      → lookup region w.regions ≡ some s
      → Funded prim w
      → Funded prim (pay_fresh prim region key operation fingerprint amount s w).0
  unfolding pay_fresh
  pay_fresh-Funded region key operation fingerprint amount s w known v =
      elim (Result-cases (pay_plan amount s w)) [
        | inl (e, failed) ↦ rw (failed, pay_fresh) v
        | inr (plan, e) ↦
            rw (e, pay_fresh)
              (pay_post-Funded region key operation fingerprint amount s plan w known
                (pay_plan-ok amount s w e) v)
      ]

  pay_new-Funded :
      (region key operation : String) (fingerprint : ℕ) (amount : Amount) (s : RegionState)
      (w : World)
      → lookup region w.regions ≡ some s
      → Funded prim w
      → Funded prim (pay_new prim region key operation fingerprint amount s w).0
  unfolding pay_new
  pay_new-Funded region key operation fingerprint amount s w known v =
      elim (Bool-cases (consume_counter w.crash_before_commit key).0) [
        | inl crashed ↦ rw crashed (halt-Funded prim region _ v)
        | inr running ↦
            rw running (pay_fresh-Funded region key operation fingerprint amount s w known v)
      ]

  pay_seen-Funded :
      (key : String) (fingerprint : ℕ) (seen : IdempotencyRecord) (w : World)
      → Funded prim w
      → Funded prim (pay_seen prim key fingerprint seen w).0
  unfolding pay_seen
  pay_seen-Funded key fingerprint seen w v = elim (Bool-cases (seen.request_hash == fingerprint)) [
    | inl same ↦ rw same v
    | inr other ↦ rw other v
  ]

  pay_writer-Funded :
      (region key operation : String) (amount : Amount) (s : RegionState) (w : World)
      → lookup region w.regions ≡ some s
      → Funded prim w
      → Funded prim (pay_writer prim region key operation amount s w).0
  unfolding pay_writer
  pay_writer-Funded region key operation amount s w known v =
      elim (Bool-cases (str_eq key "" || (str_eq operation "" || is_not_positive amount))) [
        | inl bad ↦ rw bad v
        | inr good ↦ rw good (
            once-Funded prim (payment_effect operation) _ key (pay_seen prim key _)
              (pay_new prim region key operation _ amount s) w v (λ k. pay_seen-Funded key _ k w v)
              (pay_new-Funded region key operation _ amount s w known v))
      ]

  -- A payment at a given fence keeps the conservation laws, whether it commits, fails, crashes or
  -- loses its response.
  pub pay_with_fence-Funded :
      (f : Fence) (key operation : String) (amount : Amount) (w : World)
      → Funded prim w
      → Funded prim (pay_with_fence prim f key operation amount w).0
  unfolding pay_with_fence
  pay_with_fence-Funded f key operation amount w v = elim (Result-cases (require_writer f w)) [
    | inl (e, failed) ↦ rw (failed, pay_with_fence) v
    | inr (s, e) ↦
        rw (e, pay_with_fence)
          (pay_writer-Funded f.region key operation amount s w (require_writer-ok f w e).known v)
  ]

  -- A payment keeps the conservation laws, whether it commits, fails, crashes or loses its response.
  pub pay-Funded :
      (region key operation : String) (amount : Amount) (w : World)
      → Funded prim w
      → Funded prim (pay prim region key operation amount w).0
  unfolding pay
  pay-Funded region key operation amount w v = elim (Result-cases (fence_of region w)) [
    | inl (e, failed) ↦ rw (failed, pay) v
    | inr (f, e) ↦ rw (e, pay) (pay_with_fence-Funded f key operation amount w v)
  ]

-- ===== src/Failuresim/Payments/Refusals.antt =====
-- A payment of internal/failuresim/operations.go that is refused has no effect on money.
use payment_platform.Common.{
  ℕ, String, str_eq, ◌≡◌, refl, inl, inr, arith, true, false, ◌==◌, ◌||◌, if◌then◌else◌, Bool,
  Bool-cases, Option-cases, Result-cases,
}
use payment_platform.Common.Dict.{lookup}
use payment_platform.Ledger.Amount.{Amount, is_not_positive}
use payment_platform.Failuresim.Types.{Error, Receipt, Fence, response_lost}
use payment_platform.Failuresim.Hashing.{Primitives}
use payment_platform.Failuresim.Book.{post_locked}
use payment_platform.Failuresim.World.{
  World, RegionState, Reply, Answer, done, unheard, refused, IdempotencyRecord, require_writer,
  consume_counter, halt,
}
use payment_platform.Failuresim.Effects.{once, replay_effect, replay_known, remember}
use payment_platform.Failuresim.Payments.{
  payment_effect, pay_lines, pay_plan, pay_apply, pay_finish, pay_post, pay_fresh, pay_new,
  pay_seen, pay_writer, pay_with_fence,
}

-- What a refusal leaves as it was; armed faults may be used up and the region may stop.
pub record IsUntouched (w w' : World) : Type 0 where
  pub book : w'.book ≡ w.book
  pub keys : w'.idempotency ≡ w.idempotency
  pub payments : w'.payments ≡ w.payments
  pub outbox : w'.outbox ≡ w.outbox
  pub authority : w'.authority_total ≡ w.authority_total

untouched : (w : World) → IsUntouched w w
untouched w = record { book = refl; keys = refl; payments = refl; outbox = refl; authority = refl }

abbrev pub is_refusal : Answer → Bool
is_refusal (refused e) = true
is_refusal _ = false

abbrev IsHarmless : World → Reply → Type 0
IsHarmless w reply = is_refusal reply.1 ≡ true → IsUntouched w reply.0

heard :
    (lost : Bool) (e : Error) (r : Receipt)
    → is_refusal (if lost then unheard e r else done r) ≡ false
heard true e r = refl
heard false e r = refl

pay_finish-answers :
    (region key : String) (fingerprint : ℕ) (receipt : Receipt) (w : World)
    → is_refusal (pay_finish region key fingerprint receipt w).1 ≡ false
unfolding pay_finish remember
pay_finish-answers region key fingerprint receipt w =
    elim (Bool-cases (consume_counter w.crash_after_commit key).0) [
      | inl crashed ↦ rw crashed refl
      | inr alive ↦ rw alive (heard (consume_counter w.lose_responses key).0 response_lost _)
    ]

module _ (prim : Primitives) (region key operation : String) (fingerprint : ℕ)
    (amount : Amount) where
  pay_fresh-IsHarmless :
      (s : RegionState) (w : World)
      → IsHarmless w (pay_fresh prim region key operation fingerprint amount s w)
  unfolding pay_fresh pay_post
  pay_fresh-IsHarmless s w h = elim (Result-cases (pay_plan amount s w)) [
    | inl (e, failed) ↦ rw (failed, pay_fresh) (untouched w)
    | inr (plan, e) ↦
        elim (Result-cases (
          post_locked prim (payment_effect operation) "PAYMENT_CAPTURE" fingerprint
            (pay_lines w region amount) w.book)) [
              | inl (e', failed) ↦ rw (e, pay_fresh, failed, pay_post) (untouched w)
              | inr (posted, e') ↦ ground (
                arith,
                rw (e, pay_fresh, e', pay_post) at h,
                pay_finish-answers region key fingerprint posted.1
                    (pay_apply region operation amount plan posted.0 posted.1 w),
              )
            ]
  ]

  pay_new-IsHarmless :
      (s : RegionState) (w : World)
      → IsHarmless w (pay_new prim region key operation fingerprint amount s w)
  unfolding pay_new halt
  pay_new-IsHarmless s w h = elim (Bool-cases (consume_counter w.crash_before_commit key).0) [
    | inl crashed ↦
        rw crashed
          (record { book = refl; keys = refl; payments = refl; outbox = refl; authority = refl })
    | inr running ↦ rw running (pay_fresh-IsHarmless s w (rw running at h))
  ]

  pay_seen-IsHarmless :
      (seen : IdempotencyRecord) (w : World) → IsHarmless w (pay_seen prim key fingerprint seen w)
  unfolding pay_seen
  pay_seen-IsHarmless seen w h = elim (Bool-cases (seen.request_hash == fingerprint)) [
    | inl same ↦
        rw same
          (record { book = refl; keys = refl; payments = refl; outbox = refl; authority = refl })
    | inr other ↦ rw other (untouched w)
  ]

  once-IsHarmless :
      (s : RegionState) (w : World)
      → IsHarmless w (
          once
            (payment_effect operation)
            fingerprint
            key
            (pay_seen prim key fingerprint)
            (pay_new prim region key operation fingerprint amount s)
            w)
  unfolding once replay_effect replay_known
  once-IsHarmless s w h = elim (Option-cases (lookup key w.idempotency)) [
    | inr (seen, e) ↦ rw (e, once) (pay_seen-IsHarmless seen w (rw (e, once) at h))
    | inl new ↦ elim (Option-cases (lookup (payment_effect operation) w.book.effects)) [
      | inl fresh ↦
          rw (new, once, fresh, replay_effect)
            (pay_new-IsHarmless s w (rw (new, once, fresh, replay_effect) at h))
      | inr (effect, e) ↦ elim (Bool-cases (effect.fingerprint == fingerprint)) [
        | inl same ↦ ground (arith, rw (new, once, e, replay_effect, same) at h)
        | inr other ↦ rw (new, once, e, replay_effect, other) (untouched w)
      ]
    ]
  ]

module _ (prim : Primitives) (f : Fence) (key operation : String) (amount : Amount)
    (w : World) where
  pay_writer-IsHarmless :
      (s : RegionState) → IsHarmless w (pay_writer prim f.region key operation amount s w)
  unfolding pay_writer
  pay_writer-IsHarmless s h =
      elim (Bool-cases (str_eq key "" || (str_eq operation "" || is_not_positive amount))) [
        | inl bad ↦ rw bad (untouched w)
        | inr good ↦
            rw good (once-IsHarmless prim f.region key operation _ amount s w (rw good at h))
      ]

  -- A payment that is refused, by a check, a conflict, a fence or a crash before the commit, leaves the
  -- books, the keys, the payments, the outbox and the authority as they were.
  pub pay_with_fence-IsUntouched :
      is_refusal (pay_with_fence prim f key operation amount w).1 ≡ true
      → IsUntouched w (pay_with_fence prim f key operation amount w).0
  unfolding pay_with_fence
  pay_with_fence-IsUntouched h = elim (Result-cases (require_writer f w)) [
    | inl (e, failed) ↦ rw (failed, pay_with_fence) (untouched w)
    | inr (s, e) ↦ rw (e, pay_with_fence) (pay_writer-IsHarmless s (rw (e, pay_with_fence) at h))
  ]

-- ===== src/Failuresim/Payments/Retries.antt =====
-- A client that retries a payment: the key of a payment that answered keeps its receipt.
use payment_platform.Common.{
  str_eq_refl, ℕ, String, str_eq, ◌≡◌, refl, ap, ◌∙◌, Bool, inl, inr, arith, true, false, none,
  some, Option, ok, ◌==◌, ==_iff, if◌then◌else◌, ◌||◌, Bool-cases, Option-cases, Result-cases, sym,
  ◌∷◌, [],
}
use payment_platform.Common.Dict.{Dict, get, lookup, insert, lookup-insert}
use payment_platform.Ledger.Amount.{Amount, is_not_positive, to_string}
use payment_platform.Failuresim.Types.{response_lost, Receipt, Fence}
use payment_platform.Failuresim.Hashing.{Primitives, request_fingerprint}
use payment_platform.Failuresim.Book.{post_locked}
use payment_platform.Failuresim.World.{
  World, RegionState, Reply, Answer, done, unheard, refused, IdempotencyRecord, require_writer,
  consume_counter, halt,
}
use payment_platform.Failuresim.Effects.{remember, once, replay_effect, replay_known}
use payment_platform.Failuresim.Payments.{
  payment_effect, pay_lines, pay_plan, pay_finish, pay_post, pay_fresh, pay_new, pay_seen,
  pay_writer, pay_with_fence,
}

-- The receipt that an answer carries, also with an error.
abbrev pub receipt_in : Answer → Option Receipt
receipt_in (done r) = some r
receipt_in (unheard e r) = some r
receipt_in (refused e) = none

abbrev pub duplicated : Receipt → Receipt
duplicated r = record r { duplicate = true }

-- A key is bound to a request and to its receipt.
pub record IsRemembered (key : String) (fingerprint : ℕ) (r : Receipt) (d : Dict IdempotencyRecord)
    : Type 0 where
  pub seen : IdempotencyRecord
  pub known : lookup key d ≡ some seen
  pub same_request : seen.request_hash ≡ fingerprint
  pub same_receipt : duplicated seen.receipt ≡ duplicated r

abbrev IsAnswered : String → ℕ → Reply → Type 0
IsAnswered key fingerprint reply =
    (r : Receipt) → receipt_in reply.1 ≡ some r → IsRemembered key fingerprint r reply.0.idempotency

==_refl : (n : ℕ) → (n == n) ≡ true
==_refl n = (==_iff n n).1 refl

abbrev named : String → Receipt → Receipt
named key r = record r { idempotency_key = key }

IsRemembered-insert :
    (key : String) (fingerprint : ℕ) (answer r : Receipt) (d : Dict IdempotencyRecord)
    → some answer ≡ some r
    → IsRemembered key fingerprint r
        (insert key (record { request_hash = fingerprint; receipt = answer }) d)
IsRemembered-insert key fingerprint answer r d h = record {
  seen = record { request_hash = fingerprint; receipt = answer };
  known = rw (lookup-insert, str_eq_refl key) refl;
  same_request = refl;
  same_receipt = let e : answer ≡ r = ground arith in ap duplicated e;
}

-- Only the record of the key matters.
IsRemembered-kept :
    (key : String) (fingerprint : ℕ) (r : Receipt) {d d' : Dict IdempotencyRecord}
    → lookup key d' ≡ lookup key d
    → IsRemembered key fingerprint r d
    → IsRemembered key fingerprint r d'
IsRemembered-kept key fingerprint r kept m = record {
  seen = m.seen;
  known = kept ∙ m.known;
  same_request = m.same_request;
  same_receipt = m.same_receipt;
}

pay_finish-IsAnswered :
    (region key : String) (fingerprint : ℕ) (receipt : Receipt) (w : World)
    → IsAnswered key fingerprint (pay_finish region key fingerprint receipt w)
unfolding pay_finish remember halt
pay_finish-IsAnswered region key fingerprint receipt w r h =
    elim (Bool-cases (consume_counter w.crash_after_commit key).0) [
      | inl crashed ↦ rw crashed (
          IsRemembered-insert key fingerprint (named key receipt) r w.idempotency (rw crashed at h))
      | inr alive ↦ elim (Bool-cases (consume_counter w.lose_responses key).0) [
        | inl lost ↦ rw alive (
            IsRemembered-insert key fingerprint (named key receipt) r w.idempotency
              (rw (alive, lost) at h))
        | inr heard ↦ rw alive (
            IsRemembered-insert key fingerprint (named key receipt) r w.idempotency
              (rw (alive, heard) at h))
      ]
    ]

module _ (prim : Primitives) (region key operation : String) (fingerprint : ℕ)
    (amount : Amount) where
  pay_fresh-IsAnswered :
      (s : RegionState) (w : World)
      → IsAnswered key fingerprint (pay_fresh prim region key operation fingerprint amount s w)
  unfolding pay_fresh pay_post
  pay_fresh-IsAnswered s w r h = elim (Result-cases (pay_plan amount s w)) [
    | inl (e, failed) ↦ ground (arith, rw (failed, pay_fresh) at h)
    | inr (plan, e) ↦
        elim (Result-cases (
          post_locked prim (payment_effect operation) "PAYMENT_CAPTURE" fingerprint
            (pay_lines w region amount) w.book)) [
              | inl (e', failed) ↦ ground (arith, rw (e, pay_fresh, failed, pay_post) at h)
              | inr (posted, e') ↦
                  rw (e, pay_fresh, e', pay_post)
                    (pay_finish-IsAnswered region key fingerprint posted.1 _ r
                      (rw (e, pay_fresh, e', pay_post) at h))
            ]
  ]

  pay_new-IsAnswered :
      (s : RegionState) (w : World)
      → IsAnswered key fingerprint (pay_new prim region key operation fingerprint amount s w)
  unfolding pay_new
  pay_new-IsAnswered s w r h = elim (Bool-cases (consume_counter w.crash_before_commit key).0) [
    | inl crashed ↦ ground (arith, rw crashed at h)
    | inr running ↦ rw running (pay_fresh-IsAnswered s w r (rw running at h))
  ]

  pay_seen-IsAnswered :
      (seen : IdempotencyRecord) (w : World)
      → lookup key w.idempotency ≡ some seen
      → IsAnswered key fingerprint (pay_seen prim key fingerprint seen w)
  unfolding pay_seen
  pay_seen-IsAnswered seen w known r h = elim (Bool-cases (seen.request_hash == fingerprint)) [
    | inr other ↦ ground (arith, rw other at h)
    | inl same ↦ rw same (record {
      seen = seen;
      known = known;
      same_request = ground arith;
      same_receipt =
          ap duplicated (answered (consume_counter w.lose_responses key).0 (rw same at h));
    })
  ]
    where
      answered :
          (lost : Bool)
          → receipt_in (
              if lost
              then unheard response_lost (duplicated seen.receipt)
              else done (duplicated seen.receipt))
            ≡ some r
          → duplicated seen.receipt ≡ r
      answered true e = ground arith
      answered false e = ground arith

  once-IsAnswered :
      (s : RegionState) (w : World)
      → IsAnswered key fingerprint (
          once
            (payment_effect operation)
            fingerprint
            key
            (pay_seen prim key fingerprint)
            (pay_new prim region key operation fingerprint amount s)
            w)
  unfolding once replay_effect replay_known remember
  once-IsAnswered s w r h = elim (Option-cases (lookup key w.idempotency)) [
    | inr (seen, e) ↦ rw (e, once) (pay_seen-IsAnswered seen w e r (rw (e, once) at h))
    | inl new ↦ elim (Option-cases (lookup (payment_effect operation) w.book.effects)) [
      | inl fresh ↦
          rw (new, once, fresh, replay_effect)
            (pay_new-IsAnswered s w r (rw (new, once, fresh, replay_effect) at h))
      | inr (effect, e) ↦ elim (Bool-cases (effect.fingerprint == fingerprint)) [
        | inl same ↦
            rw (new, once, e, replay_effect, same)
              (IsRemembered-insert key fingerprint _ r w.idempotency
                (rw (new, once, e, replay_effect, same) at h))
        | inr other ↦ ground (arith, rw (new, once, e, replay_effect, other) at h)
      ]
    ]
  ]

module _ (prim : Primitives) (key operation : String) (amount : Amount) where
  abbrev request : ℕ
  request = request_fingerprint prim ("PAYMENT" ∷ operation ∷ to_string amount ∷ [])

  pay_writer-IsAnswered :
      (region : String) (s : RegionState) (w : World)
      → IsAnswered key request (pay_writer prim region key operation amount s w)
  unfolding pay_writer
  pay_writer-IsAnswered region s w r h =
      elim (Bool-cases (str_eq key "" || (str_eq operation "" || is_not_positive amount))) [
        | inl bad ↦ ground (arith, rw bad at h)
        | inr good ↦
            rw good (once-IsAnswered prim region key operation request amount s w r (rw good at h))
      ]

  -- An answer with a receipt says that the request was sound.
  pay_writer_sound :
      (region : String) (s : RegionState) (w : World) (r : Receipt)
      → receipt_in (pay_writer prim region key operation amount s w).1 ≡ some r
      → (str_eq key "" || (str_eq operation "" || is_not_positive amount)) ≡ false
  unfolding pay_writer
  pay_writer_sound region s w r h =
      elim (Bool-cases (str_eq key "" || (str_eq operation "" || is_not_positive amount))) [
        | inl bad ↦ ground (arith, rw bad at h)
        | inr good ↦ good
      ]

  pay_writer-again :
      (region : String) (s : RegionState) (v : World) (r : Receipt)
      → (str_eq key "" || (str_eq operation "" || is_not_positive amount)) ≡ false
      → IsRemembered key request r v.idempotency
      → get 0 key v.lose_responses ≡ 0
      → pay_writer prim region key operation amount s v ≡ (v, done (duplicated r))
  unfolding pay_writer once pay_seen consume_counter
  pay_writer-again region s v r good m quiet =
      rw (good, m.known, once, m.same_request, ==_refl request, quiet, m.same_receipt) refl

  -- A payment that answered with a receipt, though its response was lost or its region crashed after the
  -- commit, may be retried under the same key by any writer if the key's record is the one that the payment
  -- left, whatever else has happened since: the retry answers with the same receipt, marked as a duplicate,
  -- and changes nothing, if no loss is armed.
  pub pay_with_fence-again :
      (f f' : Fence) (w v : World) {w' : World} {a : Answer} {r : Receipt} {s : RegionState}
      → pay_with_fence prim f key operation amount w ≡ (w', a)
      → receipt_in a ≡ some r
      → lookup key v.idempotency ≡ lookup key w'.idempotency
      → require_writer f' v ≡ ok s
      → get 0 key v.lose_responses ≡ 0
      → pay_with_fence prim f' key operation amount v ≡ (v, done (duplicated r))
  unfolding pay_with_fence
  pay_with_fence-again f f' w v {w'} {a} {r} {s} paid answered kept writer quiet =
      elim (Result-cases (require_writer f w)) [
        | inl (e, failed) ↦
            ground (arith, answered, ap (λ (x : Reply). x.1) (rw (failed, pay_with_fence) at paid))
        | inr (t, e) ↦
            let p = rw (e, pay_with_fence) at paid in
            let h = ap (λ (x : Reply). receipt_in x.1) p ∙ answered in
            let m = pay_writer-IsAnswered f.region t w r h in
            let k : lookup key v.idempotency
                ≡ lookup key (pay_writer prim f.region key operation amount t w).0.idempotency =
              kept ∙ sym (ap (λ (x : Reply). lookup key x.0.idempotency) p) in
            rw (writer, pay_with_fence)
              (pay_writer-again f'.region s v r (pay_writer_sound f.region t w r h)
                (IsRemembered-kept key request r k m) quiet)
      ]

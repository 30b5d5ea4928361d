-- ===== src/Failuresim/Sagas/Retries.antt =====
-- A saga whose coordinator crashed after the payment's commit is advanced again: the payment is a retry.
use payment_platform.Common.{
  String, ◌≡◌, refl, ap, ◌∙◌, true, some, inl, inr, arith, Result-cases, ok, str_eq_refl,
}
use payment_platform.Common.Dict.{lookup, get, modify, lookup-modify}
use payment_platform.Ledger.Amount.{Amount}
use payment_platform.Failuresim.Types.{Fence, Receipt}
use payment_platform.Failuresim.Hashing.{Primitives}
use payment_platform.Failuresim.World.{
  World, RegionState, Saga, Reply, Answer, done, consume_counter, require_writer, fence_of,
}
use payment_platform.Failuresim.Payments.{pay}
use payment_platform.Failuresim.Payments.Retries.{receipt_in, duplicated, pay_with_fence-again}
use payment_platform.Failuresim.Sagas.{
  SagaReply, advanced, saga_key, paid_by, finished, save_step, after_pay, saga_step, advance_saga,
}

-- A region that can pay again.
pub record IsOpen (region key : String) (v : World) : Type 0 where
  pub fence : Fence
  pub writer : RegionState
  pub current : fence_of region v ≡ ok fence
  pub writes : require_writer fence v ≡ ok writer
  pub quiet : get 0 key v.lose_responses ≡ 0

module _ (prim : Primitives) where
  -- `Pay` is retried as `PayWithFence` is.
  pub pay-again :
      (region key operation : String) (amount : Amount) (w v : World) {w' : World} {a : Answer}
      {r : Receipt}
      → pay prim region key operation amount w ≡ (w', a)
      → receipt_in a ≡ some r
      → lookup key v.idempotency ≡ lookup key w'.idempotency
      → IsOpen region key v
      → pay prim region key operation amount v ≡ (v, done (duplicated r))
  unfolding pay
  pay-again region key operation amount w v paid answered kept o =
      elim (Result-cases (fence_of region w)) [
        | inl (e, failed) ↦
            ground (arith, answered, ap (λ (x : Reply). x.1) (rw (failed, pay) at paid))
        | inr (f, e) ↦
            rw (o.current, pay)
              (pay_with_fence-again prim key operation amount f o.fence w v (rw (e, pay) at paid)
                answered kept o.writes o.quiet)
      ]

  -- A saga at its first step, whose coordinator runs and is not about to crash.
  pub record IsRetried (saga_id : String) (s : Saga) (v : World) : Type 0 where
    pub running : v.coordinator_running ≡ true
    pub known : lookup saga_id v.sagas ≡ some s
    pub first : s.next_step ≡ 0
    pub unarmed : get 0 saga_id v.coordinator_crash_after ≡ 0
    pub open_region : IsOpen s.region (saga_key saga_id) v

  abbrev saved : String → Receipt → World → World
  saved saga_id r v = record v { sagas = modify saga_id (paid_by (duplicated r)) v.sagas }

  advance_saga-again :
      (saga_id : String) (s : Saga) (w v : World) {w' : World} {a : Answer} {r : Receipt}
      → pay prim s.region (saga_key saga_id) s.operation_id s.amount w ≡ (w', a)
      → receipt_in a ≡ some r
      → lookup (saga_key saga_id) v.idempotency ≡ lookup (saga_key saga_id) w'.idempotency
      → IsRetried saga_id s v
      → advance_saga prim saga_id v ≡ (saved saga_id r v, advanced (paid_by (duplicated r) s))
  unfolding advance_saga saga_step after_pay save_step consume_counter
  advance_saga-again saga_id s w v paid answered kept t = simp (
    t.running,
    t.known,
    t.first,
    pay-again s.region (saga_key saga_id) s.operation_id s.amount w v paid answered kept
        t.open_region,
    t.unarmed,
  )

  -- The second step completes the saga.
  advance_saga-finishes :
      (saga_id : String) (s : Saga) (v : World)
      → v.coordinator_running ≡ true
      → lookup saga_id v.sagas ≡ some s
      → s.next_step ≡ 1
      → advance_saga prim saga_id v
        ≡ (record v { sagas = modify saga_id finished v.sagas }, advanced (finished s))
  unfolding advance_saga saga_step
  advance_saga-finishes saga_id s v running known second = simp (running, known, second)

  -- A saga whose payment has answered with a receipt is completed by two advances, whatever became of its
  -- coordinator and of its region in between, if the coordinator runs again, the region may write, no
  -- fault is armed and the record of its payment's key is the one that the payment left: the books stay as they are, and the saga
  -- ends with the receipt of the first payment, marked as a duplicate.
  pub advance_saga-completes :
      (saga_id : String) (s : Saga) (w v : World) {w' : World} {a : Answer} {r : Receipt}
      → pay prim s.region (saga_key saga_id) s.operation_id s.amount w ≡ (w', a)
      → receipt_in a ≡ some r
      → lookup (saga_key saga_id) v.idempotency ≡ lookup (saga_key saga_id) w'.idempotency
      → IsRetried saga_id s v
      → let end : SagaReply = advance_saga prim saga_id (advance_saga prim saga_id v).0 in
        (end.1 ≡ advanced (finished (paid_by (duplicated r) s)))
        × (lookup saga_id end.0.sagas ≡ some (finished (paid_by (duplicated r) s)))
        × (end.0.book ≡ v.book)
  advance_saga-completes saga_id s w v {w'} {a} {r} paid answered kept t =
      let known : lookup saga_id (saved saga_id r v).sagas ≡ some (paid_by (duplicated r) s) =
        lookup-modify saga_id saga_id (paid_by (duplicated r)) v.sagas
        ∙ simp (str_eq_refl saga_id, t.known) in
      simp
        (
          advance_saga-again saga_id s w v paid answered kept t,
          advance_saga-finishes saga_id (paid_by (duplicated r) s) (saved saga_id r v) t.running
              known refl,
        )
        (
          refl,
          lookup-modify saga_id saga_id finished (saved saga_id r v).sagas
              ∙ simp (str_eq_refl saga_id, known),
          refl,
        )

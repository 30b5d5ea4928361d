-- ===== src/Failuresim/Funds/Runs.antt =====
-- The conservation laws hold in every state that a run reaches, whatever fails on the way.
use payment_platform.Common.{
  List, [], ◌∷◌, ◌≡◌, ok, ℕ, String, inl, inr, Option-cases, Bool, true, false,
}
use payment_platform.Common.Dict.{lookup}
use payment_platform.Failuresim.Hashing.{Primitives}
use payment_platform.Failuresim.World.{
  World, crash_dc, restart_dc, set_dc, arm_lost_response, arm_crash_before, arm_crash_after,
}
use payment_platform.Failuresim.Arrivals.{arm_consumer_crash}
use payment_platform.Failuresim.Genesis.{Config, new_world}
use payment_platform.Failuresim.Runs.{
  Operation, paying, paying_at, depositing, releasing, granting, sending, arriving, crashing,
  restarting, failing_dc, recovering_dc, losing_response, crashing_before, crashing_after,
  crashing_consumer, dispatching, delivering, partitioning, healing, healing_all, losing_packets,
  duplicating, reordering, starting_saga, advancing_saga, crashing_saga, crashing_coordinator,
  restarting_coordinator, judging, ticking, apply, run,
}
use payment_platform.Failuresim.Funds.{Funded}
use payment_platform.Failuresim.Funds.Frames.{crash_region-Funded, restart_region-Funded}
use payment_platform.Failuresim.Funds.Payments.{pay-Funded, pay_with_fence-Funded}
use payment_platform.Failuresim.Funds.Operations.{
  deposit-Funded, release_capture-Funded, grant_cashback-Funded,
}
use payment_platform.Failuresim.Funds.Moves.{initiate_transfer-Funded}
use payment_platform.Failuresim.Funds.Arrivals.{consume_message-Funded}
use payment_platform.Failuresim.Funds.Delivery.{dispatch_outbox-Funded, deliver_messages-Funded}
use payment_platform.Failuresim.Sagas.{
  arm_coordinator_crash, crash_coordinator, restart_coordinator,
}
use payment_platform.Failuresim.Funds.Ticks.{
  start_saga-Funded, advance_saga-Funded, schedule_fraud_verdict-Funded,
  advance_logical_ticks-Funded,
}
use payment_platform.Failuresim.Funds.Rights.{IsMap}
use payment_platform.Failuresim.Funds.Genesis.{new_world-Funded}

set_dc-Funded :
    (prim : Primitives) (healthy : Bool) (dc : String) (w : World)
    → Funded prim w
    → Funded prim (set_dc healthy dc w).0
unfolding set_dc
set_dc-Funded prim healthy dc w v = elim (Option-cases (lookup dc w.dc_healthy)) [
  | inl missing ↦ rw (missing, set_dc) v
  | inr (h, e) ↦ rw (e, set_dc) v
]

module _ (prim : Primitives) where
  apply-Funded : (o : Operation) (w : World) → Funded prim w → Funded prim (apply prim o w)
  unfolding apply crash_dc restart_dc arm_lost_response arm_crash_before arm_crash_after
      arm_consumer_crash arm_coordinator_crash crash_coordinator restart_coordinator
  apply-Funded (paying region key operation amount) w v =
      pay-Funded prim region key operation amount w v
  apply-Funded (paying_at fence key operation amount) w v =
      pay_with_fence-Funded prim fence key operation amount w v
  apply-Funded (depositing region key operation amount) w v =
      deposit-Funded prim region key operation amount w v
  apply-Funded (releasing kind region key release payment amount) w v =
      release_capture-Funded prim kind region key release payment amount w v
  apply-Funded (granting region key effect operation amount rule) w v =
      grant_cashback-Funded prim region key effect operation amount rule w v
  apply-Funded (sending fence id destination amount) w v =
      initiate_transfer-Funded prim fence id destination amount w v
  apply-Funded (arriving message_id certificate) w v =
      consume_message-Funded prim message_id certificate w v
  apply-Funded (crashing region) w v = crash_region-Funded prim region w v
  apply-Funded (restarting region) w v = restart_region-Funded prim region w v
  apply-Funded (failing_dc dc) w v = set_dc-Funded prim false dc w v
  apply-Funded (recovering_dc dc) w v = set_dc-Funded prim true dc w v
  apply-Funded (losing_response key) w v = v
  apply-Funded (crashing_before key) w v = v
  apply-Funded (crashing_after key) w v = v
  apply-Funded (crashing_consumer message_id) w v = v
  apply-Funded (starting_saga id region operation amount) w v =
      start_saga-Funded prim id region operation amount w v
  apply-Funded (advancing_saga id) w v = advance_saga-Funded prim id w v
  apply-Funded (crashing_saga id) w v = v
  apply-Funded crashing_coordinator w v = v
  apply-Funded restarting_coordinator w v = v
  apply-Funded (judging event payment fraudulent delay) w v =
      schedule_fraud_verdict-Funded prim event payment fraudulent delay w v
  apply-Funded (ticking ticks) w v = advance_logical_ticks-Funded prim ticks w v
  apply-Funded dispatching w v = dispatch_outbox-Funded prim w v
  apply-Funded delivering w v = deliver_messages-Funded prim w v
  apply-Funded (partitioning a b) w v = v
  apply-Funded (healing a b) w v = v
  apply-Funded healing_all w v = v
  apply-Funded (losing_packets percent) w v = v
  apply-Funded (duplicating every) w v = v
  apply-Funded (reordering enabled) w v = v

  run-Funded : (os : List Operation) (w : World) → Funded prim w → Funded prim (run prim os w)
  unfolding run
  run-Funded [] w v = v
  run-Funded (o ∷ os) w v = run-Funded os (apply prim o w) (apply-Funded o w v)

  -- Every state that operations reach from an accepted configuration is funded.
  pub reachable-Funded :
      (c : Config) (seed : ℕ) (os : List Operation) {w : World}
      → IsMap c.regional_rights
      → new_world prim c seed ≡ ok w
      → Funded prim (run prim os w)
  reachable-Funded c seed os {w} unique h = run-Funded os w (new_world-Funded prim c seed unique h)

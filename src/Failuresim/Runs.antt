-- ===== src/Failuresim/Runs.antt =====
-- internal/failuresim: the operations of the model as one type, and runs of them. The mutex orders the
-- calls of concurrent clients, so an interleaving of clients is a list of operations.
use payment_platform.Simulation.Network.{
  Network, partition, heal, heal_all, set_drop_percent, set_duplicate_every, set_reorder,
}
use payment_platform.Failuresim.Delivery.{dispatch_outbox, deliver_messages}
use payment_platform.Common.{ℕ, Bool, String, List, [], ◌∷◌}
use payment_platform.Ledger.Amount.{Amount}
use payment_platform.Failuresim.Types.{Fence, TransferCertificate}
use payment_platform.Failuresim.Hashing.{Primitives}
use payment_platform.Failuresim.World.{
  World, crash_region, restart_region, crash_dc, restart_dc, arm_lost_response, arm_crash_before,
  arm_crash_after,
}
use payment_platform.Failuresim.Payments.{pay, pay_with_fence}
use payment_platform.Failuresim.Credits.{deposit}
use payment_platform.Failuresim.Releases.{ReleaseKind, release_capture}
use payment_platform.Failuresim.Cashback.{grant_cashback}
use payment_platform.Failuresim.Transfers.{initiate_transfer}
use payment_platform.Failuresim.Arrivals.{consume_message, arm_consumer_crash}
use payment_platform.Failuresim.Sagas.{
  start_saga, advance_saga, arm_coordinator_crash, crash_coordinator, restart_coordinator,
}
use payment_platform.Failuresim.Fraud.{schedule_fraud_verdict, advance_logical_ticks}

pub data Operation : Type 0 where
  paying : String → String → String → Amount → Operation
  paying_at : Fence → String → String → Amount → Operation
  depositing : String → String → String → Amount → Operation
  releasing : ReleaseKind → String → String → String → String → Amount → Operation
  granting : String → String → String → String → Amount → Amount → Operation
  sending : Fence → String → String → Amount → Operation
  arriving : String → TransferCertificate → Operation
  crashing restarting : String → Operation
  failing_dc recovering_dc : String → Operation
  dispatching delivering healing_all : Operation
  partitioning healing : String → String → Operation
  losing_packets duplicating : ℕ → Operation
  reordering : Bool → Operation
  losing_response crashing_before crashing_after crashing_consumer : String → Operation
  starting_saga : String → String → String → Amount → Operation
  advancing_saga crashing_saga : String → Operation
  crashing_coordinator restarting_coordinator : Operation
  judging : String → String → Bool → ℕ → Operation
  ticking : ℕ → Operation

abbrev with_network : (Network → Network) → World → World
with_network f w = record w { network = f w.network }

module _ (prim : Primitives) where
  -- The state that an operation leaves, whatever it answers.
  unfoldable pub apply : Operation → World → World
  apply (paying region key operation amount) w = (pay prim region key operation amount w).0
  apply (paying_at fence key operation amount) w =
      (pay_with_fence prim fence key operation amount w).0
  apply (depositing region key operation amount) w = (deposit prim region key operation amount w).0
  apply (releasing kind region key release payment amount) w =
      (release_capture prim kind region key release payment amount w).0
  apply (granting region key effect operation amount rule) w =
      (grant_cashback prim region key effect operation amount rule w).0
  apply (sending fence id destination amount) w =
      (initiate_transfer prim fence id destination amount w).0
  apply (arriving message_id certificate) w = (consume_message prim message_id certificate w).0
  apply (crashing region) w = (crash_region region w).0
  apply (restarting region) w = (restart_region region w).0
  apply (failing_dc dc) w = (crash_dc dc w).0
  apply (recovering_dc dc) w = (restart_dc dc w).0
  apply (losing_response key) w = arm_lost_response key w
  apply (crashing_before key) w = arm_crash_before key w
  apply (crashing_after key) w = arm_crash_after key w
  apply (crashing_consumer message_id) w = arm_consumer_crash message_id w
  apply (starting_saga id region operation amount) w = (start_saga id region operation amount w).0
  apply (advancing_saga id) w = (advance_saga prim id w).0
  apply (crashing_saga id) w = arm_coordinator_crash id w
  apply crashing_coordinator w = crash_coordinator w
  apply restarting_coordinator w = restart_coordinator w
  apply (judging event payment fraudulent delay) w =
      (schedule_fraud_verdict event payment fraudulent delay w).0
  apply (ticking ticks) w = (advance_logical_ticks prim ticks w).0
  apply dispatching w = (dispatch_outbox prim w).0
  apply delivering w = (deliver_messages prim w).0
  apply (partitioning a b) w = with_network (partition a b) w
  apply (healing a b) w = with_network (heal a b) w
  apply healing_all w = with_network heal_all w
  apply (losing_packets percent) w = with_network (set_drop_percent percent) w
  apply (duplicating every) w = with_network (set_duplicate_every every) w
  apply (reordering enabled) w = with_network (set_reorder enabled) w

  unfoldable pub run : List Operation → World → World
  run [] w = w
  run (o ∷ os) w = run os (apply o w)

-- ===== src/Failuresim/World.antt =====
-- internal/failuresim/world.go: the durable state of the model, fencing, quorum and injected faults.
-- The mutex makes each operation one step, so an operation is a function on the state.
use payment_platform.Common.{
  ℕ, ◌+◌, ◌-◌, ◌%◌, ◌^◌, String, Bool, true, false, not, none, some, List, [], ◌∷◌, Result, ok, err,
  leb, ◌==◌, pos, if◌then◌else◌,
}
use payment_platform.Common.Dict.{Dict, lookup, insert, get, modify}
use payment_platform.Ledger.Amount.{Amount}
use payment_platform.Failuresim.Types.{
  Error, invalid_configuration, region_down, stale_epoch, no_quorum, Fence, Receipt, PaymentState,
  TransferCertificate,
}
use payment_platform.Failuresim.Book.{Book}
use payment_platform.Simulation.Network.{Network}
use payment_platform.Simulation.Network
use Prim.Native.String

pub record RegionState : Type 0 where
  pub epoch : ℕ
  pub running : Bool
  pub rights : Amount

pub record IdempotencyRecord : Type 0 where
  pub request_hash : ℕ
  pub receipt : Receipt

pub record Payment : Type 0 where
  pub operation_id : String
  pub region : String
  pub authorized : Amount
  pub captured : Amount
  pub refunded : Amount
  pub reversed : Amount
  pub charged_back : Amount
  pub state : PaymentState
  pub receipt : Receipt

pub record TransferState : Type 0 where
  pub certificate : TransferCertificate
  pub in_transit : Bool
  pub consumed : Bool
  pub source_acknowledged : Bool
  pub consume_receipt : Receipt

pub record OutboxRecord : Type 0 where
  pub message_id : String
  pub kind : String
  pub source_region : String
  pub destination_region : String
  pub parent_transaction_id : String
  pub payload : List ℕ
  pub attempts : ℕ
  pub acknowledged : Bool

pub record InboxRecord : Type 0 where
  pub message_id : String
  pub payload_hash : ℕ
  pub effect_id : String
  pub duplicate_deliveries : ℕ

pub record Saga : Type 0 where
  pub saga_id : String
  pub region : String
  pub operation_id : String
  pub amount : Amount
  pub next_step : ℕ
  pub completed : Bool
  pub payment_receipt : Receipt

pub record FraudVerdict : Type 0 where
  pub event_id : String
  pub payment_id : String
  pub fraudulent : Bool
  pub due_tick : ℕ
  pub processed : Bool

-- `book` groups balances, journal, effects, sequence and head hash.
pub record World : Type 0 where
  pub asset : String
  pub authority_asset : String
  pub credit_limit : Amount
  pub unallocated : Amount
  pub authority_total : Amount
  pub certificate_key : List ℕ
  pub regions : Dict RegionState
  pub book : Book
  pub idempotency : Dict IdempotencyRecord
  pub payments : Dict Payment
  pub refunds : Dict Amount
  pub cashback_rules : Dict Amount
  pub cashback_paid : Dict Amount
  pub transfers : Dict TransferState
  pub outbox : Dict OutboxRecord
  pub inbox : Dict InboxRecord
  pub lose_responses : Dict ℕ
  pub crash_before_commit : Dict ℕ
  pub crash_after_commit : Dict ℕ
  pub consumer_crash : Dict ℕ
  pub coordinator_running : Bool
  pub coordinator_crash_after : Dict ℕ
  pub sagas : Dict Saga
  pub logical_tick : ℕ
  pub fraud_verdicts : Dict FraudVerdict
  pub dc_healthy : Dict Bool
  pub replicas : List String
  pub quorum : ℕ
  pub network : Network

-- The `(Receipt, error)` of a financial operation: success, a commit whose response was lost, which
-- returns the receipt with the error, or a refusal with the zero receipt.
pub data Answer : Type 0 where
  done : Receipt → Answer
  unheard : Error → Receipt → Answer
  refused : Error → Answer

-- An operation returns the state that it leaves behind, after an error too.
abbrev pub Reply : Type 0
Reply = World × Answer

-- `consumeCounter`: whether a fault was armed, and the counters with it used up.
unfoldable pub consume_counter : Dict ℕ → String → Bool × Dict ℕ
consume_counter counters key =
    let left = get 0 key counters in
    if left == 0 then (false, counters) else (true, insert key (left - 1) counters)

unfoldable pub healthy_replicas : Dict Bool → List String → ℕ
healthy_replicas healthy [] = 0
healthy_replicas healthy (dc ∷ dcs) =
    (if get false dc healthy then 1 else 0) + healthy_replicas healthy dcs

unfoldable pub has_quorum : World → Bool
unfolding healthy_replicas
has_quorum w = leb w.quorum (healthy_replicas w.dc_healthy w.replicas)

abbrev pub writer_of : Fence → World → RegionState → Result Error RegionState
writer_of f w region =
    if not region.running
    then err region_down
    else if not (region.epoch == f.epoch)
    then err stale_epoch
    else if not (has_quorum w)
    then err no_quorum
    else ok region

-- Only a running region at its current epoch, with a quorum of replicas, may write.
unfoldable pub require_writer : Fence → World → Result Error RegionState
require_writer f w = elim (lookup f.region w.regions) [
  | none ↦ err region_down
  | some region ↦ writer_of f w region
]

-- `Fence`
unfoldable pub fence_of : String → World → Result Error Fence
fence_of name w = elim (lookup name w.regions) [
  | none ↦ err region_down
  | some region ↦
      if region.running
      then ok (record { region = name; epoch = region.epoch })
      else err region_down
]

abbrev pub stop_region : RegionState → RegionState
stop_region s = record s { running = false }

abbrev pub restarted : RegionState → RegionState
restarted s = record s { epoch = (s.epoch + 1) % 2 ^ 64; running = true }

-- A process crash stops the region and its node; what is committed stays.
unfoldable pub halt : String → World → World
halt name w = record w {
  regions = modify name stop_region w.regions;
  network = Network.crash name w.network;
}

unfoldable pub crash_region : String → World → World × Result Error (Unit {0})
unfolding halt
crash_region name w = elim (lookup name w.regions) [
  | none ↦ (w, err region_down)
  | some _ ↦ (halt name w, ok tt)
]

unfoldable pub restart_region : String → World → World × Result Error (Unit {0})
restart_region name w = elim (lookup name w.regions) [
  | none ↦ (w, err region_down)
  | some _ ↦ (
    record w {
      regions = modify name restarted w.regions;
      network = Network.restart name w.network;
    },
    ok tt,
  )
]

unfoldable pub set_dc : Bool → String → World → World × Result Error (Unit {0})
set_dc healthy dc w = elim (lookup dc w.dc_healthy) [
  | none ↦ (w, err invalid_configuration)
  | some _ ↦ (record w { dc_healthy = insert dc healthy w.dc_healthy }, ok tt)
]

unfoldable pub crash_dc : String → World → World × Result Error (Unit {0})
unfolding set_dc
crash_dc = set_dc false

unfoldable pub restart_dc : String → World → World × Result Error (Unit {0})
unfolding set_dc
restart_dc = set_dc true

abbrev bump : String → Dict ℕ → Dict ℕ
bump key counters = insert key (get 0 key counters + 1) counters

-- The fault injectors `LoseResponse`, `CrashBeforeCommit` and `CrashAfterCommit`.
unfoldable pub arm_lost_response : String → World → World
arm_lost_response key w = record w { lose_responses = bump key w.lose_responses }

unfoldable pub arm_crash_before : String → World → World
arm_crash_before key w = record w { crash_before_commit = bump key w.crash_before_commit }

unfoldable pub arm_crash_after : String → World → World
arm_crash_after key w = record w { crash_after_commit = bump key w.crash_after_commit }

abbrev pub balance_of : String → World → Amount
balance_of account w = get (pos 0) account w.book.balances

-- `RegionalAuthorityAccount`
unfoldable pub regional_account : String → String
regional_account region = String.◌++◌ "authority:region:" region

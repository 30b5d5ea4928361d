-- ===== src/Failuresim/Delivery.antt =====
-- internal/failuresim/transfer.go: the outbox, the network and the acknowledgements. The dispatcher
-- releases the lock between its marks and its sends; here a dispatch is one step.
use payment_platform.Common.{
  ℕ, suc, zero, ◌+◌, ◌%◌, ◌^◌, String, str_eq, Bool, true, false, not, ◌&&◌, ◌||◌, ◌==◌, none, some,
  List, [], ◌∷◌, ◌++◌, Result, ok, err, if◌then◌else◌,
}
use payment_platform.Common.Bytes.{big_endian}
use payment_platform.Common.Dict.{Dict, lookup, modify}
use payment_platform.Simulation.Network.{
  Envelope, MessageKind, command, event, response, ack, NetworkError,
}
use payment_platform.Simulation.Transport.{send, drain}
use payment_platform.Failuresim.Types.{Error, transfer_invalid, TransferCertificate}
use payment_platform.Failuresim.Hashing.{Primitives}
use payment_platform.Failuresim.World.{
  World, OutboxRecord, TransferState, Answer, done, unheard, refused,
}
use payment_platform.Failuresim.Transfers.{transfer_message_kind}
use payment_platform.Failuresim.Arrivals.{consume_message}
use Prim.Native.String
use Prim.Native.String.{slice, len, compare}
use text.Mathlib.Text.{is_lt}

-- What `DispatchOutbox` and `DeliverMessages` collect.
pub data Failure : Type 0 where
  network_failure : NetworkError → Failure
  decode_failure : String → Failure
  operation_failure : Error → Failure
  unexpected_message : MessageKind → Failure

-- A transfer that is not acknowledged is sent, again and again.
unfoldable pub is_pending : OutboxRecord → Bool
is_pending r = str_eq r.kind transfer_message_kind && not r.acknowledged

unfoldable pub count_attempt : OutboxRecord → OutboxRecord
count_attempt r = record r {
  attempts = if is_pending r then (r.attempts + 1) % 2 ^ 64 else r.attempts;
}

unfoldable pub count_attempts : Dict OutboxRecord → Dict OutboxRecord
count_attempts [] = []
count_attempts ((id, r) ∷ m) = (id, count_attempt r) ∷ count_attempts m

abbrev pub command_of : OutboxRecord → Envelope
command_of r = record {
  message_id = r.message_id;
  from = r.source_region;
  to = r.destination_region;
  kind = command;
  correlation_id = r.message_id;
  payload = r.payload;
  sequence = 0;
  delivery = 0;
}

place_envelope : Envelope → List Envelope → List Envelope
place_envelope e [] = e ∷ []
place_envelope e (f ∷ fs) =
    let rest = place_envelope e fs in
    if is_lt (compare f.message_id e.message_id) then f ∷ rest else e ∷ f ∷ fs

-- The pending envelopes, sorted by their message.
unfoldable pub pending_envelopes : Dict OutboxRecord → List Envelope
unfolding place_envelope
pending_envelopes [] = []
pending_envelopes ((_, r) ∷ m) =
    let rest = pending_envelopes m in
    if is_pending r then place_envelope (command_of r) rest else rest

unfoldable pub acknowledged_record : OutboxRecord → OutboxRecord
acknowledged_record r = record r { acknowledged = true }

abbrev pub source_acknowledged_transfer : TransferState → TransferState
source_acknowledged_transfer t = record t { source_acknowledged = true }

-- `equalBytes`
unfoldable pub equal_bytes : List ℕ → List ℕ → Bool
equal_bytes [] [] = true
equal_bytes [] (b ∷ bs) = false
equal_bytes (a ∷ more) [] = false
equal_bytes (a ∷ more) (b ∷ bs) = a == b && equal_bytes more bs

unfoldable pub is_transfer_message : String → Bool
is_transfer_message id = str_eq (slice id 0 9) "transfer:"

-- `acceptTransferACK`: the source hears that its transfer was consumed.
unfoldable pub accept_known : Envelope → String → World → World × Result Error (Unit {0})
accept_known e id w = elim (lookup id w.transfers) [
  | none ↦ (w, err transfer_invalid)
  | some t ↦
      if not t.consumed || not (equal_bytes e.payload (big_endian 32 t.certificate.commit_proof))
      then (w, err transfer_invalid)
      else (
        record w {
          outbox = modify e.correlation_id acknowledged_record w.outbox;
          transfers = modify id source_acknowledged_transfer w.transfers;
        },
        ok tt,
      )
]

unfoldable pub accept_ack : Envelope → World → World × Result Error (Unit {0})
unfolding is_transfer_message
accept_ack e w = elim (lookup e.correlation_id w.outbox) [
  | none ↦ (w, err transfer_invalid)
  | some r ↦
      if not (str_eq r.kind transfer_message_kind) || not (is_transfer_message e.correlation_id)
      then (w, err transfer_invalid)
      else accept_known e (slice e.correlation_id 9 (len e.correlation_id)) w
]

abbrev pub ack_of : String → TransferCertificate → Envelope
ack_of message_id c = record {
  message_id = String.◌++◌ "ack:" c.transfer_id;
  from = c.destination_region;
  to = c.source_region;
  kind = ack;
  correlation_id = message_id;
  payload = big_endian 32 c.commit_proof;
  sequence = 0;
  delivery = 0;
}

abbrev failures_of : Result NetworkError (Unit {0}) → List Failure
failures_of (ok _) = []
failures_of (err e) = network_failure e ∷ []

-- `allTransfersAcknowledged`
unfoldable pub all_acknowledged : Dict TransferState → Bool
all_acknowledged [] = true
all_acknowledged ((_, t) ∷ m) = t.source_acknowledged && all_acknowledged m

module _ (prim : Primitives) where
  unfoldable pub send_message : Envelope → World → World × List Failure
  send_message e w =
      let (network, answer) = send prim.sha256 e w.network in
      (record w { network = network }, failures_of answer)

  unfoldable pub send_all : List Envelope → World → World × List Failure
  send_all [] w = (w, [])
  send_all (e ∷ es) w =
      let (w₁, failures) = send_message e w in
      let (w₂, more) = send_all es w₁ in (w₂, failures ++ more)

  -- `DispatchOutbox`
  unfoldable pub dispatch_outbox : World → World × List Failure
  dispatch_outbox w =
      send_all (pending_envelopes w.outbox) (record w { outbox = count_attempts w.outbox })

  -- A consumption that ends without an error is acknowledged.
  unfoldable pub acknowledge :
      Envelope → TransferCertificate → World × Answer → World × List Failure
  acknowledge e c (w, done _) = send_message (ack_of e.message_id c) w
  acknowledge e c (w, unheard error _) = (w, operation_failure error ∷ [])
  acknowledge e c (w, refused error) = (w, operation_failure error ∷ [])

  unfoldable pub deliver_command : Envelope → World → World × List Failure
  deliver_command e w = elim (prim.unmarshal_certificate e.payload) [
    | none ↦ (w, decode_failure e.message_id ∷ [])
    | some c ↦ acknowledge e c (consume_message prim e.message_id c w)
  ]

  abbrev pub after_ack : World × Result Error (Unit {0}) → World × List Failure
  after_ack (w, ok _) = (w, [])
  after_ack (w, err e) = (w, operation_failure e ∷ [])

  unfoldable pub deliver_as : MessageKind → Envelope → World → World × List Failure
  deliver_as command e w = deliver_command e w
  deliver_as ack e w = after_ack (accept_ack e w)
  deliver_as event e w = (w, unexpected_message event ∷ [])
  deliver_as response e w = (w, unexpected_message response ∷ [])

  unfoldable pub deliver : Envelope → World → World × List Failure
  deliver e w = deliver_as e.kind e w

  unfoldable pub deliver_all : List Envelope → World → World × List Failure
  deliver_all [] w = (w, [])
  deliver_all (e ∷ es) w =
      let (w₁, failures) = deliver e w in
      let (w₂, more) = deliver_all es w₁ in (w₂, failures ++ more)

  -- `DeliverMessages`
  unfoldable pub deliver_messages : World → World × List Failure
  deliver_messages w =
      let (network, envelopes) = drain w.network in
      deliver_all envelopes (record w { network = network })

  -- `PumpUntilSettled`: `false` where the backlog did not settle within the rounds.
  unfoldable pub pump_until_settled : ℕ → World → World × Bool
  pump_until_settled zero w = (w, false)
  pump_until_settled (suc rounds) w =
      let w₁ = (deliver_messages (deliver_messages (dispatch_outbox w).0).0).0 in
      let rest = pump_until_settled rounds w₁ in
      if all_acknowledged w₁.transfers then (w₁, true) else rest

-- ===== src/Failuresim/Arrivals.antt =====
-- internal/failuresim/transfer.go: `consumeTransfer`, by which rights arrive in their region.
use payment_platform.Common.{
  ℕ, ◌+◌, ◌%◌, ◌^◌, String, true, false, not, ◌||◌, none, some, List, [], ◌∷◌, ok, err, ◌==◌,
  if◌then◌else◌,
}
use payment_platform.Common.Bytes.{hex}
use payment_platform.Common.Dict.{get, lookup, insert, modify}
use payment_platform.Ledger.Amount.{Amount, add, debit, credit}
use payment_platform.Failuresim.Types.{
  ledger_error, transfer_invalid, transfer_conflict, region_down, no_quorum, consumer_crash,
  Receipt, JournalLine, TransferCertificate, authority_transit_account,
}
use payment_platform.Failuresim.Hashing.{Primitives, request_fingerprint}
use payment_platform.Failuresim.Book.{Book, post_locked}
use payment_platform.Failuresim.World
use payment_platform.Failuresim.World.{
  Reply, done, unheard, World, RegionState, TransferState, OutboxRecord, InboxRecord,
  regional_account, require_writer, has_quorum, halt, consume_counter,
}
use payment_platform.Failuresim.Payments.{set_rights}
use payment_platform.Failuresim.Certificates.{verify_certificate, equal_certificate}
use payment_platform.Failuresim.Transfers.{in_effect, transfer_message}

abbrev pub transfer_in_lines : World → String → Amount → List JournalLine
transfer_in_lines w destination amount =
    record {
      account = authority_transit_account;
      asset = w.authority_asset;
      side = debit;
      amount = amount;
    }
    ∷ record {
      account = regional_account destination;
      asset = w.authority_asset;
      side = credit;
      amount = amount;
    }
    ∷ []

-- The consumer may crash after its atomic effect and before its acknowledgement: the region
-- stops, and the receipt comes with the error.
unfoldable pub consume_finish : String → String → Receipt → World → Reply
consume_finish message_id destination receipt w =
    let (crashed, crashes) = consume_counter w.consumer_crash message_id in
    let w₁ : World = record w { consumer_crash = crashes } in
    if crashed then (halt destination w₁, unheard consumer_crash receipt) else (w₁, done receipt)

abbrev pub count_delivery : InboxRecord → InboxRecord
count_delivery r = record r { duplicate_deliveries = (r.duplicate_deliveries + 1) % 2 ^ 64 }

-- A message that is in the inbox already is counted, and answered from the transfer.
unfoldable pub consume_again :
    String → TransferCertificate → ℕ → TransferState → InboxRecord → World → Reply
consume_again message_id c hash transfer old w =
    if old.payload_hash == hash
    then consume_finish message_id c.destination_region
        (record (transfer.consume_receipt) { duplicate = true })
        (record w { inbox = modify message_id count_delivery w.inbox })
    else (w, World.refused transfer_conflict)

abbrev pub arrive : Receipt → TransferState → TransferState
arrive receipt t = record t { in_transit = false; consumed = true; consume_receipt = receipt }

abbrev filed_message : String → ℕ → Receipt → InboxRecord
filed_message message_id hash receipt = record {
  message_id = message_id;
  payload_hash = hash;
  effect_id = receipt.effect_id;
  duplicate_deliveries = 0;
}

unfoldable pub take_in : String → TransferCertificate → ℕ → Amount → Book → Receipt → World → World
take_in message_id c hash rights book receipt w = record w {
  book = book;
  regions = modify (c.destination_region) (set_rights rights) w.regions;
  transfers = modify (c.transfer_id) (arrive receipt) w.transfers;
  inbox = insert message_id (filed_message message_id hash receipt) w.inbox;
}

-- `CrashConsumerAfterApply`
unfoldable pub arm_consumer_crash : String → World → World
arm_consumer_crash message_id w = record w {
  consumer_crash = insert message_id (get 0 message_id w.consumer_crash + 1) w.consumer_crash;
}

module _ (prim : Primitives) where
  unfoldable pub consume_post : String → TransferCertificate → ℕ → Amount → World → Reply
  consume_post message_id c hash rights w =
      let fingerprint =
        request_fingerprint prim
          ("RIGHTS_TRANSFER_IN" ∷ c.transfer_id ∷ hex 32 c.commit_proof ∷ []) in
      elim (post_locked prim (in_effect c.transfer_id) "RIGHTS_TRANSFER_IN" fingerprint
        (transfer_in_lines w c.destination_region c.amount) w.book) [
          | err e ↦ (w, World.refused e)
          | ok (book, receipt) ↦
              consume_finish message_id c.destination_region receipt
                (take_in message_id c hash rights book receipt w)
        ]

  unfoldable pub consume_new :
      String → TransferCertificate → ℕ → TransferState → RegionState → World → Reply
  consume_new message_id c hash transfer destination w =
      if transfer.consumed || not transfer.in_transit
      then (w, World.refused transfer_conflict)
      else elim (add destination.rights c.amount) [
        | err e ↦ (w, World.refused (ledger_error e))
        | ok rights ↦ consume_post message_id c hash rights w
      ]

  unfoldable pub consume_known :
      String → TransferCertificate → TransferState → RegionState → World → Reply
  consume_known message_id c transfer destination w =
      let hash = prim.sha256 (prim.marshal_certificate c) in
      if not (equal_certificate transfer.certificate c)
      then (w, World.refused transfer_conflict)
      else elim (lookup message_id w.inbox) [
        | some old ↦ consume_again message_id c hash transfer old w
        | none ↦ consume_new message_id c hash transfer destination w
      ]

  unfoldable pub consume_checked : String → TransferCertificate → RegionState → World → Reply
  consume_checked message_id c destination w =
      if not destination.running
      then (w, World.refused region_down)
      else if not (has_quorum w)
      then (w, World.refused no_quorum)
      else if not (verify_certificate prim w c)
      then (w, World.refused transfer_invalid)
      else elim (lookup (c.transfer_id) w.transfers) [
        | none ↦ (w, World.refused transfer_conflict)
        | some transfer ↦ consume_known message_id c transfer destination w
      ]

  -- `consumeTransfer`
  unfoldable pub consume_message : String → TransferCertificate → World → Reply
  consume_message message_id c w = elim (lookup (c.destination_region) w.regions) [
    | none ↦ (w, World.refused region_down)
    | some destination ↦ consume_checked message_id c destination w
  ]

  unfoldable pub consume_transfer : TransferCertificate → World → Reply
  consume_transfer c w = consume_message (transfer_message c.transfer_id) c w

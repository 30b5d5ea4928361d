-- ===== src/Failuresim/Transfers.antt =====
-- internal/failuresim/transfer.go: `InitiateTransfer`, by which rights leave their region.
use payment_platform.Common.{
  String, str_eq, Bool, true, false, ◌&&◌, ◌||◌, none, some, List, [], ◌∷◌, ok, err, ltb_ℤ, eqb_ℤ,
  if◌then◌else◌,
}
use payment_platform.Common.Dict.{lookup, insert, erase, modify}
use payment_platform.Ledger.Amount.{Amount, sub, is_not_positive, to_string, debit, credit}
use payment_platform.Failuresim.Types.{
  Error, ledger_error, transfer_invalid, transfer_conflict, insufficient_rights, Fence, Receipt,
  JournalLine, TransferCertificate, authority_transit_account,
}
use payment_platform.Failuresim.Hashing.{Primitives, request_fingerprint}
use payment_platform.Failuresim.Book.{Book, post_locked}
use payment_platform.Failuresim.World.{
  World, RegionState, TransferState, OutboxRecord, regional_account, require_writer,
}
use payment_platform.Failuresim.Effects.{outbox_record, event_message}
use payment_platform.Failuresim.Payments.{set_rights}
use Prim.Native.String
use payment_platform.Failuresim.Certificates.{certificate_proof}

abbrev pub transfer_message_kind : String
transfer_message_kind = "RIGHTS_TRANSFER"

abbrev pub transfer_message : String → String
transfer_message transfer_id = String.◌++◌ "transfer:" transfer_id

abbrev pub out_effect : String → String
out_effect transfer_id = String.◌++◌ "rights-transfer-out:" transfer_id

abbrev pub in_effect : String → String
in_effect transfer_id = String.◌++◌ "rights-transfer-in:" transfer_id

-- `(TransferCertificate, bool, error)`: a new transfer, the certificate of an old one, or a refusal.
pub data TransferAnswer : Type 0 where
  issued known : TransferCertificate → TransferAnswer
  refused : Error → TransferAnswer

abbrev pub transfer_out_lines : World → String → Amount → List JournalLine
transfer_out_lines w source amount =
    record {
      account = regional_account source;
      asset = w.authority_asset;
      side = debit;
      amount = amount;
    }
    ∷ record {
      account = authority_transit_account;
      asset = w.authority_asset;
      side = credit;
      amount = amount;
    }
    ∷ []

abbrev unproved : World → Fence → String → String → Amount → Receipt → TransferCertificate
unproved w f transfer_id destination amount receipt = record {
  transfer_id = transfer_id;
  asset = w.asset;
  source_region = f.region;
  destination_region = destination;
  amount = amount;
  source_epoch = f.epoch;
  commit_sequence = receipt.commit_sequence;
  commit_proof = 0;
}

abbrev pub no_receipt : Receipt
no_receipt = record {
  idempotency_key = "";
  effect_id = "";
  transaction_id = "";
  commit_sequence = 0;
  duplicate = false;
}

-- `&transferState{certificate: certificate, inTransit: true}`
abbrev pub sent : TransferCertificate → TransferState
sent certificate = record {
  certificate = certificate;
  in_transit = true;
  consumed = false;
  source_acknowledged = false;
  consume_receipt = no_receipt;
}

abbrev pub same_transfer : Fence → String → Amount → TransferCertificate → Bool
same_transfer f destination amount c =
    str_eq c.source_region f.region
    && (str_eq c.destination_region destination && eqb_ℤ c.amount amount)

module _ (prim : Primitives) where
  unfoldable pub certificate_for :
      World → Fence → String → String → Amount → Receipt → TransferCertificate
  certificate_for w f transfer_id destination amount receipt =
      let c : TransferCertificate = unproved w f transfer_id destination amount receipt in
      record c { commit_proof = certificate_proof prim w.certificate_key c }

  -- The outbox record is filed under the transfer's own message and not under the event's.
  unfoldable pub send_out : TransferCertificate → Amount → Book → Receipt → World → World
  unfolding outbox_record
  send_out c rights book receipt w = record w {
    book = book;
    regions = modify (c.source_region) (set_rights rights) w.regions;
    transfers = insert (c.transfer_id) (sent c) w.transfers;
    outbox =
        insert message (record filed { message_id = message })
          (erase (event_message receipt transfer_message_kind)
            (insert (event_message receipt transfer_message_kind) filed w.outbox));
  }
    where
      message : String
      message = transfer_message c.transfer_id

      filed : OutboxRecord
      filed =
          outbox_record receipt transfer_message_kind c.source_region c.destination_region
            (prim.marshal_certificate c)

  unfoldable pub transfer_post :
      Fence → String → String → Amount → Amount → World → World × TransferAnswer
  transfer_post f transfer_id destination amount rights w =
      let fingerprint =
        request_fingerprint prim
          ("RIGHTS_TRANSFER_OUT" ∷ transfer_id ∷ f.region ∷ destination ∷ to_string amount ∷ []) in
      elim (post_locked prim (out_effect transfer_id) "RIGHTS_TRANSFER_OUT" fingerprint
        (transfer_out_lines w f.region amount) w.book) [
          | err e ↦ (w, refused e)
          | ok (book, receipt) ↦
              let c = certificate_for w f transfer_id destination amount receipt in
              (send_out c rights book receipt w, issued c)
        ]

  -- A region without the rights is refused before anything is written.
  unfoldable pub transfer_new :
      Fence → String → String → Amount → RegionState → World → World × TransferAnswer
  transfer_new f transfer_id destination amount source w =
      if ltb_ℤ source.rights amount
      then (w, refused insufficient_rights)
      else elim (sub source.rights amount) [
        | err e ↦ (w, refused (ledger_error e))
        | ok rights ↦ transfer_post f transfer_id destination amount rights w
      ]

  unfoldable pub transfer_writer :
      Fence → String → String → Amount → RegionState → World → World × TransferAnswer
  transfer_writer f transfer_id destination amount source w =
      if str_eq transfer_id ""
        || (str_eq destination "" || (str_eq f.region destination || is_not_positive amount))
      then (w, refused transfer_invalid)
      else elim (lookup destination w.regions) [
        | none ↦ (w, refused transfer_invalid)
        | some _ ↦ elim (lookup transfer_id w.transfers) [
          | none ↦ transfer_new f transfer_id destination amount source w
          | some old ↦
              if same_transfer f destination amount old.certificate
              then (w, known old.certificate)
              else (w, refused transfer_conflict)
        ]
      ]

  unfoldable pub initiate_transfer :
      Fence → String → String → Amount → World → World × TransferAnswer
  initiate_transfer f transfer_id destination amount w = elim (require_writer f w) [
    | err e ↦ (w, refused e)
    | ok source ↦ transfer_writer f transfer_id destination amount source w
  ]

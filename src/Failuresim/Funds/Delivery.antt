-- ===== src/Failuresim/Funds/Delivery.antt =====
-- The outbox, the network and the acknowledgements keep the conservation laws.
use payment_platform.Common.{
  ℕ, suc, zero, String, str_eq, ◌≡◌, refl, sym, inl, inr, Bool-cases, Option-cases, arith, not,
  ◌||◌, List, [], ◌∷◌, Result, ok, err, ◌∙◌, int_laws, parts,
}
use payment_platform.Common.Bytes.{big_endian}
use payment_platform.Common.Dict.{Dict, lookup, modify, lookup-modify}
use payment_platform.Simulation.Network.{MessageKind, Envelope, command, ack, event, response}
use payment_platform.Simulation.Transport.{drain}
use payment_platform.Failuresim.Types.{Error, TransferCertificate}
use payment_platform.Failuresim.Hashing.{Primitives}
use payment_platform.Failuresim.Book.{Book}
use payment_platform.Failuresim.World.{World, TransferState, Reply, done, unheard, refused}
use payment_platform.Failuresim.Transfers.{transfer_message_kind}
use payment_platform.Failuresim.Arrivals.{consume_message}
use payment_platform.Failuresim.Delivery.{
  source_acknowledged_transfer, is_transfer_message, equal_bytes, accept_known, accept_ack,
  send_message, send_all, dispatch_outbox, acknowledge, after_ack, deliver_command, deliver_as,
  deliver, deliver_all, deliver_messages, all_acknowledged, pump_until_settled, pending_envelopes,
}
use payment_platform.Failuresim.Funds.{Funded, IsTracked, total_in_transit}
use payment_platform.Failuresim.Funds.Arrivals.{consume_message-Funded}
use Prim.Native.String.{slice, len}

total_in_transit-acknowledged :
    (id : String) (m : Dict TransferState)
    → total_in_transit (modify id source_acknowledged_transfer m) ≡ total_in_transit m
unfolding modify
total_in_transit-acknowledged id [] = refl
total_in_transit-acknowledged id ((j, t) ∷ m) = elim (Bool-cases (str_eq j id)) [
  | inl same ↦ rw same refl
  | inr other ↦ rw other (omega (int_laws, parts (total_in_transit-acknowledged id m)))
]

IsTracked-acknowledged :
    (id : String) (m : Dict TransferState) (b : Book)
    → IsTracked m b
    → IsTracked (modify id source_acknowledged_transfer m) b
IsTracked-acknowledged id m b v = record {
  unissued = λ other h. elim (Option-cases (lookup other m)) [
    | inl missing ↦ v.unissued other missing
    | inr (t, e) ↦ ground (arith, lookup-modify id other source_acknowledged_transfer m)
  ];
  pending = λ other t h moving. elim (Option-cases (lookup other m)) [
    | inl missing ↦ (v.unissued other missing).1
    | inr (u, e) ↦
        v.pending other u e (ground (arith, lookup-modify id other source_acknowledged_transfer m))
  ];
}

module _ (prim : Primitives) where
  accept_known-Funded :
      (e : Envelope) (id : String) (w : World) → Funded prim w → Funded prim (accept_known e id w).0
  unfolding accept_known
  accept_known-Funded e id w v = elim (Option-cases (lookup id w.transfers)) [
    | inl unknown ↦ rw (unknown, accept_known) v
    | inr (t, known) ↦
        elim (Bool-cases (
          not t.consumed
          || not (equal_bytes e.payload (big_endian 32 t.certificate.commit_proof)))) [
            | inl bad ↦ rw (known, accept_known, bad) v
            | inr good ↦
                rw (known, accept_known, good)
                  (record {
                    sound = v.sound;
                    available = v.available;
                    solvent = v.solvent;
                    escrowed = rw (total_in_transit-acknowledged id w.transfers) v.escrowed;
                    transit = v.transit ∙ sym (total_in_transit-acknowledged id w.transfers);
                    reserve = v.reserve;
                    backed = v.backed;
                    tracked = IsTracked-acknowledged id w.transfers w.book v.tracked;
                  })
          ]
  ]

  accept_ack-Funded : (e : Envelope) (w : World) → Funded prim w → Funded prim (accept_ack e w).0
  unfolding accept_ack
  accept_ack-Funded e w v = elim (Option-cases (lookup e.correlation_id w.outbox)) [
    | inl unknown ↦ rw (unknown, accept_ack) v
    | inr (r, known) ↦
        elim (Bool-cases (
          not (str_eq r.kind transfer_message_kind)
          || not (is_transfer_message e.correlation_id))) [
            | inl bad ↦ rw (known, accept_ack, bad) v
            | inr good ↦
                rw (known, accept_ack, good)
                  (accept_known-Funded e (slice e.correlation_id 9 (len e.correlation_id)) w v)
          ]
  ]

  send_message-Funded :
      (e : Envelope) (w : World) → Funded prim w → Funded prim (send_message prim e w).0
  unfolding send_message
  send_message-Funded e w v = v

  send_all-Funded :
      (es : List Envelope) (w : World) → Funded prim w → Funded prim (send_all prim es w).0
  unfolding send_all
  send_all-Funded [] w v = v
  send_all-Funded (e ∷ es) w v =
      send_all-Funded es (send_message prim e w).0 (send_message-Funded e w v)

  pub dispatch_outbox-Funded : (w : World) → Funded prim w → Funded prim (dispatch_outbox prim w).0
  unfolding dispatch_outbox
  dispatch_outbox-Funded w v = send_all-Funded (pending_envelopes w.outbox) _ v

  acknowledge-Funded :
      (e : Envelope) (c : TransferCertificate) (reply : Reply)
      → Funded prim reply.0
      → Funded prim (acknowledge prim e c reply).0
  unfolding acknowledge send_message
  acknowledge-Funded e c (w, done r) v = v
  acknowledge-Funded e c (w, unheard x r) v = v
  acknowledge-Funded e c (w, refused x) v = v

  after_ack-Funded :
      (reply : World × Result Error (Unit {0}))
      → Funded prim reply.0
      → Funded prim (after_ack prim reply).0
  after_ack-Funded (w, ok _) v = v
  after_ack-Funded (w, err e) v = v

  deliver_command-Funded :
      (e : Envelope) (w : World) → Funded prim w → Funded prim (deliver_command prim e w).0
  unfolding deliver_command
  deliver_command-Funded e w v = elim (Option-cases (prim.unmarshal_certificate e.payload)) [
    | inl garbled ↦ rw (garbled, deliver_command) v
    | inr (c, decoded) ↦
        rw (decoded, deliver_command)
          (acknowledge-Funded e c (consume_message prim e.message_id c w)
            (consume_message-Funded prim e.message_id c w v))
  ]

  deliver_as-Funded :
      (kind : MessageKind) (e : Envelope) (w : World)
      → Funded prim w
      → Funded prim (deliver_as prim kind e w).0
  unfolding deliver_as
  deliver_as-Funded command e w v = deliver_command-Funded e w v
  deliver_as-Funded event e w v = v
  deliver_as-Funded response e w v = v
  deliver_as-Funded ack e w v = after_ack-Funded (accept_ack e w) (accept_ack-Funded e w v)

  deliver_all-Funded :
      (es : List Envelope) (w : World) → Funded prim w → Funded prim (deliver_all prim es w).0
  unfolding deliver_all deliver
  deliver_all-Funded [] w v = v
  deliver_all-Funded (e ∷ es) w v =
      deliver_all-Funded es (deliver prim e w).0 (deliver_as-Funded e.kind e w v)

  pub deliver_messages-Funded :
      (w : World) → Funded prim w → Funded prim (deliver_messages prim w).0
  unfolding deliver_messages
  deliver_messages-Funded w v = deliver_all-Funded (drain w.network).1 _ v

  -- Pumping the outbox, the network and the acknowledgements keeps the conservation laws, whatever the
  -- network loses, copies or reorders and however many rounds it takes.
  pub pump_until_settled-Funded :
      (rounds : ℕ) (w : World) → Funded prim w → Funded prim (pump_until_settled prim rounds w).0
  unfolding pump_until_settled
  pump_until_settled-Funded zero w v = v
  pump_until_settled-Funded (suc rounds) w v =
      let w₁ : World =
        (deliver_messages prim (deliver_messages prim (dispatch_outbox prim w).0).0).0 in
      let u : Funded prim w₁ =
        deliver_messages-Funded (deliver_messages prim (dispatch_outbox prim w).0).0
          (deliver_messages-Funded (dispatch_outbox prim w).0 (dispatch_outbox-Funded w v)) in
      elim (Bool-cases (all_acknowledged w₁.transfers)) [
        | inl settled ↦ rw settled u
        | inr waiting ↦ rw waiting (pump_until_settled-Funded rounds w₁ u)
      ]

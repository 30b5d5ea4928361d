-- ===== src/Failuresim/Funds/Arrivals.antt =====
-- `ConsumeTransfer` keeps the conservation laws, however it ends.
use payment_platform.Common.{
  ℕ, String, ◌≡◌, inl, inr, some, pos, ◌+ℤ◌, ℤ, [], ◌∷◌, Bool-cases, arith, true, Option-cases,
  Result-cases, ok, ltb_ℤ, eqb_ℤ, ◌||◌, not, ◌==◌,
}
use payment_platform.Common.Bytes.{hex}
use payment_platform.Common.{nonneg-add}
use payment_platform.Common.Int.{eq_of_parts}
use payment_platform.Common.Dict.{lookup}
use payment_platform.Ledger.Amount.{Amount, add, add-ok}
use payment_platform.Failuresim.Types.{Receipt, TransferCertificate}
use payment_platform.Failuresim.Hashing.{Primitives, request_fingerprint}
use payment_platform.Failuresim.Book.{Book, post_locked}
use payment_platform.Failuresim.Book.Posts.{post_locked-cases}
use payment_platform.Failuresim.World.{
  World, RegionState, TransferState, has_quorum, consume_counter,
}
use payment_platform.Failuresim.Certificates.{verify_certificate, equal_certificate}
use payment_platform.Failuresim.Transfers.{in_effect}
use payment_platform.Failuresim.Arrivals.{
  consume_finish, consume_again, take_in, consume_post, consume_new, consume_known, consume_checked,
  consume_message, transfer_in_lines,
}
use payment_platform.Failuresim.Funds.{Funded}
use payment_platform.Failuresim.Funds.Frames.{halt-Funded}
use payment_platform.Failuresim.Funds.Transit.{total_in_transit-arrive}
use payment_platform.Failuresim.Funds.Transfers.{IsFunded-move, IsTracked-arrived, in_lines-IsMove}

eqb_ℤ→eq : (a b : ℤ) → eqb_ℤ a b ≡ true → a ≡ b
eqb_ℤ→eq a b h = eq_of_parts a b (ground arith)

module _ (prim : Primitives) where
  consume_finish-Funded :
      (message_id destination : String) (receipt : Receipt) (w : World)
      → Funded prim w
      → Funded prim (consume_finish message_id destination receipt w).0
  unfolding consume_finish
  consume_finish-Funded message_id destination receipt w v =
      elim (Bool-cases (consume_counter w.consumer_crash message_id).0) [
        | inl crashed ↦ rw crashed (halt-Funded prim destination _ v)
        | inr running ↦ rw running v
      ]

  take_in-Funded :
      (message_id : String) (c : TransferCertificate) (hash fingerprint : ℕ) (rights : Amount)
      (u : TransferState) (s : RegionState) (w : World) {book : Book} {receipt : Receipt}
      → lookup c.destination_region w.regions ≡ some s
      → lookup c.transfer_id w.transfers ≡ some u
      → u.in_transit ≡ true
      → u.certificate.amount ≡ c.amount
      → rights ≡ s.rights +ℤ c.amount
      → ltb_ℤ (pos 0) c.amount ≡ true
      → post_locked prim
          (in_effect c.transfer_id)
          "RIGHTS_TRANSFER_IN"
          fingerprint
          (transfer_in_lines w c.destination_region c.amount)
          w.book
        ≡ ok (book, receipt)
      → Funded prim w
      → Funded prim (take_in message_id c hash rights book receipt w)
  unfolding take_in
  take_in-Funded message_id c hash fingerprint rights u s w known sent moving same e positive posted
        v =
      elim (post_locked-cases prim (in_effect c.transfer_id) "RIGHTS_TRANSFER_IN" fingerprint
        (transfer_in_lines w c.destination_region c.amount) w.book posted) [
          | inl replayed ↦
              ground (arith, replayed.known, v.tracked.pending c.transfer_id u sent moving)
          | inr appended ↦
              IsFunded-move prim w.credit_limit w.unallocated w.authority_total w.regions
                w.transfers (in_effect c.transfer_id) "RIGHTS_TRANSFER_IN" fingerprint
                (transfer_in_lines w c.destination_region c.amount) v appended c.destination_region
                s c.amount rights _ known (in_lines-IsMove w c.destination_region c.amount) e
                (rw e (
                  nonneg-add s.rights c.amount (v.backed c.destination_region s known).nonneg
                    positive))
                (rw (← same) (total_in_transit-arrive c.transfer_id _ u w.transfers sent moving))
                (IsTracked-arrived prim "RIGHTS_TRANSFER_IN" fingerprint
                  (transfer_in_lines w c.destination_region c.amount) w.transfers v.tracked
                  c.transfer_id _ u sent appended)
        ]

  consume_new-Funded :
      (message_id : String) (c : TransferCertificate) (hash : ℕ) (u : TransferState)
      (s : RegionState) (w : World)
      → lookup c.destination_region w.regions ≡ some s
      → lookup c.transfer_id w.transfers ≡ some u
      → u.certificate.amount ≡ c.amount
      → ltb_ℤ (pos 0) c.amount ≡ true
      → Funded prim w
      → Funded prim (consume_new prim message_id c hash u s w).0
  unfolding consume_new consume_post
  consume_new-Funded message_id c hash u s w known sent same positive v =
      elim (Bool-cases (u.consumed || not u.in_transit)) [
        | inl bad ↦ rw bad v
        | inr good ↦ elim (Result-cases (add s.rights c.amount)) [
          | inl (e, failed) ↦ rw (good, failed, consume_new) v
          | inr (rights, e) ↦
              elim (Result-cases (
                post_locked prim (in_effect c.transfer_id) "RIGHTS_TRANSFER_IN"
                  (request_fingerprint prim
                    ("RIGHTS_TRANSFER_IN" ∷ c.transfer_id ∷ hex 32 c.commit_proof ∷ []))
                  (transfer_in_lines w c.destination_region c.amount) w.book)) [
                    | inl (e', failed) ↦ rw (good, e, consume_new, failed, consume_post) v
                    | inr (posted, e') ↦
                        rw (good, e, consume_new, e', consume_post)
                          (consume_finish-Funded message_id c.destination_region posted.1 _ (
                            take_in-Funded message_id c hash _ rights u s w known sent
                              (ground arith) same (add-ok s.rights c.amount e) positive e' v))
                  ]
        ]
      ]

  consume_known-Funded :
      (message_id : String) (c : TransferCertificate) (u : TransferState) (s : RegionState)
      (w : World)
      → lookup c.destination_region w.regions ≡ some s
      → lookup c.transfer_id w.transfers ≡ some u
      → ltb_ℤ (pos 0) c.amount ≡ true
      → Funded prim w
      → Funded prim (consume_known prim message_id c u s w).0
  unfolding consume_known consume_again equal_certificate
  consume_known-Funded message_id c u s w known sent positive v =
      elim (Bool-cases (equal_certificate u.certificate c)) [
        | inr other ↦ rw other v
        | inl equal ↦ rw equal (elim (Option-cases (lookup message_id w.inbox)) [
          | inl new ↦
              rw (new, consume_known)
                (consume_new-Funded message_id c _ u s w known sent
                  (eqb_ℤ→eq u.certificate.amount c.amount (ground arith)) positive v)
          | inr (old, e) ↦
              elim (Bool-cases (old.payload_hash == prim.sha256 (prim.marshal_certificate c))) [
                | inl same ↦
                    rw (e, consume_known, same)
                      (consume_finish-Funded message_id c.destination_region _ _ v)
                | inr ne ↦ rw (e, consume_known, ne) v
              ]
        ])
      ]

  -- The arrival of a transfer keeps the conservation laws, however often its message is delivered and
  -- whether the consumer refuses it, takes it, or crashes before it acknowledges.
  pub consume_message-Funded :
      (message_id : String) (c : TransferCertificate) (w : World)
      → Funded prim w
      → Funded prim (consume_message prim message_id c w).0
  unfolding consume_message consume_checked verify_certificate
  consume_message-Funded message_id c w v =
      elim (Option-cases (lookup c.destination_region w.regions)) [
        | inl missing ↦ rw (missing, consume_message) v
        | inr (s, known) ↦
            rw (known, consume_message)
              (elim (Bool-cases s.running) [
                | inr down ↦ rw down v
                | inl up ↦ rw up (elim (Bool-cases (has_quorum w)) [
                  | inr few ↦ rw few v
                  | inl enough ↦ rw enough (elim (Bool-cases (verify_certificate prim w c)) [
                    | inr forged ↦ rw forged v
                    | inl proved ↦
                        rw proved (elim (Option-cases (lookup c.transfer_id w.transfers)) [
                          | inl unknown ↦ rw (unknown, consume_checked) v
                          | inr (u, sent) ↦
                              rw (sent, consume_checked)
                                (consume_known-Funded message_id c u s w known sent (ground arith)
                                  v)
                        ])
                  ])
                ])
              ])
      ]

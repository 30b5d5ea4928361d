-- ===== src/Failuresim/Funds/Moves.antt =====
-- `InitiateTransfer` keeps the conservation laws, however it ends.
use payment_platform.Common.{
  ℕ, String, str_eq, ◌≡◌, ◌∙◌, inl, inr, some, none, pos, ◌-ℤ◌, ◌≤ℤ◌, [], ◌∷◌, Bool-cases, arith,
  int_laws, parts, Option-cases, Result-cases, ok, ltb_ℤ, ◌||◌,
}
use payment_platform.Common.Int.{ -ℤ_parts}
use payment_platform.Common.Dict.{lookup}
use payment_platform.Ledger.Amount.{Amount, is_not_positive, sub, sub-ok, to_string}
use payment_platform.Failuresim.Types.{Receipt, Fence}
use payment_platform.Failuresim.Hashing.{Primitives, request_fingerprint}
use payment_platform.Failuresim.Book.{Book, post_locked}
use payment_platform.Failuresim.Book.Posts.{post_locked-cases}
use payment_platform.Failuresim.World.{World, RegionState, require_writer}
use payment_platform.Failuresim.Transfers.{
  certificate_for, send_out, transfer_post, transfer_new, transfer_writer, initiate_transfer,
  transfer_out_lines, out_effect, same_transfer,
}
use payment_platform.Failuresim.Funds.{Funded}
use payment_platform.Failuresim.Funds.Frames.{require_writer-ok}
use payment_platform.Failuresim.Funds.Transit.{total_in_transit-insert}
use payment_platform.Failuresim.Funds.Transfers.{IsFunded-move, IsTracked-sent, out_lines-IsMove}

module _ (prim : Primitives) where
  send_out-Funded :
      (f : Fence) (id destination : String) (amount rights : Amount) (s : RegionState) (w : World)
      (fingerprint : ℕ) {book : Book} {receipt : Receipt}
      → lookup f.region w.regions ≡ some s
      → lookup id w.transfers ≡ none
      → rights ≡ s.rights -ℤ amount
      → pos 0 ≤ℤ rights
      → post_locked prim
          (out_effect id)
          "RIGHTS_TRANSFER_OUT"
          fingerprint
          (transfer_out_lines w f.region amount)
          w.book
        ≡ ok (book, receipt)
      → Funded prim w
      → Funded prim (
          send_out prim
            (certificate_for prim w f id destination amount receipt)
            rights
            book
            receipt
            w)
  unfolding send_out certificate_for
  send_out-Funded f id destination amount rights s w fingerprint {book} {receipt} known new e enough
        posted v =
      elim (post_locked-cases prim (out_effect id) "RIGHTS_TRANSFER_OUT" fingerprint
        (transfer_out_lines w f.region amount) w.book posted) [
          | inl replayed ↦ ground (arith, replayed.known, (v.tracked.unissued id new).0)
          | inr appended ↦
              IsFunded-move prim w.credit_limit w.unallocated w.authority_total w.regions
                w.transfers (out_effect id) "RIGHTS_TRANSFER_OUT" fingerprint
                (transfer_out_lines w f.region amount) v appended f.region s (pos 0 -ℤ amount)
                rights _ known (out_lines-IsMove w f.region amount) (e ∙ omega int_laws) enough
                (rw (total_in_transit-insert id _ w.transfers new) (omega int_laws))
                (IsTracked-sent prim "RIGHTS_TRANSFER_OUT" fingerprint
                  (transfer_out_lines w f.region amount) w.transfers v.tracked id _ new appended)
        ]

  transfer_new-Funded :
      (f : Fence) (id destination : String) (amount : Amount) (s : RegionState) (w : World)
      → lookup f.region w.regions ≡ some s
      → lookup id w.transfers ≡ none
      → Funded prim w
      → Funded prim (transfer_new prim f id destination amount s w).0
  unfolding transfer_new transfer_post
  transfer_new-Funded f id destination amount s w known new v =
      elim (Bool-cases (ltb_ℤ s.rights amount)) [
        | inl short ↦ rw short v
        | inr covered ↦ elim (Result-cases (sub s.rights amount)) [
          | inl (e, failed) ↦ rw (covered, failed, transfer_new) v
          | inr (rights, e) ↦
              elim (Result-cases (
                post_locked prim (out_effect id) "RIGHTS_TRANSFER_OUT"
                  (request_fingerprint prim
                    ("RIGHTS_TRANSFER_OUT" ∷ id ∷ f.region ∷ destination ∷ to_string amount ∷ []))
                  (transfer_out_lines w f.region amount) w.book)) [
                    | inl (e', failed) ↦ rw (covered, e, transfer_new, failed, transfer_post) v
                    | inr (posted, e') ↦
                        let m = sub-ok s.rights amount e in
                        rw (covered, e, transfer_new, e', transfer_post)
                          (send_out-Funded f id destination amount rights s w _ known new m
                            (ground (arith, parts m, -ℤ_parts s.rights amount)) e' v)
                  ]
        ]
      ]

  -- A transfer that is sent, known already or refused keeps the conservation laws.
  pub initiate_transfer-Funded :
      (f : Fence) (id destination : String) (amount : Amount) (w : World)
      → Funded prim w
      → Funded prim (initiate_transfer prim f id destination amount w).0
  unfolding initiate_transfer transfer_writer
  initiate_transfer-Funded f id destination amount w v = elim (Result-cases (require_writer f w)) [
    | inl (e, failed) ↦ rw (failed, initiate_transfer) v
    | inr (s, e) ↦
        rw (e, initiate_transfer)
          (elim (Bool-cases (
            str_eq id ""
            || (str_eq destination ""
                || (str_eq f.region destination || is_not_positive amount)))) [
                  | inl bad ↦ rw bad v
                  | inr good ↦ rw good (elim (Option-cases (lookup destination w.regions)) [
                    | inl missing ↦ rw (missing, transfer_writer) v
                    | inr (to, e') ↦ elim (Option-cases (lookup id w.transfers)) [
                      | inl new ↦
                          rw (e', transfer_writer, new)
                            (transfer_new-Funded f id destination amount s w
                              (require_writer-ok f w e).known new v)
                      | inr (old, e'') ↦
                          elim (Bool-cases (same_transfer f destination amount old.certificate)) [
                            | inl same ↦ rw (e', transfer_writer, e'', same) v
                            | inr other ↦ rw (e', transfer_writer, e'', other) v
                          ]
                    ]
                  ])
                ])
  ]

-- ===== src/Transfer/Postings.antt =====
-- The legs of a planned transfer before the ledger's `Validate`, internal/transfer/legs.go.
use payment_platform.Common.{
  ℕ, ◌≤◌, String, str_eq, ◌≡◌, refl, inl, inr, arith, true, false, ok, ◌&&◌, List, [], ◌∷◌, length,
  All, Option, Bool-cases, >>=-eq-ok,
}
use payment_platform.Common.Bytes.{utf8}
use payment_platform.Ledger.Amount.{fits_decimal38}
use payment_platform.Ledger.Posting.{valid_id, is_json, validate}
use payment_platform.Transfer.Legs.{
  Request, Party, LegPlan, Settlement, validate_request, check_parties, settlement_account,
  single_leg, payer_leg, payee_leg, metadata_of, plan_transfer, post_request,
}
use payment_platform.Transfer.Plans.{plan_legs-cases}
use Prim.Native.String
use payment_platform.Transfer.Validity.{
  IsRequest, validate_request-IsRequest, valid_id-append, leg-validates,
}

settlement_account-valid :
    (rows : List Settlement) (book asset : String) {account : String}
    → All (λ s. valid_id s.account_id ≡ true) rows
    → settlement_account rows book asset ≡ ok account
    → valid_id account ≡ true
unfolding settlement_account
settlement_account-valid [] book asset h e = ground arith
settlement_account-valid (s ∷ rows) book asset {account} h e =
    elim (Bool-cases (str_eq s.book_id book && str_eq s.asset_id asset)) [
      | inl here ↦ ground (arith, h.0)
      | inr later ↦ settlement_account-valid rows book asset h.1 (rw later at e)
    ]

-- What `Execute` brings to a plan: accounts as they were asked for, books and transactions with
-- identifiers, and a transfer whose effects can be named within the ledger's bound.
pub record IsReady (r : Request) (from to : Party) (payer_transaction payee_transaction : String)
    : Type 0 where
  pub payer_account : from.account_id ≡ r.payer_account_id
  pub payee_account : to.account_id ≡ r.payee_account_id
  pub payer_book : valid_id from.book_id ≡ true
  pub payee_book : valid_id to.book_id ≡ true
  pub payer_id : valid_id payer_transaction ≡ true
  pub payee_id : valid_id payee_transaction ≡ true
  pub fits : fits_decimal38 r.amount_atoms ≡ true
  pub effects : length (utf8 r.transfer_id) ≤ 505

module _ (reencode_json : List ℕ → Option (List ℕ)) (marshal : List (String × String) → List ℕ)
    (encodes : (members : List (String × String)) → is_json reencode_json (marshal members) ≡ true)
    (rows : List Settlement) (registered : All (λ s. valid_id s.account_id ≡ true) rows)
    (r : Request) (from to : Party) (t₁ t₂ policy : String) (hash : ℕ)
    (ready : IsReady r from to t₁ t₂) (ruled : str_eq policy "" ≡ false) where
  abbrev Posts : LegPlan → Type 0
  Posts l = validate reencode_json (post_request r policy hash l) ≡ ok tt

  suffixed :
      (suffix : String)
      → IsRequest r
      → length (utf8 suffix) ≤ 7
      → valid_id (String.◌++◌ (r.transfer_id) suffix) ≡ true
  suffixed suffix q small =
      valid_id-append r.transfer_id suffix q.transfer (omega (arith, ready.effects))

  single_leg-Posts : IsRequest r → Posts (single_leg r from to t₁ (marshal (metadata_of r)))
  unfolding single_leg utf8
  single_leg-Posts q =
      leg-validates from.account_id to.account_id r.asset_id "transfer out" "transfer in"
        r.amount_atoms (rw ready.payer_account q.payer) (rw ready.payee_account q.payee) q.asset
        q.positive ready.fits reencode_json r policy hash _ refl ready.payer_id ready.payer_book
        q.transfer (suffixed ":single" q (omega arith)) refl ruled (encodes _)

  payer_leg-Posts :
      (settlement : String)
      → valid_id settlement ≡ true
      → IsRequest r
      → Posts (payer_leg r from settlement t₁ (marshal (metadata_of r)))
  unfolding payer_leg utf8
  payer_leg-Posts settlement known q =
      leg-validates from.account_id settlement r.asset_id "transfer out" "due to peer book"
        r.amount_atoms (rw ready.payer_account q.payer) known q.asset q.positive ready.fits
        reencode_json r policy hash _ refl ready.payer_id ready.payer_book q.transfer
        (suffixed ":payer" q (omega arith)) refl ruled (encodes _)

  payee_leg-Posts :
      (settlement : String)
      → valid_id settlement ≡ true
      → IsRequest r
      → Posts (payee_leg r to settlement t₂ (marshal (metadata_of r)))
  unfolding payee_leg utf8
  payee_leg-Posts settlement known q =
      leg-validates settlement to.account_id r.asset_id "due from peer book" "transfer in"
        r.amount_atoms known (rw ready.payee_account q.payee) q.asset q.positive ready.fits
        reencode_json r policy hash _ refl ready.payee_id ready.payee_book q.transfer
        (suffixed ":payee" q (omega arith)) refl ruled (encodes _)

  -- A transfer whose checks and plan succeed is posted by the ledger leg by leg: `Validate` accepts the
  -- request of every leg. The encoder's output is JSON, the registered settlement accounts and the
  -- books and transactions have identifiers, the accounts are those of the request, the amount fits, a
  -- posting rule is named, and the transfer's identifier has at most 505 bytes.
  pub plan_transfer-All :
      {legs : List LegPlan} → plan_transfer marshal rows r from to t₁ t₂ ≡ ok legs → All Posts legs
  unfolding plan_transfer
  plan_transfer-All h =
      let (u₁, e₁, h₁) = >>=-eq-ok (validate_request r) _ h in
      let (u₂, e₂, h₂) = >>=-eq-ok (check_parties r from to) _ h₁ in
      let q = validate_request-IsRequest r e₁ in
      elim (plan_legs-cases marshal rows r from to t₁ t₂ h₂) [
        | inl s ↦ rw s.legs (single_leg-Posts q, tt)
        | inr p ↦ rw p.legs (
          payer_leg-Posts p.payer_settlement
              (settlement_account-valid rows from.book_id r.asset_id registered p.payer_known) q,
          (
            payee_leg-Posts p.payee_settlement
                (settlement_account-valid rows to.book_id r.asset_id registered p.payee_known) q,
            tt,
          ),
        )
      ]

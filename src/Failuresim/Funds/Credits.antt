-- ===== src/Failuresim/Funds/Credits.antt =====
-- Deposits, releases and cashback keep the conservation laws, however they end.
use payment_platform.Common.{
  nonneg-add, true, ◌≡◌, inl, inr, some, pos, ◌+ℤ◌, ltb_ℤ, Result-cases, arith, ok,
}
use payment_platform.Common.Dict.{lookup}
use payment_platform.Ledger.Amount.{Amount, add, add-ok}
use payment_platform.Failuresim.Types.{Receipt}
use payment_platform.Failuresim.Hashing.{Primitives}
use payment_platform.Failuresim.Book.{Book, post_locked, receipt_of}
use payment_platform.Failuresim.Book.Posts.{post_locked-cases}
use payment_platform.Failuresim.World.{World, RegionState}
use payment_platform.Failuresim.Effects.{add_outbox, remember}
use payment_platform.Failuresim.Credits.{
  Credit, credit_plan, credit_apply, credit_finish, credit_post, credit_fresh,
}
use payment_platform.Failuresim.Funds.{Funded}
use payment_platform.Failuresim.Funds.Effects.{IsForeign}
use payment_platform.Failuresim.Funds.Shift.{IsShift, IsFunded-shift}

pub record IsPlanned (amount : Amount) (s : RegionState) (w : World) (plan : Amount × Amount)
    : Type 0 where
  pub rights : plan.0 ≡ s.rights +ℤ amount
  pub authority : plan.1 ≡ w.authority_total +ℤ amount

pub credit_plan-ok :
    (amount : Amount) (s : RegionState) (w : World) {plan : Amount × Amount}
    → credit_plan amount s w ≡ ok plan
    → IsPlanned amount s w plan
unfolding credit_plan
credit_plan-ok amount s w h = elim (Result-cases (add s.rights amount)) [
  | inl (e, failed) ↦ ground arith
  | inr (rights, p) ↦ elim (Result-cases (add w.authority_total amount)) [
    | inl (e, failed) ↦ ground arith
    | inr (authority, q) ↦
        let e₁ = add-ok s.rights amount p in
        let e₂ = add-ok w.authority_total amount q in
        record { rights = ground (arith, e₁); authority = ground (arith, e₂) }
  ]
]

module _ (prim : Primitives) where
  module _ (c : Credit) (also : World → World)
      (keeps : (u : World) → Funded prim u → Funded prim (also u)) (s : RegionState) (w : World)
      (known : lookup c.region w.regions ≡ some s) (positive : ltb_ℤ (pos 0) c.amount ≡ true)
      (foreign : IsForeign c.effect_id) (shift : IsShift c.region c.amount c.lines)
      (v : Funded prim w) where
    pub credit_apply-Funded :
        (plan : Amount × Amount) {book : Book} {receipt : Receipt}
        → IsPlanned c.amount s w plan
        → post_locked prim c.effect_id c.kind c.fingerprint c.lines w.book ≡ ok (book, receipt)
        → Funded prim (credit_apply c.region c.message_kind c.payload plan also book receipt w)
    unfolding credit_apply add_outbox receipt_of
    credit_apply-Funded plan p posted =
        elim (post_locked-cases prim c.effect_id c.kind c.fingerprint c.lines w.book posted) [
          | inl replayed ↦ rw (replayed.answered) (rw replayed.unchanged v)
          | inr appended ↦ rw appended.answered (
              keeps _ (
                rw p.authority (
                  IsFunded-shift prim w.credit_limit w.unallocated w.authority_total w.regions
                    w.transfers c.effect_id c.kind c.fingerprint c.lines v appended c.region s
                    c.amount plan.0 known shift p.rights
                    (rw p.rights
                      (nonneg-add s.rights c.amount (v.backed c.region s known).nonneg positive))
                    foreign (nonneg-add w.authority_total c.amount v.solvent positive))))
        ]

    pub credit_fresh-Funded : Funded prim (credit_fresh prim c also s w).0
    unfolding credit_fresh credit_post credit_finish remember
    credit_fresh-Funded = elim (Result-cases (credit_plan c.amount s w)) [
      | inl (e, failed) ↦ rw (failed, credit_fresh) v
      | inr (plan, e) ↦
          elim (Result-cases (post_locked prim c.effect_id c.kind c.fingerprint c.lines w.book)) [
            | inl (e', failed) ↦ rw (e, credit_fresh, failed, credit_post) v
            | inr (posted, e') ↦
                rw (e, credit_fresh, e', credit_post)
                  (credit_apply-Funded plan (credit_plan-ok c.amount s w e) e')
          ]
    ]

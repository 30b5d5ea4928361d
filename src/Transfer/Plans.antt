-- ===== src/Transfer/Plans.antt =====
-- The two shapes of a planned transfer, and what it does to the accounts.
use payment_platform.Common.{
  String, str_eq, ◌≡◌, ◌⊎◌, inl, inr, arith, true, false, ok, List, [], ◌∷◌, Bool-cases, >>=-eq-ok,
  ℕ, Bool, not, ◌&&◌, ℤ, pos, ◌+ℤ◌, ◌-ℤ◌, int_laws, All, eq_iff, str_eq_refl, if◌then◌else◌,
}
use payment_platform.Transfer.Legs.{
  Request, Party, LegPlan, Settlement, settlement_account, single_leg, payer_leg, payee_leg,
  metadata_of, plan_legs, validate_request, check_parties, plan_transfer,
}
use payment_platform.Ledger.Amount.{Amount, Side, debit}
use payment_platform.Ledger.Posting.{Line}

module _ (marshal : List (String × String) → List ℕ) (rows : List Settlement) (r : Request)
    (from to : Party) (t₁ t₂ : String) where
  -- One book, one leg.
  pub record IsSingle (plan : List LegPlan) : Type 0 where
    pub same_book : str_eq from.book_id to.book_id ≡ true
    pub legs : plan ≡ single_leg r from to t₁ (marshal (metadata_of r)) ∷ []

  -- Two books, a leg in each through its registered settlement account.
  pub record IsPaired (plan : List LegPlan) : Type 0 where
    pub payer_settlement : String
    pub payee_settlement : String
    pub books : str_eq from.book_id to.book_id ≡ false
    pub payer_known : settlement_account rows from.book_id r.asset_id ≡ ok payer_settlement
    pub payee_known : settlement_account rows to.book_id r.asset_id ≡ ok payee_settlement
    pub legs :
        plan
        ≡ payer_leg r from payer_settlement t₁ (marshal (metadata_of r))
          ∷ payee_leg r to payee_settlement t₂ (marshal (metadata_of r))
          ∷ []

  pub plan_legs-cases :
      {plan : List LegPlan}
      → plan_legs marshal rows r from to t₁ t₂ ≡ ok plan
      → IsSingle plan ⊎ IsPaired plan
  unfolding plan_legs
  plan_legs-cases h = elim (Bool-cases (str_eq from.book_id to.book_id)) [
    | inl same ↦ inl (record { same_book = same; legs = ground (arith, rw same at h) })
    | inr apart ↦
        let (p, e₁, h₁) =
          >>=-eq-ok (settlement_account rows from.book_id r.asset_id) _ (rw apart at h) in
        let (q, e₂, h₂) = >>=-eq-ok (settlement_account rows to.book_id r.asset_id) _ h₁ in
        inr (record {
          payer_settlement = p;
          payee_settlement = q;
          books = apart;
          payer_known = e₁;
          payee_known = e₂;
          legs = ground arith;
        })
  ]

-- What the lines of a leg do to the accounts that a test picks: credits less debits.
abbrev signed : Side → Amount → ℤ
signed debit amount = pos 0 -ℤ amount
signed _ amount = amount

abbrev pub moved : (String → Bool) → List Line → ℤ
moved test [] = pos 0
moved test (l ∷ ls) =
    (if test l.account_id then signed l.side l.amount_atoms else pos 0) +ℤ moved test ls

abbrev pub moved_by : (String → Bool) → List LegPlan → ℤ
moved_by test [] = pos 0
moved_by test (l ∷ ls) = moved test l.lines +ℤ moved_by test ls

-- A plan's effect: the payer's and the payee's balance, and all the other accounts together. Within a leg
-- nothing is made or lost.
pub record IsTransfer (amount : Amount) (from to : String) (plan : List LegPlan) : Type 0 where
  pub paid : moved_by (λ a. str_eq a from) plan ≡ pos 0 -ℤ amount
  pub received : moved_by (λ a. str_eq a to) plan ≡ amount
  pub others : moved_by (λ a. not (str_eq a from) && not (str_eq a to)) plan ≡ pos 0
  pub conserved : All (λ l. moved (λ a. true) l.lines ≡ pos 0) plan

-- The registered accounts are apart from a party's.
abbrev pub IsApart : String → List Settlement → Type 0
IsApart account rows = All (λ s. str_eq s.account_id account ≡ false) rows

settlement_account-apart :
    (rows : List Settlement) (book asset account : String) {settlement : String}
    → IsApart account rows
    → settlement_account rows book asset ≡ ok settlement
    → str_eq settlement account ≡ false
unfolding settlement_account
settlement_account-apart [] book asset account h e = ground arith
settlement_account-apart (s ∷ rows) book asset account h e =
    elim (Bool-cases (str_eq s.book_id book && str_eq s.asset_id asset)) [
      | inl here ↦ ground (arith, h.0)
      | inr later ↦ settlement_account-apart rows book asset account h.1 (rw later at e)
    ]

str_eq_sym : (a b : String) → str_eq a b ≡ false → str_eq b a ≡ false
str_eq_sym a b h = ground (arith, eq_iff a b, eq_iff b a)

check_parties-apart :
    (r : Request) (from to : Party)
    → check_parties r from to ≡ ok tt
    → str_eq from.account_id to.account_id ≡ false
unfolding check_parties
check_parties-apart r from to h = ground arith

-- A transfer whose checks and plan succeed lowers the payer's account by the amount and raises the
-- payee's by it, moves nothing on all other accounts taken together, and conserves value within each
-- leg, so within each book. The registered settlement accounts are not the parties'.
pub plan_transfer-IsTransfer :
    (marshal : List (String × String) → List ℕ) (rows : List Settlement) (r : Request)
    (from to : Party) (t₁ t₂ : String) {plan : List LegPlan}
    → IsApart from.account_id rows
    → IsApart to.account_id rows
    → plan_transfer marshal rows r from to t₁ t₂ ≡ ok plan
    → IsTransfer r.amount_atoms from.account_id to.account_id plan
unfolding plan_transfer single_leg payer_leg payee_leg
plan_transfer-IsTransfer marshal rows r from to t₁ t₂ {plan} f t h =
    let (u₁, e₁, h₁) = >>=-eq-ok (validate_request r) _ h in
    let (u₂, e₂, h₂) = >>=-eq-ok (check_parties r from to) _ h₁ in
    let ft = check_parties-apart r from to e₂ in
    let tf = str_eq_sym from.account_id to.account_id ft in
    elim (plan_legs-cases marshal rows r from to t₁ t₂ h₂) [
      | inl s ↦ rw s.legs (record {
        paid = simp (str_eq_refl, ft, tf) (omega int_laws);
        received = simp (str_eq_refl, ft, tf) (omega int_laws);
        others = simp (str_eq_refl, ft, tf) (omega int_laws);
        conserved = (omega int_laws, tt);
      })
      | inr p ↦
          let pf = settlement_account-apart rows _ _ from.account_id f p.payer_known in
          let qf = settlement_account-apart rows _ _ from.account_id f p.payee_known in
          let pt = settlement_account-apart rows _ _ to.account_id t p.payer_known in
          let qt = settlement_account-apart rows _ _ to.account_id t p.payee_known in
          rw p.legs (record {
            paid = simp (str_eq_refl, ft, tf, pf, qf, pt, qt) (omega int_laws);
            received = simp (str_eq_refl, ft, tf, pf, qf, pt, qt) (omega int_laws);
            others = simp (str_eq_refl, ft, tf, pf, qf, pt, qt) (omega int_laws);
            conserved = (omega int_laws, (omega int_laws, tt));
          })
    ]

-- ===== src/Failuresim/Fraud/Reversal.antt =====
-- What a verdict of fraud does to its payment.
use payment_platform.Common.{
  pos, String, ◌≡◌, refl, ap, ◌∙◌, inl, inr, arith, some, none, true, false, ok, not, ◌^◌, ◌+ℤ◌,
  ◌-ℤ◌, ◌≤ℤ◌, ltb_ℤ, eqb_ℤ, ltb, int_laws, parts, [], ◌∷◌, Result-cases, Bool-cases, str_eq_refl,
  zero_+ℤ, ==_iff, if◌then◌else◌,
}
use payment_platform.Common.Int.{+ℤ_parts}
use payment_platform.Common.Dict.{Dict, lookup, modify, lookup-modify}
use payment_platform.Ledger.Amount.{
  Amount, add, sub, sub-ok, fits_decimal38, magnitude, is_positive, is_negative,
}
use payment_platform.Failuresim.Types.{disputed, no_quorum}
use payment_platform.Failuresim.Hashing.{Primitives}
use payment_platform.Failuresim.World.{World, Payment, RegionState, FraudVerdict, has_quorum}
use payment_platform.Failuresim.Releases.{
  amount_sum, sum_or_zero, add_or_zero, update_state, release_on, charging_back,
}
use payment_platform.Failuresim.Bounds.{IsBounded}
use payment_platform.Failuresim.Book.{post_locked, receipt_of}
use payment_platform.Failuresim.Book.Posts.{post_locked-cases}
use payment_platform.Failuresim.Effects.{add_outbox}
use payment_platform.Failuresim.Credits.{Credit, credit_apply, credit_plan}
use payment_platform.Failuresim.Fraud.{
  TickReply, failed, processed_verdict, close_verdict, charge_back, fraud_credit, fraud_post,
  fraud_plan, fraud_remaining, fraud_payment, fraud_verdict, fraud_event,
}
use Prim.Native.String

add-within :
    (a b total : Amount)
    → pos 0 ≤ℤ a
    → pos 0 ≤ℤ b
    → a +ℤ b ≤ℤ total
    → fits_decimal38 total ≡ true
    → add a b ≡ ok (a +ℤ b)
unfolding add fits_decimal38
add-within a b total h k l m =
    let small : ltb (magnitude (a +ℤ b)) (10 ^ 38) ≡ true = ground (arith, +ℤ_parts a b) in
    rw (small, add) refl

-- What has been released of a payment is summed without overflow.
sum_or_zero-IsBounded :
    (p : Payment)
    → IsBounded p
    → fits_decimal38 p.captured ≡ true
    → sum_or_zero p ≡ p.refunded +ℤ p.reversed +ℤ p.charged_back
unfolding amount_sum
sum_or_zero-IsBounded p b fits =
    let first =
      add-within (pos 0) p.refunded p.captured (omega arith) b.refunds
        (omega (int_laws, b.total, b.reversals, b.chargebacks)) fits in
    let second =
      add-within (pos 0 +ℤ p.refunded) p.reversed p.captured (omega (int_laws, b.refunds))
        b.reversals (omega (int_laws, b.total, b.chargebacks)) fits in
    let third =
      add-within (pos 0 +ℤ p.refunded +ℤ p.reversed) p.charged_back p.captured
        (omega (int_laws, b.refunds, b.reversals)) b.chargebacks (omega (int_laws, b.total)) fits in
    let sum : amount_sum (pos 0) (p.refunded ∷ p.reversed ∷ p.charged_back ∷ [])
        ≡ ok (pos 0 +ℤ p.refunded +ℤ p.reversed +ℤ p.charged_back) =
      simp (first, second, third) in
    rw (sum, sum_or_zero, zero_+ℤ) refl

-- A payment of which nothing is left, in the state that a chargeback leaves.
pub record IsSpent (p : Payment) : Type 0 where
  pub total : p.refunded +ℤ p.reversed +ℤ p.charged_back ≡ p.captured
  pub state : p.state ≡ disputed

same_captured :
    (remaining : Amount) (p : Payment)
    → (update_state (release_on charging_back remaining p)).captured ≡ p.captured
unfolding update_state release_on
same_captured remaining p = refl

charging_back-IsSpent :
    (p : Payment) {remaining : Amount}
    → IsBounded p
    → fits_decimal38 p.captured ≡ true
    → sub p.captured (sum_or_zero p) ≡ ok remaining
    → ltb_ℤ (pos 0) remaining ≡ true
    → IsSpent (update_state (release_on charging_back remaining p))
unfolding update_state release_on
charging_back-IsSpent p {remaining} b fits h positive =
    let e : remaining ≡ p.captured -ℤ (p.refunded +ℤ p.reversed +ℤ p.charged_back) =
      sub-ok p.captured (sum_or_zero p) h
      ∙ ap (λ x. p.captured -ℤ x) (sum_or_zero-IsBounded p b fits) in
    let nonneg : pos 0 ≤ℤ remaining = ground arith in
    let added : add p.charged_back remaining ≡ ok (p.charged_back +ℤ remaining) =
      add-within p.charged_back remaining p.captured b.chargebacks nonneg
        (omega (int_laws, parts e, b.refunds, b.reversals)) fits in
    let grown : is_positive (p.charged_back +ℤ remaining) ≡ true =
      ground (arith, +ℤ_parts p.charged_back remaining, b.chargebacks) in
    record {
      total = rw (added, add_or_zero) (omega (int_laws, parts e));
      state = rw (added, add_or_zero, grown) refl;
    }

-- A verdict of fraud at its turn, and the payment that it reverses.
pub record IsJudged (event : String) (v : FraudVerdict) (p : Payment) (w : World) : Type 0 where
  pub scheduled : lookup event w.fraud_verdicts ≡ some v
  pub fraudulent : v.fraudulent ≡ true
  pub known : lookup v.payment_id w.payments ≡ some p
  pub bounded : IsBounded p
  pub fits : fits_decimal38 p.captured ≡ true

-- The verdict is closed, and nothing of the capture is left to release.
pub record IsReversed (event : String) (v : FraudVerdict) (p : Payment) (w : World) : Type 0 where
  pub closed : lookup event w.fraud_verdicts ≡ some (processed_verdict v)
  pub payment : Payment
  pub kept : lookup v.payment_id w.payments ≡ some payment
  pub same_capture : payment.captured ≡ p.captured
  pub total : payment.refunded +ℤ payment.reversed +ℤ payment.charged_back ≡ payment.captured

-- A reply without failures ends in the reversal.
abbrev Reverses : String → FraudVerdict → Payment → TickReply → Type 0
Reverses event v p reply = reply.1 ≡ [] → IsReversed event v p reply.0

closed_verdict :
    (event : String) (v : FraudVerdict) (m : Dict FraudVerdict)
    → lookup event m ≡ some v
    → lookup event (modify event processed_verdict m) ≡ some (processed_verdict v)
closed_verdict event v m known =
    lookup-modify event event processed_verdict m ∙ simp (str_eq_refl event, known)

module _ (prim : Primitives) (event : String) (v : FraudVerdict) (p : Payment) (w : World)
    (j : IsJudged event v p w)
    (new : lookup (String.◌++◌ "fraud-reversal:" event) w.book.effects ≡ none) where
  fraud_post-Reverses :
      (remaining : Amount) (plan : Amount × Amount)
      → sub p.captured (sum_or_zero p) ≡ ok remaining
      → ltb_ℤ (pos 0) remaining ≡ true
      → Reverses event v p
          (fraud_post prim event v.payment_id (fraud_credit prim event p remaining w) plan w)
  unfolding fraud_post credit_apply close_verdict charge_back add_outbox receipt_of
  fraud_post-Reverses remaining plan h positive =
      let c : Credit = fraud_credit prim event p remaining w in
      elim (Result-cases (post_locked prim c.effect_id c.kind c.fingerprint c.lines w.book)) [
        | inl (e, failed) ↦ rw (failed, fraud_post) (λ k. cc)
        | inr ((book, receipt), e) ↦
            rw (e, fraud_post)
              (elim (post_locked-cases prim c.effect_id c.kind c.fingerprint c.lines w.book e) [
                | inl replayed ↦ ground (arith, replayed.known)
                | inr appended ↦ rw appended.answered (λ k. record {
                  closed = closed_verdict event v w.fraud_verdicts j.scheduled;
                  payment = update_state (release_on charging_back remaining p);
                  kept =
                      lookup-modify v.payment_id v.payment_id
                        (λ x. update_state (release_on charging_back remaining x)) w.payments
                      ∙ simp (str_eq_refl v.payment_id, j.known);
                  same_capture = same_captured remaining p;
                  total = (charging_back-IsSpent p j.bounded j.fits h positive).total;
                })
              ])
      ]

  fraud_remaining-Reverses :
      (remaining : Amount) (s : RegionState)
      → lookup p.region w.regions ≡ some s
      → sub p.captured (sum_or_zero p) ≡ ok remaining
      → is_negative remaining ≡ false
      → Reverses event v p (fraud_remaining prim event v.payment_id p remaining w)
  unfolding fraud_remaining fraud_plan close_verdict
  fraud_remaining-Reverses remaining s home h enough = elim (Bool-cases (eqb_ℤ remaining (pos 0))) [
    | inl nothing ↦
        rw (enough, nothing)
          (λ k. record {
            closed = closed_verdict event v w.fraud_verdicts j.scheduled;
            payment = p;
            kept = j.known;
            same_capture = refl;
            total = omega (
              int_laws,
              parts (
                  sub-ok p.captured (sum_or_zero p) h
                  ∙ ap (λ x. p.captured -ℤ x) (sum_or_zero-IsBounded p j.bounded j.fits)),
              (==_iff _ _).0 nothing,
            );
          })
    | inr something ↦ elim (Result-cases (credit_plan remaining s w)) [
      | inl (e, failed) ↦
          rw (enough, something, home, fraud_remaining, failed, fraud_plan) (λ k. cc)
      | inr (plan, e) ↦
          rw (enough, something, home, fraud_remaining, e, fraud_plan)
            (fraud_post-Reverses remaining plan h (ground arith))
    ]
  ]

  fraud_payment-Reverses :
      (s : RegionState)
      → lookup p.region w.regions ≡ some s
      → Reverses event v p (fraud_payment prim event v.payment_id p w)
  unfolding fraud_payment fraud_remaining
  fraud_payment-Reverses s home = elim (Result-cases (sub p.captured (sum_or_zero p))) [
    | inl (e, failed) ↦ rw (failed, fraud_payment) (λ k. cc)
    | inr (remaining, e) ↦ elim (Bool-cases (is_negative remaining)) [
      | inl negative ↦ rw (e, fraud_payment, negative) (λ k. cc)
      | inr enough ↦ rw (e, fraud_payment) (fraud_remaining-Reverses remaining s home e enough)
    ]
  ]

  fraud_event-eq : fraud_event prim event w ≡ (
      if not (has_quorum w) then failed no_quorum w else fraud_payment prim event v.payment_id p w)
  unfolding fraud_event fraud_verdict
  fraud_event-eq =
      rw (j.scheduled, fraud_event) (simp (j.fraudulent) (rw (j.known, fraud_verdict) refl))

  -- A verdict of fraud that is processed without a failure is closed, and leaves its payment wholly
  -- released: refunds, reversals and chargebacks make up the capture. The payment is known, its region
  -- too, what is released of it is bounded, its capture fits, and the reversal was not posted before.
  pub fraud_event-IsReversed :
      (s : RegionState)
      → lookup p.region w.regions ≡ some s
      → (fraud_event prim event w).1 ≡ []
      → IsReversed event v p (fraud_event prim event w).0
  fraud_event-IsReversed s home = rw fraud_event-eq (elim (Bool-cases (not (has_quorum w))) [
    | inl lost ↦ rw lost (λ k. cc)
    | inr quorum ↦ rw quorum (fraud_payment-Reverses s home)
  ])

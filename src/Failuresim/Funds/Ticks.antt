-- ===== src/Failuresim/Funds/Ticks.antt =====
-- The conservation laws over sagas and late verdicts of fraud.
use payment_platform.Common.{
  ℕ, zero, suc, pos, String, str_eq, ◌||◌, not, refl, inl, inr, Bool-cases, Option-cases,
  Result-cases, arith, List, [], ◌∷◌, eqb_ℤ, ◌==◌, ◌≡◌, some, true, ltb_ℤ, Bool,
}
use payment_platform.Common.Dict.{lookup, get}
use payment_platform.Ledger.Amount.{Amount, is_not_positive, is_negative, sub}
use payment_platform.Failuresim.Types.{Receipt}
use payment_platform.Failuresim.Hashing.{Primitives}
use payment_platform.Failuresim.Book.{post_locked}
use payment_platform.Failuresim.World.{
  World, Payment, RegionState, Saga, FraudVerdict, Reply, done, unheard, refused, has_quorum,
  consume_counter,
}
use payment_platform.Failuresim.Credits.{Credit, credit_plan}
use payment_platform.Failuresim.Releases.{sum_or_zero}
use payment_platform.Failuresim.Sagas.{
  start_saga, same_saga, save_step, after_pay, committed_despite, saga_step, advance_saga, saga_key,
}
use payment_platform.Failuresim.Fraud.{
  schedule_fraud_verdict, same_verdict, close_verdict, charge_back, fraud_credit, fraud_post,
  fraud_plan, fraud_remaining, fraud_payment, fraud_verdict, fraud_event, fraud_events,
  advance_logical_ticks,
}
use payment_platform.Failuresim.Funds.{Funded}
use payment_platform.Failuresim.Funds.Payments.{pay-Funded}
use payment_platform.Failuresim.Funds.Effects.{IsForeign-letter}
use payment_platform.Failuresim.Funds.Lines.{release_lines-IsShift}
use payment_platform.Failuresim.Funds.Credits.{credit_plan-ok, credit_apply-Funded}

module _ (prim : Primitives) where
  pub start_saga-Funded :
      (saga_id region operation : String) (amount : Amount) (w : World)
      → Funded prim w
      → Funded prim (start_saga saga_id region operation amount w).0
  unfolding start_saga
  start_saga-Funded saga_id region operation amount w v =
      elim (Bool-cases (str_eq saga_id "" || (str_eq operation "" || is_not_positive amount))) [
        | inl bad ↦ rw bad v
        | inr good ↦ elim (Option-cases (lookup saga_id w.sagas)) [
          | inl new ↦ rw (good, new, start_saga) v
          | inr (s, known) ↦ elim (Bool-cases (same_saga region operation amount s)) [
            | inl same ↦ rw (good, known, start_saga, same) v
            | inr other ↦ rw (good, known, start_saga, other) v
          ]
        ]
      ]

  save_step-Funded :
      (saga_id : String) (s : Saga) (r : Receipt) (w : World)
      → Funded prim w
      → Funded prim (save_step saga_id s r w).0
  unfolding save_step consume_counter
  save_step-Funded saga_id s r w v =
      elim (Bool-cases (get 0 saga_id w.coordinator_crash_after == 0)) [
        | inl quiet ↦ rw quiet v
        | inr armed ↦ rw armed v
      ]

  after_pay-Funded :
      (saga_id : String) (s : Saga) (reply : Reply)
      → Funded prim reply.0
      → Funded prim (after_pay saga_id s reply).0
  unfolding after_pay
  after_pay-Funded saga_id s (w, done r) v = save_step-Funded saga_id s r w v
  after_pay-Funded saga_id s (w, unheard e r) v = elim (Bool-cases (committed_despite e)) [
    | inl committed ↦ rw committed (save_step-Funded saga_id s r w v)
    | inr failed ↦ rw failed v
  ]
  after_pay-Funded saga_id s (w, refused e) v = elim (Bool-cases (committed_despite e)) [
    | inl committed ↦ rw committed (save_step-Funded saga_id s _ w v)
    | inr failed ↦ rw failed v
  ]

  saga_step-Funded :
      (n : ℕ) (saga_id : String) (s : Saga) (w : World)
      → Funded prim w
      → Funded prim (saga_step prim n saga_id s w).0
  unfolding saga_step
  saga_step-Funded zero saga_id s w v =
      after_pay-Funded saga_id s _
        (pay-Funded prim s.region (saga_key saga_id) s.operation_id s.amount w v)
  saga_step-Funded (suc zero) saga_id s w v = v
  saga_step-Funded (suc (suc n)) saga_id s w v = v

  pub advance_saga-Funded :
      (saga_id : String) (w : World) → Funded prim w → Funded prim (advance_saga prim saga_id w).0
  unfolding advance_saga
  advance_saga-Funded saga_id w v = elim (Bool-cases (not w.coordinator_running)) [
    | inl down ↦ rw down v
    | inr running ↦ elim (Option-cases (lookup saga_id w.sagas)) [
      | inl unknown ↦ rw (running, unknown, advance_saga) v
      | inr (s, known) ↦
          rw (running, known, advance_saga) (saga_step-Funded s.next_step saga_id s w v)
    ]
  ]

  pub schedule_fraud_verdict-Funded :
      (event payment : String) (fraudulent : Bool) (delay : ℕ) (w : World)
      → Funded prim w
      → Funded prim (schedule_fraud_verdict event payment fraudulent delay w).0
  unfolding schedule_fraud_verdict
  schedule_fraud_verdict-Funded event payment fraudulent delay w v =
      elim (Bool-cases (str_eq event "" || str_eq payment "")) [
        | inl bad ↦ rw bad v
        | inr good ↦ elim (Option-cases (lookup payment w.payments)) [
          | inl missing ↦ rw (good, missing, schedule_fraud_verdict) v
          | inr (p, e) ↦ elim (Option-cases (lookup event w.fraud_verdicts)) [
            | inl new ↦ rw (good, e, schedule_fraud_verdict, new) v
            | inr (old, known) ↦ elim (Bool-cases (same_verdict payment fraudulent old)) [
              | inl same ↦ rw (good, e, schedule_fraud_verdict, known, same) v
              | inr other ↦ rw (good, e, schedule_fraud_verdict, known, other) v
            ]
          ]
        ]
      ]

  fraud_plan-Funded :
      (event payment : String) (p : Payment) (remaining : Amount) (s : RegionState) (w : World)
      → lookup p.region w.regions ≡ some s
      → ltb_ℤ (pos 0) remaining ≡ true
      → Funded prim w
      → Funded prim (fraud_plan prim event payment (fraud_credit prim event p remaining w) s w).0
  unfolding fraud_plan fraud_post close_verdict charge_back
  fraud_plan-Funded event payment p remaining s w known positive v =
      let c : Credit = fraud_credit prim event p remaining w in
      elim (Result-cases (credit_plan remaining s w)) [
        | inl (e, failed) ↦ rw (failed, fraud_plan) v
        | inr (plan, e) ↦
            elim (Result-cases (post_locked prim c.effect_id c.kind c.fingerprint c.lines w.book)) [
              | inl (e', failed) ↦ rw (e, fraud_plan, failed, fraud_post) v
              | inr (posted, e') ↦
                  rw (e, fraud_plan, e', fraud_post)
                    (credit_apply-Funded prim c (charge_back payment remaining) (λ u h. h) s w known
                      positive (IsForeign-letter "f" "raud-reversal:" event refl refl)
                      (release_lines-IsShift w p.region remaining) v plan
                      (credit_plan-ok remaining s w e) e')
            ]
      ]

  fraud_payment-Funded :
      (event payment : String) (p : Payment) (w : World)
      → Funded prim w
      → Funded prim (fraud_payment prim event payment p w).0
  unfolding fraud_payment fraud_remaining close_verdict
  fraud_payment-Funded event payment p w v = elim (Result-cases (sub p.captured (sum_or_zero p))) [
    | inl (e, failed) ↦ rw (failed, fraud_payment) v
    | inr (remaining, e) ↦ elim (Bool-cases (is_negative remaining)) [
      | inl negative ↦ rw (e, fraud_payment, negative) v
      | inr enough ↦ elim (Bool-cases (eqb_ℤ remaining (pos 0))) [
        | inl nothing ↦ rw (e, fraud_payment, enough, nothing) v
        | inr something ↦ elim (Option-cases (lookup p.region w.regions)) [
          | inl missing ↦ rw (e, fraud_payment, enough, something, missing, fraud_remaining) v
          | inr (s, known) ↦
              rw (e, fraud_payment, enough, something, known, fraud_remaining)
                (fraud_plan-Funded event payment p remaining s w known (ground arith) v)
        ]
      ]
    ]
  ]

  fraud_verdict-Funded :
      (event : String) (x : FraudVerdict) (w : World)
      → Funded prim w
      → Funded prim (fraud_verdict prim event x w).0
  unfolding fraud_verdict close_verdict
  fraud_verdict-Funded event x w v = elim (Bool-cases (not x.fraudulent)) [
    | inl honest ↦ rw honest v
    | inr fraud ↦ elim (Bool-cases (not (has_quorum w))) [
      | inl lost ↦ rw (fraud, lost) v
      | inr quorum ↦ elim (Option-cases (lookup x.payment_id w.payments)) [
        | inl missing ↦ rw (fraud, quorum, missing, fraud_verdict) v
        | inr (p, e) ↦
            rw (fraud, quorum, e, fraud_verdict) (fraud_payment-Funded event x.payment_id p w v)
      ]
    ]
  ]

  fraud_events-Funded :
      (events : List String) (w : World)
      → Funded prim w
      → Funded prim (fraud_events prim events w).0
  unfolding fraud_events fraud_event
  fraud_events-Funded [] w v = v
  fraud_events-Funded (event ∷ events) w v =
      fraud_events-Funded events _ (elim (Option-cases (lookup event w.fraud_verdicts)) [
        | inl unknown ↦ rw (unknown, fraud_event) v
        | inr (x, e) ↦ rw (e, fraud_event) (fraud_verdict-Funded event x w v)
      ])

  pub advance_logical_ticks-Funded :
      (ticks : ℕ) (w : World) → Funded prim w → Funded prim (advance_logical_ticks prim ticks w).0
  unfolding advance_logical_ticks
  advance_logical_ticks-Funded ticks w v = fraud_events-Funded _ _ v

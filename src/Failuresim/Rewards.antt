-- ===== src/Failuresim/Rewards.antt =====
-- internal/failuresim/operations.go: what `GrantCashback` pays an operation stays within its rule.
use payment_platform.Common.{
  ℕ, String, str_eq, eq_iff, ◌≡◌, refl, sym, ap, ◌∙◌, ◌⊎◌, inl, inr, arith, none, some, ok, pos,
  ◌+ℤ◌, ◌≤ℤ◌, ◌==◌, ◌||◌, Bool-cases, Option-cases, Result-cases,
}
use payment_platform.Common.Int.{eq_of_parts}
use payment_platform.Common.Dict.{lookup, get, get-insert, lookup-insert}
use payment_platform.Ledger.Amount.{Amount, add, add-ok, is_not_positive, is_negative}
use payment_platform.Failuresim.Types.{Receipt}
use payment_platform.Failuresim.Hashing.{Primitives}
use payment_platform.Failuresim.Book.{Book, post_locked}
use payment_platform.Failuresim.World.{World, RegionState, fence_of, require_writer}
use payment_platform.Failuresim.Effects.{
  as_writer, once, remember, replay_effect, replay_known, replay_key, add_outbox,
}
use payment_platform.Failuresim.Credits.{
  Credit, credit_plan, credit_apply, credit_finish, credit_post, credit_fresh,
}
use payment_platform.Failuresim.Cashback.{
  cashback_also, cashback_check, cashback_credit, cashback_fresh, cashback_body, grant_cashback,
}

-- No operation has been paid more than its rule; a missing one counts as 0 in both maps.
abbrev pub IsWithinRules : World → Type 0
IsWithinRules w =
    (operation : String)
    → get (pos 0) operation w.cashback_paid ≤ℤ get (pos 0) operation w.cashback_rules

-- What a grant may change: the sum of its own operation, by its amount and within the rule.
pub record IsRewarded (operation : String) (amount : Amount) (w w' : World) : Type 0 where
  pub within : IsWithinRules w'
  pub rules_stand :
      (other : String)
      → (lookup other w.cashback_rules ≡ none)
        ⊎ (lookup other w'.cashback_rules ≡ lookup other w.cashback_rules)
  pub growth :
      (other : String)
      → (get (pos 0) other w'.cashback_paid ≡ get (pos 0) other w.cashback_paid)
        ⊎ ((other ≡ operation)
            × (get (pos 0) other w'.cashback_paid ≡ get (pos 0) other w.cashback_paid +ℤ amount))

module _ (operation : String) (amount rule : Amount) where
  unrewarded :
      (w w' : World)
      → w'.cashback_paid ≡ w.cashback_paid
      → w'.cashback_rules ≡ w.cashback_rules
      → IsWithinRules w
      → IsRewarded operation amount w w'
  unrewarded w w' paid rules h = record {
    within = λ other. rw (paid, rules) (h other);
    rules_stand = λ other. inr (rw rules refl);
    growth = λ other. inl (rw paid refl);
  }

  -- A check that passes.
  record IsChecked (w : World) (paid : Amount) : Type 0 where
    total : paid ≡ get (pos 0) operation w.cashback_paid +ℤ amount
    bounded : paid ≤ℤ rule
    ruled :
        (lookup operation w.cashback_rules ≡ none) ⊎ (lookup operation w.cashback_rules ≡ some rule)

  cashback_check-IsChecked :
      (w : World) {paid : Amount}
      → cashback_check operation amount rule w ≡ ok paid
      → IsChecked w paid
  unfolding cashback_check
  cashback_check-IsChecked w {paid} h =
      elim (Result-cases (add (get (pos 0) operation w.cashback_paid) amount)) [
        | inl (e, failed) ↦ ground arith
        | inr (sum, e) ↦
            let m = add-ok (get (pos 0) operation w.cashback_paid) amount e in
            record {
              total = ground (arith, m);
              bounded = ground arith;
              ruled = elim (Option-cases (lookup operation w.cashback_rules)) [
                | inl new ↦ inl new
                | inr (old, known) ↦
                    inr (known ∙ ap some (eq_of_parts old rule (ground (arith, known))))
              ];
            }
      ]

  -- The maps after a grant.
  also-IsRewarded :
      (w w' : World) (paid : Amount)
      → IsChecked w paid
      → w'.cashback_paid ≡ (cashback_also operation rule paid w).cashback_paid
      → w'.cashback_rules ≡ (cashback_also operation rule paid w).cashback_rules
      → IsWithinRules w
      → IsRewarded operation amount w w'
  unfolding cashback_also
  also-IsRewarded w w' paid c p r h = record {
    within = λ other.
        rw (p, r, get-insert, get-insert)
          (elim (Bool-cases (str_eq operation other)) [
            | inl own ↦ rw own (c.bounded)
            | inr differ ↦ rw differ (h other)
          ]);
    rules_stand = λ other. elim (Bool-cases (str_eq operation other)) [
      | inl own ↦ elim c.ruled [
        | inl new ↦ inl (rw (← ((eq_iff operation other).0 own)) new)
        | inr known ↦
            inr (rw (r, lookup-insert, own) (rw (← ((eq_iff operation other).0 own)) (sym known)))
      ]
      | inr differ ↦ inr (rw (r, lookup-insert, differ) refl)
    ];
    growth = λ other. elim (Bool-cases (str_eq operation other)) [
      | inl own ↦
          let same = (eq_iff operation other).0 own in
          inr (sym same, rw (p, get-insert, own) (rw (← same) c.total))
      | inr differ ↦ inl (rw (p, get-insert, differ) refl)
    ];
  }

module _ (prim : Primitives) (operation : String) (amount rule : Amount) where
  credit_apply-IsRewarded :
      (region kind payload : String) (plan : Amount × Amount) (book : Book)
      (receipt answer : Receipt) (key : String) (fingerprint : ℕ) (paid : Amount) (w : World)
      → IsChecked operation amount rule w paid
      → IsWithinRules w
      → IsRewarded operation amount w (
          remember key fingerprint answer (
            credit_apply region kind payload plan
              (cashback_also operation rule paid)
              book
              receipt
              w))
  unfolding credit_apply add_outbox cashback_also remember
  credit_apply-IsRewarded region kind payload plan book receipt answer key fingerprint paid w c h =
      elim (Bool-cases (receipt.duplicate)) [
        | inl again ↦ rw again (unrewarded operation amount rule w _ refl refl h)
        | inr first ↦ rw first (also-IsRewarded operation amount rule w _ paid c refl refl h)
      ]

  cashback_fresh-IsRewarded :
      (c : Credit) (state : RegionState) (w : World)
      → c.amount ≡ amount
      → IsWithinRules w
      → IsRewarded operation amount w (cashback_fresh prim c operation rule state w).0
  unfolding cashback_fresh credit_fresh credit_post credit_finish
  cashback_fresh-IsRewarded c state w same h =
      elim (Result-cases (cashback_check operation c.amount rule w)) [
        | inl (e, failed) ↦
            rw (failed, cashback_fresh) (unrewarded operation amount rule w w refl refl h)
        | inr (paid, e) ↦
            let checked = cashback_check-IsChecked operation amount rule w (rw same at e) in
            elim (Result-cases (credit_plan c.amount state w)) [
              | inl (e', failed) ↦
                  rw (e, cashback_fresh, failed, credit_fresh)
                    (unrewarded operation amount rule w w refl refl h)
              | inr (plan, e') ↦
                  elim (Result-cases
                    (post_locked prim c.effect_id c.kind c.fingerprint c.lines w.book)) [
                      | inl (e'', failed) ↦
                          rw (e, cashback_fresh, e', credit_fresh, failed, credit_post)
                            (unrewarded operation amount rule w w refl refl h)
                      | inr (posted, e'') ↦
                          rw (e, cashback_fresh, e', credit_fresh, e'', credit_post)
                            (credit_apply-IsRewarded c.region c.message_kind c.payload plan posted.0
                              posted.1 _ c.key c.fingerprint paid w checked h)
                    ]
            ]
      ]

  once-IsRewarded :
      (c : Credit) (state : RegionState) (w : World)
      → c.amount ≡ amount
      → IsWithinRules w
      → IsRewarded operation amount w
          (once c.effect_id c.fingerprint c.key
            (replay_key c.fingerprint)
            (cashback_fresh prim c operation rule state)
            w).0
  unfolding once replay_key replay_effect replay_known remember
  once-IsRewarded c state w same h = elim (Option-cases (lookup c.key w.idempotency)) [
    | inr (seen, e) ↦ elim (Bool-cases (seen.request_hash == c.fingerprint)) [
      | inl one ↦ rw (e, once, one) (unrewarded operation amount rule w w refl refl h)
      | inr other ↦ rw (e, once, other) (unrewarded operation amount rule w w refl refl h)
    ]
    | inl new ↦ elim (Option-cases (lookup c.effect_id w.book.effects)) [
      | inl fresh ↦
          rw (new, once, fresh, replay_effect) (cashback_fresh-IsRewarded c state w same h)
      | inr (effect, e) ↦ elim (Bool-cases (effect.fingerprint == c.fingerprint)) [
        | inl one ↦
            rw (new, once, e, replay_effect, one) (unrewarded operation amount rule w _ refl refl h)
        | inr other ↦
            rw (new, once, e, replay_effect, other)
              (unrewarded operation amount rule w w refl refl h)
      ]
    ]
  ]

  -- A grant of cashback, whatever becomes of it, keeps what every operation has been paid within its rule,
  -- leaves each rule that stands as it is, and raises the sum of no operation but its own, by nothing or by
  -- its amount.
  pub grant_cashback-IsRewarded :
      (region key effect : String) (w : World)
      → IsWithinRules w
      → IsRewarded operation amount w
          (grant_cashback prim region key effect operation amount rule w).0
  unfolding grant_cashback as_writer cashback_body
  grant_cashback-IsRewarded region key effect w h =
      let c = cashback_credit prim region key effect operation amount rule w in
      elim (Result-cases (fence_of region w)) [
        | inl (e, failed) ↦
            rw (failed, as_writer) (unrewarded operation amount rule w w refl refl h)
        | inr (f, e) ↦ elim (Result-cases (require_writer f w)) [
          | inl (e', failed) ↦
              rw (e, as_writer, failed) (unrewarded operation amount rule w w refl refl h)
          | inr (state, e') ↦
              elim (Bool-cases (
                str_eq key ""
                || (str_eq effect ""
                    || (str_eq operation "" || (is_not_positive amount || is_negative rule))))) [
                      | inl bad ↦
                          rw (e, as_writer, e', bad)
                            (unrewarded operation amount rule w w refl refl h)
                      | inr good ↦ rw (e, as_writer, e', good) (once-IsRewarded c state w refl h)
                    ]
        ]
      ]

-- ===== src/Failuresim/Funds/Operations.antt =====
-- `Deposit`, `releaseCapture` and `GrantCashback` keep the conservation laws.
use payment_platform.Common.{String, str_eq, refl, inl, inr, Bool-cases, Result-cases, arith, ◌||◌}
use payment_platform.Common.Dict.{lookup}
use payment_platform.Ledger.Amount.{Amount, is_not_positive, is_negative}
use payment_platform.Failuresim.Hashing.{Primitives}
use payment_platform.Failuresim.World.{World, Reply}
use payment_platform.Failuresim.Effects.{once, replay_key}
use payment_platform.Failuresim.Credits.{Credit, deposit_credit, deposit_body, deposit}
use payment_platform.Failuresim.Releases.{
  ReleaseKind, release_also, release_credit, release_fresh, release_body, release_check,
  release_capture,
}
use payment_platform.Failuresim.Cashback.{
  cashback_also, cashback_check, cashback_credit, cashback_fresh, cashback_body, grant_cashback,
}
use payment_platform.Failuresim.Funds.{Funded}
use payment_platform.Failuresim.Funds.Frames.{once-Funded, replay_key-Funded, as_writer-Funded}
use payment_platform.Failuresim.Funds.Effects.{IsForeign-letter, IsForeign-release}
use payment_platform.Failuresim.Funds.Lines.{
  deposit_lines-IsShift, release_lines-IsShift, cashback_lines-IsShift,
}
use payment_platform.Failuresim.Funds.Credits.{credit_fresh-Funded}

module _ (prim : Primitives) where
  -- A credit behind its key and its effect keeps the laws if its fresh run does.
  once_credit-Funded :
      (c : Credit) (fresh : World → Reply) (w : World)
      → Funded prim w
      → Funded prim (fresh w).0
      → Funded prim (once c.effect_id c.fingerprint c.key (replay_key c.fingerprint) fresh w).0
  once_credit-Funded c fresh w v u =
      once-Funded prim c.effect_id c.fingerprint c.key (replay_key c.fingerprint) fresh w v
        (λ known. replay_key-Funded prim c.fingerprint w known v) u

  -- A deposit keeps the conservation laws, however it ends.
  pub deposit-Funded :
      (region key operation : String) (amount : Amount) (w : World)
      → Funded prim w
      → Funded prim (deposit prim region key operation amount w).0
  unfolding deposit deposit_body
  deposit-Funded region key operation amount w v = as_writer-Funded prim region _ w v λ s known.
      elim (Bool-cases (str_eq key "" || (str_eq operation "" || is_not_positive amount))) [
        | inl bad ↦ rw bad v
        | inr good ↦ rw good (
            once_credit-Funded (deposit_credit prim region key operation amount w) _ w v (
              credit_fresh-Funded prim (deposit_credit prim region key operation amount w) (λ u. u)
                (λ u h. h) s w known (ground arith)
                (IsForeign-letter "d" "eposit:" operation refl refl)
                (deposit_lines-IsShift w region amount) v))
      ]

  -- A refund, a reversal and a chargeback keep the conservation laws, however they end.
  pub release_capture-Funded :
      (kind : ReleaseKind) (region key release payment : String) (amount : Amount) (w : World)
      → Funded prim w
      → Funded prim (release_capture prim kind region key release payment amount w).0
  unfolding release_capture release_body release_fresh release_also
  release_capture-Funded kind region key release payment amount w v =
      as_writer-Funded prim region _ w v λ s known.
        elim (Bool-cases
          (str_eq key "" || (str_eq release "" || (str_eq payment "" || is_not_positive amount)))) [
            | inl bad ↦ rw bad v
            | inr good ↦ rw good (
                once_credit-Funded credit _ w v
                  (elim (Result-cases (release_check amount (lookup payment w.payments))) [
                    | inl (e, failed) ↦ rw (failed, release_fresh) v
                    | inr (u, e) ↦
                        rw (e, release_fresh)
                          (credit_fresh-Funded prim credit
                            (release_also kind release payment amount) (λ u h. h) s w known
                            (ground arith) (IsForeign-release kind release)
                            (release_lines-IsShift w region amount) v)
                  ]))
          ]
    where
      credit : Credit
      credit = release_credit prim kind region key release payment amount w

  -- A cashback keeps the conservation laws, however it ends.
  pub grant_cashback-Funded :
      (region key effect operation : String) (amount rule : Amount) (w : World)
      → Funded prim w
      → Funded prim (grant_cashback prim region key effect operation amount rule w).0
  unfolding grant_cashback cashback_body cashback_fresh cashback_also
  grant_cashback-Funded region key effect operation amount rule w v =
      as_writer-Funded prim region _ w v λ s known.
        elim (Bool-cases (
          str_eq key ""
          || (str_eq effect ""
              || (str_eq operation "" || (is_not_positive amount || is_negative rule))))) [
                | inl bad ↦ rw bad v
                | inr good ↦ rw good (
                    once_credit-Funded credit _ w v
                      (elim (Result-cases (cashback_check operation amount rule w)) [
                        | inl (e, failed) ↦ rw (failed, cashback_fresh) v
                        | inr (paid, e) ↦
                            rw (e, cashback_fresh)
                              (credit_fresh-Funded prim credit (cashback_also operation rule paid)
                                (λ u h. h) s w known (ground arith)
                                (IsForeign-letter "c" "ashback:" effect refl refl)
                                (cashback_lines-IsShift w region amount) v)
                      ]))
              ]
    where
      credit : Credit
      credit = cashback_credit prim region key effect operation amount rule w

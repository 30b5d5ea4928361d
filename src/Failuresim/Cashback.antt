-- ===== src/Failuresim/Cashback.antt =====
-- internal/failuresim/operations.go: `GrantCashback`.
use payment_platform.Common.{
  String, str_eq, false, ◌||◌, none, some, [], ◌∷◌, Result, ok, err, ◌>>=◌, ◌>>◌, fail_if, lift,
  pos, ltb_ℤ, eqb_ℤ, not, if◌then◌else◌,
}
use payment_platform.Common.Dict.{lookup, insert, get}
use payment_platform.Ledger.Amount.{
  Amount, add, is_not_positive, is_negative, invalid_posting, to_string,
}
use payment_platform.Failuresim.Types.{
  Error, ledger_error, effect_conflict, cashback_exceeded, user_account, cashback_expense_account,
  authority_issuer_account,
}
use payment_platform.Failuresim.Hashing.{Primitives, request_fingerprint}
use payment_platform.Failuresim.World.{World, refused, Reply, RegionState}
use payment_platform.Failuresim.Effects.{once, as_writer, replay_key}
use Prim.Native.String
use payment_platform.Failuresim.Credits.{Credit, credit_lines, credit_fresh}

unfoldable pub cashback_also : String → Amount → Amount → World → World
cashback_also operation rule paid w = record w {
  cashback_rules = insert operation rule w.cashback_rules;
  cashback_paid = insert operation paid w.cashback_paid;
}

-- The rule of an operation does not change, and what is paid stays within it.
unfoldable pub cashback_check : String → Amount → Amount → World → Result Error Amount
cashback_check operation amount rule w = do
  fail_if
      (elim (lookup operation w.cashback_rules) [ none ↦ false | some old ↦ not (eqb_ℤ old rule) ])
      effect_conflict
  paid ← lift (λ _. cashback_exceeded) (add (get (pos 0) operation w.cashback_paid) amount)
  fail_if (ltb_ℤ rule paid) cashback_exceeded
  ok paid

module _ (prim : Primitives) where
  abbrev pub cashback_credit : String → String → String → String → Amount → Amount → World → Credit
  cashback_credit region key effect operation amount rule w = record {
    region = region;
    key = key;
    effect_id = String.◌++◌ "cashback:" effect;
    kind = "CASHBACK";
    fingerprint =
        request_fingerprint prim
          ("CASHBACK" ∷ effect ∷ operation ∷ to_string amount ∷ to_string rule ∷ []);
    amount = amount;
    lines =
        credit_lines w cashback_expense_account user_account authority_issuer_account region amount;
    message_kind = "CASHBACK_GRANTED";
    payload = effect;
  }

  unfoldable pub cashback_fresh : Credit → String → Amount → RegionState → World → Reply
  cashback_fresh c operation rule state w = elim (cashback_check operation c.amount rule w) [
    | err e ↦ (w, refused e)
    | ok paid ↦ credit_fresh prim c (cashback_also operation rule paid) state w
  ]

  unfoldable pub cashback_body : Credit → String → String → Amount → RegionState → World → Reply
  cashback_body c effect operation rule state w =
      if str_eq c.key ""
        || (str_eq effect ""
            || (str_eq operation "" || (is_not_positive c.amount || is_negative rule)))
      then (w, refused (ledger_error invalid_posting))
      else once c.effect_id c.fingerprint c.key (replay_key c.fingerprint)
          (cashback_fresh c operation rule state) w

  unfoldable pub grant_cashback :
      String → String → String → String → Amount → Amount → World → Reply
  grant_cashback region key effect operation amount rule w =
      as_writer region
        (cashback_body (cashback_credit region key effect operation amount rule w) effect operation
          rule)
        w

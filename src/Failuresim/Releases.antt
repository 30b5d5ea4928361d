-- ===== src/Failuresim/Releases.antt =====
-- internal/failuresim/operations.go: `Refund`, `Reverse` and `Chargeback`, by `releaseCapture`.
use payment_platform.Common.{
  String, str_eq, ◌||◌, Option, none, some, List, [], ◌∷◌, Result, ok, err, ◌>>=◌, fail_if, lift,
  pos, ltb_ℤ, eqb_ℤ, if◌then◌else◌, ◌&&◌,
}
use payment_platform.Common.Dict.{Dict, lookup, insert, modify}
use payment_platform.Ledger.Amount.{
  Amount, LedgerError, add, is_not_positive, is_positive, invalid_posting, to_string,
}
use payment_platform.Failuresim.Types.{
  Error, ledger_error, payment_not_found, refund_exceeded, captured, partially_refunded, refunded,
  reversed, disputed, user_account, merchant_account, authority_consumed_account,
}
use payment_platform.Failuresim.Hashing.{Primitives, request_fingerprint}
use payment_platform.Failuresim.World.{World, refused, Reply, RegionState, Payment}
use payment_platform.Failuresim.Effects.{once, as_writer, replay_key}
use Prim.Native.String
use payment_platform.Failuresim.Credits.{Credit, credit_lines, credit_fresh}

-- The released part of a payment, `amountSum` in the source's order.
unfoldable pub amount_sum : Amount → List Amount → Result LedgerError Amount
amount_sum total [] = ok total
amount_sum total (a ∷ rest) = add total a >>= λ t. amount_sum t rest

-- The three releases of a captured payment.
pub data ReleaseKind : Type 0 where
  refunding reversing charging_back : ReleaseKind

abbrev pub kind_text : ReleaseKind → String
kind_text refunding = "REFUND"
kind_text reversing = "REVERSAL"
kind_text charging_back = "CHARGEBACK"

-- `payment.refunded, _ = payment.refunded.Add(amount)`: a sum that is refused reads as zero.
abbrev pub add_or_zero : Amount → Amount → Amount
add_or_zero a b = elim (add a b) [ ok c ↦ c | err _ ↦ pos 0 ]

abbrev pub sum_or_zero : Payment → Amount
sum_or_zero p = elim (amount_sum (pos 0) (p.refunded ∷ p.reversed ∷ p.charged_back ∷ [])) [
  | ok c ↦ c
  | err _ ↦ pos 0
]

-- `updateState`
unfoldable pub update_state : Payment → Payment
update_state p = record p {
  state =
      if is_positive p.charged_back
      then disputed
      else if is_positive p.reversed && eqb_ℤ (sum_or_zero p) p.captured
      then reversed
      else if eqb_ℤ p.refunded p.captured
      then refunded
      else if is_positive (sum_or_zero p)
      then partially_refunded
      else captured;
}

unfoldable pub release_on : ReleaseKind → Amount → Payment → Payment
release_on refunding amount p = record p { refunded = add_or_zero p.refunded amount }
release_on reversing amount p = record p { reversed = add_or_zero p.reversed amount }
release_on charging_back amount p = record p { charged_back = add_or_zero p.charged_back amount }

record_refund : ReleaseKind → String → Amount → Dict Amount → Dict Amount
record_refund refunding release amount refunds = insert release amount refunds
record_refund _ release amount refunds = refunds

unfoldable pub release_also : ReleaseKind → String → String → Amount → World → World
unfolding record_refund
release_also kind release payment amount w = record w {
  payments = modify payment (λ p. update_state (release_on kind amount p)) w.payments;
  refunds = record_refund kind release amount w.refunds;
}

-- The release is bounded by what is left of the capture.
unfoldable pub release_check : Amount → Option Payment → Result Error (Unit {0})
release_check amount none = err payment_not_found
release_check amount (some p) = do
  released ←
      lift (λ _. refund_exceeded)
        (amount_sum (pos 0) (p.refunded ∷ p.reversed ∷ p.charged_back ∷ amount ∷ []))
  fail_if (ltb_ℤ p.captured released) refund_exceeded

module _ (prim : Primitives) where
  abbrev pub release_credit :
      ReleaseKind → String → String → String → String → Amount → World → Credit
  release_credit kind region key release payment amount w = record {
    region = region;
    key = key;
    effect_id = String.◌++◌ (kind_text kind) (String.◌++◌ ":" release);
    kind = kind_text kind;
    fingerprint =
        request_fingerprint prim (kind_text kind ∷ release ∷ payment ∷ to_string amount ∷ []);
    amount = amount;
    lines = credit_lines w merchant_account user_account authority_consumed_account region amount;
    message_kind = String.◌++◌ (kind_text kind) "_CONFIRMED";
    payload = String.◌++◌ (kind_text kind) (String.◌++◌ ":" release);
  }

  unfoldable pub release_fresh :
      Credit → ReleaseKind → String → String → RegionState → World → Reply
  release_fresh c kind release payment state w =
      elim (release_check c.amount (lookup payment w.payments)) [
        | err e ↦ (w, refused e)
        | ok _ ↦ credit_fresh prim c (release_also kind release payment c.amount) state w
      ]

  unfoldable pub release_body : Credit → ReleaseKind → String → String → RegionState → World → Reply
  release_body c kind release payment state w =
      if str_eq c.key "" || (str_eq release "" || (str_eq payment "" || is_not_positive c.amount))
      then (w, refused (ledger_error invalid_posting))
      else once c.effect_id c.fingerprint c.key (replay_key c.fingerprint)
          (release_fresh c kind release payment state) w

  unfoldable pub release_capture :
      ReleaseKind → String → String → String → String → Amount → World → Reply
  release_capture kind region key release payment amount w =
      as_writer region
        (release_body (release_credit kind region key release payment amount w) kind release
          payment)
        w

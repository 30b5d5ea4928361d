-- ===== src/Failuresim/Funds/Accounts.antt =====
-- The accounts of the regions differ from one another and from the fixed accounts.
use payment_platform.Common.{String, str_eq, eq_iff, ◌≡◌, ap, ◌∙◌, false, arith, refl}
use payment_platform.Failuresim.World.{regional_account}
use payment_platform.Failuresim.Types.{
  user_account, merchant_account, funding_account, cashback_expense_account,
  authority_issuer_account, authority_consumed_account, authority_transit_account,
  authority_unallocated_account,
}
use Prim.Native.String.{slice, len}
use Prim.Native.String
use text.Mathlib.TextLemmas.{append_cancel_left}
use text.Mathlib.TextPositions.{slice-append_left}

abbrev prefix : String
prefix = "authority:region:"

regional_ne :
    (r x : String) → str_eq prefix (slice x 0 17) ≡ false → str_eq (regional_account r) x ≡ false
unfolding regional_account
regional_ne r x h = ground (
  arith,
  eq_iff (String.◌++◌ prefix r) x,
  eq_iff prefix (slice x 0 17),
  ap (λ s. slice s 0 17),
  slice-append_left prefix r,
)

str_eq_comm : (a b : String) → str_eq a b ≡ str_eq b a
str_eq_comm a b = ground (arith, eq_iff a b, eq_iff b a)

pub regional-user : (r : String) → str_eq (regional_account r) user_account ≡ false
regional-user r = regional_ne r user_account refl

pub user-regional : (r : String) → str_eq user_account (regional_account r) ≡ false
user-regional r = str_eq_comm user_account (regional_account r) ∙ regional-user r

pub regional-merchant : (r : String) → str_eq (regional_account r) merchant_account ≡ false
regional-merchant r = regional_ne r merchant_account refl

pub merchant-regional : (r : String) → str_eq merchant_account (regional_account r) ≡ false
merchant-regional r = str_eq_comm merchant_account (regional_account r) ∙ regional-merchant r

pub regional-funding : (r : String) → str_eq (regional_account r) funding_account ≡ false
regional-funding r = regional_ne r funding_account refl

pub funding-regional : (r : String) → str_eq funding_account (regional_account r) ≡ false
funding-regional r = str_eq_comm funding_account (regional_account r) ∙ regional-funding r

pub regional-cashback_expense :
    (r : String) → str_eq (regional_account r) cashback_expense_account ≡ false
regional-cashback_expense r = regional_ne r cashback_expense_account refl

pub cashback_expense-regional :
    (r : String) → str_eq cashback_expense_account (regional_account r) ≡ false
cashback_expense-regional r =
    str_eq_comm cashback_expense_account (regional_account r) ∙ regional-cashback_expense r

pub regional-authority_issuer :
    (r : String) → str_eq (regional_account r) authority_issuer_account ≡ false
regional-authority_issuer r = regional_ne r authority_issuer_account refl

pub authority_issuer-regional :
    (r : String) → str_eq authority_issuer_account (regional_account r) ≡ false
authority_issuer-regional r =
    str_eq_comm authority_issuer_account (regional_account r) ∙ regional-authority_issuer r

pub regional-authority_consumed :
    (r : String) → str_eq (regional_account r) authority_consumed_account ≡ false
regional-authority_consumed r = regional_ne r authority_consumed_account refl

pub authority_consumed-regional :
    (r : String) → str_eq authority_consumed_account (regional_account r) ≡ false
authority_consumed-regional r =
    str_eq_comm authority_consumed_account (regional_account r) ∙ regional-authority_consumed r

pub regional-authority_transit :
    (r : String) → str_eq (regional_account r) authority_transit_account ≡ false
regional-authority_transit r = regional_ne r authority_transit_account refl

pub authority_transit-regional :
    (r : String) → str_eq authority_transit_account (regional_account r) ≡ false
authority_transit-regional r =
    str_eq_comm authority_transit_account (regional_account r) ∙ regional-authority_transit r

pub regional-authority_unallocated :
    (r : String) → str_eq (regional_account r) authority_unallocated_account ≡ false
regional-authority_unallocated r = regional_ne r authority_unallocated_account refl

pub authority_unallocated-regional :
    (r : String) → str_eq authority_unallocated_account (regional_account r) ≡ false
authority_unallocated-regional r =
    str_eq_comm authority_unallocated_account (regional_account r)
    ∙ regional-authority_unallocated r

pub str_eq-regional : (r s : String) → str_eq (regional_account r) (regional_account s) ≡ str_eq r s
unfolding regional_account
str_eq-regional r s = ground (
  arith,
  eq_iff r s,
  eq_iff (String.◌++◌ prefix r) (String.◌++◌ prefix s),
  append_cancel_left prefix r s,
)

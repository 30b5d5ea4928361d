-- ===== src/Failuresim/Funds/Lines.antt =====
-- The lines of the operations, account by account.
use payment_platform.Common.{String, str_eq, ◌≡◌, refl, pos, ◌+ℤ◌, ◌-ℤ◌, ℤ, false, int_laws}
use payment_platform.Ledger.Amount.{Amount}
use payment_platform.Failuresim.Types.{
  user_account, merchant_account, funding_account, cashback_expense_account,
  authority_issuer_account, authority_consumed_account, authority_transit_account,
  authority_unallocated_account,
}
use payment_platform.Failuresim.World.{World, regional_account}
use payment_platform.Failuresim.Payments.{pay_lines}
use payment_platform.Failuresim.Credits.{credit_lines}
use payment_platform.Failuresim.Funds.Accounts.{
  regional-user, regional-authority_transit, regional-authority_unallocated, user-regional,
  merchant-regional, authority_consumed-regional, str_eq-regional, authority_issuer-regional,
  funding-regional, cashback_expense-regional,
}
use payment_platform.Failuresim.Funds.Shift.{IsShift}

third_alone : (x : ℤ) → pos 0 +ℤ (pos 0 +ℤ (x +ℤ (pos 0 +ℤ pos 0))) ≡ x
third_alone x = omega int_laws

last_alone : (x : ℤ) → pos 0 +ℤ (pos 0 +ℤ (pos 0 +ℤ (x +ℤ pos 0))) ≡ x
last_alone x = omega int_laws

-- A payment lowers the customer's balance and its region's authority by the amount.
pub pay_lines-IsShift :
    (w : World) (region : String) (amount : Amount)
    → IsShift region (pos 0 -ℤ amount) (pay_lines w region amount)
pay_lines-IsShift w region amount = record {
  user = rw (regional-user region) (omega int_laws);
  transit = rw (regional-authority_transit region) (omega int_laws);
  reserve = rw (regional-authority_unallocated region) (omega int_laws);
  regional = λ name.
      rw
        (
          user-regional name,
          merchant-regional name,
          authority_consumed-regional name,
          str_eq-regional region name,
        )
        (third_alone _);
}

-- An account that the conservation laws do not speak of.
record IsOutside (account : String) : Type 0 where
  user : str_eq account user_account ≡ false
  transit : str_eq account authority_transit_account ≡ false
  reserve : str_eq account authority_unallocated_account ≡ false
  regional : (name : String) → str_eq account (regional_account name) ≡ false

credit_lines-IsShift :
    (w : World) (from authority region : String) (amount : Amount)
    → IsOutside from
    → IsOutside authority
    → IsShift region amount (credit_lines w from user_account authority region amount)
credit_lines-IsShift w from authority region amount f a = record {
  user = rw (f.user, a.user, regional-user region) (omega int_laws);
  transit = rw (f.transit, a.transit, regional-authority_transit region) (omega int_laws);
  reserve = rw (f.reserve, a.reserve, regional-authority_unallocated region) (omega int_laws);
  regional = λ name.
      rw (f.regional name, user-regional name, a.regional name, str_eq-regional region name)
        (last_alone _);
}

issuer-IsOutside : IsOutside authority_issuer_account
issuer-IsOutside = record {
  user = refl;
  transit = refl;
  reserve = refl;
  regional = authority_issuer-regional;
}

-- A deposit, a release and a cashback raise the customer's balance and the region's authority.
pub deposit_lines-IsShift :
    (w : World) (region : String) (amount : Amount)
    → IsShift region amount
        (credit_lines w funding_account user_account authority_issuer_account region amount)
deposit_lines-IsShift w region amount =
    credit_lines-IsShift w funding_account authority_issuer_account region amount
      (record { user = refl; transit = refl; reserve = refl; regional = funding-regional })
      issuer-IsOutside

pub release_lines-IsShift :
    (w : World) (region : String) (amount : Amount)
    → IsShift region amount
        (credit_lines w merchant_account user_account authority_consumed_account region amount)
release_lines-IsShift w region amount =
    credit_lines-IsShift w merchant_account authority_consumed_account region amount
      (record { user = refl; transit = refl; reserve = refl; regional = merchant-regional })
      (record {
        user = refl;
        transit = refl;
        reserve = refl;
        regional = authority_consumed-regional;
      })

pub cashback_lines-IsShift :
    (w : World) (region : String) (amount : Amount)
    → IsShift region amount (
        credit_lines w cashback_expense_account user_account authority_issuer_account region amount)
cashback_lines-IsShift w region amount =
    credit_lines-IsShift w cashback_expense_account authority_issuer_account region amount
      (record { user = refl; transit = refl; reserve = refl; regional = cashback_expense-regional })
      issuer-IsOutside

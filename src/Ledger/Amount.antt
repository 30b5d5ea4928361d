-- ===== src/Ledger/Amount.antt =====
-- internal/ledger/types.go: sides, errors and exact amounts of at most 38 decimal digits.
use payment_platform.Common.{
  ℤ, pos, ◌+ℤ◌, ◌-ℤ◌, ltb_ℤ, leb_ℤ, pos_part, neg_part, ltb, if◌then◌else◌, ℕ, ◌+◌, ◌^◌, ◌≡◌, Bool,
  Result, ok, err, arith, String,
}
use payment_platform.Common.Bytes.{decimal}
use Prim.Native.String

-- A side read from a request may be any text.
pub data Side : Type 0 where
  debit credit : Side
  other_side : String → Side

pub data LedgerError : Type 0 where
  invalid_posting unbalanced amount_overflow effect_conflict : LedgerError

-- The zero value of a Go `Amount` holds no integer and stands for 0.
abbrev pub Amount : Type 0
Amount = ℤ

-- The number without its sign.
abbrev pub magnitude : Amount → ℕ
magnitude a = pos_part a + neg_part a

-- `len(abs.String()) <= 38`: a number has at most 38 digits when it is below 10^38.
unfoldable pub fits_decimal38 : Amount → Bool
fits_decimal38 a = ltb (magnitude a) (10 ^ 38)

-- `a.Sign() <= 0`, `a.Sign() < 0`, `a.Sign() > 0` and `a.IsZero()`
abbrev pub is_not_positive : Amount → Bool
is_not_positive a = leb_ℤ a (pos 0)

abbrev pub is_negative : Amount → Bool
is_negative a = ltb_ℤ a (pos 0)

abbrev pub is_positive : Amount → Bool
is_positive a = ltb_ℤ (pos 0) a

-- `Amount.Add` and `Amount.Sub`
unfoldable pub add : Amount → Amount → Result LedgerError Amount
add a b = if fits_decimal38 (a +ℤ b) then ok (a +ℤ b) else err amount_overflow

unfoldable pub sub : Amount → Amount → Result LedgerError Amount
sub a b = if fits_decimal38 (a -ℤ b) then ok (a -ℤ b) else err amount_overflow

-- `Amount.String`
unfoldable pub to_string : Amount → String
unfolding decimal
to_string a =
    if is_negative a then String.◌++◌ "-" (decimal (magnitude a)) else decimal (magnitude a)

pub add-ok : (a b : Amount) {c : Amount} → add a b ≡ ok c → c ≡ a +ℤ b
unfolding add
add-ok a b h = ground arith

pub sub-ok : (a b : Amount) {c : Amount} → sub a b ≡ ok c → c ≡ a -ℤ b
unfolding sub
sub-ok a b h = ground arith

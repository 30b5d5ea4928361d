-- ===== src/Fx/Tests.antt =====
-- Runs of internal/fx at concrete inputs.
use payment_platform.Common.{ℕ, ◌*◌, pos, pos_part, true, ◌≡◌, refl, ok}
use payment_platform.Ledger.Amount.{fits_decimal38}
use payment_platform.Fx.Convert.{half_even, convert, amount_of, round}
use payment_platform.Fx.Rounding.{IsRounded, convert-IsRounded}

convert_tie : convert (pos 5) (pos 1) (pos 2) half_even ≡ ok (pos 2)
unfolding convert amount_of round fits_decimal38
convert_tie = refl

convert-IsRounded_example :
    (q : ℕ) × (pos 4 ≡ pos q)
    × (fits_decimal38 (pos 4) ≡ true)
    × IsRounded half_even (pos_part (pos 7) * pos_part (pos 1)) (pos_part (pos 2)) q
unfolding convert amount_of round fits_decimal38
convert-IsRounded_example = convert-IsRounded (pos 7) (pos 1) (pos 2) half_even refl

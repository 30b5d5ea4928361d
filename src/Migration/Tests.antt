-- ===== src/Migration/Tests.antt =====
-- Runs of internal/schemamigration at concrete inputs.
use payment_platform.Common.{ℕ, List, [], ◌∷◌, ◌++◌, ◌≡◌, refl, ok, err}
use payment_platform.Migration.Split.{
  unterminated, outside, scan, iteration, tag_rest, split, statements,
}
use payment_platform.Migration.Trim.{has_prefix, trim_space}
use payment_platform.Migration.Pieces.{IsTail, scan-IsTail}
use payment_platform.Migration.Literals.{literal, all_onto, past, scan-literal}

abbrev no_digest : List ℕ → ℕ
no_digest bytes = 0

-- `A;` and `B` with a space before it.
two_statements :
    split no_digest (65 ∷ 59 ∷ 32 ∷ 66 ∷ [])
    ≡ ok (
        record { ordinal = 1; contents = 65 ∷ 59 ∷ []; checksum = 0 }
        ∷ record { ordinal = 2; contents = 66 ∷ []; checksum = 0 }
        ∷ [])
unfolding split scan iteration statements trim_space has_prefix
two_statements = refl

-- `$$;` does not end its quote.
open_dollar : split no_digest (36 ∷ 36 ∷ 59 ∷ []) ≡ err unterminated
unfolding split scan iteration has_prefix tag_rest
open_dollar = refl

-- `$$;$$` is one piece.
closed_dollar : (scan outside 0 [] (36 ∷ 36 ∷ 59 ∷ 36 ∷ 36 ∷ [])).pieces ≡ []
unfolding scan iteration has_prefix tag_rest
closed_dollar = refl

-- `';';B`
scan-IsTail_example :
    IsTail
      (39 ∷ 59 ∷ 39 ∷ 59 ∷ 66 ∷ [])
      (scan outside 0 [] (39 ∷ 59 ∷ 39 ∷ 59 ∷ 66 ∷ []))
      (66 ∷ [])
      []
unfolding scan iteration
scan-IsTail_example = scan-IsTail (39 ∷ 59 ∷ 39 ∷ 59 ∷ 66 ∷ []) (66 ∷ []) [] refl

-- The literal of `';--` before a semicolon.
scan-literal_example :
    scan outside 0 (32 ∷ []) (literal (39 ∷ 59 ∷ 45 ∷ 45 ∷ []) ++ (59 ∷ []))
    ≡ all_onto
        (literal (39 ∷ 59 ∷ 45 ∷ 45 ∷ []))
        (scan outside 0 (past (literal (39 ∷ 59 ∷ 45 ∷ 45 ∷ [])) (32 ∷ [])) (59 ∷ []))
scan-literal_example = scan-literal (59 ∷ []) refl (39 ∷ 59 ∷ 45 ∷ 45 ∷ []) (32 ∷ []) refl

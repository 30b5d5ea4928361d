-- ===== src/Simulation/Links.antt =====
-- internal/simulation/network.go: a link is one thing, whichever end is named first.
use Prim.Native.Char.{code}
use Prim.Native.Nat.compare as compare_ℕ
use Prim.Native.Nat.{Ordering, compare as compare_ℕ}
use Prim.Native.String.compare
use Prim.Native.String.{[], ◌∷◌, compare, then as first_of}
use text.Mathlib.Text.{is_lt}
use text.Mathlib.TextEquality.{path_by_compare}
use payment_platform.Common.{
  ℕ, zero, suc, String, ◌≡◌, refl, sym, ap, ◌∙◌, ◌⊎◌, inl, inr, Bool-cases, if◌then◌else◌,
}
use payment_platform.Simulation.Network.{Link, canonical_link}

abbrev flip : Ordering → Ordering
flip Ordering.lt = Ordering.gt
flip Ordering.eq = Ordering.eq
flip Ordering.gt = Ordering.lt

flip-then : (o p : Ordering) → flip (first_of o p) ≡ first_of (flip o) (flip p)
flip-then Ordering.lt p = refl
flip-then Ordering.eq p = refl
flip-then Ordering.gt p = refl

flip-compare_ℕ : (m n : ℕ) → flip (compare_ℕ m n) ≡ compare_ℕ n m
flip-compare_ℕ zero zero = ap flip compare_ℕ.zero-zero ∙ sym compare_ℕ.zero-zero
flip-compare_ℕ zero (suc n) = ap flip (compare_ℕ.zero-suc n) ∙ sym (compare_ℕ.suc-zero n)
flip-compare_ℕ (suc m) zero = ap flip (compare_ℕ.suc-zero m) ∙ sym (compare_ℕ.zero-suc m)
flip-compare_ℕ (suc m) (suc n) =
    ap flip (compare_ℕ.suc-suc m n) ∙ flip-compare_ℕ m n ∙ sym (compare_ℕ.suc-suc n m)

-- Texts that are compared the other way round answer the other way round.
flip-compare : (s t : String) → flip (compare s t) ≡ compare t s
flip-compare [] [] = ap flip compare.nil-nil ∙ sym compare.nil-nil
flip-compare [] (d ∷ t) = ap flip (compare.nil-cons d t) ∙ sym (compare.cons-nil d t)
flip-compare (c ∷ s) [] = ap flip (compare.cons-nil c s) ∙ sym (compare.nil-cons c s)
flip-compare (c ∷ s) (d ∷ t) =
    ap flip (compare.cons-cons c d s t)
    ∙ flip-then (compare_ℕ (code c) (code d)) (compare s t)
    ∙ ap (λ o. first_of o (flip (compare s t))) (flip-compare_ℕ (code c) (code d))
    ∙ ap (first_of (compare_ℕ (code d) (code c))) (flip-compare s t)
    ∙ sym (compare.cons-cons d c t s)

abbrev ordered : Ordering → String → String → Link
ordered o a b = if is_lt o then (a, b) else (b, a)

ordered-flip :
    (o : Ordering) (a b : String) → compare a b ≡ o → ordered o a b ≡ ordered (flip o) b a
ordered-flip Ordering.lt a b e = refl
ordered-flip Ordering.gt a b e = refl
ordered-flip Ordering.eq a b e =
    ap (λ c. ordered Ordering.eq c b) (path_by_compare a b e)
    ∙ ap (λ c. ordered Ordering.eq b c) (sym (path_by_compare a b e))

pub canonical_link_sym : (a b : String) → canonical_link a b ≡ canonical_link b a
unfolding canonical_link
canonical_link_sym a b =
    ordered-flip (compare a b) a b refl ∙ ap (λ o. ordered o b a) (flip-compare a b)

-- A canonical link is the one or the other.
pub canonical_link-cases :
    (a b : String) → (canonical_link a b ≡ (a, b)) ⊎ (canonical_link a b ≡ (b, a))
unfolding canonical_link
canonical_link-cases a b = elim (Bool-cases (is_lt (compare a b))) [
  | inl first ↦ rw first (inl refl)
  | inr second ↦ rw second (inr refl)
]

-- ===== src/Migration/Pieces.antt =====
-- The pieces that `Split` of internal/schemamigration/split.go cuts a file into.
use payment_platform.Common.{
  ℕ, zero, suc, true, false, not, ◌||◌, List, [], ◌∷◌, ◌++◌, ◌≡◌, refl, ap, sym, ◌∙◌, inl, inr,
  arith, Bool-cases,
}
use payment_platform.Migration.Split.{
  Lexer, Cuts, outside, iteration, scan, onto, follows_identifier, unicode_prefix,
  escape_string_prefix,
}

abbrev pub all_text : List (List ℕ) → List ℕ
all_text [] = []
all_text (piece ∷ pieces) = piece ++ all_text pieces

scan-text :
    (s : Lexer) (k : ℕ) (before bytes : List ℕ)
    → (scan s k before bytes).piece ++ all_text (scan s k before bytes).pieces ≡ bytes
unfolding scan
scan-text s k before [] = refl
scan-text s (suc k) before (b ∷ rest) = ap (λ x. b ∷ x) (scan-text s k (b ∷ before) rest)
scan-text s zero before (b ∷ rest) =
    let m = iteration s before b rest in
    let h = ap (λ x. b ∷ x) (scan-text m.lexer m.skip (b ∷ before) rest) in
    elim (Bool-cases m.cut) [ inl cut ↦ rw cut h | inr on ↦ rw on h ]

unicode_prefix-semicolon : (y : List ℕ) → unicode_prefix 59 y ≡ false
unicode_prefix-semicolon [] = refl
unicode_prefix-semicolon (q ∷ y) = refl

-- Bytes before a semicolon are not seen after it.
module _ (y : List ℕ) where
  follows-cut : (x : List ℕ) → follows_identifier (x ++ (59 ∷ y)) ≡ follows_identifier x
  follows-cut [] = refl
  follows-cut (c ∷ x) = refl

  unicode_prefix-cut : (p : ℕ) (x : List ℕ) → unicode_prefix p (x ++ (59 ∷ y)) ≡ unicode_prefix p x
  unicode_prefix-cut p [] = ground arith
  unicode_prefix-cut p (q ∷ x) = rw (follows-cut x) refl

  escape_string_prefix-cut :
      (x : List ℕ) → escape_string_prefix (x ++ (59 ∷ y)) ≡ escape_string_prefix x
  escape_string_prefix-cut [] = unicode_prefix-semicolon y
  escape_string_prefix-cut (p ∷ x) = rw (follows-cut x, unicode_prefix-cut p x) refl

  iteration-cut :
      (s : Lexer) (x : List ℕ) (b : ℕ) (rest : List ℕ)
      → iteration s (x ++ (59 ∷ y)) b rest ≡ iteration s x b rest
  unfolding iteration
  iteration-cut s x b rest = rw (follows-cut x, escape_string_prefix-cut x) refl

  scan-cut :
      (s : Lexer) (k : ℕ) (x bytes : List ℕ) → scan s k (x ++ (59 ∷ y)) bytes ≡ scan s k x bytes
  unfolding scan
  scan-cut s k x [] = refl
  scan-cut s (suc k) x (b ∷ rest) = ap (onto b) (scan-cut s k (b ∷ x) rest)
  scan-cut s zero x (b ∷ rest) =
      rw (iteration-cut s x b rest)
        (rw (scan-cut (iteration s x b rest).lexer (iteration s x b rest).skip (b ∷ x) rest) refl)

-- Backslashes escape in strings only.
abbrev IsSane : Lexer → Type 0
IsSane s = (s.in_single || not s.single_backslash_escapes) ≡ true

iteration-IsSane :
    (s : Lexer) (before : List ℕ) (b : ℕ) (rest : List ℕ)
    → IsSane s
    → IsSane (iteration s before b rest).lexer
unfolding iteration
iteration-IsSane s before b rest h = ground arith

iteration-outside :
    (s : Lexer) (before : List ℕ) (b : ℕ) (rest : List ℕ)
    → IsSane s
    → (iteration s before b rest).cut ≡ true
    → ((iteration s before b rest).lexer ≡ outside)
      × ((iteration s before b rest).skip ≡ 0)
      × (b ≡ 59)
unfolding iteration
iteration-outside s before b rest h k = ground arith

-- A file whose first piece is cut off: what is cut of it stands in front of the rest, which is cut as a
-- file of its own.
pub record IsTail (bytes : List ℕ) (c : Cuts) (next : List ℕ) (later : List (List ℕ)) : Type 0 where
  pub text : bytes ≡ c.piece ++ all_text (next ∷ later)
  pub tail :
      scan outside 0 [] (all_text (next ∷ later))
      ≡ record { lexer = c.lexer; piece = next; pieces = later }

scan-tail :
    (s : Lexer) (k : ℕ) (before bytes : List ℕ) (next : List ℕ) (later : List (List ℕ))
    → IsSane s
    → (scan s k before bytes).pieces ≡ next ∷ later
    → scan outside 0 [] (all_text (next ∷ later))
      ≡ record { lexer = (scan s k before bytes).lexer; piece = next; pieces = later }
unfolding scan
scan-tail s k before [] next later h e = cc
scan-tail s (suc k) before (b ∷ rest) next later h e =
    scan-tail s k (b ∷ before) rest next later h e
scan-tail s zero before (b ∷ rest) next later h e =
    let m = iteration s before b rest in
    elim (Bool-cases m.cut) [
      | inr on ↦ rw on (
          scan-tail m.lexer m.skip (b ∷ before) rest next later (iteration-IsSane s before b rest h)
            (rw on at e))
      | inl cut ↦
          let (left, taken, semicolon) = iteration-outside s before b rest h cut in
          let seen : scan m.lexer m.skip (b ∷ before) rest ≡ scan outside 0 [] rest =
            rw (left, taken, semicolon) (scan-cut before outside 0 [] rest) in
          let named = rw (cut, seen) at e in
          let whole : all_text (next ∷ later) ≡ rest =
            ap all_text (sym named) ∙ scan-text outside 0 [] rest in
          let first : (scan outside 0 [] rest).piece ≡ next = cc in
          let others : (scan outside 0 [] rest).pieces ≡ later = cc in
          rw (whole, cut, seen) (rw (← first, ← others) refl)
    ]

-- A file that is cut stands together from its pieces, and what follows its first cut is cut as a file of
-- its own would be, into the same pieces and with the same ending.
pub scan-IsTail :
    (bytes next : List ℕ) (later : List (List ℕ))
    → (scan outside 0 [] bytes).pieces ≡ next ∷ later
    → IsTail bytes (scan outside 0 [] bytes) next later
scan-IsTail bytes next later e = record {
  text =
      sym (scan-text outside 0 [] bytes)
      ∙ ap (λ x. (scan outside 0 [] bytes).piece ++ all_text x) e;
  tail = scan-tail outside 0 [] bytes next later refl e;
}

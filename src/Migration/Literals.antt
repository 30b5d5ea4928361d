-- ===== src/Migration/Literals.antt =====
-- Literals in a migration file, for `Split` of internal/schemamigration/split.go.
use payment_platform.Common.{
  ℕ, Bool, true, false, List, [], ◌∷◌, ◌++◌, ◌≡◌, refl, ap, ◌∙◌, inl, inr, ◌==◌, if◌then◌else◌,
  Bool-cases,
}
use payment_platform.Migration.Split.{
  Lexer, Cuts, outside, iteration, scan, onto, escape_string_prefix, pair, taking,
}

-- The text of a literal in SQL: a quote is written twice.
abbrev pub doubled : List ℕ → List ℕ
doubled [] = []
doubled (b ∷ text) = let rest = doubled text in if b == 39 then 39 ∷ 39 ∷ rest else b ∷ rest

abbrev pub literal : List ℕ → List ℕ
literal text = 39 ∷ (doubled text ++ (39 ∷ []))

-- Bytes in front of the first piece.
abbrev pub all_onto : List ℕ → Cuts → Cuts
all_onto [] c = c
all_onto (b ∷ bytes) c = onto b (all_onto bytes c)

-- The bytes before, after some more.
abbrev pub past : List ℕ → List ℕ → List ℕ
past [] before = before
past (b ∷ bytes) before = past bytes (b ∷ before)

abbrev starts_quote : List ℕ → Bool
starts_quote [] = false
starts_quote (b ∷ bytes) = b == 39

abbrev quoting : Lexer
quoting = record outside { in_single = true }

scan-taking :
    (s s' : Lexer) (k : ℕ) (before : List ℕ) (b : ℕ) (rest : List ℕ)
    → iteration s before b rest ≡ taking s' k
    → scan s 0 before (b ∷ rest) ≡ onto b (scan s' k (b ∷ before) rest)
unfolding scan
scan-taking s s' k before b rest e = rw e refl

scan-taken :
    (s : Lexer) (before : List ℕ) (b : ℕ) (rest : List ℕ)
    → scan s 1 before (b ∷ rest) ≡ onto b (scan s 0 (b ∷ before) rest)
unfolding scan
scan-taken s before b rest = refl

pair-plain : (b : ℕ) (rest : List ℕ) → (b == 39) ≡ false → pair 39 39 b rest ≡ false
pair-plain b [] plain = refl
pair-plain b (c ∷ rest) plain = rw plain refl

pair-close : (rest : List ℕ) → starts_quote rest ≡ false → pair 39 39 39 rest ≡ false
pair-close [] ends = refl
pair-close (c ∷ rest) ends = ends

iteration-plain :
    (before : List ℕ) (b : ℕ) (rest : List ℕ)
    → (b == 39) ≡ false
    → iteration quoting before b rest ≡ taking quoting 0
unfolding iteration
iteration-plain before b rest plain = rw (pair-plain b rest plain, plain) refl

iteration-close :
    (before rest : List ℕ)
    → starts_quote rest ≡ false
    → iteration quoting before 39 rest ≡ taking outside 0
unfolding iteration
iteration-close before rest ends = rw (pair-close rest ends) refl

iteration-open :
    (before : List ℕ) (b : ℕ) (rest : List ℕ)
    → escape_string_prefix before ≡ false
    → b ≡ 39
    → iteration outside before b rest ≡ taking quoting 0
unfolding iteration
iteration-open before b [] plain e = rw (e, plain) refl
iteration-open before b (c ∷ rest) plain e = rw (e, plain) refl

iteration-twice :
    (before rest : List ℕ) → iteration quoting before 39 (39 ∷ rest) ≡ taking quoting 1
unfolding iteration
iteration-twice before rest = refl

module _ (rest : List ℕ) (ends : starts_quote rest ≡ false) where
  scan-doubled :
      (text before : List ℕ)
      → scan quoting 0 before ((doubled text ++ (39 ∷ [])) ++ rest)
        ≡ all_onto
            (doubled text ++ (39 ∷ []))
            (scan outside 0 (past (doubled text ++ (39 ∷ [])) before) rest)
  scan-doubled [] before =
      scan-taking quoting outside 0 before 39 rest (iteration-close before rest ends)
  scan-doubled (b ∷ text) before =
      let more = (doubled text ++ (39 ∷ [])) ++ rest in
      elim (Bool-cases (b == 39)) [
        | inl quote ↦ rw quote (
            scan-taking quoting quoting 1 before 39 (39 ∷ more) (iteration-twice before more)
            ∙ ap (onto 39) (scan-taken quoting (39 ∷ before) 39 more)
            ∙ ap (λ c. onto 39 (onto 39 c)) (scan-doubled text (39 ∷ 39 ∷ before)))
        | inr plain ↦ rw plain (
            scan-taking quoting quoting 0 before b more (iteration-plain before b more plain)
            ∙ ap (onto b) (scan-doubled text (b ∷ before)))
      ]

  -- A literal of any text, its quotes written twice, is passed over whole: nothing in it, no semicolon, comment or
  -- dollar, cuts the statement or changes how the rest of the file is cut. It does not follow a prefix
  -- of an escape string, and no quote follows it.
  pub scan-literal :
      (text before : List ℕ)
      → escape_string_prefix before ≡ false
      → scan outside 0 before (literal text ++ rest)
        ≡ all_onto (literal text) (scan outside 0 (past (literal text) before) rest)
  scan-literal text before plain =
      scan-taking outside quoting 0 before 39 ((doubled text ++ (39 ∷ [])) ++ rest)
        (iteration-open before 39 ((doubled text ++ (39 ∷ [])) ++ rest) plain refl)
      ∙ ap (onto 39) (scan-doubled text (39 ∷ before))

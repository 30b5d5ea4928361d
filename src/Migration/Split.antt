-- ===== src/Migration/Split.antt =====
-- internal/schemamigration/split.go: `Split`, the lexer that cuts a migration file into statements.
use payment_platform.Common.{
  ℕ, zero, suc, ◌+◌, ◌-◌, Bool, true, false, not, ◌&&◌, ◌||◌, Option, none, some, List, [], ◌∷◌,
  Result, ok, err, ◌==◌, leb, if◌then◌else◌, length,
}
use payment_platform.Migration.Trim.{has_prefix, trim_space}

pub data SplitError : Type 0 where
  unterminated no_statements : SplitError

pub record Statement : Type 0 where
  pub ordinal : ℕ
  pub contents : List ℕ
  pub checksum : ℕ

-- The variables of the loop that say which construct it is in; a tag that is empty is no tag.
pub record Lexer : Type 0 where
  pub in_single : Bool
  pub single_backslash_escapes : Bool
  pub in_double : Bool
  pub line_comment : Bool
  pub block_depth : ℕ
  pub dollar_tag : List ℕ

-- What an iteration does: the variables that it leaves, the bytes that it takes after the first, and
-- whether the statement ends with the byte.
pub record Move : Type 0 where
  pub lexer : Lexer
  pub skip : ℕ
  pub cut : Bool

abbrev pub outside : Lexer
outside = record {
  in_single = false;
  single_backslash_escapes = false;
  in_double = false;
  line_comment = false;
  block_depth = 0;
  dollar_tag = [];
}

abbrev is_lower : ℕ → Bool
is_lower c = leb 97 c && leb c 122

abbrev is_upper : ℕ → Bool
is_upper c = leb 65 c && leb c 90

abbrev is_digit : ℕ → Bool
is_digit c = leb 48 c && leb c 57

-- `identifierByte`
abbrev pub identifier_byte : ℕ → Bool
identifier_byte c =
    is_lower c || (is_upper c || (is_digit c || (c == 95 || (c == 36 || leb 128 c))))

-- Whether the byte before is there and is an identifier's; `before` holds the bytes before, last first.
abbrev pub follows_identifier : List ℕ → Bool
follows_identifier [] = false
follows_identifier (c ∷ before) = identifier_byte c

-- `contents[quote-1] == '&'` with a `u` before it.
abbrev pub unicode_prefix : ℕ → List ℕ → Bool
unicode_prefix p [] = false
unicode_prefix p (q ∷ before) =
    p == 38 && ((q == 117 || q == 85) && not (follows_identifier before))

-- `escapeStringPrefix`
abbrev pub escape_string_prefix : List ℕ → Bool
escape_string_prefix [] = false
escape_string_prefix (p ∷ before) =
    ((p == 101 || p == 69) && not (follows_identifier before)) || unicode_prefix p before

-- Two bytes, the second of which may be missing.
abbrev pub pair : ℕ → ℕ → ℕ → List ℕ → Bool
pair c d b [] = false
pair c d b (next ∷ rest) = b == c && next == d

-- The tag after its first dollar; a digit does not start its name.
unfoldable pub tag_rest : Bool → List ℕ → Option (List ℕ)
tag_rest later [] = none
tag_rest later (c ∷ rest) =
    let more = tag_rest true rest in
    if c == 36
    then some (36 ∷ [])
    else if not (is_lower c || (is_upper c || ((is_digit c && later) || c == 95)))
    then none
    else elim more [ none ↦ none | some tag ↦ some (c ∷ tag) ]

-- `readDollarTag`
abbrev pub read_dollar_tag : ℕ → List ℕ → Option (List ℕ)
read_dollar_tag b rest =
    if not (b == 36)
    then none
    else elim (tag_rest false rest) [ none ↦ none | some tag ↦ some (36 ∷ tag) ]

abbrev pub taking : Lexer → ℕ → Move
taking s skip = record { lexer = s; skip = skip; cut = false }

abbrev pub is_nothing : List ℕ → Bool
is_nothing [] = true
is_nothing (b ∷ bytes) = false

abbrev pub in_line_comment : Lexer → ℕ → Move
in_line_comment s b = taking (if b == 10 then record s { line_comment = false } else s) 0

abbrev pub in_block_comment : Lexer → ℕ → List ℕ → Move
in_block_comment s b rest =
    if pair 47 42 b rest
    then taking (record s { block_depth = s.block_depth + 1 }) 1
    else if pair 42 47 b rest
    then taking (record s { block_depth = s.block_depth - 1 }) 1
    else taking s 0

abbrev pub in_dollar_quote : Lexer → ℕ → List ℕ → Move
in_dollar_quote s b rest =
    if has_prefix s.dollar_tag (b ∷ rest)
    then taking (record s { dollar_tag = [] }) (length s.dollar_tag - 1)
    else taking s 0

abbrev pub in_single_quote : Lexer → ℕ → List ℕ → Move
in_single_quote s b rest =
    if s.single_backslash_escapes && (b == 92 && not (is_nothing rest))
    then taking s 1
    else if pair 39 39 b rest
    then taking s 1
    else if b == 39
    then taking (record s { in_single = false; single_backslash_escapes = false }) 0
    else taking s 0

abbrev pub in_double_quote : Lexer → ℕ → List ℕ → Move
in_double_quote s b rest =
    if pair 34 34 b rest
    then taking s 1
    else if b == 34
    then taking (record s { in_double = false }) 0
    else taking s 0

-- A dollar that may open a quote.
abbrev pub at_dollar : Lexer → List ℕ → ℕ → List ℕ → Move
at_dollar s before b rest =
    if follows_identifier before then taking s 0 else elim (read_dollar_tag b rest) [
      | none ↦ taking s 0
      | some tag ↦ taking (record s { dollar_tag = tag }) (length tag - 1)
    ]

abbrev pub in_statement : Lexer → List ℕ → ℕ → List ℕ → Move
in_statement s before b rest =
    if pair 45 45 b rest
    then taking (record s { line_comment = true }) 1
    else if pair 47 42 b rest
    then taking (record s { block_depth = 1 }) 1
    else if b == 39
    then taking
        (record s { in_single = true; single_backslash_escapes = escape_string_prefix before }) 0
    else if b == 34
    then taking (record s { in_double = true }) 0
    else if b == 36
    then at_dollar s before b rest
    else record { lexer = s; skip = 0; cut = b == 59 }

-- An iteration of the loop.
unfoldable pub iteration : Lexer → List ℕ → ℕ → List ℕ → Move
iteration s before b rest =
    if s.line_comment
    then in_line_comment s b
    else if not (s.block_depth == 0)
    then in_block_comment s b rest
    else if not (is_nothing s.dollar_tag)
    then in_dollar_quote s b rest
    else if s.in_single
    then in_single_quote s b rest
    else if s.in_double
    then in_double_quote s b rest
    else in_statement s before b rest

-- What the loop leaves: the variables at its end, the rest of the statement that it is in, and the
-- statements after that one, as they stand in the file.
pub record Cuts : Type 0 where
  pub lexer : Lexer
  pub piece : List ℕ
  pub pieces : List (List ℕ)

-- A byte in front of the first piece.
abbrev pub onto : ℕ → Cuts → Cuts
onto b c = record c { piece = b ∷ c.piece }

-- A cut after a byte.
abbrev pub cut_after : ℕ → Cuts → Cuts
cut_after b c = record { lexer = c.lexer; piece = b ∷ []; pieces = c.piece ∷ c.pieces }

-- The loop on the bytes that are left; `k` of them are taken by the iteration before.
unfoldable pub scan : Lexer → ℕ → List ℕ → List ℕ → Cuts
scan s k before [] = record { lexer = s; piece = []; pieces = [] }
scan s (suc k) before (b ∷ rest) = onto b (scan s k (b ∷ before) rest)
scan s zero before (b ∷ rest) =
    let m = iteration s before b rest in
    let more = scan m.lexer m.skip (b ∷ before) rest in
    if m.cut then cut_after b more else onto b more

module _ (digest : List ℕ → ℕ) where
  -- `appendStatement` on the pieces from an ordinal on.
  unfoldable pub statements : ℕ → List (List ℕ) → List Statement
  statements n [] = []
  statements n (piece ∷ pieces) =
      let statement = trim_space piece in
      if is_nothing statement
      then statements n pieces
      else record { ordinal = n; contents = statement; checksum = digest statement }
        ∷ statements (n + 1) pieces

  abbrev pub is_unterminated : Lexer → Bool
  is_unterminated s =
      s.in_single || (s.in_double || (not (s.block_depth == 0) || not (is_nothing s.dollar_tag)))

  abbrev pub some_statements : List Statement → Result SplitError (List Statement)
  some_statements [] = err no_statements
  some_statements (s ∷ ss) = ok (s ∷ ss)

  -- `Split`
  unfoldable pub split : List ℕ → Result SplitError (List Statement)
  split contents =
      let c = scan outside 0 [] contents in
      if is_unterminated c.lexer
      then err unterminated
      else some_statements (statements 1 (c.piece ∷ c.pieces))

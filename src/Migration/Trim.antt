-- ===== src/Migration/Trim.antt =====
-- internal/schemamigration/split.go: the white space around a statement, `strings.TrimSpace` on bytes.
use payment_platform.Common.{
  ℕ, zero, suc, ◌-◌, Bool, true, false, ◌&&◌, List, [], ◌∷◌, map, ◌==◌, if◌then◌else◌, length,
}
use mathlib.Core.List.{reverse}

unfoldable pub has_prefix : List ℕ → List ℕ → Bool
has_prefix [] bytes = true
has_prefix (p ∷ prefix) [] = false
has_prefix (p ∷ prefix) (b ∷ bytes) = p == b && has_prefix prefix bytes

-- The white space of `strings.TrimSpace` in UTF-8.
abbrev white_space : List (List ℕ)
white_space =
    (9 ∷ [])
    ∷ (10 ∷ [])
    ∷ (11 ∷ [])
    ∷ (12 ∷ [])
    ∷ (13 ∷ [])
    ∷ (32 ∷ [])
    ∷ (0xC2 ∷ 0x85 ∷ [])
    ∷ (0xC2 ∷ 0xA0 ∷ [])
    ∷ (0xE1 ∷ 0x9A ∷ 0x80 ∷ [])
    ∷ (0xE2 ∷ 0x80 ∷ 0x80 ∷ [])
    ∷ (0xE2 ∷ 0x80 ∷ 0x81 ∷ [])
    ∷ (0xE2 ∷ 0x80 ∷ 0x82 ∷ [])
    ∷ (0xE2 ∷ 0x80 ∷ 0x83 ∷ [])
    ∷ (0xE2 ∷ 0x80 ∷ 0x84 ∷ [])
    ∷ (0xE2 ∷ 0x80 ∷ 0x85 ∷ [])
    ∷ (0xE2 ∷ 0x80 ∷ 0x86 ∷ [])
    ∷ (0xE2 ∷ 0x80 ∷ 0x87 ∷ [])
    ∷ (0xE2 ∷ 0x80 ∷ 0x88 ∷ [])
    ∷ (0xE2 ∷ 0x80 ∷ 0x89 ∷ [])
    ∷ (0xE2 ∷ 0x80 ∷ 0x8A ∷ [])
    ∷ (0xE2 ∷ 0x80 ∷ 0xA8 ∷ [])
    ∷ (0xE2 ∷ 0x80 ∷ 0xA9 ∷ [])
    ∷ (0xE2 ∷ 0x80 ∷ 0xAF ∷ [])
    ∷ (0xE2 ∷ 0x81 ∷ 0x9F ∷ [])
    ∷ (0xE3 ∷ 0x80 ∷ 0x80 ∷ [])
    ∷ []

-- The width of a text's first white space.
width_of : List (List ℕ) → List ℕ → ℕ
unfolding has_prefix
width_of [] bytes = 0
width_of (space ∷ spaces) bytes =
    if has_prefix space bytes then length space else width_of spaces bytes

strip : List (List ℕ) → ℕ → List ℕ → List ℕ
unfolding width_of
strip spaces k [] = []
strip spaces (suc k) (b ∷ bytes) = strip spaces k bytes
strip spaces zero (b ∷ bytes) =
    let width = width_of spaces (b ∷ bytes) in
    let rest = strip spaces (width - 1) bytes in if width == 0 then b ∷ bytes else rest

-- `strings.TrimSpace`, on bytes.
unfoldable pub trim_space : List ℕ → List ℕ
unfolding strip
trim_space bytes = reverse (strip (map reverse white_space) 0 (reverse (strip white_space 0 bytes)))

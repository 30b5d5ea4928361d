-- ===== src/Common/Bytes.antt =====
-- The bytes that the hash functions read: UTF-8 texts, big-endian integers (`binary.BigEndian`), and
-- `%d`, as the source uses them. A Go string is a native text here.
use Prim.Native.Nat.{ℕ, zero, suc, ◌+◌, ◌-◌, ◌/◌, ◌%◌}
use Prim.Native.Char.{code}
use Prim.Native.String
use Prim.Native.String.{String}
use mathlib.Core.Path.{◌≡◌, refl, sym, ap, ◌∙◌}
use mathlib.Core.List.{List, [], ◌∷◌, ◌++◌, append_assoc}
use native.Mathlib.Omega.{arith}
use text.Mathlib.TextLemmas.{nil-append, cons-append}
use payment_platform.Common.Tests.{ltb, ◌==◌, if◌then◌else◌}
use payment_platform.Common.Lists.{length, length-append}

utf8_char : ℕ → List ℕ
utf8_char c =
    if ltb c 0x80
    then c ∷ []
    else if ltb c 0x800
    then (0xC0 + c / 64) ∷ (0x80 + c % 64) ∷ []
    else if ltb c 0x10000
    then (0xE0 + c / 4096) ∷ (0x80 + c / 64 % 64) ∷ (0x80 + c % 64) ∷ []
    else (0xF0 + c / 262144) ∷ (0x80 + c / 4096 % 64) ∷ (0x80 + c / 64 % 64) ∷ (0x80 + c % 64) ∷ []

-- `[]byte(s)`
unfoldable pub utf8 : String → List ℕ
unfolding utf8_char
utf8 String.[] = []
utf8 (String.◌∷◌ c s) = utf8_char (code c) ++ utf8 s

pub utf8-append : (s t : String) → utf8 (String.◌++◌ s t) ≡ utf8 s ++ utf8 t
unfolding utf8
utf8-append String.[] t = ap utf8 (nil-append t)
utf8-append (String.◌∷◌ c s) t =
    ap utf8 (cons-append c s t)
    ∙ rw (utf8-append s t) (sym (append_assoc (utf8_char (code c)) (utf8 s) (utf8 t)))

-- The `k` low bytes of `v`, highest first.
unfoldable pub big_endian : ℕ → ℕ → List ℕ
big_endian zero v = []
big_endian (suc k) v = big_endian k (v / 256) ++ v % 256 ∷ []

pub length-big_endian : (k v : ℕ) → length (big_endian k v) ≡ k
unfolding big_endian
length-big_endian zero v = refl
length-big_endian (suc k) v =
    omega
      (arith, length-big_endian k (v / 256), length-append (big_endian k (v / 256)) (v % 256 ∷ []))

digit : ℕ → String
digit d =
    if d == 0
    then "0"
    else if d == 1
    then "1"
    else if d == 2
    then "2"
    else if d == 3
    then "3"
    else if d == 4
    then "4"
    else if d == 5
    then "5"
    else if d == 6
    then "6"
    else if d == 7
    then "7"
    else if d == 8
    then "8"
    else "9"

decimal_from : ℕ → ℕ → String
unfolding digit
decimal_from zero n = ""
decimal_from (suc f) n =
    let rest = decimal_from f (n / 10) in
    if ltb n 10 then digit n else String.◌++◌ rest (digit (n % 10))

-- The decimal digits of `n`; a number has fewer digits than its value and one.
unfoldable pub decimal : ℕ → String
unfolding decimal_from
decimal n = decimal_from (suc n) n

zeros : ℕ → String
zeros zero = ""
zeros (suc k) = String.◌++◌ "0" (zeros k)

-- `%0wd`
unfoldable pub padded : ℕ → ℕ → String
unfolding zeros decimal
padded w n = String.◌++◌ (zeros (w - String.count (decimal n))) (decimal n)

hex_digit : ℕ → String
unfolding digit
hex_digit d =
    if ltb d 10
    then digit d
    else if d == 10
    then "a"
    else if d == 11
    then "b"
    else if d == 12
    then "c"
    else if d == 13
    then "d"
    else if d == 14
    then "e"
    else "f"

-- `%x` of an array of `k` bytes.
unfoldable pub hex : ℕ → ℕ → String
unfolding hex_digit
hex zero v = ""
hex (suc k) v =
    String.◌++◌ (hex k (v / 256)) (String.◌++◌ (hex_digit (v / 16 % 16)) (hex_digit (v % 16)))

hex_bytes : hex 3 0xa0b1ff ≡ "a0b1ff"
unfolding hex
hex_bytes = refl

padded_seven : padded 5 47 ≡ "00047"
unfolding padded
padded_seven = refl

utf8_euro : utf8 "a€" ≡ b'a' ∷ 0xE2 ∷ 0x82 ∷ 0xAC ∷ []
unfolding utf8
utf8_euro = refl

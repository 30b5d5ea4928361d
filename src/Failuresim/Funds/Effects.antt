-- ===== src/Failuresim/Funds/Effects.antt =====
-- The effects of the other operations are not those of a transfer, by their first letters.
use payment_platform.Common.{String, str_eq, eq_iff, ◌≡◌, refl, ◌∙◌, ap, false, arith, ℕ, List}
use payment_platform.Common.Dict.{Dict, lookup}
use payment_platform.Failuresim.Types.{JournalLine, Receipt}
use payment_platform.Failuresim.Hashing.{Primitives}
use payment_platform.Failuresim.Book.{Book}
use payment_platform.Failuresim.Book.Posts.{IsAppend, lookup-append}
use payment_platform.Failuresim.World.{TransferState}
use payment_platform.Failuresim.Transfers.{out_effect, in_effect}
use payment_platform.Failuresim.Funds.{IsTracked}
use payment_platform.Failuresim.Releases.{
  ReleaseKind, refunding, reversing, charging_back, kind_text,
}
use Prim.Native.String
use Prim.Native.String.{slice, len}
use text.Mathlib.TextLemmas.{append_assoc}
use text.Mathlib.TextPositions.{slice-append_left}

-- Texts that begin with different letters differ.
pub first_ne :
    (a b s t : String)
    → len a ≡ len b
    → str_eq a b ≡ false
    → str_eq (String.◌++◌ a s) (String.◌++◌ b t) ≡ false
first_ne a b s t e h = ground (
  arith,
  eq_iff a b,
  eq_iff (String.◌++◌ a s) (String.◌++◌ b t),
  slice-append_left a s,
  slice-append_left b t,
)

pub record IsForeign (effect : String) : Type 0 where
  pub not_out : (id : String) → str_eq effect (out_effect id) ≡ false
  pub not_in : (id : String) → str_eq effect (in_effect id) ≡ false

-- An effect whose first letter is not an `r`.
pub IsForeign-letter :
    (a word rest : String)
    → len a ≡ 1
    → str_eq a "r" ≡ false
    → IsForeign (String.◌++◌ (String.◌++◌ a word) rest)
IsForeign-letter a word rest e h = record {
  not_out = λ id.
      ap (λ x. str_eq x (String.◌++◌ "rights-transfer-out:" id)) (append_assoc a word rest)
      ∙ ap (str_eq (String.◌++◌ a (String.◌++◌ word rest)))
          (append_assoc "r" "ights-transfer-out:" id)
      ∙ first_ne a "r" (String.◌++◌ word rest) (String.◌++◌ "ights-transfer-out:" id) e h;
  not_in = λ id.
      ap (λ x. str_eq x (String.◌++◌ "rights-transfer-in:" id)) (append_assoc a word rest)
      ∙ ap (str_eq (String.◌++◌ a (String.◌++◌ word rest)))
          (append_assoc "r" "ights-transfer-in:" id)
      ∙ first_ne a "r" (String.◌++◌ word rest) (String.◌++◌ "ights-transfer-in:" id) e h;
}

pub IsTracked-foreign :
    (prim : Primitives) (effect kind : String) (fingerprint : ℕ) (lines : List JournalLine)
    (transfers : Dict TransferState) (b : Book) {b' : Book} {r : Receipt}
    → IsAppend prim effect kind fingerprint lines b b' r
    → IsForeign effect
    → IsTracked transfers b
    → IsTracked transfers b'
IsTracked-foreign prim effect kind fingerprint lines transfers b {b'} p f v = record {
  unissued = λ id h. (
    same (out_effect id) (f.not_out id) ∙ (v.unissued id h).0,
    same (in_effect id) (f.not_in id) ∙ (v.unissued id h).1,
  );
  pending = λ id t h i. same (in_effect id) (f.not_in id) ∙ v.pending id t h i;
}
  where
    same : (e : String) → str_eq effect e ≡ false → lookup e b'.effects ≡ lookup e b.effects
    same e other = lookup-append prim effect kind fingerprint lines b e p other

-- The effect of a release is named by its kind.
pub IsForeign-release :
    (kind : ReleaseKind) (release : String)
    → IsForeign (String.◌++◌ (kind_text kind) (String.◌++◌ ":" release))
IsForeign-release refunding release =
    IsForeign-letter "R" "EFUND" (String.◌++◌ ":" release) refl refl
IsForeign-release reversing release =
    IsForeign-letter "R" "EVERSAL" (String.◌++◌ ":" release) refl refl
IsForeign-release charging_back release =
    IsForeign-letter "C" "HARGEBACK" (String.◌++◌ ":" release) refl refl

-- ===== src/Audit/Collisions.antt =====
-- Digests of 32 bytes, and two hashed texts with one digest.
use payment_platform.Common.Bytes.{big_endian, length-big_endian}
use payment_platform.Common.{
  ◌*◌, ◌/◌, ◌%◌, ◌≢◌, append_inj, ℕ, suc, zero, ◌<◌, List, [], ◌∷◌, ◌≡◌, arith, sym, ◌∙◌,
}

unfoldable pub bound : ℕ → ℕ
bound zero = 1
bound (suc k) = 256 * bound k

pub big_endian_inj :
    (k v w : ℕ) → v < bound k → w < bound k → big_endian k v ≡ big_endian k w → v ≡ w
unfolding bound big_endian
big_endian_inj zero v w h l e = omega arith
big_endian_inj (suc k) v w h l e =
    let (high, low) =
      append_inj (big_endian k (v / 256)) (big_endian k (w / 256)) (v % 256 ∷ []) (w % 256 ∷ [])
        (length-big_endian k (v / 256) ∙ sym (length-big_endian k (w / 256))) e in
    let same_high : v / 256 ≡ w / 256 =
      big_endian_inj k (v / 256) (w / 256) (omega arith) (omega arith) high in
    let same_low : v % 256 ≡ w % 256 = cc in omega arith

-- A number of 32 bytes.
abbrev pub IsDigest : ℕ → Type 0
IsDigest v = v < bound 32

-- Two texts, each hashed in its own computation, that differ and have one digest.
pub record IsCollision (sha256 : List ℕ → ℕ) (hashed hashed' : List ℕ → Type 0) : Type 0 where
  pub first_text : List ℕ
  pub second_text : List ℕ
  pub first_hashed : hashed first_text
  pub second_hashed : hashed' second_text
  pub differ : first_text ≢ second_text
  pub same_digest : sha256 first_text ≡ sha256 second_text

-- A collision of a part is one of the whole.
pub IsCollision-imp :
    {sha256 : List ℕ → ℕ} {P P' Q Q' : List ℕ → Type 0}
    → ((t : List ℕ) → P t → Q t)
    → ((t : List ℕ) → P' t → Q' t)
    → IsCollision sha256 P P'
    → IsCollision sha256 Q Q'
IsCollision-imp f g c = record {
  first_text = c.first_text;
  second_text = c.second_text;
  first_hashed = f c.first_text c.first_hashed;
  second_hashed = g c.second_text c.second_hashed;
  differ = c.differ;
  same_digest = c.same_digest;
}

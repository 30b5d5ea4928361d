-- ===== src/Ledger/Decoding.antt =====
-- Reading the parts of an entry's bytes back, internal/ledger/hash.go.
use payment_platform.Common.{
  ℕ, ◌+◌, ◌<◌, ◌^◌, String, Option, none, some, List, [], ◌∷◌, ◌++◌, ok, leb, length, ◌≡◌, refl,
  sym, ap, ◌∙◌, inl, inr, arith, ◌≢◌, length-append, append_inj, >>=-eq-ok, Bool-cases,
}
use mathlib.Core.List.{append_assoc}
use payment_platform.Common.Bytes.{utf8, big_endian, length-big_endian}
use payment_platform.Failuresim.Hashing.{side_text}
use payment_platform.Ledger.Amount.{to_string}
use payment_platform.Ledger.Posting.{Line}
use payment_platform.Ledger.Entries.{
  write_bytes, write_all, write_reference, fields_of, write_lines,
}
use payment_platform.Audit.Collisions.{bound, big_endian_inj}

write_bytes-ok :
    (value : List ℕ) {a : List ℕ}
    → write_bytes value ≡ ok a
    → (a ≡ big_endian 4 (length value) ++ value) × (length value < 2 ^ 32)
unfolding write_bytes
write_bytes-ok value h = elim (Bool-cases (leb (2 ^ 32) (length value))) [
  | inl long ↦ ground (arith, rw long at h)
  | inr short ↦ (ground (arith, rw short at h), ground arith)
]

write_bytes_inj :
    (x y : List ℕ) {a b : List ℕ} (us vs : List ℕ)
    → write_bytes x ≡ ok a
    → write_bytes y ≡ ok b
    → a ++ us ≡ b ++ vs
    → (x ≡ y) × (us ≡ vs)
unfolding bound
write_bytes_inj x y us vs h k e =
    let (ea, small) = write_bytes-ok x h in
    let (eb, small') = write_bytes-ok y k in
    let (lengths, rest) =
      append_inj (big_endian 4 (length x)) (big_endian 4 (length y)) (x ++ us) (y ++ vs)
        (length-big_endian 4 (length x) ∙ sym (length-big_endian 4 (length y)))
        (sym (append_assoc (big_endian 4 (length x)) x us)
          ∙ ap (λ z. z ++ us) (sym ea)
          ∙ e
          ∙ ap (λ z. z ++ vs) eb
          ∙ append_assoc (big_endian 4 (length y)) y vs) in
    let same : length x ≡ length y =
      big_endian_inj 4 (length x) (length y) (omega (arith, small)) (omega (arith, small'))
        lengths in
    append_inj x y us vs same rest

pub write_all_inj :
    (xs ys : List (List ℕ)) {a b : List ℕ} (us vs : List ℕ)
    → length xs ≡ length ys
    → write_all xs ≡ ok a
    → write_all ys ≡ ok b
    → a ++ us ≡ b ++ vs
    → (xs ≡ ys) × (us ≡ vs)
unfolding write_all
write_all_inj [] [] us vs l h k e = (refl, ground arith)
write_all_inj [] (y ∷ ys) us vs l h k e = ground arith
write_all_inj (x ∷ xs) [] us vs l h k e = ground arith
write_all_inj (x ∷ xs) (y ∷ ys) {a} {b} us vs l h k e =
    let (p, hp, h₁) = >>=-eq-ok (write_bytes x) _ h in
    let (more, hm, h₂) = >>=-eq-ok (write_all xs) _ h₁ in
    let (q, kq, k₁) = >>=-eq-ok (write_bytes y) _ k in
    let (others, ko, k₂) = >>=-eq-ok (write_all ys) _ k₁ in
    let ea : p ++ more ≡ a = cc in
    let eb : q ++ others ≡ b = cc in
    let joined : p ++ (more ++ us) ≡ q ++ (others ++ vs) =
      sym (append_assoc p more us)
      ∙ ap (λ z. z ++ us) ea
      ∙ e
      ∙ ap (λ z. z ++ vs) (sym eb)
      ∙ append_assoc q others vs in
    let (heads, rest) = write_bytes_inj x y (more ++ us) (others ++ vs) hp kq joined in
    let (tails, ends) = write_all_inj xs ys us vs (omega (arith, l)) hm ko rest in
    (rw (heads, tails) refl, ends)

-- The text of a reference, if there is one.
abbrev pub text_of : Option String → Option (List ℕ)
text_of none = none
text_of (some id) = some (utf8 id)

pub write_reference_inj :
    (x y : Option String) {a b : List ℕ} (us vs : List ℕ)
    → write_reference x ≡ ok a
    → write_reference y ≡ ok b
    → a ++ us ≡ b ++ vs
    → (text_of x ≡ text_of y) × (us ≡ vs)
unfolding write_reference
write_reference_inj none none us vs h k e = (refl, ground arith)
write_reference_inj none (some t) us vs h k e =
    let (q, kq, k₁) = >>=-eq-ok (write_all (utf8 t ∷ [])) _ k in ground arith
write_reference_inj (some s) none us vs h k e =
    let (p, hp, h₁) = >>=-eq-ok (write_all (utf8 s ∷ [])) _ h in ground arith
write_reference_inj (some s) (some t) {a} {b} us vs h k e =
    let (p, hp, h₁) = >>=-eq-ok (write_all (utf8 s ∷ [])) _ h in
    let (q, kq, k₁) = >>=-eq-ok (write_all (utf8 t ∷ [])) _ k in
    let joined : p ++ us ≡ q ++ vs = ground arith in
    let (same, rest) = write_all_inj (utf8 s ∷ []) (utf8 t ∷ []) us vs refl hp kq joined in
    (ground arith, rest)

write_lines-ne : (n : ℕ) (l : Line) (ls : List Line) → write_lines n (l ∷ ls) ≢ ok []
unfolding write_lines
write_lines-ne n l ls h =
    let (p, hp, h₁) = >>=-eq-ok (write_all (fields_of l)) _ h in
    let (more, hm, h₂) = >>=-eq-ok (write_lines (n + 1) ls) _ h₁ in
    let empty : big_endian 8 n ++ (p ++ more) ≡ [] = cc in
    let none : length (big_endian 8 n ++ (p ++ more)) ≡ 0 = ap length empty in
    omega (arith, none, length-append (big_endian 8 n) (p ++ more), length-big_endian 8 n)

-- Two lines that say the same, byte by byte.
pub record IsSameLine (l l' : Line) : Type 0 where
  pub account : utf8 l.account_id ≡ utf8 l'.account_id
  pub asset : utf8 l.asset_id ≡ utf8 l'.asset_id
  pub side : utf8 (side_text l.side) ≡ utf8 (side_text l'.side)
  pub memo : utf8 l.memo ≡ utf8 l'.memo
  pub amount : utf8 (to_string l.amount_atoms) ≡ utf8 (to_string l'.amount_atoms)

abbrev pub SameLines : List Line → List Line → Type 0
SameLines [] [] = Unit {0}
SameLines [] (y ∷ ys) = ⊥
SameLines (x ∷ xs) [] = ⊥
SameLines (x ∷ xs) (y ∷ ys) = IsSameLine x y × SameLines xs ys

fields_of-IsSameLine : (l l' : Line) → fields_of l ≡ fields_of l' → IsSameLine l l'
fields_of-IsSameLine l l' e = record { account = cc; asset = cc; side = cc; memo = cc; amount = cc }

pub write_lines_inj :
    (n : ℕ) (xs ys : List Line) {a : List ℕ}
    → write_lines n xs ≡ ok a
    → write_lines n ys ≡ ok a
    → SameLines xs ys
unfolding write_lines
write_lines_inj n [] [] h k = tt
write_lines_inj n [] (y ∷ ys) {a} h k = absurd (write_lines-ne n y ys (k ∙ sym h))
write_lines_inj n (x ∷ xs) [] {a} h k = absurd (write_lines-ne n x xs (h ∙ sym k))
write_lines_inj n (x ∷ xs) (y ∷ ys) {a} h k =
    let (p, hp, h₁) = >>=-eq-ok (write_all (fields_of x)) _ h in
    let (more, hm, h₂) = >>=-eq-ok (write_lines (n + 1) xs) _ h₁ in
    let (q, kq, k₁) = >>=-eq-ok (write_all (fields_of y)) _ k in
    let (others, ko, k₂) = >>=-eq-ok (write_lines (n + 1) ys) _ k₁ in
    let joined : big_endian 8 n ++ (p ++ more) ≡ big_endian 8 n ++ (q ++ others) = cc in
    let (numbers, rest) =
      append_inj (big_endian 8 n) (big_endian 8 n) (p ++ more) (q ++ others) refl joined in
    let (same, ends) = write_all_inj (fields_of x) (fields_of y) more others refl hp kq rest in
    (fields_of-IsSameLine x y same, write_lines_inj (n + 1) xs ys hm (ko ∙ ap ok (sym ends)))

-- ===== src/Failuresim/Funds/Transit.antt =====
-- The rights in transit and the effects of the transfers.
use payment_platform.Common.{
  String, str_eq, eq_iff, ◌≡◌, refl, ap, ◌∙◌, inl, inr, some, none, ◌+ℤ◌, [], ◌∷◌, Bool-cases,
  arith, int_laws, parts, true, false,
}
use payment_platform.Common.Dict.{Dict, lookup, modify, insert}
use payment_platform.Failuresim.Types.{Receipt, TransferCertificate}
use payment_platform.Failuresim.World.{TransferState}
use payment_platform.Failuresim.Transfers.{out_effect, in_effect, sent}
use payment_platform.Failuresim.Arrivals.{arrive}
use payment_platform.Failuresim.Funds.{total_in_transit}
use payment_platform.Failuresim.Funds.Effects.{first_ne}
use Prim.Native.String
use text.Mathlib.TextLemmas.{append_assoc, append_cancel_left}

-- A new transfer adds its amount to what is in transit.
pub total_in_transit-insert :
    (id : String) (c : TransferCertificate) (m : Dict TransferState)
    → lookup id m ≡ none
    → total_in_transit (insert id (sent c) m) ≡ total_in_transit m +ℤ c.amount
unfolding lookup insert
total_in_transit-insert id c [] h = omega int_laws
total_in_transit-insert id c ((j, t) ∷ m) h = elim (Bool-cases (str_eq j id)) [
  | inl same ↦ ground arith
  | inr other ↦
      let rest = total_in_transit-insert id c m (rw other at h) in
      rw other (omega (int_laws, parts rest))
]

-- One that arrives takes it out again.
pub total_in_transit-arrive :
    (id : String) (r : Receipt) (t : TransferState) (m : Dict TransferState)
    → lookup id m ≡ some t
    → t.in_transit ≡ true
    → total_in_transit (modify id (arrive r) m) +ℤ t.certificate.amount ≡ total_in_transit m
unfolding lookup modify
total_in_transit-arrive id r t [] h moving = cc
total_in_transit-arrive id r t ((j, u) ∷ m) h moving = elim (Bool-cases (str_eq j id)) [
  | inl same ↦ let e : u ≡ t = ground arith in rw (same, e, moving) (omega int_laws)
  | inr other ↦
      let rest = total_in_transit-arrive id r t m (rw other at h) moving in
      rw other (omega (int_laws, parts rest))
]

-- The two effects of the transfers differ.
pub out-in : (id other : String) → str_eq (out_effect id) (in_effect other) ≡ false
out-in id other =
    ap (λ x. str_eq x (in_effect other)) (append_assoc "rights-transfer-o" "ut:" id)
    ∙ ap (str_eq (String.◌++◌ "rights-transfer-o" (String.◌++◌ "ut:" id)))
        (append_assoc "rights-transfer-i" "n:" other)
    ∙ first_ne "rights-transfer-o" "rights-transfer-i" (String.◌++◌ "ut:" id)
        (String.◌++◌ "n:" other) refl refl

pub in-out : (id other : String) → str_eq (in_effect id) (out_effect other) ≡ false
in-out id other = ground (
  arith,
  out-in other id,
  eq_iff (in_effect id) (out_effect other),
  eq_iff (out_effect other) (in_effect id),
)

pub out-out : (id other : String) → str_eq (out_effect id) (out_effect other) ≡ str_eq id other
out-out id other = ground (
  arith,
  eq_iff id other,
  eq_iff (out_effect id) (out_effect other),
  append_cancel_left "rights-transfer-out:" id other,
)

pub in-in : (id other : String) → str_eq (in_effect id) (in_effect other) ≡ str_eq id other
in-in id other = ground (
  arith,
  eq_iff id other,
  eq_iff (in_effect id) (in_effect other),
  append_cancel_left "rights-transfer-in:" id other,
)

-- ===== src/Failuresim/Funds/Shift.antt =====
-- A post that moves `d` on the customer's account and on one region's authority, and nothing on the
-- accounts of the reserve and of the rights in transit, keeps the conservation laws.
use payment_platform.Common.{
  ℕ, String, str_eq, eq_iff, ◌≡◌, refl, ap, ◌∙◌, inl, inr, some, pos, ◌+ℤ◌, ◌≤ℤ◌, ℤ, List, [], ◌∷◌,
  if◌then◌else◌, Bool-cases, arith, int_laws, parts, +ℤ_zero, subst,
}
use payment_platform.Common.Dict.{Dict, lookup, modify, lookup-modify}
use payment_platform.Ledger.Amount.{Amount}
use payment_platform.Failuresim.Types.{
  JournalLine, Receipt, user_account, authority_transit_account, authority_unallocated_account,
}
use payment_platform.Failuresim.Hashing.{Primitives}
use payment_platform.Failuresim.Book.{Book}
use payment_platform.Failuresim.Book.Balances.{net}
use payment_platform.Failuresim.Book.Posts.{IsAppend, get-append}
use payment_platform.Failuresim.Book.Invariant.{IsSound-commit}
use payment_platform.Failuresim.World.{RegionState, TransferState, regional_account}
use payment_platform.Failuresim.Payments.{set_rights}
use payment_platform.Failuresim.Funds.Effects.{IsForeign, IsTracked-foreign}
use payment_platform.Failuresim.Funds.{total_rights, balance, IsBacked, IsFunded}

pub total_rights-modify :
    (name : String) (rights : Amount) (s : RegionState) (m : Dict RegionState)
    → lookup name m ≡ some s
    → total_rights (modify name (set_rights rights) m) +ℤ s.rights ≡ total_rights m +ℤ rights
unfolding lookup modify
total_rights-modify name rights s [] h = cc
total_rights-modify name rights s ((j, v) ∷ m) h = elim (Bool-cases (str_eq j name)) [
  | inl same ↦
      let e : v ≡ s = ground arith in
      rw (same, ap (λ (r : RegionState). r.rights) e) (omega int_laws)
  | inr other ↦
      let rest = total_rights-modify name rights s m (rw other at h) in
      rw other (omega (int_laws, parts rest))
]

-- What the lines of a credit of `d` to a region do to the accounts that the laws speak of.
pub record IsShift (region : String) (d : ℤ) (lines : List JournalLine) : Type 0 where
  pub user : net user_account lines ≡ d
  pub transit : net authority_transit_account lines ≡ pos 0
  pub reserve : net authority_unallocated_account lines ≡ pos 0
  pub regional :
      (name : String)
      → net (regional_account name) lines ≡ (if str_eq region name then d else pos 0)

module _ (prim : Primitives) (credit unallocated authority : Amount) (regions : Dict RegionState)
    (transfers : Dict TransferState) {b b' : Book} (effect kind : String) (fingerprint : ℕ)
    (lines : List JournalLine) {r : Receipt}
    (v : IsFunded prim credit unallocated authority regions transfers b)
    (appended : IsAppend prim effect kind fingerprint lines b b' r) where
  pub moved : (a : String) → balance a b' ≡ balance a b +ℤ net a lines
  moved a = get-append prim effect kind fingerprint lines b a appended

  module _ (region : String) (s : RegionState) (d : ℤ) (rights : Amount)
      (known : lookup region regions ≡ some s)
      (regional : (name : String)
        → net (regional_account name) lines ≡ (if str_eq region name then d else pos 0))
      (e : rights ≡ s.rights +ℤ d) (enough : pos 0 ≤ℤ rights) where
    pub IsBacked-after :
        (name : String) (t : RegionState)
        → lookup name (modify region (set_rights rights) regions) ≡ some t
        → IsBacked b' name t
    IsBacked-after name t h = elim (Bool-cases (str_eq region name)) [
      | inl same ↦
          let n : region ≡ name = (eq_iff region name).0 same in
          let k : lookup name regions ≡ some s = subst (λ x. lookup x regions ≡ some s) n known in
          let q : t.rights ≡ rights =
            ground (arith, lookup-modify region name (set_rights rights) regions) in
          record {
            journaled =
                moved (regional_account name)
                ∙ rw (regional name, same, (v.backed name s k).journaled, q, e) refl;
            nonneg = rw q enough;
          }
      | inr other ↦
          let k : lookup name regions ≡ some t =
            ground (arith, lookup-modify region name (set_rights rights) regions) in
          let old = v.backed name t k in
          record {
            journaled =
                moved (regional_account name)
                ∙ rw (regional name, other) (+ℤ_zero _ ∙ old.journaled);
            nonneg = old.nonneg;
          }
    ]

  module _ (region : String) (s : RegionState) (d : ℤ) (rights : Amount)
      (known : lookup region regions ≡ some s) (shift : IsShift region d lines)
      (e : rights ≡ s.rights +ℤ d) (enough : pos 0 ≤ℤ rights) where
    pub IsFunded-shift :
        IsForeign effect
        → pos 0 ≤ℤ authority +ℤ d
        → IsFunded prim credit unallocated
            (authority +ℤ d)
            (modify region (set_rights rights) regions)
            transfers
            b'
    IsFunded-shift foreign solvent = record {
      sound = IsSound-commit prim effect kind fingerprint lines b v.sound appended;
      available = rw (moved user_account, shift.user) (omega (int_laws, parts v.available));
      solvent = solvent;
      escrowed = omega (
        int_laws,
        parts v.escrowed,
        parts e,
        parts (total_rights-modify region rights s regions known),
      );
      transit = moved authority_transit_account ∙ rw shift.transit (+ℤ_zero _ ∙ v.transit);
      reserve = moved authority_unallocated_account ∙ rw shift.reserve (+ℤ_zero _ ∙ v.reserve);
      backed = IsBacked-after region s d rights known shift.regional e enough;
      tracked =
          IsTracked-foreign prim effect kind fingerprint lines transfers b appended foreign
            v.tracked;
    }

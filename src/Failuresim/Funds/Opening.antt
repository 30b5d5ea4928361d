-- ===== src/Failuresim/Funds/Opening.antt =====
-- The opening lines of `NewWorld`, account by account.
use payment_platform.Common.{
  String, str_eq, ◌≡◌, refl, inl, inr, pos, ◌+ℤ◌, ◌≤ℤ◌, List, [], ◌∷◌, ◌++◌, Bool-cases, arith,
  int_laws, parts, false, ◌∙◌, +ℤ_zero, zero_+ℤ,
}
use payment_platform.Common.Int.{+ℤ_parts}
use payment_platform.Common.Dict.{Dict}
use payment_platform.Ledger.Amount.{Amount, is_negative, is_positive}
use payment_platform.Failuresim.Types.{
  JournalLine, user_account, funding_account, authority_issuer_account, authority_transit_account,
  authority_unallocated_account,
}
use payment_platform.Failuresim.Hashing.{Primitives}
use payment_platform.Failuresim.Book.{Book}
use payment_platform.Failuresim.Book.Balances.{net}
use payment_platform.Failuresim.Book.Invariant.{IsSound}
use payment_platform.Failuresim.World.{RegionState, regional_account}
use payment_platform.Failuresim.Genesis.{
  Config, sort_regions, balance_lines, reserve_lines, authority_lines, authority_asset_of,
  genesis_lines,
}
use payment_platform.Failuresim.Funds.{total_rights, balance, IsFunded, IsTracked}
use payment_platform.Failuresim.Funds.Accounts.{
  regional-user, regional-authority_transit, regional-authority_unallocated, user-regional,
  authority_issuer-regional, funding-regional, authority_unallocated-regional,
}
use payment_platform.Failuresim.Funds.Rights.{
  IsMap, HasRights, keyed, HasRights-sort, keyed-sort, keyed-lookup, HasRights-lookup,
  net-rights_lines, net-rights_lines_other,
}

net-append : (a : String) (xs ys : List JournalLine) → net a (xs ++ ys) ≡ net a xs +ℤ net a ys
net-append a [] ys = omega int_laws
net-append a (l ∷ xs) ys = rw (net-append a xs ys) (omega int_laws)

-- A region has at most the rights of all.
keyed_bounds :
    (name : String) (m : Dict RegionState)
    → HasRights m
    → (pos 0 ≤ℤ keyed name m) × (keyed name m ≤ℤ total_rights m)
keyed_bounds name [] h = (ground arith, ground arith)
keyed_bounds name ((k, s) ∷ m) h = elim (Bool-cases (str_eq k name)) [
  | inl same ↦
      let (low, high) = keyed_bounds name m h.1 in
      rw same (omega (int_laws, low, high, h.0), omega (int_laws, low, high, h.0))
  | inr other ↦
      let (low, high) = keyed_bounds name m h.1 in
      rw other (omega (int_laws, low, high, h.0), omega (int_laws, low, high, h.0))
]

module _ (c : Config) where
  balance_lines-user :
      is_negative c.initial_balance ≡ false → net user_account (balance_lines c) ≡ c.initial_balance
  unfolding balance_lines
  balance_lines-user h = elim (Bool-cases (is_positive c.initial_balance)) [
    | inl positive ↦ rw positive (omega int_laws)
    | inr zero ↦ rw zero (ground arith)
  ]

  -- They move only the customer's account and the funding account.
  balance_lines-other :
      (a : String)
      → str_eq user_account a ≡ false
      → str_eq funding_account a ≡ false
      → net a (balance_lines c) ≡ pos 0
  unfolding balance_lines
  balance_lines-other a h k = elim (Bool-cases (is_positive c.initial_balance)) [
    | inl positive ↦ rw (positive, h, k) (omega int_laws)
    | inr zero ↦ rw zero refl
  ]

  reserve_lines-net :
      is_negative c.unallocated ≡ false
      → net authority_unallocated_account (reserve_lines c) ≡ c.unallocated
  unfolding reserve_lines
  reserve_lines-net h = elim (Bool-cases (is_positive c.unallocated)) [
    | inl positive ↦ rw positive (omega int_laws)
    | inr zero ↦ rw zero (ground arith)
  ]

  reserve_lines-other :
      (a : String)
      → str_eq authority_unallocated_account a ≡ false
      → net a (reserve_lines c) ≡ pos 0
  unfolding reserve_lines
  reserve_lines-other a h = elim (Bool-cases (is_positive c.unallocated)) [
    | inl positive ↦ rw (positive, h) (omega int_laws)
    | inr zero ↦ rw zero refl
  ]

  module _ (authority : Amount) (regions : Dict RegionState)
      (balance_ok : is_negative c.initial_balance ≡ false)
      (unallocated_ok : is_negative c.unallocated ≡ false)
      (authority_ok : is_negative authority ≡ false) (rights : HasRights regions)
      (total : c.unallocated +ℤ total_rights regions ≡ authority) where
    authority_lines-other :
        (a : String)
        → str_eq authority_issuer_account a ≡ false
        → str_eq authority_unallocated_account a ≡ false
        → ((name : String) → str_eq (regional_account name) a ≡ false)
        → net a (authority_lines c authority regions) ≡ pos 0
    unfolding authority_lines
    authority_lines-other a h k ne = elim (Bool-cases (is_positive authority)) [
      | inr zero ↦ rw zero refl
      | inl positive ↦
          rw
            (
              positive,
              h,
              net-append a (reserve_lines c) _,
              reserve_lines-other a k,
              net-rights_lines_other a (authority_asset_of c.asset) (sort_regions regions) ne,
            )
            (omega int_laws)
    ]

    authority_lines-reserve :
        net authority_unallocated_account (authority_lines c authority regions) ≡ c.unallocated
    unfolding authority_lines
    authority_lines-reserve = elim (Bool-cases (is_positive authority)) [
      | inr zero ↦
          let (low, high) = keyed_bounds "" regions rights in
          rw zero (ground (arith, parts total, +ℤ_parts c.unallocated (total_rights regions)))
      | inl positive ↦
          rw
            (
              positive,
              net-append authority_unallocated_account (reserve_lines c) _,
              reserve_lines-net unallocated_ok,
              net-rights_lines_other authority_unallocated_account (authority_asset_of c.asset)
                  (sort_regions regions) regional-authority_unallocated,
            )
            (omega int_laws)
    ]

    authority_lines-region :
        (name : String)
        → net (regional_account name) (authority_lines c authority regions) ≡ keyed name regions
    unfolding authority_lines
    authority_lines-region name = elim (Bool-cases (is_positive authority)) [
      | inr zero ↦
          let (low, high) = keyed_bounds name regions rights in
          rw zero (ground (arith, parts total, +ℤ_parts c.unallocated (total_rights regions)))
      | inl positive ↦
          rw
            (
              positive,
              authority_issuer-regional name,
              net-append (regional_account name) (reserve_lines c) _,
              reserve_lines-other (regional_account name) (authority_unallocated-regional name),
              net-rights_lines name (authority_asset_of c.asset) (sort_regions regions)
                  (HasRights-sort regions rights),
              keyed-sort name regions,
            )
            (omega int_laws)
    ]

    abbrev pub posted_lines : List JournalLine
    posted_lines = genesis_lines c authority regions

    user_net : net user_account posted_lines ≡ c.initial_balance
    unfolding genesis_lines
    user_net =
        rw
          (
            net-append user_account (balance_lines c) _,
            balance_lines-user balance_ok,
            authority_lines-other user_account refl refl regional-user,
          )
          (+ℤ_zero _)

    transit_net : net authority_transit_account posted_lines ≡ pos 0
    unfolding genesis_lines
    transit_net =
        rw
          (
            net-append authority_transit_account (balance_lines c) _,
            balance_lines-other authority_transit_account refl refl,
            authority_lines-other authority_transit_account refl refl regional-authority_transit,
          )
          (+ℤ_zero _)

    reserve_net : net authority_unallocated_account posted_lines ≡ c.unallocated
    unfolding genesis_lines
    reserve_net =
        rw
          (
            net-append authority_unallocated_account (balance_lines c) _,
            balance_lines-other authority_unallocated_account refl refl,
            authority_lines-reserve,
          )
          (zero_+ℤ _)

    region_net : (name : String) → net (regional_account name) posted_lines ≡ keyed name regions
    unfolding genesis_lines
    region_net name =
        rw
          (
            net-append (regional_account name) (balance_lines c) _,
            balance_lines-other (regional_account name) (user-regional name)
                (funding-regional name),
            authority_lines-region name,
          )
          (zero_+ℤ _)

    -- A sound book whose balances are those of the lines, and without a transfer's effect.
    pub IsFunded-genesis :
        (prim : Primitives) (b : Book)
        → IsMap regions
        → c.initial_balance +ℤ c.credit_limit ≡ authority
        → IsSound prim b
        → ((a : String) → balance a b ≡ net a posted_lines)
        → IsTracked [] b
        → IsFunded prim c.credit_limit c.unallocated authority regions [] b
    IsFunded-genesis prim b unique credit sound at tracked = record {
      sound = sound;
      available = rw (at user_account, user_net) credit;
      solvent = ground arith;
      escrowed = +ℤ_zero _ ∙ total;
      transit = at authority_transit_account ∙ transit_net;
      reserve = at authority_unallocated_account ∙ reserve_net;
      backed = λ name s known. record {
        journaled =
            at (regional_account name)
            ∙ region_net name
            ∙ keyed-lookup name regions unique
            ∙ rw known refl;
        nonneg = HasRights-lookup name s regions known rights;
      };
      tracked = tracked;
    }

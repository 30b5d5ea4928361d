-- ===== src/Failuresim/Funds.antt =====
-- The conservation laws that `AssertAllFinancialInvariants` (internal/failuresim/invariants.go) checks of
-- balances, authority, regional rights and rights in transit, as an invariant of the state.
pub mod Accounts
pub mod Effects
pub mod Shift
pub mod Lines
pub mod Frames
pub mod Payments
pub mod Credits
pub mod Operations
pub mod Transit
pub mod Transfers
pub mod Moves
pub mod Arrivals
pub mod Rights
pub mod Opening
pub mod Genesis
pub mod Delivery
pub mod Ticks
pub mod Runs
use payment_platform.Common.{
  ℕ, String, ◌≡◌, some, none, true, pos, ◌+ℤ◌, ◌≤ℤ◌, ℤ, List, [], ◌∷◌, if◌then◌else◌, Bool,
}
use payment_platform.Common.Dict.{Dict, lookup, get}
use payment_platform.Ledger.Amount.{Amount}
use payment_platform.Failuresim.Types.{
  user_account, authority_transit_account, authority_unallocated_account,
}
use payment_platform.Failuresim.Hashing.{Primitives}
use payment_platform.Failuresim.Book.{Book}
use payment_platform.Failuresim.Book.Invariant.{IsSound}
use payment_platform.Failuresim.Transfers.{out_effect, in_effect}
use payment_platform.Failuresim.World.{World, RegionState, TransferState, regional_account}

-- The rights of all regions.
abbrev pub total_rights : Dict RegionState → ℤ
total_rights [] = pos 0
total_rights ((_, s) ∷ rest) = s.rights +ℤ total_rights rest

-- The rights that have left their region and have not arrived.
abbrev pub total_in_transit : Dict TransferState → ℤ
total_in_transit [] = pos 0
total_in_transit ((_, t) ∷ rest) =
    (if t.in_transit then t.certificate.amount else pos 0) +ℤ total_in_transit rest

abbrev pub balance : String → Book → Amount
balance account b = get (pos 0) account b.balances

-- A region's rights are what the journal gives its account, and are not negative.
pub record IsBacked (b : Book) (name : String) (s : RegionState) : Type 0 where
  pub journaled : balance (regional_account name) b ≡ s.rights
  pub nonneg : pos 0 ≤ℤ s.rights

-- A transfer that is not issued has posted neither of its effects, one in transit not its second.
pub record IsTracked (transfers : Dict TransferState) (b : Book) : Type 0 where
  pub unissued :
      (id : String)
      → lookup id transfers ≡ none
      → (lookup (out_effect id) b.effects ≡ none) × (lookup (in_effect id) b.effects ≡ none)
  pub pending :
      (id : String) (t : TransferState)
      → lookup id transfers ≡ some t
      → t.in_transit ≡ true
      → lookup (in_effect id) b.effects ≡ none

pub record IsFunded (prim : Primitives) (credit unallocated authority : Amount)
    (regions : Dict RegionState) (transfers : Dict TransferState) (b : Book) : Type 0 where
  pub sound : IsSound prim b
  pub available : balance user_account b +ℤ credit ≡ authority
  pub solvent : pos 0 ≤ℤ authority
  pub escrowed : unallocated +ℤ total_rights regions +ℤ total_in_transit transfers ≡ authority
  pub transit : balance authority_transit_account b ≡ total_in_transit transfers
  pub reserve : balance authority_unallocated_account b ≡ unallocated
  pub backed : (name : String) (s : RegionState) → lookup name regions ≡ some s → IsBacked b name s
  pub tracked : IsTracked transfers b

abbrev pub Funded : Primitives → World → Type 0
Funded prim w =
    IsFunded prim w.credit_limit w.unallocated w.authority_total w.regions w.transfers w.book

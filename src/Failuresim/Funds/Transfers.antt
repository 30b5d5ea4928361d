-- ===== src/Failuresim/Funds/Transfers.antt =====
-- A transfer of rights keeps the conservation laws, when it is sent and when it arrives.
use payment_platform.Common.{
  ℕ, String, str_eq, eq_iff, ◌≡◌, ◌∙◌, inl, inr, some, none, pos, ◌+ℤ◌, ◌-ℤ◌, ◌≤ℤ◌, ℤ, List,
  if◌then◌else◌, Bool-cases, arith, int_laws, parts, +ℤ_zero, subst, false,
}
use payment_platform.Common.Dict.{Dict, lookup, modify, insert, lookup-insert, lookup-modify}
use payment_platform.Ledger.Amount.{Amount}
use payment_platform.Failuresim.Types.{
  JournalLine, Receipt, user_account, authority_transit_account, authority_unallocated_account,
  TransferCertificate,
}
use payment_platform.Failuresim.Hashing.{Primitives}
use payment_platform.Failuresim.Book.{Book}
use payment_platform.Failuresim.Book.Balances.{net}
use payment_platform.Failuresim.Book.Posts.{IsAppend, lookup-append}
use payment_platform.Failuresim.Book.Invariant.{IsSound-commit}
use payment_platform.Failuresim.World.{World, RegionState, TransferState, regional_account}
use payment_platform.Failuresim.Payments.{set_rights}
use payment_platform.Failuresim.Transfers.{out_effect, in_effect, sent, transfer_out_lines}
use payment_platform.Failuresim.Arrivals.{arrive, transfer_in_lines}
use payment_platform.Failuresim.Funds.{total_in_transit, balance, IsTracked, IsFunded}
use payment_platform.Failuresim.Funds.Accounts.{
  regional-user, regional-authority_transit, regional-authority_unallocated,
  authority_transit-regional, str_eq-regional,
}
use payment_platform.Failuresim.Funds.Shift.{IsBacked-after, moved, total_rights-modify}
use payment_platform.Failuresim.Funds.Transit.{out-in, in-out, out-out, in-in}

-- What a transfer's lines do to the accounts that the laws speak of.
pub record IsMove (region : String) (d : ℤ) (lines : List JournalLine) : Type 0 where
  pub user : net user_account lines ≡ pos 0
  pub transit : net authority_transit_account lines ≡ pos 0 -ℤ d
  pub reserve : net authority_unallocated_account lines ≡ pos 0
  pub regional :
      (name : String)
      → net (regional_account name) lines ≡ (if str_eq region name then d else pos 0)

pub out_lines-IsMove :
    (w : World) (region : String) (amount : Amount)
    → IsMove region (pos 0 -ℤ amount) (transfer_out_lines w region amount)
out_lines-IsMove w region amount = record {
  user = rw (regional-user region) (omega int_laws);
  transit = rw (regional-authority_transit region) (omega int_laws);
  reserve = rw (regional-authority_unallocated region) (omega int_laws);
  regional =
      λ name. rw (authority_transit-regional name, str_eq-regional region name) (omega int_laws);
}

pub in_lines-IsMove :
    (w : World) (region : String) (amount : Amount)
    → IsMove region amount (transfer_in_lines w region amount)
in_lines-IsMove w region amount = record {
  user = rw (regional-user region) (omega int_laws);
  transit = rw (regional-authority_transit region) (omega int_laws);
  reserve = rw (regional-authority_unallocated region) (omega int_laws);
  regional =
      λ name. rw (authority_transit-regional name, str_eq-regional region name) (omega int_laws);
}

module _ (prim : Primitives) (credit unallocated authority : Amount) (regions : Dict RegionState)
    (transfers : Dict TransferState) {b b' : Book} (effect kind : String) (fingerprint : ℕ)
    (lines : List JournalLine) {r : Receipt}
    (v : IsFunded prim credit unallocated authority regions transfers b)
    (appended : IsAppend prim effect kind fingerprint lines b b' r) where
  -- Rights that move between a region and the transit account, whatever the transfers become.
  pub IsFunded-move :
      (region : String) (s : RegionState) (d : ℤ) (rights : Amount) (after : Dict TransferState)
      → lookup region regions ≡ some s
      → IsMove region d lines
      → rights ≡ s.rights +ℤ d
      → pos 0 ≤ℤ rights
      → total_in_transit after +ℤ d ≡ total_in_transit transfers
      → IsTracked after b'
      → IsFunded prim credit unallocated authority
          (modify region (set_rights rights) regions)
          after
          b'
  IsFunded-move region s d rights after known m e enough total tracked = record {
    sound = IsSound-commit prim effect kind fingerprint lines b v.sound appended;
    available = rw (at user_account, m.user) (omega (int_laws, parts v.available));
    solvent = v.solvent;
    escrowed = omega (
      int_laws,
      parts v.escrowed,
      parts e,
      parts total,
      parts (total_rights-modify region rights s regions known),
    );
    transit =
        at authority_transit_account
        ∙ rw m.transit (omega (int_laws, parts v.transit, parts total));
    reserve = at authority_unallocated_account ∙ rw m.reserve (+ℤ_zero _ ∙ v.reserve);
    backed =
        IsBacked-after prim credit unallocated authority regions transfers effect kind fingerprint
          lines v appended region s d rights known m.regional e enough;
    tracked = tracked;
  }
    where
      at : (a : String) → balance a b' ≡ balance a b +ℤ net a lines
      at =
          moved prim credit unallocated authority regions transfers effect kind fingerprint lines v
            appended

module _ (prim : Primitives) (kind : String) (fingerprint : ℕ) (lines : List JournalLine)
    (transfers : Dict TransferState) {b b' : Book} {r : Receipt} (v : IsTracked transfers b)
    (id : String) where
  pub IsTracked-sent :
      (c : TransferCertificate)
      → lookup id transfers ≡ none
      → IsAppend prim (out_effect id) kind fingerprint lines b b' r
      → IsTracked (insert id (sent c) transfers) b'
  IsTracked-sent c new p = record {
    unissued = λ other h. elim (Bool-cases (str_eq id other)) [
      | inl same ↦ ground (arith, lookup-insert id other (sent c) transfers)
      | inr ne ↦
          let old = v.unissued other (ground (arith, lookup-insert id other (sent c) transfers)) in
          (
            kept (out_effect other) (out-out id other ∙ ne) ∙ old.0,
            kept (in_effect other) (out-in id other) ∙ old.1,
          )
    ];
    pending = λ other t h moving.
        kept (in_effect other) (out-in id other) ∙ elim (Bool-cases (str_eq id other)) [
          | inl same ↦
              let e : id ≡ other = (eq_iff id other).0 same in
              subst (λ x. lookup (in_effect x) b.effects ≡ none) e (v.unissued id new).1
          | inr ne ↦
              v.pending other t (ground (arith, lookup-insert id other (sent c) transfers)) moving
        ];
  }
    where
      kept :
          (e : String) → str_eq (out_effect id) e ≡ false → lookup e b'.effects ≡ lookup e b.effects
      kept e ne = lookup-append prim (out_effect id) kind fingerprint lines b e p ne

  pub IsTracked-arrived :
      (receipt : Receipt) (u : TransferState)
      → lookup id transfers ≡ some u
      → IsAppend prim (in_effect id) kind fingerprint lines b b' r
      → IsTracked (modify id (arrive receipt) transfers) b'
  IsTracked-arrived receipt u known p = record {
    unissued = λ other h. elim (Bool-cases (str_eq id other)) [
      | inl same ↦
          let e : lookup other transfers ≡ some u =
            subst (λ x. lookup x transfers ≡ some u) ((eq_iff id other).0 same) known in
          ground (arith, lookup-modify id other (arrive receipt) transfers)
      | inr ne ↦
          let old =
            v.unissued other (ground (arith, lookup-modify id other (arrive receipt) transfers)) in
          (
            kept (out_effect other) (in-out id other) ∙ old.0,
            kept (in_effect other) (in-in id other ∙ ne) ∙ old.1,
          )
    ];
    pending = λ other t h moving. elim (Bool-cases (str_eq id other)) [
      | inl same ↦
          let e : lookup other transfers ≡ some u =
            subst (λ x. lookup x transfers ≡ some u) ((eq_iff id other).0 same) known in
          ground (arith, lookup-modify id other (arrive receipt) transfers)
      | inr ne ↦
          kept (in_effect other) (in-in id other ∙ ne)
          ∙ v.pending other t (ground (arith, lookup-modify id other (arrive receipt) transfers))
              moving
    ];
  }
    where
      kept :
          (e : String) → str_eq (in_effect id) e ≡ false → lookup e b'.effects ≡ lookup e b.effects
      kept e ne = lookup-append prim (in_effect id) kind fingerprint lines b e p ne

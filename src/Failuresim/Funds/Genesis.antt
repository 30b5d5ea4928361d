-- ===== src/Failuresim/Funds/Genesis.antt =====
-- `NewWorld` establishes the conservation laws.
use payment_platform.Common.{
  ℕ, String, str_eq, ◌≡◌, refl, sym, subst, inl, inr, pos, ◌+ℤ◌, List, [], ◌∷◌, Bool-cases, arith,
  int_laws, parts, true, false, Result-cases, ok, ◌||◌, ◌∙◌, zero_+ℤ, eqb_ℤ,
}
use payment_platform.Common.Int.{+ℤ_parts, eq_of_parts}
use payment_platform.Common.Dict.{Dict, lookup, get}
use payment_platform.Ledger.Amount.{Amount, add, add-ok, is_negative, to_string}
use payment_platform.Failuresim.Types.{JournalLine}
use payment_platform.Failuresim.Hashing.{Primitives, request_fingerprint}
use payment_platform.Failuresim.Book.{Book, post_locked}
use payment_platform.Failuresim.Book.Balances.{net}
use payment_platform.Failuresim.Book.Posts.{post_locked-cases, get-append}
use payment_platform.Failuresim.Book.Invariant.{IsSound, IsSound-commit}
use payment_platform.Failuresim.World.{World, RegionState}
use payment_platform.Failuresim.Genesis.{
  Config, add_rights, genesis_lines, empty_book, first_regions, empty_world, post_genesis,
  new_world, is_empty,
}
use payment_platform.Failuresim.Funds.{total_rights, balance, Funded, IsFunded, IsTracked}
use payment_platform.Failuresim.Funds.Effects.{IsForeign-letter, IsTracked-foreign}
use payment_platform.Failuresim.Funds.Rights.{IsMap, HasRights, rights_of, add_rights-ok}
use payment_platform.Failuresim.Funds.Opening.{IsFunded-genesis}

pub empty_book-IsSound : (prim : Primitives) → IsSound prim empty_book
unfolding lookup get
empty_book-IsSound prim = record {
  explained = λ a. refl;
  chained = (refl, refl);
  balanced = tt;
  once = λ e. refl;
  recorded = λ e r h. cc;
}

empty_book-IsTracked : IsTracked [] empty_book
unfolding lookup
empty_book-IsTracked = record { unissued = λ id h. (refl, refl); pending = λ id t h moving. cc }

first_regions-IsMap : IsMap first_regions
unfolding lookup
first_regions-IsMap = (refl, (refl, (refl, tt)))

first_regions-HasRights : HasRights first_regions
first_regions-HasRights = (ground arith, (ground arith, (ground arith, tt)))

first_regions-total : total_rights first_regions ≡ pos 0
unfolding ◌+ℤ◌
first_regions-total = refl

first_regions-zero : (k : String) → rights_of (lookup k first_regions) ≡ pos 0
unfolding lookup
first_regions-zero k = ground arith

net-empty : (a : String) (lines : List JournalLine) → is_empty lines ≡ true → pos 0 ≡ net a lines
net-empty a [] h = refl
net-empty a (l ∷ lines) h = cc

module _ (prim : Primitives) (c : Config) where
  -- The post of the opening funds.
  genesis-Funded :
      (seed : ℕ) (authority : Amount) (regions : Dict RegionState) {w : World}
      → is_negative c.initial_balance ≡ false
      → is_negative c.unallocated ≡ false
      → is_negative authority ≡ false
      → c.initial_balance +ℤ c.credit_limit ≡ authority
      → c.unallocated +ℤ total_rights regions ≡ authority
      → HasRights regions
      → IsMap regions
      → post_genesis prim c
          (genesis_lines c authority regions)
          (empty_world prim c seed authority regions)
        ≡ ok w
      → Funded prim w
  unfolding post_genesis empty_world lookup get
  genesis-Funded seed authority regions {w} p q o credit total rights unique h =
      elim (Bool-cases (is_empty lines)) [
        | inl none_posted ↦
            let e : empty_world prim c seed authority regions ≡ w = ground arith in
            subst (Funded prim) e (
              funded empty_book (empty_book-IsSound prim) (λ a. net-empty a lines none_posted)
                empty_book-IsTracked)
        | inr some_posted ↦
            elim (Result-cases
              (post_locked prim "genesis" "GENESIS" fingerprint lines empty_book)) [
                | inl (e, failed) ↦ ground arith
                | inr (posted, e) ↦
                    let done : record (empty_world prim c seed authority regions) {
                      book = posted.0;
                    }
                        ≡ w =
                      ground arith in
                    elim (post_locked-cases prim "genesis" "GENESIS" fingerprint lines empty_book
                      e) [
                        | inl replayed ↦ ground (arith, replayed.known)
                        | inr appended ↦ subst (Funded prim) done (
                            funded posted.0
                              (IsSound-commit prim "genesis" "GENESIS" fingerprint lines empty_book
                                (empty_book-IsSound prim) appended)
                              (λ a.
                                get-append prim "genesis" "GENESIS" fingerprint lines empty_book a
                                  appended
                                ∙ zero_+ℤ _)
                              (IsTracked-foreign prim "genesis" "GENESIS" fingerprint lines []
                                empty_book appended (IsForeign-letter "g" "enesis" "" refl refl)
                                empty_book-IsTracked))
                      ]
              ]
      ]
    where
      lines : List JournalLine
      lines = genesis_lines c authority regions

      fingerprint : ℕ
      fingerprint =
          request_fingerprint prim
            ("GENESIS" ∷ c.asset ∷ to_string c.initial_balance ∷ to_string c.credit_limit ∷ [])

      funded :
          (b : Book)
          → IsSound prim b
          → ((a : String) → balance a b ≡ net a lines)
          → IsTracked [] b
          → IsFunded prim c.credit_limit c.unallocated authority regions [] b
      funded b sound at tracked =
          IsFunded-genesis c authority regions p q o rights total prim b unique credit sound at
            tracked

  -- A configuration that is accepted makes a state in which the conservation laws hold, where the
  -- regions' rights are given by a map.
  pub new_world-Funded :
      (seed : ℕ) {w : World}
      → IsMap c.regional_rights
      → new_world prim c seed ≡ ok w
      → Funded prim w
  unfolding new_world
  new_world-Funded seed unique h =
      elim (Bool-cases (
        str_eq c.asset ""
        || (is_negative c.initial_balance
            || (is_negative c.credit_limit || is_negative c.unallocated)))) [
              | inl bad ↦ ground arith
              | inr good ↦ elim (Result-cases (add c.initial_balance c.credit_limit)) [
                | inl (e, failed) ↦ ground arith
                | inr (authority, added) ↦
                    elim (Result-cases (add_rights c.regional_rights c.unallocated first_regions)) [
                      | inl (e, failed) ↦ ground arith
                      | inr ((total, regions), made) ↦ elim (Bool-cases (eqb_ℤ total authority)) [
                        | inr differ ↦ ground arith
                        | inl equal ↦
                            let r =
                              add_rights-ok c.regional_rights c.unallocated first_regions unique
                                first_regions-IsMap first_regions-HasRights
                                (λ k a found. first_regions-zero k) made in
                            let credit = add-ok c.initial_balance c.credit_limit added in
                            let same : total ≡ authority =
                              eq_of_parts total authority (ground arith) in
                            genesis-Funded seed authority regions (ground arith) (ground arith)
                              (ground
                                (arith, parts credit, +ℤ_parts c.initial_balance c.credit_limit))
                              (sym credit)
                              (omega (int_laws, parts same, parts r.sum, parts first_regions-total))
                              r.nonneg r.map (rw (good, added, made, equal) at h)
                      ]
                    ]
              ]
            ]

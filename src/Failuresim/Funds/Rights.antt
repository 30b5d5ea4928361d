-- ===== src/Failuresim/Funds/Rights.antt =====
-- The regions that `NewWorld` makes of a configuration: their rights, in the state and in the lines.
use payment_platform.Common.{
  str_eq_refl, String, str_eq, eq_iff, ◌≡◌, refl, ap, subst, inl, inr, some, none, Option, Bool,
  pos, ◌+ℤ◌, ◌≤ℤ◌, ℤ, [], ◌∷◌, if◌then◌else◌, Bool-cases, arith, int_laws, parts, true, false,
  Result-cases, ok, ◌||◌, ◌∙◌, +ℤ_zero, zero_+ℤ,
}
use payment_platform.Common.Dict.{Dict, lookup, insert, lookup-insert}
use payment_platform.Ledger.Amount.{Amount, add, add-ok, is_negative, is_positive}
use payment_platform.Failuresim.Book.Balances.{net}
use payment_platform.Failuresim.World.{RegionState, regional_account}
use payment_platform.Failuresim.Genesis.{started, add_rights, place, sort_regions, rights_lines}
use text.Mathlib.Text.{is_lt}
use Prim.Native.String.{compare}
use payment_platform.Failuresim.Funds.{total_rights}
use payment_platform.Failuresim.Funds.Accounts.{str_eq-regional}

-- Every key of the list stands in it once.
abbrev pub IsMap {ℓ} : {V : Type ℓ} → Dict V → Type ℓ
IsMap [] = Unit {ℓ}
IsMap ((k, _) ∷ m) = (lookup k m ≡ none) × IsMap m

abbrev pub HasRights : Dict RegionState → Type 0
HasRights [] = Unit {0}
HasRights ((_, s) ∷ m) = (pos 0 ≤ℤ s.rights) × HasRights m

abbrev pub rights_of : Option RegionState → ℤ
rights_of none = pos 0
rights_of (some s) = s.rights

-- The rights under a name, wherever they stand in the list.
abbrev pub keyed : String → Dict RegionState → ℤ
keyed name [] = pos 0
keyed name ((n, s) ∷ m) = (if str_eq n name then s.rights else pos 0) +ℤ keyed name m

IsMap-insert :
    (k : String) (s : RegionState) (m : Dict RegionState) → IsMap m → IsMap (insert k s m)
unfolding lookup insert
IsMap-insert k s [] h = (refl, tt)
IsMap-insert k s ((j, t) ∷ m) h = elim (Bool-cases (str_eq j k)) [
  | inl same ↦ rw same (rw ((eq_iff j k).0 same) at h)
  | inr other ↦
      rw other
        (ground (arith, lookup-insert k j s m, eq_iff j k, eq_iff k j), IsMap-insert k s m h.1)
]

HasRights-insert :
    (k : String) (s : RegionState) (m : Dict RegionState)
    → pos 0 ≤ℤ s.rights
    → HasRights m
    → HasRights (insert k s m)
unfolding insert
HasRights-insert k s [] e h = (e, tt)
HasRights-insert k s ((j, t) ∷ m) e h = elim (Bool-cases (str_eq j k)) [
  | inl same ↦ rw same (e, h.1)
  | inr other ↦ rw other (h.0, HasRights-insert k s m e h.1)
]

HasRights-place :
    (k : String) (s : RegionState) (m : Dict RegionState)
    → pos 0 ≤ℤ s.rights
    → HasRights m
    → HasRights (place k s m)
unfolding place
HasRights-place k s [] e h = (e, tt)
HasRights-place k s ((j, t) ∷ m) e h = elim (Bool-cases (is_lt (compare k j))) [
  | inl before ↦ rw before (e, h)
  | inr after ↦ rw after (h.0, HasRights-place k s m e h.1)
]

pub HasRights-sort : (m : Dict RegionState) → HasRights m → HasRights (sort_regions m)
unfolding sort_regions
HasRights-sort [] h = tt
HasRights-sort ((k, s) ∷ m) h = HasRights-place k s (sort_regions m) h.0 (HasRights-sort m h.1)

keyed-place :
    (name k : String) (s : RegionState) (m : Dict RegionState)
    → keyed name (place k s m) ≡ (if str_eq k name then s.rights else pos 0) +ℤ keyed name m
unfolding place
keyed-place name k s [] = refl
keyed-place name k s ((j, t) ∷ m) = elim (Bool-cases (is_lt (compare k j))) [
  | inl before ↦ rw before refl
  | inr after ↦ rw after (omega (int_laws, parts (keyed-place name k s m)))
]

pub keyed-sort : (name : String) (m : Dict RegionState) → keyed name (sort_regions m) ≡ keyed name m
unfolding sort_regions
keyed-sort name [] = refl
keyed-sort name ((k, s) ∷ m) =
    keyed-place name k s (sort_regions m)
    ∙ ap (λ t. (if str_eq k name then s.rights else pos 0) +ℤ t) (keyed-sort name m)

keyed-missing : (name : String) (m : Dict RegionState) → lookup name m ≡ none → keyed name m ≡ pos 0
unfolding lookup
keyed-missing name [] h = refl
keyed-missing name ((k, s) ∷ m) h = elim (Bool-cases (str_eq k name)) [
  | inl same ↦ ground arith
  | inr other ↦ rw other (zero_+ℤ _ ∙ keyed-missing name m (rw other at h))
]

pub keyed-lookup :
    (name : String) (m : Dict RegionState) → IsMap m → keyed name m ≡ rights_of (lookup name m)
unfolding lookup
keyed-lookup name [] u = refl
keyed-lookup name ((k, s) ∷ m) u = elim (Bool-cases (str_eq k name)) [
  | inl same ↦
      let e : k ≡ name = (eq_iff k name).0 same in
      rw same (
        ap (λ t. s.rights +ℤ t) (keyed-missing name m (subst (λ x. lookup x m ≡ none) e u.0))
        ∙ +ℤ_zero _)
  | inr other ↦ rw other (zero_+ℤ _ ∙ keyed-lookup name m u.1)
]

-- What `lookup` finds has rights.
pub HasRights-lookup :
    (name : String) (s : RegionState) (m : Dict RegionState)
    → lookup name m ≡ some s
    → HasRights m
    → pos 0 ≤ℤ s.rights
unfolding lookup
HasRights-lookup name s [] e h = cc
HasRights-lookup name s ((k, t) ∷ m) e h = elim (Bool-cases (str_eq k name)) [
  | inl same ↦ ground arith
  | inr other ↦ HasRights-lookup name s m (rw other at e) h.1
]

drop_zero : (b : Bool) (t : ℤ) → t ≡ (if b then pos 0 else pos 0) +ℤ t
drop_zero true t = omega int_laws
drop_zero false t = omega int_laws

-- The lines of the regions move the regions' accounts and no account of the other kinds.
pub net-rights_lines :
    (name asset : String) (m : Dict RegionState)
    → HasRights m
    → net (regional_account name) (rights_lines asset m) ≡ keyed name m
unfolding rights_lines
net-rights_lines name asset [] h = refl
net-rights_lines name asset ((k, s) ∷ m) h = elim (Bool-cases (is_positive s.rights)) [
  | inl positive ↦
      rw (positive, str_eq-regional k name)
        (ap (λ t. (if str_eq k name then s.rights else pos 0) +ℤ t)
          (net-rights_lines name asset m h.1))
  | inr none_left ↦
      let e : s.rights ≡ pos 0 = ground arith in
      rw (none_left, e)
        (net-rights_lines name asset m h.1 ∙ drop_zero (str_eq k name) (keyed name m))
]

pub net-rights_lines_other :
    (a asset : String) (m : Dict RegionState)
    → ((name : String) → str_eq (regional_account name) a ≡ false)
    → net a (rights_lines asset m) ≡ pos 0
unfolding rights_lines
net-rights_lines_other a asset [] ne = refl
net-rights_lines_other a asset ((k, s) ∷ m) ne = elim (Bool-cases (is_positive s.rights)) [
  | inl positive ↦ rw (positive, ne k) (zero_+ℤ _ ∙ net-rights_lines_other a asset m ne)
  | inr left ↦ rw left (net-rights_lines_other a asset m ne)
]

total_rights-insert :
    (k : String) (amount : Amount) (m : Dict RegionState)
    → rights_of (lookup k m) ≡ pos 0
    → total_rights (insert k (started amount) m) ≡ total_rights m +ℤ amount
unfolding lookup insert
total_rights-insert k amount [] h = omega int_laws
total_rights-insert k amount ((j, s) ∷ m) h = elim (Bool-cases (str_eq j k)) [
  | inl same ↦ let e : s.rights ≡ pos 0 = rw same at h in rw same (omega (int_laws, parts e))
  | inr other ↦ rw other (omega (int_laws, parts (total_rights-insert k amount m (rw other at h))))
]

-- What the loop over the configured rights has made of the regions.
pub record IsRegions (rights : Dict Amount) (total : Amount) (before : Dict RegionState)
    (total' : Amount) (after : Dict RegionState) : Type 0 where
  pub map : IsMap after
  pub nonneg : HasRights after
  pub sum : total' +ℤ total_rights before ≡ total +ℤ total_rights after

pub add_rights-ok :
    (rights : Dict Amount) (total : Amount) (regions : Dict RegionState) {total' : Amount}
    {after : Dict RegionState}
    → IsMap rights
    → IsMap regions
    → HasRights regions
    → ((k : String) (a : Amount) → lookup k rights ≡ some a → rights_of (lookup k regions) ≡ pos 0)
    → add_rights rights total regions ≡ ok (total', after)
    → IsRegions rights total regions total' after
unfolding add_rights lookup
add_rights-ok [] total regions {total'} {after} u m h z e =
    let e₁ : total ≡ total' = ground arith in
    let e₂ : regions ≡ after = ground arith in
    record { map = subst IsMap e₂ m; nonneg = subst HasRights e₂ h; sum = rw (← e₁, ← e₂) refl }
add_rights-ok ((name, amount) ∷ rest) total regions u m h z e =
    elim (Bool-cases (str_eq name "" || is_negative amount)) [
      | inl bad ↦ ground arith
      | inr good ↦ elim (Result-cases (add total amount)) [
        | inl (er, failed) ↦ ground arith
        | inr (sum, added) ↦
            let next =
              add_rights-ok rest sum (insert name (started amount) regions) u.1
                (IsMap-insert name (started amount) regions m)
                (HasRights-insert name (started amount) regions (ground arith) h)
                (λ k a found. elim (Bool-cases (str_eq name k)) [
                  | inl same ↦
                      ground (arith, subst (λ x. lookup x rest ≡ none) ((eq_iff name k).0 same) u.0)
                  | inr other ↦
                      rw (lookup-insert name k (started amount) regions, other)
                        (z k a (rw other found))
                ])
                (rw (good, added) at e) in
            record {
              map = next.map;
              nonneg = next.nonneg;
              sum = omega (
                int_laws,
                parts next.sum,
                parts (add-ok total amount added),
                parts (
                    total_rights-insert name amount regions
                      (z name amount (rw (str_eq_refl name) refl))),
              );
            }
      ]
    ]

-- ===== src/Failuresim/Funds/Frames.antt =====
-- Changes of the regions that leave every region's rights alone keep the conservation laws.
use payment_platform.Common.{
  String, ◌≡◌, refl, inl, inr, some, [], ◌∷◌, Bool-cases, arith, Option-cases, Result-cases, ℕ,
  true, ok, ◌==◌,
}
use payment_platform.Common.Dict.{Dict, lookup, modify, lookup-modify}
use payment_platform.Ledger.Amount.{Amount}
use payment_platform.Failuresim.Hashing.{Primitives}
use payment_platform.Failuresim.Book.{Book}
use payment_platform.Failuresim.Types.{Fence}
use payment_platform.Failuresim.Effects.{as_writer, once, replay_key, replay_effect}
use payment_platform.Failuresim.World.{
  Reply, require_writer, has_quorum, World, RegionState, TransferState, IdempotencyRecord, fence_of,
  stop_region, restarted, halt, crash_region, restart_region,
}
use payment_platform.Failuresim.Funds.{total_rights, IsBacked, IsFunded, Funded}

module _ (f : RegionState → RegionState) (keeps : (s : RegionState) → (f s).rights ≡ s.rights) where
  total_rights-keep :
      (name : String) (m : Dict RegionState) → total_rights (modify name f m) ≡ total_rights m
  unfolding modify
  total_rights-keep name [] = refl
  total_rights-keep name ((j, s) ∷ m) = ground (arith, keeps s, total_rights-keep name m)

  IsBacked-keep :
      (name : String) (m : Dict RegionState) (b : Book)
      → ((n : String) (s : RegionState) → lookup n m ≡ some s → IsBacked b n s)
      → (n : String) (t : RegionState) → lookup n (modify name f m) ≡ some t
      → IsBacked b n t
  IsBacked-keep name m b v n t h = elim (Option-cases (lookup n m)) [
    | inl missing ↦ ground (arith, lookup-modify name n f m)
    | inr (s, e) ↦
        let q : t.rights ≡ s.rights = ground (arith, lookup-modify name n f m, keeps s) in
        let old = v n s e in record { journaled = rw q (old.journaled); nonneg = rw q (old.nonneg) }
  ]

  pub IsFunded-keep :
      (prim : Primitives) (credit unallocated authority : Amount) (name : String)
      (m : Dict RegionState) (transfers : Dict TransferState) (b : Book)
      → IsFunded prim credit unallocated authority m transfers b
      → IsFunded prim credit unallocated authority (modify name f m) transfers b
  IsFunded-keep prim credit unallocated authority name m transfers b v = record {
    sound = v.sound;
    available = v.available;
    solvent = v.solvent;
    escrowed = rw (total_rights-keep name m) v.escrowed;
    transit = v.transit;
    reserve = v.reserve;
    backed = IsBacked-keep name m b v.backed;
    tracked = v.tracked;
  }

pub halt-Funded :
    (prim : Primitives) (name : String) (w : World) → Funded prim w → Funded prim (halt name w)
unfolding halt
halt-Funded prim name w v =
    IsFunded-keep stop_region (λ s. refl) prim w.credit_limit w.unallocated w.authority_total name
      w.regions w.transfers w.book v

-- A writer is a region of the state, running and at the fence's epoch, and the quorum stands.
pub record IsWriter (f : Fence) (w : World) (s : RegionState) : Type 0 where
  pub known : lookup f.region w.regions ≡ some s
  pub running : s.running ≡ true
  pub same_epoch : s.epoch ≡ f.epoch
  pub quorum : has_quorum w ≡ true

pub require_writer-ok :
    (f : Fence) (w : World) {s : RegionState} → require_writer f w ≡ ok s → IsWriter f w s
unfolding require_writer
require_writer-ok f w h = elim (Option-cases (lookup f.region w.regions)) [
  | inl missing ↦ ground arith
  | inr (s, e) ↦ ground arith
]

pub crash_region-Funded :
    (prim : Primitives) (name : String) (w : World)
    → Funded prim w
    → Funded prim (crash_region name w).0
unfolding crash_region
crash_region-Funded prim name w v = elim (Option-cases (lookup name w.regions)) [
  | inl missing ↦ rw (missing, crash_region) v
  | inr (s, e) ↦ rw (e, crash_region) (halt-Funded prim name w v)
]

pub restart_region-Funded :
    (prim : Primitives) (name : String) (w : World)
    → Funded prim w
    → Funded prim (restart_region name w).0
unfolding restart_region
restart_region-Funded prim name w v = elim (Option-cases (lookup name w.regions)) [
  | inl missing ↦ rw (missing, restart_region) v
  | inr (s, e) ↦
      rw (e, restart_region)
        (IsFunded-keep restarted (λ s. refl) prim w.credit_limit w.unallocated w.authority_total
          name w.regions w.transfers w.book v)
]

-- Answering a known effect writes no money.
pub once-Funded :
    (prim : Primitives) (effect_id : String) (fingerprint : ℕ) (key : String)
    (seen : IdempotencyRecord → World → Reply) (fresh : World → Reply) (w : World)
    → Funded prim w
    → ((known : IdempotencyRecord) → Funded prim (seen known w).0)
    → Funded prim (fresh w).0
    → Funded prim (once effect_id fingerprint key seen fresh w).0
unfolding once replay_effect
once-Funded prim effect_id fingerprint key seen fresh w v k u =
    elim (Option-cases (lookup key w.idempotency)) [
      | inr (known, e) ↦ rw (e, once) (k known)
      | inl new ↦ elim (Option-cases (lookup effect_id w.book.effects)) [
        | inl fresh_effect ↦ rw (new, once, fresh_effect, replay_effect) u
        | inr (effect, e) ↦ elim (Bool-cases (effect.fingerprint == fingerprint)) [
          | inl same ↦ rw (new, once, e, replay_effect, same) v
          | inr other ↦ rw (new, once, e, replay_effect, other) v
        ]
      ]
    ]

pub replay_key-Funded :
    (prim : Primitives) (fingerprint : ℕ) (w : World) (known : IdempotencyRecord)
    → Funded prim w
    → Funded prim (replay_key fingerprint known w).0
unfolding replay_key
replay_key-Funded prim fingerprint w known v =
    elim (Bool-cases (known.request_hash == fingerprint)) [
      | inl same ↦ rw same v
      | inr other ↦ rw other v
    ]

fence_of-region :
    (region : String) (w : World) {f : Fence} → fence_of region w ≡ ok f → f.region ≡ region
unfolding fence_of
fence_of-region region w h = elim (Option-cases (lookup region w.regions)) [
  | inl missing ↦ ground arith
  | inr (s, e) ↦ ground arith
]

-- An operation runs only in a region that may write.
pub as_writer-Funded :
    (prim : Primitives) (region : String) (body : RegionState → World → Reply) (w : World)
    → Funded prim w
    → ((s : RegionState) → lookup region w.regions ≡ some s → Funded prim (body s w).0)
    → Funded prim (as_writer region body w).0
unfolding as_writer
as_writer-Funded prim region body w v k = elim (Result-cases (fence_of region w)) [
  | inl (e, failed) ↦ rw (failed, as_writer) v
  | inr (f, e) ↦ elim (Result-cases (require_writer f w)) [
    | inl (e', failed) ↦ rw (e, as_writer, failed) v
    | inr (s, e') ↦
        rw (e, as_writer, e')
          (k s (rw (fence_of-region region w e) at ((require_writer-ok f w e').known)))
  ]
]

-- ===== src/Failuresim/Fencing.antt =====
-- internal/failuresim: a writer that holds the fence of an earlier life of its region is shut out.
use payment_platform.Common.{
  str_eq_refl, ℕ, ◌+◌, ◌%◌, ◌^◌, ◌<◌, String, ◌≡◌, ◌∙◌, refl, arith, some, false, err, ◌==◌,
}
use payment_platform.Common.Dict.{lookup, modify, lookup-modify}
use payment_platform.Ledger.Amount.{Amount}
use payment_platform.Failuresim.Types.{Fence, stale_epoch, region_down}
use payment_platform.Failuresim.Hashing.{Primitives}
use payment_platform.Failuresim.World
use payment_platform.Failuresim.World.{
  World, RegionState, require_writer, writer_of, restart_region, restarted, crash_region, halt,
  stop_region, has_quorum,
}
use payment_platform.Failuresim.Payments.{pay_with_fence}
use payment_platform.Failuresim.Transfers
use payment_platform.Failuresim.Transfers.{initiate_transfer}

writer_found :
    (f : Fence) (v : World) (t : RegionState)
    → lookup f.region v.regions ≡ some t
    → require_writer f v ≡ writer_of f v t
unfolding require_writer
writer_found f v t h = rw (h, require_writer) refl

wrapped : (n : ℕ) → n < 2 ^ 64 → ((n + 1) % 2 ^ 64 == n) ≡ false
wrapped n h = ground arith

module _ (f : Fence) (w : World) (s : RegionState)
    (known : lookup f.region w.regions ≡ some s) where
  changed_region :
      (change : RegionState → RegionState)
      → lookup f.region (modify f.region change w.regions) ≡ some (change s)
  changed_region change =
      lookup-modify f.region f.region change w.regions ∙ rw (str_eq_refl f.region, known) refl

  lookup-restart_region : lookup f.region (restart_region f.region w).0.regions ≡ some (restarted s)
  unfolding restart_region
  lookup-restart_region = rw (known, restart_region) (changed_region restarted)

  lookup-crash_region : lookup f.region (crash_region f.region w).0.regions ≡ some (stop_region s)
  unfolding crash_region halt
  lookup-crash_region = rw (known, crash_region) (changed_region stop_region)

  require_writer-restart_region :
      s.epoch ≡ f.epoch
      → f.epoch < 2 ^ 64
      → require_writer f (restart_region f.region w).0 ≡ err stale_epoch
  require_writer-restart_region same small =
      writer_found f (restart_region f.region w).0 (restarted s) lookup-restart_region
      ∙ rw (same, wrapped f.epoch small) refl

  require_writer-crash_region : require_writer f (crash_region f.region w).0 ≡ err region_down
  require_writer-crash_region =
      writer_found f (crash_region f.region w).0 (stop_region s) lookup-crash_region

  module _ (prim : Primitives) (amount : Amount) where
    -- After a restart of its region a fence that was current before neither pays nor sends: both are
    -- refused and change nothing. After a crash the same holds until the restart.
    pub fence-restart_region :
        (key operation id destination : String)
        → s.epoch ≡ f.epoch
        → f.epoch < 2 ^ 64
        → (pay_with_fence prim f key operation amount (restart_region f.region w).0
            ≡ ((restart_region f.region w).0, World.refused stale_epoch))
          × (initiate_transfer prim f id destination amount (restart_region f.region w).0
              ≡ ((restart_region f.region w).0, Transfers.refused stale_epoch))
          × (pay_with_fence prim f key operation amount (crash_region f.region w).0
              ≡ ((crash_region f.region w).0, World.refused region_down))
          × (initiate_transfer prim f id destination amount (crash_region f.region w).0
              ≡ ((crash_region f.region w).0, Transfers.refused region_down))
    unfolding pay_with_fence initiate_transfer
    fence-restart_region key operation id destination same small = (
      rw (require_writer-restart_region same small, pay_with_fence) refl,
      rw (require_writer-restart_region same small, initiate_transfer) refl,
      rw (require_writer-crash_region, pay_with_fence) refl,
      rw (require_writer-crash_region, initiate_transfer) refl,
    )

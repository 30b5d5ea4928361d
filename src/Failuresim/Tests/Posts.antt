-- ===== src/Failuresim/Tests/Posts.antt =====
-- Posts, fences and bounds of internal/failuresim at concrete inputs.
use payment_platform.Common.{List, [], ◌∷◌, pos, ◌≡◌, refl, ok}
use payment_platform.Common.{true, if◌then◌else◌, err, ◌==◌, false}
use payment_platform.Ledger.Amount.{debit, credit}
use payment_platform.Failuresim.Types.{JournalLine, Receipt, effect_conflict}
use payment_platform.Failuresim.Book.{Book, receipt_of}
use payment_platform.Failuresim.Book.Balances.{net}
use payment_platform.Failuresim.Book.Invariant.{IsSound, post_locked-IsSound}
use payment_platform.Failuresim.Book.Retries.{post_locked-moves, post_locked-again}
use payment_platform.Failuresim.Genesis.{empty_book}
use payment_platform.Failuresim.World.{refused}
use payment_platform.Failuresim.Transfers.{no_receipt, TransferAnswer}
use payment_platform.Failuresim.Payments.{pay_with_fence}
use payment_platform.Failuresim.Releases.{refunding}
use payment_platform.Failuresim.Transfers.{initiate_transfer}
use payment_platform.Failuresim.Funds.Genesis.{empty_book-IsSound}
use payment_platform.Common.{arith}
use payment_platform.Failuresim.Types.{stale_epoch, region_down, captured}
use payment_platform.Failuresim.World.{RegionState, Payment, restart_region, crash_region}
use payment_platform.Failuresim.Releases.{update_state, release_on, release_check, amount_sum}
use payment_platform.Failuresim.Cashback.{grant_cashback}
use payment_platform.Failuresim.Fencing.{fence-restart_region}
use payment_platform.Failuresim.Book.{commit, transaction_of, store_all}
use payment_platform.Failuresim.Payments.Refusals.{IsUntouched, pay_with_fence-IsUntouched}
use payment_platform.Failuresim.World.{
  require_writer, has_quorum, healthy_replicas, consume_counter,
}
use payment_platform.Common.Bytes.{padded}
use payment_platform.Common.{◌-ℤ◌}
use payment_platform.Ledger.Amount.{sub}
use payment_platform.Failuresim.Effects.{once, replay_effect}
use payment_platform.Failuresim.Payments.{pay_writer, pay_new, pay_fresh, pay_plan}
use payment_platform.Failuresim.Bounds.{IsBounded, release_on-IsBounded}
use payment_platform.Failuresim.Rewards.{IsRewarded, grant_cashback-IsRewarded}
use payment_platform.Failuresim.World.{World}
use payment_platform.Common.{◌+ℤ◌, ◌-ℤ◌}
use payment_platform.Common.Dict.{insert, lookup, get}
use payment_platform.Ledger.Amount.{add, sub, fits_decimal38}
use payment_platform.Failuresim.Book.{
  post_locked, tally_lines, tally_line, add_total, all_balanced, append, current, move,
}
use payment_platform.Failuresim.Tests.{opened, sample_primitives, sample_world, sample_fence}

abbrev sample_lines : List JournalLine
sample_lines =
    record { account = "a"; asset = "EUR"; side = debit; amount = pos 4 }
    ∷ record { account = "b"; asset = "EUR"; side = credit; amount = pos 4 }
    ∷ []

posted :
    (done_post : Book × Receipt) × (post_locked sample_primitives "effect" "KIND" 9 sample_lines
        empty_book
      ≡ ok (done_post.0, done_post.1))
    × (done_post.1.duplicate ≡ false)
unfolding post_locked append tally_lines tally_line add_total all_balanced current move lookup get
    insert add sub fits_decimal38 ◌+ℤ◌ ◌-ℤ◌ receipt_of
posted = (_, refl, refl)

post_locked-IsSound_example : IsSound sample_primitives posted.0.0
post_locked-IsSound_example =
    post_locked-IsSound sample_primitives "effect" "KIND" 9 sample_lines empty_book
      (empty_book-IsSound sample_primitives) posted.1

post_locked-moves_example :
    get (pos 0) "b" posted.0.0.balances
    ≡ get (pos 0) "b" empty_book.balances
      +ℤ (if posted.0.1.duplicate then pos 0 else net "b" sample_lines)
post_locked-moves_example =
    post_locked-moves sample_primitives "effect" "KIND" 9 sample_lines empty_book posted.1 "b"

post_locked-again_example :
    post_locked sample_primitives "effect" "OTHER" 8 sample_lines posted.0.0 ≡ (
      if 9 == 8
      then ok (posted.0.0, record (posted.0.1) { duplicate = true })
      else err effect_conflict)
post_locked-again_example =
    post_locked-again sample_primitives "effect" "KIND" 9 sample_lines empty_book posted.1 "OTHER" 8
      sample_lines refl refl

abbrev sample_region : RegionState
sample_region = record { epoch = 1; running = true; rights = pos 60 }

abbrev fenced_world : World
fenced_world = record sample_world { regions = ("A", sample_region) ∷ [] }

fence-restart_region_example :
    (pay_with_fence sample_primitives sample_fence "key1" "pay1"
        (pos 5)
        (restart_region "A" fenced_world).0
      ≡ ((restart_region "A" fenced_world).0, refused stale_epoch))
    × (initiate_transfer sample_primitives sample_fence "t1" "B"
          (pos 5)
          (restart_region "A" fenced_world).0
        ≡ ((restart_region "A" fenced_world).0, TransferAnswer.refused stale_epoch))
    × (pay_with_fence sample_primitives sample_fence "key1" "pay1"
          (pos 5)
          (crash_region "A" fenced_world).0
        ≡ ((crash_region "A" fenced_world).0, refused region_down))
    × (initiate_transfer sample_primitives sample_fence "t1" "B"
          (pos 5)
          (crash_region "A" fenced_world).0
        ≡ ((crash_region "A" fenced_world).0, TransferAnswer.refused region_down))
unfolding lookup
fence-restart_region_example =
    fence-restart_region sample_fence fenced_world sample_region refl sample_primitives (pos 5)
      "key1" "pay1" "t1" "B" refl (omega arith)

abbrev sample_payment : Payment
sample_payment = record {
  operation_id = "pay1";
  region = "A";
  authorized = pos 25;
  captured = pos 25;
  refunded = pos 5;
  reversed = pos 0;
  charged_back = pos 10;
  state = captured;
  receipt = no_receipt;
}

release_on-IsBounded_example :
    IsBounded (update_state (release_on refunding (pos 10) sample_payment))
unfolding release_check amount_sum add fits_decimal38 ◌+ℤ◌
release_on-IsBounded_example =
    release_on-IsBounded refunding (pos 10) sample_payment refl refl (record {
      refunds = omega arith;
      reversals = omega arith;
      chargebacks = omega arith;
      total = omega arith;
    })

abbrev granted_world : World
granted_world =
    (grant_cashback sample_primitives "A" "cashback1" "gift" "pay1" (pos 2) (pos 3) sample_world).0

grant_cashback-IsRewarded_example : IsRewarded "pay1" (pos 2) sample_world granted_world
unfolding opened get lookup
grant_cashback-IsRewarded_example =
    grant_cashback-IsRewarded sample_primitives "pay1" (pos 2) (pos 3) "A" "cashback1" "gift"
      sample_world (λ operation. omega arith)

pay_with_fence-IsUntouched_example :
    IsUntouched sample_world
      (pay_with_fence sample_primitives sample_fence "key1" "pay1" (pos 90) sample_world).0
unfolding opened pay_with_fence require_writer has_quorum healthy_replicas padded lookup pay_writer
    once replay_effect pay_new consume_counter get pay_fresh pay_plan add sub fits_decimal38 ◌+ℤ◌
    ◌-ℤ◌ commit transaction_of store_all
pay_with_fence-IsUntouched_example =
    pay_with_fence-IsUntouched sample_primitives sample_fence "key1" "pay1" (pos 90) sample_world
      refl

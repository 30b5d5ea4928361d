-- ===== src/Failuresim/Tests.antt =====
-- Runs of the model of internal/failuresim at concrete inputs.
pub mod Posts
pub mod Sagas
use payment_platform.Common.{ℕ, ◌+◌, ◌*◌, ◌%◌, ◌^◌, List, [], ◌∷◌, ◌++◌, pos, none, ◌≡◌, refl, ok}
use payment_platform.Common.{true, if◌then◌else◌, err, ◌==◌, false}
use payment_platform.Ledger.Amount.{debit, credit}
use payment_platform.Failuresim.Types.{
  Fence, TransferCertificate, JournalLine, Receipt, effect_conflict,
}
use payment_platform.Failuresim.Book.{Book, receipt_of}
use payment_platform.Failuresim.Book.Balances.{net}
use payment_platform.Failuresim.Book.Totals.{debits_of, credits_of}
use payment_platform.Failuresim.Book.Invariant.{IsSound, post_locked-IsSound}
use payment_platform.Failuresim.Book.Retries.{
  post_locked-moves, post_locked-balanced, post_locked-again,
}
use payment_platform.Failuresim.Genesis.{empty_book}
use payment_platform.Failuresim.World.{
  Reply, Answer, done, unheard, refused, require_writer, has_quorum, healthy_replicas,
  consume_counter,
}
use payment_platform.Common.Bytes.{padded}
use payment_platform.Common.Dict.{modify}
use payment_platform.Failuresim.Effects.{once, replay_effect, remember, add_outbox, outbox_record}
use payment_platform.Failuresim.Book.{commit, store_all, transaction_of}
use payment_platform.Failuresim.Transfers.{no_receipt, TransferAnswer, issued, known}
use payment_platform.Failuresim.Payments.{
  pay_with_fence, pay_writer, pay_new, pay_fresh, pay_plan, pay_post, pay_finish, pay_apply,
}
use payment_platform.Failuresim.Payments.Retries.{duplicated, pay_with_fence-again}
use payment_platform.Failuresim.Credits.{deposit}
use payment_platform.Failuresim.Releases.{release_capture, refunding}
use payment_platform.Failuresim.Cashback.{grant_cashback}
use payment_platform.Failuresim.Transfers.{initiate_transfer}
use payment_platform.Failuresim.Arrivals.{consume_message}
use payment_platform.Failuresim.Runs.{
  Operation, paying, depositing, releasing, granting, sending, arriving, restarting, failing_dc,
  crashing_after, run,
}
use payment_platform.Failuresim.Funds.{Funded}
use payment_platform.Failuresim.Funds.Rights.{IsMap}
use payment_platform.Failuresim.Funds.Genesis.{new_world-Funded, empty_book-IsSound}
use payment_platform.Failuresim.Funds.Payments.{pay_with_fence-Funded}
use payment_platform.Failuresim.Funds.Operations.{
  deposit-Funded, release_capture-Funded, grant_cashback-Funded,
}
use payment_platform.Failuresim.Funds.Moves.{initiate_transfer-Funded}
use payment_platform.Failuresim.Funds.Arrivals.{consume_message-Funded}
use payment_platform.Common.{◌≤ℤ◌, arith}
use payment_platform.Ledger.Amount.{Amount}
use payment_platform.Failuresim.Types.{stale_epoch, region_down, captured}
use payment_platform.Failuresim.World.{RegionState, Payment, restart_region, crash_region}
use payment_platform.Failuresim.Releases.{update_state, release_on, release_check, amount_sum}
use payment_platform.Failuresim.Cashback.{cashback_check}
use payment_platform.Failuresim.Fencing.{fence-restart_region}
use payment_platform.Failuresim.Bounds.{IsBounded, release_on-IsBounded}
use payment_platform.Failuresim.Delivery.{pump_until_settled}
use payment_platform.Failuresim.Funds.Runs.{reachable-Funded}
use payment_platform.Failuresim.Certificates.{certificate_payload}
use payment_platform.Failuresim.Hashing.{Primitives}
use payment_platform.Failuresim.World.{World}
use payment_platform.Failuresim.Genesis.{
  Config, new_world, add_rights, post_genesis, genesis_lines, balance_lines, authority_lines,
  reserve_lines, rights_lines, sort_regions, place, empty_world,
}
use payment_platform.Common.{◌+ℤ◌, ◌-ℤ◌}
use payment_platform.Common.Dict.{insert, lookup, get}
use payment_platform.Ledger.Amount.{add, sub, fits_decimal38}
use payment_platform.Failuresim.Book.{
  post_locked, tally_lines, tally_line, add_total, all_balanced, append, current, move,
}
use payment_platform.Failuresim.World.{regional_account}

pub digest : ℕ → List ℕ → ℕ
digest h [] = h
digest h (byte ∷ bytes) = digest ((h * 31 + byte) % 2 ^ 256) bytes

abbrev pub sample_primitives : Primitives
sample_primitives = record {
  sha256 = digest 7;
  hmac_sha256 = λ key payload. digest 11 (key ++ payload);
  marshal_certificate = certificate_payload;
  unmarshal_certificate = λ bytes. none;
}

abbrev sample_config : Config
sample_config = record {
  asset = "EUR";
  initial_balance = pos 100;
  credit_limit = pos 20;
  unallocated = pos 30;
  regional_rights = ("A", pos 60) ∷ ("B", pos 30) ∷ [];
  certificate_key = 1 ∷ 2 ∷ [];
}

unfoldable pub opened : (w : World) × (new_world sample_primitives sample_config 7 ≡ ok w)
unfolding new_world add sub fits_decimal38 ◌+ℤ◌ ◌-ℤ◌ add_rights post_genesis genesis_lines
    balance_lines post_locked authority_lines reserve_lines rights_lines sort_regions place insert
    lookup get empty_world tally_lines tally_line add_total all_balanced append current move
    regional_account
opened = (_, refl)

abbrev pub sample_world : World
sample_world = opened.0

abbrev pub sample_fence : Fence
sample_fence = record { region = "A"; epoch = 1 }

abbrev sample_certificate : TransferCertificate
sample_certificate = record {
  transfer_id = "t1";
  asset = "EUR";
  source_region = "A";
  destination_region = "B";
  amount = pos 10;
  source_epoch = 1;
  commit_sequence = 3;
  commit_proof = 5;
}

abbrev sample_run : List Operation
sample_run =
    crashing_after "key1"
    ∷ paying "A" "key1" "pay1" (pos 25)
    ∷ restarting "A"
    ∷ paying "A" "key1" "pay1" (pos 25)
    ∷ releasing refunding "A" "key2" "refund1" "pay1" (pos 5)
    ∷ sending sample_fence "t1" "B" (pos 10)
    ∷ arriving "transfer:t1" sample_certificate
    ∷ depositing "B" "key3" "deposit1" (pos 7)
    ∷ granting "B" "key4" "cashback1" "pay1" (pos 2) (pos 3)
    ∷ failing_dc "dc01"
    ∷ []

sample_rights : IsMap sample_config.regional_rights
unfolding lookup
sample_rights = (refl, (refl, tt))

sample_world-Funded : Funded sample_primitives sample_world
sample_world-Funded = new_world-Funded sample_primitives sample_config 7 sample_rights opened.1

reachable-Funded_example : Funded sample_primitives (run sample_primitives sample_run sample_world)
reachable-Funded_example =
    reachable-Funded sample_primitives sample_config 7 sample_run sample_rights opened.1

abbrev pub paid : Reply
paid = pay_with_fence sample_primitives sample_fence "key1" "pay1" (pos 25) sample_world

paid-Funded : Funded sample_primitives paid.0
paid-Funded =
    pay_with_fence-Funded sample_primitives sample_fence "key1" "pay1" (pos 25) sample_world
      sample_world-Funded

abbrev pub answered_receipt : Answer → Receipt
answered_receipt (done r) = r
answered_receipt (unheard e r) = r
answered_receipt (refused e) = no_receipt

pay_with_fence-again_example :
    pay_with_fence sample_primitives sample_fence "key1" "pay1" (pos 25) paid.0
    ≡ (paid.0, done (duplicated (answered_receipt paid.1)))
unfolding opened pay_with_fence require_writer has_quorum lookup pay_writer once replay_effect
    pay_new consume_counter get pay_fresh pay_plan add sub fits_decimal38 ◌+ℤ◌ ◌-ℤ◌ pay_post
    post_locked append tally_lines tally_line add_total all_balanced current move insert receipt_of
    pay_finish pay_apply add_outbox remember modify regional_account commit store_all outbox_record
    healthy_replicas padded transaction_of
pay_with_fence-again_example =
    pay_with_fence-again sample_primitives "key1" "pay1" (pos 25) sample_fence sample_fence
      sample_world paid.0 refl refl refl refl refl

abbrev sending_out : World × TransferAnswer
sending_out = initiate_transfer sample_primitives sample_fence "t1" "B" (pos 10) sample_world

sending_out-Funded : Funded sample_primitives sending_out.0
sending_out-Funded =
    initiate_transfer-Funded sample_primitives sample_fence "t1" "B" (pos 10) sample_world
      sample_world-Funded

abbrev certificate_in : TransferAnswer → TransferCertificate
certificate_in (issued c) = c
certificate_in (known c) = c
certificate_in (TransferAnswer.refused e) = sample_certificate

consume_message-Funded_example :
    Funded sample_primitives
      (consume_message sample_primitives "transfer:t1"
        (certificate_in sending_out.1)
        sending_out.0).0
consume_message-Funded_example =
    consume_message-Funded sample_primitives "transfer:t1" (certificate_in sending_out.1)
      sending_out.0 sending_out-Funded

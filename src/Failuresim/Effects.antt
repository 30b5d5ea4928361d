-- ===== src/Failuresim/Effects.antt =====
-- internal/failuresim/operations.go: what the financial operations share.
use payment_platform.Common.{
  ok, err, ℕ, String, true, false, Option, none, some, List, ◌==◌, if◌then◌else◌,
}
use payment_platform.Common.Dict.{lookup, insert}
use payment_platform.Failuresim.Types.{effect_conflict, idempotency_conflict, Receipt}
use payment_platform.Failuresim.Book.{EffectRecord}
use payment_platform.Failuresim.World.{
  RegionState, require_writer, fence_of, World, Reply, done, refused, IdempotencyRecord,
  OutboxRecord,
}
use Prim.Native.String

-- `w.idempotency[key] = …`
unfoldable pub remember : String → ℕ → Receipt → World → World
remember key fingerprint receipt w = record w {
  idempotency = insert key (record { request_hash = fingerprint; receipt = receipt }) w.idempotency;
}

unfoldable pub replay_known : ℕ → String → World → EffectRecord → Reply
unfolding remember
replay_known fingerprint key w effect =
    if effect.fingerprint == fingerprint
    then (remember key fingerprint answer w, done answer)
    else (w, refused effect_conflict)
  where
    answer : Receipt
    answer = record (effect.receipt) { idempotency_key = key; duplicate = true }

-- `replayEffectLocked`: `none` where the effect is new.
unfoldable pub replay_effect : String → ℕ → String → World → Option Reply
unfolding replay_known
replay_effect effect_id fingerprint key w = elim (lookup effect_id w.book.effects) [
  | none ↦ none
  | some effect ↦ some (replay_known fingerprint key w effect)
]

-- The answer to an idempotency key that is known already.
unfoldable pub replay_key : ℕ → IdempotencyRecord → World → Reply
replay_key fingerprint seen w =
    if seen.request_hash == fingerprint
    then (w, done (record (seen.receipt) { duplicate = true }))
    else (w, refused idempotency_conflict)

-- `"event:" + receipt.TransactionID + ":" + kind`
abbrev pub event_message : Receipt → String → String
event_message receipt kind =
    String.◌++◌ "event:" (String.◌++◌ (receipt.transaction_id) (String.◌++◌ ":" kind))

unfoldable pub outbox_record : Receipt → String → String → String → List ℕ → OutboxRecord
outbox_record receipt kind source destination payload = record {
  message_id = event_message receipt kind;
  kind = kind;
  source_region = source;
  destination_region = destination;
  parent_transaction_id = receipt.transaction_id;
  payload = payload;
  attempts = 0;
  acknowledged = false;
}

-- `addOutboxLocked`
unfoldable pub add_outbox : Receipt → String → String → String → List ℕ → World → World
unfolding outbox_record
add_outbox receipt kind source destination payload w = record w {
  outbox =
      insert (event_message receipt kind) (outbox_record receipt kind source destination payload)
        w.outbox;
}

-- An operation behind its idempotency key and its effect: `seen` answers a known key.
unfoldable pub once :
    String → ℕ → String → (IdempotencyRecord → World → Reply) → (World → Reply) → World → Reply
once effect_id fingerprint key seen fresh w = elim (lookup key w.idempotency) [
  | some known ↦ seen known w
  | none ↦ elim (replay_effect effect_id fingerprint key w) [ some reply ↦ reply | none ↦ fresh w ]
]

-- The region writes at its own current epoch: `Fence` and the operation that follows it as one step, though
-- the source takes the mutex for each.
unfoldable pub as_writer : String → (RegionState → World → Reply) → World → Reply
as_writer region body w = elim (fence_of region w) [
  | err e ↦ (w, refused e)
  | ok f ↦ elim (require_writer f w) [ err e ↦ (w, refused e) | ok state ↦ body state w ]
]

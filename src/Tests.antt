-- ===== src/Tests.antt =====
-- Runs of internal/simulation, internal/ledger, internal/payment and internal/audit at concrete inputs.
use payment_platform.Common.{
  ℕ, ◌+◌, ◌<◌, true, List, [], ◌∷◌, none, some, pos, ◌≡◌, refl, arith, count, All, str_eq, ◌⊎◌,
  ◌+ℤ◌, inr, err,
}
use mathlib.Core.List.{Memᴰ}
use payment_platform.Common.Bytes.{utf8}
use payment_platform.Common.Dict.{get, insert, lookup}
use payment_platform.Ledger.Amount.{debit, credit, fits_decimal38}
use payment_platform.Ledger.Posting.{
  PostRequest, validate, valid_id, check_lines, check_line, add_side, all_equal, canonical_json,
}
use payment_platform.Ledger.DoubleEntry.{IsPosting, validate-IsPosting}
use payment_platform.Simulation.Network.{
  Network, NetworkError, partition, Envelope, command, new_network, node_down, has_node,
}
use payment_platform.Simulation.Transport.{send, drain, is_down}
use payment_platform.Simulation.Packets.{count-drain, drain-IsOrdered, IsOrdered, send-lost}
use payment_platform.Simulation.Reach.{created, cutting, sending}
use payment_platform.Simulation.Delivery.{IsStopped, drain-All, partition-drain}
use payment_platform.Payment.State.{
  settled, disputed, refunded, can_transition, has_state, transitions, state_text, capture_state,
  refund_state,
}
use payment_platform.Payment.Lifecycle.{
  stay, step, is_cleared, is_final, Reaches-cleared, Reaches-final, CaptureOutcome, RefundOutcome,
  capture_state-CaptureOutcome, refund_state-RefundOutcome,
}
use payment_platform.Audit.Merkle.{merkle_root}
use payment_platform.Audit.Collisions.{bound, IsCollision}
use payment_platform.Audit.Roots.{IsRoot, merkle_root-IsRoot, IsNodeText, merkle_root-cases}

abbrev sample_packet : Envelope
sample_packet = record {
  message_id = "m1";
  from = "A";
  to = "B";
  kind = command;
  correlation_id = "m1";
  payload = 1 ∷ 2 ∷ [];
  sequence = 4;
  delivery = 0;
}

abbrev sample_network : Network
sample_network = record (new_network 7) {
  reorder = true;
  down = "C" ∷ [];
  queue =
      sample_packet
      ∷ record sample_packet { to = "C" }
      ∷ record sample_packet { sequence = 5 }
      ∷ [];
}

abbrev constant_digest : List ℕ → ℕ
constant_digest bytes = 3

count-drain_example :
    count (λ e. str_eq e.to "B") (drain sample_network).1
      + count (λ e. str_eq e.to "B") (drain sample_network).0.queue
    ≡ count (λ e. str_eq e.to "B") sample_network.queue
count-drain_example = count-drain (λ e. str_eq e.to "B") sample_network

-- A packet is sent, and the link is cut from its other end.
abbrev cut_network : Network
cut_network = partition "B" "A" (send constant_digest sample_packet (new_network 7)).0

drain-All_example :
    All (λ e. ¬ IsStopped cut_network e) (drain cut_network).1
    × All (IsStopped cut_network) (drain cut_network).0.queue
drain-All_example =
    drain-All constant_digest cut_network (cutting "B" "A" (sending sample_packet (created 7)))

partition-drain_example :
    ((x : NetworkError) × (send constant_digest sample_packet (partition "B" "A" sample_network)
        ≡ (partition "B" "A" sample_network, err x)))
    × ¬ Memᴰ sample_packet (drain (partition "B" "A" sample_network)).1
partition-drain_example =
    partition-drain constant_digest "B" "A" sample_packet sample_network (inr (refl, refl))

drain-IsOrdered_example : IsOrdered (drain sample_network).1
drain-IsOrdered_example = drain-IsOrdered sample_network refl

send-lost_example :
    (send constant_digest (record sample_packet { to = "C" }) sample_network).0.queue
    ≡ sample_network.queue
unfolding send is_down has_node
send-lost_example =
    send-lost constant_digest (record sample_packet { to = "C" }) sample_network {x = node_down}
      refl

abbrev sample_request : PostRequest
sample_request = record {
  transaction_id = "tx1";
  book_id = "book1";
  operation_id = "op1";
  effect_id = "effect1";
  kind = "PAYMENT";
  reference_transaction_id = none;
  posting_rule_version = "v1";
  schema_version = pos 1;
  request_hash = 0;
  metadata = [];
  lines =
      record { account_id = "a"; asset_id = "EUR"; side = debit; amount_atoms = pos 5; memo = "" }
      ∷ record {
        account_id = "b";
        asset_id = "EUR";
        side = credit;
        amount_atoms = pos 5;
        memo = "";
      }
      ∷ [];
}

validate-IsPosting_example : IsPosting sample_request
unfolding validate valid_id check_lines check_line add_side all_equal canonical_json fits_decimal38
    ◌+ℤ◌ get insert lookup utf8
validate-IsPosting_example = validate-IsPosting (λ raw. some raw) sample_request refl

Reaches-cleared_example : is_cleared refunded ≡ true
unfolding can_transition has_state transitions state_text is_cleared
Reaches-cleared_example =
    Reaches-cleared settled refunded (step {t = disputed} refl (step {t = refunded} refl stay)) refl

Reaches-final_example : refunded ≡ refunded
unfolding is_final
Reaches-final_example = Reaches-final refunded refunded stay refl

capture_state-CaptureOutcome_example :
    CaptureOutcome (pos 5) (pos 3) (pos 2) (capture_state (pos 5) (pos 3) (pos 2))
capture_state-CaptureOutcome_example =
    capture_state-CaptureOutcome (pos 5) (pos 3) (pos 2) (omega arith) (omega arith) refl

refund_state-RefundOutcome_example :
    RefundOutcome (pos 5) (pos 3) (pos 0) (refund_state (pos 5) (pos 3) (pos 0))
refund_state-RefundOutcome_example =
    refund_state-RefundOutcome (pos 5) (pos 3) (pos 0) (omega arith) (omega arith) refl

merkle_root-IsRoot_example :
    IsRoot constant_digest (1 ∷ 2 ∷ 3 ∷ []) (merkle_root constant_digest (1 ∷ 2 ∷ 3 ∷ []))
merkle_root-IsRoot_example = merkle_root-IsRoot constant_digest 1 (2 ∷ 3 ∷ [])

abbrev sample_list : List ℕ
sample_list = 1 ∷ 2 ∷ 3 ∷ []

constant_digest-bound : (x : List ℕ) → constant_digest x < bound 32
unfolding bound
constant_digest-bound x = ground arith

sample_leaves : All (λ v. v < bound 32) sample_list
unfolding bound
sample_leaves = (ground arith, (ground arith, (ground arith, tt)))

merkle_root-cases_example :
    (sample_list ≡ sample_list)
    ⊎ IsCollision constant_digest
        (IsNodeText constant_digest sample_list)
        (IsNodeText constant_digest sample_list)
merkle_root-cases_example =
    merkle_root-cases constant_digest constant_digest-bound sample_list sample_list refl
      sample_leaves sample_leaves refl

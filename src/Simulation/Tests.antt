-- ===== src/Simulation/Tests.antt =====
-- Runs of internal/simulation/cluster.go at concrete inputs.
use payment_platform.Common.{ℕ, true, none, List, [], ◌∷◌, ◌≡◌, refl, ok, err, arith}
use payment_platform.Common.Dict.{lookup, insert}
use payment_platform.Simulation.Network.{Envelope, command, new_network}
use payment_platform.Simulation.Cluster.{
  WorkerFence, stale_fence, Cluster, fence, send_fenced, new_cluster, add_regions, crash_node,
  restart_node,
}
use payment_platform.Simulation.Cluster.Fences.{crashing, restarting, changes, send_fenced-stale}

abbrev zero_digest : List ℕ → ℕ
zero_digest bytes = 0

abbrev one_region : Cluster ℕ
one_region = record {
  network = new_network 7;
  nodes = ("A", record { epoch = 1; running = true; handler = none }) ∷ [];
}

abbrev old_fence : WorkerFence
old_fence = record { region = "A"; epoch = 1 }

abbrev greeting : Envelope
greeting = record {
  message_id = "m1";
  from = "A";
  to = "B";
  kind = command;
  correlation_id = "m1";
  payload = [];
  sequence = 0;
  delivery = 0;
}

one_region_made : new_cluster (new_network 7) ("A" ∷ []) ≡ ok one_region
unfolding new_cluster add_regions insert lookup
one_region_made = refl

fence_renewed :
    fence "A" (restart_node "A" (crash_node "A" one_region).0).0
    ≡ ok (record { region = "A"; epoch = 2 })
unfolding fence restart_node crash_node lookup insert
fence_renewed = refl

send_fenced-stale_example :
    send_fenced zero_digest old_fence greeting
      (changes zero_digest
        (crashing "A" ∷ restarting "A" ∷ [])
        ((restart_node "A" one_region).0, 3)).0
    ≡ (
      (changes zero_digest
          (crashing "A" ∷ restarting "A" ∷ [])
          ((restart_node "A" one_region).0, 3)).0,
      err stale_fence,
    )
unfolding fence lookup
send_fenced-stale_example =
    send_fenced-stale zero_digest old_fence greeting one_region 3
      (crashing "A" ∷ restarting "A" ∷ []) refl (omega arith)

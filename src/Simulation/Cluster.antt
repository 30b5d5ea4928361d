-- ===== src/Simulation/Cluster.antt =====
-- internal/simulation/cluster.go: regions that run, crash and restart, and the fences of their workers.
pub mod Fences
use payment_platform.Common.{
  ℕ, ◌+◌, ◌%◌, ◌^◌, String, str_eq, Bool, true, false, not, ◌&&◌, ◌||◌, Option, none, some, List,
  [], ◌∷◌, ◌++◌, Result, ok, err, ◌==◌, if◌then◌else◌,
}
use payment_platform.Common.Dict.{Dict, lookup, insert}
use payment_platform.Simulation.Network
use payment_platform.Simulation.Network.{Network, Envelope, NetworkError}
use payment_platform.Simulation.Transport.{send, drain}

-- `Fence`
pub record WorkerFence : Type 0 where
  pub region : String
  pub epoch : ℕ

pub data ClusterError : Type 0 where
  invalid_cluster empty_region duplicate_region unknown_region worker_down no_handler : ClusterError
  stale_fence : ClusterError
  network_error : NetworkError → ClusterError
  handler_error : String → ClusterError

-- `M` is what the handlers change: the state outside of the cluster.
module _ (M : Type 0) where
  abbrev pub Handler : Type 0
  Handler = Envelope → M → M × Option String

  pub record RegionNode : Type 0 where
    pub epoch : ℕ
    pub running : Bool
    pub handler : Option Handler

  pub record Cluster : Type 0 where
    pub network : Network
    pub nodes : Dict (RegionNode)

module _ {M : Type 0} where
  abbrev pub new_node : RegionNode M
  new_node = record { epoch = 1; running = true; handler = none }

  unfoldable pub add_regions :
      List String → Dict (RegionNode M) → Result ClusterError (Dict (RegionNode M))
  add_regions [] nodes = ok nodes
  add_regions (region ∷ regions) nodes =
      let rest = add_regions regions (insert region new_node nodes) in
      if str_eq region ""
      then err empty_region
      else elim (lookup region nodes) [ some _ ↦ err duplicate_region | none ↦ rest ]

  abbrev with_nodes :
      Network → Result ClusterError (Dict (RegionNode M)) → Result ClusterError (Cluster M)
  with_nodes network (err e) = err e
  with_nodes network (ok nodes) = ok (record { network = network; nodes = nodes })

  -- `NewCluster`
  unfoldable pub new_cluster : Network → List String → Result ClusterError (Cluster M)
  new_cluster network [] = err invalid_cluster
  new_cluster network (region ∷ regions) = with_nodes network (add_regions (region ∷ regions) [])

  unfoldable pub register :
      String → Option (Handler M) → Cluster M → Cluster M × Result ClusterError (Unit {0})
  register region none c = (c, err unknown_region)
  register region (some handler) c = elim (lookup region c.nodes) [
    | none ↦ (c, err unknown_region)
    | some node ↦
        (record c { nodes = insert region (record node { handler = some handler }) c.nodes }, ok tt)
  ]

  -- `Cluster.Fence`
  unfoldable pub fence : String → Cluster M → Result ClusterError WorkerFence
  fence region c = elim (lookup region c.nodes) [
    | none ↦ err worker_down
    | some node ↦
        if not node.running
        then err worker_down
        else ok (record { region = region; epoch = node.epoch })
  ]

  unfoldable pub valid : WorkerFence → Cluster M → Bool
  valid f c = elim (lookup f.region c.nodes) [
    | none ↦ false
    | some node ↦ node.running && node.epoch == f.epoch
  ]

  abbrev pub crashed : RegionNode M → RegionNode M
  crashed node = record node { running = false }

  -- `Cluster.Crash`
  unfoldable pub crash_node : String → Cluster M → Cluster M × Result ClusterError (Unit {0})
  crash_node region c = elim (lookup region c.nodes) [
    | none ↦ (c, err unknown_region)
    | some node ↦ (
      record {
        network = Network.crash region c.network;
        nodes = insert region (crashed node) c.nodes;
      },
      ok tt,
    )
  ]

  abbrev pub reborn : RegionNode M → RegionNode M
  reborn node = record node { epoch = (node.epoch + 1) % 2 ^ 64; running = true }

  -- `Cluster.Restart`
  unfoldable pub restart_node : String → Cluster M → Cluster M × Result ClusterError (Unit {0})
  restart_node region c = elim (lookup region c.nodes) [
    | none ↦ (c, err unknown_region)
    | some node ↦ (
      record {
        network = Network.restart region c.network;
        nodes = insert region (reborn node) c.nodes;
      },
      ok tt,
    )
  ]

  -- `Cluster.Partition` and `Cluster.Heal`
  unfoldable pub partition_nodes : String → String → Cluster M → Cluster M
  partition_nodes a b c = record c { network = Network.partition a b c.network }

  unfoldable pub heal_nodes : String → String → Cluster M → Cluster M
  heal_nodes a b c = record c { network = Network.heal a b c.network }

  abbrev sent_over :
      Cluster M
      → Network × Result NetworkError (Unit {0})
      → Cluster M × Result ClusterError (Unit {0})
  sent_over c (n, ok _) = (record c { network = n }, ok tt)
  sent_over c (n, err e) = (record c { network = n }, err (network_error e))

  -- `Cluster.Send`
  unfoldable pub send_fenced :
      (List ℕ → ℕ) → WorkerFence → Envelope → Cluster M → Cluster M × Result ClusterError (Unit {0})
  send_fenced sha256 f e c =
      if not (valid f c) || not (str_eq f.region e.from)
      then (c, err stale_fence)
      else sent_over c (send sha256 e c.network)

  abbrev handled : M × Option String → M × List ClusterError
  handled (m, none) = (m, [])
  handled (m, some message) = (m, handler_error message ∷ [])

  -- One packet; what its handler does is its own.
  unfoldable pub hand_over : Dict (RegionNode M) → Envelope → M → M × List ClusterError
  hand_over nodes e m = elim (lookup e.to nodes) [
    | none ↦ (m, worker_down ∷ [])
    | some node ↦ if not node.running then (m, worker_down ∷ []) else elim node.handler [
      | none ↦ (m, no_handler ∷ [])
      | some handler ↦ handled (handler e m)
    ]
  ]

  unfoldable pub hand_over_all : Dict (RegionNode M) → List Envelope → M → M × List ClusterError
  hand_over_all nodes [] m = (m, [])
  hand_over_all nodes (e ∷ es) m =
      let one = hand_over nodes e m in
      let rest = hand_over_all nodes es one.0 in (rest.0, one.1 ++ rest.1)

  -- `Cluster.Deliver`
  unfoldable pub deliver_packets : Cluster M → M → (Cluster M × M) × List ClusterError
  deliver_packets c m =
      let (n, packets) = drain c.network in
      let done = hand_over_all c.nodes packets m in ((record c { network = n }, done.0), done.1)

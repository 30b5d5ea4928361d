-- ===== src/Simulation/Cluster/Fences.antt =====
-- Workers of an earlier life of their region, internal/simulation/cluster.go.
use payment_platform.Common.{
  ℕ, suc, ◌+◌, ◌%◌, ◌^◌, ◌<◌, String, str_eq, str_eq_refl, eq_iff, ◌≡◌, refl, ap, ◌∙◌, inl, inr,
  arith, false, not, ◌||◌, Option, none, some, List, [], ◌∷◌, ok, err, length, ◌==◌, Bool-cases,
  Option-cases, Result-cases,
}
use payment_platform.Common.Dict.{lookup, insert, lookup-insert}
use payment_platform.Simulation.Network.{Envelope}
use payment_platform.Simulation.Transport.{send}
use payment_platform.Simulation.Cluster.{
  WorkerFence, stale_fence, Handler, RegionNode, Cluster, register, fence, valid, crashed,
  crash_node, reborn, restart_node, partition_nodes, heal_nodes, send_fenced, deliver_packets,
}

module _ (M : Type 0) where
  -- What may become of a cluster after another, call by call.
  pub data Change : Type 0 where
    registering : String → Option (Handler M) → Change
    crashing restarting : String → Change
    partitioning healing : String → String → Change
    sending : WorkerFence → Envelope → Change
    delivering : Change

module _ {M : Type 0} where
  module _ (sha256 : List ℕ → ℕ) where
    unfoldable pub change : Change M → Cluster M × M → Cluster M × M
    change (registering region handler) (c, m) = ((register region handler c).0, m)
    change (crashing region) (c, m) = ((crash_node region c).0, m)
    change (restarting region) (c, m) = ((restart_node region c).0, m)
    change (partitioning a b) (c, m) = (partition_nodes a b c, m)
    change (healing a b) (c, m) = (heal_nodes a b c, m)
    change (sending f e) (c, m) = ((send_fenced sha256 f e c).0, m)
    change delivering (c, m) = (deliver_packets c m).0

    unfoldable pub changes : List (Change M) → Cluster M × M → Cluster M × M
    changes [] state = state
    changes (x ∷ xs) state = changes xs (change x state)

    module _ (f : WorkerFence) where
      -- The region has had a later life than the fence, and its epoch does not wrap in so many changes.
      record IsPast (left : ℕ) (c : Cluster M) : Type 0 where
        pub node : RegionNode M
        pub known : lookup f.region c.nodes ≡ some node
        pub later : f.epoch < node.epoch
        pub small : node.epoch + left < 2 ^ 64

      IsPast-insert :
          (left : ℕ) (region : String) (c c' : Cluster M) (n n' : RegionNode M)
          → IsPast (suc left) c
          → lookup region c.nodes ≡ some n
          → c'.nodes ≡ insert region n' c.nodes
          → (n.epoch + 1 < 2 ^ 64 → (n.epoch < n'.epoch + 1) × (n'.epoch < n.epoch + 2))
          → IsPast left c'
      IsPast-insert left region c c' n n' p found written near =
          elim (Bool-cases (str_eq region f.region)) [
            | inr other ↦ record {
              node = p.node;
              known = rw written (lookup-insert region f.region n' c.nodes ∙ rw other p.known);
              later = p.later;
              small = omega (arith, p.small);
            }
            | inl own ↦
                let e : n ≡ p.node = ground (arith, eq_iff region f.region, p.known, found) in
                let same : n.epoch ≡ p.node.epoch = ap (λ x. x.epoch) e in
                let (low, high) = near (omega (arith, p.small, same)) in
                record {
                  node = n';
                  known = rw written (lookup-insert region f.region n' c.nodes ∙ rw own refl);
                  later = omega (arith, p.later, same, low);
                  small = omega (arith, p.small, same, high);
                }
          ]

      IsPast-kept :
          (left : ℕ) (c c' : Cluster M) → IsPast (suc left) c → c'.nodes ≡ c.nodes → IsPast left c'
      IsPast-kept left c c' p kept = record {
        node = p.node;
        known = rw kept p.known;
        later = p.later;
        small = omega (arith, p.small);
      }

      register-IsPast :
          (left : ℕ) (region : String) (handler : Option (Handler M)) (c : Cluster M)
          → IsPast (suc left) c
          → IsPast left (register region handler c).0
      unfolding register
      register-IsPast left region none c p = IsPast-kept left c c p refl
      register-IsPast left region (some handler) c p = elim (Option-cases (lookup region c.nodes)) [
        | inl missing ↦ rw (missing, register) (IsPast-kept left c c p refl)
        | inr (n, found) ↦
            rw (found, register)
              (IsPast-insert left region c _ n (record n { handler = some handler }) p found refl
                (λ small. (omega arith, omega arith)))
      ]

      crash_node-IsPast :
          (left : ℕ) (region : String) (c : Cluster M)
          → IsPast (suc left) c
          → IsPast left (crash_node region c).0
      unfolding crash_node
      crash_node-IsPast left region c p = elim (Option-cases (lookup region c.nodes)) [
        | inl missing ↦ rw (missing, crash_node) (IsPast-kept left c c p refl)
        | inr (n, found) ↦
            rw (found, crash_node)
              (IsPast-insert left region c _ n (crashed n) p found refl
                (λ small. (omega arith, omega arith)))
      ]

      restart_node-IsPast :
          (left : ℕ) (region : String) (c : Cluster M)
          → IsPast (suc left) c
          → IsPast left (restart_node region c).0
      unfolding restart_node
      restart_node-IsPast left region c p = elim (Option-cases (lookup region c.nodes)) [
        | inl missing ↦ rw (missing, restart_node) (IsPast-kept left c c p refl)
        | inr (n, found) ↦
            rw (found, restart_node)
              (IsPast-insert left region c _ n (reborn n) p found refl
                (λ small. (ground arith, ground arith)))
      ]

      send_fenced-nodes :
          (g : WorkerFence) (e : Envelope) (c : Cluster M)
          → (send_fenced sha256 g e c).0.nodes ≡ c.nodes
      unfolding send_fenced
      send_fenced-nodes g e c =
          elim (Bool-cases (not (valid g c) || not (str_eq g.region e.from))) [
            | inl stale ↦ rw stale refl
            | inr fresh ↦ rw fresh (elim (Result-cases (send sha256 e c.network).1) [
              | inl (x, bad) ↦ rw bad refl
              | inr (x, good) ↦ rw good refl
            ])
          ]

      change-IsPast :
          (left : ℕ) (x : Change M) (c : Cluster M) (m : M)
          → IsPast (suc left) c
          → IsPast left (change x (c, m)).0
      unfolding change partition_nodes heal_nodes deliver_packets
      change-IsPast left (registering region handler) c m p =
          register-IsPast left region handler c p
      change-IsPast left (crashing region) c m p = crash_node-IsPast left region c p
      change-IsPast left (restarting region) c m p = restart_node-IsPast left region c p
      change-IsPast left (partitioning a b) c m p = IsPast-kept left c _ p refl
      change-IsPast left (healing a b) c m p = IsPast-kept left c _ p refl
      change-IsPast left (sending g e) c m p = IsPast-kept left c _ p (send_fenced-nodes g e c)
      change-IsPast left delivering c m p = IsPast-kept left c _ p refl

      changes-IsPast :
          (xs : List (Change M)) (c : Cluster M) (m : M)
          → IsPast (length xs) c
          → IsPast 0 (changes xs (c, m)).0
      unfolding changes
      changes-IsPast [] c m p = p
      changes-IsPast (x ∷ xs) c m p =
          changes-IsPast xs (change x (c, m)).0 (change x (c, m)).1
            (change-IsPast (length xs) x c m p)

      IsPast-valid : (c : Cluster M) → IsPast 0 c → valid f c ≡ false
      unfolding valid
      IsPast-valid c p =
          let other : (p.node.epoch == f.epoch) ≡ false = ground (arith, p.later) in
          rw (p.known, valid) (ground arith)

      restart_node-IsPast' :
          (c : Cluster M) (left : ℕ)
          → fence f.region c ≡ ok f
          → f.epoch + 1 + left < 2 ^ 64
          → IsPast left (restart_node f.region c).0
      unfolding restart_node fence
      restart_node-IsPast' c left taken small = elim (Option-cases (lookup f.region c.nodes)) [
        | inl missing ↦ ground (arith, rw (missing, fence) at taken)
        | inr (n, found) ↦ elim (Bool-cases (not n.running)) [
          | inl down ↦ ground (arith, rw (found, fence, down) at taken)
          | inr up ↦
              let k = rw (found, fence, up) at taken in
              let same : n.epoch ≡ f.epoch = cc in
              let next : (n.epoch + 1) % 2 ^ 64 ≡ f.epoch + 1 = ground (arith, same, small) in
              rw (found, restart_node)
                (record {
                  node = reborn n;
                  known =
                      lookup-insert f.region f.region (reborn n) c.nodes
                      ∙ simp (str_eq_refl f.region);
                  later = omega (arith, next);
                  small = omega (arith, next, small);
                })
        ]
      ]

    -- A fence that was taken before its region restarts is refused from then on: whatever happens to the
    -- cluster after the restart, as long as the epoch does not wrap, a worker that sends with it sends
    -- nothing.
    pub send_fenced-stale :
        (f : WorkerFence) (e : Envelope) (c : Cluster M) (m : M) (xs : List (Change M))
        → fence f.region c ≡ ok f
        → f.epoch + 1 + length xs < 2 ^ 64
        → let c' : Cluster M = (changes xs ((restart_node f.region c).0, m)).0 in
          send_fenced sha256 f e c' ≡ (c', err stale_fence)
    unfolding send_fenced
    send_fenced-stale f e c m xs taken small =
        let past =
          changes-IsPast f xs (restart_node f.region c).0 m
            (restart_node-IsPast' f c (length xs) taken small) in
        rw (IsPast-valid f (changes xs ((restart_node f.region c).0, m)).0 past) refl

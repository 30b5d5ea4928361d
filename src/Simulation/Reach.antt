-- ===== src/Simulation/Reach.antt =====
-- internal/simulation/network.go: the networks that its operations reach.
use payment_platform.Common.{
  ℕ, String, str_eq, Bool, List, [], ◌∷◌, ℤ, ◌≡◌, ap, ◌∙◌, inl, inr, arith, ◌&&◌, Bool-cases, All,
}
use payment_platform.Simulation.Network.{
  Network, Envelope, Link, canonical_link, drop_link, new_network, partition, heal, crash, restart,
  set_drop_percent, heal_all, set_duplicate_every, set_reorder, arm_drop, arm_duplicates, arm_lost,
  skew_clock,
}
use payment_platform.Simulation.Links.{canonical_link_sym, canonical_link-cases}
use payment_platform.Simulation.Transport.{send, transmit, enqueue, drain}

-- The links are stored with their ends in order.
abbrev pub IsCanonical : List Link → Type 0
IsCanonical links = All (λ l. canonical_link l.0 l.1 ≡ l) links

canonical_link_again :
    (a b : String)
    → canonical_link (canonical_link a b).0 (canonical_link a b).1 ≡ canonical_link a b
canonical_link_again a b = elim (canonical_link-cases a b) [
  | inl first ↦ ap (λ (l : Link). canonical_link l.0 l.1) first
  | inr second ↦ ap (λ (l : Link). canonical_link l.0 l.1) second ∙ canonical_link_sym b a
]

IsCanonical-drop_link :
    (l : Link) (links : List Link) → IsCanonical links → IsCanonical (drop_link l links)
unfolding drop_link
IsCanonical-drop_link l [] h = tt
IsCanonical-drop_link l (m ∷ ms) h = elim (Bool-cases (str_eq m.0 l.0 && str_eq m.1 l.1)) [
  | inl same ↦ rw same (IsCanonical-drop_link l ms h.1)
  | inr other ↦ rw other (h.0, IsCanonical-drop_link l ms h.1)
]

module _ (sha256 : List ℕ → ℕ) where
  -- A network after a sequence of operations on a new one.
  pub data IsReachable : Network → Type 0 where
    created : (seed : ℕ) → IsReachable (new_network seed)
    cutting : {n : Network} (a b : String) → IsReachable n → IsReachable (partition a b n)
    healing : {n : Network} (a b : String) → IsReachable n → IsReachable (heal a b n)
    healing_all : {n : Network} → IsReachable n → IsReachable (heal_all n)
    crashing : {n : Network} (node : String) → IsReachable n → IsReachable (crash node n)
    restarting : {n : Network} (node : String) → IsReachable n → IsReachable (restart node n)
    dropping :
        {n : Network} (percent : ℕ) → IsReachable n → IsReachable (set_drop_percent percent n)
    duplicating :
        {n : Network} (every : ℕ) → IsReachable n → IsReachable (set_duplicate_every every n)
    reordering :
        {n : Network} (enabled : Bool) → IsReachable n → IsReachable (set_reorder enabled n)
    arming_drop :
        {n : Network} (id : String) (k : ℤ) → IsReachable n → IsReachable (arm_drop id k n)
    arming_copies :
        {n : Network} (id : String) (k : ℤ) → IsReachable n → IsReachable (arm_duplicates id k n)
    arming_loss : {n : Network} (id : String) → IsReachable n → IsReachable (arm_lost id n)
    skewing :
        {n : Network} (node : String) (skew : ℤ)
        → IsReachable n
        → IsReachable (skew_clock node skew n)
    sending : {n : Network} (e : Envelope) → IsReachable n → IsReachable (send sha256 e n).0
    draining : {n : Network} → IsReachable n → IsReachable (drain n).0

  send-partitions : (e : Envelope) (n : Network) → (send sha256 e n).0.partitions ≡ n.partitions
  unfolding send transmit enqueue
  send-partitions e n = ground arith

  arm_drop-partitions :
      (id : String) (k : ℤ) (n : Network) → (arm_drop id k n).partitions ≡ n.partitions
  unfolding arm_drop
  arm_drop-partitions id k n = ground arith

  arm_duplicates-partitions :
      (id : String) (k : ℤ) (n : Network) → (arm_duplicates id k n).partitions ≡ n.partitions
  unfolding arm_duplicates
  arm_duplicates-partitions id k n = ground arith

  pub IsReachable-IsCanonical : (n : Network) → IsReachable n → IsCanonical n.partitions
  unfolding new_network partition heal heal_all crash restart set_drop_percent set_duplicate_every
      set_reorder arm_lost skew_clock drain
  IsReachable-IsCanonical n (created seed) = tt
  IsReachable-IsCanonical n (cutting {n = m} a b r) =
      (canonical_link_again a b, IsReachable-IsCanonical m r)
  IsReachable-IsCanonical n (healing {n = m} a b r) =
      IsCanonical-drop_link (canonical_link a b) m.partitions (IsReachable-IsCanonical m r)
  IsReachable-IsCanonical n (healing_all r) = tt
  IsReachable-IsCanonical n (crashing {n = m} node r) = IsReachable-IsCanonical m r
  IsReachable-IsCanonical n (restarting {n = m} node r) = IsReachable-IsCanonical m r
  IsReachable-IsCanonical n (dropping {n = m} percent r) = IsReachable-IsCanonical m r
  IsReachable-IsCanonical n (duplicating {n = m} every r) = IsReachable-IsCanonical m r
  IsReachable-IsCanonical n (reordering {n = m} enabled r) = IsReachable-IsCanonical m r
  IsReachable-IsCanonical n (arming_drop {n = m} id k r) =
      rw (arm_drop-partitions id k m) (IsReachable-IsCanonical m r)
  IsReachable-IsCanonical n (arming_copies {n = m} id k r) =
      rw (arm_duplicates-partitions id k m) (IsReachable-IsCanonical m r)
  IsReachable-IsCanonical n (arming_loss {n = m} id r) = IsReachable-IsCanonical m r
  IsReachable-IsCanonical n (skewing {n = m} node skew r) = IsReachable-IsCanonical m r
  IsReachable-IsCanonical n (sending {n = m} e r) =
      rw (send-partitions e m) (IsReachable-IsCanonical m r)
  IsReachable-IsCanonical n (draining {n = m} r) = IsReachable-IsCanonical m r

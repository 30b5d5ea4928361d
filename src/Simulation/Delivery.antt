-- ===== src/Simulation/Delivery.antt =====
-- internal/simulation/network.go: which packets `Drain` delivers, and what a partition cuts off.
use mathlib.Core.List.{Memᴰ}
use payment_platform.Common.{
  ℕ, String, str_eq, str_eq_refl, eq_iff, true, not, ◌&&◌, ◌||◌, List, [], ◌∷◌, err, ◌≡◌, refl, sym,
  ◌∙◌, ◌⊎◌, inl, inr, arith, Bool-cases, All, subst,
}
use payment_platform.Simulation.Network.{
  Network, Envelope, NetworkError, Link, invalid_envelope, node_down, partitioned, canonical_link,
  has_link, has_node, partition,
}
use payment_platform.Simulation.Links.{canonical_link_sym, canonical_link-cases}
use payment_platform.Simulation.Reach.{IsReachable, IsCanonical, IsReachable-IsCanonical}
use payment_platform.Simulation.Transport.{is_down, is_cut, send, is_held, keep, drain}
use payment_platform.Simulation.Packets.{All-keep, All-arrange}

-- A packet cannot pass: its receiver is down, or the link between its ends is cut, in whichever order the
-- ends are named.
abbrev pub IsStopped : Network → Envelope → Type 0
IsStopped n e =
    Memᴰ e.to n.down ⊎ (Memᴰ (e.from, e.to) n.partitions ⊎ Memᴰ (e.to, e.from) n.partitions)

has_node-true : (x : String) (nodes : List String) → has_node x nodes ≡ true → Memᴰ x nodes
unfolding has_node
has_node-true x [] h = cc
has_node-true x (m ∷ ms) h = elim (Bool-cases (str_eq m x)) [
  | inl same ↦ Memᴰ.head (sym ((eq_iff m x).0 same))
  | inr other ↦ Memᴰ.tail (has_node-true x ms (rw other at h))
]

has_node-member : (x : String) (nodes : List String) → Memᴰ x nodes → has_node x nodes ≡ true
unfolding has_node
has_node-member x [] h = elim h [ ]
has_node-member x (m ∷ ms) (Memᴰ.head e) = rw e (rw (str_eq_refl m) refl)
has_node-member x (m ∷ ms) (Memᴰ.tail h) = ground (arith, has_node-member x ms h)

has_link-true : (l : Link) (links : List Link) → has_link l links ≡ true → Memᴰ l links
unfolding has_link
has_link-true l [] h = cc
has_link-true l (m ∷ ms) h = elim (Bool-cases (str_eq m.0 l.0 && str_eq m.1 l.1)) [
  | inl same ↦
      let from : l.0 ≡ m.0 = sym ((eq_iff m.0 l.0).0 (ground (arith, same))) in
      let to : l.1 ≡ m.1 = sym ((eq_iff m.1 l.1).0 (ground (arith, same))) in
      Memᴰ.head (λ i. (from i, to i))
  | inr other ↦ Memᴰ.tail (has_link-true l ms (rw other at h))
]

has_link-member : (l : Link) (links : List Link) → Memᴰ l links → has_link l links ≡ true
unfolding has_link
has_link-member l [] h = elim h [ ]
has_link-member l (m ∷ ms) (Memᴰ.head e) = rw e (rw (str_eq_refl m.0, str_eq_refl m.1) refl)
has_link-member l (m ∷ ms) (Memᴰ.tail h) = ground (arith, has_link-member l ms h)

canonical_of :
    (links : List Link) (l : Link)
    → All (λ m. canonical_link m.0 m.1 ≡ m) links
    → Memᴰ l links
    → canonical_link l.0 l.1 ≡ l
canonical_of [] l h m = elim m [ ]
canonical_of (x ∷ links) l h (Memᴰ.head e) = rw e h.0
canonical_of (x ∷ links) l h (Memᴰ.tail m) = canonical_of links l h.1 m

held-IsStopped : (n : Network) (e : Envelope) → is_held n e ≡ true → IsStopped n e
unfolding is_held is_down is_cut
held-IsStopped n e h = elim (Bool-cases (has_node e.to n.down)) [
  | inl down ↦ inl (has_node-true e.to n.down down)
  | inr up ↦
      let cut = has_link-true (canonical_link e.from e.to) n.partitions (rw up at h) in
      inr (elim (canonical_link-cases e.from e.to) [
        | inl first ↦ inl (subst (λ l. Memᴰ l n.partitions) first cut)
        | inr second ↦ inr (subst (λ l. Memᴰ l n.partitions) second cut)
      ])
]

cut_by :
    (n : Network) (e : Envelope) (l : Link)
    → canonical_link e.from e.to ≡ l
    → Memᴰ l n.partitions
    → is_held n e ≡ true
unfolding is_held is_down is_cut
cut_by n e l same m = let cut = has_link-member l n.partitions m in rw (same, cut) (ground arith)

stopped-is_held :
    (n : Network) (e : Envelope) → IsCanonical n.partitions → IsStopped n e → is_held n e ≡ true
unfolding is_held is_down
stopped-is_held n e c (inl down) = rw (has_node-member e.to n.down down) refl
stopped-is_held n e c (inr (inl m)) =
    cut_by n e (e.from, e.to) (canonical_of n.partitions (e.from, e.to) c m) m
stopped-is_held n e c (inr (inr m)) =
    cut_by n e (e.to, e.from)
      (canonical_link_sym e.from e.to ∙ canonical_of n.partitions (e.to, e.from) c m) m

All-imp :
    {P Q : Envelope → Type 0} (es : List Envelope)
    → ((e : Envelope) → P e → Q e)
    → All P es
    → All Q es
All-imp [] f h = tt
All-imp (e ∷ es) f h = (f e h.0, All-imp es f h.1)

-- In every network that operations reach, draining delivers only packets whose receiver is up and between
-- whose ends no link is cut, in either direction, and keeps only packets whose receiver is down or whose
-- link is cut.
pub drain-All :
    (sha256 : List ℕ → ℕ) (n : Network)
    → IsReachable sha256 n
    → All (λ e. ¬ IsStopped n e) (drain n).1 × All (IsStopped n) (drain n).0.queue
unfolding drain
drain-All sha256 n reached =
    let c = IsReachable-IsCanonical sha256 n reached in
    (
      All-arrange (λ e. ¬ IsStopped n e) n.reorder (keep (λ e. not (is_held n e)) n.queue)
          (All-imp (keep (λ e. not (is_held n e)) n.queue)
            (λ e passed stopped. let held = stopped-is_held n e c stopped in cc)
            (All-keep (λ e. not (is_held n e)) n.queue)),
      All-imp (keep (is_held n) n.queue) (held-IsStopped n) (All-keep (is_held n) n.queue),
    )

-- A packet between two nodes, whichever of them sends it.
abbrev pub IsBetween : String → String → Envelope → Type 0
IsBetween a b e = ((e.from ≡ a) × (e.to ≡ b)) ⊎ ((e.from ≡ b) × (e.to ≡ a))

link_of_ends :
    (a b : String) (e : Envelope)
    → IsBetween a b e
    → canonical_link e.from e.to ≡ canonical_link a b
link_of_ends a b e (inl (p, q)) = rw (p, q) refl
link_of_ends a b e (inr (p, q)) = rw (p, q) (canonical_link_sym b a)

partition-is_cut :
    (a b : String) (e : Envelope) (n : Network)
    → IsBetween a b e
    → is_cut e (partition a b n) ≡ true
unfolding is_cut partition
partition-is_cut a b e n between =
    has_link-member (canonical_link e.from e.to) (canonical_link a b ∷ n.partitions)
      (Memᴰ.head (link_of_ends a b e between))

send-is_cut :
    (sha256 : List ℕ → ℕ) (e : Envelope) (n : Network)
    → is_cut e n ≡ true
    → (x : NetworkError) × (send sha256 e n ≡ (n, err x))
unfolding send
send-is_cut sha256 e n cut =
    elim (Bool-cases (str_eq e.message_id "" || (str_eq e.from "" || str_eq e.to ""))) [
      | inl unnamed ↦ (invalid_envelope, rw unnamed refl)
      | inr named ↦ elim (Bool-cases (is_down e.from n || is_down e.to n)) [
        | inl down ↦ (node_down, rw (named, down) refl)
        | inr up ↦ (partitioned, rw (named, up, cut) refl)
      ]
    ]

All-member :
    (P : Envelope → Type 0) (e : Envelope) (es : List Envelope) → All P es → Memᴰ e es → P e
All-member P e [] h m = elim m [ ]
All-member P e (f ∷ es) h (Memᴰ.head p) = rw p h.0
All-member P e (f ∷ es) h (Memᴰ.tail m) = All-member P e es h.1 m

-- After a partition of two nodes a packet between them, whichever of them sends it, is refused and leaves
-- the network as it is, and is not delivered if it was queued before.
pub partition-drain :
    (sha256 : List ℕ → ℕ) (a b : String) (e : Envelope) (n : Network)
    → IsBetween a b e
    → ((x : NetworkError) × (send sha256 e (partition a b n) ≡ (partition a b n, err x)))
      × ¬ Memᴰ e (drain (partition a b n)).1
unfolding drain is_held
partition-drain sha256 a b e n between =
    let v = partition a b n in
    let cut = partition-is_cut a b e n between in
    (
      send-is_cut sha256 e v cut,
      λ m.
          let passed =
            All-member (λ f. not (is_held v f) ≡ true) e (drain v).1
              (All-arrange (λ f. not (is_held v f) ≡ true) v.reorder
                (keep (λ f. not (is_held v f)) v.queue) (All-keep (λ f. not (is_held v f)) v.queue))
              m in
          ground arith,
    )

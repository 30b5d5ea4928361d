-- ===== src/Simulation/Packets.antt =====
-- What becomes of the packets of internal/simulation/network.go.
use payment_platform.Common.{
  ℕ, ◌+◌, Bool, true, false, not, List, [], ◌∷◌, err, if◌then◌else◌, ◌≡◌, refl, inl, inr, arith,
  Bool-cases, count, All, ◌∙◌, ap, ◌⊎◌, ◌<◌, ◌≤◌,
}
use payment_platform.Simulation.Network.{Network, Envelope, NetworkError}
use payment_platform.Simulation.Transport.{
  transmit, send, is_held, keep, comes_first, place_packet, sort_packets, drain, arrange,
}

count-keep :
    (p q : Envelope → Bool) (es : List Envelope)
    → count p (keep (λ e. not (q e)) es) + count p (keep q es) ≡ count p es
unfolding keep
count-keep p q [] = refl
count-keep p q (e ∷ es) = ground (arith, count-keep p q es)

count-place_packet :
    (p : Envelope → Bool) (e : Envelope) (es : List Envelope)
    → count p (place_packet e es) ≡ (if p e then 1 else 0) + count p es
unfolding place_packet
count-place_packet p e [] = refl
count-place_packet p e (f ∷ fs) = elim (Bool-cases (comes_first f e)) [
  | inl later ↦ rw later (omega (arith, count-place_packet p e fs))
  | inr here ↦ rw here refl
]

count-sort_packets :
    (p : Envelope → Bool) (es : List Envelope) → count p (sort_packets es) ≡ count p es
unfolding sort_packets
count-sort_packets p [] = refl
count-sort_packets p (e ∷ es) =
    count-place_packet p e (sort_packets es)
    ∙ ap (λ c. (if p e then 1 else 0) + c) (count-sort_packets p es)

count-arrange :
    (p : Envelope → Bool) (reorder : Bool) (es : List Envelope)
    → count p (arrange reorder es) ≡ count p es
count-arrange p true es = count-sort_packets p es
count-arrange p false es = refl

-- Draining loses no packet and makes none: every packet is delivered or stays, whatever is counted and
-- whatever the order of delivery.
pub count-drain :
    (p : Envelope → Bool) (n : Network)
    → count p (drain n).1 + count p (drain n).0.queue ≡ count p n.queue
unfolding drain
count-drain p n =
    ap (λ c. c + count p (keep (is_held n) n.queue))
      (count-arrange p n.reorder (keep (λ e. not (is_held n e)) n.queue))
    ∙ count-keep p (is_held n) n.queue

pub All-keep : (p : Envelope → Bool) (es : List Envelope) → All (λ e. p e ≡ true) (keep p es)
unfolding keep
All-keep p [] = tt
All-keep p (e ∷ es) = elim (Bool-cases (p e)) [
  | inl passed ↦ rw passed (passed, All-keep p es)
  | inr failed ↦ rw failed (All-keep p es)
]

All-place_packet :
    (P : Envelope → Type 0) (e : Envelope) (es : List Envelope)
    → P e
    → All P es
    → All P (place_packet e es)
unfolding place_packet
All-place_packet P e [] h k = (h, tt)
All-place_packet P e (f ∷ fs) h k = elim (Bool-cases (comes_first f e)) [
  | inl later ↦ rw later (k.0, All-place_packet P e fs h k.1)
  | inr here ↦ rw here (h, k)
]

All-sort_packets : (P : Envelope → Type 0) (es : List Envelope) → All P es → All P (sort_packets es)
unfolding sort_packets
All-sort_packets P [] h = tt
All-sort_packets P (e ∷ es) h =
    All-place_packet P e (sort_packets es) h.0 (All-sort_packets P es h.1)

pub All-arrange :
    (P : Envelope → Type 0) (reorder : Bool) (es : List Envelope)
    → All P es
    → All P (arrange reorder es)
All-arrange P true es h = All-sort_packets P es h
All-arrange P false es h = h

-- The order of the reorder mode: a packet comes before those with lower numbers, and before the copies
-- of its own number that are counted lower or alike.
abbrev pub IsBefore : Envelope → Envelope → Type 0
IsBefore e f = (f.sequence < e.sequence) ⊎ ((f.sequence ≡ e.sequence) × (f.delivery ≤ e.delivery))

-- Highest first, throughout the list.
abbrev pub IsOrdered : List Envelope → Type 0
IsOrdered [] = Unit {0}
IsOrdered (e ∷ es) = All (IsBefore e) es × IsOrdered es

comes_first-IsBefore : (e f : Envelope) → comes_first f e ≡ false → IsBefore e f
unfolding comes_first
comes_first-IsBefore e f h = ground arith

comes_first-true : (e f : Envelope) → comes_first f e ≡ true → IsBefore f e
unfolding comes_first
comes_first-true e f h = ground arith

IsBefore-trans : (a b c : Envelope) → IsBefore a b → IsBefore b c → IsBefore a c
IsBefore-trans a b c h k = ground arith

All-IsBefore :
    (a b : Envelope) (es : List Envelope) → IsBefore a b → All (IsBefore b) es → All (IsBefore a) es
All-IsBefore a b [] h k = tt
All-IsBefore a b (e ∷ es) h k = (IsBefore-trans a b e h k.0, All-IsBefore a b es h k.1)

IsOrdered-place_packet :
    (e : Envelope) (es : List Envelope) → IsOrdered es → IsOrdered (place_packet e es)
unfolding place_packet
IsOrdered-place_packet e [] h = (tt, tt)
IsOrdered-place_packet e (f ∷ fs) h = elim (Bool-cases (comes_first f e)) [
  | inl later ↦ rw later (
    All-place_packet (IsBefore f) e fs (comes_first-true e f later) h.0,
    IsOrdered-place_packet e fs h.1,
  )
  | inr here ↦
      let first = comes_first-IsBefore e f here in
      rw here ((first, All-IsBefore e f fs first h.0), h)
]

IsOrdered-sort_packets : (es : List Envelope) → IsOrdered (sort_packets es)
unfolding sort_packets
IsOrdered-sort_packets [] = tt
IsOrdered-sort_packets (e ∷ es) =
    IsOrdered-place_packet e (sort_packets es) (IsOrdered-sort_packets es)

IsOrdered-arrange :
    (reorder : Bool) (es : List Envelope) → reorder ≡ true → IsOrdered (arrange reorder es)
IsOrdered-arrange true es h = IsOrdered-sort_packets es
IsOrdered-arrange false es h = cc

-- In the reorder mode packets are delivered by number, highest first, and those of one number by copy,
-- highest first.
pub drain-IsOrdered : (n : Network) → n.reorder ≡ true → IsOrdered (drain n).1
unfolding drain
drain-IsOrdered n h = IsOrdered-arrange n.reorder (keep (λ e. not (is_held n e)) n.queue) h

module _ (sha256 : List ℕ → ℕ) (e : Envelope) (n : Network) where
  -- A packet that is refused or lost is not queued, and what was queued stays.
  pub send-lost :
      {x : NetworkError} → (send sha256 e n).1 ≡ err x → (send sha256 e n).0.queue ≡ n.queue
  unfolding send transmit
  send-lost h = ground arith

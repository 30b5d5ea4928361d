-- ===== src/Simulation/Transport.antt =====
-- internal/simulation/network.go: `Send` and `Drain`.
use payment_platform.Common.{
  ℕ, suc, zero, ◌+◌, ◌-◌, ◌/◌, ◌%◌, ◌^◌, String, str_eq, Bool, true, false, not, ◌&&◌, ◌||◌, ltb,
  ◌==◌, List, [], ◌∷◌, ◌++◌, Result, ok, err, if◌then◌else◌,
}
use payment_platform.Common.Bytes.{utf8, big_endian}
use payment_platform.Common.Dict.{get, insert, erase}
use payment_platform.Simulation.Network.{
  Network, Envelope, MessageKind, response, NetworkError, partitioned, packet_lost, node_down,
  invalid_envelope, canonical_link, has_link, has_node,
}

abbrev pub is_response : MessageKind → Bool
is_response response = true
is_response _ = false

unfoldable pub is_down : String → Network → Bool
is_down node n = has_node node n.down

unfoldable pub is_cut : Envelope → Network → Bool
is_cut e n = has_link (canonical_link e.from e.to) n.partitions

-- The copies of a packet, numbered from `delivery`.
unfoldable pub copies : Envelope → ℕ → ℕ → List Envelope
copies e delivery zero = []
copies e delivery (suc extra) =
    record e { delivery = delivery % 2 ^ 32 } ∷ copies e (delivery + 1) extra

module _ (sha256 : List ℕ → ℕ) where
  -- The first eight bytes of the digest, as a percentage.
  unfoldable pub deterministic_percent : ℕ → ℕ → String → ℕ
  deterministic_percent seed sequence message_id =
      sha256 (big_endian 8 seed ++ (big_endian 8 sequence ++ utf8 message_id))
      / 2 ^ 192
      % 2 ^ 64
      % 100

  -- A packet that is not lost is queued, and its copies after it.
  unfoldable pub enqueue : Envelope → Network → Network
  enqueue e n = record n {
    queue = n.queue ++ e ∷ copies e 1 extra;
    duplicate_next = erase e.message_id n.duplicate_next;
  }
    where
      extra : ℕ
      extra =
          get 0 e.message_id n.duplicate_next
          + (if ltb 0 n.duplicate_every && n.sequence % n.duplicate_every == 0 then 1 else 0)

  -- A packet that no armed fault stops takes the next number, and may be lost by chance.
  unfoldable pub transmit : Envelope → Network → Network × Result NetworkError (Unit {0})
  transmit e n =
      let next = (n.sequence + 1) % 2 ^ 64 in
      let n₁ : Network = record n { sequence = next } in
      if ltb (deterministic_percent n.seed next e.message_id) n.drop_percent
      then (n₁, err packet_lost)
      else (enqueue (record e { sequence = next }) n₁, ok tt)

  unfoldable pub send : Envelope → Network → Network × Result NetworkError (Unit {0})
  send e n =
      if str_eq e.message_id "" || (str_eq e.from "" || str_eq e.to "")
      then (n, err invalid_envelope)
      else if is_down e.from n || is_down e.to n
      then (n, err node_down)
      else if is_cut e n
      then (n, err partitioned)
      else if is_response e.kind && ltb 0 (get 0 e.correlation_id n.lose_response)
      then (
        record n {
          lose_response =
              insert e.correlation_id (get 0 e.correlation_id n.lose_response - 1) n.lose_response;
        },
        err packet_lost,
      )
      else if ltb 0 (get 0 e.message_id n.drop_next)
      then (
        record n {
          drop_next = insert e.message_id (get 0 e.message_id n.drop_next - 1) n.drop_next;
        },
        err packet_lost,
      )
      else transmit e n

-- A packet waits while its receiver is down or its link is cut.
unfoldable pub is_held : Network → Envelope → Bool
is_held n e = is_down e.to n || is_cut e n

unfoldable pub keep {ℓ} : {A : Type ℓ} → (A → Bool) → List A → List A
keep p [] = []
keep p (x ∷ xs) = let rest = keep p xs in if p x then x ∷ rest else rest

-- The order of the reorder mode: by number and copy, highest first.
unfoldable pub comes_first : Envelope → Envelope → Bool
comes_first a b =
    if a.sequence == b.sequence then ltb b.delivery a.delivery else ltb b.sequence a.sequence

unfoldable pub place_packet : Envelope → List Envelope → List Envelope
place_packet e [] = e ∷ []
place_packet e (f ∷ fs) =
    let rest = place_packet e fs in if comes_first f e then f ∷ rest else e ∷ f ∷ fs

-- `sort.SliceStable`
unfoldable pub sort_packets : List Envelope → List Envelope
sort_packets [] = []
sort_packets (e ∷ es) = place_packet e (sort_packets es)

abbrev pub arrange : Bool → List Envelope → List Envelope
arrange reorder packets = if reorder then sort_packets packets else packets

unfoldable pub drain : Network → Network × List Envelope
drain n =
    let result = keep (λ e. not (is_held n e)) n.queue in
    (
      record n { tick = (n.tick + 1) % 2 ^ 64; queue = keep (is_held n) n.queue },
      arrange n.reorder result,
    )

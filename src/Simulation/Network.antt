-- ===== src/Simulation/Network.antt =====
-- internal/simulation/network.go: the message transport with its injected faults.
use payment_platform.Common.{
  ℕ, String, str_eq, Bool, false, ◌&&◌, ◌||◌, List, [], ◌∷◌, ℤ, ltb, if◌then◌else◌,
}
use payment_platform.Common.{pos, pos_part, ltb_ℤ, ◌+ℤ◌, ◌+◌}
use payment_platform.Common.Dict.{Dict, get, insert}
use Prim.Native.String.{compare}
use text.Mathlib.Text.{is_lt}

pub data MessageKind : Type 0 where
  command event response ack : MessageKind

pub data NetworkError : Type 0 where
  partitioned packet_lost node_down invalid_envelope : NetworkError

pub record Envelope : Type 0 where
  pub message_id : String
  pub from : String
  pub to : String
  pub kind : MessageKind
  pub correlation_id : String
  pub payload : List ℕ
  pub sequence : ℕ
  pub delivery : ℕ

abbrev pub Link : Type 0
Link = String × String

-- A set of links and of nodes: the maps hold `true` at every key.
pub record Network : Type 0 where
  pub seed : ℕ
  pub sequence : ℕ
  pub tick : ℕ
  pub drop_percent : ℕ
  pub duplicate_every : ℕ
  pub reorder : Bool
  pub partitions : List Link
  pub down : List String
  pub clock_skew : Dict ℤ
  pub drop_next : Dict ℕ
  pub duplicate_next : Dict ℕ
  pub lose_response : Dict ℕ
  pub queue : List Envelope

-- Texts compare by their bytes, as in Go.
unfoldable pub canonical_link : String → String → Link
canonical_link a b = if is_lt (compare a b) then (a, b) else (b, a)

abbrev link_eq : Link → Link → Bool
link_eq (a, b) (c, d) = str_eq a c && str_eq b d

unfoldable pub has_link : Link → List Link → Bool
has_link l [] = false
has_link l (m ∷ ms) = link_eq m l || has_link l ms

unfoldable pub drop_link : Link → List Link → List Link
drop_link l [] = []
drop_link l (m ∷ ms) = let rest = drop_link l ms in if link_eq m l then rest else m ∷ rest

unfoldable pub has_node : String → List String → Bool
has_node n [] = false
has_node n (m ∷ ms) = str_eq m n || has_node n ms

unfoldable pub drop_node : String → List String → List String
drop_node n [] = []
drop_node n (m ∷ ms) = let rest = drop_node n ms in if str_eq m n then rest else m ∷ rest

unfoldable pub new_network : ℕ → Network
new_network seed = record {
  seed = seed;
  sequence = 0;
  tick = 0;
  drop_percent = 0;
  duplicate_every = 0;
  reorder = false;
  partitions = [];
  down = [];
  clock_skew = [];
  drop_next = [];
  duplicate_next = [];
  lose_response = [];
  queue = [];
}

unfoldable pub partition : String → String → Network → Network
partition a b n = record n { partitions = canonical_link a b ∷ n.partitions }

unfoldable pub heal : String → String → Network → Network
heal a b n = record n { partitions = drop_link (canonical_link a b) n.partitions }

unfoldable pub crash : String → Network → Network
crash node n = record n { down = node ∷ n.down }

unfoldable pub restart : String → Network → Network
restart node n = record n { down = drop_node node n.down }

unfoldable pub set_drop_percent : ℕ → Network → Network
set_drop_percent percent n = record n { drop_percent = if ltb 100 percent then 100 else percent }

unfoldable pub heal_all : Network → Network
heal_all n = record n { partitions = [] }

unfoldable pub set_duplicate_every : ℕ → Network → Network
set_duplicate_every every n = record n { duplicate_every = every }

unfoldable pub set_reorder : Bool → Network → Network
set_reorder enabled n = record n { reorder = enabled }

-- `DropNext` and `DuplicateNext`: a count that is not positive changes nothing.
unfoldable pub arm_drop : String → ℤ → Network → Network
arm_drop message_id count n =
    if ltb_ℤ (pos 0) count
    then record n {
      drop_next = insert message_id (get 0 message_id n.drop_next + pos_part count) n.drop_next;
    }
    else n

unfoldable pub arm_duplicates : String → ℤ → Network → Network
arm_duplicates message_id count n =
    if ltb_ℤ (pos 0) count
    then record n {
      duplicate_next =
          insert message_id (get 0 message_id n.duplicate_next + pos_part count) n.duplicate_next;
    }
    else n

-- `LoseResponse`
unfoldable pub arm_lost : String → Network → Network
arm_lost request_id n = record n {
  lose_response = insert request_id (get 0 request_id n.lose_response + 1) n.lose_response;
}

-- `ClockSkew` and `Now`, with times and durations in nanoseconds.
unfoldable pub skew_clock : String → ℤ → Network → Network
skew_clock node skew n = record n { clock_skew = insert node skew n.clock_skew }

unfoldable pub now : String → ℤ → Network → ℤ
now node base n = base +ℤ get (pos 0) node n.clock_skew

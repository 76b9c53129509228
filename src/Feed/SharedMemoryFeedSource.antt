-- ===== src/Feed/SharedMemoryFeedSource.antt =====
-- feed/SharedMemoryFeedSource.hpp: orders from a ring of packets in shared memory. A load of the head
-- and the packets that it publishes are a script, one entry for each turn of the outer loop of `run`;
-- the writer does not touch published packets while they are read. The memory is mapped in Mapping; the
-- hashes and the sleep are left out.
pub mod Drain
pub mod Endless
pub mod Mapping
use chrono_trade.Common.{
  ℕ, zero, suc, ◌+◌, ◌%◌, ◌^◌, Bool, true, false, ◌||◌, Option, none, some, List, [], ◌∷◌, ◌++◌,
  ltb, leb, ◌==◌, get_elem?, length, take, if◌then◌else◌,
}
use chrono_trade.Common.Result.{Result, ok, err, ◌>>=◌}
use chrono_trade.Common.Float.{Float}
use chrono_trade.Core.Order.{Order}
use chrono_trade.Feed.Text.{tokens}
use chrono_trade.Feed.SocketFeedSource.{Sink, order_of}

-- A read outside of a packet or of the ring, and a division by the capacity 0.
pub data ShmError : Type 0 where
  wild_read division_by_zero : ShmError

abbrev pub k_max_packets : ℕ
k_max_packets = 1024

abbrev pub k_packet_size : ℕ
k_packet_size = 256

pub record Packet : Type 0 where
  pub data_bytes : List ℕ
  pub len : ℕ

pub record RingBuffer : Type 0 where
  pub head : ℕ
  pub tail : ℕ
  pub packets : List Packet

-- What `run` keeps and shares: its local tail, the tail in the ring, the queue and the counters.
pub record Reader (W : Type 0) : Type 0 where
  pub local_tail : ℕ
  pub shared_tail : ℕ
  pub sink : Sink W

-- `is_ascii(data, len)`, by the bytes that are left of the array and the rounds that are left.
unfoldable pub is_ascii : List ℕ → ℕ → Result ShmError Bool
is_ascii cs zero = ok true
is_ascii [] (suc n) = err wild_read
is_ascii (c ∷ cs) (suc n) =
    let rest = is_ascii cs n in if ltb c 32 || ltb 126 c then ok false else rest

-- `ring_->packets[local_tail % buffer_capacity_]`
abbrev pub packet_at : ℕ → List Packet → ℕ → Result ShmError Packet
packet_at zero packets i = err division_by_zero
packet_at (suc n) packets i = elim (get_elem? packets (i % suc n)) [
  | none ↦ err wild_read
  | some pkt ↦ ok pkt
]

-- `(local_tail + 1) % buffer_capacity_`, in 32 bits and in 64, and stored in 32.
abbrev pub next_tail : ℕ → ℕ → ℕ
next_tail capacity i = (i + 1) % 2 ^ 32 % capacity % 2 ^ 32

module _ {W : Type 0} ⦃f : Float W⦄ (stod : List ℕ → Option (W × List ℕ)) where
  -- `parse`; `none` where it throws. `is_ascii` has read all of the text before.
  unfoldable pub parse : Packet → Option (Order W)
  parse pkt = elim (tokens b',' [] (take pkt.len pkt.data_bytes)) [
    | [] ↦ none
    | a ∷ [] ↦ none
    | a ∷ b ∷ [] ↦ none
    | a ∷ b ∷ c ∷ [] ↦ order_of stod a b c
    | a ∷ b ∷ c ∷ d ∷ more ↦ none
  ]

  -- The body of the inner loop, without the tail.
  unfoldable pub handle : Sink W → Packet → Result ShmError (Sink W)
  unfolding parse
  handle s pkt = is_ascii pkt.data_bytes pkt.len >>= λ printable.
      if printable
      then (elim (parse pkt) [
        | none ↦ ok (record s { anomalies = s.anomalies + 1 })
        | some o ↦ ok (record s {
          out_queue = s.out_queue ++ (o ∷ []);
          orders_received = s.orders_received + 1;
        })
      ])
      else ok (record s { anomalies = s.anomalies + 1 })

  -- A round of the inner loop.
  unfoldable pub consume : ℕ → List Packet → Reader W → Result ShmError (Reader W)
  unfolding handle
  consume capacity packets r = do
    pkt ← packet_at capacity packets r.local_tail
    sink ← handle r.sink pkt
    ok (record {
      local_tail = next_tail capacity r.local_tail;
      shared_tail = next_tail capacity r.local_tail;
      sink = sink;
    })

  -- `while (local_tail != head)`, for `fuel` rounds at most.
  unfoldable pub drain : ℕ → ℕ → List Packet → ℕ → Reader W → Result ShmError (Reader W)
  unfolding consume
  drain zero capacity packets head r = ok r
  drain (suc fuel) capacity packets head r = elim (r.local_tail == head) [
    | true ↦ ok r
    | false ↦ consume capacity packets r >>= λ t. drain fuel capacity packets head t
  ]

  -- `run` from its second line on, with `fuel` rounds of the inner loop for each turn, until the
  -- script ends and `stop_flag_` is set.
  unfoldable pub run : ℕ → ℕ → List RingBuffer → Reader W → Result ShmError (Reader W)
  unfolding drain
  run fuel capacity [] r = ok r
  run fuel capacity (ring ∷ rings) r =
      drain fuel capacity ring.packets ring.head r >>= λ t. run fuel capacity rings t

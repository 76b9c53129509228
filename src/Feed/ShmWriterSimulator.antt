-- ===== src/Feed/ShmWriterSimulator.antt =====
-- feed/simulators/shm_writer_simulator.cpp: a writer that fills the ring of a shared memory feed. The
-- command line, the opening of the memory, the console and the sleep are left out. `draw i` is
-- `rng() % 4` in round i.
pub mod Through
use chrono_trade.Common.{
  ℕ, zero, suc, ◌+◌, ◌-◌, ◌/◌, ◌%◌, ◌^◌, Bool, true, false, ◌&&◌, List, [], ◌∷◌, ◌++◌, leb, ◌==◌,
  set, length, take, replicate, if◌then◌else◌,
}
use chrono_trade.Feed.Text.{bytes}
use chrono_trade.Feed.SharedMemoryFeedSource.{Packet, RingBuffer, k_max_packets, k_packet_size}

-- `std::to_string(n)`: the digits of n, the last digit last; `fuel` above the number of the digits.
abbrev to_string_from : ℕ → ℕ → List ℕ → List ℕ
to_string_from zero n behind = behind
to_string_from (suc fuel) n behind =
    let digit = (b'0' + n % 10) ∷ behind in
    let rest = to_string_from fuel (n / 10) digit in elim (n / 10) [ zero ↦ digit | suc m ↦ rest ]

abbrev pub to_string : ℕ → List ℕ
to_string n = to_string_from (n + 1) n []

abbrev pub malformed : ℕ → List ℕ
malformed zero = []
malformed (suc zero) = bytes "malformed,packet"
malformed (suc (suc zero)) = bytes "1e308,NaN,XYZ"
malformed (suc (suc (suc n))) = replicate k_packet_size b'X'

-- The packet of round i, before it is cut.
unfoldable pub packet_text : Bool → (ℕ → ℕ) → ℕ → List ℕ
packet_text inject_malformed draw i =
    if inject_malformed && (i % 5 == 0)
    then malformed (draw i % 4)
    else bytes "100.0," ++ to_string (i + 1) ++ bytes ",172500000" ++ to_string i

abbrev pub truncated : List ℕ → List ℕ
truncated packet =
    if leb k_packet_size (length packet) then take (k_packet_size - 1) packet else packet

-- `memset`, `memcpy` and the length.
abbrev pub filled : List ℕ → Packet
filled packet = record {
  data_bytes = packet ++ replicate (k_packet_size - length packet) 0;
  len = length packet % 2 ^ 16;
}

abbrev pub packet_of : Bool → (ℕ → ℕ) → ℕ → Packet
packet_of inject_malformed draw i = filled (truncated (packet_text inject_malformed draw i))

-- The loop, with `n` rounds to go from round i on. The tail is what was loaded before the loop.
unfoldable pub write_loop : Bool → (ℕ → ℕ) → ℕ → ℕ → ℕ → ℕ → RingBuffer → RingBuffer
write_loop bad draw zero i head tail ring = ring
write_loop bad draw (suc n) i head tail ring =
    let next_head = (head + 1) % k_max_packets in
    let rest = write_loop bad draw n (i + 1) next_head tail (record ring {
      packets = set ring.packets (head % k_max_packets) (packet_of bad draw i);
      head = next_head;
    }) in
    if next_head == tail then ring else rest

-- `main` on the mapped ring.
unfoldable pub write_packets : Bool → (ℕ → ℕ) → ℕ → RingBuffer → RingBuffer
unfolding write_loop
write_packets bad draw count ring = write_loop bad draw count 0 ring.head ring.tail ring

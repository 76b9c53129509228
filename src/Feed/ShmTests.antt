-- ===== src/Feed/ShmTests.antt =====
-- A ring in shared memory, its writer and its reader.
use chrono_trade.Common.{
  ℕ, zero, suc, ◌+◌, ◌^◌, ◌≤◌, ◌≡◌, true, refl, List, [], ◌∷◌, length, replicate, length-replicate,
  All, arith,
}
use chrono_trade.Common.Result.{ok}
use chrono_trade.Common.Float.{Micros, micro_float}
use chrono_trade.Feed.Text.{bytes}
use chrono_trade.Feed.SourceTests.{stod}
use chrono_trade.Feed.SharedMemoryFeedSource.{Packet, RingBuffer, Reader, drain}
use chrono_trade.Feed.SharedMemoryFeedSource.Drain
use chrono_trade.Feed.SharedMemoryFeedSource.Drain.{IsRing, IsSized, distance, slots, receive_all}
use chrono_trade.Feed.ShmWriterSimulator.{filled, packet_text, write_packets}
use chrono_trade.Feed.ShmWriterSimulator.Through
use chrono_trade.Feed.ShmWriterSimulator.Through.{Passed}

text_of_round : packet_text true (λ i. 1) 11 ≡ bytes "100.0,12,17250000011"
unfolding packet_text
text_of_round = refl

abbrev reader : ℕ → Reader Micros
reader i = record {
  local_tail = i;
  shared_tail = i;
  sink = record { out_queue = []; orders_received = 0; anomalies = 0 };
}

abbrev three : List Packet
three =
    filled (bytes "1,2,1725000001") ∷ filled (bytes "1,2") ∷ filled (bytes "1,2,1725000002") ∷ []

three-IsRing : IsRing 3 three
three-IsRing = record {
  full = refl;
  small = omega arith;
  sized = (omega arith, (omega arith, (omega arith, tt)));
}

drain-slots_example :
    (t : Reader Micros) × (drain stod 2 3 three 1 (reader 2) ≡ ok t)
    × ((t.local_tail ≡ 1) × (t.shared_tail ≡ 1))
    × (t.sink ≡ receive_all stod (reader 2).sink (slots three 2 (distance 3 2 1)))
    × (t.sink.orders_received + t.sink.anomalies ≡ 0 + 0 + length (slots three 2 (distance 3 2 1)))
drain-slots_example =
    Drain.drain-slots stod 2 3 three 1 (reader 2) three-IsRing refl (omega arith) (omega arith)
      (omega arith)

abbrev blank : Packet
blank = record { data_bytes = []; len = 0 }

replicate-IsSized : (n : ℕ) → All (λ pkt. IsSized pkt) (replicate n blank)
replicate-IsSized zero = tt
replicate-IsSized (suc n) = (omega arith, replicate-IsSized n)

blank-IsRing : (n : ℕ) → n ≤ 2 ^ 32 → IsRing n (replicate n blank)
blank-IsRing n h = record {
  full = length-replicate n blank;
  small = h;
  sized = replicate-IsSized n;
}

abbrev empty_ring : RingBuffer
empty_ring = record { head = 1022; tail = 1022; packets = replicate 1024 blank }

write_packets-Passed_example :
    Passed stod true (λ i. i) 5 (reader 1022) (write_packets true (λ i. i) 5 empty_ring)
write_packets-Passed_example =
    Through.write_packets-Passed stod true (λ i. i) 5 empty_ring (reader 1022)
      (blank-IsRing 1024 (omega arith)) (omega arith) refl refl refl

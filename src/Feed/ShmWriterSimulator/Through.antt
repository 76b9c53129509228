-- ===== src/Feed/ShmWriterSimulator/Through.antt =====
-- What the writer puts into the ring is what the reader takes out of it.
use chrono_trade.Common.{
  ℕ, zero, suc, ◌+◌, ◌-◌, ◌%◌, ◌≤◌, ◌<◌, ◌≡◌, refl, ◌∙◌, ap, Bool, true, false, Option, some, List,
  [], ◌∷◌, leb, ◌==◌, min, set, get_elem?, get_elem?-set_self, get_elem?-set_ne, length-set, length,
  replicate, length-append, length-take, All, arith, if_elim,
}
use chrono_trade.Common.Result.{ok}
use chrono_trade.Common.Float.{Float}
use chrono_trade.Feed.SharedMemoryFeedSource.{Packet, RingBuffer, Reader, drain}
use chrono_trade.Feed.SharedMemoryFeedSource.Drain.{
  IsRing, IsSized, after_slot, distance, slots, slots_first, drain-slots, receive_all,
}
use chrono_trade.Feed.ShmWriterSimulator.{
  truncated, filled, packet_of, packet_text, write_loop, write_packets,
}

-- The packets of n rounds from round i on.
abbrev pub packets_from : Bool → (ℕ → ℕ) → ℕ → ℕ → List Packet
packets_from bad draw i zero = []
packets_from bad draw i (suc n) = packet_of bad draw i ∷ packets_from bad draw (i + 1) n

-- The rounds that find room: up to the slot in front of the tail.
abbrev pub room : ℕ → ℕ → ℕ
room head tail = distance 1024 (after_slot 1024 head) tail

truncated-short : (text : List ℕ) → length (truncated text) ≤ 255
truncated-short text =
    if_elim (λ t. length t ≤ 255) (leb 256 (length text)) (λ _. omega (arith, length-take 255 text))
      (λ e. ground arith)

filled-IsSized : (text : List ℕ) → length text ≤ 255 → IsSized (filled text)
filled-IsSized text h = omega (arith, length-append text (replicate (256 - length text) 0))

-- What m rounds leave: a ring of sized packets, the head behind them, their packets in the slots from
-- the old head on, and the other slots as they were.
record Wrote (bad : Bool) (draw : ℕ → ℕ) (m i head : ℕ) (ring out : RingBuffer) : Type 0 where
  ring_ok : IsRing 1024 out.packets
  head_ok : out.head < 1024
  moved : distance 1024 head out.head ≡ m
  written : slots out.packets head m ≡ packets_from bad draw i m
  others :
      (j : ℕ)
      → j < 1024
      → m ≤ distance 1024 head j
      → get_elem? out.packets j ≡ get_elem? ring.packets j

set-IsSized :
    (pkts : List Packet) (i : ℕ) (pkt : Packet)
    → IsSized pkt
    → All (λ p. IsSized p) pkts
    → All (λ p. IsSized p) (set pkts i pkt)
set-IsSized [] i pkt h a = tt
set-IsSized (p ∷ pkts) zero pkt h a = (h, a.1)
set-IsSized (p ∷ pkts) (suc i) pkt h a = (a.0, set-IsSized pkts i pkt h a.1)

idle_rounds :
    (bad : Bool) (draw : ℕ → ℕ) (i head : ℕ) (ring : RingBuffer)
    → IsRing 1024 ring.packets
    → ring.head ≡ head
    → head < 1024
    → Wrote bad draw 0 i head ring ring
idle_rounds bad draw i head ring v e hh = record {
  ring_ok = v;
  head_ok = omega (arith, e);
  moved = ground (arith, e);
  written = refl;
  others = λ j h k. refl;
}

room_small : (head tail : ℕ) → head < 1024 → tail < 1024 → room head tail ≤ 1023
room_small head tail hh ht = ground arith

-- A round in front of those.
one_round_more :
    (bad : Bool) (draw : ℕ → ℕ) (m i head : ℕ) (ring out : RingBuffer)
    → IsRing 1024 ring.packets
    → head < 1024
    → m ≤ 1022
    → Wrote bad draw m
        (i + 1)
        ((head + 1) % 1024)
        (record ring {
          packets = set ring.packets (head % 1024) (packet_of bad draw i);
          head = (head + 1) % 1024;
        })
        out
    → Wrote bad draw (suc m) i head ring out
one_round_more bad draw m i head ring out v hh hm w =
    let slot : head % 1024 ≡ head = omega arith in
    let pkt = packet_of bad draw i in
    let there : get_elem? out.packets head ≡ some pkt =
      w.others head hh (ground arith)
      ∙ ap (λ j. get_elem? (set ring.packets j pkt) head) slot
      ∙ get_elem?-set_self ring.packets head pkt (omega (arith, v.full)) in
    record {
      ring_ok = w.ring_ok;
      head_ok = w.head_ok;
      moved = ground (arith, w.moved, w.head_ok);
      written =
          slots_first out.packets head m 1024 pkt w.ring_ok.full there
          ∙ ap (λ h. pkt ∷ slots out.packets h m) {x = after_slot 1024 head} {y = (head + 1) % 1024}
              (ground arith)
          ∙ ap (λ pkts. pkt ∷ pkts) w.written;
      others = λ j hj k.
          w.others j hj (ground arith)
          ∙ get_elem?-set_ne ring.packets (head % 1024) j pkt (λ e. ground (arith, slot, e));
    }

write_loop-Wrote :
    (bad : Bool) (draw : ℕ → ℕ) (n m i head tail : ℕ) (ring : RingBuffer)
    → IsRing 1024 ring.packets
    → ring.head ≡ head
    → head < 1024
    → tail < 1024
    → m ≡ min n (room head tail)
    → Wrote bad draw m i head ring (write_loop bad draw n i head tail ring)
unfolding write_loop
write_loop-Wrote bad draw zero zero i head tail ring v e hh ht k =
    idle_rounds bad draw i head ring v e hh
write_loop-Wrote bad draw zero (suc m) i head tail ring v e hh ht k = absurd (omega arith)
write_loop-Wrote bad draw (suc n) zero i head tail ring v e hh ht k =
    let full : ((head + 1) % 1024 == tail) ≡ true = ground arith in
    rw (full) (idle_rounds bad draw i head ring v e hh)
write_loop-Wrote bad draw (suc n) (suc m) i head tail ring v e hh ht k =
    let space : ((head + 1) % 1024 == tail) ≡ false = ground arith in
    let pkt = packet_of bad draw i in
    let next : ℕ = (head + 1) % 1024 in
    let slot : head % 1024 ≡ head = omega arith in
    let ring' : RingBuffer = record ring {
      packets = set ring.packets (head % 1024) pkt;
      head = next;
    } in
    let v' : IsRing 1024 ring'.packets = record {
      full = length-set ring.packets (head % 1024) pkt ∙ v.full;
      small = v.small;
      sized =
          set-IsSized ring.packets (head % 1024) pkt
            (filled-IsSized (truncated (packet_text bad draw i))
              (truncated-short (packet_text bad draw i)))
            v.sized;
    } in
    let w =
      write_loop-Wrote bad draw n m (i + 1) next tail ring' v' refl (ground arith) ht
        (ground arith) in
    rw (space)
      (one_round_more bad draw m i head ring _ v hh (omega (arith, room_small head tail hh ht)) w)

-- What the reader finds when the writer is done.
pub record Passed {W : Type 0} ⦃f : Float W⦄ (stod : List ℕ → Option (W × List ℕ)) (bad : Bool)
    (draw : ℕ → ℕ) (n : ℕ) (r : Reader W) (out : RingBuffer) : Type 0 where
  pub reader : Reader W
  pub drained : drain stod 1024 1024 out.packets out.head r ≡ ok reader
  pub at_head : (reader.local_tail ≡ out.head) × (reader.shared_tail ≡ out.head)
  pub received : reader.sink ≡ receive_all stod r.sink (packets_from bad draw 0 n)
  pub accounted :
      reader.sink.orders_received + reader.sink.anomalies
      ≡ r.sink.orders_received + r.sink.anomalies + n

length-packets_from : (bad : Bool) (draw : ℕ → ℕ) (i n : ℕ) → length (packets_from bad draw i n) ≡ n
length-packets_from bad draw i zero = refl
length-packets_from bad draw i (suc n) = ap suc (length-packets_from bad draw (i + 1) n)

-- On an empty ring the writer leaves the packets of its first min(count, 1023) rounds, and a reader
-- that begins at the same slot then takes these packets in their order, each once, and stands at
-- the head.
pub write_packets-Passed :
    {W : Type 0} ⦃f : Float W⦄ (stod : List ℕ → Option (W × List ℕ)) (bad : Bool) (draw : ℕ → ℕ)
    (count : ℕ) (ring : RingBuffer) (r : Reader W)
    → IsRing 1024 ring.packets
    → ring.head < 1024
    → ring.tail ≡ ring.head
    → r.local_tail ≡ ring.head
    → r.shared_tail ≡ r.local_tail
    → Passed stod bad draw (min count 1023) r (write_packets bad draw count ring)
unfolding write_packets
write_packets-Passed stod bad draw count ring r v hh ht hr hs =
    let m = min count 1023 in
    let out = write_packets bad draw count ring in
    let w =
      write_loop-Wrote bad draw count m 0 ring.head ring.tail ring v refl hh (omega (arith, ht))
        (ground (arith, ht)) in
    let same =
      ap (λ i. slots out.packets i (distance 1024 i out.head)) hr
      ∙ ap (λ n. slots out.packets ring.head n) w.moved
      ∙ w.written in
    let (t, goes, there, took, counted) =
      drain-slots stod 1024 1024 out.packets out.head r w.ring_ok hs (omega (arith, hr)) w.head_ok
        (ground (arith, w.head_ok, hr)) in
    record {
      reader = t;
      drained = goes;
      at_head = there;
      received = took ∙ ap (receive_all stod r.sink) same;
      accounted = omega (arith, counted, ap length same, length-packets_from bad draw 0 m);
    }

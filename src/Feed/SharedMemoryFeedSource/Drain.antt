-- ===== src/Feed/SharedMemoryFeedSource/Drain.antt =====
-- The inner loop takes the packets between the tail and the head, in their order.
use chrono_trade.Common.{
  ℕ, zero, suc, ◌+◌, ◌-◌, ◌%◌, ◌^◌, ◌≤◌, ◌<◌, ◌≡◌, ◌⊎◌, inl, inr, refl, sym, ◌∙◌, ap, Bool, true,
  false, Option, none, some, List, [], ◌∷◌, ◌++◌, ◌==◌, ==_iff, ltb, leb, ◌||◌, get_elem?, length,
  take, All, arith, if◌then◌else◌, Bool-cases, ltb→lt, ltb-false→le,
}
use chrono_trade.Common.Result.{Result, ok}
use chrono_trade.Common.Float.{Float}
use native.Mathlib.Nat.{mod-eq_of_lt, mod_self, zero-mod}
use chrono_trade.Core.Order.{Order}
use chrono_trade.Feed.CsvFeedSource.{is_ascii_printable}
use chrono_trade.Feed.SocketFeedSource.{Sink}
use chrono_trade.Feed.SharedMemoryFeedSource.{
  Packet, Reader, ShmError, is_ascii, parse, handle, packet_at, next_tail, consume, drain,
}

-- The slot behind slot i of a ring.
abbrev pub after_slot : ℕ → ℕ → ℕ
after_slot capacity i = if i + 1 == capacity then 0 else i + 1

-- How many slots lie from slot i on before slot j.
abbrev pub distance : ℕ → ℕ → ℕ → ℕ
distance capacity i j = if leb i j then j - i else j + capacity - i

-- The packets of n slots from slot i on.
abbrev pub slots : List Packet → ℕ → ℕ → List Packet
slots packets i zero = []
slots packets i (suc n) =
    let rest = slots packets (after_slot (length packets) i) n in
    elim (get_elem? packets i) [ none ↦ rest | some pkt ↦ pkt ∷ rest ]

-- A packet whose length lies inside its data.
abbrev pub IsSized : Packet → Type 0
IsSized pkt = pkt.len ≤ length pkt.data_bytes

-- A ring of `capacity` slots whose packets are sized.
pub record IsRing (capacity : ℕ) (packets : List Packet) : Type 0 where
  pub full : length packets ≡ capacity
  pub small : capacity ≤ 2 ^ 32
  pub sized : All (λ pkt. IsSized pkt) packets

is_ascii_lem :
    (cs : List ℕ) (n : ℕ) → n ≤ length cs → is_ascii cs n ≡ ok (is_ascii_printable (take n cs))
unfolding is_ascii
is_ascii_lem cs zero h = refl
is_ascii_lem [] (suc n) h = absurd (omega arith)
is_ascii_lem (c ∷ cs) (suc n) h = elim (Bool-cases (ltb c 32 || ltb 126 c)) [
  | inl e ↦ rw (e) refl
  | inr e ↦ rw (e) (is_ascii_lem cs n (omega arith))
]

next_tail_lem :
    (capacity i : ℕ)
    → capacity ≤ 2 ^ 32
    → i < capacity
    → next_tail capacity i ≡ after_slot capacity i
next_tail_lem capacity i small h = elim (Bool-cases (i + 1 == capacity)) [
  | inl e ↦
      let last : i + 1 ≡ capacity = (==_iff (i + 1) capacity).0 e in
      rw (e) (
        ap (λ x. x % 2 ^ 32)
          (wraps last (elim (Bool-cases (ltb capacity (2 ^ 32))) [
            | inl k ↦ inl (ground (arith, ltb→lt capacity (2 ^ 32) k))
            | inr k ↦ inr (ground (arith, ltb-false→le capacity (2 ^ 32) k))
          ])))
  | inr e ↦ rw (e) (
      ap (λ x. x % capacity % 2 ^ 32) {x = (i + 1) % 2 ^ 32} {y = i + 1} (ground arith)
      ∙ ap (λ x. x % 2 ^ 32) (mod-eq_of_lt {n = i + 1} {m = capacity} (ground arith))
      ∙ mod-eq_of_lt {n = i + 1} {m = 2 ^ 32} (ground arith))
]
  where
    wraps :
        i + 1 ≡ capacity
        → (capacity < 2 ^ 32) ⊎ (2 ^ 32 ≤ capacity)
        → (i + 1) % 2 ^ 32 % capacity ≡ 0
    wraps last (inl k) =
        ap (λ x. x % capacity) {x = (i + 1) % 2 ^ 32} {y = capacity} (omega arith)
        ∙ mod_self capacity
    wraps last (inr k) =
        ap (λ x. x % capacity) {x = (i + 1) % 2 ^ 32} {y = 0} (omega arith) ∙ zero-mod capacity

get_elem?-some :
    (pkts : List Packet) (i : ℕ)
    → All (λ pkt. IsSized pkt) pkts
    → i < length pkts
    → (pkt : Packet) × (get_elem? pkts i ≡ some pkt) × IsSized pkt
get_elem?-some [] i a h = absurd (omega arith)
get_elem?-some (pkt ∷ pkts) zero a h = (pkt, refl, a.0)
get_elem?-some (pkt ∷ pkts) (suc i) a h = get_elem?-some pkts i a.1 (omega arith)

pub slots_first :
    (packets : List Packet) (i n capacity : ℕ) (pkt : Packet)
    → length packets ≡ capacity
    → get_elem? packets i ≡ some pkt
    → slots packets i (suc n) ≡ pkt ∷ slots packets (after_slot capacity i) n
slots_first packets i n capacity pkt full e =
    ap
      (λ o. elim o [
        | none ↦ slots packets (after_slot (length packets) i) n
        | some p ↦ p ∷ slots packets (after_slot (length packets) i) n
      ])
      e
    ∙ ap (λ c. pkt ∷ slots packets (after_slot c i) n) full

packet_at_lem :
    (capacity : ℕ) (packets : List Packet) (i : ℕ) (pkt : Packet)
    → i < capacity
    → get_elem? packets i ≡ some pkt
    → packet_at capacity packets i ≡ ok pkt
packet_at_lem zero packets i pkt h e = absurd (omega arith)
packet_at_lem (suc n) packets i pkt h e = rw (packet_at, mod-eq_of_lt h, e) refl

module _ {W : Type 0} ⦃f : Float W⦄ (stod : List ℕ → Option (W × List ℕ)) where
  -- The order that a packet holds: of its text, if all of it is printable.
  abbrev pub order_in : Packet → Option (Order W)
  order_in pkt = if is_ascii_printable (take pkt.len pkt.data_bytes) then parse stod pkt else none

  abbrev pub receive : Sink W → Option (Order W) → Sink W
  receive s none = record s { anomalies = s.anomalies + 1 }
  receive s (some o) = record s {
    out_queue = s.out_queue ++ (o ∷ []);
    orders_received = s.orders_received + 1;
  }

  -- The packets received one after the other.
  abbrev pub receive_all : Sink W → List Packet → Sink W
  receive_all s [] = s
  receive_all s (pkt ∷ pkts) = receive_all (receive s (order_in pkt)) pkts

  receive-count :
      (s : Sink W) (o : Option (Order W))
      → (receive s o).orders_received + (receive s o).anomalies
        ≡ s.orders_received + s.anomalies + 1
  receive-count s none = omega arith
  receive-count s (some o) = omega arith

  receive_all-count :
      (s : Sink W) (pkts : List Packet)
      → (receive_all s pkts).orders_received + (receive_all s pkts).anomalies
        ≡ s.orders_received + s.anomalies + length pkts
  receive_all-count s [] = omega arith
  receive_all-count s (pkt ∷ pkts) =
      omega
        (arith, receive-count s (order_in pkt), receive_all-count (receive s (order_in pkt)) pkts)

  handle_lem :
      (s : Sink W) (pkt : Packet) → IsSized pkt → handle stod s pkt ≡ ok (receive s (order_in pkt))
  unfolding handle
  handle_lem s pkt h =
      rw (handle, is_ascii_lem pkt.data_bytes pkt.len h)
        (branches (is_ascii_printable (take pkt.len pkt.data_bytes)) (parse stod pkt))
    where
      branches :
          (b : Bool) (o : Option (Order W))
          → if◌then◌else◌ {A = Result ShmError (Sink W)} b
              (elim o [
                | none ↦ ok (record s { anomalies = s.anomalies + 1 })
                | some o ↦ ok (record s {
                  out_queue = s.out_queue ++ (o ∷ []);
                  orders_received = s.orders_received + 1;
                })
              ])
              (ok (record s { anomalies = s.anomalies + 1 }))
            ≡ ok (receive s (if b then o else none))
      branches true none = refl
      branches true (some o) = refl
      branches false o = refl

  pub consume_lem :
      (capacity : ℕ) (packets : List Packet) (r : Reader W)
      → IsRing capacity packets
      → r.local_tail < capacity
      → (pkt : Packet) × (get_elem? packets r.local_tail ≡ some pkt)
        × (consume stod capacity packets r
            ≡ ok (record {
              local_tail = after_slot capacity r.local_tail;
              shared_tail = after_slot capacity r.local_tail;
              sink = receive r.sink (order_in pkt);
            }))
  unfolding consume
  consume_lem capacity packets r v h =
      let (pkt, e, sized) = get_elem?-some packets r.local_tail v.sized (omega (arith, v.full)) in
      (
        pkt,
        e,
        rw
            (
              packet_at_lem capacity packets r.local_tail pkt h e,
              handle_lem r.sink pkt sized,
              next_tail_lem capacity r.local_tail v.small h,
            )
            refl,
      )

  abbrev at_slot : ℕ → Sink W → Reader W
  at_slot i s = record { local_tail = i; shared_tail = i; sink = s }

  drain_slots :
      (n fuel capacity : ℕ) (packets : List Packet) (i head : ℕ) (s : Sink W)
      → IsRing capacity packets
      → i < capacity
      → head < capacity
      → distance capacity i head ≡ n
      → n ≤ fuel
      → drain stod fuel capacity packets head (at_slot i s)
        ≡ ok (at_slot head (receive_all s (slots packets i n)))
  unfolding drain
  drain_slots zero zero capacity packets i head s v hi hh d k =
      ap (λ j. ok (at_slot j s)) {x = i} {y = head} (ground arith)
  drain_slots zero (suc fuel) capacity packets i head s v hi hh d k =
      let same : i ≡ head = ground arith in
      rw (drain, (==_iff i head).1 same) (ap (λ j. ok (at_slot j s)) same)
  drain_slots (suc n) zero capacity packets i head s v hi hh d k = absurd (omega arith)
  drain_slots (suc n) (suc fuel) capacity packets i head s v hi hh d k =
      let differs : (i == head) ≡ false = ground arith in
      let (pkt, e, step) = consume_lem capacity packets (at_slot i s) v hi in
      rw (drain, differs, step)
        (drain_slots n fuel capacity packets (after_slot capacity i) head (receive s (order_in pkt))
            v (ground arith) hh (ground arith) (omega arith)
          ∙ ap (λ pkts. ok (at_slot head (receive_all s pkts)))
              (sym (slots_first packets i n capacity pkt v.full e)))

  -- If head and tail lie in a ring of sized packets, the inner loop ends, after as many rounds as
  -- there are slots from the tail to the head: it receives the packets of those slots in their order,
  -- each once, as an order or as an anomaly, and leaves both tails at the head.
  pub drain-slots :
      (fuel capacity : ℕ) (packets : List Packet) (head : ℕ) (r : Reader W)
      → IsRing capacity packets
      → r.shared_tail ≡ r.local_tail
      → r.local_tail < capacity
      → head < capacity
      → distance capacity r.local_tail head ≤ fuel
      → let pkts = slots packets r.local_tail (distance capacity r.local_tail head) in
        (t : Reader W) × (drain stod fuel capacity packets head r ≡ ok t)
        × ((t.local_tail ≡ head) × (t.shared_tail ≡ head))
        × (t.sink ≡ receive_all r.sink pkts)
        × (t.sink.orders_received + t.sink.anomalies
            ≡ r.sink.orders_received + r.sink.anomalies + length pkts)
  drain-slots fuel capacity packets head r v same ht hh k =
      let n = distance capacity r.local_tail head in
      let pkts = slots packets r.local_tail n in
      (
        at_slot head (receive_all r.sink pkts),
        ap
              (λ i.
                drain stod fuel capacity packets head
                  (record { local_tail = r.local_tail; shared_tail = i; sink = r.sink }))
              same
            ∙ drain_slots n fuel capacity packets r.local_tail head r.sink v ht hh refl k,
        (refl, refl),
        refl,
        receive_all-count r.sink pkts,
      )

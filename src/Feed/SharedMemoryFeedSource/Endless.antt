-- ===== src/Feed/SharedMemoryFeedSource/Endless.antt =====
-- A head outside of the ring, which a writer with another capacity can leave there.
use chrono_trade.Common.{ℕ, zero, suc, ◌≤◌, ◌<◌, ◌≡◌, ◌≢◌, refl, false, Option, List, ◌==◌, arith}
use chrono_trade.Common.Result.{ok}
use chrono_trade.Common.Float.{Float}
use chrono_trade.Feed.SharedMemoryFeedSource.{Packet, Reader, drain}
use chrono_trade.Feed.SharedMemoryFeedSource.Drain.{
  IsRing, consume_lem, after_slot, receive, order_in,
}

module _ {W : Type 0} ⦃f : Float W⦄ (stod : List ℕ → Option (W × List ℕ)) where
  -- If the head lies past the ring and the tail in it, the inner loop does not end: after any number
  -- of rounds the tail is still in the ring and not at the head.
  pub drain_endless :
      (fuel capacity : ℕ) (packets : List Packet) (head : ℕ) (r : Reader W)
      → IsRing capacity packets
      → r.local_tail < capacity
      → capacity ≤ head
      → (t : Reader W) × (drain stod fuel capacity packets head r ≡ ok t)
        × (t.local_tail < capacity)
        × (t.local_tail ≢ head)
  unfolding drain
  drain_endless zero capacity packets head r v ht hh = (r, refl, ht, λ e. omega arith)
  drain_endless (suc fuel) capacity packets head r v ht hh =
      let differs : (r.local_tail == head) ≡ false = ground arith in
      let (pkt, e, step) = consume_lem stod capacity packets r v ht in
      let slot = after_slot capacity r.local_tail in
      let next : Reader W = record {
        local_tail = slot;
        shared_tail = slot;
        sink = receive stod r.sink (order_in stod pkt);
      } in
      let (t, goes, inside, away) =
        drain_endless fuel capacity packets head next v (ground arith) hh in
      (t, rw (drain, differs, step) goes, inside, away)

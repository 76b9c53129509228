-- ===== src/Feed/TcpLatencyProxy/Throttle/Allowance.antt =====
-- What a throttle lets out at once.
use native.Mathlib.Nat.{le-div_iff_mul-le}
use chrono_trade.Common.{
  ℕ, ◌*◌, ◌/◌, ◌≤◌, ◌<◌, ◌≢◌, min, max, arith, Bool, true, false, ltb, if◌then◌else◌,
}
use chrono_trade.Feed.TcpLatencyProxy.Throttle.{
  Bucket, make, min_quantum_bytes, max_gbps_kbps, refill, allowance,
}
use chrono_trade.Feed.TcpLatencyProxy.Throttle.Rate.{IsSane, Later, refill-Later}

-- A throttle that is on, with room for the least quantum.
pub record IsUsable (b : Bucket) : Type 0 where
  pub sane : IsSane b
  pub on : b.kbps ≢ 0
  pub running : 0 < b.num_bytes_per_s
  pub room : min_quantum_bytes ≤ b.max_tokens

quarter : (n : ℕ) → min_quantum_bytes ≤ n → 0 < n / 4
quarter n h = (le-div_iff_mul-le {k = 4} {x = 1} {y = n} (omega arith)).1 (omega arith)

-- A throttle made for a positive rate is usable.
make-IsUsable :
    (kbps : ℕ) (burst : Bool) (burst_seconds now : ℕ)
    → 0 < kbps
    → IsUsable (make kbps burst burst_seconds now)
unfolding make
make-IsUsable kbps burst burst_seconds now h = record {
  sane = record { fits = top burst; small = omega arith };
  on = λ e. omega arith;
  running = fast;
  room = room (max 1 (if burst then burst_seconds else 1));
}
  where
    fast : 0 < min kbps max_gbps_kbps * 1000 / 8
    fast =
        (le-div_iff_mul-le {k = 8} {x = 1} {y = min kbps max_gbps_kbps * 1000} (omega arith)).1
          (omega arith)

    room :
        (k : ℕ)
        → let rate = min kbps max_gbps_kbps * 1000 / 8 in
          min_quantum_bytes ≤ (if ltb 0 rate then max (rate * k) min_quantum_bytes else rate * k)
    room k = ground (arith, fast)

    top :
        (c : Bool)
        → (if c then (make kbps c burst_seconds now).max_tokens else 0)
          ≤ (make kbps c burst_seconds now).max_tokens
    top true = omega arith
    top false = omega arith

-- A usable throttle lets some of a message out, never more than it or than the bucket holds, and stays
-- usable: the caller's wait for a positive allowance never begins, and what it then sends can be paid.
pub allowance_bounds :
    (max_bytes now : ℕ) (b : Bucket)
    → IsUsable b
    → 0 < max_bytes
    → let (n, c) = allowance max_bytes now b in
      (0 < n) × (n ≤ max_bytes) × (n ≤ c.max_tokens) × IsUsable c
unfolding allowance
allowance_bounds max_bytes now b u h =
    let c : Bucket = refill b now in
    let l : Later b c now = refill-Later b now u.sane in
    let usable : IsUsable c = record {
      sane = l.sane;
      on = λ e. u.on (omega (arith, l.config));
      running = omega (arith, l.rate, u.running);
      room = omega (arith, l.top, u.room);
    } in
    ground (arith, usable, u.on, quarter c.max_tokens usable.room, l.sane.fits)

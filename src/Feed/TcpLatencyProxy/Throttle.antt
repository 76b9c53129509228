-- ===== src/Feed/TcpLatencyProxy/Throttle.antt =====
-- feed/TCPLatencyProxy.cpp, `PrecisionBandwidthThrottle`: a token bucket. Times are nanoseconds of the
-- steady clock, and a call gets the readings that it takes of it. The credit is for whole microseconds.
-- The rate and the tokens are never negative, so they are natural numbers: the proxy makes a throttle
-- for a positive rate only. The mutex makes each turn one step; the sleeps show in the readings.
-- Warnings are left out.
pub mod Exact
pub mod Rate
pub mod Limit
pub mod Allowance
use chrono_trade.Common.{
  ℕ, ◌+◌, ◌-◌, ◌*◌, ◌/◌, ◌%◌, ◌^◌, min, max, Bool, true, false, Option, none, some, List, [], ◌∷◌,
  leb, ltb, ◌==◌, ◌&&◌, if◌then◌else◌,
}

abbrev pub million : ℕ
million = 1_000_000

abbrev pub min_quantum_bytes : ℕ
min_quantum_bytes = 1024

abbrev max_gbps_kbps : ℕ
max_gbps_kbps = 1_000_000

pub record Bucket : Type 0 where
  pub kbps : ℕ
  pub last : ℕ
  pub tokens : ℕ
  pub frac_acc : ℕ
  pub max_tokens : ℕ
  pub num_bytes_per_s : ℕ

-- The constructor, at the time `now`.
unfoldable pub make : ℕ → Bool → ℕ → ℕ → Bucket
make kbps burst burst_seconds now =
    let rate = min kbps max_gbps_kbps * 1000 / 8 in
    let most = rate * max 1 (if burst then burst_seconds else 1) in
    let top = if ltb 0 rate then max most min_quantum_bytes else most in
    record {
      kbps = kbps;
      last = now;
      tokens = if burst then top else 0;
      frac_acc = 0;
      max_tokens = top;
      num_bytes_per_s = rate;
    }

-- The credit of `add_tokens`: whole bytes, and the new fraction, by way of the seconds and the rest.
unfoldable pub credit : ℕ → ℕ → ℕ → ℕ × ℕ
credit rate frac dt =
    let sec = dt / million in
    let usec = dt % million in
    if leb rate ((2 ^ 63 - 1) / million)
    then (sec * rate + (frac + rate * usec) / million, (frac + rate * usec) % million)
    else (
      sec * rate + rate / million * usec + (frac + rate % million * usec) / million,
      (frac + rate % million * usec) % million,
    )

unfoldable pub add_tokens : Bucket → ℕ → Bucket
unfolding credit
add_tokens b dt =
    let (bytes, frac) = credit b.num_bytes_per_s b.frac_acc dt in
    record b { tokens = min b.max_tokens (b.tokens + bytes); frac_acc = frac }

-- `duration_cast<microseconds>(now - last_)`; the clock does not go back.
abbrev pub elapsed_us : Bucket → ℕ → ℕ
elapsed_us b now = (now - b.last) / 1000

-- `if (dt_us > 0) { add_tokens(dt_us); last_ = now; }`
unfoldable pub refill : Bucket → ℕ → Bucket
unfolding add_tokens
refill b now =
    if ltb 0 (elapsed_us b now) then record (add_tokens b (elapsed_us b now)) { last = now } else b

-- The turns of `throttle`, one for each reading of the clock; `none` is still in the loop.
unfoldable pub spend : ℕ → List ℕ → Bucket → Option Bucket
unfolding refill
spend need [] b = none
spend need (now ∷ later) b = elim (leb need (refill b now).tokens) [
  | true ↦ some (record (refill b now) { tokens = (refill b now).tokens - need })
  | false ↦ spend need later (refill b now)
]

unfoldable pub throttle : ℕ → List ℕ → Bucket → Option Bucket
unfolding spend
throttle bytes readings b =
    if b.kbps == 0 then some b else if bytes == 0 then some b else spend bytes readings b

-- How many bytes may go out now.
unfoldable pub allowance : ℕ → ℕ → Bucket → ℕ × Bucket
unfolding refill
allowance max_bytes now b =
    if b.kbps == 0
    then (max_bytes, b)
    else (let c = refill b now in
        let avail =
          if c.tokens == 0 && ltb 0 c.num_bytes_per_s
          then min (min min_quantum_bytes (c.max_tokens / 4)) max_bytes
          else c.tokens in
        (min avail max_bytes, c))

-- `next_refill_delay_us` and `calculate_sleep_us`.
unfoldable pub next_refill_delay_us : Bucket → ℕ → ℕ
next_refill_delay_us b deficit =
    if b.num_bytes_per_s == 0
    then 2000
    else max 2000 (min 50_000 (deficit * million / b.num_bytes_per_s))

unfoldable pub calculate_sleep_us : Bucket → ℕ → ℕ
calculate_sleep_us b deficit = max 2000 (min 50_000 (deficit * million / max 1 b.num_bytes_per_s))

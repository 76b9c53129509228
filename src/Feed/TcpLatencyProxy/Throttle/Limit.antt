-- ===== src/Feed/TcpLatencyProxy/Throttle/Limit.antt =====
-- No run of calls gets more through than the bucket held and the rate earned.
use mathlib.Core.Path.{subst}
use chrono_trade.Common.{
  ℕ, ◌+◌, ◌-◌, ◌*◌, ◌≤◌, ◌≡◌, ◌≢◌, refl, ◌∙◌, ap, arith, leb, Option, none, some, List, [], ◌∷◌,
  inl, inr, Bool-cases, Option-cases, leb→le, ◌==◌,
}
use chrono_trade.Feed.TcpLatencyProxy.Throttle.{Bucket, million, refill, spend, throttle}
use chrono_trade.Feed.TcpLatencyProxy.Throttle.Rate.{IsSane, worth, Later, refill-Later}

-- What one call costs: it never takes out more than the bucket held and the rate earned since.
abbrev pub Paid : ℕ → Bucket → Bucket → Type 0
Paid bytes b c =
    IsSane c
    × (c.kbps ≡ b.kbps)
    × (c.num_bytes_per_s ≡ b.num_bytes_per_s)
    × (b.last ≤ c.last)
    × (1000 * (worth c + bytes * million) ≤ 1000 * worth b + b.num_bytes_per_s * (c.last - b.last))

-- The rate over two spans of time, one after the other.
two_spans : (rate x y z : ℕ) → x ≤ y → y ≤ z → rate * (z - x) ≡ rate * (y - x) + rate * (z - y)
two_spans rate x y z h k = ap (λ t. rate * t) split ∙ omega arith
  where
    split : z - x ≡ y - x + (z - y)
    split = omega arith

Paid-trans : (m n : ℕ) (b c d : Bucket) → Paid m b c → Paid n c d → Paid (m + n) b d
Paid-trans m n b c d (_, f, r, t, g) (s, f', r', t', g') = (
  s,
  omega arith,
  omega arith,
  omega arith,
  omega (arith, two_spans b.num_bytes_per_s b.last c.last d.last t t', same),
)
  where
    same : c.num_bytes_per_s * (d.last - c.last) ≡ b.num_bytes_per_s * (d.last - c.last)
    same = ap (λ k. k * (d.last - c.last)) r

-- A turn that only waits adds nothing to the cost.
wait_Paid : (n : ℕ) (b c d : Bucket) → Paid 0 b c → Paid n c d → Paid n b d
wait_Paid n b c d w p = subst (λ k. Paid k b d) sum (Paid-trans 0 n b c d w p)
  where
    sum : 0 + n ≡ n
    sum = omega arith

spend-Paid :
    (need : ℕ) (readings : List ℕ) (b c : Bucket)
    → IsSane b
    → spend need readings b ≡ some c
    → Paid need b c
unfolding spend
spend-Paid need [] b c h e = absurd (ground arith)
spend-Paid need (now ∷ later) b c h e =
    let d : Bucket = refill b now in
    let l : Later b d now = refill-Later b now h in
    let waited : Paid 0 b d =
      (l.sane, l.config, l.rate, omega (arith, l.clock), omega (arith, l.gain)) in
    elim (Bool-cases (leb need d.tokens)) [
      | inl k ↦
          let taken : Paid need d (record d { tokens = d.tokens - need }) = (
            record { fits = omega (arith, l.sane.fits); small = l.sane.small },
            refl,
            refl,
            omega arith,
            omega (arith, leb→le need d.tokens k),
          ) in
          subst (Paid need b) (ground arith)
            (wait_Paid need b d (record d { tokens = d.tokens - need }) waited taken)
      | inr k ↦ wait_Paid need b d c waited (spend-Paid need later d c l.sane (ground arith))
    ]

throttle-Paid :
    (bytes : ℕ) (readings : List ℕ) (b c : Bucket)
    → IsSane b
    → b.kbps ≢ 0
    → throttle bytes readings b ≡ some c
    → Paid bytes b c
unfolding throttle
throttle-Paid bytes readings b c h on e = elim (Bool-cases (bytes == 0)) [
  | inl k ↦ ground (arith, idle)
  | inr k ↦ spend-Paid bytes readings b c h (ground arith)
]
  where
    idle : b.num_bytes_per_s * (b.last - b.last) ≡ 0
    idle = rw self (omega arith)
      where
        self : b.last - b.last ≡ 0
        self = omega arith

-- The calls that one direction makes, each with the readings that it takes of the clock.
unfoldable pub throttle_all : List (ℕ × List ℕ) → Bucket → Option Bucket
throttle_all [] b = some b
throttle_all ((bytes, readings) ∷ calls) b = elim (throttle bytes readings b) [
  | none ↦ none
  | some c ↦ throttle_all calls c
]

abbrev pub total : List (ℕ × List ℕ) → ℕ
total [] = 0
total ((bytes, readings) ∷ calls) = bytes + total calls

-- All calls together take at most what the bucket held to begin with and what the rate has earned
-- since, to the thousandth of a millionth of a byte, whatever the clock reads between them.
pub throttle_all-Paid :
    (calls : List (ℕ × List ℕ)) (b c : Bucket)
    → IsSane b
    → b.kbps ≢ 0
    → throttle_all calls b ≡ some c
    → Paid (total calls) b c
unfolding throttle_all
throttle_all-Paid [] b c h on e =
    subst (Paid 0 b) (ground arith) (h, refl, refl, omega arith, omega arith)
throttle_all-Paid ((bytes, readings) ∷ calls) b c h on e =
    elim (Option-cases (throttle bytes readings b)) [
      | inl k ↦ absurd (ground arith)
      | inr (d, k) ↦
          let p : Paid bytes b d = throttle-Paid bytes readings b d h on k in
          Paid-trans bytes (total calls) b d c p
            (throttle_all-Paid calls d c p.0 (ground arith) (ground arith))
    ]

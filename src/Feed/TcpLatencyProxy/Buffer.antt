-- ===== src/Feed/TcpLatencyProxy/Buffer.antt =====
-- feed/TCPLatencyProxy.cpp, the size of the buffer: `round_to_power_of_two` and its use in
-- `parse_args`. The loop doubles at most 21 times, since it stops past 2^20.
use chrono_trade.Common.{
  ℕ, zero, suc, ◌+◌, ◌*◌, ◌/◌, ◌^◌, ◌≤◌, ◌<◌, ◌≡◌, refl, sym, ◌∙◌, ap, min, max, true, false, leb,
  ◌==◌, ◌&&◌, if◌then◌else◌, arith, Bool-cases, inl, inr, if_elim,
}
use native.Mathlib.Nat.{pow-suc, pow-le-pow_right}
use native.Mathlib.Decide.{dec_lt}

-- The `while` loop, with `fuel` rounds at most.
unfoldable round_loop : ℕ → ℕ → ℕ → ℕ
round_loop zero n result = result / 2
round_loop (suc fuel) n result = elim (leb result n && leb result (2 ^ 20)) [
  | true ↦ elim (result == n) [ true ↦ result | false ↦ round_loop fuel n (result * 2) ]
  | false ↦ result / 2
]

unfoldable pub round_to_power_of_two : ℕ → ℕ
unfolding round_loop
round_to_power_of_two n = if n == 0 then 1024 else round_loop 22 n 1

-- The clamp to 1 KB and 1 MB, and the rounding.
unfoldable pub buffer_size : ℕ → ℕ
unfolding round_to_power_of_two
buffer_size n = round_to_power_of_two (max 1024 (min (2 ^ 20) n))

-- The greatest power of two that is not above n.
abbrev pub IsLargest : ℕ → ℕ → Type 0
IsLargest n r = (k : ℕ) × (r ≡ 2 ^ k) × (r ≤ n) × (n < 2 * r)

-- The half of a power of two that is above `n`, but not above twice `n`.
halved : (n k r : ℕ) → r ≡ 2 ^ k → 0 < n → n < r → r ≤ 2 * n → IsLargest n (r / 2)
halved n zero r e h over low = absurd (omega arith)
halved n (suc k) r e h over low =
    (k, omega (arith, e, pow-suc 2 k), omega arith, omega (arith, e, pow-suc 2 k))

loop_lem :
    (fuel n k r : ℕ)
    → n ≤ 2 ^ 20
    → r ≡ 2 ^ k
    → fuel + k ≡ 22
    → 0 < n
    → r ≤ 2 * n
    → IsLargest n (round_loop fuel n r)
unfolding round_loop
loop_lem zero n k r small e f some_bytes low =
    let last : r ≡ 2 ^ 22 = e ∙ ap (λ j. 2 ^ j) {x = k} {y = 22} (omega arith) in
    absurd (omega arith)
loop_lem (suc fuel) n k r small e f some_bytes low = elim (Bool-cases (leb r n && leb r (2 ^ 20))) [
  | inr over ↦ rw (round_loop, over) (halved n k r e some_bytes (ground arith) low)
  | inl go_on ↦
      rw (round_loop, go_on)
        (elim (Bool-cases (r == n)) [
          | inl same ↦ rw same (k, e, ground arith, ground arith)
          | inr other ↦ rw other (
              loop_lem fuel n (suc k) (r * 2) small (ap (λ x. x * 2) e ∙ sym (pow-suc 2 k))
                (omega arith) some_bytes (ground arith))
        ])
]

at_least : (k r : ℕ) → r ≡ 2 ^ k → 1024 < 2 * r → 1024 ≤ r
at_least k r e h = elim (dec_lt k 10) [
  | yes few ↦
      let small : 2 ^ k ≤ 2 ^ 9 =
        pow-le-pow_right {n = 2} (omega arith) {i = k} {j = 9} (omega arith) in
      absurd (omega (arith, e))
  | no many ↦
      let large : 2 ^ 10 ≤ 2 ^ k =
        pow-le-pow_right {n = 2} (omega arith) {i = 10} {j = k} (omega arith) in
      omega (arith, e)
]

-- Whatever size is asked for, the buffer's size is a power of two of 1 KB to 1 MB: the greatest that
-- is not above the size clamped to that range.
pub buffer_size-IsLargest :
    (n : ℕ)
    → IsLargest (max 1024 (min (2 ^ 20) n)) (buffer_size n)
      × (1024 ≤ buffer_size n)
      × (buffer_size n ≤ 2 ^ 20)
unfolding buffer_size round_to_power_of_two
buffer_size-IsLargest n =
    let m : ℕ = max 1024 (min (2 ^ 20) n) in
    let (k, e, below, above) =
      loop_lem 22 m 0 1 (omega arith) refl refl (omega arith) (omega arith) in
    let r : ℕ = round_loop 22 m 1 in
    let same : buffer_size n ≡ r =
      if_elim (λ x. x ≡ r) (m == 0) (λ z. absurd (ground arith)) (λ _. refl) in
    rw same ((k, e, below, above), at_least k r e (omega arith), omega arith)

-- ===== src/Feed/TcpLatencyProxy/Throttle/Rate.antt =====
-- The bucket keeps the rate, and a call of `throttle` returns.
use mathlib.Core.Path.{subst, ap₂}
use native.Mathlib.Nat.{div-add-mod', mod-lt, mul-le-mul_left}
use chrono_trade.Common.{
  ℕ, zero, suc, ap, ◌+◌, ◌-◌, ◌*◌, ◌/◌, ◌≤◌, ◌<◌, ◌≡◌, refl, sym, arith, leb, ltb, false, some,
  List, [], ◌∷◌, ◌⊎◌, inl, inr, Bool-cases, if_elim, ltb→lt, ltb-false→le, leb→le, ◌==◌,
}
use chrono_trade.Feed.TcpLatencyProxy.Throttle.{
  Bucket, million, add_tokens, elapsed_us, refill, spend, throttle,
}
use chrono_trade.Feed.TcpLatencyProxy.Throttle.Exact.{owed, credited, add_tokens_lem}

-- No more tokens than fit, and less than a byte as the fraction.
pub record IsSane (b : Bucket) : Type 0 where
  pub fits : b.tokens ≤ b.max_tokens
  pub small : b.frac_acc < million

-- The tokens and the fraction, in millionths of a byte.
abbrev pub worth : Bucket → ℕ
worth b = b.tokens * million + b.frac_acc

-- What time does to a bucket. Unless a microsecond has passed, nothing changes. Otherwise the clock goes
-- on, and the bucket is full, or has gained rate times time but for less than the rate earns in a
-- microsecond. A thousandth of its worth is what a rate of 1 earns in a nanosecond.
pub record Later (b c : Bucket) (now : ℕ) : Type 0 where
  pub sane : IsSane c
  pub config : c.kbps ≡ b.kbps
  pub rate : c.num_bytes_per_s ≡ b.num_bytes_per_s
  pub top : c.max_tokens ≡ b.max_tokens
  pub clock : b.last ≤ c.last
  pub gain : 1000 * worth c ≤ 1000 * worth b + b.num_bytes_per_s * (c.last - b.last)
  pub moves :
      ((now < b.last + 1000)
        × (c.last ≡ b.last)
        × (c.tokens ≡ b.tokens)
        × (c.frac_acc ≡ b.frac_acc))
      ⊎ ((c.last ≡ now)
          × (b.last ≤ now)
          × ((c.tokens ≡ c.max_tokens)
              ⊎ (1000 * worth b + b.num_bytes_per_s * (now - b.last)
                  ≤ 1000 * worth c + b.num_bytes_per_s * 1000)))

credited_full :
    (b : Bucket) (n : ℕ)
    → ((credited b n).tokens ≡ b.max_tokens) ⊎ (worth (credited b n) ≡ b.tokens * million + n)
credited_full b n = elim (Bool-cases (leb b.max_tokens (b.tokens + n / million))) [
  | inl e ↦ inl (omega (arith, leb→le b.max_tokens (b.tokens + n / million) e))
  | inr e ↦ inr (omega (arith, div-add-mod' n million, fits e))
]
  where
    fits : leb b.max_tokens (b.tokens + n / million) ≡ false → b.tokens + n / million < b.max_tokens
    fits e = ground arith

credited_gain : (b : Bucket) (n : ℕ) → worth (credited b n) ≤ b.tokens * million + n
credited_gain b n = omega (arith, div-add-mod' n million)

-- What a rate earns in the whole microseconds of a time, and in the time.
whole_us :
    (rate x : ℕ)
    → (1000 * (rate * (x / 1000)) ≤ rate * x)
      × (rate * x ≤ 1000 * (rate * (x / 1000)) + rate * 1000)
whole_us rate x = (
  omega (
    arith,
    mul-le-mul_left {m = x / 1000 * 1000} {n = x} rate (omega (arith, div-add-mod' x 1000)),
  ),
  omega (
    arith,
    mul-le-mul_left {m = x} {n = x / 1000 * 1000 + 1000} rate
        (omega (arith, div-add-mod' x 1000, mod-lt x {m = 1000} (omega arith))),
  ),
)

us_pos : (x : ℕ) → 0 < x / 1000 → 1000 ≤ x
us_pos x h = omega (arith, div-add-mod' x 1000)

us_zero : (x : ℕ) → x / 1000 ≤ 0 → x < 1000
us_zero x h = omega (arith, div-add-mod' x 1000, mod-lt x {m = 1000} (omega arith))

pub refill-Later : (b : Bucket) (now : ℕ) → IsSane b → Later b (refill b now) now
unfolding refill
refill-Later b now h =
    if_elim (λ c. Later b c now) (ltb 0 (elapsed_us b now))
      (λ e. moved (ltb→lt 0 (elapsed_us b now) e))
      (λ e. record {
        sane = h;
        config = refl;
        rate = refl;
        top = refl;
        clock = omega arith;
        gain = omega arith;
        moves = inl (
          omega (arith, us_zero (now - b.last) (ltb-false→le 0 (elapsed_us b now) e)),
          refl,
          refl,
          refl,
        );
      })
  where
    moved :
        0 < elapsed_us b now → Later b (record (add_tokens b (elapsed_us b now)) { last = now }) now
    moved some_us =
        let us : ℕ = elapsed_us b now in
        let n : ℕ = owed b.num_bytes_per_s b.frac_acc us in
        let whole = whole_us b.num_bytes_per_s (now - b.last) in
        let after : b.last ≤ now = omega (arith, us_pos (now - b.last) some_us) in
        subst (λ c. Later b (record c { last = now }) now) (sym (add_tokens_lem b us))
          (record {
            sane = record { fits = omega arith; small = mod-lt n (omega arith) };
            config = refl;
            rate = refl;
            top = refl;
            clock = after;
            gain = omega (arith, credited_gain b n, whole.0);
            moves = inr (
              refl,
              after,
              elim (credited_full b n) [ inl e ↦ inl e | inr e ↦ inr (omega (arith, e, whole.1)) ],
            );
          })

-- The clock reads `stop` or later within so many turns.
abbrev pub Reaches : ℕ → ℕ → List ℕ → Type 0
Reaches stop zero readings = ⊥
Reaches stop (suc turns) [] = ⊥
Reaches stop (suc turns) (now ∷ later) = (stop ≤ now) ⊎ Reaches stop turns later

-- By `stop` the rate has earned the bytes that are missing, and what it earns in a microsecond for
-- each turn.
abbrev pub Earns : ℕ → ℕ → ℕ → Bucket → Type 0
Earns need stop turns b =
    1000 * (need * million) + b.num_bytes_per_s * (1000 * turns)
    ≤ 1000 * worth b + b.num_bytes_per_s * (stop - b.last)

module _ (b c : Bucket) (need stop turns now : ℕ) (sane : IsSane b) (l : Later b c now)
    (room : need ≤ b.max_tokens) (enough : Earns need stop (suc turns) b) where
  -- A turn at that time or later has them.
  earned : stop ≤ now → need ≤ c.tokens
  earned late = elim l.moves [
    | inl (soon, _, same, _) ↦ omega (
      arith,
      sane.small,
      mul-le-mul_left {m = stop - b.last} {n = 1000} b.num_bytes_per_s (omega arith),
    )
    | inr (at, after, inl e) ↦ omega (arith, l.top)
    | inr (at, after, inr e) ↦ omega (
      arith,
      l.sane.small,
      mul-le-mul_left {m = stop - b.last} {n = now - b.last} b.num_bytes_per_s (omega arith),
    )
  ]

  -- An earlier turn leaves them to be earned in the turns that are left.
  still_enough : c.tokens < need → now < stop → Earns need stop turns c
  still_enough short early = elim l.moves [
    | inl (soon, at, same, frac) ↦ omega (arith, l.rate, kept at)
    | inr (at, after, inl e) ↦ absurd (omega (arith, l.top))
    | inr (at, after, inr e) ↦ omega (arith, l.rate, parts at after)
  ]
    where
      kept :
          c.last ≡ b.last
          → (c.num_bytes_per_s * (stop - c.last) ≡ b.num_bytes_per_s * (stop - b.last))
            × (c.num_bytes_per_s * (1000 * turns) ≡ b.num_bytes_per_s * (1000 * turns))
      kept at = (ap₂ (λ r t. r * (stop - t)) l.rate at, ap (λ r. r * (1000 * turns)) l.rate)

      parts :
          c.last ≡ now
          → b.last ≤ now
          → (c.num_bytes_per_s * (1000 * turns) ≡ b.num_bytes_per_s * (1000 * turns))
            × (b.num_bytes_per_s * (stop - b.last)
                ≤ b.num_bytes_per_s * (now - b.last) + c.num_bytes_per_s * (stop - c.last))
      parts at after = (
        ap (λ r. r * (1000 * turns)) l.rate,
        rw (l.rate, at)
            (omega (
              arith,
              mul-le-mul_left {m = stop - b.last} {n = now - b.last + (stop - now)}
                  b.num_bytes_per_s (omega arith),
            )),
      )

spend_lem :
    (need stop turns : ℕ) (readings : List ℕ) (b : Bucket)
    → IsSane b
    → need ≤ b.max_tokens
    → Earns need stop turns b
    → Reaches stop turns readings
    → (c : Bucket) × (spend need readings b ≡ some c) × IsSane c
unfolding spend
spend_lem need stop zero readings b h room enough reach = absurd reach
spend_lem need stop (suc turns) [] b h room enough reach = absurd reach
spend_lem need stop (suc turns) (now ∷ later) b h room enough reach =
    let c : Bucket = refill b now in
    let l : Later b c now = refill-Later b now h in
    elim (Bool-cases (leb need c.tokens)) [
      | inl e ↦ (
        record c { tokens = c.tokens - need },
        rw (spend, e) refl,
        record { fits = omega (arith, l.sane.fits); small = l.sane.small },
      )
      | inr e ↦ elim (Bool-cases (ltb now stop)) [
        | inr past ↦ absurd (
            ground
              (arith, earned b c need stop turns now h l room enough (ltb-false→le now stop past)))
        | inl early ↦ elim reach [
          | inl late ↦ absurd (omega (arith, ltb→lt now stop early))
          | inr more ↦
              let (d, same, sane) =
                spend_lem need stop turns later c l.sane (omega (arith, l.top))
                  (still_enough b c need stop turns now h l room enough (ground arith)
                    (ltb→lt now stop early))
                  more in
              (d, rw (spend, e) same, sane)
        ]
      ]
    ]

-- `throttle` leaves its loop and keeps the bucket sane, if the bytes fit into the bucket and, within
-- some number of turns, the clock reads a time by which the rate has earned what is missing and what it
-- earns in a microsecond for each of these turns: less than that is lost at a turn, since the credit is
-- for whole microseconds.
pub throttle_returns :
    (bytes stop turns : ℕ) (readings : List ℕ) (b : Bucket)
    → IsSane b
    → bytes ≤ b.max_tokens
    → Earns bytes stop turns b
    → Reaches stop turns readings
    → (c : Bucket) × (throttle bytes readings b ≡ some c) × IsSane c
unfolding throttle
throttle_returns bytes stop turns readings b h room enough reach =
    if_elim (λ r. (c : Bucket) × (r ≡ some c) × IsSane c) (b.kbps == 0) (λ _. (b, refl, h))
      (λ _.
        if_elim (λ r. (c : Bucket) × (r ≡ some c) × IsSane c) (bytes == 0) (λ _. (b, refl, h))
          (λ _. spend_lem bytes stop turns readings b h room enough reach))

-- ===== src/Feed/TcpLatencyProxy/Throttle/Exact.antt =====
-- The credit of the bucket is exact, however the time is cut into turns.
use native.Mathlib.Nat.{div-add-mod', mod-add-mod, add-mul-div_right, add-mul-mod_self_right}
use chrono_trade.Common.{
  ℕ, ◌+◌, ◌-◌, ◌*◌, ◌/◌, ◌%◌, ◌^◌, ◌≡◌, sym, min, arith, leb, if_elim, ap, ◌∙◌,
}
use chrono_trade.Feed.TcpLatencyProxy.Throttle.{Bucket, million, credit, add_tokens}

-- The whole credit at once.
abbrev pub owed : ℕ → ℕ → ℕ → ℕ
owed rate frac dt = frac + rate * dt

-- Whole bytes, and the fraction left over.
abbrev pub in_bytes : ℕ → ℕ × ℕ
in_bytes n = (n / million, n % million)

-- What a credit is worth, when the whole bytes are put apart.
carried : (x y : ℕ) → ◌≡◌ {A = ℕ × ℕ} (y + x / million, x % million) (in_bytes (x + y * million))
carried x y =
    rw
      (
        in_bytes,
        add-mul-div_right x y {z = million} (omega arith),
        add-mul-mod_self_right x y million,
      )
      (ap (λ k. (k, x % million)) (omega arith))

whole_seconds :
    (frac rate dt : ℕ)
    → frac + rate * (dt % million) + dt / million * rate * million ≡ owed rate frac dt
whole_seconds frac rate dt = omega arith ∙ ap (λ t. frac + rate * t) (div-add-mod' dt million)

whole_rate :
    (frac rate dt : ℕ)
    → frac
        + rate % million * (dt % million)
        + (dt / million * rate + rate / million * (dt % million)) * million
      ≡ owed rate frac dt
whole_rate frac rate dt =
    omega arith
    ∙ ap (λ r. frac + r * (dt % million) + dt / million * rate * million)
        (div-add-mod' rate million)
    ∙ whole_seconds frac rate dt

-- Split or not, the credit is the whole of rate times time, with the fraction carried on.
credit_lem : (rate frac dt : ℕ) → credit rate frac dt ≡ in_bytes (owed rate frac dt)
unfolding credit
credit_lem rate frac dt =
    if_elim (λ c. c ≡ in_bytes (owed rate frac dt)) (leb rate ((2 ^ 63 - 1) / million))
      (λ _.
        carried (frac + rate * (dt % million)) (dt / million * rate)
        ∙ ap in_bytes (whole_seconds frac rate dt))
      (λ _.
        carried (frac + rate % million * (dt % million))
          (dt / million * rate + rate / million * (dt % million))
        ∙ ap in_bytes (whole_rate frac rate dt))

-- The bucket with that credit, full at the most.
abbrev pub credited : Bucket → ℕ → Bucket
credited b n = record b {
  tokens = min b.max_tokens (b.tokens + n / million);
  frac_acc = n % million;
}

pub add_tokens_lem :
    (b : Bucket) (dt : ℕ) → add_tokens b dt ≡ credited b (owed b.num_bytes_per_s b.frac_acc dt)
unfolding add_tokens
add_tokens_lem b dt =
    ap (λ c. record b { tokens = min b.max_tokens (b.tokens + c.0); frac_acc = c.1 })
      (credit_lem b.num_bytes_per_s b.frac_acc dt)

-- Credit on a fraction, with the whole bytes given before, is credit on it all.
bytes_of_two : (n m : ℕ) → n / million + (n % million + m) / million ≡ (n + m) / million
bytes_of_two n m =
    omega arith
    ∙ sym (add-mul-div_right (n % million + m) (n / million) {z = million} (omega arith))
    ∙ ap (λ k. k / million) (omega arith ∙ ap (λ k. k + m) (div-add-mod' n million))

credited_twice :
    (b : Bucket) (n m : ℕ) → credited (credited b n) (n % million + m) ≡ credited b (n + m)
credited_twice b n m =
    ap (λ t. record b { tokens = t; frac_acc = (n % million + m) % million })
      (omega (arith, bytes_of_two n m))
    ∙ ap (λ r. record b { tokens = min b.max_tokens (b.tokens + (n + m) / million); frac_acc = r })
        (mod-add-mod n million m)

-- To credit two spans of time one after the other is to credit their sum, to the byte and to the
-- fraction of a byte: neither the number of turns nor the cap loses or makes a token.
add_tokens-add : (b : Bucket) (d e : ℕ) → add_tokens (add_tokens b d) e ≡ add_tokens b (d + e)
add_tokens-add b d e =
    let r : ℕ = b.num_bytes_per_s in
    let n : ℕ = owed r b.frac_acc d in
    ap (λ c. add_tokens c e) (add_tokens_lem b d)
    ∙ add_tokens_lem (credited b n) e
    ∙ credited_twice b n (r * e)
    ∙ ap (credited b) (omega arith)
    ∙ sym (add_tokens_lem b (d + e))

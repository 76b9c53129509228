-- ===== src/Engine/MacdIndicator/Averages.antt =====
-- What a run of closes makes of the averages, and what the signal is before they have settled.
use chrono_trade.Common.{
  ℕ, ◌+◌, ◌%◌, ◌^◌, ◌≤◌, ◌<◌, ◌≡◌, ◌≢◌, inl, inr, refl, sym, ap, true, false, none, some, List, [],
  ◌∷◌, ◌==◌, ltb, leb, ◌||◌, length, All, arith, Bool-cases, if_elim,
}
use chrono_trade.Common.Result.{ok, made}
use chrono_trade.Common.Float.{Float}
use chrono_trade.Engine.SmaIndicator.{hold}
use chrono_trade.Engine.MacdIndicator.{
  Macd, zero_period, make, compute_ema, warm_up, seed, follow, update, signal, update_all,
}

module _ {W : Type 0} ⦃f : Float W⦄ where
  -- The average goes towards a value by 2 / (period + 1) of the distance.
  abbrev pub towards : ℕ → W → W → W
  towards period e x =
      f.add (f.mul (f.sub x e) (f.div (f.lit 2 0) (f.add (f.lit period 0) (f.lit 1 0)))) e

  -- The exponential average of the values from `e` on.
  abbrev pub ema : ℕ → W → List W → W
  ema period e [] = e
  ema period e (x ∷ xs) = ema period (towards period e x) xs

  -- The differences of the two averages at each value.
  abbrev pub lines : ℕ → ℕ → W → W → List W → List W
  lines fast slow e g [] = []
  lines fast slow e g (x ∷ xs) =
      let e' = towards fast e x in
      let g' = towards slow g x in f.sub e' g' ∷ lines fast slow e' g' xs

  -- The line is the difference of the averages, and the histogram its distance from its own average.
  pub record IsDifference (t : Macd W) : Type 0 where
    pub line : t.macd_line ≡ f.sub t.fast_ema t.slow_ema
    pub signal : t.signal_line ≡ t.signal_ema
    pub distance : t.histogram ≡ f.sub t.macd_line t.signal_line

  -- An indicator whose averages are those of the values from `e`, `g` and `s` on.
  pub record Follows (m : Macd W) (e g s : W) (xs : List W) (t : Macd W) : Type 0 where
    pub fast : t.fast_ema ≡ ema m.fast_period e xs
    pub slow : t.slow_ema ≡ ema m.slow_period g xs
    pub averaged : t.signal_ema ≡ ema m.signal_period s (lines m.fast_period m.slow_period e g xs)
    pub shown : (xs ≢ []) → IsDifference t

  update_all-IsDifference :
      (m : Macd W) (xs : List W)
      → f.lt m.last_close (f.lit 0 0) ≡ false
      → All (λ x. f.lt x (f.lit 0 0) ≡ false) xs
      → IsDifference m
      → IsDifference (update_all m xs)
  unfolding update_all update
  update_all-IsDifference m [] h a d = d
  update_all-IsDifference m (x ∷ xs) h a d =
      rw (update_all, update, h)
        (update_all-IsDifference (follow m x) xs a.0 a.1
          (record { line = refl; signal = refl; distance = refl }))

  later-Follows :
      (m : Macd W) (xs : List W)
      → f.lt m.last_close (f.lit 0 0) ≡ false
      → All (λ x. f.lt x (f.lit 0 0) ≡ false) xs
      → Follows m m.fast_ema m.slow_ema m.signal_ema xs (update_all m xs)
  unfolding update_all update compute_ema
  later-Follows m [] h a = record {
    fast = refl;
    slow = refl;
    averaged = refl;
    shown = λ none. absurd (none refl);
  }
  later-Follows m (x ∷ xs) h a =
      rw (update_all, update, h)
        (let rest = later-Follows (follow m x) xs a.0 a.1 in
          record {
            fast = rest.fast;
            slow = rest.slow;
            averaged = rest.averaged;
            shown = λ some.
                update_all-IsDifference (follow m x) xs a.0 a.1
                  (record { line = refl; signal = refl; distance = refl });
          })

  -- After closes that are not negative, the fast and the slow average of a new indicator are the
  -- exponential averages of the closes, each going towards a close by 2 / (period + 1) of the distance,
  -- and the signal's average is that of their differences, but begun at the first close instead of at a
  -- difference. From the second close on, the line is the difference of the averages, and the histogram
  -- the line less the signal's average.
  pub update_all-Follows :
      (m : Macd W) (x : W) (xs : List W)
      → f.lt m.last_close (f.lit 0 0) ≡ true
      → All (λ y. f.lt y (f.lit 0 0) ≡ false) (x ∷ xs)
      → Follows m x x x xs (update_all m (x ∷ xs))
  unfolding update_all update
  update_all-Follows m x xs h a =
      rw (update_all, update, h)
        (let rest = later-Follows (seed m x) xs a.0 a.1 in
          record {
            fast = rest.fast;
            slow = rest.slow;
            averaged = rest.averaged;
            shown = rest.shown;
          })

  -- An indicator that has not settled: it took `n` closes and has seen no crossover.
  pub record IsWarming (m : Macd W) (n : ℕ) : Type 0 where
    pub counted : m.steps ≡ n
    pub uncrossed : m.last_crossover ≡ none

  update-IsWarming :
      (m : Macd W) (x : W) (n : ℕ)
      → IsWarming m n
      → n < warm_up m
      → IsWarming (update m x) (n + 1) × (warm_up (update m x) ≡ warm_up m)
  unfolding update
  update-IsWarming m x n w h = elim (Bool-cases (f.lt m.last_close (f.lit 0 0))) [
    | inl e ↦ rw (update, e) (record { counted = next; uncrossed = w.uncrossed }, refl)
    | inr e ↦ rw (update, e) (record { counted = next; uncrossed = kept }, refl)
  ]
    where
      next : (m.steps + 1) % 2 ^ 64 ≡ n + 1
      next = omega (arith, w.counted)

      early : leb (warm_up m) m.steps ≡ false
      early = ground (arith, w.counted)

      kept : (follow m x).last_crossover ≡ none
      kept = rw (early) (w.uncrossed)

  update_all-IsWarming :
      (m : Macd W) (xs : List W) (n : ℕ)
      → IsWarming m n
      → n + length xs ≤ warm_up m
      → IsWarming (update_all m xs) (n + length xs)
  unfolding update_all
  update_all-IsWarming m [] n w h = record {
    counted = omega (arith, w.counted);
    uncrossed = w.uncrossed;
  }
  update_all-IsWarming m (x ∷ xs) n w h =
      let (next, same) = update-IsWarming m x n w (omega arith) in
      let rest = update_all-IsWarming (update m x) xs (n + 1) next (omega (arith, same)) in
      record { counted = omega (arith, rest.counted); uncrossed = rest.uncrossed }

  -- A new indicator says hold after any run of at most slow + signal closes, modulo 2^64.
  signal-update_all :
      (fast slow sig : ℕ) (m : Macd W) (xs : List W)
      → make fast slow sig ≡ ok m
      → length xs ≤ (slow + sig) % 2 ^ 64
      → signal (update_all m xs) ≡ hold
  unfolding signal make
  signal-update_all fast slow sig m xs e h =
      let fresh = made ((fast == 0 || slow == 0) || sig == 0) zero_period e in
      let steps : m.steps ≡ 0 = sym (ap (λ a. a.steps) fresh) in
      let warm : warm_up m ≡ (slow + sig) % 2 ^ 64 = sym (ap (λ a. warm_up a) fresh) in
      let start : IsWarming m 0 = record {
        counted = steps;
        uncrossed = sym (ap (λ a. a.last_crossover) fresh);
      } in
      let settled = update_all-IsWarming m xs 0 start (omega (arith, warm)) in
      if_elim (λ s. s ≡ hold) (ltb (update_all m xs).steps (warm_up (update_all m xs))) (λ _. refl)
        (λ _. ap (λ o. elim o [ none ↦ hold | some s ↦ s ]) settled.uncrossed)

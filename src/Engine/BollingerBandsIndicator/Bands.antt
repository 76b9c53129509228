-- ===== src/Engine/BollingerBandsIndicator/Bands.antt =====
-- What an update of the bands makes of the window, and of the bands.
use mathlib.Core.Path.{subst}
use chrono_trade.Engine.SmaIndicator.{Signal, hold, buy, sell}
use chrono_trade.Common.{
  ◌<◌, ◌≤◌, Option, lt→ltb, le→ltb-false, ℕ, zero, suc, ◌+◌, ◌≡◌, ◌⊎◌, inl, inr, refl, sym, ◌∙◌, ap,
  true, false, none, some, length, drop, map, arith, ◌==◌, ltb, if◌then◌else◌, Bool-cases,
}
use chrono_trade.Common.Result.{ok, err}
use chrono_trade.Common.Float.{Float}
use chrono_trade.Utils.FixedWindow.{Window, push}
use chrono_trade.Utils.FixedWindow.Valid.{IsValid, push-IsValid, contents}
use chrono_trade.Utils.FixedWindow.Span.{length-contents}
use chrono_trade.Utils.FixedWindow.Slide.{slide, contents-push}
use chrono_trade.Engine.RsiIndicator.Average.{total_from, at_inside, drop_at, drop_none}
use chrono_trade.Engine.BollingerBandsIndicator.{
  invalid_close, Bollinger, sum_terms, touch, squared_from, settle, verdict, enter, update,
}

module _ {W : Type 0} ⦃f : Float W⦄ where
  sum_terms_lem :
      (g : W → W) (w : Window W) (i n : ℕ) (t : W)
      → IsValid w
      → i + n ≡ w.count
      → sum_terms g w i n t ≡ ok (total_from t (map g (drop i (contents w))))
  unfolding sum_terms
  sum_terms_lem g w i zero t v e =
      ap (λ xs. ok (total_from t (map g xs)))
        (sym (drop_none (contents w) i (omega (arith, length-contents v))))
  sum_terms_lem g w i (suc n) t v e =
      let (x, a, h) = at_inside w i v (omega arith) in
      rw (sum_terms, a)
        (sum_terms_lem g w (i + 1) n (f.add t (g x)) v (omega arith)
          ∙ ap (λ xs. ok (total_from t (map g xs))) (sym (drop_at (contents w) i x h)))

  -- The sum of g over the window, over the number of its values.
  abbrev pub mean_of : (W → W) → Window W → W
  mean_of g w = f.div (total_from (f.lit 0 0) (map g (contents w))) (f.lit (length (contents w)) 0)

  -- The root of the mean square of the distances from the mean.
  abbrev pub deviation : Window W → W
  deviation w =
      let m = mean_of (λ x. x) w in f.sqrt (mean_of (λ x. f.mul (f.sub x m) (f.sub x m)) w)

  -- A deviation counts, unless it is no number or below 1e-10.
  pub record IsSpread (d stddev : W) : Type 0 where
    pub wide : f.is_finite d ≡ true → f.lt d (f.lit 1 10) ≡ false → stddev ≡ d
    pub strange : f.is_finite d ≡ false → stddev ≡ f.lit 0 0
    pub narrow : f.lt d (f.lit 1 10) ≡ true → stddev ≡ f.lit 0 0

  settle-IsSpread : (d : W) → IsSpread d (settle d)
  settle-IsSpread d = record { wide = ground arith; strange = ground arith; narrow = ground arith }

  -- Sell above the upper band, buy below the lower one, and hold between them.
  pub record IsVerdict (close upper lower : W) (s : Option Signal) : Type 0 where
    pub above : f.lt upper close ≡ true → s ≡ some sell
    pub below : f.lt upper close ≡ false → f.lt close lower ≡ true → s ≡ some buy
    pub between : f.lt upper close ≡ false → f.lt close lower ≡ false → s ≡ some hold

  verdict-IsVerdict :
      (close upper lower : W) → IsVerdict close upper lower (some (verdict close upper lower))
  verdict-IsVerdict close upper lower = record {
    above = ground arith;
    below = ground arith;
    between = ground arith;
  }

  -- The indicator `t` that an update of `b` at `close` leaves behind.
  pub record Banded (b : Bollinger W) (close : W) (t : Bollinger W) : Type 0 where
    pub valid : IsValid t.window
    pub slid : contents t.window ≡ slide b.window.max_capacity (contents b.window) close
    pub middle : t.sma ≡ mean_of (λ x. x) t.window
    pub spread : IsSpread (deviation t.window) t.stddev
    pub above : t.upper ≡ f.add t.sma (f.mul b.multiplier t.stddev)
    pub below : t.lower ≡ f.sub t.sma (f.mul b.multiplier t.stddev)
    pub noted : t.last_close ≡ close
    pub filling : length (contents t.window) < b.window.max_capacity → t.last_signal ≡ none
    pub judged :
        b.window.max_capacity ≤ length (contents t.window)
        → IsVerdict close t.upper t.lower t.last_signal

  touch_lem : (w : Window W) → IsValid w → touch w ≡ ok tt
  unfolding touch
  touch_lem w v = elim (Bool-cases (w.count == w.max_capacity)) [
    | inl e ↦ let (x, a, _) = at_inside w 0 v (ground (arith, v.head_in)) in rw (touch, e, a) refl
    | inr e ↦ rw (touch, e) refl
  ]

  push-capacity : (w : Window W) (x : W) → (push w x).max_capacity ≡ w.max_capacity
  unfolding push
  push-capacity w x = refl

  counted :
      (g : W → W) (w : Window W)
      → IsValid w
      → f.div (total_from (f.lit 0 0) (map g (contents w))) (f.lit w.count 0) ≡ mean_of g w
  counted g w v =
      ap (λ n. f.div (total_from (f.lit 0 0) (map g (contents w))) (f.lit n 0))
        (sym (length-contents v))

  enter-Banded :
      (b : Bollinger W) (close : W)
      → IsValid b.window
      → (t : Bollinger W) × (enter b close ≡ ok t) × Banded b close t
  unfolding enter push
  enter-Banded b close v =
      let w : Window W = push b.window close in
      let v' : IsValid w = push-IsValid close v in
      let middle : W = mean_of (λ x. x) w in
      let sum = sum_terms_lem (λ x. x) w 0 w.count (f.lit 0 0) v' (omega arith) in
      let squares = sum_terms_lem (squared_from middle) w 0 w.count (f.lit 0 0) v' (omega arith) in
      let upper : W = f.add middle (f.mul b.multiplier (settle (deviation w))) in
      let lower : W = f.sub middle (f.mul b.multiplier (settle (deviation w))) in
      (
        record b {
          window = w;
          sma = middle;
          stddev = settle (deviation w);
          upper = upper;
          lower = lower;
          last_close = close;
          last_signal =
              if ltb w.count w.max_capacity then none else some (verdict close upper lower);
        },
        rw
            (
              enter,
              touch_lem b.window v,
              sum,
              counted (λ x. x) w v',
              squares,
              counted (squared_from middle) w v',
            )
            refl,
        record {
          valid = v';
          slid = contents-push b.window close v;
          middle = refl;
          spread = settle-IsSpread (deviation w);
          above = refl;
          below = refl;
          noted = refl;
          filling = λ h.
              ap (λ c. if c then none else some (verdict close upper lower))
                (lt→ltb w.count w.max_capacity (omega (arith, length-contents v')));
          judged = λ h.
              subst (IsVerdict close upper lower)
                (ap (λ c. if c then none else some (verdict close upper lower))
                  (sym (le→ltb-false w.count w.max_capacity (omega (arith, length-contents v')))))
                (verdict-IsVerdict close upper lower);
        },
      )

  -- On an indicator with a valid window, an update at a finite close does not throw: the close slides
  -- into the window, the middle is the mean of what the window holds, and the bands lie around it by
  -- the multiple of the standard deviation, which counts as 0 if it is no number or below 1e-10. There
  -- is no signal until the window is full; then it is to sell above the upper band, to buy below the
  -- lower one, and to hold between them. At another close it throws, and only the last close is changed.
  pub update-Banded :
      (b : Bollinger W) (close : W)
      → IsValid b.window
      → (t : Bollinger W) × (((f.is_finite close ≡ true)
            × (update b close ≡ (t, ok tt))
            × Banded b close t)
          ⊎ ((f.is_finite close ≡ false)
              × (update b close ≡ (t, err invalid_close))
              × (t ≡ record b { last_close = close })))
  unfolding update
  update-Banded b close v = elim (Bool-cases (f.is_finite close)) [
    | inl e ↦ let (t, a, h) = enter-Banded b close v in (t, inl (e, rw (update, e, a) refl, h))
    | inr e ↦ (record b { last_close = close }, inr (e, rw (update, e) refl, refl))
  ]

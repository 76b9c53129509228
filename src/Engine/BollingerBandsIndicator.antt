-- ===== src/Engine/BollingerBandsIndicator.antt =====
-- engine/BollingerBandsIndicator.hpp: the mean of closing prices and a band around it. The log and
-- `trace`, its text, are left out. `std::pow(x, 2)` is x · x, and -1.0 is 0 - 1.
pub mod Bands
use chrono_trade.Common.{ℕ, zero, suc, ◌+◌, Option, none, some, ◌==◌, ltb, not, ◌||◌, if◌then◌else◌}
use chrono_trade.Common.Result.{Result, ok, err, ◌>>=◌}
use chrono_trade.Common.Float.{Float}
use chrono_trade.Utils.FixedWindow
use chrono_trade.Utils.FixedWindow.{Window, WindowError, push, at}
use chrono_trade.Engine.SmaIndicator.{Signal, hold, buy, sell}

pub data BandError : Type 0 where
  invalid_close : BandError
  of_window : WindowError → BandError

pub record Bollinger (W : Type 0) : Type 0 where
  pub window : Window W
  pub period : ℕ
  pub multiplier : W
  pub sma : W
  pub stddev : W
  pub upper : W
  pub lower : W
  pub last_close : W
  pub last_signal : Option Signal

module _ {W : Type 0} ⦃f : Float W⦄ where
  unfoldable pub make : ℕ → W → Result WindowError (Bollinger W)
  make p k = do
    w ← FixedWindow.make (f.lit 0 0) p
    ok (record {
      window = w;
      period = p;
      multiplier = k;
      sma = f.lit 0 0;
      stddev = f.lit 0 0;
      upper = f.lit 0 0;
      lower = f.lit 0 0;
      last_close = f.sub (f.lit 0 0) (f.lit 1 0);
      last_signal = none;
    })

  -- `for (i; i < w.size(); ++i) total += g(w.at(i));`, with `n` rounds to go.
  unfoldable pub sum_terms : (W → W) → Window W → ℕ → ℕ → W → Result WindowError W
  sum_terms g w i zero total = ok total
  sum_terms g w i (suc n) total = at w i >>= λ x. sum_terms g w (i + 1) n (f.add total (g x))

  -- The read at full capacity, whose value is not used.
  unfoldable pub touch : Window W → Result WindowError (Unit {0})
  touch w = if w.count == w.max_capacity then (at w 0 >>= λ _. ok tt) else ok tt

  abbrev pub squared_from : W → W → W
  squared_from sma x = f.mul (f.sub x sma) (f.sub x sma)

  -- A deviation that is no number or next to nothing counts as none.
  abbrev pub settle : W → W
  settle d = if not (f.is_finite d) || f.lt d (f.lit 1 10) then f.lit 0 0 else d

  abbrev pub verdict : W → W → W → Signal
  verdict close upper lower =
      if f.lt upper close then sell else if f.lt close lower then buy else hold

  -- `update` behind its check of the close.
  unfoldable pub enter : Bollinger W → W → Result WindowError (Bollinger W)
  unfolding sum_terms touch
  enter b close = do
    _ ← touch b.window
    let w = push b.window close
    total ← sum_terms (λ x. x) w 0 w.count (f.lit 0 0)
    let sma = f.div total (f.lit w.count 0)
    squares ← sum_terms (squared_from sma) w 0 w.count (f.lit 0 0)
    let stddev = settle (f.sqrt (f.div squares (f.lit w.count 0)))
    let upper = f.add sma (f.mul b.multiplier stddev)
    let lower = f.sub sma (f.mul b.multiplier stddev)
    ok (record b {
      window = w;
      sma = sma;
      stddev = stddev;
      upper = upper;
      lower = lower;
      last_close = close;
      last_signal = if ltb w.count w.max_capacity then none else some (verdict close upper lower);
    })

  -- The indicator after the call, and how the call ended. What an exception of the window would leave
  -- behind is not told apart, since there is none.
  unfoldable pub update : Bollinger W → W → Bollinger W × Result BandError (Unit {0})
  unfolding enter
  update b close =
      let noted = record b { last_close = close } in
      if not (f.is_finite close)
      then (noted, err invalid_close)
      else (elim (enter noted close) [ ok t ↦ (t, ok tt) | err e ↦ (noted, err (of_window e)) ])

  abbrev pub signal : Bollinger W → Signal
  signal b = elim b.last_signal [ none ↦ hold | some s ↦ s ]

  abbrev pub value : Bollinger W → W
  value b = b.sma

  -- `std::min(last_close - lower, upper - last_close)`
  abbrev inner_distance : Bollinger W → W
  inner_distance b =
      let below = f.sub b.last_close b.lower in
      let above = f.sub b.upper b.last_close in if f.lt above below then above else below

  abbrev pub get_band_distance : Bollinger W → W
  get_band_distance b = elim b.last_signal [
    | none ↦ inner_distance b
    | some s ↦ elim s [
      | buy ↦ f.sub b.lower b.last_close
      | sell ↦ f.sub b.last_close b.upper
      | hold ↦ inner_distance b
    ]
  ]

  abbrev pub get_band_width : Bollinger W → W
  get_band_width b = f.sub b.upper b.lower

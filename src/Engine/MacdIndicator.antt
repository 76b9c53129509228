-- ===== src/Engine/MacdIndicator.antt =====
-- engine/MACDIndicator.hpp: the difference of a fast and a slow exponential average of closing
-- prices, against its own average. The log is left out. -1.0 is 0 - 1, and -x is 0 - x.
pub mod Averages
use chrono_trade.Common.{
  ℕ, ◌+◌, ◌%◌, ◌^◌, Option, none, some, List, [], ◌∷◌, ◌==◌, ltb, leb, ◌&&◌, ◌||◌, if◌then◌else◌,
}
use chrono_trade.Common.Result.{Result, ok, err}
use chrono_trade.Common.Float.{Float}
use chrono_trade.Engine.SmaIndicator.{Signal, hold, buy, sell}

pub data MacdError : Type 0 where
  zero_period : MacdError

pub record Macd (W : Type 0) : Type 0 where
  pub fast_ema : W
  pub slow_ema : W
  pub signal_ema : W
  pub macd_line : W
  pub signal_line : W
  pub histogram : W
  pub fast_period : ℕ
  pub slow_period : ℕ
  pub signal_period : ℕ
  pub steps : ℕ
  pub last_histogram : W
  pub last_close : W
  pub last_crossover : Option Signal

-- `slowPeriod + signalPeriod`
abbrev pub warm_up : {W : Type 0} → Macd W → ℕ
warm_up m = (m.slow_period + m.signal_period) % 2 ^ 64

module _ {W : Type 0} ⦃f : Float W⦄ where
  unfoldable pub make : ℕ → ℕ → ℕ → Result MacdError (Macd W)
  make fast slow signal =
      if (fast == 0 || slow == 0) || signal == 0
      then err zero_period
      else ok (record {
        fast_ema = f.lit 0 0;
        slow_ema = f.lit 0 0;
        signal_ema = f.lit 0 0;
        macd_line = f.lit 0 0;
        signal_line = f.lit 0 0;
        histogram = f.lit 0 0;
        fast_period = fast;
        slow_period = slow;
        signal_period = signal;
        steps = 0;
        last_histogram = f.lit 0 0;
        last_close = f.sub (f.lit 0 0) (f.lit 1 0);
        last_crossover = none;
      })

  unfoldable pub compute_ema : W → W → ℕ → W
  compute_ema price prev_ema period =
      let multiplier = f.div (f.lit 2 0) (f.add (f.lit period 0) (f.lit 1 0)) in
      f.add (f.mul (f.sub price prev_ema) multiplier) prev_ema

  -- `std::max(1e-6, std::abs(h) * 0.001)`
  abbrev pub threshold_of : W → W
  threshold_of h =
      let size = if f.lt h (f.lit 0 0) then f.sub (f.lit 0 0) h else h in
      let scaled = f.mul size (f.lit 1 3) in if f.lt (f.lit 1 6) scaled then scaled else f.lit 1 6

  -- The new crossover, of the histograms before and after the close.
  abbrev pub crossing : W → W → Option Signal → Option Signal
  crossing last curr old =
      if f.le last (f.lit 0 0) && f.lt (threshold_of curr) curr
      then some buy
      else if f.le (f.lit 0 0) last && f.lt curr (f.sub (f.lit 0 0) (threshold_of curr))
      then some sell
      else old

  -- The first close.
  abbrev pub seed : Macd W → W → Macd W
  seed m close = record m {
    fast_ema = close;
    slow_ema = close;
    signal_ema = close;
    last_close = close;
    steps = (m.steps + 1) % 2 ^ 64;
  }

  -- A later close.
  abbrev pub follow : Macd W → W → Macd W
  follow m close =
      let fast = compute_ema close m.fast_ema m.fast_period in
      let slow = compute_ema close m.slow_ema m.slow_period in
      let line = f.sub fast slow in
      let signal = compute_ema line m.signal_ema m.signal_period in
      let hist = f.sub line signal in
      record m {
        fast_ema = fast;
        slow_ema = slow;
        macd_line = line;
        signal_ema = signal;
        signal_line = signal;
        last_histogram = m.histogram;
        histogram = hist;
        last_crossover =
            if leb (warm_up m) m.steps
            then crossing m.histogram hist m.last_crossover
            else m.last_crossover;
        last_close = close;
        steps = (m.steps + 1) % 2 ^ 64;
      }

  unfoldable pub update : Macd W → W → Macd W
  update m close = if f.lt m.last_close (f.lit 0 0) then seed m close else follow m close

  unfoldable pub signal : Macd W → Signal
  signal m =
      if ltb m.steps (warm_up m) then hold else elim m.last_crossover [ none ↦ hold | some s ↦ s ]

  abbrev pub value : Macd W → W
  value m = m.histogram

  -- The calls of `update` for a run of closes.
  unfoldable pub update_all : Macd W → List W → Macd W
  update_all m [] = m
  update_all m (x ∷ xs) = update_all (update m x) xs

-- ===== src/Engine/SmaIndicator.antt =====
-- engine/SMAIndicator.hpp: the simple moving average of closing prices, by a running sum over a
-- window. The log is left out. `static_cast<double>(n)` is the literal n.
pub mod Refine
pub mod Average
use chrono_trade.Common.{ℕ, ◌-◌, ◌&&◌, ltb, ◌==◌, if◌then◌else◌}
use chrono_trade.Common.Result.{Result, ok, ◌>>=◌}
use chrono_trade.Common.Float.{Float}
use chrono_trade.Utils.FixedWindow
use chrono_trade.Utils.FixedWindow.{Window, WindowError, push, at}

pub record Sma (W : Type 0) : Type 0 where
  pub window : Window W
  pub sum : W
  pub last_sma : W

pub data Signal : Type 0 where
  hold buy sell : Signal

module _ {W : Type 0} ⦃f : Float W⦄ where
  unfoldable pub make : ℕ → Result WindowError (Sma W)
  make period = do
    w ← FixedWindow.make (f.lit 0 0) period
    ok (record { window = w; sum = f.lit 0 0; last_sma = f.lit 0 0 })

  -- `if (window.size() == window.capacity()) sum -= window.at(0);`
  unfoldable pub evict : Sma W → Result WindowError W
  evict s =
      if s.window.count == s.window.max_capacity
      then (at s.window 0 >>= λ oldest. ok (f.sub s.sum oldest))
      else ok s.sum

  unfoldable pub mean : Window W → W → W
  mean w sum =
      if w.count == w.max_capacity
      then f.div sum (f.lit w.max_capacity 0)
      else f.div sum (f.lit w.count 0)

  unfoldable pub update : Sma W → W → Result WindowError (Sma W)
  unfolding evict mean
  update s close = do
    kept ← evict s
    let w = push s.window close
    let sum = f.add kept close
    ok (record { window = w; sum = sum; last_sma = mean w sum })

  unfoldable pub crossing : W → W → W → Signal
  crossing sma prev curr =
      if f.lt sma curr && f.le prev sma
      then buy
      else if f.lt curr sma && f.le sma prev
      then sell
      else hold

  unfoldable pub signal : Sma W → Result WindowError Signal
  unfolding crossing
  signal s = if ltb s.window.count 2 then ok hold else do
    prev ← at s.window (s.window.count - 2)
    curr ← at s.window (s.window.count - 1)
    ok (crossing s.last_sma prev curr)

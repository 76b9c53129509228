-- ===== src/Engine/RsiIndicator.antt =====
-- engine/RSIIndicator.hpp: the relative strength index of closing prices. The log is left out. -1.0 is
-- 0 - 1, and -delta is 0 - delta.
pub mod Average
use chrono_trade.Common.{ℕ, zero, suc, ◌+◌, ◌==◌, if◌then◌else◌}
use chrono_trade.Common.Result.{Result, ok, ◌>>=◌}
use chrono_trade.Common.Float.{Float}
use chrono_trade.Utils.FixedWindow
use chrono_trade.Utils.FixedWindow.{Window, WindowError, push, at}
use chrono_trade.Engine.SmaIndicator.{Signal, hold, buy, sell}

pub record Rsi (W : Type 0) : Type 0 where
  pub gains : Window W
  pub losses : Window W
  pub last_close : W
  pub rsi : W

module _ {W : Type 0} ⦃f : Float W⦄ where
  unfoldable pub make : ℕ → Result WindowError (Rsi W)
  make period = do
    gains ← FixedWindow.make (f.lit 0 0) period
    losses ← FixedWindow.make (f.lit 0 0) period
    ok (record {
      gains = gains;
      losses = losses;
      last_close = f.sub (f.lit 0 0) (f.lit 1 0);
      rsi = f.lit 50 0;
    })

  abbrev pub gain_of : W → W
  gain_of delta = if f.lt (f.lit 0 0) delta then delta else f.lit 0 0

  abbrev pub loss_of : W → W
  loss_of delta = if f.lt delta (f.lit 0 0) then f.sub (f.lit 0 0) delta else f.lit 0 0

  -- `for (i; i < w.size(); ++i) total += w.at(i);`, with `n` rounds to go.
  unfoldable pub add_up : Window W → ℕ → ℕ → W → Result WindowError W
  add_up w i zero total = ok total
  add_up w i (suc n) total = at w i >>= λ x. add_up w (i + 1) n (f.add total x)

  -- The two reads at full capacity, whose values are not used.
  unfoldable pub touch : Rsi W → Result WindowError (Unit {0})
  touch r =
      if r.gains.count == r.gains.max_capacity
      then (at r.gains 0 >>= λ _. at r.losses 0 >>= λ _. ok tt)
      else ok tt

  abbrev pub index_of : W → W → W
  index_of avg_gain avg_loss =
      if f.eq avg_loss (f.lit 0 0)
      then f.lit 100 0
      else f.sub (f.lit 100 0) (f.div (f.lit 100 0) (f.add (f.lit 1 0) (f.div avg_gain avg_loss)))

  -- `update` from the second close on, with the gain and the loss.
  unfoldable pub advance : Rsi W → W → W → W → Result WindowError (Rsi W)
  unfolding add_up touch
  advance r close gain loss = do
    _ ← touch r
    let gains = push r.gains gain
    let losses = push r.losses loss
    gained ← add_up gains 0 gains.count (f.lit 0 0)
    lost ← add_up losses 0 losses.count (f.lit 0 0)
    ok (record {
      gains = gains;
      losses = losses;
      last_close = close;
      rsi = index_of (f.div gained (f.lit gains.count 0)) (f.div lost (f.lit losses.count 0));
    })

  unfoldable pub update : Rsi W → W → Result WindowError (Rsi W)
  unfolding advance
  update r close =
      if f.lt r.last_close (f.lit 0 0)
      then ok (record r { last_close = close })
      else advance r close (gain_of (f.sub close r.last_close)) (loss_of (f.sub close r.last_close))

  unfoldable pub signal : Rsi W → Signal
  signal r = if f.le (f.lit 70 0) r.rsi then sell else if f.le r.rsi (f.lit 30 0) then buy else hold

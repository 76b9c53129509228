-- ===== src/Engine/LoopProcessor.antt =====
-- engine/LoopProcessor.hpp: a thread that feeds synthetic candles to the registry. `tick` is an int, so
-- the sums 100.0 + tick are exact, and are the literals with those values. The log and the sleeps are
-- left out; what `running` reads is the number of rounds until it is false.
pub mod Ticks
use chrono_trade.Common.{ℕ, zero, suc, ◌+◌, ◌*◌, Bool, true, false, if◌then◌else◌}
use chrono_trade.Common.Int.{pos}
use chrono_trade.Common.Result.{Result, ok, err}
use chrono_trade.Common.Float.{Float}
use chrono_trade.Core.Candlestick
use chrono_trade.Core.Candlestick.{Candlestick, CandleError}
use chrono_trade.Engine.IndicatorRegistry.{IIndicator, Registry, Heap, update_all}

-- Where the loop's thread stands: not started, in its loop, at its end, or ended by an exception that
-- nothing catches, which terminates the program.
pub data Thread : Type 0 where
  unstarted looping joined terminated : Thread

pub record Processor : Type 0 where
  pub running : Bool
  pub loop_thread : Thread

abbrev pub new_processor : Processor
new_processor = record { running = false; loop_thread = unstarted }

-- Assigning to a thread that is joinable terminates the program.
abbrev pub launch : Thread → Thread
launch unstarted = looping
launch joined = looping
launch looping = terminated
launch terminated = terminated

abbrev pub start : Processor → Processor
start p = record { running = true; loop_thread = launch p.loop_thread }

-- `if (loopThread.joinable()) loopThread.join();`
abbrev pub join : Thread → Thread
join unstarted = unstarted
join looping = joined
join joined = joined
join terminated = terminated

abbrev pub stop : Processor → Processor
stop p = record { running = false; loop_thread = join p.loop_thread }

pub data LoopError (E : Type 0) : Type 0 where
  of_candle : CandleError → LoopError E
  of_indicator : E → LoopError E

-- `update_all` of the candle, and the rest of the loop if it does not throw.
abbrev goes_on :
    {A E B : Type 0}
    → A × Result E (Unit {0})
    → (A → A × Result B (Unit {0}))
    → (E → B)
    → A × Result B (Unit {0})
goes_on (a, ok _) k g = k a
goes_on (a, err x) k g = (a, err (g x))

module _ {W : Type 0} ⦃f : Float W⦄ where
  unfoldable pub fake : ℕ → Result CandleError (Candlestick W)
  fake tick =
      Candlestick.make (f.lit (100 + tick) 0) (f.lit (101 + tick) 0) (f.lit (99 + tick) 0)
        (f.lit (1005 + tick * 10) 1) (f.lit 1 0) (pos tick) (pos (tick + 1))

  module _ {S V E : Type 0} (ind : IIndicator S (Candlestick W) V E) where
    -- `n` rounds of the loop from `tick` on.
    unfoldable pub run : Heap S → Registry → ℕ → ℕ → Heap S × Result (LoopError E) (Unit {0})
    run heap es tick zero = (heap, ok tt)
    run heap es tick (suc n) = elim (fake tick) [
      | err x ↦ (heap, err (of_candle x))
      | ok candle ↦
          goes_on (update_all ind heap es candle) (λ h. run h es (tick + 1) n) of_indicator
    ]

-- ===== src/Engine/LoopProcessor/Ticks.antt =====
-- The candles that the loop makes, and what the indicators see of them.
use chrono_trade.Common.{ℕ, zero, suc, ◌+◌, ◌*◌, ◌∙◌, ap, not, List, [], ◌∷◌, All, arith}
use chrono_trade.Common.Int.{pos}
use chrono_trade.Common.Result.{Result}
use chrono_trade.Common.Float.{Float, IsOrdered}
use chrono_trade.Core.Candlestick.{Candlestick, IsValid}
use chrono_trade.Engine.IndicatorRegistry.{IIndicator}
use chrono_trade.Engine.IndicatorRegistry.Once.{times}

module _ {W : Type 0} ⦃f : Float W⦄ where
  abbrev fake_candle : ℕ → Candlestick W
  fake_candle tick = record {
    opening = f.lit (100 + tick) 0;
    high = f.lit (101 + tick) 0;
    low = f.lit (99 + tick) 0;
    close = f.lit (1005 + tick * 10) 1;
    volume = f.lit 1 0;
    start_time = pos tick;
    end_time = pos (tick + 1);
  }

  -- The candles of n rounds.
  abbrev pub ticks : ℕ → ℕ → List (Candlestick W)
  ticks tick zero = []
  ticks tick (suc n) = fake_candle tick ∷ ticks (tick + 1) n

module _ {W : Type 0} ⦃f : Float W⦄ (o : IsOrdered W) where
  open o use {lit_le, lit_nonneg, lt-eq-not-le, lit_finite}

  fake-IsValid : (tick : ℕ) → IsValid {W = W} (fake_candle tick)
  fake-IsValid tick = record {
    low_le_open = lit_le (99 + tick) 0 (100 + tick) 0 (omega arith);
    open_le_high = lit_le (100 + tick) 0 (101 + tick) 0 (omega arith);
    low_le_close = lit_le (99 + tick) 0 (1005 + tick * 10) 1 (omega arith);
    close_le_high = lit_le (1005 + tick * 10) 1 (101 + tick) 0 (omega arith);
    start_lt_end = ground arith;
    volume_not_lt =
        lt-eq-not-le (f.lit 1 0) (f.lit 0 0) (lit_finite 1 0 (omega arith))
          (lit_finite 0 0 (omega arith))
        ∙ ap not (lit_nonneg 1 0);
  }

  ticks-IsValid : (tick n : ℕ) → All (λ c. IsValid {W = W} c) (ticks tick n)
  ticks-IsValid tick zero = tt
  ticks-IsValid tick (suc n) = (fake-IsValid tick, ticks-IsValid (tick + 1) n)

module _ {S C V E : Type 0} (ind : IIndicator S C V E) where
  -- The object after candles that it takes k times each.
  abbrev pub shown : ℕ → List C → S → S
  shown k [] s = s
  shown k (c ∷ cs) s = shown k cs (times ind c k s)

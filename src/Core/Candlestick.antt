-- ===== src/Core/Candlestick.antt =====
-- core/Candlestick.hpp: the checked constructor of a candle. `volume < 0` lets NaN through.
use chrono_trade.Common.{◌≡◌, ◌↔◌, true, false, not, ◌&&◌, arith}
use chrono_trade.Common.Int.{ℤ, leb_ℤ, ltb_ℤ}
use chrono_trade.Common.Result.{Result, ok, ◌>>◌, throw_if}
use chrono_trade.Common.Float.{Float, ◌≼◌}

pub data CandleError : Type 0 where
  open_out_of_range close_out_of_range invalid_time_window negative_volume : CandleError

pub record Candlestick (W : Type 0) : Type 0 where
  pub opening : W
  pub high : W
  pub low : W
  pub close : W
  pub volume : W
  pub start_time : ℤ
  pub end_time : ℤ

module _ {W : Type 0} ⦃f : Float W⦄ where
  unfoldable pub make : W → W → W → W → W → ℤ → ℤ → Result CandleError (Candlestick W)
  make o h l c v start stop = do
    throw_if (not (f.le l o && f.le o h)) open_out_of_range
    throw_if (not (f.le l c && f.le c h)) close_out_of_range
    throw_if (leb_ℤ stop start) invalid_time_window
    throw_if (f.lt v (f.lit 0 0)) negative_volume
    ok (record {
      opening = o;
      high = h;
      low = l;
      close = c;
      volume = v;
      start_time = start;
      end_time = stop;
    })

  pub record IsValid (c : Candlestick W) : Type 0 where
    pub low_le_open : c.low ≼ c.opening
    pub open_le_high : c.opening ≼ c.high
    pub low_le_close : c.low ≼ c.close
    pub close_le_high : c.close ≼ c.high
    pub start_lt_end : ltb_ℤ c.start_time c.end_time ≡ true
    pub volume_not_lt : f.lt c.volume (f.lit 0 0) ≡ false

  -- A candle that is constructed meets the class invariant and holds its arguments, and arguments
  -- that meet it are never refused.
  pub candle_iff :
      (o h l c v : W) (start stop : ℤ) (k : Candlestick W)
      → (make o h l c v start stop ≡ ok k) ↔ (
          IsValid k
          × (k ≡ record {
            opening = o;
            high = h;
            low = l;
            close = c;
            volume = v;
            start_time = start;
            end_time = stop;
          }))
  unfolding make
  candle_iff o h l c v start stop k = (λ e. ground arith, λ e. ground arith)

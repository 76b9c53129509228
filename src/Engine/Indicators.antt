-- ===== src/Engine/Indicators.antt =====
-- The indicators of engine/ behind the interface of engine/IIndicator.hpp. Where an indicator's own
-- model gives no state for a call that throws, the call leaves the object as it was.
use chrono_trade.Common.Result.{Result, ok, err}
use chrono_trade.Common.Float.{Float}
use chrono_trade.Core.Candlestick.{Candlestick}
use chrono_trade.Utils.FixedWindow.{WindowError}
use chrono_trade.Engine.SmaIndicator as Sma
use chrono_trade.Engine.SmaIndicator.{Sma}
use chrono_trade.Engine.RsiIndicator as Rsi
use chrono_trade.Engine.RsiIndicator.{Rsi}
use chrono_trade.Engine.MacdIndicator as Macd
use chrono_trade.Engine.MacdIndicator.{Macd}
use chrono_trade.Engine.BollingerBandsIndicator as Bollinger
use chrono_trade.Engine.BollingerBandsIndicator.{Bollinger, BandError}
use chrono_trade.Engine.IndicatorRegistry.{IIndicator}

-- The state that a call left, and how it ended.
abbrev settled : {S E : Type 0} → S → Result E S → S × Result E (Unit {0})
settled s (ok t) = (t, ok tt)
settled s (err e) = (s, err e)

module _ {W : Type 0} ⦃f : Float W⦄ where
  abbrev pub sma_indicator : IIndicator (Sma W) (Candlestick W) W WindowError
  sma_indicator = record {
    update = λ s c. settled s (Sma.update s c.close);
    signal = λ s. Sma.signal s;
    value = λ s. s.last_sma;
  }

  abbrev pub rsi_indicator : IIndicator (Rsi W) (Candlestick W) W WindowError
  rsi_indicator = record {
    update = λ r c. settled r (Rsi.update r c.close);
    signal = λ r. ok (Rsi.signal r);
    value = λ r. r.rsi;
  }

  abbrev pub macd_indicator : IIndicator (Macd W) (Candlestick W) W WindowError
  macd_indicator = record {
    update = λ m c. (Macd.update m c.close, ok tt);
    signal = λ m. ok (Macd.signal m);
    value = λ m. Macd.value m;
  }

  abbrev pub bollinger_indicator : IIndicator (Bollinger W) (Candlestick W) W BandError
  bollinger_indicator = record {
    update = λ b c. Bollinger.update b c.close;
    signal = λ b. ok (Bollinger.signal b);
    value = λ b. Bollinger.value b;
  }

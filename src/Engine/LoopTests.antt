-- ===== src/Engine/LoopTests.antt =====
-- A registry of indicators, and the loop over it.
use chrono_trade.Common.{◌≡◌, ◌⊎◌, refl, none, [], ◌∷◌, ◌++◌}
use chrono_trade.Common.Int.{pos}
use chrono_trade.Common.Result.{ok, err}
use chrono_trade.Common.Float.{Micros, micro_float}
use chrono_trade.Core.Candlestick.{Candlestick}
use chrono_trade.Engine.MacdIndicator.{Macd}
use chrono_trade.Engine.BollingerBandsIndicator.{Bollinger}
use chrono_trade.Engine.IndicatorRegistry
use chrono_trade.Engine.IndicatorRegistry.{Registry, Heap, register_indicator}
use chrono_trade.Engine.IndicatorRegistry.Once
use chrono_trade.Engine.IndicatorRegistry.Once.{Reached, Threw}
use chrono_trade.Engine.Indicators.{bollinger_indicator}
use chrono_trade.Engine.LoopProcessor.{terminated, new_processor, start}
use chrono_trade.Engine.LoopProcessor.Ticks
use chrono_trade.Engine.BandTests.{new_macd, new_bands, euros}

-- Names 1 and 3 share the object 0.
abbrev three_names : Registry
three_names =
    register_indicator (λ es. es)
      (register_indicator (λ es. es) (register_indicator (λ es. es) [] 1 0) 2 1) 3 0

-- The name 2 goes to another object.
rename : register_indicator (λ es. es) three_names 2 0 ≡ (
    record { name = 3; object = 0 }
    ∷ record { name = 2; object = 0 }
    ∷ record { name = 1; object = 0 }
    ∷ [])
rename = refl

-- A second start without a stop terminates the program, and a stop lets the loop start again.
second_start : (start (start new_processor)).loop_thread ≡ terminated
second_start = refl

abbrev candle : Micros → Candlestick Micros
candle close = record {
  opening = euros 1;
  high = euros 9;
  low = euros 1;
  close = close;
  volume = euros 1;
  start_time = pos 0;
  end_time = pos 1;
}

abbrev bands_heap : Heap (Bollinger Micros)
bands_heap j = new_bands

-- A close that is no number stops the loop over the indicators at the first.
update_all-Reached_example :
    let es = three_names in
    let c = candle none in
    let result = IndicatorRegistry.update_all bollinger_indicator bands_heap es c in
    (before after : Registry) × (es ≡ before ++ after)
    × Reached bollinger_indicator bands_heap c before result.0
    × (((after ≡ []) × (result.1 ≡ ok tt))
        ⊎ ((x : _) × (result.1 ≡ err x) × Threw bollinger_indicator bands_heap c before x))
update_all-Reached_example =
    Once.update_all-Reached bollinger_indicator bands_heap three_names (candle none)

abbrev macd_heap : Heap (Macd Micros)
macd_heap j = new_macd

-- ===== src/Engine/Tests.antt =====
-- Runs of the engine, over signed millionths.
use chrono_trade.Common.{ℕ, ◌+◌, ◌≡◌, ◌⊎◌, refl, some, none, false, List, [], ◌∷◌, arith}
use chrono_trade.Common.Int.{pos}
use chrono_trade.Common.Result.{err}
use chrono_trade.Common.Float.{Micros, micro_float, Micros-IsOrdered}
use chrono_trade.Core.Order.{Order}
use chrono_trade.Core.Candlestick
use chrono_trade.Core.Candlestick.{Candlestick}
use chrono_trade.Engine.CandlestickGenerator.{
  Generator, make, insert, flush_if_ready, volume_overflow,
}
use chrono_trade.Engine.CandlestickGenerator.Flush
use chrono_trade.Engine.CandlestickGenerator.Flush.{Summarises, Returns, HandsOn, Throws}
use chrono_trade.Engine.CandlestickGenerator.Flush.Extremes.{Overflows}
use chrono_trade.Engine.CandlestickGenerator.Counters
use chrono_trade.Engine.CandlestickGenerator.Counters.{Call, insert_order, flush_at, IsValid, run}

abbrev order : ℕ → ℕ → Order Micros
order p t = record {
  price = some (pos p);
  amount = some (pos 1_000_000);
  timestamp = pos (1_725_000_000 + t);
}

abbrev calls : List (Call Micros)
calls =
    insert_order (order 100_000_000 0)
    ∷ insert_order (order 120_000_000 5)
    ∷ insert_order (order 90_000_000 70)
    ∷ []

run-IsValid_example : IsValid (run (make (pos 60)) calls)
run-IsValid_example = Counters.run-IsValid (pos 60) calls (ground arith)

abbrev full : Generator Micros
full = record {
  window = order 100_000_000 0 ∷ order 120_000_000 5 ∷ [];
  window_start = pos 1_725_000_000;
  window_duration = pos 60;
  dispatch_cb = none;
  accepted_orders = 2;
  late_orders = 1;
  dropped_orders = 0;
  bound_registry = false;
  bound_pool = false;
  submitted = [];
}

run-calls : run (make (pos 60)) calls ≡ full
unfolding run make insert
run-calls = refl

flush_ready_example :
    (Overflows (micro_float.lit 0 0) (order 100_000_000 0 ∷ order 120_000_000 5 ∷ [])
      × (flush_if_ready full (pos 1_725_000_060) ≡ (full, err volume_overflow)))
    ⊎ ((c : Candlestick Micros) × Candlestick.IsValid c
        × Summarises full (order 100_000_000 0) (order 120_000_000 5 ∷ []) c
        × ((Returns full.dispatch_cb c × HandsOn full c (flush_if_ready full (pos 1_725_000_060)))
            ⊎ Throws full c (flush_if_ready full (pos 1_725_000_060))))
flush_ready_example =
    Flush.flush_ready Micros-IsOrdered full (pos 1_725_000_060) (order 100_000_000 0)
      (order 120_000_000 5 ∷ []) (ground arith) refl refl refl

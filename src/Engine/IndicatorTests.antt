-- ===== src/Engine/IndicatorTests.antt =====
-- Runs of the indicators, and their properties applied to them.
use chrono_trade.Common.{true, false, ◌⊎◌, ℕ, ◌*◌, ◌≡◌, refl, some, [], ◌∷◌, length, arith}
use chrono_trade.Common.Int.{pos}
use chrono_trade.Common.Result.{ok}
use chrono_trade.Common.Float.{Micros, micro_float}
use chrono_trade.Utils.FixedWindow
use chrono_trade.Utils.FixedWindow.{Window, at, push}
use chrono_trade.Utils.FixedWindow.Valid.{contents, IsValid}
use chrono_trade.Utils.FixedWindow.Slide.{latest}
use chrono_trade.Engine.SmaIndicator.{Sma, make}
use chrono_trade.Engine.RsiIndicator.{Rsi, update}
use chrono_trade.Engine.RsiIndicator.Average as RsiAverage
use chrono_trade.Engine.RsiIndicator.Average.{InStep, Advanced}
use chrono_trade.Engine.SmaIndicator.Refine.{update_all, steps}
use chrono_trade.Engine.SmaIndicator.Average
use chrono_trade.Engine.SmaIndicator.Average.{fresh}

abbrev new_sma : Sma Micros
new_sma = record {
  window = record {
    buffer = some (pos 0) ∷ some (pos 0) ∷ [];
    head = 0;
    count = 0;
    max_capacity = 2;
  };
  sum = some (pos 0);
  last_sma = some (pos 0);
}

abbrev euros : ℕ → Micros
euros n = some (pos (n * 1_000_000))

sma_average_example :
    let closes = latest 2 (euros 4 ∷ euros 6 ∷ euros 8 ∷ []) in
    let total = (steps 2 fresh (euros 4 ∷ euros 6 ∷ euros 8 ∷ [])).total in
    (t : Sma Micros) × (update_all new_sma (euros 4 ∷ euros 6 ∷ euros 8 ∷ []) ≡ ok t)
    × (contents t.window ≡ closes)
    × (t.sum ≡ total)
    × (t.last_sma ≡ micro_float.div total (micro_float.lit (length closes) 0))
unfolding make FixedWindow.make
sma_average_example =
    Average.sma_average 2 new_sma (euros 4) (euros 6 ∷ euros 8 ∷ []) (omega arith) refl

abbrev two_zeros : Window Micros
two_zeros = record { buffer = euros 0 ∷ euros 0 ∷ []; head = 0; count = 0; max_capacity = 2 }

-- After a first close of 4.
abbrev begun : Rsi Micros
begun = record { gains = two_zeros; losses = two_zeros; last_close = euros 4; rsi = euros 50 }

-- A rise without a fall gives 100.
update_rise :
    update begun (euros 6)
    ≡ ok (record begun {
      gains = push two_zeros (euros 2);
      losses = push two_zeros (euros 0);
      last_close = euros 6;
      rsi = euros 100;
    })
unfolding update push at
update_rise = refl

update-InStep_example :
    (t : Rsi Micros) × (update begun (euros 6) ≡ ok t)
    × InStep t
    × (((micro_float.lt (euros 4) (euros 0) ≡ true)
          × (◌≡◌ {A = Rsi Micros} t (record begun { last_close = euros 6 })))
        ⊎ ((micro_float.lt (euros 4) (euros 0) ≡ false) × Advanced begun (euros 6) t))
update-InStep_example =
    RsiAverage.update-InStep begun (euros 6)
      (record { gains_ok = valid; losses_ok = valid; same_count = refl; same_capacity = refl })
  where
    valid : IsValid two_zeros
    valid = record {
      storage = refl;
      small = omega arith;
      head_in = omega arith;
      count_in = omega arith;
    }

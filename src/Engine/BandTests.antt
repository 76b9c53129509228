-- ===== src/Engine/BandTests.antt =====
-- Runs of the difference of averages and of the bands, and their properties applied to them.
use chrono_trade.Common.{ℕ, ◌*◌, ◌≡◌, ◌⊎◌, true, false, refl, none, some, [], ◌∷◌, arith}
use chrono_trade.Common.Int.{pos, negsuc}
use chrono_trade.Common.Result.{ok, err}
use chrono_trade.Common.Float.{Micros, micro_float}
use chrono_trade.Utils.FixedWindow.{Window, at, push}
use chrono_trade.Engine.MacdIndicator as Macd
use chrono_trade.Engine.MacdIndicator.{Macd, make, compute_ema, signal, update_all}
use chrono_trade.Engine.MacdIndicator.Averages as MacdAverages
use chrono_trade.Engine.MacdIndicator.Averages.{Follows}
use chrono_trade.Engine.BollingerBandsIndicator.{
  Bollinger, invalid_close, sum_terms, touch, enter, update,
}
use chrono_trade.Engine.BollingerBandsIndicator.Bands
use chrono_trade.Engine.BollingerBandsIndicator.Bands.{Banded}

abbrev pub euros : ℕ → Micros
euros n = some (pos (n * 1_000_000))

abbrev pub new_macd : Macd Micros
new_macd = record {
  fast_ema = euros 0;
  slow_ema = euros 0;
  signal_ema = euros 0;
  macd_line = euros 0;
  signal_line = euros 0;
  histogram = euros 0;
  fast_period = 1;
  slow_period = 3;
  signal_period = 1;
  steps = 0;
  last_histogram = euros 0;
  last_close = some (negsuc 999_999);
  last_crossover = none;
}

-- With constant closes of 9 the difference of the averages is 0, and the histogram is -4.5 all the
-- same, since the signal's average begins at 9.
constant_histogram :
    (update_all (record new_macd { signal_period = 3 }) (euros 9 ∷ euros 9 ∷ [])).histogram
    ≡ some (negsuc 4_499_999)
unfolding update_all Macd.update compute_ema
constant_histogram = refl

update_all-Follows_example :
    Follows new_macd
      (euros 4)
      (euros 4)
      (euros 4)
      (euros 6 ∷ euros 8 ∷ [])
      (update_all new_macd (euros 4 ∷ euros 6 ∷ euros 8 ∷ []))
update_all-Follows_example =
    MacdAverages.update_all-Follows new_macd (euros 4) (euros 6 ∷ euros 8 ∷ []) refl (ground arith)

abbrev two_zeros : Window Micros
two_zeros = record { buffer = euros 0 ∷ euros 0 ∷ []; head = 0; count = 0; max_capacity = 2 }

abbrev pub new_bands : Bollinger Micros
new_bands = record {
  window = two_zeros;
  period = 2;
  multiplier = euros 2;
  sma = euros 0;
  stddev = euros 0;
  upper = euros 0;
  lower = euros 0;
  last_close = some (negsuc 999_999);
  last_signal = none;
}

-- Equal closes leave a band of no width.
bands_of_two : (update (update new_bands (euros 4)).0 (euros 4)).0.upper ≡ euros 4
unfolding update enter sum_terms touch push at
bands_of_two = refl

update-Banded_example :
    (t : Bollinger Micros) × (((micro_float.is_finite (euros 4) ≡ true)
        × (update new_bands (euros 4) ≡ (t, ok tt))
        × Banded new_bands (euros 4) t)
      ⊎ ((micro_float.is_finite (euros 4) ≡ false)
          × (update new_bands (euros 4) ≡ (t, err invalid_close))
          × (t ≡ record new_bands { last_close = euros 4 })))
update-Banded_example =
    Bands.update-Banded new_bands (euros 4) (record {
      storage = refl;
      small = omega arith;
      head_in = omega arith;
      count_in = omega arith;
    })

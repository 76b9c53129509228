-- ===== src/Core/Tests.antt =====
-- Runs of the constructors of core/, over signed millionths.
use chrono_trade.Common.{◌≡◌, ◌↔◌, refl, some}
use chrono_trade.Common.Int.{pos, negsuc}
use chrono_trade.Common.Result.{ok, err}
use chrono_trade.Common.Float.{Micros, micro_float, Micros-IsOrdered}
use chrono_trade.Core.Order
use chrono_trade.Core.Order.{Order}
use chrono_trade.Core.Candlestick.{Candlestick}
use chrono_trade.Core.AuthFlags.{from_string, invalid_auth_flags}

-- 101.5 at amount 2.0.
abbrev sample : Order Micros
sample = record {
  price = some (pos 101_500_000);
  amount = some (pos 2_000_000);
  timestamp = pos 1_725_000_001;
}

make-sample : Order.make sample.price sample.amount sample.timestamp ≡ ok sample
unfolding Order.make
make-sample = refl

make_negative :
    Order.make (some (negsuc 4)) sample.amount sample.timestamp ≡ err Order.price_out_of_bounds
unfolding Order.make
make_negative = refl

make_iff_example : (Order.make sample.price sample.amount sample.timestamp ≡ ok sample) ↔ (
    Order.IsValid sample
    × (sample.price ≡ sample.price)
    × (sample.amount ≡ sample.amount)
    × (sample.timestamp ≡ sample.timestamp))
make_iff_example =
    Order.make_iff Micros-IsOrdered sample.price sample.amount sample.timestamp sample

abbrev candle : Candlestick Micros
candle = record {
  opening = some (pos 100);
  high = some (pos 110);
  low = some (pos 90);
  close = some (pos 105);
  volume = some (pos 7);
  start_time = pos 10;
  end_time = pos 20;
}

from_string_unknown : from_string "trusted" ≡ err (invalid_auth_flags "trusted")
unfolding from_string
from_string_unknown = refl

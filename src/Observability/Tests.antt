-- ===== src/Observability/Tests.antt =====
-- Counters on a few calls.
use chrono_trade.Common.{◌≡◌, refl, List, [], ◌∷◌}
use chrono_trade.Observability.{increment_metric, get_metric}
use chrono_trade.Observability.Counts.{Use, increments, reads, after_all}

abbrev calls : List Use
calls = increments "orders" ∷ reads "late" ∷ increments "late" ∷ increments "orders" ∷ []

two_orders : (get_metric "orders" (after_all calls [])).0 ≡ 2
unfolding get_metric increment_metric
two_orders = refl

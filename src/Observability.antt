-- ===== src/Observability.antt =====
-- observability/Observability.hpp: named counters. The mutex makes each call one step; `trace` and
-- `validateLogIntegrity`, which only log, are left out.
pub mod Counts
mod Tests
use Prim.Native.String.{String}
use text.Mathlib.Text.{◌==◌}
use chrono_trade.Common.{ℕ, ◌+◌, ◌%◌, ◌^◌, List, [], ◌∷◌, if◌then◌else◌}

-- `std::map<std::string, uint64_t>`
abbrev pub Metrics : Type 0
Metrics = List (String × ℕ)

-- `++metrics_[name]`
unfoldable pub increment_metric : String → Metrics → Metrics
increment_metric name [] = (name, 1) ∷ []
increment_metric name ((k, v) ∷ m) =
    if k == name then (k, (v + 1) % 2 ^ 64) ∷ m else (k, v) ∷ increment_metric name m

-- `metrics_[name]`, which makes a counter that is not there: its value, and the counters then.
unfoldable pub get_metric : String → Metrics → ℕ × Metrics
get_metric name [] = (0, (name, 0) ∷ [])
get_metric name ((k, v) ∷ m) =
    let (n, rest) = get_metric name m in if k == name then (v, (k, v) ∷ m) else (n, (k, v) ∷ rest)

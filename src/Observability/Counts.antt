-- ===== src/Observability/Counts.antt =====
-- What the counters say after any run of calls.
use Prim.Native.String.{String}
use text.Mathlib.Text.{◌==◌}
use text.Mathlib.TextEquality.{eq_iff}
use chrono_trade.Common.{ℕ, ◌+◌, ◌%◌, ◌^◌, ◌<◌, ◌≡◌, ◌∙◌, ap, List, [], ◌∷◌, if◌then◌else◌, arith}
use chrono_trade.Observability.{Metrics, increment_metric, get_metric}

-- A call of a client.
pub data Use : Type 0 where
  increments reads : String → Use

abbrev pub after : Use → Metrics → Metrics
after (increments name) m = increment_metric name m
after (reads name) m = (get_metric name m).1

abbrev pub after_all : List Use → Metrics → Metrics
after_all [] m = m
after_all (u ∷ us) m = after_all us (after u m)

-- How often a counter is incremented.
abbrev pub count : String → List Use → ℕ
count name [] = 0
count name (increments k ∷ us) = (if k == name then 1 else 0) + count name us
count name (reads k ∷ us) = count name us

abbrev reading : String → Metrics → ℕ
reading name m = (get_metric name m).0

reading-increment_metric :
    (name k : String) (m : Metrics)
    → reading name (increment_metric k m)
      ≡ (if k == name then (reading name m + 1) % 2 ^ 64 else reading name m)
unfolding increment_metric get_metric
reading-increment_metric name k [] = ground (arith, eq_iff k name)
reading-increment_metric name k ((j, v) ∷ m) =
    ground (arith, eq_iff k name, eq_iff j k, eq_iff j name, reading-increment_metric name k m)

-- A reading makes no difference to any counter.
reading-get_metric :
    (name k : String) (m : Metrics) → reading name (get_metric k m).1 ≡ reading name m
unfolding get_metric
reading-get_metric name k [] = ground (arith, eq_iff k name)
reading-get_metric name k ((j, v) ∷ m) =
    ground (arith, eq_iff k name, eq_iff j k, eq_iff j name, reading-get_metric name k m)

added : (n r c : ℕ) → (r + n) % 2 ^ 64 ≡ c → c ≡ (n + r) % 2 ^ 64
added n r c e = omega arith

counted :
    (name : String) (us : List Use) (m : Metrics)
    → reading name m < 2 ^ 64
    → reading name (after_all us m) ≡ (count name us + reading name m) % 2 ^ 64
counted name [] m h = omega arith
counted name (increments k ∷ us) m h =
    grind (arith, reading-increment_metric name k m, counted name us (increment_metric k m))
counted name (reads k ∷ us) m h =
    let e = reading-get_metric name k m in
    counted name us (get_metric k m).1 (omega (arith, e)) ∙ ap (λ r. (count name us + r) % 2 ^ 64) e

-- Whatever calls are made on new counters, a counter reads as how often it was incremented, modulo
-- 2^64: neither the order of the calls nor those for other counters nor readings matter.
get_metric-after_all :
    (name : String) (us : List Use) → (get_metric name (after_all us [])).0 ≡ count name us % 2 ^ 64
unfolding get_metric
get_metric-after_all name us = counted name us [] (omega arith) ∙ omega arith

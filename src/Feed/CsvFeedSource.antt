-- ===== src/Feed/CsvFeedSource.antt =====
-- feed/CSVFeedSource.hpp: a file of orders, one on a line, is read into the shared queue. `stod` is
-- `std::stod`: the value and the bytes that it did not read, or `none` where it throws. The delay,
-- the file and the stamina figures are left out; the lines are those read before the stop flag is
-- set.
pub mod Monotonic
pub mod Blocked
use chrono_trade.Common.{
  ℕ, ◌+◌, Bool, true, false, not, ◌&&◌, ◌||◌, Option, none, some, List, [], ◌∷◌, ◌++◌, leb, ltb,
  if◌then◌else◌,
}
use chrono_trade.Common.Int.{ℤ, pos, leb_ℤ}
use chrono_trade.Common.Result.{ok, err}
use chrono_trade.Common.Float.{Float}
use chrono_trade.Core.Order
use chrono_trade.Core.Order.{Order}
use chrono_trade.Feed.Hashes.{Hashing, compare_hashes}
use chrono_trade.Feed.Text.{tokens, stoll}

-- What `run` keeps and shares: its locals, the queue, the counters of `FeedTelemetry` and the hash log.
pub record Reader (W : Type 0) : Type 0 where
  pub last_ts : ℤ
  pub out_queue : List (Order W)
  pub orders_received : ℕ
  pub anomalies : ℕ
  pub hash_log : List (List ℕ)
  local_count : ℕ

abbrev pub is_ascii_printable : List ℕ → Bool
is_ascii_printable [] = true
is_ascii_printable (c ∷ cs) = not (ltb c 32 || ltb 126 c) && is_ascii_printable cs

-- `end != field.size()`
abbrev unread : List ℕ → Bool
unread [] = false
unread (_ ∷ _) = true

module _ {W : Type 0} ⦃f : Float W⦄ (stod : List ℕ → Option (W × List ℕ)) where
  -- A field that is wholly a finite number above zero.
  abbrev positive_number : List ℕ → Option W
  positive_number field = elim (stod field) [
    | none ↦ none
    | some (x, rest) ↦
        if unread rest || not (f.is_finite x) || f.le x (f.lit 0 0) then none else some x
  ]

  abbrev positive_time : List ℕ → Option ℤ
  positive_time field = elim (stoll field) [
    | none ↦ none
    | some (ts, rest) ↦ if unread rest || leb_ℤ ts (pos 0) then none else some ts
  ]

  abbrev read_fields : List ℕ → List ℕ → List ℕ → Option (W × W × ℤ)
  read_fields price_text amount_text time_text = elim (positive_number price_text) [
    | none ↦ none
    | some price ↦ elim (positive_number amount_text) [
      | none ↦ none
      | some amount ↦ elim (positive_time time_text) [
        | none ↦ none
        | some ts ↦ some (price, amount, ts)
      ]
    ]
  ]

  unfoldable pub parse_line : List ℕ → Option (W × W × ℤ)
  parse_line line = if not (is_ascii_printable line) then none else elim (tokens b',' [] line) [
    | [] ↦ none
    | a ∷ [] ↦ none
    | a ∷ b ∷ [] ↦ none
    | a ∷ b ∷ c ∷ [] ↦ read_fields a b c
    | a ∷ b ∷ c ∷ d ∷ more ↦ none
  ]

module _ {W : Type 0} where
  abbrev anomaly : Reader W → Reader W
  anomaly r = record r { anomalies = r.anomalies + 1 }

module _ {W : Type 0} ⦃f : Float W⦄ (stod : List ℕ → Option (W × List ℕ))
    (hashing : Hashing W) where
  -- The `try` block: the order is constructed and pushed, or the exception is counted.
  unfoldable pub push_order : Reader W → List ℕ → W → W → ℤ → Reader W
  push_order r line price amount ts = elim (Order.make price amount ts) [
    | err e ↦ anomaly r
    | ok o ↦ record r {
      out_queue = r.out_queue ++ (o ∷ []);
      orders_received = r.orders_received + 1;
      hash_log = compare_hashes hashing line o r.hash_log;
      local_count = r.local_count + 1;
    }
  ]

  -- The body of the loop of `run`.
  unfoldable pub read_line : Reader W → List ℕ → Reader W
  unfolding push_order
  read_line r line = elim (parse_line stod line) [
    | none ↦ anomaly r
    | some (price, amount, ts) ↦
        if leb_ℤ ts r.last_ts
        then anomaly r
        else push_order (record r { last_ts = ts }) line price amount ts
  ]

  unfoldable pub read_lines : Reader W → List (List ℕ) → Reader W
  read_lines r [] = r
  read_lines r (line ∷ lines) = read_lines (read_line r line) lines

  -- `run` on a file of these lines, with what the queue, the counters and the log hold before.
  unfoldable pub run : List (Order W) → ℕ → ℕ → List (List ℕ) → List (List ℕ) → Reader W
  unfolding read_lines
  run queue received bad log lines =
      read_lines
        (record {
          last_ts = pos 0;
          out_queue = queue;
          orders_received = received;
          anomalies = bad;
          hash_log = log;
          local_count = 0;
        })
        lines

-- ===== src/Feed/SourceTests.antt =====
-- Runs of the order sources on short texts, with doubles as millionths, and the properties applied
-- to them.
use chrono_trade.Common.{
  ℕ, ◌+◌, ◌*◌, ◌≡◌, refl, Option, none, some, List, [], ◌∷◌, ◌++◌, length, map, if◌then◌else◌,
}
use chrono_trade.Common.Int.{pos}
use chrono_trade.Common.Float.{Micros, micro_float, Micros-IsOrdered}
use chrono_trade.Core.Order
use chrono_trade.Core.Order.{Order}
use chrono_trade.Feed.Text.{bytes, digits, is_digit, tokens, stoll}
use chrono_trade.Security.FeedHashLogger.{compute_sha256, log_packet, log_anomaly}
use chrono_trade.Feed.Hashes.{Hashing, entry_of}
use chrono_trade.Feed.CsvFeedSource.{parse_line, read_line, run}
use chrono_trade.Feed.CsvFeedSource.Monotonic.{Increasing, Picks}
use chrono_trade.Feed.CsvFeedSource.Monotonic
use chrono_trade.Feed.CsvOrderParser
use chrono_trade.Feed.CsvOrderParser.{Answers, reading, parse, placeholder}
use chrono_trade.Core.AuthFlags.{suspicious}
use chrono_trade.Common.Result.{ok}

-- Whole numbers only.
abbrev pub stod : List ℕ → Option (Micros × List ℕ)
stod [] = none
stod (c ∷ cs) =
    let (n, rest) = digits 0 (c ∷ cs) in
    if is_digit c then some (some (pos (n * 1_000_000)), rest) else none

abbrev good : List ℕ
good = bytes "101,2,1725000001"

abbrev early : List ℕ
early = bytes "101,2,1725000000"

abbrev late : List ℕ
late = bytes "101,2,3000000000"

-- The hash of a text is its length, and an order is printed as 16 bytes.
abbrev hashing : Hashing Micros
hashing = record {
  sha256 = λ text. length text ∷ [];
  to_string = λ o. bytes "101,2,1725000001";
  source_tag = bytes "SRC_CSV_f";
}

run_lines : length (run stod hashing [] 0 0 [] (good ∷ early ∷ bytes "1,2" ∷ [])).out_queue ≡ 1
unfolding run digits read_line parse_line tokens stoll Order.make
run_lines = refl

-- The third line has the length of its printed order, and the first a time that is not above 0.
csv_log :
    (run stod hashing [] 0 0 [] (bytes "1,1,0" ∷ bytes "9,9,1725000000" ∷ good ∷ [])).hash_log
    ≡ bytes "[ANOMALY] [SRC_CSV_f] Expected=0e Got=10"
      ∷ bytes "[FEED] [SRC_CSV_f] SHA256=10 line=101,2,1725000001"
      ∷ []
unfolding run digits read_line parse_line tokens stoll Order.make compute_sha256 log_packet
    log_anomaly
csv_log = refl

run_accounts_example :
    let r = run stod hashing [] 0 0 [] (early ∷ late ∷ good ∷ []) in
    (read : List (List ℕ × Order Micros)) × Picks stod read (early ∷ late ∷ good ∷ [])
    × Increasing (pos 0) (map (λ p. p.1) read)
    × (r.out_queue ≡ [] ++ map (λ p. p.1) read)
    × (r.orders_received ≡ 0 + length read)
    × (r.orders_received + r.anomalies ≡ 0 + 0 + 3)
    × (r.hash_log ≡ [] ++ map (entry_of hashing) read)
run_accounts_example =
    Monotonic.run_accounts stod hashing Micros-IsOrdered [] 0 0 [] (early ∷ late ∷ good ∷ [])

parse-Answers_example : Answers (reading stod good) (parse stod good)
parse-Answers_example = CsvOrderParser.parse-Answers stod Micros-IsOrdered good

parse_high_price : parse stod (bytes "2000000,1,1725000001") ≡ ok (placeholder, suspicious)
unfolding parse digits tokens stoll Order.make
parse_high_price = refl

-- ===== src/Feed/InjectorTests.antt =====
-- A file of three lines for the injector, the second of which is no JSON.
use chrono_trade.Common.{ℕ, ◌*◌, ◌++◌, ◌≡◌, refl, false, Option, none, some, List, [], ◌∷◌, length}
use chrono_trade.Common.Float.{Micros, micro_float}
use chrono_trade.Common.Int.{pos}
use chrono_trade.Common.Result.{ok, err}
use chrono_trade.Core.AuthFlags.{from_string}
use chrono_trade.Core.Order
use chrono_trade.Core.Order.{Order}
use chrono_trade.Feed.Text.{bytes}
use chrono_trade.Security.FeedHashLogger.{compute_sha256, log_packet, log_anomaly}
use chrono_trade.Feed.Hashes.{Hashing}
use chrono_trade.Feed.FeedInjector.{JsonReader, Injector, run}
use chrono_trade.Feed.FeedInjector.Injected
use chrono_trade.Feed.FeedInjector.Injected.{Injected}

abbrev parsed : List ℕ → Option ℕ
parsed [] = none
parsed (c ∷ cs) = some c

-- The first byte stands for the price and the amount.
abbrev json : JsonReader ℕ Micros
json = record {
  parse = parsed;
  double_at = λ j key. some (some (pos (j * 1_000_000)));
  int_at = λ j key. some (pos 1_725_000_000);
  string_at = λ j key. none;
  contains = λ j key. false;
  string_or = λ j key default. some default;
}

-- The hash is the length.
abbrev hash : List ℕ → List ℕ
hash text = length text ∷ []

abbrev printed : Order Micros → List ℕ
printed o = bytes "1,1,1"

abbrev hashing : Hashing Micros
hashing = record { sha256 = hash; to_string = printed; source_tag = bytes "SRC_INJECTOR" }

abbrev nothing_yet : Injector Micros
nothing_yet = record {
  sink = record { out_queue = []; orders_received = 0; anomalies = 0 };
  hash_log = [];
  slept = 0;
}

abbrev file : List (List ℕ)
file = (7 ∷ []) ∷ [] ∷ (8 ∷ 8 ∷ 8 ∷ 8 ∷ 8 ∷ []) ∷ []

-- Only the third line has the hash of its order.
injector_log :
    elim (run json hashing nothing_yet (some file)) [ err e ↦ [] | ok t ↦ t.hash_log ]
    ≡ bytes "[ANOMALY] [SRC_INJECTOR] Expected=01 Got=05"
      ∷ (bytes "[FEED] [SRC_INJECTOR] SHA256=05 line=" ++ (8 ∷ 8 ∷ 8 ∷ 8 ∷ 8 ∷ []))
      ∷ []
unfolding run compute_sha256 from_string Order.make log_packet log_anomaly
injector_log = refl

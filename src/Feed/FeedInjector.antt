-- ===== src/Feed/FeedInjector.antt =====
-- feed/FeedInjector.hpp: a file of JSON lines is read into the shared queue. The JSON library is a
-- parameter: what the code asks of it, with `none` where a call throws. So are the hash function and
-- the printing of an order. The lines are those read before the stop flag is set, and the calls of
-- the logger are left out.
pub mod Injected
use Prim.Native.String.{String}
use chrono_trade.Common.{
  ℕ, ◌+◌, Bool, true, false, not, if◌then◌else◌, Option, none, some, List, [], ◌∷◌, ◌++◌,
}
use chrono_trade.Common.Int.{ℤ, pos, negsuc}
use chrono_trade.Common.Result.{Result, ok, err}
use chrono_trade.Common.Float.{Float}
use chrono_trade.Core.AuthFlags.{AuthFlags, from_string}
use chrono_trade.Core.Order
use chrono_trade.Core.Order.{Order}
use chrono_trade.Feed.SocketFeedSource.{Sink}
use chrono_trade.Feed.Text.{bytes}
use chrono_trade.Feed.Hashes.{Hashing, compare_hashes}

-- `nlohmann::json`: `parse`, `at` with the conversion to a type, `contains`, and `value`.
pub record JsonReader (J W : Type 0) : Type 0 where
  pub parse : List ℕ → Option J
  pub double_at : J → String → Option W
  pub int_at : J → String → Option ℤ
  pub string_at : J → String → Option String
  pub contains : J → String → Bool
  pub string_or : J → String → String → Option String

-- What `parse_json_line` fills in.
pub record Parsed (W : Type 0) : Type 0 where
  pub order : Order W
  pub auth : AuthFlags
  pub delay : ℤ
  pub tag : String

abbrev and_then {ℓ κ} : {A : Type ℓ} {B : Type κ} → Option A → (A → Option B) → Option B
and_then none k = none
and_then (some a) k = k a

module _ {J W : Type 0} ⦃f : Float W⦄ (json : JsonReader J W) where
  abbrev tag_of : J → Option String
  tag_of j = elim (json.contains j "tag") [ true ↦ json.string_at j "tag" | false ↦ some "" ]

  abbrev delay_of : J → Option ℤ
  delay_of j = elim (json.contains j "delay_ms") [
    | true ↦ json.int_at j "delay_ms"
    | false ↦ some (pos 0)
  ]

  abbrev auth_of : J → Option AuthFlags
  auth_of j =
      and_then (json.string_or j "auth" "TRUSTED")
        (λ s. elim (from_string s) [ ok a ↦ some a | err e ↦ none ])

  -- `none` where it returns false.
  unfoldable pub parse_json_line : List ℕ → Option (Parsed W)
  parse_json_line line = and_then (json.parse line) (λ j.
      and_then (json.double_at j "price") (λ price. and_then (json.double_at j "amount") (λ amount.
        and_then (json.int_at j "timestamp") (λ ts. and_then (tag_of j) (λ tag.
          and_then (delay_of j) (λ delay. and_then (auth_of j) (λ auth.
            elim (Order.make price amount ts) [
              | err e ↦ none
              | ok o ↦ some (record { order = o; auth = auth; delay = delay; tag = tag })
            ])))))))

-- What `run` shares: the queue and the counters, the hash log, and the milliseconds slept.
pub record Injector (W : Type 0) : Type 0 where
  pub sink : Sink W
  pub hash_log : List (List ℕ)
  pub slept : ℕ

pub data InjectorError : Type 0 where
  cannot_open : InjectorError

-- `if (delay > 0) sleep_for(...)`
abbrev pub delayed : ℤ → ℕ
delayed (pos n) = n
delayed (negsuc n) = 0

module _ {J W : Type 0} ⦃f : Float W⦄ (json : JsonReader J W) (hashing : Hashing W) where
  -- The body of the loop of `run`.
  unfoldable pub inject : Injector W → List ℕ → Injector W
  unfolding parse_json_line
  inject s line = elim (parse_json_line json line) [
    | none ↦ record s { sink = record s.sink { anomalies = s.sink.anomalies + 1 } }
    | some p ↦ record {
      sink = record s.sink {
        out_queue = s.sink.out_queue ++ (p.order ∷ []);
        orders_received = s.sink.orders_received + 1;
      };
      hash_log = compare_hashes hashing line p.order s.hash_log;
      slept = s.slept + delayed p.delay;
    }
  ]

  abbrev pub inject_all : Injector W → List (List ℕ) → Injector W
  inject_all s [] = s
  inject_all s (line ∷ lines) = inject_all (inject s line) lines

  -- `run` on a file, or where `reset_stream` cannot open it.
  unfoldable pub run : Injector W → Option (List (List ℕ)) → Result InjectorError (Injector W)
  unfolding inject
  run s none = err cannot_open
  run s (some lines) = ok (inject_all s lines)

-- ===== src/Feed/SocketFeedSource.antt =====
-- feed/SocketFeedSource.hpp: a client's stream of JSON lines becomes orders in the shared queue. The
-- socket calls are a script of their outcomes, one for each round of the loop of `run`. `stod` is
-- `std::stod`. The sleeps are left out; the sockets themselves are in Server.
pub mod Stream
pub mod Run
pub mod Json
pub mod Server
pub mod Closed
use chrono_trade.Common.{
  ℕ, suc, zero, ◌+◌, Bool, true, false, not, ◌&&◌, Option, none, some, List, [], ◌∷◌, ◌++◌, ◌==◌,
  length, if◌then◌else◌,
}
use chrono_trade.Common.Result.{ok, err}
use chrono_trade.Common.Float.{Float}
use chrono_trade.Core.Order
use chrono_trade.Core.Order.{Order}
use chrono_trade.Feed.Text.{bytes, cut, stoll, find_behind, up_to}

-- The queue and the counters that the source shares with its owner.
pub record Sink (W : Type 0) : Type 0 where
  pub out_queue : List (Order W)
  pub orders_received : ℕ
  pub anomalies : ℕ

-- `connected` is `sock_fd_ != -1`.
pub record Source (W : Type 0) : Type 0 where
  pub connected : Bool
  pub partial_line : List ℕ
  pub sink : Sink W

-- What `recv` answers: at least one byte, the end of the stream, nothing for now, or an error.
pub data Recv : Type 0 where
  bytes_read : ℕ → List ℕ → Recv
  closed would_block failed : Recv

-- A round: whether a client waits to be accepted, and what `recv` would answer.
pub record Event : Type 0 where
  pub accepts : Bool
  pub received : Recv

-- `if (!line.empty() && line.back() == '\r') line.pop_back();`
abbrev pub strip_cr : List ℕ → List ℕ
strip_cr [] = []
strip_cr (c ∷ []) = if c == b'\r' then [] else c ∷ []
strip_cr (c ∷ d ∷ rest) = c ∷ strip_cr (d ∷ rest)

module _ {W : Type 0} where
  unfoldable pub close_client_connection : Source W → Source W
  close_client_connection s = record s { connected = false }

  reset_for_restart : Source W → Source W
  reset_for_restart s = record s { partial_line = [] }

module _ {W : Type 0} ⦃f : Float W⦄ (stod : List ℕ → Option (W × List ℕ)) where
  -- The three conversions and the constructor; `none` where one of them throws.
  unfoldable pub order_of : List ℕ → List ℕ → List ℕ → Option (Order W)
  order_of price_text amount_text time_text = elim (stod price_text) [
    | none ↦ none
    | some (price, _) ↦ elim (stod amount_text) [
      | none ↦ none
      | some (amount, _) ↦ elim (stoll time_text) [
        | none ↦ none
        | some (timestamp, _) ↦ elim (Order.make price amount timestamp) [
          | ok o ↦ some o
          | err e ↦ none
        ]
      ]
    ]
  ]

  unfoldable pub parse_json_order : List ℕ → Option (Order W)
  unfolding order_of
  parse_json_order line = elim (find_behind (bytes "\"price\":") line) [
    | none ↦ none
    | some price ↦ elim (find_behind (bytes "\"amount\":") line) [
      | none ↦ none
      | some amount ↦ elim (find_behind (bytes "\"timestamp\":") line) [
        | none ↦ none
        | some timestamp ↦
            order_of (up_to b',' b'}' price) (up_to b',' b'}' amount) (up_to b'}' b',' timestamp)
      ]
    ]
  ]

  unfoldable pub process_line : Sink W → List ℕ → Sink W
  unfolding parse_json_order
  process_line s [] = s
  process_line s (c ∷ cs) = elim (parse_json_order (c ∷ cs)) [
    | none ↦ record s { anomalies = s.anomalies + 1 }
    | some o ↦ record s {
      out_queue = s.out_queue ++ (o ∷ []);
      orders_received = s.orders_received + 1;
    }
  ]

  -- The `while` loop over the data, with `fuel` rounds at most.
  unfoldable pub process_data : ℕ → Source W → List ℕ → Source W
  unfolding process_line
  process_data zero s text = s
  process_data (suc fuel) s [] = s
  process_data (suc fuel) s (c ∷ cs) = elim (cut b'\n' (c ∷ cs)) [
    | none ↦ record s { partial_line = c ∷ cs }
    | some (line, rest) ↦
        process_data fuel (record s { sink = process_line s.sink (strip_cr line) }) rest
  ]

  -- `read_and_process`: the source, and whether the connection lives on.
  unfoldable pub read_and_process : Source W → Recv → Source W × Bool
  unfolding process_data
  read_and_process s (bytes_read c cs) =
      let text = s.partial_line ++ (c ∷ cs) in
      (process_data (length text) (record s { partial_line = [] }) text, true)
  read_and_process s closed = (s, false)
  read_and_process s would_block = (s, true)
  read_and_process s failed = (s, false)

  -- A round of the loop of `run`.
  unfoldable pub run_round : Source W → Event → Source W
  unfolding read_and_process close_client_connection
  run_round s e =
      if not s.connected && not e.accepts
      then s
      else (let (t, alive) = read_and_process (record s { connected = true }) e.received in
          if alive then t else close_client_connection t)

  unfoldable pub run : Source W → List Event → Source W
  unfolding run_round
  run s [] = s
  run s (e ∷ es) = run (run_round s e) es

-- ===== src/Feed/SocketTests.antt =====
-- Runs of the socket source, and its properties applied to them.
use chrono_trade.Common.{ℕ, ◌≡◌, refl, true, false, some, List, [], ◌∷◌}
use chrono_trade.Common.Float.{Micros, micro_float}
use chrono_trade.Feed.Text.{bytes, cut}
use chrono_trade.Feed.SourceTests.{stod}
use chrono_trade.Feed.SocketFeedSource.{
  Source, Event, Recv, bytes_read, closed, would_block, run, run_round, read_and_process,
  process_data,
}
use chrono_trade.Feed.Descriptors.{opens, closes, reads, obey_all}
use chrono_trade.Feed.SocketFeedSource.Server.{ready, read_round, session_round, session, lifetime}
use chrono_trade.Feed.SocketFeedSource.Closed
use chrono_trade.Feed.SocketFeedSource.Stream.{on_bytes}
use chrono_trade.Feed.SocketFeedSource.Run
use chrono_trade.Feed.SocketFeedSource.Run.{told, heard}
use chrono_trade.Feed.SocketFeedSource.Json

abbrev idle : Source Micros
idle = record {
  connected = false;
  partial_line = [];
  sink = record { out_queue = []; orders_received = 0; anomalies = 0 };
}

abbrev event : Recv → Event
event r = record { accepts = true; received = r }

-- A line cut into two reads, with the end of a connection between them.
abbrev two_connections : List Event
two_connections =
    event (bytes_read b'{' (bytes "\"price\":101,\"amount\":2,"))
    ∷ event closed
    ∷ event (bytes_read b'"' (bytes "timestamp\":1725000001}\n"))
    ∷ []

run-heard_example :
    told (run stod idle two_connections) ≡ told (on_bytes stod idle (heard false two_connections))
unfolding cut
run-heard_example = Run.run-heard stod idle two_connections refl

-- The two connections on descriptors 7 and 8, above the listening socket 4.
abbrev rounds : List (ℕ × Event)
rounds =
    (7, event (bytes_read b'{' (bytes "\"price\":101,")))
    ∷ (9, event closed)
    ∷ (8, record { accepts = false; received = closed })
    ∷ (8, event would_block)
    ∷ []

sockets :
    lifetime stod (ready 4) idle rounds
    ≡ opens 4
      ∷ opens 7
      ∷ reads 7
      ∷ reads 7
      ∷ closes 7
      ∷ opens 8
      ∷ reads 8
      ∷ closes 8
      ∷ closes 4
      ∷ []
unfolding lifetime session session_round read_round run_round read_and_process process_data cut
sockets = refl

lifetime-closes_example : obey_all (lifetime stod (ready 4) idle rounds) (1 ∷ []) ≡ some (1 ∷ [])
lifetime-closes_example =
    Closed.lifetime-closes stod (1 ∷ []) (ready 4) idle rounds refl
      (refl, (refl, (refl, (refl, tt))))

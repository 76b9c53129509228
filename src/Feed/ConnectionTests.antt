-- ===== src/Feed/ConnectionTests.antt =====
-- The sockets of the proxy on small inputs.
use chrono_trade.Common.{◌+◌, ◌≡◌, true, false, refl, Option, none, some, List, [], ◌∷◌, length}
use chrono_trade.Common.Float.{Micros, micro_float}
use chrono_trade.Common.Int.{pos}
use chrono_trade.Feed.Text.{bytes}
use chrono_trade.Feed.TcpLatencyProxy.Send.{accepted, done, success, send_loop}
use chrono_trade.Feed.TcpLatencyProxy.Pipe.{end_of_stream, proxy_pipe, pipe_round}
use chrono_trade.Feed.Descriptors.{
  opens, connects, closes, shuts_down, reads, writes, starts, joins,
}
use chrono_trade.Feed.TcpLatencyProxy.Sockets.{finish_pair}
use chrono_trade.Feed.TcpLatencyProxy.Dial.{
  Target, no_socket, socket, at_once, refused, in_progress, writable, dial_loop, dial, Address,
  inet, inet6, bind_fails, listens, bind_loop, listen_on,
}
use chrono_trade.Feed.TcpLatencyProxy.Http.{looks_like_http, shows, k503, drain_with_poll}
use chrono_trade.Feed.TcpLatencyProxy.Http.Speaks
use chrono_trade.Feed.TcpLatencyProxy.Http.Speaks.{Speaks}
use chrono_trade.Feed.TcpLatencyProxy.Connection.{
  ◌then◌, Visitor, greet, give_up, ConnectionConfig, Traffic, Outside, serve, handle_connection,
}
use chrono_trade.Feed.TcpLatencyProxy.Connection.Closed
use chrono_trade.Feed.TcpLatencyProxy.Connection.Closed.{Takes}

-- The second candidate connects; its number is free again.
abbrev targets : List Target
targets =
    no_socket ∷ socket 7 refused ∷ socket 7 (in_progress (writable true)) ∷ socket 8 at_once ∷ []

dialled :
    dial (some targets) ≡ (opens 7 ∷ connects 7 ∷ closes 7 ∷ opens 7 ∷ connects 7 ∷ [], some 7)
unfolding dial dial_loop
dialled = refl

abbrev addresses : List Address
addresses =
    record { family = inet; binding = listens 4 }
    ∷ record { family = inet6; binding = bind_fails 4 }
    ∷ []

listened : listen_on (some addresses) ≡ (opens 4 ∷ closes 4 ∷ opens 4 ∷ [], some 4)
unfolding listen_on bind_loop
listened = refl

lengths_declared :
    (length k503 ≡ length (bytes "Upstream Unavailable") + 116)
    × (length (bytes "Upstream Unavailable") ≡ 20)
    × (length (bytes "Rate limit hit.\n") ≡ 16)
lengths_declared = (refl, refl, refl)

abbrev visitor : Visitor
visitor = record {
  peek = shows b'G' (bytes "ET / HTTP/1.1");
  script = record { now = 0; answer = accepted 999; readings = [] } ∷ [];
  rounds = record { elapsed = 0; readable = false; received = none } ∷ [];
}

abbrev nothing : Micros
nothing = some (pos 0)

abbrev config : ConnectionConfig Micros
config = record {
  pipe = record {
    latency_ms = 0;
    rates = record { drop_rate = nothing; dup_rate = nothing };
    bandwidth_kbps = 0;
    enable_burst = false;
    burst_seconds = 2;
  };
  dirs = record { up = true; down = false };
  idle_timeout_sec = 300;
  http_friendly_errors = true;
  rst_on_upstream_connect_fail = false;
  rst_on_midstream_errors = false;
  half_close = true;
}

-- The client says nothing and ends its stream.
abbrev silent_client : Traffic Micros
silent_client = record {
  events = end_of_stream ∷ [];
  draws = λ i j. (nothing, nothing);
  pipe = record {
    passage = record {
      stop = done success;
      script = [];
      limit = none;
      wire = [];
      stats = record { bytes_sent = 0; packets_dropped = 0; packets_duplicated = 0 };
    };
    bytes_received = 0;
  };
}

abbrev outside : Option (List Target) → Outside Micros
outside ts = record {
  targets = ts;
  visitor = visitor;
  up = silent_client;
  down = silent_client;
  ticks = record { stop = true; running = true; now = 9; up_last = 9; down_last = 9 } ∷ [];
}

served :
    (handle_connection config 5 (outside (some targets))).calls
    ≡ opens 7
      ∷ connects 7
      ∷ closes 7
      ∷ opens 7
      ∷ connects 7
      ∷ starts 5 7
      ∷ shuts_down 5
      ∷ joins 5 7
      ∷ shuts_down 7
      ∷ shuts_down 5
      ∷ closes 7
      ∷ closes 5
      ∷ []
unfolding handle_connection serve dial dial_loop ◌then◌ proxy_pipe pipe_round finish_pair
served = refl

turned_down :
    (handle_connection config 5 (outside none)).calls
    ≡ reads 5 ∷ writes 5 k503 ∷ shuts_down 5 ∷ reads 5 ∷ shuts_down 5 ∷ closes 5 ∷ []
unfolding handle_connection give_up greet dial ◌then◌ send_loop looks_like_http drain_with_poll
turned_down = refl

handle_connection-Takes_example :
    Takes (handle_connection config 5 (outside (some targets))) (5 ∷ 3 ∷ []) (3 ∷ [])
handle_connection-Takes_example =
    Closed.handle_connection-Takes config 5 (3 ∷ []) (outside (some targets))
      (tt, (refl, (refl, (refl, tt))))

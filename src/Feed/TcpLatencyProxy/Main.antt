-- ===== src/Feed/TcpLatencyProxy/Main.antt =====
-- feed/TCPLatencyProxy.cpp, `main`: the arguments, the listening socket, the accept loop with its
-- cleanup thread, and the end. The loop ends after the turns of the script, when a signal clears
-- `g_running`. What a connection does on its own sockets is in Connection.
pub mod Winding
pub mod Shutdown
use chrono_trade.Common.{
  ℕ, ◌+◌, ◌-◌, ◌^◌, ◌%◌, Bool, true, false, Option, none, some, List, [], ◌∷◌, ◌++◌, length,
  if◌then◌else◌,
}
use chrono_trade.Common.Int.{ℤ, pos, negsuc}
use chrono_trade.Common.Float.{Float}
use chrono_trade.Feed.Descriptors.{Call, closes}
use chrono_trade.Feed.TcpLatencyProxy.Args.{ProxyConfig, configure}
use chrono_trade.Feed.TcpLatencyProxy.Dial.{Address, listen_on}
use chrono_trade.Feed.TcpLatencyProxy.Accept.{
  Server, new_server, Turn, others, admit, spawn, accept_turn, accept_loop,
}

-- `static_cast<size_t>(cfg.max_connections)`
abbrev pub to_size : ℤ → ℕ
to_size (pos n) = n
to_size (negsuc n) = (2 ^ 64 - 1 - n) % 2 ^ 64

-- The end of the cleanup thread: all threads are joined, and the list is cleared.
abbrev pub final_cleanup : Server → Server
final_cleanup s = record s { connections = []; joined = s.joined + length s.connections }

-- When the final cleanup comes: behind the last turn; or before or behind the first block under the
-- mutex of a turn that had begun.
pub data Ending : Type 0 where
  behind_turns : Ending
  ahead_of_turn : Turn → Ending
  during_turn : Turn → Ending

unfoldable pub wind_up : ℕ → Server → Ending → Server
unfolding admit spawn accept_turn
wind_up max_connections s behind_turns = final_cleanup s
wind_up max_connections s (ahead_of_turn t) = accept_turn max_connections (final_cleanup s) t
wind_up max_connections s (during_turn t) =
    let (admitted, goes_on) = admit max_connections (others s t.before) t.fd t.now in
    let cleaned = final_cleanup (others admitted t.during) in
    if goes_on then spawn max_connections cleaned t.fd t.later else cleaned

-- What `main` returns, its calls on the listening socket, and the server at the end, if it came to
-- the accept loop.
pub record Finished : Type 0 where
  pub exit_code : ℕ
  pub calls : List Call
  pub server : Option Server

module _ {W : Type 0} (strtod : List ℕ → W × List ℕ) ⦃f : Float W⦄ (is_ipv4 : List ℕ → Bool) where
  abbrev pub serve_on : ProxyConfig W → List Call × Option ℕ → List Turn → Ending → Finished
  serve_on c (calls, none) turns ending = record { exit_code = 1; calls = calls; server = none }
  serve_on c (calls, some fd) turns ending = record {
    exit_code = 0;
    calls = calls ++ (closes fd ∷ []);
    server = some (
        wind_up (to_size c.max_connections)
          (accept_loop (to_size c.max_connections) new_server turns) ending);
  }

  unfoldable pub main : List (List ℕ) → Option (List Address) → List Turn → Ending → Finished
  unfolding configure listen_on wind_up
  main args addresses turns ending = elim (configure strtod is_ipv4 args) [
    | none ↦ record { exit_code = 1; calls = []; server = none }
    | some (c, d) ↦ serve_on c (listen_on addresses) turns ending
  ]

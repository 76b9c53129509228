-- ===== src/Feed/SocketFeedSource/Server.antt =====
-- feed/SocketFeedSource.hpp: the sockets of a source from its constructor to its destructor, beside
-- the rounds of `run`. `sock` is `sock_fd_` and `server` is `server_fd_`, `none` for -1. The options
-- of the sockets are left out.
use chrono_trade.Common.{ℕ, Option, none, some, List, [], ◌∷◌, ◌++◌, if◌then◌else◌}
use chrono_trade.Common.Float.{Float}
use chrono_trade.Feed.Descriptors.{Call, opens, closes, reads}
use chrono_trade.Feed.SocketFeedSource.{Source, Event, run_round}

-- What the calls of `setup_server` answer.
pub data Setup : Type 0 where
  no_socket : Setup
  options_fail bind_fails listen_fails ready : ℕ → Setup

-- The calls, and the listening socket; `none` where it throws.
abbrev pub setup_server : Setup → List Call × Option ℕ
setup_server no_socket = ([], none)
setup_server (options_fail fd) = (opens fd ∷ closes fd ∷ [], none)
setup_server (bind_fails fd) = (opens fd ∷ closes fd ∷ [], none)
setup_server (listen_fails fd) = (opens fd ∷ closes fd ∷ [], none)
setup_server (ready fd) = (opens fd ∷ [], some fd)

-- `close_client_connection`, and the closing of `server_fd_`.
abbrev pub close_if : Option ℕ → List Call
close_if none = []
close_if (some fd) = closes fd ∷ []

abbrev pub cleanup : Option ℕ → Option ℕ → List Call
cleanup sock server = close_if sock ++ close_if server

pub record Session (W : Type 0) : Type 0 where
  pub source : Source W
  pub sock : Option ℕ

module _ {W : Type 0} ⦃f : Float W⦄ (stod : List ℕ → Option (W × List ℕ)) where
  -- A round with the client on `fd`, which is closed when the connection has ended.
  unfoldable pub read_round : Session W → ℕ → Event → Session W × List Call
  unfolding run_round
  read_round s fd e =
      let t = run_round stod s.source e in
      if t.connected
      then (record { source = t; sock = some fd }, reads fd ∷ [])
      else (record { source = t; sock = none }, reads fd ∷ closes fd ∷ [])

  -- A round of `run`; `new` is the descriptor that `accept` would give.
  unfoldable pub session_round : Session W → ℕ → Event → Session W × List Call
  unfolding read_round
  session_round s new e = elim s.sock [
    | some fd ↦ read_round s fd e
    | none ↦
        let (t, calls) = read_round s new e in if e.accepts then (t, opens new ∷ calls) else (s, [])
  ]

  -- The rounds of `run`, and the destructor.
  unfoldable pub session : Option ℕ → Session W → List (ℕ × Event) → List Call
  unfolding session_round
  session server s [] = cleanup s.sock server
  session server s ((new, e) ∷ es) =
      let (t, calls) = session_round s new e in calls ++ session server t es

  -- A source from its constructor on; if that throws, there is no source to destroy.
  unfoldable pub lifetime : Setup → Source W → List (ℕ × Event) → List Call
  unfolding session
  lifetime setup source es =
      let (calls, server) = setup_server setup in
      elim server [
        | none ↦ calls
        | some fd ↦ calls ++ session (some fd) (record { source = source; sock = none }) es
      ]

-- ===== src/Feed/TcpLatencyProxy/Sockets.antt =====
-- feed/TCPLatencyProxy.cpp: `FdGuard`, `rst_close`, `graceful_half_close` and `finish_pair`, which end
-- sockets, as the calls that they make. A descriptor is `none` where the code holds -1. The options
-- that do not end a socket are left out.
use chrono_trade.Common.{
  ℕ, Bool, true, false, ◌&&◌, ◌||◌, Option, none, some, List, [], ◌∷◌, ◌++◌, if◌then◌else◌,
}
use chrono_trade.Feed.Descriptors.{Call, closes, shuts_down, lingers}
use chrono_trade.Feed.TcpLatencyProxy.Pipe.{PipeResult, pipe_ok, pipe_eof, pipe_error}

-- `~FdGuard`, and the closing of the old descriptor in `reset`.
abbrev pub guard_end : Option ℕ → List Call
guard_end none = []
guard_end (some fd) = closes fd ∷ []

-- `FdGuard::reset`: the calls, and what the guard then holds.
abbrev pub reset : Option ℕ → Option ℕ → List Call × Option ℕ
reset held new = (guard_end held, new)

-- `FdGuard::release`: what it held, and what it then holds.
abbrev pub release : Option ℕ → Option ℕ × Option ℕ
release held = (held, none)

abbrev pub rst_close : Option ℕ → List Call
rst_close none = []
rst_close (some fd) = lingers fd ∷ closes fd ∷ []

abbrev pub graceful_half_close : Option ℕ → List Call
graceful_half_close none = []
graceful_half_close (some fd) = shuts_down fd ∷ []

abbrev pub is_error : PipeResult → Bool
is_error pipe_ok = false
is_error pipe_eof = false
is_error pipe_error = true

-- The calls of `finish_pair`, which leaves -1 in both.
unfoldable pub finish_pair : Option ℕ → Option ℕ → PipeResult → PipeResult → Bool → Bool → List Call
finish_pair a b ra rb rst_on_error half_close =
    if (is_error ra || is_error rb) && rst_on_error
    then rst_close a ++ rst_close b
    else (if half_close then graceful_half_close a ++ graceful_half_close b else [])
      ++ (guard_end a ++ guard_end b)

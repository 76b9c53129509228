-- ===== src/Feed/TcpLatencyProxy/Connection.antt =====
-- feed/TCPLatencyProxy.cpp, `handle_connection`, and how the accept loop turns a client away. A run is
-- the calls that it makes, with whether it came to its end: it does not where the kernel, the clock or
-- a pipe says no more. The name of the peer, the figures at the end and the messages are left out.
pub mod Closed
pub mod Ends
use chrono_trade.Common.{
  ℕ, ◌-◌, ◌*◌, max, Bool, true, false, not, ◌||◌, Option, none, some, List, [], ◌∷◌, ◌++◌, ltb,
  if◌then◌else◌,
}
use chrono_trade.Common.Float.{Float}
use chrono_trade.Feed.TcpLatencyProxy.Send.{
  Attempt, Stop, done, waiting, no_fuel, SendResult, send_loop,
}
use chrono_trade.Feed.TcpLatencyProxy.Pipe.{
  PipeResult, pipe_ok, PipeConfig, Event, Pipe, Progress, goes_on, in_send, returns, proxy_pipe,
}
use chrono_trade.Feed.TcpLatencyProxy.Args.{DirectionFlags}
use chrono_trade.Feed.Descriptors.{Call, closes, shuts_down, lingers, reads, writes, starts, joins}
use chrono_trade.Feed.TcpLatencyProxy.Sockets.{
  guard_end, reset, release, rst_close, graceful_half_close, finish_pair,
}
use chrono_trade.Feed.TcpLatencyProxy.Dial.{Target, dial}
use chrono_trade.Feed.TcpLatencyProxy.Http.{
  Peek, try_http_peek, looks_like_http, k503, k429, Round, drain_with_poll,
}

pub record Trace : Type 0 where
  pub calls : List Call
  pub is_over : Bool

abbrev pub did : List Call → Trace
did cs = record { calls = cs; is_over = true }

-- One run behind another, which begins only when the first is over.
infixr 5 ◌then◌
unfoldable pub ◌then◌ : Trace → Trace → Trace
t then u = if t.is_over then record { calls = t.calls ++ u.calls; is_over = u.is_over } else t

-- Where `send_loop` stands: `true` if it has returned.
abbrev pub has_returned : Stop → Bool
has_returned (done r) = true
has_returned waiting = false
has_returned no_fuel = false

-- `send_503`, `send_429`: `safe_send_all` without a throttle, its result ignored.
abbrev pub send_reply : ℕ → List ℕ → List Attempt → Trace
send_reply fd reply script =
    let s = send_loop script false reply none [] in
    record { calls = writes fd s.wire ∷ []; is_over = has_returned s.stop }

-- What the client shows, how it takes the answer, and the rounds of the drain.
pub record Visitor : Type 0 where
  pub peek : Peek
  pub script : List Attempt
  pub rounds : List Round

-- The answer behind a peek that looks like HTTP.
abbrev pub reply_to : ℕ → List ℕ → ℕ → Visitor → Trace
reply_to fd reply timeout_ms v =
    send_reply fd reply v.script
    then did (shuts_down fd ∷ [])
    then record { calls = reads fd ∷ []; is_over = (drain_with_poll timeout_ms v.rounds 0).0 }

-- `if (cfg.http_friendly_errors) ...`, with the size of the buffer.
unfoldable pub greet : Bool → ℕ → ℕ → List ℕ → ℕ → Visitor → Trace
unfolding send_loop drain_with_poll looks_like_http
greet friendly fd size reply timeout_ms v =
    if friendly
    then did (reads fd ∷ [])
    then elim (try_http_peek size v.peek) [
      | none ↦ did []
      | some text ↦ if looks_like_http text then reply_to fd reply timeout_ms v else did []
    ]
    else did []

-- The accept loop at its limit: what it does with the socket that it accepted.
unfoldable pub turn_away : Bool → Bool → ℕ → Visitor → Trace
unfolding greet
turn_away friendly rst_on_midstream_errors client v =
    greet friendly client 32 k429 50 v
    then did (if rst_on_midstream_errors then rst_close (some client) else closes client ∷ [])

-- A round of the loop that watches a connection: the flags, the time, and the last activity of each
-- direction, in nanoseconds.
pub record Tick : Type 0 where
  pub stop : Bool
  pub running : Bool
  pub now : ℕ
  pub up_last : ℕ
  pub down_last : ℕ

-- Whether the loop has ended.
abbrev pub watch : ℕ → List Tick → Bool
watch idle_timeout_ns [] = false
watch idle_timeout_ns (t ∷ ts) =
    let rest = watch idle_timeout_ns ts in
    if t.stop || not t.running
    then true
    else if ltb idle_timeout_ns (t.now - max t.up_last t.down_last)
    then true
    else rest

-- What of `ProxyConfig` a connection reads; `dirs` is its direction, parsed.
pub record ConnectionConfig (W : Type 0) : Type 0 where
  pub pipe : PipeConfig W
  pub dirs : DirectionFlags
  pub idle_timeout_sec : ℕ
  pub http_friendly_errors : Bool
  pub rst_on_upstream_connect_fail : Bool
  pub rst_on_midstream_errors : Bool
  pub half_close : Bool

-- One direction: the events of its pipe up to the end of its thread, the draws, and the pipe at its
-- start.
pub record Traffic (W : Type 0) : Type 0 where
  pub events : List Event
  pub draws : ℕ → ℕ → W × W
  pub pipe : Pipe

-- What the thread of a direction leaves in its result; `none` while it has not ended.
abbrev pub result_of : Progress → Option PipeResult
result_of goes_on = none
result_of in_send = none
result_of (returns r) = some r

-- The upstream cannot be reached; then `~FdGuard` for both guards.
unfoldable pub give_up : {W : Type 0} → ConnectionConfig W → ℕ → Visitor → Trace
unfolding greet
give_up cfg client v =
    greet cfg.http_friendly_errors client 128 k503 200 v
    then did (
        if cfg.rst_on_upstream_connect_fail
        then lingers client ∷ []
        else graceful_half_close (some client))
    then did (guard_end none ++ guard_end (some client))

-- The start of a direction, or the end of its writing side; and its join, with its result. A direction
-- that is off has the result Ok.
abbrev pub start : Bool → ℕ → ℕ → Trace
start enabled from to = did (if enabled then starts from to ∷ [] else shuts_down to ∷ [])

abbrev pub join : Bool → ℕ → ℕ → Option PipeResult → Trace
join false from to r = did []
join true from to none = record { calls = []; is_over = false }
join true from to (some r) = did (joins from to ∷ [])

abbrev pub final : Bool → Option PipeResult → PipeResult
final false r = pipe_ok
final true none = pipe_ok
final true (some r) = r

-- Everything that a connection meets.
pub record Outside (W : Type 0) : Type 0 where
  pub targets : Option (List Target)
  pub visitor : Visitor
  pub up : Traffic W
  pub down : Traffic W
  pub ticks : List Tick

module _ {W : Type 0} ⦃f : Float W⦄ where
  abbrev pub run_pipe : PipeConfig W → Traffic W → Option PipeResult
  run_pipe cfg t = result_of (proxy_pipe cfg true t.draws 0 t.events t.pipe).0

  -- From the moment that the upstream is connected.
  unfoldable pub serve : ConnectionConfig W → ℕ → ℕ → Outside W → Trace
  unfolding proxy_pipe finish_pair
  serve cfg client upstream o =
      let up = run_pipe cfg.pipe o.up in
      let down = run_pipe cfg.pipe o.down in
      start cfg.dirs.up client upstream
      then start cfg.dirs.down upstream client
      then record { calls = []; is_over = watch (cfg.idle_timeout_sec * 1_000_000_000) o.ticks }
      then join cfg.dirs.up client upstream up
      then join cfg.dirs.down upstream client down
      then did (
          finish_pair (release (some upstream)).0 (release (some client)).0 (final cfg.dirs.up up)
            (final cfg.dirs.down down) cfg.rst_on_midstream_errors cfg.half_close)
      then did (guard_end (release (some upstream)).1 ++ guard_end (release (some client)).1)

  unfoldable pub handle_connection : ConnectionConfig W → ℕ → Outside W → Trace
  unfolding dial give_up serve
  handle_connection cfg client o =
      let (calls, found) = dial o.targets in
      did calls then elim found [
        | none ↦ give_up cfg client o.visitor
        | some fd ↦ did (reset none (some fd)).0 then serve cfg client fd o
      ]

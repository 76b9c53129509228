-- ===== src/Feed/TcpLatencyProxy/Connection/Ends.antt =====
-- When a connection comes to its end.
use chrono_trade.Common.{ℕ, ◌*◌, ◌≡◌, refl, Bool, true, false, ◌&&◌, Option, none, some, arith}
use chrono_trade.Common.Float.{Float}
use chrono_trade.Feed.TcpLatencyProxy.Pipe.{PipeResult}
use chrono_trade.Feed.TcpLatencyProxy.Connection.{
  Trace, ◌then◌, ConnectionConfig, Outside, watch, join, run_pipe, serve,
}

then_over : (t u : Trace) → (t then u).is_over ≡ (t.is_over && u.is_over)
unfolding ◌then◌
then_over t u = ground arith

-- A direction that is off needs no thread to end.
abbrev pub has_ended : Bool → Option PipeResult → Bool
has_ended false r = true
has_ended true none = false
has_ended true (some r) = true

join_over :
    (b : Bool) (from to : ℕ) (r : Option PipeResult) → (join b from to r).is_over ≡ has_ended b r
join_over false from to r = refl
join_over true from to none = refl
join_over true from to (some r) = refl

-- A connection to an upstream comes to its end exactly when the watch over it ends and every direction
-- that is on has a pipe that returns.
pub serve_over :
    {W : Type 0} ⦃f : Float W⦄ (cfg : ConnectionConfig W) (client upstream : ℕ) (o : Outside W)
    → (serve cfg client upstream o).is_over ≡ (
        watch (cfg.idle_timeout_sec * 1_000_000_000) o.ticks
        && (has_ended cfg.dirs.up (run_pipe cfg.pipe o.up)
            && has_ended cfg.dirs.down (run_pipe cfg.pipe o.down)))
unfolding serve
serve_over cfg client upstream o = simp (then_over, join_over) (ground arith)

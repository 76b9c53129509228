-- ===== src/Feed/TcpLatencyProxy/Pipe.antt =====
-- feed/TCPLatencyProxy.cpp, `proxy_pipe`: one direction of a connection. Each round of the loop is an
-- event, what `poll` and `recv` answer; when the events end, `stop_flag` is set. The activity times,
-- the seed and the messages are left out.
pub mod Relay
use chrono_trade.Common.{
  ℕ, zero, suc, ◌+◌, Bool, true, false, not, ◌&&◌, ◌||◌, Option, none, some, List, [], ◌∷◌, length,
  ltb, if◌then◌else◌,
}
use chrono_trade.Common.Float.{Float}
use chrono_trade.Feed.TcpLatencyProxy.Throttle as Throttle
use chrono_trade.Feed.TcpLatencyProxy.Throttle.{Bucket}
use chrono_trade.Feed.TcpLatencyProxy.Send.{
  Stop, done, waiting, no_fuel, success, would_block, error, closed, Sent, forward,
}
use chrono_trade.Feed.TcpLatencyProxy.Impair.{
  Rates, Passage, Stats, sent_bytes, process_with_impairments,
}

pub data PipeResult : Type 0 where
  pipe_ok pipe_eof pipe_error : PipeResult

-- `hang_up` has the bytes that the socket still holds.
pub data Event : Type 0 where
  poll_interrupted poll_failed poll_timeout no_input : Event
  hang_up : List ℕ → Event
  end_of_stream recv_again recv_failed : Event
  received : ℕ → List ℕ → Event

-- What of `ProxyConfig` the loop reads.
pub record PipeConfig (W : Type 0) : Type 0 where
  pub latency_ms : ℕ
  pub rates : Rates W
  pub bandwidth_kbps : ℕ
  pub enable_burst : Bool
  pub burst_seconds : ℕ

-- The pipe, with what its sends need, and the bytes received.
pub record Pipe : Type 0 where
  pub passage : Passage
  pub bytes_received : ℕ

-- Whether the loop goes on, has returned, or is still in a send.
pub data Progress : Type 0 where
  goes_on in_send : Progress
  returns : PipeResult → Progress

-- `make_unique<PrecisionBandwidthThrottle>`, at the time `now`.
abbrev pub new_throttle : {W : Type 0} → PipeConfig W → Bool → ℕ → Option Bucket
new_throttle cfg enabled now =
    if enabled && ltb 0 cfg.bandwidth_kbps
    then some (Throttle.make cfg.bandwidth_kbps cfg.enable_burst cfg.burst_seconds now)
    else none

-- The fast path, after the loop of retries.
abbrev pub relay_end : Stop → Progress
relay_end (done success) = goes_on
relay_end (done would_block) = in_send
relay_end (done error) = returns pipe_error
relay_end (done closed) = returns pipe_eof
relay_end waiting = in_send
relay_end no_fuel = in_send

abbrev pub counted : Stop → Stats → ℕ → Stats
counted (done success) stats n = sent_bytes stats n
counted (done would_block) stats n = stats
counted (done error) stats n = stats
counted (done closed) stats n = stats
counted waiting stats n = stats
counted no_fuel stats n = stats

unfoldable pub relay : List ℕ → Pipe → Progress × Pipe
relay text t =
    let p = t.passage in
    let s = forward (suc (length p.script)) p.script text p.limit p.wire in
    (
      relay_end s.stop,
      record t {
        passage = record {
          stop = s.stop;
          script = s.script;
          limit = s.limit;
          wire = s.wire;
          stats = counted s.stop p.stats (length text);
        };
      },
    )

-- The end of the slow path: a send that waits is still in it, and any other failure is an error.
abbrev pub impaired_end : Stop → Progress
impaired_end (done success) = goes_on
impaired_end (done would_block) = returns pipe_error
impaired_end (done error) = returns pipe_error
impaired_end (done closed) = returns pipe_error
impaired_end waiting = in_send
impaired_end no_fuel = in_send

-- The rest of the loop after a round.
abbrev pub carry_on : Progress → Pipe → Progress × Pipe → Progress × Pipe
carry_on goes_on u rest = rest
carry_on in_send u rest = (in_send, u)
carry_on (returns r) u rest = (returns r, u)

module _ {W : Type 0} ⦃f : Float W⦄ where
  abbrev pub need_impairments : PipeConfig W → Bool → Bool
  need_impairments cfg enabled =
      enabled
      && ((ltb 0 cfg.latency_ms || f.lt (f.lit 0 0) cfg.rates.drop_rate)
          || f.lt (f.lit 0 0) cfg.rates.dup_rate)

  unfoldable pub impair : PipeConfig W → (ℕ → W × W) → List ℕ → Pipe → Progress × Pipe
  impair cfg draws text t =
      let p =
        process_with_impairments (length text) cfg.rates draws 0 text
          (record t.passage { stop = done success }) in
      (impaired_end p.stop, record t { passage = p })

  -- What is done with the bytes of a `recv`.
  unfoldable pub pass_on : PipeConfig W → Bool → (ℕ → W × W) → List ℕ → Pipe → Progress × Pipe
  unfolding relay impair
  pass_on cfg enabled draws text t =
      let counted_in = record t { bytes_received = t.bytes_received + length text } in
      if not enabled || not (need_impairments cfg enabled)
      then relay text counted_in
      else impair cfg draws text counted_in

  -- A round of the loop; `draws` are those of the round.
  unfoldable pub pipe_round : PipeConfig W → Bool → (ℕ → W × W) → Event → Pipe → Progress × Pipe
  unfolding pass_on
  pipe_round cfg enabled draws poll_interrupted t = (goes_on, t)
  pipe_round cfg enabled draws poll_failed t = (returns pipe_error, t)
  pipe_round cfg enabled draws poll_timeout t = (goes_on, t)
  pipe_round cfg enabled draws no_input t = (goes_on, t)
  pipe_round cfg enabled draws (hang_up pending) t = (returns pipe_eof, t)
  pipe_round cfg enabled draws end_of_stream t = (returns pipe_eof, t)
  pipe_round cfg enabled draws recv_again t = (goes_on, t)
  pipe_round cfg enabled draws recv_failed t = (returns pipe_error, t)
  pipe_round cfg enabled draws (received c cs) t = pass_on cfg enabled draws (c ∷ cs) t

  -- The loop, with the draws of round i.
  unfoldable pub proxy_pipe :
      PipeConfig W → Bool → (ℕ → ℕ → W × W) → ℕ → List Event → Pipe → Progress × Pipe
  unfolding pipe_round
  proxy_pipe cfg enabled draws i [] t = (returns pipe_ok, t)
  proxy_pipe cfg enabled draws i (e ∷ es) t =
      let (progress, u) = pipe_round cfg enabled (draws i) e t in
      let rest = proxy_pipe cfg enabled draws (i + 1) es u in carry_on progress u rest

-- ===== src/Feed/PipeTests.antt =====
-- A pipe of the proxy, with and without impairments.
use chrono_trade.Common.{ℕ, ◌*◌, ◌≡◌, true, false, refl, none, some, [], ◌∷◌}
use chrono_trade.Common.Int.{pos}
use chrono_trade.Common.Float.{Micros, micro_float}
use chrono_trade.Feed.TcpLatencyProxy.Send.{Attempt, accepted, done, success, send_loop, forward}
use chrono_trade.Feed.TcpLatencyProxy.Impair.{
  Rates, Passage, send_chunk, pass_chunk, process_with_impairments,
}
use chrono_trade.Feed.TcpLatencyProxy.Impair.Chunks
use chrono_trade.Feed.TcpLatencyProxy.Pipe.{
  PipeConfig, Pipe, returns, pipe_eof, hang_up, received, relay, pass_on, pipe_round, proxy_pipe,
}
use chrono_trade.Feed.TcpLatencyProxy.Pipe.Relay

abbrev takes : ℕ → Attempt
takes n = record { now = 0; answer = accepted n; readings = [] }

-- The kernel takes all, and then nothing in time once.
abbrev begun : Passage
begun = record {
  stop = done success;
  script = takes 9 ∷ takes 9 ∷ takes 9 ∷ [];
  limit = none;
  wire = [];
  stats = record { bytes_sent = 0; packets_dropped = 0; packets_duplicated = 0 };
}

abbrev cents : ℕ → Micros
cents n = some (pos (n * 10_000))

-- Half of the chunks are lost and half of the others are doubled.
abbrev halves : Rates Micros
halves = record { drop_rate = cents 50; dup_rate = cents 50 }

sent_double :
    (process_with_impairments 2 halves (λ i. (cents 70, cents 20)) 0 (1 ∷ 2 ∷ []) begun).wire
    ≡ 1 ∷ 2 ∷ 1 ∷ 2 ∷ []
unfolding process_with_impairments pass_chunk send_chunk send_loop
sent_double = refl

abbrev plain : PipeConfig Micros
plain = record {
  latency_ms = 0;
  rates = record { drop_rate = cents 0; dup_rate = cents 0 };
  bandwidth_kbps = 0;
  enable_burst = false;
  burst_seconds = 2;
}

abbrev opened : Pipe
opened = record { passage = begun; bytes_received = 0 }

-- What a socket still holds when poll reports its hang-up is not forwarded.
lost_at_hang_up :
    let (progress, t) =
      proxy_pipe plain true
        (λ i j. (cents 0, cents 0))
        0
        (received 1 (2 ∷ []) ∷ hang_up (3 ∷ []) ∷ [])
        opened in
    (progress ≡ returns pipe_eof) × (t.passage.wire ≡ 1 ∷ 2 ∷ [])
unfolding proxy_pipe pipe_round pass_on relay forward send_loop
lost_at_hang_up = (refl, refl)

-- ===== src/Feed/TcpLatencyProxy/Impair.antt =====
-- feed/TCPLatencyProxy.cpp, `process_with_impairments`: chunks of a buffer are lost, sent or sent
-- twice. `draws i` are the values of `U(rng)` for chunk i, which the sleeps draw between; the sleeps
-- themselves show in the readings of the clock.
pub mod Chunks
use chrono_trade.Common.{
  ℕ, zero, suc, ◌+◌, Bool, true, false, ◌&&◌, Option, List, [], ◌∷◌, length, take, drop,
  if◌then◌else◌,
}
use chrono_trade.Common.Float.{Float}
use chrono_trade.Feed.TcpLatencyProxy.Throttle.{Bucket}
use chrono_trade.Feed.TcpLatencyProxy.Send.{
  Attempt, Stop, done, waiting, no_fuel, success, would_block, error, closed, Sent, send_loop,
}

abbrev pub chunk_size : ℕ
chunk_size = 1400

pub record Rates (W : Type 0) : Type 0 where
  pub drop_rate : W
  pub dup_rate : W

pub record Stats : Type 0 where
  pub bytes_sent : ℕ
  pub packets_dropped : ℕ
  pub packets_duplicated : ℕ

-- The script, the throttle, the wire and the counters; `stop` is what the last send answered.
pub record Passage : Type 0 where
  pub stop : Stop
  pub script : List Attempt
  pub limit : Option Bucket
  pub wire : List ℕ
  pub stats : Stats

abbrev pub sent_bytes : Stats → ℕ → Stats
sent_bytes a n = record a { bytes_sent = a.bytes_sent + n }

abbrev pub one_dropped : Stats → Stats
one_dropped a = record a { packets_dropped = a.packets_dropped + 1 }

abbrev pub one_duplicated : Stats → Stats
one_duplicated a = record a { packets_duplicated = a.packets_duplicated + 1 }

abbrev pub is_success : Stop → Bool
is_success (done success) = true
is_success (done would_block) = false
is_success (done error) = false
is_success (done closed) = false
is_success waiting = false
is_success no_fuel = false

-- `safe_send_all_detailed` of a chunk, and the count of its bytes on success.
unfoldable pub send_chunk : List ℕ → Passage → Passage
send_chunk chunk p =
    let s = send_loop p.script true chunk p.limit p.wire in
    record {
      stop = s.stop;
      script = s.script;
      limit = s.limit;
      wire = s.wire;
      stats = if is_success s.stop then sent_bytes p.stats (length chunk) else p.stats;
    }

module _ {W : Type 0} ⦃f : Float W⦄ where
  -- `rate > 0.0 && U(rng) < rate`
  abbrev pub happens : W → W → Bool
  happens rate draw = f.lt (f.lit 0 0) rate && f.lt draw rate

  -- A round of the loop.
  unfoldable pub pass_chunk : Rates W → W × W → List ℕ → Passage → Passage
  unfolding send_chunk
  pass_chunk rates (u, v) chunk p =
      let q = send_chunk chunk p in
      let twice = send_chunk chunk (record q { stats = one_duplicated q.stats }) in
      if happens rates.drop_rate u
      then record p { stats = one_dropped p.stats }
      else if is_success q.stop
      then if happens rates.dup_rate v then twice else q
      else q

  -- The loop from chunk i on, with `fuel` rounds at most.
  unfoldable pub process_with_impairments :
      ℕ → Rates W → (ℕ → W × W) → ℕ → List ℕ → Passage → Passage
  unfolding pass_chunk
  process_with_impairments zero rates draws i text p = p
  process_with_impairments (suc fuel) rates draws i [] p = p
  process_with_impairments (suc fuel) rates draws i (x ∷ xs) p =
      let q = pass_chunk rates (draws i) (take chunk_size (x ∷ xs)) p in
      elim (is_success q.stop) [
        | true ↦ process_with_impairments fuel rates draws (i + 1) (drop chunk_size (x ∷ xs)) q
        | false ↦ q
      ]

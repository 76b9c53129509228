-- ===== src/Feed/TcpLatencyProxy/Send.antt =====
-- feed/TCPLatencyProxy.cpp, `safe_send_all_detailed` and the forwarding of a buffer in `proxy_pipe`.
-- The socket is a script: each attempt says when the loop comes round, what `send` and the `poll` and
-- `getsockopt` behind it answer, and what the throttle reads of the clock. The wire is what the kernel
-- took, in order.
pub mod Prefix
pub mod Forward
use chrono_trade.Common.{
  ℕ, zero, suc, ◌-◌, ◌^◌, min, Bool, true, false, Option, none, some, List, [], ◌∷◌, ◌++◌, length,
  take, drop, ◌==◌, if◌then◌else◌,
}
use chrono_trade.Feed.TcpLatencyProxy.Throttle.{Bucket, allowance, throttle}

pub data SendResult : Type 0 where
  success would_block error closed : SendResult

-- `ECONNRESET` and `EPIPE`, or any other error.
pub data SocketError : Type 0 where
  peer_gone other_error : SocketError

-- What `poll` for `POLLOUT` answers: nothing in time, a hang-up or error, an event that is not
-- `POLLOUT`, or `POLLOUT`, with the error that the socket then holds.
pub data Poll : Type 0 where
  timed_out hung_up not_writable : Poll
  writable : Option SocketError → Poll

pub data Answer : Type 0 where
  accepted : ℕ → Answer
  interrupted : Answer
  again : Poll → Answer
  failed : SocketError → Answer

pub record Attempt : Type 0 where
  pub now : ℕ
  pub answer : Answer
  pub readings : List ℕ

-- Where a loop stands: it has returned, it waits for more of the script, or the model is out of fuel.
pub data Stop : Type 0 where
  done : SendResult → Stop
  waiting no_fuel : Stop

-- After a call: `left` are the bytes that were not sent.
pub record Sent : Type 0 where
  pub stop : Stop
  pub left : List ℕ
  pub wire : List ℕ
  pub limit : Option Bucket
  pub script : List Attempt

abbrev of_error : SocketError → SendResult
of_error peer_gone = closed
of_error other_error = error

-- What a poll makes of the call; `none` goes round again.
abbrev pub of_poll : Poll → Option SendResult
of_poll timed_out = some would_block
of_poll hung_up = some closed
of_poll not_writable = none
of_poll (writable none) = none
of_poll (writable (some e)) = some (of_error e)

-- What an attempt makes of the call: bytes taken of the slice, a result, or another round.
pub data Step : Type 0 where
  took : ℕ → Step
  returns : SendResult → Step
  retry : Step

abbrev pub of_answer : ℕ → Answer → Step
of_answer slice (accepted n) = took (min n slice)
of_answer slice interrupted = retry
of_answer slice (failed e) = returns (of_error e)
of_answer slice (again p) = elim (of_poll p) [ none ↦ retry | some r ↦ returns r ]

-- The slice to offer, and the throttle after it was asked. A slice of 0 stands for no allowance.
abbrev pub next_slice : Bool → ℕ → ℕ → Option Bucket → ℕ × Option Bucket
next_slice small remaining now none =
    (min (if small then min remaining 512 else remaining) (2 ^ 31 - 1), none)
next_slice small remaining now (some b) =
    let (allowed, c) = allowance remaining now b in
    let slice = min remaining allowed in
    (min (if small then min slice 512 else slice) (2 ^ 31 - 1), some c)

-- `throttle->throttle(n)` if there is a throttle and something was sent; `none` is still waiting.
abbrev pub pay : ℕ → List ℕ → Option Bucket → Option (Option Bucket)
pay n readings none = some none
pay n readings (some b) = elim (throttle n readings b) [ none ↦ none | some c ↦ some (some c) ]

abbrev pub sent_at : Stop → List ℕ → List ℕ → Option Bucket → List Attempt → Sent
sent_at stop left wire limit script = record {
  stop = stop;
  left = left;
  wire = wire;
  limit = limit;
  script = script;
}

-- The loop of `safe_send_all_detailed`, with `cap_small_chunks`, the bytes left and the wire.
unfoldable pub send_loop : List Attempt → Bool → List ℕ → Option Bucket → List ℕ → Sent
send_loop script small [] limit wire = sent_at (done success) [] wire limit script
send_loop [] small (x ∷ xs) limit wire = sent_at waiting (x ∷ xs) wire limit []
send_loop (a ∷ script) small (x ∷ xs) limit wire =
    let (slice, asked) = next_slice small (length (x ∷ xs)) a.now limit in
    elim (slice == 0) [
      | true ↦ send_loop script small (x ∷ xs) asked wire
      | false ↦ elim (of_answer slice a.answer) [
        | retry ↦ send_loop script small (x ∷ xs) asked wire
        | returns r ↦ sent_at (done r) (x ∷ xs) wire asked script
        | took n ↦ elim (pay n a.readings asked) [
          | none ↦ sent_at waiting (drop n (x ∷ xs)) (wire ++ take n (x ∷ xs)) asked script
          | some paid ↦ send_loop script small (drop n (x ∷ xs)) paid (wire ++ take n (x ∷ xs))
        ]
      ]
    ]

-- `do { ... } while (result == SendResult::WouldBlock)` of `proxy_pipe`, with `fuel` rounds at most.
unfoldable pub forward : ℕ → List Attempt → List ℕ → Option Bucket → List ℕ → Sent
unfolding send_loop
forward zero script text limit wire = sent_at no_fuel text wire limit script
forward (suc fuel) script text limit wire =
    let s = send_loop script false text limit wire in
    elim s.stop [
      | done would_block ↦ forward fuel s.script text s.limit s.wire
      | done success ↦ s
      | done error ↦ s
      | done closed ↦ s
      | waiting ↦ s
      | no_fuel ↦ s
    ]

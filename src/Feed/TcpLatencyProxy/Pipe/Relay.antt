-- ===== src/Feed/TcpLatencyProxy/Pipe/Relay.antt =====
-- What a pipe makes of the bytes that it receives.
use chrono_trade.Common.{ℕ, ◌≡◌, ◌≢◌, ◌⊎◌, Bool, true, false, not, ◌||◌, List, [], ◌∷◌, ◌++◌, All}
use chrono_trade.Common.Float.{Float}
use chrono_trade.Feed.TcpLatencyProxy.Send.Forward.{IsCut, concat}
use chrono_trade.Feed.TcpLatencyProxy.Impair.{Stats}
use chrono_trade.Feed.TcpLatencyProxy.Impair.Chunks.{Passes, Breaks}
use chrono_trade.Feed.TcpLatencyProxy.Pipe.{
  PipeResult, pipe_ok, pipe_eof, pipe_error, Event, poll_interrupted, poll_failed, poll_timeout,
  no_input, hang_up, end_of_stream, recv_again, recv_failed, received, PipeConfig, Pipe, Progress,
  goes_on, returns, need_impairments,
}

-- The buffers that a pipe receives before an event ends it.
abbrev pub inputs : List Event → List (List ℕ)
inputs [] = []
inputs (poll_interrupted ∷ es) = inputs es
inputs (poll_failed ∷ es) = []
inputs (poll_timeout ∷ es) = inputs es
inputs (no_input ∷ es) = inputs es
inputs (hang_up pending ∷ es) = []
inputs (end_of_stream ∷ es) = []
inputs (recv_again ∷ es) = inputs es
inputs (recv_failed ∷ es) = []
inputs (received c cs ∷ es) = (c ∷ cs) ∷ inputs es

-- The result that the events lead to.
abbrev pub ending : List Event → PipeResult
ending [] = pipe_ok
ending (poll_interrupted ∷ es) = ending es
ending (poll_failed ∷ es) = pipe_error
ending (poll_timeout ∷ es) = ending es
ending (no_input ∷ es) = ending es
ending (hang_up pending ∷ es) = pipe_eof
ending (end_of_stream ∷ es) = pipe_eof
ending (recv_again ∷ es) = ending es
ending (recv_failed ∷ es) = pipe_error
ending (received c cs ∷ es) = ending es

-- A buffer is through: without impairments it is on the wire, behind parts of it from attempts that
-- blocked; with impairments its chunks went through.
abbrev pub IsThrough : Bool → List ℕ → List ℕ → Type 0
IsThrough true text put =
    (cuts : List (List ℕ)) × All (IsCut text) cuts × (put ≡ concat cuts ++ text)
IsThrough false text put = (a b : Stats) × Passes a b text put

abbrev pub IsBroken : Bool → List ℕ → List ℕ → Type 0
IsBroken true text put =
    (cuts : List (List ℕ)) × (last left : List ℕ) × All (IsCut text) cuts
    × (put ≡ concat cuts ++ last)
    × (last ++ left ≡ text)
IsBroken false text put = (a : Stats) × Breaks a text put

-- All the buffers are through, in order, or those up to one that is broken.
pub data Relayed (fast : Bool) : List (List ℕ) → List ℕ → Bool → Type 0 where
  none_left : Relayed fast [] [] true
  next_through :
      {whole : Bool} {text : List ℕ} {texts : List (List ℕ)} {sent : List ℕ} (put more : List ℕ)
      → IsThrough fast text put
      → sent ≡ put ++ more
      → Relayed fast texts more whole
      → Relayed fast (text ∷ texts) sent whole
  next_broken :
      {text : List ℕ} {texts : List (List ℕ)} {put : List ℕ}
      → IsBroken fast text put
      → Relayed fast (text ∷ texts) put false

-- A buffer passed on: the loop goes on and the buffer is through, or it does not.
record Passed (fast : Bool) (text : List ℕ) (t : Pipe) (progress : Progress) (u : Pipe)
    : Type 0 where
  put : List ℕ
  grows : u.passage.wire ≡ t.passage.wire ++ put
  fate :
      ((progress ≡ goes_on) × IsThrough fast text put)
      ⊎ ((progress ≢ goes_on) × IsBroken fast text put)

-- A run of the loop: the buffers that are through, and the result if none is broken.
pub record Run (fast : Bool) (es : List Event) (t : Pipe) (progress : Progress) (u : Pipe)
    : Type 0 where
  pub put : List ℕ
  pub grows : u.passage.wire ≡ t.passage.wire ++ put
  pub whole : Bool
  pub relayed : Relayed fast (inputs es) put whole
  pub ends : whole ≡ true → progress ≡ returns (ending es)

module _ {W : Type 0} ⦃f : Float W⦄ (cfg : PipeConfig W) (enabled : Bool) where
  -- The fast path.
  abbrev pub is_fast : Bool
  is_fast = not enabled || not (need_impairments cfg enabled)

-- ===== src/Feed/ProxyTests.antt =====
-- Runs of the proxy's parts, and their properties applied to them.
use chrono_trade.Common.{ℕ, List, none, ◌≡◌, refl, arith, false, some, [], ◌∷◌, inl, inr}
use chrono_trade.Feed.TcpLatencyProxy.Throttle.{Bucket, make, throttle}
use chrono_trade.Feed.TcpLatencyProxy.Throttle.Rate
use chrono_trade.Feed.TcpLatencyProxy.Throttle.Rate.{IsSane}
use chrono_trade.Feed.TcpLatencyProxy.Throttle.Limit
use chrono_trade.Feed.TcpLatencyProxy.Throttle.Limit.{Paid, throttle_all}
use chrono_trade.Feed.TcpLatencyProxy.Send.{Attempt, Answer, accepted, again, timed_out, forward}
use chrono_trade.Feed.TcpLatencyProxy.Buffer.{buffer_size}
use chrono_trade.Feed.TcpLatencyProxy.Send.Forward
use chrono_trade.Feed.TcpLatencyProxy.Throttle.Allowance.{IsUsable}

-- 8 kbit/s are 1000 bytes a second.
abbrev slow : Bucket
slow = record {
  kbps = 8;
  last = 0;
  tokens = 0;
  frac_acc = 0;
  max_tokens = 1024;
  num_bytes_per_s = 1000;
}

slow_made : make 8 false 2 0 ≡ slow
unfolding make
slow_made = refl

-- The second turn has the 100 bytes.
abbrev after_two : Bucket
after_two = record slow { last = 120_000_000; tokens = 20 }

throttle_two : throttle 100 (50_000_000 ∷ 120_000_000 ∷ []) slow ≡ some after_two
unfolding throttle
throttle_two = refl

slow-IsSane : IsSane slow
slow-IsSane = record { fits = omega arith; small = omega arith }

throttle_returns_example :
    (c : Bucket) × (throttle 100 (50_000_000 ∷ 120_000_000 ∷ []) slow ≡ some c) × IsSane c
throttle_returns_example =
    Rate.throttle_returns 100 100_002_000 2 (50_000_000 ∷ 120_000_000 ∷ []) slow slow-IsSane
      (omega arith) (omega arith) (inr (inl (omega arith)))

all_two : throttle_all ((100, 50_000_000 ∷ 120_000_000 ∷ []) ∷ []) slow ≡ some after_two
unfolding throttle throttle_all
all_two = refl

throttle_all-Paid_example : Paid 100 slow after_two
throttle_all-Paid_example =
    Limit.throttle_all-Paid ((100, 50_000_000 ∷ 120_000_000 ∷ []) ∷ []) slow after_two slow-IsSane
      (λ e. omega arith) all_two

slow-IsUsable : IsUsable slow
slow-IsUsable = record {
  sane = slow-IsSane;
  on = λ e. omega arith;
  running = omega arith;
  room = omega arith;
}

abbrev attempt : Answer → Attempt
attempt a = record { now = 0; answer = a; readings = [] }

-- Two bytes are taken, then the socket stays full, then the retry is taken whole.
abbrev blocked_once : List Attempt
blocked_once = attempt (accepted 2) ∷ attempt (again timed_out) ∷ attempt (accepted 9) ∷ []

abbrev message : List ℕ
message = 1 ∷ 2 ∷ 3 ∷ 4 ∷ []

forward_sends_twice : (forward 4 blocked_once message none []).wire ≡ 1 ∷ 2 ∷ 1 ∷ 2 ∷ 3 ∷ 4 ∷ []
unfolding forward
forward_sends_twice = refl

buffer_size_5000 : buffer_size 5000 ≡ 4096
unfolding buffer_size
buffer_size_5000 = refl

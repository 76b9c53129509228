-- ===== src/Feed/AcceptTests.antt =====
-- The accept loop of the proxy with room for two connections.
use chrono_trade.Common.{ℕ, ◌*◌, ◌^◌, ◌≡◌, false, refl, List, [], ◌∷◌, ◌++◌, arith}
use chrono_trade.Feed.TcpLatencyProxy.Accept.{
  rejected, served, new_server, Turn, Other, cleans, ends, admit, spawn, should_log, accept_turn,
  accept_loop,
}
use chrono_trade.Feed.TcpLatencyProxy.Accept.Bounded
use chrono_trade.Feed.TcpLatencyProxy.Accept.Bounded.{IsBounded, sockets, offered}

abbrev turn : List Other → ℕ → Turn
turn before fd = record { before = before; fd = fd; now = 7; during = []; later = 9 }

-- The third comes too soon, and the fourth after the first has ended and is cleaned up.
abbrev four_turns : List Turn
four_turns = turn [] 5 ∷ turn [] 6 ∷ turn [] 7 ∷ turn (ends 0 ∷ cleans ∷ []) 8 ∷ []

four_fates :
    (accept_loop 2 new_server four_turns).fates
    ≡ (5, served) ∷ (6, served) ∷ (7, rejected) ∷ (8, served) ∷ []
unfolding accept_loop accept_turn admit spawn
four_fates = refl

-- The warning about the third is never written.
no_warning : (should_log new_server.limiter (3_600 * 10 ^ 9)).1 ≡ false
unfolding should_log
no_warning = refl

accept_loop-IsBounded_example :
    IsBounded 2 (accept_loop 2 new_server four_turns)
    × (sockets (accept_loop 2 new_server four_turns).fates ≡ [] ++ offered four_turns)
accept_loop-IsBounded_example =
    Bounded.accept_loop-IsBounded 2 new_server four_turns
      (record { few = omega arith; pressed = omega arith; accounted = refl })

-- ===== src/Feed/MainTests.antt =====
-- The proxy from its arguments to its end.
use chrono_trade.Common.{ℕ, ◌≡◌, false, refl, none, some, List, [], ◌∷◌, length}
use chrono_trade.Common.Float.{Micros, micro_float}
use chrono_trade.Feed.Text.{bytes, strtol, digits}
use chrono_trade.Feed.Descriptors.{opens, closes}
use chrono_trade.Feed.TcpLatencyProxy.Dial.{Address, inet, inet6, bind_fails, listens}
use chrono_trade.Feed.TcpLatencyProxy.Accept.{Turn, new_server, accept_loop}
use chrono_trade.Feed.TcpLatencyProxy.Main.{Ending, during_turn, wind_up, main}
use chrono_trade.Feed.TcpLatencyProxy.Main.Shutdown
use chrono_trade.Feed.TcpLatencyProxy.Main.Shutdown.{HasEnded}

abbrev not_a_number : List ℕ → Micros × List ℕ
not_a_number text = (none, [])

abbrev port_80 : List (List ℕ)
port_80 = bytes "--listen-port" ∷ bytes "80" ∷ []

-- The first address cannot be bound, and its number is free again.
abbrev addresses : List Address
addresses =
    record { family = inet6; binding = bind_fails 4 }
    ∷ record { family = inet; binding = listens 4 }
    ∷ []

abbrev turn : ℕ → Turn
turn fd = record { before = []; fd = fd; now = 7; during = []; later = 9 }

-- The signal comes while the third client waits between the two blocks.
abbrev ending : Ending
ending = during_turn (turn 7)

-- The first two threads are joined, and the third, started behind the final cleanup, is left.
one_left :
    let s = wind_up 9 (accept_loop 9 new_server (turn 5 ∷ turn 6 ∷ [])) ending in
    (s.joined ≡ 2) × (length s.connections ≡ 1)
unfolding wind_up accept_loop
one_left = (refl, refl)

exits_with_0 :
    let r = main not_a_number (λ t. false) port_80 (some addresses) (turn 5 ∷ turn 6 ∷ []) ending in
    (r.exit_code ≡ 0) × (r.calls ≡ opens 4 ∷ closes 4 ∷ opens 4 ∷ closes 4 ∷ [])
unfolding main strtol digits
exits_with_0 = (refl, refl)

main-HasEnded_example :
    HasEnded
      (1 ∷ [])
      (turn 5 ∷ turn 6 ∷ [])
      ending
      (main not_a_number (λ t. false) port_80 (some addresses) (turn 5 ∷ turn 6 ∷ []) ending)
main-HasEnded_example =
    Shutdown.main-HasEnded not_a_number (λ t. false) (1 ∷ []) (turn 5 ∷ turn 6 ∷ []) ending port_80
      (some addresses) ((refl, tt), (refl, tt))

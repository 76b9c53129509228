-- ===== src/Feed/ArgsTests.antt =====
-- Arguments of the proxy.
use chrono_trade.Common.{ℕ, ◌≡◌, true, false, refl, none, some, List, [], ◌∷◌}
use chrono_trade.Common.Int.{pos, negsuc}
use chrono_trade.Common.Float.{Micros, micro_float, Micros-IsOrdered}
use chrono_trade.Feed.Text.{bytes, strtol, digits}
use chrono_trade.Feed.TcpLatencyProxy.Args.{
  ProxyConfig, DirectionFlags, parse_int, default_config, clamp, known, parse_loop, parse_args,
  configure,
}
use chrono_trade.Feed.TcpLatencyProxy.Args.Range
use chrono_trade.Feed.TcpLatencyProxy.Args.Range.{IsInRange}

-- Every text is read as NaN.
abbrev not_a_number : List ℕ → Micros × List ℕ
not_a_number text = (none, [])

-- A long that is no int is cut to 32 bits, so 2^32 + 1 counts as 1, and more than 2^63 as -1.
cut_to_int : parse_int (bytes "4294967297") ≡ some (pos 1)
unfolding strtol digits
cut_to_int = refl

cut_to_minus_one : parse_int (bytes "99999999999999999999") ≡ some (negsuc 0)
unfolding strtol digits
cut_to_minus_one = refl

-- A rate that is no number becomes 1.0: everything is dropped.
abbrev drop_all : ProxyConfig Micros
drop_all =
    clamp (record default_config { listen_port = pos 80; drop_rate = none; direction = bytes "up" })

abbrev up_only : DirectionFlags
up_only = record { up = true; down = false }

abbrev four_args : List (List ℕ)
four_args =
    bytes "--listen-port"
    ∷ bytes "80"
    ∷ bytes "--drop-rate"
    ∷ bytes "nan"
    ∷ bytes "--direction"
    ∷ bytes "up"
    ∷ []

rate_of_nan : drop_all.drop_rate ≡ some (pos 1_000_000)
rate_of_nan = refl

configured : configure not_a_number (λ t. false) four_args ≡ some (drop_all, up_only)
unfolding configure parse_args parse_loop known strtol digits
configured = refl

configure-IsInRange_example : IsInRange drop_all up_only
configure-IsInRange_example =
    Range.configure-IsInRange Micros-IsOrdered not_a_number (λ t. false) four_args drop_all up_only
      configured

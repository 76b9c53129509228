-- ===== src/Feed/SocketFeedSource/Json.antt =====
-- The JSON lines that the feed's clients send, read back.
use chrono_trade.Common.{ℕ, ◌≡◌, false, List, ◌++◌, ◌==◌, All}
use chrono_trade.Common.Float.{Float}
use chrono_trade.Feed.Text.{bytes}

-- `{"price":P,"amount":A,"timestamp":T}`
abbrev pub print_order : List ℕ → List ℕ → List ℕ → List ℕ
print_order p a t =
    bytes "{\"price\":"
    ++ (p ++ (bytes ",\"amount\":" ++ (a ++ (bytes ",\"timestamp\":" ++ (t ++ bytes "}")))))

-- The byte does not occur.
abbrev Lacks : ℕ → List ℕ → Type 0
Lacks c = All (λ d. (d == c) ≡ false)

abbrev amount_name : List ℕ
amount_name = bytes "\"amount\":"

abbrev time_name : List ℕ
time_name = bytes "\"timestamp\":"

-- ===== src/Feed/TcpLatencyProxy/Http.antt =====
-- feed/TCPLatencyProxy.cpp: the guess whether a client speaks HTTP, the peek at its first bytes, the
-- answers sent to it, and the drain behind them.
pub mod Speaks
use chrono_trade.Common.{
  ℕ, zero, suc, ◌+◌, ◌-◌, Bool, true, false, ◌&&◌, ◌||◌, Option, none, some, List, [], ◌∷◌, ◌++◌,
  length, take, min, ◌==◌, ltb, leb, if◌then◌else◌,
}
use chrono_trade.Feed.Text.{bytes}

abbrev pub is_blank : ℕ → Bool
is_blank c = c == b' ' || c == b'\t' || c == b'\r' || c == b'\n'

-- `while (i < len && blank) ++i;`: what begins at i.
abbrev pub skip_blanks : List ℕ → List ℕ
skip_blanks [] = []
skip_blanks (c ∷ cs) = if is_blank c then skip_blanks cs else c ∷ cs

-- `if (c >= 'a' && c <= 'z') c -= 32;`
abbrev pub to_upper : ℕ → ℕ
to_upper c = if leb b'a' c && leb c b'z' then c - 32 else c

-- The lambda `matches`, on the bytes from i.
abbrev pub matches : List ℕ → List ℕ → Bool
matches text [] = true
matches [] (m ∷ ms) = false
matches (c ∷ cs) (m ∷ ms) = to_upper c == m && matches cs ms

abbrev pub methods : List (List ℕ)
methods =
    bytes "GET "
    ∷ bytes "POST "
    ∷ bytes "PUT "
    ∷ bytes "HEAD "
    ∷ bytes "DELETE "
    ∷ bytes "PATCH "
    ∷ bytes "OPTIONS "
    ∷ bytes "CONNECT "
    ∷ bytes "TRACE "
    ∷ bytes "HTTP/"
    ∷ []

-- The chain of `||`.
abbrev pub matches_one : List ℕ → List (List ℕ) → Bool
matches_one text [] = false
matches_one text (m ∷ ms) = matches text m || matches_one text ms

unfoldable pub looks_like_http : List ℕ → Bool
looks_like_http text =
    if ltb (length text) 4
    then false
    else if ltb (length (skip_blanks text)) 4
    then false
    else matches_one (skip_blanks text) methods

-- What `recv` with `MSG_PEEK` answers: bytes, of which there is one; the end of the stream; `EAGAIN`,
-- and what a second peek behind `poll` then brings; another error.
pub data Peek : Type 0 where
  shows : ℕ → List ℕ → Peek
  ended failed : Peek
  blocks : Option (ℕ × List ℕ) → Peek

-- `try_http_peek`: the bytes in the buffer, `none` where it returns false.
abbrev pub try_http_peek : ℕ → Peek → Option (List ℕ)
try_http_peek size (shows c cs) = some (take (size - 1) (c ∷ cs))
try_http_peek size ended = none
try_http_peek size failed = none
try_http_peek size (blocks none) = none
try_http_peek size (blocks (some (c, cs))) = some (take (size - 1) (c ∷ cs))

abbrev pub k503 : List ℕ
k503 =
    bytes "HTTP/1.1 503 Service Unavailable\r\n"
    ++ (bytes "Content-Type: text/plain; charset=utf-8\r\n"
        ++ (bytes "Connection: close\r\n"
            ++ (bytes "Content-Length: 20\r\n\r\n" ++ bytes "Upstream Unavailable")))

abbrev pub k429 : List ℕ
k429 =
    bytes "HTTP/1.1 429 Too Many Requests\r\n"
    ++ (bytes "Content-Type: text/plain; charset=utf-8\r\n"
        ++ (bytes "Connection: close\r\n"
            ++ (bytes "Content-Length: 16\r\n\r\n" ++ bytes "Rate limit hit.\n")))

-- A round of `drain_with_poll`: the milliseconds since its start, whether `poll` reports input, and
-- how much `recv` reads, `none` for 0 or an error.
pub record Round : Type 0 where
  pub elapsed : ℕ
  pub readable : Bool
  pub received : Option ℕ

-- Whether the loop has ended, and what it threw away.
unfoldable pub drain_with_poll : ℕ → List Round → ℕ → Bool × ℕ
drain_with_poll timeout_ms [] dropped = (false, dropped)
drain_with_poll timeout_ms (r ∷ rs) dropped = elim (ltb r.elapsed timeout_ms && r.readable) [
  | false ↦ (true, dropped)
  | true ↦ elim r.received [
    | none ↦ (true, dropped)
    | some n ↦ drain_with_poll timeout_ms rs (dropped + min n 1024)
  ]
]

-- ===== src/Feed/TcpLatencyProxy/Dial.antt =====
-- feed/TCPLatencyProxy.cpp, `dial` and `listen_on`: the candidates that `getaddrinfo` lists are tried
-- until one connects, or can be listened on. What the kernel answers stands with each candidate. The
-- calls `fcntl` and the messages are left out.
pub mod First
use chrono_trade.Common.{
  ℕ, Bool, true, false, Option, none, some, List, [], ◌∷◌, ◌++◌, if◌then◌else◌,
}
use chrono_trade.Feed.Descriptors.{Call, opens, connects, closes}

-- What `poll` for `POLLOUT` says of a connection in progress: `POLLERR`, `POLLHUP` or `POLLNVAL`;
-- `POLLOUT`, and whether `SO_ERROR` then reads 0; anything else, or nothing in time.
pub data Pending : Type 0 where
  broken silent : Pending
  writable : Bool → Pending

-- What `connect` answers: 0, `EINPROGRESS`, or another error.
pub data Connecting : Type 0 where
  at_once refused : Connecting
  in_progress : Pending → Connecting

-- A candidate of `dial`.
pub data Target : Type 0 where
  no_socket : Target
  socket : ℕ → Connecting → Target

-- Whether the loop of `dial` breaks with the socket; otherwise it closes it.
abbrev pub pending_ok : Pending → Bool
pending_ok broken = false
pending_ok silent = false
pending_ok (writable ok) = ok

abbrev pub connected : Connecting → Bool
connected at_once = true
connected refused = false
connected (in_progress p) = pending_ok p

-- The loop over the candidates: the calls, and the descriptor, `none` for -1.
unfoldable pub dial_loop : List Target → List Call × Option ℕ
dial_loop [] = ([], none)
dial_loop (no_socket ∷ ts) = dial_loop ts
dial_loop (socket fd c ∷ ts) =
    let (calls, found) = dial_loop ts in
    if connected c
    then (opens fd ∷ connects fd ∷ [], some fd)
    else (opens fd ∷ connects fd ∷ closes fd ∷ calls, found)

-- `none` for a name that is not found.
unfoldable pub dial : Option (List Target) → List Call × Option ℕ
unfolding dial_loop
dial none = ([], none)
dial (some ts) = dial_loop ts

-- `ai_family`
pub data Family : Type 0 where
  inet inet6 other_family : Family

-- What the calls of `try_bind` answer.
pub data Binding : Type 0 where
  unopened : Binding
  bind_fails listen_fails listens : ℕ → Binding

-- A candidate of `listen_on`.
pub record Address : Type 0 where
  pub family : Family
  pub binding : Binding

abbrev pub try_bind : Binding → List Call × Option ℕ
try_bind unopened = ([], none)
try_bind (bind_fails fd) = (opens fd ∷ closes fd ∷ [], none)
try_bind (listen_fails fd) = (opens fd ∷ closes fd ∷ [], none)
try_bind (listens fd) = (opens fd ∷ [], some fd)

-- `v6_candidates` and `v4_candidates`
abbrev pub is_inet6 : Family → Bool
is_inet6 inet = false
is_inet6 inet6 = true
is_inet6 other_family = false

abbrev pub is_inet : Family → Bool
is_inet inet = true
is_inet inet6 = false
is_inet other_family = false

abbrev pub candidates : (Family → Bool) → List Address → List Binding
candidates wanted [] = []
candidates wanted (a ∷ rest_of) =
    let rest = candidates wanted rest_of in if wanted a.family then a.binding ∷ rest else rest

-- `for (auto* p : candidates) if ((fd = try_bind(p)) >= 0) break;`
unfoldable pub bind_loop : List Binding → List Call × Option ℕ
bind_loop [] = ([], none)
bind_loop (b ∷ bs) =
    let (calls, found) = try_bind b in
    let (more, later) = bind_loop bs in
    elim found [ some fd ↦ (calls, some fd) | none ↦ (calls ++ more, later) ]

unfoldable pub listen_on : Option (List Address) → List Call × Option ℕ
unfolding bind_loop
listen_on none = ([], none)
listen_on (some addresses) =
    let (calls, found) = bind_loop (candidates is_inet6 addresses) in
    let (more, later) = bind_loop (candidates is_inet addresses) in
    elim found [ some fd ↦ (calls, some fd) | none ↦ (calls ++ more, later) ]

-- ===== src/Feed/TcpLatencyProxy/Accept.antt =====
-- feed/TCPLatencyProxy.cpp, the accept loop of `main`, its cleanup thread and `LogRateLimiter`. What is
-- done under `threads_mutex` is one step. A connection is its socket. Times are nanoseconds of the
-- steady clock. The HTTP answers, which only write to the socket, stand in Connection, and the final
-- cleanup in Main.
pub mod Bounded
pub mod Limiter
use chrono_trade.Common.{
  ℕ, zero, suc, ◌+◌, ◌-◌, ◌*◌, ◌^◌, ◌%◌, min, Bool, true, false, List, [], ◌∷◌, ◌++◌, leb, ltb,
  length, if◌then◌else◌,
}
use chrono_trade.Common.Int.{ℤ, pos, negsuc, ◌-ℤ◌, ◌+ℤ◌, leb_ℤ, ltb_ℤ, sub_ℕ}

abbrev pub k_max_retry_delay : ℕ
k_max_retry_delay = 50

-- `last_log` and `min_interval`.
pub record LogRateLimiter : Type 0 where
  pub last_log : ℤ
  pub min_interval : ℕ

-- `time_point::min()` is -2^63.
abbrev pub new_limiter : ℕ → LogRateLimiter
new_limiter milliseconds = record {
  last_log = negsuc (2 ^ 63 - 1);
  min_interval = milliseconds * 1_000_000;
}

-- A difference of times in 64 bits, as the machine computes it.
abbrev pub wrapped : ℤ → ℤ
wrapped (pos n) =
    if ltb (n % 2 ^ 64) (2 ^ 63) then pos (n % 2 ^ 64) else negsuc (2 ^ 64 - 1 - n % 2 ^ 64)
wrapped (negsuc n) =
    if ltb (n % 2 ^ 64) (2 ^ 63) then negsuc (n % 2 ^ 64) else pos (2 ^ 64 - 1 - n % 2 ^ 64)

-- `should_log` at the time `now`: the limiter after it, and whether to log.
unfoldable pub should_log : LogRateLimiter → ℕ → LogRateLimiter × Bool
should_log l now =
    if leb_ℤ (pos l.min_interval) (wrapped (pos now -ℤ l.last_log))
    then (record l { last_log = pos now }, true)
    else (l, false)

-- What became of an accepted socket: closed at once, closed behind the back-pressure, or handed to a
-- thread.
pub data Fate : Type 0 where
  rejected dropped served : Fate

-- An entry of `connection_threads`, with its `done`.
pub record Connection : Type 0 where
  pub fd : ℕ
  pub is_done : Bool

-- `connection_threads`, `g_accept_backpressure_ms`, the limiter, the fates of the sockets so far, and
-- the threads joined so far.
pub record Server : Type 0 where
  pub connections : List Connection
  pub backpressure_ms : ℕ
  pub limiter : LogRateLimiter
  pub fates : List (ℕ × Fate)
  pub joined : ℕ

abbrev pub new_server : Server
new_server = record {
  connections = [];
  backpressure_ms = 0;
  limiter = new_limiter 5000;
  fates = [];
  joined = 0;
}

-- A round of the cleanup thread: the threads that are done are joined and erased.
abbrev pub running_only : List Connection → List Connection
running_only [] = []
running_only (c ∷ cs) = let rest = running_only cs in if c.is_done then rest else c ∷ rest

abbrev pub count_done : List Connection → ℕ
count_done [] = 0
count_done (c ∷ cs) = if c.is_done then suc (count_done cs) else count_done cs

abbrev pub clean_up : Server → Server
clean_up s = record s {
  connections = running_only s.connections;
  joined = s.joined + count_done s.connections;
}

-- `done->store(true)` of the i-th thread.
abbrev pub end_at : List Connection → ℕ → List Connection
end_at [] i = []
end_at (c ∷ cs) zero = record c { is_done = true } ∷ cs
end_at (c ∷ cs) (suc i) = c ∷ end_at cs i

abbrev pub ended : Server → ℕ → Server
ended s i = record s { connections = end_at s.connections i }

abbrev pub with_fate : Server → ℕ → Fate → Server
with_fate s fd fate = record s { fates = s.fates ++ ((fd, fate) ∷ []) }

abbrev pub logged : Server → ℕ → Server
logged s now = record s { limiter = (should_log s.limiter now).0 }

-- The adaptive back-pressure.
abbrev pub press : ℕ → Server → Server
press max_connections s = record s {
  backpressure_ms =
      if leb max_connections (length s.connections + 4)
      then min (s.backpressure_ms + 5) k_max_retry_delay
      else s.backpressure_ms - 1;
}

-- The first block under the mutex: the server, and whether the socket goes on.
unfoldable pub admit : ℕ → Server → ℕ → ℕ → Server × Bool
unfolding should_log
admit max_connections s fd now =
    if leb max_connections (length s.connections)
    then (with_fate (logged s now) fd rejected, false)
    else (press max_connections s, true)

-- The second block: the limit is tested again, and a thread takes the socket.
unfoldable pub spawn : ℕ → Server → ℕ → ℕ → Server
unfolding should_log
spawn max_connections s fd now =
    if leb max_connections (length s.connections)
    then with_fate (logged s now) fd dropped
    else record (with_fate s fd served) {
      connections = s.connections ++ (record { fd = fd; is_done = false } ∷ []);
    }

-- What other threads do.
pub data Other : Type 0 where
  cleans : Other
  ends : ℕ → Other

abbrev pub other : Server → Other → Server
other s cleans = clean_up s
other s (ends i) = ended s i

abbrev pub others : Server → List Other → Server
others s [] = s
others s (o ∷ os) = others (other s o) os

-- A turn of the accept loop: what the others do before it, the socket, the times at which the limiter
-- is asked, and what the others do during the sleep.
pub record Turn : Type 0 where
  pub before : List Other
  pub fd : ℕ
  pub now : ℕ
  pub during : List Other
  pub later : ℕ

unfoldable pub accept_turn : ℕ → Server → Turn → Server
unfolding admit spawn
accept_turn max_connections s t =
    let (admitted, goes_on) = admit max_connections (others s t.before) t.fd t.now in
    let spawned = spawn max_connections (others admitted t.during) t.fd t.later in
    if goes_on then spawned else admitted

unfoldable pub accept_loop : ℕ → Server → List Turn → Server
unfolding accept_turn
accept_loop max_connections s [] = s
accept_loop max_connections s (t ∷ ts) =
    accept_loop max_connections (accept_turn max_connections s t) ts

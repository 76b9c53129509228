-- ===== src/Feed/Descriptors.antt =====
-- The calls on descriptors that feed/TCPLatencyProxy.cpp, feed/SocketFeedSource.hpp and
-- feed/SharedMemoryFeedSource.hpp make, and what they do to the table of open descriptors.
pub mod Held
use chrono_trade.Common.{
  ℕ, Bool, true, false, ◌&&◌, ◌||◌, Option, none, some, List, [], ◌∷◌, ◌==◌, if◌then◌else◌,
}

-- `socket` or `accept`, `connect`, `close`, `shutdown` of the writing side, `SO_LINGER` of 0 seconds, a
-- write, a read, and the start and the join of a thread that relays from one socket to another.
pub data Call : Type 0 where
  opens connects closes shuts_down lingers reads : ℕ → Call
  writes : ℕ → List ℕ → Call
  starts joins : ℕ → ℕ → Call

abbrev pub holds : List ℕ → ℕ → Bool
holds [] fd = false
holds (x ∷ xs) fd = x == fd || holds xs fd

abbrev pub without : List ℕ → ℕ → List ℕ
without [] fd = []
without (x ∷ xs) fd = if x == fd then xs else x ∷ without xs fd

-- The table after a call; `none` where the call meets a descriptor that is not open, or the kernel
-- gave one that is.
abbrev pub obey : Call → List ℕ → Option (List ℕ)
obey (opens fd) held = if holds held fd then none else some (fd ∷ held)
obey (closes fd) held = if holds held fd then some (without held fd) else none
obey (connects fd) held = if holds held fd then some held else none
obey (shuts_down fd) held = if holds held fd then some held else none
obey (lingers fd) held = if holds held fd then some held else none
obey (reads fd) held = if holds held fd then some held else none
obey (writes fd text) held = if holds held fd then some held else none
obey (starts from to) held = if holds held from && holds held to then some held else none
obey (joins from to) held = if holds held from && holds held to then some held else none

abbrev pub obey_all : List Call → List ℕ → Option (List ℕ)
obey_all [] held = some held
obey_all (c ∷ cs) held = elim (obey c held) [ none ↦ none | some h ↦ obey_all cs h ]

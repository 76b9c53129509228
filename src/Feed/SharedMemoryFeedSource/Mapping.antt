-- ===== src/Feed/SharedMemoryFeedSource/Mapping.antt =====
-- feed/SharedMemoryFeedSource.hpp, `open_shm`, `ring_buffer_size` and the destructor: the descriptor
-- of the shared memory.
use chrono_trade.Common.{
  ℕ, ◌+◌, ◌-◌, ◌*◌, ◌%◌, ◌^◌, ◌<◌, ◌≡◌, refl, false, Option, none, some, List, [], ◌∷◌, ◌++◌, arith,
}
use chrono_trade.Feed.Descriptors.{Call, opens, closes, holds, obey_all}
use chrono_trade.Feed.Descriptors.Held.{obey_all-opened, obey_all-step, obey-opens}

-- What `shm_open`, `ftruncate` and `mmap` answer.
pub data Opening : Type 0 where
  not_opened : Opening
  truncate_fails map_fails mapped : ℕ → Opening

-- The calls, and `fd_` of the source; `none` where the constructor throws.
abbrev pub open_shm : Opening → List Call × Option ℕ
open_shm not_opened = ([], none)
open_shm (truncate_fails fd) = (opens fd ∷ [], none)
open_shm (map_fails fd) = (opens fd ∷ [], none)
open_shm (mapped fd) = (opens fd ∷ [], some fd)

-- A source from its constructor to its destructor, which only runs if the constructor did not throw.
unfoldable pub shm_lifetime : Opening → List Call
shm_lifetime o = elim (open_shm o).1 [
  | none ↦ (open_shm o).0
  | some fd ↦ (open_shm o).0 ++ (closes fd ∷ [])
]

-- `sizeof(Packet)` is 260, and `sizeof(RingBuffer)` 268.
unfoldable pub ring_buffer_size : ℕ → ℕ
ring_buffer_size capacity = (268 + (capacity + 2 ^ 64 - 1) % 2 ^ 64 * 260) % 2 ^ 64

-- The last packet of a ring that is not empty ends with the memory.
pub ring_buffer_size_lem :
    (capacity : ℕ)
    → 0 < capacity
    → 8 + capacity * 260 < 2 ^ 64
    → ring_buffer_size capacity ≡ 8 + capacity * 260
unfolding ring_buffer_size
ring_buffer_size_lem capacity h k = omega arith

-- The descriptors that stay open behind a source.
abbrev pub leaked : Opening → List ℕ → List ℕ
leaked not_opened held = held
leaked (truncate_fails fd) held = fd ∷ held
leaked (map_fails fd) held = fd ∷ held
leaked (mapped fd) held = held

abbrev pub IsFreshOpening : List ℕ → Opening → Type 0
IsFreshOpening held not_opened = Unit {0}
IsFreshOpening held (truncate_fails fd) = holds held fd ≡ false
IsFreshOpening held (map_fails fd) = holds held fd ≡ false
IsFreshOpening held (mapped fd) = holds held fd ≡ false

-- A source whose memory is mapped closes its descriptor; one whose constructor throws behind the
-- opening leaves it open.
shm_lifetime-leaked :
    (held : List ℕ) (o : Opening)
    → IsFreshOpening held o
    → obey_all (shm_lifetime o) held ≡ some (leaked o held)
unfolding shm_lifetime
shm_lifetime-leaked held not_opened h = refl
shm_lifetime-leaked held (truncate_fails fd) h =
    obey_all-step (opens fd) [] held (fd ∷ held) (obey-opens fd held h)
shm_lifetime-leaked held (map_fails fd) h =
    obey_all-step (opens fd) [] held (fd ∷ held) (obey-opens fd held h)
shm_lifetime-leaked held (mapped fd) h = obey_all-opened fd [] held h

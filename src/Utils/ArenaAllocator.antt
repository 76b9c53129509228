-- ===== src/Utils/ArenaAllocator.antt =====
-- utils/ArenaAllocator.hpp: a bump allocator. `base` is the address of the buffer; `size_t` arithmetic
-- wraps at 2^64. An alignment is a power of two, 2^k, so the mask `& ~(alignment - 1)` takes the
-- remainder by it away. `construct` is told whether the constructor of the object throws.
pub mod Place
pub mod Wrap
pub mod Objects
pub mod Memory
use chrono_trade.Common.{Bool, ℕ, ◌+◌, ◌-◌, ◌%◌, ◌^◌, Option, none, some, ltb, if◌then◌else◌}

pub record Arena : Type 0 where
  pub base : ℕ
  pub capacity : ℕ
  pub offset : ℕ

abbrev pub address_mod : ℕ
address_mod = 2 ^ 64

-- `current + alignment - 1`, with the low bits cleared.
abbrev pub align_up : ℕ → ℕ → ℕ
align_up k address = let raised = (address + 2 ^ k - 1) % address_mod in raised - raised % 2 ^ k

unfoldable pub allocate : ℕ → ℕ → Arena → Option (ℕ × Arena)
allocate size k a =
    let current = (a.base + a.offset) % address_mod in
    let aligned = align_up k current in
    let next_offset = (aligned + address_mod - a.base + size) % address_mod in
    if ltb a.capacity next_offset
    then none
    else some (
      (a.base + next_offset + address_mod - size) % address_mod,
      record a { offset = next_offset },
    )

unfoldable pub reset : Arena → Arena
reset a = record a { offset = 0 }

abbrev pub used : Arena → ℕ
used a = a.offset

unfoldable pub available : Arena → ℕ
available a = (a.capacity + address_mod - a.offset) % address_mod

-- The move constructor: the new arena, and what is left of the other. Move assignment leaves the same,
-- after it has deleted the buffer of the arena assigned to.
abbrev pub move : Arena → Arena × Arena
move a = (a, record { base = 0; capacity = 0; offset = 0 })

-- `construct`: the object's address, `std::bad_alloc`, or the exception of the constructor.
pub data Built : Type 0 where
  object : ℕ → Built
  bad_alloc not_built : Built

unfoldable pub construct : ℕ → ℕ → Bool → Arena → Built × Arena
unfolding allocate
construct size k throws a = elim (allocate size k a) [
  | none ↦ (bad_alloc, a)
  | some (p, b) ↦ if throws then (not_built, b) else (object p, b)
]

-- ===== src/Core/OrderBook.antt =====
-- core/OrderBook.hpp: a set of orders with distinct timestamps, in an arena or in a vector. The mutex
-- makes each call one step; the log is left out. `slots` is what `arena_buffer` points to, `none` for
-- the null pointer; a slot is `none` where the constructor of the order threw. `std::sort` is a
-- parameter, that of Utils.SimdSort; the capacity of a vector is one too.
pub mod Insert
pub mod Sorted
use chrono_trade.Common.{
  ℕ, ◌+◌, ◌*◌, ◌%◌, ◌^◌, Bool, true, false, ◌&&◌, ◌||◌, Option, none, some, List, [], ◌∷◌, ◌++◌,
  leb, length, map, if◌then◌else◌,
}
use chrono_trade.Common.Int.{ℤ, leb_ℤ}
use chrono_trade.Common.Result.{Result, ok, err}
use chrono_trade.Common.Float.{Float}
use chrono_trade.Core.Order
use chrono_trade.Core.Order.{Order}
use chrono_trade.Utils.ArenaAllocator.{Arena, allocate}
use chrono_trade.Utils.SimdSort.{Sort, simd_sort_desc}

-- What C++ leaves undefined: a write through the null pointer, and a read of a slot in which no order
-- was constructed.
pub data BookError : Type 0 where
  null_write unset_read : BookError

pub record Book (W : Type 0) : Type 0 where
  pub seen_timestamps : List ℤ
  pub arena : Bool
  pub slots : Option (List (Option (Order W)))
  pub max_orders : ℕ
  pub arena_failures : ℕ
  pub fallback_orders : List (Order W)

-- `seen_timestamps.contains(ts)`
abbrev pub contains : ℤ → List ℤ → Bool
contains ts [] = false
contains ts (t ∷ seen) = leb_ℤ t ts && leb_ℤ ts t || contains ts seen

-- `sizeof(Order)`
abbrev order_size : ℕ
order_size = 24

module _ {W : Type 0} where
  abbrev pub empty : Bool → Option (List (Option (Order W))) → ℕ → Book W
  empty arena slots capacity = record {
    seen_timestamps = [];
    arena = arena;
    slots = slots;
    max_orders = capacity;
    arena_failures = 0;
    fallback_orders = [];
  }

  -- The constructor: the book, and the arena after it. An arena without the room is not used.
  unfoldable pub make : Option Arena → ℕ → Book W × Option Arena
  make none capacity = (empty false none capacity, none)
  make (some a) capacity = elim (allocate (order_size * capacity % 2 ^ 64) 3 a) [
    | none ↦ (empty false none capacity, some a)
    | some (p, b) ↦ (empty true (some []) capacity, some b)
  ]

  unfoldable pub bind_arena : Book W → Bool → Book W
  bind_arena b a = record b { arena = a }

  abbrev pub slot_count : Book W → ℕ
  slot_count b = elim b.slots [ none ↦ 0 | some s ↦ length s ]

  unfoldable pub is_arena_full : Book W → Bool
  is_arena_full b = b.arena && leb b.max_orders (slot_count b)

  unfoldable pub size : Book W → ℕ
  size b = if b.arena then slot_count b else length b.fallback_orders

  -- `capacity`, with that of the vector.
  abbrev pub capacity : Book W → ℕ → ℕ
  capacity b of_vector = if b.arena then b.max_orders else of_vector

  -- `std::vector<Order>(arena_buffer, arena_buffer + arena_count)`
  abbrev pub read_slots : List (Option (Order W)) → Result BookError (List (Order W))
  read_slots [] = ok []
  read_slots (none ∷ s) = err unset_read
  read_slots (some o ∷ s) = elim (read_slots s) [ err e ↦ err e | ok os ↦ ok (o ∷ os) ]

  abbrev pub read_arena : Option (List (Option (Order W))) → Result BookError (List (Order W))
  read_arena none = ok []
  read_arena (some s) = read_slots s

  unfoldable pub snapshot : Book W → Result BookError (List (Order W))
  snapshot b = if b.arena then read_arena b.slots else ok b.fallback_orders

module _ {W : Type 0} ⦃f : Float W⦄ where
  -- `std::copy(tmp.begin(), tmp.end(), arena_buffer)`
  abbrev pub copy_back :
      Option (List (Option (Order W))) → List (Order W) → Option (List (Option (Order W)))
  copy_back none os = none
  copy_back (some s) os = some (map (λ o. some o) os)

  unfoldable pub sort_by_price_desc : Sort (Order W) → Book W → Result BookError (Book W)
  sort_by_price_desc sort b =
      if b.arena
      then (elim (read_arena b.slots) [
        | err e ↦ err e
        | ok tmp ↦ ok (record b { slots = copy_back b.slots (simd_sort_desc sort tmp) })
      ])
      else ok (record b { fallback_orders = simd_sort_desc sort b.fallback_orders })

  -- `arena_buffer[arena_count++]`, and the order constructed there.
  unfoldable pub place : Book W → List (Option (Order W)) → Order W → Book W
  place b s o = elim (Order.make o.price o.amount o.timestamp) [
    | ok copy ↦ record b { slots = some (s ++ (some copy ∷ [])) }
    | err e ↦ record b { slots = some (s ++ (none ∷ [])); arena_failures = b.arena_failures + 1 }
  ]

  unfoldable pub store : Book W → Order W → Result BookError (Book W)
  unfolding place
  store b o =
      if b.arena
      then (if leb b.max_orders (slot_count b)
          then ok (record b { arena_failures = b.arena_failures + 1 })
          else elim b.slots [ none ↦ err null_write | some s ↦ ok (place b s o) ])
      else ok (record b { fallback_orders = b.fallback_orders ++ (o ∷ []) })

  unfoldable pub insert : Book W → Order W → Result BookError (Book W)
  unfolding store
  insert b o =
      if contains o.timestamp b.seen_timestamps
      then ok b
      else store (record b { seen_timestamps = o.timestamp ∷ b.seen_timestamps }) o

  unfoldable pub insert_all : Book W → List (Order W) → Result BookError (Book W)
  unfolding insert
  insert_all b [] = ok b
  insert_all b (o ∷ os) = elim (insert b o) [ err e ↦ err e | ok c ↦ insert_all c os ]

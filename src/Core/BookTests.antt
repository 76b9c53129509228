-- ===== src/Core/BookTests.antt =====
-- Runs of the order book, and its properties applied to them.
use chrono_trade.Common.{
  ℕ, ◌+◌, ◌-◌, ◌≡◌, refl, arith, true, false, none, some, List, [], ◌∷◌, ◌++◌, length, map, take,
}
use chrono_trade.Common.Int.{pos}
use chrono_trade.Common.Result.{ok}
use chrono_trade.Common.Float.{Micros, micro_float, Micros-IsOrdered}
use chrono_trade.Core.Order.{Order}
use chrono_trade.Core.OrderBook.{Book, empty, insert_all}
use mathlib.Core.List.{Perm}
use chrono_trade.Utils.SimdSort.Insertion.{insert, insertion_sort, insertion_sort-IsSort}
use chrono_trade.Utils.SimdSort.Falling.{IsFalling}
use chrono_trade.Core.OrderBook.{snapshot, sort_by_price_desc}
use chrono_trade.Core.OrderBook.Sorted
use chrono_trade.Core.OrderBook.Insert
use chrono_trade.Core.OrderBook.Insert.{distinct}

abbrev order : ℕ → Order Micros
order t = record {
  price = some (pos 101_500_000);
  amount = some (pos 2_000_000);
  timestamp = pos (1_725_000_000 + t);
}

-- The second order repeats the first one's time.
abbrev orders : List (Order Micros)
orders = order 1 ∷ order 1 ∷ order 2 ∷ order 3 ∷ []

abbrev in_vector : Book Micros
in_vector = empty false none 8

abbrev in_arena : Book Micros
in_arena = empty true (some []) 2

insert_all_arena_example :
    (c : Book Micros) × (insert_all in_arena orders ≡ ok c)
    × (c.slots ≡ some ([] ++ map (λ o. some o) (take 2 (distinct [] orders))))
    × (c.arena_failures ≡ 0 + (length (distinct [] orders) - 2))
insert_all_arena_example =
    Insert.insert_all_arena Micros-IsOrdered 2 in_arena [] orders refl refl refl (ground arith)

-- Orders of three prices, in an arena.
abbrev priced : ℕ → Order Micros
priced p = record {
  price = some (pos p);
  amount = some (pos 2_000_000);
  timestamp = pos (1_725_000_000 + p);
}

abbrev mixed : List (Order Micros)
mixed = priced 5 ∷ priced 9 ∷ priced 7 ∷ []

abbrev unsorted : Book Micros
unsorted = record (empty true (some (map (λ o. some o) mixed)) 4) { arena_failures = 1 }

shown : snapshot unsorted ≡ ok mixed
unfolding snapshot
shown = refl

falls :
    sort_by_price_desc insertion_sort unsorted
    ≡ ok
        (record unsorted { slots = some (map (λ o. some o) (priced 9 ∷ priced 7 ∷ priced 5 ∷ [])) })
unfolding sort_by_price_desc insertion_sort insert
falls = refl

sort_by_price_desc-IsFalling_example :
    (c : Book Micros) × (ys : List (Order Micros)) × (sort_by_price_desc insertion_sort unsorted
      ≡ ok c)
    × (snapshot c ≡ ok ys)
    × Perm ys mixed
    × IsFalling ys
    × (c.seen_timestamps ≡ unsorted.seen_timestamps)
    × (c.arena_failures ≡ unsorted.arena_failures)
sort_by_price_desc-IsFalling_example =
    Sorted.sort_by_price_desc-IsFalling Micros-IsOrdered insertion_sort-IsSort unsorted mixed shown
      (refl, (refl, (refl, tt)))

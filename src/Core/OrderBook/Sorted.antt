-- ===== src/Core/OrderBook/Sorted.antt =====
-- What sorting does to a book.
use chrono_trade.Common.{
  if◌then◌else◌, ◌≡◌, inl, inr, refl, sym, ◌∙◌, ap, Option, none, some, List, [], ◌∷◌, map, All,
  arith, Bool-cases,
}
use mathlib.Core.List.{Perm}
use mathlib.Core.List.Perm
use chrono_trade.Common.Result.{Result, ok}
use chrono_trade.Common.Float.{Float, IsOrdered}
use chrono_trade.Core.Order.{Order}
use chrono_trade.Utils.SimdSort.{Sort, IsSort, simd_sort_desc}
use chrono_trade.Utils.SimdSort.Falling.{Priced, IsFalling, simd_sort_desc-IsFalling}
use chrono_trade.Core.OrderBook.{
  BookError, Book, read_slots, read_arena, copy_back, snapshot, sort_by_price_desc,
}

module _ {W : Type 0} ⦃f : Float W⦄ where
  read_slots-map : (os : List (Order W)) → read_slots (map (λ o. some o) os) ≡ ok os
  read_slots-map [] = refl
  read_slots-map (o ∷ os) = rw (read_slots-map os) refl

  ok_value :
      {xs : List (Order W)} {r : List (Order W)}
      → ◌≡◌ {A = Result BookError (List (Order W))} (ok r) (ok xs)
      → r ≡ xs
  ok_value e = cc

  -- What is copied back is what the arena then shows.
  read_arena-copy_back :
      (slots : Option (List (Option (Order W)))) (xs ys : List (Order W))
      → read_arena slots ≡ ok xs
      → Perm ys xs
      → read_arena (copy_back slots ys) ≡ ok ys
  read_arena-copy_back none xs ys e p = ap ok (sym (Perm.eq-nil (rw (ok_value e) p)))
  read_arena-copy_back (some s) xs ys e p = read_slots-map ys

  -- Sorting a book whose prices are finite gives a book with the same orders in which no later one is
  -- dearer, with the same timestamps seen and the same failures counted, in an arena or in a vector.
  pub sort_by_price_desc-IsFalling :
      (laws : IsOrdered W) {sort : Sort (Order W)} (s : IsSort (Order W) sort) (b : Book W)
      (xs : List (Order W))
      → snapshot b ≡ ok xs
      → All Priced xs
      → (c : Book W) × (ys : List (Order W)) × (sort_by_price_desc sort b ≡ ok c)
        × (snapshot c ≡ ok ys)
        × Perm ys xs
        × IsFalling ys
        × (c.seen_timestamps ≡ b.seen_timestamps)
        × (c.arena_failures ≡ b.arena_failures)
  unfolding snapshot sort_by_price_desc
  sort_by_price_desc-IsFalling laws {sort} s b xs e ps = elim (Bool-cases b.arena) [
    | inl on ↦
        let read : read_arena b.slots ≡ ok xs =
          sym (ap (λ a. if a then read_arena b.slots else ok b.fallback_orders) on) ∙ e in
        let (p, falling) = simd_sort_desc-IsFalling laws s xs ps in
        let ys = simd_sort_desc sort xs in
        let slots = copy_back b.slots ys in
        (
          record b { slots = slots },
          ys,
          ground arith,
          ap (λ a. if a then read_arena slots else ok b.fallback_orders) on
              ∙ read_arena-copy_back b.slots xs ys read p,
          p,
          falling,
          refl,
          refl,
        )
    | inr off ↦
        let same : b.fallback_orders ≡ xs =
          ok_value
            (sym (ap (λ a. if a then read_arena b.slots else ok b.fallback_orders) off) ∙ e) in
        let (p, falling) = simd_sort_desc-IsFalling laws s xs ps in
        let ys = simd_sort_desc sort xs in
        (
          record b { fallback_orders = ys },
          ys,
          ground arith,
          ap (λ a. if a then read_arena b.slots else ok ys) off,
          p,
          falling,
          refl,
          refl,
        )
  ]

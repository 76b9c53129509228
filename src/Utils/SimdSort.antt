-- ===== src/Utils/SimdSort.antt =====
-- utils/SimdSort.hpp: orders by falling price. `std::sort` is a parameter, since it may leave orders
-- that compare alike in any order; `IsSort` is what its documentation says, and `Insertion` has a sort
-- for which it holds. The time that is measured and the log are left out.
pub mod Insertion
pub mod Falling
use chrono_trade.Common.{ℕ, ◌≡◌, Bool, true, false, List, [], ◌∷◌, All}
use mathlib.Core.List.{Perm}
use chrono_trade.Common.Float.{Float}
use chrono_trade.Core.Order.{Order}

-- `std::sort(begin, end, comp)`
abbrev pub Sort : Type 0 → Type 0
Sort A = (A → A → Bool) → List A → List A

-- A strict weak order on the values in P.
pub record IsWeakOrder {A : Type 0} (less : A → A → Bool) (P : A → Type 0) : Type 0 where
  pub irreflexive : (a : A) → P a → less a a ≡ false
  pub transitive :
      (a b c : A) → P a → P b → P c → less a b ≡ true → less b c ≡ true → less a c ≡ true
  pub incomparable :
      (a b c : A) → P a → P b → P c → less a b ≡ false → less b c ≡ false → less a c ≡ false

-- No later value is less than an earlier one.
abbrev pub InOrder : {A : Type 0} → (A → A → Bool) → List A → Type 0
InOrder less [] = Unit {0}
InOrder less (x ∷ xs) = All (λ y. less y x ≡ false) xs × InOrder less xs

-- What `std::sort` promises: the values, rearranged, and in order if `comp` is a strict weak order.
pub record IsSort (A : Type 0) (sort : Sort A) : Type 1 where
  pub sort-perm : (less : A → A → Bool) (xs : List A) → Perm (sort less xs) xs
  pub sort-InOrder :
      (less : A → A → Bool) (P : A → Type 0) (xs : List A)
      → IsWeakOrder less P
      → All P xs
      → InOrder less (sort less xs)

module _ {W : Type 0} ⦃f : Float W⦄ where
  -- `a.price > b.price`
  abbrev pub dearer : Order W → Order W → Bool
  dearer a b = f.lt b.price a.price

  abbrev pub simd_sort_desc : Sort (Order W) → List (Order W) → List (Order W)
  simd_sort_desc sort orders = sort dearer orders

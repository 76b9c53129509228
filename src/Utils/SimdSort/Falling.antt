-- ===== src/Utils/SimdSort/Falling.antt =====
-- Prices fall in what `simd_sort_desc` leaves.
use chrono_trade.Common.{◌≡◌, ap, ◌∙◌, true, false, List, [], ◌∷◌, All, arith}
use mathlib.Core.Logic.Or
use mathlib.Core.List.{Perm, Mem, not-mem-nil, mem-cons, mem-cons_self}
use mathlib.Core.List.Perm
use chrono_trade.Common.Float.{Float, IsOrdered, ◌≼◌}
use chrono_trade.Core.Order.{Order}
use chrono_trade.Utils.SimdSort.{Sort, IsWeakOrder, InOrder, IsSort, dearer, simd_sort_desc}

module _ {W : Type 0} ⦃f : Float W⦄ where
  abbrev pub Priced : Order W → Type 0
  Priced o = f.is_finite o.price ≡ true

  Priced-prop : (o : Order W) → IsProp (Priced o)
  Priced-prop o = hlevel

  -- No later order is dearer than an earlier one.
  abbrev pub IsFalling : List (Order W) → Type 0
  IsFalling [] = Unit {0}
  IsFalling (x ∷ xs) = All (λ y. y.price ≼ x.price) xs × IsFalling xs

  module _ (laws : IsOrdered W) where
    open laws use {le_refl, le_trans, lt-eq-not-le, lt_le, le_total}

    dearer-IsWeakOrder : IsWeakOrder dearer Priced
    dearer-IsWeakOrder = record {
      irreflexive = λ a p. ground (arith, lt-eq-not-le a.price a.price p p, le_refl a.price p);
      transitive = λ a b c p q r e d. ground (
        arith,
        lt-eq-not-le c.price a.price r p,
        lt-eq-not-le b.price a.price q p,
        le_trans a.price c.price b.price,
        lt_le c.price b.price d,
      );
      incomparable = λ a b c p q r e d. ground (
        arith,
        lt-eq-not-le c.price a.price r p,
        lt-eq-not-le b.price a.price q p,
        lt-eq-not-le c.price b.price r q,
        le_trans a.price b.price c.price,
      );
    }

    Priced-mem : (o : Order W) (xs : List (Order W)) → All Priced xs → Mem o xs → Priced o
    Priced-mem o [] h m = absurd (not-mem-nil m)
    Priced-mem o (x ∷ xs) h m =
        Or.elim (Priced-prop o) (mem-cons.0 m) (λ e. ap (λ y. f.is_finite y.price) e ∙ h.0)
          (Priced-mem o xs h.1)

    Priced-all : (xs : List (Order W)) → ((o : Order W) → Mem o xs → Priced o) → All Priced xs
    Priced-all [] h = tt
    Priced-all (x ∷ xs) h = (h x mem-cons_self, Priced-all xs (λ o m. h o (mem-cons.1 (Or.inr m))))

    All-below :
        (x : Order W) (ys : List (Order W))
        → Priced x
        → All Priced ys
        → All (λ y. dearer y x ≡ false) ys
        → All (λ y. y.price ≼ x.price) ys
    All-below x [] p ps h = tt
    All-below x (y ∷ ys) p ps h =
        (ground (arith, lt-eq-not-le x.price y.price p ps.0), All-below x ys p ps.1 h.1)

    InOrder-IsFalling : (xs : List (Order W)) → All Priced xs → InOrder dearer xs → IsFalling xs
    InOrder-IsFalling [] ps h = tt
    InOrder-IsFalling (x ∷ xs) ps h = (All-below x xs ps.0 ps.1 h.0, InOrder-IsFalling xs ps.1 h.1)

    -- Orders of finite prices are rearranged so that no later one is dearer.
    pub simd_sort_desc-IsFalling :
        {sort : Sort (Order W)} (s : IsSort (Order W) sort) (xs : List (Order W))
        → All Priced xs
        → Perm (simd_sort_desc sort xs) xs × IsFalling (simd_sort_desc sort xs)
    simd_sort_desc-IsFalling {sort} s xs ps =
        let p = s.sort-perm dearer xs in
        let priced =
          Priced-all (sort dearer xs) (λ o m. Priced-mem o xs ps ((Perm.mem_iff p).0 m)) in
        (
          p,
          InOrder-IsFalling (sort dearer xs) priced
              (s.sort-InOrder dearer Priced xs dearer-IsWeakOrder ps),
        )

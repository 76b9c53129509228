-- ===== src/Utils/SimdSort/Insertion.antt =====
-- A sort for which the promises of `std::sort` hold.
use chrono_trade.Common.{
  ◌≡◌, inl, inr, Bool, true, false, List, [], ◌∷◌, All, if◌then◌else◌, arith, Bool-cases,
}
use mathlib.Core.List.{Perm}
use mathlib.Core.List.Perm
use chrono_trade.Utils.SimdSort.{Sort, IsWeakOrder, InOrder, IsSort}

module _ {A : Type 0} where
  unfoldable pub insert : (A → A → Bool) → A → List A → List A
  insert less x [] = x ∷ []
  insert less x (y ∷ ys) = if less x y then x ∷ (y ∷ ys) else y ∷ insert less x ys

  unfoldable pub insertion_sort : Sort A
  unfolding insert
  insertion_sort less [] = []
  insertion_sort less (x ∷ xs) = insert less x (insertion_sort less xs)

  insert-perm : (less : A → A → Bool) (x : A) (xs : List A) → Perm (insert less x xs) (x ∷ xs)
  unfolding insert
  insert-perm less x [] = Perm.rfl
  insert-perm less x (y ∷ ys) = elim (Bool-cases (less x y)) [
    | inl e ↦ rw (insert, e) Perm.rfl
    | inr e ↦ rw (insert, e) (Perm.trans (Perm.cons y (insert-perm less x ys)) (Perm.swap x y ys))
  ]

  insertion_sort-perm : (less : A → A → Bool) (xs : List A) → Perm (insertion_sort less xs) xs
  unfolding insertion_sort
  insertion_sort-perm less [] = Perm.rfl
  insertion_sort-perm less (x ∷ xs) =
      Perm.trans (insert-perm less x (insertion_sort less xs))
        (Perm.cons x (insertion_sort-perm less xs))

  All-insert :
      (Q : A → Type 0) (less : A → A → Bool) (x : A) (xs : List A)
      → Q x
      → All Q xs
      → All Q (insert less x xs)
  unfolding insert
  All-insert Q less x [] q h = (q, tt)
  All-insert Q less x (y ∷ ys) q h = elim (Bool-cases (less x y)) [
    | inl e ↦ rw (insert, e) (q, h)
    | inr e ↦ rw (insert, e) (h.0, All-insert Q less x ys q h.1)
  ]

  All-insertion_sort :
      (Q : A → Type 0) (less : A → A → Bool) (xs : List A)
      → All Q xs
      → All Q (insertion_sort less xs)
  unfolding insertion_sort
  All-insertion_sort Q less [] h = tt
  All-insertion_sort Q less (x ∷ xs) h =
      All-insert Q less x (insertion_sort less xs) h.0 (All-insertion_sort Q less xs h.1)

  module _ (less : A → A → Bool) (P : A → Type 0) (order : IsWeakOrder less P) where
    open order use {irreflexive, transitive, incomparable}

    not_less : (a b : A) → P a → P b → less a b ≡ true → less b a ≡ false
    not_less a b p q e = elim (Bool-cases (less b a)) [
      | inl back ↦ absurd (ground (arith, transitive a b a p q p e back, irreflexive a p))
      | inr no_less ↦ no_less
    ]

    All-above :
        (x y : A) (zs : List A)
        → P x
        → P y
        → All P zs
        → less y x ≡ false
        → All (λ z. less z y ≡ false) zs
        → All (λ z. less z x ≡ false) zs
    All-above x y [] p q ps e h = tt
    All-above x y (z ∷ zs) p q ps e h =
        (incomparable z y x ps.0 q p h.0 e, All-above x y zs p q ps.1 e h.1)

    insert-InOrder :
        (x : A) (ys : List A) → P x → All P ys → InOrder less ys → InOrder less (insert less x ys)
    unfolding insert
    insert-InOrder x [] p ps h = (tt, tt)
    insert-InOrder x (y ∷ ys) p ps h = elim (Bool-cases (less x y)) [
      | inl e ↦
          let back = not_less x y p ps.0 e in
          rw (insert, e) ((back, All-above x y ys p ps.0 ps.1 back h.0), h)
      | inr e ↦
          rw (insert, e)
            (All-insert (λ z. less z y ≡ false) less x ys e h.0, insert-InOrder x ys p ps.1 h.1)
    ]

    insertion_sort-InOrder : (xs : List A) → All P xs → InOrder less (insertion_sort less xs)
    unfolding insertion_sort
    insertion_sort-InOrder [] ps = tt
    insertion_sort-InOrder (x ∷ xs) ps =
        insert-InOrder x (insertion_sort less xs) ps.0 (All-insertion_sort P less xs ps.1)
          (insertion_sort-InOrder xs ps.1)

  pub insertion_sort-IsSort : IsSort A insertion_sort
  insertion_sort-IsSort = record {
    sort-perm = insertion_sort-perm;
    sort-InOrder = λ less P xs order ps. insertion_sort-InOrder less P order xs ps;
  }

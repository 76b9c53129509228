-- ===== src/Utils/ArenaAllocator/Place.antt =====
-- Where an allocation lies.
use native.Mathlib.Nat.{mod-lt, mod-eq_of_lt, add-mul-mod_self_right, div-add-mod', add-mod_right}
use mathlib.Core.Path.{subst}
use chrono_trade.Common.{
  ℕ, true, false, ◌+◌, ◌-◌, ◌*◌, ◌/◌, ◌%◌, ◌^◌, ◌≤◌, ◌<◌, ◌≡◌, refl, arith, some, ltb, Bool-cases,
  inl, inr, ltb-false→le, sym, ◌∙◌, ap,
}
use chrono_trade.Utils.ArenaAllocator.{Arena, address_mod, align_up, allocate}

-- The buffer, and what lies behind it as far as an alignment and a size reach, do not wrap.
pub record Fits (a : Arena) (size k : ℕ) : Type 0 where
  pub inside : a.offset ≤ a.capacity
  pub low : a.base + a.capacity + 2 ^ k + size < address_mod
  pub some_alignment : 0 < 2 ^ k

-- The address and the arena after an allocation of `size` bytes at a multiple of 2^k.
pub record Placed (a : Arena) (size k p : ℕ) (b : Arena) : Type 0 where
  pub aligned : p % 2 ^ k ≡ 0
  pub behind : a.base + a.offset ≤ p
  pub ends : p + size ≡ b.base + b.offset
  pub held : b.offset ≤ b.capacity
  pub same_base : b.base ≡ a.base
  pub same_capacity : b.capacity ≡ a.capacity

less_rest : (x m : ℕ) → 0 < m → (x - x % m) % m ≡ 0
less_rest x m h = ap (λ y. y % m) multiple ∙ add-mul-mod_self_right 0 (x / m) m ∙ mod-eq_of_lt h
  where
    multiple : x - x % m ≡ 0 + x / m * m
    multiple = omega (arith, div-add-mod' x m)

module _ (a : Arena) (size k : ℕ) (h : Fits a size k) where
  abbrev up : ℕ
  up = align_up k ((a.base + a.offset) % address_mod)

  up_lem : (up % 2 ^ k ≡ 0) × (a.base + a.offset ≤ up) × (up < a.base + a.offset + 2 ^ k)
  up_lem =
      let current : (a.base + a.offset) % address_mod ≡ a.base + a.offset =
        mod-eq_of_lt (omega (arith, h.inside, h.low)) in
      let raised : (a.base + a.offset + 2 ^ k - 1) % address_mod ≡ a.base + a.offset + 2 ^ k - 1 =
        mod-eq_of_lt (omega (arith, h.inside, h.low)) in
      rw (current, raised)
        (
          less_rest (a.base + a.offset + 2 ^ k - 1) (2 ^ k) h.some_alignment,
          omega (
            arith,
            mod-lt (a.base + a.offset + 2 ^ k - 1) {m = 2 ^ k} h.some_alignment,
            h.some_alignment,
          ),
          omega (arith, h.some_alignment),
        )

  next : ℕ
  next = (up + address_mod - a.base + size) % address_mod

  next_lem : next ≡ up - a.base + size
  unfolding next
  next_lem =
      ap (λ x. x % address_mod) move
      ∙ add-mod_right (up - a.base + size) address_mod
      ∙ mod-eq_of_lt (omega (arith, up_lem.2, h.inside, h.low))
    where
      move : up + address_mod - a.base + size ≡ up - a.base + size + address_mod
      move = omega (arith, up_lem.1)

  place_lem : (a.base + next + address_mod - size) % address_mod ≡ up
  place_lem =
      ap (λ x. x % address_mod) move
      ∙ add-mod_right up address_mod
      ∙ mod-eq_of_lt (omega (arith, up_lem.2, h.inside, h.low))
    where
      move : a.base + next + address_mod - size ≡ up + address_mod
      move = omega (arith, next_lem, up_lem.1)

  -- An allocation that succeeds lies inside the buffer, behind all that was given out before, at a
  -- multiple of its alignment, and the arena goes on right behind it, if the sizes are so small that
  -- no address wraps.
  pub allocate-Placed : (p : ℕ) (b : Arena) → allocate size k a ≡ some (p, b) → Placed a size k p b
  unfolding allocate next
  allocate-Placed p b e = elim (Bool-cases (ltb a.capacity next)) [
    | inl l ↦ absurd (fails l)
    | inr l ↦
        let (q, c) = fields l in
        let held : next ≤ a.capacity = ltb-false→le a.capacity next l in
        subst (λ r. Placed a size k r b) (sym place_lem ∙ q)
          (subst (Placed a size k up) c (record {
            aligned = up_lem.0;
            behind = up_lem.1;
            ends = omega (arith, next_lem, up_lem.1);
            held = held;
            same_base = refl;
            same_capacity = refl;
          }))
  ]
    where
      fails : ltb a.capacity next ≡ true → ⊥
      fails l = ground arith

      fields :
          ltb a.capacity next ≡ false
          → ((a.base + next + address_mod - size) % address_mod ≡ p)
            × (◌≡◌ {A = Arena} (record a { offset = next }) b)
      fields l = (ground arith, ground arith)

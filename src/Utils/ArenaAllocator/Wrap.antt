-- ===== src/Utils/ArenaAllocator/Wrap.antt =====
-- What an allocation does with a size close to 2^64.
use native.Mathlib.Nat.{mod-eq_of_lt, add-mod_right, mod-one}
use chrono_trade.Common.{ℕ, ◌+◌, ◌-◌, ◌%◌, ◌≤◌, ◌<◌, ◌≡◌, ◌∙◌, ap, refl, arith, some, le→ltb-false}
use chrono_trade.Utils.ArenaAllocator.{Arena, address_mod, align_up, allocate}

-- A size of 2^64 - x passes the check of the capacity when x bytes are in use: the sum wraps, the
-- arena goes back by x bytes, and the memory given out lies in what was given out before.
pub allocate_wraps :
    (a : Arena) (x : ℕ)
    → 0 < x
    → x ≤ a.offset
    → a.offset ≤ a.capacity
    → a.base + a.offset + 1 < address_mod
    → allocate (address_mod - x) 0 a ≡ some (a.base + a.offset, record a { offset = a.offset - x })
unfolding allocate
allocate_wraps a x h used inside low =
    let up : align_up 0 ((a.base + a.offset) % address_mod) ≡ a.base + a.offset =
      ap (align_up 0) (mod-eq_of_lt (omega arith)) ∙ raise in
    let next : (a.base + a.offset + address_mod - a.base + (address_mod - x)) % address_mod
        ≡ a.offset - x =
      ap (λ n. n % address_mod) move
      ∙ add-mod_right (a.offset - x + address_mod) address_mod
      ∙ add-mod_right (a.offset - x) address_mod
      ∙ mod-eq_of_lt (omega arith) in
    let place : (a.base + (a.offset - x) + address_mod - (address_mod - x)) % address_mod
        ≡ a.base + a.offset =
      ap (λ n. n % address_mod) back ∙ mod-eq_of_lt (omega arith) in
    rw (allocate, up, next, place, le→ltb-false a.capacity (a.offset - x) (omega arith)) refl
  where
    raise : align_up 0 (a.base + a.offset) ≡ a.base + a.offset
    raise =
        rw (align_up, mod-one ((a.base + a.offset + 1 - 1) % address_mod))
          (ap (λ n. n % address_mod - 0) same
            ∙ omega (arith, mod-eq_of_lt {n = a.base + a.offset} {m = address_mod} (omega arith)))
      where
        same : a.base + a.offset + 1 - 1 ≡ a.base + a.offset
        same = omega arith

    move :
        a.base + a.offset + address_mod - a.base + (address_mod - x)
        ≡ a.offset - x + address_mod + address_mod
    move = omega arith

    back : a.base + (a.offset - x) + address_mod - (address_mod - x) ≡ a.base + a.offset
    back = omega arith

-- ===== src/Common/Float.antt =====
-- What the program does with a `double`. The language has no floats, so the type and its operations
-- are a parameter: `Float W` are the operations that the code calls, and `IsOrdered W` the facts of
-- IEEE-754 comparison that the proofs rest on. Micros shows that they can be met.
use Prim.Native.Nat.{ℕ, zero, suc, ◌+◌, ◌*◌, ◌/◌, ◌^◌, ◌<◌, ◌≤◌}
use native.Mathlib.Nat.{
  div-mul-le_self, le-div_iff_mul-le, le_of_mul-le-mul_right, mul-le-mul_right,
}
use mathlib.Core.Path.{◌≡◌}
use mathlib.Core.Logic.{◌⊎◌}
use mathlib.Core.Bool.{Bool, true, false, not}
use mathlib.Core.Option.{Option, none, some}
use native.Mathlib.Omega.{arith}
use chrono_trade.Common.Tests.{◌==◌, le→leb}
use chrono_trade.Common.Int.{ℤ, pos, pos_part, neg_part, ◌+ℤ◌, ◌-ℤ◌, ◌*ℤ◌, div_ℤ, ltb_ℤ, leb_ℤ}

pub record Float (W : Type 0) : Type 0 where
  -- The decimal literal n · 10⁻ᵏ: `lit 1 4` is 0.0001, `lit 1005 1` is 100.5.
  pub lit : ℕ → ℕ → W
  pub is_finite : W → Bool
  pub lt : W → W → Bool
  pub le : W → W → Bool
  pub eq : W → W → Bool
  pub add : W → W → W
  pub sub : W → W → W
  pub mul : W → W → W
  pub div : W → W → W
  pub sqrt : W → W

infix 4 ◌≼◌
abbrev pub ◌≼◌ : {W : Type 0} ⦃f : Float W⦄ → W → W → Type 0
◌≼◌ ⦃f⦄ x y = f.le x y ≡ true

-- Comparison of finite doubles is a total order, `<` is its strict part, and `<=` fails at NaN.
pub record IsOrdered (W : Type 0) ⦃f : Float W⦄ : Type 0 where
  pub le_refl : (x : W) → f.is_finite x ≡ true → x ≼ x
  pub le_trans : (x y z : W) → x ≼ y → y ≼ z → x ≼ z
  pub lt-eq-not-le :
      (x y : W) → f.is_finite x ≡ true → f.is_finite y ≡ true → f.lt x y ≡ not (f.le y x)
  pub lt_le : (x y : W) → f.lt x y ≡ true → x ≼ y
  pub le_total : (x y : W) → f.is_finite x ≡ true → f.is_finite y ≡ true → (x ≼ y) ⊎ (y ≼ x)
  -- A literal below 10⁹ is finite and not negative, and a finite sum of such values is neither.
  pub lit_finite : (n k : ℕ) → n < 10 ^ 9 → f.is_finite (f.lit n k) ≡ true
  -- Rounding a decimal literal keeps the order.
  pub lit_le : (a j b k : ℕ) → a * 10 ^ k ≤ b * 10 ^ j → f.lit a j ≼ f.lit b k
  pub lit_nonneg : (n k : ℕ) → f.lit 0 0 ≼ f.lit n k
  pub add_nonneg :
      (x y : W)
      → f.lit 0 0 ≼ x
      → f.lit 0 0 ≼ y
      → f.is_finite (f.add x y) ≡ true
      → f.lit 0 0 ≼ f.add x y

-- Signed millionths, with `none` for NaN.
abbrev pub Micros : Type 0
Micros = Option ℤ

abbrev on_numbers {ℓ} : {A : Type ℓ} → A → (ℤ → ℤ → A) → Micros → Micros → A
on_numbers d g none _ = d
on_numbers d g (some a) none = d
on_numbers d g (some a) (some b) = g a b

abbrev micro_finite : Micros → Bool
micro_finite none = false
micro_finite (some a) = true

abbrev micro_eq : ℤ → ℤ → Bool
micro_eq a b = (pos_part a + neg_part b) == (pos_part b + neg_part a)

-- An integer square root by trial, from a bound downwards.
abbrev root_below : ℕ → ℕ → ℕ
root_below zero n = 0
root_below (suc b) n =
    let rest = root_below b n in
    elim (ltb_ℤ (pos n) (pos (suc b * suc b))) [ true ↦ rest | false ↦ suc b ]

abbrev micro_sqrt : Micros → Micros
micro_sqrt none = none
micro_sqrt (some a) = some (pos (root_below (pos_part a) (pos_part a) * 1000))

abbrev million : ℕ
million = 10 ^ 6

instance abbrev pub micro_float : Float Micros
micro_float = record {
  lit = λ n k. some (pos (n * million / 10 ^ k));
  is_finite = micro_finite;
  lt = on_numbers false ltb_ℤ;
  le = on_numbers false leb_ℤ;
  eq = on_numbers false micro_eq;
  add = on_numbers none (λ a b. some (a +ℤ b));
  sub = on_numbers none (λ a b. some (a -ℤ b));
  mul = on_numbers none (λ a b. some (div_ℤ (a *ℤ b) (pos million)));
  div = on_numbers none (λ a b. some (div_ℤ (a *ℤ pos million) b));
  sqrt = micro_sqrt;
}

pow_pos : (k : ℕ) → 0 < 10 ^ k
pow_pos zero = omega arith
pow_pos (suc k) = omega (arith, pow_pos k)

scaled_le : (a b m j k : ℕ) → 0 < j → 0 < k → a * k ≤ b * j → a * m / j ≤ b * m / k
scaled_le a b m j k hj hk h = (le-div_iff_mul-le hk).1 (le_of_mul-le-mul_right {k = j} step hj)
  where
    step : a * m / j * k * j ≤ b * m * j
    step = omega (arith, mul-le-mul_right k (div-mul-le_self (a * m) j), mul-le-mul_right m h)

pub Micros-IsOrdered : IsOrdered Micros
Micros-IsOrdered = record {
  le_refl = λ x h. ground arith;
  le_trans = λ x y z h k. ground arith;
  lt-eq-not-le = λ x y h k. ground arith;
  lt_le = λ x y h. ground arith;
  le_total = λ x y h k. ground arith;
  lit_finite = λ n k h. ground arith;
  lit_le = λ a j b k h.
      le→leb _ _ (omega (arith, scaled_le a b million (10 ^ j) (10 ^ k) (pow_pos j) (pow_pos k) h));
  lit_nonneg = λ n k. ground arith;
  add_nonneg = λ x y h k e. ground arith;
}

-- ===== src/Security/SecurityAwareLogger/Numbered.antt =====
-- Sequence numbers under any interleaving.
use chrono_trade.Common.{
  ℕ, zero, suc, ◌+◌, ◌≡◌, ◌∙◌, ap, some, List, [], ◌∷◌, ◌++◌, get_elem?, remove_at, ◌==◌, ltb,
  if◌then◌else◌, arith,
}
use chrono_trade.Security.SecurityAwareLogger.{
  Entry, Logger, new_logger, Step, takes, writes, Runs, start, next,
}

-- How many entries have the number.
abbrev pub uses : ℕ → List Entry → ℕ
uses n [] = 0
uses n (e ∷ es) = (if e.seq == n then 1 else 0) + uses n es

uses-append : (n : ℕ) (xs ys : List Entry) → uses n (xs ++ ys) ≡ uses n xs + uses n ys
uses-append n [] ys = omega arith
uses-append n (x ∷ xs) ys = omega (arith, uses-append n xs ys)

uses-remove_at :
    (n : ℕ) (es : List Entry) (i : ℕ) (e : Entry)
    → get_elem? es i ≡ some e
    → uses n (remove_at es i) + uses n (e ∷ []) ≡ uses n es
uses-remove_at n [] i e h = absurd (ground arith)
uses-remove_at n (x ∷ xs) zero e h =
    let same : x ≡ e = ground arith in omega (arith, ap (λ z. uses n (z ∷ [])) same)
uses-remove_at n (x ∷ xs) (suc i) e h = omega (arith, uses-remove_at n xs i e h)

-- Every number below the next one has been taken by one call, and no other number by any.
pub record IsNumbered (l : Logger) : Type 0 where
  pub once : (n : ℕ) → uses n l.pending + uses n l.written ≡ (if ltb n l.sequence then 1 else 0)

step-IsNumbered : (l m : Logger) → Step l m → IsNumbered l → IsNumbered m
step-IsNumbered l m (takes ms tid level message) h = record { once = λ n. taken n (h.once n) }
  where
    taken :
        (n : ℕ)
        → uses n l.pending + uses n l.written ≡ (if ltb n l.sequence then 1 else 0)
        → (if l.sequence == n then 1 else 0) + uses n l.pending + uses n l.written
          ≡ (if ltb n (l.sequence + 1) then 1 else 0)
    taken n e = ground arith
step-IsNumbered l m (writes i e h) k = record {
  once = λ n.
      omega (arith, uses-remove_at n l.pending i e h, uses-append n l.written (e ∷ [])) ∙ k.once n;
}

runs-IsNumbered : (l m : Logger) → Runs l m → IsNumbered l → IsNumbered m
runs-IsNumbered l m start h = h
runs-IsNumbered l m (next {m = k} run step) h = step-IsNumbered k m step (runs-IsNumbered l k run h)

-- However the calls of log interleave, every sequence number below the next one stands in exactly one
-- call, in its line or on its way to it, and no other number stands in any.
pub new_logger-IsNumbered : (l : Logger) → Runs new_logger l → IsNumbered l
new_logger-IsNumbered l run = runs-IsNumbered new_logger l run (record { once = λ n. ground arith })

-- ===== src/Utils/FixedWindow/Valid.antt =====
-- The representation invariant of the window, and the list that a window stands for.
use chrono_trade.Common.{
  ℕ, zero, suc, ◌+◌, ◌-◌, ◌%◌, ◌^◌, ◌≤◌, ◌<◌, ◌≡◌, Option, none, some, List, [], ◌∷◌, arith,
  get_elem?, length, length-set, length-replicate,
}
use chrono_trade.Common.Result.{ok}
use chrono_trade.Utils.FixedWindow.{Window, make, push}

module _ {ℓ} {A : Type ℓ} where
  pub record IsValid (w : Window A) : Type 0 where
    pub storage : length w.buffer ≡ w.max_capacity
    pub small : w.max_capacity ≤ 2 ^ 62
    pub head_in : w.head < w.max_capacity
    pub count_in : w.count ≤ w.max_capacity

  -- A vector has fewer than 2^62 elements, so a window that is constructed is valid and empty.
  pub make-IsValid :
      (blank : A) (capacity : ℕ) {w : Window A}
      → capacity ≤ 2 ^ 62
      → make blank capacity ≡ ok w
      → IsValid w × (w.count ≡ 0) × (w.max_capacity ≡ capacity)
  unfolding make
  make-IsValid blank capacity h e = ground (arith, length-replicate capacity blank)

  pub push-IsValid : {w : Window A} (x : A) → IsValid w → IsValid (push w x)
  unfolding push
  push-IsValid {w} x v = ground (arith, length-set w.buffer w.head x)

  -- The index of the oldest value.
  abbrev pub start : Window A → ℕ
  start w = (w.head + w.max_capacity - w.count) % w.max_capacity

  abbrev cons? : Option A → List A → List A
  cons? none xs = xs
  cons? (some x) xs = x ∷ xs

  module _ (buffer : List A) (cap : ℕ) where
    -- The `n` values from index `h` on, going round at `cap`.
    abbrev pub span : ℕ → ℕ → List A
    span h zero = []
    span h (suc n) = cons? (get_elem? buffer h) (span ((h + 1) % cap) n)

  -- The values of a window, oldest first.
  abbrev pub contents : Window A → List A
  contents w = span w.buffer w.max_capacity (start w) w.count

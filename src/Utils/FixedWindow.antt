-- ===== src/Utils/FixedWindow.antt =====
-- utils/FixedWindow.hpp: a circular buffer that keeps the latest `max_capacity` values. `size_t`
-- arithmetic wraps at 2^64. The mutex makes each call one step.
pub mod Valid
pub mod Span
pub mod Slide
use chrono_trade.Common.{
  ℕ, zero, suc, ◌+◌, ◌-◌, ◌%◌, ◌^◌, Option, none, some, List, [], ◌∷◌, ltb, leb, ◌==◌,
  if◌then◌else◌, get_elem?, set, replicate,
}
use chrono_trade.Common.Result.{Result, ok, err}

-- `wild_read` stands for a read outside of the storage, which C++ leaves undefined.
pub data WindowError : Type 0 where
  zero_capacity out_of_bounds wild_read : WindowError

pub record Window {ℓ} (A : Type ℓ) : Type ℓ where
  pub buffer : List A
  pub head : ℕ
  pub count : ℕ
  pub max_capacity : ℕ

abbrev size_mod : ℕ
size_mod = 2 ^ 64

module _ {ℓ} {A : Type ℓ} where
  -- `blank` is `T()`.
  unfoldable pub make : A → ℕ → Result WindowError (Window A)
  make blank capacity =
      if capacity == 0
      then err zero_capacity
      else ok (record {
        buffer = replicate capacity blank;
        head = 0;
        count = 0;
        max_capacity = capacity;
      })

  unfoldable pub push : Window A → A → Window A
  push w value = record w {
    buffer = set w.buffer w.head value;
    head = (w.head + 1) % size_mod % w.max_capacity;
    count = if ltb w.count w.max_capacity then (w.count + 1) % size_mod else w.count;
  }

  abbrev size : Window A → ℕ
  size w = w.count

  abbrev pub capacity : Window A → ℕ
  capacity w = w.max_capacity

  abbrev pub read : List A → ℕ → Result WindowError A
  read xs i = elim (get_elem? xs i) [ none ↦ err wild_read | some x ↦ ok x ]

  -- `(head + max_capacity - count + index) % max_capacity`
  abbrev pub logical_index : Window A → ℕ → ℕ
  logical_index w index =
      (((w.head + w.max_capacity) % size_mod + size_mod - w.count) % size_mod + index)
      % size_mod
      % w.max_capacity

  unfoldable pub at : Window A → ℕ → Result WindowError A
  at w index =
      if leb w.count index then err out_of_bounds else read w.buffer (logical_index w index)

  -- The calls of `push` for a run of values, in order.
  unfoldable pub push_all : Window A → List A → Window A
  push_all w [] = w
  push_all w (x ∷ xs) = push_all (push w x) xs

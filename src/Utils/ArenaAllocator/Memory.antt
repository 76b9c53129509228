-- ===== src/Utils/ArenaAllocator/Memory.antt =====
-- utils/ArenaAllocator.hpp, the buffers: the arenas of a program and what `new[]` has allocated. An
-- arena is named by its place in the list. A buffer is named by its address, and 0 is `nullptr`.
pub mod Owned
use chrono_trade.Common.{
  ℕ, zero, suc, ◌+◌, ◌==◌, Bool, Option, none, some, List, [], ◌∷◌, ◌++◌, get_elem?, set, remove_at,
  ltb, if◌then◌else◌,
}
use chrono_trade.Utils.ArenaAllocator.{Arena, move, construct}
use chrono_trade.Utils.ArenaAllocator

-- `faults` counts the calls of `delete[]` on what is not allocated.
pub record Memory : Type 0 where
  pub arenas : List Arena
  pub heap : List ℕ
  pub faults : ℕ

abbrev pub times : ℕ → List ℕ → ℕ
times p [] = 0
times p (q ∷ qs) = (if q == p then 1 else 0) + times p qs

abbrev pub remove_one : ℕ → List ℕ → List ℕ
remove_one p [] = []
remove_one p (q ∷ qs) = let rest = remove_one p qs in if q == p then qs else q ∷ rest

-- `delete[]`
abbrev pub delete : ℕ → Memory → Memory
delete zero m = m
delete (suc n) m =
    if ltb 0 (times (suc n) m.heap)
    then record m { heap = remove_one (suc n) m.heap }
    else record m { faults = m.faults + 1 }

-- What a program does with arenas; `new[]` answers with the address in `creates`.
pub data Use : Type 0 where
  creates : (base capacity : ℕ) → Use
  moves destroys resets : ℕ → Use
  assigns : (target source : ℕ) → Use
  constructs : (i size k : ℕ) → Bool → Use

abbrev pub replaced : Memory → ℕ → Arena → Memory
replaced m i a = record m { arenas = set m.arenas i a }

abbrev pub assign : Memory → ℕ → ℕ → Arena → Arena → Memory
assign m i j target source =
    let (taken, left) = move source in
    if i == j then m else replaced (replaced (delete target.base m) i taken) j left

abbrev pub at_arena : Memory → ℕ → (Arena → Memory) → Memory
at_arena m i k = elim (get_elem? m.arenas i) [ none ↦ m | some a ↦ k a ]

unfoldable pub use_arena : Memory → Use → Memory
use_arena m (creates base capacity) = record m {
  arenas = m.arenas ++ (record { base = base; capacity = capacity; offset = 0 } ∷ []);
  heap = base ∷ m.heap;
}
use_arena m (moves i) =
    at_arena m i
      (λ a. let (new, left) = move a in record m { arenas = set m.arenas i left ++ (new ∷ []) })
use_arena m (destroys i) =
    at_arena m i
      (λ a. let freed = delete a.base m in record freed { arenas = remove_at freed.arenas i })
use_arena m (resets i) = at_arena m i (λ a. replaced m i (ArenaAllocator.reset a))
use_arena m (assigns i j) =
    at_arena m i (λ target. at_arena m j (λ source. assign m i j target source))
use_arena m (constructs i size k throws) =
    at_arena m i (λ a. replaced m i (construct size k throws a).1)

unfoldable pub use_all : Memory → List Use → Memory
unfolding use_arena
use_all m [] = m
use_all m (u ∷ us) = use_all (use_arena m u) us

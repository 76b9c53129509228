-- ===== src/Utils/Tests.antt =====
-- Runs of the window.
use chrono_trade.Common.{ℕ, ◌+◌, ◌≡◌, refl, true, false, List, [], ◌∷◌, arith}
use chrono_trade.Common.Result.{ok, err}
use chrono_trade.Utils.FixedWindow.{Window, make, push, push_all, at, zero_capacity}
use chrono_trade.Utils.FixedWindow.Slide
use chrono_trade.Utils.ArenaAllocator.{Arena, construct}
use chrono_trade.Utils.ArenaAllocator.Objects
use chrono_trade.Utils.ArenaAllocator.Objects.{Request, construct_all, Laid}
use chrono_trade.Utils.ArenaAllocator.Memory.{
  Memory, Use, creates, constructs, assigns, moves, destroys, use_all,
}
use chrono_trade.Utils.ArenaAllocator.Memory.Owned
use chrono_trade.Utils.ArenaAllocator.Memory.Owned.{IsOwned}

abbrev fresh : Window ℕ
fresh = record { buffer = 0 ∷ 0 ∷ 0 ∷ []; head = 0; count = 0; max_capacity = 3 }

make_zero : make {A = ℕ} 0 0 ≡ err zero_capacity
unfolding make
make_zero = refl

at_last : at (push_all fresh (1 ∷ 2 ∷ 3 ∷ 4 ∷ 5 ∷ [])) 2 ≡ ok 5
unfolding at push_all push
at_last = refl

at-push_all_example : at (push_all fresh (1 ∷ 2 ∷ 3 ∷ 4 ∷ 5 ∷ [])) 0 ≡ ok 3
unfolding make
at-push_all_example = Slide.at-push_all 0 3 fresh (1 ∷ 2 ∷ 3 ∷ 4 ∷ 5 ∷ []) 0 (omega arith) refl

abbrev arena : Arena
arena = record { base = 4096; capacity = 100; offset = 3 }

-- The second constructor throws, and the third call finds no room.
abbrev requests : List Request
requests =
    record { size = 16; k = 3; throws = false }
    ∷ record { size = 8; k = 3; throws = true }
    ∷ record { size = 90; k = 0; throws = false }
    ∷ record { size = 4; k = 2; throws = false }
    ∷ []

objects : construct_all requests arena ≡ (4104, 16) ∷ (4128, 4) ∷ []
unfolding construct_all construct
objects = refl

construct_all-Laid_example : Laid (4096 + 3) (4096 + 100) (construct_all requests arena)
construct_all-Laid_example = Objects.construct_all-Laid requests arena (omega arith) (omega arith)

-- The second arena takes the buffer of the first, whose own is gone; both are destroyed.
abbrev passed_on : List Use
passed_on =
    creates 4096 100
    ∷ creates 8192 50
    ∷ constructs 0 16 3 false
    ∷ assigns 1 0
    ∷ moves 1
    ∷ destroys 2
    ∷ destroys 0
    ∷ destroys 0
    ∷ []

abbrev no_memory : Memory
no_memory = record { arenas = []; heap = []; faults = 0 }

all_deleted : use_all no_memory passed_on ≡ no_memory
unfolding use_all construct
all_deleted = refl

use_all-IsOwned_example : IsOwned (use_all no_memory passed_on)
use_all-IsOwned_example =
    Owned.use_all-IsOwned no_memory passed_on (record { owned = λ n. refl; sound = refl })

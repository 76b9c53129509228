-- ===== src/Threads/ThreadPool/Fifo.antt =====
-- Tasks start once each, in the order in which they were submitted.
use chrono_trade.Common.{ℕ, ◌+◌, ◌≡◌, List, [], ◌∷◌, ◌++◌, length}
use chrono_trade.Threads.ThreadPool.{
  Worker, at_loop, waking, tested, blocked, exited, running, Pool,
}

-- The workers that are in a task.
abbrev pub busy : Worker → ℕ
busy at_loop = 0
busy waking = 0
busy tested = 0
busy blocked = 0
busy exited = 0
busy (running t) = 1

abbrev pub count_busy : List Worker → ℕ
count_busy [] = 0
count_busy (w ∷ ws) = busy w + count_busy ws

pub record IsFifo (p : Pool) : Type 0 where
  pub in_order : p.started ++ p.tasks ≡ p.submitted
  pub accounted : length p.finished + count_busy p.workers ≡ length p.started

-- ===== src/Threads/Tests.antt =====
-- Runs of a pool with one worker, and its property applied to one of them.
use chrono_trade.Common.{ℕ, ◌*◌, ◌≤◌, ◌≡◌, ◌⊎◌, refl, true, false, some, [], ◌∷◌, length, get_elem?}
use chrono_trade.Threads.ThreadPool.{
  Worker, Step, finish, Pool, Runs, start, then, new_pool, submit, set_stop, notify_all, enter_loop,
  leave_loop, wait_on, block, blocked, exited, running,
}
use chrono_trade.Threads.ThreadPool.Fifo
use chrono_trade.Threads.ThreadPool.Stopped
use chrono_trade.Threads.ThreadPool.Stopped.{of_worker, count_moves}

abbrev one_running : Pool
one_running = record {
  workers = running 7 ∷ [];
  tasks = 8 ∷ [];
  stop = false;
  submitted = 7 ∷ 8 ∷ [];
  started = 7 ∷ [];
  finished = [];
}

-- The stop comes before the worker tests its loop: the worker returns and the task is left.
abbrev task_left : Pool
task_left = record {
  workers = exited ∷ [];
  tasks = 7 ∷ [];
  stop = true;
  submitted = 7 ∷ [];
  started = [];
  finished = [];
}

leave_task : Runs (new_pool 1) task_left
leave_task = then (then (then start (submit 7)) set_stop) (leave_loop 0 refl refl)

-- The stop and its notification come between the worker's test and its wait: it blocks for good.
abbrev left_blocked : Pool
left_blocked = record {
  workers = blocked ∷ [];
  tasks = [];
  stop = true;
  submitted = [];
  started = [];
  finished = [];
}

miss_notification : Runs (new_pool 1) left_blocked
miss_notification =
    then
      (then (then (then (then start (enter_loop 0 refl refl)) (wait_on 0 refl refl refl)) set_stop)
        (notify_all refl))
      (block 0 refl)

-- The worker ends its task, and returns with the other task left.
abbrev stopping : Pool
stopping = record one_running { stop = true }

abbrev returned : Pool
returned = record stopping { workers = exited ∷ []; finished = 7 ∷ [] }

last_steps : Runs stopping returned
last_steps = then (then start (finish 0 7 refl)) (leave_loop 0 refl refl)

stopped_settles_example :
    (count_moves last_steps ≤ 5 * length stopping.workers)
    × ((i : ℕ) (w : Worker)
        → get_elem? returned.workers i ≡ some w
        → (w ≡ exited) ⊎ ((w ≡ blocked) ⊎ ((r : Pool) × (s : Step returned r) × (of_worker s ≡ 1))))
stopped_settles_example = Stopped.stopped_settles stopping returned last_steps refl

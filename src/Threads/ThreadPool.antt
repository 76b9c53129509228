-- ===== src/Threads/ThreadPool.antt =====
-- threads/ThreadPool.hpp: workers that take tasks from a queue. A task is its number. What a thread
-- does under `queue_mutex` is one step; the steps of all threads interleave in any order.
pub mod Fifo
pub mod Stopped
use chrono_trade.Common.{
  ℕ, ◌≡◌, Bool, true, false, Option, none, some, List, [], ◌∷◌, ◌++◌, get_elem?, set, replicate,
  map,
}

-- Where a worker stands: before the test of `while (!stop)`; before the predicate of `wait`; past it,
-- found false, but not yet blocked; blocked; in a task; returned.
pub data Worker : Type 0 where
  at_loop waking tested blocked exited : Worker
  running : ℕ → Worker

-- The pool, with the tasks submitted, started and finished so far.
pub record Pool : Type 0 where
  pub workers : List Worker
  pub tasks : List ℕ
  pub stop : Bool
  pub submitted : List ℕ
  pub started : List ℕ
  pub finished : List ℕ

abbrev pub new_pool : ℕ → Pool
new_pool num_threads = record {
  workers = replicate num_threads at_loop;
  tasks = [];
  stop = false;
  submitted = [];
  started = [];
  finished = [];
}

-- `tasks.push(task)`
abbrev pub push_task : Pool → ℕ → Pool
push_task p t = record p { tasks = p.tasks ++ (t ∷ []); submitted = p.submitted ++ (t ∷ []) }

-- `notify_all` lets every blocked worker test the predicate again.
abbrev pub roused : Worker → Worker
roused at_loop = at_loop
roused waking = waking
roused tested = tested
roused blocked = waking
roused exited = exited
roused (running t) = running t

abbrev pub move : Pool → ℕ → Worker → Pool
move p i w = record p { workers = set p.workers i w }

-- `task = std::move(tasks.front()); tasks.pop();`
abbrev pub take_task : Pool → ℕ → ℕ → List ℕ → Pool
take_task p i t rest = record p {
  workers = set p.workers i (running t);
  tasks = rest;
  started = p.started ++ (t ∷ []);
}

abbrev pub end_task : Pool → ℕ → ℕ → Pool
end_task p i t = record p { workers = set p.workers i at_loop; finished = p.finished ++ (t ∷ []) }

-- One step of one thread: of a client (`submit`), of the destructor (`set_stop`, `notify_all`), or of
-- worker i. A blocked worker may also wake when `notify_one` picks it, or for no reason.
pub data Step (p : Pool) : Pool → Type 0 where
  submit : (t : ℕ) → Step p (push_task p t)
  set_stop : Step p (record p { stop = true })
  notify_all : p.stop ≡ true → Step p (record p { workers = map roused p.workers })
  enter_loop :
      (i : ℕ) → get_elem? p.workers i ≡ some at_loop → p.stop ≡ false → Step p (move p i waking)
  leave_loop :
      (i : ℕ) → get_elem? p.workers i ≡ some at_loop → p.stop ≡ true → Step p (move p i exited)
  wait_on :
      (i : ℕ)
      → get_elem? p.workers i ≡ some waking
      → p.stop ≡ false
      → p.tasks ≡ []
      → Step p (move p i tested)
  block : (i : ℕ) → get_elem? p.workers i ≡ some tested → Step p (move p i blocked)
  wake : (i : ℕ) → get_elem? p.workers i ≡ some blocked → Step p (move p i waking)
  give_up :
      (i : ℕ)
      → get_elem? p.workers i ≡ some waking
      → p.stop ≡ true
      → p.tasks ≡ []
      → Step p (move p i exited)
  take_front :
      (i t : ℕ) (rest : List ℕ)
      → get_elem? p.workers i ≡ some waking
      → p.tasks ≡ t ∷ rest
      → Step p (take_task p i t rest)
  finish : (i t : ℕ) → get_elem? p.workers i ≡ some (running t) → Step p (end_task p i t)

-- What threads can reach from a pool, step by step.
pub data Runs (p : Pool) : Pool → Type 0 where
  start : Runs p p
  then : {q r : Pool} → Runs p q → Step q r → Runs p r

-- ===== src/Threads/ThreadPool/Stopped.antt =====
-- What the workers still do once the destructor has set `stop`.
use chrono_trade.Common.{
  ℕ, zero, suc, ◌+◌, ◌*◌, ◌≤◌, ◌≡◌, ◌⊎◌, inl, inr, refl, ap, true, some, List, [], ◌∷◌, length,
  get_elem?, set, map, arith,
}
use chrono_trade.Threads.ThreadPool.{
  Worker, at_loop, waking, tested, blocked, exited, running, Pool, roused, move, Step, submit,
  set_stop, notify_all, enter_loop, leave_loop, wait_on, block, wake, give_up, take_front, finish,
  Runs, start, then,
}

-- How many steps a worker has left at most.
abbrev pub steps_left : Worker → ℕ
steps_left exited = 0
steps_left at_loop = 1
steps_left (running t) = 2
steps_left waking = 3
steps_left blocked = 4
steps_left tested = 5

abbrev pub all_left : List Worker → ℕ
all_left [] = 0
all_left (w ∷ ws) = steps_left w + all_left ws

-- Whether a step is one of a worker.
abbrev pub of_worker : {p q : Pool} → Step p q → ℕ
of_worker (submit t) = 0
of_worker set_stop = 0
of_worker (notify_all s) = 0
of_worker (enter_loop i e s) = 1
of_worker (leave_loop i e s) = 1
of_worker (wait_on i e s n) = 1
of_worker (block i e) = 1
of_worker (wake i e) = 1
of_worker (give_up i e s n) = 1
of_worker (take_front i t rest e n) = 1
of_worker (finish i t e) = 1

abbrev pub count_moves : {p q : Pool} → Runs p q → ℕ
count_moves start = 0
count_moves (then run step) = count_moves run + of_worker step

all_left-set :
    (ws : List Worker) (i : ℕ) (v w : Worker)
    → get_elem? ws i ≡ some v
    → all_left (set ws i w) + steps_left v ≡ all_left ws + steps_left w
all_left-set [] i v w e = absurd (ground arith)
all_left-set (u ∷ ws) zero v w e = omega (arith, ap steps_left (same e))
  where
    same : some u ≡ some v → u ≡ v
    same e = ground arith
all_left-set (u ∷ ws) (suc i) v w e = omega (arith, all_left-set ws i v w e)

steps_left-roused : (w : Worker) → steps_left (roused w) ≤ steps_left w
steps_left-roused at_loop = omega arith
steps_left-roused waking = omega arith
steps_left-roused tested = omega arith
steps_left-roused blocked = omega arith
steps_left-roused exited = omega arith
steps_left-roused (running t) = omega arith

all_left-map : (ws : List Worker) → all_left (map roused ws) ≤ all_left ws
all_left-map [] = omega arith
all_left-map (w ∷ ws) = omega (arith, steps_left-roused w, all_left-map ws)

all_left-le : (ws : List Worker) → all_left ws ≤ 5 * length ws
all_left-le [] = omega arith
all_left-le (at_loop ∷ ws) = omega (arith, all_left-le ws)
all_left-le (waking ∷ ws) = omega (arith, all_left-le ws)
all_left-le (tested ∷ ws) = omega (arith, all_left-le ws)
all_left-le (blocked ∷ ws) = omega (arith, all_left-le ws)
all_left-le (exited ∷ ws) = omega (arith, all_left-le ws)
all_left-le (running t ∷ ws) = omega (arith, all_left-le ws)

-- A step of a worker uses one up, and `stop` stays set.
step_uses :
    (p q : Pool) (step : Step p q)
    → p.stop ≡ true
    → (of_worker step + all_left q.workers ≤ all_left p.workers) × (q.stop ≡ true)
step_uses p q (submit t) h = (omega arith, h)
step_uses p q set_stop h = (omega arith, refl)
step_uses p q (notify_all s) h = (omega (arith, all_left-map p.workers), h)
step_uses p q (enter_loop i e s) h = absurd (ground arith)
step_uses p q (leave_loop i e s) h = (omega (arith, all_left-set p.workers i at_loop exited e), h)
step_uses p q (wait_on i e s n) h = absurd (ground arith)
step_uses p q (block i e) h = (omega (arith, all_left-set p.workers i tested blocked e), h)
step_uses p q (wake i e) h = (omega (arith, all_left-set p.workers i blocked waking e), h)
step_uses p q (give_up i e s n) h = (omega (arith, all_left-set p.workers i waking exited e), h)
step_uses p q (take_front i t rest e n) h =
    (omega (arith, all_left-set p.workers i waking (running t) e), h)
step_uses p q (finish i t e) h = (omega (arith, all_left-set p.workers i (running t) at_loop e), h)

-- A worker that has not returned and is not blocked can take a step.
moves_on :
    (p : Pool) (i : ℕ) (w : Worker)
    → p.stop ≡ true
    → get_elem? p.workers i ≡ some w
    → (w ≡ exited) ⊎ ((w ≡ blocked) ⊎ ((q : Pool) × (s : Step p q) × (of_worker s ≡ 1)))
moves_on p i exited h e = inl refl
moves_on p i blocked h e = inr (inl refl)
moves_on p i at_loop h e = inr (inr (move p i exited, leave_loop i e h, refl))
moves_on p i (running t) h e = inr (inr (_, finish i t e, refl))
moves_on p i tested h e = inr (inr (move p i blocked, block i e, refl))
moves_on p i waking h e = inr (inr (wakes p.tasks refl))
  where
    wakes : (ts : List ℕ) → p.tasks ≡ ts → (q : Pool) × (s : Step p q) × (of_worker s ≡ 1)
    wakes [] n = (move p i exited, give_up i e h n, refl)
    wakes (t ∷ ts) n = (_, take_front i t ts e n, refl)

runs_use :
    (p q : Pool) (run : Runs p q)
    → p.stop ≡ true
    → (count_moves run + all_left q.workers ≤ all_left p.workers) × (q.stop ≡ true)
runs_use p q start h = (omega arith, h)
runs_use p q (then {q = m} run step) h =
    let (used, stopped) = runs_use p m run h in
    let (one, still) = step_uses m q step stopped in (omega (arith, used, one), still)

-- Once stop is set, the workers together take at most five steps each, whatever is submitted and
-- however they are woken meanwhile; and a worker that has neither returned nor is blocked can always
-- take one.
pub stopped_settles :
    (p q : Pool) (run : Runs p q)
    → p.stop ≡ true
    → (count_moves run ≤ 5 * length p.workers)
      × ((i : ℕ) (w : Worker)
          → get_elem? q.workers i ≡ some w
          → (w ≡ exited) ⊎ ((w ≡ blocked) ⊎ ((r : Pool) × (s : Step q r) × (of_worker s ≡ 1))))
stopped_settles p q run h =
    let (used, stopped) = runs_use p q run h in
    (omega (arith, used, all_left-le p.workers), λ i w e. moves_on q i w stopped e)

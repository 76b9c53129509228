-- ===== src/Feed/FeedManager.antt =====
-- feed/FeedManager.hpp: the threads of the sources. The maps and sets that are keyed by a source are
-- fields of its slot, and a loop over `running_` takes the slots in the order of the sources. A method
-- holds `mutex_`, so it is one step, and the end of a source's thread is another; `reset_all_sources`,
-- which takes it twice, is here as it runs alone, and `reset_each` is its second part. Left out: the 50 ms
-- of sleep, and the waiting of `wait_for_completion`, whose predicate is `all_completed`.
pub mod Status
pub mod Restart
use chrono_trade.Common.{
  ℕ, zero, suc, ◌+◌, ◌==◌, Bool, true, false, not, ◌&&◌, ◌||◌, Option, none, some, List, [], ◌∷◌,
  ◌++◌, map, length, if◌then◌else◌,
}
use chrono_trade.Common.Result.{Result, ok, err, ◌>>=◌}
use chrono_trade.Feed.FeedSource.{
  FeedStatus, idle, running, stopped, completed, SourceKind, SourceError, try_set_running,
  reset_stream, reset_for_restart,
}

-- A `std::jthread`: in its function, returned from it, or joined.
pub data Thread : Type 0 where
  alive ended joined : Thread

-- A source, its entry of `running_`, and whether `completed_threads_` has it. `tag` is
-- `source_tag()`.
pub record Slot : Type 0 where
  pub kind : SourceKind
  pub tag : ℕ
  pub status : FeedStatus
  pub thread : Option Thread
  pub in_completed : Bool

pub data ManagerError : Type 0 where
  -- `std::system_error` of the detach of a thread that is not joinable.
  not_joinable : ManagerError
  of_source : SourceError → ManagerError

abbrev pub add_source : List Slot → SourceKind → ℕ → List Slot
add_source slots kind tag =
    slots
    ++ (record { kind = kind; tag = tag; status = idle; thread = none; in_completed = false } ∷ [])

abbrev pub joinable : Thread → Bool
joinable alive = true
joinable ended = true
joinable joined = false

abbrev pub cleanup_finished_thread : Option Thread → Option Thread
cleanup_finished_thread none = none
cleanup_finished_thread (some t) = if joinable t then some t else none

abbrev pub has_tag : List ℕ → ℕ → Bool
has_tag [] tag = false
has_tag (t ∷ ts) tag = if t == tag then true else has_tag ts tag

-- `if (!running_.count(key) && src->try_set_running())`
abbrev pub launch : Slot → Slot
launch s = elim (cleanup_finished_thread s.thread) [
  | some t ↦ record s { thread = some t }
  | none ↦
      let (status, exchanged) = try_set_running s.status in
      record s { status = status; thread = if exchanged then some alive else none }
]

abbrev pub start_from : Bool → List ℕ → List Slot → List Slot
start_from unique_tags started [] = []
start_from unique_tags started (s ∷ ss) =
    let others = start_from unique_tags started ss in
    let rest = start_from unique_tags (s.tag ∷ started) ss in
    if unique_tags && has_tag started s.tag then s ∷ others else launch s ∷ rest

abbrev pub start_all : Bool → List Slot → List Slot
start_all unique_tags slots = start_from unique_tags [] slots

-- The end of a thread: `run` has returned or thrown.
abbrev pub finish : Slot → Slot
finish s = elim s.thread [
  | none ↦ s
  | some t ↦ elim t [
    | alive ↦ record s { status = completed; thread = some ended; in_completed = true }
    | ended ↦ s
    | joined ↦ s
  ]
]

-- A round of the join loop: `thread.join()` waits until the thread has ended. `late` is whether the
-- deadline is over then.
abbrev pub join_one : Bool → Slot → Slot × Result ManagerError (Unit {0})
join_one late s = elim (finish s).thread [
  | none ↦ (finish s, ok tt)
  | some t ↦
      if joinable t
      then (record (finish s) { thread = some joined }, (if late then err not_joinable else ok tt))
      else (finish s, ok tt)
]

-- The loop; `late` of the first slot is the head of the list, and a missing entry is false.
abbrev pub next_late : List Bool → Bool × List Bool
next_late [] = (false, [])
next_late (b ∷ bs) = (b, bs)

unfoldable pub join_all : List Bool → List Slot → List Slot × Result ManagerError (Unit {0})
join_all late [] = ([], ok tt)
join_all late (s ∷ ss) =
    let (now, later) = next_late late in
    let (t, r) = join_one now s in
    let rest = join_all later ss in elim r [ ok _ ↦ (t ∷ rest.0, rest.1) | err e ↦ (t ∷ ss, err e) ]

-- `running_.clear()` and `completed_threads_.clear()`
abbrev pub cleared : Slot → Slot
cleared s = record s { thread = none; in_completed = false }

-- `stop_all`; the sources' `stop` sets flags that only their `run` reads.
unfoldable pub stop_all : List Bool → List Slot → List Slot × Result ManagerError (Unit {0})
unfolding join_all
stop_all late slots =
    let (ss, r) = join_all late slots in
    elim r [ ok _ ↦ (map cleared ss, ok tt) | err e ↦ (ss, err e) ]

-- A round of the loop of `reset_all_sources`.
abbrev pub reset_one : Bool → Slot → Slot × Result SourceError (Unit {0})
reset_one opens s =
    let (status, r) = reset_for_restart s.kind opens s.status in
    (record s { status = status }, (r >>= λ _. reset_stream s.kind opens))

unfoldable pub reset_each :
    (SourceKind → Bool) → List Slot → List Slot × Result SourceError (Unit {0})
reset_each opens [] = ([], ok tt)
reset_each opens (s ∷ ss) =
    let (t, r) = reset_one (opens s.kind) s in
    let rest = reset_each opens ss in
    elim r [ ok _ ↦ (t ∷ rest.0, rest.1) | err e ↦ (t ∷ ss, err e) ]

abbrev pub of_sources :
    List Slot × Result SourceError (Unit {0}) → List Slot × Result ManagerError (Unit {0})
of_sources (ss, ok _) = (ss, ok tt)
of_sources (ss, err e) = (ss, err (of_source e))

unfoldable pub reset_all_sources :
    (SourceKind → Bool) → List Bool → List Slot → List Slot × Result ManagerError (Unit {0})
unfolding stop_all reset_each
reset_all_sources opens late slots =
    let (ss, r) = stop_all late slots in
    elim r [ ok _ ↦ of_sources (reset_each opens ss) | err e ↦ (ss, err e) ]

abbrev pub count_completed : List Slot → ℕ
count_completed [] = 0
count_completed (s ∷ ss) = if s.in_completed then suc (count_completed ss) else count_completed ss

-- The predicate of `wait_for_completion`.
abbrev pub all_completed : List Slot → Bool
all_completed slots = count_completed slots == length slots

abbrev is_active : Slot → Bool
is_active s = elim s.thread [ none ↦ false | some t ↦ joinable t ]

abbrev pub active_thread_count : List Slot → ℕ
active_thread_count [] = 0
active_thread_count (s ∷ ss) =
    if is_active s then suc (active_thread_count ss) else active_thread_count ss

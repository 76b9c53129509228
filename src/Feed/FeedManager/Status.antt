-- ===== src/Feed/FeedManager/Status.antt =====
-- The status of a source against its thread, whatever a client calls and whenever the threads end.
use chrono_trade.Common.{
  ℕ, zero, suc, ◌≡◌, ◌≢◌, ◌⊎◌, inl, inr, refl, Bool, true, false, Option, none, some, List, [], ◌∷◌,
  map, All, All-append, ◌&&◌, if_elim, arith,
}
use chrono_trade.Common.Result.{Result, ok, err, Result-cases}
use chrono_trade.Feed.FeedSource.{FeedStatus, idle, running, completed, SourceKind, SourceError}
use chrono_trade.Feed.FeedManager.{
  Thread, alive, ended, joined, Slot, add_source, launch, of_sources, start_from, start_all, finish,
  join_one, join_all, next_late, cleared, stop_all, reset_one, reset_each, reset_all_sources,
  has_tag,
}

-- A source runs exactly while it has a thread in its function, and is completed while its thread has
-- returned and is still kept.
abbrev pub Fits : Option Thread → FeedStatus → Bool → Type 0
Fits none status c = ((status ≡ idle) × (c ≡ false)) ⊎ (status ≡ completed)
Fits (some alive) status c = (status ≡ running) × (c ≡ false)
Fits (some ended) status c = (status ≡ completed) × (c ≡ true)
Fits (some joined) status c = (status ≡ completed) × (c ≡ true)

-- The same, but for a source that has been reset while its thread was kept or counted.
abbrev pub FitsLoosely : Option Thread → FeedStatus → Type 0
FitsLoosely none status = (status ≡ idle) ⊎ (status ≡ completed)
FitsLoosely (some alive) status = status ≡ running
FitsLoosely (some ended) status = (status ≡ idle) ⊎ (status ≡ completed)
FitsLoosely (some joined) status = (status ≡ idle) ⊎ (status ≡ completed)

-- `interrupted` is whether other calls have come between the two locks of `reset_all_sources`.
abbrev pub IsSteady : (interrupted : Bool) → Slot → Type 0
IsSteady false s = Fits s.thread s.status s.in_completed
IsSteady true s = FitsLoosely s.thread s.status

-- What happens to a manager: the calls of its clients, in the order in which they take the mutex, whose
-- exceptions the clients catch, and the end of a thread. `resets` is `reset_all_sources` where no call
-- takes the mutex between its two locks, and `resets_late` its second part where calls do; its first
-- part is one of `stops` then.
pub data Call : Type 0 where
  adds : SourceKind → ℕ → Call
  starts : Bool → Call
  ends : ℕ → Call
  stops : List Bool → Call
  resets : (SourceKind → Bool) → List Bool → Call
  resets_late : (SourceKind → Bool) → Call

abbrev pub interrupted : List Call → Bool
interrupted [] = false
interrupted (adds kind tag ∷ cs) = interrupted cs
interrupted (starts unique ∷ cs) = interrupted cs
interrupted (ends i ∷ cs) = interrupted cs
interrupted (stops late ∷ cs) = interrupted cs
interrupted (resets opens late ∷ cs) = interrupted cs
interrupted (resets_late opens ∷ cs) = true

abbrev pub finish_at : List Slot → ℕ → List Slot
finish_at [] i = []
finish_at (s ∷ ss) zero = finish s ∷ ss
finish_at (s ∷ ss) (suc i) = s ∷ finish_at ss i

abbrev pub call : List Slot → Call → List Slot
call slots (adds kind tag) = add_source slots kind tag
call slots (starts unique) = start_all unique slots
call slots (ends i) = finish_at slots i
call slots (stops late) = (stop_all late slots).0
call slots (resets opens late) = (reset_all_sources opens late slots).0
call slots (resets_late opens) = (of_sources (reset_each opens slots)).0

abbrev pub run : List Slot → List Call → List Slot
run slots [] = slots
run slots (c ∷ cs) = run (call slots c) cs

module _ (i : Bool) where
  launch-IsSteady : (s : Slot) → IsSteady i s → IsSteady i (launch s)
  launch-IsSteady s h = ground arith

  finish-IsSteady : (s : Slot) → IsSteady i s → IsSteady i (finish s)
  finish-IsSteady s h = ground arith

  join_one-IsSteady : (late : Bool) (s : Slot) → IsSteady i s → IsSteady i (join_one late s).0
  join_one-IsSteady late s h = ground arith

  -- A slot whose thread is not in its function.
  abbrev IsQuiet : Slot → Type 0
  IsQuiet s = s.thread ≢ some alive

  join_one-IsQuiet : (late : Bool) (s : Slot) → IsSteady i s → IsQuiet (join_one late s).0
  join_one-IsQuiet late s h = ground arith

  cleared-IsSteady : (s : Slot) → IsSteady i s → IsQuiet s → IsSteady i (cleared s)
  cleared-IsSteady s h q = ground arith

  -- A slot after a stop: no thread, and not in `completed_threads_`.
  abbrev IsCleared : Slot → Type 0
  IsCleared s = IsSteady i s × (s.thread ≡ none) × (s.in_completed ≡ false)

  reset_one-IsSteady : (opens : Bool) (s : Slot) → IsCleared s → IsSteady i (reset_one opens s).0
  reset_one-IsSteady opens s h = ground arith

  start_from-IsSteady :
      (unique : Bool) (tags : List ℕ) (ss : List Slot)
      → All (IsSteady i) ss
      → All (IsSteady i) (start_from unique tags ss)
  start_from-IsSteady unique tags [] h = tt
  start_from-IsSteady unique tags (s ∷ ss) h =
      if_elim (λ out. All (IsSteady i) out) (unique && has_tag tags s.tag)
        (λ _. (h.0, start_from-IsSteady unique tags ss h.1))
        (λ _. (launch-IsSteady s h.0, start_from-IsSteady unique (s.tag ∷ tags) ss h.1))

  finish_at-IsSteady :
      (ss : List Slot) (n : ℕ) → All (IsSteady i) ss → All (IsSteady i) (finish_at ss n)
  finish_at-IsSteady [] n h = tt
  finish_at-IsSteady (s ∷ ss) zero h = (finish-IsSteady s h.0, h.1)
  finish_at-IsSteady (s ∷ ss) (suc n) h = (h.0, finish_at-IsSteady ss n h.1)

  join_all-IsSteady :
      (late : List Bool) (ss : List Slot)
      → All (IsSteady i) ss
      → All (IsSteady i) (join_all late ss).0
        × ((join_all late ss).1 ≡ ok tt → All (λ s. IsCleared (cleared s)) (join_all late ss).0)
  unfolding join_all
  join_all-IsSteady late [] h = (tt, λ e. tt)
  join_all-IsSteady late (s ∷ ss) h =
      let now = (next_late late).0 in
      let steady = join_one-IsSteady now s h.0 in
      let rest = join_all-IsSteady (next_late late).1 ss h.1 in
      elim (Result-cases (join_one now s).1) [
        | inl (u, e) ↦
            rw (join_all, e)
              (
                (steady, rest.0),
                λ fine. (
                  (
                    cleared-IsSteady (join_one now s).0 steady (join_one-IsQuiet now s h.0),
                    refl,
                    refl,
                  ),
                  rest.1 fine,
                ),
              )
        | inr (x, e) ↦ rw (join_all, e) ((steady, h.1), λ fails. absurd (ground arith))
      ]

  map-cleared :
      (ss : List Slot)
      → All (λ s. IsCleared (cleared s)) ss
      → All (λ s. IsCleared s) (map cleared ss)
  map-cleared [] h = tt
  map-cleared (s ∷ ss) h = (h.0, map-cleared ss h.1)

  forget : (ss : List Slot) → All (λ s. IsCleared s) ss → All (IsSteady i) ss
  forget [] h = tt
  forget (s ∷ ss) h = (h.0.0, forget ss h.1)

  stop_all-IsSteady :
      (late : List Bool) (ss : List Slot)
      → All (IsSteady i) ss
      → All (IsSteady i) (stop_all late ss).0
        × ((stop_all late ss).1 ≡ ok tt → All (λ s. IsCleared s) (stop_all late ss).0)
  unfolding stop_all
  stop_all-IsSteady late ss h =
      let (steady, quiet) = join_all-IsSteady late ss h in
      elim (Result-cases (join_all late ss).1) [
        | inl (u, e) ↦
            let clear = map-cleared (join_all late ss).0 (quiet e) in
            rw (stop_all, e) (forget (map cleared (join_all late ss).0) clear, λ _. clear)
        | inr (x, e) ↦ rw (stop_all, e) (steady, λ fails. absurd (ground arith))
      ]

  reset_each-IsSteady :
      (opens : SourceKind → Bool) (ss : List Slot)
      → All (λ s. IsCleared s) ss
      → All (IsSteady i) (reset_each opens ss).0
  unfolding reset_each
  reset_each-IsSteady opens [] h = tt
  reset_each-IsSteady opens (s ∷ ss) h =
      let steady = reset_one-IsSteady (opens s.kind) s h.0 in
      elim (Result-cases (reset_one (opens s.kind) s).1) [
        | inl (u, e) ↦ rw (reset_each, e) (steady, reset_each-IsSteady opens ss h.1)
        | inr (x, e) ↦ rw (reset_each, e) (steady, forget ss h.1)
      ]

  of_sources-IsSteady :
      (p : List Slot × Result SourceError (Unit {0}))
      → All (IsSteady i) p.0
      → All (IsSteady i) (of_sources p).0
  of_sources-IsSteady (ss, ok _) h = h
  of_sources-IsSteady (ss, err e) h = h

  reset_all_sources-IsSteady :
      (opens : SourceKind → Bool) (late : List Bool) (ss : List Slot)
      → All (IsSteady i) ss
      → All (IsSteady i) (reset_all_sources opens late ss).0
  unfolding reset_all_sources
  reset_all_sources-IsSteady opens late ss h =
      let (steady, clear) = stop_all-IsSteady late ss h in
      elim (Result-cases (stop_all late ss).1) [
        | inl (u, e) ↦
            rw (reset_all_sources, e)
              (of_sources-IsSteady (reset_each opens (stop_all late ss).0)
                (reset_each-IsSteady opens (stop_all late ss).0 (clear e)))
        | inr (x, e) ↦ rw (reset_all_sources, e) steady
      ]

-- The second part of `reset_all_sources` behind a gap.
reset_one-loose : (opens : Bool) (s : Slot) → IsSteady true s → IsSteady true (reset_one opens s).0
reset_one-loose opens s h = ground arith

reset_each-loose :
    (opens : SourceKind → Bool) (ss : List Slot)
    → All (IsSteady true) ss
    → All (IsSteady true) (of_sources (reset_each opens ss)).0
unfolding reset_each
reset_each-loose opens ss h = of_sources-IsSteady true (reset_each opens ss) (each ss h)
  where
    each : (ss : List Slot) → All (IsSteady true) ss → All (IsSteady true) (reset_each opens ss).0
    each [] h = tt
    each (s ∷ ss) h =
        let steady = reset_one-loose (opens s.kind) s h.0 in
        elim (Result-cases (reset_one (opens s.kind) s).1) [
          | inl (u, e) ↦ rw (reset_each, e) (steady, each ss h.1)
          | inr (x, e) ↦ rw (reset_each, e) (steady, h.1)
        ]

added-IsSteady :
    (i : Bool) (kind : SourceKind) (tag : ℕ) (ss : List Slot)
    → All (IsSteady i) ss
    → All (IsSteady i) (add_source ss kind tag)
added-IsSteady false kind tag ss h = All-append (IsSteady false) ss _ h (inl (refl, refl), tt)
added-IsSteady true kind tag ss h = All-append (IsSteady true) ss _ h (inl refl, tt)

run_on :
    (i : Bool) (cs : List Call) (ss : List Slot)
    → (interrupted cs ≡ false) ⊎ (i ≡ true)
    → All (IsSteady i) ss
    → All (IsSteady i) (run ss cs)
run_on i [] ss a h = h
run_on i (adds kind tag ∷ cs) ss a h = run_on i cs _ a (added-IsSteady i kind tag ss h)
run_on i (starts unique ∷ cs) ss a h = run_on i cs _ a (start_from-IsSteady i unique [] ss h)
run_on i (ends n ∷ cs) ss a h = run_on i cs _ a (finish_at-IsSteady i ss n h)
run_on i (stops late ∷ cs) ss a h = run_on i cs _ a ((stop_all-IsSteady i late ss h).0)
run_on i (resets opens late ∷ cs) ss a h =
    run_on i cs _ a (reset_all_sources-IsSteady i opens late ss h)
run_on false (resets_late opens ∷ cs) ss a h = absurd (elim a [ inl e ↦ cc | inr e ↦ cc ])
run_on true (resets_late opens ∷ cs) ss a h =
    run_on true cs _ (inr refl) (reset_each-loose opens ss h)

loosened : (s : Slot) → IsSteady false s → IsSteady true s
loosened s h = ground arith

all_loosened : (ss : List Slot) → All (IsSteady false) ss → All (IsSteady true) ss
all_loosened [] h = tt
all_loosened (s ∷ ss) h = (loosened s h.0, all_loosened ss h.1)

-- Whatever clients call on a manager in which every source fits its thread, and whenever threads end, a
-- source is running exactly while its thread is in its function, and idle or completed otherwise. Unless
-- calls come between the two locks of reset_all_sources, it is also completed from the thread's end on
-- for as long as the thread is kept, and a source without a thread is idle and not counted as
-- completed, or completed.
pub run-IsSteady :
    (cs : List Call) (ss : List Slot)
    → All (IsSteady false) ss
    → All (IsSteady (interrupted cs)) (run ss cs)
run-IsSteady cs ss h = kept (interrupted cs) refl
  where
    kept : (i : Bool) → interrupted cs ≡ i → All (IsSteady i) (run ss cs)
    kept false e = run_on false cs ss (inl e) h
    kept true e = run_on true cs ss (inr refl) (all_loosened ss h)

-- ===== src/Feed/FeedManager/Restart.antt =====
-- Which sources start after `reset_all_sources`.
use chrono_trade.Common.{
  ℕ, ◌≡◌, inl, inr, refl, ◌∙◌, ap, Bool, true, false, ◌||◌, none, some, List, [], ◌∷◌, map, All,
  if◌then◌else◌, arith,
}
use chrono_trade.Common.Result.{Result, ok, err, Result-cases}
use chrono_trade.Feed.FeedSource.{
  idle, running, completed, SourceKind, SourceError, csv, socket, shared_memory, injector,
  same_status,
}
use chrono_trade.Feed.FeedManager.{
  alive, Slot, launch, start_from, start_all, join_one, join_all, next_late, cleared, stop_all,
  reset_one, reset_each, reset_all_sources, of_sources,
}
use chrono_trade.Feed.FeedManager.Status.{IsSteady}

-- The sources whose `reset_for_restart` calls that of `IFeedSource`.
abbrev pub of_file : SourceKind → Bool
of_file csv = true
of_file socket = false
of_file shared_memory = false
of_file injector = true

-- The slot after a restart: the sources of files run, and so do those that never ran.
abbrev pub restarted : Slot → Slot
restarted s =
    if of_file s.kind || same_status s.status idle
    then record s { status = running; thread = some alive; in_completed = false }
    else record s { status = completed; thread = none; in_completed = false }

abbrev reset_slot : Slot → Slot
reset_slot s = (reset_one true (cleared (join_one false s).0)).0

restarted_lem : (s : Slot) → IsSteady false s → launch (reset_slot s) ≡ restarted s
restarted_lem s h = ground arith

join_one_late : (late : Bool) (s : Slot) → (join_one late s).0 ≡ (join_one false s).0
join_one_late late s = ground arith

reset_one_opens : (opens : Bool) (s : Slot) → (reset_one opens s).0 ≡ (reset_one true s).0
reset_one_opens opens s = ground arith

join_all-map :
    (late : List Bool) (ss : List Slot)
    → (join_all late ss).1 ≡ ok tt
    → (join_all late ss).0 ≡ map (λ s. (join_one false s).0) ss
unfolding join_all
join_all-map late [] = λ h. refl
join_all-map late (s ∷ ss) =
    let now = (next_late late).0 in
    let later = (next_late late).1 in
    elim (Result-cases (join_one now s).1) [
      | inl (u, e) ↦
          rw (join_all, e)
            (λ h.
              ap (λ t. t ∷ (join_all later ss).0) (join_one_late now s)
              ∙ ap (λ ts. (join_one false s).0 ∷ ts) (join_all-map later ss h))
      | inr (x, e) ↦ rw (join_all, e) (λ h. absurd (ground arith))
    ]

reset_each-map :
    (opens : SourceKind → Bool) (ss : List Slot)
    → (reset_each opens ss).1 ≡ ok tt
    → (reset_each opens ss).0 ≡ map (λ s. (reset_one true s).0) ss
unfolding reset_each
reset_each-map opens [] = λ h. refl
reset_each-map opens (s ∷ ss) = elim (Result-cases (reset_one (opens s.kind) s).1) [
  | inl (u, e) ↦
      rw (reset_each, e)
        (λ h.
          ap (λ t. t ∷ (reset_each opens ss).0) (reset_one_opens (opens s.kind) s)
          ∙ ap (λ ts. (reset_one true s).0 ∷ ts) (reset_each-map opens ss h))
  | inr (x, e) ↦ rw (reset_each, e) (λ h. absurd (ground arith))
]

stop_all-map :
    (late : List Bool) (ss : List Slot)
    → (stop_all late ss).1 ≡ ok tt
    → (stop_all late ss).0 ≡ map cleared (map (λ s. (join_one false s).0) ss)
unfolding stop_all
stop_all-map late ss = elim (Result-cases (join_all late ss).1) [
  | inl (u, e) ↦ rw (stop_all, e) (λ h. ap (map cleared) (join_all-map late ss e))
  | inr (x, e) ↦ rw (stop_all, e) (λ h. absurd (ground arith))
]

of_sources_ok :
    (p : List Slot × Result SourceError (Unit {0}))
    → (of_sources p).1 ≡ ok tt
    → ((of_sources p).0 ≡ p.0) × (p.1 ≡ ok tt)
of_sources_ok (ss, ok _) h = (refl, refl)
of_sources_ok (ss, err e) h = absurd (ground arith)

reset_all_sources-map :
    (opens : SourceKind → Bool) (late : List Bool) (ss : List Slot)
    → (reset_all_sources opens late ss).1 ≡ ok tt
    → (reset_all_sources opens late ss).0
      ≡ map (λ s. (reset_one true s).0) (map cleared (map (λ s. (join_one false s).0) ss))
unfolding reset_all_sources
reset_all_sources-map opens late ss = elim (Result-cases (stop_all late ss).1) [
  | inl (u, e) ↦
      rw (reset_all_sources, e)
        (λ h.
          let (same, fine) = of_sources_ok (reset_each opens (stop_all late ss).0) h in
          same
          ∙ reset_each-map opens (stop_all late ss).0 fine
          ∙ ap (map (λ s. (reset_one true s).0)) (stop_all-map late ss e))
  | inr (x, e) ↦ rw (reset_all_sources, e) (λ h. absurd (ground arith))
]

start_from-restarted :
    (tags : List ℕ) (ss : List Slot)
    → All (λ s. IsSteady false s) ss
    → start_from false tags
        (map (λ s. (reset_one true s).0) (map cleared (map (λ s. (join_one false s).0) ss)))
      ≡ map restarted ss
start_from-restarted tags [] h = refl
start_from-restarted tags (s ∷ ss) h =
    ap
      (λ t.
        t
        ∷ start_from false ((reset_slot s).tag ∷ tags)
            (map (λ s. (reset_one true s).0) (map cleared (map (λ s. (join_one false s).0) ss))))
      (restarted_lem s h.0)
    ∙ ap (λ ts. restarted s ∷ ts) (start_from-restarted ((reset_slot s).tag ∷ tags) ss h.1)

-- If every source fits its thread and resetting all the sources throws nothing, starting them all
-- afterwards runs exactly the sources of files and those that had never run; a socket or shared
-- memory source that has run stays completed.
start_all-reset_all_sources :
    (opens : SourceKind → Bool) (late : List Bool) (ss : List Slot)
    → All (λ s. IsSteady false s) ss
    → (reset_all_sources opens late ss).1 ≡ ok tt
    → start_all false (reset_all_sources opens late ss).0 ≡ map restarted ss
start_all-reset_all_sources opens late ss h fine =
    ap (start_from false []) (reset_all_sources-map opens late ss fine)
    ∙ start_from-restarted [] ss h

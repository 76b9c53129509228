-- ===== src/Feed/ManagerTests.antt =====
-- A manager of a file and a socket.
use chrono_trade.Common.{◌≡◌, refl, true, false, some, List, [], ◌∷◌, All, map}
use chrono_trade.Common.Result.{err}
use chrono_trade.Feed.FeedSource.{FeedStatus, idle, completed, csv, socket}
use chrono_trade.Feed.FeedManager.{
  Slot, ended, not_joinable, start_all, join_all, stop_all, reset_each, all_completed,
}
use chrono_trade.Feed.FeedManager.Status
use chrono_trade.Feed.FeedManager.Status.{
  interrupted, resets_late, IsSteady, Call, adds, starts, ends, stops, resets, run, finish_at,
}

abbrev two_sources : List Slot
two_sources =
    record { kind = csv; tag = 1; status = completed; thread = some ended; in_completed = true }
    ∷ record {
      kind = socket;
      tag = 2;
      status = completed;
      thread = some ended;
      in_completed = true;
    }
    ∷ []

abbrev statuses : List Slot → List FeedStatus
statuses ss = map (λ s. s.status) ss

-- A source whose thread has ended does not start again before a reset.
start_ended : statuses (start_all false two_sources) ≡ completed ∷ completed ∷ []
start_ended = refl

-- With unique tags the second source of a tag is not started, so not all sources complete.
same_tag :
    let ss = run [] (adds csv 1 ∷ adds csv 1 ∷ starts true ∷ ends 0 ∷ ends 1 ∷ []) in
    (statuses ss ≡ completed ∷ idle ∷ []) × (all_completed ss ≡ false)
same_tag = (refl, refl)

-- A join that ends after the deadline is followed by a detach that throws.
stop_late : (stop_all (true ∷ []) two_sources).1 ≡ err not_joinable
unfolding stop_all join_all
stop_late = refl

-- A start whose thread ends between the two locks of a reset leaves a source idle that never starts.
reset_in_gap :
    let cs =
      adds csv 1 ∷ stops [] ∷ starts true ∷ ends 0 ∷ resets_late (λ k. true) ∷ starts true ∷ [] in
    run [] cs
    ≡ record { kind = csv; tag = 1; status = idle; thread = some ended; in_completed = true } ∷ []
unfolding stop_all join_all reset_each
reset_in_gap = refl

run-IsSteady_example :
    let cs = starts false ∷ ends 1 ∷ stops [] ∷ resets (λ k. true) [] ∷ starts true ∷ [] in
    All (IsSteady (interrupted cs)) (run two_sources cs)
run-IsSteady_example =
    Status.run-IsSteady
      (starts false ∷ ends 1 ∷ stops [] ∷ resets (λ k. true) [] ∷ starts true ∷ []) two_sources
      ((refl, refl), ((refl, refl), tt))

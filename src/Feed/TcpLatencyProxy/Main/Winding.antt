-- ===== src/Feed/TcpLatencyProxy/Main/Winding.antt =====
-- The threads and the sockets of the proxy behind the final cleanup.
use chrono_trade.Common.{
  ℕ, ◌+◌, ◌≤◌, ◌≡◌, sym, ◌∙◌, ap, Bool, true, false, List, [], ◌∷◌, ◌++◌, length, arith,
  if◌then◌else◌, if_elim, leb, length-append, append-nil,
}
use chrono_trade.Feed.TcpLatencyProxy.Accept.{
  Server, Turn, Other, cleans, ends, other, others, admit, spawn, accept_turn,
}
use chrono_trade.Feed.TcpLatencyProxy.Accept.Bounded.{
  IsBounded, count_served, sockets, sockets-append, Settles, Admits, length-running_only,
  length-end_at, others-IsBounded, admit-Admits, spawn-Settles, accept_turn-Settles,
}
use chrono_trade.Feed.TcpLatencyProxy.Main.{
  final_cleanup, Ending, behind_turns, ahead_of_turn, during_turn, wind_up,
}

-- How many threads may be left when the final cleanup comes then.
abbrev pub late_threads : Ending → ℕ
late_threads behind_turns = 0
late_threads (ahead_of_turn t) = 1
late_threads (during_turn t) = 1

-- The threads that took a socket are those joined and those left.
pub record IsWoundUp (ending : Ending) (s : Server) : Type 0 where
  pub left : length s.connections ≤ late_threads ending
  pub accounted : count_served s.fates ≡ s.joined + length s.connections

abbrev pub late_sockets : Ending → List ℕ
late_sockets behind_turns = []
late_sockets (ahead_of_turn t) = t.fd ∷ []
late_sockets (during_turn t) = t.fd ∷ []

spawn_adds :
    (m : ℕ) (s : Server) (fd now : ℕ)
    → length (spawn m s fd now).connections ≤ length s.connections + 1
unfolding spawn
spawn_adds m s fd now =
    if_elim (λ (t : Server). length t.connections ≤ length s.connections + 1)
      (leb m (length s.connections)) (λ full. omega arith)
      (λ space.
        omega (arith, length-append s.connections (record { fd = fd; is_done = false } ∷ [])))

other_keeps : (s : Server) (o : Other) → length (other s o).connections ≤ length s.connections
other_keeps s cleans = omega (arith, length-running_only s.connections)
other_keeps s (ends i) = omega (arith, length-end_at s.connections i)

others_keep :
    (s : Server) (os : List Other) → length (others s os).connections ≤ length s.connections
others_keep s [] = omega arith
others_keep s (o ∷ os) = omega (arith, other_keeps s o, others_keep (other s o) os)

admit_keeps :
    (m : ℕ) (s : Server) (fd now : ℕ)
    → length (admit m s fd now).0.connections ≤ length s.connections
unfolding admit
admit_keeps m s fd now =
    if_elim (λ (a : Server × Bool). length a.0.connections ≤ length s.connections)
      (leb m (length s.connections)) (λ full. omega arith) (λ space. omega arith)

-- A turn starts at most one thread.
accept_turn_adds :
    (m : ℕ) (s : Server) (t : Turn)
    → length (accept_turn m s t).connections ≤ length s.connections + 1
unfolding accept_turn
accept_turn_adds m s t =
    let seen = others s t.before in
    let admitted = (admit m seen t.fd t.now).0 in
    if_elim (λ (u : Server). length u.connections ≤ length s.connections + 1)
      (admit m seen t.fd t.now).1
      (λ goes_on. omega (
        arith,
        spawn_adds m (others admitted t.during) t.fd t.later,
        others_keep admitted t.during,
        admit_keeps m seen t.fd t.now,
        others_keep s t.before,
      ))
      (λ ended. omega (arith, admit_keeps m seen t.fd t.now, others_keep s t.before))

final_cleanup-IsBounded : (m : ℕ) (s : Server) → IsBounded m s → IsBounded m (final_cleanup s)
final_cleanup-IsBounded m s h = record {
  few = omega arith;
  pressed = h.pressed;
  accounted = omega (arith, h.accounted);
}

-- One more socket in the account.
settled_sockets :
    (m : ℕ) (s t : Server) (fd : ℕ)
    → Settles m s fd t
    → sockets t.fates ≡ sockets s.fates ++ (fd ∷ [])
settled_sockets m s t fd h =
    let (fate, e) = h.settled in ap sockets e ∙ sockets-append s.fates ((fd, fate) ∷ [])

-- The account of a server at its end, from one of the loop.
abbrev pub Ends : ℕ → Server → Ending → Server → Type 0
Ends m s ending t = IsWoundUp ending t × (sockets t.fates ≡ sockets s.fates ++ late_sockets ending)

during_turn-Ends :
    (m : ℕ) (s : Server) (t : Turn) (a : Server × Bool)
    → Admits m s t.fd a
    → let cleaned = final_cleanup (others a.0 t.during) in
      Ends m s (during_turn t) (if a.1 then spawn m cleaned t.fd t.later else cleaned)
during_turn-Ends m s t (admitted, true) (bounded, e) =
    let (k, d) = others-IsBounded m admitted t.during bounded in
    let cleaned = final_cleanup (others admitted t.during) in
    let spawned = spawn m cleaned t.fd t.later in
    let settles =
      spawn-Settles m cleaned t.fd t.later
        (final_cleanup-IsBounded m (others admitted t.during) k) in
    (
      record {
        left = omega (arith, spawn_adds m cleaned t.fd t.later);
        accounted = settles.bounded.accounted;
      },
      settled_sockets m cleaned spawned t.fd settles ∙ ap (λ fs. sockets fs ++ (t.fd ∷ [])) (d ∙ e),
    )
during_turn-Ends m s t (admitted, false) settles =
    let (k, d) = others-IsBounded m admitted t.during settles.bounded in
    (
      record { left = omega arith; accounted = omega (arith, k.accounted) },
      ap sockets d ∙ settled_sockets m s admitted t.fd settles,
    )

pub wind_up-Ends :
    (m : ℕ) (s : Server) (ending : Ending) → IsBounded m s → Ends m s ending (wind_up m s ending)
unfolding wind_up
wind_up-Ends m s behind_turns h = (
  record { left = omega arith; accounted = omega (arith, h.accounted) },
  sym (append-nil (sockets s.fates)),
)
wind_up-Ends m s (ahead_of_turn t) h =
    let settles = accept_turn-Settles m (final_cleanup s) t (final_cleanup-IsBounded m s h) in
    (
      record {
        left = omega (arith, accept_turn_adds m (final_cleanup s) t);
        accounted = settles.bounded.accounted;
      },
      settled_sockets m (final_cleanup s) (accept_turn m (final_cleanup s) t) t.fd settles,
    )
wind_up-Ends m s (during_turn t) h =
    let (k, e) = others-IsBounded m s t.before h in
    let (w, d) =
      during_turn-Ends m (others s t.before) t (admit m (others s t.before) t.fd t.now)
        (admit-Admits m (others s t.before) t.fd t.now k) in
    (record { left = w.left; accounted = w.accounted }, d ∙ ap (λ fs. sockets fs ++ (t.fd ∷ [])) e)

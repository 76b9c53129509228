-- ===== src/Feed/TcpLatencyProxy/Accept/Bounded.antt =====
-- The connections stay within their limit, and no socket is forgotten.
use chrono_trade.Common.{
  ℕ, zero, suc, ◌+◌, ◌≤◌, ◌≡◌, refl, sym, ◌∙◌, ap, Bool, true, false, List, [], ◌∷◌, ◌++◌, length,
  length-append, arith, leb, if_elim, append_assoc, append-nil, if◌then◌else◌,
}
use chrono_trade.Feed.TcpLatencyProxy.Accept.{
  Fate, rejected, dropped, served, Connection, Server, running_only, count_done, end_at, press,
  admit, spawn, Other, cleans, ends, other, others, Turn, accept_turn, accept_loop,
}

abbrev pub is_served : Fate → ℕ
is_served rejected = 0
is_served dropped = 0
is_served served = 1

abbrev pub count_served : List (ℕ × Fate) → ℕ
count_served [] = 0
count_served (f ∷ fs) = is_served f.1 + count_served fs

abbrev pub sockets : List (ℕ × Fate) → List ℕ
sockets [] = []
sockets (f ∷ fs) = f.0 ∷ sockets fs

-- The limits, and the account of the threads: those joined and those kept are those started.
pub record IsBounded (max_connections : ℕ) (s : Server) : Type 0 where
  pub few : length s.connections ≤ max_connections
  pub pressed : s.backpressure_ms ≤ 50
  pub accounted : count_served s.fates ≡ s.joined + length s.connections

pub length-running_only :
    (cs : List Connection) → count_done cs + length (running_only cs) ≡ length cs
length-running_only [] = refl
length-running_only (c ∷ cs) = ground (arith, length-running_only cs)

pub length-end_at : (cs : List Connection) (i : ℕ) → length (end_at cs i) ≡ length cs
length-end_at [] i = refl
length-end_at (c ∷ cs) zero = refl
length-end_at (c ∷ cs) (suc i) = ap suc (length-end_at cs i)

other-IsBounded :
    (m : ℕ) (s : Server) (o : Other)
    → IsBounded m s
    → IsBounded m (other s o) × ((other s o).fates ≡ s.fates)
other-IsBounded m s cleans h = (
  record {
    few = omega (arith, h.few, length-running_only s.connections);
    pressed = h.pressed;
    accounted = omega (arith, h.accounted, length-running_only s.connections);
  },
  refl,
)
other-IsBounded m s (ends i) h = (
  record {
    few = omega (arith, h.few, length-end_at s.connections i);
    pressed = h.pressed;
    accounted = omega (arith, h.accounted, length-end_at s.connections i);
  },
  refl,
)

pub others-IsBounded :
    (m : ℕ) (s : Server) (os : List Other)
    → IsBounded m s
    → IsBounded m (others s os) × ((others s os).fates ≡ s.fates)
others-IsBounded m s [] h = (h, refl)
others-IsBounded m s (o ∷ os) h =
    let (k, e) = other-IsBounded m s o h in
    let (l, d) = others-IsBounded m (other s o) os k in (l, d ∙ e)

count_served-append :
    (fs gs : List (ℕ × Fate)) → count_served (fs ++ gs) ≡ count_served fs + count_served gs
count_served-append [] gs = omega arith
count_served-append (f ∷ fs) gs = omega (arith, count_served-append fs gs)

pub sockets-append : (fs gs : List (ℕ × Fate)) → sockets (fs ++ gs) ≡ sockets fs ++ sockets gs
sockets-append [] gs = refl
sockets-append (f ∷ fs) gs = ap (λ ns. f.0 ∷ ns) (sockets-append fs gs)

-- One more socket has its fate.
pub record Settles (m : ℕ) (s : Server) (fd : ℕ) (t : Server) : Type 0 where
  pub bounded : IsBounded m t
  pub settled : (fate : Fate) × (t.fates ≡ s.fates ++ ((fd, fate) ∷ []))

pub spawn-Settles :
    (m : ℕ) (s : Server) (fd now : ℕ) → IsBounded m s → Settles m s fd (spawn m s fd now)
unfolding spawn
spawn-Settles m s fd now h =
    if_elim (λ t. Settles m s fd t) (leb m (length s.connections))
      (λ full. record {
        bounded = record {
          few = h.few;
          pressed = h.pressed;
          accounted = omega (arith, h.accounted, count_served-append s.fates ((fd, dropped) ∷ []));
        };
        settled = (dropped, refl);
      })
      (λ space. record {
        bounded = record {
          few =
              ground
                (arith, length-append s.connections (record { fd = fd; is_done = false } ∷ []));
          pressed = h.pressed;
          accounted = omega (
            arith,
            h.accounted,
            count_served-append s.fates ((fd, served) ∷ []),
            length-append s.connections (record { fd = fd; is_done = false } ∷ []),
          );
        };
        settled = (served, refl);
      })

-- The first block turns a socket away, or leaves everything but the back-pressure.
abbrev pub Admits : ℕ → Server → ℕ → Server × Bool → Type 0
Admits m s fd (t, true) = IsBounded m t × (t.fates ≡ s.fates)
Admits m s fd (t, false) = Settles m s fd t

press-IsBounded : (m : ℕ) (s : Server) → IsBounded m s → IsBounded m (press m s)
press-IsBounded m s h = record {
  few = h.few;
  pressed = ground (arith, h.pressed);
  accounted = h.accounted;
}

pub admit-Admits :
    (m : ℕ) (s : Server) (fd now : ℕ) → IsBounded m s → Admits m s fd (admit m s fd now)
unfolding admit
admit-Admits m s fd now h =
    if_elim (λ t. Admits m s fd t) (leb m (length s.connections))
      (λ full. record {
        bounded = record {
          few = h.few;
          pressed = h.pressed;
          accounted = omega (arith, h.accounted, count_served-append s.fates ((fd, rejected) ∷ []));
        };
        settled = (rejected, refl);
      })
      (λ space. (press-IsBounded m s h, refl))

same_fates :
    (m : ℕ) (s t u : Server) (fd : ℕ) → t.fates ≡ s.fates → Settles m t fd u → Settles m s fd u
same_fates m s t u fd e h =
    let (fate, f) = h.settled in
    record { bounded = h.bounded; settled = (fate, f ∙ ap (λ fs. fs ++ ((fd, fate) ∷ [])) e) }

admitted-Settles :
    (m : ℕ) (s : Server) (fd later : ℕ) (during : List Other) (r : Server × Bool)
    → Admits m s fd r
    → Settles m s fd (if r.1 then spawn m (others r.0 during) fd later else r.0)
admitted-Settles m s fd later during (t, true) (h, e) =
    let (k, d) = others-IsBounded m t during h in
    same_fates m s (others t during) _ fd (d ∙ e) (spawn-Settles m (others t during) fd later k)
admitted-Settles m s fd later during (t, false) h = h

pub accept_turn-Settles :
    (m : ℕ) (s : Server) (t : Turn) → IsBounded m s → Settles m s t.fd (accept_turn m s t)
unfolding accept_turn
accept_turn-Settles m s t h =
    let (k, e) = others-IsBounded m s t.before h in
    same_fates m s (others s t.before) _ t.fd e (
      admitted-Settles m (others s t.before) t.fd t.later t.during
        (admit m (others s t.before) t.fd t.now) (admit-Admits m (others s t.before) t.fd t.now k))

abbrev pub offered : List Turn → List ℕ
offered [] = []
offered (t ∷ ts) = t.fd ∷ offered ts

-- Whatever sockets are accepted and whenever threads end and are cleaned up, also during the sleep
-- between the two tests of the limit: there are never more threads than max_connections, the
-- back-pressure is at most 50 ms, the threads that took a socket are those joined and those kept, and
-- every accepted socket has exactly one fate, in the order of acceptance.
pub accept_loop-IsBounded :
    (m : ℕ) (s : Server) (ts : List Turn)
    → IsBounded m s
    → IsBounded m (accept_loop m s ts)
      × (sockets (accept_loop m s ts).fates ≡ sockets s.fates ++ offered ts)
unfolding accept_loop
accept_loop-IsBounded m s [] h = (h, sym (append-nil (sockets s.fates)))
accept_loop-IsBounded m s (t ∷ ts) h =
    let k = accept_turn-Settles m s t h in
    let (fate, f) = k.settled in
    let (bounded, fates) = accept_loop-IsBounded m (accept_turn m s t) ts k.bounded in
    (
      bounded,
      fates
          ∙ ap (λ ns. ns ++ offered ts) (ap sockets f ∙ sockets-append s.fates ((t.fd, fate) ∷ []))
          ∙ append_assoc (sockets s.fates) (t.fd ∷ []) (offered ts),
    )

-- ===== src/Feed/TcpLatencyProxy/Dial/First.antt =====
-- Which candidate `dial` and `listen_on` settle on, and that every other socket is closed.
use chrono_trade.Common.{
  ℕ, ◌≡◌, inl, inr, refl, sym, ◌∙◌, ap, true, false, Option, none, some, List, [], ◌∷◌, ◌++◌, All,
  All-append, append_assoc, Bool-cases,
}
use chrono_trade.Feed.Descriptors.{Call, opens, connects, closes, holds, obey_all}
use chrono_trade.Feed.Descriptors.Held.{
  gained, obey_all-append, obey_all-step, obey_all-opened, obey-opens, obey-closes, obey-uses,
}
use chrono_trade.Feed.TcpLatencyProxy.Dial.{
  Connecting, connected, Target, no_socket, socket, dial_loop, dial, Binding, unopened, bind_fails,
  listen_fails, listens, Address, is_inet6, is_inet, candidates, bind_loop, listen_on,
}

-- The socket of a candidate is one that was not open.
abbrev pub IsFresh : List ℕ → Target → Type 0
IsFresh held no_socket = Unit {0}
IsFresh held (socket fd c) = holds held fd ≡ false

abbrev pub Fails : Target → Type 0
Fails no_socket = Unit {0}
Fails (socket fd c) = connected c ≡ false

-- The candidates around the first that connects.
pub record Choice (ts : List Target) (fd : ℕ) : Type 0 where
  pub before : List Target
  pub how : Connecting
  pub after : List Target
  pub split : before ++ (socket fd how ∷ after) ≡ ts
  pub failed : All Fails before
  pub succeeds : connected how ≡ true

-- What `dial` found among the candidates.
abbrev pub Found : List Target → Option ℕ → Type 0
Found ts none = All Fails ts
Found ts (some fd) = Choice ts fd

Found-cons :
    (t : Target) (ts : List Target) (o : Option ℕ) → Fails t → Found ts o → Found (t ∷ ts) o
Found-cons t ts none f h = (f, h)
Found-cons t ts (some fd) f h = record {
  before = t ∷ h.before;
  how = h.how;
  after = h.after;
  split = ap (λ us. t ∷ us) h.split;
  failed = (f, h.failed);
  succeeds = h.succeeds;
}

obey_all-failed :
    (fd : ℕ) (cs : List Call) (held : List ℕ)
    → holds held fd ≡ false
    → obey_all (opens fd ∷ connects fd ∷ closes fd ∷ cs) held ≡ obey_all cs held
obey_all-failed fd cs held e =
    obey_all-step (opens fd) (connects fd ∷ closes fd ∷ cs) held (fd ∷ held) (obey-opens fd held e)
    ∙ obey_all-step (connects fd) (closes fd ∷ cs) (fd ∷ held) (fd ∷ held) (obey-uses fd held)
    ∙ obey_all-step (closes fd) cs (fd ∷ held) held (obey-closes fd held)

obey_all-connected :
    (fd : ℕ) (held : List ℕ)
    → holds held fd ≡ false
    → obey_all (opens fd ∷ connects fd ∷ []) held ≡ some (fd ∷ held)
obey_all-connected fd held e =
    obey_all-step (opens fd) (connects fd ∷ []) held (fd ∷ held) (obey-opens fd held e)
    ∙ obey_all-step (connects fd) [] (fd ∷ held) (fd ∷ held) (obey-uses fd held)

dial_loop-Found :
    (held : List ℕ) (ts : List Target)
    → All (IsFresh held) ts
    → Found ts (dial_loop ts).1
      × (obey_all (dial_loop ts).0 held ≡ some (gained (dial_loop ts).1 held))
unfolding dial_loop
dial_loop-Found held [] h = (tt, refl)
dial_loop-Found held (no_socket ∷ ts) h =
    let (found, table) = dial_loop-Found held ts h.1 in
    (Found-cons no_socket ts (dial_loop ts).1 tt found, table)
dial_loop-Found held (socket fd c ∷ ts) h =
    let (found, table) = dial_loop-Found held ts h.1 in
    elim (Bool-cases (connected c)) [
      | inl e ↦ rw e (
        record { before = []; how = c; after = ts; split = refl; failed = tt; succeeds = e },
        obey_all-connected fd held h.0,
      )
      | inr e ↦ rw e (
        Found-cons (socket fd c) ts (dial_loop ts).1 e found,
        obey_all-failed fd (dial_loop ts).0 held h.0 ∙ table,
      )
    ]

-- `dial` returns the socket of the first candidate that connects, if there is one; every other socket
-- that it opened is closed again, once, and no call meets a descriptor that is not open, if the kernel
-- gives out descriptors that are not.
pub dial-Found :
    (held : List ℕ) (ts : List Target)
    → All (IsFresh held) ts
    → Found ts (dial (some ts)).1
      × (obey_all (dial (some ts)).0 held ≡ some (gained (dial (some ts)).1 held))
unfolding dial
dial-Found held ts h = dial_loop-Found held ts h

-- The same of `listen_on`.
abbrev pub IsFreshBinding : List ℕ → Binding → Type 0
IsFreshBinding held unopened = Unit {0}
IsFreshBinding held (bind_fails fd) = holds held fd ≡ false
IsFreshBinding held (listen_fails fd) = holds held fd ≡ false
IsFreshBinding held (listens fd) = holds held fd ≡ false

abbrev pub FailsToBind : Binding → Type 0
FailsToBind unopened = Unit {0}
FailsToBind (bind_fails fd) = Unit {0}
FailsToBind (listen_fails fd) = Unit {0}
FailsToBind (listens fd) = ⊥

-- The bindings around the first that listens.
abbrev pub Bound : List Binding → Option ℕ → Type 0
Bound bs none = All FailsToBind bs
Bound bs (some fd) =
    (before : List Binding) × (after : List Binding) × (before ++ (listens fd ∷ after) ≡ bs)
    × All FailsToBind before

Bound-cons :
    (b : Binding) (bs : List Binding) (o : Option ℕ) → FailsToBind b → Bound bs o → Bound (b ∷ bs) o
Bound-cons b bs none f h = (f, h)
Bound-cons b bs (some fd) f (before, after, split, failed) =
    (b ∷ before, after, ap (λ us. b ∷ us) split, (f, failed))

bind_loop-Bound :
    (held : List ℕ) (bs : List Binding)
    → All (IsFreshBinding held) bs
    → Bound bs (bind_loop bs).1
      × (obey_all (bind_loop bs).0 held ≡ some (gained (bind_loop bs).1 held))
unfolding bind_loop
bind_loop-Bound held [] h = (tt, refl)
bind_loop-Bound held (unopened ∷ bs) h =
    let (bound, table) = bind_loop-Bound held bs h.1 in
    (Bound-cons unopened bs (bind_loop bs).1 tt bound, table)
bind_loop-Bound held (bind_fails fd ∷ bs) h =
    let (bound, table) = bind_loop-Bound held bs h.1 in
    (
      Bound-cons (bind_fails fd) bs (bind_loop bs).1 tt bound,
      obey_all-opened fd (bind_loop bs).0 held h.0 ∙ table,
    )
bind_loop-Bound held (listen_fails fd ∷ bs) h =
    let (bound, table) = bind_loop-Bound held bs h.1 in
    (
      Bound-cons (listen_fails fd) bs (bind_loop bs).1 tt bound,
      obey_all-opened fd (bind_loop bs).0 held h.0 ∙ table,
    )
bind_loop-Bound held (listens fd ∷ bs) h =
    (([], bs, refl, tt), obey_all-step (opens fd) [] held (fd ∷ held) (obey-opens fd held h.0))

-- What the two loops of `listen_on` make of each other.
bindings-Bound :
    (bs cs : List Binding) (found later : Option ℕ)
    → Bound bs found
    → Bound cs later
    → Bound (bs ++ cs) (elim found [ some fd ↦ some fd | none ↦ later ])
bindings-Bound bs cs (some fd) later (before, after, split, failed) c = (
  before,
  after ++ cs,
  sym (append_assoc before (listens fd ∷ after) cs) ∙ ap (λ us. us ++ cs) split,
  failed,
)
bindings-Bound bs cs none none b c = All-append FailsToBind bs cs b c
bindings-Bound bs cs none (some fd) b (before, after, split, failed) = (
  bs ++ before,
  after,
  append_assoc bs before (listens fd ∷ after) ∙ ap (λ us. bs ++ us) split,
  All-append FailsToBind bs before b failed,
)

-- Two loops of which the second runs if the first found nothing.
calls-gained :
    (held : List ℕ) (calls more : List Call) (found later : Option ℕ)
    → obey_all calls held ≡ some (gained found held)
    → obey_all more held ≡ some (gained later held)
    → let r : List Call × Option ℕ = elim found [
      | some fd ↦ (calls, some fd)
      | none ↦ (calls ++ more, later)
    ] in
      obey_all r.0 held ≡ some (gained r.1 held)
calls-gained held calls more (some fd) later e d = e
calls-gained held calls more none later e d = obey_all-append calls more held held e ∙ d

found_second :
    (calls more : List Call) (found later : Option ℕ)
    → let r : List Call × Option ℕ = elim found [
      | some fd ↦ (calls, some fd)
      | none ↦ (calls ++ more, later)
    ] in
      r.1 ≡ elim found [ some fd ↦ some fd | none ↦ later ]
found_second calls more (some fd) later = refl
found_second calls more none later = refl

-- `listen_on` returns the socket of the first candidate that can be listened on, those of IPv6 in
-- their order before those of IPv4 in theirs, if there is one; every other socket that it opened is
-- closed again, once, if the kernel gives out descriptors that are not open.
pub listen_on-Bound :
    (held : List ℕ) (addresses : List Address)
    → All (IsFreshBinding held) (candidates is_inet6 addresses)
    → All (IsFreshBinding held) (candidates is_inet addresses)
    → Bound
        (candidates is_inet6 addresses ++ candidates is_inet addresses)
        (listen_on (some addresses)).1
      × (obey_all (listen_on (some addresses)).0 held
          ≡ some (gained (listen_on (some addresses)).1 held))
unfolding listen_on
listen_on-Bound held addresses h k =
    let (b, e) = bind_loop-Bound held (candidates is_inet6 addresses) h in
    let (c, d) = bind_loop-Bound held (candidates is_inet addresses) k in
    let first = bind_loop (candidates is_inet6 addresses) in
    let second = bind_loop (candidates is_inet addresses) in
    (
      rw (found_second first.0 second.0 first.1 second.1) (
          bindings-Bound (candidates is_inet6 addresses) (candidates is_inet addresses) first.1
            second.1 b c),
      calls-gained held first.0 second.0 first.1 second.1 e d,
    )

-- ===== src/Feed/SocketFeedSource/Closed.antt =====
-- Every socket of a source is closed once.
use chrono_trade.Common.{
  ℕ, ◌≡◌, inl, inr, refl, sym, ◌∙◌, ap, Bool, true, false, Option, none, some, List, [], ◌∷◌, All,
  if◌then◌else◌, Bool-cases,
}
use chrono_trade.Common.Float.{Float}
use chrono_trade.Feed.Descriptors.{Call, opens, closes, reads, holds, obey_all}
use chrono_trade.Feed.Descriptors.Held.{
  gained, obey_all-append, obey_all-step, obey_all-opened, obey-opens, obey-closes, obey-uses,
}
use chrono_trade.Feed.SocketFeedSource.{Source, Event, run_round}
use chrono_trade.Feed.SocketFeedSource.Server.{
  Setup, no_socket, options_fail, bind_fails, listen_fails, ready, close_if, Session, read_round,
  session_round, session, lifetime,
}

-- The descriptor that the set-up is given is not open.
abbrev pub IsFreshSetup : List ℕ → Setup → Type 0
IsFreshSetup held no_socket = Unit {0}
IsFreshSetup held (options_fail fd) = holds held fd ≡ false
IsFreshSetup held (bind_fails fd) = holds held fd ≡ false
IsFreshSetup held (listen_fails fd) = holds held fd ≡ false
IsFreshSetup held (ready fd) = holds held fd ≡ false

-- Those that `accept` gives are not open either.
abbrev pub AreFreshRounds : List ℕ → Setup → List (ℕ × Event) → Type 0
AreFreshRounds held no_socket es = Unit {0}
AreFreshRounds held (options_fail fd) es = Unit {0}
AreFreshRounds held (bind_fails fd) es = Unit {0}
AreFreshRounds held (listen_fails fd) es = Unit {0}
AreFreshRounds held (ready fd) es = All (λ r. holds (fd ∷ held) r.0 ≡ false) es

closes_if-gained :
    (o : Option ℕ) (base : List ℕ) → obey_all (close_if o) (gained o base) ≡ some base
closes_if-gained none base = refl
closes_if-gained (some fd) base =
    obey_all-step (closes fd) [] (fd ∷ base) base (obey-closes fd base)

module _ {W : Type 0} ⦃f : Float W⦄ (stod : List ℕ → Option (W × List ℕ)) (base : List ℕ) where
  read_round-gained :
      (s : Session W) (fd : ℕ) (e : Event)
      → obey_all (read_round stod s fd e).1 (fd ∷ base)
        ≡ some (gained (read_round stod s fd e).0.sock base)
  unfolding read_round
  read_round-gained s fd e = by_end (run_round stod s.source e)
    where
      by_end :
          (t : Source W)
          → let r : Session W × List Call =
              if t.connected
              then (record { source = t; sock = some fd }, reads fd ∷ [])
              else (record { source = t; sock = none }, reads fd ∷ closes fd ∷ []) in
            obey_all r.1 (fd ∷ base) ≡ some (gained r.0.sock base)
      by_end t = elim (Bool-cases t.connected) [
        | inl on ↦ rw on (obey_all-step (reads fd) [] (fd ∷ base) (fd ∷ base) (obey-uses fd base))
        | inr off ↦ rw off (
            obey_all-step (reads fd) (closes fd ∷ []) (fd ∷ base) (fd ∷ base) (obey-uses fd base)
            ∙ closes_if-gained (some fd) base)
      ]

  session_round-gained :
      (s : Session W) (new : ℕ) (e : Event)
      → holds base new ≡ false
      → obey_all (session_round stod s new e).1 (gained s.sock base)
        ≡ some (gained (session_round stod s new e).0.sock base)
  unfolding session_round
  session_round-gained s new e fresh = by_sock s.sock refl
    where
      by_accept :
          (b : Bool)
          → s.sock ≡ none
          → let r : Session W × List Call =
              if b
              then ((read_round stod s new e).0, opens new ∷ (read_round stod s new e).1)
              else (s, []) in
            obey_all r.1 base ≡ some (gained r.0.sock base)
      by_accept true k =
          obey_all-step (opens new) (read_round stod s new e).1 base (new ∷ base)
            (obey-opens new base fresh)
          ∙ read_round-gained s new e
      by_accept false k = ap (λ o. some (gained o base)) (sym k)

      by_sock :
          (o : Option ℕ)
          → s.sock ≡ o
          → let r : Session W × List Call = elim o [
            | some fd ↦ read_round stod s fd e
            | none ↦
                if e.accepts
                then ((read_round stod s new e).0, opens new ∷ (read_round stod s new e).1)
                else (s, [])
          ] in
            obey_all r.1 (gained o base) ≡ some (gained r.0.sock base)
      by_sock (some fd) k = read_round-gained s fd e
      by_sock none k = by_accept e.accepts k

-- With the listening socket below the client's.
module _ {W : Type 0} ⦃f : Float W⦄ (stod : List ℕ → Option (W × List ℕ)) where
  session-closes :
      (server : ℕ) (held : List ℕ) (s : Session W) (es : List (ℕ × Event))
      → All (λ r. holds (server ∷ held) r.0 ≡ false) es
      → obey_all (session stod (some server) s es) (gained s.sock (server ∷ held)) ≡ some held
  unfolding session
  session-closes server held s [] fresh =
      obey_all-append (close_if s.sock) (close_if (some server)) (gained s.sock (server ∷ held))
        (server ∷ held) (closes_if-gained s.sock (server ∷ held))
      ∙ closes_if-gained (some server) held
  session-closes server held s ((new, e) ∷ es) fresh =
      let r = session_round stod s new e in
      obey_all-append r.1 (session stod (some server) r.0 es) (gained s.sock (server ∷ held))
        (gained r.0.sock (server ∷ held))
        (session_round-gained stod (server ∷ held) s new e fresh.0)
      ∙ session-closes server held r.0 es fresh.1

  -- From its constructor to its destructor a source closes every socket that it opened, once, and uses
  -- none behind its end, whatever its clients do, also where the constructor throws, if the kernel
  -- gives out descriptors that are not open.
  pub lifetime-closes :
      (held : List ℕ) (setup : Setup) (source : Source W) (es : List (ℕ × Event))
      → IsFreshSetup held setup
      → AreFreshRounds held setup es
      → obey_all (lifetime stod setup source es) held ≡ some held
  unfolding lifetime
  lifetime-closes held no_socket source es a b = refl
  lifetime-closes held (options_fail fd) source es a b = obey_all-opened fd [] held a
  lifetime-closes held (bind_fails fd) source es a b = obey_all-opened fd [] held a
  lifetime-closes held (listen_fails fd) source es a b = obey_all-opened fd [] held a
  lifetime-closes held (ready fd) source es a b =
      obey_all-step (opens fd) (session stod (some fd) (record { source = source; sock = none }) es)
        held (fd ∷ held) (obey-opens fd held a)
      ∙ session-closes fd held (record { source = source; sock = none }) es b

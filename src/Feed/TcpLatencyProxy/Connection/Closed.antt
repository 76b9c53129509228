-- ===== src/Feed/TcpLatencyProxy/Connection/Closed.antt =====
-- Every way through a connection closes the two sockets, once, and uses neither behind its end.
use chrono_trade.Common.{
  ℕ, ◌≡◌, inl, inr, refl, ◌∙◌, ap, Bool, true, false, ◌||◌, ◌&&◌, Option, none, some, List, [], ◌∷◌,
  ◌++◌, All, if◌then◌else◌, if_elim, arith, ==_refl, Bool-cases,
}
use chrono_trade.Common.Float.{Float}
use chrono_trade.Feed.TcpLatencyProxy.Pipe.{PipeResult}
use chrono_trade.Feed.Descriptors.{Call, closes, shuts_down, lingers, holds, obey, obey_all}
use chrono_trade.Feed.TcpLatencyProxy.Sockets.{finish_pair, is_error}
use chrono_trade.Feed.Descriptors.Held.{
  gained, holds-gained, obey_all-append, obey_all-step, obey-closes, obey-uses,
}
use chrono_trade.Feed.TcpLatencyProxy.Dial.{Target, dial}
use chrono_trade.Feed.TcpLatencyProxy.Dial.First.{IsFresh, dial-Found}
use chrono_trade.Feed.TcpLatencyProxy.Http.{try_http_peek, looks_like_http, k503, k429}
use chrono_trade.Feed.TcpLatencyProxy.Connection.{
  Trace, did, ◌then◌, Visitor, reply_to, greet, turn_away, ConnectionConfig, Outside, give_up,
  start, join, final, run_pipe, serve, handle_connection,
}

-- The calls meet open descriptors only, and a run that comes to its end takes one table to the other.
pub record Takes (t : Trace) (held after : List ℕ) : Type 0 where
  pub mid : List ℕ
  pub met : obey_all t.calls held ≡ some mid
  pub ends : t.is_over ≡ true → mid ≡ after

Takes-did :
    {cs : List Call} {held after : List ℕ}
    → obey_all cs held ≡ some after
    → Takes (did cs) held after
Takes-did {after = after} e = record { mid = after; met = e; ends = λ _. refl }

Takes-then :
    {t u : Trace} {held mid after : List ℕ}
    → Takes t held mid
    → Takes u mid after
    → Takes (t then u) held after
unfolding ◌then◌
Takes-then {t = t} {u = u} {held = held} {mid = mid} p q = elim (Bool-cases t.is_over) [
  | inl over ↦ rw over (record {
    mid = q.mid;
    met = obey_all-append t.calls u.calls held mid (p.met ∙ ap some (p.ends over)) ∙ q.met;
    ends = q.ends;
  })
  | inr not_over ↦ rw not_over (record { mid = p.mid; met = p.met; ends = λ x. absurd (cc) })
]

-- A call on a socket that is open, behind which the run may stop.
Takes-use :
    {c : Call} {b : Bool} {held : List ℕ}
    → obey c held ≡ some held
    → Takes (record { calls = c ∷ []; is_over = b }) held held
Takes-use {c = c} {held = held} e = record {
  mid = held;
  met = obey_all-step c [] held held e;
  ends = λ _. refl;
}

Takes-nothing : {held : List ℕ} → Takes (did []) held held
Takes-nothing {held = held} = record { mid = held; met = refl; ends = λ _. refl }

module _ (fd : ℕ) (held : List ℕ) where
  closes_last : obey_all (closes fd ∷ []) (fd ∷ held) ≡ some held
  closes_last = obey_all-step (closes fd) [] (fd ∷ held) held (obey-closes fd held)

  reply_to-Takes :
      (reply : List ℕ) (timeout_ms : ℕ) (v : Visitor)
      → Takes (reply_to fd reply timeout_ms v) (fd ∷ held) (fd ∷ held)
  reply_to-Takes reply timeout_ms v =
      Takes-then (Takes-use (obey-uses fd held))
        (Takes-then (Takes-use (obey-uses fd held)) (Takes-use (obey-uses fd held)))

  greet-Takes :
      (friendly : Bool) (size : ℕ) (reply : List ℕ) (timeout_ms : ℕ) (v : Visitor)
      → Takes (greet friendly fd size reply timeout_ms v) (fd ∷ held) (fd ∷ held)
  unfolding greet
  greet-Takes false size reply timeout_ms v = Takes-nothing
  greet-Takes true size reply timeout_ms v =
      Takes-then (Takes-use (obey-uses fd held)) (peeked (try_http_peek size v.peek))
    where
      peeked :
          (o : Option (List ℕ))
          → Takes
              (elim o [
                | none ↦ did []
                | some text ↦
                    if looks_like_http text then reply_to fd reply timeout_ms v else did []
              ])
              (fd ∷ held)
              (fd ∷ held)
      peeked none = Takes-nothing
      peeked (some text) =
          if_elim (λ t. Takes t (fd ∷ held) (fd ∷ held)) (looks_like_http text)
            (λ _. reply_to-Takes reply timeout_ms v) (λ _. Takes-nothing)

  -- `rst_close` of the last socket opened.
  resets_last : obey_all (lingers fd ∷ closes fd ∷ []) (fd ∷ held) ≡ some held
  resets_last =
      obey_all-step (lingers fd) (closes fd ∷ []) (fd ∷ held) (fd ∷ held) (obey-uses fd held)
      ∙ closes_last

  -- At its limit the accept loop closes the socket that it accepted, once, answer or not.
  turn_away-Takes :
      (friendly rst : Bool) (v : Visitor) → Takes (turn_away friendly rst fd v) (fd ∷ held) held
  unfolding turn_away
  turn_away-Takes friendly true v =
      Takes-then (greet-Takes friendly 32 k429 50 v) (Takes-did resets_last)
  turn_away-Takes friendly false v =
      Takes-then (greet-Takes friendly 32 k429 50 v) (Takes-did closes_last)

  give_up-Takes :
      {W : Type 0} (cfg : ConnectionConfig W) (v : Visitor)
      → Takes (give_up cfg fd v) (fd ∷ held) held
  unfolding give_up
  give_up-Takes cfg v =
      Takes-then (greet-Takes cfg.http_friendly_errors 128 k503 200 v)
        (Takes-then (parting cfg.rst_on_upstream_connect_fail) (Takes-did closes_last))
    where
      parting :
          (b : Bool)
          → Takes (did (if b then lingers fd ∷ [] else shuts_down fd ∷ [])) (fd ∷ held) (fd ∷ held)
      parting true = Takes-use (obey-uses fd held)
      parting false = Takes-use (obey-uses fd held)

-- Both sockets of a connection.
module _ (upstream client : ℕ) (held : List ℕ) where
  abbrev both : List ℕ
  both = upstream ∷ client ∷ held

  holds_client : holds both client ≡ true
  holds_client = ground (arith, ==_refl client)

  uses_client : (if holds both client then some both else none) ≡ some both
  uses_client = ap (λ b. if b then some both else none) holds_client

  uses_both : (if holds both upstream && holds both client then some both else none) ≡ some both
  uses_both =
      ap (λ b. if b && holds both client then some both else none)
        (holds-gained upstream (client ∷ held))
      ∙ uses_client

  uses_both_back :
      (if holds both client && holds both upstream then some both else none) ≡ some both
  uses_both_back =
      ap (λ b. if b && holds both upstream then some both else none) holds_client
      ∙ obey-uses upstream (client ∷ held)

  start_up-Takes : (b : Bool) → Takes (start b client upstream) both both
  start_up-Takes true = Takes-use uses_both_back
  start_up-Takes false = Takes-use (obey-uses upstream (client ∷ held))

  start_down-Takes : (b : Bool) → Takes (start b upstream client) both both
  start_down-Takes true = Takes-use uses_both
  start_down-Takes false = Takes-use uses_client

  watch-Takes : (b : Bool) → Takes (record { calls = []; is_over = b }) both both
  watch-Takes b = record { mid = both; met = refl; ends = λ _. refl }

  join_up-Takes : (b : Bool) (r : Option PipeResult) → Takes (join b client upstream r) both both
  join_up-Takes false r = Takes-nothing
  join_up-Takes true none = watch-Takes false
  join_up-Takes true (some r) = Takes-use uses_both_back

  join_down-Takes : (b : Bool) (r : Option PipeResult) → Takes (join b upstream client r) both both
  join_down-Takes false r = Takes-nothing
  join_down-Takes true none = watch-Takes false
  join_down-Takes true (some r) = Takes-use uses_both

  closes_both : obey_all (closes upstream ∷ closes client ∷ []) both ≡ some held
  closes_both =
      obey_all-step (closes upstream) (closes client ∷ []) both (client ∷ held)
        (obey-closes upstream (client ∷ held))
      ∙ closes_last client held

  resets_both :
      obey_all (lingers upstream ∷ closes upstream ∷ lingers client ∷ closes client ∷ []) both
      ≡ some held
  resets_both =
      obey_all-append (lingers upstream ∷ closes upstream ∷ [])
        (lingers client ∷ closes client ∷ []) both (client ∷ held)
        (resets_last upstream (client ∷ held))
      ∙ resets_last client held

  halves_both :
      obey_all (shuts_down upstream ∷ shuts_down client ∷ closes upstream ∷ closes client ∷ []) both
      ≡ some held
  halves_both =
      obey_all-step (shuts_down upstream) (shuts_down client ∷ closes upstream ∷ closes client ∷ [])
        both both (obey-uses upstream (client ∷ held))
      ∙ obey_all-step (shuts_down client) (closes upstream ∷ closes client ∷ []) both both
          uses_client
      ∙ closes_both

  finish_pair-Takes :
      (ra rb : PipeResult) (rst half : Bool)
      → Takes (did (finish_pair (some upstream) (some client) ra rb rst half)) both held
  unfolding finish_pair
  finish_pair-Takes ra rb rst half = paired ((is_error ra || is_error rb) && rst) half
    where
      paired :
          (b half : Bool)
          → Takes
              (did (
                if b
                then lingers upstream ∷ closes upstream ∷ lingers client ∷ closes client ∷ []
                else (if half then shuts_down upstream ∷ shuts_down client ∷ [] else [])
                  ++ (closes upstream ∷ closes client ∷ [])))
              both
              held
      paired true half = Takes-did resets_both
      paired false true = Takes-did halves_both
      paired false false = Takes-did closes_both

-- The sockets that the kernel gives out are not open; `none` is a name that is not found.
abbrev pub AreFresh : List ℕ → Option (List Target) → Type 0
AreFresh held none = Unit {0}
AreFresh held (some ts) = All (IsFresh held) ts

dial-unknown : (held : List ℕ) → obey_all (dial none).0 held ≡ some held
unfolding dial
dial-unknown held = refl

module _ {W : Type 0} ⦃f : Float W⦄ (cfg : ConnectionConfig W) (client : ℕ) (held : List ℕ) where
  serve-Takes :
      (upstream : ℕ) (o : Outside W)
      → Takes (serve cfg client upstream o) (upstream ∷ client ∷ held) held
  unfolding serve
  serve-Takes upstream o = Takes-then (start_up-Takes upstream client held cfg.dirs.up) (
      Takes-then (start_down-Takes upstream client held cfg.dirs.down) (
        Takes-then (watch-Takes upstream client held _) (
          Takes-then (join_up-Takes upstream client held cfg.dirs.up (run_pipe cfg.pipe o.up)) (
            Takes-then
              (join_down-Takes upstream client held cfg.dirs.down (run_pipe cfg.pipe o.down))
              (Takes-then
                (finish_pair-Takes upstream client held (final cfg.dirs.up (run_pipe cfg.pipe o.up))
                  (final cfg.dirs.down (run_pipe cfg.pipe o.down)) cfg.rst_on_midstream_errors
                  cfg.half_close)
                Takes-nothing)))))

  reached :
      (o : Outside W) (found : Option ℕ)
      → Takes
          (elim found [
            | none ↦ give_up cfg client o.visitor
            | some fd ↦ did [] then serve cfg client fd o
          ])
          (gained found (client ∷ held))
          held
  reached o none = give_up-Takes client held cfg o.visitor
  reached o (some fd) = Takes-then Takes-nothing (serve-Takes fd o)

  dialled :
      (o : Outside W) (targets : Option (List Target))
      → AreFresh (client ∷ held) targets
      → Takes
          (did (dial targets).0 then elim (dial targets).1 [
            | none ↦ give_up cfg client o.visitor
            | some fd ↦ did [] then serve cfg client fd o
          ])
          (client ∷ held)
          held
  unfolding dial
  dialled o none fresh =
      Takes-then {mid = client ∷ held} (Takes-did (dial-unknown (client ∷ held))) (reached o none)
  dialled o (some ts) fresh =
      Takes-then (Takes-did (dial-Found (client ∷ held) ts fresh).1) (reached o (dial (some ts)).1)

  -- A connection closes its client and its upstream, once each, on every way through it: no call of it
  -- meets a descriptor that is not open, and when it comes to its end the table of descriptors is what
  -- it was without the client, if the kernel gives out descriptors that are not open.
  pub handle_connection-Takes :
      (o : Outside W)
      → AreFresh (client ∷ held) o.targets
      → Takes (handle_connection cfg client o) (client ∷ held) held
  unfolding handle_connection
  handle_connection-Takes o fresh = dialled o o.targets fresh

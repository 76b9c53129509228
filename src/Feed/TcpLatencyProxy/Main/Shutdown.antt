-- ===== src/Feed/TcpLatencyProxy/Main/Shutdown.antt =====
-- What is left when the proxy ends.
use chrono_trade.Common.{
  ℕ, ◌≡◌, ◌⊎◌, inl, inr, refl, ◌∙◌, ap, Bool, Option, none, some, List, [], ◌∷◌, ◌++◌, All, arith,
}
use chrono_trade.Common.Float.{Float}
use chrono_trade.Feed.Descriptors.{Call, closes, obey_all}
use chrono_trade.Feed.Descriptors.Held.{gained, obey_all-append, obey_all-step, obey-closes}
use chrono_trade.Feed.TcpLatencyProxy.Args.{ProxyConfig, DirectionFlags, configure}
use chrono_trade.Feed.TcpLatencyProxy.Dial.{Address, listen_on, candidates, is_inet6, is_inet}
use chrono_trade.Feed.TcpLatencyProxy.Dial.First.{IsFreshBinding, listen_on-Bound}
use chrono_trade.Feed.TcpLatencyProxy.Accept.{Server, new_server, Turn, accept_loop}
use chrono_trade.Feed.TcpLatencyProxy.Accept.Bounded.{
  IsBounded, sockets, offered, accept_loop-IsBounded,
}
use chrono_trade.Feed.TcpLatencyProxy.Main.Winding.{IsWoundUp, late_sockets, wind_up-Ends}
use chrono_trade.Feed.TcpLatencyProxy.Main.{to_size, Ending, wind_up, Finished, serve_on, main}

-- The sockets that the kernel gives out for the listening socket are not open.
abbrev pub AreFreshAddresses : List ℕ → Option (List Address) → Type 0
AreFreshAddresses held none = Unit {0}
AreFreshAddresses held (some addrs) =
    All (IsFreshBinding held) (candidates is_inet6 addrs)
    × All (IsFreshBinding held) (candidates is_inet addrs)

-- How the proxy ends.
pub record HasEnded (held : List ℕ) (turns : List Turn) (ending : Ending) (r : Finished)
    : Type 0 where
  pub table : obey_all r.calls held ≡ some held
  pub outcome :
      ((r.exit_code ≡ 1) × (r.server ≡ none))
      ⊎ ((r.exit_code ≡ 0)
          × ((s : Server) × (r.server ≡ some s)
              × IsWoundUp ending s
              × (sockets s.fates ≡ offered turns ++ late_sockets ending)))

module _ {W : Type 0} (strtod : List ℕ → W × List ℕ) ⦃f : Float W⦄ (is_ipv4 : List ℕ → Bool)
    (held : List ℕ) (turns : List Turn) (ending : Ending) where
  new_server-IsBounded : (m : ℕ) → IsBounded m new_server
  new_server-IsBounded m = record { few = omega arith; pressed = omega arith; accounted = refl }

  serve_on-HasEnded :
      (c : ProxyConfig W) (listening : List Call × Option ℕ)
      → obey_all listening.0 held ≡ some (gained listening.1 held)
      → HasEnded held turns ending (serve_on strtod is_ipv4 c listening turns ending)
  serve_on-HasEnded c (calls, none) e = record { table = e; outcome = inl (refl, refl) }
  serve_on-HasEnded c (calls, some fd) e =
      let m = to_size c.max_connections in
      let (bounded, fates) = accept_loop-IsBounded m new_server turns (new_server-IsBounded m) in
      let (wound_up, late) = wind_up-Ends m (accept_loop m new_server turns) ending bounded in
      record {
        table =
            obey_all-append calls (closes fd ∷ []) held (fd ∷ held) e
            ∙ obey_all-step (closes fd) [] (fd ∷ held) held (obey-closes fd held);
        outcome = inr (
          refl,
          (
            wind_up m (accept_loop m new_server turns) ending,
            refl,
            wound_up,
            late ∙ ap (λ fs. fs ++ late_sockets ending) fates,
          ),
        );
      }

  listens :
      (addresses : Option (List Address))
      → AreFreshAddresses held addresses
      → obey_all (listen_on addresses).0 held ≡ some (gained (listen_on addresses).1 held)
  unfolding listen_on
  listens none fresh = refl
  listens (some addrs) fresh = (listen_on-Bound held addrs fresh.0 fresh.1).1

  configured :
      (addresses : Option (List Address))
      → AreFreshAddresses held addresses
      → (o : Option (ProxyConfig W × DirectionFlags))
      → HasEnded held turns ending (elim o [
        | none ↦ record { exit_code = 1; calls = []; server = none }
        | some (c, d) ↦ serve_on strtod is_ipv4 c (listen_on addresses) turns ending
      ])
  configured addresses fresh none = record { table = refl; outcome = inl (refl, refl) }
  configured addresses fresh (some (c, d)) =
      serve_on-HasEnded c (listen_on addresses) (listens addresses fresh)

  -- Whatever its arguments, its clients and the moment of the signal, the proxy leaves the table of
  -- descriptors without its listening socket, if the kernel gives out descriptors that are not open.
  -- Either it returns 1 before it accepts anything, or it returns 0, every accepted socket has exactly
  -- one fate, in the order of acceptance, and the threads that took a socket are those joined and those
  -- left, of which there is none if the final cleanup comes behind the last turn, and at most one else.
  pub main-HasEnded :
      (args : List (List ℕ)) (addresses : Option (List Address))
      → AreFreshAddresses held addresses
      → HasEnded held turns ending (main strtod is_ipv4 args addresses turns ending)
  unfolding main
  main-HasEnded args addresses fresh = configured addresses fresh (configure strtod is_ipv4 args)

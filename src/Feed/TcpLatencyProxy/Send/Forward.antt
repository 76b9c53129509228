-- ===== src/Feed/TcpLatencyProxy/Send/Forward.antt =====
-- What the retries of `proxy_pipe` put on the wire.
use chrono_trade.Common.{ℕ, ◌≡◌, ◌≢◌, List, [], ◌∷◌, ◌++◌, All}
use chrono_trade.Feed.TcpLatencyProxy.Send.{Sent}
use chrono_trade.Feed.TcpLatencyProxy.Send.Prefix.{Agrees}

-- Some of the text from its start, but not all of it.
abbrev pub IsCut : List ℕ → List ℕ → Type 0
IsCut text p = (rest : List ℕ) × (p ++ rest ≡ text) × (rest ≢ [])

abbrev pub concat : List (List ℕ) → List ℕ
concat [] = []
concat (p ∷ ps) = p ++ concat ps

-- On the wire: what was there, what the attempts that blocked had sent, and what the last one sent.
pub record Repeats (text wire : List ℕ) (s : Sent) : Type 0 where
  pub cuts : List (List ℕ)
  pub are_cuts : All (IsCut text) cuts
  pub sent : List ℕ
  pub in_order : s.wire ≡ wire ++ (concat cuts ++ sent)
  pub whole : sent ++ s.left ≡ text
  pub agrees : Agrees s.stop s.left

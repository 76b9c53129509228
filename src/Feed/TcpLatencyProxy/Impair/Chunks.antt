-- ===== src/Feed/TcpLatencyProxy/Impair/Chunks.antt =====
-- What the impairments put on the wire.
use chrono_trade.Common.{ℕ, ◌≤◌, ◌≡◌, ◌≢◌, ◌⊎◌, true, false, List, [], ◌++◌, length}
use chrono_trade.Common.Float.{Float}
use chrono_trade.Feed.TcpLatencyProxy.Impair.{
  Stats, Passage, sent_bytes, one_dropped, one_duplicated, is_success,
}

-- What becomes of a chunk, with the counters before and after: it is lost, sent, or sent twice.
abbrev pub Copies : List ℕ → Stats → Stats → List ℕ → Type 0
Copies chunk a b out =
    ((out ≡ []) × (b ≡ one_dropped a))
    ⊎ (((out ≡ chunk) × (b ≡ sent_bytes a (length chunk)))
        ⊎ ((out ≡ chunk ++ chunk)
            × (b ≡ sent_bytes (one_duplicated (sent_bytes a (length chunk))) (length chunk))))

-- What becomes of a text, chunk by chunk.
pub data Passes : Stats → Stats → List ℕ → List ℕ → Type 0 where
  nothing : {a : Stats} → Passes a a [] []
  chunk_first :
      {a b c : Stats} {text sent : List ℕ} (chunk behind out more : List ℕ)
      → text ≡ chunk ++ behind
      → sent ≡ out ++ more
      → chunk ≢ []
      → length chunk ≤ 1400
      → Copies chunk a b out
      → Passes b c behind more
      → Passes a c text sent

-- The text was cut off in one of its chunks: of that chunk, or of it and its copy, a part is on the
-- wire.
pub data Breaks : Stats → List ℕ → List ℕ → Type 0 where
  broken_chunk :
      {a : Stats} {text sent : List ℕ} (chunk behind unsent : List ℕ)
      → text ≡ chunk ++ behind
      → sent ++ unsent ≡ chunk ++ chunk
      → length chunk ≤ 1400
      → Breaks a text sent
  later_chunk :
      {a b : Stats} {text sent : List ℕ} (chunk behind out more : List ℕ)
      → text ≡ chunk ++ behind
      → sent ≡ out ++ more
      → length chunk ≤ 1400
      → Copies chunk a b out
      → Breaks b behind more
      → Breaks a text sent

record Part (chunk : List ℕ) (p q : Passage) : Type 0 where
  sent : List ℕ
  left : List ℕ
  grows : q.wire ≡ p.wire ++ sent
  parts : sent ++ left ≡ chunk
  whole : is_success q.stop ≡ true → (sent ≡ chunk) × (q.stats ≡ sent_bytes p.stats (length chunk))

-- A round: the chunk is through, or a part of it and its copy.
record Round (chunk : List ℕ) (p q : Passage) : Type 0 where
  put : List ℕ
  grows : q.wire ≡ p.wire ++ put
  fate :
      ((is_success q.stop ≡ true) × Copies chunk p.stats q.stats put)
      ⊎ ((is_success q.stop ≡ false) × (unsent : List ℕ) × (put ++ unsent ≡ chunk ++ chunk))

-- The whole text: it is through, or broken off.
pub record Impaired (text : List ℕ) (p q : Passage) : Type 0 where
  pub put : List ℕ
  pub grows : q.wire ≡ p.wire ++ put
  pub fate :
      ((is_success q.stop ≡ true) × Passes p.stats q.stats text put)
      ⊎ ((is_success q.stop ≡ false) × Breaks p.stats text put)

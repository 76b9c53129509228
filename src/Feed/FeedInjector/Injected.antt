-- ===== src/Feed/FeedInjector/Injected.antt =====
-- What a file of JSON lines leaves behind.
use chrono_trade.Common.{ℕ, ◌+◌, ◌≡◌, Option, none, some, List, [], ◌∷◌, ◌++◌, map, length}
use chrono_trade.Common.Float.{Float}
use chrono_trade.Feed.Hashes.{Hashing, compare_hashes, entry_of}
use chrono_trade.Feed.FeedInjector.{JsonReader, Parsed, parse_json_line, Injector, delayed}

module _ {W : Type 0} where
  abbrev pub delays : List (List ℕ × Parsed W) → ℕ
  delays [] = 0
  delays ((line, p) ∷ rest) = delayed p.delay + delays rest

module _ {J W : Type 0} ⦃f : Float W⦄ (json : JsonReader J W) (hashing : Hashing W) where
  -- The lines that parse, with what was read from them.
  unfoldable pub read_from : List (List ℕ) → List (List ℕ × Parsed W)
  read_from [] = []
  read_from (line ∷ lines) = elim (parse_json_line json line) [
    | none ↦ read_from lines
    | some p ↦ (line, p) ∷ read_from lines
  ]

  -- What has changed when n lines have been read, of which these parsed.
  pub record Injected (s : Injector W) (n : ℕ) (rs : List (List ℕ × Parsed W)) (t : Injector W)
      : Type 0 where
    pub queue : t.sink.out_queue ≡ s.sink.out_queue ++ map (λ r. r.1.order) rs
    pub received : t.sink.orders_received ≡ s.sink.orders_received + length rs
    pub bad : t.sink.anomalies + length rs ≡ s.sink.anomalies + n
    pub log : t.hash_log ≡ s.hash_log ++ map (λ r. entry_of hashing (r.0, r.1.order)) rs
    pub slept : t.slept ≡ s.slept + delays rs

  abbrev injected_by : Injector W → List ℕ → Option (Parsed W) → Injector W
  injected_by s line o = elim o [
    | none ↦ record s { sink = record s.sink { anomalies = s.sink.anomalies + 1 } }
    | some p ↦ record {
      sink = record s.sink {
        out_queue = s.sink.out_queue ++ (p.order ∷ []);
        orders_received = s.sink.orders_received + 1;
      };
      hash_log = compare_hashes hashing line p.order s.hash_log;
      slept = s.slept + delayed p.delay;
    }
  ]

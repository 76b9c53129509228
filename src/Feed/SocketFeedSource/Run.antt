-- ===== src/Feed/SocketFeedSource/Run.antt =====
-- The run over all connections against the bytes that were received.
use chrono_trade.Common.{
  ℕ, ◌≡◌, refl, sym, ◌∙◌, ap, Bool, true, false, not, ◌&&◌, Option, List, [], ◌∷◌, ◌++◌, length,
  arith, if◌then◌else◌, Bool-cases, inl, inr,
}
use chrono_trade.Common.Float.{Float}
use chrono_trade.Feed.SocketFeedSource.{
  Source, Sink, Recv, bytes_read, closed, would_block, failed, Event, read_and_process,
  close_client_connection, run_round, run,
}
use chrono_trade.Feed.SocketFeedSource.Stream.{
  on_bytes, on_bytes-append, on_bytes_gather, process_data_lem, HasNoNewline, on_bytes-HasNoNewline,
  on_bytes-connected,
}

abbrev bytes_of : Recv → List ℕ
bytes_of (bytes_read c cs) = c ∷ cs
bytes_of closed = []
bytes_of would_block = []
bytes_of failed = []

abbrev stays_open : Recv → Bool
stays_open (bytes_read c cs) = true
stays_open closed = false
stays_open would_block = true
stays_open failed = false

-- All bytes of all connections, in the order in which they came, from a state that is connected or not.
abbrev pub heard : Bool → List Event → List ℕ
heard up [] = []
heard up (e ∷ es) = elim (not up && not e.accepts) [
  | true ↦ heard up es
  | false ↦ bytes_of e.received ++ heard (stays_open e.received) es
]

-- What the source keeps and shares besides the connection.
abbrev pub told : {W : Type 0} → Source W → List ℕ × Sink W
told s = (s.partial_line, s.sink)

module _ {W : Type 0} ⦃f : Float W⦄ (stod : List ℕ → Option (W × List ℕ)) where
  read_lem :
      (s : Source W) (c : ℕ) (cs : List ℕ)
      → HasNoNewline stod s
      → read_and_process stod s (bytes_read c cs) ≡ (on_bytes stod s (c ∷ cs), true)
  unfolding read_and_process
  read_lem s c cs h =
      ap (λ t. (t, true))
        (process_data_lem stod (length (s.partial_line ++ (c ∷ cs)))
            (record s { partial_line = [] }) (s.partial_line ++ (c ∷ cs)) refl (omega arith)
          ∙ on_bytes-append stod (record s { partial_line = [] }) s.partial_line (c ∷ cs)
          ∙ ap (λ t. on_bytes stod t (c ∷ cs))
              (on_bytes_gather stod (record s { partial_line = [] }) s.partial_line h))

  told-on_bytes :
      (s : Source W) (up : Bool) (cs : List ℕ)
      → told (on_bytes stod (record s { connected = up }) cs) ≡ told (on_bytes stod s cs)
  told-on_bytes s up cs = ap told (on_bytes-connected stod s up cs)

  -- A round at an open connection.
  abbrev Read : Source W → Recv → Source W
  Read s r =
      let (t, alive) = read_and_process stod (record s { connected = true }) r in
      if alive then t else close_client_connection t

  after :
      (s : Source W) (r : Recv) (es : List Event)
      → HasNoNewline stod s
      → ((t : Source W)
          → HasNoNewline stod t
          → told (run stod t es) ≡ told (on_bytes stod t (heard t.connected es)))
      → told (run stod (Read s r) es)
        ≡ told (on_bytes stod s (bytes_of r ++ heard (stays_open r) es))
  unfolding read_and_process close_client_connection
  after s (bytes_read c cs) es h next =
      let up : Source W = record s { connected = true } in
      ap (λ t. told (run stod (if t.1 then t.0 else close_client_connection t.0) es))
        (read_lem up c cs h)
      ∙ next (on_bytes stod up (c ∷ cs)) (on_bytes-HasNoNewline stod up (c ∷ cs) h)
      ∙ ap (λ b. told (on_bytes stod (on_bytes stod up (c ∷ cs)) (heard b es)))
          (ap (λ t. t.connected) (on_bytes-connected stod s true (c ∷ cs)))
      ∙ ap told (sym (on_bytes-append stod up (c ∷ cs) (heard true es)))
      ∙ told-on_bytes s true ((c ∷ cs) ++ heard true es)
  after s closed es h next =
      next (record s { connected = false }) h ∙ told-on_bytes s false (heard false es)
  after s would_block es h next =
      next (record s { connected = true }) h ∙ told-on_bytes s true (heard true es)
  after s failed es h next =
      next (record s { connected = false }) h ∙ told-on_bytes s false (heard false es)

  -- However the bytes are cut into reads and into connections, the orders, the counters and the line
  -- begun are those of the byte machine on all bytes in a row, where no newline is held back to begin
  -- with: a line may span reads, and also the end of one connection and the start of the next.
  pub run-heard :
      (s : Source W) (es : List Event)
      → HasNoNewline stod s
      → told (run stod s es) ≡ told (on_bytes stod s (heard s.connected es))
  unfolding run run_round on_bytes
  run-heard s [] h = refl
  run-heard s (e ∷ es) h = elim (Bool-cases (not s.connected && not e.accepts)) [
    | inl g ↦ rw (run, run_round, told, on_bytes, heard, g) (run-heard s es h)
    | inr g ↦
        rw (run, run_round, told, on_bytes, heard, g)
          (after s e.received es h (λ t k. run-heard t es k))
  ]

-- ===== src/Feed/SocketFeedSource/Stream.antt =====
-- The source against a machine that reads one byte at a time.
use chrono_trade.Common.{
  ℕ, suc, zero, ◌+◌, ◌≤◌, ◌≡◌, refl, sym, ◌∙◌, ap, Bool, true, false, Option, none, some, List, [],
  ◌∷◌, ◌++◌, ◌==◌, ◌⊎◌, length, append_snoc, append-nil, arith, Option-cases, Bool-cases, inl, inr,
}
use chrono_trade.Common.Float.{Float}
use chrono_trade.Feed.Text.{cut}
use chrono_trade.Feed.SocketFeedSource.{Source, strip_cr, process_line, process_data}

module _ {W : Type 0} ⦃f : Float W⦄ (stod : List ℕ → Option (W × List ℕ)) where
  -- The specification: a newline ends the line that was gathered, any other byte is gathered.
  unfoldable pub on_byte : Source W → ℕ → Source W
  on_byte s c = elim (c == b'\n') [
    | true ↦ record s {
      partial_line = [];
      sink = process_line stod s.sink (strip_cr s.partial_line);
    }
    | false ↦ record s { partial_line = s.partial_line ++ (c ∷ []) }
  ]

  unfoldable pub on_bytes : Source W → List ℕ → Source W
  unfolding on_byte
  on_bytes s [] = s
  on_bytes s (c ∷ cs) = on_bytes (on_byte s c) cs

  pub on_bytes-append :
      (s : Source W) (cs ds : List ℕ) → on_bytes s (cs ++ ds) ≡ on_bytes (on_bytes s cs) ds
  unfolding on_bytes
  on_bytes-append s [] ds = refl
  on_bytes-append s (c ∷ cs) ds = on_bytes-append (on_byte s c) cs ds

  cut_cons_none :
      (c : ℕ) (cs : List ℕ)
      → cut b'\n' (c ∷ cs) ≡ none
      → ((c == b'\n') ≡ false) × (cut b'\n' cs ≡ none)
  unfolding cut
  cut_cons_none c cs h = ground arith

  -- Text without a newline is gathered.
  pub on_bytes_gather :
      (s : Source W) (cs : List ℕ)
      → cut b'\n' cs ≡ none
      → on_bytes s cs ≡ record s { partial_line = s.partial_line ++ cs }
  unfolding on_bytes on_byte
  on_bytes_gather s [] h = ap (λ l. record s { partial_line = l }) (sym (append-nil s.partial_line))
  on_bytes_gather s (c ∷ cs) h =
      let (e, k) = cut_cons_none c cs h in
      rw (on_bytes, on_byte, e)
        (on_bytes_gather (record s { partial_line = s.partial_line ++ (c ∷ []) }) cs k
          ∙ ap (λ l. record s { partial_line = l }) (append_snoc s.partial_line c cs))

  -- The source after it has read on to the newline behind `line`.
  abbrev ended : Source W → List ℕ → Source W
  ended s line = record s {
    partial_line = [];
    sink = process_line stod s.sink (strip_cr (s.partial_line ++ line));
  }

  cut_cons_some :
      (c : ℕ) (cs line rest : List ℕ)
      → cut b'\n' (c ∷ cs) ≡ some (line, rest)
      → (((c == b'\n') ≡ true) × (line ≡ []) × (rest ≡ cs))
        ⊎ (((c == b'\n') ≡ false)
            × ((more : List ℕ) × (line ≡ c ∷ more) × (cut b'\n' cs ≡ some (more, rest))))
  unfolding cut
  cut_cons_some c cs line rest h = elim (Bool-cases (c == b'\n')) [
    | inl e ↦ inl (ground arith)
    | inr e ↦ elim (Option-cases (cut b'\n' cs)) [
      | inl k ↦ absurd (ground arith)
      | inr ((more, left), k) ↦ inr (e, (more, ground arith, ground arith))
    ]
  ]

  on_bytes_line :
      (s : Source W) (cs line rest : List ℕ)
      → cut b'\n' cs ≡ some (line, rest)
      → (on_bytes s cs ≡ on_bytes (ended s line) rest) × (length rest + 1 ≤ length cs)
  unfolding on_bytes on_byte cut
  on_bytes_line s [] line rest h = absurd (ground arith)
  on_bytes_line s (c ∷ cs) line rest h = elim (cut_cons_some c cs line rest h) [
    | inl (e, l, r) ↦ rw (on_bytes, on_byte, e, l, r, append-nil s.partial_line) (refl, omega arith)
    | inr (e, (more, l, k)) ↦
        let (same, short) =
          on_bytes_line (record s { partial_line = s.partial_line ++ (c ∷ []) }) cs more rest k in
        (
          rw (on_bytes, on_byte, e, l)
              (same
                ∙ ap
                    (λ t.
                      on_bytes
                        (record s {
                          partial_line = [];
                          sink = process_line stod s.sink (strip_cr t);
                        })
                        rest)
                    (append_snoc s.partial_line c more)),
          omega arith,
        )
  ]

  -- The loop over the data, with enough fuel, is the byte machine.
  pub process_data_lem :
      (fuel : ℕ) (s : Source W) (text : List ℕ)
      → s.partial_line ≡ []
      → length text ≤ fuel
      → process_data stod fuel s text ≡ on_bytes s text
  unfolding process_data on_bytes
  process_data_lem zero s [] e h = refl
  process_data_lem (suc fuel) s [] e h = refl
  process_data_lem zero s (c ∷ cs) e h = absurd (omega arith)
  process_data_lem (suc fuel) s (c ∷ cs) e h = elim (Option-cases (cut b'\n' (c ∷ cs))) [
    | inl k ↦
        rw (process_data, k)
          (ap (λ l. record s { partial_line = l ++ (c ∷ cs) }) (sym e)
            ∙ sym (on_bytes_gather s (c ∷ cs) k))
    | inr ((line, rest), k) ↦
        let (same, short) = on_bytes_line s (c ∷ cs) line rest k in
        rw (process_data, k)
          (process_data_lem fuel (record s { sink = process_line stod s.sink (strip_cr line) }) rest
              e (omega arith)
            ∙ ap (λ t. on_bytes t rest) (go s line e)
            ∙ sym same)
  ]
    where
      go :
          (s : Source W) (line : List ℕ)
          → s.partial_line ≡ []
          → record s { sink = process_line stod s.sink (strip_cr line) } ≡ ended s line
      go s line e = rw e refl

  abbrev pub HasNoNewline : Source W → Type 0
  HasNoNewline s = cut b'\n' s.partial_line ≡ none

  cut-snoc :
      (cs : List ℕ) (c : ℕ)
      → cut b'\n' cs ≡ none
      → (c == b'\n') ≡ false
      → cut b'\n' (cs ++ (c ∷ [])) ≡ none
  unfolding cut
  cut-snoc [] c h e = rw (cut, e) refl
  cut-snoc (d ∷ cs) c h e = let (k, l) = cut_cons_none d cs h in rw (cut, k, cut-snoc cs c l e) refl

  pub on_bytes-HasNoNewline :
      (s : Source W) (cs : List ℕ) → HasNoNewline s → HasNoNewline (on_bytes s cs)
  unfolding on_bytes on_byte cut
  on_bytes-HasNoNewline s [] h = h
  on_bytes-HasNoNewline s (c ∷ cs) h = elim (Bool-cases (c == b'\n')) [
    | inl e ↦ on_bytes-HasNoNewline (on_byte s c) cs (rw (on_byte, e) refl)
    | inr e ↦
        on_bytes-HasNoNewline (on_byte s c) cs (rw (on_byte, e) (cut-snoc s.partial_line c h e))
  ]

  pub on_bytes-connected :
      (s : Source W) (up : Bool) (cs : List ℕ)
      → on_bytes (record s { connected = up }) cs ≡ record (on_bytes s cs) { connected = up }
  unfolding on_bytes on_byte
  on_bytes-connected s up [] = refl
  on_bytes-connected s up (c ∷ cs) = elim (Bool-cases (c == b'\n')) [
    | inl e ↦
        rw (on_bytes, on_byte, e)
          (on_bytes-connected
            (record s {
              partial_line = [];
              sink = process_line stod s.sink (strip_cr s.partial_line);
            })
            up cs)
    | inr e ↦
        rw (on_bytes, on_byte, e)
          (on_bytes-connected (record s { partial_line = s.partial_line ++ (c ∷ []) }) up cs)
  ]

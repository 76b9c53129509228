-- ===== src/Feed/ZeroCopyCsvParser/Rounds.antt =====
-- The rounds of the loop over one quoted field.
use chrono_trade.Common.{
  ℕ, ◌+◌, ◌<◌, ◌≡◌, ◌≢◌, refl, ap, ◌∙◌, true, false, ◌||◌, some, List, [], ◌∷◌, ◌++◌, arith, length,
  ◌==◌, ==_refl, Bool-cases, inl, inr, lt→leb-false,
}
use mathlib.Core.Path.{ap₂}
use chrono_trade.Feed.ZeroCopyCsvParser.Defs.{
  ParseOptions, Scan, advance, skip, break, add_quoted, on_quote, round, loop, finish, is_newline,
}
use chrono_trade.Feed.ZeroCopyCsvParser.Quote.{double, has}

module _ (line : List ℕ) (opts : ParseOptions) where
  pub loop-advance :
      (s t : Scan) (c : ℕ) (rest : List ℕ)
      → round line opts s (some c) rest ≡ advance t
      → loop line opts s (c ∷ rest) ≡ loop line opts t rest
  unfolding loop
  loop-advance s t c [] e = rw (e, loop) refl
  loop-advance s t c (d ∷ rest) e = rw (e, loop) refl

  pub loop-skip :
      (s t : Scan) (c d : ℕ) (rest : List ℕ)
      → round line opts s (some c) (d ∷ rest) ≡ skip t
      → loop line opts s (c ∷ d ∷ rest) ≡ loop line opts t rest
  unfolding loop
  loop-skip s t c d rest e = rw (e, loop) refl

  pub loop-break :
      (s t : Scan) (c : ℕ) (rest : List ℕ)
      → round line opts s (some c) rest ≡ break t
      → loop line opts s (c ∷ rest) ≡ finish line opts t
  unfolding loop
  loop-break s t c [] e = rw (e, loop) refl
  loop-break s t c (d ∷ rest) e = rw (e, loop) refl

  module _ (apart : opts.delimiter ≢ opts.quote_char)
      (plain_quote : is_newline opts.quote_char ≡ false) where
    open opts use {quote_char as q, delimiter}

    round-plain :
        (s : Scan) (c : ℕ) (next : List ℕ)
        → s.in_quotes ≡ true
        → length s.fields < opts.max_field_count
        → (c == q) ≡ false
        → round line opts s (some c) next ≡ advance (record s { ptr = s.ptr + 1 })
    unfolding round
    round-plain s c next quoted room other =
        rw (lt→leb-false opts.max_field_count (length s.fields) room) (ground arith)

    pub round-quote :
        (s : Scan) (next : List ℕ)
        → length s.fields < opts.max_field_count
        → round line opts s (some q) next ≡ on_quote line opts s next
    unfolding round
    round-quote s next room =
        rw (lt→leb-false opts.max_field_count (length s.fields) room) (ground arith)

    on_quote-escaped :
        (s : Scan) (next : List ℕ)
        → s.in_quotes ≡ true
        → on_quote line opts s (q ∷ next)
          ≡ skip (record s { ptr = s.ptr + 2; field_needs_processing = true })
    unfolding on_quote
    on_quote-escaped s next quoted = ground (arith, ==_refl q)

    pub on_quote-open :
        (s : Scan) (next : List ℕ)
        → s.in_quotes ≡ false
        → s.field_start ≡ s.ptr
        → on_quote line opts s next
          ≡ advance (record s {
            ptr = s.ptr + 1;
            field_start = s.ptr + 1;
            in_quotes = true;
            field_needs_processing = false;
          })
    unfolding on_quote
    on_quote-open s next closed here = ground arith

    -- The state behind the closing quote.
    abbrev pub closed_at : Scan → Scan
    closed_at s = record (add_quoted line opts s) {
      in_quotes = false;
      field_needs_processing = false;
    }

    pub on_quote-last :
        (s : Scan) → s.in_quotes ≡ true → on_quote line opts s [] ≡ break (closed_at s)
    unfolding on_quote
    on_quote-last s quoted = ground arith

    pub on_quote-delimiter :
        (s : Scan) (next : List ℕ)
        → s.in_quotes ≡ true
        → on_quote line opts s (delimiter ∷ next)
          ≡ skip (record (closed_at s) { ptr = s.ptr + 2; field_start = s.ptr + 2 })
    unfolding on_quote
    on_quote-delimiter s next quoted = ground (arith, ==_refl delimiter)

    -- Inside quotes, the rounds run over a doubled field up to the quote that closes it.
    pub scan_field :
        (f : List ℕ) (s : Scan) (c : ℕ) (tail : List ℕ)
        → s.in_quotes ≡ true
        → length s.fields < opts.max_field_count
        → loop line opts s (double q f ++ (c ∷ tail))
          ≡ loop line opts
              (record s {
                ptr = s.ptr + length (double q f);
                field_needs_processing = s.field_needs_processing || has q f;
              })
              (c ∷ tail)
    unfolding double
    scan_field [] s c tail quoted room =
        ap₂ (λ p n. loop line opts (record s { ptr = p; field_needs_processing = n }) (c ∷ tail))
          (omega arith) (ground arith)
    scan_field (x ∷ xs) s c tail quoted room = elim (Bool-cases (x == q)) [
      | inr e ↦
          let t : Scan = record s { ptr = s.ptr + 1 } in
          rw e (
            loop-advance s t x (double q xs ++ (c ∷ tail)) (round-plain s x _ quoted room e)
            ∙ scan_field xs t c tail quoted room
            ∙ ap
                (λ p.
                  loop line opts
                    (record s {
                      ptr = p;
                      field_needs_processing = s.field_needs_processing || has q xs;
                    })
                    (c ∷ tail))
                (omega arith))
      | inl e ↦
          let t : Scan = record s { ptr = s.ptr + 2; field_needs_processing = true } in
          rw e (
            loop-skip s t q q (double q xs ++ (c ∷ tail))
              (round-quote s _ room ∙ on_quote-escaped s _ quoted)
            ∙ scan_field xs t c tail quoted room
            ∙ ap₂
                (λ p n.
                  loop line opts (record s { ptr = p; field_needs_processing = n }) (c ∷ tail))
                (omega arith) (ground arith))
    ]

-- ===== src/Feed/ZeroCopyCsvParser/Buffer/Lines.antt =====
-- The rows of a buffer against its lines.
use mathlib.Core.Path.{subst, ap₂}
use chrono_trade.Common.{
  ℕ, ◌+◌, ◌≤◌, ◌<◌, ◌≡◌, ◌≢◌, ◌⊎◌, inl, inr, refl, sym, ap, ◌∙◌, Bool, true, false, ◌&&◌, some,
  List, [], ◌∷◌, ◌++◌, ◌==◌, ==_iff, append_assoc, append_snoc, length, length-append, All,
  All-append, arith, if_elim, Bool-cases,
}
use chrono_trade.Common.Result.{Result, ok, err}
use chrono_trade.Feed.ZeroCopyCsvParser.Defs.{
  ParseError, ParseOptions, View, direct, pooled, StringPool, Outcome, parse_line_safe,
}
use chrono_trade.Feed.ZeroCopyCsvParser.Sane.{IsWithin}
use chrono_trade.Feed.ZeroCopyCsvParser.Loop.{Ends, parse_line_safe_sound}
use chrono_trade.Feed.ZeroCopyCsvParser.Buffer.{
  Row, Parsed, BufferOutcome, add_row, end_line, and_then, buffer_loop, parse_buffer_safe,
}

-- What a pooled view shows is left open: later lines use its string again.
abbrev InLine : ℕ → View → Type 0
InLine len (direct start n) = start + n ≤ len
InLine len (pooled block i n) = Unit

-- Where a line of a buffer begins: at the start of the buffer, or behind a newline.
abbrev pub Begins : List ℕ → Type 0
Begins before = (before ≡ []) ⊎ ((xs : List ℕ) × (before ≡ xs ++ (b'\n' ∷ [])))

-- Where a line ends: at the end of the buffer, or before a newline or a carriage return with one.
abbrev pub Stops : List ℕ → Type 0
Stops after =
    (after ≡ [])
    ⊎ (((xs : List ℕ) × (after ≡ b'\n' ∷ xs)) ⊎ ((xs : List ℕ) × (after ≡ b'\r' ∷ b'\n' ∷ xs)))

-- A piece of a buffer, from the start of a line on, and what is behind it.
pub record IsPiece (buffer : List ℕ) (line_start : ℕ) (line after : List ℕ) : Type 0 where
  pub before : List ℕ
  pub whole : buffer ≡ before ++ (line ++ after)
  pub at : line_start ≡ length before
  pub begins : Begins before
  pub unbroken : All (λ c. c ≢ b'\n') line

-- A row is one of a line of the buffer, whole and not empty. Its views lie in that line, and are no
-- more than the options allow.
pub record IsInside (buffer : List ℕ) (top : ℕ) (row : Row) : Type 0 where
  pub line : List ℕ
  pub after : List ℕ
  pub piece : IsPiece buffer row.line_start line after
  pub stops : Stops after
  pub some_bytes : 0 < length line
  pub views : All (InLine (length line)) row.fields
  pub few : length row.fields ≤ top

abbrev PositionIn : ℕ → Result ParseError (Unit {0}) → Type 0
PositionIn size (ok _) = Unit
PositionIn size (err e) = e.position ≤ size

pub record IsSound (buffer : List ℕ) (top : ℕ) (o : BufferOutcome) : Type 0 where
  pub inside : All (IsInside buffer top) o.1.rows
  pub position_in : PositionIn (length buffer) o.0

in_line :
    (len : ℕ) (p : StringPool) (vs : List View) → All (IsWithin len p) vs → All (InLine len) vs
in_line len p [] h = tt
in_line len p (direct start n ∷ vs) h = (h.0, in_line len p vs h.1)
in_line len p (pooled block i n ∷ vs) h = (tt, in_line len p vs h.1)

and_both : (a b : Bool) → (a && b) ≡ true → (a ≡ true) × (b ≡ true)
and_both true b h = (refl, h)
and_both false b h = absurd (ground arith)

module _ (buffer : List ℕ) where
  -- A piece goes on by a byte that is no newline.
  longer :
      (line_start : ℕ) (line rest : List ℕ) (c : ℕ)
      → c ≢ b'\n'
      → IsPiece buffer line_start line (c ∷ rest)
      → IsPiece buffer line_start (line ++ (c ∷ [])) rest
  longer line_start line rest c h k = record {
    before = k.before;
    whole = k.whole ∙ ap (λ l. k.before ++ l) (sym (append_snoc line c rest));
    at = k.at;
    begins = k.begins;
    unbroken = All-append (λ d. d ≢ b'\n') line (c ∷ []) k.unbroken (h, tt);
  }

  -- The next line begins behind a break, whose last byte is a newline.
  next_line :
      (line_start : ℕ) (line rest cs : List ℕ)
      → IsPiece buffer line_start line (cs ++ (b'\n' ∷ rest))
      → IsPiece buffer (line_start + length line + (length cs + 1)) [] rest
  next_line line_start line rest cs k =
      let passed = (k.before ++ line) ++ cs in
      record {
        before = passed ++ (b'\n' ∷ []);
        whole =
            k.whole
            ∙ sym (append_assoc k.before line (cs ++ (b'\n' ∷ rest)))
            ∙ sym (append_assoc (k.before ++ line) cs (b'\n' ∷ rest))
            ∙ sym (append_snoc passed b'\n' rest);
        at = omega (
          arith,
          k.at,
          length-append passed (b'\n' ∷ []),
          length-append (k.before ++ line) cs,
          length-append k.before line,
        );
        begins = inr (passed, refl);
        unbroken = tt;
      }

  inside_size :
      (line_start : ℕ) (line after : List ℕ)
      → IsPiece buffer line_start line after
      → line_start + length line ≤ length buffer
  inside_size line_start line after k = omega (
    arith,
    k.at,
    ap length k.whole,
    length-append k.before (line ++ after),
    length-append line after,
  )

  add_row-IsSound :
      (top line_start : ℕ) (line after : List ℕ) (acc : Parsed) (o : Outcome)
      → IsPiece buffer line_start line after
      → Stops after
      → 0 < length line
      → All (IsInside buffer top) acc.rows
      → Ends (length line) top o
      → IsSound buffer top (add_row line_start acc o)
  add_row-IsSound top line_start line after acc (ok u, s) k stops pos h ends = record {
    inside = All-append (IsInside buffer top) acc.rows _ h (
      record {
        line = line;
        after = after;
        piece = k;
        stops = stops;
        some_bytes = pos;
        views = in_line (length line) s.pool s.fields ends.views;
        few = ends.few;
      },
      tt,
    );
    position_in = tt;
  }
  add_row-IsSound top line_start line after acc (err e, s) k stops pos h ends = record {
    inside = h;
    position_in = omega (arith, inside_size line_start line after k);
  }

  end_line-IsSound :
      (opts : ParseOptions) (line_start : ℕ) (line after : List ℕ) (acc : Parsed)
      → IsPiece buffer line_start line after
      → Stops after
      → All (IsInside buffer opts.max_field_count) acc.rows
      → IsSound buffer opts.max_field_count (end_line opts line_start line acc)
  unfolding end_line
  end_line-IsSound opts line_start line after acc k stops h =
      if_elim (IsSound buffer opts.max_field_count) (length line == 0)
        (λ _. record { inside = h; position_in = tt })
        (λ e.
          add_row-IsSound opts.max_field_count line_start line after acc
            (parse_line_safe (some line) opts [] acc.pool) k stops (ground arith) h
            (parse_line_safe_sound line opts [] acc.pool))

  and_then-IsSound :
      (top : ℕ) (o : BufferOutcome) (k : Parsed → BufferOutcome)
      → IsSound buffer top o
      → ((t : Parsed) → All (IsInside buffer top) t.rows → IsSound buffer top (k t))
      → IsSound buffer top (and_then o k)
  and_then-IsSound top (ok u, acc) k h next = next acc h.inside
  and_then-IsSound top (err e, acc) k h next = h

  -- A break of n bytes behind a line.
  broken :
      (opts : ParseOptions) (line_start n : ℕ) (line rest after cs : List ℕ) (acc : Parsed)
      (go_on : Parsed → BufferOutcome)
      → length cs + 1 ≡ n
      → after ≡ cs ++ (b'\n' ∷ rest)
      → IsPiece buffer line_start line after
      → Stops after
      → All (IsInside buffer opts.max_field_count) acc.rows
      → ((t : Parsed)
          → IsPiece buffer (line_start + length line + n) [] rest
          → All (IsInside buffer opts.max_field_count) t.rows
          → IsSound buffer opts.max_field_count (go_on t))
      → IsSound buffer opts.max_field_count (and_then (end_line opts line_start line acc) go_on)
  broken opts line_start n line rest after cs acc go_on l e k stops h next =
      let piece = next_line line_start line rest cs (subst (IsPiece buffer line_start line) e k) in
      and_then-IsSound opts.max_field_count (end_line opts line_start line acc) go_on
        (end_line-IsSound opts line_start line after acc k stops h)
        (λ t rows.
          next t (subst (λ m. IsPiece buffer (line_start + length line + m) [] rest) l piece) rows)

  buffer_loop-IsSound :
      (opts : ParseOptions) (line_start : ℕ) (line rest : List ℕ) (acc : Parsed)
      → IsPiece buffer line_start line rest
      → All (IsInside buffer opts.max_field_count) acc.rows
      → IsSound buffer opts.max_field_count (buffer_loop opts line_start line rest acc)
  unfolding buffer_loop
  buffer_loop-IsSound opts line_start line [] acc k h =
      end_line-IsSound opts line_start line [] acc k (inl refl) h
  buffer_loop-IsSound opts line_start line (c ∷ []) acc k h = elim (Bool-cases (c == b'\n')) [
    | inl e ↦
        let same : c ∷ [] ≡ b'\n' ∷ [] = ap (λ d. d ∷ []) ((==_iff c b'\n').0 e) in
        rw (buffer_loop, e)
          (broken opts line_start 1 line [] (c ∷ []) [] acc _ (omega arith) same k
            (inr (inl ([], same))) h
            (λ t piece rows.
              buffer_loop-IsSound opts (line_start + length line + 1) [] [] t piece rows))
    | inr e ↦
        rw (buffer_loop, e)
          (buffer_loop-IsSound opts line_start (line ++ (c ∷ [])) [] acc
            (longer line_start line [] c (λ d. absurd (ground (arith, (==_iff c b'\n').1 d))) k) h)
  ]
  buffer_loop-IsSound opts line_start line (c ∷ d ∷ rest) acc k h = elim (Bool-cases (c == b'\n')) [
    | inl e ↦
        let same : c ∷ d ∷ rest ≡ b'\n' ∷ d ∷ rest =
          ap (λ x. x ∷ d ∷ rest) ((==_iff c b'\n').0 e) in
        rw (buffer_loop, e)
          (broken opts line_start 1 line (d ∷ rest) (c ∷ d ∷ rest) [] acc _ (omega arith) same k
            (inr (inl (d ∷ rest, same))) h
            (λ t piece rows.
              buffer_loop-IsSound opts (line_start + length line + 1) [] (d ∷ rest) t piece rows))
    | inr e ↦ elim (Bool-cases (c == b'\r' && (d == b'\n'))) [
      | inl both ↦
          let (l, r) = and_both (c == b'\r') (d == b'\n') both in
          let same : c ∷ d ∷ rest ≡ b'\r' ∷ b'\n' ∷ rest =
            ap₂ (λ x y. x ∷ y ∷ rest) ((==_iff c b'\r').0 l) ((==_iff d b'\n').0 r) in
          rw (buffer_loop, e, both)
            (broken opts line_start 2 line rest (c ∷ d ∷ rest) (b'\r' ∷ []) acc _ (omega arith) same
              k (inr (inr (rest, same))) h
              (λ t piece rows.
                buffer_loop-IsSound opts (line_start + length line + 2) [] rest t piece rows))
      | inr apart ↦
          rw (buffer_loop, e, apart)
            (buffer_loop-IsSound opts line_start (line ++ (c ∷ [])) (d ∷ rest) acc
              (longer line_start line (d ∷ rest) c
                (λ x. absurd (ground (arith, (==_iff c b'\n').1 x))) k)
              h)
    ]
  ]

-- Whatever the bytes of a buffer and the options, every row that comes out is one of a whole line of the
-- buffer, not empty: from its start or behind a newline, to its end or before a line break, and without
-- a newline in it. The views of the row that are not pooled lie in that line, and there are no more views
-- than the options allow. An error is at a position of the buffer, or at its end.
pub parse_buffer_safe-IsSound :
    (buffer : List ℕ) (opts : ParseOptions) (before : Parsed)
    → IsSound buffer opts.max_field_count (parse_buffer_safe (some buffer) opts before)
unfolding parse_buffer_safe
parse_buffer_safe-IsSound buffer opts before =
    buffer_loop-IsSound buffer opts 0 [] buffer _
      (record { before = []; whole = refl; at = refl; begins = inl refl; unbroken = tt }) tt

-- ===== src/Feed/ZeroCopyCsvParser/Sane.antt =====
-- What one round of the line parser keeps: views inside the line, and the field limit.
use chrono_trade.Common.{
  some, get_elem?, ◌∙◌, ℕ, ◌+◌, ◌-◌, ◌≤◌, ◌<◌, ◌≡◌, refl, Bool, true, false, not, Option, List, [],
  ◌∷◌, ◌++◌, arith, All, All-append, length, length-append, length-set, leb, ◌==◌, if_elim, ◌&&◌,
  ◌||◌,
}
use chrono_trade.Feed.ZeroCopyCsvParser.Pool.{get_elem?-store, get_elem?-store_self}
use chrono_trade.Feed.ZeroCopyCsvParser.Defs.{
  ParseOptions, View, direct, pooled, StringPool, store, unescape, Scan, Round, advance, skip,
  break, fail, add_quoted, close_quote, on_quote, round, slice, head_is, is_newline, add_plain,
  current_of, at_end?,
}

-- A slice of the line, or the first bytes of a string of the pool that is in use. Its block is the
-- vector's, or an earlier one.
abbrev pub IsWithin : ℕ → StringPool → View → Type 0
IsWithin len p (direct start n) = start + n ≤ len
IsWithin len p (pooled block i n) =
    (i < p.next_free)
    × (block ≤ p.block)
    × ((text : List ℕ) × (get_elem? p.strings i ≡ some text) × (n ≤ length text))

pub record IsSane (len top : ℕ) (s : Scan) : Type 0 where
  pub starts : s.field_start ≤ s.ptr
  pub views : All (IsWithin len s.pool) s.fields
  pub few : length s.fields ≤ top
  pub pool_ok : s.pool.next_free ≤ length s.pool.strings

head_is_pos : (p : ℕ → Bool) (next : List ℕ) → head_is p next ≡ true → 0 < length next
head_is_pos p [] h = cc
head_is_pos p (c ∷ next) h = omega arith

and_left : (a b : Bool) → (a && b) ≡ true → a ≡ true
and_left true b h = refl
and_left false b h = h

module _ (len top : ℕ) where
  IsWithin-store :
      (p : StringPool) (text : List ℕ) (vs : List View)
      → p.next_free ≤ length p.strings
      → All (IsWithin len p) vs
      → All (IsWithin len (store p text).1) vs
  unfolding store
  IsWithin-store p text [] h a = tt
  IsWithin-store p text (direct i n ∷ vs) h (a, more) = (a, IsWithin-store p text vs h more)
  IsWithin-store p text (pooled block i n ∷ vs) h ((below, old, (shown, at, fits)), more) = (
    (omega arith, ground arith, (shown, get_elem?-store p text h i below ∙ at, fits)),
    IsWithin-store p text vs h more,
  )

  -- A field more, while there is room for it.
  add_view :
      (s : Scan) (v : View)
      → length s.fields < top
      → IsSane len top s
      → IsWithin len s.pool v
      → IsSane len top (record s { fields = s.fields ++ (v ∷ []) })
  add_view s v room h w = record {
    starts = h.starts;
    views = All-append (IsWithin len s.pool) s.fields (v ∷ []) h.views (w, tt);
    few = omega (arith, length-append s.fields (v ∷ []));
    pool_ok = h.pool_ok;
  }

  -- The string that has been stored, and the room behind it.
  store_lem :
      (p : StringPool) (text : List ℕ)
      → p.next_free ≤ length p.strings
      → let (i, q) = store p text in
        IsWithin len q (pooled q.block i (length text)) × (q.next_free ≤ length q.strings)
  unfolding store
  store_lem p text h = (
    (omega arith, omega arith, (text, get_elem?-store_self p text h, omega arith)),
    ground (arith, length-append p.strings (text ∷ []), length-set p.strings p.next_free text),
  )

  -- What a round promises about the state that it hands on.
  abbrev pub Promises : Scan → List ℕ → Round → Type 0
  Promises s next (advance t) = IsSane len top t × (t.ptr ≡ s.ptr + 1)
  Promises s next (skip t) = IsSane len top t × (t.ptr ≡ s.ptr + 2) × (0 < length next)
  Promises s next (break t) = IsSane len top t
  Promises s next (fail code at t) = at ≤ s.ptr + length next

  module _ (line : List ℕ) (opts : ParseOptions) (whole : length line ≡ len)
      (limit : opts.max_field_count ≡ top) where
    add_quoted-IsSane :
        (s : Scan)
        → length s.fields < top
        → s.ptr ≤ len
        → IsSane len top s
        → IsSane len top (add_quoted line opts s) × ((add_quoted line opts s).ptr ≡ s.ptr)
    unfolding add_quoted
    add_quoted-IsSane s room inside h =
        if_elim (λ t. IsSane len top t × (t.ptr ≡ s.ptr)) s.field_needs_processing
          (λ _. (
            add_view (record s { pool = (store s.pool text).1 })
                (pooled (store s.pool text).1.block (store s.pool text).0 (length text)) room
                (record {
                  starts = h.starts;
                  views = IsWithin-store s.pool text s.fields h.pool_ok h.views;
                  few = h.few;
                  pool_ok = kept.1;
                })
                kept.0,
            refl,
          ))
          (λ _. (
            add_view s (direct s.field_start (s.ptr - s.field_start)) room h
                (omega (arith, h.starts)),
            refl,
          ))
      where
        text : List ℕ
        text = unescape opts.quote_char (slice line s.field_start (s.ptr - s.field_start))

        kept :
            IsWithin len
              (store s.pool text).1
              (pooled (store s.pool text).1.block (store s.pool text).0 (length text))
            × ((store s.pool text).1.next_free ≤ length (store s.pool text).1.strings)
        kept = store_lem s.pool text h.pool_ok

    close_quote-Promises :
        (s : Scan) (next : List ℕ)
        → length s.fields < top
        → s.ptr ≤ len
        → IsSane len top s
        → Promises s next (close_quote line opts s next)
    unfolding close_quote
    close_quote-Promises s next room inside h =
        if_elim (Promises s next) (head_is (λ c. c == opts.delimiter) next)
          (λ d. (moved (s.ptr + 2), refl, head_is_pos (λ c. c == opts.delimiter) next d))
          (λ _.
            if_elim (Promises s next) (head_is (λ c. not (is_newline c)) next && opts.strict_mode)
              (λ d. omega (arith, head_is_pos (λ c. not (is_newline c)) next (and_left _ _ d)))
              (λ _. record {
                starts = added.0.starts;
                views = added.0.views;
                few = added.0.few;
                pool_ok = added.0.pool_ok;
              }))
      where
        added : IsSane len top (add_quoted line opts s) × ((add_quoted line opts s).ptr ≡ s.ptr)
        added = add_quoted-IsSane s room inside h

        moved :
            (at : ℕ)
            → IsSane len top (record (add_quoted line opts s) {
              in_quotes = false;
              field_needs_processing = false;
              ptr = at;
              field_start = at;
            })
        moved at = record {
          starts = omega arith;
          views = added.0.views;
          few = added.0.few;
          pool_ok = added.0.pool_ok;
        }

    on_quote-Promises :
        (s : Scan) (next : List ℕ)
        → length s.fields < top
        → s.ptr ≤ len
        → IsSane len top s
        → Promises s next (on_quote line opts s next)
    unfolding on_quote
    on_quote-Promises s next room inside h =
        if_elim (Promises s next) (not s.in_quotes)
          (λ _.
            if_elim (Promises s next) (not (s.ptr == s.field_start) && opts.strict_mode)
              (λ _. omega arith)
              (λ _. (
                record { starts = omega arith; views = h.views; few = h.few; pool_ok = h.pool_ok },
                refl,
              )))
          (λ _.
            if_elim (Promises s next) (head_is (λ c. c == opts.quote_char) next)
              (λ d. (
                record {
                  starts = omega (arith, h.starts);
                  views = h.views;
                  few = h.few;
                  pool_ok = h.pool_ok;
                },
                refl,
                head_is_pos (λ c. c == opts.quote_char) next d,
              ))
              (λ _. close_quote-Promises s next room inside h))

    add_plain-IsSane :
        (s : Scan)
        → length s.fields < top
        → s.ptr ≤ len
        → IsSane len top s
        → IsSane len top (add_plain line opts s)
    add_plain-IsSane s room inside h =
        add_view s (direct s.field_start (s.ptr - s.field_start)) room h (omega (arith, h.starts))

    on_by_one :
        (s : Scan) (at : ℕ)
        → s.field_start ≤ at
        → IsSane len top s
        → IsSane len top (record s { ptr = at })
    on_by_one s at le h = record { starts = le; views = h.views; few = h.few; pool_ok = h.pool_ok }

    pub round-Promises :
        (s : Scan) (byte : Option ℕ) (next : List ℕ)
        → s.ptr ≤ len
        → IsSane len top s
        → Promises s next (round line opts s byte next)
    unfolding round
    round-Promises s byte next inside h =
        if_elim P (leb opts.max_field_count (length s.fields)) (λ _. omega arith)
          (λ few.
            let room : length s.fields < top = ground arith in
            if_elim P (current_of line opts byte == opts.quote_char && not (at_end? line opts byte))
              (λ _. on_quote-Promises s next room inside h)
              (λ _.
                if_elim P
                  (current_of line opts byte == opts.delimiter && not s.in_quotes
                    || at_end? line opts byte && not s.in_quotes)
                  (λ _.
                    if_elim P (at_end? line opts byte) (λ _. add_plain-IsSane s room inside h)
                      (λ _. (moved_on (add_plain-IsSane s room inside h), refl)))
                  (λ _.
                    if_elim P
                      (is_newline (current_of line opts byte) && not opts.allow_embedded_newlines)
                      (λ _. if_elim P s.in_quotes (λ _. omega arith) (λ _. h))
                      (λ _. (on_by_one s (s.ptr + 1) (omega (arith, h.starts)) h, refl)))))
      where
        P : Round → Type 0
        P = Promises s next

        moved_on :
            IsSane len top (add_plain line opts s)
            → IsSane len top
                (record (add_plain line opts s) { ptr = s.ptr + 1; field_start = s.ptr + 1 })
        moved_on a = record {
          starts = omega arith;
          views = a.views;
          few = a.few;
          pool_ok = a.pool_ok;
        }

-- ===== src/Feed/ZeroCopyCsvParser/RoundTrip.antt =====
-- Quoted lines read back: the fields of a line that is written with every field in quotes and every
-- quote doubled.
use chrono_trade.Common.{
  ℕ, ◌+◌, ◌-◌, ◌≤◌, ◌<◌, ◌≡◌, ◌≢◌, refl, sym, ap, ◌∙◌, true, false, some, List, [], ◌∷◌, ◌++◌, map,
  arith, length, length-append, ltb, ◌==◌, ==_iff, append_snoc, All, All-append, if_elim, ltb→lt,
  append_assoc,
}
use mathlib.Core.Path.{ap₂, subst}
use mathlib.Core.List.{map-append}
use chrono_trade.Common.Result.{ok, err}
use chrono_trade.Feed.ZeroCopyCsvParser.Defs.{
  ParseOptions, View, direct, pooled, StringPool, store, read_view, unescape, Scan, add_quoted,
  loop, parse_line_safe, slice, Outcome, max_line_length, start_scan, reset, is_newline,
}
use chrono_trade.Feed.ZeroCopyCsvParser.Quote.{
  double, encode_fields, has, escaped, unescape-double, double-id, slice_at, encode_fields-pos,
}
use chrono_trade.Feed.ZeroCopyCsvParser.Pool.{
  IsBelow, Holds, map-read_view-store, store_facts, store-block, read_view-store_self,
}
use chrono_trade.Feed.ZeroCopyCsvParser.Rounds.{
  loop-advance, loop-skip, loop-break, round-quote, on_quote-open, closed_at, on_quote-last,
  on_quote-delimiter, scan_field,
}

-- A line that starts at a state reads as these fields.
abbrev Reads : List ℕ → List (List ℕ) → Outcome → Type 0
Reads line fs (ok _, t) = map (read_view line t.pool) t.fields ≡ map some fs
Reads line fs (err e, t) = ⊥

Reads-pair :
    (line : List ℕ) (fs : List (List ℕ)) (o : Outcome)
    → Reads line fs o
    → (o.0 ≡ ok tt) × (map (read_view line o.1.pool) o.1.fields ≡ map some fs)
Reads-pair line fs (ok tt, t) h = (refl, h)
Reads-pair line fs (err e, t) h = absurd h

module _ (line : List ℕ) (opts : ParseOptions) where
  module _ (apart : opts.delimiter ≢ opts.quote_char)
      (plain_quote : is_newline opts.quote_char ≡ false) where
    open opts use {quote_char as q, delimiter}

    read_direct :
        (whole : List ℕ) (p : StringPool) (start len : ℕ) (text : List ℕ)
        → slice whole start len ≡ text
        → read_view whole p (direct start len) ≡ some text
    unfolding read_view
    read_direct whole p start len text e = ap some e

    All-IsBelow_mono : (m n : ℕ) (vs : List View) → m ≤ n → All (IsBelow m) vs → All (IsBelow n) vs
    All-IsBelow_mono m n [] h a = tt
    All-IsBelow_mono m n (direct i k ∷ vs) h (a, r) = (tt, All-IsBelow_mono m n vs h r)
    All-IsBelow_mono m n (pooled b i k ∷ vs) h (a, r) = (omega arith, All-IsBelow_mono m n vs h r)

    -- The view that is added at a closing quote reads as the field, and the earlier ones as before.
    add_quoted-Holds :
        (s : Scan) (fs : List (List ℕ)) (f : List ℕ)
        → Holds line s fs
        → slice line s.field_start (s.ptr - s.field_start) ≡ double q f
        → s.field_needs_processing ≡ has q f
        → (has q f ≡ true → s.pool.next_free < s.pool.capacity)
        → Holds line (add_quoted line opts s) (fs ++ (f ∷ []))
    unfolding add_quoted
    add_quoted-Holds s fs f h shown needs spare =
        if_elim (λ t. Holds line t (fs ++ (f ∷ []))) s.field_needs_processing
          (λ e. record {
            reads =
                map-append (read_view line (store s.pool text).1) s.fields
                  (pooled (store s.pool text).1.block (store s.pool text).0 (length text) ∷ [])
                ∙ ap₂ ◌++◌
                    (map-read_view-store s.pool text h.room line s.fields
                        (store-block s.pool text h.room (spare (sym needs ∙ e))).0 h.below
                      ∙ h.reads)
                    (ap (λ o. o ∷ [])
                      (read_view-store_self s.pool text h.room line ∙ ap some text_eq))
                ∙ sym (map-append some fs (f ∷ []));
            below =
                All-append (IsBelow (store s.pool text).1.next_free) s.fields
                  (pooled (store s.pool text).1.block (store s.pool text).0 (length text) ∷ [])
                  (All-IsBelow_mono s.pool.next_free (store s.pool text).1.next_free s.fields
                    (omega (arith, store_facts s.pool text h.room)) h.below)
                  (omega (arith, store_facts s.pool text h.room), tt);
            room = omega (arith, store_facts s.pool text h.room);
          })
          (λ e. record {
            reads =
                map-append (read_view line s.pool) s.fields
                  (direct s.field_start (s.ptr - s.field_start) ∷ [])
                ∙ ap₂ ◌++◌ h.reads (
                    ap (λ o. o ∷ [])
                      (read_direct line s.pool _ _ _ shown
                        ∙ ap some (double-id q f (sym needs ∙ e))))
                ∙ sym (map-append some fs (f ∷ []));
            below =
                All-append (IsBelow s.pool.next_free) s.fields
                  (direct s.field_start (s.ptr - s.field_start) ∷ []) h.below (tt, tt);
            room = h.room;
          })
      where
        text : List ℕ
        text = unescape q (slice line s.field_start (s.ptr - s.field_start))

        text_eq : text ≡ f
        text_eq = ap (unescape q) shown ∙ unescape-double q f

    -- One quoted field: the state before its closing quote, with what that state will hold.
    before_close : Scan → List ℕ → Scan
    before_close s f = record s {
      ptr = s.ptr + 1 + length (double q f);
      field_start = s.ptr + 1;
      in_quotes = true;
      field_needs_processing = has q f;
    }

    to_close :
        (s : Scan) (f : List ℕ) (c : ℕ) (tail : List ℕ)
        → s.in_quotes ≡ false
        → s.field_start ≡ s.ptr
        → length s.fields < opts.max_field_count
        → loop line opts s (q ∷ (double q f ++ (c ∷ tail)))
          ≡ loop line opts (before_close s f) (c ∷ tail)
    unfolding before_close
    to_close s f c tail closed here room =
        let t : Scan = record s {
          ptr = s.ptr + 1;
          field_start = s.ptr + 1;
          in_quotes = true;
          field_needs_processing = false;
        } in
        loop-advance line opts s t q (double q f ++ (c ∷ tail)) (
          round-quote line opts apart plain_quote s _ room
          ∙ on_quote-open line opts apart plain_quote s _ closed here)
        ∙ scan_field line opts apart plain_quote f t c tail refl room

    before_close-Holds :
        (s : Scan) (f pre tail : List ℕ) (fs : List (List ℕ))
        → line ≡ pre ++ (q ∷ (double q f ++ (q ∷ tail)))
        → s.ptr ≡ length pre
        → (has q f ≡ true → s.pool.next_free < s.pool.capacity)
        → Holds line s fs
        → Holds line (add_quoted line opts (before_close s f)) (fs ++ (f ∷ []))
    unfolding before_close
    before_close-Holds s f pre tail fs e at spare h =
        add_quoted-Holds (before_close s f) fs f
          (record { reads = h.reads; below = h.below; room = h.room })
          (slice_at line (pre ++ (q ∷ [])) (double q f) (q ∷ tail) (s.ptr + 1) _
            (e ∙ sym (append_snoc pre q _)) (omega (arith, length-append pre (q ∷ [])))
            (omega arith))
          refl spare

    length-add_quoted : (s : Scan) → length (add_quoted line opts s).fields ≡ length s.fields + 1
    unfolding add_quoted
    length-add_quoted s =
        if_elim (λ (t : Scan). length t.fields ≡ length s.fields + 1) s.field_needs_processing
          (λ _. length-append s.fields (_ ∷ [])) (λ _. length-append s.fields (_ ∷ []))

    -- What the pool has to spare for the fields behind.
    spare_behind :
        (s : Scan) (f : List ℕ) (fs : List (List ℕ))
        → s.field_needs_processing ≡ has q f
        → s.pool.next_free ≤ length s.pool.strings
        → s.pool.next_free + escaped q (f ∷ fs) ≤ s.pool.capacity
        → (add_quoted line opts s).pool.next_free + escaped q fs
          ≤ (add_quoted line opts s).pool.capacity
    unfolding add_quoted
    spare_behind s f fs needs room h =
        if_elim (λ (t : Scan). t.pool.next_free + escaped q fs ≤ t.pool.capacity)
          s.field_needs_processing
          (λ e.
            let more = escaped_more (sym needs ∙ e) in
            omega (
              arith,
              store_facts s.pool text room,
              (store-block s.pool text room (omega (arith, more))).1,
              more,
            ))
          (λ e. omega (arith, escaped_same (sym needs ∙ e)))
      where
        text : List ℕ
        text = unescape q (slice line s.field_start (s.ptr - s.field_start))

        escaped_more : has q f ≡ true → escaped q (f ∷ fs) ≡ escaped q fs + 1
        escaped_more e = ground (arith, e)

        escaped_same : has q f ≡ false → escaped q (f ∷ fs) ≡ escaped q fs
        escaped_same e = ground (arith, e)

    spare_now :
        (s : Scan) (f : List ℕ) (fs : List (List ℕ))
        → s.pool.next_free + escaped q (f ∷ fs) ≤ s.pool.capacity
        → has q f ≡ true
        → s.pool.next_free < s.pool.capacity
    spare_now s f fs h e = ground (arith, e)

    read_fields :
        (f : List ℕ) (fs past : List (List ℕ)) (s : Scan) (pre : List ℕ)
        → line ≡ pre ++ encode_fields opts (f ∷ fs)
        → s.ptr ≡ length pre
        → s.in_quotes ≡ false
        → s.field_start ≡ s.ptr
        → length s.fields + length (f ∷ fs) ≤ opts.max_field_count
        → s.pool.next_free + escaped q (f ∷ fs) ≤ s.pool.capacity
        → Holds line s past
        → Reads line (past ++ (f ∷ fs)) (loop line opts s (encode_fields opts (f ∷ fs)))
    unfolding encode_fields before_close
    read_fields f [] past s pre e at closed here few spare h =
        rw
          (to_close s f q [] closed here (omega arith)
            ∙ loop-break line opts (before_close s f)
                (closed_at line opts apart plain_quote (before_close s f)) q []
                (round-quote line opts apart plain_quote (before_close s f) [] (omega arith)
                  ∙ on_quote-last line opts apart plain_quote (before_close s f) refl))
          ((before_close-Holds s f pre [] past e at (spare_now s f [] spare) h).reads)
    read_fields f (g ∷ fs) past s pre e at closed here few spare h =
        let b = before_close s f in
        let t : Scan = record (closed_at line opts apart plain_quote b) {
          ptr = b.ptr + 2;
          field_start = b.ptr + 2;
        } in
        let held =
          before_close-Holds s f pre (delimiter ∷ encode_fields opts (g ∷ fs)) past e at
            (spare_now s f (g ∷ fs) spare) h in
        rw
          (to_close s f q (delimiter ∷ encode_fields opts (g ∷ fs)) closed here (omega arith)
            ∙ loop-skip line opts b t q delimiter (encode_fields opts (g ∷ fs)) (
                round-quote line opts apart plain_quote b _ (omega arith)
                ∙ on_quote-delimiter line opts apart plain_quote b _ refl))
          (subst (λ l. Reads line l (loop line opts t (encode_fields opts (g ∷ fs))))
            (append_snoc past f (g ∷ fs))
            (read_fields g fs (past ++ (f ∷ [])) t
              (pre ++ (q ∷ (double q f ++ (q ∷ delimiter ∷ []))))
              (e
                ∙ ap (λ l. pre ++ (q ∷ l))
                    (sym (
                      append_assoc (double q f) (q ∷ delimiter ∷ []) (encode_fields opts (g ∷ fs))))
                ∙ sym (append_assoc pre (q ∷ (double q f ++ (q ∷ delimiter ∷ []))) _))
              (omega (
                arith,
                length-append pre (q ∷ (double q f ++ (q ∷ delimiter ∷ []))),
                length-append (double q f) (q ∷ delimiter ∷ []),
              ))
              refl refl (omega (arith, length-add_quoted b))
              (spare_behind b f (g ∷ fs) refl h.room spare)
              (record { reads = held.reads; below = held.below; room = held.room })))

-- A line written with every field in quotes and every quote doubled parses back to its fields, for
-- any bytes in them, newlines and delimiters included, and whatever the caller's vector and the pool
-- held before: if the quote is no newline and not the delimiter, the fields are within the limit, the
-- line is within the maximum length, and the pool's vector has the capacity for the fields that hold a
-- quote, so that it does not move the strings that the views show.
pub parse_line_safe-encode :
    (opts : ParseOptions) (fs : List (List ℕ)) (fields : List View) (p : StringPool)
    → opts.delimiter ≢ opts.quote_char
    → is_newline opts.quote_char ≡ false
    → length fs ≤ opts.max_field_count
    → length (encode_fields opts fs) ≤ max_line_length
    → escaped opts.quote_char fs ≤ p.capacity
    → let (result, t) = parse_line_safe (some (encode_fields opts fs)) opts fields p in
      (result ≡ ok tt) × (map (read_view (encode_fields opts fs) t.pool) t.fields ≡ map some fs)
unfolding parse_line_safe encode_fields
parse_line_safe-encode opts [] fields p apart plain few short spare = (refl, refl)
parse_line_safe-encode opts (f ∷ fs) fields p apart plain few short spare =
    let line = encode_fields opts (f ∷ fs) in
    Reads-pair line (f ∷ fs) _ (
      if_elim (Reads line (f ∷ fs)) (ltb max_line_length (length line))
        (λ e. absurd (omega (arith, ltb→lt _ _ e)))
        (λ _.
          if_elim (Reads line (f ∷ fs)) (length line == 0)
            (λ e. absurd (omega (arith, (==_iff (length line) 0).0 e, encode_fields-pos opts f fs)))
            (λ _.
              read_fields line opts apart plain f fs [] (start_scan [] (reset p)) [] refl refl refl
                refl (omega (arith, few)) (omega (arith, spare))
                (record { reads = refl; below = tt; room = omega arith }))))

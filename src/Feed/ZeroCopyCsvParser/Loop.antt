-- ===== src/Feed/ZeroCopyCsvParser/Loop.antt =====
-- What every call of the line parser keeps: views inside the line, the field limit, the position of
-- an error.
use chrono_trade.Common.{
  ℕ, ◌+◌, ◌≤◌, ◌≡◌, refl, none, some, List, [], ◌∷◌, arith, length, ltb, ◌==◌, if_elim,
}
use chrono_trade.Common.Result.{ok, err}
use chrono_trade.Feed.ZeroCopyCsvParser.Defs.{
  ParseOptions, View, StringPool, Scan, Round, advance, skip, break, fail, round, loop,
  parse_line_safe, Outcome, finish, failed, start_scan, max_line_length, reset,
}
use chrono_trade.Feed.ZeroCopyCsvParser.Sane.{IsSane, Promises, round-Promises}

module _ (len top : ℕ) where
  abbrev pub Ends : Outcome → Type 0
  Ends (ok _, t) = IsSane len top t
  Ends (err e, t) = e.position ≤ len

  module _ (line : List ℕ) (opts : ParseOptions) (whole : length line ≡ len)
      (limit : opts.max_field_count ≡ top) where
    finish-Ends : (t : Scan) → IsSane len top t → Ends (finish line opts t)
    finish-Ends t h = if_elim Ends t.in_quotes (λ _. omega arith) (λ _. h)

    -- The rounds, one after another, to the end of the line.
    loop-Ends :
        (s : Scan) (rest : List ℕ)
        → s.ptr + length rest ≡ len
        → IsSane len top s
        → Ends (loop line opts s rest)
    unfolding loop
    loop-Ends s [] e h =
        go (round line opts s none [])
          (round-Promises len top line opts whole limit s none [] (omega arith) h)
      where
        go :
            (r : Round)
            → Promises len top s [] r
            → Ends (elim r [
              | advance t ↦ finish line opts t
              | skip t ↦ finish line opts t
              | break t ↦ finish line opts t
              | fail code at t ↦ failed code at t
            ])
        go (advance t) p = finish-Ends t p.0
        go (skip t) p = finish-Ends t p.0
        go (break t) p = finish-Ends t p
        go (fail code at t) p = omega arith
    loop-Ends s (c ∷ []) e h =
        go (round line opts s (some c) [])
          (round-Promises len top line opts whole limit s (some c) [] (omega arith) h)
          (λ t same k. loop-Ends t [] (omega arith) k)
      where
        go :
            (r : Round)
            → Promises len top s [] r
            → ((t : Scan) → t.ptr ≡ s.ptr + 1 → IsSane len top t → Ends (loop line opts t []))
            → Ends (elim r [
              | advance t ↦ loop line opts t []
              | skip t ↦ finish line opts t
              | break t ↦ finish line opts t
              | fail code at t ↦ failed code at t
            ])
        go (advance t) p k = k t p.1 p.0
        go (skip t) p k = finish-Ends t p.0
        go (break t) p k = finish-Ends t p
        go (fail code at t) p k = omega arith
    loop-Ends s (c ∷ d ∷ rest) e h =
        go (round line opts s (some c) (d ∷ rest))
          (round-Promises len top line opts whole limit s (some c) (d ∷ rest) (omega arith) h)
          (λ t same k. loop-Ends t (d ∷ rest) (omega arith) k)
          (λ t same k. loop-Ends t rest (omega arith) k)
      where
        go :
            (r : Round)
            → Promises len top s (d ∷ rest) r
            → ((t : Scan)
                → t.ptr ≡ s.ptr + 1
                → IsSane len top t
                → Ends (loop line opts t (d ∷ rest)))
            → ((t : Scan) → t.ptr ≡ s.ptr + 2 → IsSane len top t → Ends (loop line opts t rest))
            → Ends (elim r [
              | advance t ↦ loop line opts t (d ∷ rest)
              | skip t ↦ loop line opts t rest
              | break t ↦ finish line opts t
              | fail code at t ↦ failed code at t
            ])
        go (advance t) p k l = k t p.1 p.0
        go (skip t) p k l = l t p.1 p.0
        go (break t) p k l = finish-Ends t p
        go (fail code at t) p k l = omega arith

-- A line that is not null, whatever its bytes and the options: on success there are at most as many
-- fields as the limit allows, every view lies inside the line or names a string that the pool holds;
-- on failure the position reported lies inside the line or at its end.
pub parse_line_safe_sound :
    (line : List ℕ) (opts : ParseOptions) (fields : List View) (p : StringPool)
    → Ends (length line) opts.max_field_count (parse_line_safe (some line) opts fields p)
unfolding parse_line_safe
parse_line_safe_sound line opts fields p =
    if_elim (Ends (length line) opts.max_field_count) (ltb max_line_length (length line))
      (λ _. omega arith)
      (λ _.
        if_elim (Ends (length line) opts.max_field_count) (length line == 0) (λ _. fresh)
          (λ _.
            loop-Ends (length line) opts.max_field_count line opts refl refl _ line (omega arith)
              fresh))
  where
    fresh : IsSane (length line) opts.max_field_count (start_scan [] (reset p))
    fresh = omega arith

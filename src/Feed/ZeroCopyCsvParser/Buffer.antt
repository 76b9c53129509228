-- ===== src/Feed/ZeroCopyCsvParser/Buffer.antt =====
-- feed/ZeroCopyCsvParser.hpp, the parsers of a buffer and the wrappers of the line parser. A row is
-- where its line starts in the buffer and the views into the line. The vectors that `field_pool` lends
-- are empty when they are lent, and moved out of it. The buffer is read only, but for the commas and
-- newlines that the unchecked parsers overwrite, which lie in no field.
pub mod Lines
use mathlib.Core.Path.{subst, ap₂}
use chrono_trade.Common.{
  ◌<◌, ◌≡◌, ◌≢◌, ◌⊎◌, refl, sym, ap, ◌∙◌, ==_iff, append_assoc, append_snoc, ℕ, ◌+◌, ◌≤◌, Bool,
  true, false, ◌&&◌, Option, none, some, List, [], ◌∷◌, ◌++◌, ◌==◌, length, length-append, All,
  All-append, arith, if◌then◌else◌, if_elim, Bool-cases, inl, inr,
}
use chrono_trade.Common.Result.{Result, ok, err}
use chrono_trade.Feed.ZeroCopyCsvParser.Defs.{
  null_input, ParseError, ParseOptions, View, direct, pooled, StringPool, Outcome, reset,
  default_options, parse_line_safe,
}
use chrono_trade.Feed.ZeroCopyCsvParser.Sane.{IsWithin}
use chrono_trade.Feed.ZeroCopyCsvParser.Loop.{Ends, parse_line_safe_sound}

pub record Row : Type 0 where
  pub line_start : ℕ
  pub fields : List View

-- The rows so far, and the string pool.
pub record Parsed : Type 0 where
  pub rows : List Row
  pub pool : StringPool

abbrev pub BufferOutcome : Type 0
BufferOutcome = Result ParseError (Unit {0}) × Parsed

-- What is made of a line that the line parser has read.
abbrev pub add_row : ℕ → Parsed → Outcome → BufferOutcome
add_row line_start acc (ok _, s) = (
  ok tt,
  record {
    rows = acc.rows ++ (record { line_start = line_start; fields = s.fields } ∷ []);
    pool = s.pool;
  },
)
add_row line_start acc (err e, s) =
    (err (record e { position = e.position + line_start }), record acc { pool = s.pool })

-- The end of a line: nothing, if it is empty.
unfoldable pub end_line : ParseOptions → ℕ → List ℕ → Parsed → BufferOutcome
end_line opts line_start line acc =
    if length line == 0
    then (ok tt, acc)
    else add_row line_start acc (parse_line_safe (some line) opts [] acc.pool)

abbrev pub and_then : BufferOutcome → (Parsed → BufferOutcome) → BufferOutcome
and_then (ok _, acc) k = k acc
and_then (err e, acc) k = (err e, acc)

-- The loop: the start of the line, its bytes so far, and the bytes to come.
unfoldable pub buffer_loop : ParseOptions → ℕ → List ℕ → List ℕ → Parsed → BufferOutcome
unfolding end_line
buffer_loop opts line_start line [] acc = end_line opts line_start line acc
buffer_loop opts line_start line (c ∷ []) acc = elim (c == b'\n') [
  | true ↦
      and_then (end_line opts line_start line acc)
        (λ t. buffer_loop opts (line_start + length line + 1) [] [] t)
  | false ↦ buffer_loop opts line_start (line ++ (c ∷ [])) [] acc
]
buffer_loop opts line_start line (c ∷ d ∷ rest) acc = elim (c == b'\n') [
  | true ↦
      and_then (end_line opts line_start line acc)
        (λ t. buffer_loop opts (line_start + length line + 1) [] (d ∷ rest) t)
  | false ↦ elim (c == b'\r' && (d == b'\n')) [
    | true ↦
        and_then (end_line opts line_start line acc)
          (λ t. buffer_loop opts (line_start + length line + 2) [] rest t)
    | false ↦ buffer_loop opts line_start (line ++ (c ∷ [])) (d ∷ rest) acc
  ]
]

unfoldable pub parse_buffer_safe : Option (List ℕ) → ParseOptions → Parsed → BufferOutcome
unfolding buffer_loop
parse_buffer_safe none opts before = (err (record { code = null_input; position = 0 }), before)
parse_buffer_safe (some buffer) opts before =
    buffer_loop opts 0 [] buffer (record { rows = []; pool = reset before.pool })

-- The views of `parse_line_unsafe`, which stops at the byte 0: from `start` on, `len` bytes of the
-- field are behind.
unfoldable pub unsafe_fields : ℕ → ℕ → List ℕ → List View
unsafe_fields start len [] = if len == 0 then [] else direct start len ∷ []
unsafe_fields start len (c ∷ cs) = elim (c == 0) [
  | true ↦ if len == 0 then [] else direct start len ∷ []
  | false ↦ elim (c == b',') [
    | true ↦ direct start len ∷ unsafe_fields (start + len + 1) 0 cs
    | false ↦ unsafe_fields start (len + 1) cs
  ]
]

abbrev pub parse_line_unsafe : List ℕ → List View
parse_line_unsafe line = unsafe_fields 0 0 line

-- A line that does not parse is left out.
abbrev pub keep_row : ℕ → Parsed → Outcome → Parsed
keep_row line_start acc (ok _, s) = record {
  rows = acc.rows ++ (record { line_start = line_start; fields = s.fields } ∷ []);
  pool = s.pool;
}
keep_row line_start acc (err e, s) = record acc { pool = s.pool }

abbrev pub unsafe_row : ℕ → List ℕ → Parsed → Parsed
unsafe_row line_start line acc =
    keep_row line_start acc (parse_line_safe (some line) default_options [] acc.pool)

unfoldable pub unsafe_loop : ℕ → List ℕ → List ℕ → Parsed → Parsed
unsafe_loop line_start [] [] acc = acc
unsafe_loop line_start (b ∷ line) [] acc = unsafe_row line_start (b ∷ line) acc
unsafe_loop line_start line (c ∷ rest) acc = elim (c == b'\n') [
  | true ↦ unsafe_loop (line_start + length line + 1) [] rest (unsafe_row line_start line acc)
  | false ↦ unsafe_loop line_start (line ++ (c ∷ [])) rest acc
]

abbrev pub parse_buffer_unsafe : List ℕ → StringPool → Parsed
parse_buffer_unsafe buffer p = unsafe_loop 0 [] buffer (record { rows = []; pool = p })

-- `parse_line_optional` and `parse_line_owned`: the views, if the line parses.
abbrev pub views_of : Outcome → Option (List View)
views_of (ok _, s) = some s.fields
views_of (err e, s) = none

abbrev pub parse_line_optional : Option (List ℕ) → ParseOptions → StringPool → Option (List View)
parse_line_optional line opts p = views_of (parse_line_safe line opts [] (reset p))

abbrev pub parse_line_owned : Option (List ℕ) → ParseOptions → StringPool → Option (List View)
parse_line_owned line opts p = views_of (parse_line_safe line opts [] (reset p))

abbrev pub parse_line_debug : List ℕ → List View → ParseOptions → StringPool → Outcome
parse_line_debug s fields opts p = parse_line_safe (some s) opts fields p

abbrev pub is_rfc_compliant : ParseOptions → Bool
is_rfc_compliant opts =
    ((opts.delimiter == b',' && (opts.quote_char == b'"')) && (opts.escape_char == b'"'))
    && opts.strict_mode

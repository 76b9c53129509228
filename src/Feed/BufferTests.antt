-- ===== src/Feed/BufferTests.antt =====
-- Buffers of CSV lines.
use chrono_trade.Common.{ℕ, ◌≡◌, true, refl, some, List, [], ◌∷◌, length}
use chrono_trade.Feed.Text.{bytes}
use chrono_trade.Feed.ZeroCopyCsvParser.{
  default_options, max_fields, parse_line_safe, loop, round, on_quote, close_quote, add_quoted,
  unescape, store, read_view, direct, pooled,
}
use chrono_trade.Feed.ZeroCopyCsvParser.Buffer.Lines
use chrono_trade.Feed.ZeroCopyCsvParser.Buffer.Lines.{IsSound}
use chrono_trade.Feed.ZeroCopyCsvParser.Buffer.{
  Parsed, parse_buffer_safe, buffer_loop, end_line, parse_line_unsafe, unsafe_fields,
  parse_buffer_unsafe, unsafe_loop, is_rfc_compliant,
}

abbrev nothing_parsed : Parsed
nothing_parsed = record {
  rows = [];
  pool = record { strings = []; next_free = 0; capacity = 0; block = 0 };
}

-- `"a""b"` and `"c""d"`, on two lines.
abbrev two_lines : List ℕ
two_lines = bytes "\"a\"\"b\"\n\"c\"\"d\""

-- The fields of both rows name the same string.
same_string :
    (parse_buffer_safe (some two_lines) default_options nothing_parsed).1.rows
    ≡ record { line_start = 0; fields = pooled 1 0 3 ∷ [] }
      ∷ record { line_start = 7; fields = pooled 1 0 3 ∷ [] }
      ∷ []
unfolding parse_buffer_safe buffer_loop end_line parse_line_safe loop round on_quote close_quote
    add_quoted unescape store
same_string = refl

-- When the parser is done, the field of the first row reads as that of the second.
first_row_reads_second :
    read_view
      (bytes "\"a\"\"b\"")
      (parse_buffer_safe (some two_lines) default_options nothing_parsed).1.pool
      (pooled 1 0 3)
    ≡ some (bytes "c\"d")
unfolding parse_buffer_safe buffer_loop end_line parse_line_safe loop round on_quote close_quote
    add_quoted unescape store read_view
first_row_reads_second = refl

-- An empty field at the end of a line is no field for the unchecked parser.
unsafe_three : parse_line_unsafe (bytes "a,,bc,") ≡ direct 0 1 ∷ direct 2 0 ∷ direct 3 2 ∷ []
unfolding unsafe_fields
unsafe_three = refl

-- The unchecked parser makes a row of an empty line, and the safe one does not.
empty_line :
    (length (parse_buffer_unsafe (bytes "a\n\nb") nothing_parsed.pool).rows ≡ 3)
    × (length (parse_buffer_safe (some (bytes "a\n\nb")) default_options nothing_parsed).1.rows ≡ 2)
unfolding unsafe_loop parse_buffer_safe buffer_loop end_line parse_line_safe loop round
empty_line = (refl, refl)

default_is_rfc : is_rfc_compliant default_options ≡ true
default_is_rfc = refl

parse_buffer_safe-IsSound_example :
    IsSound two_lines max_fields (parse_buffer_safe (some two_lines) default_options nothing_parsed)
parse_buffer_safe-IsSound_example =
    Lines.parse_buffer_safe-IsSound two_lines default_options nothing_parsed

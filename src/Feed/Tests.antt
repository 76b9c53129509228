-- ===== src/Feed/Tests.antt =====
-- Runs of the feeds.
use chrono_trade.Common.{ℕ, ◌≡◌, refl, none, some, List, [], ◌∷◌, map, arith}
use chrono_trade.Common.Result.{ok}
use chrono_trade.Feed.ZeroCopyCsvParser.{
  default_options, parse_line_safe, add_quoted, unescape, store, read_view, StringPool, direct,
  pooled, max_fields,
}
use chrono_trade.Feed.ZeroCopyCsvParser.Loop
use chrono_trade.Feed.ZeroCopyCsvParser.Loop.{Ends}
use chrono_trade.Feed.ZeroCopyCsvParser.RoundTrip
use chrono_trade.Feed.ZeroCopyCsvParser.Quote.{encode_fields}

abbrev no_strings : StringPool
no_strings = record { strings = []; next_free = 0; capacity = 0; block = 0 }

abbrev roomy : StringPool
roomy = record no_strings { capacity = 4 }

-- `a"b` and `c,d`
abbrev two_fields : List (List ℕ)
two_fields = (b'a' ∷ b'"' ∷ b'b' ∷ []) ∷ (b'c' ∷ b',' ∷ b'd' ∷ []) ∷ []

parse_two :
    (parse_line_safe
      (some (encode_fields default_options two_fields))
      default_options
      []
      no_strings).1.fields
    ≡ pooled 1 0 3 ∷ direct 8 3 ∷ []
unfolding parse_line_safe encode_fields add_quoted unescape store
parse_two = refl

-- Two fields with quotes and a thread's first pool: the second string moves the first.
abbrev both_quoted : List (List ℕ)
both_quoted = (b'a' ∷ b'"' ∷ b'b' ∷ []) ∷ (b'c' ∷ b'"' ∷ b'd' ∷ []) ∷ []

first_dangles :
    let t =
      (parse_line_safe
        (some (encode_fields default_options both_quoted))
        default_options
        []
        no_strings).1 in
    map (read_view (encode_fields default_options both_quoted) t.pool) t.fields
    ≡ none ∷ some (b'c' ∷ b'"' ∷ b'd' ∷ []) ∷ []
unfolding parse_line_safe encode_fields add_quoted unescape store read_view
first_dangles = refl

parse_line_safe-encode_example :
    let (result, t) =
      parse_line_safe (some (encode_fields default_options both_quoted)) default_options [] roomy in
    (result ≡ ok tt)
    × (map (read_view (encode_fields default_options both_quoted) t.pool) t.fields
        ≡ map some both_quoted)
unfolding encode_fields
parse_line_safe-encode_example =
    RoundTrip.parse_line_safe-encode default_options both_quoted [] roomy
      (λ e. absurd (omega arith)) refl (omega arith) (omega arith) (omega arith)

parse_line_safe_sound_example :
    Ends 5 max_fields
      (parse_line_safe (some (b'a' ∷ b'"' ∷ b',' ∷ b'b' ∷ b'c' ∷ [])) default_options [] no_strings)
parse_line_safe_sound_example =
    Loop.parse_line_safe_sound (b'a' ∷ b'"' ∷ b',' ∷ b'b' ∷ b'c' ∷ []) default_options [] no_strings

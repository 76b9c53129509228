-- ===== src/Feed/ZeroCopyCsvParser/Defs.antt =====
-- feed/ZeroCopyCsvParser.hpp: options, views, the string pool and `parse_line_safe`.
use chrono_trade.Common.{
  ℕ, ◌*◌, max, ◌+◌, ◌-◌, Bool, true, false, not, ◌&&◌, ◌||◌, Option, none, some, List, [], ◌∷◌,
  ◌++◌, ltb, leb, ◌==◌, if◌then◌else◌, length, get_elem?, set, take, drop,
}
use chrono_trade.Common.Result.{Result, ok, err}

-- `enum class ParseResult` without SUCCESS, which is the `ok` of a result.
pub data ParseResult : Type 0 where
  buffer_overflow malformed_quoted_field unterminated_quote invalid_escape null_input : ParseResult
  memory_allocation_failed : ParseResult

pub record ParseError : Type 0 where
  pub code : ParseResult
  pub position : ℕ

abbrev pub max_line_length : ℕ
max_line_length = 1_048_576

abbrev pub max_fields : ℕ
max_fields = 10_000

pub record ParseOptions : Type 0 where
  pub delimiter : ℕ
  pub quote_char : ℕ
  pub escape_char : ℕ
  pub allow_embedded_newlines : Bool
  pub strict_mode : Bool
  pub max_field_count : ℕ

abbrev pub default_options : ParseOptions
default_options = record {
  delimiter = b',';
  quote_char = b'"';
  escape_char = b'"';
  allow_embedded_newlines = false;
  strict_mode = true;
  max_field_count = max_fields;
}

-- A `string_view`: a slice of the line, or the first bytes of a pooled string. A pooled view points
-- into the block of memory that the pool's vector had when the view was made.
pub data View : Type 0 where
  direct : ℕ → ℕ → View
  pooled : (block i len : ℕ) → View

-- `StringPool`. The blocks of memory of its vector are numbered.
pub record StringPool : Type 0 where
  pub strings : List (List ℕ)
  pub next_free : ℕ
  pub capacity : ℕ
  pub block : ℕ

abbrev pub reset : StringPool → StringPool
reset p = record p { next_free = 0 }

-- `pool.emplace_back()` moves the strings to a new block of twice the size when the old one is full.
abbrev pub must_grow : StringPool → Bool
must_grow p = leb (length p.strings) p.next_free && leb p.capacity (length p.strings)

-- `acquire` and the appends that fill the string: its number, and the pool.
unfoldable pub store : StringPool → List ℕ → ℕ × StringPool
store p text = (
  p.next_free,
  record {
    strings =
        if leb (length p.strings) p.next_free
        then p.strings ++ (text ∷ [])
        else set p.strings p.next_free text;
    next_free = p.next_free + 1;
    capacity = if must_grow p then max 1 (2 * length p.strings) else p.capacity;
    block = if must_grow p then p.block + 1 else p.block;
  },
)

-- The bytes that a view shows. `none`: it dangles. A string that is short enough to hold its bytes in
-- itself takes them along when it moves, and the C++ standard promises nothing of longer ones.
abbrev pub slice : List ℕ → ℕ → ℕ → List ℕ
slice line start len = take len (drop start line)

abbrev pub first_bytes : ℕ → Option (List ℕ) → Option (List ℕ)
first_bytes len none = none
first_bytes len (some text) = if leb len (length text) then some (take len text) else none

unfoldable pub read_view : List ℕ → StringPool → View → Option (List ℕ)
read_view line p (direct start len) = some (slice line start len)
read_view line p (pooled block i len) =
    if block == p.block then first_bytes len (get_elem? p.strings i) else none

-- The loop that drops the first of two quotes.
unfoldable pub unescape : ℕ → List ℕ → List ℕ
unescape q [] = []
unescape q (c ∷ []) = c ∷ []
unescape q (c ∷ d ∷ rest) = elim (c == q && d == q) [
  | true ↦ q ∷ unescape q rest
  | false ↦ c ∷ unescape q (d ∷ rest)
]

pub record Scan : Type 0 where
  pub ptr : ℕ
  pub field_start : ℕ
  pub in_quotes : Bool
  pub field_needs_processing : Bool
  pub fields : List View
  pub pool : StringPool

-- One round of the loop: on by one byte or by two, out of the loop, or out of the function.
pub data Round : Type 0 where
  advance skip break : Scan → Round
  fail : ParseResult → ℕ → Scan → Round

abbrev pub is_newline : ℕ → Bool
is_newline c = c == b'\n' || c == b'\r'

abbrev pub head_is : (ℕ → Bool) → List ℕ → Bool
head_is p [] = false
head_is p (c ∷ _) = p c

abbrev pub Outcome : Type 0
Outcome = Result ParseError (Unit {0}) × Scan

abbrev pub failed : ParseResult → ℕ → Scan → Outcome
failed code at s = (err (record { code = code; position = at }), s)

module _ (line : List ℕ) (opts : ParseOptions) where
  open opts use {delimiter, quote_char, allow_embedded_newlines, strict_mode, max_field_count}

  -- The view that `fields.emplace_back` gets at a closing quote.
  unfoldable pub add_quoted : Scan → Scan
  add_quoted s =
      let len = s.ptr - s.field_start in
      if s.field_needs_processing
      then (let text = unescape quote_char (slice line s.field_start len) in
          let (i, p) = store s.pool text in
          record s { fields = s.fields ++ (pooled p.block i (length text) ∷ []); pool = p })
      else record s { fields = s.fields ++ (direct s.field_start len ∷ []) }

  -- After the closing quote: `next` are the bytes behind it.
  unfoldable pub close_quote : Scan → List ℕ → Round
  unfolding add_quoted
  close_quote s next =
      let t = record (add_quoted s) { in_quotes = false; field_needs_processing = false } in
      if head_is (λ c. c == delimiter) next
      then skip (record t { ptr = s.ptr + 2; field_start = s.ptr + 2 })
      else if head_is (λ c. not (is_newline c)) next && strict_mode
      then fail malformed_quoted_field (s.ptr + 1) t
      else break t

  unfoldable pub on_quote : Scan → List ℕ → Round
  unfolding close_quote
  on_quote s next =
      if not s.in_quotes
      then (if not (s.ptr == s.field_start) && strict_mode
          then fail malformed_quoted_field s.ptr s
          else advance (record s {
            ptr = s.ptr + 1;
            field_start = s.ptr + 1;
            in_quotes = true;
            field_needs_processing = false;
          }))
      else if head_is (λ c. c == quote_char) next
      then skip (record s { ptr = s.ptr + 2; field_needs_processing = true })
      else close_quote s next

  -- `fields.emplace_back(field_start, ptr - field_start)` of an unquoted field.
  abbrev pub add_plain : Scan → Scan
  add_plain s = record s {
    fields = s.fields ++ (direct s.field_start (s.ptr - s.field_start) ∷ []);
  }

  -- A round at a byte, with `next` behind it, or (at `none`) at the end of the line.
  abbrev pub at_end? : Option ℕ → Bool
  at_end? none = true
  at_end? (some c) = not allow_embedded_newlines && is_newline c

  abbrev pub current_of : Option ℕ → ℕ
  current_of none = 0
  current_of (some c) = if at_end? (some c) then 0 else c

  unfoldable pub round : Scan → Option ℕ → List ℕ → Round
  unfolding on_quote
  round s byte next =
      let at_end = at_end? byte in
      let current = current_of byte in
      if leb max_field_count (length s.fields)
      then fail buffer_overflow s.ptr s
      else if current == quote_char && not at_end
      then on_quote s next
      else if current == delimiter && not s.in_quotes || at_end && not s.in_quotes
      then (if at_end
          then break (add_plain s)
          else advance (record (add_plain s) { ptr = s.ptr + 1; field_start = s.ptr + 1 }))
      else if is_newline current && not allow_embedded_newlines
      then (if s.in_quotes then fail unterminated_quote s.ptr s else break s)
      else advance (record s { ptr = s.ptr + 1 })

  -- After the loop.
  abbrev pub finish : Scan → Outcome
  finish s = if s.in_quotes then failed unterminated_quote (length line) s else (ok tt, s)

  -- `while (ptr <= end)`. A round skips only where there is a byte to skip.
  unfoldable pub loop : Scan → List ℕ → Outcome
  unfolding round
  loop s [] = elim (round s none []) [
    | advance t ↦ finish t
    | skip t ↦ finish t
    | break t ↦ finish t
    | fail code at t ↦ failed code at t
  ]
  loop s (c ∷ []) = elim (round s (some c) []) [
    | advance t ↦ loop t []
    | skip t ↦ finish t
    | break t ↦ finish t
    | fail code at t ↦ failed code at t
  ]
  loop s (c ∷ d ∷ rest) = elim (round s (some c) (d ∷ rest)) [
    | advance t ↦ loop t (d ∷ rest)
    | skip t ↦ loop t rest
    | break t ↦ finish t
    | fail code at t ↦ failed code at t
  ]

abbrev pub start_scan : List View → StringPool → Scan
start_scan fields p = record {
  ptr = 0;
  field_start = 0;
  in_quotes = false;
  field_needs_processing = false;
  fields = fields;
  pool = p;
}

-- The line is `none` for a null pointer; `fields` and `p` are what the caller's vector and the
-- thread's pool hold before the call.
unfoldable pub parse_line_safe : Option (List ℕ) → ParseOptions → List View → StringPool → Outcome
unfolding loop
parse_line_safe none opts fields p =
    (err (record { code = null_input; position = 0 }), start_scan fields p)
parse_line_safe (some line) opts fields p =
    if ltb max_line_length (length line)
    then (err (record { code = buffer_overflow; position = length line }), start_scan fields p)
    else if length line == 0
    then (ok tt, start_scan [] (reset p))
    else loop line opts (start_scan [] (reset p)) line

-- ===== src/Feed/Text.antt =====
-- What the feeds use of the C++ standard library on text: `std::getline` with a delimiter, `find`,
-- and `std::stoll`. Bytes are numbers. `std::stod` is a parameter of the models, as the doubles are.
use Prim.Native.Char.{code}
use Prim.Native.String.{String}
use chrono_trade.Common.{
  ℕ, ◌+◌, ◌-◌, ◌*◌, ◌^◌, Bool, true, false, ◌&&◌, ◌||◌, Option, none, some, List, [], ◌∷◌, ◌++◌,
  leb, ltb, min, ◌==◌, if◌then◌else◌, zero, suc,
}
use chrono_trade.Common.Int.{ℤ, pos, negsuc}

-- A text literal as its bytes; the texts of the program are ASCII.
abbrev pub bytes : String → List ℕ
bytes String.[] = []
bytes (String.◌∷◌ c s) = code c ∷ bytes s

-- The tokens of `while (std::getline(ss, token, c))`, `token` being what was read of the current one.
-- Nothing follows a delimiter that ends the text.
unfoldable pub tokens : ℕ → List ℕ → List ℕ → List (List ℕ)
tokens c [] [] = []
tokens c (t ∷ ts) [] = (t ∷ ts) ∷ []
tokens c token (x ∷ xs) = elim (x == c) [
  | true ↦ token ∷ tokens c [] xs
  | false ↦ tokens c (token ++ (x ∷ [])) xs
]

-- The bytes before the first `c` and those behind it.
unfoldable pub cut : ℕ → List ℕ → Option (List ℕ × List ℕ)
cut c [] = none
cut c (x ∷ xs) = elim (x == c) [
  | true ↦ some ([], xs)
  | false ↦ elim (cut c xs) [ none ↦ none | some (line, rest) ↦ some (x ∷ line, rest) ]
]

abbrev pub is_digit : ℕ → Bool
is_digit c = leb b'0' c && leb c b'9'

abbrev is_space : ℕ → Bool
is_space c = c == b' ' || leb 9 c && leb c 13

-- The number that the leading digits go on to, from `n`, and the bytes not read.
unfoldable pub digits : ℕ → List ℕ → ℕ × List ℕ
digits n [] = (n, [])
digits n (c ∷ cs) = elim (is_digit c) [
  | true ↦ digits (n * 10 + (c - b'0')) cs
  | false ↦ (n, c ∷ cs)
]

abbrev magnitude : List ℕ → Option (ℕ × List ℕ)
magnitude [] = none
magnitude (c ∷ cs) = if is_digit c then some (digits 0 (c ∷ cs)) else none

abbrev negated : ℕ → ℤ
negated n = elim n [ zero ↦ pos 0 | suc k ↦ negsuc k ]

abbrev signed : List ℕ → Option (ℤ × List ℕ)
signed [] = none
signed (c ∷ cs) =
    if c == b'-'
    then (elim (magnitude cs) [
      | none ↦ none
      | some (n, rest) ↦ if leb n (2 ^ 63) then some (negated n, rest) else none
    ])
    else (elim (magnitude (if c == b'+' then cs else c ∷ cs)) [
      | none ↦ none
      | some (n, rest) ↦ if ltb n (2 ^ 63) then some (pos n, rest) else none
    ])

-- `std::stoll`: the value and the bytes that it did not read; `none` where it throws.
unfoldable pub stoll : List ℕ → Option (ℤ × List ℕ)
stoll [] = none
stoll (c ∷ cs) = elim (is_space c) [ true ↦ stoll cs | false ↦ signed (c ∷ cs) ]

-- `std::strtol` and `std::strtoll` of base 10: the value, kept in 64 bits, and the bytes behind it,
-- which are all of them if there is no number.
abbrev kept_in_64 : ℤ → ℤ
kept_in_64 (pos n) = pos (min n (2 ^ 63 - 1))
kept_in_64 (negsuc n) = negsuc (min n (2 ^ 63 - 1))

abbrev long_of : List ℕ → Option (ℤ × List ℕ)
long_of [] = none
long_of (c ∷ cs) =
    if c == b'-'
    then (elim (magnitude cs) [ none ↦ none | some (n, rest) ↦ some (negated n, rest) ])
    else (elim (magnitude (if c == b'+' then cs else c ∷ cs)) [
      | none ↦ none
      | some (n, rest) ↦ some (pos n, rest)
    ])

unfoldable skip_spaces : List ℕ → List ℕ
skip_spaces [] = []
skip_spaces (c ∷ cs) = elim (is_space c) [ true ↦ skip_spaces cs | false ↦ c ∷ cs ]

unfoldable pub strtol : List ℕ → ℤ × List ℕ
unfolding skip_spaces
strtol text = elim (long_of (skip_spaces text)) [
  | none ↦ (pos 0, text)
  | some (n, rest) ↦ (kept_in_64 n, rest)
]

-- The text behind the start `needle` of a text.
unfoldable pub strip : List ℕ → List ℕ → Option (List ℕ)
strip [] text = some text
strip (n ∷ needle) [] = none
strip (n ∷ needle) (c ∷ cs) = elim (n == c) [ true ↦ strip needle cs | false ↦ none ]

-- `find(needle)`, as the text behind the place found.
unfoldable pub find_behind : List ℕ → List ℕ → Option (List ℕ)
unfolding strip
find_behind needle [] = strip needle []
find_behind needle (c ∷ cs) = elim (strip needle (c ∷ cs)) [
  | some rest ↦ some rest
  | none ↦ find_behind needle cs
]

-- The text up to the first `c`; without one, up to the first `d`; without either, all of it.
abbrev pub up_to : ℕ → ℕ → List ℕ → List ℕ
up_to c d text = elim (cut c text) [
  | some (field, _) ↦ field
  | none ↦ elim (cut d text) [ some (field, _) ↦ field | none ↦ text ]
]

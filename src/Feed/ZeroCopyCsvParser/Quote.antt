-- ===== src/Feed/ZeroCopyCsvParser/Quote.antt =====
-- The written form of a line: every field in quotes, every quote doubled.
use chrono_trade.Common.{
  ℕ, ◌+◌, ◌<◌, ◌≡◌, refl, sym, ap, ◌∙◌, Bool, false, ◌||◌, List, [], ◌∷◌, ◌++◌, arith, length, ◌==◌,
  ==_refl, ==_iff, if◌then◌else◌, Bool-cases, inl, inr,
}
use mathlib.Core.Path.{ap₂}
use chrono_trade.Feed.ZeroCopyCsvParser.Defs.{ParseOptions, unescape, slice}

-- A field with its quotes doubled, in quotes; and a line of such fields.
unfoldable pub double : ℕ → List ℕ → List ℕ
double q [] = []
double q (c ∷ cs) = if c == q then q ∷ q ∷ double q cs else c ∷ double q cs

unfoldable pub encode_fields : ParseOptions → List (List ℕ) → List ℕ
unfolding double
encode_fields opts [] = []
encode_fields opts (f ∷ []) = opts.quote_char ∷ (double opts.quote_char f ++ (opts.quote_char ∷ []))
encode_fields opts (f ∷ g ∷ fs) =
    opts.quote_char
    ∷ (double opts.quote_char f ++ (opts.quote_char ∷ opts.delimiter ∷ encode_fields opts (g ∷ fs)))

abbrev pub has : ℕ → List ℕ → Bool
has q [] = false
has q (c ∷ cs) = c == q || has q cs

-- How many fields hold a quote.
abbrev pub escaped : ℕ → List (List ℕ) → ℕ
escaped q [] = 0
escaped q (f ∷ fs) = (if has q f then 1 else 0) + escaped q fs

unescape-cons : (q c : ℕ) (xs : List ℕ) → (c == q) ≡ false → unescape q (c ∷ xs) ≡ c ∷ unescape q xs
unfolding unescape
unescape-cons q c [] h = refl
unescape-cons q c (d ∷ xs) h = rw (h, unescape) refl

unescape-pair : (q : ℕ) (xs : List ℕ) → unescape q (q ∷ q ∷ xs) ≡ q ∷ unescape q xs
unfolding unescape
unescape-pair q xs = ground (arith, ==_refl q)

pub unescape-double : (q : ℕ) (f : List ℕ) → unescape q (double q f) ≡ f
unfolding unescape double
unescape-double q [] = refl
unescape-double q (c ∷ cs) = elim (Bool-cases (c == q)) [
  | inl e ↦ rw e (
      unescape-pair q (double q cs)
      ∙ ap (λ t. q ∷ t) (unescape-double q cs)
      ∙ ap (λ t. t ∷ cs) (sym ((==_iff c q).0 e)))
  | inr e ↦ rw e (unescape-cons q c (double q cs) e ∙ ap (λ t. c ∷ t) (unescape-double q cs))
]

pub double-id : (q : ℕ) (f : List ℕ) → has q f ≡ false → double q f ≡ f
unfolding double
double-id q [] h = refl
double-id q (c ∷ cs) h = ground (arith, double-id q cs)

slice_middle :
    (pre mid post : List ℕ) → slice (pre ++ (mid ++ post)) (length pre) (length mid) ≡ mid
slice_middle [] [] post = refl
slice_middle [] (c ∷ mid) post = ap (λ t. c ∷ t) (slice_middle [] mid post)
slice_middle (c ∷ pre) mid post = slice_middle pre mid post

pub slice_at :
    (line pre mid post : List ℕ) (start len : ℕ)
    → line ≡ pre ++ (mid ++ post)
    → start ≡ length pre
    → len ≡ length mid
    → slice line start len ≡ mid
slice_at line pre mid post start len e at n =
    ap (λ l. slice l start len) e
    ∙ ap₂ (slice (pre ++ (mid ++ post))) at n
    ∙ slice_middle pre mid post

pub encode_fields-pos :
    (opts : ParseOptions) (f : List ℕ) (fs : List (List ℕ))
    → 0 < length (encode_fields opts (f ∷ fs))
unfolding encode_fields
encode_fields-pos opts f [] = omega arith
encode_fields-pos opts f (g ∷ fs) = omega arith

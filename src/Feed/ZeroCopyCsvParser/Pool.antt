-- ===== src/Feed/ZeroCopyCsvParser/Pool.antt =====
-- The string pool keeps what its views show when it takes in one string more.
use chrono_trade.Common.{
  none, take, ◌==◌, ==_refl, if◌then◌else◌, ℕ, zero, suc, ◌+◌, ◌≤◌, ◌<◌, ◌≡◌, refl, ap, ◌∙◌, some,
  List, [], ◌∷◌, ◌++◌, map, arith, length, length-append, length-set, leb, All, if_elim,
  get_elem?-set_ne, get_elem?-set_self, take_all, le→leb, leb→le, get_elem?,
}
use mathlib.Core.Path.{ap₂}
use chrono_trade.Feed.ZeroCopyCsvParser.Defs.{
  View, direct, pooled, StringPool, store, first_bytes, read_view, Scan,
}

abbrev pub IsBelow : ℕ → View → Type 0
IsBelow n (direct start len) = Unit
IsBelow n (pooled block i len) = i < n

-- The fields that a state has read so far; the pool's free strings are not among them.
pub record Holds (line : List ℕ) (s : Scan) (fs : List (List ℕ)) : Type 0 where
  pub reads : map (read_view line s.pool) s.fields ≡ map some fs
  pub below : All (IsBelow s.pool.next_free) s.fields
  pub room : s.pool.next_free ≤ length s.pool.strings

get_elem?-append_left :
    {A : Type 0} (xs ys : List A) (i : ℕ) → i < length xs → get_elem? (xs ++ ys) i ≡ get_elem? xs i
get_elem?-append_left [] ys i h = absurd (omega arith)
get_elem?-append_left (x ∷ xs) ys zero h = refl
get_elem?-append_left (x ∷ xs) ys (suc i) h = get_elem?-append_left xs ys i (omega arith)

get_elem?-append_end :
    {A : Type 0} (xs : List A) (x : A) → get_elem? (xs ++ (x ∷ [])) (length xs) ≡ some x
get_elem?-append_end [] x = refl
get_elem?-append_end (y ∷ xs) x = get_elem?-append_end xs x

module _ (p : StringPool) (text : List ℕ) (room : p.next_free ≤ length p.strings) where
  pub get_elem?-store :
      (i : ℕ) → i < p.next_free → get_elem? (store p text).1.strings i ≡ get_elem? p.strings i
  unfolding store
  get_elem?-store i h =
      if_elim (λ (xs : List (List ℕ)). get_elem? xs i ≡ get_elem? p.strings i)
        (leb (length p.strings) p.next_free)
        (λ _. get_elem?-append_left p.strings (text ∷ []) i (omega arith))
        (λ _. get_elem?-set_ne p.strings p.next_free i text (omega arith))

  pub get_elem?-store_self : get_elem? (store p text).1.strings p.next_free ≡ some text
  unfolding store
  get_elem?-store_self =
      if_elim (λ (xs : List (List ℕ)). get_elem? xs p.next_free ≡ some text)
        (leb (length p.strings) p.next_free)
        (λ e.
          ap (get_elem? (p.strings ++ (text ∷ [])))
            (omega (arith, room, leb→le (length p.strings) p.next_free e))
          ∙ get_elem?-append_end p.strings text)
        (λ e. get_elem?-set_self p.strings p.next_free text (ground arith))

  -- With room for one string more the vector keeps its block.
  pub store-block :
      p.next_free < p.capacity
      → ((store p text).1.block ≡ p.block) × ((store p text).1.capacity ≡ p.capacity)
  unfolding store
  store-block spare = ground arith

  read_view-store :
      (line : List ℕ) (v : View)
      → (store p text).1.block ≡ p.block
      → IsBelow p.next_free v
      → read_view line (store p text).1 v ≡ read_view line p v
  unfolding read_view
  read_view-store line (direct i n) same h = refl
  read_view-store line (pooled block i n) same h =
      ap₂ (λ b o. if block == b then first_bytes n o else none) same (get_elem?-store i h)

  pub map-read_view-store :
      (line : List ℕ) (vs : List View)
      → (store p text).1.block ≡ p.block
      → All (IsBelow p.next_free) vs
      → map (read_view line (store p text).1) vs ≡ map (read_view line p) vs
  map-read_view-store line [] same h = refl
  map-read_view-store line (v ∷ vs) same (h, hs) =
      ap₂ ◌∷◌ (read_view-store line v same h) (map-read_view-store line vs same hs)

  pub store_facts :
      ((store p text).0 ≡ p.next_free)
      × ((store p text).1.next_free ≡ p.next_free + 1)
      × (p.next_free + 1 ≤ length (store p text).1.strings)
  unfolding store
  store_facts =
      ground (arith, length-append p.strings (text ∷ []), length-set p.strings p.next_free text)

  pub read_view-store_self :
      (line : List ℕ)
      → read_view line
          (store p text).1
          (pooled (store p text).1.block (store p text).0 (length text))
        ≡ some text
  unfolding read_view
  read_view-store_self line =
      let q = (store p text).1 in
      ap (λ b. if b then first_bytes (length text) (get_elem? q.strings (store p text).0) else none)
        (==_refl q.block)
      ∙ ap (λ i. first_bytes (length text) (get_elem? q.strings i)) store_facts.0
      ∙ ap (first_bytes (length text)) get_elem?-store_self
      ∙ ap (λ b. if b then some (take (length text) text) else none)
          (le→leb (length text) (length text) (omega arith))
      ∙ ap some (take_all (length text) text (omega arith))

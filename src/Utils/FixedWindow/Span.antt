-- ===== src/Utils/FixedWindow/Span.antt =====
-- Positions that go round a buffer, and what a write does to the values read on from a position.
use native.Mathlib.Nat.{mod-lt, mod-add-mod, mod-eq_of_lt, mod-eq-sub-mod, add-zero}
use native.Mathlib.Decide.{dec_lt}
use chrono_trade.Common.{
  ℕ, zero, suc, ◌+◌, ◌-◌, ◌%◌, ◌≤◌, ◌<◌, ◌≡◌, ◌≢◌, refl, ap, ◌∙◌, none, some, List, [], ◌∷◌, ◌++◌,
  arith, get_elem?, set, length, drop, get_elem?-set_self, get_elem?-set_ne,
}
use chrono_trade.Utils.FixedWindow.{Window}
use chrono_trade.Utils.FixedWindow.Valid.{IsValid, start, span, contents}

-- `k` steps on from `h`, for at most one turn.
mod_turn : (n cap : ℕ) → cap ≤ n → n < cap + cap → n % cap ≡ n - cap
mod_turn n cap lo hi =
    omega (
      arith,
      mod-eq-sub-mod {n = n} {m = cap} lo,
      mod-eq_of_lt {n = n - cap} {m = cap} (omega arith),
    )

-- A walk of at least one step that is no full turn ends elsewhere.
walk-ne : (top at steps : ℕ) → at < top → 0 < steps → steps < top → (at + steps) % top ≢ at
walk-ne top at steps inside moved short = elim (dec_lt (at + steps) top) [
  | yes before ↦ omega (arith, mod-eq_of_lt before)
  | no past ↦ omega (arith, mod_turn (at + steps) top (omega arith) (omega arith))
]

-- The oldest value stays where it is while the buffer fills.
pub start-push :
    (head count cap : ℕ)
    → head < cap
    → count < cap
    → ((head + 1) % cap + cap - (count + 1)) % cap ≡ (head + cap - count) % cap
start-push head count cap h c = elim (dec_lt (head + 1) cap) [
  | yes p ↦ ap (λ k. k % cap) (omega (arith, mod-eq_of_lt p))
  | no p ↦
      let back : (head + 1) % cap ≡ 0 =
        omega (arith, mod_turn (head + 1) cap (omega arith) (omega arith)) in
      rw back (
        omega (
          arith,
          mod-eq_of_lt {n = 0 + cap - (count + 1)} {m = cap} (omega arith),
          mod_turn (head + cap - count) cap (omega arith) (omega arith),
        ))
]

-- The head is `count` steps on from the oldest value.
pub head-start :
    (head count cap : ℕ)
    → head < cap
    → count ≤ cap
    → head ≡ ((head + cap - count) % cap + count) % cap
head-start head count cap h c =
    rw (mod-add-mod (head + cap - count) cap count)
      (omega (arith, mod_turn (head + cap - count + count) cap (omega arith) (omega arith)))

module _ {ℓ} {A : Type ℓ} where
  pub get_elem?_out : (xs : List A) (i : ℕ) → length xs ≤ i → get_elem? xs i ≡ none
  get_elem?_out [] i h = refl
  get_elem?_out (x ∷ xs) zero h = absurd (omega arith)
  get_elem?_out (x ∷ xs) (suc i) h = get_elem?_out xs i (omega arith)

  pub get_elem?_in : (xs : List A) (i : ℕ) → i < length xs → (x : A) × (get_elem? xs i ≡ some x)
  get_elem?_in [] i h = absurd (omega arith)
  get_elem?_in (x ∷ xs) zero h = (x, refl)
  get_elem?_in (x ∷ xs) (suc i) h = get_elem?_in xs i (omega arith)

  span-cons :
      (buffer : List A) (cap h n : ℕ)
      → h < length buffer
      → (x : A) × (get_elem? buffer h ≡ some x)
        × (span buffer cap h (suc n) ≡ x ∷ span buffer cap ((h + 1) % cap) n)
  span-cons buffer cap h n lt = let (x, e) = get_elem?_in buffer h lt in (x, e, rw e refl)

  length-span :
      (buffer : List A) (cap h n : ℕ)
      → length buffer ≡ cap
      → h < cap
      → length (span buffer cap h n) ≡ n
  length-span buffer cap h zero e lt = refl
  length-span buffer cap h (suc n) e lt =
      let (x, _, s) = span-cons buffer cap h n (omega arith) in
      rw s (ap suc (length-span buffer cap ((h + 1) % cap) n e (omega arith)))

  pub get_elem?-span :
      (buffer : List A) (cap h n i : ℕ)
      → length buffer ≡ cap
      → h < cap
      → i < n
      → get_elem? (span buffer cap h n) i ≡ get_elem? buffer ((h + i) % cap)
  get_elem?-span buffer cap h zero i e lt k = absurd (omega arith)
  get_elem?-span buffer cap h (suc n) zero e lt k =
      let (x, g, s) = span-cons buffer cap h n (omega arith) in
      rw (s, add-zero, mod-eq_of_lt lt, g) refl
  get_elem?-span buffer cap h (suc n) (suc i) e lt k =
      let (x, g, s) = span-cons buffer cap h n (omega arith) in
      rw s (
        get_elem?-span buffer cap ((h + 1) % cap) n i e (omega arith) (omega arith)
        ∙ ap (get_elem? buffer) (mod-add-mod (h + 1) cap i ∙ ap (λ k. k % cap) (omega arith)))

  -- A write just past a span extends the span by the value.
  pub span-set :
      (buffer : List A) (cap : ℕ) (x : A) (n h i : ℕ)
      → length buffer ≡ cap
      → h < cap
      → n < cap
      → i ≡ (h + n) % cap
      → span (set buffer i x) cap h (suc n) ≡ span buffer cap h n ++ (x ∷ [])
  span-set buffer cap x zero h i hs hh hn e =
      rw (e, add-zero, mod-eq_of_lt hh, get_elem?-set_self buffer h x (omega arith)) refl
  span-set buffer cap x (suc n) h i hs hh hn e =
      let (y, g, s) = span-cons buffer cap h n (omega arith) in
      rw (s, get_elem?-set_ne buffer i h x (rw e (walk-ne cap h (suc n) hh (omega arith) hn)), g)
        (ap (λ t. y ∷ t)
          (span-set buffer cap x n ((h + 1) % cap) i hs (omega arith) (omega arith) (e ∙ shift)))
    where
      shift : (h + suc n) % cap ≡ ((h + 1) % cap + n) % cap
      shift = rw (mod-add-mod (h + 1) cap n) (ap (λ k. k % cap) (omega arith))

  pub length-contents : {w : Window A} → IsValid w → length (contents w) ≡ w.count
  length-contents {w} v =
      length-span w.buffer w.max_capacity (start w) w.count v.storage (omega (arith, v.head_in))

  -- At full capacity the write replaces the oldest value, and the span starts one further on.
  pub span-turn :
      (buffer : List A) (cap : ℕ) (x : A) (n h : ℕ)
      → length buffer ≡ cap
      → cap ≡ suc n
      → h < cap
      → span (set buffer h x) cap ((h + 1) % cap) (suc n)
        ≡ drop 1 (span buffer cap h (suc n) ++ (x ∷ []))
  span-turn buffer cap x n h hs hn lt =
      let (y, _, s) = span-cons buffer cap h n (omega arith) in
      rw s (
        span-set buffer cap x n ((h + 1) % cap) h hs (omega (arith, mod-lt (h + 1) {m = cap}))
          (omega arith)
          (rw (mod-add-mod (h + 1) cap n)
            (omega (arith, mod_turn (h + 1 + n) cap (omega arith) (omega arith)))))

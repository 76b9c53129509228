-- ===== src/Utils/FixedWindow/Slide.antt =====
-- A window slides: it holds the latest values that were pushed, and `at` counts from the oldest.
use native.Mathlib.Nat.{zero-add, mod-lt, mod-add-mod, mod-eq_of_lt}
use native.Mathlib.Decide.{dec_lt}
use mathlib.Core.Path.{ap₂}
use chrono_trade.Common.{
  ℕ, zero, suc, ◌+◌, ◌-◌, ◌%◌, ◌^◌, ◌≤◌, ◌<◌, ◌≡◌, refl, sym, ap, ◌∙◌, none, some, List, [], ◌∷◌,
  ◌++◌, arith, get_elem?, set, length, drop, length-drop, length-append, append_snoc, append-nil,
  lt→ltb, le→ltb-false, le→leb, lt→leb-false,
}
use chrono_trade.Common.Result.{ok, err}
use chrono_trade.Utils.FixedWindow.{
  Window, out_of_bounds, make, push, push_all, at, read, logical_index,
}
use chrono_trade.Utils.FixedWindow.Valid.{
  IsValid, make-IsValid, push-IsValid, start, span, contents,
}
use chrono_trade.Utils.FixedWindow.Span.{
  start-push, head-start, get_elem?_out, get_elem?_in, get_elem?-span, span-set, length-contents,
  span-turn,
}

-- The specification: append the value, and drop what exceeds the capacity from the front.
abbrev pub slide {ℓ} : {A : Type ℓ} → ℕ → List A → A → List A
slide cap xs x = drop (length xs + 1 - cap) (xs ++ (x ∷ []))

-- The values that a window of that capacity keeps of all that was pushed.
abbrev pub latest {ℓ} : {A : Type ℓ} → ℕ → List A → List A
latest cap xs = drop (length xs - cap) xs

module _ {ℓ} {A : Type ℓ} where
  module _ (w : Window A) (x : A) (v : IsValid w) where
    open w use {buffer, head, count, max_capacity as top}

    next_head : (head + 1) % 2 ^ 64 % top ≡ (head + 1) % top
    next_head =
        ap (λ k. k % top)
          (mod-eq_of_lt {n = head + 1} {m = 2 ^ 64} (omega (arith, v.head_in, v.small)))

    contents-push_room : count < top → contents (push w x) ≡ contents w ++ (x ∷ [])
    unfolding push
    contents-push_room p =
        rw
          (
            lt→ltb count top p,
            next_head,
            mod-eq_of_lt {n = count + 1} {m = 2 ^ 64} (omega (arith, v.small)),
            start-push head count top v.head_in p,
          )
          (ap (span (set buffer head x) top (start w)) more
            ∙ span-set buffer top x count (start w) head v.storage
                (mod-lt (head + top - count) (omega (arith, v.head_in))) p
                (head-start head count top v.head_in v.count_in))
      where
        more : count + 1 ≡ suc count
        more = omega arith

    contents-push_full : count ≡ top → contents (push w x) ≡ drop 1 (contents w ++ (x ∷ []))
    unfolding push
    contents-push_full e =
        rw (le→ltb-false count top (omega arith), next_head)
          (ap₂ (span (set buffer head x) top) start_on count_on
            ∙ span-turn buffer top x (top - 1) head v.storage (omega (arith, v.head_in)) v.head_in
            ∙ ap₂ (λ h n. drop 1 (span buffer top h n ++ (x ∷ []))) (sym start_here) (sym count_on))
      where
        count_on : count ≡ suc (top - 1)
        count_on = omega (arith, v.head_in)

        start_here : (head + top - count) % top ≡ head
        start_here = ap (λ k. k % top) (omega arith) ∙ mod-eq_of_lt v.head_in

        start_on : ((head + 1) % top + top - count) % top ≡ (head + 1) % top
        start_on =
            ap (λ k. k % top) (omega arith)
            ∙ mod-eq_of_lt (mod-lt (head + 1) {m = top} (omega (arith, v.head_in)))

    -- Pushing slides the contents: the value is appended, and at full capacity the oldest one goes.
    pub contents-push : contents (push w x) ≡ slide top (contents w) x
    contents-push = elim (dec_lt count top) [
      | yes p ↦
          let kept : 0 ≡ length (contents w) + 1 - top = omega (arith, length-contents v) in
          contents-push_room p ∙ ap (λ k. drop k (contents w ++ (x ∷ []))) kept
      | no p ↦
          let full : count ≡ top = omega (arith, v.count_in) in
          let lost : 1 ≡ length (contents w) + 1 - top = omega (arith, length-contents v) in
          contents-push_full full ∙ ap (λ k. drop k (contents w ++ (x ∷ []))) lost
    ]

  read-some : (xs : List A) (i : ℕ) (x : A) → get_elem? xs i ≡ some x → read xs i ≡ ok x
  read-some xs i x e = ground arith

  -- `at` reads the contents, counted from the oldest value, and refuses any index past them.
  pub at-eq-read :
      (w : Window A) (i : ℕ)
      → IsValid w
      → at w i ≡ (elim (get_elem? (contents w) i) [ none ↦ err out_of_bounds | some x ↦ ok x ])
  unfolding at
  at-eq-read w i v = elim (dec_lt i w.count) [
    | yes p ↦
        let (x, g) = get_elem?_in (contents w) i (omega (arith, length-contents v)) in
        rw (lt→leb-false w.count i p, index_on p, read-some w.buffer _ x (sym (in_buffer p) ∙ g), g)
          refl
    | no p ↦
        rw
          (
            le→leb w.count i (omega arith),
            get_elem?_out (contents w) i (omega (arith, length-contents v)),
          )
          refl
  ]
    where
      index_on : i < w.count → logical_index w i ≡ (start w + i) % w.max_capacity
      index_on p =
          rw (mod-add-mod (w.head + w.max_capacity - w.count) w.max_capacity i)
            (ap (λ k. k % w.max_capacity) (omega (arith, v.head_in, v.small, v.count_in)))

      in_buffer :
          i < w.count
          → get_elem? (contents w) i ≡ get_elem? w.buffer ((start w + i) % w.max_capacity)
      in_buffer p =
          get_elem?-span w.buffer w.max_capacity (start w) w.count i v.storage
            (mod-lt (w.head + w.max_capacity - w.count) (omega (arith, v.head_in))) p

  pub max_capacity-push : (w : Window A) (x : A) → (push w x).max_capacity ≡ w.max_capacity
  unfolding push
  max_capacity-push w x = refl

  pub drop-nil : (n : ℕ) → drop {A = A} n [] ≡ []
  drop-nil zero = refl
  drop-nil (suc n) = refl

  drop-append : (n : ℕ) (xs ys : List A) → n ≤ length xs → drop n (xs ++ ys) ≡ drop n xs ++ ys
  drop-append zero xs ys h = refl
  drop-append (suc n) [] ys h = absurd (omega arith)
  drop-append (suc n) (x ∷ xs) ys h = drop-append n xs ys (omega arith)

  drop-drop : (m n : ℕ) (xs : List A) → drop m (drop n xs) ≡ drop (n + m) xs
  drop-drop m zero xs = rw (zero-add m) refl
  drop-drop m (suc n) [] = drop-nil m ∙ sym (drop-nil (suc n + m))
  drop-drop m (suc n) (x ∷ xs) =
      drop-drop m n xs ∙ ap (λ k. drop k (x ∷ xs)) {x = suc (n + m)} (omega arith)

  pub slide-latest :
      (cap : ℕ) (xs : List A) (x : A) → slide cap (latest cap xs) x ≡ latest cap (xs ++ (x ∷ []))
  slide-latest cap xs x =
      ap (drop (length (latest cap xs) + 1 - cap))
        (sym (drop-append (length xs - cap) xs (x ∷ []) (omega arith)))
      ∙ drop-drop (length (latest cap xs) + 1 - cap) (length xs - cap) (xs ++ (x ∷ []))
      ∙ ap (λ k. drop k (xs ++ (x ∷ [])))
          (omega (arith, length-drop (length xs - cap) xs, length-append xs (x ∷ [])))

  contents-push_all :
      (w : Window A) (past xs : List A)
      → IsValid w
      → contents w ≡ latest w.max_capacity past
      → contents (push_all w xs) ≡ latest w.max_capacity (past ++ xs)
  unfolding push_all
  contents-push_all w past [] v e = rw (append-nil past) e
  contents-push_all w past (x ∷ xs) v e =
      contents-push_all (push w x) (past ++ (x ∷ [])) xs (push-IsValid x v) pushed
      ∙ ap₂ latest (max_capacity-push w x) (append_snoc past x xs)
    where
      pushed : contents (push w x) ≡ latest (push w x).max_capacity (past ++ (x ∷ []))
      pushed =
          contents-push w x v
          ∙ ap (λ t. slide w.max_capacity t x) e
          ∙ slide-latest w.max_capacity past x
          ∙ ap (λ k. latest k (past ++ (x ∷ []))) (sym (max_capacity-push w x))

  push_all-IsValid : (w : Window A) (xs : List A) → IsValid w → IsValid (push_all w xs)
  unfolding push_all
  push_all-IsValid w [] v = v
  push_all-IsValid w (x ∷ xs) v = push_all-IsValid (push w x) xs (push-IsValid x v)

  -- After any run of pushes onto a new window, `at i` gives the i-th of the latest `capacity` values
  -- of the run, oldest first, and refuses an index past them. No read leaves the storage.
  pub at-push_all :
      (blank : A) (capacity : ℕ) (w : Window A) (xs : List A) (i : ℕ)
      → capacity ≤ 2 ^ 62
      → make blank capacity ≡ ok w
      → at (push_all w xs) i
        ≡ (elim (get_elem? (latest capacity xs) i) [ none ↦ err out_of_bounds | some x ↦ ok x ])
  at-push_all blank capacity w xs i h e =
      let (v, zero_count, top) = make-IsValid blank capacity h e in
      let empty : contents w ≡ latest w.max_capacity [] =
        ap (span w.buffer w.max_capacity (start w)) zero_count
        ∙ sym (drop-nil (0 - w.max_capacity)) in
      at-eq-read (push_all w xs) i (push_all-IsValid w xs v)
      ∙ ap (λ t. elim (get_elem? t i) [ none ↦ err out_of_bounds | some x ↦ ok x ])
          (contents-push_all w [] xs v empty ∙ ap (λ k. latest k xs) top)

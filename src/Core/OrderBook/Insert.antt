-- ===== src/Core/OrderBook/Insert.antt =====
-- What a book holds after a run of inserts.
use chrono_trade.Common.{
  ℕ, zero, suc, ◌+◌, ◌-◌, ◌≡◌, ◌≢◌, refl, sym, ◌∙◌, ap, true, false, Option, none, some, List, [],
  ◌∷◌, ◌++◌, arith, leb, length, map, take, length-append, append_snoc, append-nil, All, Bool-cases,
  inl, inr,
}
use chrono_trade.Common.Int.{ℤ}
use chrono_trade.Common.Result.{ok, err}
use chrono_trade.Common.Float.{Float, IsOrdered}
use chrono_trade.Core.Order
use chrono_trade.Core.Order.{Order}
use chrono_trade.Core.OrderBook.{
  bind_arena, make, null_write, Book, contains, place, store, insert, insert_all, slot_count,
}

module _ {W : Type 0} where
  -- The orders whose timestamp is new, in their order.
  abbrev pub distinct : List ℤ → List (Order W) → List (Order W)
  distinct seen [] = []
  distinct seen (o ∷ os) = elim (contains o.timestamp seen) [
    | true ↦ distinct seen os
    | false ↦ o ∷ distinct (o.timestamp ∷ seen) os
  ]

module _ {W : Type 0} ⦃f : Float W⦄ where
  -- A book without an arena appends the orders whose timestamp is new, in their order.
  pub insert_all_fallback :
      (b : Book W) (os : List (Order W))
      → b.arena ≡ false
      → (c : Book W) × (insert_all b os ≡ ok c)
        × (c.fallback_orders ≡ b.fallback_orders ++ distinct b.seen_timestamps os)
        × (c.arena ≡ false)
  unfolding insert_all insert store
  insert_all_fallback b [] e = (b, refl, sym (append-nil b.fallback_orders), e)
  insert_all_fallback b (o ∷ os) e = elim (Bool-cases (contains o.timestamp b.seen_timestamps)) [
    | inl k ↦ rw (insert_all, insert, distinct, k) (insert_all_fallback b os e)
    | inr k ↦
        let (c, r, q, off) =
          insert_all_fallback
            (record b {
              seen_timestamps = o.timestamp ∷ b.seen_timestamps;
              arena = false;
              fallback_orders = b.fallback_orders ++ (o ∷ []);
            })
            os refl in
        rw (insert_all, insert, store, distinct, k, e)
          (
            c,
            r,
            q ∙ append_snoc b.fallback_orders o (distinct (o.timestamp ∷ b.seen_timestamps) os),
            off,
          )
  ]

  module _ (laws : IsOrdered W) where
    copy_lem : (o : Order W) → Order.IsValid o → Order.make o.price o.amount o.timestamp ≡ ok o
    copy_lem o v = (Order.make_iff laws o.price o.amount o.timestamp o).1 (v, refl, refl, refl)

    -- A book in an arena with room for `n` more keeps the first `n` valid orders whose timestamp is
    -- new, in their order, and counts each further one as a failure.
    pub insert_all_arena :
        (n : ℕ) (b : Book W) (s : List (Option (Order W))) (os : List (Order W))
        → b.arena ≡ true
        → b.slots ≡ some s
        → length s + n ≡ b.max_orders
        → All Order.IsValid os
        → (c : Book W) × (insert_all b os ≡ ok c)
          × (c.slots ≡ some (s ++ map (λ o. some o) (take n (distinct b.seen_timestamps os))))
          × (c.arena_failures ≡ b.arena_failures + (length (distinct b.seen_timestamps os) - n))
    unfolding insert_all insert store place
    insert_all_arena zero b s [] e h r v =
        (b, refl, h ∙ ap (λ t. some t) (sym (append-nil s)), omega arith)
    insert_all_arena (suc n) b s [] e h r v =
        (b, refl, h ∙ ap (λ t. some t) (sym (append-nil s)), omega arith)
    insert_all_arena zero b s (o ∷ os) e h r (v, vs) =
        elim (Bool-cases (contains o.timestamp b.seen_timestamps)) [
          | inl k ↦ rw (insert_all, insert, distinct, k) (insert_all_arena zero b s os e h r vs)
          | inr k ↦
              let full : leb b.max_orders (length s) ≡ true = ground (arith, r) in
              let (c, same, q, m) =
                insert_all_arena zero
                  (record b {
                    seen_timestamps = o.timestamp ∷ b.seen_timestamps;
                    arena = true;
                    slots = some s;
                    arena_failures = b.arena_failures + 1;
                  })
                  s os refl refl r vs in
              rw (insert_all, insert, store, slot_count, distinct, k, e, h, full)
                (c, same, q, omega (arith, m))
        ]
    insert_all_arena (suc n) b s (o ∷ os) e h r (v, vs) =
        elim (Bool-cases (contains o.timestamp b.seen_timestamps)) [
          | inl k ↦ rw (insert_all, insert, distinct, k) (insert_all_arena (suc n) b s os e h r vs)
          | inr k ↦
              let room : leb b.max_orders (length s) ≡ false = ground (arith, r) in
              let (c, same, q, m) =
                insert_all_arena n
                  (record b {
                    seen_timestamps = o.timestamp ∷ b.seen_timestamps;
                    slots = some (s ++ (some o ∷ []));
                  })
                  (s ++ (some o ∷ [])) os e refl (omega (arith, r, length-append s (some o ∷ [])))
                  vs in
              rw
                (
                  insert_all,
                  insert,
                  store,
                  slot_count,
                  place,
                  distinct,
                  k,
                  e,
                  h,
                  room,
                  copy_lem o v,
                )
                (c, same, q ∙ ap (λ t. some t) (append_snoc s (some o) _), omega (arith, m))
        ]

  -- A book that was made without an arena writes through a null pointer at its first insert once an
  -- arena is bound to it, if its capacity is not 0.
  insert-bind_arena :
      (capacity : ℕ) (o : Order W)
      → capacity ≢ 0
      → insert (bind_arena (make none capacity).0 true) o ≡ err null_write
  unfolding insert store bind_arena make
  insert-bind_arena capacity o h = rw (none_full capacity h) refl
    where
      none_full : (n : ℕ) → n ≢ 0 → leb n 0 ≡ false
      none_full n k = ground arith

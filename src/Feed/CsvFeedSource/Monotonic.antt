-- ===== src/Feed/CsvFeedSource/Monotonic.antt =====
-- What `run` makes of a file: each line is counted once, and times increase strictly.
use mathlib.Core.Path.{subst}
use chrono_trade.Common.{
  ℕ, ◌+◌, ◌≡◌, ◌⊎◌, inl, inr, refl, true, Option, some, map, List, [], ◌∷◌, ◌++◌, arith, length,
  append_snoc, append-nil, Bool-cases, Option-cases, ap, ◌∙◌, sym,
}
use chrono_trade.Common.Int.{ℤ, pos, ◌≤ℤ◌, leb_ℤ, ltb_ℤ}
use chrono_trade.Common.Result.{Result-cases}
use chrono_trade.Common.Float.{Float, IsOrdered}
use chrono_trade.Core.Order
use chrono_trade.Core.Order.{Order, max_timestamp, timestamp_outside}
use chrono_trade.Feed.Hashes.{Hashing, entry_of, compare_hashes-entry_of}
use chrono_trade.Feed.CsvFeedSource.{Reader, parse_line, push_order, read_line, read_lines, run}

-- Valid orders whose times increase strictly, the first of them after `t`.
abbrev pub Increasing : {W : Type 0} ⦃f : Float W⦄ → ℤ → List (Order W) → Type 0
Increasing t [] = Unit
Increasing t (o ∷ os) = (ltb_ℤ t o.timestamp ≡ true) × Order.IsValid o × Increasing o.timestamp os

-- What was read from the lines of a file: some of them in their order, each with the order that it
-- parses to.
pub data Picks {W : Type 0} ⦃f : Float W⦄ (stod : List ℕ → Option (W × List ℕ))
    : List (List ℕ × Order W) → List (List ℕ) → Type 0 where
  pick_none : Picks stod [] []
  skip :
      {rs : List (List ℕ × Order W)} {lines : List (List ℕ)} (line : List ℕ)
      → Picks stod rs lines
      → Picks stod rs (line ∷ lines)
  pick :
      {rs : List (List ℕ × Order W)} {lines : List (List ℕ)} (line : List ℕ) (o : Order W)
      → parse_line stod line ≡ some (o.price, o.amount, o.timestamp)
      → Picks stod rs lines
      → Picks stod ((line, o) ∷ rs) (line ∷ lines)

module _ {W : Type 0} ⦃f : Float W⦄ (stod : List ℕ → Option (W × List ℕ))
    (hashing : Hashing W) where
  -- What a line does: an anomaly, which may raise the last time, or an order pushed.
  abbrev Effect : List ℕ → Reader W → Reader W → Type 0
  Effect line r s =
      ((s.out_queue ≡ r.out_queue)
        × (s.orders_received ≡ r.orders_received)
        × (s.anomalies ≡ r.anomalies + 1)
        × (r.last_ts ≤ℤ s.last_ts)
        × (s.hash_log ≡ r.hash_log))
      ⊎ ((o : Order W) × Order.IsValid o
          × (ltb_ℤ r.last_ts o.timestamp ≡ true)
          × (s.out_queue ≡ r.out_queue ++ (o ∷ []))
          × (s.orders_received ≡ r.orders_received + 1)
          × (s.anomalies ≡ r.anomalies)
          × (s.last_ts ≡ o.timestamp)
          × (s.hash_log ≡ r.hash_log ++ (entry_of hashing (line, o) ∷ []))
          × (parse_line stod line ≡ some (o.price, o.amount, o.timestamp)))

  module _ (laws : IsOrdered W) where
    pub read_line-Effect :
        (r : Reader W) (line : List ℕ) → Effect line r (read_line stod hashing r line)
    unfolding read_line push_order
    read_line-Effect r line = elim (Option-cases (parse_line stod line)) [
      | inl e ↦ rw (e, read_line) (inl (refl, refl, refl, omega arith, refl))
      | inr ((p, a, ts), e) ↦
          rw (e, read_line)
            (elim (Bool-cases (leb_ℤ ts r.last_ts)) [
              | inl l ↦ rw l (inl (refl, refl, refl, omega arith, refl))
              | inr l ↦ rw l (elim (Result-cases (Order.make p a ts)) [
                | inl (o, m) ↦
                    rw (m, push_order)
                      (let (valid, price, amount, stamp) = (Order.make_iff laws p a ts o).0 m in
                        inr (
                          o,
                          valid,
                          rw stamp (ground arith),
                          refl,
                          refl,
                          refl,
                          sym stamp,
                          compare_hashes-entry_of hashing line o r.hash_log,
                          rw (price, amount, stamp) refl,
                        ))
                | inr (x, m) ↦ rw (m, push_order) (inl (refl, refl, refl, ground arith, refl))
              ])
            ])
    ]

    -- What a run of lines adds to the queue, to the counters and to the log.
    abbrev Account : Reader W → Reader W → List (List ℕ) → Type 0
    Account r s lines =
        (read : List (List ℕ × Order W)) × Picks stod read lines
        × Increasing r.last_ts (map (λ p. p.1) read)
        × (s.out_queue ≡ r.out_queue ++ map (λ p. p.1) read)
        × (s.orders_received ≡ r.orders_received + length read)
        × (s.orders_received + s.anomalies ≡ r.orders_received + r.anomalies + length lines)
        × (s.hash_log ≡ r.hash_log ++ map (entry_of hashing) read)

    Increasing-mono : (t u : ℤ) (os : List (Order W)) → t ≤ℤ u → Increasing u os → Increasing t os
    Increasing-mono t u [] h i = tt
    Increasing-mono t u (o ∷ os) h (l, v, i) = (ground arith, v, i)

    extend :
        (r s u : Reader W) (line : List ℕ) (lines : List (List ℕ))
        → Effect line r s
        → Account s u lines
        → Account r u (line ∷ lines)
    extend r s u line lines (inl (q, k, a, t, l)) (read, picks, inc, q', k', sum, l') = (
      read,
      skip line picks,
      Increasing-mono r.last_ts s.last_ts (map (λ p. p.1) read) t inc,
      q' ∙ ap (λ x. x ++ map (λ p. p.1) read) q,
      omega arith,
      omega arith,
      l' ∙ ap (λ x. x ++ map (entry_of hashing) read) l,
    )
    extend r s u line lines (inr (o, v, t, q, k, a, e, l, parsed))
          (read, picks, inc, q', k', sum, l') =
        (
          (line, o) ∷ read,
          pick line o parsed picks,
          (t, v, subst (λ x. Increasing x (map (λ p. p.1) read)) e inc),
          q'
              ∙ ap (λ x. x ++ map (λ p. p.1) read) q
              ∙ append_snoc r.out_queue o (map (λ p. p.1) read),
          omega arith,
          omega arith,
          l'
              ∙ ap (λ x. x ++ map (entry_of hashing) read) l
              ∙ append_snoc r.hash_log (entry_of hashing (line, o)) (map (entry_of hashing) read),
        )

    read_lines-Account :
        (r : Reader W) (lines : List (List ℕ)) → Account r (read_lines stod hashing r lines) lines
    unfolding read_lines
    read_lines-Account r [] = (
      [],
      pick_none,
      tt,
      sym (append-nil r.out_queue),
      omega arith,
      omega arith,
      sym (append-nil r.hash_log),
    )
    read_lines-Account r (line ∷ lines) =
        let s = read_line stod hashing r line in
        extend r s (read_lines stod hashing s lines) line lines (read_line-Effect r line)
          (read_lines-Account s lines)

    -- Reading a file picks some of its lines, in their order, that parse to valid orders whose times
    -- increase strictly from above 0. It appends the orders to the queue and counts each as received and
    -- every other line as an anomaly, and the hash log gets a line for each order, a packet where the
    -- hash of the line is the hash of the printed order and an anomaly where it is not.
    pub run_accounts :
        (queue : List (Order W)) (received bad : ℕ) (log : List (List ℕ)) (lines : List (List ℕ))
        → let r = run stod hashing queue received bad log lines in
          (read : List (List ℕ × Order W)) × Picks stod read lines
          × Increasing (pos 0) (map (λ p. p.1) read)
          × (r.out_queue ≡ queue ++ map (λ p. p.1) read)
          × (r.orders_received ≡ received + length read)
          × (r.orders_received + r.anomalies ≡ received + bad + length lines)
          × (r.hash_log ≡ log ++ map (entry_of hashing) read)
    unfolding run
    run_accounts queue received bad log lines = read_lines-Account _ lines

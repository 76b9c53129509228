-- ===== src/Feed/CsvFeedSource/Blocked.antt =====
-- What a time past the range of the orders does to the rest of the file.
use chrono_trade.Common.{
  ℕ, Option, ◌≡◌, inl, inr, refl, true, some, List, [], ◌∷◌, ◌++◌, arith, ◌∙◌, Bool-cases,
}
use chrono_trade.Common.Int.{ℤ, ltb_ℤ, leb_ℤ}
use chrono_trade.Common.Result.{Result-cases}
use chrono_trade.Common.Float.{Float, IsOrdered}
use chrono_trade.Core.Order
use chrono_trade.Core.Order.{Order, max_timestamp}
use chrono_trade.Feed.Hashes.{Hashing}
use chrono_trade.Feed.CsvFeedSource.{Reader, parse_line, push_order, read_line, read_lines, run}
use chrono_trade.Feed.CsvFeedSource.Monotonic.{read_line-Effect}

module _ {W : Type 0} ⦃f : Float W⦄ (stod : List ℕ → Option (W × List ℕ)) (hashing : Hashing W)
    (laws : IsOrdered W) where
  abbrev IsPast : Reader W → Type 0
  IsPast r = ltb_ℤ max_timestamp r.last_ts ≡ true

  line-IsPast :
      (r : Reader W) (line : List ℕ)
      → IsPast r
      → ((read_line stod hashing r line).out_queue ≡ r.out_queue)
        × IsPast (read_line stod hashing r line)
  line-IsPast r line h = elim (read_line-Effect stod hashing laws r line) [
    | inl (q, _, _, t, _) ↦ (q, ground arith)
    | inr (o, v, t, _, _, _, _, _, _) ↦ absurd (ground (arith, v.timestamp_le))
  ]

  read_lines-IsPast :
      (r : Reader W) (lines : List (List ℕ))
      → IsPast r
      → (read_lines stod hashing r lines).out_queue ≡ r.out_queue
  unfolding read_lines
  read_lines-IsPast r [] h = refl
  read_lines-IsPast r (line ∷ lines) h =
      let (q, k) = line-IsPast r line h in
      read_lines-IsPast (read_line stod hashing r line) lines k ∙ q

  -- The line itself: the order is refused, and its time is the last time from then on.
  high_line :
      (r : Reader W) (line : List ℕ) (p a : W) (ts : ℤ)
      → parse_line stod line ≡ some (p, a, ts)
      → ltb_ℤ max_timestamp ts ≡ true
      → ((read_line stod hashing r line).out_queue ≡ r.out_queue)
        × IsPast (read_line stod hashing r line)
  unfolding read_line push_order
  high_line r line p a ts e h =
      rw (e, read_line)
        (elim (Bool-cases (leb_ℤ ts r.last_ts)) [
          | inl l ↦ rw l (refl, ground arith)
          | inr l ↦ rw l (elim (Result-cases (Order.make p a ts)) [
            | inl (o, m) ↦
                let (valid, _, _, stamp) = (Order.make_iff laws p a ts o).0 m in
                absurd (ground (arith, valid.timestamp_le, stamp))
            | inr (x, m) ↦ rw (m, push_order) (refl, h)
          ])
        ])

  read_lines-append :
      (r : Reader W) (before after : List (List ℕ))
      → read_lines stod hashing r (before ++ after)
        ≡ read_lines stod hashing (read_lines stod hashing r before) after
  unfolding read_lines
  read_lines-append r [] after = refl
  read_lines-append r (line ∷ before) after =
      read_lines-append (read_line stod hashing r line) before after

  -- Once a line has parsed with a time past the range that an order may have, no later line of the
  -- file is pushed, whatever it holds.
  pub run_blocked :
      (queue : List (Order W)) (received bad : ℕ) (log : List (List ℕ))
      (before after : List (List ℕ)) (line : List ℕ) (p a : W) (ts : ℤ)
      → parse_line stod line ≡ some (p, a, ts)
      → ltb_ℤ max_timestamp ts ≡ true
      → (run stod hashing queue received bad log (before ++ (line ∷ after))).out_queue
        ≡ (run stod hashing queue received bad log before).out_queue
  unfolding run
  run_blocked queue received bad log before after line p a ts e h =
      let r : Reader W = run stod hashing queue received bad log before in
      let (q, k) = high_line r line p a ts e h in
      rw (read_lines-append _ before (line ∷ after), read_lines)
        (read_lines-IsPast (read_line stod hashing r line) after k ∙ q)

-- ===== src/Feed/CsvOrderParser.antt =====
-- feed/CSVOrderParser.hpp: a line becomes an order with a flag for how far it is trusted. `stod` is
-- `std::stod`: the value and the bytes that it did not read, or `none` where it throws. The log is
-- left out.
use chrono_trade.Common.{
  ℕ, ◌≡◌, refl, Bool, true, false, Option, none, some, List, [], ◌∷◌, arith, if◌then◌else◌, if_elim,
  ◌||◌,
}
use chrono_trade.Common.Int.{ℤ, pos}
use chrono_trade.Common.Result.{Result, ok, err, ◌>>=◌}
use chrono_trade.Common.Float.{Float, IsOrdered}
use chrono_trade.Core.Order
use chrono_trade.Core.Order.{
  Order, OrderError, outside, timestamp_outside, min_price, max_price, min_amount, max_amount,
}
use chrono_trade.Core.AuthFlags.{AuthFlags, trusted, unverified, malformed, suspicious}
use chrono_trade.Feed.Text.{tokens, stoll}

abbrev Parsed : Type 0 → Type 0
Parsed W = Result OrderError (Order W × AuthFlags)

module _ {W : Type 0} ⦃f : Float W⦄ where
  -- `return { engine::Order(1.0, 1.0, 1'725'000'000), flag };`
  fallback : AuthFlags → Parsed W
  fallback flag = do o ← Order.make (f.lit 10 1) (f.lit 10 1) (pos 1_725_000_000); ok (o, flag)

  -- The ranges are tested, and the order is constructed; `catch (...)` takes its exception.
  checked : W → W → ℤ → Parsed W
  unfolding fallback
  checked price amount timestamp =
      if outside min_price max_price price
      then fallback suspicious
      else if outside min_amount max_amount amount
      then fallback suspicious
      else if timestamp_outside timestamp
      then fallback suspicious
      else elim (Order.make price amount timestamp) [
        | ok o ↦ ok (o, trusted)
        | err e ↦ fallback malformed
      ]

  abbrev is_outside : W → W → ℤ → Bool
  is_outside p a t =
      outside min_price max_price p || outside min_amount max_amount a || timestamp_outside t

  -- The order 1.0 x 1.0 at 1'725'000'000, which stands in for what could not be read.
  abbrev pub placeholder : Order W
  placeholder = record { price = f.lit 10 1; amount = f.lit 10 1; timestamp = pos 1_725_000_000 }

  -- The flag and the order that the three numbers of a line call for.
  abbrev Explains : Option (W × W × ℤ) → Order W → AuthFlags → Type 0
  Explains none o flag = (flag ≡ malformed) × (o ≡ placeholder)
  Explains (some (p, a, t)) o trusted = Order.make p a t ≡ ok o
  Explains (some (p, a, t)) o unverified = ⊥
  Explains (some (p, a, t)) o suspicious = (o ≡ placeholder) × (is_outside p a t ≡ true)
  Explains (some (p, a, t)) o malformed =
      (o ≡ placeholder)
      × (is_outside p a t ≡ false)
      × ((e : OrderError) × (Order.make p a t ≡ err e))

  abbrev pub Answers : Option (W × W × ℤ) → Parsed W → Type 0
  Answers read r =
      (o : Order W) × (flag : AuthFlags) × (r ≡ ok (o, flag))
      × Order.IsValid o
      × Explains read o flag

  module _ (laws : IsOrdered W) where
    open laws use {lit_le, lit_finite}

    placeholder-IsValid : Order.IsValid placeholder
    placeholder-IsValid = record {
      price_finite = lit_finite 10 1 (omega arith);
      amount_finite = lit_finite 10 1 (omega arith);
      price_ge = lit_le 1 4 10 1 (omega arith);
      price_le = lit_le 10 1 1_000_000 0 (omega arith);
      amount_ge = lit_le 1 4 10 1 (omega arith);
      amount_le = lit_le 10 1 100_000 0 (omega arith);
      timestamp_ge = omega arith;
      timestamp_le = omega arith;
    }

    fallback_lem : (flag : AuthFlags) → fallback flag ≡ ok (placeholder, flag)
    unfolding fallback
    fallback_lem flag =
        rw
          ((Order.make_iff laws (f.lit 10 1) (f.lit 10 1) (pos 1_725_000_000) placeholder).1
            (placeholder-IsValid, refl, refl, refl))
          refl

    checked-Answers : (p a : W) (t : ℤ) → Answers (some (p, a, t)) (checked p a t)
    unfolding checked
    checked-Answers p a t =
        if_elim P (outside min_price max_price p) (λ h. apart (rw h refl))
          (λ h.
            if_elim P (outside min_amount max_amount a) (λ k. apart (rw (h, k) refl))
              (λ k.
                if_elim P (timestamp_outside t) (λ l. apart (rw (h, k, l) refl))
                  (λ l. made (rw (h, k, l) refl) (Order.make p a t) refl)))
      where
        P : Parsed W → Type 0
        P = Answers (some (p, a, t))

        apart : is_outside p a t ≡ true → P (fallback suspicious)
        apart h = (placeholder, suspicious, fallback_lem suspicious, placeholder-IsValid, (refl, h))

        made :
            is_outside p a t ≡ false
            → (m : Result OrderError (Order W)) → Order.make p a t ≡ m
            → P (elim m [ ok o ↦ ok (o, trusted) | err e ↦ fallback malformed ])
        made h (ok o) e = (o, trusted, refl, ((Order.make_iff laws p a t o).0 e).0, e)
        made h (err x) e =
            (placeholder, malformed, fallback_lem malformed, placeholder-IsValid, (refl, h, (x, e)))

module _ {W : Type 0} ⦃f : Float W⦄ (stod : List ℕ → Option (W × List ℕ)) where
  -- The three conversions of the `try` block, what they leave unread being ignored.
  unfoldable pub numbers : List ℕ → List ℕ → List ℕ → Option (W × W × ℤ)
  numbers a b c = elim (stod a) [
    | none ↦ none
    | some (price, _) ↦ elim (stod b) [
      | none ↦ none
      | some (amount, _) ↦ elim (stoll c) [
        | none ↦ none
        | some (timestamp, _) ↦ some (price, amount, timestamp)
      ]
    ]
  ]

  convert : List ℕ → List ℕ → List ℕ → Parsed W
  unfolding checked numbers
  convert a b c = elim (numbers a b c) [
    | none ↦ fallback malformed
    | some (price, amount, timestamp) ↦ checked price amount timestamp
  ]

  unfoldable pub parse : List ℕ → Parsed W
  unfolding convert
  parse line = elim (tokens b',' [] line) [
    | [] ↦ fallback malformed
    | a ∷ [] ↦ fallback malformed
    | a ∷ b ∷ [] ↦ fallback malformed
    | a ∷ b ∷ c ∷ [] ↦ convert a b c
    | a ∷ b ∷ c ∷ d ∷ more ↦ fallback malformed
  ]

  -- The three numbers that a line of three fields holds.
  abbrev three : List (List ℕ) → Option (W × W × ℤ)
  three [] = none
  three (a ∷ []) = none
  three (a ∷ b ∷ []) = none
  three (a ∷ b ∷ c ∷ []) = numbers a b c
  three (a ∷ b ∷ c ∷ d ∷ more) = none

  abbrev pub reading : List ℕ → Option (W × W × ℤ)
  reading line = three (tokens b',' [] line)

  module _ (laws : IsOrdered W) where
    convert-Answers : (a b c : List ℕ) → Answers (numbers a b c) (convert a b c)
    unfolding convert
    convert-Answers a b c = go (numbers a b c)
      where
        go :
            (read : Option (W × W × ℤ))
            → Answers read (elim read [
              | none ↦ fallback malformed
              | some (price, amount, timestamp) ↦ checked price amount timestamp
            ])
        go none = (
          placeholder,
          malformed,
          fallback_lem laws malformed,
          placeholder-IsValid laws,
          (refl, refl),
        )
        go (some (p, a, t)) = checked-Answers laws p a t

    -- The parser never throws, and the order that it answers is valid, whatever the line. The order is
    -- trusted exactly when the line has three fields that read as numbers which the constructor of an
    -- order takes; numbers out of range give the placeholder as suspicious, anything else as malformed.
    pub parse-Answers : (line : List ℕ) → Answers (reading line) (parse line)
    unfolding parse
    parse-Answers line = go (tokens b',' [] line)
      where
        bad : Answers {W = W} none (fallback malformed)
        bad = (
          placeholder,
          malformed,
          fallback_lem laws malformed,
          placeholder-IsValid laws,
          (refl, refl),
        )

        go :
            (fields : List (List ℕ))
            → Answers (three fields) (elim fields [
              | [] ↦ fallback malformed
              | a ∷ [] ↦ fallback malformed
              | a ∷ b ∷ [] ↦ fallback malformed
              | a ∷ b ∷ c ∷ [] ↦ convert a b c
              | a ∷ b ∷ c ∷ d ∷ more ↦ fallback malformed
            ])
        go [] = bad
        go (a ∷ []) = bad
        go (a ∷ b ∷ []) = bad
        go (a ∷ b ∷ c ∷ []) = convert-Answers a b c
        go (a ∷ b ∷ c ∷ d ∷ more) = bad

-- ===== src/Core/Order.antt =====
-- core/Order.hpp: the checked constructor of an order. Timestamps are `int64_t`, read as integers.
use chrono_trade.Common.{◌≡◌, ◌↔◌, Bool, true, false, not, ◌||◌, arith}
use chrono_trade.Common.Int.{ℤ, pos, ltb_ℤ, ◌≤ℤ◌}
use chrono_trade.Common.Result.{Result, ok, ◌>>◌, throw_if}
use chrono_trade.Common.Float.{Float, IsOrdered, ◌≼◌}

-- One for each message of the constructor.
pub data OrderError : Type 0 where
  price_not_finite amount_not_finite price_out_of_bounds amount_out_of_bounds : OrderError
  timestamp_out_of_bounds : OrderError

pub record Order (W : Type 0) : Type 0 where
  pub price : W
  pub amount : W
  pub timestamp : ℤ

abbrev min_timestamp : ℤ
min_timestamp = pos 1_000_000_000

abbrev pub max_timestamp : ℤ
max_timestamp = pos 2_000_000_000

abbrev pub timestamp_outside : ℤ → Bool
timestamp_outside ts = ltb_ℤ ts min_timestamp || ltb_ℤ max_timestamp ts

module _ {W : Type 0} ⦃f : Float W⦄ where
  abbrev pub min_price : W
  min_price = f.lit 1 4

  abbrev pub max_price : W
  max_price = f.lit 1_000_000 0

  abbrev pub min_amount : W
  min_amount = f.lit 1 4

  abbrev pub max_amount : W
  max_amount = f.lit 100_000 0

  -- `x < lo || x > hi`
  abbrev pub outside : W → W → W → Bool
  outside lo hi x = f.lt x lo || f.lt hi x

  unfoldable pub make : W → W → ℤ → Result OrderError (Order W)
  make p a ts = do
    throw_if (not (f.is_finite p)) price_not_finite
    throw_if (not (f.is_finite a)) amount_not_finite
    throw_if (outside min_price max_price p) price_out_of_bounds
    throw_if (outside min_amount max_amount a) amount_out_of_bounds
    throw_if (timestamp_outside ts) timestamp_out_of_bounds
    ok (record { price = p; amount = a; timestamp = ts })

  pub record IsValid (o : Order W) : Type 0 where
    pub price_finite : f.is_finite o.price ≡ true
    pub amount_finite : f.is_finite o.amount ≡ true
    pub price_ge : min_price ≼ o.price
    pub price_le : o.price ≼ max_price
    pub amount_ge : min_amount ≼ o.amount
    pub amount_le : o.amount ≼ max_amount
    pub timestamp_ge : min_timestamp ≤ℤ o.timestamp
    pub timestamp_le : o.timestamp ≤ℤ max_timestamp

  module _ (laws : IsOrdered W) where
    open laws use {lt-eq-not-le, lit_finite}

    within_of_not_outside :
        (lo hi x : W)
        → f.is_finite lo ≡ true
        → f.is_finite hi ≡ true
        → f.is_finite x ≡ true
        → (outside lo hi x ≡ false) ↔ ((lo ≼ x) × (x ≼ hi))
    within_of_not_outside lo hi x hlo hhi hx =
        ground (arith, lt-eq-not-le x lo hx hlo, lt-eq-not-le hi x hhi hx)

    -- The constructor accepts exactly the finite prices and amounts and the timestamps that lie in
    -- the closed ranges of the class, and then stores its three arguments.
    pub make_iff :
        (p a : W) (ts : ℤ) (o : Order W)
        → (make p a ts ≡ ok o) ↔ (IsValid o × (o.price ≡ p) × (o.amount ≡ a) × (o.timestamp ≡ ts))
    unfolding make
    make_iff p a ts o = (made, λ h. ground (arith, price_within, amount_within))
      where
        price_within :
            f.is_finite p ≡ true
            → (outside min_price max_price p ≡ false) ↔ ((min_price ≼ p) × (p ≼ max_price))
        price_within h =
            within_of_not_outside min_price max_price p (lit_finite 1 4 (omega arith))
              (lit_finite 1_000_000 0 (omega arith)) h

        amount_within :
            f.is_finite a ≡ true
            → (outside min_amount max_amount a ≡ false) ↔ ((min_amount ≼ a) × (a ≼ max_amount))
        amount_within h =
            within_of_not_outside min_amount max_amount a (lit_finite 1 4 (omega arith))
              (lit_finite 100_000 0 (omega arith)) h

        made : make p a ts ≡ ok o → IsValid o × (o.price ≡ p) × (o.amount ≡ a) × (o.timestamp ≡ ts)
        made h = ground (arith, price_within, amount_within)

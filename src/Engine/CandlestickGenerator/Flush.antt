-- ===== src/Engine/CandlestickGenerator/Flush.antt =====
-- What a flush makes of the orders in the window.
pub mod Extremes
use mathlib.Core.Path.{subst}
use chrono_trade.Common.{
  ◌+◌, ◌++◌, length, Bool, false, Option, none, some, sym, ◌≡◌, ap, ◌∙◌, ◌⊎◌, inl, inr, refl, true,
  not, List, [], ◌∷◌, arith, All, if◌then◌else◌, Bool-cases,
}
use chrono_trade.Common.Int.{ℤ, pos, leb_ℤ, ltb_ℤ}
use chrono_trade.Common.Result.{Result, ok, err, Result-cases}
use chrono_trade.Common.Float.{Float, IsOrdered, ◌≼◌}
use chrono_trade.Core.Order.{Order}
use chrono_trade.Core.Candlestick
use chrono_trade.Core.Candlestick.{Candlestick}
use chrono_trade.Engine.CandlestickGenerator.{
  Generator, FlushError, volume_overflow, callback_threw, reset_state, accepts, scan, emit,
  close_window, flush_if_ready, window_end, last_of,
}
use chrono_trade.Engine.CandlestickGenerator.Counters.{IsValid, IsHeld}
use chrono_trade.Engine.CandlestickGenerator.Flush.Extremes.{
  Any, sum_amounts, IsPriced, Scanned, scan-Scanned, Overflows, scan-err, scan-Overflows,
}

module _ {W : Type 0} ⦃f : Float W⦄ where
  -- The candle of a window: its times, the first and the last price, the extreme prices, each of
  -- them the price of some order, and the sum of the amounts.
  pub record Summarises (g : Generator W) (first : Order W) (rest : List (Order W))
      (c : Candlestick W) : Type 0 where
    opens : c.opening ≡ first.price
    closes : c.close ≡ (last_of first rest).price
    pub starts : c.start_time ≡ g.window_start
    ends : c.end_time ≡ window_end g
    within : All (λ o. (c.low ≼ o.price) × (o.price ≼ c.high)) (first ∷ rest)
    high_attained : Any (λ o. c.high ≡ o.price) (first ∷ rest)
    low_attained : Any (λ o. c.low ≡ o.price) (first ∷ rest)
    volume_eq : c.volume ≡ sum_amounts (f.lit 0 0) (first ∷ rest)

  -- The generator hands the candle on, and begins again with an empty window and counters of 0; a task
  -- goes to the pool if it and a registry are bound.
  pub record HandsOn (g : Generator W) (c : Candlestick W)
      (out : Generator W × Result FlushError (Option (Candlestick W))) : Type 0 where
    pub returned : out.1 ≡ ok (some c)
    pub window : out.0.window ≡ []
    pub accepted : out.0.accepted_orders ≡ 0
    pub late : out.0.late_orders ≡ 0
    pub dropped : out.0.dropped_orders ≡ 0
    pub task :
        g.bound_registry ≡ true → g.bound_pool ≡ true → out.0.submitted ≡ g.submitted ++ (c ∷ [])
    pub no_registry : g.bound_registry ≡ false → out.0.submitted ≡ g.submitted
    pub no_pool : g.bound_pool ≡ false → out.0.submitted ≡ g.submitted

  -- The callback throws, and the generator keeps all but its count of dropped orders.
  abbrev pub Throws :
      Generator W
      → Candlestick W
      → Generator W × Result FlushError (Option (Candlestick W))
      → Type 0
  Throws g c out =
      (cb : Candlestick W → Bool) × (g.dispatch_cb ≡ some cb)
      × (cb c ≡ false)
      × (◌≡◌ {A = Generator W × Result FlushError (Option (Candlestick W))} out
          (record g { dropped_orders = g.dropped_orders + length g.window }, err callback_threw))

  -- Whether the callback returns, if there is one.
  abbrev pub Returns : Option (Candlestick W → Bool) → Candlestick W → Type 0
  Returns none c = Unit {0}
  Returns (some cb) c = cb c ≡ true

  sent :
      (g : Generator W) (c : Candlestick W)
      → HandsOn g c (
        reset_state (record g { dropped_orders = g.dropped_orders + length g.window }) c,
        ok (some c),
      )
  sent g c = record {
    returned = refl;
    window = refl;
    accepted = refl;
    late = refl;
    dropped = refl;
    task = λ r p. rw (r, p) refl;
    no_registry = λ r. rw r refl;
    no_pool = ground arith;
  }

  emit-HandsOn :
      (g : Generator W) (c : Candlestick W)
      → (Returns g.dispatch_cb c × HandsOn g c (emit g c)) ⊎ Throws g c (emit g c)
  unfolding emit
  emit-HandsOn g c = answered g.dispatch_cb
    where
      counted : Generator W
      counted = record g { dropped_orders = g.dropped_orders + length g.window }

      out : Bool → Generator W × Result FlushError (Option (Candlestick W))
      out returns =
          if returns then (reset_state counted c, ok (some c)) else (counted, err callback_threw)

      answered :
          (cb : Option (Candlestick W → Bool))
          → (Returns cb c × HandsOn g c (out (accepts cb c)))
            ⊎ ((k : Candlestick W → Bool) × (cb ≡ some k)
                × (k c ≡ false)
                × (◌≡◌ {A = Generator W × Result FlushError (Option (Candlestick W))}
                    (out (accepts cb c))
                    (counted, err callback_threw)))
      answered none = inl (tt, sent g c)
      answered (some cb) = elim (Bool-cases (cb c)) [
        | inl k ↦ inl (k, subst (λ b. HandsOn g c (out b)) (sym k) (sent g c))
        | inr k ↦ inr (cb, refl, k, ap out k)
      ]

  module _ (laws : IsOrdered W) where
    open laws use {le_refl, le_trans, lt-eq-not-le, lit_nonneg, lit_finite}

    priced : (stop : ℤ) (os : List (Order W)) → All (IsHeld stop) os → All IsPriced os
    priced stop [] h = tt
    priced stop (o ∷ os) (h, hs) =
        ((h.0.price_finite, le_trans _ _ _ (lit_nonneg 1 4) h.0.amount_ge), priced stop os hs)

    first_or : {A B : Type 0} → A ⊎ (A ⊎ B) → A ⊎ B
    first_or (inl a) = inl a
    first_or (inr r) = r

    last-within :
        (P : Order W → Type 0) (o : Order W) (os : List (Order W))
        → All P (o ∷ os)
        → P (last_of o os)
    last-within P o [] h = h.0
    last-within P o (x ∷ os) h = last-within P x os h.1

    flush-close :
        (g : Generator W) (now : ℤ) (first : Order W) (rest : List (Order W))
        → g.window ≡ first ∷ rest
        → leb_ℤ (window_end g) now ≡ true
        → flush_if_ready g now ≡ close_window g first rest
    unfolding flush_if_ready
    flush-close g now first rest w ready = ground arith

    close-bad :
        (g : Generator W) (first : Order W) (rest : List (Order W)) (e : FlushError)
        → scan first.price first.price (f.lit 0 0) (first ∷ rest) ≡ err e
        → close_window g first rest ≡ (g, err volume_overflow)
    unfolding close_window
    close-bad g first rest e h =
        rw (h, close_window) (ap (λ x. (g, err x)) (scan-err _ _ _ (first ∷ rest) e h))

    close-good :
        (g : Generator W) (first : Order W) (rest : List (Order W)) (high low volume : W)
        → (c : Candlestick W)
        → scan first.price first.price (f.lit 0 0) (first ∷ rest) ≡ ok (high, low, volume)
        → Candlestick.make first.price high low
            (last_of first rest).price
            volume
            g.window_start
            (window_end g)
          ≡ ok c
        → close_window g first rest ≡ emit g c
    unfolding close_window
    close-good g first rest high low volume c h m = rw (h, m, close_window) refl

    -- When the window holds orders and its time is over, a flush ends in one of three ways. A sum of the
    -- amounts overflows, which it reports, and nothing changes. Or there is a candle that meets the class
    -- invariant and sums the window up, and the callback, if there is one, returns: the candle is handed
    -- on, the window is empty, the counters are 0, and a task goes to the pool if it and a registry are
    -- bound. Or the callback throws at that candle, and only the count of dropped orders has changed. The
    -- candle's constructor never throws.
    pub flush_ready :
        (g : Generator W) (now : ℤ) (first : Order W) (rest : List (Order W))
        → IsValid g
        → g.window ≡ first ∷ rest
        → leb_ℤ (window_end g) now ≡ true
        → ltb_ℤ (pos 0) g.window_duration ≡ true
        → (Overflows (f.lit 0 0) (first ∷ rest) × (flush_if_ready g now ≡ (g, err volume_overflow)))
          ⊎ ((c : Candlestick W) × Candlestick.IsValid c
              × Summarises g first rest c
              × ((Returns g.dispatch_cb c × HandsOn g c (flush_if_ready g now))
                  ⊎ Throws g c (flush_if_ready g now)))
    flush_ready g now first rest v w ready positive =
        elim (Result-cases (scan first.price first.price (f.lit 0 0) (first ∷ rest))) [
          | inr (e, bad) ↦ inl (
            scan-Overflows _ _ _ (first ∷ rest) e bad,
            flush-close g now first rest w ready ∙ close-bad g first rest e bad,
          )
          | inl ((high, low, volume), good) ↦
              let p = rw w at v.held in
              let fin = p.0.0.price_finite in
              let s =
                scan-Scanned laws first.price first.price (f.lit 0 0) (first ∷ rest)
                  (high, low, volume) fin fin (lit_finite 0 0 (omega arith)) (lit_nonneg 0 0)
                  (priced (window_end g) (first ∷ rest) p) good in
              let last =
                last-within (λ o. (low ≼ o.price) × (o.price ≼ high)) first rest s.within in
              let c : Candlestick W = record {
                opening = first.price;
                high = high;
                low = low;
                close = (last_of first rest).price;
                volume = volume;
                start_time = g.window_start;
                end_time = window_end g;
              } in
              let valid : Candlestick.IsValid c = record {
                low_le_open = s.low_le;
                open_le_high = s.high_ge;
                low_le_close = last.0;
                close_le_high = last.1;
                start_lt_end = ground arith;
                volume_not_lt =
                    lt-eq-not-le volume (f.lit 0 0) s.volume_finite (lit_finite 0 0 (omega arith))
                    ∙ ap not s.volume_nonneg;
              } in
              inr (
                c,
                valid,
                record {
                  opens = refl;
                  closes = refl;
                  starts = refl;
                  ends = refl;
                  within = s.within;
                  high_attained = first_or s.high_attained;
                  low_attained = first_or s.low_attained;
                  volume_eq = s.volume_eq;
                },
                subst (λ out. (Returns g.dispatch_cb c × HandsOn g c out) ⊎ Throws g c out)
                    (sym (
                      flush-close g now first rest w ready
                      ∙ close-good g first rest high low volume c good (
                          (Candlestick.candle_iff first.price high low _ volume g.window_start
                              (window_end g) c).1
                            (valid, refl))))
                    (emit-HandsOn g c),
              )
        ]

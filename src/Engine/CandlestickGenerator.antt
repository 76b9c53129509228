-- ===== src/Engine/CandlestickGenerator.antt =====
-- engine/CandlestickGenerator.hpp: orders are gathered in a time window and flushed as one candle.
-- Each call holds the mutex, so it is one step. Logging is left out.
pub mod Flush
pub mod Counters
use chrono_trade.Common.{
  ℕ, ◌+◌, Bool, true, false, not, ◌&&◌, Option, none, some, List, [], ◌∷◌, ◌++◌, if◌then◌else◌,
  length,
}
use chrono_trade.Common.Int.{ℤ, pos, ◌+ℤ◌, leb_ℤ, ltb_ℤ}
use chrono_trade.Common.Result.{Result, ok, err}
use chrono_trade.Common.Float.{Float}
use chrono_trade.Core.Order.{Order}
use chrono_trade.Core.Candlestick
use chrono_trade.Core.Candlestick.{Candlestick, CandleError}

pub data FlushError : Type 0 where
  volume_overflow : FlushError
  bad_candle : CandleError → FlushError
  callback_threw : FlushError

-- `dispatch_cb` is the client's function; it answers whether it returns, and throws otherwise.
-- `bound_registry` and `bound_pool` tell whether the pointer is set; `submitted` holds the candles of the
-- tasks given to the pool.
pub record Generator (W : Type 0) : Type 0 where
  pub window : List (Order W)
  pub window_start : ℤ
  pub window_duration : ℤ
  pub dispatch_cb : Option (Candlestick W → Bool)
  pub accepted_orders : ℕ
  pub late_orders : ℕ
  pub dropped_orders : ℕ
  pub bound_registry : Bool
  pub bound_pool : Bool
  pub submitted : List (Candlestick W)

module _ {W : Type 0} where
  unfoldable pub make : ℤ → Generator W
  make duration = record {
    window = [];
    window_start = pos 0;
    window_duration = duration;
    dispatch_cb = none;
    accepted_orders = 0;
    late_orders = 0;
    dropped_orders = 0;
    bound_registry = false;
    bound_pool = false;
    submitted = [];
  }

  abbrev pub window_end : Generator W → ℤ
  window_end g = g.window_start +ℤ g.window_duration

  abbrev pub set_dispatch_callback : Generator W → Option (Candlestick W → Bool) → Generator W
  set_dispatch_callback g cb = record g { dispatch_cb = cb }

  -- The pointer given, or `nullptr`.
  abbrev pub bind_registry : Generator W → Bool → Generator W
  bind_registry g set = record g { bound_registry = set }

  abbrev pub bind_thread_pool : Generator W → Bool → Generator W
  bind_thread_pool g set = record g { bound_pool = set }

  -- `if (window.empty()) window_start = order.timestamp;`
  unfoldable pub open_window : Generator W → Order W → Generator W
  open_window g order = elim g.window [
    | [] ↦ record g { window_start = order.timestamp }
    | _ ∷ _ ↦ g
  ]

  unfoldable pub add_order : Generator W → Order W → Generator W
  add_order g order =
      if ltb_ℤ order.timestamp (window_end g)
      then record g { window = g.window ++ (order ∷ []); accepted_orders = g.accepted_orders + 1 }
      else record g { late_orders = g.late_orders + 1 }

  unfoldable pub insert : Generator W → Order W → Generator W
  unfolding open_window add_order
  insert g order = add_order (open_window g order) order

  -- `window.back()` of `first ∷ rest`.
  abbrev pub last_of : Order W → List (Order W) → Order W
  last_of o [] = o
  last_of _ (o ∷ os) = last_of o os

  abbrev pub accepts : Option (Candlestick W → Bool) → Candlestick W → Bool
  accepts none c = true
  accepts (some cb) c = cb c

module _ {W : Type 0} ⦃f : Float W⦄ where
  -- The loop of `flush_if_ready`: the new high, low and volume, or the overflow exception.
  unfoldable pub scan : W → W → W → List (Order W) → Result FlushError (W × W × W)
  scan high low volume [] = ok (high, low, volume)
  scan high low volume (o ∷ os) =
      let tmp = f.add volume o.amount in
      if not (f.is_finite tmp)
      then err volume_overflow
      else scan (if f.lt high o.price then o.price else high)
          (if f.lt o.price low then o.price else low) tmp os

  -- The state after the candle went out: the window and the counters are reset, the task submitted.
  abbrev pub reset_state : Generator W → Candlestick W → Generator W
  reset_state g c = record g {
    window = [];
    accepted_orders = 0;
    late_orders = 0;
    dropped_orders = 0;
    submitted = if g.bound_registry && g.bound_pool then g.submitted ++ (c ∷ []) else g.submitted;
  }

  -- The statements after the candle is constructed. `dropped_orders` is already raised when the
  -- callback throws.
  unfoldable pub emit :
      Generator W → Candlestick W → Generator W × Result FlushError (Option (Candlestick W))
  emit g c =
      let counted : Generator W = record g {
        dropped_orders = g.dropped_orders + length g.window;
      } in
      if accepts g.dispatch_cb c
      then (reset_state counted c, ok (some c))
      else (counted, err callback_threw)

  unfoldable pub close_window :
      Generator W
      → Order W
      → List (Order W)
      → Generator W × Result FlushError (Option (Candlestick W))
  unfolding emit scan
  close_window g first rest =
      let opening = first.price in
      let close = (last_of first rest).price in
      elim (scan opening opening (f.lit 0 0) (first ∷ rest)) [
        | err e ↦ (g, err e)
        | ok (high, low, volume) ↦
            elim (Candlestick.make opening high low close volume g.window_start (window_end g)) [
              | err e ↦ (g, err (bad_candle e))
              | ok c ↦ emit g c
            ]
      ]

  unfoldable pub flush_if_ready :
      Generator W → ℤ → Generator W × Result FlushError (Option (Candlestick W))
  unfolding close_window
  flush_if_ready g current_time = elim g.window [
    | [] ↦ (g, ok none)
    | first ∷ rest ↦
        if leb_ℤ (window_end g) current_time then close_window g first rest else (g, ok none)
  ]

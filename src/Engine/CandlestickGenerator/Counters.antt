-- ===== src/Engine/CandlestickGenerator/Counters.antt =====
-- The counters and the window agree, and what each call does with an order.
use chrono_trade.Common.{
  Option, Bool, ◌+◌, ◌≡◌, ◌≢◌, ◌⊎◌, inl, inr, refl, true, false, List, [], ◌∷◌, ◌++◌, arith, All,
  All-append, length, length-append, Bool-cases,
}
use chrono_trade.Common.Int.{ℤ, pos, ◌≤ℤ◌, ltb_ℤ}
use chrono_trade.Common.Float.{Float}
use chrono_trade.Core.Order
use chrono_trade.Core.Order.{Order}
use chrono_trade.Core.Candlestick.{Candlestick}
use chrono_trade.Engine.CandlestickGenerator.{
  Generator, make, set_dispatch_callback, bind_registry, bind_thread_pool, insert, add_order,
  open_window, flush_if_ready, window_end,
}

-- A client's calls, in the order in which they take the mutex.
pub data Call (W : Type 0) : Type 0 where
  insert_order : Order W → Call W
  flush_at : ℤ → Call W
  sets_callback : Option (Candlestick W → Bool) → Call W
  binds_registry binds_pool : Bool → Call W

module _ {W : Type 0} ⦃f : Float W⦄ where
  -- An order that lies before the end of the window and was constructed by its checked constructor.
  abbrev pub IsHeld : ℤ → Order W → Type 0
  IsHeld stop o = Order.IsValid o × (ltb_ℤ o.timestamp stop ≡ true)

  pub record IsValid (g : Generator W) : Type 0 where
    pub counted : g.accepted_orders ≡ length g.window
    pub held : All (IsHeld (window_end g)) g.window

  -- A new generator satisfies the invariant.
  pub make-IsValid : (duration : ℤ) → IsValid (make {W = W} duration)
  unfolding make
  make-IsValid duration = record { counted = refl; held = tt }

  insert_into :
      (g : Generator W) (o : Order W) → Order.IsValid o → IsValid g → IsValid (add_order g o)
  unfolding add_order
  insert_into g o vo v = elim (Bool-cases (ltb_ℤ o.timestamp (window_end g))) [
    | inl e ↦ rw e (record {
      counted = omega (arith, v.counted, length-append g.window (o ∷ []));
      held = All-append (IsHeld (window_end g)) g.window (o ∷ []) v.held ((vo, e), tt);
    })
    | inr e ↦ rw e (record { counted = v.counted; held = v.held })
  ]

  opened : (g : Generator W) (o : Order W) → IsValid g → IsValid (open_window g o)
  unfolding open_window
  opened g o v = go g.window refl
    where
      go : (xs : List (Order W)) → g.window ≡ xs → IsValid (open_window g o)
      go [] e = rw (e, open_window) (record { counted = v.counted; held = rw e tt })
      go (x ∷ xs) e = rw (e, open_window) v

  -- `insert` keeps the counter of accepted orders equal to the size of the window, and every order
  -- in the window valid and before the window's end.
  insert-IsValid :
      (g : Generator W) (o : Order W) → Order.IsValid o → IsValid g → IsValid (insert g o)
  unfolding insert
  insert-IsValid g o vo v = insert_into (open_window g o) o vo (opened g o v)

  -- `flush_if_ready` keeps the invariant on every path, the throwing ones included.
  flush-IsValid : (g : Generator W) (now : ℤ) → IsValid g → IsValid (flush_if_ready g now).0
  unfolding flush_if_ready
  flush-IsValid g now v = ground arith

  unfoldable pub run : Generator W → List (Call W) → Generator W
  run g [] = g
  run g (insert_order o ∷ calls) = run (insert g o) calls
  run g (flush_at now ∷ calls) = run (flush_if_ready g now).0 calls
  run g (sets_callback cb ∷ calls) = run (set_dispatch_callback g cb) calls
  run g (binds_registry set ∷ calls) = run (bind_registry g set) calls
  run g (binds_pool set ∷ calls) = run (bind_thread_pool g set) calls

  abbrev IsChecked : Call W → Type 0
  IsChecked (insert_order o) = Order.IsValid o
  IsChecked (flush_at now) = Unit
  IsChecked (sets_callback cb) = Unit
  IsChecked (binds_registry set) = Unit
  IsChecked (binds_pool set) = Unit

  run_from-IsValid :
      (g : Generator W) (calls : List (Call W))
      → IsValid g
      → All IsChecked calls
      → IsValid (run g calls)
  unfolding run
  run_from-IsValid g [] v c = v
  run_from-IsValid g (insert_order o ∷ calls) v c =
      run_from-IsValid (insert g o) calls (insert-IsValid g o c.0 v) c.1
  run_from-IsValid g (flush_at now ∷ calls) v c =
      run_from-IsValid (flush_if_ready g now).0 calls (flush-IsValid g now v) c.1
  run_from-IsValid g (sets_callback cb ∷ calls) v c =
      run_from-IsValid (set_dispatch_callback g cb) calls
        (record { counted = v.counted; held = v.held }) c.1
  run_from-IsValid g (binds_registry set ∷ calls) v c =
      run_from-IsValid (bind_registry g set) calls (record { counted = v.counted; held = v.held })
        c.1
  run_from-IsValid g (binds_pool set ∷ calls) v c =
      run_from-IsValid (bind_thread_pool g set) calls
        (record { counted = v.counted; held = v.held }) c.1

  -- Whatever calls a client makes on a new generator with constructed orders, setting the callback, which
  -- may throw, and binding a registry and a pool included, the counter of
  -- accepted orders is the number of orders in the window, and each of them is valid and earlier
  -- than the end of the window.
  pub run-IsValid :
      (duration : ℤ) (calls : List (Call W))
      → All IsChecked calls
      → IsValid (run (make duration) calls)
  run-IsValid duration calls c = run_from-IsValid (make duration) calls (make-IsValid duration) c

  -- Every order that is inserted is accounted for: it goes to the end of the window and is counted as
  -- accepted, or the window stays as it is and the order is counted as late, by its time against the
  -- end of the window; into an empty window with a positive duration it is always accepted.
  pub insert_accounts :
      (g : Generator W) (o : Order W)
      → ((insert g o).window ≡ g.window ++ (o ∷ []))
          × ((insert g o).accepted_orders ≡ g.accepted_orders + 1)
          × ((insert g o).late_orders ≡ g.late_orders)
          × (ltb_ℤ o.timestamp (window_end (insert g o)) ≡ true)
        ⊎ ((insert g o).window ≡ g.window)
          × ((insert g o).accepted_orders ≡ g.accepted_orders)
          × ((insert g o).late_orders ≡ g.late_orders + 1)
          × (ltb_ℤ o.timestamp (window_end (insert g o)) ≡ false)
          × ((g.window ≢ []) ⊎ (g.window_duration ≤ℤ pos 0))
  unfolding insert
  insert_accounts g o = elim (Bool-cases (ltb_ℤ o.timestamp (window_end (open_window g o)))) [
    | inl e ↦ inl (ground arith, ground arith, ground arith, ground arith)
    | inr e ↦ inr (ground arith, ground arith, ground arith, ground arith, nonempty g.window refl e)
  ]
    where
      nonempty :
          (xs : List (Order W))
          → g.window ≡ xs
          → ltb_ℤ o.timestamp (window_end (open_window g o)) ≡ false
          → (g.window ≢ []) ⊎ (g.window_duration ≤ℤ pos 0)
      nonempty [] e h = inr (ground arith)
      nonempty (x ∷ xs) e h = inl (λ z. cc)

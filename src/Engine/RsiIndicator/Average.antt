-- ===== src/Engine/RsiIndicator/Average.antt =====
-- What an update of the index makes of the windows.
use chrono_trade.Common.{
  ℕ, zero, suc, ◌+◌, ◌<◌, ◌≡◌, ◌⊎◌, inl, inr, refl, sym, ◌∙◌, ap, true, false, none, some, List, [],
  ◌∷◌, length, drop, get_elem?, arith, ◌==◌, Bool-cases, if◌then◌else◌,
}
use chrono_trade.Common.Result.{ok, err}
use chrono_trade.Common.Float.{Float}
use chrono_trade.Utils.FixedWindow.{Window, push, at, out_of_bounds}
use chrono_trade.Utils.FixedWindow.Valid.{IsValid, push-IsValid, contents}
use chrono_trade.Utils.FixedWindow.Span.{length-contents, get_elem?_in}
use chrono_trade.Utils.FixedWindow.Slide.{slide, contents-push, at-eq-read}
use chrono_trade.Engine.RsiIndicator.{
  Rsi, add_up, touch, index_of, advance, update, gain_of, loss_of,
}

module _ {ℓ} {A : Type ℓ} where
  pub drop_at :
      (xs : List A) (i : ℕ) (x : A) → get_elem? xs i ≡ some x → drop i xs ≡ x ∷ drop (i + 1) xs
  drop_at [] i x e = absurd (ground arith)
  drop_at (y ∷ ys) zero x e = ground arith
  drop_at (y ∷ ys) (suc i) x e =
      drop_at ys i x e ∙ ap (λ k. x ∷ drop k (y ∷ ys)) {x = suc (i + 1)} (omega arith)

  pub drop_none : (xs : List A) (i : ℕ) → length xs ≡ i → drop i xs ≡ []
  drop_none [] zero h = refl
  drop_none [] (suc i) h = refl
  drop_none (x ∷ xs) zero h = absurd (omega arith)
  drop_none (x ∷ xs) (suc i) h = drop_none xs i (omega arith)

module _ {W : Type 0} ⦃f : Float W⦄ where
  -- The sum from the left, as the loop adds.
  abbrev pub total_from : W → List W → W
  total_from t [] = t
  total_from t (x ∷ xs) = total_from (f.add t x) xs

  pub at_inside :
      (w : Window W) (i : ℕ)
      → IsValid w
      → i < w.count
      → (x : W) × (at w i ≡ ok x) × (get_elem? (contents w) i ≡ some x)
  at_inside w i v h =
      let (x, g) = get_elem?_in (contents w) i (omega (arith, length-contents v)) in
      (x, at-eq-read w i v ∙ ap (λ o. elim o [ none ↦ err out_of_bounds | some y ↦ ok y ]) g, g)

  add_up_lem :
      (w : Window W) (i n : ℕ) (t : W)
      → IsValid w
      → i + n ≡ w.count
      → add_up w i n t ≡ ok (total_from t (drop i (contents w)))
  unfolding add_up
  add_up_lem w i zero t v e =
      ap (λ xs. ok (total_from t xs))
        (sym (drop_none (contents w) i (omega (arith, length-contents v))))
  add_up_lem w i (suc n) t v e =
      let (x, a, g) = at_inside w i v (omega arith) in
      rw (add_up, a)
        (add_up_lem w (i + 1) n (f.add t x) v (omega arith)
          ∙ ap (λ xs. ok (total_from t xs)) (sym (drop_at (contents w) i x g)))

  -- The two windows keep the gains and the losses of the same closes.
  pub record InStep (r : Rsi W) : Type 0 where
    pub gains_ok : IsValid r.gains
    pub losses_ok : IsValid r.losses
    pub same_count : r.gains.count ≡ r.losses.count
    pub same_capacity : r.gains.max_capacity ≡ r.losses.max_capacity

  abbrev pub average : List W → W
  average xs = f.div (total_from (f.lit 0 0) xs) (f.lit (length xs) 0)

  -- The gain is a rise of the close, the loss a fall turned round, and either is 0 otherwise.
  pub record IsChange (delta gain loss : W) : Type 0 where
    pub rises : f.lt (f.lit 0 0) delta ≡ true → gain ≡ delta
    pub no_rise : f.lt (f.lit 0 0) delta ≡ false → gain ≡ f.lit 0 0
    pub falls : f.lt delta (f.lit 0 0) ≡ true → loss ≡ f.sub (f.lit 0 0) delta
    pub no_fall : f.lt delta (f.lit 0 0) ≡ false → loss ≡ f.lit 0 0

  gain_of-IsChange : (delta : W) → IsChange delta (gain_of delta) (loss_of delta)
  gain_of-IsChange delta = record {
    rises = ap (λ c. if c then delta else f.lit 0 0);
    no_rise = ap (λ c. if c then delta else f.lit 0 0);
    falls = ap (λ c. if c then f.sub (f.lit 0 0) delta else f.lit 0 0);
    no_fall = ap (λ c. if c then f.sub (f.lit 0 0) delta else f.lit 0 0);
  }

  -- The index is 100 where the losses average to 0, and 100 - 100 / (1 + gains / losses) otherwise.
  pub record IsIndex (avg_gain avg_loss rsi : W) : Type 0 where
    pub unbroken : f.eq avg_loss (f.lit 0 0) ≡ true → rsi ≡ f.lit 100 0
    pub mixed :
        f.eq avg_loss (f.lit 0 0) ≡ false
        → rsi
          ≡ f.sub (f.lit 100 0) (f.div (f.lit 100 0) (f.add (f.lit 1 0) (f.div avg_gain avg_loss)))

  index_of-IsIndex : (g l : W) → IsIndex g l (index_of g l)
  index_of-IsIndex g l =
      let mixed = f.sub (f.lit 100 0) (f.div (f.lit 100 0) (f.add (f.lit 1 0) (f.div g l))) in
      record {
        unbroken = ap (λ c. if c then f.lit 100 0 else mixed);
        mixed = ap (λ c. if c then f.lit 100 0 else mixed);
      }

  -- What an update at `close` makes of an indicator that has a last close.
  pub record Advanced (r : Rsi W) (close : W) (t : Rsi W) : Type 0 where
    pub gain : W
    pub loss : W
    pub change : IsChange (f.sub close r.last_close) gain loss
    pub gained : contents t.gains ≡ slide r.gains.max_capacity (contents r.gains) gain
    pub lost : contents t.losses ≡ slide r.losses.max_capacity (contents r.losses) loss
    pub at_close : t.last_close ≡ close
    pub index : IsIndex (average (contents t.gains)) (average (contents t.losses)) t.rsi

  touch_lem : (r : Rsi W) → InStep r → touch r ≡ ok tt
  unfolding touch
  touch_lem r h = elim (Bool-cases (r.gains.count == r.gains.max_capacity)) [
    | inl e ↦
        let first : 0 < r.gains.count = ground (arith, h.gains_ok.head_in) in
        let (x, a, _) = at_inside r.gains 0 h.gains_ok first in
        let (y, b, _) = at_inside r.losses 0 h.losses_ok (omega (arith, h.same_count)) in
        rw (touch, e, a, b) refl
    | inr e ↦ rw (touch, e) refl
  ]

  sum_lem :
      (w : Window W) (v : IsValid w)
      → (add_up w 0 w.count (f.lit 0 0) ≡ ok (total_from (f.lit 0 0) (contents w)))
        × (f.div (total_from (f.lit 0 0) (contents w)) (f.lit w.count 0) ≡ average (contents w))
  sum_lem w v = (
    add_up_lem w 0 w.count (f.lit 0 0) v (omega arith),
    ap (λ n. f.div (total_from (f.lit 0 0) (contents w)) (f.lit n 0)) (sym (length-contents v)),
  )

  push-count :
      (v w : Window W) (x y : W)
      → v.count ≡ w.count
      → v.max_capacity ≡ w.max_capacity
      → ((push v x).count ≡ (push w y).count) × ((push v x).max_capacity ≡ (push w y).max_capacity)
  unfolding push
  push-count v w x y e c = rw (e, c) (refl, refl)

  -- On an indicator whose windows are in step, an update never throws and keeps them in step. The
  -- first close is only noted. Each later one puts its rise or 0 into the one window and its fall, turned
  -- round, or 0 into the other; and the index is 100 where the average of the losses that the window
  -- then holds is 0, and otherwise 100 - 100 / (1 + the average of the gains over it).
  pub update-InStep :
      (r : Rsi W) (close : W)
      → InStep r
      → (t : Rsi W) × (update r close ≡ ok t)
        × InStep t
        × (((f.lt r.last_close (f.lit 0 0) ≡ true)
              × (◌≡◌ {A = Rsi W} t (record r { last_close = close })))
            ⊎ ((f.lt r.last_close (f.lit 0 0) ≡ false) × Advanced r close t))
  unfolding update advance
  update-InStep r close h = elim (Bool-cases (f.lt r.last_close (f.lit 0 0))) [
    | inl e ↦ (
      record r { last_close = close },
      rw (update, e) refl,
      record {
        gains_ok = h.gains_ok;
        losses_ok = h.losses_ok;
        same_count = h.same_count;
        same_capacity = h.same_capacity;
      },
      inl (e, refl),
    )
    | inr e ↦
        let gain : W = gain_of (f.sub close r.last_close) in
        let loss : W = loss_of (f.sub close r.last_close) in
        let gains : Window W = push r.gains gain in
        let losses : Window W = push r.losses loss in
        let gains_ok : IsValid gains = push-IsValid gain h.gains_ok in
        let losses_ok : IsValid losses = push-IsValid loss h.losses_ok in
        let (g, mean_gain) = sum_lem gains gains_ok in
        let (l, mean_loss) = sum_lem losses losses_ok in
        let (counts, capacities) =
          push-count r.gains r.losses gain loss h.same_count h.same_capacity in
        (
          record {
            gains = gains;
            losses = losses;
            last_close = close;
            rsi = index_of (average (contents gains)) (average (contents losses));
          },
          rw (update, e, advance, touch_lem r h, g, l, mean_gain, mean_loss) refl,
          record {
            gains_ok = gains_ok;
            losses_ok = losses_ok;
            same_count = counts;
            same_capacity = capacities;
          },
          inr (
            e,
            record {
              gain = gain;
              loss = loss;
              change = gain_of-IsChange (f.sub close r.last_close);
              gained = contents-push r.gains gain h.gains_ok;
              lost = contents-push r.losses loss h.losses_ok;
              at_close = refl;
              index = index_of-IsIndex (average (contents gains)) (average (contents losses));
            },
          ),
        )
  ]

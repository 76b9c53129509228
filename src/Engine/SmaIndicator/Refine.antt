-- ===== src/Engine/SmaIndicator/Refine.antt =====
-- The indicator against a list of the latest closes.
use chrono_trade.Common.{
  ℕ, ◌≡◌, refl, sym, ◌∙◌, ap, false, none, some, List, [], ◌∷◌, length, get_elem?, arith, ◌==◌,
  if◌then◌else◌, Bool-cases, inl, inr,
}
use chrono_trade.Common.Result.{Result, ok, err, ◌>>=◌}
use chrono_trade.Common.Float.{Float}
use chrono_trade.Utils.FixedWindow.{Window, WindowError, push, at, out_of_bounds}
use chrono_trade.Utils.FixedWindow.Valid.{IsValid, push-IsValid, contents}
use chrono_trade.Utils.FixedWindow.Span.{length-contents}
use chrono_trade.Utils.FixedWindow.Slide.{slide, contents-push, at-eq-read, max_capacity-push}
use chrono_trade.Engine.SmaIndicator.{Sma, evict, update, mean}

-- The specification: the latest closes, oldest first, and the total as the additions and
-- subtractions of doubles made it.
pub record Model (W : Type 0) : Type 0 where
  pub values : List W
  pub total : W

module _ {W : Type 0} ⦃f : Float W⦄ where
  -- The total without the oldest close, where there is no room for one more.
  abbrev pub kept : ℕ → List W → W → W
  kept period [] total = total
  kept period (v ∷ vs) total = if length (v ∷ vs) == period then f.sub total v else total

  abbrev pub step : ℕ → Model W → W → Model W
  step period m x = record {
    values = slide period m.values x;
    total = f.add (kept period m.values m.total) x;
  }

  abbrev pub steps : ℕ → Model W → List W → Model W
  steps period m [] = m
  steps period m (x ∷ xs) = steps period (step period m x) xs

  pub record Matches (period : ℕ) (s : Sma W) (m : Model W) : Type 0 where
    pub valid : IsValid s.window
    pub closes : contents s.window ≡ m.values
    pub total : s.sum ≡ m.total
    pub capacity : s.window.max_capacity ≡ period

  first_close :
      (w : Window W) (xs : List W) (v : W) → IsValid w → contents w ≡ v ∷ xs → at w 0 ≡ ok v
  first_close w xs v h e =
      at-eq-read w 0 h
      ∙ ap (λ vs. elim (get_elem? vs 0) [ none ↦ err out_of_bounds | some x ↦ ok x ]) e

  evict_lem :
      (period : ℕ) (s : Sma W) (m : Model W)
      → Matches period s m
      → evict s ≡ ok (kept period m.values m.total)
  unfolding evict
  evict_lem period s m h = go m.values h.closes
    where
      counted : (vs : List W) → contents s.window ≡ vs → s.window.count ≡ length vs
      counted vs e = sym (length-contents h.valid) ∙ ap length e

      go : (vs : List W) → contents s.window ≡ vs → evict s ≡ ok (kept period vs m.total)
      go [] e =
          let different : (s.window.count == s.window.max_capacity) ≡ false =
            ground (arith, counted [] e, h.valid.head_in) in
          rw (evict, different, h.total) refl
      go (v ∷ vs) e =
          rw (evict, first_close s.window vs v h.valid e, counted (v ∷ vs) e, h.capacity, h.total)
            (elim (Bool-cases (length (v ∷ vs) == period)) [
              | inl k ↦ rw k refl
              | inr k ↦ rw k refl
            ])

  mean_lem : (w : Window W) (sum : W) → mean w sum ≡ f.div sum (f.lit w.count 0)
  unfolding mean
  mean_lem w sum = elim (Bool-cases (w.count == w.max_capacity)) [
    | inl e ↦ rw (mean, e) (ap (λ n. f.div sum (f.lit n 0)) (ground arith))
    | inr e ↦ rw (mean, e) refl
  ]

  -- After an update the average is the total over the number of closes that are kept.
  abbrev pub HasMean : Sma W → Model W → Type 0
  HasMean s m = s.last_sma ≡ f.div m.total (f.lit (length m.values) 0)

  pub update_lem :
      (period : ℕ) (s : Sma W) (m : Model W) (x : W)
      → Matches period s m
      → (t : Sma W) × (update s x ≡ ok t)
        × Matches period t (step period m x)
        × HasMean t (step period m x)
  unfolding update
  update_lem period s m x h =
      let w : Window W = push s.window x in
      let sum : W = f.add (kept period m.values m.total) x in
      let closes : contents w ≡ slide period m.values x =
        contents-push s.window x h.valid
        ∙ ap (λ vs. slide s.window.max_capacity vs x) h.closes
        ∙ ap (λ n. slide n m.values x) h.capacity in
      let counted : w.count ≡ length (slide period m.values x) =
        sym (length-contents (push-IsValid x h.valid)) ∙ ap length closes in
      (
        record { window = w; sum = sum; last_sma = mean w sum },
        rw (update, evict_lem period s m h) refl,
        record {
          valid = push-IsValid x h.valid;
          closes = closes;
          total = refl;
          capacity = max_capacity-push s.window x ∙ h.capacity;
        },
        mean_lem w sum ∙ ap (λ n. f.div sum (f.lit n 0)) counted,
      )

  unfoldable pub update_all : Sma W → List W → Result WindowError (Sma W)
  update_all s [] = ok s
  update_all s (x ∷ xs) = update s x >>= λ t. update_all t xs

  -- The indicator never throws on a run of closes: it ends with a window of the latest closes, and
  -- with the running sum and the average of the specification.
  pub update_all-Matches :
      (period : ℕ) (s : Sma W) (m : Model W) (xs : List W)
      → Matches period s m
      → HasMean s m
      → (t : Sma W) × (update_all s xs ≡ ok t)
        × Matches period t (steps period m xs)
        × HasMean t (steps period m xs)
  unfolding update_all
  update_all-Matches period s m [] h k = (s, refl, h, k)
  update_all-Matches period s m (x ∷ xs) h k =
      let (t, e, g, l) = update_lem period s m x h in
      rw (update_all, e) (update_all-Matches period t (step period m x) xs g l)

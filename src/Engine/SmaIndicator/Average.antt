-- ===== src/Engine/SmaIndicator/Average.antt =====
-- A new indicator after a run of candles.
use mathlib.Core.Path.{subst}
use chrono_trade.Common.{
  ℕ, ◌-◌, ◌≤◌, ◌≡◌, refl, sym, ◌∙◌, ap, List, [], ◌∷◌, ◌++◌, length, ◌^◌, inl, inr, append_snoc,
  append-nil, arith,
}
use chrono_trade.Common.Result.{ok, Result-cases}
use chrono_trade.Common.Float.{Float}
use chrono_trade.Utils.FixedWindow
use chrono_trade.Utils.FixedWindow.{Window}
use chrono_trade.Utils.FixedWindow.Valid.{IsValid, contents, make-IsValid}
use chrono_trade.Utils.FixedWindow.Span.{length-contents}
use chrono_trade.Utils.FixedWindow.Slide.{slide, latest, slide-latest, drop-nil}
use chrono_trade.Engine.SmaIndicator.{Sma, make}
use chrono_trade.Engine.SmaIndicator.Refine.{
  Model, step, steps, Matches, update_lem, update_all, update_all-Matches,
}

module _ {W : Type 0} ⦃f : Float W⦄ where
  values-steps :
      (period : ℕ) (m : Model W) (past xs : List W)
      → m.values ≡ latest period past
      → (steps period m xs).values ≡ latest period (past ++ xs)
  values-steps period m past [] e = e ∙ ap (latest period) (sym (append-nil past))
  values-steps period m past (x ∷ xs) e =
      values-steps period (step period m x) (past ++ (x ∷ [])) xs
        (ap (λ vs. slide period vs x) e ∙ slide-latest period past x)
      ∙ ap (latest period) (append_snoc past x xs)

  abbrev pub fresh : Model W
  fresh = record { values = []; total = f.lit 0 0 }

  make-Matches :
      (period : ℕ) (s : Sma W) → period ≤ 2 ^ 62 → make period ≡ ok s → Matches period s fresh
  unfolding make
  make-Matches period s h e = elim (Result-cases (FixedWindow.make (f.lit 0 0) period)) [
    | inl (w, k) ↦
        let (valid, none_yet, room) = make-IsValid (f.lit 0 0) period h k in
        subst (λ t. Matches period t fresh) (made w k)
          (record {
            valid = valid;
            closes = no_values w valid none_yet;
            total = refl;
            capacity = room;
          })
    | inr (x, k) ↦ absurd (ground arith)
  ]
    where
      made :
          (w : Window W)
          → FixedWindow.make (f.lit 0 0) period ≡ ok w
          → ◌≡◌ {A = Sma W} (record { window = w; sum = f.lit 0 0; last_sma = f.lit 0 0 }) s
      made w k = ground arith

      no_values : (w : Window W) → IsValid w → w.count ≡ 0 → contents w ≡ []
      no_values w v z = go (contents w) (length-contents v ∙ z)
        where
          go : (xs : List W) → length xs ≡ 0 → xs ≡ []
          go [] e = refl
          go (x ∷ xs) e = absurd (omega arith)

  -- A new indicator never throws on a run of at least one close; afterwards it holds the latest
  -- closes, as many as its period, the running sum of the run, and as the average that sum over the
  -- number of the closes it holds.
  pub sma_average :
      (period : ℕ) (s : Sma W) (x : W) (xs : List W)
      → period ≤ 2 ^ 62
      → make period ≡ ok s
      → let closes = latest period (x ∷ xs) in
        let total = (steps period fresh (x ∷ xs)).total in
        (t : Sma W) × (update_all s (x ∷ xs) ≡ ok t)
        × (contents t.window ≡ closes)
        × (t.sum ≡ total)
        × (t.last_sma ≡ f.div total (f.lit (length closes) 0))
  unfolding update_all
  sma_average period s x xs h e =
      let (t, k, g, l) = update_lem period s fresh x (make-Matches period s h e) in
      let (u, m, i, j) = update_all-Matches period t (step period fresh x) xs g l in
      let total : W = (steps period fresh (x ∷ xs)).total in
      let same : (steps period fresh (x ∷ xs)).values ≡ latest period (x ∷ xs) =
        values-steps period fresh [] (x ∷ xs) (no_past period) in
      (
        u,
        rw (update_all, k) m,
        i.closes ∙ same,
        i.total,
        j ∙ ap (λ vs. f.div total (f.lit (length vs) 0)) same,
      )
    where
      no_past : (period : ℕ) → ◌≡◌ {A = List W} [] (latest period [])
      no_past period = sym (drop-nil (0 - period))

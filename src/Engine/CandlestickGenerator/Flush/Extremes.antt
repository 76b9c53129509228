-- ===== src/Engine/CandlestickGenerator/Flush/Extremes.antt =====
-- What the loop of a flush makes of the orders in the window.
use chrono_trade.Common.{
  false, ◌≡◌, ◌∙◌, ◌⊎◌, inl, inr, true, List, [], ◌∷◌, arith, All, if◌then◌else◌, Bool-cases,
}
use chrono_trade.Common.Result.{ok, err}
use chrono_trade.Common.Float.{Float, IsOrdered, ◌≼◌}
use chrono_trade.Core.Order.{Order}
use chrono_trade.Engine.CandlestickGenerator.{FlushError, volume_overflow, scan}

abbrev pub Any : {A : Type 0} → (A → Type 0) → List A → Type 0
Any P [] = ⊥
Any P (x ∷ xs) = P x ⊎ Any P xs

module _ {W : Type 0} ⦃f : Float W⦄ where
  -- The volume by the definition: the amounts added up from 0.0 in order.
  abbrev pub sum_amounts : W → List (Order W) → W
  sum_amounts v [] = v
  sum_amounts v (o ∷ os) = sum_amounts (f.add v o.amount) os

  abbrev pub IsPriced : Order W → Type 0
  IsPriced o = (f.is_finite o.price ≡ true) × (f.lit 0 0 ≼ o.amount)

  pub record Scanned (high low volume : W) (os : List (Order W)) (out : W × W × W) : Type 0 where
    pub high_finite : f.is_finite out.0 ≡ true
    pub low_finite : f.is_finite out.1 ≡ true
    pub high_ge : high ≼ out.0
    pub low_le : out.1 ≼ low
    pub within : All (λ o. (out.1 ≼ o.price) × (o.price ≼ out.0)) os
    pub volume_eq : out.2 ≡ sum_amounts volume os
    pub volume_nonneg : f.lit 0 0 ≼ out.2
    pub volume_finite : f.is_finite out.2 ≡ true
    pub high_attained : (out.0 ≡ high) ⊎ Any (λ o. out.0 ≡ o.price) os
    pub low_attained : (out.1 ≡ low) ⊎ Any (λ o. out.1 ≡ o.price) os

  module _ (laws : IsOrdered W) where
    open laws use {le_refl, le_trans, lt-eq-not-le, le_total, add_nonneg}

    -- `if (price > high) high = price;`
    raise_lem :
        (high p : W)
        → f.is_finite high ≡ true
        → f.is_finite p ≡ true
        → let h = if f.lt high p then p else high in
          (f.is_finite h ≡ true) × (high ≼ h) × (p ≼ h) × ((h ≡ high) ⊎ (h ≡ p))
    raise_lem high p hh hp =
        ground
          (arith, lt-eq-not-le high p hh hp, le_refl high hh, le_refl p hp, le_total high p hh hp)

    lower_lem :
        (low p : W)
        → f.is_finite low ≡ true
        → f.is_finite p ≡ true
        → let l = if f.lt p low then p else low in
          (f.is_finite l ≡ true) × (l ≼ low) × (l ≼ p) × ((l ≡ low) ⊎ (l ≡ p))
    lower_lem low p hl hp =
        ground (arith, lt-eq-not-le p low hp hl, le_refl low hl, le_refl p hp, le_total low p hl hp)

    attained_step :
        {old new price out : W} {Rest : Type 0}
        → (new ≡ old) ⊎ (new ≡ price)
        → (out ≡ new) ⊎ Rest
        → (out ≡ old) ⊎ ((out ≡ price) ⊎ Rest)
    attained_step h (inr r) = inr (inr r)
    attained_step (inl h) (inl e) = inl (e ∙ h)
    attained_step (inr h) (inl e) = inr (inl (e ∙ h))

    pub scan-Scanned :
        (high low volume : W) (os : List (Order W)) (out : W × W × W)
        → f.is_finite high ≡ true
        → f.is_finite low ≡ true
        → f.is_finite volume ≡ true
        → f.lit 0 0 ≼ volume
        → All IsPriced os
        → scan high low volume os ≡ ok out
        → Scanned high low volume os out
    unfolding scan
    scan-Scanned high low volume [] out hh hl fv hv p e =
        ground (arith, le_refl high hh, le_refl low hl)
    scan-Scanned high low volume (o ∷ os) out hh hl fv hv p e =
        elim (Bool-cases (f.is_finite (f.add volume o.amount))) [
          | inr nan ↦ cc (rw nan at e)
          | inl fin ↦
              let (h_fin, h_ge, h_price, h_at) = raise_lem high o.price hh p.0.0 in
              let (l_fin, l_le, l_price, l_at) = lower_lem low o.price hl p.0.0 in
              let s =
                scan-Scanned (if f.lt high o.price then o.price else high)
                  (if f.lt o.price low then o.price else low) (f.add volume o.amount) os out h_fin
                  l_fin fin (add_nonneg volume o.amount hv p.0.1 fin) p.1 (rw fin at e) in
              record {
                high_finite = s.high_finite;
                low_finite = s.low_finite;
                high_ge = le_trans _ _ _ h_ge s.high_ge;
                low_le = le_trans _ _ _ s.low_le l_le;
                within =
                    ((le_trans _ _ _ s.low_le l_price, le_trans _ _ _ h_price s.high_ge), s.within);
                volume_eq = s.volume_eq;
                volume_nonneg = s.volume_nonneg;
                volume_finite = s.volume_finite;
                high_attained = attained_step h_at s.high_attained;
                low_attained = attained_step l_at s.low_attained;
              }
        ]

  -- Some sum of the amounts from the left is no finite number.
  abbrev pub Overflows : W → List (Order W) → Type 0
  Overflows v [] = ⊥
  Overflows v (o ∷ os) = (f.is_finite (f.add v o.amount) ≡ false) ⊎ Overflows (f.add v o.amount) os

  pub scan-err :
      (high low volume : W) (os : List (Order W)) (e : FlushError)
      → scan high low volume os ≡ err e
      → e ≡ volume_overflow
  unfolding scan
  scan-err high low volume [] e h = cc
  scan-err high low volume (o ∷ os) e h = elim (Bool-cases (f.is_finite (f.add volume o.amount))) [
    | inl fin ↦
        scan-err (if f.lt high o.price then o.price else high)
          (if f.lt o.price low then o.price else low) (f.add volume o.amount) os e (rw fin at h)
    | inr nan ↦ cc (rw nan at h)
  ]

  pub scan-Overflows :
      (high low volume : W) (os : List (Order W)) (e : FlushError)
      → scan high low volume os ≡ err e
      → Overflows volume os
  unfolding scan
  scan-Overflows high low volume [] e h = absurd (ground arith)
  scan-Overflows high low volume (o ∷ os) e h =
      elim (Bool-cases (f.is_finite (f.add volume o.amount))) [
        | inl fin ↦ inr (
            scan-Overflows (if f.lt high o.price then o.price else high)
              (if f.lt o.price low then o.price else low) (f.add volume o.amount) os e
              (rw fin at h))
        | inr nan ↦ inl nan
      ]

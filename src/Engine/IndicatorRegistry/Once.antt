-- ===== src/Engine/IndicatorRegistry/Once.antt =====
-- How often a candle reaches each object.
use chrono_trade.Common.{
  ℕ, zero, suc, ◌≡◌, ◌⊎◌, inl, inr, refl, sym, ◌∙◌, ap, ◌==◌, ==_iff, [], ◌∷◌, ◌++◌, if◌then◌else◌,
  Bool-cases,
}
use chrono_trade.Common.Result.{ok, err, Result-cases}
use chrono_trade.Engine.IndicatorRegistry.{IIndicator, Entry, Registry, Heap, put, update_all}

-- The names under which the object stands.
abbrev pub uses : ℕ → Registry → ℕ
uses j [] = 0
uses j (e ∷ es) = if j == e.object then suc (uses j es) else uses j es

module _ {S C V E : Type 0} (ind : IIndicator S C V E) where
  -- The object after n updates at the candle.
  abbrev pub times : C → ℕ → S → S
  times c zero s = s
  times c (suc n) s = times c n (ind.update s c).0

  -- What an update of all the entries does: it reached `before`, in order.
  pub record Reached (heap : Heap S) (c : C) (before : Registry) (heap' : Heap S) : Type 0 where
    pub each : (j : ℕ) → heap' j ≡ times c (uses j before) (heap j)

  -- The update of the last entry threw `x`.
  pub record Threw (heap : Heap S) (c : C) (before : Registry) (x : E) : Type 0 where
    pub earlier : Registry
    pub last : Entry
    pub ends : before ≡ earlier ++ (last ∷ [])
    pub thrown : (ind.update (times c (uses last.object earlier) (heap last.object)) c).1 ≡ err x

  step_each :
      (heap : Heap S) (c : C) (e : Entry) (es : Registry) (j : ℕ)
      → times c (uses j es) (put heap e.object (ind.update (heap e.object) c).0 j)
        ≡ times c (uses j (e ∷ es)) (heap j)
  step_each heap c e es j = elim (Bool-cases (j == e.object)) [
    | inl h ↦
        rw (h)
          (ap (λ i. times c (uses j es) (ind.update (heap i) c).0) (sym ((==_iff j e.object).0 h)))
    | inr h ↦ rw (h) refl
  ]

  -- An update of all the indicators reaches the entries in order: all of them, or those up to the first
  -- whose update throws, and that exception is passed on. An object is updated once for every name
  -- under which it was reached, and no other object changes.
  pub update_all-Reached :
      (heap : Heap S) (es : Registry) (c : C)
      → (before after : Registry) × (es ≡ before ++ after)
        × Reached heap c before (update_all ind heap es c).0
        × (((after ≡ []) × ((update_all ind heap es c).1 ≡ ok tt))
            ⊎ ((x : E) × ((update_all ind heap es c).1 ≡ err x) × Threw heap c before x))
  unfolding update_all
  update_all-Reached heap [] c = ([], [], refl, record { each = λ j. refl }, inl (refl, refl))
  update_all-Reached heap (e ∷ es) c =
      let now : Heap S = put heap e.object (ind.update (heap e.object) c).0 in
      let (before, after, parts, reached, ending) = update_all-Reached now es c in
      elim (Result-cases (ind.update (heap e.object) c).1) [
        | inl (u, h) ↦
            rw (update_all, h)
              (
                e ∷ before,
                after,
                ap (λ rest. e ∷ rest) parts,
                record { each = λ j. reached.each j ∙ step_each heap c e before j },
                (elim ending [
                  | inl done ↦ inl done
                  | inr (x, fails, t) ↦ inr (
                    x,
                    fails,
                    record {
                      earlier = e ∷ t.earlier;
                      last = t.last;
                      ends = ap (λ rest. e ∷ rest) t.ends;
                      thrown =
                          ap (λ s. (ind.update s c).1)
                            (sym (step_each heap c e t.earlier t.last.object))
                          ∙ t.thrown;
                    },
                  )
                ]),
              )
        | inr (x, h) ↦
            rw (update_all, h)
              (
                e ∷ [],
                es,
                refl,
                record { each = step_each heap c e [] },
                inr (x, refl, record { earlier = []; last = e; ends = refl; thrown = h }),
              )
      ]

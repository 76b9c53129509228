-- ===== src/Engine/IndicatorRegistry.antt =====
-- engine/IIndicator.hpp and engine/IndicatorRegistry.hpp: the indicators that take every candle. The
-- log is left out, and the mutex makes each call one step. A name is its number, and a shared pointer
-- is the number of its object, never null; the objects are a heap that the registry shares with its
-- clients.
pub mod Once
use chrono_trade.Common.{
  ℕ, ◌+◌, ◌==◌, List, [], ◌∷◌, ◌++◌, Bool, true, false, Option, none, some, if◌then◌else◌, length,
}
use chrono_trade.Common.Result.{Result, ok, err, ◌>>=◌}
use chrono_trade.Engine.SmaIndicator.{Signal}

-- The virtual functions of an indicator, on the state of its object. An update that throws has
-- changed the object up to there.
pub record IIndicator (S C V E : Type 0) : Type 0 where
  pub update : S → C → S × Result E (Unit {0})
  pub signal : S → Result E Signal
  pub value : S → V

pub record Entry : Type 0 where
  pub name : ℕ
  pub object : ℕ

-- The map, in the order in which a loop over it goes.
abbrev pub Registry : Type 0
Registry = List Entry

abbrev pub Heap : Type 0 → Type 0
Heap S = ℕ → S

abbrev pub put {ℓ} : {S : Type ℓ} → (ℕ → S) → ℕ → S → ℕ → S
put heap r s j = if j == r then s else heap j

abbrev has_name : Registry → ℕ → Bool
has_name [] n = false
has_name (e ∷ es) n = if e.name == n then true else has_name es n

abbrev replace : Registry → ℕ → ℕ → Registry
replace [] n o = []
replace (e ∷ es) n o =
    let rest = replace es n o in if e.name == n then record e { object = o } ∷ es else e ∷ rest

-- `indicators[name] = std::move(indicator)`. Where the library puts a new name, and whether it moves
-- the others, is its own matter: `arrange`.
abbrev pub register_indicator : (Registry → Registry) → Registry → ℕ → ℕ → Registry
register_indicator arrange es n o =
    if has_name es n then replace es n o else arrange (record { name = n; object = o } ∷ es)

abbrev pub reset : Registry → Registry
reset es = []

abbrev pub count : Registry → ℕ
count es = length es

module _ {S C V E : Type 0} (ind : IIndicator S C V E) where
  unfoldable pub update_all : Heap S → Registry → C → Heap S × Result E (Unit {0})
  update_all heap [] candle = (heap, ok tt)
  update_all heap (e ∷ es) candle =
      let (s, r) = ind.update (heap e.object) candle in
      let rest = update_all (put heap e.object s) es candle in
      elim r [ ok _ ↦ rest | err x ↦ (put heap e.object s, err x) ]

  abbrev pub current_signals : Heap S → Registry → Result E (List Signal)
  current_signals heap [] = ok []
  current_signals heap (e ∷ es) = do
    sig ← ind.signal (heap e.object)
    signals ← current_signals heap es
    ok (sig ∷ signals)

-- ===== src/Utils/ArenaAllocator/Objects.antt =====
-- Where the objects lie that a client constructs in an arena.
use mathlib.Core.Path.{subst}
use chrono_trade.Common.{
  ℕ, ◌+◌, ◌^◌, ◌≤◌, ◌<◌, ◌≡◌, refl, sym, Bool, true, false, Option, none, some, List, [], ◌∷◌, All,
  if◌then◌else◌, arith,
}
use chrono_trade.Utils.ArenaAllocator.{
  Arena, address_mod, allocate, Built, object, bad_alloc, not_built, construct,
}
use chrono_trade.Utils.ArenaAllocator.Place.{Placed, allocate-Placed}

-- A call of `construct`: the size, the exponent of the alignment, and whether the constructor throws.
pub record Request : Type 0 where
  pub size : ℕ
  pub k : ℕ
  pub throws : Bool

-- The object that a call leaves, with its size.
abbrev added : ℕ → Built → List (ℕ × ℕ) → List (ℕ × ℕ)
added size (object p) rest = (p, size) ∷ rest
added size bad_alloc rest = rest
added size not_built rest = rest

-- A client that constructs one object after the other, whatever becomes of each: the objects.
unfoldable pub construct_all : List Request → Arena → List (ℕ × ℕ)
construct_all [] a = []
construct_all (r ∷ rs) a =
    let (built, b) = construct r.size r.k r.throws a in added r.size built (construct_all rs b)

-- Objects one behind the other, from one address to another.
abbrev pub Laid : ℕ → ℕ → List (ℕ × ℕ) → Type 0
Laid low high [] = Unit {0}
Laid low high ((p, n) ∷ bs) = (low ≤ p) × (p + n ≤ high) × Laid (p + n) high bs

Laid-within :
    (bs : List (ℕ × ℕ)) {low low' high high' : ℕ}
    → low ≤ low'
    → high' ≤ high
    → Laid low' high' bs
    → Laid low high bs
Laid-within [] h k l = tt
Laid-within ((p, n) ∷ bs) h k l =
    (omega arith, omega arith, Laid-within bs {low = p + n} (omega arith) k l.2)

-- What is asked of a request: no address wraps.
abbrev pub IsSmall : ℕ → ℕ → Request → Type 0
IsSmall base capacity r = (base + capacity + 2 ^ r.k + r.size < address_mod) × (0 < 2 ^ r.k)

-- What follows a call lies behind it.
module _ (r : Request) (rs : List Request) (a : Arena) where
  abbrev Rest : Arena → Type 0
  Rest b = Laid (b.base + b.offset) (b.base + b.capacity) (construct_all rs b)

  built :
      (throws : Bool) (p : ℕ) (b : Arena)
      → Placed a r.size r.k p b
      → Rest b
      → let s : Built × Arena = if throws then (not_built, b) else (object p, b) in
        Laid (a.base + a.offset) (a.base + a.capacity) (added r.size s.0 (construct_all rs s.1))
  built true p b placed rest = Laid-within (construct_all rs b) (omega arith) (omega arith) rest
  built false p b placed rest = (
    placed.behind,
    omega arith,
    Laid-within (construct_all rs b) (omega arith) (omega arith) rest,
  )

  step :
      (o : Option (ℕ × Arena))
      → ((p : ℕ) (b : Arena) → o ≡ some (p, b) → Placed a r.size r.k p b)
      → ((b : Arena) → b.offset ≤ b.capacity → b.base ≡ a.base → b.capacity ≡ a.capacity → Rest b)
      → a.offset ≤ a.capacity
      → let s : Built × Arena = elim o [
        | none ↦ (bad_alloc, a)
        | some (p, b) ↦ if r.throws then (not_built, b) else (object p, b)
      ] in
        Laid (a.base + a.offset) (a.base + a.capacity) (added r.size s.0 (construct_all rs s.1))
  step none placed rest h = rest a h refl refl
  step (some (p, b)) placed rest h =
      let at : Placed a r.size r.k p b = placed p b refl in
      built r.throws p b at (rest b at.held at.same_base at.same_capacity)

-- The objects that a client constructs lie in the buffer one behind the other, so that no two overlap,
-- whichever calls find no room or have a constructor that throws, if no address wraps.
pub construct_all-Laid :
    (rs : List Request) (a : Arena)
    → a.offset ≤ a.capacity
    → All (IsSmall a.base a.capacity) rs
    → Laid (a.base + a.offset) (a.base + a.capacity) (construct_all rs a)
unfolding construct_all construct
construct_all-Laid [] a h small = tt
construct_all-Laid (r ∷ rs) a h small =
    step r rs a (allocate r.size r.k a)
      (allocate-Placed a r.size r.k
        (record { inside = h; low = small.0.0; some_alignment = small.0.1 }))
      (λ b held e d. construct_all-Laid rs b held (
        subst (λ x. All (IsSmall x b.capacity) rs) (sym e)
          (subst (λ x. All (IsSmall a.base x) rs) (sym d) small.1)))
      h

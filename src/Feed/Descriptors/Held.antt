-- ===== src/Feed/Descriptors/Held.antt =====
-- The table of open descriptors under runs of calls.
use chrono_trade.Common.{
  ℕ, ◌≡◌, ◌∙◌, ap, true, false, Option, none, some, List, [], ◌∷◌, ◌++◌, if◌then◌else◌, arith,
  ==_refl,
}
use chrono_trade.Feed.Descriptors.{Call, opens, closes, holds, without, obey, obey_all}

-- What the table gains by a call that returns a descriptor or -1.
abbrev pub gained : Option ℕ → List ℕ → List ℕ
gained none held = held
gained (some fd) held = fd ∷ held

pub holds-gained : (fd : ℕ) (held : List ℕ) → holds (fd ∷ held) fd ≡ true
holds-gained fd held = ground (arith, ==_refl fd)

without-gained : (fd : ℕ) (held : List ℕ) → without (fd ∷ held) fd ≡ held
without-gained fd held = ground (arith, ==_refl fd)

-- Calls made one after the other.
pub obey_all-append :
    (cs ds : List Call) (held after : List ℕ)
    → obey_all cs held ≡ some after
    → obey_all (cs ++ ds) held ≡ obey_all ds after
obey_all-append [] ds held after e = ap (λ o. elim o [ none ↦ none | some h ↦ obey_all ds h ]) e
obey_all-append (c ∷ cs) ds held after e =
    elim (obey c held)
        as (λ o.
          elim o [ none ↦ none | some h ↦ obey_all cs h ] ≡ some after
          → elim o [ none ↦ none | some h ↦ obey_all (cs ++ ds) h ] ≡ obey_all ds after) [
            | none ↦ λ x. absurd (ground arith)
            | some h ↦ λ x. obey_all-append cs ds h after x
          ]
      e

pub obey_all-step :
    (c : Call) (cs : List Call) (held after : List ℕ)
    → obey c held ≡ some after
    → obey_all (c ∷ cs) held ≡ obey_all cs after
obey_all-step c cs held after e = ap (λ o. elim o [ none ↦ none | some h ↦ obey_all cs h ]) e

pub obey-opens :
    (fd : ℕ) (held : List ℕ) → holds held fd ≡ false → obey (opens fd) held ≡ some (fd ∷ held)
obey-opens fd held e = ap (λ b. if b then none else some (fd ∷ held)) e

pub obey-closes : (fd : ℕ) (held : List ℕ) → obey (closes fd) (fd ∷ held) ≡ some held
obey-closes fd held =
    ap (λ b. if b then some (without (fd ∷ held) fd) else none) (holds-gained fd held)
    ∙ ap some (without-gained fd held)

-- A call on an open socket that leaves the table alone.
pub obey-uses :
    (fd : ℕ) (held : List ℕ)
    → (if holds (fd ∷ held) fd then some (fd ∷ held) else none) ≡ some (fd ∷ held)
obey-uses fd held = ap (λ b. if b then some (fd ∷ held) else none) (holds-gained fd held)

-- A socket that is opened and closed leaves the table as it was.
pub obey_all-opened :
    (fd : ℕ) (cs : List Call) (held : List ℕ)
    → holds held fd ≡ false
    → obey_all (opens fd ∷ closes fd ∷ cs) held ≡ obey_all cs held
obey_all-opened fd cs held e =
    obey_all-step (opens fd) (closes fd ∷ cs) held (fd ∷ held) (obey-opens fd held e)
    ∙ obey_all-step (closes fd) cs (fd ∷ held) held (obey-closes fd held)

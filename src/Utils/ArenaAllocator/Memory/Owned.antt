-- ===== src/Utils/ArenaAllocator/Memory/Owned.antt =====
-- The buffers and the arenas that hold them.
use chrono_trade.Common.{
  ℕ, zero, suc, ◌+◌, ◌<◌, ◌≡◌, ◌≢◌, refl, ap, ◌∙◌, ◌==◌, ==_refl, Bool, Option, none, some, List,
  [], ◌∷◌, ◌++◌, get_elem?, set, remove_at, get_elem?-set_ne, ltb, if◌then◌else◌, if_elim, arith,
}
use chrono_trade.Utils.ArenaAllocator.{Arena, allocate, construct}
use chrono_trade.Utils.ArenaAllocator
use chrono_trade.Utils.ArenaAllocator.Memory.{
  Memory, times, remove_one, delete, Use, creates, moves, destroys, resets, assigns, constructs,
  at_arena, replaced, assign, use_arena, use_all,
}

-- How many arenas hold a buffer.
abbrev own : ℕ → Arena → ℕ
own p a = if a.base == p then 1 else 0

abbrev pub owners : ℕ → List Arena → ℕ
owners p [] = 0
owners p (a ∷ xs) = own p a + owners p xs

-- Every buffer is allocated as often as there are arenas that hold it, and no other is deleted.
pub record IsOwned (m : Memory) : Type 0 where
  pub owned : (n : ℕ) → times (suc n) m.heap ≡ owners (suc n) m.arenas
  pub sound : m.faults ≡ 0

times-remove_one :
    (p n : ℕ) (qs : List ℕ)
    → 0 < times p qs
    → times n (remove_one p qs) + (if p == n then 1 else 0) ≡ times n qs
times-remove_one p n [] h = absurd (omega arith)
times-remove_one p n (q ∷ qs) h = ground (arith, times-remove_one p n qs)

owners-append : (p : ℕ) (xs bs : List Arena) → owners p (xs ++ bs) ≡ owners p xs + owners p bs
owners-append p [] bs = omega arith
owners-append p (a ∷ xs) bs = omega (arith, owners-append p xs bs)

owners-set :
    (p : ℕ) (xs : List Arena) (i : ℕ) (a b : Arena)
    → get_elem? xs i ≡ some a
    → owners p (set xs i b) + own p a ≡ owners p xs + own p b
owners-set p [] i a b h = absurd (ground arith)
owners-set p (x ∷ xs) zero a b h = let same : x ≡ a = ground arith in omega (arith, ap (own p) same)
owners-set p (x ∷ xs) (suc i) a b h = omega (arith, owners-set p xs i a b h)

owners-remove_at :
    (p : ℕ) (xs : List Arena) (i : ℕ) (a : Arena)
    → get_elem? xs i ≡ some a
    → owners p (remove_at xs i) + own p a ≡ owners p xs
owners-remove_at p [] i a h = absurd (ground arith)
owners-remove_at p (x ∷ xs) zero a h =
    let same : x ≡ a = ground arith in omega (arith, ap (own p) same)
owners-remove_at p (x ∷ xs) (suc i) a h = omega (arith, owners-remove_at p xs i a h)

-- `delete[]` of the buffer of an arena.
record IsDeleted (m : Memory) (a : Arena) (freed : Memory) : Type 0 where
  gone : (n : ℕ) → times (suc n) freed.heap + own (suc n) a ≡ times (suc n) m.heap
  same_arenas : freed.arenas ≡ m.arenas
  no_fault : freed.faults ≡ m.faults

delete_owned :
    (m : Memory) (base n : ℕ)
    → (0 < base → 0 < times base m.heap)
    → (times (suc n) (delete base m).heap + (if base == suc n then 1 else 0) ≡ times (suc n) m.heap)
      × ((delete base m).arenas ≡ m.arenas)
      × ((delete base m).faults ≡ m.faults)
delete_owned m zero n h = (grind arith, refl, refl)
delete_owned m (suc p) n h =
    if_elim
      (λ (f : Memory).
        (times (suc n) f.heap + (if suc p == suc n then 1 else 0) ≡ times (suc n) m.heap)
        × (f.arenas ≡ m.arenas)
        × (f.faults ≡ m.faults))
      (ltb 0 (times (suc p) m.heap))
      (λ held. (times-remove_one (suc p) (suc n) m.heap (h (omega arith)), refl, refl))
      (λ missing. absurd (ground (arith, h (omega arith))))

-- An arena in its place holds its buffer.
owners-holds :
    (xs : List Arena) (i : ℕ) (a : Arena) (p : ℕ)
    → get_elem? xs i ≡ some a
    → a.base ≡ p
    → 0 < owners p xs
owners-holds xs i a p h e =
    let own_it : own p a ≡ 1 = ground (arith, e, ==_refl p) in
    omega (arith, own_it, owners-remove_at p xs i a h)

delete-IsDeleted :
    (m : Memory) (i : ℕ) (a : Arena)
    → IsOwned m
    → get_elem? m.arenas i ≡ some a
    → IsDeleted m a (delete a.base m)
delete-IsDeleted m i a k h =
    let held = allocated a.base (λ p e. owners-holds m.arenas i a p h e) in
    record {
      gone = λ n. (delete_owned m a.base n held).0;
      same_arenas = (delete_owned m a.base 0 held).1;
      no_fault = (delete_owned m a.base 0 held).2;
    }
  where
    allocated : (p : ℕ) → ((q : ℕ) → p ≡ q → 0 < owners q m.arenas) → 0 < p → 0 < times p m.heap
    allocated zero f l = absurd (omega arith)
    allocated (suc q) f l = omega (arith, k.owned q, f (suc q) refl)

abbrev holding : ℕ → ℕ → ℕ
holding p n = if p == suc n then 1 else 0

-- An arena that keeps its buffer.
replaced-IsOwned :
    (m : Memory) (i : ℕ) (a b : Arena)
    → IsOwned m
    → get_elem? m.arenas i ≡ some a
    → b.base ≡ a.base
    → IsOwned (replaced m i b)
replaced-IsOwned m i a b k h e = record {
  owned =
      λ n. omega (arith, k.owned n, owners-set (suc n) m.arenas i a b h, ap (λ p. holding p n) e);
  sound = k.sound;
}

construct_base :
    (size k : ℕ) (throws : Bool) (a : Arena) → (construct size k throws a).1.base ≡ a.base
unfolding construct allocate
construct_base size k throws a = ground arith

abbrev emptied : Arena → Arena
emptied a = (ArenaAllocator.move a).1

no_buffer : (n : ℕ) (a : Arena) → own (suc n) (emptied a) ≡ 0
no_buffer n a = grind arith

reset_base : (a : Arena) → (ArenaAllocator.reset a).base ≡ a.base
unfolding ArenaAllocator.reset
reset_base a = refl

at_arena-IsOwned :
    (m : Memory) (i : ℕ) (f : Arena → Memory)
    → IsOwned m
    → ((a : Arena) → get_elem? m.arenas i ≡ some a → IsOwned (f a))
    → IsOwned (at_arena m i f)
at_arena-IsOwned m i f k h = there (get_elem? m.arenas i) refl
  where
    there :
        (o : Option Arena) → get_elem? m.arenas i ≡ o → IsOwned (elim o [ none ↦ m | some a ↦ f a ])
    there none e = k
    there (some a) e = h a e

-- The buffer of an arena is deleted, and the arenas are changed in step.
assigned :
    (m freed : Memory) (a : Arena) (change : List Arena → List Arena)
    → IsOwned m
    → IsDeleted m a freed
    → ((n : ℕ) → owners (suc n) (change m.arenas) + own (suc n) a ≡ owners (suc n) m.arenas)
    → IsOwned (record freed { arenas = change freed.arenas })
assigned m freed a change k d h = record {
  owned = λ n.
      omega (arith, k.owned n, d.gone n, h n, ap (λ xs. owners (suc n) (change xs)) d.same_arenas);
  sound = d.no_fault ∙ k.sound;
}

assign-IsOwned :
    (m : Memory) (i j : ℕ) (a b : Arena)
    → IsOwned m
    → get_elem? m.arenas i ≡ some a
    → get_elem? m.arenas j ≡ some b
    → IsOwned (assign m i j a b)
assign-IsOwned m i j a b k h l =
    if_elim IsOwned (i == j) (λ same. k)
      (λ other.
        let freed = delete-IsDeleted m i a k h in
        let apart : i ≢ j = λ e. absurd (ground (arith, e, ==_refl i)) in
        let taken = get_elem?-set_ne m.arenas i j b apart ∙ l in
        let step : (n : ℕ)
            → owners (suc n) (set (set m.arenas i b) j (emptied b)) + own (suc n) a
              ≡ owners (suc n) m.arenas =
          λ n. omega (
            arith,
            no_buffer n b,
            owners-set (suc n) m.arenas i a b h,
            owners-set (suc n) (set m.arenas i b) j b (emptied b) taken,
          ) in
        assigned m (delete a.base m) a (λ xs. set (set xs i b) j (emptied b)) k freed step)

use_arena-IsOwned : (m : Memory) (u : Use) → IsOwned m → IsOwned (use_arena m u)
unfolding use_arena
use_arena-IsOwned m (creates base capacity) k = record {
  owned = λ n. omega (
    arith,
    k.owned n,
    owners-append (suc n) m.arenas (record { base = base; capacity = capacity; offset = 0 } ∷ []),
  );
  sound = k.sound;
}
use_arena-IsOwned m (moves i) k =
    at_arena-IsOwned m i (λ a. _) k
      (λ a h. record {
        owned = λ n. omega (
          arith,
          k.owned n,
          no_buffer n a,
          owners-append (suc n) (set m.arenas i (emptied a)) (a ∷ []),
          owners-set (suc n) m.arenas i a (emptied a) h,
        );
        sound = k.sound;
      })
use_arena-IsOwned m (destroys i) k =
    at_arena-IsOwned m i (λ a. _) k
      (λ a h.
        assigned m (delete a.base m) a (λ xs. remove_at xs i) k (delete-IsDeleted m i a k h)
          (λ n. owners-remove_at (suc n) m.arenas i a h))
use_arena-IsOwned m (resets i) k =
    at_arena-IsOwned m i (λ a. _) k
      (λ a h. replaced-IsOwned m i a (ArenaAllocator.reset a) k h (reset_base a))
use_arena-IsOwned m (assigns i j) k =
    at_arena-IsOwned m i (λ a. _) k
      (λ a h.
        at_arena-IsOwned m j (λ b. assign m i j a b) k (λ b l. assign-IsOwned m i j a b k h l))
use_arena-IsOwned m (constructs i size e throws) k =
    at_arena-IsOwned m i (λ a. _) k
      (λ a h.
        replaced-IsOwned m i a (construct size e throws a).1 k h (construct_base size e throws a))

-- Whatever arenas a program constructs, moves, assigns, uses and destroys, in any order: no call of
-- `delete[]` meets what is not allocated, and every buffer is allocated as often as there are arenas
-- that hold it, if that is so to begin with.
pub use_all-IsOwned : (m : Memory) (us : List Use) → IsOwned m → IsOwned (use_all m us)
unfolding use_all
use_all-IsOwned m [] k = k
use_all-IsOwned m (u ∷ us) k = use_all-IsOwned (use_arena m u) us (use_arena-IsOwned m u k)

-- ===== src/Security/FeedHashLogger/Hex.antt =====
-- The digits of a hash give its bytes back.
use chrono_trade.Common.{
  ℕ, ◌+◌, ◌-◌, ◌*◌, ◌/◌, ◌%◌, ◌<◌, ◌≡◌, ◌↔◌, refl, sym, ◌∙◌, ap, true, List, [], ◌∷◌, All, ltb,
  if◌then◌else◌, arith, ==_refl,
}
use chrono_trade.Security.FeedHashLogger.{digit, to_hex, same}

abbrev pub value : ℕ → ℕ
value c = if ltb c b'a' then c - b'0' else c - b'a' + 10

abbrev pub from_hex : List ℕ → List ℕ
from_hex [] = []
from_hex (h ∷ []) = []
from_hex (h ∷ l ∷ cs) = (value h * 16 + value l) ∷ from_hex cs

value-digit : (n : ℕ) → n < 16 → value (digit n) ≡ n
value-digit n h = ground arith

-- Two digits for each byte, from which the bytes can be read back.
from_hex-to_hex : (bs : List ℕ) → All (λ b. b < 256) bs → from_hex (to_hex bs) ≡ bs
unfolding to_hex
from_hex-to_hex [] h = refl
from_hex-to_hex (b ∷ bs) h =
    ap (λ x. x ∷ from_hex (to_hex bs))
      (omega (arith, value-digit (b / 16) (omega arith), value-digit (b % 16) (omega arith), h.0))
    ∙ ap (λ xs. b ∷ xs) (from_hex-to_hex bs h.1)

same_self : (xs : List ℕ) → same xs xs ≡ true
same_self [] = refl
same_self (x ∷ xs) = rw (==_refl x) (same_self xs)

same_eq : (xs ys : List ℕ) → same xs ys ≡ true → xs ≡ ys
same_eq [] [] h = refl
same_eq [] (y ∷ ys) h = absurd (ground arith)
same_eq (x ∷ xs) [] h = absurd (ground arith)
same_eq (x ∷ xs) (y ∷ ys) h =
    let tail : same xs ys ≡ true = ground arith in
    let head : x ≡ y = ground arith in
    ap (λ z. z ∷ xs) head ∙ ap (λ zs. y ∷ zs) (same_eq xs ys tail)

-- Two hashes print alike only if they are alike.
pub same-to_hex :
    (xs ys : List ℕ)
    → All (λ b. b < 256) xs
    → All (λ b. b < 256) ys
    → (same (to_hex xs) (to_hex ys) ≡ true) ↔ (xs ≡ ys)
same-to_hex xs ys h k = (
  λ e.
      sym (from_hex-to_hex xs h)
      ∙ ap from_hex (same_eq (to_hex xs) (to_hex ys) e)
      ∙ from_hex-to_hex ys k,
  λ e. ap (λ x. same (to_hex x) (to_hex ys)) e ∙ same_self (to_hex ys),
)

-- ===== src/Feed/TcpLatencyProxy/Http/Speaks.antt =====
-- What `looks_like_http` takes for HTTP, without its loops.
use chrono_trade.Common.{
  ℕ, ◌≡◌, ◌⊎◌, Bool, true, false, not, ◌&&◌, List, [], ◌∷◌, ◌++◌, map, length, All, leb,
}
use chrono_trade.Feed.TcpLatencyProxy.Http.{is_blank, to_upper, methods}

abbrev pub OneOf : List ℕ → List (List ℕ) → Type 0
OneOf m [] = ⊥
OneOf m (x ∷ xs) = (m ≡ x) ⊎ OneOf m xs

-- Blanks, then a method in letters of either case.
pub record Speaks (text : List ℕ) : Type 0 where
  pub blanks : List ℕ
  pub head : List ℕ
  pub tail : List ℕ
  pub split : blanks ++ (head ++ tail) ≡ text
  pub blank : All (λ c. is_blank c ≡ true) blanks
  pub method : OneOf (map to_upper head) methods

-- The text begins with the method, up to case.
Begins : List ℕ → List ℕ → Type 0
Begins text m = (head : List ℕ) × (tail : List ℕ) × (head ++ tail ≡ text) × (map to_upper head ≡ m)

-- Every method has at least four letters, the first of which is none of the blanks.
begins_well : List ℕ → Bool
begins_well [] = false
begins_well (c ∷ cs) = not (is_blank c) && leb 3 (length cs)

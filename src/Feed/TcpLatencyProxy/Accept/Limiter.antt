-- ===== src/Feed/TcpLatencyProxy/Accept/Limiter.antt =====
-- The limiter of the warnings never lets one through.
use chrono_trade.Common.{
  ℕ, ◌-◌, ◌*◌, ◌^◌, ◌<◌, ◌≡◌, refl, ap, ◌∙◌, Bool, true, false, List, [], ◌∷◌, replicate, length,
  All, arith, if◌then◌else◌,
}
use chrono_trade.Common.Int.{pos, negsuc, ◌-ℤ◌, leb_ℤ}
use chrono_trade.Feed.TcpLatencyProxy.Accept.{LogRateLimiter, new_limiter, wrapped, should_log}

-- The answers to a run of calls at these times.
abbrev pub answers : LogRateLimiter → List ℕ → List Bool
answers l [] = []
answers l (now ∷ later) = (should_log l now).1 ∷ answers (should_log l now).0 later

elapsed :
    (now : ℕ) → now < 2 ^ 63 → wrapped (pos now -ℤ negsuc (2 ^ 63 - 1)) ≡ negsuc (2 ^ 63 - 1 - now)
elapsed now h = ground arith

refused : (ms now : ℕ) → now < 2 ^ 63 → should_log (new_limiter ms) now ≡ (new_limiter ms, false)
unfolding should_log
refused ms now h =
    ap
      (λ z.
        if leb_ℤ (pos (ms * 1_000_000)) z
        then (record (new_limiter ms) { last_log = pos now }, true)
        else (new_limiter ms, false))
      (elapsed now h)
    ∙ ground arith

-- A new limiter answers no to every call, at whatever times: the time since the first
-- possible time does not fit into 64 bits, and wraps to a negative one.
pub answers_no :
    (ms : ℕ) (times : List ℕ)
    → All (λ now. now < 2 ^ 63) times
    → answers (new_limiter ms) times ≡ replicate (length times) false
answers_no ms [] h = refl
answers_no ms (now ∷ later) h =
    ap (λ r. r.1 ∷ answers r.0 later) (refused ms now h.0)
    ∙ ap (λ bs. false ∷ bs) (answers_no ms later h.1)

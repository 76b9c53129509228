-- ===== src/Core/AuthFlags.antt =====
-- core/AuthFlags.hpp: the trust flag and its names.
use Prim.Native.String.{String}
use text.Mathlib.Text.{◌==◌}
use text.Mathlib.TextEquality.{eq_iff}
use chrono_trade.Common.{◌≡◌, ◌↔◌, refl, arith, if◌then◌else◌}
use chrono_trade.Common.Result.{Result, ok, err}

pub data AuthFlags : Type 0 where
  trusted unverified malformed suspicious : AuthFlags

pub data AuthError : Type 0 where
  invalid_auth_flags : String → AuthError

unfoldable pub to_string : AuthFlags → String
to_string trusted = "TRUSTED"
to_string unverified = "UNVERIFIED"
to_string malformed = "MALFORMED"
to_string suspicious = "SUSPICIOUS"

unfoldable pub from_string : String → Result AuthError AuthFlags
from_string s =
    if s == "TRUSTED"
    then ok trusted
    else if s == "UNVERIFIED"
    then ok unverified
    else if s == "MALFORMED"
    then ok malformed
    else if s == "SUSPICIOUS"
    then ok suspicious
    else err (invalid_auth_flags s)

-- A text reads as a flag exactly when it is the name that the flag prints as.
from_string-to_string : (s : String) (a : AuthFlags) → (from_string s ≡ ok a) ↔ (s ≡ to_string a)
unfolding from_string to_string
from_string-to_string s a = (read_back, printed a)
  where
    printed : (b : AuthFlags) → s ≡ to_string b → from_string s ≡ ok b
    printed trusted e = rw e refl
    printed unverified e = rw e refl
    printed malformed e = rw e refl
    printed suspicious e = rw e refl

    read_back : from_string s ≡ ok a → s ≡ to_string a
    read_back h = ground (
      arith,
      eq_iff s "TRUSTED",
      eq_iff s "UNVERIFIED",
      eq_iff s "MALFORMED",
      eq_iff s "SUSPICIOUS",
    )

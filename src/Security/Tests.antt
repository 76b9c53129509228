-- ===== src/Security/Tests.antt =====
-- The logs on small inputs.
use chrono_trade.Common.{ℕ, ◌+◌, ◌%◌, ◌<◌, ◌≡◌, refl, List, [], ◌∷◌, ◌++◌, length, All, arith}
use chrono_trade.Feed.Text.{bytes}
use chrono_trade.Security.FeedHashLogger.{to_hex, log_buffer, log_and_verify}
use chrono_trade.Security.FeedHashLogger.Logged
use chrono_trade.Security.FeedHashLogger.Logged.{Verified}
use chrono_trade.Security.SecurityAwareLogger.{
  Logger, Entry, info, warn, line, new_logger, take_number, write_line, takes, writes, Runs, start,
  next,
}
use chrono_trade.Security.SecurityAwareLogger.Numbered
use chrono_trade.Security.SecurityAwareLogger.Numbered.{IsNumbered}

-- A hash of one byte, the length of the text.
abbrev toy_hash : List ℕ → List ℕ
toy_hash text = (length text % 256) ∷ []

toy_hash_bytes : (text : List ℕ) → All (λ b. b < 256) (toy_hash text)
toy_hash_bytes text = omega arith

hex_digits : to_hex (0 ∷ 171 ∷ []) ≡ bytes "00ab"
unfolding to_hex
hex_digits = refl

buffer_cut :
    log_buffer toy_hash (bytes "12345") 3 (bytes "T") []
    ≡ bytes "[FEED] [T] SHA256=03 line=123" ∷ []
unfolding log_buffer to_hex
buffer_cut = refl

anomaly :
    log_and_verify toy_hash (bytes "1,2,3") (bytes "1.0,2.0,3") (bytes "T") []
    ≡ bytes "[FEED] [T] SHA256=05 line=1,2,3" ∷ bytes "[ANOMALY] [T] Expected=05 Got=09" ∷ []
unfolding log_and_verify to_hex
anomaly = refl

log_and_verify-Verified_example :
    Verified toy_hash
      (bytes "1,2,3")
      (bytes "1.0,2.0,3")
      (bytes "T")
      []
      (log_and_verify toy_hash (bytes "1,2,3") (bytes "1.0,2.0,3") (bytes "T") [])
log_and_verify-Verified_example =
    Logged.log_and_verify-Verified toy_hash toy_hash_bytes (bytes "1,2,3") (bytes "1.0,2.0,3")
      (bytes "T") []

-- Two calls of which the second writes first.
abbrev first : Entry
first = record { seq = 0; ms = 7; tid = 1; level = info; message = bytes "a" }

abbrev second : Entry
second = record { seq = 1; ms = 7; tid = 2; level = warn; message = bytes "b" }

abbrev both_taken : Logger
both_taken = take_number (take_number new_logger 7 1 info (bytes "a")) 7 2 warn (bytes "b")

abbrev crossed : Logger
crossed = write_line (write_line both_taken 0 second) 0 first

crossed_run : Runs new_logger crossed
crossed_run =
    next
      (next (next (next start (takes 7 1 info (bytes "a"))) (takes 7 2 warn (bytes "b")))
        (writes 0 second refl))
      (writes 0 first refl)

out_of_order : crossed.written ≡ second ∷ first ∷ []
out_of_order = refl

line_text : line (λ n. (n + 48) ∷ []) toy_hash second ≡ bytes "[WARN] b seq=1 hash=" ++ (9 ∷ [])
line_text = refl

new_logger-IsNumbered_example : IsNumbered crossed
new_logger-IsNumbered_example = Numbered.new_logger-IsNumbered crossed crossed_run

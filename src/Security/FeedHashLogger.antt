-- ===== src/Security/FeedHashLogger.antt =====
-- security/FeedHashLogger.hpp: a log of the packets of the feeds with their hashes. `sha256` is the
-- function of OpenSSL, from bytes to 32 bytes. The log is the list of its lines; the making of its
-- folder and the mutex, which makes each line one write, are left out.
pub mod Hex
pub mod Logged
use chrono_trade.Common.{
  ℕ, ◌+◌, ◌-◌, ◌*◌, ◌/◌, ◌%◌, ◌^◌, Bool, true, false, not, ◌&&◌, List, [], ◌∷◌, ◌++◌, take, ◌==◌,
  ltb, if◌then◌else◌,
}
use chrono_trade.Feed.Text.{bytes}

-- A digit under `std::hex`.
abbrev pub digit : ℕ → ℕ
digit n = if ltb n 10 then b'0' + n else b'a' + (n - 10)

-- `oss << std::hex << std::setw(2) << std::setfill('0') << (int)hash[i]`
unfoldable pub to_hex : List ℕ → List ℕ
to_hex [] = []
to_hex (b ∷ bs) = digit (b / 16) ∷ digit (b % 16) ∷ to_hex bs

abbrev pub same : List ℕ → List ℕ → Bool
same [] [] = true
same [] (y ∷ ys) = false
same (x ∷ xs) [] = false
same (x ∷ xs) (y ∷ ys) = x == y && same xs ys

-- `log_packet` of a line and its hash.
abbrev pub packet_line : List ℕ → List ℕ → List ℕ → List ℕ
packet_line line hash tag =
    bytes "[FEED] [" ++ (tag ++ (bytes "] SHA256=" ++ (hash ++ (bytes " line=" ++ line))))

unfoldable pub log_packet : List ℕ → List ℕ → List ℕ → List (List ℕ) → List (List ℕ)
log_packet line hash tag log = log ++ (packet_line line hash tag ∷ [])

abbrev pub anomaly_line : List ℕ → List ℕ → List ℕ → List ℕ
anomaly_line expected actual tag =
    bytes "[ANOMALY] [" ++ (tag ++ (bytes "] Expected=" ++ (expected ++ (bytes " Got=" ++ actual))))

unfoldable pub log_anomaly : List ℕ → List ℕ → List ℕ → List (List ℕ) → List (List ℕ)
log_anomaly expected actual tag log = log ++ (anomaly_line expected actual tag ∷ [])

module _ (sha256 : List ℕ → List ℕ) where
  unfoldable pub compute_sha256 : List ℕ → List ℕ
  unfolding to_hex
  compute_sha256 input = to_hex (sha256 input)

  -- `log_packet` of the first `len` bytes of a buffer.
  unfoldable pub log_buffer : List ℕ → ℕ → List ℕ → List (List ℕ) → List (List ℕ)
  unfolding log_packet compute_sha256
  log_buffer buffer len tag log =
      let view = take len buffer in log_packet view (compute_sha256 view) tag log

  unfoldable pub log_and_verify : List ℕ → List ℕ → List ℕ → List (List ℕ) → List (List ℕ)
  unfolding log_packet log_anomaly compute_sha256
  log_and_verify line parsed_repr tag log =
      let original_hash = compute_sha256 line in
      let parsed_hash = compute_sha256 parsed_repr in
      let logged = log_packet line original_hash tag log in
      if not (same original_hash parsed_hash)
      then log_anomaly original_hash parsed_hash tag logged
      else logged

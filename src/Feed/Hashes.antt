-- ===== src/Feed/Hashes.antt =====
-- What `run` of feed/CSVFeedSource.hpp and of feed/FeedInjector.hpp logs for an order: the hash of its
-- line is compared with the hash of the order, printed.
use chrono_trade.Common.{ℕ, ◌≡◌, not, List, [], ◌∷◌, ◌++◌, arith, if◌then◌else◌}
use chrono_trade.Core.Order.{Order}
use chrono_trade.Security.FeedHashLogger.{
  same, compute_sha256, packet_line, log_packet, anomaly_line, log_anomaly,
}

-- The hash function, `to_string` of an order, and the tag of the source.
pub record Hashing (W : Type 0) : Type 0 where
  pub sha256 : List ℕ → List ℕ
  pub to_string : Order W → List ℕ
  pub source_tag : List ℕ

module _ {W : Type 0} (hashing : Hashing W) where
  abbrev pub compare_hashes : List ℕ → Order W → List (List ℕ) → List (List ℕ)
  compare_hashes line order log =
      let original_hash = compute_sha256 hashing.sha256 line in
      let parsed_hash = compute_sha256 hashing.sha256 (hashing.to_string order) in
      if not (same original_hash parsed_hash)
      then log_anomaly original_hash parsed_hash hashing.source_tag log
      else log_packet line original_hash hashing.source_tag log

  -- A line in the hash log: a packet where the hashes agree, an anomaly where they do not.
  abbrev pub entry_of : List ℕ × Order W → List ℕ
  entry_of (line, order) =
      let original_hash = compute_sha256 hashing.sha256 line in
      let parsed_hash = compute_sha256 hashing.sha256 (hashing.to_string order) in
      if same original_hash parsed_hash
      then packet_line line original_hash hashing.source_tag
      else anomaly_line original_hash parsed_hash hashing.source_tag

  pub compare_hashes-entry_of :
      (line : List ℕ) (order : Order W) (log : List (List ℕ))
      → compare_hashes line order log ≡ log ++ (entry_of (line, order) ∷ [])
  unfolding log_packet log_anomaly
  compare_hashes-entry_of line order log = ground arith

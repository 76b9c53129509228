-- ===== src/Security/FeedHashLogger/Logged.antt =====
-- What `log_and_verify` writes.
use chrono_trade.Common.{
  ℕ, ◌<◌, ◌≡◌, ◌≢◌, inl, inr, refl, sym, ◌∙◌, true, false, List, [], ◌∷◌, ◌++◌, All, append_assoc,
  Bool-cases,
}
use chrono_trade.Security.FeedHashLogger.{
  same, to_hex, compute_sha256, packet_line, log_packet, anomaly_line, log_anomaly, log_and_verify,
}
use chrono_trade.Security.FeedHashLogger.Hex.{same-to_hex}

-- The lines that are added: the packet's, and behind it that of an anomaly if the hashes differ.
pub record Verified (sha256 : List ℕ → List ℕ) (line parsed_repr tag : List ℕ)
    (log after : List (List ℕ)) : Type 0 where
  pub agrees :
      sha256 line ≡ sha256 parsed_repr
      → after ≡ log ++ (packet_line line (compute_sha256 sha256 line) tag ∷ [])
  pub differs :
      sha256 line ≢ sha256 parsed_repr
      → after
        ≡ log
          ++ (packet_line line (compute_sha256 sha256 line) tag
              ∷ anomaly_line (compute_sha256 sha256 line) (compute_sha256 sha256 parsed_repr) tag
              ∷ [])

-- A line is always logged with its hash, and an anomaly behind it exactly when the hash of what was
-- parsed is another, if hashes consist of bytes; what was logged before stays.
pub log_and_verify-Verified :
    (sha256 : List ℕ → List ℕ) (are_bytes : (text : List ℕ) → All (λ b. b < 256) (sha256 text))
    (line parsed_repr tag : List ℕ) (log : List (List ℕ))
    → Verified sha256 line parsed_repr tag log (log_and_verify sha256 line parsed_repr tag log)
unfolding log_and_verify log_packet log_anomaly compute_sha256
log_and_verify-Verified sha256 are_bytes line parsed_repr tag log =
    let exact =
      same-to_hex (sha256 line) (sha256 parsed_repr) (are_bytes line) (are_bytes parsed_repr) in
    elim (Bool-cases (same (to_hex (sha256 line)) (to_hex (sha256 parsed_repr)))) [
      | inl e ↦ record { agrees = λ s. rw e refl; differs = λ d. absurd (d (exact.0 e)) }
      | inr e ↦ record {
        agrees = λ s. absurd (clash (sym (exact.1 s) ∙ e));
        differs = λ d. rw e (append_assoc log _ _);
      }
    ]
  where
    clash : true ≡ false → ⊥
    clash e = cc

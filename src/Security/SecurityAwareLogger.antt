-- ===== src/Security/SecurityAwareLogger.antt =====
-- security/SecurityAwareLogger.hpp: `log` takes a sequence number, and later writes a line under the
-- mutex; threads interleave between the two. `sha256` is the hash of OpenSSL in hexadecimal digits.
-- The message is taken as `std::vformat` makes it; the sequence number, 64 bits, is unbounded.
pub mod Numbered
use chrono_trade.Common.{
  ℕ, zero, suc, ◌+◌, ◌≡◌, Bool, true, false, Option, none, some, List, [], ◌∷◌, ◌++◌, get_elem?,
  remove_at,
}
use chrono_trade.Feed.Text.{bytes}

pub data Level : Type 0 where
  info warn error : Level

abbrev pub level_to_string : Level → List ℕ
level_to_string info = bytes "INFO"
level_to_string warn = bytes "WARN"
level_to_string error = bytes "ERROR"

-- A call between its two steps: the number that it took, the time, the thread and its message.
pub record Entry : Type 0 where
  pub seq : ℕ
  pub ms : ℕ
  pub tid : ℕ
  pub level : Level
  pub message : List ℕ

-- `print` is `operator<<` for an unsigned number.
module _ (print : ℕ → List ℕ) (sha256 : List ℕ → List ℕ) where
  -- `static_cast<int>(level)`
  abbrev pub level_number : Level → ℕ
  level_number info = 0
  level_number warn = 1
  level_number error = 2

  abbrev pub meta : Entry → List ℕ
  meta e =
      print e.seq
      ++ (b'|'
          ∷ (print e.ms
              ++ (b'|'
                  ∷ (print e.tid
                      ++ (b'|' ∷ (print (level_number e.level) ++ (b'|' ∷ e.message)))))))

  abbrev pub line : Entry → List ℕ
  line e =
      b'['
      ∷ (level_to_string e.level
          ++ (bytes "] "
              ++ (e.message
                  ++ (bytes " seq=" ++ (print e.seq ++ (bytes " hash=" ++ sha256 (meta e)))))))

-- The logger: `sequence_`, the calls that have their number and not yet their line, and those whose
-- line is written, in the order of the lines.
pub record Logger : Type 0 where
  pub sequence : ℕ
  pub pending : List Entry
  pub written : List Entry

abbrev pub new_logger : Logger
new_logger = record { sequence = 0; pending = []; written = [] }

-- `fetch_add`, and what the line will hold.
abbrev pub take_number : Logger → ℕ → ℕ → Level → List ℕ → Logger
take_number l ms tid level message = record l {
  sequence = l.sequence + 1;
  pending =
      record { seq = l.sequence; ms = ms; tid = tid; level = level; message = message } ∷ l.pending;
}

-- The line of the i-th pending call.
abbrev pub write_line : Logger → ℕ → Entry → Logger
write_line l i e = record l { pending = remove_at l.pending i; written = l.written ++ (e ∷ []) }

pub data Step (l : Logger) : Logger → Type 0 where
  takes :
      (ms tid : ℕ) (level : Level) (message : List ℕ) → Step l (take_number l ms tid level message)
  writes : (i : ℕ) (e : Entry) → get_elem? l.pending i ≡ some e → Step l (write_line l i e)

pub data Runs (l : Logger) : Logger → Type 0 where
  start : Runs l l
  next : {m n : Logger} → Runs l m → Step m n → Runs l n

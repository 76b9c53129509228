-- ===== src/Feed/TcpLatencyProxy/Send/Prefix.antt =====
-- What is on the wire after a call.
use chrono_trade.Common.{
  ℕ, ◌≤◌, ◌<◌, ◌≡◌, ◌≢◌, refl, sym, ◌∙◌, ap, Bool, Option, none, some, List, [], ◌∷◌, ◌++◌, length,
  take, drop, take-append-drop, append_assoc, append-nil, arith, ◌==◌, Bool-cases, inl, inr,
}
use chrono_trade.Feed.TcpLatencyProxy.Throttle.{Bucket}
use chrono_trade.Feed.TcpLatencyProxy.Send.{
  Attempt, Stop, done, waiting, no_fuel, success, would_block, error, closed, Sent, Step, took,
  returns, retry, of_answer, next_slice, pay, send_loop, SendResult, sent_at, Answer, accepted,
  interrupted, failed, again, timed_out, hung_up, not_writable, writable, peer_gone, other_error,
}

-- A result but success leaves bytes; success leaves none.
abbrev pub Agrees : Stop → List ℕ → Type 0
Agrees (done success) left = left ≡ []
Agrees (done would_block) left = left ≢ []
Agrees (done error) left = left ≢ []
Agrees (done closed) left = left ≢ []
Agrees waiting left = Unit
Agrees no_fuel left = ⊥

-- What holds of a call that began with `text` and `wire` and a script.
pub record Keeps (text wire : List ℕ) (script : List Attempt) (s : Sent) : Type 0 where
  pub sent : List ℕ
  pub grows : s.wire ≡ wire ++ sent
  pub whole : sent ++ s.left ≡ text
  pub agrees : Agrees s.stop s.left
  pub shorter : length s.script ≤ length script
  pub uses_up : s.stop ≡ done would_block → length s.script < length script

-- A result that no attempt gives is not success.
abbrev IsAnswer : Step → Type 0
IsAnswer (took n) = Unit
IsAnswer (returns success) = ⊥
IsAnswer (returns would_block) = Unit
IsAnswer (returns error) = Unit
IsAnswer (returns closed) = Unit
IsAnswer retry = Unit

longer :
    (a : Attempt) (script : List Attempt) (text text' wire wire' p : List ℕ) (s : Sent)
    → wire' ≡ wire ++ p
    → p ++ text' ≡ text
    → Keeps text' wire' script s
    → Keeps text wire (a ∷ script) s
longer a script text text' wire wire' p s e f k = record {
  sent = p ++ k.sent;
  grows = k.grows ∙ ap (λ w. w ++ k.sent) e ∙ append_assoc wire p k.sent;
  whole = append_assoc p k.sent s.left ∙ ap (λ t. p ++ t) k.whole ∙ f;
  agrees = k.agrees;
  shorter = omega (arith, k.shorter);
  uses_up = λ h. omega (arith, k.shorter);
}

returned :
    (r : SendResult) (a : Attempt) (script : List Attempt) (x : ℕ) (xs wire : List ℕ)
    (limit : Option Bucket)
    → IsAnswer (returns r)
    → Keeps (x ∷ xs) wire (a ∷ script) (sent_at (done r) (x ∷ xs) wire limit script)
returned r a script x xs wire limit h = record {
  sent = [];
  grows = sym (append-nil wire);
  whole = refl;
  agrees = go r h;
  shorter = omega arith;
  uses_up = λ e. omega arith;
}
  where
    go : (r : SendResult) → IsAnswer (returns r) → Agrees (done r) (x ∷ xs)
    go would_block h = λ e. cc
    go error h = λ e. cc
    go closed h = λ e. cc
    go success h = elim h [ ]

of_answer-IsAnswer : (slice : ℕ) (a : Answer) → IsAnswer (of_answer slice a)
of_answer-IsAnswer slice (accepted n) = tt
of_answer-IsAnswer slice interrupted = tt
of_answer-IsAnswer slice (failed peer_gone) = tt
of_answer-IsAnswer slice (failed other_error) = tt
of_answer-IsAnswer slice (again timed_out) = tt
of_answer-IsAnswer slice (again hung_up) = tt
of_answer-IsAnswer slice (again not_writable) = tt
of_answer-IsAnswer slice (again (writable none)) = tt
of_answer-IsAnswer slice (again (writable (some peer_gone))) = tt
of_answer-IsAnswer slice (again (writable (some other_error))) = tt

-- One attempt, if the rounds after it keep what they should.
module _ (a : Attempt) (script : List Attempt) (small : Bool) (x : ℕ) (xs wire : List ℕ)
    (next : (text : List ℕ) (limit : Option Bucket) (wire : List ℕ)
      → Keeps text wire script (send_loop script small text limit wire)) where
  again_round :
      (asked : Option Bucket)
      → Keeps (x ∷ xs) wire (a ∷ script) (send_loop script small (x ∷ xs) asked wire)
  again_round asked =
      longer a script (x ∷ xs) (x ∷ xs) wire wire [] _ (sym (append-nil wire)) refl
        (next (x ∷ xs) asked wire)

  paid_for :
      (asked : Option Bucket) (n : ℕ) (p : Option (Option Bucket))
      → Keeps (x ∷ xs) wire (a ∷ script) (elim p [
        | none ↦ sent_at waiting (drop n (x ∷ xs)) (wire ++ take n (x ∷ xs)) asked script
        | some paid ↦ send_loop script small (drop n (x ∷ xs)) paid (wire ++ take n (x ∷ xs))
      ])
  paid_for asked n none = record {
    sent = take n (x ∷ xs);
    grows = refl;
    whole = take-append-drop n (x ∷ xs);
    agrees = tt;
    shorter = omega arith;
    uses_up = λ e. absurd (ground arith);
  }
  paid_for asked n (some paid) =
      longer a script (x ∷ xs) (drop n (x ∷ xs)) wire (wire ++ take n (x ∷ xs)) (take n (x ∷ xs)) _
        refl (take-append-drop n (x ∷ xs)) (next (drop n (x ∷ xs)) paid (wire ++ take n (x ∷ xs)))

  attempt-Keeps :
      (asked : Option Bucket) (step : Step)
      → IsAnswer step
      → Keeps (x ∷ xs) wire (a ∷ script) (elim step [
        | retry ↦ send_loop script small (x ∷ xs) asked wire
        | returns r ↦ sent_at (done r) (x ∷ xs) wire asked script
        | took n ↦ elim (pay n a.readings asked) [
          | none ↦ sent_at waiting (drop n (x ∷ xs)) (wire ++ take n (x ∷ xs)) asked script
          | some paid ↦ send_loop script small (drop n (x ∷ xs)) paid (wire ++ take n (x ∷ xs))
        ]
      ])
  attempt-Keeps asked (took n) h = paid_for asked n (pay n a.readings asked)
  attempt-Keeps asked (returns r) h = returned r a script x xs wire asked h
  attempt-Keeps asked retry h = again_round asked

-- What the kernel took, in order, followed by what is left is the message; success leaves nothing, and
-- every other result leaves something.
pub send_loop-Keeps :
    (script : List Attempt) (small : Bool) (text : List ℕ) (limit : Option Bucket) (wire : List ℕ)
    → Keeps text wire script (send_loop script small text limit wire)
unfolding send_loop
send_loop-Keeps [] small [] limit wire = record {
  sent = [];
  grows = sym (append-nil wire);
  whole = refl;
  agrees = refl;
  shorter = omega arith;
  uses_up = λ e. absurd (ground arith);
}
send_loop-Keeps (a ∷ script) small [] limit wire = record {
  sent = [];
  grows = sym (append-nil wire);
  whole = refl;
  agrees = refl;
  shorter = omega arith;
  uses_up = λ e. absurd (ground arith);
}
send_loop-Keeps [] small (x ∷ xs) limit wire = record {
  sent = [];
  grows = sym (append-nil wire);
  whole = refl;
  agrees = tt;
  shorter = omega arith;
  uses_up = λ e. absurd (ground arith);
}
send_loop-Keeps (a ∷ script) small (x ∷ xs) limit wire =
    let (slice, asked) = next_slice small (length (x ∷ xs)) a.now limit in
    elim (Bool-cases (slice == 0)) [
      | inl e ↦
          rw (send_loop, e)
            (again_round a script small x xs wire (send_loop-Keeps script small) asked)
      | inr e ↦
          rw (send_loop, e)
            (attempt-Keeps a script small x xs wire (send_loop-Keeps script small) asked
              (of_answer slice a.answer) (of_answer-IsAnswer slice a.answer))
    ]

-- ===== src/Control/Module/Tracking.antt =====
-- The bounds that internal/control/module.go keeps: the tracked commands and the pauses of its loop.
use monitoreoedgeis.Prelude.{ℕ, ◌≡◌, ◌≤◌, some, String, List, [], ◌∷◌, arith, length, ◌⊎◌}
use monitoreoedgeis.Prelude.Map.{Map, delete}
use monitoreoedgeis.Control.Module.{
  Module, Outcome, trim, tracking_bound, track_executed, ClaimError, canceled, unauthorized,
  other_error, rate_limited, Pace, after_error, max_backoff, auth_backoff, grow,
}

module _ {V : Type 0} where
  length-trim :
      (bound : ℕ) (m : Map (Outcome V)) (order : List String)
      → length (trim bound m order).1 ≤ bound
  unfolding trim
  length-trim bound m [] = omega arith
  length-trim bound m (x ∷ order) = ground (arith, length-trim bound (delete x m) order)

-- Tracking a command keeps at most as many ids as the larger of 256 and the ledger's bound.
pub length-track_executed :
    {W V : Type 0} (m : Module W V) (id : String) (exec : Outcome V)
    → length (track_executed m id exec).executed_order ≤ tracking_bound m.ledger
unfolding track_executed
length-track_executed m id exec = length-trim (tracking_bound m.ledger) _ _

-- A backoff of the poll loop: the poll interval, or less than the one minute it grows to.
abbrev pub IsPaced : ℕ → ℕ → Type 0
IsPaced interval b = (b ≤ interval) ⊎ (b ≤ max_backoff)

-- After an error that does not end the loop, the next pause is the poll interval at most, or one
-- minute at most, or the five minutes of a refused credential, or the retry time of the server; the
-- backoff that is kept stays within the interval or one minute.
pub after_error_bounds :
    (interval : ℕ) (p q : Pace) (e : ClaimError)
    → IsPaced interval p.backoff
    → after_error interval p e ≡ some q
    → (IsPaced interval q.wait
        ⊎ ((e ≡ unauthorized) × (q.wait ≡ auth_backoff))
        ⊎ (e ≡ rate_limited q.wait))
      × IsPaced interval q.backoff
unfolding after_error grow
after_error_bounds interval p q canceled h r = ground arith
after_error_bounds interval p q unauthorized h r = ground arith
after_error_bounds interval p q (rate_limited server) h r = ground arith
after_error_bounds interval p q other_error h r = ground arith

-- ===== src/Control/Module/Tests.antt =====
-- Runs of the command module over an executor that counts its calls, and the theorems at such inputs.
use monitoreoedgeis.Prelude.{
  ℕ, ◌≡◌, ◌≤◌, ◌⊎◌, ◌+◌, refl, inr, none, some, [], ◌∷◌, arith, ok, length,
}
use monitoreoedgeis.Prelude.Map.{lookup, insert, contains}
use monitoreoedgeis.Durable.{Disk, SaveError, read_back, save, save_steps, attempt, make_dir}
use monitoreoedgeis.Control.Ledger.{
  Ledger, Execution, get, begin, complete, stamped, status_executing, put, prune, save_locked,
  open_ledger, existing_ids, append_missing,
}
use monitoreoedgeis.Control.Ledger.Bounds.{IsValid, ledger-IsValid}
use monitoreoedgeis.Control.Ledger.Reads.{get-begin-complete, get-open_ledger-begin, IsReady}
use monitoreoedgeis.Control.Module.{
  Module, Environment, Command, Outcome, done, failed_with, indeterminate, execute, recorded,
  run_command, check_ledger, check_executed, begin_command, dispatch, finish, audit_append,
  audit_outcome, track_executed, trim, tracking_bound, from_error, Pace, other_error, after_error,
  grow, unauthorized, rate_limited, auth_backoff,
}
use monitoreoedgeis.Control.Module.Duplicates.{execute-after_crash}
use monitoreoedgeis.Control.Module.Repeats.{deliveries, execute-deliveries}
use monitoreoedgeis.Control.Module.Tracking.{after_error_bounds, IsPaced}

-- The world counts the calls of `rediscover`; results are numbers.
abbrev working : Disk
working = λ n step. none

abbrev full : Disk
full = λ n step. some "no space left"

abbrev on_disk : Disk → Environment ℕ ℕ
on_disk d = record {
  executor = record {
    status = λ w. w;
    rediscover = λ w. (w + 1, none);
    reload_config = λ w. (w, some "bad file");
  };
  empty_result = 0;
  disk = d;
  now = λ n. "2026-01-01T00:00:00Z";
}

abbrev empty_ledger : Ledger ℕ
empty_ledger = record {
  max_entries = 2;
  commands = [];
  order = [];
  file = record { content = none; saves = 0 };
}

abbrev command : Command
command = record { id = "c1"; command_type = "rediscovery"; payload_len = 0 }

abbrev over : Ledger ℕ → Module ℕ ℕ
over l = record { ledger = some l; world = 7; audit = some []; executed = []; executed_order = [] }

empty-IsValid : IsValid empty_ledger
unfolding contains lookup
empty-IsValid = record { distinct = tt; agree = λ id. refl }

empty-IsReady : IsReady empty_ledger
empty-IsReady = record { valid = empty-IsValid; positive = omega arith; bounded = omega arith }

abbrev finished : Execution ℕ
finished = record { status = "succeeded"; result = some 0; error_code = ""; completed_at = "" }

ledger-IsValid_example :
    IsValid (begin working "t" empty_ledger "c1").0
    × (length (begin working "t" empty_ledger "c1").0.order
        ≤ (begin working "t" empty_ledger "c1").0.max_entries)
    × IsValid (complete working "t" empty_ledger "c1" finished).0
    × (length (complete working "t" empty_ledger "c1" finished).0.order
        ≤ (complete working "t" empty_ledger "c1" finished).0.max_entries)
ledger-IsValid_example = ledger-IsValid working "t" empty_ledger "c1" finished empty-IsValid

abbrev under_way : Execution ℕ
under_way = record { status = status_executing; result = none; error_code = ""; completed_at = "t" }

get-begin-complete_example :
    (get (begin working "t" empty_ledger "c1").0 "c1" ≡ some under_way)
    × (get (complete working "t" empty_ledger "c1" finished).0 "c1" ≡ some (stamped "t" finished))
get-begin-complete_example =
    get-begin-complete working "t" empty_ledger "c1" finished empty-IsValid (omega arith)
      (omega arith)

-- The file that `Begin` leaves, opened again.
abbrev reopened : Ledger ℕ
reopened = record {
  max_entries = 2;
  commands = ("c1", under_way) ∷ [];
  order = "c1" ∷ [];
  file = (begin working "t" empty_ledger "c1").0.file;
}

reopens :
    open_ledger
      (begin working "t" empty_ledger "c1").0.file
      (read_back (begin working "t" empty_ledger "c1").0.file)
      ("c1" ∷ [])
      2
    ≡ ok reopened
unfolding open_ledger begin save_locked prune put save save_steps attempt existing_ids
    append_missing lookup insert contains
reopens = refl

saves : (begin working "t" empty_ledger "c1").1 ≡ none
unfolding begin save_locked save save_steps attempt
saves = refl

get-open_ledger-begin_example : get reopened "c1" ≡ some under_way
get-open_ledger-begin_example =
    get-open_ledger-begin working "t" empty_ledger reopened "c1" ("c1" ∷ []) 2 empty-IsValid
      (omega arith) (omega arith) saves reopens

abbrev no_space : SaveError
no_space = record { step = make_dir; cause = "no space left" }

execute-after_crash_example :
    let (m', reply) = execute (on_disk working) (over reopened) command in
    (reply ≡ done (failed_with indeterminate)) × (m'.world ≡ 7)
execute-after_crash_example =
    execute-after_crash (on_disk working) (over reopened) command empty_ledger reopened "t"
      ("c1" ∷ []) 2 refl empty-IsValid (omega arith) (omega arith) saves reopens refl

abbrev rediscovered : Outcome ℕ
rediscovered = record { status = "succeeded"; result = some 0; error_code = "" }

rediscovers : (execute (on_disk working) (over empty_ledger) command).1 ≡ done rediscovered
unfolding execute recorded get lookup insert check_ledger check_executed begin_command begin
    save_locked save save_steps attempt prune put dispatch track_executed trim tracking_bound
    run_command from_error audit_outcome audit_append finish complete stamped
rediscovers = refl

execute-deliveries_example :
    let m' = (execute (on_disk working) (over empty_ledger) command).0 in
    let again = deliveries (on_disk working) 3 command m' in
    ((execute (on_disk working) again command).1 ≡ done rediscovered)
    × ((execute (on_disk working) again command).0.world ≡ m'.world)
execute-deliveries_example =
    execute-deliveries (on_disk working) 3 (over empty_ledger) empty_ledger command rediscovered
      refl refl empty-IsReady rediscovers

abbrev paced : Pace
paced = record { wait = 40_000_000_000; backoff = 40_000_000_000 }

abbrev slower : Pace
slower = record { wait = 60_000_000_000; backoff = 60_000_000_000 }

after_error_bounds_example :
    (IsPaced 5_000_000_000 slower.wait
      ⊎ ((other_error ≡ unauthorized) × (slower.wait ≡ auth_backoff))
      ⊎ (other_error ≡ rate_limited slower.wait))
    × IsPaced 5_000_000_000 slower.backoff
unfolding after_error grow
after_error_bounds_example =
    after_error_bounds 5_000_000_000 paced slower other_error (inr (omega arith)) refl

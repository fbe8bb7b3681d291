-- ===== src/EdgeBacklog/Submit.antt =====
-- internal/edgebacklog/backlog.go: `Enqueue`.
use Prim.Native.String.{◌++◌ as ◌++ₛ◌}
use monitoreoedgeis.Prelude.{
  ℕ, suc, ◌+◌, ◌%◌, ◌^◌, Bool, false, not, ◌||◌, Option, none, some, option_or, String, str_eq,
  List, [], ◌∷◌, ◌++◌, length, ltb, if◌then◌else◌, Result, ok, err,
}
use monitoreoedgeis.Prelude.Int.{ℤ, pos, ltb_ℤ, eqb_ℤ, add_int64}
use monitoreoedgeis.Prelude.Map.{Map, lookup, insert}
use monitoreoedgeis.EdgeBacklog.{
  Evidence, Submission, Record, Backlog, Fault, Fs, pending_bytes, submission_bytes,
  submissions_equivalent,
}
use monitoreoedgeis.EdgeBacklog.Files.{record_persist_failure, write_locked}
use monitoreoedgeis.EdgeBacklog.Inactive.{has_pending, persist_inactive}

-- What one operation finds around it: the file operations, `json.Marshal`, `os.Stat` (the size or the
-- error's text) and the comparison of floats and untyped values.
pub record Environment (G : Type 0) : Type 0 where
  pub fs : Fs
  pub marshal : Record G → Option Fault
  pub marshal_state : Map (ℕ × ℕ) → Option Fault
  pub stat : String → Result String ℤ
  pub same : G → G → Bool

pub data EnqueueError : Type 0 where
  missing_fields full : EnqueueError
  invalid_evidence conflict camera_inactive : String → EnqueueError
  write_error : Fault → EnqueueError

module _ {G : Type 0} where
  unfoldable pub find_event : String → List (Record G) → Option (Record G)
  find_event uuid [] = none
  find_event uuid (r ∷ q) =
      if str_eq r.submission.event.event_uuid uuid then some r else find_event uuid q

  -- Sequence numbers are uint64.
  unfoldable pub new_record : ℕ → Backlog G → Submission G → Option ℕ → Record G
  new_record now b s probe = record {
    sequence = (b.counter + 1) % 2 ^ 64;
    created_at = now;
    stage = "metadata";
    submission = s;
    attempts = 0;
    next_attempt = 0;
    inactive_since = probe;
  }

  unfoldable pub over_bound : Backlog G → Submission G → Bool
  over_bound b s =
      not (ltb (length b.queue) b.cfg.max_operations)
      || ltb_ℤ b.cfg.max_bytes (add_int64 (pending_bytes b.queue) (submission_bytes s))

module _ {G : Type 0} (env : Environment G) where
  -- `validateEvidence`, with the text of its error.
  unfoldable pub validate_evidence : Option Evidence → Option String
  validate_evidence none = some "edgebacklog: invalid evidence reference"
  validate_evidence (some e) =
      if str_eq e.path "" || str_eq e.sha256 "" || ltb_ℤ e.size (pos 0)
      then some "edgebacklog: invalid evidence reference"
      else elim (env.stat e.path) [
        | err cause ↦ some ("edgebacklog: evidence: " ++ₛ cause)
        | ok size ↦ if eqb_ℤ size e.size then none else some "edgebacklog: evidence size changed"
      ]

  unfoldable pub evidence_problem : Option Evidence → Option EnqueueError → Option EnqueueError
  unfolding validate_evidence
  evidence_problem none rest = rest
  evidence_problem (some e) rest = elim (validate_evidence (some e)) [
    | some text ↦ some (invalid_evidence text)
    | none ↦ rest
  ]

  -- The checks that `Enqueue` makes before it takes the lock.
  unfoldable pub problem_of : Submission G → Option EnqueueError
  unfolding evidence_problem
  problem_of s =
      if str_eq s.event.event_uuid ""
        || str_eq s.event.candidate_key ""
        || str_eq s.event.timestamp ""
      then some missing_fields
      else evidence_problem s.capture (evidence_problem s.clip none)

  -- A probe that was queued starts the camera's pause.
  unfoldable pub note_probe : ℕ → String → Option ℕ → Backlog G → Backlog G
  note_probe now key none b = b
  note_probe now key (some _) b =
      persist_inactive env.fs env.marshal_state
        (record b { inactive_probe_at = insert key now b.inactive_probe_at })

  unfoldable pub after_write :
      ℕ → Record G → Backlog G → Option Fault → Backlog G × Option EnqueueError
  unfolding note_probe
  after_write now r b (some f) = (record_persist_failure b f, some (write_error f))
  after_write now r b none = (
    note_probe now r.submission.event.candidate_key r.inactive_since
        (record b { disk_full = false; queue = b.queue ++ (r ∷ []) }),
    none,
  )

  unfoldable pub append_record :
      ℕ → Backlog G → Submission G → Option ℕ → Backlog G × Option EnqueueError
  unfolding new_record after_write
  append_record now b s probe =
      let r = new_record now b s probe in
      let (b', problem) = write_locked env.fs env.marshal (record b { counter = r.sequence }) r in
      after_write now r b' problem

  unfoldable pub admit : ℕ → Backlog G → Submission G → Option ℕ → Backlog G × Option EnqueueError
  unfolding append_record over_bound
  admit now b s probe =
      if over_bound b s
      then (record b { drops = suc b.drops }, some full)
      else append_record now b s probe

  -- A camera that is marked inactive, since a time or not.
  unfoldable pub check_camera :
      ℕ → Backlog G → Submission G → Option ℕ → Backlog G × Option EnqueueError
  unfolding admit
  check_camera now b s none = admit now b s none
  check_camera now b s (some since) =
      let key = s.event.candidate_key in
      if has_pending key b.queue
        || ltb now (option_or (lookup key b.inactive_probe_at) 0 + b.cfg.retry_max)
      then (record b { inactive_drops = suc b.inactive_drops }, some (camera_inactive key))
      else admit now b s (some since)

  unfoldable pub check_pending :
      ℕ → Backlog G → Submission G → Option (Record G) → Backlog G × Option EnqueueError
  unfolding check_camera
  check_pending now b s (some r) =
      if submissions_equivalent env.same r.submission s
      then (b, none)
      else (b, some (conflict s.event.event_uuid))
  check_pending now b s none =
      check_camera now b s (lookup s.event.candidate_key b.inactive_candidates)

  -- `Enqueue` at the time `now`.
  unfoldable pub enqueue : ℕ → Backlog G → Submission G → Backlog G × Option EnqueueError
  unfolding problem_of find_event check_pending
  enqueue now b s = elim (problem_of s) [
    | some problem ↦ (b, some problem)
    | none ↦ check_pending now b s (find_event s.event.event_uuid b.queue)
  ]

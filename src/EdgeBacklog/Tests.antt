-- ===== src/EdgeBacklog/Tests.antt =====
-- A backlog with one event, and the theorems about it at such inputs.
use monitoreoedgeis.Prelude.{
  ℕ, ◌+◌, ◌*◌, ◌^◌, ◌≤◌, ◌≡◌, refl, ◌⊎◌, false, none, some, String, List, [], ◌∷◌, ◌++◌, arith,
  ◌==◌, min, ok,
}
use monitoreoedgeis.Prelude.Int.{pos, ltb_ℤ, eqb_ℤ, add_int64}
use monitoreoedgeis.Prelude.Map.{lookup, insert, contains}
use monitoreoedgeis.EdgeBacklog.{
  Event, Submission, Record, Config, Backlog, pending_bytes, bytes_from, submission_bytes, backoff,
  submissions_equivalent, evidence_equivalent,
}
use monitoreoedgeis.EdgeBacklog.Files.{
  write_locked, write_temp, rename_temp, find_file, sort_seqs, insert_sorted,
  enforce_quarantine_bound, evict,
}
use monitoreoedgeis.EdgeBacklog.Inactive.{cap_inactive, cap_marks}
use monitoreoedgeis.EdgeBacklog.Submit.{
  Environment, evidence_problem, validate_evidence, problem_of, find_event, new_record, note_probe,
  after_write, append_record, over_bound, admit, check_camera, check_pending, enqueue,
}
use monitoreoedgeis.EdgeBacklog.Process.{SendError, pick, find_sequence, settle}
use monitoreoedgeis.EdgeBacklog.Capacity.{IsWithin, enqueue-IsWithin, enqueue-stored}
use monitoreoedgeis.EdgeBacklog.Idempotent.{enqueue-twice}
use monitoreoedgeis.EdgeBacklog.Order.{NoneOf, IsDue, pick-first}
use monitoreoedgeis.EdgeBacklog.Retry.{backoff_lem}
use monitoreoedgeis.EdgeBacklog.Sequences.{has}
use monitoreoedgeis.EdgeBacklog.Progress.{MayLeave, settle-loses_none, settle-retries}
use monitoreoedgeis.EdgeBacklog.Start.{
  recover_pending, load_entries, load_entry, load_file, load_record, note_recovered, set_aside,
  sort_records, insert_record, load_inactive, load_marks, mark_earlier, load_quarantine, Entry,
  ignored, temporary, unreadable, file, is_usable, fresh, with_defaults, open_backlog,
}
use monitoreoedgeis.EdgeBacklog.Start.Complete.{usable, open_backlog-has}

abbrev pub limits : Config
limits = record {
  max_operations = 2;
  max_bytes = pos 1000;
  retry_base = 10;
  retry_max = 60;
  inactive_retention = 500;
}

abbrev pub around : Environment ℕ
around = record {
  fs = λ n. none;
  marshal = λ r. none;
  marshal_state = λ m. none;
  stat = λ path. ok (pos 700);
  same = λ a b. a == b;
}

abbrev pub event_of : String → String → Event ℕ
event_of uuid camera = record {
  event_uuid = uuid;
  candidate_key = camera;
  class = "person";
  confidence = 9;
  bbox = 4;
  timestamp = "2026-01-01T00:00:00Z";
  correlation_id = "";
}

abbrev pub first : Submission ℕ
first = record {
  event = event_of "e1" "cam1";
  capture = some (record { path = "/c.jpg"; sha256 = "ab"; size = pos 700; duration_ms = pos 0 });
  clip = none;
}

abbrev pub stored : Record ℕ
stored = record {
  sequence = 1;
  created_at = 5;
  stage = "metadata";
  submission = first;
  attempts = 0;
  next_attempt = 0;
  inactive_since = none;
}

abbrev pub empty : Backlog ℕ
empty = record {
  cfg = limits;
  queue = [];
  counter = 0;
  last_success = none;
  last_error = "";
  degraded = false;
  drops = 0;
  inactive_candidates = [];
  inactive_drops = 0;
  inactive_expired = 0;
  inactive_probe_at = [];
  persist_errors = 0;
  disk_full = false;
  quarantine_evicted = 0;
  quarantine_seqs = [];
  pending = [];
  quarantine = [];
  inactive_file = none;
  operations = 0;
  synced = [];
  refused = [];
}

abbrev pub holding : Backlog ℕ
holding = record empty { queue = stored ∷ []; counter = 1; pending = (1, stored) ∷ [] }

enqueue-IsWithin_example : IsWithin limits (enqueue around 5 empty first).0.queue
unfolding pending_bytes bytes_from
enqueue-IsWithin_example = enqueue-IsWithin around 5 empty first (omega arith, omega arith)

accepts : (enqueue around 5 empty first).1 ≡ none
unfolding enqueue problem_of evidence_problem validate_evidence ltb_ℤ eqb_ℤ find_event check_pending
    lookup check_camera admit over_bound pending_bytes submission_bytes add_int64 append_record
    new_record write_locked write_temp rename_temp after_write note_probe bytes_from
accepts = refl

enqueue-stored_example :
    let c = (enqueue around 5 empty first).0 in
    (r : Record ℕ) × (c.queue ≡ [] ++ (r ∷ []))
    × (find_file r.sequence c.pending ≡ some r)
    × (r.submission ≡ first)
    × (r.stage ≡ "metadata")
unfolding find_event
enqueue-stored_example = enqueue-stored around 5 empty first accepts refl

enqueue-twice_example :
    let c = (enqueue around 5 empty first).0 in enqueue around 8 c first ≡ (c, none)
unfolding problem_of evidence_problem validate_evidence ltb_ℤ eqb_ℤ submissions_equivalent
    evidence_equivalent
enqueue-twice_example = enqueue-twice around around 5 8 empty first refl refl refl accepts

abbrev waiting : Record ℕ
waiting = record stored { sequence = 1; next_attempt = 90 }

abbrev behind : Record ℕ
behind = record stored { sequence = 2 }

abbrev elsewhere : Record ℕ
elsewhere = record stored {
  sequence = 3;
  submission = record first { event = event_of "e3" "cam2" };
}

pick-first_example :
    (before after : List (Record ℕ)) × (waiting ∷ behind ∷ elsewhere ∷ []
      ≡ before ++ (elsewhere ∷ after))
    × NoneOf "cam2" before
    × IsDue 50 elsewhere
unfolding pick contains
pick-first_example = pick-first 50 (waiting ∷ behind ∷ elsewhere ∷ []) elsewhere refl

backoff_lem_example : backoff limits 4 ≡ min 60 (10 * 2 ^ 3)
backoff_lem_example = backoff_lem limits 3

abbrev timeout : SendError
timeout = record {
  invalid_request = false;
  unexpected_status = false;
  unauthorized = false;
  camera_inactive = false;
  retry_after = 0;
  message = "timeout";
}

settle-loses_none_example :
    (has 1 (settle around 50 holding stored (some timeout)).queue ≡ has 1 holding.queue)
    ⊎ ((1 ≡ stored.sequence) × MayLeave 50 holding stored (some timeout))
settle-loses_none_example = settle-loses_none around 50 holding stored (some timeout) 1

settle-retries_example :
    (r' : Record ℕ) × (find_sequence 1 (settle around 50 holding stored (some timeout)).queue
      ≡ some r')
    × (r'.submission ≡ first)
    × (r'.stage ≡ "metadata")
    × (r'.attempts ≡ 1)
    × (r'.next_attempt ≤ 50 + limits.retry_max)
unfolding find_sequence
settle-retries_example = settle-retries around 50 holding stored timeout refl refl refl

abbrev marked : Backlog ℕ
marked = record holding { inactive_candidates = ("cam1", 3) ∷ ("cam2", 9) ∷ [] }

abbrev directory : List (Entry ℕ)
directory =
    file "3.json" (some elsewhere)
    ∷ temporary
    ∷ file "2.json" none
    ∷ unreadable
    ∷ file "1.json" (some stored)
    ∷ ignored
    ∷ []

abbrev found : Backlog ℕ
found = record (fresh limits) {
  queue = stored ∷ elsewhere ∷ [];
  counter = 3;
  pending = (3, elsewhere) ∷ (1, stored) ∷ [];
  inactive_file = some (("cam1", (3, 0)) ∷ []);
  inactive_candidates = ("cam1", 3) ∷ [];
  quarantine_seqs = 7 ∷ [];
  operations = 2;
}

opens : open_backlog around.fs limits directory (some (("cam1", (3, 0)) ∷ [])) (7 ∷ []) ≡ ok found
unfolding open_backlog with_defaults fresh recover_pending load_entries load_entry load_file
    is_usable load_record note_recovered set_aside sort_records insert_record load_inactive
    load_marks mark_earlier cap_inactive cap_marks load_quarantine sort_seqs insert_sorted
    enforce_quarantine_bound evict lookup insert ltb_ℤ
opens = refl

open_backlog-has_example : has 3 found.queue ≡ has 3 (usable directory)
open_backlog-has_example =
    open_backlog-has around.fs limits directory (some (("cam1", (3, 0)) ∷ [])) (7 ∷ []) found 3
      opens

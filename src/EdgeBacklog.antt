-- ===== src/EdgeBacklog.antt =====
-- internal/edgebacklog/backlog.go: the durable queue of local events that wait for the SaaS.
pub mod Files
pub mod Inactive
pub mod Submit
pub mod Process
pub mod Capacity
pub mod Idempotent
pub mod Order
pub mod Retry
pub mod Sequences
pub mod Progress
pub mod Bounds
pub mod Start
pub mod Synced
pub mod Drain
mod Tests
use monitoreoedgeis.Prelude.{
  ℕ, ◌+◌, ◌*◌, suc, zero, Bool, true, false, not, ◌&&◌, Option, none, some, String, str_eq, List,
  [], ◌∷◌, ◌++◌, length, ltb, leb, ◌==◌, if◌then◌else◌, is_some,
}
use monitoreoedgeis.Prelude.Int.{ℤ, pos, negsuc, ltb_ℤ, eqb_ℤ, add_int64}
use monitoreoedgeis.Prelude.Map.{Map}
use Prim.Native.String.{len, slice}

-- Times are nanoseconds since Go's zero time, which is 0; durations are nanoseconds.
pub record Evidence : Type 0 where
  pub path : String
  pub sha256 : String
  pub size : ℤ
  pub duration_ms : ℤ

-- `transport.LocalEvent`; `G` holds the floats and the untyped values.
pub record Event (G : Type 0) : Type 0 where
  pub event_uuid : String
  pub candidate_key : String
  pub class : String
  pub confidence : G
  pub bbox : G
  pub timestamp : String
  pub correlation_id : String

pub record Submission (G : Type 0) : Type 0 where
  pub event : Event G
  pub capture : Option Evidence
  pub clip : Option Evidence

-- `record`; `NextAttempt` is 0 where it is not set.
pub record Record (G : Type 0) : Type 0 where
  pub sequence : ℕ
  pub created_at : ℕ
  pub stage : String
  pub submission : Submission G
  pub attempts : ℕ
  pub next_attempt : ℕ
  pub inactive_since : Option ℕ

pub record Config : Type 0 where
  pub max_operations : ℕ
  pub max_bytes : ℤ
  pub retry_base : ℕ
  pub retry_max : ℕ
  pub inactive_retention : ℕ

-- A failed file operation: `os.IsNotExist`, `platform.IsDiskFull` and the message.
pub record Fault : Type 0 where
  pub not_exist : Bool
  pub disk_full : Bool
  pub message : String

-- The outcome of the n-th file operation.
abbrev pub Fs : Type 0
Fs = ℕ → Option Fault

-- The `Backlog`, with the directories pending/ and quarantine/ as sequence and content, the content of
-- inactive.json (first mark and last probe), and the events handed to the two callbacks, newest first.
pub record Backlog (G : Type 0) : Type 0 where
  pub cfg : Config
  pub queue : List (Record G)
  pub counter : ℕ
  pub last_success : Option ℕ
  pub last_error : String
  pub degraded : Bool
  pub drops : ℕ
  pub inactive_candidates : Map ℕ
  pub inactive_drops : ℕ
  pub inactive_expired : ℕ
  pub inactive_probe_at : Map ℕ
  pub persist_errors : ℕ
  pub disk_full : Bool
  pub quarantine_evicted : ℕ
  pub quarantine_seqs : List ℕ
  pub pending : List (ℕ × Record G)
  pub quarantine : List (ℕ × Record G)
  pub inactive_file : Option (Map (ℕ × ℕ))
  pub operations : ℕ  -- file operations so far
  pub synced : List String
  pub refused : List (String × String)

abbrev max_error_bytes : ℕ
max_error_bytes = 255

pub bounded_error : String → String
bounded_error msg = if ltb max_error_bytes (len msg) then slice msg 0 max_error_bytes else msg

abbrev size_of : Option Evidence → ℤ
size_of none = pos 0
size_of (some e) = e.size

module _ {G : Type 0} where
  unfoldable pub submission_bytes : Submission G → ℤ
  submission_bytes s = add_int64 (add_int64 (pos 0) (size_of s.capture)) (size_of s.clip)

  -- The loop of `pendingBytes`, from the sum so far.
  unfoldable pub bytes_from : ℤ → List (Record G) → ℤ
  unfolding submission_bytes
  bytes_from n [] = n
  bytes_from n (r ∷ q) = bytes_from (add_int64 n (submission_bytes r.submission)) q

  unfoldable pub pending_bytes : List (Record G) → ℤ
  pending_bytes q = bytes_from (pos 0) q

  unfoldable pub next_stage : Submission G → String → String
  next_stage s preferred =
      if str_eq preferred "capture" && is_some s.capture
      then "capture"
      else if is_some s.clip
      then "clip"
      else "complete"

-- The loop of `backoff`, for the attempts that are left.
unfoldable pub double : Config → ℕ → ℕ → ℕ
double cfg zero d = d
double cfg (suc n) d = let again = double cfg n (d * 2) in if ltb d cfg.retry_max then again else d

unfoldable pub backoff : Config → ℕ → ℕ
unfolding double
backoff cfg zero = if ltb cfg.retry_max cfg.retry_base then cfg.retry_max else cfg.retry_base
backoff cfg (suc n) =
    if ltb cfg.retry_max (double cfg n cfg.retry_base)
    then cfg.retry_max
    else double cfg n cfg.retry_base

evidence_equivalent : Option Evidence → Option Evidence → Bool
evidence_equivalent none none = true
evidence_equivalent (some a) (some b) =
    str_eq a.sha256 b.sha256 && eqb_ℤ a.size b.size && eqb_ℤ a.duration_ms b.duration_ms
evidence_equivalent _ _ = false

-- `same` is the comparison of floats and `reflect.DeepEqual`.
pub submissions_equivalent : {G : Type 0} → (G → G → Bool) → Submission G → Submission G → Bool
submissions_equivalent same a b =
    str_eq a.event.event_uuid b.event.event_uuid
    && str_eq a.event.candidate_key b.event.candidate_key
    && str_eq a.event.class b.event.class
    && same a.event.confidence b.event.confidence
    && str_eq a.event.timestamp b.event.timestamp
    && str_eq a.event.correlation_id b.event.correlation_id
    && same a.event.bbox b.event.bbox
    && evidence_equivalent a.capture b.capture
    && evidence_equivalent a.clip b.clip

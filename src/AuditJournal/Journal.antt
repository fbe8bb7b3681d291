-- ===== src/AuditJournal/Journal.antt =====
-- internal/auditjournal/journal.go: the journal that appends to the chain.
use Prim.Native.String.{◌++◌ as ◌++ₛ◌, slice, len}
use monitoreoedgeis.Prelude.{
  ℕ, ◌+◌, ◌-◌, ◌&&◌, ◌==◌, Option, String, str_eq, List, [], ◌∷◌, ◌++◌, leb, if◌then◌else◌, Result,
  ok, err,
}
use monitoreoedgeis.Prelude.Text.{GoString}
use monitoreoedgeis.AuditJournal.Record.{AuditRecord}
use monitoreoedgeis.AuditJournal.Verify.{
  Environment, compute_record_hash, next_sequence, empty, pass, corrupt, truncated_tail,
  FailureReason, VerifyResult, verify_lines,
}

-- A file as its complete lines and what follows the last line end.
pub record File : Type 0 where
  pub lines : List String
  pub tail : String

-- The non-empty lines that a scanner finds.
unfoldable pub non_empty : List String → List String
non_empty [] = []
non_empty (l ∷ lines) = if str_eq l "" then non_empty lines else l ∷ non_empty lines

unfoldable pub scan : File → List String
unfolding non_empty
scan f = non_empty (f.lines ++ (f.tail ∷ []))

pub data Health : Type 0 where
  healthy degraded write_failed : Health

pub record Journal : Type 0 where
  pub file : File
  pub last_hash : String
  pub last_seq : ℕ
  pub health : Health
  pub write_at : String

pub data JournalError : Type 0 where
  hash_failed encode_failed write_error sync_error : String → JournalError
  corrupt_journal : FailureReason → JournalError

-- What `Write` and `Sync` of a line return. A write that fails may have written a part of the line.
pub data WriteOutcome : Type 0 where
  written : WriteOutcome
  write_fails : ℕ → String → WriteOutcome
  sync_fails : String → WriteOutcome

-- A line and its end behind what the file holds.
unfoldable pub write_line : File → String → File
write_line f line = record { lines = f.lines ++ ((f.tail ++ₛ line) ∷ []); tail = "" }

-- The state of a journal that `VerifyFile` has walked over: `recoverState` and `Open`.
unfoldable pub open_verified : File → VerifyResult → Result JournalError Journal
open_verified f v = elim v.status [
  | empty ↦ ok (record {
    file = f;
    last_hash = v.last_hash;
    last_seq = v.last_sequence;
    health = healthy;
    write_at = "";
  })
  | pass ↦ ok (record {
    file = f;
    last_hash = v.last_hash;
    last_seq = v.last_sequence;
    health = healthy;
    write_at = "";
  })
  | truncated_tail ↦ ok (record {
    file = f;
    last_hash = v.last_hash;
    last_seq = v.last_sequence;
    health = degraded;
    write_at = "";
  })
  | corrupt ↦ err (corrupt_journal v.failure_reason)
]

unfoldable pub open_journal : Environment → Option String → File → Result JournalError Journal
unfolding open_verified scan
open_journal env scan_error f = open_verified f (verify_lines env scan_error (scan f))

unfoldable pub fail : Journal → JournalError → Journal × Result JournalError AuditRecord
fail j e = (record j { health = write_failed }, err e)

abbrev max_safe_reason_len : ℕ
max_safe_reason_len = 255

-- `truncate`: the first `max` bytes, which may end in the middle of a rune; `slice` gives whole runes.
unfoldable pub truncate : GoString → ℕ → GoString
truncate s max =
    let text = slice s.text 0 max in
    if leb (len s.text + s.partial) max then s else record { text = text; partial = max - len text }

-- `RedactSafeReason`.
unfoldable pub redact_safe_reason : Environment → GoString → GoString
unfolding truncate
redact_safe_reason env s =
    if str_eq s.text "" && (s.partial == 0)
    then s
    else truncate (env.replace_secret (env.replace_bearer s)) max_safe_reason_len

-- The record with its place in the chain, before it has a hash.
unfoldable pub place : Environment → Journal → AuditRecord → AuditRecord
unfolding redact_safe_reason
place env j rec = record rec {
  schema_version = 1;
  sequence = next_sequence j.last_seq;
  timestamp = env.now;
  safe_reason = redact_safe_reason env rec.safe_reason;
  prev_hash = j.last_hash;
  record_hash = "";
}

unfoldable pub written_line :
    Environment
    → WriteOutcome
    → Journal
    → AuditRecord
    → String
    → Journal × Result JournalError AuditRecord
unfolding fail write_line
written_line env written j rec line = (
  record {
    file = write_line j.file line;
    last_hash = rec.record_hash;
    last_seq = rec.sequence;
    health = healthy;
    write_at = env.now;
  },
  ok rec,
)
written_line env (write_fails n cause) j rec line =
    fail
      (record j { file = record { lines = j.file.lines; tail = j.file.tail ++ₛ slice line 0 n } })
      (write_error cause)
written_line env (sync_fails cause) j rec line =
    fail (record j { file = write_line j.file line }) (sync_error cause)

unfoldable pub encoded :
    Environment
    → WriteOutcome
    → Journal
    → AuditRecord
    → Result String String
    → Journal × Result JournalError AuditRecord
unfolding written_line fail
encoded env w j rec (err e) = fail j (encode_failed e)
encoded env w j rec (ok line) = written_line env w j rec line

unfoldable pub hashed :
    Environment
    → WriteOutcome
    → Journal
    → AuditRecord
    → Result String String
    → Journal × Result JournalError AuditRecord
unfolding encoded fail
hashed env w j rec (err e) = fail j (hash_failed e)
hashed env w j rec (ok hash) =
    let rec' = record rec { record_hash = hash } in encoded env w j rec' (env.encode rec')

-- `Append`.
unfoldable pub append :
    Environment → WriteOutcome → Journal → AuditRecord → Journal × Result JournalError AuditRecord
unfolding place hashed
append env w j rec =
    let rec' = place env j rec in hashed env w j rec' (compute_record_hash env j.last_hash rec')

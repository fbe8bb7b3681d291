-- ===== src/AuditJournal/Verify.antt =====
-- internal/auditjournal/hash.go and verify.go: the hash chain of the journal and the walk over it.
use Prim.Native.String.{◌++◌ as ◌++ₛ◌}
use monitoreoedgeis.Prelude.{
  ℕ, suc, ◌+◌, ◌%◌, ◌^◌, Bool, true, false, not, ◌&&◌, Option, none, some, String, str_eq, List, [],
  ◌∷◌, ◌==◌, if◌then◌else◌, is_some, Result, ok, err,
}
use monitoreoedgeis.Prelude.Text.{GoString}
use monitoreoedgeis.AuditJournal.Record.{AuditRecord}

-- `json.Marshal` (the bytes, or its error) and `json.Unmarshal` of a record, SHA-256 in hexadecimal,
-- the replacements of the two regular expressions for secrets, and the clock.
pub record Environment : Type 0 where
  pub encode : AuditRecord → Result String String
  pub decode : String → Option AuditRecord
  pub sha256 : String → String
  pub replace_bearer : GoString → GoString
  pub replace_secret : GoString → GoString
  pub now : String

abbrev pub genesis_hash : String
genesis_hash = "genesis:v1"

unfoldable pub hash_payload : Environment → String → Result String String → Result String String
hash_payload env prev (err e) = err e
hash_payload env prev (ok payload) = ok (env.sha256 (prev ++ₛ payload))

-- `computeRecordHash`.
unfoldable pub compute_record_hash : Environment → String → AuditRecord → Result String String
unfolding hash_payload
compute_record_hash env prev rec =
    hash_payload env prev (env.encode (record rec { prev_hash = prev; record_hash = "" }))

pub data Status : Type 0 where
  empty pass corrupt truncated_tail : Status

pub data FailureReason : Type 0 where
  no_failure incomplete_json malformed_json wrong_sequence wrong_prev_hash wrong_record_hash :
      FailureReason
  cannot_canonicalize read_error : String → FailureReason

-- `VerifyResult`; the number of the record that its reason names is one more than the count.
pub record VerifyResult : Type 0 where
  pub status : Status
  pub record_count : ℕ
  pub first_sequence : ℕ
  pub last_sequence : ℕ
  pub last_hash : String
  pub failure_reason : FailureReason

-- The variables of the loop.
pub record Progress : Type 0 where
  pub prev_hash : String
  pub count : ℕ
  pub first_seq : ℕ
  pub last_seq : ℕ

unfoldable pub outcome : Progress → Status → FailureReason → VerifyResult
outcome p status reason = record {
  status = status;
  record_count = p.count;
  first_sequence = p.first_seq;
  last_sequence = p.last_seq;
  last_hash = p.prev_hash;
  failure_reason = reason;
}

unfoldable pub check_hash :
    Progress → AuditRecord → Result String String → Result VerifyResult Progress
unfolding outcome
check_hash p rec (err e) = err (outcome p corrupt (cannot_canonicalize e))
check_hash p rec (ok wanted) =
    if str_eq wanted rec.record_hash
    then ok (record {
      prev_hash = rec.record_hash;
      count = suc p.count;
      first_seq = if p.count == 0 then rec.sequence else p.first_seq;
      last_seq = rec.sequence;
    })
    else err (outcome p corrupt wrong_record_hash)

-- Sequence numbers are uint64.
unfoldable pub next_sequence : ℕ → ℕ
next_sequence n = (n + 1) % 2 ^ 64

unfoldable pub check_record : Environment → Progress → AuditRecord → Result VerifyResult Progress
unfolding check_hash outcome next_sequence compute_record_hash
check_record env p rec =
    if not (rec.sequence == next_sequence p.last_seq)
    then err (outcome p corrupt wrong_sequence)
    else if not (str_eq rec.prev_hash p.prev_hash)
    then err (outcome p corrupt wrong_prev_hash)
    else check_hash p rec (compute_record_hash env p.prev_hash rec)

-- A line that is no record is a truncated write only where it is the last one.
unfoldable pub check_line :
    Environment → Bool → Progress → Option AuditRecord → Result VerifyResult Progress
unfolding check_record outcome
check_line env last p none =
    if last
    then err (outcome p truncated_tail incomplete_json)
    else err (outcome p corrupt malformed_json)
check_line env last p (some rec) = check_record env p rec

unfoldable pub is_empty : List String → Bool
is_empty [] = true
is_empty (_ ∷ _) = false

-- After the loop.
unfoldable pub conclude : Option String → Progress → VerifyResult
unfolding outcome
conclude (some cause) p = outcome p corrupt (read_error cause)
conclude none p = if p.count == 0 then outcome p empty no_failure else outcome p pass no_failure

-- The loop over the lines; `scan_error` is the error that the scanner stopped with.
unfoldable pub verify_from : Environment → Option String → Progress → List String → VerifyResult
unfolding conclude check_line is_empty
verify_from env scan_error p [] = conclude scan_error p
verify_from env scan_error p (line ∷ lines) =
    elim (check_line env (is_empty lines && not (is_some scan_error)) p (env.decode line)) [
      | err result ↦ result
      | ok p' ↦ verify_from env scan_error p' lines
    ]

abbrev pub start : Progress
start = record { prev_hash = genesis_hash; count = 0; first_seq = 0; last_seq = 0 }

-- `verifyReader`, of the scanner's non-empty lines.
unfoldable pub verify_lines : Environment → Option String → List String → VerifyResult
unfolding verify_from
verify_lines env scan_error lines = verify_from env scan_error start lines

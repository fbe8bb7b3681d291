-- ===== src/AuditJournal/Tests.antt =====
-- A journal over a codec of four records, and the theorems about it.
use monitoreoedgeis.Prelude.{
  ℕ, ◌≡◌, refl, ap, sym, subst, if-rule, Bool, true, false, ◌&&◌, Option, none, some, String,
  str_eq, eq_iff, [], arith, ◌==◌, if◌then◌else◌, Result, ok, err,
}
use monitoreoedgeis.Prelude.Text.{whole}
use monitoreoedgeis.AuditJournal.Record.{
  EventType, device_revoked, AuditResult, success, AuditRecord, event,
}
use monitoreoedgeis.AuditJournal.Verify.{
  Environment, genesis_hash, hash_payload, compute_record_hash, pass, FailureReason, start,
  verify_lines, next_sequence,
}
use monitoreoedgeis.AuditJournal.Journal.{
  scan, non_empty, Journal, healthy, degraded, corrupt_journal, written, redact_safe_reason,
  truncate, place, hashed, encoded, written_line, append, open_journal,
}
use monitoreoedgeis.AuditJournal.Chain.{Codec, IsChained, append-IsChained, open_journal-IsChained}
use monitoreoedgeis.AuditJournal.Degraded.{append-behind_tail}

abbrev revoked : ℕ → String → String → AuditRecord
revoked n prev hash = record (event device_revoked success) {
  schema_version = 1;
  sequence = n;
  timestamp = "t";
  prev_hash = prev;
  record_hash = hash;
}

abbrev is_revoked : EventType → AuditResult → Bool
is_revoked device_revoked success = true
is_revoked _ _ = false

is_revoked_eq :
    (t : EventType) (r : AuditResult) → is_revoked t r ≡ true → (t ≡ device_revoked) × (r ≡ success)
is_revoked_eq t r h = ground arith

same : AuditRecord → ℕ → String → String → Bool
same r n prev hash =
    is_revoked r.event_type r.result
    && (r.schema_version == 1)
    && (r.sequence == n)
    && str_eq r.timestamp "t"
    && str_eq r.edge_id ""
    && str_eq r.device_id ""
    && str_eq r.command_id ""
    && str_eq r.rotation_id ""
    && str_eq r.config_version ""
    && str_eq r.safe_reason.text ""
    && (r.safe_reason.partial == 0)
    && str_eq r.prev_hash prev
    && str_eq r.record_hash hash

same_eq :
    (r : AuditRecord) (n : ℕ) (prev hash : String)
    → same r n prev hash ≡ true
    → r ≡ revoked n prev hash
unfolding same
same_eq r n prev hash h =
    let kind : (r.event_type ≡ device_revoked) × (r.result ≡ success) =
      ground (arith, is_revoked_eq r.event_type r.result) in
    let version : r.schema_version ≡ 1 = ground arith in
    let number : r.sequence ≡ n = ground arith in
    let time : r.timestamp ≡ "t" = ground (arith, eq_iff r.timestamp "t") in
    let edge : r.edge_id ≡ "" = ground (arith, eq_iff r.edge_id "") in
    let device : r.device_id ≡ "" = ground (arith, eq_iff r.device_id "") in
    let command : r.command_id ≡ "" = ground (arith, eq_iff r.command_id "") in
    let rotation : r.rotation_id ≡ "" = ground (arith, eq_iff r.rotation_id "") in
    let config : r.config_version ≡ "" = ground (arith, eq_iff r.config_version "") in
    let text : r.safe_reason.text ≡ "" = ground (arith, eq_iff r.safe_reason.text "") in
    let cut : r.safe_reason.partial ≡ 0 = ground arith in
    let reason : r.safe_reason ≡ whole "" = cc (text, cut) in
    let before : r.prev_hash ≡ prev = ground (arith, eq_iff r.prev_hash prev) in
    let after : r.record_hash ≡ hash = ground (arith, eq_iff r.record_hash hash) in
    cc (
      kind.0, kind.1, version, number, time, edge, device, command, rotation, config, reason,
      before, after,
    )

demo_encode : AuditRecord → Result String String
demo_encode r =
    if same r 1 genesis_hash ""
    then ok "a"
    else if same r 1 genesis_hash "h"
    then ok "b"
    else if same r 2 "h" ""
    then ok "c"
    else if same r 2 "h" "h"
    then ok "d"
    else err "unsupported"

demo_decode : String → Option AuditRecord
demo_decode l =
    if str_eq l "a"
    then some (revoked 1 genesis_hash "")
    else if str_eq l "b"
    then some (revoked 1 genesis_hash "h")
    else if str_eq l "c"
    then some (revoked 2 "h" "")
    else if str_eq l "d"
    then some (revoked 2 "h" "h")
    else none

abbrev demo : Environment
demo = record {
  encode = demo_encode;
  decode = demo_decode;
  sha256 = λ s. "h";
  replace_bearer = λ s. s;
  replace_secret = λ s. s;
  now = "t";
}

text_of : Result String String → String
text_of (ok l) = l
text_of (err e) = e

abbrev Reads : AuditRecord → String → Type 0
Reads r line = (demo_decode line ≡ some r) × (str_eq line "" ≡ false)

abbrev ReadsBack : AuditRecord → String → Result String String → Type 0
ReadsBack r line e = e ≡ ok line → Reads r line

read_back : (r s : AuditRecord) (l line : String) → r ≡ s → Reads s l → ReadsBack r line (ok l)
unfolding text_of
read_back r s l line same reads h =
    subst (Reads r) (ap text_of h) (subst (λ x. Reads x l) (sym same) reads)

demo_reads : (r : AuditRecord) (line : String) → ReadsBack r line (demo_encode r)
unfolding demo_encode demo_decode
demo_reads r line =
    if-rule (ReadsBack r line) (same r 1 genesis_hash "")
      (λ h. read_back r _ "a" line (same_eq r 1 genesis_hash "" h) (refl, refl))
      λ _.
        if-rule (ReadsBack r line) (same r 1 genesis_hash "h")
          (λ h. read_back r _ "b" line (same_eq r 1 genesis_hash "h" h) (refl, refl))
          λ _.
            if-rule (ReadsBack r line) (same r 2 "h" "")
              (λ h. read_back r _ "c" line (same_eq r 2 "h" "" h) (refl, refl))
              λ _.
                if-rule (ReadsBack r line) (same r 2 "h" "h")
                  (λ h. read_back r _ "d" line (same_eq r 2 "h" "h" h) (refl, refl)) (λ _ h. cc h)

demo-Codec : Codec demo
demo-Codec = record {
  decode-encode = λ r line _ h. (demo_reads r line h).0;
  not_empty = λ r line h. (demo_reads r line h).1;
}

abbrev fresh : Journal
fresh = record {
  file = record { lines = []; tail = "" };
  last_hash = genesis_hash;
  last_seq = 0;
  health = healthy;
  write_at = "";
}

fresh-IsChained : IsChained demo fresh
unfolding non_empty
fresh-IsChained = (refl, (start, refl, refl, refl))

abbrev revocation : AuditRecord
revocation = event device_revoked success

appends : (append demo written fresh revocation).1 ≡ ok (revoked 1 genesis_hash "h")
unfolding append place redact_safe_reason next_sequence compute_record_hash hash_payload demo_encode
    same hashed encoded written_line
appends = refl

append-IsChained_example :
    let j' = (append demo written fresh revocation).0 in
    let v = verify_lines demo none (scan j'.file) in
    IsChained demo j'
    × (v.status ≡ pass)
    × (v.last_sequence ≡ 1)
    × (v.last_hash ≡ "h")
    × (1 ≡ next_sequence 0)
append-IsChained_example =
    append-IsChained demo written fresh revocation (revoked 1 genesis_hash "h") demo-Codec
      fresh-IsChained appends refl

open_journal-IsChained_example :
    (k : Journal) × (open_journal demo none fresh.file ≡ ok k)
    × IsChained demo k
    × (k.last_hash ≡ genesis_hash)
    × (k.last_seq ≡ 0)
    × (k.health ≡ healthy)
open_journal-IsChained_example = open_journal-IsChained demo fresh fresh-IsChained

-- What a crash in the middle of the first record leaves.
abbrev cut_off : Journal
cut_off = record fresh { file = record { lines = []; tail = "{" }; health = degraded }

appends_behind : (append demo written cut_off revocation).1 ≡ ok (revoked 1 genesis_hash "h")
unfolding append place redact_safe_reason next_sequence compute_record_hash hash_payload demo_encode
    same hashed encoded written_line
appends_behind = refl

appends_again :
    (append demo written (append demo written cut_off revocation).0 revocation).1
    ≡ ok (revoked 2 "h" "h")
unfolding append place redact_safe_reason next_sequence compute_record_hash hash_payload demo_encode
    same hashed encoded written_line
appends_again = refl

append-behind_tail_example :
    (reason : FailureReason) × (open_journal demo none
        (append demo written (append demo written cut_off revocation).0 revocation).0.file
      ≡ err (corrupt_journal reason))
unfolding demo_encode demo_decode same
append-behind_tail_example =
    append-behind_tail demo written written cut_off revocation revocation
      (revoked 1 genesis_hash "h") (revoked 2 "h" "h") "b" demo-Codec appends_behind appends_again
      refl refl refl

-- The cut at the second byte splits the second rune.
cuts : truncate (whole "aé") 2 ≡ record { text = "a"; partial = 1 }
unfolding truncate
cuts = refl

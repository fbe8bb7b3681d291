-- ===== src/RemoteConfig/Engine.antt =====
-- internal/remoteconfig/engine.go and sanitize.go: validate, stage, apply, publish or roll back.
pub mod Lifecycle
pub mod Safety
pub mod Durability
pub mod Recovery
mod Tests
use Prim.Native.String.{len, slice, ◌++◌}
use monitoreoedgeis.Prelude.{
  ℕ, suc, ◌+◌, ◌-◌, Bool, true, false, not, ◌&&◌, Option, none, some, String, List, ◌∷◌, leb,
  if◌then◌else◌,
}
use monitoreoedgeis.Prelude.Int.{ℤ, pos, ltb_ℤ, eqb_ℤ}
use monitoreoedgeis.Prelude.Text.{GoString, whole}
use monitoreoedgeis.AuditJournal.Record.{
  EventType, remote_config_apply, remote_config_rollback, remote_config_failure, AuditResult,
  success, failure, AuditRecord, event,
}
use monitoreoedgeis.RemoteConfig.Contract.{
  Config, ApplyStatus, applying, applied, failed, rolled_back, Normalizer, equal,
}
use monitoreoedgeis.RemoteConfig.Store.{State, Store, StateDisk, StoreError, update}

-- The `Adapter` interface over a runtime's state: each call may change it, and may fail.
pub record Adapter (R : Type 0) : Type 0 where
  pub validate : R → Config → R × Option String
  pub apply : R → Config → R × Option String
  pub rollback : R → Config → R × Option String

-- The adapter, and what the engine calls outside this repository: the JSON library, the file system,
-- the clock at the n-th save, `strconv.FormatInt` and the redacting regular expression.
pub record Environment (R : Type 0) : Type 0 where
  pub adapter : Adapter R
  pub normalize : Normalizer
  pub disk : StateDisk
  pub now : ℕ → String
  pub format_int : ℤ → String
  pub redact : GoString → GoString

-- The engine with the runtime behind its adapter. `audit` is the optional sink, newest first.
pub record Engine (R : Type 0) : Type 0 where
  pub store : Store
  pub runtime : R
  pub audit : Option (List AuditRecord)

pub data EngineError : Type 0 where
  store_error : StoreError → EngineError
  recovery_rollback_failed : String → EngineError
  apply_and_rollback_failed : GoString → EngineError
  publish_failed : StoreError → EngineError
  publish_and_rollback_failed : StoreError → String → EngineError

-- What `ReceiveDesired` returns: a status and code to acknowledge, or a hard error.
pub data Reply : Type 0 where
  ack : ApplyStatus → String → Reply
  fault : EngineError → Reply

abbrev pub stale_version : String
stale_version = "STALE_VERSION"

abbrev pub version_conflict : String
version_conflict = "VERSION_CONFLICT"

abbrev pub previously_failed : String
previously_failed = "PREVIOUSLY_FAILED"

abbrev pub validation_failed : String
validation_failed = "VALIDATION_FAILED"

abbrev pub apply_failed : String
apply_failed = "APPLY_FAILED"

abbrev pub staging_unresolved : String
staging_unresolved = "STAGING_UNRESOLVED"

abbrev max_safe_error_len : ℕ
max_safe_error_len = 255

-- The first `max` bytes, which may end in the middle of a rune; `slice` gives whole runes.
pub truncate : GoString → ℕ → GoString
truncate s max =
    let text = slice s.text 0 max in
    if leb (len s.text + s.partial) max then s else record { text = text; partial = max - len text }

pub zero_config : Config
zero_config = record { version = pos 0; payload = "" }

pub known_good_of : Option Config → Option Config → Config
known_good_of (some c) _ = c
known_good_of none (some c) = c
known_good_of none none = zero_config

-- What the runtime is rolled back to: the applied config first, then the one before it.
pub previous_known_good : State → Config
previous_known_good st = known_good_of st.applied_config st.previous_known_good_config

as_engine_error : Option StoreError → Option EngineError
as_engine_error (some x) = some (store_error x)
as_engine_error none = none

-- A save that fails turns the reply into a hard error.
pub unless_failed : Option StoreError → Reply → Reply
unless_failed problem reply = elim problem [ some x ↦ fault (store_error x) | none ↦ reply ]

module _ {R : Type 0} where
  pub audit_append : Engine R → AuditRecord → Engine R
  audit_append e rec = record e { audit = elim e.audit [ none ↦ none | some l ↦ some (rec ∷ l) ] }

module _ {R : Type 0} (env : Environment R) where
  pub sanitize_apply_error : String → GoString
  sanitize_apply_error msg = truncate (env.redact (whole msg)) max_safe_error_len

  pub config_event : EventType → AuditResult → Config → String → AuditRecord
  config_event t r c reason = record (event t r) {
    config_version = env.format_int c.version;
    safe_reason = whole reason;
  }

  -- `e.store.Update`; the function is given the clock's reading.
  pub update_store : Engine R → (String → State → State) → Engine R × Option StoreError
  update_store e fn =
      let (s, problem) = update env.disk e.store (fn (env.now e.store.file.saves)) in
      (record e { store = s }, problem)

  pub mark_recovery_failed : Config → String → String → State → State
  mark_recovery_failed interrupted cause at s = record s {
    last_failed_version = interrupted.version;
    last_failed_config = some interrupted;
    last_apply_status = some failed;
    last_apply_at = at;
    last_error_safe =
        sanitize_apply_error ("recovery: interrupted apply, rollback failed: " ++ cause);
    rollback_count = s.rollback_count + 1;
  }

  pub mark_recovered : Config → String → State → State
  mark_recovered interrupted at s = record s {
    staging = none;
    last_failed_version = interrupted.version;
    last_failed_config = some interrupted;
    last_apply_status = some rolled_back;
    last_apply_at = at;
    last_error_safe =
        whole "recovery: apply interrupted by restart, rolled back to previous known-good";
    rollback_count = s.rollback_count + 1;
  }

  recovery_failed : Engine R → Config → String → Engine R × Option EngineError
  recovery_failed e interrupted cause =
      let rec =
        config_event remote_config_failure failure interrupted
          "recovery: interrupted apply, rollback failed" in
      let (e', problem) =
        update_store (audit_append e rec) (mark_recovery_failed interrupted cause) in
      (
        e',
        elim problem [
          | some x ↦ some (store_error x)
          | none ↦ some (recovery_rollback_failed cause)
        ],
      )

  recovery_done : Engine R → Config → Engine R × Option EngineError
  recovery_done e interrupted =
      let rec =
        config_event remote_config_rollback failure interrupted
          "recovery: apply interrupted by restart, rolled back to previous known-good" in
      let (e', problem) = update_store (audit_append e rec) (mark_recovered interrupted) in
      (e', as_engine_error problem)

  roll_back : Engine R → Config → Engine R × Option String
  roll_back e previous =
      let (r, problem) = env.adapter.rollback e.runtime previous in
      (record e { runtime = r }, problem)

  recover_at : Option Config → Engine R → Engine R × Option EngineError
  recover_at none e = (e, none)
  recover_at (some interrupted) e =
      let (e', problem) = roll_back e (previous_known_good e.store.state) in
      elim problem [
        | some cause ↦ recovery_failed e' interrupted cause
        | none ↦ recovery_done e' interrupted
      ]

  -- `Engine.Recover`.
  pub recover : Engine R → Engine R × Option EngineError
  recover e = recover_at e.store.state.staging e

  -- A failure that is acknowledged with its code and leaves store and runtime alone.
  refuse : Engine R → Config → String → Engine R × Reply
  refuse e desired code =
      (audit_append e (config_event remote_config_failure failure desired code), ack failed code)

  abbrev is_same : Config → Option Config → Bool
  is_same desired c = elim c [ none ↦ false | some d ↦ equal env.normalize desired d ]

  pub mark_invalid : Config → String → String → State → State
  mark_invalid desired cause at s = record s {
    last_failed_version = desired.version;
    last_failed_config = some desired;
    last_apply_status = some failed;
    last_apply_at = at;
    last_error_safe = sanitize_apply_error cause;
    received_at = at;
  }

  pub mark_staged : Config → String → State → State
  mark_staged desired at s = record s {
    staging = some desired;
    last_apply_status = some applying;
    received_at = at;
  }

  pub mark_unresolved : Config → GoString → String → State → State
  mark_unresolved desired msg at s = record s {
    last_failed_version = desired.version;
    last_failed_config = some desired;
    last_apply_status = some failed;
    last_apply_at = at;
    last_error_safe = msg;
    rollback_count = s.rollback_count + 1;
  }

  pub mark_rolled_back : Config → String → String → State → State
  mark_rolled_back desired cause at s = record s {
    staging = none;
    last_failed_version = desired.version;
    last_failed_config = some desired;
    last_apply_status = some rolled_back;
    last_apply_at = at;
    last_error_safe = sanitize_apply_error cause;
    rollback_count = s.rollback_count + 1;
  }

  pub mark_applied : Config → String → State → State
  mark_applied desired at s = record s {
    previous_known_good_version = elim s.applied_config [
      | some _ ↦ s.applied_version
      | none ↦ s.previous_known_good_version
    ];
    previous_known_good_config = elim s.applied_config [
      | some c ↦ some c
      | none ↦ s.previous_known_good_config
    ];
    applied_version = desired.version;
    applied_config = some desired;
    staging = none;
    last_apply_status = some applied;
    last_apply_at = at;
    last_error_safe = whole "";
  }

  reject_invalid : Engine R → Config → String → Engine R × Reply
  reject_invalid e desired cause =
      let rec = config_event remote_config_failure failure desired validation_failed in
      let (e', problem) = update_store (audit_append e rec) (mark_invalid desired cause) in
      (e', unless_failed problem (ack failed validation_failed))

  -- Apply and rollback both failed: the staging marker stays.
  leave_unresolved : Engine R → Config → String → String → Engine R × Reply
  leave_unresolved e desired cause undo_cause =
      let rec = config_event remote_config_failure failure desired "apply and rollback failed" in
      let msg =
        sanitize_apply_error
          ("apply failed (" ++ (cause ++ ("); rollback also failed: " ++ undo_cause))) in
      let (e', problem) = update_store (audit_append e rec) (mark_unresolved desired msg) in
      (e', unless_failed problem (fault (apply_and_rollback_failed msg)))

  report_rolled_back : Engine R → Config → String → Engine R × Reply
  report_rolled_back e desired cause =
      let rec = config_event remote_config_rollback failure desired apply_failed in
      let (e', problem) = update_store (audit_append e rec) (mark_rolled_back desired cause) in
      (e', unless_failed problem (ack rolled_back apply_failed))

  undo_apply : Engine R → Config → Config → String → Engine R × Reply
  undo_apply e desired target cause =
      let (e', problem) = roll_back e target in
      elim problem [
        | some undo_cause ↦ leave_unresolved e' desired cause undo_cause
        | none ↦ report_rolled_back e' desired cause
      ]

  -- The commit could not be saved: the runtime is rolled back, the staging marker stays.
  undo_publish : Engine R → Config → Config → StoreError → Engine R × Reply
  undo_publish e desired target x =
      let (e', problem) = roll_back e target in
      elim problem [
        | some undo_cause ↦ (
          audit_append e' (
              config_event remote_config_failure failure desired "publish failed, rollback failed"),
          fault (publish_and_rollback_failed x undo_cause),
        )
        | none ↦ (
          audit_append e' (
              config_event remote_config_rollback failure desired
                "publish failed, rolled back runtime"),
          fault (publish_failed x),
        )
      ]

  publish : Engine R → Config → Config → Engine R × Reply
  publish e desired target =
      let (e', problem) = update_store e (mark_applied desired) in
      elim problem [
        | some x ↦ undo_publish e' desired target x
        | none ↦
            (audit_append e' (config_event remote_config_apply success desired ""), ack applied "")
      ]

  apply_staged : Engine R → Config → Engine R × Reply
  apply_staged e desired =
      let target = previous_known_good e.store.state in
      let (r, problem) = env.adapter.apply e.runtime desired in
      let e' = record e { runtime = r } in
      elim problem [
        | some cause ↦ undo_apply e' desired target cause
        | none ↦ publish e' desired target
      ]

  -- The atomic staging write, the restart-safe marker.
  pub stage : Engine R → Config → Engine R × Option StoreError
  stage e desired = update_store e (mark_staged desired)

  stage_and_apply : Engine R → Config → Engine R × Reply
  stage_and_apply e desired =
      let (e', problem) = stage e desired in
      elim problem [
        | some x ↦ (
          audit_append e'
              (config_event remote_config_failure failure desired "store update staging failed"),
          fault (store_error x),
        )
        | none ↦ apply_staged e' desired
      ]

  validate_new : Engine R → Config → Engine R × Reply
  validate_new e desired =
      let (r, problem) = env.adapter.validate e.runtime desired in
      let e' = record e { runtime = r } in
      elim problem [
        | some cause ↦ reject_invalid e' desired cause
        | none ↦ stage_and_apply e' desired
      ]

  -- The `switch` on the version.
  judge_version : Engine R → Config → Engine R × Reply
  judge_version e desired =
      let st = e.store.state in
      if ltb_ℤ desired.version st.applied_version
      then refuse e desired stale_version
      else if eqb_ℤ desired.version st.applied_version
      then if is_same desired st.applied_config
        then (e, ack applied "")
        else refuse e desired version_conflict
      else if not (eqb_ℤ st.last_failed_version (pos 0))
          && eqb_ℤ desired.version st.last_failed_version
      then if is_same desired st.last_failed_config
        then (e, ack failed previously_failed)
        else refuse e desired version_conflict
      else validate_new e desired

  receive_at : Option Config → Engine R → Config → Engine R × Reply
  receive_at (some _) e desired = refuse e desired staging_unresolved
  receive_at none e desired = judge_version e desired

  -- `Engine.ReceiveDesired`: an unresolved staging refuses every new config.
  pub receive_desired : Engine R → Config → Engine R × Reply
  receive_desired e desired = receive_at e.store.state.staging e desired

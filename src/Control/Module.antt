-- ===== src/Control/Module.antt =====
-- internal/control/module.go: the execution of one command, and the pacing of the poll loop.
pub mod Duplicates
pub mod Repeats
pub mod Tracking
mod Tests
use monitoreoedgeis.Prelude.{
  ℕ, suc, ◌*◌, Bool, true, false, not, ◌||◌, Option, none, some, String, str_eq, List, [], ◌∷◌,
  ◌++◌, length, ltb, ◌==◌, if◌then◌else◌, is_some,
}
use monitoreoedgeis.Prelude.Map.{Map, lookup, insert, delete}
use monitoreoedgeis.Durable.{Disk, SaveError}
use monitoreoedgeis.Prelude.Text.{whole}
use monitoreoedgeis.AuditJournal.Record.{
  EventType, control_command_executed, control_command_failed, control_command_received,
  AuditResult, success, failure, AuditRecord, event,
}
use monitoreoedgeis.Control.Ledger.{
  Ledger, Execution, get, begin, complete, status_executing, status_succeeded, status_failed,
}

-- The `Executor` interface over a world that its calls may change.
pub record Executor (W V : Type 0) : Type 0 where
  pub status : W → V
  pub rediscover : W → W × Option String
  pub reload_config : W → W × Option String

pub record Environment (W V : Type 0) : Type 0 where
  pub executor : Executor W V
  pub empty_result : V  -- `map[string]any{}`
  pub disk : Disk
  pub now : ℕ → String  -- the clock at the n-th save

-- `transport.ControlCommand`, with the number of entries of its payload.
pub record Command : Type 0 where
  pub id : String
  pub command_type : String
  pub payload_len : ℕ

-- `commandExecution`; also the reply of `execute` where it has no error.
pub record Outcome (V : Type 0) : Type 0 where
  pub status : String
  pub result : Option V
  pub error_code : String

-- `audit` is the optional sink, newest first.
pub record Module (W V : Type 0) : Type 0 where
  pub ledger : Option (Ledger V)
  pub world : W
  pub audit : Option (List AuditRecord)
  pub executed : Map (Outcome V)
  pub executed_order : List String

pub data Failure : Type 0 where
  begin_failed : SaveError → Failure
  complete_failed : SaveError → Failure

pub data Reply (V : Type 0) : Type 0 where
  done : Outcome V → Reply V
  halt : Failure → Reply V

abbrev pub indeterminate : String
indeterminate = "INDETERMINATE_AFTER_RESTART"

abbrev default_max_tracked : ℕ
default_max_tracked = 256

abbrev pub failed_with : {V : Type 0} → String → Outcome V
failed_with code = record { status = status_failed; result = none; error_code = code }

abbrev command_event : EventType → AuditResult → Command → String → AuditRecord
command_event t r cmd reason = record (event t r) {
  command_id = cmd.id;
  safe_reason = whole reason;
}

module _ {V : Type 0} where
  -- The loop that drops the oldest ids beyond the bound.
  pub trim : ℕ → Map (Outcome V) → List String → Map (Outcome V) × List String
  trim bound executed [] = (executed, [])
  trim bound executed (oldest ∷ rest) =
      let trimmed = trim bound (delete oldest executed) rest in
      if ltb bound (length (oldest ∷ rest)) then trimmed else (executed, oldest ∷ rest)

  pub tracking_bound : Option (Ledger V) → ℕ
  tracking_bound none = default_max_tracked
  tracking_bound (some l) =
      if ltb default_max_tracked l.max_entries then l.max_entries else default_max_tracked

  pub recorded : Option (Ledger V) → String → Option (Execution V)
  recorded none id = none
  recorded (some l) id = get l id

  -- The outcome of a failed or finished interface call.
  from_error : V → Option String → String → Outcome V
  from_error empty none code = record {
    status = status_succeeded;
    result = some empty;
    error_code = "";
  }
  from_error empty (some _) code = failed_with code

module _ {W V : Type 0} where
  pub audit_append : Module W V → AuditRecord → Module W V
  audit_append m rec = record m { audit = elim m.audit [ none ↦ none | some l ↦ some (rec ∷ l) ] }

  -- `trackExecutedLocked`.
  pub track_executed : Module W V → String → Outcome V → Module W V
  track_executed m id exec =
      let order =
        if is_some (lookup id m.executed)
        then m.executed_order
        else m.executed_order ++ (id ∷ []) in
      let (executed, kept) = trim (tracking_bound m.ledger) (insert id exec m.executed) order in
      record m { executed = executed; executed_order = kept }

  -- The answer for a command that was seen before: never a second execution.
  pub replay : Module W V → Command → Outcome V → Module W V × Reply V
  replay m cmd seen =
      if str_eq seen.status status_executing
      then (
        audit_append m (command_event control_command_failed failure cmd indeterminate),
        done (failed_with indeterminate),
      )
      else (m, done seen)

  audit_outcome : Module W V → Command → Outcome V → Module W V
  audit_outcome m cmd out =
      if str_eq out.status status_failed
      then audit_append m (command_event control_command_failed failure cmd out.error_code)
      else audit_append m (command_event control_command_executed success cmd out.error_code)

module _ {W V : Type 0} (env : Environment W V) where
  -- The `switch` on the command type: the only calls of the executor.
  pub run_command : W → String → W × Outcome V
  run_command w kind =
      if str_eq kind "request_status"
      then (
        w,
        record {
          status = status_succeeded;
          result = some (env.executor.status w);
          error_code = "";
        },
      )
      else if str_eq kind "rediscovery"
      then (let (w', e) = env.executor.rediscover w in
          (w', from_error env.empty_result e "REDISCOVERY_FAILED"))
      else if str_eq kind "reload_config"
      then (let (w', e) = env.executor.reload_config w in
          (w', from_error env.empty_result e "RELOAD_CONFIG_FAILED"))
      else if str_eq kind "restart_video_pipeline"
      then (w, failed_with "UNSUPPORTED")
      else (w, failed_with "UNKNOWN_COMMAND")

  -- The terminal outcome is persisted before it is reported.
  finish : Option (Ledger V) → Module W V → Command → Outcome V → Module W V × Reply V
  finish none m cmd out = (track_executed m cmd.id out, done out)
  finish (some l) m cmd out =
      let (l', problem) = complete env.disk (env.now l.file.saves) l cmd.id (record {
        status = out.status;
        result = out.result;
        error_code = out.error_code;
        completed_at = "";
      }) in
      let m' = record m { ledger = some l' } in
      elim problem [
        | some x ↦ (m', halt (complete_failed x))
        | none ↦ (track_executed m' cmd.id out, done out)
      ]

  dispatch : Module W V → Command → Module W V × Reply V
  dispatch m cmd =
      let m₁ =
        track_executed m cmd.id
          (record { status = status_executing; result = none; error_code = "" }) in
      let (w, out) = run_command m₁.world cmd.command_type in
      let m₂ = audit_outcome (record m₁ { world = w }) cmd out in finish m₂.ledger m₂ cmd out

  -- "executing" is made durable before the executor is called.
  begin_command : Option (Ledger V) → Module W V → Command → Module W V × Reply V
  begin_command none m cmd = dispatch m cmd
  begin_command (some l) m cmd =
      let (l', problem) = begin env.disk (env.now l.file.saves) l cmd.id in
      let m' = record m { ledger = some l' } in
      elim problem [
        | some x ↦ (
          audit_append m' (command_event control_command_failed failure cmd "LEDGER_BEGIN_FAILED"),
          halt (begin_failed x),
        )
        | none ↦ dispatch m' cmd
      ]

  check_executed : Option (Outcome V) → Module W V → Command → Module W V × Reply V
  check_executed (some seen) m cmd = replay m cmd seen
  check_executed none m cmd = begin_command m.ledger m cmd

  check_ledger : Option (Execution V) → Module W V → Command → Module W V × Reply V
  check_ledger (some e) m cmd =
      replay m cmd (record { status = e.status; result = e.result; error_code = e.error_code })
  check_ledger none m cmd = check_executed (lookup cmd.id m.executed) m cmd

  -- `execute`.
  pub execute : Module W V → Command → Module W V × Reply V
  execute m cmd =
      if str_eq cmd.id "" || not (cmd.payload_len == 0)
      then (
        audit_append m (command_event control_command_failed failure cmd "INVALID_COMMAND"),
        done (failed_with "INVALID_COMMAND"),
      )
      else check_ledger (recorded m.ledger cmd.id) m cmd

-- What `ClaimNextControlCommand` can return besides a command.
pub data ClaimError : Type 0 where
  canceled unauthorized other_error : ClaimError
  rate_limited : ℕ → ClaimError  -- `RetryAfter`, in nanoseconds

pub record Pace : Type 0 where
  pub wait : ℕ
  pub backoff : ℕ

abbrev pub max_backoff : ℕ
max_backoff = 60_000_000_000

abbrev pub auth_backoff : ℕ
auth_backoff = 300_000_000_000

grow : ℕ → Pace → Pace
grow interval p =
    let doubled = if ltb max_backoff (p.backoff * 2) then max_backoff else p.backoff * 2 in
    let backoff = if p.backoff == 0 then interval else doubled in
    record { wait = backoff; backoff = backoff }

-- The error branches of `loop`; `none` is its return.
pub after_error : ℕ → Pace → ClaimError → Option Pace
unfolding grow
after_error interval p canceled = none
after_error interval p unauthorized = some (record p { wait = auth_backoff })
after_error interval p (rate_limited retry_after) =
    if ltb 0 retry_after then some (record p { wait = retry_after }) else some (grow interval p)
after_error interval p other_error = some (grow interval p)

-- A claim that worked, with or without a command.
pub after_claim : ℕ → Pace
after_claim interval = record { wait = interval; backoff = 0 }

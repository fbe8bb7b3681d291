-- ===== src/AuditJournal/Record.antt =====
-- internal/auditjournal/record.go: the canonical journal entry.
use monitoreoedgeis.Prelude.{ℕ, String}
use monitoreoedgeis.Prelude.Text.{GoString, whole}

pub data EventType : Type 0 where
  enrollment_success enrollment_failure : EventType
  credential_rotation_success credential_rotation_failure : EventType
  factory_reset_requested factory_reset_completed factory_reset_failed : EventType
  control_command_received control_command_executed control_command_failed : EventType
  remote_config_apply remote_config_rollback remote_config_failure : EventType
  auth_rejected device_revoked : EventType

pub data AuditResult : Type 0 where
  success failure : AuditResult

pub record AuditRecord : Type 0 where
  pub schema_version : ℕ
  pub sequence : ℕ  -- uint64
  pub timestamp : String
  pub event_type : EventType
  pub result : AuditResult
  pub edge_id : String
  pub device_id : String
  pub command_id : String
  pub rotation_id : String
  pub config_version : String
  pub safe_reason : GoString
  pub prev_hash : String
  pub record_hash : String

-- A literal with these two fields set; the others have Go's zero values.
abbrev pub event : EventType → AuditResult → AuditRecord
event t r = record {
  schema_version = 0;
  sequence = 0;
  timestamp = "";
  event_type = t;
  result = r;
  edge_id = "";
  device_id = "";
  command_id = "";
  rotation_id = "";
  config_version = "";
  safe_reason = whole "";
  prev_hash = "";
  record_hash = "";
}

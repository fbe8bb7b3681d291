-- ===== src/Control/Ledger.antt =====
-- internal/control/ledger.go: the bounded, durable record of executed commands.
pub mod Bounds
pub mod Reads
use monitoreoedgeis.Prelude.{
  ℕ, zero, suc, ◌-◌, ◌++◌, Bool, true, false, Option, none, some, String, str_eq, List, [], ◌∷◌,
  length, drop, ltb, ◌==◌, if◌then◌else◌, is_some, Result, ok, err,
}
use monitoreoedgeis.Prelude.Map.{Map, lookup, insert, delete, contains}
use monitoreoedgeis.Durable.{
  Disk, SaveError, StateFile, save, Loaded, missing, unreadable, invalid, parsed,
}

-- `map[string]any` results are only stored and handed on: their type is a parameter.
pub record Execution (V : Type 0) : Type 0 where
  pub status : String
  pub result : Option V
  pub error_code : String
  pub completed_at : String

-- `ledgerRecord`, the JSON document.
pub record LedgerRecord (V : Type 0) : Type 0 where
  pub commands : Map (Execution V)
  pub order : List String
  pub max_entries : ℕ

pub record Ledger (V : Type 0) : Type 0 where
  pub max_entries : ℕ
  pub commands : Map (Execution V)
  pub order : List String
  pub file : StateFile (LedgerRecord V)

pub data OpenError : Type 0 where
  read_failed : String → OpenError
  corrupt_ledger : String → OpenError

abbrev pub status_executing : String
status_executing = "executing"

abbrev pub status_succeeded : String
status_succeeded = "succeeded"

abbrev pub status_failed : String
status_failed = "failed"

abbrev default_max_entries : ℕ
default_max_entries = 100

-- Appends the ids that are not `existing`.
unfoldable pub append_missing : List String → List String → List String → List String
append_missing existing order [] = order
append_missing existing order (id ∷ ids) =
    append_missing existing (if contains id existing then order else order ++ (id ∷ [])) ids

module _ {V : Type 0} where
  -- The ids of the order that the map has.
  unfoldable pub existing_ids : Map (Execution V) → List String → List String
  existing_ids m [] = []
  existing_ids m (id ∷ order) =
      if is_some (lookup id m) then id ∷ existing_ids m order else existing_ids m order

  -- `OpenLedger`; `max_entries ≤ 0` takes the default. Ids that only the map has go to the end of the
  -- order; `ids` is the order in which Go ranges over the map, which it leaves open.
  unfoldable pub open_ledger :
      StateFile (LedgerRecord V)
      → Loaded (LedgerRecord V)
      → List String
      → ℕ
      → Result OpenError (Ledger V)
  open_ledger file loaded ids max = elim loaded [
    | missing ↦ ok (record {
      max_entries = if max == 0 then default_max_entries else max;
      commands = [];
      order = [];
      file = file;
    })
    | unreadable cause ↦ err (read_failed cause)
    | invalid cause ↦ err (corrupt_ledger cause)
    | parsed rec ↦ ok (record {
      max_entries = if max == 0 then default_max_entries else max;
      commands = rec.commands;
      order = append_missing (existing_ids rec.commands rec.order) rec.order ids;
      file = file;
    })
  ]

  unfoldable pub get : Ledger V → String → Option (Execution V)
  get l id = lookup id l.commands

  -- `delete(l.commands, l.order[i])` for the first `n` ids.
  unfoldable pub delete_first : ℕ → List String → Map (Execution V) → Map (Execution V)
  delete_first zero order m = m
  delete_first (suc n) [] m = m
  delete_first (suc n) (id ∷ order) m = delete_first n order (delete id m)

  unfoldable pub prune : Ledger V → Ledger V
  prune l =
      if ltb l.max_entries (length l.order)
      then record l {
        commands = delete_first (length l.order - l.max_entries) l.order l.commands;
        order = drop (length l.order - l.max_entries) l.order;
      }
      else l

  -- The order grows by an id that the map does not have yet.
  unfoldable pub put : Ledger V → String → Execution V → Ledger V
  put l id exec = record l {
    order = if is_some (lookup id l.commands) then l.order else l.order ++ (id ∷ []);
    commands = insert id exec l.commands;
  }

  unfoldable pub save_locked : Disk → Ledger V → Ledger V × Option SaveError
  save_locked disk l =
      let (f, failure) =
        save disk l.file
          (record { commands = l.commands; order = l.order; max_entries = l.max_entries }) in
      (record l { file = f }, failure)

  -- `Begin`; `now` is the clock's reading.
  unfoldable pub begin : Disk → String → Ledger V → String → Ledger V × Option SaveError
  begin disk now l id = save_locked disk (
      prune (
        put l id (record {
          status = status_executing;
          result = none;
          error_code = "";
          completed_at = now;
        })))

  unfoldable pub stamped : String → Execution V → Execution V
  stamped now exec =
      if str_eq exec.completed_at "" then record exec { completed_at = now } else exec

  -- `Complete`, which is also `Record`.
  unfoldable pub complete :
      Disk → String → Ledger V → String → Execution V → Ledger V × Option SaveError
  unfolding stamped
  complete disk now l id exec = save_locked disk (prune (put l id (stamped now exec)))

  pub count : Ledger V → ℕ
  count l = length l.commands

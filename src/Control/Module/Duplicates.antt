-- ===== src/Control/Module/Duplicates.antt =====
-- The repeated commands of internal/control/module.go, and those that it cannot begin.
use monitoreoedgeis.Prelude.{
  ℕ, ◌≡◌, refl, ◌∙◌, ap, false, not, ◌||◌, none, some, String, str_eq, List, arith, ◌==◌,
  if◌then◌else◌, ok, length, ◌≤◌, ◌<◌,
}
use monitoreoedgeis.Prelude.Map.{lookup}
use monitoreoedgeis.Durable.{SaveError, read_back}
use monitoreoedgeis.Control.Ledger.{Ledger, Execution, get, begin, status_executing, open_ledger}
use monitoreoedgeis.Control.Ledger.Bounds.{IsValid}
use monitoreoedgeis.Control.Ledger.Reads.{get-open_ledger-begin}
use monitoreoedgeis.Control.Module.{
  Module, Environment, Command, Outcome, done, halt, begin_failed, failed_with, indeterminate,
  execute, replay, recorded, check_ledger, check_executed, begin_command, audit_append,
}

-- A command that `execute` does not turn away at once.
abbrev pub IsWellFormed : Command → Type 0
IsWellFormed cmd = (str_eq cmd.id "" || not (cmd.payload_len == 0)) ≡ false

-- What a repeated command is answered, from the entry that was kept.
abbrev pub answer : {V : Type 0} → Execution V → Outcome V
answer e =
    if str_eq e.status status_executing
    then failed_with indeterminate
    else record { status = e.status; result = e.result; error_code = e.error_code }

pub recorded-some : {V : Type 0} (l : Ledger V) (id : String) → recorded (some l) id ≡ get l id
unfolding recorded
recorded-some l id = refl

module _ {W V : Type 0} (env : Environment W V) where
  -- A command that the ledger has an entry for is answered from that entry: the executor's world, the
  -- ledger and the tracked commands stay as they are. An entry still "executing" is answered as failed
  -- with INDETERMINATE_AFTER_RESTART.
  pub execute-recorded :
      (m : Module W V) (cmd : Command) (e : Execution V)
      → IsWellFormed cmd
      → recorded m.ledger cmd.id ≡ some e
      → let (m', reply) = execute env m cmd in
        (reply ≡ done (answer e))
        × (m'.world ≡ m.world)
        × (m'.ledger ≡ m.ledger)
        × (m'.executed ≡ m.executed)
  unfolding execute check_ledger replay audit_append
  execute-recorded m cmd e w h = ground arith

  -- Where "executing" cannot be saved, the executor is not called and the loop is told to halt.
  pub execute-begin_failed :
      (m : Module W V) (cmd : Command) (l : Ledger V) (x : SaveError)
      → IsWellFormed cmd
      → m.ledger ≡ some l
      → get l cmd.id ≡ none
      → lookup cmd.id m.executed ≡ none
      → (begin env.disk (env.now l.file.saves) l cmd.id).1 ≡ some x
      → let (m', reply) = execute env m cmd in
        (reply ≡ halt (begin_failed x)) × (m'.world ≡ m.world) × (m'.executed ≡ m.executed)
  unfolding execute check_ledger check_executed begin_command audit_append recorded
  execute-begin_failed m cmd l x w hl hg he hx = ground arith

  -- A crash between the durable "executing" and the end of the command: over the file that `Begin`
  -- wrote, with the tracked commands lost, the redelivered command is failed as indeterminate and the
  -- executor is not called.
  pub execute-after_crash :
      (m : Module W V) (cmd : Command) (l restarted : Ledger V) (now : String) (ids : List String)
      (max : ℕ)
      → IsWellFormed cmd
      → IsValid l
      → 0 < l.max_entries
      → length l.order ≤ l.max_entries
      → (begin env.disk now l cmd.id).1 ≡ none
      → open_ledger
          (begin env.disk now l cmd.id).0.file
          (read_back (begin env.disk now l cmd.id).0.file)
          ids
          max
        ≡ ok restarted
      → m.ledger ≡ some restarted
      → let (m', reply) = execute env m cmd in
        (reply ≡ done (failed_with indeterminate)) × (m'.world ≡ m.world)
  execute-after_crash m cmd l restarted now ids max w v p b saved opened hm =
      let found =
        get-open_ledger-begin env.disk now l restarted cmd.id ids max v p b saved opened in
      let (reply, world, _, _) =
        execute-recorded m cmd _ w
          (ap (λ o. recorded o cmd.id) hm ∙ (recorded-some restarted cmd.id ∙ found)) in
      (reply, world)

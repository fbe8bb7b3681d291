-- ===== src/RemoteConfig/Engine/Tests.antt =====
-- Runs of the engine over a runtime that remembers one config, and the theorems at such inputs.
use Prim.Native.String.{◌++◌ as ◌++ₛ◌}
use monitoreoedgeis.Prelude.{
  ℕ, ◌≡◌, inr, refl, sym, ap, subst, if-rule, eq_iff, ◌&&◌, Bool, Result, ok, err, true, false,
  Option, none, some, String, str_eq, [], ◌∷◌, arith, if◌then◌else◌,
}
use monitoreoedgeis.Prelude.Int.{pos, ◌≤ℤ◌, eqb_ℤ, ltb_ℤ, eq_of_eqb_ℤ}
use monitoreoedgeis.Durable.{StateFile, save, save_steps, attempt}
use monitoreoedgeis.RemoteConfig.Contract.{Config, applied, failed, rolled_back}
use monitoreoedgeis.RemoteConfig.Store.{
  State, Store, StateDisk, IsSynced, open_text, opened_at, zero_state, update, save_state,
  save_locked, write_file, open_store,
}
use monitoreoedgeis.RemoteConfig.Engine.{
  Adapter, Environment, Engine, ack, receive_desired, receive_at, judge_version, validate_new,
  stage_and_apply, stage, update_store, mark_staged, apply_staged, publish, mark_applied,
  undo_apply, roll_back, report_rolled_back, mark_rolled_back, unless_failed, audit_append, is_same,
  previous_known_good, known_good_of, recover, recover_at, recovery_done, as_engine_error,
  previously_failed, apply_failed,
}
use monitoreoedgeis.RemoteConfig.Engine.Lifecycle.{Receives, receive_desired-Receives}
use monitoreoedgeis.RemoteConfig.Engine.Safety.{
  run, applied_version-run, receive_desired-applied, receive_desired-twice, IsSettled,
  run-IsSettled,
}
use monitoreoedgeis.RemoteConfig.Engine.Durability.{receives, recovers, operate, engine-IsSynced}
use monitoreoedgeis.RemoteConfig.Engine.Recovery.{
  IsResolved, IsRecovered, Rereads, Json, reread_option, recover-IsResolved, crash-IsResolved,
  started,
}

-- Refuses the payload "bad", and fails to apply the payload "broken" half way.
demo_validate : Config → Config → Config × Option String
demo_validate r c = if str_eq c.payload "bad" then (r, some "bad payload") else (r, none)

demo_apply : Config → Config → Config × Option String
demo_apply r c =
    if str_eq c.payload "broken"
    then (record { version = pos 99; payload = "half" }, some "no such knob")
    else (c, none)

abbrev demo_adapter : Adapter Config
demo_adapter = record { validate = demo_validate; apply = demo_apply; rollback = λ r c. (c, none) }

abbrev config : ℕ → String → Config
config v p = record { version = pos v; payload = p }

-- `json` puts a space behind each payload.
abbrev spaced : String → String
spaced p = p ++ₛ " "

is_config : Option Config → Config → Bool
is_config none d = false
is_config (some c) d = eqb_ℤ c.version d.version && str_eq c.payload d.payload

is_config_eq : (o : Option Config) (d : Config) → is_config o d ≡ true → o ≡ some d
unfolding is_config
is_config_eq none d h = cc h
is_config_eq (some c) d h =
    let version : c.version ≡ d.version = eq_of_eqb_ℤ c.version d.version (ground arith) in
    let payload : c.payload ≡ d.payload = ground (arith, eq_iff c.payload d.payload) in
    cc (version, payload)

is_missing : Option Config → Bool
is_missing none = true
is_missing (some c) = false

is_missing_eq : (o : Option Config) → is_missing o ≡ true → o ≡ none
unfolding is_missing
is_missing_eq none h = refl
is_missing_eq (some c) h = cc h

-- It knows one state, in which version 3 is applied and version 4 is staged.
is_staged : State → Bool
is_staged s =
    eqb_ℤ s.applied_version (pos 3)
    && is_config s.applied_config (config 3 "fps=5")
    && is_missing s.previous_known_good_config
    && is_config s.staging (config 4 "fps=9")

demo_encode : State → String
demo_encode s = if is_staged s then "staged" else "other"

abbrev staged_as_read : State
staged_as_read = record zero_state {
  applied_version = pos 3;
  applied_config = some (config 3 "fps=5 ");
  staging = some (config 4 "fps=9 ");
}

demo_decode : String → Result String State
demo_decode text = if str_eq text "staged" then ok staged_as_read else err "unsupported"

abbrev demo_disk : StateDisk
demo_disk = record { steps = λ n step. none; encode = demo_encode; decode = demo_decode }

staged-Rereads : (s : State) → is_staged s ≡ true → Rereads spaced s staged_as_read
unfolding is_staged reread_option
staged-Rereads s h =
    let version : s.applied_version ≡ pos 3 =
      eq_of_eqb_ℤ s.applied_version (pos 3) (ground arith) in
    let applied_ = is_config_eq s.applied_config (config 3 "fps=5") (ground arith) in
    let before = is_missing_eq s.previous_known_good_config (ground arith) in
    let staged = is_config_eq s.staging (config 4 "fps=9") (ground arith) in
    record {
      version = sym version;
      config = ap (reread_option spaced) (sym applied_);
      known_good = ap (reread_option spaced) (sym before);
      staging = ap (reread_option spaced) (sym staged);
    }

demo_json : Json demo_disk spaced
unfolding demo_encode demo_decode
demo_json s t =
    if-rule (λ text. demo_decode text ≡ ok t → Rereads spaced s t) (is_staged s)
      (λ staged h.
        let same : staged_as_read ≡ t = ground (arith, h) in
        subst (Rereads spaced s) same (staged-Rereads s staged))
      (λ _ h. cc h)

abbrev demo : Environment Config
demo = record {
  adapter = demo_adapter;
  normalize = λ raw. some raw;
  disk = demo_disk;
  now = λ n. "2026-01-01T00:00:00Z";
  format_int = λ v. "0";
  redact = λ s. s;
}

abbrev fresh_store : Store
fresh_store = record {
  state = zero_state;
  file = record { content = none; saves = 0 };
  limit_writes = false;
  write_budget = 0;
}

-- Version 3 is applied, and runs.
abbrev live_state : State
live_state = record zero_state { applied_version = pos 3; applied_config = some (config 3 "fps=5") }

abbrev live : Engine Config
live = record {
  store = record fresh_store {
    state = live_state;
    file = record { content = some "live"; saves = 2 };
  };
  runtime = config 3 "fps=5";
  audit = some [];
}

applied_version-run_example :
    live.store.state.applied_version
    ≤ℤ (run demo live
        (config 4 "broken" ∷ config 2 "" ∷ config 5 "fps=9" ∷ [])).store.state.applied_version
applied_version-run_example =
    applied_version-run demo (config 4 "broken" ∷ config 2 "" ∷ config 5 "fps=9" ∷ []) live

receive_desired-Receives_example :
    Receives demo live.store.state live.runtime
      (config 4 "broken")
      (receive_desired demo live (config 4 "broken")).0.store.state
      (receive_desired demo live (config 4 "broken")).0.runtime
      (receive_desired demo live (config 4 "broken")).1
receive_desired-Receives_example = receive_desired-Receives demo live (config 4 "broken")

run-IsSettled_example :
    IsSettled demo
      (config 3 "fps=5")
      (config 3 "fps=5")
      (run demo live (config 4 "broken" ∷ config 5 "fps=9" ∷ [])).store.state
      (run demo live (config 4 "broken" ∷ config 5 "fps=9" ∷ [])).runtime
unfolding previous_known_good known_good_of
run-IsSettled_example = run-IsSettled demo (config 4 "broken" ∷ config 5 "fps=9" ∷ []) live

applies : (receive_desired demo live (config 5 "fps=9")).1 ≡ ack applied ""
unfolding receive_desired receive_at judge_version ltb_ℤ eqb_ℤ validate_new demo_validate
    stage_and_apply stage update_store update save_state save_locked write_file save save_steps
    attempt mark_staged apply_staged demo_apply publish mark_applied audit_append
applies = refl

reverts : (receive_desired demo live (config 4 "broken")).1 ≡ ack rolled_back apply_failed
unfolding receive_desired receive_at judge_version ltb_ℤ eqb_ℤ validate_new demo_validate
    stage_and_apply stage update_store update save_state save_locked write_file save save_steps
    attempt mark_staged apply_staged demo_apply undo_apply roll_back report_rolled_back
    mark_rolled_back audit_append unless_failed
reverts = refl

receive_desired-applied_example :
    let t = (receive_desired demo live (config 5 "fps=9")).0.store.state in
    (t.applied_version ≡ pos 5)
    × (is_same demo (config 5 "fps=9") t.applied_config ≡ true)
    × (t.staging ≡ none)
receive_desired-applied_example = receive_desired-applied demo live (config 5 "fps=9") "" applies

receive_desired-twice_example :
    receive_desired demo (receive_desired demo live (config 4 "broken")).0 (config 4 "broken")
    ≡ ((receive_desired demo live (config 4 "broken")).0, ack failed previously_failed)
unfolding eqb_ℤ
receive_desired-twice_example =
    receive_desired-twice demo live (config 4 "broken") refl (inr reverts)

-- A first start, without a file.
abbrev new_file : StateFile String
new_file = record { content = none; saves = 0 }

abbrev first_start : Engine Config
first_start = record {
  store = record fresh_store { file = new_file };
  runtime = config 0 "";
  audit = none;
}

engine-IsSynced_example :
    IsSynced demo_disk
      (operate demo first_start (receives (config 4 "broken") ∷ recovers ∷ [])).store
unfolding open_store opened_at
engine-IsSynced_example =
    engine-IsSynced demo new_file first_start (receives (config 4 "broken") ∷ recovers ∷ []) refl

-- The agent died while it was applying version 4.
abbrev interrupted_state : State
interrupted_state = record live_state { staging = some (config 4 "fps=9") }

abbrev interrupted : Engine Config
interrupted = record {
  store = record fresh_store { state = interrupted_state };
  runtime = config 99 "half";
  audit = none;
}

recovered : (recover demo interrupted).1 ≡ none
unfolding recover recover_at roll_back recovery_done update_store update save_state save_locked
    write_file save save_steps attempt audit_append as_engine_error
recovered = refl

recover-IsResolved_example :
    IsResolved demo interrupted_state
      (config 4 "fps=9")
      (config 99 "half")
      (recover demo interrupted).0.store.state
      (recover demo interrupted).0.runtime
recover-IsResolved_example = recover-IsResolved demo interrupted (config 4 "fps=9") refl recovered

-- The file that staging version 4 writes, and the store that is opened over it.
abbrev file_at_crash : StateFile String
file_at_crash = record { content = some "staged"; saves = 0 }

abbrev reopened : Store
reopened = record fresh_store { state = staged_as_read; file = file_at_crash }

recovered_after_crash : (recover demo (started reopened (config 99 "half") none)).1 ≡ none
unfolding recover recover_at roll_back recovery_done update_store update save_state save_locked
    write_file save save_steps attempt audit_append as_engine_error
recovered_after_crash = refl

crash-IsResolved_example :
    IsRecovered demo spaced live_state
      (config 4 "fps=9")
      (config 99 "half")
      (recover demo (started reopened (config 99 "half") none)).0.store.state
      (recover demo (started reopened (config 99 "half") none)).0.runtime
unfolding stage update_store update save_state save_locked write_file save save_steps attempt
    mark_staged open_store open_text opened_at demo_encode demo_decode is_staged is_config
    is_missing eqb_ℤ
crash-IsResolved_example =
    crash-IsResolved demo spaced demo_json live (config 4 "fps=9") file_at_crash reopened
      (config 99 "half") none refl refl refl recovered_after_crash

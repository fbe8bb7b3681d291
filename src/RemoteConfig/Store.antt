-- ===== src/RemoteConfig/Store.antt =====
-- internal/remoteconfig/store.go: the durable record of the apply lifecycle.
use monitoreoedgeis.Prelude.{
  ◌⊎◌, inl, inr, ℕ, ◌-◌, ◌≡◌, refl, Bool, false, Option, none, some, String, arith, ◌==◌,
  if◌then◌else◌, Result, ok, err, Bool-cases, Option-cases,
}
use monitoreoedgeis.Prelude.Int.{ℤ, pos}
use monitoreoedgeis.Prelude.Text.{GoString, whole}
use monitoreoedgeis.Durable.{Disk, SaveError, StateFile, save, save_cases}
use monitoreoedgeis.RemoteConfig.Contract.{Config, ApplyStatus}

pub record State : Type 0 where
  pub applied_version : ℤ
  pub applied_config : Option Config
  pub previous_known_good_version : ℤ
  pub previous_known_good_config : Option Config
  pub staging : Option Config
  pub last_failed_version : ℤ
  pub last_failed_config : Option Config
  pub last_apply_status : Option ApplyStatus  -- `none` is Go's empty status
  pub last_apply_at : String
  pub last_error_safe : GoString
  pub rollback_count : ℕ  -- int64; counts up from 0
  pub received_at : String

abbrev pub zero_state : State
zero_state = record {
  applied_version = pos 0;
  applied_config = none;
  previous_known_good_version = pos 0;
  previous_known_good_config = none;
  staging = none;
  last_failed_version = pos 0;
  last_failed_config = none;
  last_apply_status = none;
  last_apply_at = "";
  last_error_safe = whole "";
  rollback_count = 0;
  received_at = "";
}

-- `os` and `encoding/json`: what each step of a save returns, the text that `json.MarshalIndent` makes
-- of a state where it succeeds, and what `json.Unmarshal` makes of a text. What is read back need not
-- be the state that was written: the payloads are formatted anew.
pub record StateDisk : Type 0 where
  pub steps : Disk
  pub encode : State → String
  pub decode : String → Result String State

pub record Store : Type 0 where
  pub state : State
  pub file : StateFile String
  pub limit_writes : Bool
  pub write_budget : ℕ

pub data StoreError : Type 0 where
  simulated_write_failure : StoreError
  save_failed : SaveError → StoreError

pub data OpenError : Type 0 where
  read_failed : String → OpenError
  corrupt_state : String → OpenError

unfoldable pub opened_at : StateFile String → State → Store
opened_at file st = record { state = st; file = file; limit_writes = false; write_budget = 0 }

unfoldable pub open_text : StateFile String → Result String State → Result OpenError Store
unfolding opened_at
open_text file (err cause) = err (corrupt_state cause)
open_text file (ok st) = ok (opened_at file st)

-- `OpenStore`, over what `os.ReadFile` gave: `ok none` where there is no file.
unfoldable pub open_store :
    StateDisk → StateFile String → Result String (Option String) → Result OpenError Store
unfolding open_text
open_store disk file (err cause) = err (read_failed cause)
open_store disk file (ok none) = ok (opened_at file zero_state)
open_store disk file (ok (some text)) = open_text file (disk.decode text)

unfoldable pub write_file : StateDisk → Store → State → Store × Option StoreError
write_file disk s st =
    let (file, failure) = save disk.steps s.file (disk.encode st) in
    (record s { file = file }, elim failure [ none ↦ none | some e ↦ some (save_failed e) ])

-- The test hook: a budget of writes that succeed.
unfoldable pub save_limited : StateDisk → Store → State → Store × Option StoreError
save_limited disk s st =
    if s.write_budget == 0
    then (s, some simulated_write_failure)
    else write_file disk (record s { write_budget = s.write_budget - 1 }) st

unfoldable pub save_locked : StateDisk → Store → State → Store × Option StoreError
save_locked disk s st = if s.limit_writes then save_limited disk s st else write_file disk s st

-- `Store.Save`.
unfoldable pub save_state : StateDisk → Store → State → Store × Option StoreError
save_state disk s st =
    let (s', failure) = save_locked disk s st in
    elim failure [ some e ↦ (s', some e) | none ↦ (record s' { state = st }, none) ]

-- `Store.Update`.
unfoldable pub update : StateDisk → Store → (State → State) → Store × Option StoreError
unfolding save_state
update disk s fn = save_state disk s (fn s.state)

-- An update commits to the file and to memory together, or to neither.
abbrev pub Updated : StateDisk → Store → Store → State → Option StoreError → Type 0
Updated disk s t candidate failure =
    ((failure ≡ none) × (t.state ≡ candidate) × (t.file.content ≡ some (disk.encode candidate)))
    ⊎ ((e : StoreError) × (failure ≡ some e)
        × (t.state ≡ s.state)
        × (t.file.content ≡ s.file.content))

-- The two outcomes of a write of `st` that leaves memory alone.
abbrev Written : StateDisk → Store → Store → State → Option StoreError → Type 0
Written disk s t st failure =
    ((failure ≡ none) × (t.state ≡ s.state) × (t.file.content ≡ some (disk.encode st)))
    ⊎ ((e : StoreError) × (failure ≡ some e)
        × (t.state ≡ s.state)
        × (t.file.content ≡ s.file.content))

write_file-Written :
    (disk : StateDisk) (s : Store) (st : State)
    → Written disk s (write_file disk s st).0 st (write_file disk s st).1
unfolding write_file
write_file-Written disk s st = elim (save_cases disk.steps s.file (disk.encode st)) [
  | inl (p, q) ↦ inl (ground arith, refl, ground arith)
  | inr (e, p, q) ↦ inr (save_failed e, ground arith, refl, ground arith)
]

save_limited-Written :
    (disk : StateDisk) (s : Store) (st : State)
    → Written disk s (save_limited disk s st).0 st (save_limited disk s st).1
unfolding save_limited
save_limited-Written disk s st = elim (Bool-cases (s.write_budget == 0)) [
  | inl spent ↦ simp spent (inr (simulated_write_failure, refl, refl, refl))
  | inr left ↦
      simp left (write_file-Written disk (record s { write_budget = s.write_budget - 1 }) st)
]

save_locked-Written :
    (disk : StateDisk) (s : Store) (st : State)
    → Written disk s (save_locked disk s st).0 st (save_locked disk s st).1
unfolding save_locked
save_locked-Written disk s st = elim (Bool-cases s.limit_writes) [
  | inr free ↦ simp free (write_file-Written disk s st)
  | inl limited ↦ simp limited (save_limited-Written disk s st)
]

pub update-Updated :
    (disk : StateDisk) (s : Store) (fn : State → State)
    → Updated disk s (update disk s fn).0 (fn s.state) (update disk s fn).1
unfolding update
update-Updated disk s fn = elim (save_locked-Written disk s (fn s.state)) [
  | inl (p, q, r) ↦ rw (p, save_state) (inl (refl, refl, r))
  | inr (e, p, q, r) ↦ rw (p, save_state) (inr (e, refl, q, r))
]

-- The file holds the text of what is in memory, or memory is what was read from it.
abbrev pub IsSynced : StateDisk → Store → Type 0
IsSynced disk s =
    ((s.file.content ≡ none) × (s.state ≡ zero_state))
    ⊎ ((text : String) × (s.file.content ≡ some text)
        × ((disk.encode s.state ≡ text) ⊎ (disk.decode text ≡ ok s.state)))

open_text-IsSynced :
    (disk : StateDisk) (file : StateFile String) (text : String) (o : Result String State)
    (s : Store)
    → file.content ≡ some text
    → disk.decode text ≡ o
    → open_text file o ≡ ok s
    → IsSynced disk s
unfolding open_text opened_at
open_text-IsSynced disk file text (err cause) s at read h = cc h
open_text-IsSynced disk file text (ok st) s at read h =
    let same : s ≡ opened_at file st = ground (arith, h) in rw same (inr (text, at, inr read))

-- A store that is opened over a file is what was read from it.
pub open_store-IsSynced :
    (disk : StateDisk) (file : StateFile String) (s : Store)
    → open_store disk file (ok file.content) ≡ ok s
    → IsSynced disk s
unfolding open_store opened_at
open_store-IsSynced disk file s h = elim (Option-cases file.content) [
  | inl missing ↦
      let same : s ≡ opened_at file zero_state = ground (arith, h, missing) in
      rw same (inl (missing, refl))
  | inr (text, at) ↦
      open_text-IsSynced disk file text (disk.decode text) s at refl (rw (at, open_store) at h)
]

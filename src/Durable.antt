-- ===== src/Durable.antt =====
-- The temp-file-sync-rename write that internal/control/ledger.go and internal/remoteconfig/store.go
-- each spell out in `saveLocked`. The operating system is a parameter: what each step of the
-- n-th save returns.
use monitoreoedgeis.Prelude.{
  ℕ, suc, ◌≡◌, ◌⊎◌, inl, inr, Option, none, some, String, arith, Option-cases,
}

pub data SaveStep : Type 0 where
  make_dir encode create_temp write_temp sync_temp chmod_temp close_temp rename_temp : SaveStep

-- An error names the step that failed and wraps its cause.
pub record SaveError : Type 0 where
  pub step : SaveStep
  pub cause : String

-- `none` where the step succeeds.
abbrev pub Disk : Type 0
Disk = ℕ → SaveStep → Option String

unfoldable pub attempt : (SaveStep → Option String) → SaveStep → Option SaveError → Option SaveError
attempt outcome step rest = elim (outcome step) [
  | some cause ↦ some (record { step = step; cause = cause })
  | none ↦ rest
]

-- The steps in the source's order; the first that fails ends the save.
unfoldable pub save_steps : (SaveStep → Option String) → Option SaveError
unfolding attempt
save_steps outcome = attempt outcome make_dir (
    attempt outcome encode (
      attempt outcome create_temp (
        attempt outcome write_temp (
          attempt outcome sync_temp (
            attempt outcome chmod_temp
              (attempt outcome close_temp (attempt outcome rename_temp none)))))))

-- The file in place, and how many saves were tried. Until the rename only the temporary file,
-- which is removed again, has changed.
pub record StateFile (S : Type 0) : Type 0 where
  pub content : Option S
  pub saves : ℕ

unfoldable pub save : {S : Type 0} → Disk → StateFile S → S → StateFile S × Option SaveError
save disk file candidate = elim (save_steps (disk file.saves)) [
  | none ↦ (record { content = some candidate; saves = suc file.saves }, none)
  | some e ↦ (record file { saves = suc file.saves }, some e)
]

-- What `os.ReadFile` and `json.Unmarshal` make of the file at a start.
pub data Loaded (S : Type 0) : Type 0 where
  missing : Loaded S
  unreadable : String → Loaded S
  invalid : String → Loaded S
  parsed : S → Loaded S

abbrev pub read_back : {S : Type 0} → StateFile S → Loaded S
read_back file = elim file.content [ none ↦ missing | some s ↦ parsed s ]

-- A save replaces the file exactly when it reports no error.
pub save_cases :
    {S : Type 0} (disk : Disk) (file : StateFile S) (candidate : S)
    → (((save disk file candidate).1 ≡ none)
        × ((save disk file candidate).0.content ≡ some candidate))
      ⊎ ((e : SaveError) × ((save disk file candidate).1 ≡ some e)
          × ((save disk file candidate).0.content ≡ file.content))
unfolding save
save_cases disk file candidate = elim (Option-cases (save_steps (disk file.saves))) [
  | inl p ↦ inl (ground arith, ground arith)
  | inr (e, p) ↦ inr (e, ground arith, ground arith)
]

-- ===== src/EdgeBacklog/Inactive.antt =====
-- internal/edgebacklog/backlog.go: the marks of cameras that the SaaS holds inactive, and inactive.json.
use monitoreoedgeis.Prelude.{
  ℕ, zero, suc, Bool, true, false, ◌&&◌, ◌||◌, Option, none, some, option_or, String, str_eq, List,
  [], ◌∷◌, length, ltb, ◌==◌, if◌then◌else◌, is_some,
}
use Prim.Native.Nat.{Ordering}
use Prim.Native.String.{compare as compare_str}
use monitoreoedgeis.Prelude.Map.{Map, lookup, delete}
use monitoreoedgeis.EdgeBacklog.{Record, Backlog, Fault, Fs}
use monitoreoedgeis.EdgeBacklog.Files.{record_persist_failure, persist_locked}

abbrev pub max_inactive_cameras : ℕ
max_inactive_cameras = 256

abbrev str_lt : String → String → Bool
str_lt a b = elim (compare_str a b) [ Ordering.lt ↦ true | _ ↦ false ]

-- The loop of `capInactiveLocked` that finds the oldest mark.
unfoldable pub oldest_mark : String → ℕ → Map ℕ → String
oldest_mark key oldest [] = key
oldest_mark key oldest ((k, since) ∷ m) =
    let here = oldest_mark k since m in
    let later = oldest_mark key oldest m in
    if str_eq key "" || ltb since oldest || (since == oldest && str_lt k key) then here else later

-- `capInactiveLocked` on the marks and the probe times, for as many turns as there are marks at most.
unfoldable pub cap_marks : ℕ → Map ℕ → Map ℕ → Map ℕ × Map ℕ
unfolding oldest_mark
cap_marks zero marks probes = (marks, probes)
cap_marks (suc fuel) marks probes =
    let key = oldest_mark "" 0 marks in
    let rest = cap_marks fuel (delete key marks) (delete key probes) in
    if ltb max_inactive_cameras (length marks) then rest else (marks, probes)

abbrev state_of : Map ℕ → Map ℕ → Map (ℕ × ℕ)
state_of [] probes = []
state_of ((k, since) ∷ marks) probes =
    (k, (since, option_or (lookup k probes) 0)) ∷ state_of marks probes

module _ {G : Type 0} where
  unfoldable pub cap_inactive : Backlog G → Backlog G
  unfolding cap_marks
  cap_inactive b =
      let (marks, probes) =
        cap_marks (length b.inactive_candidates) b.inactive_candidates b.inactive_probe_at in
      record b { inactive_candidates = marks; inactive_probe_at = probes }

  -- `syncDir` of the directory, once the file is in place or gone.
  unfoldable pub sync_dir : Fs → Backlog G → Backlog G
  sync_dir fs b =
      let b₁ = record b { operations = suc b.operations } in
      elim (fs b.operations) [ none ↦ b₁ | some f ↦ record_persist_failure b₁ f ]

  -- `removeFileDurable` of inactive.json, its failure recorded.
  unfoldable pub remove_state : Fs → Backlog G → Backlog G
  remove_state fs b =
      let b₁ = record b { operations = suc b.operations } in
      elim (fs b.operations) [
        | none ↦ sync_dir fs (record b₁ { inactive_file = none })
        | some f ↦ if f.not_exist then b₁ else record_persist_failure b₁ f
      ]

  -- `replaceFileDurable` of inactive.json, its failure recorded; one that follows a failure removes
  -- the temporary file.
  unfoldable pub rename_state : Fs → Backlog G → Map (ℕ × ℕ) → Backlog G
  rename_state fs b state = elim (fs b.operations) [
    | some f ↦ record_persist_failure (record b { operations = suc (suc b.operations) }) f
    | none ↦ sync_dir fs (record b { operations = suc b.operations; inactive_file = some state })
  ]

  unfoldable pub replace_state : Fs → Backlog G → Map (ℕ × ℕ) → Backlog G
  replace_state fs b state = elim (fs b.operations) [
    | some f ↦ record_persist_failure (record b { operations = suc (suc b.operations) }) f
    | none ↦ rename_state fs (record b { operations = suc b.operations }) state
  ]

  unfoldable pub write_state : Fs → Backlog G → Map (ℕ × ℕ) → Option Fault → Backlog G
  unfolding replace_state
  write_state fs b state (some f) = record_persist_failure b f
  write_state fs b state none = replace_state fs b state

  -- `persistInactiveLocked`; `marshal` is `json.Marshal` of the state, with its error.
  unfoldable pub persist_inactive : Fs → (Map (ℕ × ℕ) → Option Fault) → Backlog G → Backlog G
  unfolding cap_inactive write_state
  persist_inactive fs marshal b =
      let b₁ = cap_inactive b in
      let state = state_of b₁.inactive_candidates b₁.inactive_probe_at in
      if length b₁.inactive_candidates == 0
      then remove_state fs b₁
      else write_state fs b₁ state (marshal state)

  unfoldable pub has_pending : String → List (Record G) → Bool
  has_pending key [] = false
  has_pending key (r ∷ q) =
      if str_eq r.submission.event.candidate_key key then true else has_pending key q

  -- The loop of `markActiveLocked`: the camera's records become due, and their marks are cleared.
  unfoldable pub wake :
      Fs
      → (Record G → Option Fault)
      → ℕ
      → String
      → List (Record G)
      → Backlog G
      → Backlog G × List (Record G)
  wake fs marshal now key [] b = (b, [])
  wake fs marshal now key (r ∷ q) b =
      let mine = str_eq r.submission.event.candidate_key key in
      let r' = if mine then record r { next_attempt = now; inactive_since = none } else r in
      let b₁ = if mine && is_some r.inactive_since then persist_locked fs marshal b r' else b in
      let (b₂, q') = wake fs marshal now key q b₁ in (b₂, r' ∷ q')

  -- `markActiveLocked`.
  unfoldable pub mark_active :
      Fs
      → (Record G → Option Fault)
      → (Map (ℕ × ℕ) → Option Fault)
      → ℕ
      → String
      → Backlog G
      → Backlog G
  unfolding wake persist_inactive
  mark_active fs marshal marshal_state now key b =
      let b₁ =
        if is_some (lookup key b.inactive_candidates)
        then persist_inactive fs marshal_state (record b {
          inactive_candidates = delete key b.inactive_candidates;
          inactive_probe_at = delete key b.inactive_probe_at;
        })
        else b in
      let (b₂, q) = wake fs marshal now key b₁.queue b₁ in record b₂ { queue = q }

-- ===== src/EdgeBacklog/Synced.antt =====
-- internal/edgebacklog/backlog.go: the files and the marks leave the events handed on alone.
use monitoreoedgeis.Prelude.{
  ℕ, ◌≡◌, refl, ◌∙◌, ap, ◌&&◌, Option, none, some, String, str_eq, List, [], ◌∷◌, length, arith,
  ◌==◌, is_some, if-rule, if◌then◌else◌,
}
use monitoreoedgeis.Prelude.Map.{Map, lookup, delete}
use monitoreoedgeis.EdgeBacklog.{Record, Backlog, Fault, Fs}
use monitoreoedgeis.EdgeBacklog.Files.{
  persist_locked, remove_locked, delete_pending, record_persist_failure, write_locked, write_temp,
  rename_temp,
}
use monitoreoedgeis.EdgeBacklog.Inactive.{
  wake, mark_active, persist_inactive, cap_inactive, write_state, remove_state, replace_state,
  rename_state, sync_dir,
}
use monitoreoedgeis.EdgeBacklog.Submit.{Environment}
use monitoreoedgeis.EdgeBacklog.Capacity.{persist_inactive-Kept}

module _ {G : Type 0} where
  -- What the backlog hands to the callbacks, which the files do not touch.
  sync_dir-synced : (fs : Fs) (b : Backlog G) → (sync_dir fs b).synced ≡ b.synced
  unfolding sync_dir record_persist_failure
  sync_dir-synced fs b = ground arith

  write_state-synced :
      (fs : Fs) (b : Backlog G) (state : Map (ℕ × ℕ)) (o : Option Fault)
      → (write_state fs b state o).synced ≡ b.synced
  unfolding write_state replace_state rename_state sync_dir record_persist_failure
  write_state-synced fs b state (some f) = refl
  write_state-synced fs b state none = ground arith

  persist_inactive-synced :
      (fs : Fs) (marshal : Map (ℕ × ℕ) → Option Fault) (b : Backlog G)
      → (persist_inactive fs marshal b).synced ≡ b.synced
  unfolding persist_inactive cap_inactive remove_state sync_dir record_persist_failure
  persist_inactive-synced fs marshal b =
      if-rule (λ (c : Backlog G). c.synced ≡ b.synced)
        (length (cap_inactive b).inactive_candidates == 0) (λ _. ground arith)
        (λ _. write_state-synced fs (cap_inactive b) _ _)

  pub persist_locked-synced :
      (fs : Fs) (marshal : Record G → Option Fault) (b : Backlog G) (r : Record G)
      → (persist_locked fs marshal b r).synced ≡ b.synced
  unfolding persist_locked write_locked write_temp rename_temp record_persist_failure
  persist_locked-synced fs marshal b r = ground arith

  pub remove_locked-synced :
      (fs : Fs) (b : Backlog G) (r : Record G) → (remove_locked fs b r).synced ≡ b.synced
  unfolding remove_locked delete_pending record_persist_failure
  remove_locked-synced fs b r = ground arith

  wake-synced :
      (fs : Fs) (marshal : Record G → Option Fault) (now : ℕ) (key : String) (q : List (Record G))
      (b : Backlog G)
      → (wake fs marshal now key q b).0.synced ≡ b.synced
  unfolding wake
  wake-synced fs marshal now key [] b = refl
  wake-synced fs marshal now key (x ∷ q) b =
      let mine = str_eq x.submission.event.candidate_key key in
      let woken : Record G =
        if mine then record x { next_attempt = now; inactive_since = none } else x in
      wake-synced fs marshal now key q _
      ∙ if-rule (λ (c : Backlog G). c.synced ≡ b.synced) (mine && is_some x.inactive_since)
          (λ _. persist_locked-synced fs marshal b woken) (λ _. refl)

  -- The backlog in which `markActiveLocked` looks for the camera's records.
  unmark_with : Environment G → String → Backlog G → Backlog G
  unmark_with env key b =
      if is_some (lookup key b.inactive_candidates)
      then persist_inactive env.fs env.marshal_state (record b {
        inactive_candidates = delete key b.inactive_candidates;
        inactive_probe_at = delete key b.inactive_probe_at;
      })
      else b

  unmark-Kept :
      (env : Environment G) (key : String) (b : Backlog G)
      → ((unmark_with env key b).queue ≡ b.queue) × ((unmark_with env key b).synced ≡ b.synced)
  unfolding unmark_with
  unmark-Kept env key b =
      let cleared = record b {
        inactive_candidates = delete key b.inactive_candidates;
        inactive_probe_at = delete key b.inactive_probe_at;
      } in
      if-rule (λ (c : Backlog G). (c.queue ≡ b.queue) × (c.synced ≡ b.synced))
        (is_some (lookup key b.inactive_candidates))
        {x = persist_inactive env.fs env.marshal_state cleared} {y = b}
        (λ _.
          let (_, queue, _) = persist_inactive-Kept env.fs env.marshal_state cleared in
          (queue, persist_inactive-synced env.fs env.marshal_state cleared))
        (λ _. (refl, refl))

  pub mark_active_lem :
      (env : Environment G) (now : ℕ) (key : String) (b : Backlog G)
      → ((mark_active env.fs env.marshal env.marshal_state now key b).synced ≡ b.synced)
        × ((c : Backlog G) × ((mark_active env.fs env.marshal env.marshal_state now key b).queue
              ≡ (wake env.fs env.marshal now key b.queue c).1))
  unfolding mark_active unmark_with
  mark_active_lem env now key b = (
    wake-synced env.fs env.marshal now key (unmark_with env key b).queue (unmark_with env key b)
        ∙ (unmark-Kept env key b).1,
    (
      unmark_with env key b,
      ap (λ (q : List (Record G)). (wake env.fs env.marshal now key q (unmark_with env key b)).1)
          (unmark-Kept env key b).0,
    ),
  )

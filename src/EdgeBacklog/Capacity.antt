-- ===== src/EdgeBacklog/Capacity.antt =====
-- internal/edgebacklog/backlog.go: what `Enqueue` does to the queue and to the files.
use monitoreoedgeis.Prelude.{
  ℕ, ◌≤◌, ◌<◌, ◌≡◌, refl, sym, ◌∙◌, ap, subst, ◌⊎◌, inl, inr, true, false, Option, none, some,
  String, List, [], ◌∷◌, ◌++◌, arith, length, length-append, ◌==◌, is_some, if-rule, Option-cases,
}
use monitoreoedgeis.Prelude.Int.{ℤ, pos, add_int64, ◌≤ℤ◌, ≤ℤ_of_not_ltb}
use monitoreoedgeis.Prelude.Map.{Map}
use monitoreoedgeis.EdgeBacklog.{
  Submission, Record, Backlog, Config, Fault, Fs, pending_bytes, bytes_from, submission_bytes,
}
use monitoreoedgeis.EdgeBacklog.Files.{
  record_persist_failure, write_locked, write_temp, rename_temp, put_file, find_file,
}
use monitoreoedgeis.EdgeBacklog.Inactive.{
  persist_inactive, cap_inactive, write_state, remove_state, replace_state, rename_state, sync_dir,
}
use monitoreoedgeis.EdgeBacklog.Submit.{
  Environment, EnqueueError, write_error, after_write, problem_of, find_event, note_probe,
  new_record, append_record, over_bound, admit, check_camera, check_pending, enqueue,
}

module _ {G : Type 0} where
  find_file-put_file :
      (n : ℕ) (r : Record G) (d : List (ℕ × Record G)) → find_file n (put_file n r d) ≡ some r
  unfolding find_file put_file
  find_file-put_file n r [] = ground arith
  find_file-put_file n r ((k, s) ∷ d) = ground (arith, find_file-put_file n r d)

  pub bytes_from-append :
      (n : ℤ) (q : List (Record G)) (r : Record G)
      → bytes_from n (q ++ (r ∷ [])) ≡ add_int64 (bytes_from n q) (submission_bytes r.submission)
  unfolding bytes_from
  bytes_from-append n [] r = refl
  bytes_from-append n (x ∷ q) r =
      bytes_from-append (add_int64 n (submission_bytes x.submission)) q r

  -- The parts that the marks' file and the failure counters do not touch.
  abbrev pub Kept : Backlog G → Backlog G → Type 0
  Kept b c = (c.cfg ≡ b.cfg) × (c.queue ≡ b.queue) × (c.pending ≡ b.pending)

  sync_dir-Kept : (fs : Fs) (b : Backlog G) → Kept b (sync_dir fs b)
  unfolding sync_dir record_persist_failure
  sync_dir-Kept fs b = ground arith

  rename_state-Kept :
      (fs : Fs) (b : Backlog G) (state : Map (ℕ × ℕ)) → Kept b (rename_state fs b state)
  unfolding rename_state sync_dir record_persist_failure
  rename_state-Kept fs b state = ground arith

  replace_state-Kept :
      (fs : Fs) (b : Backlog G) (state : Map (ℕ × ℕ)) → Kept b (replace_state fs b state)
  unfolding replace_state rename_state sync_dir record_persist_failure
  replace_state-Kept fs b state = ground arith

  remove_state-Kept : (fs : Fs) (b : Backlog G) → Kept b (remove_state fs b)
  unfolding remove_state sync_dir record_persist_failure
  remove_state-Kept fs b = ground arith

  write_state-Kept :
      (fs : Fs) (b : Backlog G) (state : Map (ℕ × ℕ)) (o : Option Fault)
      → Kept b (write_state fs b state o)
  unfolding write_state record_persist_failure
  write_state-Kept fs b state (some f) = (refl, refl, refl)
  write_state-Kept fs b state none = replace_state-Kept fs b state

  pub persist_inactive-Kept :
      (fs : Fs) (marshal : Map (ℕ × ℕ) → Option Fault) (b : Backlog G)
      → Kept b (persist_inactive fs marshal b)
  unfolding persist_inactive cap_inactive
  persist_inactive-Kept fs marshal b =
      if-rule (Kept b) (length (cap_inactive b).inactive_candidates == 0)
        (λ _. remove_state-Kept fs (cap_inactive b)) (λ _. write_state-Kept fs (cap_inactive b) _ _)

  note_probe-Kept :
      (env : Environment G) (now : ℕ) (key : String) (probe : Option ℕ) (b : Backlog G)
      → Kept b (note_probe env now key probe b)
  unfolding note_probe
  note_probe-Kept env now key none b = (refl, refl, refl)
  note_probe-Kept env now key (some _) b = persist_inactive-Kept env.fs env.marshal_state _

  -- What a write leaves as it was, and the file that it puts in place where it works.
  write_locked_lem :
      (fs : Fs) (marshal : Record G → Option Fault) (b : Backlog G) (r : Record G)
      → let (c, problem) = write_locked fs marshal b r in
        (c.cfg ≡ b.cfg)
        × (c.queue ≡ b.queue)
        × (((problem ≡ none) × (c.pending ≡ put_file r.sequence r b.pending))
            ⊎ ((f : Fault) × (problem ≡ some f) × (c.pending ≡ b.pending)))
  unfolding write_locked write_temp rename_temp
  write_locked_lem fs marshal b r = ground arith

  -- The queue and the files after `append_record`.
  abbrev Appended : Backlog G → Record G → Backlog G × Option EnqueueError → Type 0
  Appended b r p =
      (p.0.cfg ≡ b.cfg)
      × (((p.1 ≡ none)
            × (p.0.queue ≡ b.queue ++ (r ∷ []))
            × (find_file r.sequence p.0.pending ≡ some r))
          ⊎ ((f : Fault) × (p.1 ≡ some (write_error f))
              × (p.0.queue ≡ b.queue)
              × (p.0.pending ≡ b.pending)))

  after_write-Appended :
      (env : Environment G) (now : ℕ) (b c : Backlog G) (r : Record G) (o : Option Fault)
      → c.cfg ≡ b.cfg
      → c.queue ≡ b.queue
      → ((o ≡ none) × (c.pending ≡ put_file r.sequence r b.pending))
        ⊎ ((f : Fault) × (o ≡ some f) × (c.pending ≡ b.pending))
      → Appended b r (after_write env now r c o)
  unfolding after_write record_persist_failure
  after_write-Appended env now b c r (some f) h k (inl (e, p)) = cc e
  after_write-Appended env now b c r (some f) h k (inr (g, e, p)) = (h, inr (f, refl, k, p))
  after_write-Appended env now b c r none h k (inl (e, p)) =
      let (cfg, queue, pending) =
        note_probe-Kept env now r.submission.event.candidate_key r.inactive_since
          (record c { disk_full = false; queue = c.queue ++ (r ∷ []) }) in
      (
        cfg ∙ h,
        inl (
          refl,
          queue ∙ ap (λ q. q ++ (r ∷ [])) k,
          ap (find_file r.sequence) (pending ∙ p) ∙ find_file-put_file r.sequence r b.pending,
        ),
      )
  after_write-Appended env now b c r none h k (inr (g, e, p)) = cc e

  append_record-Appended :
      (env : Environment G) (now : ℕ) (b : Backlog G) (s : Submission G) (probe : Option ℕ)
      → Appended b (new_record now b s probe) (append_record env now b s probe)
  unfolding append_record
  append_record-Appended env now b s probe =
      let r = new_record now b s probe in
      let (cfg, queue, pending) =
        write_locked_lem env.fs env.marshal (record b { counter = r.sequence }) r in
      after_write-Appended env now b _ r _ cfg queue pending

  -- What `Enqueue` can do: nothing to the queue and the files, or one record more in both.
  abbrev pub Enqueued :
      ℕ → Backlog G → Submission G → Option (Record G) → Backlog G × Option EnqueueError → Type 0
  Enqueued now b s found p =
      (p.0.cfg ≡ b.cfg)
      × (((p.0.queue ≡ b.queue)
            × (p.0.pending ≡ b.pending)
            × ((is_some p.1 ≡ true) ⊎ (is_some found ≡ true)))
          ⊎ ((probe : Option ℕ) × (over_bound b s ≡ false)
              × (p.1 ≡ none)
              × (p.0.queue ≡ b.queue ++ (new_record now b s probe ∷ []))
              × (find_file (new_record now b s probe).sequence p.0.pending
                  ≡ some (new_record now b s probe))))

  admit-Enqueued :
      (env : Environment G) (now : ℕ) (b : Backlog G) (s : Submission G) (probe : Option ℕ)
      → Enqueued now b s none (admit env now b s probe)
  unfolding admit
  admit-Enqueued env now b s probe =
      if-rule (Enqueued now b s none) (over_bound b s) (λ _. (refl, inl (refl, refl, inl refl)))
        λ room.
          let (cfg, way) = append_record-Appended env now b s probe in
          (
            cfg,
            elim way [
              | inl (e, queue, file) ↦ inr (probe, room, e, queue, file)
              | inr (f, e, queue, pending) ↦ inl (queue, pending, inl (ap is_some e))
            ],
          )

  check_camera-Enqueued :
      (env : Environment G) (now : ℕ) (b : Backlog G) (s : Submission G) (mark : Option ℕ)
      → Enqueued now b s none (check_camera env now b s mark)
  unfolding check_camera
  check_camera-Enqueued env now b s none = admit-Enqueued env now b s none
  check_camera-Enqueued env now b s (some since) =
      if-rule (Enqueued now b s none) _ (λ _. (refl, inl (refl, refl, inl refl)))
        (λ _. admit-Enqueued env now b s (some since))

  check_pending-Enqueued :
      (env : Environment G) (now : ℕ) (b : Backlog G) (s : Submission G) (found : Option (Record G))
      → Enqueued now b s found (check_pending env now b s found)
  unfolding check_pending
  check_pending-Enqueued env now b s none = check_camera-Enqueued env now b s _
  check_pending-Enqueued env now b s (some r) =
      if-rule (Enqueued now b s (some r)) _ (λ _. (refl, inl (refl, refl, inr refl)))
        (λ _. (refl, inl (refl, refl, inl refl)))

  pub enqueue-Enqueued :
      (env : Environment G) (now : ℕ) (b : Backlog G) (s : Submission G)
      → Enqueued now b s (find_event s.event.event_uuid b.queue) (enqueue env now b s)
  unfolding enqueue
  enqueue-Enqueued env now b s = elim (Option-cases (problem_of env s)) [
    | inr (e, p) ↦ rw (p, enqueue) (refl, inl (refl, refl, inl refl))
    | inl p ↦ rw (p, enqueue) (check_pending-Enqueued env now b s _)
  ]

  -- The bounds of the configuration.
  abbrev pub IsWithin : Config → List (Record G) → Type 0
  IsWithin cfg q = (length q ≤ cfg.max_operations) × (pending_bytes q ≤ℤ cfg.max_bytes)

  room_lem :
      (b : Backlog G) (s : Submission G)
      → over_bound b s ≡ false
      → (length b.queue < b.cfg.max_operations)
        × (add_int64 (pending_bytes b.queue) (submission_bytes s) ≤ℤ b.cfg.max_bytes)
  unfolding over_bound
  room_lem b s h = (
    ground arith,
    ≤ℤ_of_not_ltb b.cfg.max_bytes (add_int64 (pending_bytes b.queue) (submission_bytes s))
        (ground arith),
  )

  -- `Enqueue` keeps the queue within MaxOperations records and MaxBytes bytes, on every branch.
  pub enqueue-IsWithin :
      (env : Environment G) (now : ℕ) (b : Backlog G) (s : Submission G)
      → IsWithin b.cfg b.queue
      → IsWithin b.cfg (enqueue env now b s).0.queue
  unfolding pending_bytes new_record
  enqueue-IsWithin env now b s within =
      let (_, way) = enqueue-Enqueued env now b s in
      elim way [
        | inl (queue, _, _) ↦ subst (IsWithin b.cfg) (sym queue) within
        | inr (probe, room, _, queue, _) ↦
            let (count, bytes) = room_lem b s room in
            let r = new_record now b s probe in
            subst (IsWithin b.cfg) (sym queue) (
              omega (arith, length-append b.queue (r ∷ [])),
              subst (λ n. n ≤ℤ b.cfg.max_bytes) (sym (bytes_from-append (pos 0) b.queue r)) bytes,
            )
      ]

  -- A submission that is accepted as new stands at the end of the queue, in its first stage, and in a
  -- file of pending/ under its sequence, and the records that were queued stay as they were.
  pub enqueue-stored :
      (env : Environment G) (now : ℕ) (b : Backlog G) (s : Submission G)
      → (enqueue env now b s).1 ≡ none
      → find_event s.event.event_uuid b.queue ≡ none
      → let c = (enqueue env now b s).0 in
        (r : Record G) × (c.queue ≡ b.queue ++ (r ∷ []))
        × (find_file r.sequence c.pending ≡ some r)
        × (r.submission ≡ s)
        × (r.stage ≡ "metadata")
  unfolding new_record
  enqueue-stored env now b s h new =
      let (_, way) = enqueue-Enqueued env now b s in
      elim way [
        | inl (_, _, inl failed) ↦ cc (failed, h)
        | inl (_, _, inr found) ↦ cc (found, new)
        | inr (probe, _, _, queue, file) ↦ (new_record now b s probe, queue, file, refl, refl)
      ]

-- ===== src/EdgeBacklog/Bounds.antt =====
-- internal/edgebacklog/backlog.go: the bounds of quarantine/ and of the inactive marks.
use monitoreoedgeis.Prelude.{
  ℕ, zero, suc, ◌≤◌, ◌<◌, ◌≡◌, refl, ◌⊎◌, inl, inr, true, false, String, str_eq, eq_refl, List, [],
  ◌∷◌, ◌++◌, arith, length, is_some,
}
use monitoreoedgeis.Prelude.Map.{Map, delete, lookup}
use monitoreoedgeis.EdgeBacklog.{Record, Backlog, Fs}
use monitoreoedgeis.EdgeBacklog.Files.{
  record_persist_failure, evict, enforce_quarantine_bound, quarantine_locked, delete_file,
  move_file, remove_at, sort_seqs,
}
use monitoreoedgeis.EdgeBacklog.Inactive.{
  oldest_mark, cap_marks, max_inactive_cameras, cap_inactive,
}

module _ {G : Type 0} where
  evict_bound :
      (fs : Fs) (max : ℕ) (seqs : List ℕ) (b : Backlog G)
      → (length (evict fs max seqs b).quarantine_seqs ≤ max)
        ⊎ ((evict fs max seqs b).persist_errors ≡ suc b.persist_errors)
  unfolding evict record_persist_failure
  evict_bound fs max [] b = inl (omega arith)
  evict_bound fs max (x ∷ seqs) b = ground (
    arith,
    evict_bound fs max seqs (record b {
      operations = suc b.operations;
      quarantine = delete_file x b.quarantine;
      quarantine_evicted = suc b.quarantine_evicted;
    }),
  )

  -- Moving a record to quarantine/ leaves at most MaxOperations records there, or counts one failure
  -- of the files more.
  pub quarantine_locked_bound :
      (fs : Fs) (b : Backlog G) (r : Record G)
      → (length (quarantine_locked fs b r).quarantine_seqs ≤ b.cfg.max_operations)
        ⊎ ((quarantine_locked fs b r).persist_errors ≡ suc b.persist_errors)
  unfolding quarantine_locked enforce_quarantine_bound record_persist_failure
  quarantine_locked_bound fs b r = ground (
    arith,
    evict_bound fs b.cfg.max_operations (sort_seqs (b.quarantine_seqs ++ (r.sequence ∷ [])))
        (record b {
          operations = suc b.operations;
          queue = remove_at r.sequence b.queue;
          pending = delete_file r.sequence b.pending;
          quarantine = move_file r.sequence b.pending b.quarantine;
          quarantine_seqs = sort_seqs (b.quarantine_seqs ++ (r.sequence ∷ []));
        }),
  )

length-delete : {V : Type 0} (k : String) (m : Map V) → length (delete k m) ≤ length m
unfolding delete
length-delete k [] = omega arith
length-delete k ((j, v) ∷ m) = ground (arith, length-delete k m)

length-delete_found :
    {V : Type 0} (k : String) (m : Map V)
    → is_some (lookup k m) ≡ true
    → length (delete k m) < length m
unfolding delete lookup
length-delete_found k [] h = cc h
length-delete_found k ((j, v) ∷ m) h = ground (arith, length-delete k m, length-delete_found k m)

-- The loop ends on a key of the map, or on the key that it had.
oldest_mark_lem :
    (key : String) (oldest : ℕ) (m : Map ℕ)
    → (is_some (lookup (oldest_mark key oldest m) m) ≡ true)
      ⊎ ((oldest_mark key oldest m ≡ key) × ((m ≡ []) ⊎ (str_eq key "" ≡ false)))
unfolding oldest_mark lookup
oldest_mark_lem key oldest [] = inr (refl, inl refl)
oldest_mark_lem key oldest ((k, since) ∷ m) =
    ground (arith, oldest_mark_lem k since m, oldest_mark_lem key oldest m, eq_refl k)

oldest_mark_found :
    (k : String) (since : ℕ) (m : Map ℕ)
    → is_some (lookup (oldest_mark "" 0 ((k, since) ∷ m)) ((k, since) ∷ m)) ≡ true
unfolding oldest_mark lookup
oldest_mark_found k since m = ground (arith, oldest_mark_lem k since m, eq_refl k)

cap_marks_bound :
    (fuel : ℕ) (marks probes : Map ℕ)
    → length marks ≤ fuel
    → length (cap_marks fuel marks probes).0 ≤ max_inactive_cameras
unfolding cap_marks
cap_marks_bound zero marks probes h = omega arith
cap_marks_bound (suc fuel) [] probes h = ground arith
cap_marks_bound (suc fuel) ((k, since) ∷ m) probes h =
    let marks = (k, since) ∷ m in
    let key = oldest_mark "" 0 marks in
    let shorter = length-delete_found key marks (oldest_mark_found k since m) in
    ground (arith, shorter, cap_marks_bound fuel (delete key marks) (delete key probes))

-- The turns that the loop over the marks is given are enough: it leaves at most 256 of them.
pub cap_inactive_bound :
    {G : Type 0} (b : Backlog G)
    → length (cap_inactive b).inactive_candidates ≤ max_inactive_cameras
unfolding cap_inactive
cap_inactive_bound b =
    cap_marks_bound (length b.inactive_candidates) b.inactive_candidates b.inactive_probe_at
      (omega arith)

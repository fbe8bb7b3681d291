-- ===== src/EdgeBacklog/Sequences.antt =====
-- internal/edgebacklog/backlog.go: which sequences the queue holds after each of its operations.
use monitoreoedgeis.Prelude.{
  ℕ, suc, ◌≡◌, refl, ◌∙◌, ap, ◌⊎◌, inl, Bool, true, ◌&&◌, Option, none, some, String, str_eq, List,
  [], ◌∷◌, ◌++◌, arith, if◌then◌else◌, is_some, if-rule,
}
use monitoreoedgeis.Prelude.Map.{lookup, delete}
use monitoreoedgeis.EdgeBacklog.{Record, Backlog, Fault, Fs}
use monitoreoedgeis.EdgeBacklog.Files.{
  replace_at, remove_at, record_persist_failure, write_locked, write_temp, rename_temp,
  persist_locked, delete_pending, remove_locked, evict, enforce_quarantine_bound, quarantine_locked,
  delete_file, move_file, sort_seqs,
}
use monitoreoedgeis.EdgeBacklog.Inactive.{wake, mark_active}
use monitoreoedgeis.EdgeBacklog.Submit.{Environment}
use monitoreoedgeis.EdgeBacklog.Process.{find_sequence}
use monitoreoedgeis.EdgeBacklog.Capacity.{persist_inactive-Kept}

module _ {G : Type 0} where
  abbrev pub has : ℕ → List (Record G) → Bool
  has n q = is_some (find_sequence n q)

  -- The same sequences are queued.
  abbrev pub SameSequences : List (Record G) → List (Record G) → Type 0
  SameSequences q p = (n : ℕ) → has n p ≡ has n q

  pub replace_at-SameSequences :
      (r : Record G) (q : List (Record G)) → SameSequences q (replace_at r q)
  unfolding replace_at find_sequence
  replace_at-SameSequences r [] n = refl
  replace_at-SameSequences r (x ∷ q) n = ground (arith, replace_at-SameSequences r q n)

  pub find_sequence-replace_at :
      (r : Record G) (q : List (Record G))
      → has r.sequence q ≡ true
      → find_sequence r.sequence (replace_at r q) ≡ some r
  unfolding replace_at find_sequence
  find_sequence-replace_at r [] h = cc h
  find_sequence-replace_at r (x ∷ q) h = ground (arith, find_sequence-replace_at r q)

  pub remove_at-others :
      (m n : ℕ) (q : List (Record G)) → (has n (remove_at m q) ≡ has n q) ⊎ (n ≡ m)
  unfolding remove_at find_sequence
  remove_at-others m n [] = inl refl
  remove_at-others m n (x ∷ q) = ground (arith, remove_at-others m n q)

  pub persist_locked-queue :
      (fs : Fs) (marshal : Record G → Option Fault) (b : Backlog G) (r : Record G)
      → (persist_locked fs marshal b r).queue ≡ b.queue
  unfolding persist_locked write_locked write_temp rename_temp record_persist_failure
  persist_locked-queue fs marshal b r = ground arith

  pub wake-SameSequences :
      (fs : Fs) (marshal : Record G → Option Fault) (now : ℕ) (key : String) (q : List (Record G))
      (b : Backlog G)
      → SameSequences q (wake fs marshal now key q b).1
  unfolding wake find_sequence
  wake-SameSequences fs marshal now key [] b n = refl
  wake-SameSequences fs marshal now key (x ∷ q) b n =
      let mine = str_eq x.submission.event.candidate_key key in
      let woken : Record G =
        if mine then record x { next_attempt = now; inactive_since = none } else x in
      let same : woken.sequence ≡ x.sequence =
        if-rule (λ (r : Record G). r.sequence ≡ x.sequence) mine (λ _. refl) (λ _. refl) in
      ground (
        arith,
        same,
        wake-SameSequences fs marshal now key q
            (if mine && is_some x.inactive_since then persist_locked fs marshal b woken else b) n,
      )

  pub mark_active-SameSequences :
      (env : Environment G) (now : ℕ) (key : String) (b : Backlog G)
      → SameSequences b.queue (mark_active env.fs env.marshal env.marshal_state now key b).queue
  unfolding mark_active
  mark_active-SameSequences env now key b n =
      wake-SameSequences env.fs env.marshal now key _ _ n
      ∙ if-rule (λ (c : Backlog G). has n c.queue ≡ has n b.queue)
          (is_some (lookup key b.inactive_candidates))
          (λ _.
            let (_, queue, _) = persist_inactive-Kept env.fs env.marshal_state (record b {
              inactive_candidates = delete key b.inactive_candidates;
              inactive_probe_at = delete key b.inactive_probe_at;
            }) in
            ap (has n) queue)
          (λ _. refl)

  pub evict-queue :
      (fs : Fs) (max : ℕ) (seqs : List ℕ) (b : Backlog G) → (evict fs max seqs b).queue ≡ b.queue
  unfolding evict record_persist_failure
  evict-queue fs max [] b = refl
  evict-queue fs max (x ∷ seqs) b = ground (
    arith,
    evict-queue fs max seqs (record b {
      operations = suc b.operations;
      quarantine = delete_file x b.quarantine;
      quarantine_evicted = suc b.quarantine_evicted;
    }),
  )

  pub quarantine_locked-queue :
      (fs : Fs) (b : Backlog G) (r : Record G)
      → (quarantine_locked fs b r).queue ≡ remove_at r.sequence b.queue
  unfolding quarantine_locked enforce_quarantine_bound record_persist_failure
  quarantine_locked-queue fs b r = ground (
    arith,
    evict-queue fs b.cfg.max_operations (sort_seqs (b.quarantine_seqs ++ (r.sequence ∷ [])))
        (record b {
          operations = suc b.operations;
          queue = remove_at r.sequence b.queue;
          pending = delete_file r.sequence b.pending;
          quarantine = move_file r.sequence b.pending b.quarantine;
          quarantine_seqs = sort_seqs (b.quarantine_seqs ++ (r.sequence ∷ []));
        }),
  )

  pub remove_locked-queue :
      (fs : Fs) (b : Backlog G) (r : Record G)
      → (remove_locked fs b r).queue ≡ remove_at r.sequence b.queue
  unfolding remove_locked delete_pending record_persist_failure
  remove_locked-queue fs b r = ground arith

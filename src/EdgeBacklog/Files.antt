-- ===== src/EdgeBacklog/Files.antt =====
-- internal/edgebacklog/backlog.go: the file operations of the backlog and how it counts their failures.
use Prim.Native.String.{◌++◌ as ◌++ₛ◌}
use monitoreoedgeis.Prelude.{
  ℕ, suc, false, Option, none, some, List, [], ◌∷◌, ◌++◌, length, ltb, ◌==◌, if◌then◌else◌,
}
use monitoreoedgeis.EdgeBacklog.{Record, Backlog, Fault, Fs, bounded_error}

-- `sort.Slice` of the sequences, after one that is new.
unfoldable pub insert_sorted : ℕ → List ℕ → List ℕ
insert_sorted n [] = n ∷ []
insert_sorted n (x ∷ xs) = if ltb x n then x ∷ insert_sorted n xs else n ∷ x ∷ xs

unfoldable pub sort_seqs : List ℕ → List ℕ
unfolding insert_sorted
sort_seqs [] = []
sort_seqs (x ∷ xs) = insert_sorted x (sort_seqs xs)

abbrev not_archived : Fault → Fault
not_archived moved = record moved {
  message = "edgebacklog: quarantine move failed: " ++ₛ moved.message;
}

module _ {G : Type 0} where
  -- A directory without the file of a sequence.
  unfoldable pub delete_file : ℕ → List (ℕ × Record G) → List (ℕ × Record G)
  delete_file n [] = []
  delete_file n ((k, r) ∷ d) = if k == n then delete_file n d else (k, r) ∷ delete_file n d

  unfoldable pub put_file : ℕ → Record G → List (ℕ × Record G) → List (ℕ × Record G)
  put_file n r [] = (n, r) ∷ []
  put_file n r ((k, s) ∷ d) = if k == n then (n, r) ∷ d else (k, s) ∷ put_file n r d

  unfoldable pub find_file : ℕ → List (ℕ × Record G) → Option (Record G)
  find_file n [] = none
  find_file n ((k, r) ∷ d) = if k == n then some r else find_file n d

  -- The first record with the sequence, replaced or removed: `b.queue[idx]`.
  unfoldable pub replace_at : Record G → List (Record G) → List (Record G)
  replace_at r [] = []
  replace_at r (x ∷ q) = if x.sequence == r.sequence then r ∷ q else x ∷ replace_at r q

  unfoldable pub remove_at : ℕ → List (Record G) → List (Record G)
  remove_at n [] = []
  remove_at n (x ∷ q) = if x.sequence == n then q else x ∷ remove_at n q

  unfoldable pub record_persist_failure : Backlog G → Fault → Backlog G
  record_persist_failure b f = record b {
    persist_errors = suc b.persist_errors;
    disk_full = f.disk_full;
    last_error = bounded_error f.message;
  }

  -- The temporary file and its rename; a failure removes the temporary file. `json.Marshal` is the
  -- argument `marshal`, with its error.
  unfoldable pub rename_temp : Fs → Backlog G → Record G → Backlog G × Option Fault
  rename_temp fs b r = elim (fs b.operations) [
    | some f ↦ (record b { operations = suc (suc b.operations) }, some f)
    | none ↦ (
      record b { operations = suc b.operations; pending = put_file r.sequence r b.pending },
      none,
    )
  ]

  unfoldable pub write_temp : Fs → Backlog G → Record G → Backlog G × Option Fault
  unfolding rename_temp
  write_temp fs b r = elim (fs b.operations) [
    | some f ↦ (record b { operations = suc (suc b.operations) }, some f)
    | none ↦ rename_temp fs (record b { operations = suc b.operations }) r
  ]

  unfoldable pub write_locked :
      Fs → (Record G → Option Fault) → Backlog G → Record G → Backlog G × Option Fault
  unfolding write_temp
  write_locked fs marshal b r = elim (marshal r) [ some f ↦ (b, some f) | none ↦ write_temp fs b r ]

  unfoldable pub persist_locked : Fs → (Record G → Option Fault) → Backlog G → Record G → Backlog G
  unfolding write_locked record_persist_failure
  persist_locked fs marshal b r =
      let (b', problem) = write_locked fs marshal b r in
      elim problem [ some f ↦ record_persist_failure b' f | none ↦ record b' { disk_full = false } ]

  unfoldable pub delete_pending : Fs → Backlog G → ℕ → Backlog G
  unfolding record_persist_failure
  delete_pending fs b seq =
      let b₁ = record b { operations = suc b.operations } in
      elim (fs b.operations) [
        | none ↦ record b₁ { pending = delete_file seq b₁.pending }
        | some f ↦ if f.not_exist then b₁ else record_persist_failure b₁ f
      ]

  -- `removeAtLocked`.
  unfoldable pub remove_locked : Fs → Backlog G → Record G → Backlog G
  unfolding delete_pending
  remove_locked fs b r =
      let b' = delete_pending fs b r.sequence in record b' { queue = remove_at r.sequence b'.queue }

  -- The loop that deletes the oldest quarantined records beyond the bound.
  unfoldable pub evict : Fs → ℕ → List ℕ → Backlog G → Backlog G
  unfolding record_persist_failure
  evict fs max [] b = record b { quarantine_seqs = [] }
  evict fs max (seq ∷ seqs) b =
      let b₁ = record b { operations = suc b.operations } in
      let next = evict fs max seqs (record b₁ {
        quarantine = delete_file seq b₁.quarantine;
        quarantine_evicted = suc b₁.quarantine_evicted;
      }) in
      if ltb max (length (seq ∷ seqs))
      then elim (fs b.operations) [
        | none ↦ next
        | some f ↦
            if f.not_exist
            then next
            else record_persist_failure (record b₁ { quarantine_seqs = seq ∷ seqs }) f
      ]
      else record b { quarantine_seqs = seq ∷ seqs }

  unfoldable pub enforce_quarantine_bound : Fs → Backlog G → Backlog G
  unfolding evict
  enforce_quarantine_bound fs b = evict fs b.cfg.max_operations b.quarantine_seqs b

  -- The rename from pending/ to quarantine/: the file keeps what was stored in it.
  unfoldable pub move_file : ℕ → List (ℕ × Record G) → List (ℕ × Record G) → List (ℕ × Record G)
  unfolding find_file
  move_file n pending quarantine = elim (find_file n pending) [
    | none ↦ quarantine
    | some stored ↦ put_file n stored quarantine
  ]

  -- `quarantineAtLocked`: where the move fails, the file is deleted instead.
  unfoldable pub quarantine_locked : Fs → Backlog G → Record G → Backlog G
  unfolding record_persist_failure enforce_quarantine_bound sort_seqs move_file
  quarantine_locked fs b r = elim (fs b.operations) [
    | some moved ↦
        let b₁ = record b {
          operations = suc (suc b.operations);
          queue = remove_at r.sequence b.queue;
        } in
        elim (fs (suc b.operations)) [
          | none ↦
              record_persist_failure (record b₁ { pending = delete_file r.sequence b₁.pending })
                (not_archived moved)
          | some f ↦
              if f.not_exist
              then record_persist_failure b₁ (not_archived moved)
              else record_persist_failure b₁ f
        ]
    | none ↦ enforce_quarantine_bound fs (record b {
      operations = suc b.operations;
      queue = remove_at r.sequence b.queue;
      pending = delete_file r.sequence b.pending;
      quarantine = move_file r.sequence b.pending b.quarantine;
      quarantine_seqs = sort_seqs (b.quarantine_seqs ++ (r.sequence ∷ []));
    })
  ]

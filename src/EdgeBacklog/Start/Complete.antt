-- ===== src/EdgeBacklog/Start/Complete.antt =====
-- internal/edgebacklog/backlog.go: the queue that `Open` makes of the files in pending/.
use monitoreoedgeis.Prelude.{
  ℕ, ◌≡◌, refl, sym, ◌∙◌, ap, subst, inl, inr, Bool, not, ◌||◌, Option, none, some, String, List,
  [], ◌∷◌, ◌++◌, arith, ◌==◌, if◌then◌else◌, if-rule, Bool-cases, Result, ok, err,
}
use monitoreoedgeis.Prelude.Int.{pos, ltb_ℤ}
use monitoreoedgeis.Prelude.Map.{Map}
use monitoreoedgeis.EdgeBacklog.{Record, Config, Backlog, Fs}
use monitoreoedgeis.EdgeBacklog.Files.{record_persist_failure, enforce_quarantine_bound, sort_seqs}
use monitoreoedgeis.EdgeBacklog.Inactive.{cap_inactive}
use monitoreoedgeis.EdgeBacklog.Process.{find_sequence}
use monitoreoedgeis.EdgeBacklog.Sequences.{has, evict-queue}
use monitoreoedgeis.EdgeBacklog.Start.{
  Entry, ignored, temporary, unreadable, file, is_usable, note_recovered, load_record, set_aside,
  load_file, load_entry, load_entries, insert_record, sort_records, load_marks, load_inactive,
  recover_pending, load_quarantine, OpenError, fresh, with_defaults, open_backlog,
}

module _ {G : Type 0} where
  abbrev from_file : Option (Record G) → List (Record G) → List (Record G)
  from_file none rest = rest
  from_file (some r) rest = if is_usable r then r ∷ rest else rest

  -- The records of the files that can be used, in the order of the directory.
  abbrev pub usable : List (Entry G) → List (Record G)
  usable [] = []
  usable (file name content ∷ es) = from_file content (usable es)
  usable (ignored ∷ es) = usable es
  usable (temporary ∷ es) = usable es
  usable (unreadable ∷ es) = usable es

  snoc-append :
      (q : List (Record G)) (r : Record G) (p : List (Record G))
      → (q ++ (r ∷ [])) ++ p ≡ q ++ (r ∷ p)
  snoc-append [] r p = refl
  snoc-append (x ∷ q) r p = ap (λ l. x ∷ l) (snoc-append q r p)

  append-nil : (q : List (Record G)) → q ++ [] ≡ q
  append-nil [] = refl
  append-nil (x ∷ q) = ap (λ l. x ∷ l) (append-nil q)

  set_aside-queue :
      (fs : Fs) (name : String) (b : Backlog G) → (set_aside fs name b).queue ≡ b.queue
  unfolding set_aside record_persist_failure
  set_aside-queue fs name b = ground arith

  note_recovered-queue :
      (r : Record G) (o : Option ℕ) (b : Backlog G) → (note_recovered r o b).queue ≡ b.queue
  unfolding note_recovered
  note_recovered-queue r none b = refl
  note_recovered-queue r (some since) b = refl

  load_record-queue : (r : Record G) (b : Backlog G) → (load_record r b).queue ≡ b.queue ++ (r ∷ [])
  unfolding load_record
  load_record-queue r b =
      let same =
        note_recovered-queue r r.inactive_since (record b {
          queue = b.queue ++ (r ∷ []);
          pending = b.pending ++ ((r.sequence, r) ∷ []);
        }) in
      if-rule (λ (c : Backlog G). c.queue ≡ b.queue ++ (r ∷ [])) _ (λ _. same) (λ _. same)

  load_file-queue :
      (fs : Fs) (name : String) (o : Option (Record G)) (b : Backlog G) (rest : List (Record G))
      → (load_file fs name o b).queue ++ rest ≡ b.queue ++ from_file o rest
  unfolding load_file
  load_file-queue fs name none b rest = ap (λ q. q ++ rest) (set_aside-queue fs name b)
  load_file-queue fs name (some r) b rest = elim (Bool-cases (is_usable r)) [
    | inl good ↦ rw good (ap (λ q. q ++ rest) (load_record-queue r b) ∙ snoc-append b.queue r rest)
    | inr bad ↦ rw bad (ap (λ q. q ++ rest) (set_aside-queue fs name b))
  ]

  load_entries-queue :
      (fs : Fs) (es : List (Entry G)) (b : Backlog G)
      → (load_entries fs es b).queue ≡ b.queue ++ usable es
  unfolding load_entries load_entry
  load_entries-queue fs [] b = sym (append-nil b.queue)
  load_entries-queue fs (ignored ∷ es) b = load_entries-queue fs es b
  load_entries-queue fs (temporary ∷ es) b = load_entries-queue fs es _
  load_entries-queue fs (unreadable ∷ es) b = load_entries-queue fs es b
  load_entries-queue fs (file name o ∷ es) b =
      load_entries-queue fs es (load_file fs name o b) ∙ load_file-queue fs name o b (usable es)

  insert_record-has :
      (n : ℕ) (r : Record G) (q : List (Record G)) → has n (insert_record r q) ≡ has n (r ∷ q)
  unfolding insert_record find_sequence
  insert_record-has n r [] = refl
  insert_record-has n r (x ∷ q) = ground (arith, insert_record-has n r q)

  sort_records-has : (n : ℕ) (q : List (Record G)) → has n (sort_records q) ≡ has n q
  unfolding sort_records find_sequence
  sort_records-has n [] = refl
  sort_records-has n (r ∷ q) =
      insert_record-has n r (sort_records q) ∙ ground (arith, sort_records-has n q)

  load_marks-queue : (state : Map (ℕ × ℕ)) (b : Backlog G) → (load_marks state b).queue ≡ b.queue
  unfolding load_marks
  load_marks-queue [] b = refl
  load_marks-queue ((key, (since, probe)) ∷ state) b = load_marks-queue state _

  load_inactive-queue :
      (state : Option (Map (ℕ × ℕ))) (b : Backlog G) → (load_inactive state b).queue ≡ b.queue
  unfolding load_inactive cap_inactive
  load_inactive-queue none b = refl
  load_inactive-queue (some state) b =
      load_marks-queue state (record b { inactive_file = some state })

  load_quarantine-queue :
      (fs : Fs) (seqs : List ℕ) (b : Backlog G) → (load_quarantine fs seqs b).queue ≡ b.queue
  unfolding load_quarantine enforce_quarantine_bound
  load_quarantine-queue fs seqs b =
      evict-queue fs b.cfg.max_operations (sort_seqs seqs)
        (record b { quarantine_seqs = sort_seqs seqs })

  recover_pending-has :
      (fs : Fs) (entries : List (Entry G)) (state : Option (Map (ℕ × ℕ))) (b : Backlog G) (n : ℕ)
      → b.queue ≡ []
      → has n (recover_pending fs entries state b).queue ≡ has n (usable entries)
  unfolding recover_pending
  recover_pending-has fs entries state b n h =
      let b₁ = load_entries fs entries b in
      ap (has n) (load_inactive-queue state (record b₁ { queue = sort_records b₁.queue }))
      ∙ sort_records-has n b₁.queue
      ∙ ap (has n) (load_entries-queue fs entries b ∙ ap (λ q. q ++ usable entries) h)

  -- The queue of an opened backlog holds the sequence as the files do.
  abbrev Stands : ℕ → Bool → Result OpenError (Backlog G) → Type 0
  Stands n b (ok c) = has n c.queue ≡ b
  Stands n b (err e) = Unit {0}

  -- A start loses no event and makes none up: where `Open` succeeds, the queue holds exactly the
  -- sequences of the files in pending/ that hold a usable record, whatever becomes of the other files,
  -- the marks and the quarantine.
  pub open_backlog-has :
      (fs : Fs) (cfg : Config) (entries : List (Entry G)) (state : Option (Map (ℕ × ℕ)))
      (seqs : List ℕ) (b : Backlog G) (n : ℕ)
      → open_backlog fs cfg entries state seqs ≡ ok b
      → has n b.queue ≡ has n (usable entries)
  unfolding open_backlog fresh
  open_backlog-has fs cfg entries state seqs b n =
      let recovered = recover_pending fs entries state (fresh (with_defaults cfg)) in
      let found : has n (load_quarantine fs seqs recovered).queue ≡ has n (usable entries) =
        ap (has n) (load_quarantine-queue fs seqs recovered)
        ∙ recover_pending-has fs entries state (fresh (with_defaults cfg)) n refl in
      let Finds : Result OpenError (Backlog G) → Type 0 =
        λ r. r ≡ ok b → has n b.queue ≡ has n (usable entries) in
      if-rule Finds (cfg.max_operations == 0 || not (ltb_ℤ (pos 0) cfg.max_bytes)) (λ _ h. cc h)
        λ _.
          if-rule Finds
            ((load_quarantine fs seqs recovered).persist_errors == recovered.persist_errors)
            (λ _ h. subst (Stands n (has n (usable entries))) h found) (λ _ h. cc h)

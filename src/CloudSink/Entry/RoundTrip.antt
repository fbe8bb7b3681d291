-- ===== src/CloudSink/Entry/RoundTrip.antt =====
-- internal/cloudsink/buffer.go: `writeAtomic` writes a whole file or none, and `readEntry` reads it.
use monitoreoedgeis.Prelude.{
  ◌≡◌, ◌≢◌, refl, sym, ap, subst, ◌∙◌, ◌⊎◌, inl, inr, true, false, Option, none, some, String, List,
  [], ◌∷◌, ◌++◌, length, ◌==◌, ==_iff, is_some, Result, ok, err, arith, str_eq, eq_refl,
  Option-cases, Result-cases,
}
use monitoreoedgeis.Prelude.Map.{Map, lookup, insert, lookup-insert}
use monitoreoedgeis.CloudSink.Entry.{
  Bytes, BufferedFrame, Json, Directory, Faults, WriteError, newline, meta_of, frame_of, split_line,
  count_operation, discard_temp, Step, create_file, write_content, sync_file, close_file,
  rename_file, perform, clean_up, run_steps, write_atomic, read_meta, read_bytes, read_entry,
}

ok-injective {ℓ κ} :
    {E : Type ℓ} {A : Type κ} {a b : A} → ◌≡◌ {A = Result E A} (ok a) (ok b) → a ≡ b
ok-injective e = cc

-- What a file of the frame holds, behind its header.
abbrev pub file_of : {G : Type 0} → BufferedFrame G → Bytes → Bytes
file_of f header = (header ++ (newline ∷ [])) ++ f.jpeg

err-ne-ok {ℓ κ} : {E : Type ℓ} {A : Type κ} {e : E} {a : A} → ◌≢◌ {A = Result E A} (err e) (ok a)
err-ne-ok h = cc

module _ (faults : Faults) (path : String) where
  -- The frame file is there with its whole content, or an error is returned and no frame file changed.
  abbrev pub IsAllOrNothing : Bytes → Map Bytes → Directory × Option WriteError → Type 0
  IsAllOrNothing content before (d, problem) =
      ((problem ≡ none) × (d.frames ≡ insert path content before))
      ⊎ ((is_some problem ≡ true) × (d.frames ≡ before))

  -- The temporary file has its content, and the frame files are those of before.
  abbrev IsUnderWay : Bytes → Map Bytes → Directory → Type 0
  IsUnderWay content before d = (lookup path d.temps ≡ some content) × (d.frames ≡ before)

  discard_temp-frames : (d : Directory) → (discard_temp faults path d).frames ≡ d.frames
  unfolding discard_temp count_operation
  discard_temp-frames d = ground arith

  clean_up-frames : (s : Step) (d : Directory) → (clean_up faults path s d).frames ≡ d.frames
  unfolding clean_up
  clean_up-frames create_file d = refl
  clean_up-frames (write_content bs) d = discard_temp-frames d
  clean_up-frames sync_file d = discard_temp-frames d
  clean_up-frames close_file d = discard_temp-frames d
  clean_up-frames rename_file d = refl

  -- A step that fails ends the write; one that does not leads to the steps that follow.
  run_steps-step :
      (content : Bytes) (before : Map Bytes) (s : Step) (steps : List Step) (d : Directory)
      → d.frames ≡ before
      → ((d' : Directory)
          → perform path s (count_operation d) ≡ ok d'
          → IsAllOrNothing content before (run_steps faults path steps d'))
      → IsAllOrNothing content before (run_steps faults path (s ∷ steps) d)
  unfolding run_steps count_operation
  run_steps-step content before s steps d same next = elim (Option-cases (faults d.operations)) [
    | inr (f, e) ↦ rw (e, run_steps) (inr (refl, clean_up-frames s (count_operation d) ∙ same))
    | inl e ↦ elim (Result-cases (perform path s (count_operation d))) [
      | inl (d', done) ↦ rw (e, done, run_steps) (next d' done)
      | inr (f, failed) ↦
          rw (e, failed, run_steps) (inr (refl, clean_up-frames s (count_operation d) ∙ same))
    ]
  ]

  put_get : (content : Bytes) (m : Map Bytes) → lookup path (insert path content m) ≡ some content
  put_get content m = lookup-insert path path content m ∙ rw (eq_refl path) refl

  rename_step :
      (content : Bytes) (before : Map Bytes) (d : Directory)
      → IsUnderWay content before d
      → IsAllOrNothing content before (run_steps faults path (rename_file ∷ []) d)
  unfolding run_steps perform count_operation
  rename_step content before d h = run_steps-step content before rename_file [] d h.1 λ d' done.
      subst (λ (x : Directory). IsAllOrNothing content before (run_steps faults path [] x))
        (ok-injective done) (inl (refl, rw (h.0, h.1) refl))

  -- Steps behind which the temporary file holds `c`.
  abbrev GoesOn : Bytes → Map Bytes → List Step → Bytes → Type 0
  GoesOn content before steps c =
      (d : Directory)
      → IsUnderWay c before d
      → IsAllOrNothing content before (run_steps faults path steps d)

  write_step :
      (content : Bytes) (before : Map Bytes) (bs : Bytes) (steps : List Step) (c : Bytes)
      → GoesOn content before steps (c ++ bs)
      → GoesOn content before (write_content bs ∷ steps) c
  unfolding perform count_operation
  write_step content before bs steps c next d h =
      run_steps-step content before (write_content bs) steps d h.1 λ d' done.
        subst (λ (x : Directory). IsAllOrNothing content before (run_steps faults path steps x))
          (ok-injective done) (next _ (rw h.0 (put_get (c ++ bs) d.temps), h.1))

  pass_step :
      (content : Bytes) (before : Map Bytes) (s : Step) (steps : List Step) (c : Bytes)
      → ((d : Directory) → perform path s d ≡ ok d)
      → GoesOn content before steps c
      → GoesOn content before (s ∷ steps) c
  unfolding count_operation
  pass_step content before s steps c passes next d h =
      run_steps-step content before s steps d h.1 λ d' done.
        subst (λ (x : Directory). IsAllOrNothing content before (run_steps faults path steps x))
          (ok-injective (sym (passes (count_operation d)) ∙ done)) (next (count_operation d) h)

  create_step :
      (content : Bytes) (before : Map Bytes) (steps : List Step) (d : Directory)
      → GoesOn content before steps []
      → d.frames ≡ before
      → IsAllOrNothing content before (run_steps faults path (create_file ∷ steps) d)
  unfolding perform count_operation
  create_step content before steps d next same =
      run_steps-step content before create_file steps d same λ d' done.
        elim (Option-cases (lookup path d.temps)) [
          | inl absent ↦
              subst
                (λ (x : Directory). IsAllOrNothing content before (run_steps faults path steps x))
                (ok-injective (rw (absent, perform) at done)) (next _ (put_get [] d.temps, same))
          | inr (old, present) ↦
              let refused = rw (present, perform) at done in absurd (err-ne-ok refused)
        ]

module _ {G : Type 0} (json : Json G) (faults : Faults) (path : String) (f : BufferedFrame G) where
  write_atomic-IsAllOrNothing :
      (header : Bytes) (d : Directory)
      → json.marshal (meta_of f) ≡ some header
      → IsAllOrNothing faults path (file_of f header) d.frames (write_atomic json faults path f d)
  unfolding write_atomic
  write_atomic-IsAllOrNothing header d e =
      let end = rename_file ∷ [] in
      let closing = close_file ∷ end in
      let syncing = sync_file ∷ closing in
      let line = header ++ (newline ∷ []) in
      let content = file_of f header in
      rw (e, write_atomic)
        (create_step faults path content d.frames
          (write_content line ∷ write_content f.jpeg ∷ syncing) d
          (write_step faults path content d.frames line (write_content f.jpeg ∷ syncing) [] (
            write_step faults path content d.frames f.jpeg syncing line (
              pass_step faults path content d.frames sync_file closing (line ++ f.jpeg)
                (λ d. unfold perform in refl)
                (pass_step faults path content d.frames close_file end (line ++ f.jpeg)
                  (λ d. unfold perform in refl) (rename_step faults path content d.frames)))))
          refl)

-- JSON without a newline in it.
abbrev pub IsOneLine : Bytes → Type 0
IsOneLine [] = Unit {0}
IsOneLine (b ∷ bs) = (b == newline ≡ false) × IsOneLine bs

split_line-line :
    (line rest : Bytes)
    → IsOneLine line
    → split_line ((line ++ (newline ∷ [])) ++ rest) ≡ some (line, rest)
unfolding split_line
split_line-line [] rest h = refl
split_line-line (b ∷ bs) rest h = rw (h.0, split_line-line bs rest h.1) refl

module _ {G : Type 0} (json : Json G) (faults : Faults) (path : String) (f : BufferedFrame G) where
  read_bytes-file_of :
      (header : Bytes)
      → json.unmarshal header ≡ some (meta_of f)
      → IsOneLine header
      → read_bytes json (file_of f header) ≡ ok f
  unfolding read_bytes read_meta frame_of meta_of
  read_bytes-file_of header parsed one_line =
      let sized : (length f.jpeg == length f.jpeg) ≡ true = (==_iff _ _).1 refl in
      rw (split_line-line header f.jpeg one_line, read_bytes) (rw parsed (rw sized refl))

  read_entry-there :
      (reads : Faults) (content : Bytes) (d : Directory)
      → lookup path d.frames ≡ some content
      → reads d.operations ≡ none
      → read_bytes json content ≡ ok f
      → read_entry json reads path d ≡ ok f
  unfolding read_entry
  read_entry-there reads content d found readable h = rw (readable, found, read_entry) h

  -- `writeAtomic` either spools the frame, so that `readEntry` returns exactly that frame wherever the
  -- file can be read, and every other frame file is as it was; or it returns an error, and all frame
  -- files are as they were, whichever of its file operations fails. The header that the JSON library
  -- makes of the frame is taken to be one line from which it reads the same header.
  pub write_atomic-read_entry :
      (header : Bytes) (d : Directory)
      → json.marshal (meta_of f) ≡ some header
      → json.unmarshal header ≡ some (meta_of f)
      → IsOneLine header
      → (((write_atomic json faults path f d).1 ≡ none)
          × ((reads : Faults)
              → reads ((write_atomic json faults path f d).0.operations) ≡ none
              → read_entry json reads path (write_atomic json faults path f d).0 ≡ ok f)
          × ((other : String)
              → str_eq path other ≡ false
              → lookup other (write_atomic json faults path f d).0.frames ≡ lookup other d.frames))
        ⊎ ((is_some (write_atomic json faults path f d).1 ≡ true)
            × ((write_atomic json faults path f d).0.frames ≡ d.frames))
  write_atomic-read_entry header d made parsed one_line =
      elim (write_atomic-IsAllOrNothing json faults path f header d made) [
        | inr kept ↦ inr kept
        | inl (fine, there) ↦ inl (
          fine,
          (λ reads readable.
              read_entry-there reads (file_of f header) (write_atomic json faults path f d).0
                (ap (lookup path) there ∙ put_get faults path (file_of f header) d.frames) readable
                (read_bytes-file_of header parsed one_line)),
          (λ other ne. ap (lookup other) there ∙ lookup-insert other path _ d.frames ∙ rw ne refl),
        )
      ]

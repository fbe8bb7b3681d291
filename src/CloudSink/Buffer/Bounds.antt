-- ===== src/CloudSink/Buffer/Bounds.antt =====
-- internal/cloudsink/buffer.go: the bound on the frames and their bytes.
use monitoreoedgeis.Prelude.{
  ℕ, suc, ◌+◌, ◌-◌, ◌≤◌, ◌≡◌, refl, ap, ◌∙◌, inl, inr, false, ◌&&◌, ◌||◌, Option, none, some,
  option_or, String, List, [], ◌∷◌, ◌++◌, length, length-append, ltb, if-rule, is_some, Result, ok,
  err, arith, Option-cases, Result-cases,
}
use monitoreoedgeis.Prelude.Map.{lookup}
use monitoreoedgeis.CloudSink.Entry.{
  BufferedFrame, Json, Failure, Directory, Faults, WriteError, ReadError, write_atomic, read_entry,
}
use monitoreoedgeis.CloudSink.Buffer.{
  QueuedEntry, Buffer, EnqueueError, Names, remove_file, remove_front, discard_front, discard,
  advance_front, advance, trim, enforce_recovered_bound, after_write, enqueue, peek_from, peek,
  set_corrupt, recover_read, recover_files, open_buffer,
}

unfoldable pub spooled : List QueuedEntry → ℕ
spooled [] = 0
spooled (e ∷ q) = e.size + spooled q

spooled-append :
    (q : List QueuedEntry) (e : QueuedEntry) → spooled (q ++ (e ∷ [])) ≡ spooled q + e.size
unfolding spooled
spooled-append [] e = omega arith
spooled-append (x ∷ q) e = omega (arith, spooled-append q e)

-- The bytes are those of the queue.
abbrev pub IsCounted : Buffer → Type 0
IsCounted b = b.bytes ≡ spooled b.queue

-- The queue keeps to the bound.
abbrev pub IsWithin : Buffer → Type 0
IsWithin b = IsCounted b × (length b.queue ≤ b.max_frames) × (b.bytes ≤ b.max_bytes)

remove_front-IsWithin :
    (faults : Faults) (e : QueuedEntry) (rest : List QueuedEntry) (b : Buffer)
    → b.queue ≡ e ∷ rest
    → IsWithin b
    → IsWithin (remove_front faults e rest b)
unfolding remove_front
remove_front-IsWithin faults e rest b at h =
    let counted : b.bytes ≡ e.size + spooled rest =
      h.0 ∙ ap spooled at ∙ (unfold spooled in refl) in
    let shorter : length b.queue ≡ suc (length rest) = ap length at in
    (omega arith, omega (arith, h.1), omega (arith, h.2))

pub discard-IsWithin : (faults : Faults) (b : Buffer) → IsWithin b → IsWithin (discard faults b)
unfolding discard
discard-IsWithin faults b h = on_queue b.queue refl
  where
    on_queue : (q : List QueuedEntry) → b.queue ≡ q → IsWithin (discard_front faults q b)
    on_queue [] at = unfold discard_front in h
    on_queue (e ∷ rest) at = unfold discard_front in remove_front-IsWithin faults e rest b at h

pub advance-IsWithin : (faults : Faults) (b : Buffer) → IsWithin b → IsWithin (advance faults b)
unfolding advance
advance-IsWithin faults b h = on_queue b.queue refl
  where
    on_queue : (q : List QueuedEntry) → b.queue ≡ q → IsWithin (advance_front faults q b)
    on_queue [] at = unfold advance_front in h
    on_queue (e ∷ rest) at = unfold advance_front in remove_front-IsWithin faults e rest b at h

module _ {G : Type 0} (json : Json G) (names : Names) where
  pub enqueue-IsWithin :
      (faults : Faults) (f : BufferedFrame G) (b : Buffer)
      → IsWithin b
      → IsWithin (enqueue json names faults f b).0
  unfolding enqueue
  enqueue-IsWithin faults f b h =
      if-rule (λ (p : Buffer × Option EnqueueError). IsWithin p.0)
        (ltb b.max_frames (length b.queue + 1) || ltb b.max_bytes (b.bytes + length f.jpeg))
        (λ _. h)
        (λ fits.
          written (write_atomic json faults (names.name_of (suc b.counter)) f b.directory) fits)
    where
      written :
          (r : Directory × Option WriteError)
          → ltb b.max_frames (length b.queue + 1) || ltb b.max_bytes (b.bytes + length f.jpeg)
            ≡ false
          → IsWithin
              (after_write json names f
                (names.name_of (suc b.counter))
                (record b { counter = suc b.counter })
                r).0
      written (d, some e) fits = unfold after_write in h
      written (d, none) fits =
          unfold after_write in
          ground (
            arith,
            spooled-append b.queue (record {
              path = names.name_of (suc b.counter);
              candidate_key = f.candidate_key;
              timestamp = f.timestamp;
              size = length f.jpeg;
            }),
            length-append b.queue (
                record {
                  path = names.name_of (suc b.counter);
                  candidate_key = f.candidate_key;
                  timestamp = f.timestamp;
                  size = length f.jpeg;
                }
                ∷ []),
          )

  peek_from-IsWithin :
      (faults reads : Faults) (now : ℕ) (q : List QueuedEntry) (b : Buffer)
      → b.queue ≡ q
      → IsWithin b
      → IsWithin (peek_from json names faults reads now q b).0
  unfolding peek_from
  peek_from-IsWithin faults reads now [] b at h = h
  peek_from-IsWithin faults reads now (e ∷ rest) b at h =
      let aged = record b { dropped_age = suc b.dropped_age } in
      let spoilt = record b { corrupt_entries = suc b.corrupt_entries } in
      if-rule (λ (p : Buffer × Option (BufferedFrame G)). IsWithin p.0)
        (ltb 0 b.max_age && ltb (e.timestamp + b.max_age) now)
        (λ _.
          peek_from-IsWithin faults reads now rest (remove_front faults e rest aged)
            (unfold remove_front in refl) (remove_front-IsWithin faults e rest aged at h))
        (λ _. elim (Result-cases (read_entry json reads e.path b.directory)) [
          | inl (f, fine) ↦ rw fine h
          | inr (problem, bad) ↦ rw bad (
              peek_from-IsWithin faults reads now rest (remove_front faults e rest spoilt)
                (unfold remove_front in refl) (remove_front-IsWithin faults e rest spoilt at h))
        ])

module _ {G : Type 0} (json : Json G) (names : Names) where
  pub peek-IsWithin :
      (faults reads : Faults) (now : ℕ) (b : Buffer)
      → IsWithin b
      → IsWithin (peek json names faults reads now b).0
  unfolding peek
  peek-IsWithin faults reads now b h =
      peek_from-IsWithin json names faults reads now b.queue b refl h

-- What a start leaves: the queue keeps to the bound, unless a file could not be deleted.
abbrev IsTrimmed : Buffer × Option Failure → Type 0
IsTrimmed (b, problem) = IsCounted b × (problem ≡ none → IsWithin b)

trim-IsTrimmed :
    (faults : Faults) (q : List QueuedEntry) (b : Buffer)
    → b.queue ≡ q
    → IsCounted b
    → IsTrimmed (trim faults q b)
unfolding trim
trim-IsTrimmed faults [] b at h =
    let empty : b.bytes ≡ 0 = h ∙ ap spooled at ∙ (unfold spooled in refl) in
    (h, λ _. (h, rw at (omega arith), omega arith))
trim-IsTrimmed faults (x ∷ rest) b at h =
    let shorter : length b.queue ≡ suc (length rest) = ap length at in
    let counted : b.bytes ≡ x.size + spooled rest = h ∙ ap spooled at ∙ (unfold spooled in refl) in
    let removed = remove_file faults x.path b.directory in
    let more =
      trim-IsTrimmed faults rest
        (record b {
          queue = rest;
          bytes = b.bytes - x.size;
          dropped_over_capacity = suc b.dropped_over_capacity;
          directory = removed.0;
        })
        refl (omega arith) in
    if-rule IsTrimmed (ltb b.max_frames (length (x ∷ rest)) || ltb b.max_bytes b.bytes)
      (λ _. elim (Option-cases removed.1) [
        | inl gone ↦ rw gone more
        | inr (f, stuck) ↦
            rw stuck (if-rule IsTrimmed f.not_exist (λ _. more) (λ _. (h, λ none_left. cc)))
      ])
      (λ fits. (h, λ _. (h, ground arith, ground arith)))

module _ {G : Type 0} (json : Json G) (names : Names) where
  recover_read-IsCounted :
      (faults stats : Faults) (name : String) (r : Result ReadError (BufferedFrame G)) (b : Buffer)
      → IsCounted b
      → IsCounted (recover_read json names faults stats name r b)
  unfolding recover_read set_corrupt
  recover_read-IsCounted faults stats name (err problem) b h = h
  recover_read-IsCounted faults stats name (ok f) b h =
      if-rule IsCounted (is_some (stats b.directory.operations)) (λ _. h)
        (λ _. omega (
          arith,
          spooled-append b.queue (record {
            path = name;
            candidate_key = f.candidate_key;
            timestamp = f.timestamp;
            size = length (option_or (lookup name b.directory.frames) []);
          }),
        ))

  recover_files-IsCounted :
      (faults reads stats : Faults) (files : List String) (b : Buffer)
      → IsCounted b
      → IsCounted (recover_files json names faults reads stats files b)
  unfolding recover_files
  recover_files-IsCounted faults reads stats [] b h = h
  recover_files-IsCounted faults reads stats (name ∷ files) b h =
      recover_files-IsCounted faults reads stats files _
        (recover_read-IsCounted faults stats name (read_entry json reads name b.directory) b h)

  pub open_buffer-IsTrimmed :
      (faults reads stats : Faults) (max_bytes max_frames max_age : ℕ) (temps files : List String)
      (d : Directory)
      → IsTrimmed
          (open_buffer json names faults reads stats max_bytes max_frames max_age temps files d)
  unfolding open_buffer enforce_recovered_bound spooled
  open_buffer-IsTrimmed faults reads stats max_bytes max_frames max_age temps files d =
      trim-IsTrimmed faults _ _ refl (recover_files-IsCounted faults reads stats files _ refl)

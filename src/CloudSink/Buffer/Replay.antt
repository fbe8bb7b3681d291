-- ===== src/CloudSink/Buffer/Replay.antt =====
-- internal/cloudsink/buffer.go: which frame `Peek` hands to the replay, and which it drops.
use monitoreoedgeis.Prelude.{
  ℕ, suc, ◌+◌, ◌≡◌, refl, sym, ◌∙◌, ap, inl, inr, Bool, true, false, ◌&&◌, Option, none, some, List,
  [], ◌∷◌, ◌++◌, ltb, if-rule, ok, err, arith, Result-cases,
}
use monitoreoedgeis.CloudSink.Entry.{BufferedFrame, Json, Faults, ReadError, Directory, read_entry}
use monitoreoedgeis.CloudSink.Buffer.{
  QueuedEntry, Buffer, Names, remove_file, remove_front, peek_from, peek,
}

-- The entry is older than the age that is allowed, where one is set.
abbrev pub is_stale : ℕ → ℕ → QueuedEntry → Bool
is_stale max_age now e = ltb 0 max_age && ltb (e.timestamp + max_age) now

module _ {G : Type 0} (json : Json G) (names : Names) (faults reads : Faults)
    (now max_age : ℕ) where
  -- Each entry of the list had a reason to be dropped when its turn came: `old` of them were too old,
  -- and `bad` were not, but could not be read. The directories are those before and after.
  pub data Skips : List QueuedEntry → Directory → ℕ → ℕ → Directory → Type 0 where
    no_more : (d : Directory) → Skips [] d 0 0 d
    too_old :
        (x : QueuedEntry) (gone : List QueuedEntry) (d d' : Directory) (old bad : ℕ)
        → is_stale max_age now x ≡ true
        → Skips gone (remove_file faults x.path d).0 old bad d'
        → Skips (x ∷ gone) d (suc old) bad d'
    unusable :
        (x : QueuedEntry) (gone : List QueuedEntry) (d d' : Directory) (old bad : ℕ)
        (problem : ReadError)
        → is_stale max_age now x ≡ false
        → read_entry json reads x.path d ≡ err problem
        → Skips gone (remove_file faults x.path d).0 old bad d'
        → Skips (x ∷ gone) d old (suc bad) d'

  -- The frame that is returned is that of the first entry left, which is young and can be read; where
  -- none is returned, no entry is left.
  unfoldable pub Returns : Option (BufferedFrame G) → List QueuedEntry → Directory → Type 0
  Returns none left d = left ≡ []
  Returns (some f) left d =
      (e : QueuedEntry) × (rest : List QueuedEntry) × (left ≡ e ∷ rest)
      × (is_stale max_age now e ≡ false)
      × (read_entry json reads e.path d ≡ ok f)

  abbrev pub Peeks : Buffer → List QueuedEntry → Buffer × Option (BufferedFrame G) → Type 0
  Peeks b q p =
      (gone : List QueuedEntry) × (old : ℕ) × (bad : ℕ) × (q ≡ gone ++ p.0.queue)
      × Skips gone b.directory old bad p.0.directory
      × (p.0.dropped_age ≡ b.dropped_age + old)
      × (p.0.corrupt_entries ≡ b.corrupt_entries + bad)
      × Returns p.1 p.0.queue p.0.directory

  peek_from-Peeks :
      (q : List QueuedEntry) (b : Buffer)
      → b.queue ≡ q
      → b.max_age ≡ max_age
      → Peeks b q (peek_from json names faults reads now q b)
  unfolding peek_from Returns remove_front
  peek_from-Peeks [] b at age =
      ([], 0, 0, sym at, no_more b.directory, omega arith, omega arith, at)
  peek_from-Peeks (x ∷ q) b at age =
      let aged = record b { dropped_age = suc b.dropped_age } in
      let spoilt = record b { corrupt_entries = suc b.corrupt_entries } in
      let d' = (remove_file faults x.path b.directory).0 in
      if-rule (Peeks b (x ∷ q)) (is_stale b.max_age now x)
        (λ stale.
          let (gone, old, bad, whole, skips, n, k, returned) =
            peek_from-Peeks q (remove_front faults x q aged) refl age in
          (
            x ∷ gone,
            suc old,
            bad,
            ap (λ l. x ∷ l) whole,
            too_old x gone b.directory _ old bad (ap (λ a. is_stale a now x) (sym age) ∙ stale)
                skips,
            omega (arith, n),
            omega (arith, k),
            returned,
          ))
        (λ young. elim (Result-cases (read_entry json reads x.path b.directory)) [
          | inl (f, fine) ↦ rw fine (
            [],
            0,
            0,
            sym at,
            no_more b.directory,
            omega arith,
            omega arith,
            (x, q, at, ap (λ a. is_stale a now x) (sym age) ∙ young, fine),
          )
          | inr (problem, bad_read) ↦ rw bad_read (
              let (gone, old, bad, whole, skips, n, k, returned) =
                peek_from-Peeks q (remove_front faults x q spoilt) refl age in
              (
                x ∷ gone,
                old,
                suc bad,
                ap (λ l. x ∷ l) whole,
                unusable x gone b.directory _ old bad problem
                    (ap (λ a. is_stale a now x) (sym age) ∙ young) bad_read skips,
                omega (arith, n),
                omega (arith, k),
                returned,
              ))
        ])

-- `Peek` drops entries from the front of the queue, each because it is too old or, being young enough,
-- cannot be read, and counts each under its reason; it stops at the first entry that is young enough
-- and can be read, returns its frame and leaves it in front, with what stands behind it in the same
-- order. Where it returns none, no entry is left.
pub peek-Peeks :
    {G : Type 0} (json : Json G) (names : Names) (faults reads : Faults) (now : ℕ) (b : Buffer)
    → Peeks json names faults reads now b.max_age b b.queue (peek json names faults reads now b)
unfolding peek
peek-Peeks json names faults reads now b =
    peek_from-Peeks json names faults reads now b.max_age b.queue b refl refl

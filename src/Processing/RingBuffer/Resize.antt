-- ===== src/Processing/RingBuffer/Resize.antt =====
-- internal/processing/ringbuffer.go: `Resize`, and any sequence of operations.
use monitoreoedgeis.Prelude.{
  ℕ, zero, suc, ◌+◌, ◌-◌, ◌<◌, ◌≤◌, ◌≡◌, refl, ap, sym, ◌∙◌, List, [], ◌∷◌, ◌++◌, length,
  length-set, get_or, get_or-set_self, get_or-set_ne, set, drop, replicate, ltb, ◌==◌, if-rule,
  arith,
}
use native.Mathlib.Nat.{mod-eq_of_lt}
use monitoreoedgeis.Processing.RingBuffer.{
  RingBuffer, at_least_one, new_ring_buffer, frames_from, snapshot, fill, resize_to, resize, push,
}
use monitoreoedgeis.Processing.RingBuffer.Refinement.{
  IsValid, newest, newest-small, snapshot-push, length-snapshot, length-frames_from,
  drop-frames_from,
}

length-replicate : {F : Type 0} (n : ℕ) (f : F) → length (replicate n f) ≡ n
length-replicate zero f = refl
length-replicate (suc n) f = ap suc (length-replicate n f)

module _ {F : Type 0} (z : F) where
  length-fill : (buf : List F) (i : ℕ) (fs : List F) → length (fill z buf i fs) ≡ length buf
  unfolding fill
  length-fill buf i [] = refl
  length-fill buf i (f ∷ fs) = length-fill (set buf i f) (i + 1) fs ∙ length-set buf i f

  get_or-fill :
      (buf : List F) (i j : ℕ) (fs : List F) → j < i → get_or (fill z buf i fs) j z ≡ get_or buf j z
  unfolding fill
  get_or-fill buf i j [] h = refl
  get_or-fill buf i j (f ∷ fs) h =
      get_or-fill (set buf i f) (i + 1) j fs (omega arith)
      ∙ get_or-set_ne buf f z (λ e. absurd (omega arith))

  frames_from-fill :
      (buf : List F) (c i : ℕ) (fs : List F)
      → length buf ≡ c
      → i + length fs ≤ c
      → frames_from z (fill z buf i fs) c i (length fs) ≡ fs
  unfolding frames_from fill
  frames_from-fill buf c i [] e h = refl
  frames_from-fill buf c i (f ∷ fs) e h = ground (
    arith,
    mod-eq_of_lt {n = i} {m = c} (omega arith),
    get_or-fill (set buf i f) (i + 1) i fs (omega arith),
    get_or-set_self buf i f z (omega arith),
    frames_from-fill (set buf i f) c (i + 1) fs (length-set buf i f ∙ e) (omega arith),
  )

  resize_to_lem :
      (c k dropped : ℕ) (r : RingBuffer F)
      → 0 < c
      → k ≤ c
      → k ≤ r.count
      → IsValid (resize_to z c k dropped r)
        × (snapshot z (resize_to z c k dropped r) ≡ drop (r.count - k) (snapshot z r))
  unfolding resize_to snapshot
  resize_to_lem c k dropped r pos fits kept =
      let start = r.head + r.count - k in
      let kept_frames = frames_from z r.buf r.capacity start k in
      (
        (pos, length-fill (replicate c z) 0 kept_frames ∙ length-replicate c z, pos, fits),
        ap (λ (n : ℕ). frames_from z (fill z (replicate c z) 0 kept_frames) c 0 n)
              (sym (length-frames_from z r.buf r.capacity start k))
            ∙ frames_from-fill (replicate c z) c 0 kept_frames (length-replicate c z)
                (omega (arith, length-frames_from z r.buf r.capacity start k))
            ∙ sym (
                drop-frames_from z r.buf r.capacity r.head start (r.count - k) k r.count
                  (omega arith) (omega arith)),
      )

-- What a caller does to the buffer.
pub data Op (F : Type 0) : Type 0 where
  push_frame : F → Op F
  set_capacity : ℕ → Op F

unfoldable pub apply : {F : Type 0} → F → Op F → RingBuffer F → RingBuffer F
apply z (push_frame f) r = push f r
apply z (set_capacity n) r = resize z n r

unfoldable pub apply_all : {F : Type 0} → F → List (Op F) → RingBuffer F → RingBuffer F
unfolding apply
apply_all z [] r = r
apply_all z (op ∷ ops) r = apply_all z ops (apply z op r)

-- The abstract buffer: its frames, oldest first, its bound, and how many frames were ever pushed.
pub record Latest (F : Type 0) : Type 0 where
  pub frames : List F
  pub bound : ℕ
  pub pushed : ℕ

unfoldable pub spec_apply : {F : Type 0} → Op F → Latest F → Latest F
unfolding newest
spec_apply (push_frame f) l = record {
  frames = newest l.bound (l.frames ++ (f ∷ []));
  bound = l.bound;
  pushed = suc l.pushed;
}
spec_apply (set_capacity n) l = record {
  frames = newest (at_least_one n) l.frames;
  bound = at_least_one n;
  pushed = l.pushed;
}

unfoldable pub spec_apply_all : {F : Type 0} → List (Op F) → Latest F → Latest F
unfolding spec_apply
spec_apply_all [] l = l
spec_apply_all (op ∷ ops) l = spec_apply_all ops (spec_apply op l)

module _ {F : Type 0} (z : F) where
  -- The ring holds the abstract frames, and each pushed frame is either held or counted as dropped.
  abbrev pub Represents : RingBuffer F → Latest F → Type 0
  Represents r l =
      IsValid r
      × (snapshot z r ≡ l.frames)
      × (r.capacity ≡ l.bound)
      × (r.dropped + r.count ≡ l.pushed)

  push_counts :
      (f : F) (r : RingBuffer F)
      → ((push f r).capacity ≡ r.capacity)
        × ((push f r).dropped + (push f r).count ≡ suc (r.dropped + r.count))
  unfolding push
  push_counts f r = ground arith

  -- The newest frames of a snapshot, by its count.
  newest-snapshot :
      (c : ℕ) (r : RingBuffer F) → newest c (snapshot z r) ≡ drop (r.count - c) (snapshot z r)
  unfolding newest
  newest-snapshot c r = ap (λ (n : ℕ). drop (n - c) (snapshot z r)) (length-snapshot z r)

  push-Represents :
      (f : F) (r : RingBuffer F) (l : Latest F)
      → Represents r l
      → Represents (push f r) (spec_apply (push_frame f) l)
  unfolding spec_apply
  push-Represents f r l h =
      let step = snapshot-push z f r h.0 in
      (
        step.0,
        step.1 ∙ rw (h.1, h.2) refl,
        (push_counts f r).0 ∙ h.2,
        (push_counts f r).1 ∙ ap suc h.3,
      )

  resize-Represents :
      (n : ℕ) (r : RingBuffer F) (l : Latest F)
      → Represents r l
      → Represents (resize z n r) (spec_apply (set_capacity n) l)
  unfolding spec_apply resize
  resize-Represents n r l h =
      if-rule (λ r'. Represents r' (spec_apply (set_capacity n) l)) (at_least_one n == r.capacity)
        (λ same. (
          h.0,
          h.1 ∙ sym (newest-small (at_least_one n) l.frames (ground (arith, length-snapshot z r))),
          ground arith,
          h.3,
        ))
        λ other.
          if-rule (λ r'. Represents r' (spec_apply (set_capacity n) l))
            (ltb (at_least_one n) r.count)
            (λ fewer.
              resized (at_least_one n) (at_least_one n) (r.dropped + (r.count - at_least_one n))
                (ground arith) (omega arith) (ground arith) refl (ground arith))
            (λ all_fit.
              resized (at_least_one n) r.count r.dropped (ground arith) (ground arith) (omega arith)
                (ground arith) (omega arith))
    where
      resized :
          (c k dropped : ℕ)
          → 0 < c
          → k ≤ c
          → k ≤ r.count
          → r.count - k ≡ r.count - c
          → dropped + k ≡ l.pushed
          → Represents
              (resize_to z c k dropped r)
              (record { frames = newest c l.frames; bound = c; pushed = l.pushed })
      resized c k dropped pos fits kept same_out counted =
          let moved = resize_to_lem z c k dropped r pos fits kept in
          (
            moved.0,
            moved.1
                ∙ ap (λ (m : ℕ). drop m (snapshot z r)) same_out
                ∙ sym (newest-snapshot c r)
                ∙ ap (newest c) h.1,
            unfold resize_to in refl,
            unfold resize_to in counted,
          )

  apply_all-Represents :
      (ops : List (Op F)) (r : RingBuffer F) (l : Latest F)
      → Represents r l
      → Represents (apply_all z ops r) (spec_apply_all ops l)
  unfolding apply_all spec_apply_all
  apply_all-Represents [] r l h = h
  apply_all-Represents (push_frame f ∷ ops) r l h =
      apply_all-Represents ops (push f r) (spec_apply (push_frame f) l) (push-Represents f r l h)
  apply_all-Represents (set_capacity n ∷ ops) r l h =
      apply_all-Represents ops (resize z n r) (spec_apply (set_capacity n) l)
        (resize-Represents n r l h)

  -- A new buffer, of a capacity that is at least 1, behind any pushes and resizes: its snapshot holds
  -- exactly the frames that the abstract buffer holds, whose every step keeps the newest that fit its
  -- bound, oldest first; and each frame ever pushed is held or counted as dropped.
  pub new-apply_all-Represents :
      (capacity : ℕ) (ops : List (Op F))
      → Represents
          (apply_all z ops (new_ring_buffer z capacity))
          (spec_apply_all ops (record { frames = []; bound = at_least_one capacity; pushed = 0 }))
  unfolding new_ring_buffer
  new-apply_all-Represents capacity ops = apply_all-Represents ops (new_ring_buffer z capacity) _ (
    (ground arith, length-replicate (at_least_one capacity) z, ground arith, omega arith),
    unfold snapshot frames_from in refl,
    refl,
    refl,
  )

-- ===== src/Processing/RingBuffer.antt =====
-- internal/processing/ringbuffer.go: the bounded buffer of decoded frames.
-- A capacity below 0 counts as 0; a fresh slice holds `zero_frame`, Go's zero value.
pub mod Refinement
pub mod Resize
use monitoreoedgeis.Prelude.{
  ℕ, zero, suc, ◌+◌, ◌-◌, ◌%◌, List, [], ◌∷◌, get_or, set, replicate, ltb, ◌==◌, if◌then◌else◌,
}

pub record RingBuffer (F : Type 0) : Type 0 where
  pub buf : List F
  pub head : ℕ
  pub count : ℕ
  pub capacity : ℕ
  pub dropped : ℕ

abbrev pub at_least_one : ℕ → ℕ
at_least_one capacity = if capacity == 0 then 1 else capacity

module _ {F : Type 0} (zero_frame : F) where
  -- `NewRingBuffer`.
  unfoldable pub new_ring_buffer : ℕ → RingBuffer F
  new_ring_buffer capacity = record {
    buf = replicate (at_least_one capacity) zero_frame;
    head = 0;
    count = 0;
    capacity = at_least_one capacity;
    dropped = 0;
  }

  -- `n` frames out of the circular slice, from position `start` on.
  unfoldable pub frames_from : List F → ℕ → ℕ → ℕ → List F
  frames_from buf capacity start zero = []
  frames_from buf capacity start (suc n) =
      get_or buf (start % capacity) zero_frame ∷ frames_from buf capacity (start + 1) n

  unfoldable pub snapshot : RingBuffer F → List F
  snapshot r = frames_from r.buf r.capacity r.head r.count

  -- The loop of `Resize`, which fills the front of a fresh slice.
  unfoldable pub fill : List F → ℕ → List F → List F
  fill buf i [] = buf
  fill buf i (f ∷ fs) = fill (set buf i f) (i + 1) fs

  unfoldable pub resize_to : ℕ → ℕ → ℕ → RingBuffer F → RingBuffer F
  unfolding fill
  resize_to capacity keep dropped r = record {
    buf =
        fill (replicate capacity zero_frame) 0
          (frames_from r.buf r.capacity (r.head + r.count - keep) keep);
    head = 0;
    count = keep;
    capacity = capacity;
    dropped = dropped;
  }

  unfoldable pub resize : ℕ → RingBuffer F → RingBuffer F
  unfolding resize_to
  resize asked r =
      let capacity = at_least_one asked in
      if capacity == r.capacity
      then r
      else if ltb capacity r.count
      then resize_to capacity capacity (r.dropped + (r.count - capacity)) r
      else resize_to capacity r.count r.dropped r

unfoldable pub push : {F : Type 0} → F → RingBuffer F → RingBuffer F
push f r =
    if ltb r.count r.capacity
    then record r { buf = set r.buf ((r.head + r.count) % r.capacity) f; count = suc r.count }
    else record r {
      buf = set r.buf r.head f;
      head = (r.head + 1) % r.capacity;
      dropped = suc r.dropped;
    }

-- ===== src/FullEdge/Dedup/Again.antt =====
-- internal/fulledge/dedup.go: a tracked object in two frames, among other detections.
use monitoreoedgeis.Prelude.{ℕ, ◌+◌, ◌%◌, ◌^◌, ◌≤◌, ◌≡◌, Bool, String}
use monitoreoedgeis.Prelude.Int.{ℤ}
use monitoreoedgeis.FullEdge.Dedup.{Deduper}
use monitoreoedgeis.FullEdge.Dedup.Continues.{Any, was_seen}

module _ {Box Score : Type 0} (iou : Box → Box → Score) (at_least : Score → Score → Bool) where
  -- The object was seen in the round of the deduper.
  abbrev Sees : String → String → ℤ → ℕ → Deduper Box Score → Type 0
  Sees camera class wanted at d = Any (was_seen camera class wanted at d.round) d.tracks

  -- What `m` detections do to the rest of the deduper.
  abbrev Grows : ℕ → Deduper Box Score → Deduper Box Score → Type 0
  Grows m d d' =
      (d'.n ≤ d.n + m) × (d'.gap ≡ d.gap) × (d'.round ≡ d.round) × (d'.max_tracks ≡ d.max_tracks)

  -- What a frame with the object leaves, where there was room for all its detections.
  abbrev Leaves : String → String → ℤ → ℕ → Deduper Box Score → Deduper Box Score → Type 0
  Leaves camera class wanted at d d' =
      Sees camera class wanted at d' × (d'.gap ≡ d.gap) × (d'.round ≡ (d.round + 1) % 2 ^ 64)

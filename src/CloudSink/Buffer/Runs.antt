-- ===== src/CloudSink/Buffer/Runs.antt =====
-- internal/cloudsink/buffer.go: a buffer from its start, over any calls.
use monitoreoedgeis.Prelude.{ℕ, ◌≡◌, none, String, List, [], ◌∷◌}
use monitoreoedgeis.CloudSink.Entry.{BufferedFrame, Json, Directory, Faults}
use monitoreoedgeis.CloudSink.Buffer.{Buffer, Names, discard, advance, enqueue, peek, open_buffer}
use monitoreoedgeis.CloudSink.Buffer.Bounds.{
  IsWithin, discard-IsWithin, advance-IsWithin, enqueue-IsWithin, peek-IsWithin,
  open_buffer-IsTrimmed,
}

-- A call, with the failures of its file operations.
pub data Call (G : Type 0) : Type 0 where
  enqueues : Faults → BufferedFrame G → Call G
  peeks : Faults → Faults → ℕ → Call G
  advances : Faults → Call G
  discards : Faults → Call G

module _ {G : Type 0} (json : Json G) (names : Names) where
  unfoldable pub answer : Call G → Buffer → Buffer
  answer (enqueues faults f) b = (enqueue json names faults f b).0
  answer (peeks faults reads now) b = (peek json names faults reads now b).0
  answer (advances faults) b = advance faults b
  answer (discards faults) b = discard faults b

  unfoldable pub answer_all : List (Call G) → Buffer → Buffer
  unfolding answer
  answer_all [] b = b
  answer_all (c ∷ cs) b = answer_all cs (answer c b)

  answer_all-IsWithin : (cs : List (Call G)) (b : Buffer) → IsWithin b → IsWithin (answer_all cs b)
  unfolding answer_all
  answer_all-IsWithin [] b h = h
  answer_all-IsWithin (enqueues faults f ∷ cs) b h =
      answer_all-IsWithin cs _ (enqueue-IsWithin json names faults f b h)
  answer_all-IsWithin (peeks faults reads now ∷ cs) b h =
      answer_all-IsWithin cs _ (peek-IsWithin json names faults reads now b h)
  answer_all-IsWithin (advances faults ∷ cs) b h =
      answer_all-IsWithin cs _ (advance-IsWithin faults b h)
  answer_all-IsWithin (discards faults ∷ cs) b h =
      answer_all-IsWithin cs _ (discard-IsWithin faults b h)

  -- A buffer whose start deleted what it had to keeps to its bound, whatever files it found: after any
  -- calls of `Enqueue`, `Peek`, `Advance` and `Discard`, and whichever of their file operations fail,
  -- it has at most maxFrames frames and at most maxBytes bytes, and its bytes are the sum of the sizes
  -- of its frames.
  pub open_buffer-answer_all-IsWithin :
      (faults reads stats : Faults) (max_bytes max_frames max_age : ℕ) (temps files : List String)
      (d : Directory) (cs : List (Call G))
      → (open_buffer json names faults reads stats max_bytes max_frames max_age temps files d).1
        ≡ none
      → IsWithin (
          answer_all cs
            (open_buffer json names faults reads stats max_bytes max_frames max_age temps files
              d).0)
  open_buffer-answer_all-IsWithin faults reads stats max_bytes max_frames max_age temps files d cs
        e =
      answer_all-IsWithin cs _ (
        (open_buffer-IsTrimmed json names faults reads stats max_bytes max_frames max_age temps
            files d).1
          e)

-- ===== src/FullEdge/Tests.antt =====
-- internal/fulledge/dedup.go: runs on concrete frames, and the theorem at them.
use monitoreoedgeis.Prelude.{
  ℕ, ◌≡◌, refl, Bool, true, false, Option, none, some, List, [], ◌∷◌, leb, ltb, ◌==◌, if◌then◌else◌,
}
use monitoreoedgeis.Prelude.Int.{ℤ, pos}
use monitoreoedgeis.FullEdge.Dedup.{
  Detection, Deduper, new_deduper, admit, admit_loop, expire, keep_alive, is_alive, match_as,
  match_id, match_box, settle_match, start_track, sight, evict_loop, evict_oldest, evict_at,
  oldest_from, remove_at, detection_class, is_of, same_id,
}
use monitoreoedgeis.FullEdge.Dedup.Bounds.{
  Frame, admit_all, Answers, IsWithin, new-admit_all-IsWithin,
}

-- Boxes are numbers that overlap in full or not at all.
abbrev overlap : ℕ → ℕ → ℕ
overlap a b = if a == b then 10 else 0

abbrev at_least : ℕ → ℕ → Bool
at_least a b = leb b a

abbrev person : Option ℤ → ℕ → Detection ℕ
person id bbox = record { label = "person"; tipo = ""; bbox = bbox; track_id = id }

-- Two objects are seen, one of them again, and again after the gap.
abbrev frames : List (Frame ℕ)
frames =
    record {
      camera = "a";
      at = 5;
      wall = 5;
      detections = person (some (pos 1)) 7 ∷ person none 8 ∷ [];
    }
    ∷ record { camera = "a"; at = 9; wall = 9; detections = person none 8 ∷ [] }
    ∷ record { camera = "a"; at = 17; wall = 17; detections = person (some (pos 1)) 7 ∷ [] }
    ∷ []

admit_run :
    (admit_all overlap at_least frames (new_deduper (ltb 0) 3 10 3 2)).1
    ≡ (true ∷ true ∷ []) ∷ (false ∷ []) ∷ (true ∷ []) ∷ []
unfolding admit_all admit admit_loop expire keep_alive is_alive match_as match_id match_box
    settle_match start_track sight evict_loop evict_oldest evict_at oldest_from remove_at
    detection_class is_of same_id new_deduper
admit_run = refl

new-admit_all-IsWithin_example :
    IsWithin 1 (admit_all overlap at_least frames (new_deduper (ltb 0) 3 10 3 1)).0
    × Answers frames (admit_all overlap at_least frames (new_deduper (ltb 0) 3 10 3 1)).1
new-admit_all-IsWithin_example = new-admit_all-IsWithin overlap at_least (ltb 0) 3 10 3 1 frames

abbrev empty_deduper : Deduper ℕ ℕ
empty_deduper = record { gap = 10; min_iou = 3; max_tracks = 2; tracks = []; n = 0; round = 0 }

-- ===== src/FullEdge/Dedup/Bounds.antt =====
-- internal/fulledge/dedup.go: the number of the tracks, over any frames.
use monitoreoedgeis.Prelude.{
  ℕ, zero, suc, ◌+◌, ◌-◌, ◌%◌, ◌^◌, ◌≤◌, ◌<◌, ◌≡◌, refl, ◌∙◌, sym, subst, Bool, Option, none, some,
  List, [], ◌∷◌, length, length-append, String, ◌==◌, if◌then◌else◌, arith,
}
use monitoreoedgeis.FullEdge.Dedup.{
  Detection, Track, Deduper, keep_alive, sight, oldest_from, remove_at, expire, evict_at,
  evict_oldest, evict_loop, start_track, match_as, settle_match, admit_loop, admit, new_deduper,
  default_max_tracks,
}

module _ {Box : Type 0} where
  length-keep_alive :
      (camera : String) (at wall gap : ℕ) (ts : List (Track Box))
      → length (keep_alive camera at wall gap ts) ≤ length ts
  unfolding keep_alive
  length-keep_alive camera at wall gap [] = omega arith
  length-keep_alive camera at wall gap (t ∷ ts) =
      ground (arith, length-keep_alive camera at wall gap ts)

  length-sight :
      (i : ℕ) (bbox : Box) (at wall round : ℕ) (ts : List (Track Box))
      → length (sight i bbox at wall round ts) ≡ length ts
  unfolding sight
  length-sight i bbox at wall round [] = refl
  length-sight zero bbox at wall round (t ∷ ts) = refl
  length-sight (suc i) bbox at wall round (t ∷ ts) =
      omega (arith, length-sight i bbox at wall round ts)

  oldest_from-lt :
      (i old_idx oldest : ℕ) (ts : List (Track Box))
      → old_idx < i
      → oldest_from i old_idx oldest ts < i + length ts
  unfolding oldest_from
  oldest_from-lt i old_idx oldest [] h = omega arith
  oldest_from-lt i old_idx oldest (t ∷ ts) h = ground (
    arith,
    oldest_from-lt (i + 1) i t.last_seen ts (omega arith),
    oldest_from-lt (i + 1) old_idx oldest ts (omega arith),
  )

  length-remove_at :
      (i : ℕ) (ts : List (Track Box)) → i < length ts → length (remove_at i ts) + 1 ≡ length ts
  unfolding remove_at
  length-remove_at i [] h = absurd (omega arith)
  length-remove_at zero (t ∷ ts) h = omega arith
  length-remove_at (suc i) (t ∷ ts) h = omega (arith, length-remove_at i ts (omega arith))

module _ {Box Score : Type 0} where
  -- The count is the number of the tracks.
  abbrev pub IsCounted : Deduper Box Score → Type 0
  IsCounted d = d.n ≡ length d.tracks

  abbrev pub IsWithin : ℕ → Deduper Box Score → Type 0
  IsWithin bound d = (d.max_tracks ≡ bound) × IsCounted d × (d.n ≤ bound)

  evict_at-IsCounted :
      (ts : List (Track Box)) (d : Deduper Box Score)
      → d.n ≡ length ts
      → d.tracks ≡ ts
      → IsCounted (evict_at ts d)
        × ((evict_at ts d).n ≡ d.n - 1)
        × ((evict_at ts d).max_tracks ≡ d.max_tracks)
  unfolding evict_at
  evict_at-IsCounted [] d h same = (ground (arith, same), omega (arith, h), refl)
  evict_at-IsCounted (t ∷ ts) d h same =
      let removed =
        length-remove_at (oldest_from 1 0 t.last_seen ts) (t ∷ ts)
          (omega (arith, oldest_from-lt 1 0 t.last_seen ts (omega arith))) in
      (omega (arith, h, removed), refl, refl)

  -- The fuel of the loop is enough: it ends within the bound.
  evict_loop-IsWithin :
      (fuel : ℕ) (d : Deduper Box Score)
      → IsCounted d
      → d.n ≤ fuel
      → IsWithin d.max_tracks (evict_loop fuel d)
  unfolding evict_loop evict_oldest
  evict_loop-IsWithin zero d h le = (refl, h, omega (arith, le))
  evict_loop-IsWithin (suc fuel) d h le =
      let step = evict_at-IsCounted d.tracks d h refl in
      ground (arith, step, evict_loop-IsWithin fuel (evict_oldest d) step.0)

  expire-IsCounted :
      (camera : String) (at wall : ℕ) (d : Deduper Box Score)
      → IsCounted d
      → IsCounted (expire camera at wall d)
  unfolding expire
  expire-IsCounted camera at wall d h =
      omega (arith, h, length-keep_alive camera at wall d.gap d.tracks)

module _ {Box Score : Type 0} (iou : Box → Box → Score) (at_least : Score → Score → Bool) where
  settle_match-IsCounted :
      (found : Option ℕ) (camera : String) (at wall : ℕ) (det : Detection Box)
      (d : Deduper Box Score)
      → IsCounted d
      → IsCounted (settle_match iou at_least found camera at wall det d).0
        × ((settle_match iou at_least found camera at wall det d).0.max_tracks ≡ d.max_tracks)
  unfolding settle_match start_track
  settle_match-IsCounted none camera at wall det d h = (grind (arith, h, length-append), refl)
  settle_match-IsCounted (some i) camera at wall det d h =
      (omega (arith, h, length-sight i det.bbox at wall d.round d.tracks), refl)

  admit_loop-IsCounted :
      (camera : String) (at wall : ℕ) (dets : List (Detection Box)) (d : Deduper Box Score)
      → IsCounted d
      → IsCounted (admit_loop iou at_least camera at wall dets d).0
        × ((admit_loop iou at_least camera at wall dets d).0.max_tracks ≡ d.max_tracks)
        × (length (admit_loop iou at_least camera at wall dets d).1 ≡ length dets)
  unfolding admit_loop
  admit_loop-IsCounted camera at wall [] d h = (h, refl, refl)
  admit_loop-IsCounted camera at wall (det ∷ dets) d h =
      let found = match_as iou at_least det.track_id camera det d in
      let step = settle_match-IsCounted found camera at wall det d h in
      let rest =
        admit_loop-IsCounted camera at wall dets
          (settle_match iou at_least found camera at wall det d).0 step.0 in
      (rest.0, rest.1 ∙ step.1, omega (arith, rest.2))

  admit-IsWithin :
      (camera : String) (at wall : ℕ) (dets : List (Detection Box)) (d : Deduper Box Score)
      → IsCounted d
      → IsWithin d.max_tracks (admit iou at_least camera at wall dets d).0
        × (length (admit iou at_least camera at wall dets d).1 ≡ length dets)
  unfolding admit expire
  admit-IsWithin camera at wall dets d h =
      let started = record d { round = (d.round + 1) % 2 ^ 64 } in
      let looped =
        admit_loop-IsCounted camera at wall dets (expire camera at wall started)
          (expire-IsCounted camera at wall started h) in
      let d' = (admit_loop iou at_least camera at wall dets (expire camera at wall started)).0 in
      let evicted = evict_loop-IsWithin d'.n d' looped.0 (omega arith) in
      ((evicted.0 ∙ looped.1, evicted.1, omega (arith, evicted.2, looped.1)), looped.2)

-- One call of `Admit`: the camera, the times of the frame and of the clock, and the detections.
pub record Frame (Box : Type 0) : Type 0 where
  pub camera : String
  pub at : ℕ
  pub wall : ℕ
  pub detections : List (Detection Box)

module _ {Box : Type 0} where
  -- Each answer has a verdict for each detection of its frame.
  unfoldable pub Answers : List (Frame Box) → List (List Bool) → Type 0
  Answers [] [] = Unit
  Answers [] (a ∷ rest) = ⊥
  Answers (f ∷ fs) [] = ⊥
  Answers (f ∷ fs) (a ∷ rest) = (length a ≡ length f.detections) × Answers fs rest

module _ {Box Score : Type 0} (iou : Box → Box → Score) (at_least : Score → Score → Bool) where
  unfoldable pub admit_all :
      List (Frame Box) → Deduper Box Score → Deduper Box Score × List (List Bool)
  admit_all [] d = (d, [])
  admit_all (f ∷ fs) d =
      let (d', answers) = admit iou at_least f.camera f.at f.wall f.detections d in
      let (d'', rest) = admit_all fs d' in (d'', answers ∷ rest)

  admit_all-IsWithin :
      (fs : List (Frame Box)) (d : Deduper Box Score)
      → IsWithin d.max_tracks d
      → IsWithin d.max_tracks (admit_all fs d).0 × Answers fs (admit_all fs d).1
  unfolding admit_all Answers
  admit_all-IsWithin [] d h = (h, tt)
  admit_all-IsWithin (f ∷ fs) d h =
      let step = admit-IsWithin iou at_least f.camera f.at f.wall f.detections d h.1 in
      let d' = (admit iou at_least f.camera f.at f.wall f.detections d).0 in
      let rest = admit_all-IsWithin fs d' (subst (λ k. IsWithin k d') (sym step.0.0) step.0) in
      (subst (λ k. IsWithin k (admit_all fs d').0) step.0.0 rest.0, (step.1, rest.1))

  -- Each call of `Admit` ends, with a verdict for each detection of its frame, and the deduper of any
  -- arguments keeps at most as many tracks as they allow, and counts them right, over any frames of any
  -- cameras at any times, whatever the overlaps are.
  pub new-admit_all-IsWithin :
      (is_positive : Score → Bool) (default_iou : Score) (gap : ℕ) (min_iou : Score)
      (max_tracks : ℕ) (fs : List (Frame Box))
      → IsWithin
          (if max_tracks == 0 then default_max_tracks else max_tracks)
          (admit_all fs (new_deduper is_positive default_iou gap min_iou max_tracks)).0
        × Answers fs (admit_all fs (new_deduper is_positive default_iou gap min_iou max_tracks)).1
  unfolding new_deduper
  new-admit_all-IsWithin is_positive default_iou gap min_iou max_tracks fs =
      admit_all-IsWithin fs (new_deduper is_positive default_iou gap min_iou max_tracks)
        (refl, refl, omega arith)

-- ===== src/FullEdge/Dedup.antt =====
-- internal/fulledge/dedup.go: whether a detection starts an event or continues a known object.
-- The tracks of all keys are one list, oldest first, each with its key; Go's map has them in no order,
-- so of two tracks that were last seen at the same time it may evict either. Times are nanoseconds, and
-- a time that is not later than another by the gap is written as a sum. Overlaps are floats in the
-- code: boxes, `iou`, the test `>=` and the default are parameters.
pub mod Bounds
pub mod Continues
pub mod Unmatched
pub mod Again
use monitoreoedgeis.Prelude.{
  ℕ, zero, suc, ◌+◌, ◌-◌, ◌*◌, ◌%◌, ◌^◌, Bool, true, false, not, ◌&&◌, Option, none, some, List, [],
  ◌∷◌, ◌++◌, String, str_eq, ltb, leb, ◌==◌, if◌then◌else◌, length, is_some,
}
use monitoreoedgeis.Prelude.Int.{ℤ, eqb_ℤ}

abbrev pub default_gap : ℕ
default_gap = 10 * 1000000000

abbrev pub default_max_tracks : ℕ
default_max_tracks = 512

pub record Detection (Box : Type 0) : Type 0 where
  pub label : String
  pub tipo : String
  pub bbox : Box
  pub track_id : Option ℤ

pub record Track (Box : Type 0) : Type 0 where
  pub camera : String
  pub object_class : String
  pub id : Option ℤ
  pub bbox : Box
  pub last_seen : ℕ
  pub seen_wall : ℕ
  pub frame : ℕ

pub record Deduper (Box Score : Type 0) : Type 0 where
  pub gap : ℕ
  pub min_iou : Score
  pub max_tracks : ℕ
  pub tracks : List (Track Box)
  pub n : ℕ
  pub round : ℕ

unfoldable pub same_id : ℤ → Option ℤ → Bool
same_id wanted none = false
same_id wanted (some id) = eqb_ℤ id wanted

module _ {Box : Type 0} where
  unfoldable pub detection_class : Detection Box → String
  detection_class det = if str_eq det.label "" then det.tipo else det.label

  unfoldable pub is_of : String → String → Track Box → Bool
  is_of camera class t = str_eq t.camera camera && str_eq t.object_class class

  -- `matchLocked` for a detection with a track id: the index of the first track that has it.
  unfoldable pub match_id : String → String → ℤ → ℕ → ℕ → List (Track Box) → Option ℕ
  match_id camera class wanted round i [] = none
  match_id camera class wanted round i (t ∷ ts) =
      let rest = match_id camera class wanted round (i + 1) ts in
      if is_of camera class t && not (t.frame == round) && same_id wanted t.id then some i else rest

  unfoldable pub is_alive : String → ℕ → ℕ → ℕ → Track Box → Bool
  is_alive camera at wall gap t =
      if str_eq t.camera camera then leb at (t.last_seen + gap) else leb wall (t.seen_wall + gap)

  unfoldable pub keep_alive : String → ℕ → ℕ → ℕ → List (Track Box) → List (Track Box)
  keep_alive camera at wall gap [] = []
  keep_alive camera at wall gap (t ∷ ts) =
      let rest = keep_alive camera at wall gap ts in
      if is_alive camera at wall gap t then t ∷ rest else rest

  -- The fields that a match sets.
  unfoldable pub sight : ℕ → Box → ℕ → ℕ → ℕ → List (Track Box) → List (Track Box)
  sight i bbox at wall round [] = []
  sight zero bbox at wall round (t ∷ ts) =
      record t { bbox = bbox; last_seen = at; seen_wall = wall; frame = round } ∷ ts
  sight (suc i) bbox at wall round (t ∷ ts) = t ∷ sight i bbox at wall round ts

  -- The scan of `evictOldestLocked`, behind its first track.
  unfoldable pub oldest_from : ℕ → ℕ → ℕ → List (Track Box) → ℕ
  oldest_from i old_idx oldest [] = old_idx
  oldest_from i old_idx oldest (t ∷ ts) =
      if ltb t.last_seen oldest
      then oldest_from (i + 1) i t.last_seen ts
      else oldest_from (i + 1) old_idx oldest ts

  unfoldable pub remove_at : ℕ → List (Track Box) → List (Track Box)
  remove_at i [] = []
  remove_at zero (t ∷ ts) = ts
  remove_at (suc i) (t ∷ ts) = t ∷ remove_at i ts

module _ {Box Score : Type 0} where
  unfoldable pub expire : String → ℕ → ℕ → Deduper Box Score → Deduper Box Score
  expire camera at wall d =
      let kept = keep_alive camera at wall d.gap d.tracks in
      record d { tracks = kept; n = d.n - (length d.tracks - length kept) }

  unfoldable pub evict_at : List (Track Box) → Deduper Box Score → Deduper Box Score
  evict_at [] d = d
  evict_at (t ∷ ts) d = record d {
    tracks = remove_at (oldest_from 1 0 t.last_seen ts) (t ∷ ts);
    n = d.n - 1;
  }

  unfoldable pub evict_oldest : Deduper Box Score → Deduper Box Score
  unfolding evict_at
  evict_oldest d = evict_at d.tracks d

  -- The loop at the end of `Admit`, on fuel.
  unfoldable pub evict_loop : ℕ → Deduper Box Score → Deduper Box Score
  evict_loop zero d = d
  evict_loop (suc fuel) d = if ltb d.max_tracks d.n then evict_loop fuel (evict_oldest d) else d

  unfoldable pub start_track :
      String → String → ℕ → ℕ → ℕ → Detection Box → Deduper Box Score → Deduper Box Score
  start_track camera class at wall round det d = record d {
    tracks =
        d.tracks
        ++ (record {
          camera = camera;
          object_class = class;
          id = det.track_id;
          bbox = det.bbox;
          last_seen = at;
          seen_wall = wall;
          frame = round;
        }
            ∷ []);
    n = d.n + 1;
  }

module _ {Box Score : Type 0} (iou : Box → Box → Score) (at_least : Score → Score → Bool) where
  -- `matchLocked` for a detection without: the last of the tracks with the greatest overlap.
  unfoldable pub match_box :
      String → String → Box → ℕ → ℕ → Option ℕ → Score → List (Track Box) → Option ℕ
  match_box camera class bbox round i best best_iou [] = best
  match_box camera class bbox round i best best_iou (t ∷ ts) =
      if is_of camera class t
        && not (t.frame == round)
        && not (is_some t.id)
        && at_least (iou t.bbox bbox) best_iou
      then match_box camera class bbox round (i + 1) (some i) (iou t.bbox bbox) ts
      else match_box camera class bbox round (i + 1) best best_iou ts

  unfoldable pub match_as : Option ℤ → String → Detection Box → Deduper Box Score → Option ℕ
  match_as none camera det d =
      match_box camera (detection_class det) det.bbox d.round 0 none d.min_iou d.tracks
  match_as (some wanted) camera det d =
      match_id camera (detection_class det) wanted d.round 0 d.tracks

  unfoldable pub settle_match :
      Option ℕ → String → ℕ → ℕ → Detection Box → Deduper Box Score → Deduper Box Score × Bool
  settle_match none camera at wall det d =
      (start_track camera (detection_class det) at wall d.round det d, true)
  settle_match (some i) camera at wall det d =
      (record d { tracks = sight i det.bbox at wall d.round d.tracks }, false)

  -- The loop of `Admit`.
  unfoldable pub admit_loop :
      String → ℕ → ℕ → List (Detection Box) → Deduper Box Score → Deduper Box Score × List Bool
  unfolding match_as settle_match
  admit_loop camera at wall [] d = (d, [])
  admit_loop camera at wall (det ∷ dets) d =
      let (d', is_new) = settle_match (match_as det.track_id camera det d) camera at wall det d in
      let (d'', rest) = admit_loop camera at wall dets d' in (d'', is_new ∷ rest)

  -- `Admit`; `round` is a uint64.
  unfoldable pub admit :
      String → ℕ → ℕ → List (Detection Box) → Deduper Box Score → Deduper Box Score × List Bool
  unfolding admit_loop expire evict_loop
  admit camera at wall dets d =
      let started = expire camera at wall (record d { round = (d.round + 1) % 2 ^ 64 }) in
      let (d', out) = admit_loop camera at wall dets started in (evict_loop d'.n d', out)

-- `NewDeduper`, whose arguments below 0 count as 0.
unfoldable pub new_deduper :
    {Box Score : Type 0} → (Score → Bool) → Score → ℕ → Score → ℕ → Deduper Box Score
new_deduper is_positive default_iou gap min_iou max_tracks = record {
  gap = if gap == 0 then default_gap else gap;
  min_iou = if is_positive min_iou then min_iou else default_iou;
  max_tracks = if max_tracks == 0 then default_max_tracks else max_tracks;
  tracks = [];
  n = 0;
  round = 0;
}

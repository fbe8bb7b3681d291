-- ===== src/FullEdge/Dedup/Continues.antt =====
-- internal/fulledge/dedup.go: a tracked object that is seen again.
use monitoreoedgeis.Prelude.{
  ℕ, zero, suc, ◌+◌, ◌≤◌, ◌≡◌, ◌⊎◌, inl, inr, refl, sym, subst, ap, Bool, true, false, not, ◌&&◌,
  Option, none, some, is_some, List, [], ◌∷◌, ◌++◌, String, eq_refl, leb, ◌==◌, arith, Bool-cases,
}
use monitoreoedgeis.Prelude.Int.{ℤ, eqb_ℤ_refl}
use monitoreoedgeis.FullEdge.Dedup.{
  Detection, Track, Deduper, detection_class, is_of, same_id, match_id, is_alive, keep_alive, sight,
  evict_loop, start_track, match_as, settle_match,
}

module _ {Box : Type 0} where
  unfoldable pub Any : (Track Box → Bool) → List (Track Box) → Type 0
  Any p [] = ⊥
  Any p (t ∷ ts) = (p t ≡ true) ⊎ Any p ts

  -- The object `wanted` of the camera's class.
  unfoldable pub is_object : String → String → ℤ → Track Box → Bool
  is_object camera class wanted t = is_of camera class t && same_id wanted t.id

  -- It was last seen at `at`, in the round `round`.
  unfoldable pub was_seen : String → String → ℤ → ℕ → ℕ → Track Box → Bool
  unfolding is_object
  was_seen camera class wanted at round t =
      is_object camera class wanted t && (t.last_seen == at) && (t.frame == round)

  -- The round `round` at `at` finds it.
  unfoldable pub is_known : String → String → ℤ → ℕ → ℕ → ℕ → Track Box → Bool
  unfolding is_object
  is_known camera class wanted at gap round t =
      is_object camera class wanted t && leb at (t.last_seen + gap) && not (t.frame == round)

  pub Any-mono :
      (p q : Track Box → Bool)
      → ((t : Track Box) → p t ≡ true → q t ≡ true)
      → (ts : List (Track Box)) → Any p ts
      → Any q ts
  unfolding Any
  Any-mono p q imp [] h = absurd h
  Any-mono p q imp (t ∷ ts) (inl h) = inl (imp t h)
  Any-mono p q imp (t ∷ ts) (inr h) = inr (Any-mono p q imp ts h)

  Any-snoc :
      (p : Track Box → Bool) (t : Track Box) (ts : List (Track Box))
      → p t ≡ true
      → Any p (ts ++ (t ∷ []))
  unfolding Any
  Any-snoc p t [] h = inl h
  Any-snoc p t (u ∷ ts) h = inr (Any-snoc p t ts h)

  pub seen-known :
      (camera class : String) (wanted : ℤ) (at at' gap round round' : ℕ) (t : Track Box)
      → at' ≤ at + gap
      → (round ≡ round' → ⊥)
      → was_seen camera class wanted at round t ≡ true
      → is_known camera class wanted at' gap round' t ≡ true
  unfolding was_seen is_known
  seen-known camera class wanted at at' gap round round' t soon new h = ground (arith, soon, new, h)

  pub keep_alive-Any :
      (camera class : String) (wanted : ℤ) (at wall gap round : ℕ) (ts : List (Track Box))
      → Any (is_known camera class wanted at gap round) ts
      → Any (is_known camera class wanted at gap round) (keep_alive camera at wall gap ts)
  unfolding Any keep_alive is_alive is_known is_object is_of
  keep_alive-Any camera class wanted at wall gap round [] h = absurd h
  keep_alive-Any camera class wanted at wall gap round (t ∷ ts) (inl h) = ground (arith, h)
  keep_alive-Any camera class wanted at wall gap round (t ∷ ts) (inr h) =
      ground (arith, keep_alive-Any camera class wanted at wall gap round ts h)

  pub match_id-known :
      (camera class : String) (wanted : ℤ) (at gap round i : ℕ) (ts : List (Track Box))
      → Any (is_known camera class wanted at gap round) ts
      → is_some (match_id camera class wanted round i ts) ≡ true
  unfolding Any match_id is_known is_object
  match_id-known camera class wanted at gap round i [] h = absurd h
  match_id-known camera class wanted at gap round i (t ∷ ts) (inl h) = ground (arith, h)
  match_id-known camera class wanted at gap round i (t ∷ ts) (inr h) =
      ground (arith, match_id-known camera class wanted at gap round (i + 1) ts h)

  -- A match makes the object the one that was seen last.
  sight-seen :
      (camera class : String) (wanted : ℤ) (bbox : Box) (at wall round i j : ℕ)
      (ts : List (Track Box))
      → match_id camera class wanted round i ts ≡ some j
      → (k : ℕ) × (j ≡ i + k)
        × Any (was_seen camera class wanted at round) (sight k bbox at wall round ts)
  unfolding Any match_id sight was_seen is_object is_of
  sight-seen camera class wanted bbox at wall round i j [] found = absurd (ground (arith, found))
  sight-seen camera class wanted bbox at wall round i j (t ∷ ts) found =
      elim (Bool-cases (is_of camera class t && not (t.frame == round) && same_id wanted t.id)) [
        | inl hit ↦ (0, ground (arith, hit, found), inl (ground (arith, hit)))
        | inr miss ↦
            (let (k, at_k, seen) =
                sight-seen camera class wanted bbox at wall round (i + 1) j ts
                  (ground (arith, miss, found)) in
              (suc k, omega (arith, at_k), inr seen))
      ]

  new-seen :
      (camera : String) (at wall round : ℕ) (wanted : ℤ) (det : Detection Box)
      → det.track_id ≡ some wanted
      → was_seen camera (detection_class det) wanted at round (record {
        camera = camera;
        object_class = detection_class det;
        id = det.track_id;
        bbox = det.bbox;
        last_seen = at;
        seen_wall = wall;
        frame = round;
      })
        ≡ true
  unfolding was_seen is_object is_of same_id
  new-seen camera at wall round wanted det id =
      ground (arith, eq_refl camera, eq_refl (detection_class det), id, eqb_ℤ_refl wanted)

module _ {Box Score : Type 0} where
  pub evict_loop-within :
      (fuel : ℕ) (d : Deduper Box Score) → d.n ≤ d.max_tracks → evict_loop fuel d ≡ d
  unfolding evict_loop
  evict_loop-within zero d h = refl
  evict_loop-within (suc fuel) d h = ground (arith, h)

module _ {Box Score : Type 0} (iou : Box → Box → Score) (at_least : Score → Score → Bool) where
  -- What the detection of an object leaves.
  pub settle_match-seen :
      (camera : String) (at wall : ℕ) (det : Detection Box) (wanted : ℤ) (d : Deduper Box Score)
      → det.track_id ≡ some wanted
      → (found : Option ℕ) → match_id camera (detection_class det) wanted d.round 0 d.tracks ≡ found
      → let d' = (settle_match iou at_least found camera at wall det d).0 in
        Any (was_seen camera (detection_class det) wanted at d.round) d'.tracks
        × (d'.n ≤ d.n + 1)
        × (d'.gap ≡ d.gap)
        × (d'.round ≡ d.round)
        × (d'.max_tracks ≡ d.max_tracks)
  unfolding settle_match start_track
  settle_match-seen camera at wall det wanted d id none found = (
    Any-snoc (was_seen camera (detection_class det) wanted at d.round)
        (record {
          camera = camera;
          object_class = detection_class det;
          id = det.track_id;
          bbox = det.bbox;
          last_seen = at;
          seen_wall = wall;
          frame = d.round;
        })
        d.tracks (new-seen camera at wall d.round wanted det id),
    omega arith,
    refl,
    refl,
    refl,
  )
  settle_match-seen camera at wall det wanted d id (some j) found =
      let (k, at_k, seen) =
        sight-seen camera (detection_class det) wanted det.bbox at wall d.round 0 j d.tracks
          found in
      (
        subst
            (λ i.
              Any (was_seen camera (detection_class det) wanted at d.round)
                (sight i det.bbox at wall d.round d.tracks))
            (omega (arith, at_k)) seen,
        omega arith,
        refl,
        refl,
        refl,
      )

  pub match_as-id :
      (camera : String) (det : Detection Box) (wanted : ℤ) (d : Deduper Box Score)
      → det.track_id ≡ some wanted
      → match_id camera (detection_class det) wanted d.round 0 d.tracks
        ≡ match_as iou at_least det.track_id camera det d
  unfolding match_as
  match_as-id camera det wanted d id = ap (λ o. match_as iou at_least o camera det d) (sym id)

  pub settle_match-known :
      (found : Option ℕ) (camera : String) (at wall : ℕ) (det : Detection Box)
      (d : Deduper Box Score)
      → is_some found ≡ true
      → (settle_match iou at_least found camera at wall det d).1 ≡ false
  unfolding settle_match
  settle_match-known none camera at wall det d h = absurd (ground (arith, h))
  settle_match-known (some i) camera at wall det d h = refl

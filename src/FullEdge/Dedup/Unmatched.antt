-- ===== src/FullEdge/Dedup/Unmatched.antt =====
-- internal/fulledge/dedup.go: the tracks that no detection of a frame has matched yet.
use monitoreoedgeis.Prelude.{
  ℕ, zero, suc, ◌+◌, ◌≡◌, ◌⊎◌, inl, inr, subst, Bool, false, not, ◌&&◌, Option, none, some, is_some,
  List, [], ◌∷◌, ◌++◌, String, ◌==◌, arith, Bool-cases,
}
use monitoreoedgeis.Prelude.Int.{ℤ}
use monitoreoedgeis.FullEdge.Dedup.{
  Detection, Track, Deduper, detection_class, is_of, same_id, match_id, match_box, sight, match_as,
}
use monitoreoedgeis.FullEdge.Dedup.Continues.{Any, was_seen}

module _ {Box : Type 0} where
  -- The track at the index was not matched in the round.
  unfoldable pub IsUnmatched : ℕ → ℕ → List (Track Box) → Type 0
  IsUnmatched round k [] = Unit
  IsUnmatched round zero (t ∷ ts) = (t.frame == round) ≡ false
  IsUnmatched round (suc k) (t ∷ ts) = IsUnmatched round k ts

  pub Any-append :
      (p : Track Box → Bool) (t : Track Box) (ts : List (Track Box))
      → Any p ts
      → Any p (ts ++ (t ∷ []))
  unfolding Any
  Any-append p t [] h = absurd h
  Any-append p t (u ∷ ts) (inl h) = inl h
  Any-append p t (u ∷ ts) (inr h) = inr (Any-append p t ts h)

  -- A match of another track leaves the object as it was seen in this round.
  pub sight-Any :
      (camera class : String) (wanted : ℤ) (bbox : Box) (at at' wall round k : ℕ)
      (ts : List (Track Box))
      → IsUnmatched round k ts
      → Any (was_seen camera class wanted at round) ts
      → Any (was_seen camera class wanted at round) (sight k bbox at' wall round ts)
  unfolding Any IsUnmatched sight was_seen
  sight-Any camera class wanted bbox at at' wall round k [] free h = absurd h
  sight-Any camera class wanted bbox at at' wall round zero (t ∷ ts) free (inl h) =
      absurd (ground (arith, free, h))
  sight-Any camera class wanted bbox at at' wall round zero (t ∷ ts) free (inr h) = inr h
  sight-Any camera class wanted bbox at at' wall round (suc k) (t ∷ ts) free (inl h) = inl h
  sight-Any camera class wanted bbox at at' wall round (suc k) (t ∷ ts) free (inr h) =
      inr (sight-Any camera class wanted bbox at at' wall round k ts free h)

  match_id-IsUnmatched :
      (camera class : String) (wanted : ℤ) (round i j : ℕ) (ts : List (Track Box))
      → match_id camera class wanted round i ts ≡ some j
      → (k : ℕ) × (j ≡ i + k) × IsUnmatched round k ts
  unfolding match_id IsUnmatched
  match_id-IsUnmatched camera class wanted round i j [] found = absurd (ground (arith, found))
  match_id-IsUnmatched camera class wanted round i j (t ∷ ts) found =
      elim (Bool-cases (is_of camera class t && not (t.frame == round) && same_id wanted t.id)) [
        | inl hit ↦ (0, ground (arith, hit, found), ground (arith, hit))
        | inr miss ↦
            (let (k, at_k, free) =
                match_id-IsUnmatched camera class wanted round (i + 1) j ts
                  (ground (arith, miss, found)) in
              (suc k, omega (arith, at_k), free))
      ]

module _ {Box Score : Type 0} (iou : Box → Box → Score) (at_least : Score → Score → Bool) where
  match_box-IsUnmatched :
      (camera class : String) (bbox : Box) (round i j : ℕ) (best : Option ℕ) (best_iou : Score)
      (ts : List (Track Box))
      → match_box iou at_least camera class bbox round i best best_iou ts ≡ some j
      → (best ≡ some j) ⊎ ((k : ℕ) × (j ≡ i + k) × IsUnmatched round k ts)
  unfolding match_box IsUnmatched
  match_box-IsUnmatched camera class bbox round i j best best_iou [] found = inl found
  match_box-IsUnmatched camera class bbox round i j best best_iou (t ∷ ts) found =
      elim (Bool-cases (
        is_of camera class t
        && not (t.frame == round)
        && not (is_some t.id)
        && at_least (iou t.bbox bbox) best_iou)) [
          | inl hit ↦
              elim (match_box-IsUnmatched camera class bbox round (i + 1) j (some i)
                (iou t.bbox bbox) ts (simp hit at found)) [
                  | inl this ↦ inr (0, ground (arith, this), ground (arith, hit))
                  | inr (k, at_k, free) ↦ inr (suc k, omega (arith, at_k), free)
                ]
          | inr miss ↦
              elim (match_box-IsUnmatched camera class bbox round (i + 1) j best best_iou ts
                (simp miss at found)) [
                  | inl before ↦ inl before
                  | inr (k, at_k, free) ↦ inr (suc k, omega (arith, at_k), free)
                ]
        ]

  pub match_as-IsUnmatched :
      (o : Option ℤ) (camera : String) (det : Detection Box) (d : Deduper Box Score) (j : ℕ)
      → match_as iou at_least o camera det d ≡ some j
      → IsUnmatched d.round j d.tracks
  unfolding match_as
  match_as-IsUnmatched none camera det d j found =
      elim (match_box-IsUnmatched camera (detection_class det) det.bbox d.round 0 j none d.min_iou
        d.tracks found) [
          | inl found_none ↦ absurd (ground (arith, found_none))
          | inr (k, at_k, free) ↦
              subst (λ i. IsUnmatched d.round i d.tracks) (omega (arith, at_k)) free
        ]
  match_as-IsUnmatched (some wanted) camera det d j found =
      let (k, at_k, free) =
        match_id-IsUnmatched camera (detection_class det) wanted d.round 0 j d.tracks found in
      subst (λ i. IsUnmatched d.round i d.tracks) (omega (arith, at_k)) free

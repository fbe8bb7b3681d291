-- ===== src/EdgeBacklog/Order.antt =====
-- internal/edgebacklog/backlog.go: the order in which `ProcessOne` takes the records of a camera.
use monitoreoedgeis.Prelude.{
  ℕ, ◌≤◌, ◌≡◌, refl, ap, subst, ◌⊎◌, inl, inr, false, not, ◌&&◌, some, String, str_eq, eq_iff, List,
  [], ◌∷◌, ◌++◌, arith, ltb, ◌==◌, Bool-cases,
}
use monitoreoedgeis.Prelude.Map.{contains}
use monitoreoedgeis.EdgeBacklog.{Record}
use monitoreoedgeis.EdgeBacklog.Process.{pick}

module _ {G : Type 0} where
  abbrev pub key_of : Record G → String
  key_of r = r.submission.event.candidate_key

  -- No record of the camera.
  abbrev pub NoneOf : String → List (Record G) → Type 0
  NoneOf key [] = Unit {0}
  NoneOf key (x ∷ q) = (str_eq (key_of x) key ≡ false) × NoneOf key q

  -- The record is due.
  abbrev pub IsDue : ℕ → Record G → Type 0
  IsDue now r = (r.next_attempt ≡ 0) ⊎ (r.next_attempt ≤ now)

  pick_lem :
      (now : ℕ) (deferred : List String) (q : List (Record G)) (r : Record G)
      → pick now deferred q ≡ some r
      → (before after : List (Record G)) × (q ≡ before ++ (r ∷ after))
        × NoneOf (key_of r) before
        × IsDue now r
        × (contains (key_of r) deferred ≡ false)
  unfolding pick contains
  pick_lem now deferred [] r h = cc h
  pick_lem now deferred (x ∷ q) r h =
      elim (Bool-cases (not (x.next_attempt == 0) && ltb now x.next_attempt)) [
        | inl waits ↦
            let (before, after, e, fresh, due, free) =
              pick_lem now (key_of x ∷ deferred) q r (ground arith) in
            (x ∷ before, after, ap (λ l. x ∷ l) e, (ground arith, fresh), due, ground arith)
        | inr due ↦ elim (Bool-cases (contains (key_of x) deferred)) [
          | inl behind ↦
              let (before, after, e, fresh, due', free) =
                pick_lem now deferred q r (ground arith) in
              (
                x ∷ before,
                after,
                ap (λ l. x ∷ l) e,
                (ground (arith, eq_iff (key_of x) (key_of r)), fresh),
                due',
                free,
              )
          | inr free ↦
              let e : x ≡ r = ground arith in
              subst
                (λ (y : Record G).
                  (before after : List (Record G)) × (x ∷ q ≡ before ++ (y ∷ after))
                  × NoneOf (key_of y) before
                  × IsDue now y
                  × (contains (key_of y) deferred ≡ false))
                e ([], q, refl, tt, ground arith, free)
        ]
      ]

  -- The record that `ProcessOne` takes is due, and no record of the same camera stands before it in the
  -- queue.
  pub pick-first :
      (now : ℕ) (q : List (Record G)) (r : Record G)
      → pick now [] q ≡ some r
      → (before after : List (Record G)) × (q ≡ before ++ (r ∷ after))
        × NoneOf (key_of r) before
        × IsDue now r
  pick-first now q r h =
      let (before, after, e, fresh, due, _) = pick_lem now [] q r h in
      (before, after, e, fresh, due)

-- ===== src/EdgeBacklog/Idempotent.antt =====
-- internal/edgebacklog/backlog.go: an event that is submitted to `Enqueue` twice.
use monitoreoedgeis.Prelude.{
  ℕ, ◌≡◌, sym, subst, ◌∙◌, ap, inl, inr, true, false, Bool-cases, Option, none, some, String,
  str_eq, eq_refl, List, [], ◌∷◌, ◌++◌, arith, Option-cases,
}
use monitoreoedgeis.EdgeBacklog.{Submission, Record, Backlog, submissions_equivalent}
use monitoreoedgeis.EdgeBacklog.Submit.{
  Environment, EnqueueError, problem_of, find_event, check_pending, enqueue,
}
use monitoreoedgeis.EdgeBacklog.Capacity.{enqueue-stored}

module _ {G : Type 0} where
  find_event-append :
      (uuid : String) (q : List (Record G)) (r : Record G)
      → find_event uuid q ≡ none
      → str_eq r.submission.event.event_uuid uuid ≡ true
      → find_event uuid (q ++ (r ∷ [])) ≡ some r
  unfolding find_event
  find_event-append uuid [] r h same = ground (arith, same)
  find_event-append uuid (x ∷ q) r h same = ground (arith, h, find_event-append uuid q r)

  -- The queue holds the event with the same content.
  abbrev IsPending : Environment G → Backlog G → Submission G → Type 0
  IsPending env b s =
      (r : Record G) × (find_event s.event.event_uuid b.queue ≡ some r)
      × (submissions_equivalent env.same r.submission s ≡ true)

  enqueue-pending :
      (env : Environment G) (now : ℕ) (b : Backlog G) (s : Submission G)
      → problem_of env s ≡ none
      → IsPending env b s
      → enqueue env now b s ≡ (b, none)
  unfolding enqueue check_pending
  enqueue-pending env now b s h (r, found, same) =
      rw (h, enqueue) (rw (found, check_pending) (ground arith))

  -- Where the queue held a record of the event already, it had the same content.
  found-IsPending :
      (env : Environment G) (now : ℕ) (b : Backlog G) (s : Submission G) (r : Record G)
      → find_event s.event.event_uuid b.queue ≡ some r
      → (enqueue env now b s).1 ≡ none
      → IsPending env (enqueue env now b s).0 s
  unfolding enqueue check_pending
  found-IsPending env now b s r found h = elim (Option-cases (problem_of env s)) [
    | inr (e, p) ↦ cc (rw (p, enqueue) at h)
    | inl p ↦ elim (Bool-cases (submissions_equivalent env.same r.submission s)) [
      | inl like ↦
          subst (λ (c : Backlog G × Option EnqueueError). IsPending env c.0 s)
            (sym (enqueue-pending env now b s p (r, found, like))) (r, found, like)
      | inr unlike ↦ absurd (refused unlike (rw (found) at (rw (p, enqueue) at h)))
    ]
  ]
    where
      refused :
          submissions_equivalent env.same r.submission s ≡ false
          → (check_pending env now b s (some r)).1 ≡ none
          → ⊥
      refused unlike accepted = ground (arith, unlike, accepted)

  enqueued-IsPending :
      (env : Environment G) (now : ℕ) (b : Backlog G) (s : Submission G)
      → submissions_equivalent env.same s s ≡ true
      → (enqueue env now b s).1 ≡ none
      → IsPending env (enqueue env now b s).0 s
  enqueued-IsPending env now b s alike h =
      elim (Option-cases (find_event s.event.event_uuid b.queue)) [
        | inr (r, found) ↦ found-IsPending env now b s r found h
        | inl new ↦
            let (r, queue, _, same, _) = enqueue-stored env now b s h new in
            (
              r,
              ap (find_event s.event.event_uuid) queue
                  ∙ find_event-append s.event.event_uuid b.queue r new (
                      ap (λ (t : Submission G). str_eq t.event.event_uuid s.event.event_uuid) same
                      ∙ eq_refl s.event.event_uuid),
              ap (λ t. submissions_equivalent env.same t s) same ∙ alike,
            )
      ]

  -- Submitting an event twice is as submitting it once: after an `Enqueue` that was accepted, the next
  -- one of the same submission, at any time, is accepted and changes nothing, whatever the bounds, the
  -- camera's mark and the writes of files say by then, where its evidence passes the checks once more
  -- and the comparison, the same as before, finds the submission to be like itself.
  pub enqueue-twice :
      (env env' : Environment G) (now now' : ℕ) (b : Backlog G) (s : Submission G)
      → submissions_equivalent env.same s s ≡ true
      → env'.same ≡ env.same
      → problem_of env' s ≡ none
      → (enqueue env now b s).1 ≡ none
      → let c = (enqueue env now b s).0 in enqueue env' now' c s ≡ (c, none)
  enqueue-twice env env' now now' b s alike same fine h =
      let (r, found, like) = enqueued-IsPending env now b s alike h in
      enqueue-pending env' now' (enqueue env now b s).0 s fine
        (r, found, ap (λ f. submissions_equivalent f r.submission s) same ∙ like)

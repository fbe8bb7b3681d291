-- ===== src/EdgeBacklog/Progress.antt =====
-- internal/edgebacklog/backlog.go: what becomes of a record when `ProcessOne` has an answer.
use monitoreoedgeis.Prelude.{
  ℕ, suc, ◌+◌, ◌≤◌, ◌≡◌, refl, sym, ◌∙◌, ap, subst, ◌⊎◌, inl, inr, true, false, ◌||◌, Option, none,
  some, String, str_eq, List, arith, leb, is_some, if-rule,
}
use monitoreoedgeis.Prelude.Map.{lookup, insert}
use monitoreoedgeis.EdgeBacklog.{Record, Backlog, bounded_error}
use monitoreoedgeis.EdgeBacklog.Files.{replace_at}
use monitoreoedgeis.EdgeBacklog.Inactive.{mark_active}
use monitoreoedgeis.EdgeBacklog.Submit.{Environment}
use monitoreoedgeis.EdgeBacklog.Process.{
  SendError, find_sequence, retry_delay, finish_record, keep_record, advance, settle_sent, accepted,
  refuse, first_mark, note_mark, hold_inactive, rejected, settle,
}
use monitoreoedgeis.EdgeBacklog.Capacity.{persist_inactive-Kept}
use monitoreoedgeis.EdgeBacklog.Retry.{retry_delay_bound}
use monitoreoedgeis.EdgeBacklog.Sequences.{
  has, SameSequences, replace_at-SameSequences, find_sequence-replace_at, remove_at-others,
  persist_locked-queue, mark_active-SameSequences, quarantine_locked-queue, remove_locked-queue,
}

because :
    {Reason : Type 0} {A : Type 0} (n seq : ℕ) → A ⊎ (n ≡ seq) → Reason → A ⊎ ((n ≡ seq) × Reason)
because n seq (inl a) h = inl a
because n seq (inr e) h = inr (e, h)

module _ {G : Type 0} where
  -- What the agent learnt of a record that may leave the queue: its last stage was accepted, it was
  -- refused for good, or its camera has been inactive for longer than the retention.
  abbrev pub MayLeave : ℕ → Backlog G → Record G → Option SendError → Type 0
  MayLeave now b r outcome =
      ((outcome ≡ none) × (str_eq (advance r) "complete" ≡ true))
      ⊎ ((e : SendError) × (outcome ≡ some e)
          × ((e.invalid_request || e.unexpected_status ≡ true)
              ⊎ ((e.camera_inactive ≡ true)
                  × (first_mark now r.inactive_since
                          (lookup (r.submission.event.candidate_key) b.inactive_candidates)
                        + b.cfg.inactive_retention
                      ≤ now))))

  -- The queue has lost nothing, or only the record, which may leave.
  abbrev pub LosesOnly : ℕ → List (Record G) → ℕ → Type 0 → List (Record G) → Type 0
  LosesOnly n q seq Reason p = (has n p ≡ has n q) ⊎ ((n ≡ seq) × Reason)

  keep_record-has :
      (env : Environment G) (b : Backlog G) (r : Record G)
      → SameSequences b.queue (keep_record env b r).queue
  unfolding keep_record
  keep_record-has env b r n =
      ap (has n)
        (persist_locked-queue env.fs env.marshal (record b { queue = replace_at r b.queue }) r)
      ∙ replace_at-SameSequences r b.queue n

  finish_record-has :
      (env : Environment G) (b : Backlog G) (r : Record G) (n : ℕ)
      → (has n (finish_record env b r).queue ≡ has n b.queue) ⊎ (n ≡ r.sequence)
  unfolding finish_record
  finish_record-has env b r n =
      subst (λ q. (has n q ≡ has n b.queue) ⊎ (n ≡ r.sequence))
        (sym (remove_locked-queue env.fs b r)) (remove_at-others r.sequence n b.queue)

  refuse-has :
      (env : Environment G) (b : Backlog G) (r : Record G) (reason : String) (n : ℕ)
      → (has n (refuse env b r reason).queue ≡ has n b.queue) ⊎ (n ≡ r.sequence)
  unfolding refuse
  refuse-has env b r reason n =
      subst (λ q. (has n q ≡ has n b.queue) ⊎ (n ≡ r.sequence))
        (sym (quarantine_locked-queue env.fs b r)) (remove_at-others r.sequence n b.queue)

  abbrev Settled : ℕ → Backlog G → ℕ → Type 0 → Backlog G → Type 0
  Settled n b seq Reason c = LosesOnly n b.queue seq Reason c.queue

  settle_sent-has :
      (env : Environment G) (now : ℕ) (b : Backlog G) (r : Record G) (n : ℕ)
      → Settled n b r.sequence (str_eq (advance r) "complete" ≡ true) (settle_sent env now b r)
  unfolding settle_sent
  settle_sent-has env now b r n =
      if-rule (Settled n b r.sequence (str_eq (advance r) "complete" ≡ true))
        (str_eq (advance r) "complete") (λ h. because n r.sequence (finish_record-has env _ _ n) h)
        (λ _. inl (keep_record-has env _ _ n))

  accepted-has :
      (env : Environment G) (now : ℕ) (b : Backlog G) (r : Record G) (n : ℕ)
      → Settled n b r.sequence (str_eq (advance r) "complete" ≡ true) (accepted env now b r)
  unfolding accepted advance
  accepted-has env now b r n =
      let key = r.submission.event.candidate_key in
      if-rule (Settled n b r.sequence (str_eq (advance r) "complete" ≡ true))
        (is_some (lookup key b.inactive_candidates) || is_some r.inactive_since)
        (λ _.
          elim (settle_sent-has env now (mark_active env.fs env.marshal env.marshal_state now key b)
            (record r { inactive_since = none }) n) [
              | inl same ↦ inl (same ∙ mark_active-SameSequences env now key b n)
              | inr gone ↦ inr gone
            ])
        (λ _. settle_sent-has env now b r n)

  note_mark-queue :
      (env : Environment G) (key : String) (since : ℕ) (b : Backlog G)
      → ((note_mark env key since b).queue ≡ b.queue) × ((note_mark env key since b).cfg ≡ b.cfg)
  unfolding note_mark
  note_mark-queue env key since b =
      if-rule (λ (c : Backlog G). (c.queue ≡ b.queue) × (c.cfg ≡ b.cfg)) _
        (λ _.
          let (cfg, queue, _) =
            persist_inactive-Kept env.fs env.marshal_state
              (record b { inactive_candidates = insert key since b.inactive_candidates }) in
          (queue, cfg))
        (λ _. (refl, refl))

  hold_inactive-has :
      (env : Environment G) (now : ℕ) (b : Backlog G) (r : Record G) (n : ℕ)
      → Settled n b r.sequence
          (first_mark now r.inactive_since
                (lookup r.submission.event.candidate_key b.inactive_candidates)
              + b.cfg.inactive_retention
            ≤ now)
          (hold_inactive env now b r)
  unfolding hold_inactive
  hold_inactive-has env now b r n =
      let key = r.submission.event.candidate_key in
      let since = first_mark now r.inactive_since (lookup key b.inactive_candidates) in
      let (queue, _) = note_mark-queue env key since b in
      if-rule (Settled n b r.sequence (since + b.cfg.inactive_retention ≤ now))
        (leb (since + b.cfg.inactive_retention) now)
        (λ h. elim (refuse-has env _ _ "camera_inactive_retention_expired" n) [
          | inl same ↦ inl (same ∙ ap (has n) queue)
          | inr e ↦ inr (e, ground arith)
        ])
        (λ _. inl (keep_record-has env _ _ n ∙ ap (has n) queue))

  rejected-has :
      (env : Environment G) (now : ℕ) (b : Backlog G) (r : Record G) (e : SendError) (n : ℕ)
      → Settled n b r.sequence (MayLeave now b r (some e)) (rejected env now b r e)
  unfolding rejected
  rejected-has env now b r e n =
      let b₂ = record b {
        last_error = bounded_error e.message;
        degraded = e.unauthorized || b.degraded;
      } in
      let r₁ = record r {
        attempts = suc r.attempts;
        next_attempt = now + retry_delay b.cfg (suc r.attempts) e;
      } in
      if-rule (Settled n b r.sequence (MayLeave now b r (some e)))
        (e.invalid_request || e.unexpected_status)
        (λ h.
          because n r.sequence
            (refuse-has env (record b { last_error = bounded_error e.message }) r
              (bounded_error e.message) n)
            (inr (e, refl, inl h)))
        λ _.
          if-rule (Settled n b r.sequence (MayLeave now b r (some e))) e.camera_inactive
            (λ h. elim (hold_inactive-has env now b₂ r₁ n) [
              | inl same ↦ inl same
              | inr (at, expired) ↦ inr (at, inr (e, refl, inr (h, expired)))
            ])
            (λ _. inl (keep_record-has env _ _ n))

  -- No event is lost: whatever the answer to a send and whatever the files do, the queue holds the
  -- same sequences afterwards, or it holds all but that of the record that was sent, and then its last
  -- stage was accepted, or it was answered as invalid or with an unexpected status, or its camera was
  -- answered as inactive after the whole retention.
  pub settle-loses_none :
      (env : Environment G) (now : ℕ) (b : Backlog G) (r : Record G) (outcome : Option SendError)
      (n : ℕ)
      → (has n (settle env now b r outcome).queue ≡ has n b.queue)
        ⊎ ((n ≡ r.sequence) × MayLeave now b r outcome)
  unfolding settle
  settle-loses_none env now b r none n =
      if-rule (Settled n b r.sequence (MayLeave now b r none)) (has r.sequence b.queue)
        (λ _. elim (accepted-has env now b r n) [
          | inl same ↦ inl same
          | inr (at, last) ↦ inr (at, inl (refl, last))
        ])
        (λ _. inl refl)
  settle-loses_none env now b r (some e) n =
      if-rule (Settled n b r.sequence (MayLeave now b r (some e))) (has r.sequence b.queue)
        (λ _. rejected-has env now b r e n) (λ _. inl refl)

  -- A record whose send failed for another reason than a refusal or an inactive camera stays queued in
  -- its stage, with one attempt more, and is due again within RetryMax.
  pub settle-retries :
      (env : Environment G) (now : ℕ) (b : Backlog G) (r : Record G) (e : SendError)
      → has r.sequence b.queue ≡ true
      → e.invalid_request || e.unexpected_status ≡ false
      → e.camera_inactive ≡ false
      → (r' : Record G) × (find_sequence r.sequence (settle env now b r (some e)).queue ≡ some r')
        × (r'.submission ≡ r.submission)
        × (r'.stage ≡ r.stage)
        × (r'.attempts ≡ suc r.attempts)
        × (r'.next_attempt ≤ now + b.cfg.retry_max)
  unfolding settle rejected keep_record
  settle-retries env now b r e h valid active =
      let b₂ = record b {
        last_error = bounded_error e.message;
        degraded = e.unauthorized || b.degraded;
      } in
      let r₁ = record r {
        attempts = suc r.attempts;
        next_attempt = now + retry_delay b.cfg (suc r.attempts) e;
      } in
      let kept : settle env now b r (some e) ≡ keep_record env b₂ r₁ = simp (h, valid, active) in
      (
        r₁,
        ap (λ (c : Backlog G). find_sequence r.sequence c.queue) kept
            ∙ (ap (find_sequence r.sequence) (
                  persist_locked-queue env.fs env.marshal
                    (record b₂ { queue = replace_at r₁ b.queue }) r₁)
                ∙ find_sequence-replace_at r₁ b.queue h),
        refl,
        refl,
        refl,
        omega (arith, retry_delay_bound b.cfg (suc r.attempts) e),
      )

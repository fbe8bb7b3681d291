-- ===== src/EdgeBacklog/Drain/Send.antt =====
-- internal/edgebacklog/backlog.go: `send` on a record that is ready, and the stage that follows.
use monitoreoedgeis.Prelude.{
  ℕ, ◌+◌, ◌<◌, ◌≡◌, refl, ◌⊎◌, inl, inr, true, false, Option, none, some, String, str_eq, arith,
  is_some, if-rule, if◌then◌else◌, Option-cases,
}
use monitoreoedgeis.EdgeBacklog.{Record, Evidence, Submission, next_stage}
use monitoreoedgeis.EdgeBacklog.Submit.{Environment}
use monitoreoedgeis.EdgeBacklog.Process.{Sender, send, advance, send_evidence}
use monitoreoedgeis.EdgeBacklog.Drain.{
  one_if, left_at, sends_left, StageFits, HasStage, Accepts, IsReadable, IsReady,
}

module _ {G W D : Type 0} (env : Environment G) (sender : Sender G W D) where
  send_evidence-accepted :
      (w : W) (r : Record G) (o : Option Evidence)
      → Accepts env sender
      → is_some o ≡ true
      → IsReadable env sender o
      → (send_evidence env sender w r o).1 ≡ none
  unfolding send_evidence
  send_evidence-accepted w r none a h ok = cc
  send_evidence-accepted w r (some e) a h ok = elim (Option-cases (sender.read_file w e.path)) [
    | inl unread ↦ absurd (cc (ok.1 w, unread))
    | inr (content, read) ↦
        rw (ok.0, read, send_evidence)
          (a.1 w r.submission.event.event_uuid r.submission.event.candidate_key r.stage content
            e.sha256 e.size)
  ]

  pub send-accepted :
      (now : ℕ) (w : W) (r : Record G)
      → Accepts env sender
      → IsReady env sender now r
      → (send env sender w r).1 ≡ none
  unfolding send
  send-accepted now w r a ready = elim ready.0 [
    | inl stage ↦ simp (stage, a.0 w r.submission.event)
    | inr (inl (stage, has_capture)) ↦
        simp (stage, send_evidence-accepted w r r.submission.capture a has_capture ready.1)
    | inr (inr (stage, has_clip)) ↦
        simp (stage, send_evidence-accepted w r r.submission.clip a has_clip ready.2)
  ]

module _ {G : Type 0} where
  -- A stage that may follow one with `n` sends left: the end, or one with something and fewer left.
  abbrev pub MayFollow : ℕ → Submission G → String → Type 0
  MayFollow n s stage =
      (str_eq stage "complete" ≡ true) ⊎ (StageFits stage s × (left_at stage s < n))

  next_clip :
      (n : ℕ) (s : Submission G)
      → 1 < n ⊎ (is_some s.clip ≡ false)
      → MayFollow n s (if is_some s.clip then "clip" else "complete")
  next_clip n s h =
      if-rule (MayFollow n s) (is_some s.clip) (λ clip. inr (inr (inr (refl, clip)), ground arith))
        (λ _. inl refl)

  next_stage-capture :
      (s : Submission G)
      → MayFollow
          (1 + one_if (is_some s.capture) + one_if (is_some s.clip))
          s
          (next_stage s "capture")
  unfolding next_stage
  next_stage-capture s =
      if-rule (MayFollow (1 + one_if (is_some s.capture) + one_if (is_some s.clip)) s)
        (is_some s.capture) (λ capture. inr (inr (inl (refl, capture)), ground arith))
        (λ _. next_clip _ s (ground arith))

  next_stage-clip :
      (s : Submission G) → MayFollow (1 + one_if (is_some s.clip)) s (next_stage s "clip")
  unfolding next_stage
  next_stage-clip s = next_clip (1 + one_if (is_some s.clip)) s (ground arith)

  pub advance_lem : (r : Record G) → HasStage r → MayFollow (sends_left r) r.submission (advance r)
  unfolding advance
  advance_lem r h = elim h [
    | inl stage ↦ simp stage (next_stage-capture r.submission)
    | inr (inl (stage, _)) ↦ simp stage (next_stage-clip r.submission)
    | inr (inr (stage, _)) ↦ simp stage (inl refl)
  ]

-- ===== src/EdgeBacklog/Process.antt =====
-- internal/edgebacklog/backlog.go: `ProcessOne`, which sends one record and settles its outcome.
use Prim.Native.String.{◌++◌ as ◌++ₛ◌}
use monitoreoedgeis.Prelude.{
  ℕ, zero, suc, ◌+◌, Bool, true, false, not, ◌&&◌, ◌||◌, Option, none, some, option_or, String,
  str_eq, List, [], ◌∷◌, ltb, leb, ◌==◌, if◌then◌else◌, is_some,
}
use monitoreoedgeis.Prelude.Int.{ℤ}
use monitoreoedgeis.Prelude.Map.{lookup, insert, contains}
use monitoreoedgeis.EdgeBacklog.{
  Evidence, Event, Record, Config, Backlog, bounded_error, next_stage, backoff,
}
use monitoreoedgeis.EdgeBacklog.Files.{replace_at, persist_locked, remove_locked, quarantine_locked}
use monitoreoedgeis.EdgeBacklog.Inactive.{persist_inactive, mark_active}
use monitoreoedgeis.EdgeBacklog.Submit.{Environment, validate_evidence}

-- An error, by what `errors.Is` and `errors.As` find in it.
pub record SendError : Type 0 where
  pub invalid_request : Bool
  pub unexpected_status : Bool
  pub unauthorized : Bool
  pub camera_inactive : Bool
  pub retry_after : ℕ  -- of a `RateLimitError`, else 0
  pub message : String

-- `transport.LocalEventSender` and `os.ReadFile` over a world `W`, with file contents in `D`.
pub record Sender (G W D : Type 0) : Type 0 where
  pub post_local_event : W → Event G → W × Option SendError
  pub put_evidence : W → String → String → String → D → String → ℤ → W × Option SendError
  pub read_file : W → String → Option D

pub invalid_because : String → SendError
invalid_because text = record {
  invalid_request = true;
  unexpected_status = false;
  unauthorized = false;
  camera_inactive = false;
  retry_after = 0;
  message = "transport: request rejected as invalid by SaaS: " ++ₛ text;
}

-- The pause before the next attempt, but for an inactive camera's.
unfoldable pub retry_delay : Config → ℕ → SendError → ℕ
retry_delay cfg attempts e =
    if e.unauthorized
    then cfg.retry_max
    else if ltb 0 e.retry_after
    then (if ltb cfg.retry_max e.retry_after then cfg.retry_max else e.retry_after)
    else backoff cfg attempts

-- The camera's first known mark, or else `now`.
unfoldable pub first_mark : ℕ → Option ℕ → Option ℕ → ℕ
first_mark now (some since) _ = since
first_mark now none (some first) = first
first_mark now none none = now

module _ {G : Type 0} where
  -- The loop that finds the record to send: due, and behind no deferred record of its camera.
  unfoldable pub pick : ℕ → List String → List (Record G) → Option (Record G)
  pick now deferred [] = none
  pick now deferred (r ∷ q) =
      let key = r.submission.event.candidate_key in
      let beyond = pick now (key ∷ deferred) q in
      let later = pick now deferred q in
      if not (r.next_attempt == 0) && ltb now r.next_attempt
      then beyond
      else if contains key deferred
      then later
      else some r

  unfoldable pub find_sequence : ℕ → List (Record G) → Option (Record G)
  find_sequence n [] = none
  find_sequence n (x ∷ q) = if x.sequence == n then some x else find_sequence n q

  -- The stage after the one that was accepted.
  unfoldable pub advance : Record G → String
  advance r =
      if str_eq r.stage "metadata"
      then next_stage r.submission "capture"
      else if str_eq r.stage "capture"
      then next_stage r.submission "clip"
      else "complete"

module _ {G W D : Type 0} (env : Environment G) (sender : Sender G W D) where
  unfoldable pub send_evidence : W → Record G → Option Evidence → W × Option SendError
  send_evidence w r none = (w, some (invalid_because "edgebacklog: invalid evidence reference"))
  send_evidence w r (some e) = elim (validate_evidence env (some e)) [
    | some text ↦ (w, some (invalid_because text))
    | none ↦ elim (sender.read_file w e.path) [
      | none ↦ (w, some (invalid_because "evidence read"))
      | some content ↦
          sender.put_evidence w r.submission.event.event_uuid r.submission.event.candidate_key
            r.stage content e.sha256 e.size
    ]
  ]

  -- `send`.
  unfoldable pub send : W → Record G → W × Option SendError
  send w r =
      if str_eq r.stage "metadata"
      then sender.post_local_event w r.submission.event
      else if str_eq r.stage "capture"
      then send_evidence w r r.submission.capture
      else if str_eq r.stage "clip"
      then send_evidence w r r.submission.clip
      else (w, some (invalid_because "unknown stage"))

module _ {G : Type 0} (env : Environment G) where
  unfoldable pub finish_record : Backlog G → Record G → Backlog G
  finish_record b r =
      let b' = remove_locked env.fs b r in
      record b' { synced = r.submission.event.event_uuid ∷ b'.synced }

  unfoldable pub keep_record : Backlog G → Record G → Backlog G
  keep_record b r = persist_locked env.fs env.marshal (record b { queue = replace_at r b.queue }) r

  unfoldable pub settle_sent : ℕ → Backlog G → Record G → Backlog G
  unfolding finish_record keep_record advance
  settle_sent now b r =
      let b₁ = record b { last_success = some now; last_error = ""; degraded = false } in
      let next = advance r in
      if str_eq next "complete"
      then finish_record b₁ r
      else keep_record b₁ (record r { stage = next })

  unfoldable pub accepted : ℕ → Backlog G → Record G → Backlog G
  unfolding settle_sent
  accepted now b r =
      let key = r.submission.event.candidate_key in
      if is_some (lookup key b.inactive_candidates) || is_some r.inactive_since
      then settle_sent now (mark_active env.fs env.marshal env.marshal_state now key b)
          (record r { inactive_since = none })
      else settle_sent now b r

  unfoldable pub refuse : Backlog G → Record G → String → Backlog G
  refuse b r reason =
      let b' = quarantine_locked env.fs b r in
      record b' { refused = (r.submission.event.event_uuid, reason) ∷ b'.refused }

  unfoldable pub note_mark : String → ℕ → Backlog G → Backlog G
  note_mark key since b =
      let known = lookup key b.inactive_candidates in
      if not (is_some known) || ltb since (option_or known 0)
      then persist_inactive env.fs env.marshal_state
          (record b { inactive_candidates = insert key since b.inactive_candidates })
      else b

  -- An answer that the camera is inactive.
  unfoldable pub hold_inactive : ℕ → Backlog G → Record G → Backlog G
  unfolding first_mark note_mark refuse keep_record
  hold_inactive now b r =
      let key = r.submission.event.candidate_key in
      let since = first_mark now r.inactive_since (lookup key b.inactive_candidates) in
      let b₁ = note_mark key since b in
      let r₁ = record r { inactive_since = some since } in
      if leb (since + b.cfg.inactive_retention) now
      then refuse (record b₁ { inactive_expired = suc b₁.inactive_expired }) r₁
          "camera_inactive_retention_expired"
      else keep_record b₁ (record r₁ { next_attempt = now + b.cfg.retry_max })

  unfoldable pub rejected : ℕ → Backlog G → Record G → SendError → Backlog G
  unfolding refuse hold_inactive keep_record
  rejected now b r e =
      let b₁ = record b { last_error = bounded_error e.message } in
      let r₁ = record r {
        attempts = suc r.attempts;
        next_attempt = now + retry_delay b.cfg (suc r.attempts) e;
      } in
      let b₂ = record b₁ { degraded = e.unauthorized || b₁.degraded } in
      if e.invalid_request || e.unexpected_status
      then refuse b₁ r b₁.last_error
      else if e.camera_inactive
      then hold_inactive now b₂ r₁
      else keep_record b₂ r₁

  -- What follows the answer, unless the record has left the queue meanwhile.
  unfoldable pub settle : ℕ → Backlog G → Record G → Option SendError → Backlog G
  unfolding accepted rejected
  settle now b r outcome =
      if is_some (find_sequence r.sequence b.queue)
      then elim outcome [ none ↦ accepted now b r | some e ↦ rejected now b r e ]
      else b

-- `ProcessOne` where nothing else happens while it sends; the Boolean tells that it tried a record.
unfoldable pub process_one :
    {G W D : Type 0} → Environment G → Sender G W D → ℕ → ℕ → W → Backlog G → W × Backlog G × Bool
process_one env sender now later w b = elim (pick now [] b.queue) [
  | none ↦ (w, b, false)
  | some r ↦ let (w', outcome) = send env sender w r in (w', settle env later b r outcome, true)
]

-- The loop of `Run` from one tick to the next, for as many turns as the fuel allows: it calls
-- `ProcessOne` until that finds nothing to send, and then waits for the ticker, as the Boolean tells.
-- `clock` gives the readings of the clock, of which a turn takes one before it sends and one after.
unfoldable pub run_turns :
    {G W D : Type 0}
    → Environment G
    → Sender G W D
    → (ℕ → ℕ)
    → ℕ
    → ℕ
    → W
    → Backlog G
    → W × Backlog G × Bool
run_turns env sender clock zero i w b = (w, b, false)
run_turns env sender clock (suc fuel) i w b =
    let (w', b', tried) = process_one env sender (clock i) (clock (suc i)) w b in
    let rest = run_turns env sender clock fuel (suc i) w' b' in
    if tried then rest else (w', b', true)

-- ===== src/EdgeBacklog/Drain.antt =====
-- internal/edgebacklog/backlog.go: what is left to send, and when the SaaS accepts it all.
pub mod Send
pub mod Settle
pub mod Loop
mod Tests
use monitoreoedgeis.Prelude.{
  ℕ, zero, suc, ◌+◌, ◌≤◌, ◌<◌, ◌≡◌, refl, sym, ◌∙◌, ap, subst, ◌⊎◌, inl, inr, Bool, true, false,
  ◌||◌, ◌&&◌, not, Option, none, some, String, str_eq, eq_iff, List, [], ◌∷◌, length, arith, ltb,
  leb, ◌==◌, is_some, if-rule, if◌then◌else◌, Bool-cases, Option-cases,
}
use monitoreoedgeis.Prelude.Int.{ℤ}
use monitoreoedgeis.Prelude.Map.{Map, lookup, insert, delete, contains}
use monitoreoedgeis.EdgeBacklog.{
  Record, Backlog, Event, Evidence, Submission, Fault, Fs, next_stage,
}
use monitoreoedgeis.EdgeBacklog.Files.{
  replace_at, remove_at, persist_locked, remove_locked, delete_pending, record_persist_failure,
  write_locked, write_temp, rename_temp,
}
use monitoreoedgeis.EdgeBacklog.Inactive.{
  wake, mark_active, persist_inactive, cap_inactive, write_state, remove_state, replace_state,
  rename_state, sync_dir,
}
use monitoreoedgeis.EdgeBacklog.Submit.{Environment, validate_evidence}
use monitoreoedgeis.EdgeBacklog.Process.{
  Sender, SendError, pick, find_sequence, send, advance, finish_record, keep_record, settle_sent,
  accepted, settle, process_one, run_turns, send_evidence,
}
use monitoreoedgeis.EdgeBacklog.Capacity.{persist_inactive-Kept}
use monitoreoedgeis.EdgeBacklog.Order.{IsDue}
use monitoreoedgeis.EdgeBacklog.Sequences.{persist_locked-queue, remove_locked-queue}
use monitoreoedgeis.EdgeBacklog.Synced.{
  persist_locked-synced, remove_locked-synced, mark_active_lem,
}

abbrev pub one_if : Bool → ℕ
one_if true = 1
one_if false = 0

module _ {G : Type 0} where
  -- How many sends a record still takes.
  abbrev pub left_at : String → Submission G → ℕ
  left_at stage s =
      if str_eq stage "metadata"
      then 1 + one_if (is_some s.capture) + one_if (is_some s.clip)
      else if str_eq stage "capture"
      then 1 + one_if (is_some s.clip)
      else 1

  abbrev pub sends_left : Record G → ℕ
  sends_left r = left_at r.stage r.submission

  unfoldable pub work : List (Record G) → ℕ
  work [] = 0
  work (r ∷ q) = sends_left r + work q

  -- The events of a queue, the last first, in front of others.
  unfoldable pub uuids_onto : List (Record G) → List String → List String
  uuids_onto [] done = done
  uuids_onto (r ∷ q) done = uuids_onto q (r.submission.event.event_uuid ∷ done)

  -- The stage is one that the submission has something for.
  abbrev pub StageFits : String → Submission G → Type 0
  StageFits stage s =
      (stage ≡ "metadata")
      ⊎ ((stage ≡ "capture") × (is_some s.capture ≡ true))
      ⊎ ((stage ≡ "clip") × (is_some s.clip ≡ true))

  abbrev pub HasStage : Record G → Type 0
  HasStage r = StageFits r.stage r.submission

module _ {G W D : Type 0} (env : Environment G) (sender : Sender G W D) where
  -- The SaaS accepts every event and every piece of evidence.
  abbrev pub Accepts : Type 0
  Accepts =
      ((w : W) (e : Event G) → (sender.post_local_event w e).1 ≡ none)
      × ((w : W) (uuid key stage : String) (content : D) (hash : String) (size : ℤ)
          → (sender.put_evidence w uuid key stage content hash size).1 ≡ none)

  -- The evidence passes its checks and can be read.
  abbrev pub IsReadable : Option Evidence → Type 0
  IsReadable none = Unit {0}
  IsReadable (some e) =
      (validate_evidence env (some e) ≡ none)
      × ((w : W) → is_some (sender.read_file w e.path) ≡ true)

  abbrev pub IsReady : ℕ → Record G → Type 0
  IsReady now r =
      HasStage r × IsReadable r.submission.capture × IsReadable r.submission.clip × IsDue now r

  abbrev pub AllReady : ℕ → List (Record G) → Type 0
  AllReady now [] = Unit {0}
  AllReady now (r ∷ q) = IsReady now r × AllReady now q

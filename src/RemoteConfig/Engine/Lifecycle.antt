-- ===== src/RemoteConfig/Engine/Lifecycle.antt =====
-- The apply lifecycle of internal/remoteconfig/engine.go as an abstract state machine: how one
-- desired config takes the durable state and the runtime to the next.
use monitoreoedgeis.Prelude.{
  str_eq, if-rule, ◌&&◌, ◌≡◌, refl, ◌⊎◌, inl, inr, true, false, not, Option, none, some, String,
  arith, Option-cases,
}
use monitoreoedgeis.Prelude.Int.{pos, ltb_ℤ, eqb_ℤ}
use monitoreoedgeis.RemoteConfig.Contract.{Config, applied, failed, rolled_back}
use monitoreoedgeis.RemoteConfig.Store.{State, StoreError, update-Updated}
use monitoreoedgeis.RemoteConfig.Engine.{
  unless_failed, receive_at, previously_failed, Environment, Engine, Reply, ack, fault, EngineError,
  store_error, update_store, stage, mark_staged, receive_desired, judge_version, validate_new,
  is_same, validation_failed, apply_failed, previous_known_good, reject_invalid, stage_and_apply,
  apply_staged, publish, undo_publish, undo_apply, report_rolled_back, leave_unresolved, roll_back,
  refuse, audit_append, mark_applied, mark_invalid, mark_rolled_back, mark_unresolved,
}

-- What an attempt that does not end in `applied` leaves as it was.
pub record SameApplied (s t : State) : Type 0 where
  pub version : t.applied_version ≡ s.applied_version
  pub config : t.applied_config ≡ s.applied_config
  pub known_good : t.previous_known_good_config ≡ s.previous_known_good_config

-- The version is neither stale nor the applied one.
pub record IsNew (s : State) (d : Config) : Type 0 where
  pub settled : s.staging ≡ none
  pub not_older : ltb_ℤ d.version s.applied_version ≡ false
  pub not_equal : eqb_ℤ d.version s.applied_version ≡ false

module _ {R : Type 0} (env : Environment R) where
  -- From state `s` and runtime `r`, desired config `d` leads to `t` and `q` with a reply.
  pub data Receives (s : State) (r : R) (d : Config) (t : State) (q : R) : Reply → Type 0 where
    refused :
        t ≡ s
        → q ≡ r
        → (code : String) → str_eq code validation_failed ≡ false
        → Receives s r d t q (ack failed code)
    repeated :
        t ≡ s
        → q ≡ r
        → s.staging ≡ none
        → eqb_ℤ d.version s.applied_version ≡ true
        → is_same env d s.applied_config ≡ true
        → Receives s r d t q (ack applied "")
    invalid :
        IsNew s d
        → (cause : String) → env.adapter.validate r d ≡ (q, some cause)
        → SameApplied s t
        → t.staging ≡ none
        → t.last_failed_version ≡ d.version
        → t.last_failed_config ≡ some d
        → Receives s r d t q (ack failed validation_failed)
    unsaved :
        IsNew s d
        → q ≡ (env.adapter.validate r d).0
        → t ≡ s
        → (x : StoreError) → Receives s r d t q (fault (store_error x))
    published :
        IsNew s d
        → (v : R) → env.adapter.validate r d ≡ (v, none)
        → env.adapter.apply v d ≡ (q, none)
        → t.applied_config ≡ some d
        → t.applied_version ≡ d.version
        → t.staging ≡ none
        → Receives s r d t q (ack applied "")
    reverted :
        IsNew s d
        → (v w : R) (cause : String) → env.adapter.validate r d ≡ (v, none)
        → env.adapter.apply v d ≡ (w, some cause)
        → env.adapter.rollback w (previous_known_good s) ≡ (q, none)
        → SameApplied s t
        → t.staging ≡ none
        → t.last_failed_version ≡ d.version
        → t.last_failed_config ≡ some d
        → Receives s r d t q (ack rolled_back apply_failed)
    stuck :
        IsNew s d
        → SameApplied s t
        → t.staging ≡ some d
        → (x : EngineError) → Receives s r d t q (fault x)

  abbrev After : Engine R → Config → Engine R × Reply → Type 0
  After e d p = Receives e.store.state e.runtime d p.0.store.state p.0.runtime p.1

  -- An update of the store commits `fn` at the clock's reading, or changes no state.
  pub update_store-cases :
      (e : Engine R) (fn : String → State → State)
      → (((update_store env e fn).1 ≡ none)
          × ((update_store env e fn).0.store.state ≡ fn (env.now e.store.file.saves) e.store.state)
          × ((update_store env e fn).0.runtime ≡ e.runtime))
        ⊎ ((x : StoreError) × ((update_store env e fn).1 ≡ some x)
            × ((update_store env e fn).0.store.state ≡ e.store.state)
            × ((update_store env e fn).0.runtime ≡ e.runtime))
  unfolding update_store
  update_store-cases e fn =
      elim (update-Updated env.disk e.store (fn (env.now e.store.file.saves))) [
        | inl (p, q, _) ↦ inl (p, q, refl)
        | inr (x, p, q, _) ↦ inr (x, p, q, refl)
      ]

  -- A step that ends with an update: one case for a save that works, one for a save that fails.
  update_rule :
      (P : State → R → Reply → Type 0) (a : Engine R) (fn : String → State → State) (y : Reply)
      → P (fn (env.now a.store.file.saves) a.store.state) a.runtime y
      → ((x : StoreError) → P a.store.state a.runtime (fault (store_error x)))
      → P
          (update_store env a fn).0.store.state
          (update_store env a fn).0.runtime
          (unless_failed (update_store env a fn).1 y)
  unfolding unless_failed
  update_rule P a fn y saved unsaved_ = elim (update_store-cases a fn) [
    | inl (p, q, z) ↦ rw (p, q, z, unless_failed) saved
    | inr (x, p, q, z) ↦ rw (p, q, z, unless_failed) (unsaved_ x)
  ]

  reject_invalid-Receives :
      (e : Engine R) (d : Config) (r : R) (cause : String)
      → IsNew e.store.state d
      → env.adapter.validate r d ≡ (e.runtime, some cause)
      → Receives e.store.state r d
          (reject_invalid env e d cause).0.store.state
          (reject_invalid env e d cause).0.runtime
          (reject_invalid env e d cause).1
  unfolding reject_invalid audit_append mark_invalid
  reject_invalid-Receives e d r cause n v =
      update_rule (Receives e.store.state r d) _ (mark_invalid env d cause) _
        (invalid n cause v (record { version = refl; config = refl; known_good = refl }) n.settled
          refl refl)
        (λ x. unsaved n (ground (arith, v)) refl x)

  -- Between the staging write and the end of the attempt.
  abbrev IsStaged : State → Config → State → Type 0
  IsStaged s d t = SameApplied s t × (t.staging ≡ some d)

  report_rolled_back-Receives :
      (e : Engine R) (s : State) (d : Config) (r v w : R) (cause : String)
      → IsNew s d
      → IsStaged s d e.store.state
      → env.adapter.validate r d ≡ (v, none)
      → env.adapter.apply v d ≡ (w, some cause)
      → env.adapter.rollback w (previous_known_good s) ≡ (e.runtime, none)
      → Receives s r d
          (report_rolled_back env e d cause).0.store.state
          (report_rolled_back env e d cause).0.runtime
          (report_rolled_back env e d cause).1
  unfolding report_rolled_back audit_append mark_rolled_back
  report_rolled_back-Receives e s d r v w cause n (same, st) hv ha hr =
      update_rule (Receives s r d) _ (mark_rolled_back env d cause) _
        (reverted n v w cause hv ha hr
          (record { version = same.version; config = same.config; known_good = same.known_good })
          refl refl refl)
        (λ x. stuck n same st (store_error x))

  leave_unresolved-Receives :
      (e : Engine R) (s : State) (d : Config) (r : R) (cause undo_cause : String)
      → IsNew s d
      → IsStaged s d e.store.state
      → Receives s r d
          (leave_unresolved env e d cause undo_cause).0.store.state
          (leave_unresolved env e d cause undo_cause).0.runtime
          (leave_unresolved env e d cause undo_cause).1
  unfolding leave_unresolved audit_append mark_unresolved
  leave_unresolved-Receives e s d r cause undo_cause n (same, st) =
      update_rule (Receives s r d) _ (mark_unresolved env d _) _
        (stuck n
          (record { version = same.version; config = same.config; known_good = same.known_good }) st
          _)
        (λ x. stuck n same st (store_error x))

  undo_apply-Receives :
      (e : Engine R) (s : State) (d target : Config) (r v : R) (cause : String)
      → IsNew s d
      → IsStaged s d e.store.state
      → env.adapter.validate r d ≡ (v, none)
      → env.adapter.apply v d ≡ (e.runtime, some cause)
      → target ≡ previous_known_good s
      → Receives s r d
          (undo_apply env e d target cause).0.store.state
          (undo_apply env e d target cause).0.runtime
          (undo_apply env e d target cause).1
  unfolding undo_apply roll_back
  undo_apply-Receives e s d target r v cause n st hv ha ht =
      elim (Option-cases (env.adapter.rollback e.runtime target).1) [
        | inl p ↦
            rw (p, undo_apply)
              (report_rolled_back-Receives _ s d r v e.runtime cause n st hv ha
                (rw (← ht) (ground (arith, p))))
        | inr (undo_cause, p) ↦
            rw (p, undo_apply) (leave_unresolved-Receives _ s d r cause undo_cause n st)
      ]

  undo_publish-Receives :
      (e : Engine R) (s : State) (d target : Config) (r : R) (x : StoreError)
      → IsNew s d
      → IsStaged s d e.store.state
      → Receives s r d
          (undo_publish env e d target x).0.store.state
          (undo_publish env e d target x).0.runtime
          (undo_publish env e d target x).1
  unfolding undo_publish roll_back audit_append
  undo_publish-Receives e s d target r x n (same, st) =
      elim (Option-cases (env.adapter.rollback e.runtime target).1) [
        | inl p ↦ rw (p, undo_publish) (stuck n same st _)
        | inr (undo_cause, p) ↦ rw (p, undo_publish) (stuck n same st _)
      ]

  publish-Receives :
      (e : Engine R) (s : State) (d target : Config) (r v : R)
      → IsNew s d
      → IsStaged s d e.store.state
      → env.adapter.validate r d ≡ (v, none)
      → env.adapter.apply v d ≡ (e.runtime, none)
      → Receives s r d
          (publish env e d target).0.store.state
          (publish env e d target).0.runtime
          (publish env e d target).1
  unfolding publish audit_append
  publish-Receives e s d target r v n (same, st) hv ha =
      elim (update_store-cases e (mark_applied env d)) [
        | inl (p, q, z) ↦
            rw (p, publish) (rw (q, z) (unfold mark_applied in published n v hv ha refl refl refl))
        | inr (x, p, q, z) ↦
            rw (p, publish) (undo_publish-Receives _ s d target r x n (rw q (same, st)))
      ]

  pub previous_known_good-SameApplied :
      (s t : State) → SameApplied s t → previous_known_good t ≡ previous_known_good s
  unfolding previous_known_good
  previous_known_good-SameApplied s t same = cc (same.config, same.known_good)

  apply_staged-Receives :
      (e : Engine R) (s : State) (d : Config) (r : R)
      → IsNew s d
      → IsStaged s d e.store.state
      → env.adapter.validate r d ≡ (e.runtime, none)
      → Receives s r d
          (apply_staged env e d).0.store.state
          (apply_staged env e d).0.runtime
          (apply_staged env e d).1
  unfolding apply_staged
  apply_staged-Receives e s d r n st hv = elim (Option-cases (env.adapter.apply e.runtime d).1) [
    | inl p ↦
        rw (p, apply_staged) (publish-Receives _ s d _ r e.runtime n st hv (ground (arith, p)))
    | inr (cause, p) ↦
        rw (p, apply_staged)
          (undo_apply-Receives _ s d _ r e.runtime cause n st hv (ground (arith, p))
            (previous_known_good-SameApplied s e.store.state st.0))
  ]

  stage_and_apply-Receives :
      (e : Engine R) (d : Config) (r : R)
      → IsNew e.store.state d
      → env.adapter.validate r d ≡ (e.runtime, none)
      → Receives e.store.state r d
          (stage_and_apply env e d).0.store.state
          (stage_and_apply env e d).0.runtime
          (stage_and_apply env e d).1
  unfolding stage_and_apply stage audit_append
  stage_and_apply-Receives e d r n hv = elim (update_store-cases e (mark_staged env d)) [
    | inl (p, q, z) ↦
        rw (p, stage_and_apply)
          (apply_staged-Receives _ e.store.state d r n
            (rw q (
              unfold mark_staged in
              (record { version = refl; config = refl; known_good = refl }, refl)))
            (rw z hv))
    | inr (x, p, q, z) ↦ rw (p, stage_and_apply) (rw (q, z) (unsaved n (ground (arith, hv)) refl x))
  ]

  validate_new-Receives :
      (e : Engine R) (d : Config) → IsNew e.store.state d → After e d (validate_new env e d)
  unfolding validate_new
  validate_new-Receives e d n = elim (Option-cases (env.adapter.validate e.runtime d).1) [
    | inl p ↦ rw (p, validate_new) (stage_and_apply-Receives _ d e.runtime n (ground (arith, p)))
    | inr (cause, p) ↦
        rw (p, validate_new) (reject_invalid-Receives _ d e.runtime cause n (ground (arith, p)))
  ]

  refuse-Receives :
      (e : Engine R) (d : Config) (code : String)
      → str_eq code validation_failed ≡ false
      → After e d (refuse env e d code)
  unfolding refuse audit_append
  refuse-Receives e d code h = refused refl refl code h

  judge_version-Receives :
      (e : Engine R) (d : Config) → e.store.state.staging ≡ none → After e d (judge_version env e d)
  unfolding judge_version
  judge_version-Receives e d settled =
      if-rule (After e d) (ltb_ℤ d.version e.store.state.applied_version)
        (λ _. refuse-Receives e d _ refl)
        λ not_older.
          if-rule (After e d) (eqb_ℤ d.version e.store.state.applied_version)
            (λ equal.
              if-rule (After e d) (is_same env d e.store.state.applied_config)
                (λ same. repeated refl refl settled equal same) (λ _. refuse-Receives e d _ refl))
            λ not_equal.
              if-rule (After e d)
                (not (eqb_ℤ e.store.state.last_failed_version (pos 0))
                  && eqb_ℤ d.version e.store.state.last_failed_version)
                (λ _.
                  if-rule (After e d) (is_same env d e.store.state.last_failed_config)
                    (λ _. refused refl refl previously_failed refl)
                    (λ _. refuse-Receives e d _ refl))
                (λ _.
                  validate_new-Receives e d
                    (record { settled = settled; not_older = not_older; not_equal = not_equal }))

  receive_at-Receives :
      (o : Option Config) (e : Engine R) (d : Config)
      → e.store.state.staging ≡ o
      → After e d (receive_at env o e d)
  unfolding receive_at
  receive_at-Receives none e d settled = judge_version-Receives e d settled
  receive_at-Receives (some c) e d _ = refuse-Receives e d _ refl

  -- `receive_desired` takes only transitions of the lifecycle.
  pub receive_desired-Receives : (e : Engine R) (d : Config) → After e d (receive_desired env e d)
  unfolding receive_desired
  receive_desired-Receives e d = receive_at-Receives e.store.state.staging e d refl

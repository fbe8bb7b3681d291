-- ===== src/RemoteConfig/Engine/Durability.antt =====
-- What internal/remoteconfig/engine.go leaves on the disk, and what a restart makes of it.
use monitoreoedgeis.Prelude.{
  ◌≡◌, refl, ok, List, [], ◌∷◌, inl, inr, not, ◌&&◌, Option, none, some, String, Option-cases,
  if-rule,
}
use monitoreoedgeis.Prelude.Int.{pos, ltb_ℤ, eqb_ℤ}
use monitoreoedgeis.RemoteConfig.Contract.{Config}
use monitoreoedgeis.Durable.{StateFile}
use monitoreoedgeis.RemoteConfig.Store.{
  State, Store, StoreError, update, update-Updated, open_store, IsSynced, open_store-IsSynced,
}
use monitoreoedgeis.RemoteConfig.Engine.{
  Environment, Engine, Reply, update_store, stage, mark_staged, receive_desired, receive_at,
  judge_version, validate_new, is_same, reject_invalid, stage_and_apply, apply_staged, publish,
  undo_publish, undo_apply, report_rolled_back, leave_unresolved, roll_back, refuse, audit_append,
  recover, recover_at, recovery_failed, recovery_done, previous_known_good, mark_applied,
}

module _ {R : Type 0} (env : Environment R) where
  -- A property that every update of the store keeps is kept by every operation of the engine.
  module _ (P : Store → Type 0)
      (keep : (s : Store) (fn : State → State) → P s → P (update env.disk s fn).0) where
    update_store-keeps :
        (e : Engine R) (fn : String → State → State) → P e.store → P (update_store env e fn).0.store
    unfolding update_store
    update_store-keeps e fn h = keep e.store (fn (env.now e.store.file.saves)) h

    refuse-keeps :
        (e : Engine R) (d : Config) (code : String) → P e.store → P (refuse env e d code).0.store
    unfolding refuse audit_append
    refuse-keeps e d code h = h

    undo_apply-keeps :
        (e : Engine R) (d target : Config) (cause : String)
        → P e.store
        → P (undo_apply env e d target cause).0.store
    unfolding undo_apply roll_back report_rolled_back leave_unresolved audit_append
    undo_apply-keeps e d target cause h =
        elim (Option-cases (env.adapter.rollback e.runtime target).1) [
          | inl p ↦ rw (p, undo_apply) (update_store-keeps _ _ h)
          | inr (undo_cause, p) ↦ rw (p, undo_apply) (update_store-keeps _ _ h)
        ]

    undo_publish-keeps :
        (e : Engine R) (d target : Config) (x : StoreError)
        → P e.store
        → P (undo_publish env e d target x).0.store
    unfolding undo_publish roll_back audit_append
    undo_publish-keeps e d target x h =
        elim (Option-cases (env.adapter.rollback e.runtime target).1) [
          | inl p ↦ rw (p, undo_publish) h
          | inr (undo_cause, p) ↦ rw (p, undo_publish) h
        ]

    publish-keeps :
        (e : Engine R) (d target : Config) → P e.store → P (publish env e d target).0.store
    unfolding publish audit_append
    publish-keeps e d target h = elim (Option-cases (update_store env e (mark_applied env d)).1) [
      | inl p ↦ rw (p, publish) (update_store-keeps e _ h)
      | inr (x, p) ↦ rw (p, publish) (undo_publish-keeps _ d target x (update_store-keeps e _ h))
    ]

    apply_staged-keeps : (e : Engine R) (d : Config) → P e.store → P (apply_staged env e d).0.store
    unfolding apply_staged
    apply_staged-keeps e d h = elim (Option-cases (env.adapter.apply e.runtime d).1) [
      | inl p ↦ rw (p, apply_staged) (publish-keeps _ d _ h)
      | inr (cause, p) ↦ rw (p, apply_staged) (undo_apply-keeps _ d _ cause h)
    ]

    stage_and_apply-keeps :
        (e : Engine R) (d : Config) → P e.store → P (stage_and_apply env e d).0.store
    unfolding stage_and_apply stage audit_append
    stage_and_apply-keeps e d h = elim (Option-cases (update_store env e (mark_staged env d)).1) [
      | inl p ↦ rw (p, stage_and_apply) (apply_staged-keeps _ d (update_store-keeps e _ h))
      | inr (x, p) ↦ rw (p, stage_and_apply) (update_store-keeps e _ h)
    ]

    validate_new-keeps : (e : Engine R) (d : Config) → P e.store → P (validate_new env e d).0.store
    unfolding validate_new reject_invalid audit_append
    validate_new-keeps e d h = elim (Option-cases (env.adapter.validate e.runtime d).1) [
      | inl p ↦ rw (p, validate_new) (stage_and_apply-keeps _ d h)
      | inr (cause, p) ↦ rw (p, validate_new) (update_store-keeps _ _ h)
    ]

    abbrev KeptBy : Engine R × Reply → Type 0
    KeptBy p = P p.0.store

    judge_version-keeps :
        (e : Engine R) (d : Config) → P e.store → P (judge_version env e d).0.store
    unfolding judge_version
    judge_version-keeps e d h =
        if-rule KeptBy (ltb_ℤ d.version e.store.state.applied_version) (λ _. refuse-keeps e d _ h)
          λ _.
            if-rule KeptBy (eqb_ℤ d.version e.store.state.applied_version)
              (λ _.
                if-rule KeptBy (is_same env d e.store.state.applied_config) (λ _. h)
                  (λ _. refuse-keeps e d _ h))
              λ _.
                if-rule KeptBy
                  (not (eqb_ℤ e.store.state.last_failed_version (pos 0))
                    && eqb_ℤ d.version e.store.state.last_failed_version)
                  (λ _.
                    if-rule KeptBy (is_same env d e.store.state.last_failed_config) (λ _. h)
                      (λ _. refuse-keeps e d _ h))
                  (λ _. validate_new-keeps e d h)

    receive_at-keeps :
        (o : Option Config) (e : Engine R) (d : Config)
        → P e.store
        → P (receive_at env o e d).0.store
    unfolding receive_at
    receive_at-keeps none e d h = judge_version-keeps e d h
    receive_at-keeps (some c) e d h = refuse-keeps e d _ h

    receive_desired-keeps :
        (e : Engine R) (d : Config) → P e.store → P (receive_desired env e d).0.store
    unfolding receive_desired
    receive_desired-keeps e d h = receive_at-keeps e.store.state.staging e d h

    recover_at-keeps :
        (o : Option Config) (e : Engine R) → P e.store → P (recover_at env o e).0.store
    unfolding recover_at recovery_failed recovery_done roll_back audit_append
    recover_at-keeps none e h = h
    recover_at-keeps (some c) e h =
        elim (Option-cases (env.adapter.rollback e.runtime (previous_known_good e.store.state)).1) [
          | inl p ↦ rw (p, recover_at) (update_store-keeps _ _ h)
          | inr (cause, p) ↦ rw (p, recover_at) (update_store-keeps _ _ h)
        ]

    recover-keeps : (e : Engine R) → P e.store → P (recover env e).0.store
    unfolding recover
    recover-keeps e h = recover_at-keeps e.store.state.staging e h

  update-IsSynced :
      (s : Store) (fn : State → State)
      → IsSynced env.disk s
      → IsSynced env.disk (update env.disk s fn).0
  update-IsSynced s fn h = elim (update-Updated env.disk s fn) [
    | inl (_, p, q) ↦ rw (p, q) (inr (env.disk.encode (fn s.state), refl, inl refl))
    | inr (_, _, p, q) ↦ rw (p, q) h
  ]

  -- `ReceiveDesired` or `Recover`.
  pub data Operation : Type 0 where
    receives : Config → Operation
    recovers : Operation

  unfoldable pub operate : Engine R → List Operation → Engine R
  operate e [] = e
  operate e (receives d ∷ ops) = operate (receive_desired env e d).0 ops
  operate e (recovers ∷ ops) = operate (recover env e).0 ops

  operate-IsSynced :
      (ops : List Operation) (e : Engine R)
      → IsSynced env.disk e.store
      → IsSynced env.disk (operate e ops).store
  unfolding operate
  operate-IsSynced [] e h = h
  operate-IsSynced (receives d ∷ ops) e h =
      operate-IsSynced ops (receive_desired env e d).0
        (receive_desired-keeps (IsSynced env.disk) update-IsSynced e d h)
  operate-IsSynced (recovers ∷ ops) e h =
      operate-IsSynced ops (recover env e).0 (recover-keeps (IsSynced env.disk) update-IsSynced e h)

  -- An engine over a store that was opened: after any calls of `ReceiveDesired` and `Recover`,
  -- whichever calls and saves fail on the way, the file holds the text that `json.MarshalIndent` makes
  -- of the state in memory, or the text that the state in memory was read from, or there is no file and
  -- the state is the zero state.
  pub engine-IsSynced :
      (file : StateFile String) (e : Engine R) (ops : List Operation)
      → open_store env.disk file (ok file.content) ≡ ok e.store
      → IsSynced env.disk (operate e ops).store
  engine-IsSynced file e ops h =
      operate-IsSynced ops e (open_store-IsSynced env.disk file e.store h)

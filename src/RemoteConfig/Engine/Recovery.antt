-- ===== src/RemoteConfig/Engine/Recovery.antt =====
-- `Engine.Recover` of internal/remoteconfig/engine.go: what a restart after a crash resolves.
use monitoreoedgeis.Prelude.{
  ◌≡◌, ◌≢◌, subst, Result, err, refl, sym, ◌∙◌, ap, inl, inr, Option, none, some, String, List,
  arith, Option-cases, ok,
}
use monitoreoedgeis.Durable.{StateFile}
use monitoreoedgeis.AuditJournal.Record.{AuditRecord}
use monitoreoedgeis.RemoteConfig.Contract.{Config}
use monitoreoedgeis.RemoteConfig.Store.{
  State, Store, StateDisk, open_store, open_text, opened_at, update-Updated,
}
use monitoreoedgeis.RemoteConfig.Engine.{
  Environment, Engine, update_store, stage, mark_staged, audit_append, recover, recover_at,
  roll_back, as_engine_error, recovery_failed, recovery_done, previous_known_good, known_good_of,
  mark_recovered,
}
use monitoreoedgeis.RemoteConfig.Engine.Lifecycle.{SameApplied, update_store-cases}

-- A config that was written and read again: `json` formats the payload anew.
abbrev pub reread : (String → String) → Config → Config
reread reformat c = record c { payload = reformat c.payload }

unfoldable pub reread_option : (String → String) → Option Config → Option Config
reread_option reformat none = none
reread_option reformat (some c) = some (reread reformat c)

-- What is read where `s` was written.
pub record Rereads (reformat : String → String) (s t : State) : Type 0 where
  pub version : t.applied_version ≡ s.applied_version
  pub config : t.applied_config ≡ reread_option reformat s.applied_config
  pub known_good :
      t.previous_known_good_config ≡ reread_option reformat s.previous_known_good_config
  pub staging : t.staging ≡ reread_option reformat s.staging

-- `encoding/json`: a state that is read back has the versions and configs that were written, with the
-- payloads formatted anew (an empty one is `null`).
abbrev pub Json : StateDisk → (String → String) → Type 0
Json disk reformat = (s t : State) → disk.decode (disk.encode s) ≡ ok t → Rereads reformat s t

open_text-state :
    (f : StateFile String) (o : Result String State) (s : Store)
    → open_text f o ≡ ok s
    → o ≡ ok s.state
unfolding open_text opened_at
open_text-state f (err cause) s h = cc h
open_text-state f (ok st) s h = ground (arith, h)

open_store-text :
    (disk : StateDisk) (f : StateFile String) (s : Store) (text : String)
    → f.content ≡ some text
    → open_store disk f (ok f.content) ≡ ok s
    → disk.decode text ≡ ok s.state
unfolding open_store
open_store-text disk f s text at opened =
    open_text-state f (disk.decode text) s (rw (at, open_store) at opened)

-- The engine of a new process.
abbrev pub started : {R : Type 0} → Store → R → Option (List AuditRecord) → Engine R
started s r audit = record { store = s; runtime = r; audit = audit }

module _ {R : Type 0} (env : Environment R) where
  -- The attempt at `c`, unresolved in state `s` over the runtime `r`, was rolled back and recorded as
  -- failed, giving `t` and `q`: the one call on the runtime was a `rollback` to the config that was
  -- live before the attempt, and it reported success.
  pub record IsResolved (s : State) (c : Config) (r : R) (t : State) (q : R) : Type 0 where
    pub staging : t.staging ≡ none
    pub rolled_back : env.adapter.rollback r (previous_known_good s) ≡ (q, none)
    pub applied : SameApplied s t
    pub last_failed : t.last_failed_config ≡ some c

  -- As `IsResolved`, over a state that was read from the file that `s` was written to.
  pub record IsRecovered (reformat : String → String) (s : State) (c : Config) (r : R) (t : State)
      (q : R) : Type 0 where
    pub staging : t.staging ≡ none
    pub rolled_back :
        env.adapter.rollback r (
          known_good_of
            (reread_option reformat s.applied_config)
            (reread_option reformat s.previous_known_good_config))
        ≡ (q, none)
    pub version : t.applied_version ≡ s.applied_version
    pub config : t.applied_config ≡ reread_option reformat s.applied_config
    pub known_good :
        t.previous_known_good_config ≡ reread_option reformat s.previous_known_good_config
    pub last_failed : t.last_failed_config ≡ some (reread reformat c)

  update_done :
      (P : State → R → Type 0) (a : Engine R) (fn : String → State → State)
      → as_engine_error (update_store env a fn).1 ≡ none
      → P (fn (env.now a.store.file.saves) a.store.state) a.runtime
      → P (update_store env a fn).0.store.state (update_store env a fn).0.runtime
  unfolding as_engine_error
  update_done P a fn done h = elim (update_store-cases env a fn) [
    | inl (_, q, z) ↦ rw (q, z) h
    | inr (x, p, _, _) ↦ cc (ap as_engine_error p)
  ]

  recovery_failed-ne-none :
      (e : Engine R) (c : Config) (cause : String) → (recovery_failed env e c cause).1 ≢ none
  unfolding recovery_failed
  recovery_failed-ne-none e c cause h = ground arith

  recovery_done-IsResolved :
      (e : Engine R) (c : Config) (r : R)
      → env.adapter.rollback r (previous_known_good e.store.state) ≡ (e.runtime, none)
      → (recovery_done env e c).1 ≡ none
      → IsResolved e.store.state c r
          (recovery_done env e c).0.store.state
          (recovery_done env e c).0.runtime
  unfolding recovery_done audit_append mark_recovered
  recovery_done-IsResolved e c r h done =
      update_done (IsResolved e.store.state c r) _ (mark_recovered env c) done (record {
        staging = refl;
        rolled_back = h;
        applied = record { version = refl; config = refl; known_good = refl };
        last_failed = refl;
      })

  recover_at-IsResolved :
      (e : Engine R) (c : Config)
      → (recover_at env (some c) e).1 ≡ none
      → IsResolved e.store.state c e.runtime
          (recover_at env (some c) e).0.store.state
          (recover_at env (some c) e).0.runtime
  unfolding recover_at roll_back
  recover_at-IsResolved e c done =
      let target = previous_known_good e.store.state in
      elim (Option-cases (env.adapter.rollback e.runtime target).1) [
        | inl p ↦
            rw (p, recover_at)
              (recovery_done-IsResolved _ c e.runtime
                (ap (λ o. ((env.adapter.rollback e.runtime target).0, o)) p)
                (rw (p, recover_at) at done))
        | inr (cause, p) ↦ absurd (recovery_failed-ne-none _ c cause (rw (p, recover_at) at done))
      ]

  -- `Recover`, where it reports no error over an unresolved attempt, has rolled the runtime back to the
  -- config that was live before the attempt, by a call of the adapter that reported success and is the
  -- only one, keeps what was applied, clears the marker and records the attempt as failed.
  pub recover-IsResolved :
      (e : Engine R) (c : Config)
      → e.store.state.staging ≡ some c
      → (recover env e).1 ≡ none
      → IsResolved e.store.state c e.runtime (recover env e).0.store.state (recover env e).0.runtime
  unfolding recover
  recover-IsResolved e c h =
      subst (λ p. p.1 ≡ none → IsResolved e.store.state c e.runtime p.0.store.state p.0.runtime)
        (sym (ap (λ o. recover_at env o e) h)) (recover_at-IsResolved e c)

  module _ (reformat : String → String) (json : Json env.disk reformat) where
    staged_file :
        (e : Engine R) (d : Config) (f : StateFile String) (s : Store)
        → (stage env e d).1 ≡ none
        → f.content ≡ (stage env e d).0.store.file.content
        → open_store env.disk f (ok f.content) ≡ ok s
        → Rereads reformat (mark_staged env d (env.now e.store.file.saves) e.store.state) s.state
    unfolding stage update_store
    staged_file e d f s done same opened =
        let staged = mark_staged env d (env.now e.store.file.saves) in
        elim (update-Updated env.disk e.store staged) [
          | inl (_, _, written) ↦
              json _ s.state (open_store-text env.disk f s _ (same ∙ written) opened)
          | inr (x, p, _, _) ↦ cc (p, done)
        ]

    -- The agent dies at any point between the staging write and the save that ends the attempt: the
    -- file is still the one that staging wrote. A restart over that file, with the runtime in any state
    -- `r`, whose `Recover` reports no error, rolls the runtime back to the config that was live before
    -- the attempt, as it reads from the file, by one call of the adapter that reports success; it keeps
    -- the applied version and config, clears the marker and records the attempt as failed. `json` is
    -- taken to read back versions as they were written, and each payload as `reformat` of it.
    pub crash-IsResolved :
        (e : Engine R) (d : Config) (f : StateFile String) (s : Store) (r : R)
        (audit : Option (List AuditRecord))
        → (stage env e d).1 ≡ none
        → f.content ≡ (stage env e d).0.store.file.content
        → open_store env.disk f (ok f.content) ≡ ok s
        → (recover env (started s r audit)).1 ≡ none
        → IsRecovered reformat e.store.state d r
            (recover env (started s r audit)).0.store.state
            (recover env (started s r audit)).0.runtime
    unfolding mark_staged previous_known_good reread_option
    crash-IsResolved e d f s r audit done same opened ok_ =
        let read = staged_file e d f s done same opened in
        let v = recover-IsResolved (started s r audit) (reread reformat d) read.staging ok_ in
        record {
          staging = v.staging;
          rolled_back =
              ap (env.adapter.rollback r) (
                ap
                  (λ o.
                    known_good_of o
                      (reread_option reformat e.store.state.previous_known_good_config))
                  (sym read.config)
                ∙ ap (known_good_of s.state.applied_config) (sym read.known_good))
              ∙ v.rolled_back;
          version = v.applied.version ∙ read.version;
          config = v.applied.config ∙ read.config;
          known_good = v.applied.known_good ∙ read.known_good;
          last_failed = v.last_failed;
        }

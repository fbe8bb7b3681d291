-- ===== src/RemoteConfig/Engine/Safety.antt =====
-- The versions, the replies and the runtime of internal/remoteconfig/engine.go, over the configs that
-- the SaaS sends.
use monitoreoedgeis.Prelude.{
  str_eq, ◌≢◌, ◌≡◌, refl, sym, ap, ◌⊎◌, inl, inr, true, false, Option, none, some, String, List, [],
  ◌∷◌, arith,
}
use monitoreoedgeis.Prelude.Int.{pos, eqb_ℤ, eqb_ℤ_refl, ◌≤ℤ◌, ≤ℤ_of_not_ltb, ≤ℤ_refl, eq_of_eqb_ℤ}
use monitoreoedgeis.RemoteConfig.Contract.{Config, applied, failed, rolled_back, equal_refl}
use monitoreoedgeis.RemoteConfig.Store.{State}
use monitoreoedgeis.RemoteConfig.Engine.{
  validation_failed, apply_failed, previously_failed, receive_at, judge_version, Adapter,
  Environment, Engine, Reply, ack, receive_desired, is_same, previous_known_good, known_good_of,
}
use monitoreoedgeis.RemoteConfig.Engine.Lifecycle.{
  SameApplied, IsNew, Receives, refused, repeated, invalid, unsaved, published, reverted, stuck,
  receive_desired-Receives, previous_known_good-SameApplied,
}

-- How the runtime `r₀`, which `c₀` is live on, came to be at a config: no call has changed it but
-- validations, or the last one that did was an `apply` or a `rollback` of that config that reported
-- success. Nothing is asked of the adapter: a config stays known as live where the adapter says so.
module _ {R : Type 0} (adapter : Adapter R) (r₀ : R) (c₀ : Config) where
  pub data IsLive : R → Config → Type 0 where
    at_start : IsLive r₀ c₀
    was_applied : (r q : R) (c : Config) → adapter.apply r c ≡ (q, none) → IsLive q c
    was_rolled_back : (r q : R) (c : Config) → adapter.rollback r c ≡ (q, none) → IsLive q c
    was_validated :
        (r q : R) (c d : Config) (o : Option String)
        → adapter.validate r d ≡ (q, o)
        → IsLive r c
        → IsLive q c

pub known_good-applied :
    (t : State) (d : Config) → t.applied_config ≡ some d → previous_known_good t ≡ d
unfolding previous_known_good known_good_of
known_good-applied t d h = ground arith

not_validation_failed :
    (code : String) → str_eq code validation_failed ≡ false → code ≢ validation_failed
not_validation_failed code h e = cc (h, ap (λ c. str_eq c validation_failed) e)

module _ {R : Type 0} (env : Environment R) where
  -- The configs that the SaaS sends, one after another.
  pub run : Engine R → List Config → Engine R
  run e [] = e
  run e (d ∷ ds) = run (receive_desired env e d).0 ds

  Receives-version :
      (s t : State) (r q : R) (d : Config) (y : Reply)
      → Receives env s r d t q y
      → s.applied_version ≤ℤ t.applied_version
  Receives-version s t r q d y (refused e _ _ _) = rw e (≤ℤ_refl s.applied_version)
  Receives-version s t r q d y (repeated e _ _ _ _) = rw e (≤ℤ_refl s.applied_version)
  Receives-version s t r q d y (invalid _ _ _ same _ _ _) =
      rw same.version (≤ℤ_refl s.applied_version)
  Receives-version s t r q d y (unsaved _ _ e _) = rw e (≤ℤ_refl s.applied_version)
  Receives-version s t r q d y (published n _ _ _ _ e _) =
      rw e (≤ℤ_of_not_ltb d.version s.applied_version n.not_older)
  Receives-version s t r q d y (reverted _ _ _ _ _ _ _ same _ _ _) =
      rw same.version (≤ℤ_refl s.applied_version)
  Receives-version s t r q d y (stuck _ same _ _) = rw same.version (≤ℤ_refl s.applied_version)

  -- The applied version never goes down, whatever the SaaS sends and whatever fails.
  pub applied_version-run :
      (ds : List Config) (e : Engine R)
      → e.store.state.applied_version ≤ℤ (run e ds).store.state.applied_version
  unfolding run
  applied_version-run [] e = ≤ℤ_refl e.store.state.applied_version
  applied_version-run (d ∷ ds) e = omega (
    arith,
    Receives-version _ _ _ _ d _ (receive_desired-Receives env e d),
    applied_version-run ds (receive_desired env e d).0,
  )

  Receives-applied :
      (s t : State) (r q : R) (d : Config) (y : Reply) (code : String)
      → Receives env s r d t q y
      → y ≡ ack applied code
      → (t.applied_version ≡ d.version)
        × (is_same env d t.applied_config ≡ true)
        × (t.staging ≡ none)
  Receives-applied s t r q d y code (refused _ _ _ _) h = cc
  Receives-applied s t r q d y code (repeated e _ st v same) h =
      rw e (sym (eq_of_eqb_ℤ _ _ v), same, st)
  Receives-applied s t r q d y code (invalid _ _ _ _ _ _ _) h = cc
  Receives-applied s t r q d y code (unsaved _ _ _ _) h = cc
  Receives-applied s t r q d y code (published _ _ _ _ c v st) h =
      (v, rw c (equal_refl env.normalize d), st)
  Receives-applied s t r q d y code (reverted _ _ _ _ _ _ _ _ _ _ _) h = cc
  Receives-applied s t r q d y code (stuck _ _ _ _) h = cc

  -- An acknowledged "applied" means: the applied version and config are the desired ones, and no
  -- attempt is left unresolved.
  pub receive_desired-applied :
      (e : Engine R) (d : Config) (code : String)
      → (receive_desired env e d).1 ≡ ack applied code
      → let t = (receive_desired env e d).0.store.state in
        (t.applied_version ≡ d.version)
        × (is_same env d t.applied_config ≡ true)
        × (t.staging ≡ none)
  receive_desired-applied e d code =
      Receives-applied _ _ _ _ d _ code (receive_desired-Receives env e d)

  -- The state that a failed attempt at `d` leaves.
  abbrev HasFailed : State → Config → Type 0
  HasFailed t d = IsNew t d × (t.last_failed_version ≡ d.version) × (t.last_failed_config ≡ some d)

  IsNew-SameApplied :
      (s t : State) (d : Config) → SameApplied s t → t.staging ≡ none → IsNew s d → IsNew t d
  IsNew-SameApplied s t d same st n = record {
    settled = st;
    not_older = rw same.version n.not_older;
    not_equal = rw same.version n.not_equal;
  }

  Receives-failed :
      (s t : State) (r q : R) (d : Config) (y : Reply)
      → Receives env s r d t q y
      → (y ≡ ack failed validation_failed) ⊎ (y ≡ ack rolled_back apply_failed)
      → HasFailed t d
  Receives-failed s t r q d y (refused _ _ code g) (inl h) =
      absurd (not_validation_failed code g (cc h))
  Receives-failed s t r q d y (refused _ _ _ _) (inr h) = cc
  Receives-failed s t r q d y (repeated _ _ _ _ _) (inl h) = cc
  Receives-failed s t r q d y (repeated _ _ _ _ _) (inr h) = cc
  Receives-failed s t r q d y (invalid n _ _ same st v c) h =
      (IsNew-SameApplied s t d same st n, v, c)
  Receives-failed s t r q d y (unsaved _ _ _ _) (inl h) = cc
  Receives-failed s t r q d y (unsaved _ _ _ _) (inr h) = cc
  Receives-failed s t r q d y (published _ _ _ _ _ _ _) (inl h) = cc
  Receives-failed s t r q d y (published _ _ _ _ _ _ _) (inr h) = cc
  Receives-failed s t r q d y (reverted n _ _ _ _ _ _ same st v c) h =
      (IsNew-SameApplied s t d same st n, v, c)
  Receives-failed s t r q d y (stuck _ _ _ _) (inl h) = cc
  Receives-failed s t r q d y (stuck _ _ _ _) (inr h) = cc

  judge_failed :
      (e : Engine R) (d : Config)
      → HasFailed e.store.state d
      → eqb_ℤ d.version (pos 0) ≡ false
      → judge_version env e d ≡ (e, ack failed previously_failed)
  unfolding judge_version
  judge_failed e d (n, v, c) h =
      simp (n.not_older, n.not_equal, v, c, h, eqb_ℤ_refl d.version, equal_refl env.normalize d)

  receive_failed :
      (e : Engine R) (d : Config)
      → HasFailed e.store.state d
      → eqb_ℤ d.version (pos 0) ≡ false
      → receive_desired env e d ≡ (e, ack failed previously_failed)
  unfolding receive_desired receive_at
  receive_failed e d f h = simp (f.0.settled) (judge_failed e d f h)

  -- A config that failed validation, or failed to apply and was rolled back, is not tried again: sent
  -- once more with a version other than 0, it is refused and store and runtime stay as they are.
  pub receive_desired-twice :
      (e : Engine R) (d : Config)
      → eqb_ℤ d.version (pos 0) ≡ false
      → ((receive_desired env e d).1 ≡ ack failed validation_failed)
        ⊎ ((receive_desired env e d).1 ≡ ack rolled_back apply_failed)
      → receive_desired env (receive_desired env e d).0 d
        ≡ ((receive_desired env e d).0, ack failed previously_failed)
  receive_desired-twice e d h k =
      receive_failed (receive_desired env e d).0 d
        (Receives-failed _ _ _ _ d _ (receive_desired-Receives env e d) k) h

  module _ (r₀ : R) (c₀ : Config) where
    -- An attempt is unresolved, or the config that the state calls known good is live.
    abbrev pub IsSettled : State → R → Type 0
    IsSettled s r =
        ((c : Config) × (s.staging ≡ some c)) ⊎ IsLive env.adapter r₀ c₀ r (previous_known_good s)

    settled-IsLive :
        (s : State) (r : R)
        → IsSettled s r
        → s.staging ≡ none
        → IsLive env.adapter r₀ c₀ r (previous_known_good s)
    settled-IsLive s r (inl (c, p)) h = cc
    settled-IsLive s r (inr k) h = k

    Receives-IsSettled :
        (s t : State) (r q : R) (d : Config) (y : Reply)
        → Receives env s r d t q y
        → IsSettled s r
        → IsSettled t q
    Receives-IsSettled s t r q d y (refused e f _ _) h = rw (e, f) h
    Receives-IsSettled s t r q d y (repeated e f _ _ _) h = rw (e, f) h
    Receives-IsSettled s t r q d y (invalid n cause v same _ _ _) h = inr (
        rw (previous_known_good-SameApplied env s t same)
          (was_validated r q _ d (some cause) v (settled-IsLive s r h n.settled)))
    Receives-IsSettled s t r q d y (unsaved n f e _) h = inr (
        rw (e, f)
          (was_validated r _ _ d (env.adapter.validate r d).1 refl
            (settled-IsLive s r h n.settled)))
    Receives-IsSettled s t r q d y (published _ v _ a c _ _) h =
        inr (rw (known_good-applied t d c) (was_applied v q d a))
    Receives-IsSettled s t r q d y (reverted _ v w _ _ _ b same _ _ _) h =
        inr (rw (previous_known_good-SameApplied env s t same) (was_rolled_back w q _ b))
    Receives-IsSettled s t r q d y (stuck _ _ st _) h = inl (d, st)

    run-settles :
        (ds : List Config) (e : Engine R)
        → IsSettled e.store.state e.runtime
        → IsSettled (run e ds).store.state (run e ds).runtime
    unfolding run
    run-settles [] e h = h
    run-settles (d ∷ ds) e h =
        run-settles ds (receive_desired env e d).0
          (Receives-IsSettled _ _ _ _ d _ (receive_desired-Receives env e d) h)

  -- Whatever the SaaS sends, whichever calls and saves fail, and whatever the adapter does: an attempt
  -- is left unresolved, or the last call that changed the runtime, validations aside, was an `apply` or
  -- a `rollback` that reported success, of the config that the state records as applied (the one before
  -- it where none is recorded); or there was no such call, and that config is the one it was at first.
  pub run-IsSettled :
      (ds : List Config) (e : Engine R)
      → IsSettled e.runtime
          (previous_known_good e.store.state)
          (run e ds).store.state
          (run e ds).runtime
  run-IsSettled ds e = run-settles e.runtime (previous_known_good e.store.state) ds e (inr at_start)

-- ===== src/Service/Supervisor/Schedule.antt =====
-- The delays of internal/service/supervisor.go, over any number of failures.
use monitoreoedgeis.Prelude.{
  ℕ, zero, suc, ◌%◌, ◌≡◌, ◌<◌, refl, ◌∙◌, ap, ◌⊎◌, inl, inr, true, not, ◌||◌, List, [], ◌∷◌, arith,
  length, get_or, leb, if◌then◌else◌, is_some, if-rule, Bool-cases,
}
use monitoreoedgeis.Service.Supervisor.{
  supervisor_delay, Environment, Supervisor, retry, turn, supervise, started,
}

-- The delay after each of the failures of a window of five.
abbrev pub window : List ℕ
window = 2_000_000_000 ∷ 5_000_000_000 ∷ 15_000_000_000 ∷ 30_000_000_000 ∷ 300_000_000_000 ∷ []

-- The delays after `n` failures, newest first.
abbrev pub schedule : ℕ → List ℕ
schedule zero = []
schedule (suc n) = get_or window (n % 5) 0 ∷ schedule n

-- The delays so far are those of the schedule, and while the loop runs it counts in the window.
abbrev pub OnSchedule : {W : Type 0} → Supervisor W → Type 0
OnSchedule s =
    (s.delays ≡ schedule (length s.delays))
    × ((s.returned ≡ true) ⊎ (s.consecutive ≡ length s.delays % 5))

delay_in_window : (n : ℕ) → n < 5 → supervisor_delay (suc n) ≡ get_or window n 0
unfolding supervisor_delay
delay_in_window n h = ground arith

next_in_window : (n : ℕ) → (if leb 5 (suc (n % 5)) then 0 else suc (n % 5)) ≡ suc n % 5
next_in_window n = ground arith

module _ {W : Type 0} (env : Environment W) where
  retry-OnSchedule :
      (s : Supervisor W)
      → s.delays ≡ schedule (length s.delays)
      → s.consecutive ≡ length s.delays % 5
      → OnSchedule (retry env s)
  unfolding retry
  retry-OnSchedule s d c =
      let n = length s.delays in
      let first : supervisor_delay (suc s.consecutive) ≡ get_or window (n % 5) 0 =
        ap (λ k. supervisor_delay (suc k)) c ∙ delay_in_window (n % 5) (omega arith) in
      let next : (if leb 5 (suc s.consecutive) then 0 else suc s.consecutive) ≡ suc n % 5 =
        ap (λ k. if leb 5 (suc k) then 0 else suc k) c ∙ next_in_window n in
      (
        ap (λ x. x ∷ s.delays) first ∙ ap (λ l. get_or window (n % 5) 0 ∷ l) d,
        elim (Bool-cases (env.wait s.world (supervisor_delay (suc s.consecutive))).1) [
          | inl elapsed ↦ inr (rw elapsed next)
          | inr stopped ↦ inl (rw stopped refl)
        ],
      )

  turn-OnSchedule :
      (s : Supervisor W)
      → s.delays ≡ schedule (length s.delays)
      → s.consecutive ≡ length s.delays % 5
      → OnSchedule (turn env s)
  unfolding turn
  turn-OnSchedule s d c =
      let (w, failure) = env.run s.world in
      if-rule OnSchedule (env.cancelled s.world) (λ _. (d, inl refl))
        λ _.
          if-rule OnSchedule (env.cancelled w || not (is_some failure)) (λ _. (d, inl refl))
            (λ _. retry-OnSchedule (record s { world = w }) d c)

  supervise_lem : (n : ℕ) (s : Supervisor W) → OnSchedule s → OnSchedule (supervise env n s)
  unfolding supervise
  supervise_lem zero s h = h
  supervise_lem (suc n) s (d, way) =
      if-rule OnSchedule s.returned (λ _. (d, way))
        λ running. elim way [
          | inl done ↦ cc (done, running)
          | inr c ↦ supervise_lem n (turn env s) (turn-OnSchedule s d c)
        ]

  -- However often the agent fails and however long the loop runs, the pauses that it asks for are 2, 5,
  -- 15 and 30 seconds and then five minutes, over and over, and until it returns its count of the
  -- failures is that of the pauses modulo five.
  pub supervise-OnSchedule : (n : ℕ) (w : W) → OnSchedule (supervise env n (started w))
  supervise-OnSchedule n w = supervise_lem n (started w) (refl, inr refl)

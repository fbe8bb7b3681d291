-- ===== src/Service/Supervisor.antt =====
-- internal/service/supervisor.go: the loop that runs the agent again after it failed.
pub mod Schedule
mod Tests
use monitoreoedgeis.Prelude.{
  ℕ, zero, suc, ◌-◌, Bool, true, false, not, ◌&&◌, ◌||◌, Option, none, some, String, List, [], ◌∷◌,
  length, get_or, leb, if◌then◌else◌, is_some,
}

abbrev pub restart_limit : ℕ
restart_limit = 5

-- Durations are in nanoseconds.
abbrev pub cooldown : ℕ
cooldown = 300_000_000_000

abbrev pub supervisor_backoff : List ℕ
supervisor_backoff = 2_000_000_000 ∷ 5_000_000_000 ∷ 15_000_000_000 ∷ 30_000_000_000 ∷ []

-- `supervisorDelay`; the index is 0 where the source raises it to 0.
pub supervisor_delay : ℕ → ℕ
supervisor_delay consecutive =
    let index = consecutive - 1 in
    let last = length supervisor_backoff - 1 in
    if leb restart_limit consecutive
    then cooldown
    else get_or supervisor_backoff (if leb (length supervisor_backoff) index then last else index) 0

-- `run`, `wait` and the state of the context, over a world of theirs.
pub record Environment (W : Type 0) : Type 0 where
  pub cancelled : W → Bool
  pub run : W → W × Option String
  pub wait : W → ℕ → W × Bool

-- The loop's variable, whether it has returned, and the delays that it asked for, newest first.
pub record Supervisor (W : Type 0) : Type 0 where
  pub world : W
  pub consecutive : ℕ
  pub returned : Bool
  pub delays : List ℕ

module _ {W : Type 0} (env : Environment W) where
  -- What follows a failed attempt.
  pub retry : Supervisor W → Supervisor W
  retry s =
      let consecutive = suc s.consecutive in
      let delay = supervisor_delay consecutive in
      let (w, elapsed) = env.wait s.world delay in
      record {
        world = w;
        consecutive = if elapsed && leb restart_limit consecutive then 0 else consecutive;
        returned = not elapsed;
        delays = delay ∷ s.delays;
      }

  -- One turn of the loop of `runSupervisor`.
  pub turn : Supervisor W → Supervisor W
  turn s =
      let (w, failure) = env.run s.world in
      let s' = record s { world = w } in
      if env.cancelled s.world
      then record s { returned = true }
      else if env.cancelled w || not (is_some failure)
      then record s' { returned = true }
      else retry s'

  -- At most so many turns.
  pub supervise : ℕ → Supervisor W → Supervisor W
  supervise zero s = s
  supervise (suc n) s = let s' = supervise n (turn s) in if s.returned then s else s'

abbrev pub started : {W : Type 0} → W → Supervisor W
started w = record { world = w; consecutive = 0; returned = false; delays = [] }

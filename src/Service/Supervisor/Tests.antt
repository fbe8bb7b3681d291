-- ===== src/Service/Supervisor/Tests.antt =====
-- The supervisor over an agent that always fails.
use monitoreoedgeis.Prelude.{ℕ, ◌+◌, ◌≡◌, refl, true, false, some}
use monitoreoedgeis.Service.Supervisor.{
  Environment, supervisor_delay, retry, turn, supervise, started,
}
use monitoreoedgeis.Service.Supervisor.Schedule.{OnSchedule, schedule, supervise-OnSchedule}

-- The world counts the runs.
abbrev failing : Environment ℕ
failing = record {
  cancelled = λ w. false;
  run = λ w. (w + 1, some "camera driver failed");
  wait = λ w delay. (w, true);
}

seven_failures : (supervise failing 7 (started 0)).delays ≡ schedule 7
unfolding supervise turn retry supervisor_delay
seven_failures = refl

supervise-OnSchedule_example : OnSchedule (supervise failing 7 (started 0))
supervise-OnSchedule_example = supervise-OnSchedule failing 7 0

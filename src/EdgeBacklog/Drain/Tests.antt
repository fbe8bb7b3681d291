-- ===== src/EdgeBacklog/Drain/Tests.antt =====
-- A queue of two events that the SaaS accepts.
use monitoreoedgeis.Prelude.{ℕ, suc, ◌+◌, refl, inl, inr, none, some, [], ◌∷◌, arith}
use monitoreoedgeis.Prelude.Int.{ltb_ℤ, eqb_ℤ}
use monitoreoedgeis.EdgeBacklog.{Record, Backlog}
use monitoreoedgeis.EdgeBacklog.Submit.{validate_evidence}
use monitoreoedgeis.EdgeBacklog.Process.{Sender, run_turns}
use monitoreoedgeis.EdgeBacklog.Drain.{work}
use monitoreoedgeis.EdgeBacklog.Drain.Loop.{run_turns-Drained, Drained}
use monitoreoedgeis.EdgeBacklog.Tests.{around, event_of, first, stored, holding}

-- The world counts the requests.
abbrev accepting : Sender ℕ ℕ ℕ
accepting = record {
  post_local_event = λ w e. (suc w, none);
  put_evidence = λ w uuid key stage content hash size. (suc w, none);
  read_file = λ w path. some 7;
}

abbrev second : Record ℕ
second = record stored {
  sequence = 2;
  stage = "clip";
  submission = record first { event = event_of "e2" "cam2"; clip = first.capture };
  next_attempt = 40;
  inactive_since = some 30;
}

abbrev two_events : Backlog ℕ
two_events = record holding { queue = stored ∷ second ∷ [] }

run_turns-Drained_example :
    Drained around accepting
      (λ i. i + 50)
      (λ i. omega arith)
      ((λ w e. refl), λ w u k s c h n. refl)
      two_events
      (run_turns around accepting (λ i. i + 50) 4 0 0 two_events)
unfolding work validate_evidence ltb_ℤ eqb_ℤ
run_turns-Drained_example =
    run_turns-Drained around accepting (λ i. i + 50) (λ i. omega arith)
      ((λ w e. refl), λ w u k s c h n. refl) 4 0 0 two_events (omega arith)
      (
        (inl refl, (refl, λ w. refl), tt, inl refl),
        ((inr (inr (refl, refl)), (refl, λ w. refl), (refl, λ w. refl), inr (omega arith)), tt),
      )

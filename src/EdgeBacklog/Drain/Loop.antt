-- ===== src/EdgeBacklog/Drain/Loop.antt =====
-- internal/edgebacklog/backlog.go: `Run` empties the queue where the SaaS accepts what it is sent.
use monitoreoedgeis.Prelude.{
  ℕ, zero, suc, ◌≤◌, ◌<◌, ◌≡◌, refl, ◌∙◌, ap, subst, Bool, true, false, Option, none, some, List,
  [], ◌∷◌, arith, is_some,
}
use monitoreoedgeis.Prelude.Map.{contains}
use monitoreoedgeis.EdgeBacklog.{Record, Backlog}
use monitoreoedgeis.EdgeBacklog.Submit.{Environment}
use monitoreoedgeis.EdgeBacklog.Process.{
  Sender, SendError, pick, find_sequence, send, accepted, settle, process_one, run_turns,
}
use monitoreoedgeis.EdgeBacklog.Order.{IsDue}
use monitoreoedgeis.EdgeBacklog.Drain.{work, uuids_onto, Accepts, IsReady, AllReady}
use monitoreoedgeis.EdgeBacklog.Drain.Send.{send-accepted}
use monitoreoedgeis.EdgeBacklog.Drain.Settle.{accepted-Advances}

module _ {G W D : Type 0} (env : Environment G) (sender : Sender G W D) where
  pick-head :
      (now : ℕ) (r : Record G) (rest : List (Record G))
      → IsDue now r
      → pick now [] (r ∷ rest) ≡ some r
  unfolding pick contains
  pick-head now r rest due = ground arith

  head-found :
      (r : Record G) (rest : List (Record G)) → is_some (find_sequence r.sequence (r ∷ rest)) ≡ true
  unfolding find_sequence
  head-found r rest = ground arith

  settle-accepted :
      (now : ℕ) (b : Backlog G) (r : Record G) (o : Option SendError)
      → is_some (find_sequence r.sequence b.queue) ≡ true
      → o ≡ none
      → settle env now b r o ≡ accepted env now b r
  unfolding settle
  settle-accepted now b r o found e = simp (found, e)

  process_one_lem :
      (now now' : ℕ) (w : W) (b : Backlog G) (r : Record G)
      → pick now [] b.queue ≡ some r
      → process_one env sender now now' w b
        ≡ ((send env sender w r).0, settle env now' b r (send env sender w r).1, true)
  unfolding process_one
  process_one_lem now now' w b r e = rw (e, process_one) refl

  process_one-accepted :
      (now now' : ℕ) (w : W) (b : Backlog G) (r : Record G) (rest : List (Record G))
      → Accepts env sender
      → b.queue ≡ r ∷ rest
      → AllReady env sender now b.queue
      → process_one env sender now now' w b ≡ ((send env sender w r).0, accepted env now' b r, true)
  process_one-accepted now now' w b r rest accepts whole ready =
      let head : IsReady env sender now r =
        (subst (λ (q : List (Record G)). AllReady env sender now q) whole ready).0 in
      process_one_lem now now' w b r (ap (pick now []) whole ∙ pick-head now r rest head.3)
      ∙ ap (λ (c : Backlog G). ((send env sender w r).0, c, true))
          (settle-accepted now' b r (send env sender w r).1
            (ap (λ q. is_some (find_sequence r.sequence q)) whole ∙ head-found r rest)
            (send-accepted env sender now w r accepts head))

  -- Nothing is left.
  pick-empty : (now : ℕ) → pick {G = G} now [] [] ≡ none
  unfolding pick
  pick-empty now = refl

  process_one-empty :
      (now now' : ℕ) (w : W) (b : Backlog G)
      → b.queue ≡ []
      → process_one env sender now now' w b ≡ (w, b, false)
  unfolding process_one
  process_one-empty now now' w b e =
      let none_due : pick now [] b.queue ≡ none = ap (pick now []) e ∙ pick-empty now in
      rw (none_due, process_one) refl

  module _ (clock : ℕ → ℕ) (forward : (i : ℕ) → clock i ≤ clock (suc i))
      (accepts : Accepts env sender) where
    -- The loop has come to wait for its ticker with an empty queue, and each event was handed on.
    abbrev pub Drained : Backlog G → W × Backlog G × Bool → Type 0
    Drained b end =
        (end.1.queue ≡ []) × (end.1.synced ≡ uuids_onto b.queue b.synced) × (end.2 ≡ true)

    run_turns-step :
        (fuel i : ℕ) (w : W) (b : Backlog G) {w' : W} {b' : Backlog G}
        → process_one env sender (clock i) (clock (suc i)) w b ≡ (w', b', true)
        → run_turns env sender clock (suc fuel) i w b
          ≡ run_turns env sender clock fuel (suc i) w' b'
    unfolding run_turns
    run_turns-step fuel i w b e = rw e refl

    run_turns-stop :
        (fuel i : ℕ) (w : W) (b : Backlog G)
        → process_one env sender (clock i) (clock (suc i)) w b ≡ (w, b, false)
        → run_turns env sender clock (suc fuel) i w b ≡ (w, b, true)
    unfolding run_turns
    run_turns-stop fuel i w b e = rw e refl

    drains_queue :
        (q : List (Record G)) (fuel i : ℕ) (w : W) (b : Backlog G)
        → b.queue ≡ q
        → work b.queue < fuel
        → AllReady env sender (clock i) b.queue
        → Drained b (run_turns env sender clock fuel i w b)
    drains_queue q zero i w b at enough ready = absurd (omega arith)
    drains_queue [] (suc fuel) i w b at enough ready =
        rw (run_turns-stop fuel i w b (process_one-empty (clock i) (clock (suc i)) w b at))
          (at, rw at (unfold uuids_onto in refl), refl)
    drains_queue (r ∷ rest) (suc fuel) i w b at enough ready =
        let moved =
          accepted-Advances env sender (clock i) (clock (suc i)) b r rest (forward i) at ready in
        let later =
          drains_queue (accepted env (clock (suc i)) b r).queue fuel (suc i) (send env sender w r).0
            (accepted env (clock (suc i)) b r) refl (omega arith) moved.0 in
        rw
          (run_turns-step fuel i w b
            (process_one-accepted (clock i) (clock (suc i)) w b r rest accepts at ready))
          (later.0, later.1 ∙ moved.2, later.2)

    -- `Run` empties the queue: where the SaaS accepts every event and all evidence, the clock does not go
    -- back, and each queued record is due, in a stage that its submission has something for, and its
    -- evidence passes its checks and can be read, then the loop calls `ProcessOne` at most once for each
    -- send that is left, and once more, before it waits for its ticker, and by then the queue is empty
    -- and each of its events was handed on as synced, once, in the order of the queue.
    pub run_turns-Drained :
        (fuel i : ℕ) (w : W) (b : Backlog G)
        → work b.queue < fuel
        → AllReady env sender (clock i) b.queue
        → Drained b (run_turns env sender clock fuel i w b)
    run_turns-Drained fuel i w b = drains_queue b.queue fuel i w b refl

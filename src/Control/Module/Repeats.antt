-- ===== src/Control/Module/Repeats.antt =====
-- The repeated deliveries of a command to internal/control/module.go.
use monitoreoedgeis.Prelude.{
  ℕ, zero, suc, ◌⊎◌, ◌≡◌, subst, refl, sym, ◌∙◌, ap, inl, inr, false, Option, none, some, String,
  str_eq, arith, if◌then◌else◌, if-rule, Option-cases,
}
use monitoreoedgeis.Prelude.Map.{lookup}
use monitoreoedgeis.Control.Ledger.{Ledger, Execution, begin, complete, stamped, status_executing}
use monitoreoedgeis.Control.Ledger.Reads.{get-begin-complete, IsReady, begin-IsReady}
use monitoreoedgeis.Control.Module.{
  Module, Environment, Command, Outcome, Reply, done, failed_with, indeterminate, execute, replay,
  recorded, run_command, from_error, check_ledger, check_executed, begin_command, dispatch, finish,
  audit_append, audit_outcome, track_executed,
}
use monitoreoedgeis.Control.Module.Duplicates.{
  IsWellFormed, answer, execute-recorded, recorded-some,
}

-- A status that `execute` reports.
abbrev IsTerminal : String → Type 0
IsTerminal s = str_eq s status_executing ≡ false

module _ {W V : Type 0} (env : Environment W V) where
  from_error-IsTerminal :
      (empty : V) (o : Option String) (code : String) → IsTerminal (from_error empty o code).status
  unfolding from_error
  from_error-IsTerminal empty none code = refl
  from_error-IsTerminal empty (some e) code = refl

  abbrev EndsTerminal : W × Outcome V → Type 0
  EndsTerminal p = IsTerminal p.1.status

  run_command-IsTerminal : (w : W) (kind : String) → IsTerminal (run_command env w kind).1.status
  unfolding run_command
  run_command-IsTerminal w kind =
      if-rule EndsTerminal (str_eq kind "request_status") (λ _. refl)
        λ _.
          if-rule EndsTerminal (str_eq kind "rediscovery")
            (λ _. from_error-IsTerminal env.empty_result (env.executor.rediscover w).1 _)
            λ _.
              if-rule EndsTerminal (str_eq kind "reload_config")
                (λ _. from_error-IsTerminal env.empty_result (env.executor.reload_config w).1 _)
                λ _.
                  if-rule EndsTerminal (str_eq kind "restart_video_pipeline") (λ _. refl)
                    (λ _. refl)

  stamped-answer :
      (now : String) (out : Outcome V)
      → IsTerminal out.status
      → answer (
          stamped now (record {
            status = out.status;
            result = out.result;
            error_code = out.error_code;
            completed_at = "";
          }))
        ≡ out
  unfolding stamped
  stamped-answer now out t = simp t

  audit_outcome-ledger :
      (m : Module W V) (cmd : Command) (out : Outcome V)
      → (audit_outcome m cmd out).ledger ≡ m.ledger
  unfolding audit_outcome audit_append
  audit_outcome-ledger m cmd out = ground arith

  -- The kept entry answers the command with `out`.
  abbrev Answers : Module W V → Command → Outcome V → Type 0
  Answers m cmd out = (e : Execution V) × (recorded m.ledger cmd.id ≡ some e) × (answer e ≡ out)

  finish-Answers :
      (l : Ledger V) (m : Module W V) (cmd : Command) (out out' : Outcome V)
      → IsTerminal out.status
      → IsReady l
      → (finish env (some l) m cmd out).1 ≡ done out'
      → Answers (finish env (some l) m cmd out).0 cmd out'
  unfolding finish track_executed
  finish-Answers l m cmd out out' t ready =
      elim (Option-cases
        (complete env.disk (env.now l.file.saves) l cmd.id (record {
          status = out.status;
          result = out.result;
          error_code = out.error_code;
          completed_at = "";
        })).1) [
          | inl saved ↦
              rw (saved, finish)
                λ r. (
                  _,
                  recorded-some _ cmd.id
                      ∙ (get-begin-complete env.disk (env.now l.file.saves) l cmd.id _ ready.valid
                          ready.positive ready.bounded).1,
                  stamped-answer (env.now l.file.saves) out t ∙ (cc),
                )
          | inr (x, broken) ↦ rw (broken, finish) λ r. cc
        ]

  finish-Answers_at :
      (o : Option (Ledger V)) (l : Ledger V) (m : Module W V) (cmd : Command) (out out' : Outcome V)
      → o ≡ some l
      → IsTerminal out.status
      → IsReady l
      → (finish env o m cmd out).1 ≡ done out'
      → Answers (finish env o m cmd out).0 cmd out'
  finish-Answers_at o l m cmd out out' h t ready =
      subst
        (λ x. (finish env x m cmd out).1 ≡ done out' → Answers (finish env x m cmd out).0 cmd out')
        (sym h) (finish-Answers l m cmd out out' t ready)

  dispatch-Answers :
      (l : Ledger V) (m : Module W V) (cmd : Command) (out : Outcome V)
      → m.ledger ≡ some l
      → IsReady l
      → (dispatch env m cmd).1 ≡ done out
      → Answers (dispatch env m cmd).0 cmd out
  unfolding dispatch track_executed
  dispatch-Answers l m cmd out h ready =
      finish-Answers_at _ l _ cmd _ out (audit_outcome-ledger _ cmd _ ∙ h)
        (run_command-IsTerminal m.world cmd.command_type) ready

  begin_command-Answers :
      (l : Ledger V) (m : Module W V) (cmd : Command) (out : Outcome V)
      → IsReady l
      → (begin_command env (some l) m cmd).1 ≡ done out
      → Answers (begin_command env (some l) m cmd).0 cmd out
  unfolding begin_command
  begin_command-Answers l m cmd out ready =
      elim (Option-cases (begin env.disk (env.now l.file.saves) l cmd.id).1) [
        | inl saved ↦
            rw (saved, begin_command)
              (dispatch-Answers _ _ cmd out refl
                (begin-IsReady env.disk (env.now l.file.saves) l cmd.id ready))
        | inr (x, broken) ↦ rw (broken, begin_command) λ r. cc
      ]

  abbrev tracked_answer : Outcome V → Outcome V
  tracked_answer seen =
      if str_eq seen.status status_executing then failed_with indeterminate else seen

  execute-tracked :
      (m : Module W V) (cmd : Command) (seen : Outcome V)
      → IsWellFormed cmd
      → recorded m.ledger cmd.id ≡ none
      → lookup cmd.id m.executed ≡ some seen
      → let (m', reply) = execute env m cmd in
        (reply ≡ done (tracked_answer seen))
        × (m'.world ≡ m.world)
        × (m'.ledger ≡ m.ledger)
        × (m'.executed ≡ m.executed)
  unfolding execute check_ledger check_executed replay audit_append
  execute-tracked m cmd seen w h k = ground arith

  execute-fresh :
      (m : Module W V) (cmd : Command)
      → IsWellFormed cmd
      → recorded m.ledger cmd.id ≡ none
      → lookup cmd.id m.executed ≡ none
      → execute env m cmd ≡ begin_command env m.ledger m cmd
  unfolding execute check_ledger check_executed
  execute-fresh m cmd w h k = simp (w, h, k)

  -- The command is answered with `out` from what is kept: the ledger's entry, or the tracked outcome.
  abbrev Repeats : Module W V → Command → Outcome V → Type 0
  Repeats m cmd out =
      Answers m cmd out
      ⊎ ((seen : Outcome V) × (recorded m.ledger cmd.id ≡ none)
          × (lookup cmd.id m.executed ≡ some seen)
          × (tracked_answer seen ≡ out))

  execute-Repeats :
      (m : Module W V) (cmd : Command) (out : Outcome V)
      → IsWellFormed cmd
      → Repeats m cmd out
      → ((execute env m cmd).1 ≡ done out)
        × ((execute env m cmd).0.world ≡ m.world)
        × Repeats (execute env m cmd).0 cmd out
  execute-Repeats m cmd out w (inl (e, found, same)) =
      let (r, world, l, _) = execute-recorded env m cmd e w found in
      (r ∙ ap done same, world, inl (e, ap (λ o. recorded o cmd.id) l ∙ found, same))
  execute-Repeats m cmd out w (inr (seen, new, tracked, same)) =
      let (r, world, l, k) = execute-tracked m cmd seen w new tracked in
      (
        r ∙ ap done same,
        world,
        inr (seen, ap (λ o. recorded o cmd.id) l ∙ new, ap (lookup cmd.id) k ∙ tracked, same),
      )

  -- An answer with an outcome is kept.
  executed-Repeats :
      (m : Module W V) (l : Ledger V) (cmd : Command) (out : Outcome V)
      → IsWellFormed cmd
      → m.ledger ≡ some l
      → IsReady l
      → (execute env m cmd).1 ≡ done out
      → Repeats (execute env m cmd).0 cmd out
  executed-Repeats m l cmd out w hl ready r = elim (Option-cases (recorded m.ledger cmd.id)) [
    | inr (e, h) ↦ kept (inl (e, h, refl))
    | inl h ↦ elim (Option-cases (lookup cmd.id m.executed)) [
      | inr (seen, k) ↦ kept (inr (seen, h, k, refl))
      | inl k ↦
          let eq = execute-fresh m cmd w h k ∙ ap (λ o. begin_command env o m cmd) hl in
          inl (
            subst (λ (p : Module W V × Reply V). p.1 ≡ done out → Answers p.0 cmd out) (sym eq)
              (begin_command-Answers l m cmd out ready) r)
    ]
  ]
    where
      kept : {out' : Outcome V} → Repeats m cmd out' → Repeats (execute env m cmd).0 cmd out
      kept {out'} known =
          let (reply, _, next) = execute-Repeats m cmd out' w known in
          let same : out' ≡ out = ground (arith, reply, r) in
          subst (Repeats (execute env m cmd).0 cmd) same next

  -- The command is delivered `n` times, with no other command in between.
  unfoldable pub deliveries : ℕ → Command → Module W V → Module W V
  deliveries zero cmd m = m
  deliveries (suc n) cmd m = deliveries n cmd (execute env m cmd).0

  deliveries-Repeats :
      (n : ℕ) (m : Module W V) (cmd : Command) (out : Outcome V)
      → IsWellFormed cmd
      → Repeats m cmd out
      → ((deliveries n cmd m).world ≡ m.world) × Repeats (deliveries n cmd m) cmd out
  unfolding deliveries
  deliveries-Repeats zero m cmd out w h = (refl, h)
  deliveries-Repeats (suc n) m cmd out w h =
      let (_, world, next) = execute-Repeats m cmd out w h in
      let (same, known) = deliveries-Repeats n (execute env m cmd).0 cmd out w next in
      (same ∙ world, known)

  -- A command that was answered with an outcome, by a module with a ready ledger, and is delivered
  -- again and again, with no other command in between, is answered with the same outcome each time,
  -- and the executor's world stays as the first delivery left it.
  pub execute-deliveries :
      (n : ℕ) (m : Module W V) (l : Ledger V) (cmd : Command) (out : Outcome V)
      → IsWellFormed cmd
      → m.ledger ≡ some l
      → IsReady l
      → (execute env m cmd).1 ≡ done out
      → let again = deliveries n cmd (execute env m cmd).0 in
        ((execute env again cmd).1 ≡ done out)
        × ((execute env again cmd).0.world ≡ (execute env m cmd).0.world)
  execute-deliveries n m l cmd out w hl ready r =
      let (world, known) =
        deliveries-Repeats n (execute env m cmd).0 cmd out w
          (executed-Repeats m l cmd out w hl ready r) in
      let (reply, same, _) =
        execute-Repeats (deliveries n cmd (execute env m cmd).0) cmd out w known in
      (reply, same ∙ world)

-- ===== src/Executor/Naming.antt =====
-- crates/executor/src/lib.rs: under which names a task reports its exit.
use multinode_controller.Base.{
  ◌≡◌, refl, sym, ◌∙◌, ap, subst, ite, [], ◌∷◌, some, All, All-append, append-nil, ok, err, Map,
  get, insert, get-insert, text_dec,
}
use multinode_controller.Protocol.{TaskId, RunSpec, LogLine, TaskExited}
use multinode_controller.Executor.Events.{log, exited, Channel, emit, read_line}
use multinode_controller.Executor.Runs.{
  out_pipe, err_pipe, reader_of, set_reader, on_line, on_end, on_exit, on_timeout, on_terminated,
  task_exited, report_exit, Run, new_channel, new_run, Tasks, release, start, RunStep, line,
  end_of_pipe, hang_up, end_of_process, time_out, terminated, report, Step, launch, act, reap, idle,
  Reachable, begin, next,
}
use multinode_controller.Executor.Traces.{exits_of, exits_of-append, emit-keeps}

-- The report is about the task of the specification.
unfoldable pub IsAbout : RunSpec → TaskExited → Type 0
IsAbout spec x = (x.job_id ≡ spec.job_id) × (x.task_id ≡ spec.task_id) × (x.node_id ≡ spec.node_id)

abbrev pub IsNamed : Run → Type 0
IsNamed run = All (IsAbout run.spec) (exits_of run.events.sent)

emit_log-exits :
    (spec : RunSpec) (l : LogLine) (events : Channel)
    → All (IsAbout spec) (exits_of events.sent)
    → All (IsAbout spec) (exits_of (emit (log l) events).sent)
unfolding exits_of
emit_log-exits spec l events h =
    emit-keeps (log l) events (λ sent. All (IsAbout spec) (exits_of sent)) h
      (λ is_open. rw (exits_of-append events.sent (log l), append-nil (exits_of events.sent)) h)

RunStep-IsNamed :
    (run run' : Run) → RunStep run run' → IsNamed run → (run'.spec ≡ run.spec) × IsNamed run'
unfolding on_line set_reader reader_of read_line on_end on_exit on_timeout on_terminated report_exit
    exits_of IsAbout task_exited
RunStep-IsNamed run run' (line out_pipe now text r reading) h =
    (refl, emit_log-exits run.spec _ run.events h)
RunStep-IsNamed run run' (line err_pipe now text r reading) h =
    (refl, emit_log-exits run.spec _ run.events h)
RunStep-IsNamed run run' (end_of_pipe out_pipe r) h = (refl, h)
RunStep-IsNamed run run' (end_of_pipe err_pipe r) h = (refl, h)
RunStep-IsNamed run run' (hang_up r) h = (refl, h)
RunStep-IsNamed run run' (end_of_process status r e) h = (refl, h)
RunStep-IsNamed run run' (time_out now seconds r e d) h =
    (refl, emit_log-exits run.spec _ run.events h)
RunStep-IsNamed run run' (terminated r e) h = (refl, h)
RunStep-IsNamed run run' (report now exit_code success r e) h =
    let event = exited (task_exited run.spec now exit_code success) in
    (
      refl,
      emit-keeps event run.events (λ sent. All (IsAbout run.spec) (exits_of sent)) h
          (λ is_open. rw (exits_of-append run.events.sent event) (
            All-append (IsAbout run.spec) (exits_of run.events.sent)
              (task_exited run.spec now exit_code success ∷ []) h ((refl, refl, refl), tt))),
    )

-- Each task runs under its identifier, and its reports are about it.
abbrev pub AllNamed : Map Run → Type 0
AllNamed runs =
    (k : TaskId) (run : Run) → get k runs ≡ some run → (run.spec.task_id ≡ k) × IsNamed run

insert-AllNamed :
    (task_id : TaskId) (run : Run) (runs : Map Run)
    → (run.spec.task_id ≡ task_id) × IsNamed run
    → AllNamed runs
    → AllNamed (insert task_id run runs)
insert-AllNamed task_id run runs named h k other found =
    of_choice (text_dec task_id k) (sym (get-insert task_id k run runs) ∙ found)
  where
    of_choice :
        (d : Dec (task_id ≡ k))
        → ite d (some run) (get k runs) ≡ some other
        → (other.spec.task_id ≡ k) × IsNamed other
    of_choice (yes p) e =
        let same : run ≡ other = cc e in
        (ap (λ (r : Run). r.spec.task_id) (sym same) ∙ named.0 ∙ p, subst IsNamed same named.1)
    of_choice (no p) e = h k other e

Step-AllNamed :
    (tasks tasks' : Tasks) → Step tasks tasks' → AllNamed tasks.runs → AllNamed tasks'.runs
unfolding start release new_run new_channel emit exits_of
Step-AllNamed tasks tasks' (launch (err e) now request r fresh) h = h
Step-AllNamed tasks tasks' (launch (ok pid) now request r fresh) h =
    insert-AllNamed request.spec.task_id (new_run request.spec pid now new_channel) tasks.runs
      (refl, tt) h
Step-AllNamed tasks tasks' (act task_id run run' r found step) h =
    let (id, named) = h task_id run found in
    let (same, named') = RunStep-IsNamed run run' step named in
    insert-AllNamed task_id run' tasks.runs (ap (λ (s : RunSpec). s.task_id) same ∙ id, named') h
Step-AllNamed tasks tasks' (reap task_id exit_code success run r found e) h =
    insert-AllNamed task_id _ tasks.runs (h task_id run found) h

pub Reachable-AllNamed : (tasks : Tasks) → Reachable tasks → AllNamed tasks.runs
unfolding idle get
Reachable-AllNamed tasks begin k run e = absurd (cc e)
Reachable-AllNamed tasks (next before r reached step) k run e =
    Step-AllNamed before tasks step (Reachable-AllNamed before reached) k run e

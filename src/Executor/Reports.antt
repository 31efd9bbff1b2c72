-- ===== src/Executor/Reports.antt =====
-- crates/executor/src/lib.rs: what the events of every task say, in any state that is reached.
use multinode_controller.Base.{
  ℕ, ◌%◌, ◌^◌, ℤ, ◌≡◌, refl, sym, ◌∙◌, ap, subst, ite, List, [], ◌∷◌, ◌++◌, Option, none, some,
  length, ◌⊎◌, inl, inr, Result, ok, err, bytes, arith, get, insert, Map, get-insert, text_dec,
}
use multinode_controller.Protocol.{
  DateTime, TaskId, RunSpec, stdout, stderr, LogLine, TaskStarted, TaskExited,
}
use multinode_controller.Executor.Events.{ExecutionEvent, started}
use multinode_controller.Executor.Runs.{
  Signal, kill, kill_process, Waiter, waiting, terminating, reaped, removed, finished, Run,
  task_started, Tasks, release, new_run, new_channel, start, Step, launch, act, reap, idle,
  Reachable, begin, next,
}
use multinode_controller.Executor.Table.{entry_at, table_entry, kill-table_entry}
use multinode_controller.Executor.Numbering.{Numbered, text_of, Numbered-position}
use multinode_controller.Executor.Traces.{
  lines_of, exits_of, ExitsAt, Opens, OpensWith, IsTrace, IsNumbered,
}
use multinode_controller.Executor.TraceSteps.{
  RunStep-IsTrace, new_run-IsTrace, moved-IsTrace, exits_at,
}

abbrev pub Traced : Map Run → Type 0
Traced runs = (k : TaskId) (run : Run) → get k runs ≡ some run → IsTrace run

insert-Traced :
    (task_id : TaskId) (run : Run) (runs : Map Run)
    → IsTrace run
    → Traced runs
    → Traced (insert task_id run runs)
insert-Traced task_id run runs trace traced k other found =
    of_choice (text_dec task_id k) (sym (get-insert task_id k run runs) ∙ found)
  where
    of_choice : (d : Dec (task_id ≡ k)) → ite d (some run) (get k runs) ≡ some other → IsTrace other
    of_choice (yes p) h = subst IsTrace (cc h) trace
    of_choice (no p) h = traced k other h

Step-Traced : (tasks tasks' : Tasks) → Step tasks tasks' → Traced tasks.runs → Traced tasks'.runs
unfolding start release ExitsAt
Step-Traced tasks tasks' (launch (err e) now request r fresh) traced = traced
Step-Traced tasks tasks' (launch (ok pid) now request r fresh) traced =
    insert-Traced request.spec.task_id (new_run request.spec pid now new_channel) tasks.runs
      (new_run-IsTrace request.spec pid now) traced
Step-Traced tasks tasks' (act task_id run run' r found step) traced =
    insert-Traced task_id run' tasks.runs (RunStep-IsTrace run run' step (traced task_id run found))
      traced
Step-Traced tasks tasks' (reap task_id exit_code success run r found e) traced =
    let trace = traced task_id run found in
    insert-Traced task_id (record run { waiter = removed exit_code success }) tasks.runs
      (moved-IsTrace (removed exit_code success) run
        (exits_at run (reaped exit_code success) e trace) trace)
      traced

pub Reachable-Traced : (tasks : Tasks) → Reachable tasks → Traced tasks.runs
unfolding idle get
Reachable-Traced tasks begin k run h = absurd (cc h)
Reachable-Traced tasks (next before r reached step) k run h =
    Step-Traced before tasks step (Reachable-Traced before reached) k run h

-- The offset of every line of a stream is the number of the bytes that the lines before it take,
-- with a line feed each.
pub position_of_line :
    (tasks : Tasks) (task_id : TaskId) (run : Run) (front : List LogLine) (l : LogLine)
    (back : List LogLine)
    → Reachable tasks
    → get task_id tasks.runs ≡ some run
    → (lines_of stdout run.events.sent ≡ front ++ l ∷ back)
      ⊎ (lines_of stderr run.events.sent ≡ front ++ l ∷ back)
    → l.offset ≡ length (text_of front) % 2 ^ 64
unfolding IsNumbered
position_of_line tasks task_id run front l back reached found (inl e) =
    let trace = Reachable-Traced tasks reached task_id run found in
    omega (
      arith,
      Numbered-position 0 0 trace.out.1.0 front l back refl
          (subst (λ ls. Numbered 0 ls trace.out.1.0) e trace.out.1.1),
    )
position_of_line tasks task_id run front l back reached found (inr e) =
    let trace = Reachable-Traced tasks reached task_id run found in
    omega (
      arith,
      Numbered-position 0 0 trace.errors.1.0 front l back refl
          (subst (λ ls. Numbered 0 ls trace.errors.1.0) e trace.errors.1.1),
    )

pub waiter-ExitsAt :
    (waiter : Waiter) (pid : Option ℕ) (exits : List TaskExited) (x : TaskExited)
    (rest : List TaskExited)
    → ExitsAt waiter exits
    → exits ≡ x ∷ rest
    → (rest ≡ []) × (entry_at waiter pid ≡ none)
unfolding ExitsAt entry_at
waiter-ExitsAt waiting pid exits x rest h e = absurd (cc (h, e))
waiter-ExitsAt terminating pid exits x rest h e = absurd (cc (h, e))
waiter-ExitsAt (reaped code success) pid exits x rest h e = absurd (cc (h, e))
waiter-ExitsAt (removed code success) pid exits x rest h e = absurd (cc (h, e))
waiter-ExitsAt finished pid exits x [] h e = (refl, refl)
waiter-ExitsAt finished pid exits x (y ∷ rest) h e = absurd (omega (arith, h, ap length e))

-- The start of a task, under its own names and with its process identifier.
unfoldable pub start_of : RunSpec → Option ℕ → DateTime → TaskStarted
start_of spec pid now = record {
  job_id = spec.job_id;
  task_id = spec.task_id;
  node_id = spec.node_id;
  pid = pid;
  timestamp = now;
}

-- A task that has reported an exit has reported its start first, under its own names and with its
-- process identifier; the exit is its only one, and from then on a kill says that it is not
-- running.
pub exit-kill :
    (tasks : Tasks) (task_id : TaskId) (run : Run) (x : TaskExited) (rest : List TaskExited)
    (killpg : ℤ → Signal → Result (Unit {0}))
    → Reachable tasks
    → get task_id tasks.runs ≡ some run
    → exits_of run.events.sent ≡ x ∷ rest
    → ((now : DateTime) × ((later : List ExecutionEvent) × (run.events.sent
            ≡ started (start_of run.spec run.pid now) ∷ later)))
      × (rest ≡ [])
      × (kill killpg task_id tasks.executor
          ≡ err (bytes "task " ++ task_id ++ bytes " is not running"))
unfolding Opens OpensWith table_entry kill_process start_of task_started
exit-kill tasks task_id run x rest killpg reached found e =
    let trace = Reachable-Traced tasks reached task_id run found in
    let (only, over) = waiter-ExitsAt run.waiter run.pid _ x rest trace.exits e in
    (
      (trace.opens.0, (trace.opens.1.0, trace.opens.1.1.0)),
      only,
      kill-table_entry tasks killpg task_id reached
          ∙ ap (kill_process killpg task_id) (ap table_entry found ∙ over),
    )

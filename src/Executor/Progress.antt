-- ===== src/Executor/Progress.antt =====
-- crates/executor/src/lib.rs: from any stand of the waiting task to the report of the exit.
use multinode_controller.Base.{
  ◌≡◌, ◌≢◌, refl, ◌∙◌, ap, Bool, true, false, [], ◌∷◌, Option, none, some, ℤ, Map, get, insert,
  remove, get-insert, get-remove, text_dec, if_pos, Result, ok, err,
}
use multinode_controller.Protocol.{DateTime, TaskId, RunSpec, TaskExited}
use multinode_controller.Executor.Events.{emit}
use multinode_controller.Executor.Runs.{
  Waiter, waiting, terminating, reaped, removed, finished, Run, on_exit, exit_result, on_terminated,
  report_exit, task_exited, Tasks, release, RunStep, end_of_process, terminated, report, act, reap,
  Reachable, next, Step,
}
use multinode_controller.Executor.Table.{IsTable, Reachable-IsTable, table_entry, entry_at}
use multinode_controller.Executor.Traces.{exits_of, exits_of-append, ExitsAt}
use multinode_controller.Executor.TraceSteps.{exits_at}
use multinode_controller.Executor.Reports.{Reachable-Traced}

-- The exit code and the success to be reported, by where the waiting task stands and what the wait
-- for the process gives: that of the process, unless its deadline has passed or the wait fails.
unfoldable pub verdict : Waiter → Result (Option ℤ × Bool) → Option ℤ × Bool
verdict waiting (ok (exit_code, success)) = (exit_code, success)
verdict waiting (err e) = (none, false)
verdict terminating status = (none, false)
verdict (reaped exit_code success) status = (exit_code, success)
verdict (removed exit_code success) status = (exit_code, success)
verdict finished status = (none, false)

verdict-exit_result :
    (status : Result (Option ℤ × Bool)) → exit_result status ≡ verdict waiting status
unfolding exit_result verdict
verdict-exit_result (ok (exit_code, success)) = refl
verdict-exit_result (err e) = refl

-- The report on a task, under its own names.
unfoldable pub report_on : RunSpec → DateTime → Option ℤ → Bool → TaskExited
report_on spec now exit_code success = record {
  job_id = spec.job_id;
  task_id = spec.task_id;
  node_id = spec.node_id;
  exit_code = exit_code;
  success = success;
  timestamp = now;
}

-- The steps that lead from one state to another.
pub data Leads : Tasks → Tasks → Type 0 where
  here : (tasks : Tasks) → Leads tasks tasks
  then : (tasks tasks' later : Tasks) → Step tasks tasks' → Leads tasks' later → Leads tasks later

-- The state leads to one in which the task has reported the exit and is off the table.
abbrev pub CanReport : Tasks → TaskId → TaskExited → Type 0
CanReport tasks task_id x =
    (later : Tasks) × (Leads tasks later
      × ((get task_id later.executor.processes ≡ none)
          × ((run : Run) × ((get task_id later.runs ≡ some run)
                × (exits_of run.events.sent ≡ x ∷ [])))))

after :
    (tasks tasks' : Tasks) (task_id : TaskId) (x : TaskExited)
    → Step tasks tasks'
    → CanReport tasks' task_id x
    → CanReport tasks task_id x
after tasks tasks' task_id x step (later, (leads, rest)) =
    (later, (then tasks tasks' later step leads, rest))

get-inserted : {A : Type 0} (k : TaskId) (a : A) (m : Map A) → get k (insert k a m) ≡ some a
get-inserted k a m = get-insert k k a m ∙ if_pos (text_dec k k) refl _ _

get-removed : {A : Type 0} (k : TaskId) (m : Map A) → get k (remove k m) ≡ none
get-removed k m = get-remove k k m ∙ if_pos (text_dec k k) refl _ _

report_exit-exits :
    (now : DateTime) (exit_code : Option ℤ) (success : Bool) (run : Run)
    → run.events.is_open ≡ true
    → exits_of run.events.sent ≡ []
    → exits_of (report_exit now exit_code success run).events.sent
      ≡ task_exited run.spec now exit_code success ∷ []
unfolding report_exit emit exits_of
report_exit-exits now exit_code success run is_open fresh =
    rw (is_open, emit, exits_of-append, fresh) refl

removed-CanReport :
    (tasks : Tasks) (task_id : TaskId) (run : Run) (now : DateTime) (exit_code : Option ℤ)
    (success : Bool)
    → Reachable tasks
    → get task_id tasks.runs ≡ some run
    → get task_id tasks.executor.processes ≡ none
    → run.events.is_open ≡ true
    → run.waiter ≡ removed exit_code success
    → CanReport tasks task_id (task_exited run.spec now exit_code success)
unfolding ExitsAt
removed-CanReport tasks task_id run now exit_code success reached found gone is_open e =
    let run' = report_exit now exit_code success run in
    let trace = Reachable-Traced tasks reached task_id run found in
    let tasks' : Tasks = record tasks { runs = insert task_id run' tasks.runs } in
    (
      tasks',
      (
        then tasks tasks' tasks'
            (act task_id run run' tasks found (report now exit_code success run e)) (here tasks'),
        (
          gone,
          (
            run',
            (
              get-inserted task_id run' tasks.runs,
              report_exit-exits now exit_code success run is_open
                  (exits_at run (removed exit_code success) e trace),
            ),
          ),
        ),
      ),
    )

reaped-CanReport :
    (tasks : Tasks) (task_id : TaskId) (run : Run) (now : DateTime) (exit_code : Option ℤ)
    (success : Bool)
    → Reachable tasks
    → get task_id tasks.runs ≡ some run
    → run.events.is_open ≡ true
    → run.waiter ≡ reaped exit_code success
    → CanReport tasks task_id (task_exited run.spec now exit_code success)
unfolding release
reaped-CanReport tasks task_id run now exit_code success reached found is_open e =
    let run' : Run = record run { waiter = removed exit_code success } in
    let tasks' : Tasks = release task_id exit_code success run tasks in
    let step = reap task_id exit_code success run tasks found e in
    after tasks tasks' task_id _ step (
      removed-CanReport tasks' task_id run' now exit_code success (next tasks tasks' reached step)
        (get-inserted task_id run' tasks.runs) (get-removed task_id tasks.executor.processes)
        is_open refl)

ended-CanReport :
    (tasks : Tasks) (task_id : TaskId) (run : Run) (now : DateTime) (exit_code : Option ℤ)
    (success : Bool)
    → Reachable tasks
    → get task_id tasks.runs ≡ some run
    → run.events.is_open ≡ true
    → RunStep run (record run { waiter = reaped exit_code success })
    → CanReport tasks task_id (task_exited run.spec now exit_code success)
ended-CanReport tasks task_id run now exit_code success reached found is_open step =
    let run' : Run = record run { waiter = reaped exit_code success } in
    let tasks' : Tasks = record tasks { runs = insert task_id run' tasks.runs } in
    let acts = act task_id run run' tasks found step in
    after tasks tasks' task_id _ acts (
      reaped-CanReport tasks' task_id run' now exit_code success (next tasks tasks' reached acts)
        (get-inserted task_id run' tasks.runs) is_open refl)

gone-of-removed :
    (tasks : Tasks) (task_id : TaskId) (run : Run) (exit_code : Option ℤ) (success : Bool)
    → Reachable tasks
    → get task_id tasks.runs ≡ some run
    → run.waiter ≡ removed exit_code success
    → get task_id tasks.executor.processes ≡ none
unfolding IsTable table_entry entry_at
gone-of-removed tasks task_id run exit_code success reached found e =
    Reachable-IsTable tasks reached task_id ∙ ap table_entry found ∙ ap (λ w. entry_at w run.pid) e

-- From every state that is reached, a task whose worker listens and whose waiting task has not
-- finished can go on to report its exit, at any time and whatever the process ends with. The report
-- is its only one, under the names of the task and with the exit code and success of the process, or
-- without a code and as a failure if its deadline has passed or the wait has failed; and the task is
-- off the table then.
pub report_exit-CanReport :
    (tasks : Tasks) (task_id : TaskId) (run : Run) (status : Result (Option ℤ × Bool))
    (now : DateTime)
    → Reachable tasks
    → get task_id tasks.runs ≡ some run
    → run.events.is_open ≡ true
    → run.waiter ≢ finished
    → let (exit_code, success) = verdict run.waiter status in
      CanReport tasks task_id (report_on run.spec now exit_code success)
unfolding verdict on_exit on_terminated report_on task_exited exit_result
report_exit-CanReport tasks task_id run status now reached found is_open unfinished =
    from_stand run.waiter refl
  where
    from_stand :
        (w : Waiter)
        → run.waiter ≡ w
        → CanReport tasks task_id (report_on run.spec now (verdict w status).0 (verdict w status).1)
    from_stand waiting e =
        ended-CanReport tasks task_id run now _ _ reached found is_open
          (end_of_process status run e)
    from_stand terminating e =
        ended-CanReport tasks task_id run now _ _ reached found is_open (terminated run e)
    from_stand (reaped exit_code success) e =
        reaped-CanReport tasks task_id run now exit_code success reached found is_open e
    from_stand (removed exit_code success) e =
        removed-CanReport tasks task_id run now exit_code success reached found
          (gone-of-removed tasks task_id run exit_code success reached found e) is_open e
    from_stand finished e = absurd (unfinished e)

-- ===== src/Executor/Table.antt =====
-- crates/executor/src/lib.rs: the process table against the runs. A task is in the table, under
-- its process identifier, from its start until its waiting task has taken it off, which is a step
-- after the wait for the process: in between the table names a process that is gone.
use multinode_controller.Base.{
  ℕ, ◌≡◌, refl, ap, Bool, Option, none, some, Text, get, insert, get-insert, get-remove, text_dec,
  arith, ℤ, Result, ok, err,
}
use multinode_controller.Protocol.{TaskId, DateTime}
use multinode_controller.Executor.Events.{Channel, ExecutionRequest}
use multinode_controller.Executor.Runs.{
  Signal, kill, kill_process, Waiter, waiting, terminating, reaped, removed, finished, Run,
  out_pipe, err_pipe, set_reader, on_line, on_end, on_exit, on_timeout, on_terminated, report_exit,
  Tasks, release, new_channel, new_run, start, track, RunStep, line, end_of_pipe, hang_up,
  end_of_process, time_out, terminated, report, Step, launch, act, reap, idle, Reachable, begin,
  next,
}

-- The entry that a run has at each stand of its waiting task: it is still there when the process has
-- been waited for (`reaped`), until the waiting task takes it off.
unfoldable pub entry_at : Waiter → Option ℕ → Option ℕ
entry_at waiting pid = pid
entry_at terminating pid = pid
entry_at (reaped exit_code success) pid = pid
entry_at (removed exit_code success) pid = none
entry_at finished pid = none

unfoldable pub table_entry : Option Run → Option ℕ
table_entry none = none
table_entry (some run) = entry_at run.waiter run.pid

step-table_entry :
    (run run' : Run) → RunStep run run' → table_entry (some run') ≡ table_entry (some run)
unfolding table_entry entry_at on_line on_end set_reader on_exit on_timeout on_terminated
    report_exit
step-table_entry run run' (line out_pipe now text r h) = refl
step-table_entry run run' (line err_pipe now text r h) = refl
step-table_entry run run' (end_of_pipe out_pipe r) = refl
step-table_entry run run' (end_of_pipe err_pipe r) = refl
step-table_entry run run' (hang_up r) = refl
step-table_entry run run' (end_of_process status r h) = rw h refl
step-table_entry run run' (time_out now seconds r h d) = rw h refl
step-table_entry run run' (terminated r h) = rw h refl
step-table_entry run run' (report now exit_code success r h) = rw h refl

-- The table holds exactly the entries of the runs that are not taken off.
unfoldable pub IsTable : Tasks → Type 0
IsTable tasks = (k : TaskId) → get k tasks.executor.processes ≡ table_entry (get k tasks.runs)

insert-IsTable :
    (task_id : TaskId) (run run' : Run) (tasks : Tasks)
    → get task_id tasks.runs ≡ some run
    → table_entry (some run') ≡ table_entry (some run)
    → IsTable tasks
    → IsTable (record tasks { runs = insert task_id run' tasks.runs })
unfolding IsTable
insert-IsTable task_id run run' tasks found same table k = elim (text_dec task_id k) [
  | yes e ↦ ground (arith, table k, get-insert task_id k run' tasks.runs)
  | no other ↦ ground (arith, table k, get-insert task_id k run' tasks.runs)
]

start-IsTable :
    (pid : Option ℕ) (now : DateTime) (request : ExecutionRequest) (events : Channel)
    (tasks : Tasks)
    → get request.spec.task_id tasks.runs ≡ none
    → IsTable tasks
    → IsTable (start (ok pid) now request events tasks).1
unfolding IsTable start track new_run table_entry entry_at
start-IsTable none now request events tasks fresh table k =
    let id = request.spec.task_id in
    elim (text_dec id k) [
      | yes e ↦
          ground (arith, table k, get-insert id k (new_run request.spec none now events) tasks.runs)
      | no other ↦
          ground (arith, table k, get-insert id k (new_run request.spec none now events) tasks.runs)
    ]
start-IsTable (some pid) now request events tasks fresh table k =
    let id = request.spec.task_id in
    elim (text_dec id k) [
      | yes e ↦ ground (
        arith,
        get-insert id k (new_run request.spec (some pid) now events) tasks.runs,
        get-insert id k pid tasks.executor.processes,
      )
      | no other ↦ ground (
        arith,
        table k,
        get-insert id k (new_run request.spec (some pid) now events) tasks.runs,
        get-insert id k pid tasks.executor.processes,
      )
    ]

release-IsTable :
    (task_id : TaskId) (exit_code : Option ℤ) (success : Bool) (run : Run) (tasks : Tasks)
    → IsTable tasks
    → IsTable (release task_id exit_code success run tasks)
unfolding IsTable release table_entry entry_at
release-IsTable task_id exit_code success run tasks table k =
    let run' = record run { waiter = removed exit_code success } in
    elim (text_dec task_id k) [
      | yes e ↦ ground (
        arith,
        get-insert task_id k run' tasks.runs,
        get-remove task_id k tasks.executor.processes,
      )
      | no other ↦ ground (
        arith,
        table k,
        get-insert task_id k run' tasks.runs,
        get-remove task_id k tasks.executor.processes,
      )
    ]

failed-IsTable :
    (e : Text) (now : DateTime) (request : ExecutionRequest) (tasks : Tasks)
    → IsTable tasks
    → IsTable (start (err e) now request new_channel tasks).1
unfolding start
failed-IsTable e now request tasks table = table

idle-IsTable : IsTable idle
unfolding IsTable idle table_entry get
idle-IsTable k = refl

Step-IsTable : (tasks tasks' : Tasks) → Step tasks tasks' → IsTable tasks → IsTable tasks'
Step-IsTable tasks tasks' (launch (err e) now request r fresh) table =
    failed-IsTable e now request tasks table
Step-IsTable tasks tasks' (launch (ok pid) now request r fresh) table =
    start-IsTable pid now request _ tasks fresh table
Step-IsTable tasks tasks' (act task_id run run' r found step) table =
    insert-IsTable task_id run run' tasks found (step-table_entry run run' step) table
Step-IsTable tasks tasks' (reap task_id exit_code success run r found h) table =
    release-IsTable task_id exit_code success run tasks table

-- However starts, lines, deadlines and ends of processes follow each other, the table of processes
-- has a task exactly from the start of its process until its waiting task has taken it off, which is
-- after the wait for the process, and under the identifier of that process.
pub Reachable-IsTable : (tasks : Tasks) → Reachable tasks → IsTable tasks
Reachable-IsTable tasks begin = idle-IsTable
Reachable-IsTable tasks (next before r reached step) =
    Step-IsTable before tasks step (Reachable-IsTable before reached)

-- A kill finds the task by its run: it signals the group of a process that is on the table, also of
-- one that has been waited for by then, and says of all others that they are not running.
pub kill-table_entry :
    (tasks : Tasks) (killpg : ℤ → Signal → Result (Unit {0})) (task_id : TaskId)
    → Reachable tasks
    → kill killpg task_id tasks.executor
      ≡ kill_process killpg task_id (table_entry (get task_id tasks.runs))
unfolding kill IsTable
kill-table_entry tasks killpg task_id reached =
    ap (kill_process killpg task_id) (Reachable-IsTable tasks reached task_id)

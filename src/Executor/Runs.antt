-- ===== src/Executor/Runs.antt =====
-- crates/executor/src/lib.rs: the start of a task and the three activities that follow it, two
-- readers and one that waits for the process. Each step is what an activity does between two
-- awaits; they interleave as they may, with each other and with the other tasks.
use multinode_controller.Base.{
  ℕ, ◌+◌, ◌-◌, ◌^◌, ltb, ℤ, pos, negsuc, ◌≡◌, Bool, true, false, List, [], ◌∷◌, ◌++◌, Option, none,
  some, Text, bytes, show, if◌then◌else◌, Map, get, insert, remove, length, Result, ok, err,
  with_context,
}
use multinode_controller.Protocol.{
  DateTime, TaskId, DurationSpec, RunSpec, TaskStarted, LogStream, stdout, stderr, system,
  TaskExited,
}
use multinode_controller.Executor.Events.{
  started, log, exited, ExecutionRequest, TaskHandle, Channel, emit, Reader, log_line, read_line,
  end_of_stream,
}

pub record LocalExecutor : Type 0 where
  pub processes : Map ℕ

unfoldable pub running_count : LocalExecutor → ℕ
running_count executor = length executor.processes

pub data Signal : Type 0 where
  sigterm sigkill : Signal

-- `pid as i32`.
unfoldable pub as_i32 : ℕ → ℤ
as_i32 pid = if ltb pid (2 ^ 31) then pos pid else negsuc (2 ^ 32 - (pid + 1))

-- `kill`; `killpg` gives the error of the system call, if there is one.
unfoldable pub kill_process :
    (killpg : ℤ → Signal → Result (Unit {0})) → TaskId → Option ℕ → Result (Unit {0})
kill_process killpg task_id none = err (bytes "task " ++ task_id ++ bytes " is not running")
kill_process killpg task_id (some pid) =
    with_context (bytes "failed to kill process group") (killpg (as_i32 pid) sigterm)

unfoldable pub kill :
    (killpg : ℤ → Signal → Result (Unit {0})) → TaskId → LocalExecutor → Result (Unit {0})
kill killpg task_id executor = kill_process killpg task_id (get task_id executor.processes)

-- Where the task that waits for the process stands.
pub data Waiter : Type 0 where
  waiting : Waiter
  terminating : Waiter
  reaped : Option ℤ → Bool → Waiter
  removed : Option ℤ → Bool → Waiter
  finished : Waiter

-- The part of a task's state that `start` hands to its activities.
pub record Run : Type 0 where
  pub spec : RunSpec
  pub pid : Option ℕ
  pub events : Channel
  pub stdout_reader : Reader
  pub stderr_reader : Reader
  pub waiter : Waiter

pub data Pipe : Type 0 where
  out_pipe err_pipe : Pipe

unfoldable pub reader_of : Pipe → Run → Reader
reader_of out_pipe run = run.stdout_reader
reader_of err_pipe run = run.stderr_reader

unfoldable pub set_reader : Pipe → Reader → Run → Run
set_reader out_pipe reader run = record run { stdout_reader = reader }
set_reader err_pipe reader run = record run { stderr_reader = reader }

unfoldable pub on_line : Pipe → DateTime → Text → Run → Run
on_line pipe now line run =
    let (reader, events) = read_line run.spec now line (reader_of pipe run) run.events in
    set_reader pipe reader (record run { events = events })

unfoldable pub on_end : Pipe → Run → Run
on_end pipe run = set_reader pipe (end_of_stream (reader_of pipe run)) run

unfoldable pub exit_result : Result (Option ℤ × Bool) → Option ℤ × Bool
exit_result (ok status) = status
exit_result (err e) = (none, false)

-- `timeout.map(|value| value.seconds)` and the filter of `wait_with_optional_timeout`.
unfoldable pub deadline : Option DurationSpec → Option ℕ
deadline none = none
deadline (some timeout) = if ltb 0 timeout.seconds then some timeout.seconds else none

-- The process has ended before its deadline.
unfoldable pub on_exit : Result (Option ℤ × Bool) → Run → Run
on_exit status run =
    let (exit_code, success) = exit_result status in
    record run { waiter = reaped exit_code success }

-- The deadline has come first.
unfoldable pub on_timeout : DateTime → ℕ → Run → Run
on_timeout now seconds run = record run {
  events =
      emit
        (log (
          log_line run.spec system now
            (bytes "task timed out after " ++ show seconds ++ bytes "s; terminating process group")
            0))
        run.events;
  waiter = terminating;
}

-- What `terminate_child` does to the process: the signals to its group, or its own kill. `try_wait`
-- after five seconds says whether it still runs.
pub data KillCall : Type 0 where
  to_group : ℤ → Signal → KillCall
  to_child : KillCall

unfoldable pub terminate_child : Option ℕ → Bool → List KillCall
terminate_child (some pid) still_runs =
    to_group (as_i32 pid) sigterm ∷ (if still_runs then to_group (as_i32 pid) sigkill ∷ [] else [])
terminate_child none still_runs = to_child ∷ []

-- After `terminate_child` has seen the process end.
unfoldable pub on_terminated : Run → Run
on_terminated run = record run { waiter = reaped none false }

unfoldable pub task_exited : RunSpec → DateTime → Option ℤ → Bool → TaskExited
task_exited spec now exit_code success = record {
  job_id = spec.job_id;
  task_id = spec.task_id;
  node_id = spec.node_id;
  exit_code = exit_code;
  success = success;
  timestamp = now;
}

unfoldable pub report_exit : DateTime → Option ℤ → Bool → Run → Run
report_exit now exit_code success run = record run {
  events = emit (exited (task_exited run.spec now exit_code success)) run.events;
  waiter = finished;
}

-- The executor with the runs that it has started.
pub record Tasks : Type 0 where
  pub executor : LocalExecutor
  pub runs : Map Run

unfoldable pub release : TaskId → Option ℤ → Bool → Run → Tasks → Tasks
release task_id exit_code success run tasks = record {
  executor = record { processes = remove task_id tasks.executor.processes };
  runs = insert task_id (record run { waiter = removed exit_code success }) tasks.runs;
}

unfoldable pub new_reader : LogStream → Reader
new_reader stream = record { stream = stream; offset = 0; is_reading = true }

unfoldable pub task_started : RunSpec → Option ℕ → DateTime → TaskStarted
task_started spec pid now = record {
  job_id = spec.job_id;
  task_id = spec.task_id;
  node_id = spec.node_id;
  pid = pid;
  timestamp = now;
}

unfoldable pub new_run : RunSpec → Option ℕ → DateTime → Channel → Run
new_run spec pid now events = record {
  spec = spec;
  pid = pid;
  events = emit (started (task_started spec pid now)) events;
  stdout_reader = new_reader stdout;
  stderr_reader = new_reader stderr;
  waiter = waiting;
}

unfoldable pub track : TaskId → Option ℕ → LocalExecutor → LocalExecutor
track task_id none executor = executor
track task_id (some pid) executor = record { processes = insert task_id pid executor.processes }

-- `start`, where `spawned` is what `spawn` gave: the process identifier, if the child has one yet,
-- or the error with its context.
unfoldable pub start :
    Result (Option ℕ) → DateTime → ExecutionRequest → Channel → Tasks → Result TaskHandle × Tasks
start (err e) now request events tasks = (err e, tasks)
start (ok pid) now request events tasks = (
  ok (record { task_id = request.spec.task_id; pid = pid }),
  record {
    executor = track request.spec.task_id pid tasks.executor;
    runs = insert request.spec.task_id (new_run request.spec pid now events) tasks.runs;
  },
)

-- `mpsc::channel`.
unfoldable pub new_channel : Channel
new_channel = record { sent = []; is_open = true }

-- A step of one of the activities of a run.
pub data RunStep : Run → Run → Type 0 where
  line :
      (pipe : Pipe) (now : DateTime) (text : Text) (run : Run)
      → (reader_of pipe run).is_reading ≡ true
      → RunStep run (on_line pipe now text run)
  end_of_pipe : (pipe : Pipe) (run : Run) → RunStep run (on_end pipe run)
  hang_up :
      (run : Run) → RunStep run (record run { events = record run.events { is_open = false } })
  end_of_process :
      (status : Result (Option ℤ × Bool)) (run : Run)
      → run.waiter ≡ waiting
      → RunStep run (on_exit status run)
  time_out :
      (now : DateTime) (seconds : ℕ) (run : Run)
      → run.waiter ≡ waiting
      → deadline run.spec.timeout ≡ some seconds
      → RunStep run (on_timeout now seconds run)
  terminated : (run : Run) → run.waiter ≡ terminating → RunStep run (on_terminated run)
  report :
      (now : DateTime) (exit_code : Option ℤ) (success : Bool) (run : Run)
      → run.waiter ≡ removed exit_code success
      → RunStep run (report_exit now exit_code success run)

-- A step of the executor. A task starts under an identifier that none has had, as the
-- coordinator draws them.
pub data Step : Tasks → Tasks → Type 0 where
  launch :
      (spawned : Result (Option ℕ)) (now : DateTime) (request : ExecutionRequest) (tasks : Tasks)
      → get request.spec.task_id tasks.runs ≡ none
      → Step tasks (start spawned now request new_channel tasks).1
  act :
      (task_id : TaskId) (run run' : Run) (tasks : Tasks)
      → get task_id tasks.runs ≡ some run
      → RunStep run run'
      → Step tasks (record tasks { runs = insert task_id run' tasks.runs })
  reap :
      (task_id : TaskId) (exit_code : Option ℤ) (success : Bool) (run : Run) (tasks : Tasks)
      → get task_id tasks.runs ≡ some run
      → run.waiter ≡ reaped exit_code success
      → Step tasks (release task_id exit_code success run tasks)

-- `LocalExecutor::default`.
unfoldable pub idle : Tasks
idle = record { executor = record { processes = [] }; runs = [] }

pub data Reachable : Tasks → Type 0 where
  begin : Reachable idle
  next : (tasks tasks' : Tasks) → Reachable tasks → Step tasks tasks' → Reachable tasks'

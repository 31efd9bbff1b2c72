-- ===== src/Executor/Tests.antt =====
-- Runs at concrete inputs: a task that writes a line and ends.
use multinode_controller.Base.{
  ◌≡◌, ◌≢◌, refl, true, [], ◌∷◌, some, bytes, Result, ok, err, insert, text_dec, length, ◌%◌, ◌^◌,
  ◌++◌, List, with_context, get, ℤ, pos, inl, ℕ,
}
use multinode_controller.Protocol.{DateTime, RunSpec, simple, stdout, TaskExited}
use multinode_controller.Policy.Launch.{command_for}
use multinode_controller.Executor.Events.{
  ExecutionEvent, started, ExecutionRequest, log_line, next_offset, emit, read_line,
}
use multinode_controller.Executor.Runs.{
  Signal, as_i32, kill, kill_process, set_reader, reader_of, new_reader, exit_result, task_exited,
  track, out_pipe, removed, Run, on_line, on_exit, report_exit, Tasks, release, new_channel,
  new_run, start, line, end_of_process, report, launch, act, reap, idle, Reachable, begin, next,
  finished,
}
use multinode_controller.Executor.Table.{IsTable, Reachable-IsTable}
use multinode_controller.Executor.Traces.{line_of, lines_in, lines_of, exits_of}
use multinode_controller.Executor.Numbering.{text_of}
use multinode_controller.Executor.Progress.{CanReport, verdict, report_on, report_exit-CanReport}
use multinode_controller.Executor.Naming.{IsAbout}
use multinode_controller.Executor.Reports.{start_of, position_of_line, exit-kill}
use multinode_controller.Worker.Connection.{Outbox, forward}
use multinode_controller.Samples.{busy, plain_formats}
use multinode_controller.Coordinator.State.{AppState}
use multinode_controller.Coordinator.Workers.{Received, worker_loop}
use multinode_controller.Coordinator.Sessions.{messages}
use multinode_controller.Lifecycle.{timed, IsRecorded, forward-IsRecorded}

abbrev spec : RunSpec
spec = simple (bytes "j") (bytes "t") (bytes "a") (bytes "ls" ∷ []) (bytes "/") []

abbrev request : ExecutionRequest
request = record { spec = spec; command = command_for spec (bytes "ls") [] }

abbrev no_such_group : ℤ → Signal → Result (Unit {0})
no_such_group pid signal = err (bytes "ESRCH")

abbrev no_exits : List TaskExited
no_exits = []

abbrev run0 : Run
run0 = new_run spec (some 42) 1 new_channel

abbrev run1 : Run
run1 = on_line out_pipe 2 (bytes "ab") run0

abbrev run2 : Run
run2 = on_line out_pipe 3 (bytes "c") run1

abbrev run3 : Run
run3 = on_exit (ok (some (pos 0), true)) run2

abbrev run4 : Run
run4 = record run3 { waiter = removed (some (pos 0)) true }

abbrev run5 : Run
run5 = report_exit 4 (some (pos 0)) true run4

abbrev tasks0 : Tasks
tasks0 = (start (ok (some 42)) 1 request new_channel idle).1

abbrev tasks1 : Tasks
tasks1 = record tasks0 { runs = insert (bytes "t") run1 tasks0.runs }

abbrev tasks2 : Tasks
tasks2 = record tasks1 { runs = insert (bytes "t") run2 tasks1.runs }

abbrev tasks3 : Tasks
tasks3 = record tasks2 { runs = insert (bytes "t") run3 tasks2.runs }

abbrev tasks4 : Tasks
tasks4 = release (bytes "t") (some (pos 0)) true run3 tasks3

abbrev tasks5 : Tasks
tasks5 = record tasks4 { runs = insert (bytes "t") run5 tasks4.runs }

reach2 : Reachable tasks2
unfolding start release insert get text_dec simple idle new_run on_line set_reader reader_of
    read_line new_reader new_channel emit bytes
reach2 =
    next tasks1 tasks2
      (next tasks0 tasks1 (next idle tasks0 begin (launch (ok (some 42)) 1 request idle refl))
        (act (bytes "t") run0 run1 tasks0 refl (line out_pipe 2 (bytes "ab") run0 refl)))
      (act (bytes "t") run1 run2 tasks1 refl (line out_pipe 3 (bytes "c") run1 refl))

reach5 : Reachable tasks5
unfolding start release insert get text_dec simple idle new_run on_line set_reader reader_of
    read_line new_reader new_channel emit on_exit exit_result report_exit bytes
reach5 =
    next tasks4 tasks5
      (next tasks3 tasks4
        (next tasks2 tasks3 reach2 (
          act (bytes "t") run2 run3 tasks2 refl
            (end_of_process (ok (some (pos 0), true)) run2 refl)))
        (reap (bytes "t") (some (pos 0)) true run3 tasks3 refl refl))
      (act (bytes "t") run4 run5 tasks4 refl (report 4 (some (pos 0)) true run4 refl))

Reachable-IsTable_example : IsTable tasks2
Reachable-IsTable_example = Reachable-IsTable tasks2 reach2

-- The second line stands after three bytes, "ab" and a line feed.
position_of_line_example :
    3 ≡ length (text_of (log_line spec stdout 2 (bytes "ab") 0 ∷ [])) % 2 ^ 64
unfolding start insert get text_dec simple idle new_run on_line set_reader reader_of read_line
    new_reader new_channel emit lines_of lines_in line_of log_line next_offset bytes
position_of_line_example =
    position_of_line tasks2 (bytes "t") run2 (log_line spec stdout 2 (bytes "ab") 0 ∷ [])
      (log_line spec stdout 3 (bytes "c") 3) [] reach2 refl (inl refl)

exits-ended : exits_of run5.events.sent ≡ task_exited spec 4 (some (pos 0)) true ∷ []
unfolding exits_of report_exit on_exit exit_result on_line set_reader reader_of read_line new_run
    new_reader new_channel emit simple
exits-ended = refl

exit-kill_example :
    ((now : DateTime) × ((later : List ExecutionEvent) × (run5.events.sent
          ≡ started (start_of run5.spec run5.pid now) ∷ later)))
    × (no_exits ≡ [])
    × (kill no_such_group (bytes "t") tasks5.executor
        ≡ err (bytes "task " ++ bytes "t" ++ bytes " is not running"))
unfolding start release insert get text_dec simple idle new_run bytes
exit-kill_example =
    exit-kill tasks5 (bytes "t") run5 (task_exited spec 4 (some (pos 0)) true) no_exits
      no_such_group reach5 refl exits-ended

run2-unfinished : run2.waiter ≢ finished
unfolding on_line set_reader reader_of read_line new_run
run2-unfinished e = absurd (cc e)

report_exit-CanReport_example : CanReport tasks2 (bytes "t") (report_on spec 4 (some (pos 0)) true)
unfolding start insert get text_dec simple idle new_run on_line set_reader reader_of read_line
    new_reader new_channel emit bytes exit_result verdict
report_exit-CanReport_example =
    report_exit-CanReport tasks2 (bytes "t") run2 (ok (some (pos 0), true)) 4 reach2 refl refl
      run2-unfinished

abbrev outbox : Outbox
outbox = record { messages = []; is_open = true }

abbrev clock : ℕ → DateTime
clock i = i

forward-IsRecorded_example :
    IsAbout run5.spec (task_exited spec 4 (some (pos 0)) true)
    × ((s' : AppState) × (IsRecorded (bytes "t") (task_exited spec 4 (some (pos 0)) true) s'
          × ((after : List Received)
              → worker_loop
                  (bytes "a")
                  clock
                  (messages (timed clock 0 (forward run5.events.sent outbox).messages) after)
                  busy
                ≡ worker_loop (bytes "a") clock after s')))
unfolding start release insert get text_dec simple idle new_run bytes
forward-IsRecorded_example =
    forward-IsRecorded tasks5 (bytes "t") run5 (task_exited spec 4 (some (pos 0)) true) no_exits
      outbox clock clock (bytes "a") busy reach5 refl exits-ended refl refl

-- The running task is signalled as a group; the ended one is not found.
kill-running :
    kill no_such_group (bytes "t") tasks2.executor
    ≡ err (bytes "failed to kill process group: ESRCH")
unfolding kill kill_process start track insert get text_dec simple idle with_context as_i32 bytes
kill-running = refl

-- ===== src/Executor/TraceSteps.antt =====
-- crates/executor/src/lib.rs: each step of a task keeps what its events say.
use multinode_controller.Base.{
  ℕ, ◌≤◌, ℤ, ◌≡◌, refl, subst, Bool, true, false, [], ◌∷◌, Option, none, Text, length, arith,
}
use multinode_controller.Protocol.{DateTime, RunSpec, LogStream, stdout, stderr}
use multinode_controller.Executor.Events.{log, exited, emit, log_line, read_line, end_of_stream}
use multinode_controller.Executor.Runs.{
  Waiter, waiting, terminating, reaped, removed, Run, Pipe, out_pipe, err_pipe, reader_of,
  set_reader, on_line, on_end, on_exit, exit_result, on_timeout, on_terminated, task_exited,
  report_exit, new_channel, new_reader, new_run, RunStep, line, end_of_pipe, hang_up,
  end_of_process, time_out, terminated, report,
}
use multinode_controller.Executor.Numbering.{Numbered}
use multinode_controller.Executor.Traces.{
  lines_in, line_of, lines_of, exits_of, exits_of-append, ExitsAt, IsNumbered, Opens, OpensWith,
  is_start, IsTrace, emit-keeps, IsNumbered-other, IsNumbered-own, emit-Opens, emit-ExitsAt,
}

-- Which of the two streams a line belongs to.
out_line :
    (spec : RunSpec) (now : DateTime) (text : Text) (offset : ℕ) (stream : LogStream)
    → stream ≡ stdout
    → (lines_in stderr (log (log_line spec stream now text offset)) ≡ [])
      × (lines_in stdout (log (log_line spec stdout now text offset))
          ≡ log_line spec stdout now text offset ∷ [])
unfolding lines_in line_of log_line
out_line spec now text offset stream e = (rw e refl, refl)

err_line :
    (spec : RunSpec) (now : DateTime) (text : Text) (offset : ℕ) (stream : LogStream)
    → stream ≡ stderr
    → (lines_in stdout (log (log_line spec stream now text offset)) ≡ [])
      × (lines_in stderr (log (log_line spec stderr now text offset))
          ≡ log_line spec stderr now text offset ∷ [])
unfolding lines_in line_of log_line
err_line spec now text offset stream e = (rw e refl, refl)

on_line-IsTrace :
    (pipe : Pipe) (now : DateTime) (text : Text) (run : Run)
    → (reader_of pipe run).is_reading ≡ true
    → IsTrace run
    → IsTrace (on_line pipe now text run)
unfolding on_line set_reader reader_of read_line Opens IsNumbered is_start
on_line-IsTrace out_pipe now text run reading trace =
    let r = run.stdout_reader in
    let event = log (log_line run.spec r.stream now text r.offset) in
    let (other, own) = out_line run.spec now text r.offset r.stream trace.out.0 in
    record {
      opens = (trace.opens.0, emit-Opens _ event run.events refl trace.opens.1);
      exits = emit-ExitsAt run.waiter _ run.events trace.exits;
      out = IsNumbered-own stdout run.spec now text r run.events own reading trace.out;
      errors = IsNumbered-other stderr run.stderr_reader run.events event other trace.errors;
    }
on_line-IsTrace err_pipe now text run reading trace =
    let r = run.stderr_reader in
    let event = log (log_line run.spec r.stream now text r.offset) in
    let (other, own) = err_line run.spec now text r.offset r.stream trace.errors.0 in
    record {
      opens = (trace.opens.0, emit-Opens _ event run.events refl trace.opens.1);
      exits = emit-ExitsAt run.waiter _ run.events trace.exits;
      out = IsNumbered-other stdout run.stdout_reader run.events event other trace.out;
      errors = IsNumbered-own stderr run.spec now text r run.events own reading trace.errors;
    }

on_end-IsTrace : (pipe : Pipe) (run : Run) → IsTrace run → IsTrace (on_end pipe run)
unfolding on_end set_reader reader_of end_of_stream Opens IsNumbered
on_end-IsTrace out_pipe run trace = record {
  opens = trace.opens;
  exits = trace.exits;
  out = (trace.out.0, (trace.out.1.0, trace.out.1.1, λ h. absurd (cc h)));
  errors = trace.errors;
}
on_end-IsTrace err_pipe run trace = record {
  opens = trace.opens;
  exits = trace.exits;
  out = trace.out;
  errors = (trace.errors.0, (trace.errors.1.0, trace.errors.1.1, λ h. absurd (cc h)));
}

-- A waiting task that moves on without an event.
pub moved-IsTrace :
    (waiter : Waiter) (run : Run)
    → ExitsAt waiter (exits_of run.events.sent)
    → IsTrace run
    → IsTrace (record run { waiter = waiter })
unfolding Opens
moved-IsTrace waiter run exits trace = record {
  opens = trace.opens;
  exits = exits;
  out = trace.out;
  errors = trace.errors;
}

pub exits_at :
    (run : Run) (waiter : Waiter)
    → run.waiter ≡ waiter
    → IsTrace run
    → ExitsAt waiter (exits_of run.events.sent)
exits_at run waiter e trace = subst (λ w. ExitsAt w (exits_of run.events.sent)) e trace.exits

on_timeout-IsTrace :
    (now : DateTime) (seconds : ℕ) (run : Run)
    → run.waiter ≡ waiting
    → IsTrace run
    → IsTrace (on_timeout now seconds run)
unfolding on_timeout is_start Opens lines_in line_of log_line ExitsAt
on_timeout-IsTrace now seconds run e trace = record {
  opens = (trace.opens.0, emit-Opens _ _ run.events refl trace.opens.1);
  exits = emit-ExitsAt terminating _ run.events (exits_at run waiting e trace);
  out = IsNumbered-other stdout run.stdout_reader run.events _ refl trace.out;
  errors = IsNumbered-other stderr run.stderr_reader run.events _ refl trace.errors;
}

report_exit-IsTrace :
    (now : DateTime) (exit_code : Option ℤ) (success : Bool) (run : Run)
    → run.waiter ≡ removed exit_code success
    → IsTrace run
    → IsTrace (report_exit now exit_code success run)
unfolding report_exit is_start Opens lines_in exits_of ExitsAt
report_exit-IsTrace now exit_code success run e trace =
    let event = exited (task_exited run.spec now exit_code success) in
    let none_yet : exits_of run.events.sent ≡ [] =
      exits_at run (removed exit_code success) e trace in
    record {
      opens = (trace.opens.0, emit-Opens _ event run.events refl trace.opens.1);
      exits =
          emit-keeps event run.events (λ sent. length (exits_of sent) ≤ 1)
            (rw none_yet (omega arith))
            (λ is_open. rw (exits_of-append run.events.sent event, none_yet) (omega arith));
      out = IsNumbered-other stdout run.stdout_reader run.events event refl trace.out;
      errors = IsNumbered-other stderr run.stderr_reader run.events event refl trace.errors;
    }

-- Every step of a run keeps its trace.
pub RunStep-IsTrace : (run run' : Run) → RunStep run run' → IsTrace run → IsTrace run'
unfolding Opens on_exit on_terminated ExitsAt
RunStep-IsTrace run run' (line pipe now text r reading) trace =
    on_line-IsTrace pipe now text run reading trace
RunStep-IsTrace run run' (end_of_pipe pipe r) trace = on_end-IsTrace pipe run trace
RunStep-IsTrace run run' (hang_up r) trace = record {
  opens = trace.opens;
  exits = trace.exits;
  out = trace.out;
  errors = trace.errors;
}
RunStep-IsTrace run run' (end_of_process status r e) trace =
    moved-IsTrace (reaped (exit_result status).0 (exit_result status).1) run
      (exits_at run waiting e trace) trace
RunStep-IsTrace run run' (time_out now seconds r e d) trace =
    on_timeout-IsTrace now seconds run e trace
RunStep-IsTrace run run' (terminated r e) trace =
    moved-IsTrace (reaped none false) run (exits_at run terminating e trace) trace
RunStep-IsTrace run run' (report now exit_code success r e) trace =
    report_exit-IsTrace now exit_code success run e trace

pub new_run-IsTrace :
    (spec : RunSpec) (pid : Option ℕ) (now : DateTime) → IsTrace (new_run spec pid now new_channel)
unfolding new_run new_channel new_reader emit Opens OpensWith ExitsAt exits_of IsNumbered lines_of
    lines_in Numbered
new_run-IsTrace spec pid now = record {
  opens = (now, ([], (refl, tt)));
  exits = refl;
  out = (refl, (0, refl, λ h. refl));
  errors = (refl, (0, refl, λ h. refl));
}

-- ===== src/Lifecycle.antt =====
-- crates/executor/src/lib.rs, crates/worker/src/main.rs and crates/coordinator/src/main.rs together:
-- a task from its events in the executor, by the worker's messages, to its row in the coordinator's
-- store.
use multinode_controller.Base.{
  ℕ, suc, ◌≡◌, refl, sym, ◌∙◌, ap, subst, true, false, List, [], ◌∷◌, ◌++◌, map, Option, none, some,
  get, All, text_dec, if_pos, bytes, if◌then◌else◌,
}
use multinode_controller.Protocol.{
  TaskId, NodeId, DateTime, LogLine, TaskExited, WorkerMessage, WireMessage,
}
use multinode_controller.Store.Tables.{Formats, TaskRow, JobStore, record_log_line}
use multinode_controller.Store.TaskTable.{find_task}
use multinode_controller.Store.TaskRows.{TaskEvent, apply, effect, subject, find-apply}
use multinode_controller.Coordinator.State.{AppState}
use multinode_controller.Coordinator.Workers.{
  on_message, on_log_line, on_task_exited, with_node, publish, Received, worker_loop,
}
use multinode_controller.Coordinator.Sessions.{messages}
use multinode_controller.Executor.Events.{ExecutionEvent, started, log, exited}
use multinode_controller.Executor.Runs.{Run, Tasks, Reachable, task_started}
use multinode_controller.Executor.Traces.{exits_of, is_start, Opens, OpensWith}
use multinode_controller.Executor.Naming.{IsAbout, Reachable-AllNamed}
use multinode_controller.Executor.Reports.{Reachable-Traced, waiter-ExitsAt}
use multinode_controller.Worker.Connection.{Outbox, worker_message, forward}
use multinode_controller.Worker.Answers.{forward-open}

module _ ⦃formats : Formats⦄ where
  -- The messages of a worker as the coordinator receives them, each at its time.
  unfoldable pub timed :
      (clock : ℕ → DateTime) → ℕ → List WorkerMessage → List (WireMessage × DateTime)
  timed clock i [] = []
  timed clock i (m ∷ ms) = (WireMessage.worker m, clock i) ∷ timed clock (suc i) ms

  -- The state that the messages of a worker lead to.
  unfoldable hear : (clock : ℕ → DateTime) → ℕ → List WorkerMessage → AppState → AppState
  hear clock i [] s = s
  hear clock i (m ∷ ms) s = hear clock (suc i) ms (on_message (WireMessage.worker m) (clock i) s)

  -- The row of the task says how it has ended.
  abbrev pub IsRecorded : TaskId → TaskExited → AppState → Type 0
  IsRecorded task_id x s =
      (row : TaskRow) × ((find_task task_id s.store.tasks ≡ some row)
        × (row.status ≡ (if x.success then bytes "succeeded" else bytes "failed"))
        × (row.exit_code ≡ x.exit_code))

  worker_loop-messages :
      (node_id : NodeId) (times : ℕ → DateTime) (after : List Received) (clock : ℕ → DateTime)
      (i : ℕ) (ms : List WorkerMessage) (s : AppState)
      → worker_loop node_id times (messages (timed clock i ms) after) s
        ≡ worker_loop node_id times after (hear clock i ms s)
  unfolding worker_loop timed hear
  worker_loop-messages node_id times after clock i [] s = refl
  worker_loop-messages node_id times after clock i (m ∷ ms) s =
      worker_loop-messages node_id times after clock (suc i) ms
        (on_message (WireMessage.worker m) (clock i) s)

  -- Lines change no row.
  log-tasks :
      (l : LogLine) (now : DateTime) (s : AppState)
      → (on_message (WireMessage.worker (worker_message (log l))) now s).store.tasks ≡ s.store.tasks
  unfolding on_message worker_message on_log_line publish record_log_line
  log-tasks l now s = refl

  exited-store :
      (x : TaskExited) (now : DateTime) (s : AppState)
      → (on_message (WireMessage.worker (worker_message (exited x))) now s).store
        ≡ apply (TaskEvent.exited x) s.store
  unfolding on_message worker_message on_task_exited publish with_node apply
  exited-store x now s = refl

  effect-exited :
      (x : TaskExited) (o : Option TaskRow)
      → ((effect (TaskEvent.exited x) o).status
          ≡ (if x.success then bytes "succeeded" else bytes "failed"))
        × ((effect (TaskEvent.exited x) o).exit_code ≡ x.exit_code)
  unfolding effect
  effect-exited x none = (refl, refl)
  effect-exited x (some row) = (refl, refl)

  exited-IsRecorded :
      (x : TaskExited) (now : DateTime) (s : AppState)
      → IsRecorded x.task_id x (on_message (WireMessage.worker (worker_message (exited x))) now s)
  unfolding subject
  exited-IsRecorded x now s =
      let row = effect (TaskEvent.exited x) (find_task x.task_id s.store.tasks) in
      (
        row,
        (
          ap (λ (t : JobStore). find_task x.task_id t.tasks) (exited-store x now s)
              ∙ find-apply (TaskEvent.exited x) x.task_id s.store
              ∙ if_pos (text_dec x.task_id x.task_id) refl _ _,
          (effect-exited x (find_task x.task_id s.store.tasks)).0,
          (effect-exited x (find_task x.task_id s.store.tasks)).1,
        ),
      )

  -- Nothing but lines follows an exit.
  lines-IsRecorded :
      (x : TaskExited) (clock : ℕ → DateTime) (i : ℕ) (events : List ExecutionEvent) (s : AppState)
      → All (λ e. is_start e ≡ false) events
      → exits_of events ≡ []
      → IsRecorded x.task_id x s
      → IsRecorded x.task_id x (hear clock i (map worker_message events) s)
  unfolding hear is_start exits_of
  lines-IsRecorded x clock i [] s later none_left recorded = recorded
  lines-IsRecorded x clock i (started e ∷ events) s later none_left recorded = absurd (cc later.0)
  lines-IsRecorded x clock i (log l ∷ events) s later none_left (row, (found, status, code)) =
      lines-IsRecorded x clock (suc i) events _ later.1 none_left
        (row, (ap (find_task x.task_id) (log-tasks l (clock i) s) ∙ found, status, code))
  lines-IsRecorded x clock i (exited y ∷ events) s later none_left recorded = absurd (cc none_left)

  events-IsRecorded :
      (x : TaskExited) (clock : ℕ → DateTime) (i : ℕ) (events : List ExecutionEvent) (s : AppState)
      → All (λ e. is_start e ≡ false) events
      → exits_of events ≡ x ∷ []
      → IsRecorded x.task_id x (hear clock i (map worker_message events) s)
  unfolding hear is_start exits_of
  events-IsRecorded x clock i [] s later one = absurd (cc one)
  events-IsRecorded x clock i (started e ∷ events) s later one = absurd (cc later.0)
  events-IsRecorded x clock i (log l ∷ events) s later one =
      events-IsRecorded x clock (suc i) events _ later.1 one
  events-IsRecorded x clock i (exited y ∷ events) s later one =
      let same : y ≡ x = cc one in
      let after = on_message (WireMessage.worker (worker_message (exited y))) (clock i) s in
      lines-IsRecorded x clock (suc i) events after later.1 (cc one)
        (subst (λ z. IsRecorded z.task_id z after) same (exited-IsRecorded y (clock i) s))

  forwarded-IsRecorded :
      (tasks : Tasks) (task_id : TaskId) (run : Run) (x : TaskExited) (rest : List TaskExited)
      (out : Outbox) (clock : ℕ → DateTime) (s : AppState)
      → Reachable tasks
      → get task_id tasks.runs ≡ some run
      → exits_of run.events.sent ≡ x ∷ rest
      → out.is_open ≡ true
      → out.messages ≡ []
      → IsRecorded x.task_id x (hear clock 0 (forward run.events.sent out).messages s)
  unfolding Opens OpensWith hear exits_of
  forwarded-IsRecorded tasks task_id run x rest out clock s reached found e is_open fresh =
      let trace = Reachable-Traced tasks reached task_id run found in
      let (first, (later, (split, no_starts))) = trace.opens in
      let (only, over) = waiter-ExitsAt run.waiter run.pid _ x rest trace.exits e in
      let begun = started (task_started run.spec run.pid first) in
      let one : exits_of later ≡ x ∷ [] = sym (ap exits_of split) ∙ e ∙ ap (◌∷◌ x) only in
      let sent : (forward run.events.sent out).messages ≡ map worker_message (begun ∷ later) =
        ap (λ (o : Outbox). o.messages) (forward-open run.events.sent out is_open)
        ∙ ap (λ ms. ms ++ map worker_message run.events.sent) fresh
        ∙ ap (map worker_message) split in
      subst (λ ms. IsRecorded x.task_id x (hear clock 0 ms s)) (sym sent)
        (events-IsRecorded x clock 1 later
          (on_message (WireMessage.worker (worker_message begun)) (clock 0) s) no_starts one)

  -- Once a task has reported its exit, and the worker could send all along, the report is about that
  -- task, under the names that it was started with, and the coordinator's loop over the worker's
  -- messages of the task gets to a state in which the row of the task says so, "succeeded" or
  -- "failed" as reported, with the exit code; the loop goes on from it with the messages that are
  -- still to come. This holds whatever state the coordinator was in before, and whatever lines the
  -- task has written after its exit.
  pub forward-IsRecorded :
      (tasks : Tasks) (task_id : TaskId) (run : Run) (x : TaskExited) (rest : List TaskExited)
      (out : Outbox) (clock times : ℕ → DateTime) (node_id : NodeId) (s : AppState)
      → Reachable tasks
      → get task_id tasks.runs ≡ some run
      → exits_of run.events.sent ≡ x ∷ rest
      → out.is_open ≡ true
      → out.messages ≡ []
      → IsAbout run.spec x
        × ((s' : AppState) × (IsRecorded task_id x s'
              × ((after : List Received)
                  → worker_loop node_id times
                      (messages (timed clock 0 (forward run.events.sent out).messages) after)
                      s
                    ≡ worker_loop node_id times after s')))
  unfolding IsAbout
  forward-IsRecorded tasks task_id run x rest out clock times node_id s reached found e is_open
        fresh =
      let sent = (forward run.events.sent out).messages in
      let (id, named) = Reachable-AllNamed tasks reached task_id run found in
      let about : IsAbout run.spec x = (subst (All (IsAbout run.spec)) e named).0 in
      let recorded =
        forwarded-IsRecorded tasks task_id run x rest out clock s reached found e is_open fresh in
      (
        about,
        (
          hear clock 0 sent s,
          (
            subst (λ k. IsRecorded k x (hear clock 0 sent s)) (about.1 ∙ id) recorded,
            λ after. worker_loop-messages node_id times after clock 0 sent s,
          ),
        ),
      )

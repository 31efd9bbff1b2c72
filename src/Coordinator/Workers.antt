-- ===== src/Coordinator/Workers.antt =====
-- crates/coordinator/src/main.rs: a worker's connection, from its registration to its end. What a
-- worker says is a list of `Received`; the clock is read as an argument.
use multinode_controller.Base.{
  ℕ, suc, false, List, [], ◌∷◌, ◌++◌, none, some, Text, bytes, get, insert, remove, modify,
}
use multinode_controller.Protocol.{
  JobId, TaskId, NodeId, DateTime, NodeInfo, NodeHeartbeat, TaskStarted, LogLine, LogStream,
  TaskExited, WorkerError, WorkerMessage, WireMessage,
}
use multinode_controller.Store.Tables.{
  Formats, upsert_node, record_task_started, record_log_line, record_task_exited,
}
use multinode_controller.Coordinator.State.{
  WorkerHandle, Sender, CoordinatorEvent, AppState, Outcome, ok, err,
}

-- `events.send`, whose failure is ignored.
unfoldable pub publish : CoordinatorEvent → AppState → AppState
publish event s = record s { events = s.events ++ event ∷ [] }

unfoldable pub with_node : NodeId → (WorkerHandle → WorkerHandle) → AppState → AppState
with_node node_id change s = record s { nodes = modify node_id change s.nodes }

unfoldable pub lost_line : NodeId → Text → DateTime → TaskId → JobId → LogLine
lost_line node_id reason now task_id job_id = record {
  job_id = job_id;
  task_id = task_id;
  node_id = node_id;
  stream = LogStream.system;
  timestamp = now;
  line = reason;
  offset = 0;
}

-- The exit that the coordinator reports for a task that its worker did not end.
unfoldable pub failed_exit : NodeId → DateTime → TaskId → JobId → TaskExited
failed_exit node_id now task_id job_id = record {
  job_id = job_id;
  task_id = task_id;
  node_id = node_id;
  exit_code = none;
  success = false;
  timestamp = now;
}

-- What `read_wire` gives: a message, or an error of the socket or of the parser. The end of the
-- list is the end of the connection.
pub data Received : Type 0 where
  message : WireMessage → DateTime → Received
  failure : Text → Received

module _ ⦃formats : Formats⦄ where
  -- Up to the worker's first further message.
  unfoldable pub register : NodeInfo → Sender → DateTime → AppState → AppState
  register info sender now s = record s {
    store = upsert_node info s.store;
    nodes =
        insert info.node_id
          (record { info = info; sender = sender; last_seen = now; running_tasks = [] }) s.nodes;
  }

  unfoldable pub on_heartbeat : NodeHeartbeat → AppState → AppState
  on_heartbeat beat s =
      with_node beat.node_id (λ node. record node { last_seen = beat.timestamp }) s

  unfoldable pub on_task_started : TaskStarted → AppState → AppState
  on_task_started event s =
      let recorded = record s { store = record_task_started event s.store } in
      let tracked =
        with_node event.node_id
          (λ node. record node {
            running_tasks = insert event.task_id event.job_id node.running_tasks;
          })
          recorded in
      publish (CoordinatorEvent.started event) tracked

  unfoldable pub on_log_line : LogLine → AppState → AppState
  on_log_line line s =
      publish (CoordinatorEvent.log line) (record s { store = record_log_line line s.store })

  unfoldable pub on_task_exited : TaskExited → AppState → AppState
  on_task_exited event s =
      let recorded = record s { store = record_task_exited event s.store } in
      let untracked =
        with_node event.node_id
          (λ node. record node { running_tasks = remove event.task_id node.running_tasks })
          recorded in
      publish (CoordinatorEvent.exited event) untracked

  -- The rest of `record_worker_error_exit` once the task was taken off the node.
  unfoldable pub fail_task : NodeId → TaskId → DateTime → JobId → AppState → AppState
  fail_task node_id task_id now job_id s =
      let event = failed_exit node_id now task_id job_id in
      publish (CoordinatorEvent.exited event)
        (record s { store = record_task_exited event s.store })

  unfoldable pub record_error_of : NodeId → TaskId → DateTime → AppState → AppState
  record_error_of node_id task_id now s = elim (get node_id s.nodes) [
    | none ↦ s
    | some node ↦
        let untracked =
          with_node node_id (λ n. record n { running_tasks = remove task_id n.running_tasks }) s in
        elim (get task_id node.running_tasks) [
          | none ↦ untracked
          | some job_id ↦ fail_task node_id task_id now job_id untracked
        ]
  ]

  unfoldable pub record_worker_error_exit : WorkerError → DateTime → AppState → AppState
  record_worker_error_exit error now s = elim error.node_id [
    | none ↦ s
    | some node_id ↦ elim error.task_id [
      | none ↦ s
      | some task_id ↦ record_error_of node_id task_id now s
    ]
  ]

  unfoldable pub on_error : WorkerError → DateTime → AppState → AppState
  on_error error now s =
      publish (CoordinatorEvent.error error) (record_worker_error_exit error now s)

  -- One round of the loop of `handle_worker`; what no arm matches is dropped.
  unfoldable pub on_message : WireMessage → DateTime → AppState → AppState
  on_message (WireMessage.worker (WorkerMessage.heartbeat beat)) now s = on_heartbeat beat s
  on_message (WireMessage.worker (WorkerMessage.task_started event)) now s = on_task_started event s
  on_message (WireMessage.worker (WorkerMessage.log_line line)) now s = on_log_line line s
  on_message (WireMessage.worker (WorkerMessage.task_exited event)) now s = on_task_exited event s
  on_message (WireMessage.worker (WorkerMessage.error error)) now s = on_error error now s
  on_message (WireMessage.worker (WorkerMessage.register info)) now s = s
  on_message (WireMessage.coordinator m) now s = s
  on_message (WireMessage.client_request request) now s = s
  on_message (WireMessage.client_response response) now s = s

  unfoldable pub lose_task : NodeId → Text → DateTime → TaskId × JobId → AppState → AppState
  lose_task node_id reason now (task_id, job_id) s =
      let line = lost_line node_id reason now task_id job_id in
      let logged =
        publish (CoordinatorEvent.log line) (record s { store = record_log_line line s.store }) in
      let event = failed_exit node_id now task_id job_id in
      publish (CoordinatorEvent.exited event)
        (record logged { store = record_task_exited event logged.store })

  -- The loop of `mark_node_lost`; `clock` gives the time of each round.
  unfoldable pub lose_tasks :
      NodeId → Text → (ℕ → DateTime) → ℕ → List (TaskId × JobId) → AppState → AppState
  lose_tasks node_id reason clock i [] s = s
  lose_tasks node_id reason clock i (t ∷ ts) s =
      lose_tasks node_id reason clock (suc i) ts (lose_task node_id reason (clock i) t s)

  unfoldable pub mark_node_lost : NodeId → Text → (ℕ → DateTime) → AppState → AppState
  mark_node_lost node_id reason clock s = elim (get node_id s.nodes) [
    | none ↦ s
    | some node ↦
        lose_tasks node_id reason clock 0 node.running_tasks
          (record s { nodes = remove node_id s.nodes })
  ]

  -- The loop of `handle_worker` and what follows it. An error leaves at once by `?`.
  unfoldable pub worker_loop :
      NodeId → (ℕ → DateTime) → List Received → AppState → Outcome (Unit {0}) × AppState
  worker_loop node_id clock [] s =
      (ok tt, mark_node_lost node_id (bytes "worker disconnected") clock s)
  worker_loop node_id clock (message wire now ∷ rest) s =
      worker_loop node_id clock rest (on_message wire now s)
  worker_loop node_id clock (failure e ∷ rest) s = (err e, s)

  -- `handle_worker`, for a worker that no other connection interferes with.
  unfoldable pub handle_worker :
      NodeInfo
      → Sender
      → DateTime
      → (ℕ → DateTime)
      → List Received
      → AppState
      → Outcome (Unit {0}) × AppState
  handle_worker info sender now clock received s =
      worker_loop info.node_id clock received (register info sender now s)

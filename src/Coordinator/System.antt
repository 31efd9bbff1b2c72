-- ===== src/Coordinator/System.antt =====
-- crates/coordinator/src/main.rs: the coordinator as a whole, a system whose steps are the client
-- requests that it serves, the messages of its workers and their coming and going, each with all
-- its writes at once. After its dispatch a run writes nothing but messages to workers, so that the
-- events it waits for may come of later steps.
use multinode_controller.Base.{
  ℕ, suc, ◌∷◌, remove, ◌≡◌, refl, Bool, List, [], none, some, Text, get, Option-cases, inl, inr,
}
use multinode_controller.Protocol.{
  JobId, LeaseId, TaskId, NodeId, DateTime, NodeInfo, ClientRequest, WireMessage, WorkerError,
  WorkerMessage,
}
use multinode_controller.Store.Tables.{Formats, JobStore, TaskRow}
use multinode_controller.Store.TaskTable.{find_task}
use multinode_controller.Coordinator.State.{Sender, AppState, Served}
use multinode_controller.Coordinator.Workers.{
  register, on_message, on_heartbeat, on_error, record_worker_error_exit, record_error_of,
  fail_task, publish, with_node, lose_task, lose_tasks, mark_node_lost, on_task_started,
  on_log_line, on_task_exited,
}
use multinode_controller.Coordinator.Tracking.{IsPending}
use multinode_controller.Coordinator.Losses.{
  IsAddressed, on_message-NoOrphans, mark_node_lost-NoOrphans, register-NoOrphans,
}
use multinode_controller.Coordinator.Runs.{Draws, Received}
use multinode_controller.Coordinator.Clients.{handle_client}
use multinode_controller.Coordinator.Soundness.{IsSound, handle_client-IsSound}

-- `main`, once the store is open.
unfoldable pub initial : JobStore → AppState
initial store = record { nodes = []; leases = []; events = []; store = store; sent = [] }

-- No task of the store is queued or running.
abbrev pub IsSettled : JobStore → Type 0
IsSettled store =
    (k : TaskId) (t : TaskRow) → find_task k store.tasks ≡ some t → ¬ IsPending t.status

module _ ⦃formats : Formats⦄ where
  pub data Step : AppState → AppState → Type 0 where
    serve :
        (request : ClientRequest) (draws : Draws) (lease_id : LeaseId) (now : DateTime)
        (is_open : Sender → Bool) (received : List Received) (c : Served)
        → Step c.app (handle_client request draws lease_id now is_open received c).1.app
    hear :
        (m : WireMessage) (now : DateTime) (s : AppState)
        → IsAddressed s m
        → Step s (on_message m now s)
    join :
        (info : NodeInfo) (sender : Sender) (now : DateTime) (s : AppState)
        → get info.node_id s.nodes ≡ none
        → Step s (register info sender now s)
    lose :
        (node_id : NodeId) (reason : Text) (clock : ℕ → DateTime) (s : AppState)
        → Step s (mark_node_lost node_id reason clock s)

  pub data Reachable : AppState → Type 0 where
    start : (store : JobStore) → IsSettled store → Reachable (initial store)
    next : (s s' : AppState) → Reachable s → Step s s' → Reachable s'

  record_error_of-leases :
      (node_id : NodeId) (task_id : TaskId) (now : DateTime) (s : AppState)
      → (record_error_of node_id task_id now s).leases ≡ s.leases
  unfolding record_error_of fail_task publish with_node
  record_error_of-leases node_id task_id now s = elim (Option-cases (get node_id s.nodes)) [
    | inl e ↦ rw (e, record_error_of) refl
    | inr (node, e) ↦ elim (Option-cases (get task_id node.running_tasks)) [
      | inl f ↦ rw (e, record_error_of) (rw f refl)
      | inr (job, f) ↦ rw (e, record_error_of) (rw f refl)
    ]
  ]

  record_worker_error_exit-leases :
      (error : WorkerError) (now : DateTime) (s : AppState)
      → (record_worker_error_exit error now s).leases ≡ s.leases
  unfolding record_worker_error_exit
  record_worker_error_exit-leases error now s = elim (Option-cases error.node_id) [
    | inl e ↦ rw (e, record_worker_error_exit) refl
    | inr (n, e) ↦ elim (Option-cases error.task_id) [
      | inl f ↦ rw (e, record_worker_error_exit) (rw f refl)
      | inr (t, f) ↦ rw (e, record_worker_error_exit) (rw f (record_error_of-leases n t now s))
    ]
  ]

  on_message-leases :
      (m : WireMessage) (now : DateTime) (s : AppState) → (on_message m now s).leases ≡ s.leases
  unfolding on_message on_heartbeat on_task_started on_log_line on_task_exited on_error publish
      with_node
  on_message-leases (WireMessage.worker (WorkerMessage.task_started event)) now s = refl
  on_message-leases (WireMessage.worker (WorkerMessage.register info)) now s = refl
  on_message-leases (WireMessage.worker (WorkerMessage.heartbeat beat)) now s = refl
  on_message-leases (WireMessage.worker (WorkerMessage.log_line line)) now s = refl
  on_message-leases (WireMessage.worker (WorkerMessage.task_exited event)) now s = refl
  on_message-leases (WireMessage.worker (WorkerMessage.error error)) now s =
      record_worker_error_exit-leases error now s
  on_message-leases (WireMessage.coordinator message) now s = refl
  on_message-leases (WireMessage.client_request request) now s = refl
  on_message-leases (WireMessage.client_response response) now s = refl

  lose_tasks-leases :
      (node_id : NodeId) (reason : Text) (clock : ℕ → DateTime) (i : ℕ) (ts : List (TaskId × JobId))
      (s : AppState)
      → (lose_tasks node_id reason clock i ts s).leases ≡ s.leases
  unfolding lose_tasks lose_task publish
  lose_tasks-leases node_id reason clock i [] s = refl
  lose_tasks-leases node_id reason clock i (t ∷ ts) s =
      lose_tasks-leases node_id reason clock (suc i) ts (lose_task node_id reason (clock i) t s)

  mark_node_lost-leases :
      (node_id : NodeId) (reason : Text) (clock : ℕ → DateTime) (s : AppState)
      → (mark_node_lost node_id reason clock s).leases ≡ s.leases
  unfolding mark_node_lost
  mark_node_lost-leases node_id reason clock s = elim (Option-cases (get node_id s.nodes)) [
    | inl e ↦ rw (e, mark_node_lost) refl
    | inr (node, e) ↦
        rw (e, mark_node_lost)
          (lose_tasks-leases node_id reason clock 0 node.running_tasks
            (record s { nodes = remove node_id s.nodes }))
  ]

  step-IsSound : (s s' : AppState) → Step s s' → IsSound s → IsSound s'
  unfolding register
  step-IsSound _ _ (serve request draws lease_id now is_open received c) h =
      handle_client-IsSound request draws lease_id now is_open received c h
  step-IsSound _ _ (hear m now s addressed) h = record {
    leases = rw (on_message-leases m now s) h.leases;
    tasks = on_message-NoOrphans m now s addressed h.tasks;
  }
  step-IsSound _ _ (join info sender now s free) h = record {
    leases = h.leases;
    tasks = register-NoOrphans info sender now s free h.tasks;
  }
  step-IsSound _ _ (lose node_id reason clock s) h = record {
    leases = rw (mark_node_lost-leases node_id reason clock s) h.leases;
    tasks = mark_node_lost-NoOrphans node_id reason clock s h.tasks;
  }

  -- From a store whose tasks have all ended, however client requests, messages that are addressed
  -- to connected nodes, registrations under free names and losses of workers follow each other, the
  -- table of leases is well formed and every queued or running task is on the list of a connected
  -- worker.
  pub Reachable-IsSound : (s : AppState) → Reachable s → IsSound s
  unfolding initial
  Reachable-IsSound _ (start store settled) = record {
    leases = record { compatible = tt; keyed = tt };
    tasks = λ k t found pending. absurd (settled k t found pending);
  }
  Reachable-IsSound s' (next s _ before step) = step-IsSound s s' step (Reachable-IsSound s before)

-- ===== src/Coordinator/Losses.antt =====
-- crates/coordinator/src/main.rs: a worker's messages and its end, and the tasks that they leave
-- queued or running.
use multinode_controller.Base.{
  ℕ, suc, ◌≡◌, ◌⊎◌, inl, inr, List, [], ◌∷◌, none, some, Text, text_dec, get, insert, remove,
  get-insert, get-remove, arith, Option-cases,
}
use multinode_controller.Protocol.{
  JobId, TaskId, NodeId, DateTime, NodeInfo, WorkerError, WorkerMessage, WireMessage,
}
use multinode_controller.Store.Tables.{Formats, TaskRow, upsert_node, record_log_line}
use multinode_controller.Store.TaskTable.{find_task}
use multinode_controller.Coordinator.State.{WorkerHandle, AppState, Sender}
use multinode_controller.Coordinator.Tracking.{
  IsPending, IsTracked, NoOrphans, after_exit, on_heartbeat-NoOrphans, on_log_line-NoOrphans,
  on_task_exited-NoOrphans, on_task_started-NoOrphans, record_error_of-NoOrphans,
}
use multinode_controller.Coordinator.Workers.{
  publish, lost_line, failed_exit, register, on_error, on_message, record_worker_error_exit,
  lose_task, lose_tasks, mark_node_lost,
}

-- What a message asks of the state: a task is said to start on a connected node.
abbrev pub IsAddressed : AppState → WireMessage → Type 0
IsAddressed s (WireMessage.worker (WorkerMessage.task_started event)) =
    (w : WorkerHandle) × (get event.node_id s.nodes ≡ some w)
IsAddressed s (WireMessage.worker (WorkerMessage.register info)) = Unit {0}
IsAddressed s (WireMessage.worker (WorkerMessage.heartbeat beat)) = Unit {0}
IsAddressed s (WireMessage.worker (WorkerMessage.log_line line)) = Unit {0}
IsAddressed s (WireMessage.worker (WorkerMessage.task_exited event)) = Unit {0}
IsAddressed s (WireMessage.worker (WorkerMessage.error error)) = Unit {0}
IsAddressed s (WireMessage.coordinator message) = Unit {0}
IsAddressed s (WireMessage.client_request request) = Unit {0}
IsAddressed s (WireMessage.client_response response) = Unit {0}

module _ ⦃formats : Formats⦄ where
  record_worker_error_exit-NoOrphans :
      (error : WorkerError) (now : DateTime) (s : AppState)
      → NoOrphans s
      → NoOrphans (record_worker_error_exit error now s)
  unfolding record_worker_error_exit
  record_worker_error_exit-NoOrphans error now s h = elim (Option-cases error.node_id) [
    | inl e ↦ rw (e, record_worker_error_exit) h
    | inr (n, e) ↦ elim (Option-cases error.task_id) [
      | inl f ↦ rw (e, record_worker_error_exit) (rw f h)
      | inr (t, f) ↦ rw (e, record_worker_error_exit) (rw f (record_error_of-NoOrphans n t now s h))
    ]
  ]

  -- No message of a worker leaves a queued or running task that is on no connected worker's list,
  -- if a task is only said to start on a connected node.
  pub on_message-NoOrphans :
      (m : WireMessage) (now : DateTime) (s : AppState)
      → IsAddressed s m
      → NoOrphans s
      → NoOrphans (on_message m now s)
  unfolding on_message on_error publish
  on_message-NoOrphans (WireMessage.worker (WorkerMessage.task_started event)) now s a h =
      on_task_started-NoOrphans event a.0 s a.1 h
  on_message-NoOrphans (WireMessage.worker (WorkerMessage.register info)) now s a h = h
  on_message-NoOrphans (WireMessage.worker (WorkerMessage.heartbeat beat)) now s a h =
      on_heartbeat-NoOrphans beat s h
  on_message-NoOrphans (WireMessage.worker (WorkerMessage.log_line line)) now s a h =
      on_log_line-NoOrphans line s h
  on_message-NoOrphans (WireMessage.worker (WorkerMessage.task_exited event)) now s a h =
      on_task_exited-NoOrphans event s h
  on_message-NoOrphans (WireMessage.worker (WorkerMessage.error error)) now s a h =
      record_worker_error_exit-NoOrphans error now s h
  on_message-NoOrphans (WireMessage.coordinator message) now s a h = h
  on_message-NoOrphans (WireMessage.client_request request) now s a h = h
  on_message-NoOrphans (WireMessage.client_response response) now s a h = h

  -- Every pending task is on a connected worker's list, or on the list of those still to fail.
  abbrev NoOrphansBut : List (TaskId × JobId) → AppState → Type 0
  NoOrphansBut ts s =
      (k : TaskId) (t : TaskRow)
      → find_task k s.store.tasks ≡ some t
      → IsPending t.status
      → IsTracked s k ⊎ ((j : JobId) × (get k ts ≡ some j))

  lose_task-NoOrphansBut :
      (node_id : NodeId) (reason : Text) (now : DateTime) (task_id : TaskId) (job_id : JobId)
      (ts : List (TaskId × JobId)) (s : AppState)
      → NoOrphansBut ((task_id, job_id) ∷ ts) s
      → NoOrphansBut ts (lose_task node_id reason now (task_id, job_id) s)
  unfolding lose_task publish failed_exit record_log_line get
  lose_task-NoOrphansBut node_id reason now task_id job_id ts s h k t found pending =
      let line = lost_line node_id reason now task_id job_id in
      let (other, before) =
        after_exit (failed_exit node_id now task_id job_id) (record_log_line line s.store) k t found
          pending in
      elim (h k t before pending) [ inl tracked ↦ inl tracked | inr (j, e) ↦ inr (j, ground arith) ]

  lose_tasks-NoOrphans :
      (node_id : NodeId) (reason : Text) (clock : ℕ → DateTime) (i : ℕ) (ts : List (TaskId × JobId))
      (s : AppState)
      → NoOrphansBut ts s
      → NoOrphans (lose_tasks node_id reason clock i ts s)
  unfolding lose_tasks get
  lose_tasks-NoOrphans node_id reason clock i [] s h = λ k t found pending.
      elim (h k t found pending) [ inl tracked ↦ tracked | inr (j, e) ↦ absurd (ground arith) ]
  lose_tasks-NoOrphans node_id reason clock i ((task_id, job_id) ∷ ts) s h =
      lose_tasks-NoOrphans node_id reason clock (suc i) ts
        (lose_task node_id reason (clock i) (task_id, job_id) s)
        (lose_task-NoOrphansBut node_id reason (clock i) task_id job_id ts s h)

  -- The end of a worker's connection leaves no queued or running task that is on no list.
  pub mark_node_lost-NoOrphans :
      (node_id : NodeId) (reason : Text) (clock : ℕ → DateTime) (s : AppState)
      → NoOrphans s
      → NoOrphans (mark_node_lost node_id reason clock s)
  unfolding mark_node_lost
  mark_node_lost-NoOrphans node_id reason clock s h = elim (Option-cases (get node_id s.nodes)) [
    | inl e ↦ rw (e, mark_node_lost) h
    | inr (node, e) ↦
        rw (e, mark_node_lost)
          (lose_tasks-NoOrphans node_id reason clock 0 node.running_tasks
            (record s { nodes = remove node_id s.nodes }) (handed_over node e))
  ]
    where
      handed_over :
          (node : WorkerHandle)
          → get node_id s.nodes ≡ some node
          → NoOrphansBut node.running_tasks (record s { nodes = remove node_id s.nodes })
      handed_over node e k t found pending =
          let (n, w, j, here, on) = h k t found pending in
          elim (text_dec node_id n) [
            | yes same ↦ inr (j, ground arith)
            | no other ↦ inl (n, w, j, ground (arith, get-remove node_id n s.nodes), on)
          ]

  -- A worker that registers under a free name keeps the invariant.
  pub register-NoOrphans :
      (info : NodeInfo) (sender : Sender) (now : DateTime) (s : AppState)
      → get info.node_id s.nodes ≡ none
      → NoOrphans s
      → NoOrphans (register info sender now s)
  unfolding register upsert_node
  register-NoOrphans info sender now s free h k t found pending =
      let (n, w, j, here, on) = h k t found pending in
      let fresh : WorkerHandle = record {
        info = info;
        sender = sender;
        last_seen = now;
        running_tasks = [];
      } in
      (n, w, j, ground (arith, get-insert info.node_id n fresh s.nodes), on)

  -- One that registers under a name in use empties the list there: a queued or running task that
  -- only the replaced worker had is then on no list, and stays queued or running in the store.
  pub register_orphans :
      (info : NodeInfo) (sender : Sender) (now : DateTime) (s : AppState) (k : TaskId) (t : TaskRow)
      → find_task k s.store.tasks ≡ some t
      → ((n : NodeId) (w : WorkerHandle) (j : JobId)
          → get n s.nodes ≡ some w
          → get k w.running_tasks ≡ some j
          → n ≡ info.node_id)
      → (find_task k (register info sender now s).store.tasks ≡ some t)
        × (¬ IsTracked (register info sender now s) k)
  unfolding register upsert_node get
  register_orphans info sender now s k t found only =
      (found, λ tracked. lost tracked.0 tracked.1 tracked.2 tracked.3 tracked.4)
    where
      fresh : WorkerHandle
      fresh = record { info = info; sender = sender; last_seen = now; running_tasks = [] }

      lost :
          (n : NodeId) (w : WorkerHandle) (j : JobId)
          → get n (insert info.node_id fresh s.nodes) ≡ some w
          → get k w.running_tasks ≡ some j
          → ⊥
      lost n w j here on = elim (text_dec info.node_id n) [
        | yes same ↦ ground (arith, get-insert info.node_id n fresh s.nodes)
        | no other ↦ ground (arith, get-insert info.node_id n fresh s.nodes, only n w j)
      ]

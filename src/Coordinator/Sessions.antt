-- ===== src/Coordinator/Sessions.antt =====
-- crates/coordinator/src/main.rs: a whole connection of a worker, ended by the peer or broken.
use multinode_controller.Base.{
  ℕ, suc, ◌≡◌, refl, List, [], ◌∷◌, none, some, Text, text_dec, get, remove, get-insert, get-remove,
  get-modify, arith, Option-cases, inl, inr,
}
use multinode_controller.Protocol.{
  JobId, TaskId, NodeId, DateTime, NodeInfo, WireMessage, WorkerMessage, WorkerError,
}
use multinode_controller.Store.Tables.{Formats}
use multinode_controller.Coordinator.State.{WorkerHandle, AppState, Sender, ok, err}
use multinode_controller.Coordinator.Workers.{
  publish, with_node, register, on_heartbeat, on_task_started, on_log_line, on_task_exited,
  fail_task, record_error_of, record_worker_error_exit, on_error, on_message, lose_task, lose_tasks,
  mark_node_lost, Received, message, failure, worker_loop, handle_worker,
}

abbrev IsRegistered : NodeId → AppState → Type 0
IsRegistered n s = (w : WorkerHandle) × (get n s.nodes ≡ some w)

abbrev pub messages : List (WireMessage × DateTime) → List Received → List Received
messages [] rest = rest
messages ((m, now) ∷ ms) rest = message m now ∷ messages ms rest

module _ ⦃formats : Formats⦄ where
  with_node-IsRegistered :
      (k n : NodeId) (f : WorkerHandle → WorkerHandle) (s : AppState)
      → IsRegistered n s
      → IsRegistered n (with_node k f s)
  unfolding with_node
  with_node-IsRegistered k n f s (w, e) = elim (text_dec k n) [
    | yes same ↦ (f w, ground (arith, get-modify k n f s.nodes))
    | no other ↦ (w, ground (arith, get-modify k n f s.nodes))
  ]

  record_error_of-IsRegistered :
      (node_id : NodeId) (task_id : TaskId) (now : DateTime) (n : NodeId) (s : AppState)
      → IsRegistered n s
      → IsRegistered n (record_error_of node_id task_id now s)
  unfolding record_error_of fail_task publish
  record_error_of-IsRegistered node_id task_id now n s h =
      elim (Option-cases (get node_id s.nodes)) [
        | inl e ↦ rw (e, record_error_of) h
        | inr (node, e) ↦ elim (Option-cases (get task_id node.running_tasks)) [
          | inl f ↦ rw (e, record_error_of) (rw f (with_node-IsRegistered node_id n _ s h))
          | inr (j, f) ↦ rw (e, record_error_of) (rw f (with_node-IsRegistered node_id n _ s h))
        ]
      ]

  on_error-IsRegistered :
      (error : WorkerError) (now : DateTime) (n : NodeId) (s : AppState)
      → IsRegistered n s
      → IsRegistered n (on_error error now s)
  unfolding on_error publish record_worker_error_exit
  on_error-IsRegistered error now n s h = elim (Option-cases error.node_id) [
    | inl e ↦ rw (e, record_worker_error_exit) h
    | inr (m, e) ↦ elim (Option-cases error.task_id) [
      | inl f ↦ rw (e, record_worker_error_exit) (rw f h)
      | inr (t, f) ↦
          rw (e, record_worker_error_exit) (rw f (record_error_of-IsRegistered m t now n s h))
    ]
  ]

  on_message-IsRegistered :
      (m : WireMessage) (now : DateTime) (n : NodeId) (s : AppState)
      → IsRegistered n s
      → IsRegistered n (on_message m now s)
  unfolding on_message on_heartbeat on_task_started on_log_line on_task_exited publish
  on_message-IsRegistered (WireMessage.worker (WorkerMessage.task_started event)) now n s h =
      with_node-IsRegistered event.node_id n _ _ h
  on_message-IsRegistered (WireMessage.worker (WorkerMessage.register info)) now n s h = h
  on_message-IsRegistered (WireMessage.worker (WorkerMessage.heartbeat beat)) now n s h =
      with_node-IsRegistered beat.node_id n _ s h
  on_message-IsRegistered (WireMessage.worker (WorkerMessage.log_line line)) now n s h = h
  on_message-IsRegistered (WireMessage.worker (WorkerMessage.task_exited event)) now n s h =
      with_node-IsRegistered event.node_id n _ _ h
  on_message-IsRegistered (WireMessage.worker (WorkerMessage.error error)) now n s h =
      on_error-IsRegistered error now n s h
  on_message-IsRegistered (WireMessage.coordinator m) now n s h = h
  on_message-IsRegistered (WireMessage.client_request r) now n s h = h
  on_message-IsRegistered (WireMessage.client_response r) now n s h = h

  lose_tasks-nodes :
      (node_id : NodeId) (reason : Text) (clock : ℕ → DateTime) (i : ℕ) (ts : List (TaskId × JobId))
      (s : AppState)
      → (lose_tasks node_id reason clock i ts s).nodes ≡ s.nodes
  unfolding lose_tasks lose_task publish
  lose_tasks-nodes node_id reason clock i [] s = refl
  lose_tasks-nodes node_id reason clock i ((t, j) ∷ ts) s =
      lose_tasks-nodes node_id reason clock (suc i) ts (lose_task node_id reason (clock i) (t, j) s)

  mark_node_lost-get :
      (node_id : NodeId) (reason : Text) (clock : ℕ → DateTime) (s : AppState)
      → get node_id (mark_node_lost node_id reason clock s).nodes ≡ none
  unfolding mark_node_lost
  mark_node_lost-get node_id reason clock s = elim (Option-cases (get node_id s.nodes)) [
    | inl e ↦ rw (e, mark_node_lost) e
    | inr (node, e) ↦
        rw (e, mark_node_lost)
          (rw
            (lose_tasks-nodes node_id reason clock 0 node.running_tasks
              (record s { nodes = remove node_id s.nodes }))
            (ground (arith, get-remove node_id node_id s.nodes)))
  ]

  loop_closed :
      (node_id : NodeId) (clock : ℕ → DateTime) (ms : List (WireMessage × DateTime)) (s : AppState)
      → ((worker_loop node_id clock (messages ms []) s).0 ≡ ok tt)
        × (get node_id (worker_loop node_id clock (messages ms []) s).1.nodes ≡ none)
  unfolding worker_loop
  loop_closed node_id clock [] s = (refl, mark_node_lost-get node_id _ clock s)
  loop_closed node_id clock ((m, now) ∷ ms) s = loop_closed node_id clock ms (on_message m now s)

  loop_broken :
      (node_id : NodeId) (clock : ℕ → DateTime) (ms : List (WireMessage × DateTime)) (e : Text)
      (rest : List Received) (s : AppState)
      → IsRegistered node_id s
      → ((worker_loop node_id clock (messages ms (failure e ∷ rest)) s).0 ≡ err e)
        × IsRegistered node_id (worker_loop node_id clock (messages ms (failure e ∷ rest)) s).1
  unfolding worker_loop
  loop_broken node_id clock [] e rest s h = (refl, h)
  loop_broken node_id clock ((m, now) ∷ ms) e rest s h =
      loop_broken node_id clock ms e rest (on_message m now s)
        (on_message-IsRegistered m now node_id s h)

  module _ (info : NodeInfo) (sender : Sender) (now : DateTime) (clock : ℕ → DateTime)
      (ms : List (WireMessage × DateTime)) (s : AppState) where
    -- When the peer closes the connection, whatever it said before, the handler ends well and the
    -- node is no longer registered.
    pub handle_worker_closed :
        let r = handle_worker info sender now clock (messages ms []) s in
        (r.0 ≡ ok tt) × (get info.node_id r.1.nodes ≡ none)
    unfolding handle_worker
    handle_worker_closed = loop_closed info.node_id clock ms (register info sender now s)

    -- When the connection breaks or a message does not parse, the handler ends with the error and
    -- the node stays registered: nothing marks it lost.
    pub handle_worker_broken :
        (e : Text) (rest : List Received)
        → let r = handle_worker info sender now clock (messages ms (failure e ∷ rest)) s in
          (r.0 ≡ err e) × ((w : WorkerHandle) × (get info.node_id r.1.nodes ≡ some w))
    unfolding handle_worker register
    handle_worker_broken e rest =
        loop_broken info.node_id clock ms e rest (register info sender now s) (
          record { info = info; sender = sender; last_seen = now; running_tasks = [] },
          ground (
            arith,
            get-insert info.node_id info.node_id
                (record { info = info; sender = sender; last_seen = now; running_tasks = [] })
                s.nodes,
          ),
        )

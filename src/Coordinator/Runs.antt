-- ===== src/Coordinator/Runs.antt =====
-- crates/coordinator/src/main.rs: `run_process`. Fresh identifiers and times are `Draws`; whether a
-- worker's channel still has its receiver is `is_open`; what the broadcast channel delivers after
-- the subscription is a list of `Received`.
use multinode_controller.Base.{
  ℕ, suc, Bool, true, false, not, if◌then◌else◌, List, [], ◌∷◌, ◌++◌, map, none, some, Text, bytes,
  eq_text, Map, get, insert, modify, keys, any, all, select, is_empty,
}
use multinode_controller.Protocol.{
  JobId, TaskId, NodeId, LeaseId, DateTime, RunSpec, simple, TaskSpec, TaskAssignment, TaskExited,
  CoordinatorMessage, RunProcessRequest, ClientResponse,
}
use multinode_controller.Store.Tables.{Formats, record_task_dispatched}
use multinode_controller.Coordinator.State.{
  WorkerHandle, LeaseRecord, Sender, CoordinatorEvent, AppState, ok, err, waiting, Handler, return,
  ◌>>=◌, ◌>>◌, send,
}
use multinode_controller.Coordinator.Leases.{contains}

pub record Draws : Type 0 where
  pub job_id : JobId
  pub task_id : ℕ → TaskId
  pub time : ℕ → DateTime

pub data Choice : Type 0 where
  chosen : List NodeId → Choice
  refused : Text → Choice

-- The nodes under a lease: all of it, or those named if the lease has them.
unfoldable pub within_lease : RunProcessRequest → LeaseId → LeaseRecord → Choice
within_lease request lease_id lease =
    if is_empty request.nodes
    then chosen lease.nodes
    else if any (λ n. not (contains lease.nodes n)) request.nodes
    then refused (bytes "run nodes must be a subset of lease " ++ lease_id)
    else chosen request.nodes

unfoldable pub leased_nodes : RunProcessRequest → Map LeaseRecord → Choice
leased_nodes request leases = elim request.lease_id [
  | none ↦ chosen request.nodes
  | some id ↦ elim (get id leases) [
    | none ↦ refused (bytes "lease " ++ (id ++ bytes " was not found"))
    | some lease ↦ within_lease request id lease
  ]
]

unfoldable pub or_all_nodes : Map WorkerHandle → List NodeId → List NodeId
or_all_nodes nodes selected = if is_empty selected then keys nodes else selected

-- `env.extend(node_env)`.
unfoldable pub extend : Map Text → Map Text → Map Text
extend env [] = env
extend env ((k, v) ∷ more) = extend (insert k v env) more

unfoldable pub run_env : RunProcessRequest → NodeId → Map Text
run_env request node_id = elim (get node_id request.node_env) [
  | none ↦ request.env
  | some node_env ↦ extend request.env node_env
]

unfoldable pub run_spec : RunProcessRequest → JobId → TaskId → NodeId → RunSpec
run_spec request job_id task_id node_id =
    record (simple job_id task_id node_id request.argv
      (elim request.cwd [ none ↦ bytes "." | some cwd ↦ cwd ]) (run_env request node_id)) {
        timeout = request.timeout;
      }

-- What the loop over the nodes has pushed.
pub record Dispatch : Type 0 where
  pub specs : List (Sender × TaskSpec)
  pub assignments : List TaskAssignment

unfoldable pub push : Sender × TaskSpec → TaskAssignment → Dispatch → Dispatch
push spec assignment d = record { specs = spec ∷ d.specs; assignments = assignment ∷ d.assignments }

-- `sender.send(StartTask(spec))` for each task.
unfoldable pub send_tasks : (Sender → Bool) → List (Sender × TaskSpec) → Handler (Unit {0})
send_tasks is_open [] c = (ok tt, c)
send_tasks is_open ((sender, spec) ∷ rest) c = elim (is_open sender) [
  | false ↦ (err (bytes "failed to dispatch task to worker"), c)
  | true ↦ send_tasks is_open rest (record c {
    app = record c.app { sent = c.app.sent ++ (sender, CoordinatorMessage.start_task spec) ∷ [] };
  })
]

-- What `subscription.recv()` gives: an event, or an error because the subscriber lags behind or
-- the channel is closed.
pub data Received : Type 0 where
  event : CoordinatorEvent → Received
  failure : Text → Received

-- `pending.remove(&task_id)`.
unfoldable pub without : TaskId → List TaskId → List TaskId
without task_id pending = select (λ k. not (eq_text k task_id)) pending

-- One round of the loop that waits; `next` is the rest of it.
unfoldable pub on_event :
    CoordinatorEvent
    → List TaskId
    → List TaskExited
    → (List TaskId → List TaskExited → Handler (List TaskExited))
    → Handler (List TaskExited)
on_event (CoordinatorEvent.started e) pending exits next =
    if contains pending e.task_id
    then send (ClientResponse.task_started e) >> next pending exits
    else next pending exits
on_event (CoordinatorEvent.log line) pending exits next =
    if contains pending line.task_id
    then send (ClientResponse.log_line line) >> next pending exits
    else next pending exits
on_event (CoordinatorEvent.exited e) pending exits next =
    if contains pending e.task_id
    then send (ClientResponse.task_exited e) >> next (without e.task_id pending) (exits ++ e ∷ [])
    else next pending exits
on_event (CoordinatorEvent.error e) pending exits next =
    send (ClientResponse.error e.message) >> next pending exits

unfoldable pub wait_loop : List Received → List TaskId → List TaskExited → Handler (List TaskExited)
wait_loop [] pending exits c = if is_empty pending then (ok exits, c) else (waiting, c)
wait_loop (event e ∷ rest) pending exits c = elim (is_empty pending) [
  | true ↦ (ok exits, c)
  | false ↦ on_event e pending exits (wait_loop rest) c
]
wait_loop (failure m ∷ rest) pending exits c =
    if is_empty pending then (ok exits, c) else (err m, c)

unfoldable pub finish : JobId → List TaskExited → Handler (Unit {0})
finish job_id exits = send (
    ClientResponse.job_finished
      (record { job_id = job_id; success = all (λ e. e.success) exits; exits = exits }))

-- From the test of `assignments` to the end.
unfoldable pub run_assigned :
    RunProcessRequest → JobId → (Sender → Bool) → List Received → Dispatch → Handler (Unit {0})
run_assigned request job_id is_open received d =
    if is_empty d.assignments
    then send (ClientResponse.error (bytes "no connected nodes matched the request"))
    else (send (ClientResponse.run_started (record { job_id = job_id; tasks = d.assignments }))
        >> (send_tasks is_open d.specs
            >> (if request.wait
                then (wait_loop received (map (λ a. a.task_id) d.assignments) [] >>= λ exits.
                    finish job_id exits)
                else send ClientResponse.ack)))

module _ ⦃formats : Formats⦄ where
  -- A node of the loop that is connected: its row is queued and the task is on its list.
  unfoldable pub assign : JobId → TaskId → NodeId → DateTime → AppState → AppState
  assign job_id task_id node_id now s = record s {
    store = record_task_dispatched job_id task_id node_id now s.store;
    nodes =
        modify node_id
          (λ node. record node { running_tasks = insert task_id job_id node.running_tasks })
          s.nodes;
  }

  -- The loop over the nodes; `i` counts the tasks made so far.
  unfoldable pub dispatch_loop : RunProcessRequest → Draws → ℕ → List NodeId → Handler Dispatch
  dispatch_loop request draws i [] c = (ok (record { specs = []; assignments = [] }), c)
  dispatch_loop request draws i (n ∷ ns) c = elim (get n c.app.nodes) [
    | none ↦
        (send (ClientResponse.error (bytes "node " ++ (n ++ bytes " is not connected")))
            >> dispatch_loop request draws i ns)
          c
    | some node ↦
        (dispatch_loop request draws (suc i) ns >>= λ d. return (
            push (node.sender, record { run = run_spec request draws.job_id (draws.task_id i) n })
              (record { job_id = draws.job_id; task_id = draws.task_id i; node_id = n }) d))
          (record c { app = assign draws.job_id (draws.task_id i) n (draws.time i) c.app })
  ]

  unfoldable pub run_process :
      RunProcessRequest → Draws → (Sender → Bool) → List Received → Handler (Unit {0})
  run_process request draws is_open received c =
      if is_empty request.argv
      then send (ClientResponse.error (bytes "run argv cannot be empty")) c
      else elim (leased_nodes request c.app.leases) [
        | refused message ↦ send (ClientResponse.error message) c
        | chosen selected ↦
            (dispatch_loop request draws 0 (or_all_nodes c.app.nodes selected)
                >>= run_assigned request draws.job_id is_open received)
              c
      ]

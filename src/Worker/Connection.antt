-- ===== src/Worker/Connection.antt =====
-- crates/worker/src/main.rs: `run_worker`, one connection to the coordinator, and the rest of
-- `start_task`, which forwards the events of a task. What goes out is written by a task of its own;
-- sending fails once that has ended.
use multinode_controller.Base.{
  ℕ, zero, suc, ℤ, Bool, true, List, [], ◌∷◌, ◌++◌, some, Text, if◌then◌else◌, Result, ok, err, try,
  bytes,
}
use multinode_controller.Protocol.{
  DateTime, TaskId, NodeId, RunSpec, TaskSpec, NodeInfo, WorkerMessage, start_task, kill_task, ping,
  update_policy, WireMessage,
}
use multinode_controller.Socket.{Incoming, fault, closing, frame}
use multinode_controller.Policy.Launch.{Launch, refused, failed, execute}
use multinode_controller.Executor.Events.{ExecutionEvent, started, log, exited}
use multinode_controller.Executor.Runs.{LocalExecutor, running_count, Signal, kill}

-- `out_tx` with the messages sent on it.
pub record Outbox : Type 0 where
  pub messages : List WorkerMessage
  pub is_open : Bool

unfoldable pub post : WorkerMessage → Outbox → Result (Unit {0}) × Outbox
post message out =
    if out.is_open
    then (ok tt, record out { messages = out.messages ++ message ∷ [] })
    else (err (bytes "channel closed"), out)

unfoldable pub heartbeat : NodeId → DateTime → LocalExecutor → WorkerMessage
heartbeat node_id now executor =
    WorkerMessage.heartbeat
      (record { node_id = node_id; timestamp = now; running_tasks = running_count executor })

-- The loop that sends heartbeats, for the times and the tables that it finds.
unfoldable pub heartbeats : NodeId → List (DateTime × LocalExecutor) → Outbox → Outbox
heartbeats node_id [] out = out
heartbeats node_id ((now, executor) ∷ rest) out =
    let later = heartbeats node_id rest (post (heartbeat node_id now executor) out).1 in
    if out.is_open then later else out

-- The task that writes what is sent: the texts written, the socket taking as many as `room`. A
-- message that does not serialize is left out.
unfoldable pub write_loop :
    (to_text : WireMessage → Result Text) (room : ℕ) → List WireMessage → List Text
write_loop to_text room [] = []
write_loop to_text zero (message ∷ rest) =
    let later = write_loop to_text zero rest in
    elim (to_text message) [ ok text ↦ [] | err e ↦ later ]
write_loop to_text (suc room) (message ∷ rest) =
    let later = write_loop to_text room rest in
    let skipped = write_loop to_text (suc room) rest in
    elim (to_text message) [ ok text ↦ text ∷ later | err e ↦ skipped ]

unfoldable pub task_error : NodeId → TaskId → Text → WorkerMessage
task_error node_id task_id message =
    WorkerMessage.error
      (record { node_id = some node_id; task_id = some task_id; message = message })

-- The event of a task as the coordinator hears it.
unfoldable pub worker_message : ExecutionEvent → WorkerMessage
worker_message (started event) = WorkerMessage.task_started event
worker_message (log line) = WorkerMessage.log_line line
worker_message (exited event) = WorkerMessage.task_exited event

-- The loop over the events, up to the first that cannot be sent.
unfoldable pub forward : List ExecutionEvent → Outbox → Outbox
forward [] out = out
forward (event ∷ events) out =
    let rest = forward events (post (worker_message event) out).1 in
    if out.is_open then rest else out

-- The task that `run_worker` spawns for a `StartTask`: what `start_task` came to, with the events
-- of the run or the error of the executor, and the report of an error.
unfoldable pub on_started :
    RunSpec → Result (List ExecutionEvent) → Outbox → Result (Unit {0}) × Outbox
on_started run (ok events) out = (ok tt, forward events out)
on_started run (err e) out = (err e, out)

unfoldable pub finish_launch :
    Launch → Result (List ExecutionEvent) → Outbox → Result (Unit {0}) × Outbox
finish_launch (refused error) events out = post (WorkerMessage.error error) out
finish_launch (failed e) events out = (err e, out)
finish_launch (execute run command) events out = on_started run events out

unfoldable pub report_error : RunSpec → Result (Unit {0}) × Outbox → Outbox
report_error run (ok done, out) = out
report_error run (err e, out) = (post (task_error run.node_id run.task_id e) out).1

unfoldable pub run_task : RunSpec → Launch → Result (List ExecutionEvent) → Outbox → Outbox
run_task run launch events out = report_error run (finish_launch launch events out)

-- The connection between two messages: the executor, what was sent, and the tasks spawned.
pub record Connection : Type 0 where
  pub executor : LocalExecutor
  pub out : Outbox
  pub spawned : List TaskSpec

unfoldable pub on_kill :
    NodeId → TaskId → Result (Unit {0}) → Connection → Result (Unit {0}) × Connection
on_kill node_id task_id (ok done) c = (ok tt, c)
on_kill node_id task_id (err e) c =
    let (sent, out) = post (task_error node_id task_id e) c.out in (sent, record c { out = out })

-- The operator `?` in the loop.
unfoldable pub go_on :
    Result (Unit {0}) → Connection → Result (Unit {0}) × Connection → Result (Unit {0}) × Connection
go_on (ok done) c later = later
go_on (err e) c later = (err e, c)

module _ (from_text : Text → Result WireMessage) (killpg : ℤ → Signal → Result (Unit {0})) where
  unfoldable pub on_wire : NodeId → WireMessage → Connection → Result (Unit {0}) × Connection
  on_wire node_id (WireMessage.coordinator (start_task spec)) c =
      (ok tt, record c { spawned = c.spawned ++ spec ∷ [] })
  on_wire node_id (WireMessage.coordinator (kill_task task_id)) c =
      on_kill node_id task_id (kill killpg task_id c.executor) c
  on_wire node_id (WireMessage.coordinator ping) c = (ok tt, c)
  on_wire node_id (WireMessage.coordinator (update_policy policy)) c = (ok tt, c)
  on_wire node_id (WireMessage.worker m) c = (ok tt, c)
  on_wire node_id (WireMessage.client_request m) c = (ok tt, c)
  on_wire node_id (WireMessage.client_response m) c = (ok tt, c)

  unfoldable pub on_parsed :
      NodeId → Result WireMessage → Connection → Result (Unit {0}) × Connection
  on_parsed node_id (ok wire) c = on_wire node_id wire c
  on_parsed node_id (err e) c = (err e, c)

  -- The loop over the messages; the executor's table at each of them is given, since it changes
  -- as tasks start and end.
  unfoldable pub message_loop :
      NodeId → List (LocalExecutor × Incoming Text) → Connection → Result (Unit {0}) × Connection
  message_loop node_id [] c = (ok tt, c)
  message_loop node_id ((executor, fault e) ∷ rest) c = (err e, c)
  message_loop node_id ((executor, closing) ∷ rest) c = (ok tt, c)
  message_loop node_id ((executor, frame text) ∷ rest) c =
      let (result, c') =
        on_parsed node_id (try text from_text) (record c { executor = executor }) in
      let later = message_loop node_id rest c' in go_on result c' later

-- `run_worker` once it is connected.
unfoldable pub connected : NodeInfo → Connection
connected node = record {
  executor = record { processes = [] };
  out = record { messages = WorkerMessage.register node ∷ []; is_open = true };
  spawned = [];
}

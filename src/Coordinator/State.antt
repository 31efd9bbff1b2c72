-- ===== src/Coordinator/State.antt =====
-- crates/coordinator/src/main.rs: the shared state, and a handler as a function of it and of the
-- client's sink. A handler is taken as one step, though the source holds the state's lock for
-- parts of it only.
use multinode_controller.Base.{ℕ, zero, suc, Bool, List, [], ◌∷◌, ◌++◌, Option, Text, bytes, Map}
use multinode_controller.Protocol.{
  JobId, NodeId, LeaseId, DateTime, NodeInfo, TaskStarted, LogLine, TaskExited, WorkerError,
  CoordinatorMessage, LeaseSummary, ClientResponse,
}
use multinode_controller.Store.Tables.{JobStore}

-- `mpsc::Sender<CoordinatorMessage>`: the number of the channel that it feeds.
abbrev pub Sender : Type 0
Sender = ℕ

pub record WorkerHandle : Type 0 where
  pub info : NodeInfo
  pub sender : Sender
  pub last_seen : DateTime
  pub running_tasks : Map JobId

pub record LeaseRecord : Type 0 where
  pub lease_id : LeaseId
  pub nodes : List NodeId
  pub gpus_per_node : Option ℕ
  pub exclusive : Bool
  pub created_at : DateTime

unfoldable pub summary : LeaseRecord → LeaseSummary
summary l = record {
  lease_id = l.lease_id;
  nodes = l.nodes;
  gpus_per_node = l.gpus_per_node;
  exclusive = l.exclusive;
  created_at = l.created_at;
}

pub data CoordinatorEvent : Type 0 where
  started : TaskStarted → CoordinatorEvent
  log : LogLine → CoordinatorEvent
  exited : TaskExited → CoordinatorEvent
  error : WorkerError → CoordinatorEvent

-- `AppState` with the `CoordinatorState` behind its lock. `events` is what the broadcast channel
-- was given, oldest first, and `sent` what the workers' channels were.
pub record AppState : Type 0 where
  pub nodes : Map WorkerHandle
  pub leases : Map LeaseRecord
  pub events : List CoordinatorEvent
  pub store : JobStore
  pub sent : List (Sender × CoordinatorMessage)

-- The client's side of a connection: the responses written so far, and how many more the socket
-- takes before it fails.
pub record ClientSink : Type 0 where
  pub written : List ClientResponse
  pub room : ℕ

pub record Served : Type 0 where
  pub app : AppState
  pub sink : ClientSink

-- How a handler ends: with a value, with an error that closes the connection, or not yet, since
-- it still waits for an event.
pub data Outcome {ℓ} (A : Type ℓ) : Type ℓ where
  ok : A → Outcome A
  err : Text → Outcome A
  waiting : Outcome A

abbrev pub Handler : Type 0 → Type 0
Handler A = Served → Outcome A × Served

abbrev pub bind_outcome : {A B : Type 0} → Outcome A → Served → (A → Handler B) → Outcome B × Served
bind_outcome (ok a) c f = f a c
bind_outcome (err e) c f = (err e, c)
bind_outcome waiting c f = (waiting, c)

infixl 5 ◌>>=◌ ◌>>◌
abbrev pub ◌>>=◌ : {A B : Type 0} → Handler A → (A → Handler B) → Handler B
◌>>=◌ m f c = bind_outcome (m c).0 (m c).1 f

abbrev pub ◌>>◌ : {B : Type 0} → Handler (Unit {0}) → Handler B → Handler B
m >> k = m >>= λ _. k

abbrev pub return : {A : Type 0} → A → Handler A
return a c = (ok a, c)

unfoldable pub write : ClientResponse → ℕ → Served → Outcome (Unit {0}) × Served
write response zero c = (err (bytes "the connection is closed"), c)
write response (suc n) c =
    (ok tt, record c { sink = record { written = c.sink.written ++ response ∷ []; room = n } })

-- `send_wire(sink, WireMessage::ClientResponse(response))`.
unfoldable pub send : ClientResponse → Handler (Unit {0})
unfolding write
send response c = write response c.sink.room c

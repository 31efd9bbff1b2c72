-- ===== src/Protocol/Events.antt =====
-- crates/protocol/src/lib.rs, from `NodeInfo` to `WorkerError`: nodes, tasks and their events.
use multinode_controller.Base.{ℕ, ℤ, Bool, List, [], Option, Text, bytes}
use multinode_controller.Protocol.Spec.{JobId, TaskId, NodeId, DateTime, RunSpec}

pub record NodeInfo : Type 0 where
  pub node_id : NodeId
  pub node_name : Text
  pub hostname : Text
  pub os : Text
  pub arch : Text
  pub labels : List Text
  pub started_at : DateTime

-- `NodeInfo::new`; the platform's constants and the clock are arguments.
unfoldable pub new_node_info : (os arch : Text) (now : DateTime) → Text → Text → NodeInfo
new_node_info os arch now node_name hostname = record {
  node_id = node_name;
  node_name = node_name;
  hostname = hostname;
  os = os;
  arch = arch;
  labels = [];
  started_at = now;
}

pub record NodeHeartbeat : Type 0 where
  pub node_id : NodeId
  pub timestamp : DateTime
  pub running_tasks : ℕ

pub record NodeSummary : Type 0 where
  pub node_id : NodeId
  pub node_name : Text
  pub hostname : Text
  pub online : Bool
  pub last_seen : DateTime
  pub running_tasks : ℕ
  pub labels : List Text

pub record TaskSpec : Type 0 where
  pub run : RunSpec

pub record TaskAssignment : Type 0 where
  pub job_id : JobId
  pub task_id : TaskId
  pub node_id : NodeId

pub record TaskSummary : Type 0 where
  pub job_id : JobId
  pub task_id : TaskId
  pub node_id : NodeId
  pub status : Text
  pub created_at : Option DateTime
  pub started_at : Option DateTime
  pub exited_at : Option DateTime
  pub exit_code : Option ℤ

pub record JobSummary : Type 0 where
  pub job_id : JobId
  pub status : Text
  pub created_at : Option DateTime
  pub updated_at : Option DateTime
  pub tasks : List TaskSummary

pub record TaskStarted : Type 0 where
  pub job_id : JobId
  pub task_id : TaskId
  pub node_id : NodeId
  pub pid : Option ℕ
  pub timestamp : DateTime

pub data LogStream : Type 0 where
  stdout stderr system : LogStream

-- `Display for LogStream`.
unfoldable pub stream_text : LogStream → Text
stream_text stdout = bytes "stdout"
stream_text stderr = bytes "stderr"
stream_text system = bytes "system"

pub record LogLine : Type 0 where
  pub job_id : JobId
  pub task_id : TaskId
  pub node_id : NodeId
  pub stream : LogStream
  pub timestamp : DateTime
  pub line : Text
  pub offset : ℕ

pub record TaskExited : Type 0 where
  pub job_id : JobId
  pub task_id : TaskId
  pub node_id : NodeId
  pub exit_code : Option ℤ
  pub success : Bool
  pub timestamp : DateTime

pub record WorkerError : Type 0 where
  pub node_id : Option NodeId
  pub task_id : Option TaskId
  pub message : Text

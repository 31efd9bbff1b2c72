-- ===== src/Protocol/Messages.antt =====
-- crates/protocol/src/lib.rs, from `WorkerMessage` on: the messages, the requests and the
-- responses. `Json` stands for `serde_json::Value`, which nothing looks into.
use multinode_controller.Base.{ℕ, Bool, List, Option, Text, Map}
use multinode_controller.Protocol.Spec.{
  JobId, TaskId, NodeId, LeaseId, DateTime, FilePath, DurationSpec,
}
use multinode_controller.Protocol.Events.{
  NodeInfo, NodeHeartbeat, NodeSummary, TaskSpec, TaskAssignment, TaskSummary, JobSummary,
  TaskStarted, LogLine, TaskExited, WorkerError,
}

pub data WorkerMessage : Type 0 where
  register : NodeInfo → WorkerMessage
  heartbeat : NodeHeartbeat → WorkerMessage
  task_started : TaskStarted → WorkerMessage
  log_line : LogLine → WorkerMessage
  task_exited : TaskExited → WorkerMessage
  error : WorkerError → WorkerMessage

abbrev pub Json : Type 0
Json = Text

pub data CoordinatorMessage : Type 0 where
  start_task : TaskSpec → CoordinatorMessage
  kill_task : TaskId → CoordinatorMessage
  ping : CoordinatorMessage
  update_policy : Json → CoordinatorMessage

pub record RunProcessRequest : Type 0 where
  pub nodes : List NodeId
  pub argv : List Text
  pub cwd : Option FilePath
  pub env : Map Text
  pub node_env : Map (Map Text)
  pub lease_id : Option LeaseId
  pub timeout : Option DurationSpec
  pub wait : Bool

pub record ListJobsRequest : Type 0 where
  pub limit : ℕ

pub record TailJobRequest : Type 0 where
  pub job_id : JobId
  pub lines : ℕ

pub record KillJobRequest : Type 0 where
  pub job_id : JobId

pub record JobStatusRequest : Type 0 where
  pub job_id : JobId

pub record CreateLeaseRequest : Type 0 where
  pub nodes : List NodeId
  pub count : Option ℕ
  pub gpus_per_node : Option ℕ
  pub exclusive : Bool

pub record ReleaseLeaseRequest : Type 0 where
  pub lease_id : LeaseId

pub record DiagnoseJobRequest : Type 0 where
  pub job_id : JobId
  pub lines : ℕ

pub record LeaseSummary : Type 0 where
  pub lease_id : LeaseId
  pub nodes : List NodeId
  pub gpus_per_node : Option ℕ
  pub exclusive : Bool
  pub created_at : DateTime

pub record JobDiagnosis : Type 0 where
  pub job_id : JobId
  pub status : Text
  pub summary : Text
  pub hints : List Text
  pub recent_errors : List LogLine
  pub tasks : List TaskSummary

pub record RunStarted : Type 0 where
  pub job_id : JobId
  pub tasks : List TaskAssignment

pub record JobFinished : Type 0 where
  pub job_id : JobId
  pub success : Bool
  pub exits : List TaskExited

pub data ClientRequest : Type 0 where
  list_nodes : ClientRequest
  run_process : RunProcessRequest → ClientRequest
  list_jobs : ListJobsRequest → ClientRequest
  tail_job : TailJobRequest → ClientRequest
  kill_job : KillJobRequest → ClientRequest
  job_status : JobStatusRequest → ClientRequest
  create_lease : CreateLeaseRequest → ClientRequest
  list_leases : ClientRequest
  release_lease : ReleaseLeaseRequest → ClientRequest
  diagnose_job : DiagnoseJobRequest → ClientRequest

pub data ClientResponse : Type 0 where
  nodes : List NodeSummary → ClientResponse
  jobs : List JobSummary → ClientResponse
  job : JobSummary → ClientResponse
  logs : List LogLine → ClientResponse
  leases : List LeaseSummary → ClientResponse
  lease_created : LeaseSummary → ClientResponse
  job_diagnosis : JobDiagnosis → ClientResponse
  run_started : RunStarted → ClientResponse
  task_started : TaskStarted → ClientResponse
  log_line : LogLine → ClientResponse
  task_exited : TaskExited → ClientResponse
  job_finished : JobFinished → ClientResponse
  error : Text → ClientResponse
  ack : ClientResponse

pub data WireMessage : Type 0 where
  worker : WorkerMessage → WireMessage
  coordinator : CoordinatorMessage → WireMessage
  client_request : ClientRequest → WireMessage
  client_response : ClientResponse → WireMessage

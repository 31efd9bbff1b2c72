-- ===== src/Protocol/Spec.antt =====
-- crates/protocol/src/lib.rs, up to `OperationContext`: what a task is to run, what the policy is
-- asked and what it answers.
use multinode_controller.Base.{
  ℕ, ◌*◌, Bool, true, false, List, [], ◌++◌, Option, none, some, Text, bytes, Map,
}

abbrev pub JobId : Type 0
JobId = Text

abbrev pub TaskId : Type 0
TaskId = Text

abbrev pub NodeId : Type 0
NodeId = Text

abbrev pub LeaseId : Type 0
LeaseId = Text

abbrev pub FilePath : Type 0
FilePath = Text

-- `new` of an identifier: its prefix and the digits of a random UUID.
unfoldable pub new_id : Text → Text → Text
new_id prefix uuid = prefix ++ (bytes "_" ++ uuid)

unfoldable pub new_job_id : Text → JobId
new_job_id = new_id (bytes "job")

unfoldable pub new_task_id : Text → TaskId
new_task_id = new_id (bytes "task")

unfoldable pub new_node_id : Text → NodeId
new_node_id = new_id (bytes "node")

unfoldable pub new_lease_id : Text → LeaseId
new_lease_id = new_id (bytes "lease")

-- An instant of UTC.
abbrev pub DateTime : Type 0
DateTime = ℕ

pub record DurationSpec : Type 0 where
  pub seconds : ℕ

-- `From<Duration>`: a duration is its whole seconds and its nanoseconds beyond them.
unfoldable pub from_duration : ℕ × ℕ → DurationSpec
from_duration (seconds, nanoseconds) = record { seconds = seconds }

-- `cpu_cores` is the bit pattern of an f32 that nothing computes with.
pub record ResourceSpec : Type 0 where
  pub cpu_cores : Option ℕ
  pub memory_mb : Option ℕ
  pub gpu_count : Option ℕ

pub record FilesystemSpec : Type 0 where
  pub workspace : Option FilePath
  pub read_paths : List FilePath
  pub write_paths : List FilePath

pub data NetworkMode : Type 0 where
  allow deny allow_list : NetworkMode

pub record NetworkSpec : Type 0 where
  pub mode : NetworkMode
  pub allowed : List Text

pub record DeviceSpec : Type 0 where
  pub gpu : Bool
  pub infiniband : Bool

pub record SandboxRequest : Type 0 where
  pub profile : Text

pub record SecretRef : Type 0 where
  pub name : Text

pub record LogPolicy : Type 0 where
  pub redact_secrets : Bool
  pub max_line_bytes : ℕ

pub record RunSpec : Type 0 where
  pub job_id : JobId
  pub task_id : TaskId
  pub node_id : NodeId
  pub argv : List Text
  pub cwd : FilePath
  pub env : Map Text
  pub timeout : Option DurationSpec
  pub resources : ResourceSpec
  pub filesystem : FilesystemSpec
  pub network : NetworkSpec
  pub devices : DeviceSpec
  pub sandbox : SandboxRequest
  pub secrets : List SecretRef
  pub log_policy : LogPolicy

abbrev pub default_resources : ResourceSpec
default_resources = record { cpu_cores = none; memory_mb = none; gpu_count = none }

abbrev pub default_filesystem : FilesystemSpec
default_filesystem = record { workspace = none; read_paths = []; write_paths = [] }

abbrev pub default_network : NetworkSpec
default_network = record { mode = allow; allowed = [] }

abbrev pub default_devices : DeviceSpec
default_devices = record { gpu = true; infiniband = true }

-- `SandboxRequest::none`.
abbrev pub no_sandbox : SandboxRequest
no_sandbox = record { profile = bytes "none" }

abbrev pub default_log_policy : LogPolicy
default_log_policy = record { redact_secrets = true; max_line_bytes = 16 * 1024 }

-- `RunSpec::simple`.
unfoldable pub simple : JobId → TaskId → NodeId → List Text → FilePath → Map Text → RunSpec
simple job_id task_id node_id argv cwd env = record {
  job_id = job_id;
  task_id = task_id;
  node_id = node_id;
  argv = argv;
  cwd = cwd;
  env = env;
  timeout = none;
  resources = default_resources;
  filesystem = default_filesystem;
  network = default_network;
  devices = default_devices;
  sandbox = no_sandbox;
  secrets = [];
  log_policy = default_log_policy;
}

pub data DecisionKind : Type 0 where
  allow ask deny : DecisionKind

pub data RiskLevel : Type 0 where
  low medium high : RiskLevel

pub record PolicyDecision : Type 0 where
  pub decision : DecisionKind
  pub reason : Text
  pub risk : RiskLevel
  pub sandbox_profile : Option Text
  pub requires_human_approval : Bool
  pub warnings : List Text

abbrev pub allow_all : PolicyDecision
allow_all = record {
  decision = DecisionKind.allow;
  reason = bytes "allow_all mode";
  risk = medium;
  sandbox_profile = some (bytes "none");
  requires_human_approval = false;
  warnings = [];
}

pub record Subject : Type 0 where
  pub subject_type : Text
  pub name : Text
  pub session_id : Option Text

pub record Resource : Type 0 where
  pub node_id : NodeId
  pub argv : List Text
  pub cwd : FilePath

pub record Scope : Type 0 where
  pub workspace : Option FilePath

pub record OperationContext : Type 0 where
  pub requested_by : Text
  pub job_id : JobId
  pub task_id : TaskId

pub record OperationRequest : Type 0 where
  pub subject : Subject
  pub action : Text
  pub resource : Resource
  pub scope : Scope
  pub context : OperationContext

unfoldable pub process_start : RunSpec → Text → OperationRequest
process_start spec requested_by = record {
  subject = record { subject_type = bytes "agent"; name = requested_by; session_id = none };
  action = bytes "process.start";
  resource = record { node_id = spec.node_id; argv = spec.argv; cwd = spec.cwd };
  scope = record { workspace = spec.filesystem.workspace };
  context = record { requested_by = bytes "worker"; job_id = spec.job_id; task_id = spec.task_id };
}

-- ===== src/Samples.antt =====
-- Concrete inputs for the tests: a stand-in for the formats that holds a timestamp as one code, a
-- worker, its messages and a state with a running task.
use multinode_controller.Base.{refl, true, false, [], ◌∷◌, Option, none, some, Text, bytes}
use multinode_controller.Protocol.{DateTime, NodeInfo, TaskStarted, LogLine, LogStream, TaskExited}
use multinode_controller.Store.Tables.{Formats, TaskRow, JobStore, empty_store}
use multinode_controller.Coordinator.State.{WorkerHandle, LeaseRecord, AppState, Served}

abbrev pub read_code : Text → Option DateTime
read_code [] = none
read_code (t ∷ rest) = some t

instance abbrev pub plain_formats : Formats
plain_formats = record {
  to_rfc3339 = λ t. t ∷ [];
  parse_from_rfc3339 = read_code;
  node_to_json = λ n. n.node_name;
  parse-to_rfc3339 = λ t. refl;
}

abbrev pub info : NodeInfo
info = record {
  node_id = bytes "a";
  node_name = bytes "a";
  hostname = bytes "host-a";
  os = bytes "linux";
  arch = bytes "x86_64";
  labels = [];
  started_at = 1;
}

abbrev pub line : LogLine
line = record {
  job_id = bytes "j";
  task_id = bytes "t";
  node_id = bytes "a";
  stream = LogStream.stderr;
  timestamp = 3;
  line = bytes "no space left";
  offset = 7;
}

abbrev pub start_event : TaskStarted
start_event = record {
  job_id = bytes "j";
  task_id = bytes "t";
  node_id = bytes "a";
  pid = some 42;
  timestamp = 2;
}

abbrev pub exit_event : TaskExited
exit_event = record {
  job_id = bytes "j";
  task_id = bytes "t";
  node_id = bytes "a";
  exit_code = none;
  success = true;
  timestamp = 9;
}

abbrev pub running_row : TaskRow
running_row = record {
  task_id = bytes "t";
  job_id = bytes "j";
  node_id = bytes "a";
  status = bytes "running";
  created_at = some (1 ∷ []);
  started_at = some (2 ∷ []);
  exited_at = none;
  exit_code = none;
}

abbrev pub busy_store : JobStore
busy_store = record empty_store { tasks = running_row ∷ [] }

abbrev pub busy_worker : WorkerHandle
busy_worker = record {
  info = info;
  sender = 5;
  last_seen = 1;
  running_tasks = (bytes "t", bytes "j") ∷ [];
}

-- One worker, whose task runs, under a shared lease.
abbrev pub shared_lease : LeaseRecord
shared_lease = record {
  lease_id = bytes "lease_1";
  nodes = bytes "a" ∷ [];
  gpus_per_node = none;
  exclusive = false;
  created_at = 1;
}

abbrev pub busy : AppState
busy = record {
  nodes = (bytes "a", busy_worker) ∷ [];
  leases = (bytes "lease_1", shared_lease) ∷ [];
  events = [];
  store = busy_store;
  sent = [];
}

abbrev pub served : Served
served = record { app = busy; sink = record { written = []; room = 9 } }

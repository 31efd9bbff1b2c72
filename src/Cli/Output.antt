-- ===== src/Cli/Output.antt =====
-- crates/cli/src/main.rs: what the commands print, as lists of lines.
use multinode_controller.Base.{
  ℕ, suc, ℤ, pos, negsuc, Bool, true, false, List, [], ◌∷◌, ◌++◌, map, Option, none, some, Text,
  bytes, show, join, length,
}
use multinode_controller.Protocol.{
  NodeSummary, TaskSummary, JobSummary, LogLine, stream_text, TaskStarted, TaskExited, LeaseSummary,
  JobDiagnosis, TaskAssignment, RunStarted,
}
use multinode_controller.Store.Tables.{Formats}

-- Columns with a tab between them.
unfoldable pub row : List Text → Text
row = join (9 ∷ [])

unfoldable pub show_bool : Bool → Text
show_bool true = bytes "true"
show_bool false = bytes "false"

unfoldable pub show_int : ℤ → Text
show_int (pos n) = show n
show_int (negsuc n) = bytes "-" ++ show (suc n)

-- `map(to_string).unwrap_or_else(|| "-")`.
unfoldable pub or_dash {ℓ} : {A : Type ℓ} → (A → Text) → Option A → Text
or_dash f none = bytes "-"
or_dash f (some a) = f a

-- `{:?}` of an optional number.
unfoldable pub debug_int : Option ℤ → Text
debug_int none = bytes "None"
debug_int (some n) = bytes "Some(" ++ (show_int n ++ bytes ")")

unfoldable pub log_text : LogLine → Text
log_text line =
    bytes "["
    ++ (join (32 ∷ []) (line.node_id ∷ line.task_id ∷ stream_text line.stream ∷ [])
        ++ (bytes "] " ++ line.line))

unfoldable pub log_lines : List LogLine → List Text
log_lines = map log_text

unfoldable pub task_row : TaskSummary → Text
task_row task =
    row (task.task_id ∷ task.node_id ∷ task.status ∷ or_dash show_int task.exit_code ∷ [])

abbrev pub task_header : Text
task_header = row (bytes "TASK" ∷ bytes "NODE" ∷ bytes "STATUS" ∷ bytes "EXIT" ∷ [])

abbrev pub job_header : Text
job_header = row (bytes "JOB" ∷ bytes "STATUS" ∷ bytes "TASKS" ∷ bytes "UPDATED" ∷ [])

unfoldable pub recent_error_lines : List LogLine → List Text
recent_error_lines [] = []
recent_error_lines (line ∷ lines) = bytes "RECENT_ERRORS" ∷ log_lines (line ∷ lines)

unfoldable pub print_job_diagnosis : JobDiagnosis → List Text
print_job_diagnosis diagnosis =
    (row (bytes "JOB" ∷ bytes "STATUS" ∷ bytes "SUMMARY" ∷ [])
      ∷ row (diagnosis.job_id ∷ diagnosis.status ∷ diagnosis.summary ∷ [])
      ∷ task_header
      ∷ map task_row diagnosis.tasks)
    ++ (bytes "HINTS" ∷ map (λ hint. bytes "- " ++ hint) diagnosis.hints)
    ++ recent_error_lines diagnosis.recent_errors

unfoldable pub assignment_text : TaskAssignment → Text
assignment_text task = task.node_id ++ (bytes ":" ++ task.task_id)

unfoldable pub run_started_text : RunStarted → Text
run_started_text started =
    bytes "started "
    ++ (started.job_id
        ++ (bytes " (" ++ (join (bytes ", ") (map assignment_text started.tasks) ++ bytes ")")))

-- A start without a process identifier is not printed.
unfoldable pub task_started_text : TaskStarted → Option ℕ → List Text
task_started_text started none = []
task_started_text started (some pid) =
    (bytes "["
      ++ (join (32 ∷ []) (started.node_id ∷ started.task_id ∷ []) ++ (bytes "] pid " ++ show pid)))
    ∷ []

unfoldable pub task_exited_text : TaskExited → Text
task_exited_text exited =
    bytes "["
    ++ (join (32 ∷ []) (exited.node_id ∷ exited.task_id ∷ [])
        ++ (bytes "] exited success="
            ++ (show_bool exited.success ++ (bytes " code=" ++ debug_int exited.exit_code))))

module _ ⦃formats : Formats⦄ where
  open formats use {to_rfc3339}

  unfoldable pub node_row : NodeSummary → Text
  node_row node = row (
      node.node_id
      ∷ node.hostname
      ∷ show_bool node.online
      ∷ show node.running_tasks
      ∷ to_rfc3339 node.last_seen
      ∷ [])

  unfoldable pub print_nodes : List NodeSummary → List Text
  print_nodes [] = bytes "no workers connected" ∷ []
  print_nodes (node ∷ nodes) =
      row
        (bytes "NODE" ∷ bytes "HOSTNAME" ∷ bytes "ONLINE" ∷ bytes "TASKS" ∷ bytes "LAST_SEEN" ∷ [])
      ∷ map node_row (node ∷ nodes)

  unfoldable pub job_row : JobSummary → Text
  job_row job =
      row
        (job.job_id ∷ job.status ∷ show (length job.tasks) ∷ or_dash to_rfc3339 job.updated_at ∷ [])

  unfoldable pub print_job_list : List JobSummary → List Text
  print_job_list jobs = job_header ∷ map job_row jobs

  unfoldable pub print_job_status : JobSummary → List Text
  print_job_status job = job_header ∷ job_row job ∷ task_header ∷ map task_row job.tasks

  unfoldable pub lease_row : LeaseSummary → Text
  lease_row lease = row (
      lease.lease_id
      ∷ join (bytes ",") lease.nodes
      ∷ or_dash show lease.gpus_per_node
      ∷ show_bool lease.exclusive
      ∷ to_rfc3339 lease.created_at
      ∷ [])

  unfoldable pub print_leases : List LeaseSummary → List Text
  print_leases [] = bytes "no active leases" ∷ []
  print_leases (lease ∷ leases) =
      row (
        bytes "LEASE"
        ∷ bytes "NODES"
        ∷ bytes "GPUS_PER_NODE"
        ∷ bytes "EXCLUSIVE"
        ∷ bytes "CREATED"
        ∷ [])
      ∷ map lease_row (lease ∷ leases)

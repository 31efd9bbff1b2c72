-- ===== src/Store/Queries.antt =====
-- crates/jobstore/src/lib.rs: the methods that read the tables, and `job_summary`.
use multinode_controller.Base.{
  ℕ, Bool, true, false, ◌||◌, if◌then◌else◌, leb, List, [], ◌∷◌, map, Option, none, some, Text,
  text_dec, eq_text, leb_text, bytes, ite, select, any, all, is_empty, first, sort_by, sql_limit,
  to_i64, to_u64,
}
use multinode_controller.Protocol.{
  JobId, DateTime, TaskSummary, JobSummary, LogLine, LogStream, stdout, stderr, system,
}
use multinode_controller.Store.Tables.{Formats, TaskRow, LogRow, JobStore, coalesce}

unfoldable pub parse_stream : Text → LogStream
parse_stream value =
    if eq_text value (bytes "stdout")
    then stdout
    else if eq_text value (bytes "stderr")
    then stderr
    else system

-- COALESCE(exited_at, started_at, created_at, '').
unfoldable pub last_change : TaskRow → Text
unfolding coalesce
last_change t = elim (coalesce t.exited_at (coalesce t.started_at t.created_at)) [
  | none ↦ []
  | some text ↦ text
]

-- COALESCE(created_at, started_at, exited_at, '').
unfoldable pub first_change : TaskRow → Text
unfolding coalesce
first_change t = elim (coalesce t.created_at (coalesce t.started_at t.exited_at)) [
  | none ↦ []
  | some text ↦ text
]

-- The order of the tasks of a job: by `first_change`, then by `task_id`.
unfoldable pub task_order : TaskRow → TaskRow → Bool
task_order a b =
    if eq_text (first_change a) (first_change b)
    then leb_text a.task_id b.task_id
    else leb_text (first_change a) (first_change b)

unfoldable pub max_text : Text → Text → Text
max_text a b = if leb_text a b then b else a

-- MAX(last_change) of the group of a job.
unfoldable pub job_recency : Text → List TaskRow → Text
unfolding max_text last_change
job_recency job_id [] = []
job_recency job_id (t ∷ ts) =
    let rest = job_recency job_id ts in
    ite (text_dec t.job_id job_id) (max_text (last_change t) rest) rest

-- GROUP BY job_id: each identifier once. The order of the groups is the ORDER BY's.
unfoldable pub job_groups : List TaskRow → List Text
job_groups [] = []
job_groups (t ∷ ts) =
    let rest = job_groups ts in
    t.job_id ∷ select (λ j. if eq_text j t.job_id then false else true) rest

-- ORDER BY MAX(…) DESC.
unfoldable pub recency_order : List TaskRow → Text → Text → Bool
recency_order ts a b = leb_text (job_recency b ts) (job_recency a ts)

unfoldable pub earliest : Option DateTime → Option DateTime → Option DateTime
earliest none b = b
earliest (some a) none = some a
earliest (some a) (some b) = if leb a b then some a else some b

unfoldable pub latest : Option DateTime → Option DateTime → Option DateTime
latest none b = b
latest (some a) none = some a
latest (some a) (some b) = if leb a b then some b else some a

unfoldable pub min_created : List TaskSummary → Option DateTime
unfolding earliest
min_created [] = none
min_created (t ∷ ts) = earliest t.created_at (min_created ts)

unfoldable pub max_updated : List TaskSummary → Option DateTime
unfolding latest
max_updated [] = none
max_updated (t ∷ ts) =
    latest t.exited_at (latest t.started_at (latest t.created_at (max_updated ts)))

unfoldable pub is_pending : TaskSummary → Bool
is_pending t = eq_text t.status (bytes "queued") || eq_text t.status (bytes "running")

unfoldable pub has_succeeded : TaskSummary → Bool
has_succeeded t = eq_text t.status (bytes "succeeded")

-- `fresh` is the identifier that `JobId::new` would draw.
unfoldable pub job_summary : JobId → List TaskSummary → JobSummary
job_summary fresh tasks = record {
  job_id = elim (first tasks) [ none ↦ fresh | some t ↦ t.job_id ];
  status =
      if any is_pending tasks
      then bytes "running"
      else if all has_succeeded tasks
      then bytes "succeeded"
      else bytes "failed";
  created_at = min_created tasks;
  updated_at = max_updated tasks;
  tasks = tasks;
}

module _ ⦃formats : Formats⦄ where
  open formats use {parse_from_rfc3339}

  unfoldable pub parse_optional_datetime : Option Text → Option DateTime
  parse_optional_datetime none = none
  parse_optional_datetime (some value) = parse_from_rfc3339 value

  unfoldable pub task_summary : TaskRow → TaskSummary
  task_summary t = record {
    job_id = t.job_id;
    task_id = t.task_id;
    node_id = t.node_id;
    status = t.status;
    created_at = parse_optional_datetime t.created_at;
    started_at = parse_optional_datetime t.started_at;
    exited_at = parse_optional_datetime t.exited_at;
    exit_code = t.exit_code;
  }

  unfoldable pub list_tasks_for_job : JobId → JobStore → List TaskSummary
  list_tasks_for_job job_id s =
      map task_summary (sort_by task_order (select (λ t. eq_text t.job_id job_id) s.tasks))

  unfoldable pub job_of : JobId → JobStore → Text → JobSummary
  job_of fresh s job_id = job_summary fresh (list_tasks_for_job job_id s)

  unfoldable pub list_jobs : JobId → ℕ → JobStore → List JobSummary
  list_jobs fresh limit s =
      map (job_of fresh s)
        (sql_limit (to_i64 limit) (sort_by (recency_order s.tasks) (job_groups s.tasks)))

  unfoldable pub get_job : JobId → JobId → JobStore → Option JobSummary
  get_job fresh job_id s =
      let tasks = list_tasks_for_job job_id s in
      if is_empty tasks then none else some (job_summary fresh tasks)

  -- `now` is read where a stored timestamp does not parse.
  unfoldable pub log_line_of : DateTime → LogRow → LogLine
  log_line_of now r = record {
    job_id = r.job_id;
    task_id = r.task_id;
    node_id = r.node_id;
    stream = parse_stream r.stream;
    timestamp = elim (parse_from_rfc3339 r.timestamp) [ none ↦ now | some t ↦ t ];
    line = r.line;
    offset = to_u64 r.offset;
  }

  unfoldable pub tail_logs : DateTime → JobId → ℕ → JobStore → List LogLine
  tail_logs now job_id lines s =
      let newest_first =
        sort_by (λ (a b : LogRow). leb b.id a.id)
          (select (λ (r : LogRow). eq_text r.job_id job_id) s.task_logs) in
      map (log_line_of now)
        (sort_by (λ (a b : LogRow). leb a.id b.id) (sql_limit (to_i64 lines) newest_first))

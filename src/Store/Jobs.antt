-- ===== src/Store/Jobs.antt =====
-- crates/jobstore/src/lib.rs: the summary of a job, from the rows of its tasks.
use multinode_controller.Base.{
  ◌≡◌, ◌≢◌, refl, ◌∙◌, Bool, true, false, ◌||◌, if◌then◌else◌, List, [], ◌∷◌, map, none, some, Text,
  eq_text, bytes, arith, length, select, any, all, is_empty, first, sort_by, All, any-map, all-map,
  any-sort_by, all-sort_by, All-sort_by, length-sort_by, select-All, All-map, length-map,
}
use multinode_controller.Protocol.{JobId, TaskSummary, JobSummary}
use multinode_controller.Store.Tables.{Formats, TaskRow, JobStore}
use multinode_controller.Store.Queries.{
  task_order, is_pending, has_succeeded, job_summary, task_summary, list_tasks_for_job, get_job,
}

-- The status of a job, from the statuses of its rows in any order.
abbrev pending_row : TaskRow → Bool
pending_row t = eq_text t.status (bytes "queued") || eq_text t.status (bytes "running")

abbrev succeeded_row : TaskRow → Bool
succeeded_row t = eq_text t.status (bytes "succeeded")

abbrev pub job_status : List TaskRow → Text
job_status rows =
    if any pending_row rows
    then bytes "running"
    else if all succeeded_row rows
    then bytes "succeeded"
    else bytes "failed"

abbrev pub rows_of : JobId → JobStore → List TaskRow
rows_of job_id s = select (λ t. eq_text t.job_id job_id) s.tasks

module _ ⦃formats : Formats⦄ where
  -- A job without rows is not found.
  get_job-none :
      (fresh job_id : JobId) (s : JobStore) → rows_of job_id s ≡ [] → get_job fresh job_id s ≡ none
  unfolding get_job list_tasks_for_job sort_by is_empty
  get_job-none fresh job_id s h = rw h refl

  list_tasks-any :
      (job_id : JobId) (s : JobStore)
      → any is_pending (list_tasks_for_job job_id s) ≡ any pending_row (rows_of job_id s)
  unfolding list_tasks_for_job is_pending task_summary
  list_tasks-any job_id s =
      any-map task_summary is_pending (sort_by task_order (rows_of job_id s))
      ∙ any-sort_by task_order pending_row (rows_of job_id s)

  list_tasks-all :
      (job_id : JobId) (s : JobStore)
      → all has_succeeded (list_tasks_for_job job_id s) ≡ all succeeded_row (rows_of job_id s)
  unfolding list_tasks_for_job has_succeeded task_summary
  list_tasks-all job_id s =
      all-map task_summary has_succeeded (sort_by task_order (rows_of job_id s))
      ∙ all-sort_by task_order succeeded_row (rows_of job_id s)

  length-list_tasks :
      (job_id : JobId) (s : JobStore)
      → length (list_tasks_for_job job_id s) ≡ length (rows_of job_id s)
  unfolding list_tasks_for_job
  length-list_tasks job_id s =
      length-map task_summary (sort_by task_order (rows_of job_id s))
      ∙ length-sort_by task_order (rows_of job_id s)

  list_tasks-All :
      (job_id : JobId) (s : JobStore)
      → All (λ (t : TaskSummary). t.job_id ≡ job_id) (list_tasks_for_job job_id s)
  unfolding list_tasks_for_job task_summary
  list_tasks-All job_id s = All-of-map (sort_by task_order (rows_of job_id s)) (
      All-sort_by task_order (λ (t : TaskRow). t.job_id ≡ job_id) (rows_of job_id s)
        (All-map (λ (t : TaskRow). eq_text t.job_id job_id ≡ true)
          (λ (t : TaskRow). t.job_id ≡ job_id) (λ t h. ground arith) (rows_of job_id s)
          (select-All (λ t. eq_text t.job_id job_id) s.tasks)))
    where
      All-of-map :
          (ts : List TaskRow)
          → All (λ (t : TaskRow). t.job_id ≡ job_id) ts
          → All (λ (t : TaskSummary). t.job_id ≡ job_id) (map task_summary ts)
      All-of-map [] h = tt
      All-of-map (t ∷ ts) h = (h.0, All-of-map ts h.1)

  summary_of :
      (fresh job_id : JobId) (tasks : List TaskSummary) (rows : List TaskRow)
      → All (λ (t : TaskSummary). t.job_id ≡ job_id) tasks
      → length tasks ≡ length rows
      → rows ≢ []
      → (is_empty tasks ≡ false) × ((job_summary fresh tasks).job_id ≡ job_id)
  unfolding is_empty job_summary first
  summary_of fresh job_id [] [] h l ne = absurd (ne refl)
  summary_of fresh job_id [] (r ∷ rs) h l ne = absurd (omega arith)
  summary_of fresh job_id (t ∷ ts) rows h l ne = (refl, h.0)

  -- A job with rows is found under its own identifier, with one task for each row. Its status is
  -- `running` if some row is queued or running, else `succeeded` if every row has succeeded, else
  -- `failed`, whatever the order of the rows.
  pub get_job-status :
      (fresh job_id : JobId) (s : JobStore)
      → rows_of job_id s ≢ []
      → (j : JobSummary) × (get_job fresh job_id s ≡ some j)
        × (j.job_id ≡ job_id)
        × (j.status ≡ job_status (rows_of job_id s))
        × (length j.tasks ≡ length (rows_of job_id s))
  unfolding get_job job_summary
  get_job-status fresh job_id s ne =
      let tasks = list_tasks_for_job job_id s in
      let (found, same) =
        summary_of fresh job_id tasks (rows_of job_id s) (list_tasks-All job_id s)
          (length-list_tasks job_id s) ne in
      (
        job_summary fresh tasks,
        rw found refl,
        same,
        rw (list_tasks-any job_id s, list_tasks-all job_id s) refl,
        length-list_tasks job_id s,
      )

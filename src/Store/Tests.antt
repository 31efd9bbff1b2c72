-- ===== src/Store/Tests.antt =====
-- Runs of the store, and its theorems at concrete inputs.
use multinode_controller.Base.{
  ◌≡◌, refl, List, [], ◌∷◌, some, bytes, text_dec, ite, arith, select, eq_text, newest, length,
}
use multinode_controller.Protocol.{JobSummary}
use multinode_controller.Store.Tables.{TaskRow, empty_store}
use multinode_controller.Store.TaskTable.{find_task, UniqueTasks}
use multinode_controller.Store.TaskRows.{
  TaskEvent, subject, apply, effect, run, find-apply, run-UniqueTasks, run-created_at,
}
use multinode_controller.Store.Queries.{get_job, tail_logs}
use multinode_controller.Store.Logs.{record_log_lines, tail_logs-record_log_lines}
use multinode_controller.Store.Jobs.{rows_of, job_status, get_job-status}
use multinode_controller.Samples.{
  plain_formats, line, start_event, exit_event, running_row, busy_store,
}

abbrev history : List TaskEvent
history =
    TaskEvent.dispatched (bytes "j") (bytes "t") (bytes "a") 1
    ∷ TaskEvent.started start_event
    ∷ TaskEvent.exited exit_event
    ∷ []

find-apply_example :
    find_task (bytes "t") (apply (TaskEvent.exited exit_event) busy_store).tasks
    ≡ ite
        (text_dec (subject (TaskEvent.exited exit_event)) (bytes "t"))
        (some (effect (TaskEvent.exited exit_event) (find_task (bytes "t") busy_store.tasks)))
        (find_task (bytes "t") busy_store.tasks)
find-apply_example = find-apply (TaskEvent.exited exit_event) (bytes "t") busy_store

run-UniqueTasks_example : UniqueTasks (run history empty_store).tasks
run-UniqueTasks_example = run-UniqueTasks history empty_store tt

run-created_at_example :
    (u : TaskRow) × (find_task (bytes "t") (run history busy_store).tasks ≡ some u)
    × (u.created_at ≡ some (1 ∷ []))
unfolding find_task text_dec bytes
run-created_at_example = run-created_at history (bytes "t") busy_store running_row refl refl

tail_logs-record_log_lines_example :
    tail_logs 0 (bytes "j") 1 (record_log_lines (line ∷ line ∷ []) empty_store)
    ≡ newest 1 (select (λ l. eq_text l.job_id (bytes "j")) (line ∷ line ∷ []))
tail_logs-record_log_lines_example =
    tail_logs-record_log_lines 0 (bytes "j") 1 (line ∷ line ∷ []) (omega arith) (omega arith)

get_job-status_example :
    (j : JobSummary) × (get_job (bytes "x") (bytes "j") busy_store ≡ some j)
    × (j.job_id ≡ bytes "j")
    × (j.status ≡ job_status (rows_of (bytes "j") busy_store))
    × (length j.tasks ≡ length (rows_of (bytes "j") busy_store))
unfolding select text_dec bytes
get_job-status_example = get_job-status (bytes "x") (bytes "j") busy_store (λ e. cc)

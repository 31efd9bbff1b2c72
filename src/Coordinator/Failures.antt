-- ===== src/Coordinator/Failures.antt =====
-- crates/coordinator/src/main.rs: what the store says of the tasks of a worker that is lost.
use multinode_controller.Base.{
  ℕ, suc, ◌≡◌, refl, ◌∙◌, List, [], ◌∷◌, Option, none, some, Text, bytes, All, ite, if_pos, if_neg,
  subst, text_dec, get, remove, Option-cases, inl, inr,
}
use multinode_controller.Protocol.{JobId, TaskId, NodeId, DateTime}
use multinode_controller.Store.Tables.{Formats, TaskRow, record_log_line}
use multinode_controller.Store.TaskTable.{find_task}
use multinode_controller.Store.TaskRows.{TaskEvent, apply, effect, subject, find-apply}
use multinode_controller.Coordinator.State.{WorkerHandle, AppState}
use multinode_controller.Coordinator.Tracking.{NoOrphans}
use multinode_controller.Coordinator.Losses.{mark_node_lost-NoOrphans}
use multinode_controller.Coordinator.Workers.{
  publish, failed_exit, lost_line, lose_task, lose_tasks, mark_node_lost,
}

-- The row of the task says that it has failed, without an exit code.
abbrev pub IsFailed : AppState → TaskId → Type 0
IsFailed s k =
    (row : TaskRow) × ((find_task k s.store.tasks ≡ some row)
      × (row.status ≡ bytes "failed")
      × (row.exit_code ≡ none))

-- The tasks on the list of a worker.
unfoldable pub tasks_of : Option WorkerHandle → List (TaskId × JobId)
tasks_of none = []
tasks_of (some node) = node.running_tasks

module _ ⦃formats : Formats⦄ where
  effect-failed :
      (node_id : NodeId) (now : DateTime) (task_id : TaskId) (job_id : JobId) (o : Option TaskRow)
      → let row = effect (TaskEvent.exited (failed_exit node_id now task_id job_id)) o in
        (row.status ≡ bytes "failed") × (row.exit_code ≡ none)
  unfolding effect failed_exit
  effect-failed node_id now task_id job_id none = (refl, refl)
  effect-failed node_id now task_id job_id (some t) = (refl, refl)

  -- What the exit that is recorded for a lost task does to the rows.
  find-lose_task :
      (node_id : NodeId) (reason : Text) (now : DateTime) (task_id : TaskId) (job_id : JobId)
      (s : AppState) (k : TaskId)
      → find_task k (lose_task node_id reason now (task_id, job_id) s).store.tasks
        ≡ ite
            (text_dec task_id k)
            (some (
              effect
                (TaskEvent.exited (failed_exit node_id now task_id job_id))
                (find_task k s.store.tasks)))
            (find_task k s.store.tasks)
  unfolding lose_task publish apply subject record_log_line failed_exit
  find-lose_task node_id reason now task_id job_id s k =
      find-apply (TaskEvent.exited (failed_exit node_id now task_id job_id)) k
        (record_log_line (lost_line node_id reason now task_id job_id) s.store)

  lose_task-IsFailed :
      (node_id : NodeId) (reason : Text) (now : DateTime) (task_id : TaskId) (job_id : JobId)
      (s : AppState)
      → IsFailed (lose_task node_id reason now (task_id, job_id) s) task_id
  lose_task-IsFailed node_id reason now task_id job_id s =
      let before = find_task task_id s.store.tasks in
      (
        effect (TaskEvent.exited (failed_exit node_id now task_id job_id)) before,
        (
          find-lose_task node_id reason now task_id job_id s task_id
              ∙ if_pos (text_dec task_id task_id) refl _ _,
          (effect-failed node_id now task_id job_id before).0,
          (effect-failed node_id now task_id job_id before).1,
        ),
      )

  lose_task-keeps :
      (node_id : NodeId) (reason : Text) (now : DateTime) (t : TaskId × JobId) (s : AppState)
      (k : TaskId)
      → IsFailed s k
      → IsFailed (lose_task node_id reason now t s) k
  lose_task-keeps node_id reason now (task_id, job_id) s k (row, (found, status, code)) =
      elim (text_dec task_id k) [
        | yes same ↦
            subst (IsFailed (lose_task node_id reason now (task_id, job_id) s)) same
              (lose_task-IsFailed node_id reason now task_id job_id s)
        | no other ↦ (
          row,
          (
            find-lose_task node_id reason now task_id job_id s k
                ∙ if_neg (text_dec task_id k) other _ _
                ∙ found,
            status,
            code,
          ),
        )
      ]

  lose_tasks-keeps :
      (node_id : NodeId) (reason : Text) (clock : ℕ → DateTime) (i : ℕ) (ts : List (TaskId × JobId))
      (s : AppState) (k : TaskId)
      → IsFailed s k
      → IsFailed (lose_tasks node_id reason clock i ts s) k
  unfolding lose_tasks
  lose_tasks-keeps node_id reason clock i [] s k h = h
  lose_tasks-keeps node_id reason clock i (t ∷ ts) s k h =
      lose_tasks-keeps node_id reason clock (suc i) ts (lose_task node_id reason (clock i) t s) k
        (lose_task-keeps node_id reason (clock i) t s k h)

  lose_tasks-IsFailed :
      (node_id : NodeId) (reason : Text) (clock : ℕ → DateTime) (i : ℕ) (ts : List (TaskId × JobId))
      (s : AppState)
      → All (λ (t : TaskId × JobId). IsFailed (lose_tasks node_id reason clock i ts s) t.0) ts
  unfolding lose_tasks
  lose_tasks-IsFailed node_id reason clock i [] s = tt
  lose_tasks-IsFailed node_id reason clock i ((task_id, job_id) ∷ ts) s =
      let s' = lose_task node_id reason (clock i) (task_id, job_id) s in
      (
        lose_tasks-keeps node_id reason clock (suc i) ts s' task_id
            (lose_task-IsFailed node_id reason (clock i) task_id job_id s),
        lose_tasks-IsFailed node_id reason clock (suc i) ts s',
      )

  -- If every queued or running task is on a connected worker's list, this still holds after the end
  -- of a worker's connection, and the row of each task on its list then says "failed", without an
  -- exit code.
  pub mark_node_lost-IsFailed :
      (node_id : NodeId) (reason : Text) (clock : ℕ → DateTime) (s : AppState)
      → NoOrphans s
      → NoOrphans (mark_node_lost node_id reason clock s)
        × All
            (λ (t : TaskId × JobId). IsFailed (mark_node_lost node_id reason clock s) t.0)
            (tasks_of (get node_id s.nodes))
  unfolding mark_node_lost tasks_of
  mark_node_lost-IsFailed node_id reason clock s h = (
    mark_node_lost-NoOrphans node_id reason clock s h,
    elim (Option-cases (get node_id s.nodes)) [
      | inl e ↦ rw (e, mark_node_lost) tt
      | inr (node, e) ↦
          rw (e, mark_node_lost)
            (lose_tasks-IsFailed node_id reason clock 0 node.running_tasks
              (record s { nodes = remove node_id s.nodes }))
    ],
  )

-- ===== src/Coordinator/Queued.antt =====
-- crates/coordinator/src/main.rs: a task that `run_process` has dispatched, and what later ones do to
-- it.
use multinode_controller.Base.{
  ◌≡◌, refl, ◌∙◌, Option, none, some, bytes, get, get-insert, get-modify, insert, text_dec, ite,
  if_pos, if_neg, arith,
}
use multinode_controller.Protocol.{JobId, TaskId, NodeId, DateTime}
use multinode_controller.Store.Tables.{Formats, TaskRow}
use multinode_controller.Store.TaskTable.{find_task}
use multinode_controller.Store.TaskRows.{TaskEvent, apply, effect, subject, find-apply}
use multinode_controller.Coordinator.State.{WorkerHandle, AppState}
use multinode_controller.Coordinator.Runs.{assign}

-- A task is queued: it is on the list of a connected node, and its row says so.
abbrev pub IsQueued : NodeId → TaskId → AppState → Type 0
IsQueued n k s =
    ((w : WorkerHandle) × (j : JobId) × (get n s.nodes ≡ some w) × (get k w.running_tasks ≡ some j))
    × ((row : TaskRow) × (find_task k s.store.tasks ≡ some row) × (row.status ≡ bytes "queued"))

abbrev pub track : TaskId → JobId → WorkerHandle → WorkerHandle
track task_id job_id node = record node { running_tasks = insert task_id job_id node.running_tasks }

module _ ⦃formats : Formats⦄ where
  effect-queued :
      (job_id : JobId) (task_id : TaskId) (n : NodeId) (now : DateTime) (o : Option TaskRow)
      → (effect (TaskEvent.dispatched job_id task_id n now) o).status ≡ bytes "queued"
  unfolding effect
  effect-queued job_id task_id n now none = refl
  effect-queued job_id task_id n now (some t) = refl

  find-assign :
      (job_id : JobId) (task_id : TaskId) (n : NodeId) (now : DateTime) (s : AppState) (k : TaskId)
      → find_task k (assign job_id task_id n now s).store.tasks
        ≡ ite
            (text_dec task_id k)
            (some (effect (TaskEvent.dispatched job_id task_id n now) (find_task k s.store.tasks)))
            (find_task k s.store.tasks)
  unfolding assign apply subject
  find-assign job_id task_id n now s k =
      find-apply (TaskEvent.dispatched job_id task_id n now) k s.store

  pub assign-IsQueued :
      (job_id : JobId) (task_id : TaskId) (n : NodeId) (now : DateTime) (w : WorkerHandle)
      (s : AppState)
      → get n s.nodes ≡ some w
      → IsQueued n task_id (assign job_id task_id n now s)
  unfolding assign
  assign-IsQueued job_id task_id n now w s e = (
    (
      track task_id job_id w,
      job_id,
      ground (arith, e, get-modify n n (track task_id job_id) s.nodes),
      ground (arith, get-insert task_id task_id job_id w.running_tasks),
    ),
    (
      effect (TaskEvent.dispatched job_id task_id n now) (find_task task_id s.store.tasks),
      find-assign job_id task_id n now s task_id ∙ if_pos (text_dec task_id task_id) refl _ _,
      effect-queued job_id task_id n now (find_task task_id s.store.tasks),
    ),
  )

  -- A later task, even under the same identifier, leaves it queued.
  pub assign-keeps :
      (n : NodeId) (k : TaskId) (job_id : JobId) (task_id : TaskId) (node_id : NodeId)
      (now : DateTime) (w : WorkerHandle) (s : AppState)
      → get node_id s.nodes ≡ some w
      → IsQueued n k s
      → IsQueued n k (assign job_id task_id node_id now s)
  unfolding assign
  assign-keeps n k job_id task_id node_id now w s e ((v, j, here, on), (row, found, status)) =
      let change = track task_id job_id in
      let modified = get-modify node_id n change s.nodes in
      let inserted = get-insert task_id k job_id v.running_tasks in
      elim (text_dec task_id k) [
        | yes same ↦ (
          elim (text_dec node_id n) [
            | yes p ↦ (change v, job_id, ground (arith, here, modified), ground (arith, inserted))
            | no p ↦ (v, j, ground (arith, here, modified), on)
          ],
          (
            effect (TaskEvent.dispatched job_id task_id node_id now) (find_task k s.store.tasks),
            find-assign job_id task_id node_id now s k ∙ if_pos (text_dec task_id k) same _ _,
            effect-queued job_id task_id node_id now (find_task k s.store.tasks),
          ),
        )
        | no other ↦ (
          elim (text_dec node_id n) [
            | yes p ↦ (change v, j, ground (arith, here, modified), ground (arith, on, inserted))
            | no p ↦ (v, j, ground (arith, here, modified), on)
          ],
          (
            row,
            find-assign job_id task_id node_id now s k
                ∙ if_neg (text_dec task_id k) other _ _
                ∙ found,
            status,
          ),
        )
      ]

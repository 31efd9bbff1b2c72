-- ===== src/Coordinator/Tracking.antt =====
-- crates/coordinator/src/main.rs: a task that the store calls queued or running is on the list of
-- a connected worker, so that the worker's end will fail it.
use multinode_controller.Base.{
  ◌≡◌, ◌≢◌, refl, ap, subst, ◌∙◌, ◌⊎◌, inl, inr, Bool, true, false, Option, none, some, Text, bytes,
  first_byte, text_dec, ite, get, insert, remove, get-insert, get-remove, get-modify, arith,
  Option-cases,
}
use multinode_controller.Protocol.{
  JobId, TaskId, NodeId, DateTime, NodeHeartbeat, TaskStarted, LogLine, TaskExited,
}
use multinode_controller.Store.Tables.{
  Formats, TaskRow, JobStore, exit_status, record_task_started, record_task_exited, record_log_line,
}
use multinode_controller.Store.TaskTable.{find_task}
use multinode_controller.Store.TaskRows.{TaskEvent, apply, effect, subject, find-apply}
use multinode_controller.Coordinator.State.{WorkerHandle, AppState}
use multinode_controller.Coordinator.Workers.{
  publish, with_node, failed_exit, on_heartbeat, on_task_started, on_log_line, on_task_exited,
  fail_task, record_error_of,
}

abbrev pub IsPending : Text → Type 0
IsPending status = (status ≡ bytes "queued") ⊎ (status ≡ bytes "running")

-- The task is on the list of a connected worker.
abbrev pub IsTracked : AppState → TaskId → Type 0
IsTracked s k =
    (n : NodeId) × (w : WorkerHandle) × (j : JobId) × (get n s.nodes ≡ some w)
    × (get k w.running_tasks ≡ some j)

abbrev pub NoOrphans : AppState → Type 0
NoOrphans s =
    (k : TaskId) (t : TaskRow)
    → find_task k s.store.tasks ≡ some t
    → IsPending t.status
    → IsTracked s k

exit_status-not-IsPending : (b : Bool) → ¬ IsPending (exit_status b)
unfolding exit_status bytes
exit_status-not-IsPending true (inl e) = omega (arith, ap first_byte e)
exit_status-not-IsPending true (inr e) = omega (arith, ap first_byte e)
exit_status-not-IsPending false (inl e) = omega (arith, ap first_byte e)
exit_status-not-IsPending false (inr e) = omega (arith, ap first_byte e)

module _ ⦃formats : Formats⦄ where
  effect_exited-status :
      (event : TaskExited) (o : Option TaskRow)
      → (effect (TaskEvent.exited event) o).status ≡ exit_status event.success
  unfolding effect exit_status
  effect_exited-status event none = refl
  effect_exited-status event (some t) = refl

  -- After an exit the row is not pending, and the other rows are as they were.
  pub after_exit :
      (event : TaskExited) (s : JobStore) (k : TaskId) (t : TaskRow)
      → find_task k (record_task_exited event s).tasks ≡ some t
      → IsPending t.status
      → (event.task_id ≢ k) × (find_task k s.tasks ≡ some t)
  unfolding apply subject
  after_exit event s k t found pending = elim (text_dec event.task_id k) [
    | yes same ↦ absurd (not_pending same (find-apply (TaskEvent.exited event) k s))
    | no other ↦ (other, ground (arith, find-apply (TaskEvent.exited event) k s))
  ]
    where
      not_pending :
          event.task_id ≡ k
          → find_task k (record_task_exited event s).tasks
            ≡ ite
                (text_dec event.task_id k)
                (some (effect (TaskEvent.exited event) (find_task k s.tasks)))
                (find_task k s.tasks)
          → ⊥
      not_pending same e =
          let row : t ≡ effect (TaskEvent.exited event) (find_task k s.tasks) = ground arith in
          exit_status-not-IsPending event.success (
            subst IsPending
              (ap (λ (r : TaskRow). r.status) row
                ∙ effect_exited-status event (find_task k s.tasks))
              pending)

  pub with_node-IsTracked :
      (node_id : NodeId) (change : WorkerHandle → WorkerHandle) (s : AppState) (k : TaskId)
      → ((w : WorkerHandle) → get k (change w).running_tasks ≡ get k w.running_tasks)
      → IsTracked s k
      → IsTracked (with_node node_id change s) k
  unfolding with_node
  with_node-IsTracked node_id change s k same (n, w, j, here, on) = elim (text_dec node_id n) [
    | yes e ↦ (n, change w, j, ground (arith, get-modify node_id n change s.nodes), same w ∙ on)
    | no e ↦ (n, w, j, ground (arith, get-modify node_id n change s.nodes), on)
  ]

  pub on_heartbeat-NoOrphans :
      (beat : NodeHeartbeat) (s : AppState) → NoOrphans s → NoOrphans (on_heartbeat beat s)
  unfolding on_heartbeat with_node
  on_heartbeat-NoOrphans beat s h k t found pending =
      with_node-IsTracked beat.node_id (λ node. record node { last_seen = beat.timestamp }) s k
        (λ w. refl) (h k t found pending)

  pub on_log_line-NoOrphans :
      (line : LogLine) (s : AppState) → NoOrphans s → NoOrphans (on_log_line line s)
  unfolding on_log_line publish record_log_line
  on_log_line-NoOrphans line s h = h

  untrack-IsTracked :
      (node_id : NodeId) (task_id : TaskId) (s : AppState) (k : TaskId)
      → task_id ≢ k
      → IsTracked s k
      → IsTracked
          (with_node node_id
            (λ node. record node { running_tasks = remove task_id node.running_tasks })
            s)
          k
  untrack-IsTracked node_id task_id s k other =
      with_node-IsTracked node_id _ s k (λ w. ground (arith, get-remove task_id k w.running_tasks))

  pub on_task_exited-NoOrphans :
      (event : TaskExited) (s : AppState) → NoOrphans s → NoOrphans (on_task_exited event s)
  unfolding on_task_exited publish with_node
  on_task_exited-NoOrphans event s h k t found pending =
      let (other, before) = after_exit event s.store k t found pending in
      untrack-IsTracked event.node_id event.task_id
        (record s { store = record_task_exited event s.store }) k other (h k t before pending)

  -- A task that starts is put on the list of the node that it names, if that node is connected.
  after_start :
      (event : TaskStarted) (s : JobStore) (k : TaskId) (t : TaskRow)
      → find_task k (record_task_started event s).tasks ≡ some t
      → event.task_id ≢ k
      → find_task k s.tasks ≡ some t
  unfolding apply subject
  after_start event s k t found other = ground (arith, find-apply (TaskEvent.started event) k s)

  pub on_task_started-NoOrphans :
      (event : TaskStarted) (w : WorkerHandle) (s : AppState)
      → get event.node_id s.nodes ≡ some w
      → NoOrphans s
      → NoOrphans (on_task_started event s)
  unfolding on_task_started publish with_node
  on_task_started-NoOrphans event w s here h k t found pending = elim (text_dec event.task_id k) [
    | yes same ↦ (
      event.node_id,
      track w,
      event.job_id,
      ground (arith, get-modify event.node_id event.node_id track s.nodes),
      ground (arith, get-insert event.task_id k event.job_id w.running_tasks),
    )
    | no other ↦
        with_node-IsTracked event.node_id track
          (record s { store = record_task_started event s.store }) k
          (λ v. ground (arith, get-insert event.task_id k event.job_id v.running_tasks))
          (h k t (after_start event s.store k t found other) pending)
  ]
    where
      track : WorkerHandle → WorkerHandle
      track node = record node {
        running_tasks = insert event.task_id event.job_id node.running_tasks;
      }

  fail_task-NoOrphans :
      (node_id : NodeId) (task_id : TaskId) (now : DateTime) (job_id : JobId) (s : AppState)
      → NoOrphans s
      → NoOrphans (
          fail_task node_id task_id now job_id (
            with_node node_id (λ n. record n { running_tasks = remove task_id n.running_tasks }) s))
  unfolding fail_task publish with_node failed_exit
  fail_task-NoOrphans node_id task_id now job_id s h k t found pending =
      let event = failed_exit node_id now task_id job_id in
      let (other, before) = after_exit event s.store k t found pending in
      untrack-IsTracked node_id task_id (record s { store = record_task_exited event s.store }) k
        other (h k t before pending)

  pub record_error_of-NoOrphans :
      (node_id : NodeId) (task_id : TaskId) (now : DateTime) (s : AppState)
      → NoOrphans s
      → NoOrphans (record_error_of node_id task_id now s)
  unfolding record_error_of with_node
  record_error_of-NoOrphans node_id task_id now s h = elim (Option-cases (get node_id s.nodes)) [
    | inl e ↦ rw (e, record_error_of) h
    | inr (node, e) ↦ elim (Option-cases (get task_id node.running_tasks)) [
      | inr (job_id, f) ↦
          rw (e, record_error_of) (rw f (fail_task-NoOrphans node_id task_id now job_id s h))
      | inl f ↦ rw (e, record_error_of) (rw f (unlisted node e f))
    ]
  ]
    where
      unlisted :
          (node : WorkerHandle)
          → get node_id s.nodes ≡ some node
          → get task_id node.running_tasks ≡ none
          → NoOrphans (
              with_node node_id
                (λ n. record n { running_tasks = remove task_id n.running_tasks })
                s)
      unlisted node e f k t found pending = elim (text_dec task_id k) [
        | no other ↦ untrack-IsTracked node_id task_id s k other (h k t found pending)
        | yes same ↦
            let (n, w, j, here, on) = h k t found pending in
            (
              n,
              w,
              j,
              ground (
                arith,
                get-modify node_id n
                    (λ v. record v { running_tasks = remove task_id v.running_tasks }) s.nodes,
              ),
              on,
            )
      ]

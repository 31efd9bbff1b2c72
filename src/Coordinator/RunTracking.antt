-- ===== src/Coordinator/RunTracking.antt =====
-- crates/coordinator/src/main.rs: what `run_process` leaves in the shared state, however it ends.
use multinode_controller.Base.{
  ◌≡◌, Bool, List, some, text_dec, get, insert, get-insert, get-modify, arith,
}
use multinode_controller.Protocol.{JobId, TaskId, NodeId, DateTime, RunProcessRequest}
use multinode_controller.Store.Tables.{Formats, record_task_dispatched}
use multinode_controller.Store.TaskRows.{TaskEvent, apply, subject, find-apply}
use multinode_controller.Coordinator.State.{WorkerHandle, Sender, AppState, Served}
use multinode_controller.Coordinator.Tracking.{NoOrphans, with_node-IsTracked}
use multinode_controller.Coordinator.Workers.{with_node}
use multinode_controller.Coordinator.RunInduction.{run_process-Keeps}
use multinode_controller.Coordinator.Runs.{Draws, assign, Received, run_process}

module _ ⦃formats : Formats⦄ where
  pub assign-NoOrphans :
      (job_id : JobId) (task_id : TaskId) (node_id : NodeId) (now : DateTime) (w : WorkerHandle)
      (s : AppState)
      → get node_id s.nodes ≡ some w
      → NoOrphans s
      → NoOrphans (assign job_id task_id node_id now s)
  unfolding assign with_node apply subject
  assign-NoOrphans job_id task_id node_id now w s here h k t found pending =
      elim (text_dec task_id k) [
        | yes same ↦ (
          node_id,
          track w,
          job_id,
          ground (arith, get-modify node_id node_id track s.nodes),
          ground (arith, get-insert task_id k job_id w.running_tasks),
        )
        | no other ↦
            with_node-IsTracked node_id track
              (record s { store = record_task_dispatched job_id task_id node_id now s.store }) k
              (λ v. ground (arith, get-insert task_id k job_id v.running_tasks))
              (h k t
                (ground
                  (arith, find-apply (TaskEvent.dispatched job_id task_id node_id now) k s.store))
                pending)
      ]
    where
      track : WorkerHandle → WorkerHandle
      track node = record node { running_tasks = insert task_id job_id node.running_tasks }

  -- However `run_process` ends, also when the client or a worker's channel is gone in its midst,
  -- every queued or running task is on the list of a connected worker if that was so before.
  pub run_process-NoOrphans :
      (request : RunProcessRequest) (draws : Draws) (is_open : Sender → Bool)
      (received : List Received) (c : Served)
      → NoOrphans c.app
      → NoOrphans (run_process request draws is_open received c).1.app
  run_process-NoOrphans = run_process-Keeps NoOrphans (λ s sent h. h) assign-NoOrphans

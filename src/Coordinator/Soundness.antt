-- ===== src/Coordinator/Soundness.antt =====
-- crates/coordinator/src/main.rs: what every client request keeps, whatever its handler's outcome.
use multinode_controller.Base.{◌≡◌, Bool, List, some, get, values, Option-cases, inl, inr}
use multinode_controller.Protocol.{
  JobId, LeaseId, TaskId, NodeId, DateTime, ClientRequest, ClientResponse, CreateLeaseRequest,
  ReleaseLeaseRequest, KillJobRequest, JobStatusRequest, DiagnoseJobRequest,
}
use multinode_controller.Store.Tables.{Formats}
use multinode_controller.Store.Queries.{get_job}
use multinode_controller.Coordinator.State.{
  Sender, AppState, ClientSink, Served, Outcome, ok, err, waiting, Handler, bind_outcome, ◌>>=◌,
  ◌>>◌, send,
}
use multinode_controller.Coordinator.Sends.{send-app}
use multinode_controller.Coordinator.Leases.{create_lease, grant_lease, list_leases, release_lease}
use multinode_controller.Coordinator.LeaseTable.{IsLeaseTable}
use multinode_controller.Coordinator.LeaseRequests.{
  create_lease_cases, create_lease-IsLeaseTable, release_lease-IsLeaseTable,
}
use multinode_controller.Coordinator.Tracking.{NoOrphans}
use multinode_controller.Coordinator.Runs.{Draws, Received, assign}
use multinode_controller.Coordinator.RunInduction.{run_process-Keeps}
use multinode_controller.Coordinator.RunTracking.{assign-NoOrphans}
use multinode_controller.Coordinator.Clients.{
  handle_client, list_jobs, tail_job, job_status, diagnose_job, kill_job, kill_targets,
}
use multinode_controller.Coordinator.Kills.{send_kills_lem, ordered, reached}

-- The table of leases is well formed, and no queued or running task is without a worker.
pub record IsSound (s : AppState) : Type 0 where
  pub leases : IsLeaseTable s.leases
  pub tasks : NoOrphans s

module _ ⦃formats : Formats⦄ where
  assign-IsSound :
      (job_id : JobId) (task_id : TaskId) (node_id : NodeId) (now : DateTime)
      (w : multinode_controller.Coordinator.State.WorkerHandle) (s : AppState)
      → get node_id s.nodes ≡ some w
      → IsSound s
      → IsSound (assign job_id task_id node_id now s)
  unfolding assign
  assign-IsSound job_id task_id node_id now w s here h = record {
    leases = h.leases;
    tasks = assign-NoOrphans job_id task_id node_id now w s here h.tasks;
  }

  send-IsSound : (r : ClientResponse) (c : Served) → IsSound c.app → IsSound (send r c).1.app
  send-IsSound r c h = rw (send-app r c) h

  create_lease-IsSound :
      (request : CreateLeaseRequest) (lease_id : LeaseId) (now : DateTime) (c : Served)
      → IsSound c.app
      → IsSound (create_lease request lease_id now c).1.app
  unfolding grant_lease
  create_lease-IsSound request lease_id now c h = record {
    leases = create_lease-IsLeaseTable request lease_id now c h.leases;
    tasks =
        create_lease_cases request lease_id now c (λ r. NoOrphans r.1.app)
          (λ message _. rw (send-app (ClientResponse.error message) c) h.tasks)
          (λ g. rw (send-app _ _) h.tasks);
  }

  release_lease-IsSound :
      (request : ReleaseLeaseRequest) (c : Served)
      → IsSound c.app
      → IsSound (release_lease request c).1.app
  unfolding release_lease
  release_lease-IsSound request c h = record {
    leases = release_lease-IsLeaseTable request c h.leases;
    tasks = elim (Option-cases (get request.lease_id c.app.leases)) [
      | inl e ↦ rw (e, release_lease) (rw (send-app _ _) h.tasks)
      | inr (l, e) ↦ rw (e, release_lease) (rw (send-app _ _) h.tasks)
    ];
  }

  answer-IsSound :
      (o : Outcome (Unit {0})) (r : ClientResponse) (c : Served)
      → IsSound c.app
      → IsSound (bind_outcome o c (λ _. send r)).1.app
  answer-IsSound (ok a) r c h = send-IsSound r c h
  answer-IsSound (err e) r c h = h
  answer-IsSound waiting r c h = h

  kill_job-IsSound :
      (request : KillJobRequest) (is_open : Sender → Bool) (c : Served)
      → IsSound c.app
      → IsSound (kill_job request is_open c).1.app
  unfolding kill_job
  kill_job-IsSound request is_open c h =
      let ts = kill_targets request.job_id (values c.app.nodes) in
      rw (send_kills_lem is_open ts c) (
        answer-IsSound _ ClientResponse.ack (ordered c (reached is_open ts))
          (record { leases = h.leases; tasks = h.tasks }))

  job_status-IsSound :
      (request : JobStatusRequest) (fresh : JobId) (c : Served)
      → IsSound c.app
      → IsSound (job_status request fresh c).1.app
  unfolding job_status
  job_status-IsSound request fresh c h =
      elim (Option-cases (get_job fresh request.job_id c.app.store)) [
        | inl e ↦ rw (e, job_status) (send-IsSound _ c h)
        | inr (job, e) ↦ rw (e, job_status) (send-IsSound _ c h)
      ]

  diagnose_job-IsSound :
      (request : DiagnoseJobRequest) (fresh : JobId) (now : DateTime) (c : Served)
      → IsSound c.app
      → IsSound (diagnose_job request fresh now c).1.app
  unfolding diagnose_job
  diagnose_job-IsSound request fresh now c h =
      elim (Option-cases (get_job fresh request.job_id c.app.store)) [
        | inl e ↦ rw (e, diagnose_job) (send-IsSound _ c h)
        | inr (job, e) ↦ rw (e, diagnose_job) (send-IsSound _ c h)
      ]

  pub handle_client-IsSound :
      (request : ClientRequest) (draws : Draws) (lease_id : LeaseId) (now : DateTime)
      (is_open : Sender → Bool) (received : List Received) (c : Served)
      → IsSound c.app
      → IsSound (handle_client request draws lease_id now is_open received c).1.app
  unfolding handle_client list_jobs tail_job list_leases
  handle_client-IsSound ClientRequest.list_nodes draws lease_id now is_open received c h =
      send-IsSound _ c h
  handle_client-IsSound (ClientRequest.run_process request) draws lease_id now is_open received c
        h =
      run_process-Keeps IsSound (λ s sent k. record { leases = k.leases; tasks = k.tasks })
        assign-IsSound request draws is_open received c h
  handle_client-IsSound (ClientRequest.list_jobs request) draws lease_id now is_open received c h =
      send-IsSound _ c h
  handle_client-IsSound (ClientRequest.tail_job request) draws lease_id now is_open received c h =
      send-IsSound _ c h
  handle_client-IsSound (ClientRequest.kill_job request) draws lease_id now is_open received c h =
      kill_job-IsSound request is_open c h
  handle_client-IsSound (ClientRequest.job_status request) draws lease_id now is_open received c h =
      job_status-IsSound request draws.job_id c h
  handle_client-IsSound (ClientRequest.create_lease request) draws lease_id now is_open received c
        h =
      create_lease-IsSound request lease_id now c h
  handle_client-IsSound ClientRequest.list_leases draws lease_id now is_open received c h =
      send-IsSound _ c h
  handle_client-IsSound (ClientRequest.release_lease request) draws lease_id now is_open received c
        h =
      release_lease-IsSound request c h
  handle_client-IsSound (ClientRequest.diagnose_job request) draws lease_id now is_open received c
        h =
      diagnose_job-IsSound request draws.job_id now c h

-- ===== src/Coordinator/Clients.antt =====
-- crates/coordinator/src/main.rs: the client requests that read the state or stop a job, and the
-- dispatch of requests to their handlers.
use multinode_controller.Base.{
  max, Bool, true, false, List, [], ◌∷◌, ◌++◌, map, none, some, Text, bytes, eq_text, values,
  length, select,
}
use multinode_controller.Protocol.{
  JobId, TaskId, LeaseId, DateTime, NodeSummary, CoordinatorMessage, ClientRequest, ClientResponse,
  ListJobsRequest, TailJobRequest, JobStatusRequest, KillJobRequest, DiagnoseJobRequest,
}
use multinode_controller.Store.Tables.{Formats}
use multinode_controller.Store.Queries.{get_job, tail_logs}
use multinode_controller.Store.Queries
use multinode_controller.Coordinator.State.{
  Sender, WorkerHandle, AppState, ok, err, Handler, ◌>>◌, send,
}
use multinode_controller.Coordinator.Leases.{create_lease, list_leases, release_lease}
use multinode_controller.Coordinator.Runs.{Draws, Received, run_process}
use multinode_controller.Coordinator.Diagnosis.{build_job_diagnosis}

unfoldable pub node_summary : WorkerHandle → NodeSummary
node_summary node = record {
  node_id = node.info.node_id;
  node_name = node.info.node_name;
  hostname = node.info.hostname;
  online = true;
  last_seen = node.last_seen;
  running_tasks = length node.running_tasks;
  labels = node.info.labels;
}

unfoldable pub list_nodes : AppState → List NodeSummary
list_nodes state = map node_summary (values state.nodes)

-- The tasks of the job on one worker's list, with the worker's channel.
unfoldable pub targets_on : JobId → WorkerHandle → List (Sender × TaskId)
targets_on job_id node =
    map (λ (e : Text × JobId). (node.sender, e.0))
      (select (λ (e : Text × JobId). eq_text e.1 job_id) node.running_tasks)

unfoldable pub kill_targets : JobId → List WorkerHandle → List (Sender × TaskId)
kill_targets job_id [] = []
kill_targets job_id (node ∷ nodes) = targets_on job_id node ++ kill_targets job_id nodes

unfoldable pub send_kills : (Sender → Bool) → List (Sender × TaskId) → Handler (Unit {0})
send_kills is_open [] c = (ok tt, c)
send_kills is_open ((sender, task_id) ∷ rest) c = elim (is_open sender) [
  | false ↦ (err (bytes "failed to dispatch kill to worker"), c)
  | true ↦ send_kills is_open rest (record c {
    app = record c.app { sent = c.app.sent ++ (sender, CoordinatorMessage.kill_task task_id) ∷ [] };
  })
]

unfoldable pub kill_job : KillJobRequest → (Sender → Bool) → Handler (Unit {0})
kill_job request is_open c =
    (send_kills is_open (kill_targets request.job_id (values c.app.nodes))
        >> send ClientResponse.ack)
      c

unfoldable pub not_found : JobId → ClientResponse
not_found job_id = ClientResponse.error (bytes "job " ++ (job_id ++ bytes " was not found"))

module _ ⦃formats : Formats⦄ where
  -- `fresh` is drawn for a job without tasks, `now` read where a stored time does not parse.
  unfoldable pub list_jobs : ListJobsRequest → JobId → Handler (Unit {0})
  list_jobs request fresh c =
      send (ClientResponse.jobs (Queries.list_jobs fresh (max request.limit 1) c.app.store)) c

  unfoldable pub tail_job : TailJobRequest → DateTime → Handler (Unit {0})
  tail_job request now c =
      send (ClientResponse.logs (tail_logs now request.job_id (max request.lines 1) c.app.store)) c

  unfoldable pub job_status : JobStatusRequest → JobId → Handler (Unit {0})
  job_status request fresh c = elim (get_job fresh request.job_id c.app.store) [
    | none ↦ send (not_found request.job_id) c
    | some job ↦ send (ClientResponse.job job) c
  ]

  unfoldable pub diagnose_job : DiagnoseJobRequest → JobId → DateTime → Handler (Unit {0})
  diagnose_job request fresh now c = elim (get_job fresh request.job_id c.app.store) [
    | none ↦ send (not_found request.job_id) c
    | some job ↦
        let logs = tail_logs now request.job_id (max request.lines 1) c.app.store in
        send (ClientResponse.job_diagnosis (build_job_diagnosis job logs)) c
  ]

  -- What a request draws from outside: identifiers, the clock, the workers' channels and, for a
  -- run, the events that the subscription receives.
  unfoldable pub handle_client :
      ClientRequest
      → Draws
      → LeaseId
      → DateTime
      → (Sender → Bool)
      → List Received
      → Handler (Unit {0})
  handle_client ClientRequest.list_nodes draws lease_id now is_open received =
      λ c. send (ClientResponse.nodes (list_nodes c.app)) c
  handle_client (ClientRequest.run_process request) draws lease_id now is_open received =
      run_process request draws is_open received
  handle_client (ClientRequest.list_jobs request) draws lease_id now is_open received =
      list_jobs request draws.job_id
  handle_client (ClientRequest.tail_job request) draws lease_id now is_open received =
      tail_job request now
  handle_client (ClientRequest.kill_job request) draws lease_id now is_open received =
      kill_job request is_open
  handle_client (ClientRequest.job_status request) draws lease_id now is_open received =
      job_status request draws.job_id
  handle_client (ClientRequest.create_lease request) draws lease_id now is_open received =
      create_lease request lease_id now
  handle_client ClientRequest.list_leases draws lease_id now is_open received = list_leases
  handle_client (ClientRequest.release_lease request) draws lease_id now is_open received =
      release_lease request
  handle_client (ClientRequest.diagnose_job request) draws lease_id now is_open received =
      diagnose_job request draws.job_id now

-- ===== src/Cli/Replies.antt =====
-- crates/coordinator/src/main.rs, for the client of crates/cli/src/main.rs: a handler that comes to
-- its end has written a response that ends the request.
use multinode_controller.Base.{
  ℕ, zero, suc, ◌≡◌, refl, Bool, if◌then◌else◌, true, false, List, [], ◌∷◌, ◌++◌, map, Text, values,
  bytes, Bool-cases, Option-cases, ◌⊎◌, inl, inr, get, is_empty,
}
use multinode_controller.Protocol.{
  JobId, NodeId, LeaseId, DateTime, ClientRequest, ClientResponse, CreateLeaseRequest,
  ReleaseLeaseRequest, JobStatusRequest, DiagnoseJobRequest, RunProcessRequest, TaskExited,
}
use multinode_controller.Store.Tables.{Formats}
use multinode_controller.Store.Queries.{get_job}
use multinode_controller.Coordinator.State.{
  Sender, Served, Outcome, err, waiting, Handler, bind_outcome, ◌>>=◌, ◌>>◌, send, write,
}
use multinode_controller.Coordinator.Leases.{create_lease, grant_lease, list_leases, release_lease}
use multinode_controller.Coordinator.LeaseRequests.{create_lease_cases}
use multinode_controller.Coordinator.Runs.{
  Draws, Dispatch, Choice, chosen, refused, Received, leased_nodes, run_assigned, or_all_nodes,
  send_tasks, wait_loop, dispatch_loop, run_process, finish,
}
use multinode_controller.Coordinator.Clients.{
  handle_client, list_jobs, tail_job, send_kills, kill_targets, kill_job, job_status, not_found,
  diagnose_job,
}
use multinode_controller.Cli.Client.{is_done}

-- The last response written is one that ends a request.
abbrev pub LastDone : Served → Type 0
LastDone c =
    (front : List ClientResponse) × ((r : ClientResponse) × ((c.sink.written ≡ front ++ r ∷ [])
        × (is_done r ≡ true)))

abbrev pub Completes : Outcome (Unit {0}) × Served → Type 0
Completes result = result.0 ≡ Outcome.ok tt → LastDone result.1

write-Completes :
    (r : ClientResponse) (n : ℕ) (c : Served) → is_done r ≡ true → Completes (write r n c)
unfolding write
write-Completes r zero c e h = absurd (cc h)
write-Completes r (suc n) c e h = (c.sink.written, (r, (refl, e)))

send-Completes : (r : ClientResponse) (c : Served) → is_done r ≡ true → Completes (send r c)
unfolding send
send-Completes r c e = write-Completes r c.sink.room c e

then-Completes :
    {A : Type 0} (m : Handler A) (f : A → Handler (Unit {0})) (c : Served)
    → ((a : A) (c' : Served) → Completes (f a c'))
    → Completes ((m >>= f) c)
then-Completes {A = A} m f c k = bind-Completes (m c).0 (m c).1
  where
    bind-Completes : (o : Outcome A) (c' : Served) → Completes (bind_outcome o c' f)
    bind-Completes (Outcome.ok a) c' = k a c'
    bind-Completes (err e) c' = λ h. absurd (cc h)
    bind-Completes waiting c' = λ h. absurd (cc h)

Choice-cases :
    (choice : Choice)
    → ((message : Text) × (choice ≡ refused message))
      ⊎ ((selected : List NodeId) × (choice ≡ chosen selected))
Choice-cases (refused message) = inl (message, refl)
Choice-cases (chosen selected) = inr (selected, refl)

choose-Completes :
    (b : Bool) (f g : Handler (Unit {0})) (c : Served)
    → Completes (f c)
    → Completes (g c)
    → Completes ((if b then f else g) c)
choose-Completes true f g c h k = h
choose-Completes false f g c h k = k

create_lease-Completes :
    (request : CreateLeaseRequest) (lease_id : LeaseId) (now : DateTime) (c : Served)
    → Completes (create_lease request lease_id now c)
unfolding grant_lease is_done
create_lease-Completes request lease_id now c =
    create_lease_cases request lease_id now c Completes
      (λ message h. send-Completes (ClientResponse.error message) c refl)
      (λ g. send-Completes _ _ refl)

release_lease-Completes :
    (request : ReleaseLeaseRequest) (c : Served) → Completes (release_lease request c)
unfolding is_done release_lease
release_lease-Completes request c = elim (Option-cases (get request.lease_id c.app.leases)) [
  | inl e ↦ rw (e, release_lease) (send-Completes _ c refl)
  | inr (l, e) ↦ rw (e, release_lease) (send-Completes ClientResponse.ack _ refl)
]

run_assigned-Completes :
    (request : RunProcessRequest) (job_id : JobId) (is_open : Sender → Bool)
    (received : List Received) (d : Dispatch) (c : Served)
    → Completes (run_assigned request job_id is_open received d c)
unfolding is_done run_assigned finish
run_assigned-Completes request job_id is_open received d c =
    choose-Completes (is_empty d.assignments)
      (send (ClientResponse.error (bytes "no connected nodes matched the request")))
      (send told >> (send_tasks is_open d.specs >> ending)) c (send-Completes _ c refl)
      (then-Completes (send told) (λ _. send_tasks is_open d.specs >> ending) c
        (λ _ c1.
          then-Completes (send_tasks is_open d.specs) (λ _. ending) c1
            (λ _ c2.
              choose-Completes request.wait waits (send ClientResponse.ack) c2
                (then-Completes loop (finish job_id) c2 (λ exits c3. send-Completes _ c3 refl))
                (send-Completes ClientResponse.ack c2 refl))))
  where
    told : ClientResponse
    told = ClientResponse.run_started (record { job_id = job_id; tasks = d.assignments })

    loop : Handler (List TaskExited)
    loop = wait_loop received (map (λ a. a.task_id) d.assignments) []

    waits : Handler (Unit {0})
    waits = loop >>= finish job_id

    ending : Handler (Unit {0})
    ending = if request.wait then waits else send ClientResponse.ack

module _ ⦃formats : Formats⦄ where
  run_process-Completes :
      (request : RunProcessRequest) (draws : Draws) (is_open : Sender → Bool)
      (received : List Received) (c : Served)
      → Completes (run_process request draws is_open received c)
  unfolding is_done run_process
  run_process-Completes request draws is_open received c =
      elim (Bool-cases (is_empty request.argv)) [
        | inl e ↦ rw e (send-Completes _ c refl)
        | inr e ↦ elim (Choice-cases (leased_nodes request c.app.leases)) [
          | inl (message, f) ↦ rw (e, f) (send-Completes _ c refl)
          | inr (selected, f) ↦
              rw (e, f)
                (then-Completes (dispatch_loop request draws 0 (or_all_nodes c.app.nodes selected))
                  (run_assigned request draws.job_id is_open received) c
                  (λ d c1. run_assigned-Completes request draws.job_id is_open received d c1))
        ]
      ]

  job_status-Completes :
      (request : JobStatusRequest) (fresh : JobId) (c : Served)
      → Completes (job_status request fresh c)
  unfolding is_done job_status not_found
  job_status-Completes request fresh c =
      elim (Option-cases (get_job fresh request.job_id c.app.store)) [
        | inl e ↦ rw (e, job_status) (send-Completes _ c refl)
        | inr (job, e) ↦ rw (e, job_status) (send-Completes _ c refl)
      ]

  diagnose_job-Completes :
      (request : DiagnoseJobRequest) (fresh : JobId) (now : DateTime) (c : Served)
      → Completes (diagnose_job request fresh now c)
  unfolding is_done diagnose_job not_found
  diagnose_job-Completes request fresh now c =
      elim (Option-cases (get_job fresh request.job_id c.app.store)) [
        | inl e ↦ rw (e, diagnose_job) (send-Completes _ c refl)
        | inr (job, e) ↦ rw (e, diagnose_job) (send-Completes _ c refl)
      ]

  pub handle_client-Completes :
      (request : ClientRequest) (draws : Draws) (lease_id : LeaseId) (now : DateTime)
      (is_open : Sender → Bool) (received : List Received) (c : Served)
      → Completes (handle_client request draws lease_id now is_open received c)
  unfolding handle_client is_done list_jobs tail_job kill_job list_leases
  handle_client-Completes ClientRequest.list_nodes draws lease_id now is_open received c =
      send-Completes _ c refl
  handle_client-Completes (ClientRequest.run_process request) draws lease_id now is_open received
        c =
      run_process-Completes request draws is_open received c
  handle_client-Completes (ClientRequest.list_jobs request) draws lease_id now is_open received c =
      send-Completes _ c refl
  handle_client-Completes (ClientRequest.tail_job request) draws lease_id now is_open received c =
      send-Completes _ c refl
  handle_client-Completes (ClientRequest.kill_job request) draws lease_id now is_open received c =
      then-Completes (send_kills is_open (kill_targets request.job_id (values c.app.nodes)))
        (λ _. send ClientResponse.ack) c (λ done c'. send-Completes ClientResponse.ack c' refl)
  handle_client-Completes (ClientRequest.job_status request) draws lease_id now is_open received c =
      job_status-Completes request draws.job_id c
  handle_client-Completes (ClientRequest.create_lease request) draws lease_id now is_open received
        c =
      create_lease-Completes request lease_id now c
  handle_client-Completes ClientRequest.list_leases draws lease_id now is_open received c =
      send-Completes _ c refl
  handle_client-Completes (ClientRequest.release_lease request) draws lease_id now is_open received
        c =
      release_lease-Completes request c
  handle_client-Completes (ClientRequest.diagnose_job request) draws lease_id now is_open received
        c =
      diagnose_job-Completes request draws.job_id now c

-- ===== src/Cli/Programs.antt =====
-- crates/cli/src/main.rs: the steps that the commands are made of. What a request gives, with the
-- coordinator's address and the token that `main` has read, is the interface `Server`.
use multinode_controller.Base.{
  ℕ, true, List, [], ◌∷◌, ◌++◌, map, Option, none, some, Text, bytes, eq_text, is_empty, Map,
  if◌then◌else◌,
}
use multinode_controller.Protocol.{
  NodeId, LeaseId, JobId, FilePath, ClientRequest, ClientResponse, RunProcessRequest, NodeSummary,
  JobSummary, LeaseSummary, JobFinished,
}
use multinode_controller.Coordinator.State.{Outcome, ok, err, waiting}
use multinode_controller.Cli.Output.{
  log_text, run_started_text, task_started_text, task_exited_text, show_bool,
}

-- How a command ends: with a value, with an error, by `process::exit`, or not, since it waits for
-- a response for good.
pub data Ending (A : Type 0) : Type 0 where
  done : A → Ending A
  failed : Text → Ending A
  exit : ℕ → Ending A
  pending : Ending A

-- `request`, and what may happen while the client sleeps.
pub record Server : Type 1 where
  pub World : Type 0
  pub request : ClientRequest → World → Outcome (List ClientResponse) × World
  pub sleep : ℕ → World → World

pub record Session (World : Type 0) : Type 0 where
  pub world : World
  pub printed : List Text

abbrev pub Program : Type 0 → Type 0 → Type 0
Program World A = Session World → Ending A × Session World

-- `leases.into_iter().find(..)`, by the identifier.
unfoldable pub lease_named : LeaseId → List LeaseSummary → Option LeaseSummary
lease_named lease_id [] = none
lease_named lease_id (lease ∷ leases) =
    let later = lease_named lease_id leases in
    if eq_text lease.lease_id lease_id then some lease else later

module _ {World : Type 0} where
  unfoldable pub continue_with : {A B : Type 0} → Ending A → (A → Program World B) → Program World B
  continue_with (done a) f s = f a s
  continue_with (failed e) f s = (failed e, s)
  continue_with (exit code) f s = (exit code, s)
  continue_with pending f s = (pending, s)

  infixl 5 ◌await◌ ◌next◌
  abbrev pub ◌await◌ : {A B : Type 0} → Program World A → (A → Program World B) → Program World B
  ◌await◌ m f s = continue_with (m s).0 f (m s).1

  abbrev pub ◌next◌ : {B : Type 0} → Program World (Unit {0}) → Program World B → Program World B
  m next k = m await λ _. k

  abbrev pub return : {A : Type 0} → A → Program World A
  return a s = (done a, s)

  -- `bail!`.
  abbrev pub bail : {A : Type 0} → Text → Program World A
  bail e s = (failed e, s)

  abbrev pub println : List Text → Program World (Unit {0})
  println lines s = (done tt, record s { printed = s.printed ++ lines })

  -- The loop over the responses that prints those of one kind and fails at an error.
  unfoldable pub print_each :
      (ClientResponse → List Text) → List ClientResponse → Program World (Unit {0})
  print_each lines [] = return tt
  print_each lines (ClientResponse.error message ∷ rest) = bail message
  print_each lines (response ∷ rest) = println (lines response) next print_each lines rest

  unfoldable pub on_finished : JobFinished → Program World (Unit {0}) → Program World (Unit {0})
  on_finished finished later =
      println (
        (bytes "finished "
          ++ (finished.job_id ++ (bytes " success=" ++ show_bool finished.success)))
        ∷ [])
      next (if finished.success then later else λ s. (exit 1, s))

  unfoldable pub print_run_responses : List ClientResponse → Program World (Unit {0})
  print_run_responses [] = return tt
  print_run_responses (ClientResponse.run_started started ∷ rest) =
      println (run_started_text started ∷ []) next print_run_responses rest
  print_run_responses (ClientResponse.task_started started ∷ rest) =
      println (task_started_text started started.pid) next print_run_responses rest
  print_run_responses (ClientResponse.log_line line ∷ rest) =
      println (log_text line ∷ []) next print_run_responses rest
  print_run_responses (ClientResponse.task_exited exited ∷ rest) =
      println (task_exited_text exited ∷ []) next print_run_responses rest
  print_run_responses (ClientResponse.job_finished finished ∷ rest) =
      on_finished finished (print_run_responses rest)
  print_run_responses (ClientResponse.error message ∷ rest) = bail message
  print_run_responses (response ∷ rest) = print_run_responses rest

  unfoldable pub find_nodes : List ClientResponse → Program World (List NodeSummary)
  find_nodes [] = return []
  find_nodes (ClientResponse.nodes nodes ∷ rest) = return nodes
  find_nodes (ClientResponse.error message ∷ rest) = bail message
  find_nodes (response ∷ rest) = find_nodes rest

  unfoldable pub find_job : List ClientResponse → Program World JobSummary
  find_job [] = bail (bytes "coordinator did not return a job status")
  find_job (ClientResponse.job job ∷ rest) = return job
  find_job (ClientResponse.error message ∷ rest) = bail message
  find_job (response ∷ rest) = find_job rest

  unfoldable pub find_leases : List ClientResponse → Program World (List LeaseSummary)
  find_leases [] = return []
  find_leases (ClientResponse.leases leases ∷ rest) = return leases
  find_leases (ClientResponse.error message ∷ rest) = bail message
  find_leases (response ∷ rest) = find_leases rest

  unfoldable pub nodes_of_lease : LeaseId → Option LeaseSummary → Program World (List NodeId)
  nodes_of_lease lease_id none = bail (bytes "lease " ++ (lease_id ++ bytes " was not found"))
  nodes_of_lease lease_id (some lease) = return lease.nodes

unfoldable pub ending_of : {A : Type 0} → Outcome A → Ending A
ending_of (ok a) = done a
ending_of (err e) = failed e
ending_of waiting = pending

module _ (server : Server) where
  open server use {World}

  unfoldable pub call : ClientRequest → Program World (List ClientResponse)
  call r s =
      let (outcome, world) = server.request r s.world in
      (ending_of outcome, record s { world = world })

  unfoldable pub fetch_nodes : Program World (List NodeSummary)
  fetch_nodes = call ClientRequest.list_nodes await find_nodes

  unfoldable pub fetch_job : JobId → Program World JobSummary
  fetch_job job_id = call (ClientRequest.job_status (record { job_id = job_id })) await find_job

  unfoldable pub fetch_leases : Program World (List LeaseSummary)
  fetch_leases = call ClientRequest.list_leases await find_leases

  -- Without nodes: those of the lease, or all.
  unfoldable pub nodes_by_lease : Option Text → Program World (List NodeId)
  nodes_by_lease none = fetch_nodes await λ nodes. return (map (λ node. node.node_id) nodes)
  nodes_by_lease (some lease_id) =
      fetch_leases await λ leases. nodes_of_lease lease_id (lease_named lease_id leases)

  unfoldable pub resolve_target_nodes : List Text → Option Text → Program World (List NodeId)
  resolve_target_nodes nodes lease = if is_empty nodes then nodes_by_lease lease else return nodes

  unfoldable pub run_and_print_with_request : RunProcessRequest → Program World (Unit {0})
  run_and_print_with_request request_data =
      call (ClientRequest.run_process request_data) await print_run_responses

  unfoldable pub run_and_print :
      List Text
      → Option FilePath
      → List Text
      → Map (Map Text)
      → Option LeaseId
      → Program World (Unit {0})
  run_and_print nodes cwd argv node_env lease_id = run_and_print_with_request (record {
    nodes = nodes;
    argv = argv;
    cwd = cwd;
    env = [];
    node_env = node_env;
    lease_id = lease_id;
    timeout = none;
    wait = true;
  })

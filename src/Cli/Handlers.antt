-- ===== src/Cli/Handlers.antt =====
-- crates/cli/src/main.rs: the commands, from `main` on, as programs over the requests.
use multinode_controller.Base.{
  ℕ, zero, suc, max, true, List, [], ◌∷◌, Option, none, some, Text, bytes, eq_text, ltb,
  if◌then◌else◌,
}
use multinode_controller.Protocol.{
  NodeId, JobId, DurationSpec, ClientRequest, ClientResponse, RunProcessRequest, NodeSummary,
}
use multinode_controller.Store.Tables.{Formats}
use multinode_controller.Cli.Commands.{
  InventoryCommand, HealthCommand, NcclArgs, MlCommand, torchrun, TorchrunArgs, LeaseCommand,
  JobCommand, Command, inventory_gpu_argv, inventory_cuda_argv, inventory_torch_argv,
  health_gpu_argv, health_torch_argv, nccl_smoke_argv,
}
use multinode_controller.Cli.Output.{
  log_lines, print_job_diagnosis, print_nodes, print_job_list, print_job_status, print_leases,
}
use multinode_controller.Cli.Torchrun.{torchrun_request_parts, default_master_addr}
use multinode_controller.Cli.Programs.{
  Server, Program, pending, ◌await◌, ◌next◌, return, println, print_each, call, fetch_nodes,
  fetch_job, fetch_leases, resolve_target_nodes, run_and_print_with_request, run_and_print,
}

-- What the loops over the responses print, of the one kind that each looks for.
unfoldable pub log_response : ClientResponse → List Text
log_response (ClientResponse.logs lines) = log_lines lines
log_response response = []

unfoldable pub ack_response : Text → ClientResponse → List Text
ack_response text ClientResponse.ack = text ∷ []
ack_response text response = []

unfoldable pub diagnosis_response : ClientResponse → List Text
diagnosis_response (ClientResponse.job_diagnosis diagnosis) = print_job_diagnosis diagnosis
diagnosis_response response = []

unfoldable pub timeout_of : Option ℕ → Option DurationSpec
timeout_of none = none
timeout_of (some seconds) = some (record { seconds = seconds })

unfoldable pub master_addr_or : Option Text → List NodeId → List NodeSummary → Text
master_addr_or (some addr) nodes summaries = addr
master_addr_or none nodes summaries = default_master_addr nodes summaries

-- The request of a command that runs under torchrun.
unfoldable pub torchrun_request : TorchrunArgs → List NodeId → List NodeSummary → RunProcessRequest
torchrun_request args nodes summaries =
    let (argv, node_env) =
      torchrun_request_parts nodes args.gpus_per_node
        (master_addr_or args.master_addr nodes summaries) args.master_port args.argv in
    record {
      nodes = nodes;
      argv = argv;
      cwd = args.cwd;
      env = [];
      node_env = node_env;
      lease_id = args.lease;
      timeout = timeout_of args.timeout_seconds;
      wait = args.wait;
    }

-- `health nccl` differs from `ml torchrun` in its arguments only.
unfoldable pub nccl_torchrun : NcclArgs → TorchrunArgs
nccl_torchrun args = record {
  nodes = args.nodes;
  lease = args.lease;
  gpus_per_node = args.gpus_per_node;
  master_addr = args.master_addr;
  master_port = args.master_port;
  cwd = args.cwd;
  wait = true;
  timeout_seconds = none;
  argv = nccl_smoke_argv;
}

module _ ⦃formats : Formats⦄ (server : Server) where
  open server use {World, sleep}

  unfoldable pub jobs_response : ClientResponse → List Text
  jobs_response (ClientResponse.jobs jobs) = print_job_list jobs
  jobs_response response = []

  unfoldable pub lease_response : ClientResponse → List Text
  lease_response (ClientResponse.lease_created lease) = print_leases (lease ∷ [])
  lease_response response = []

  unfoldable pub run_torchrun : TorchrunArgs → Program World (Unit {0})
  run_torchrun args = resolve_target_nodes server args.nodes args.lease await λ selected_nodes.
      fetch_nodes server await λ node_summaries.
      run_and_print_with_request server (torchrun_request args selected_nodes node_summaries)

  unfoldable pub handle_inventory : InventoryCommand → Program World (Unit {0})
  handle_inventory InventoryCommand.nodes =
      fetch_nodes server await λ nodes. println (print_nodes nodes)
  handle_inventory (InventoryCommand.gpu nodes) =
      run_and_print server nodes none inventory_gpu_argv [] none
  handle_inventory (InventoryCommand.cuda nodes) =
      run_and_print server nodes none inventory_cuda_argv [] none
  handle_inventory (InventoryCommand.torch nodes) =
      run_and_print server nodes none inventory_torch_argv [] none

  unfoldable pub handle_health : HealthCommand → Program World (Unit {0})
  handle_health (HealthCommand.gpu nodes) = run_and_print server nodes none health_gpu_argv [] none
  handle_health (HealthCommand.torch nodes) =
      run_and_print server nodes none health_torch_argv [] none
  handle_health (HealthCommand.nccl args) = run_torchrun (nccl_torchrun args)

  unfoldable pub handle_ml : MlCommand → Program World (Unit {0})
  handle_ml (torchrun args) = run_torchrun args

  unfoldable pub handle_lease : LeaseCommand → Program World (Unit {0})
  handle_lease (LeaseCommand.create nodes count gpus_per_node exclusive) =
      call server (
        ClientRequest.create_lease (record {
          nodes = nodes;
          count = count;
          gpus_per_node = gpus_per_node;
          exclusive = exclusive;
        }))
      await print_each lease_response
  handle_lease LeaseCommand.list = fetch_leases server await λ leases. println (print_leases leases)
  handle_lease (LeaseCommand.release lease_id) =
      call server (ClientRequest.release_lease (record { lease_id = lease_id }))
      await print_each (ack_response (bytes "lease released"))

  unfoldable pub tail : JobId → ℕ → Program World (Unit {0})
  tail job_id lines =
      call server (ClientRequest.tail_job (record { job_id = job_id; lines = lines }))
      await print_each log_response

  -- The loop of `watch_job`, for the rounds given.
  unfoldable pub watch_rounds : ℕ → JobId → ℕ → ℕ → Program World (Unit {0})
  watch_rounds zero job_id interval lines = λ s. (pending, s)
  watch_rounds (suc rounds) job_id interval lines = fetch_job server job_id await λ job.
      println (print_job_status job)
      next (if ltb 0 lines then tail job_id lines else return tt)
      next (if eq_text job.status (bytes "running")
          then (λ s.
              watch_rounds rounds job_id interval lines
                (record s { world = sleep interval s.world }))
          else return tt)

  unfoldable pub watch_job : ℕ → JobId → ℕ → ℕ → Program World (Unit {0})
  watch_job rounds job_id interval lines = watch_rounds rounds job_id (max interval 1) lines

  unfoldable pub handle_job : ℕ → JobCommand → Program World (Unit {0})
  handle_job rounds (JobCommand.list limit) =
      call server (ClientRequest.list_jobs (record { limit = limit }))
      await print_each jobs_response
  handle_job rounds (JobCommand.tail job_id lines) = tail job_id lines
  handle_job rounds (JobCommand.kill job_id) =
      call server (ClientRequest.kill_job (record { job_id = job_id }))
      await print_each (ack_response (bytes "kill requested"))
  handle_job rounds (JobCommand.status job_id) =
      fetch_job server job_id await λ job. println (print_job_status job)
  handle_job rounds (JobCommand.watch job_id interval lines) =
      watch_job rounds job_id interval lines
  handle_job rounds (JobCommand.diagnose job_id lines) =
      call server (ClientRequest.diagnose_job (record { job_id = job_id; lines = lines }))
      await print_each diagnosis_response

  -- `main`, once the token is read; `rounds` bounds the loop of `job watch`.
  unfoldable pub main : ℕ → Command → Program World (Unit {0})
  main rounds Command.nodes = fetch_nodes server await λ nodes. println (print_nodes nodes)
  main rounds (Command.inventory command) = handle_inventory command
  main rounds (Command.health command) = handle_health command
  main rounds (Command.ml command) = handle_ml command
  main rounds (Command.lease command) = handle_lease command
  main rounds (Command.run nodes cwd wait timeout_seconds argv) =
      run_and_print_with_request server (record {
        nodes = nodes;
        argv = argv;
        cwd = cwd;
        env = [];
        node_env = [];
        lease_id = none;
        timeout = timeout_of timeout_seconds;
        wait = wait;
      })
  main rounds (Command.job command) = handle_job rounds command

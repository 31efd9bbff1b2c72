-- ===== src/Cli/Tests.antt =====
-- The quoting of the client program at a concrete input.
use multinode_controller.Base.{
  length, get, any, select, text_dec, true, none, arith, ok, is_empty, show, digits_onto, try, ◌++◌,
  refl, ◌≡◌, Map, Text, [], ◌∷◌, some, bytes,
}
use multinode_controller.Protocol.{WireMessage, ClientRequest}
use multinode_controller.Samples.{busy, served, plain_formats}
use multinode_controller.Coordinator.State.{LeaseRecord, AppState, Served, Outcome, send, write}
use multinode_controller.Coordinator.LeaseTable.{IsLeaseTable}
use multinode_controller.Coordinator.Runs.{leased_nodes, chosen}
use multinode_controller.Coordinator.Clients.{
  handle_client, kill_job, send_kills, kill_targets, targets_on, list_nodes, node_summary,
}
use multinode_controller.Cli.Commands.{Command, TorchrunArgs}
use multinode_controller.Cli.Output.{row, print_nodes, node_row, show_bool}
use multinode_controller.Cli.Client.{is_done, on_wire, on_parsed, read_responses}
use multinode_controller.Cli.Programs.{
  Session, done, continue_with, ending_of, call, find_nodes, fetch_nodes, resolve_target_nodes,
}
use multinode_controller.Cli.Handlers.{torchrun_request, main}
use multinode_controller.Cli.Completion.{Read, delivered, handle_client-completes}
use multinode_controller.Cli.Targets.{
  Draw, Live, fresh_served, after_handler, serve, coordinator, resolve_target_nodes-lease,
}
use multinode_controller.Cli.Torchrun.{IsRanked, torchrun_request_parts, get-torchrun_request_parts}
use multinode_controller.Cli.Quoting.{Mode, shell_words, quote_all, shell_words-quote_all}

shell_words-quote_all_example :
    shell_words Mode.between [] (quote_all (bytes "it's" ∷ bytes "a b" ∷ []))
    ≡ some (bytes "it's" ∷ bytes "a b" ∷ [])
shell_words-quote_all_example = shell_words-quote_all (bytes "it's" ∷ bytes "a b" ∷ [])

get-torchrun_request_parts_example :
    (env : Map Text) × (get
        (bytes "b")
        (torchrun_request_parts
          ((bytes "a" ∷ []) ++ bytes "b" ∷ bytes "c" ∷ [])
          8
          (bytes "host-a")
          29500
          (bytes "train.py" ∷ [])).1
      ≡ some env)
    × IsRanked
        (length (bytes "a" ∷ []))
        (length ((bytes "a" ∷ []) ++ bytes "b" ∷ bytes "c" ∷ []))
        8
        (bytes "host-a")
        29500
        env
unfolding any text_dec bytes
get-torchrun_request_parts_example =
    get-torchrun_request_parts (bytes "a" ∷ []) (bytes "b") (bytes "c" ∷ []) 8 (bytes "host-a")
      29500 (bytes "train.py" ∷ []) refl

-- A lease over two nodes, and the coordinator that has it. A message is its own text.
abbrev two_nodes : LeaseRecord
two_nodes = record {
  lease_id = bytes "l";
  nodes = bytes "a" ∷ bytes "b" ∷ [];
  gpus_per_node = some 8;
  exclusive = true;
  created_at = 1;
}

abbrev leasing : AppState
leasing = record busy { leases = (bytes "l", two_nodes) ∷ [] }

abbrev draw : Draw
draw = record {
  draws = record { job_id = bytes "j"; task_id = λ i. i ∷ []; time = λ i. i };
  lease_id = bytes "m";
  now = 5;
  is_open = λ sender. true;
  received = [];
  room = 9;
}

abbrev session : Session Live
session = record { world = record { app = leasing; coming = λ n. draw }; printed = [] }

abbrev args : TorchrunArgs
args = record {
  nodes = [];
  lease = some (bytes "l");
  gpus_per_node = 8;
  master_addr = none;
  master_port = 29500;
  cwd = none;
  wait = true;
  timeout_seconds = none;
  argv = bytes "train.py" ∷ [];
}

leasing-IsLeaseTable : IsLeaseTable leasing.leases
unfolding is_empty
leasing-IsLeaseTable = record { compatible = (tt, tt); keyed = ((refl, refl), tt) }

abbrev itself : WireMessage → WireMessage
itself m = m

resolve_target_nodes-lease_example :
    (resolve_target_nodes (coordinator itself ok) [] (some (bytes "l")) session ≡ (
      done (bytes "a" ∷ bytes "b" ∷ []),
      record session { world = record { app = leasing; coming = λ n. draw } },
    ))
    × (leased_nodes (torchrun_request args (bytes "a" ∷ bytes "b" ∷ []) []) leasing.leases
        ≡ chosen (bytes "a" ∷ bytes "b" ∷ []))
unfolding get text_dec bytes
resolve_target_nodes-lease_example =
    resolve_target_nodes-lease itself ok (λ m. refl) args (bytes "l") two_nodes [] session
      leasing-IsLeaseTable refl refl (omega arith)

-- A kill that the coordinator completes is answered with one acknowledgement.
abbrev kill_request : ClientRequest
kill_request = ClientRequest.kill_job (record { job_id = bytes "j" })

abbrev killed : Outcome (Unit {0}) × Served
killed = handle_client kill_request draw.draws draw.lease_id draw.now draw.is_open [] served

killed-ok : killed.0 ≡ Outcome.ok tt
unfolding handle_client kill_job send_kills kill_targets targets_on select text_dec bytes send write
killed-ok = refl

handle_client-completes_example :
    Read (λ incoming. read_responses ok incoming []) (delivered itself) [] killed.1.sink.written
handle_client-completes_example =
    handle_client-completes itself ok (λ m. refl) kill_request draw.draws draw.lease_id draw.now
      draw.is_open [] served killed-ok

-- `nodes` prints the one worker.
nodes-printed :
    (main (coordinator itself ok) 0 Command.nodes session).1.printed
    ≡ row
        (bytes "NODE" ∷ bytes "HOSTNAME" ∷ bytes "ONLINE" ∷ bytes "TASKS" ∷ bytes "LAST_SEEN" ∷ [])
      ∷ row (bytes "a" ∷ bytes "host-a" ∷ bytes "true" ∷ bytes "1" ∷ (1 ∷ []) ∷ [])
      ∷ []
unfolding main fetch_nodes call serve handle_client fresh_served after_handler send write
    read_responses on_parsed on_wire is_done ending_of continue_with find_nodes print_nodes node_row
    list_nodes node_summary show_bool show digits_onto bytes try
nodes-printed = refl

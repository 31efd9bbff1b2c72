-- ===== src/Worker/Start.antt =====
-- crates/worker/src/main.rs: `run_worker` from its arguments on, with the tasks that it starts.
use multinode_controller.Base.{ℤ, List, [], map, Option, none, some, Text, Result, ok, err}
use multinode_controller.Protocol.{DateTime, FilePath, NodeInfo, new_node_info, WireMessage}
use multinode_controller.Auth.Requests.{AuthRole, Http, read_optional_token, websocket_request}
use multinode_controller.Policy.Rules.{PolicyConfig, ConfigPolicy, default_policy, from_path}
use multinode_controller.Policy.Launch.{Launch, start_task}
use multinode_controller.Socket.{Incoming}
use multinode_controller.Executor.Runs.{LocalExecutor, Signal}
use multinode_controller.Worker.Connection.{Connection, connected, message_loop}

pub record Args : Type 0 where
  pub coordinator : Text
  pub node_name : Option Text
  pub workspace_root : Option FilePath
  pub policy : Option FilePath
  pub token_file : Option FilePath

unfoldable pub name_or : Option Text → Text → Text
name_or none hostname = hostname
name_or (some name) hostname = name

-- How `run_worker` ends once it is connected, with what the tasks that it spawned come to.
pub record Worked : Type 0 where
  pub result : Result (Unit {0})
  pub connection : Connection
  pub launches : List Launch

-- What the worker has of the host.
pub record Machine : Type 0 where
  pub os : Text
  pub arch : Text
  pub now : DateTime
  pub hostname : Option Text
  pub read_to_string : FilePath → Result Text
  pub read_token : Text → Option Text
  pub policy_from_str : Text → Result PolicyConfig
  pub killpg : ℤ → Signal → Result (Unit {0})
  pub from_text : Text → Result WireMessage

module _ (machine : Machine) where
  open machine use {
    os, arch, now, hostname, read_to_string, read_token, policy_from_str, killpg, from_text,
  }

  unfoldable pub policy_of : Option FilePath → Result ConfigPolicy
  policy_of none = ok default_policy
  policy_of (some path) = from_path read_to_string policy_from_str path

  -- From the registration on.
  unfoldable pub with_policy :
      NodeInfo → List (LocalExecutor × Incoming Text) → Result ConfigPolicy → Worked
  with_policy node incoming (err e) = record {
    result = err e;
    connection = connected node;
    launches = [];
  }
  with_policy node incoming (ok policy) =
      let (result, connection) =
        message_loop from_text killpg node.node_id incoming (connected node) in
      record {
        result = result;
        connection = connection;
        launches = map (λ spec. start_task spec policy) connection.spawned;
      }

  -- `none` where the host's name, the token, the request or the connection fails, whose errors are
  -- not modelled. `connect` makes the handshake and gives what is then to be read.
  unfoldable pub run_worker :
      (http : Http) (connect : http.Request → Option (List (LocalExecutor × Incoming Text)))
      → Args
      → Option Worked
  run_worker http connect args = elim hostname [
    | none ↦ none
    | some host ↦ elim (read_optional_token read_token args.token_file) [
      | none ↦ none
      | some token ↦ elim (websocket_request http args.coordinator AuthRole.worker token) [
        | none ↦ none
        | some request ↦ elim (connect request) [
          | none ↦ none
          | some incoming ↦ some (
              with_policy (new_node_info os arch now (name_or args.node_name host) host) incoming
                (policy_of args.policy))
        ]
      ]
    ]
  ]

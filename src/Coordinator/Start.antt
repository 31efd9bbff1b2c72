-- ===== src/Coordinator/Start.antt =====
-- crates/coordinator/src/main.rs: `main`, from the arguments to the connections that it accepts.
use multinode_controller.Base.{
  Bool, not, List, [], ◌∷◌, ◌++◌, Option, none, some, Text, bytes, Result, ok, err, try,
  with_context, join_path,
}
use multinode_controller.Protocol.{FilePath, WireMessage}
use multinode_controller.Store.Tables.{JobStore}
use multinode_controller.Auth.Requests.{AuthConfig, Checked, Http, from_files}
use multinode_controller.Coordinator.State.{AppState}
use multinode_controller.Coordinator.System.{initial}
use multinode_controller.Coordinator.Connections.{Route, enabled, handle_connection}

pub record Args : Type 0 where
  pub listen : Text
  pub db : Option FilePath
  pub token_file : Option FilePath
  pub worker_token_file : Option FilePath
  pub client_token_file : Option FilePath

unfoldable pub or_home : Option FilePath → FilePath
or_home none = bytes "."
or_home (some home) = home

unfoldable pub default_db_path : (home : Option FilePath) → FilePath
default_db_path home =
    join_path (join_path (or_home home) (bytes ".agent-runtime")) (bytes "coordinator.sqlite")

unfoldable pub db_path : Args → (home : Option FilePath) → FilePath
db_path args home = elim args.db [ none ↦ default_db_path home | some path ↦ path ]

-- The daemon before its first connection; `is_warned` says that authentication is disabled.
pub record Daemon : Type 0 where
  pub state : AppState
  pub auth : AuthConfig
  pub is_warned : Bool

-- The texts of the errors of token files are not modelled, `broken` stands for them.
unfoldable pub loaded : (broken : Text) → Option AuthConfig → Result AuthConfig
loaded broken none = err broken
loaded broken (some auth) = ok auth

unfoldable pub start :
    (home : Option FilePath) (read_to_string : Text → Option Text) (broken : Text)
    (open_store : FilePath → Result JobStore) (bind : Text → Result (Unit {0}))
    → Args
    → Result Daemon
start home read_to_string broken open_store bind args =
    try
      (loaded broken
        (from_files read_to_string args.token_file args.worker_token_file args.client_token_file))
      λ auth. try (open_store (db_path args home)) λ store.
        try (with_context (bytes "failed to bind " ++ args.listen) (bind args.listen)) λ bound.
          ok (record { state = initial store; auth = auth; is_warned = not (enabled auth) })

module _ (http : Http) where
  -- The loop over the connections, each with its handshake and its first message: what each comes
  -- to, and the error that ends the loop.
  unfoldable pub accept_loop :
      AuthConfig
      → List (Result (http.Request × Option WireMessage))
      → List (Checked Route) × Option Text
  accept_loop auth [] = ([], none)
  accept_loop auth (err e ∷ rest) = ([], some e)
  accept_loop auth (ok (request, message) ∷ rest) =
      let (routes, end) = accept_loop auth rest in
      (handle_connection http auth request message ∷ routes, end)

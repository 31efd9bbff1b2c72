-- ===== src/Runtime/Config.antt =====
-- crates/runtime/src/main.rs: the configuration, from the environment, and the commands it gives.
use multinode_controller.Base.{
  Bool, List, [], ◌∷◌, ◌++◌, Option, none, some, Text, bytes, eq_text, if◌then◌else◌, Result, ok,
  err, try, join_path,
}
use multinode_controller.Protocol.{FilePath}
use multinode_controller.Cli.Quoting.{shell_quote, quote_all}

pub data Role : Type 0 where
  auto master worker : Role

pub data CommandKind : Type 0 where
  start : CommandKind
  stop : CommandKind
  status : CommandKind

pub data Mode : Type 0 where
  foreground tmux : Mode

pub data ResolvedRole : Type 0 where
  master worker : ResolvedRole

pub record Config : Type 0 where
  pub rank : Text
  pub role : Role
  pub mode : Mode
  pub session : Text
  pub port : Text
  pub listen : Text
  pub coordinator_url : Text
  pub runtime_dir : FilePath
  pub worker_token_file : FilePath
  pub client_token_file : FilePath
  pub db : FilePath
  pub node_name : Text
  pub policy : Option FilePath
  pub coordinator_bin : Text
  pub worker_bin : Text

-- `unwrap_or_else`.
unfoldable pub or_default {ℓ} : {A : Type ℓ} → Option A → A → A
or_default none default = default
or_default (some a) default = a

-- `or_else`.
unfoldable pub or_other {ℓ} : {A : Type ℓ} → Option A → Option A → Option A
or_other none other = other
or_other (some a) other = some a

-- `env::var` gives the variables that are set to UTF-8, `env::var_os` all that are set; `from_str`
-- is what clap derives for the two enumerations.
pub record Environment : Type 0 where
  pub var : Text → Option Text
  pub var_os : Text → Option Text
  pub hostname : Option Text
  pub role_from_str : Text → Option Role
  pub mode_from_str : Text → Option Mode

module _ (environment : Environment) where
  open environment use {var, var_os, hostname, role_from_str, mode_from_str}

  unfoldable pub env_or : Text → Text → Text
  env_or key default = or_default (var key) default

  unfoldable pub env_path : Text → Option FilePath
  env_path key = var_os key

  unfoldable pub value_or : {T : Type 0} → Text → Text → Option T → Result T
  value_or key value none = err (bytes "invalid " ++ (key ++ (bytes "=" ++ value)))
  value_or key value (some t) = ok t

  unfoldable pub env_value : {T : Type 0} → (Text → Option T) → Text → T → Result T
  env_value from_str key default = elim (var key) [
    | none ↦ ok default
    | some value ↦ value_or key value (from_str value)
  ]

  unfoldable pub default_runtime_dir : FilePath
  default_runtime_dir =
      join_path (or_default (var_os (bytes "HOME")) (bytes ".")) (bytes ".agent-runtime")

  unfoldable pub hostname_string : Text
  hostname_string = or_default hostname (bytes "node")

  unfoldable pub from_env : Result Config
  from_env =
      let rank = env_or (bytes "RANK") (bytes "0") in
      let port =
        or_default (or_other (var (bytes "PORT")) (var (bytes "MASTER_PORT"))) (bytes "8765") in
      let coordinator_addr =
        or_default (or_other (var (bytes "COORDINATOR_ADDR")) (var (bytes "MASTER_ADDR")))
          (bytes "127.0.0.1") in
      let coordinator_url =
        or_default (var (bytes "COORDINATOR_URL"))
          (bytes "ws://" ++ (coordinator_addr ++ (bytes ":" ++ port))) in
      let listen = or_default (var (bytes "LISTEN")) (bytes "0.0.0.0:" ++ port) in
      let runtime_dir = or_default (env_path (bytes "RUNTIME_DIR")) default_runtime_dir in
      let worker_token_file =
        or_default (env_path (bytes "WORKER_TOKEN_FILE"))
          (join_path runtime_dir (bytes "worker.token")) in
      let client_token_file =
        or_default (env_path (bytes "CLIENT_TOKEN_FILE"))
          (join_path runtime_dir (bytes "client.token")) in
      let db =
        or_default (env_path (bytes "DB")) (join_path runtime_dir (bytes "coordinator.sqlite")) in
      let node_name =
        or_default (var (bytes "NODE_NAME")) (hostname_string ++ (bytes "-rank-" ++ rank)) in
      let policy = env_path (bytes "POLICY") in
      let session = or_default (var (bytes "SESSION")) (bytes "agent-runtime-" ++ port) in
      try (env_value role_from_str (bytes "ROLE") auto) λ role.
        try (env_value mode_from_str (bytes "MODE") foreground) λ mode. ok (record {
          rank = rank;
          role = role;
          mode = mode;
          session = session;
          port = port;
          listen = listen;
          coordinator_url = coordinator_url;
          runtime_dir = runtime_dir;
          worker_token_file = worker_token_file;
          client_token_file = client_token_file;
          db = db;
          node_name = node_name;
          policy = policy;
          coordinator_bin = env_or (bytes "AGENT_COORDINATOR_BIN") (bytes "agent-coordinator");
          worker_bin = env_or (bytes "AGENT_WORKER_BIN") (bytes "agent-worker");
        })

unfoldable pub role_of_rank : Text → Role → ResolvedRole
role_of_rank rank Role.master = ResolvedRole.master
role_of_rank rank Role.worker = ResolvedRole.worker
role_of_rank rank auto =
    if eq_text rank (bytes "0") then ResolvedRole.master else ResolvedRole.worker

-- It does not fail.
unfoldable pub resolved_role : Config → ResolvedRole
resolved_role config = role_of_rank config.rank config.role

unfoldable pub coordinator_command : Config → List Text
coordinator_command config =
    config.coordinator_bin
    ∷ bytes "--listen"
    ∷ config.listen
    ∷ bytes "--db"
    ∷ config.db
    ∷ bytes "--worker-token-file"
    ∷ config.worker_token_file
    ∷ bytes "--client-token-file"
    ∷ config.client_token_file
    ∷ []

unfoldable pub policy_args : Option FilePath → List Text
policy_args none = []
policy_args (some policy) = bytes "--policy" ∷ policy ∷ []

unfoldable pub worker_command : Config → List Text
worker_command config =
    (config.worker_bin
      ∷ bytes "--coordinator"
      ∷ config.coordinator_url
      ∷ bytes "--node-name"
      ∷ config.node_name
      ∷ bytes "--token-file"
      ∷ config.worker_token_file
      ∷ [])
    ++ policy_args config.policy

-- `shell_quote` of the launcher is that of the command line, letter by letter.
unfoldable pub shell_command : List Text → FilePath → Text
shell_command command log_path =
    quote_all command ++ (bytes " >> " ++ (shell_quote log_path ++ bytes " 2>&1"))

unfoldable pub coordinator_log_path : Config → FilePath
coordinator_log_path config = join_path config.runtime_dir (bytes "coordinator.log")

unfoldable pub worker_log_path : Config → FilePath
worker_log_path config =
    join_path config.runtime_dir (bytes "worker-" ++ (config.node_name ++ bytes ".log"))

unfoldable pub tmux_target : Text → Text
tmux_target session = bytes "=" ++ session

unfoldable pub print_runtime_info : Config → (is_master : Bool) → List Text
print_runtime_info config is_master =
    ((bytes "coordinator: " ++ config.coordinator_url)
      ∷ (bytes "node: " ++ config.node_name)
      ∷ (bytes "runtime dir: " ++ config.runtime_dir)
      ∷ (bytes "port: " ++ config.port)
      ∷ [])
    ++ (if is_master then (bytes "client token: " ++ config.client_token_file) ∷ [] else [])

-- ===== src/Runtime/Launch.antt =====
-- crates/runtime/src/main.rs: `start`, `stop` and `status`, in the foreground and in tmux, and the
-- wait for the programs started.
use multinode_controller.Base.{
  Bool, true, false, List, [], ◌∷◌, ◌++◌, Option, none, some, Text, bytes, if◌then◌else◌, Result,
  with_context,
}
use multinode_controller.Coordinator.State.{ok, err, waiting}
use multinode_controller.Runtime.Config.{
  CommandKind, Mode, foreground, tmux, ResolvedRole, master, worker, Config, resolved_role,
  coordinator_command, worker_command, shell_command, coordinator_log_path, worker_log_path,
  tmux_target, print_runtime_info,
}
use multinode_controller.Runtime.Host.{
  sleep, kill, install_handlers, Os, Action, ◌into◌, ◌next◌, return, bail, from_result, record_call,
  println,
}
use multinode_controller.Runtime.Files.{
  create_dir_all, run_tool, ensure_token, require_file, reset_log, spawn_logged,
}

-- What a round of the loops that wait sees: whether a signal has come, and what `try_wait` gives
-- for each program, an exit status being its text and whether it is a success.
pub record Poll : Type 0 where
  pub requested : Bool
  pub first : Result (Option (Text × Bool))
  pub second : Result (Option (Text × Bool))

module _ (os : Os) where
  -- `terminate_child`: a kill and a wait, whose errors are not looked at.
  abbrev pub terminate_child : Text → Action (Unit {0})
  terminate_child label = record_call os (kill label)

  unfoldable pub on_second_child :
      Result (Option (Text × Bool)) → Action (Unit {0}) → Action (Unit {0})
  on_second_child (Result.err e) later = bail e
  on_second_child (Result.ok none) later = later
  on_second_child (Result.ok (some (status, success))) later =
      terminate_child (bytes "coordinator") next bail (bytes "worker exited with " ++ status)

  unfoldable pub on_first_child :
      Result (Option (Text × Bool)) → Action (Unit {0}) → Action (Unit {0})
  on_first_child (Result.err e) later = bail e
  on_first_child (Result.ok none) later = later
  on_first_child (Result.ok (some (status, success))) later =
      terminate_child (bytes "worker") next bail (bytes "coordinator exited with " ++ status)

  -- The loop, for the rounds given.
  unfoldable pub wait_for_children : List Poll → Action (Unit {0})
  wait_for_children [] = λ h. (waiting, h)
  wait_for_children (poll ∷ polls) =
      let later = record_call os (sleep 250) next wait_for_children polls in
      if poll.requested
      then terminate_child (bytes "coordinator")
        next terminate_child (bytes "worker")
        next bail (bytes "received shutdown signal")
      else on_first_child poll.first (on_second_child poll.second later)

  unfoldable pub on_only :
      Text → Result (Option (Text × Bool)) → Action (Unit {0}) → Action (Unit {0})
  on_only label (Result.err e) later = bail e
  on_only label (Result.ok none) later = later
  on_only label (Result.ok (some (status, true))) later = return tt
  on_only label (Result.ok (some (status, false))) later =
      bail (label ++ (bytes " exited with " ++ status))

  unfoldable pub wait_for_child : Text → List Poll → Action (Unit {0})
  wait_for_child label [] = λ h. (waiting, h)
  wait_for_child label (poll ∷ polls) =
      let later = record_call os (sleep 250) next wait_for_child label polls in
      if poll.requested
      then terminate_child label next bail (bytes "received shutdown signal")
      else on_only label poll.first later

  -- `Command::status` of tmux, with what is said of a failure to run it.
  unfoldable pub run_tmux : List Text → Text → Action Bool
  run_tmux args context = run_tool os (bytes "tmux" ∷ args) into λ result. λ h. (
    elim (with_context context result) [ Result.ok answer ↦ ok answer.0 | Result.err e ↦ err e ],
    h,
  )

  unfoldable pub require : Text → Bool → Action (Unit {0})
  require message true = return tt
  require message false = bail message

  unfoldable pub require_tmux : Action (Unit {0})
  require_tmux =
      run_tmux (bytes "-V" ∷ []) (bytes "failed to run tmux")
      into require (bytes "tmux is required when MODE=tmux")

  unfoldable pub tmux_has_session : Text → Action Bool
  tmux_has_session session =
      run_tmux (bytes "has-session" ∷ bytes "-t" ∷ tmux_target session ∷ [])
        (bytes "failed to run tmux has-session")

  unfoldable pub tmux_new_session : Text → Text → Text → Action (Unit {0})
  tmux_new_session session window command =
      run_tmux
        (bytes "new-session"
          ∷ bytes "-d"
          ∷ bytes "-s"
          ∷ session
          ∷ bytes "-n"
          ∷ window
          ∷ command
          ∷ [])
        (bytes "failed to run tmux new-session")
      into require (bytes "failed to create tmux session " ++ session)

  unfoldable pub tmux_new_window : Text → Text → Text → Action (Unit {0})
  tmux_new_window session window command =
      run_tmux
        (bytes "new-window" ∷ bytes "-t" ∷ tmux_target session ∷ bytes "-n" ∷ window ∷ command ∷ [])
        (bytes "failed to run tmux new-window")
      into require (bytes "failed to create tmux window " ++ window)

  unfoldable pub install_signal_handlers : Action (Unit {0})
  install_signal_handlers = record_call os install_handlers next λ h. (from_result os.handlers, h)

  unfoldable pub foreground_as : Config → List Poll → ResolvedRole → Action (Unit {0})
  foreground_as config polls master =
      reset_log os (coordinator_log_path config)
      next reset_log os (worker_log_path config)
      next spawn_logged os (coordinator_command config) (bytes "coordinator")
          (coordinator_log_path config)
      next record_call os (sleep 1000)
      next spawn_logged os (worker_command config) (bytes "worker") (worker_log_path config)
      next println (bytes "started role=master mode=foreground" ∷ print_runtime_info config true)
      next wait_for_children polls
  foreground_as config polls worker =
      reset_log os (worker_log_path config)
      next println (bytes "started role=worker mode=foreground" ∷ print_runtime_info config false)
      next spawn_logged os (worker_command config) (bytes "worker") (worker_log_path config)
      next wait_for_child (bytes "worker") polls

  unfoldable pub start_foreground : Config → List Poll → ResolvedRole → Action (Unit {0})
  start_foreground config polls role = install_signal_handlers next foreground_as config polls role

  unfoldable pub tmux_as : Config → ResolvedRole → Action (Unit {0})
  tmux_as config master =
      reset_log os (coordinator_log_path config)
      next reset_log os (worker_log_path config)
      next tmux_new_session config.session (bytes "coordinator")
          (shell_command (coordinator_command config) (coordinator_log_path config))
      next record_call os (sleep 1000)
      next tmux_new_window config.session (bytes "worker")
          (shell_command (worker_command config) (worker_log_path config))
      next println (bytes "started role=master mode=tmux" ∷ print_runtime_info config true)
  tmux_as config worker =
      reset_log os (worker_log_path config)
      next tmux_new_session config.session (bytes "worker")
          (shell_command (worker_command config) (worker_log_path config))
      next println (bytes "started role=worker mode=tmux" ∷ print_runtime_info config false)

  unfoldable pub start_tmux : Config → ResolvedRole → Action (Unit {0})
  start_tmux config role = require_tmux next tmux_has_session config.session into λ has_session.
      if has_session
      then bail (bytes "tmux session " ++ (config.session ++ bytes " already exists"))
      else tmux_as config role

  unfoldable pub prepare_tokens : Config → ResolvedRole → Action (Unit {0})
  prepare_tokens config master =
      ensure_token os config.worker_token_file next ensure_token os config.client_token_file
  prepare_tokens config worker = require_file os config.worker_token_file (bytes "worker token")

  unfoldable pub start_in : Mode → Config → List Poll → ResolvedRole → Action (Unit {0})
  start_in foreground config polls role = start_foreground config polls role
  start_in tmux config polls role = start_tmux config role

  unfoldable pub start : Config → List Poll → Action (Unit {0})
  start config polls =
      let role = resolved_role config in
      create_dir_all os config.runtime_dir
      next prepare_tokens config role
      next start_in config.mode config polls role

  -- `stop` and `status`, which differ in what they ask of tmux.
  unfoldable pub in_tmux : Mode → Text → Action (Unit {0}) → Action (Unit {0})
  in_tmux foreground name action =
      bail (bytes "agent-runtime " ++ (name ++ bytes " is only available with MODE=tmux"))
  in_tmux tmux name action = require_tmux next action

  unfoldable pub stop : Config → Action (Unit {0})
  stop config = in_tmux config.mode (bytes "stop") (
      run_tmux (bytes "kill-session" ∷ bytes "-t" ∷ tmux_target config.session ∷ [])
        (bytes "failed to run tmux kill-session")
      into require (bytes "tmux session " ++ (config.session ++ bytes " was not stopped")))

  unfoldable pub status : Config → Action (Unit {0})
  status config = in_tmux config.mode (bytes "status") (
      run_tmux (bytes "list-windows" ∷ bytes "-t" ∷ tmux_target config.session ∷ [])
        (bytes "failed to run tmux list-windows")
      into require (bytes "tmux session " ++ (config.session ++ bytes " was not found")))

  -- `main`, with the command and the configuration that `Config::from_env` gives.
  unfoldable pub main : CommandKind → Result Config → List Poll → Action (Unit {0})
  main command (Result.err e) polls = bail e
  main CommandKind.start (Result.ok config) polls = start config polls
  main CommandKind.stop (Result.ok config) polls = stop config
  main CommandKind.status (Result.ok config) polls = status config

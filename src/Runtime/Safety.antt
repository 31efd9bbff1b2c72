-- ===== src/Runtime/Safety.antt =====
-- crates/runtime/src/main.rs: what the launcher leaves alone, however it ends.
use multinode_controller.Base.{
  ◌≡◌, ◌≢◌, Bool, true, false, List, [], ◌∷◌, Option, none, some, Text, bytes, get, Map, Result,
}
use multinode_controller.Protocol.{FilePath}
use multinode_controller.Runtime.Host.{
  File, Call, sleep, kill, install_handlers, Host, Os, Action, ◌into◌, ◌next◌, bail, record_call,
}
use multinode_controller.Runtime.Config.{
  CommandKind, Mode, foreground, tmux, ResolvedRole, master, worker, Config, resolved_role,
  coordinator_log_path, worker_log_path, coordinator_command, worker_command, print_runtime_info,
}
use multinode_controller.Runtime.Files.{has_content, run_tool, reset_log, spawn_logged}
use multinode_controller.Runtime.Launch.{
  Poll, on_first_child, on_second_child, wait_for_children, on_only, wait_for_child, run_tmux,
  require, require_tmux, tmux_has_session, tmux_new_session, tmux_new_window,
  install_signal_handlers, foreground_as, start_foreground, tmux_as, start_tmux, prepare_tokens,
  start_in, start, in_tmux, stop, status, main,
}
use multinode_controller.Runtime.Keeping.{
  Keeps, into-Keeps, next-Keeps, choose-Keeps, record_call-Keeps, println-Keeps, run_tool-Keeps,
  create_dir_all-Keeps, ensure_token-Keeps, require_file-Keeps, reset_log-Keeps, spawn_logged-Keeps,
}

module _ (os : Os) (path : FilePath) (file : File)
    (undisturbed : (call : Call) (disk : Map File)
      → get path disk ≡ some file
      → get path (os.others call disk) ≡ some file) where
  abbrev Kept : {A : Type 0} → Action A → Type 0
  Kept action = Keeps os path file undisturbed action

  next-Kept :
      {B : Type 0} (m : Action (Unit {0})) (k : Action B) → Kept m → Kept k → Kept (m next k)
  next-Kept = next-Keeps os path file undisturbed

  killed-Kept : (label e : Text) → Kept {A = Unit {0}} (record_call os (kill label) next bail e)
  killed-Kept label e =
      next-Keeps os path file undisturbed (record_call os (kill label)) (bail e)
        (record_call-Keeps os path file undisturbed (kill label)) (λ h d. d)

  on_second_child-Kept :
      (r : Result (Option (Text × Bool))) (later : Action (Unit {0}))
      → Kept later
      → Kept (on_second_child os r later)
  unfolding on_second_child
  on_second_child-Kept (Result.err x) later k = λ h e. e
  on_second_child-Kept (Result.ok none) later k = k
  on_second_child-Kept (Result.ok (some (status, success))) later k =
      killed-Kept (bytes "coordinator") _

  on_first_child-Kept :
      (r : Result (Option (Text × Bool))) (later : Action (Unit {0}))
      → Kept later
      → Kept (on_first_child os r later)
  unfolding on_first_child
  on_first_child-Kept (Result.err x) later k = λ h e. e
  on_first_child-Kept (Result.ok none) later k = k
  on_first_child-Kept (Result.ok (some (status, success))) later k = killed-Kept (bytes "worker") _

  on_only-Kept :
      (label : Text) (r : Result (Option (Text × Bool))) (later : Action (Unit {0}))
      → Kept later
      → Kept (on_only os label r later)
  unfolding on_only
  on_only-Kept label (Result.err x) later k = λ h e. e
  on_only-Kept label (Result.ok none) later k = k
  on_only-Kept label (Result.ok (some (status, true))) later k = λ h e. e
  on_only-Kept label (Result.ok (some (status, false))) later k = λ h e. e

  wait_for_children-Kept : (polls : List Poll) → Kept (wait_for_children os polls)
  unfolding wait_for_children
  wait_for_children-Kept [] = λ h e. e
  wait_for_children-Kept (poll ∷ polls) =
      choose-Keeps os path file undisturbed poll.requested _ _
        (next-Keeps os path file undisturbed _ _
          (next-Keeps os path file undisturbed _ _
            (record_call-Keeps os path file undisturbed (kill (bytes "coordinator")))
            (record_call-Keeps os path file undisturbed (kill (bytes "worker"))))
          (λ h e. e))
        (on_first_child-Kept poll.first _ (
          on_second_child-Kept poll.second _ (
            next-Keeps os path file undisturbed (record_call os (sleep 250)) _
              (record_call-Keeps os path file undisturbed (sleep 250))
              (wait_for_children-Kept polls))))

  wait_for_child-Kept : (label : Text) (polls : List Poll) → Kept (wait_for_child os label polls)
  unfolding wait_for_child
  wait_for_child-Kept label [] = λ h e. e
  wait_for_child-Kept label (poll ∷ polls) =
      choose-Keeps os path file undisturbed poll.requested _ _ (killed-Kept label _) (
        on_only-Kept label poll.first _ (
          next-Keeps os path file undisturbed (record_call os (sleep 250)) _
            (record_call-Keeps os path file undisturbed (sleep 250))
            (wait_for_child-Kept label polls)))

  run_tmux-Kept : (args : List Text) (context : Text) → Kept (run_tmux os args context)
  unfolding run_tmux
  run_tmux-Kept args context =
      into-Keeps os path file undisturbed (run_tool os (bytes "tmux" ∷ args)) _
        (run_tool-Keeps os path file undisturbed _) (λ r h e. e)

  require-Kept : (message : Text) (b : Bool) → Kept (require os message b)
  unfolding require
  require-Kept message true = λ h e. e
  require-Kept message false = λ h e. e

  required-Kept :
      (args : List Text) (context message : Text)
      → Kept (run_tmux os args context into require os message)
  required-Kept args context message =
      into-Keeps os path file undisturbed (run_tmux os args context) (require os message)
        (run_tmux-Kept args context) (require-Kept message)

  module _ (config : Config) (coordinator_log : os.file_of (coordinator_log_path config) ≢ path)
      (worker_log : os.file_of (worker_log_path config) ≢ path) where
    worker_log-Kept : Kept (reset_log os (worker_log_path config))
    worker_log-Kept = reset_log-Keeps os path file undisturbed (worker_log_path config) worker_log

    coordinator_log-Kept : Kept (reset_log os (coordinator_log_path config))
    coordinator_log-Kept =
        reset_log-Keeps os path file undisturbed (coordinator_log_path config) coordinator_log

    coordinator-Kept : Kept (
        spawn_logged os
          (coordinator_command config)
          (bytes "coordinator")
          (coordinator_log_path config))
    coordinator-Kept =
        spawn_logged-Keeps os path file undisturbed (coordinator_command config)
          (bytes "coordinator") (coordinator_log_path config) coordinator_log

    worker-Kept :
        Kept (spawn_logged os (worker_command config) (bytes "worker") (worker_log_path config))
    worker-Kept =
        spawn_logged-Keeps os path file undisturbed (worker_command config) (bytes "worker")
          (worker_log_path config) worker_log

    foreground_as-Kept :
        (polls : List Poll) (role : ResolvedRole) → Kept (foreground_as os config polls role)
    unfolding foreground_as
    foreground_as-Kept polls master =
        next-Kept _ _
          (next-Kept _ _
            (next-Kept _ _
              (next-Kept _ _
                (next-Kept _ _ (next-Kept _ _ coordinator_log-Kept worker_log-Kept)
                  coordinator-Kept)
                (record_call-Keeps os path file undisturbed (sleep 1000)))
              worker-Kept)
            (println-Keeps os path file undisturbed
              (bytes "started role=master mode=foreground" ∷ print_runtime_info config true)))
          (wait_for_children-Kept polls)
    foreground_as-Kept polls worker =
        next-Kept _ _
          (next-Kept _ _
            (next-Kept _ _ worker_log-Kept (
              println-Keeps os path file undisturbed
                (bytes "started role=worker mode=foreground" ∷ print_runtime_info config false)))
            worker-Kept)
          (wait_for_child-Kept (bytes "worker") polls)

    tmux_as-Kept : (role : ResolvedRole) → Kept (tmux_as os config role)
    unfolding tmux_as tmux_new_session tmux_new_window
    tmux_as-Kept master =
        next-Kept _ _
          (next-Kept _ _
            (next-Kept _ _
              (next-Kept _ _ (next-Kept _ _ coordinator_log-Kept worker_log-Kept)
                (required-Kept _ _ _))
              (record_call-Keeps os path file undisturbed (sleep 1000)))
            (required-Kept _ _ _))
          (println-Keeps os path file undisturbed
            (bytes "started role=master mode=tmux" ∷ print_runtime_info config true))
    tmux_as-Kept worker = next-Kept _ _ (next-Kept _ _ worker_log-Kept (required-Kept _ _ _)) (
        println-Keeps os path file undisturbed
          (bytes "started role=worker mode=tmux" ∷ print_runtime_info config false))

    start_in-Kept :
        (mode : Mode) (polls : List Poll) (role : ResolvedRole)
        → Kept (start_in os mode config polls role)
    unfolding start_in start_foreground install_signal_handlers start_tmux require_tmux
        tmux_has_session
    start_in-Kept foreground polls role =
        next-Kept _ _
          (next-Kept (record_call os install_handlers) _
            (record_call-Keeps os path file undisturbed install_handlers) (λ h e. e))
          (foreground_as-Kept polls role)
    start_in-Kept tmux polls role =
        into-Keeps os path file undisturbed _ _
          (next-Kept _ _ (required-Kept _ _ _) (run_tmux-Kept _ _))
          (λ has_session.
            choose-Keeps os path file undisturbed has_session _ _ (λ h e. e) (tmux_as-Kept role))

    prepare_tokens-Kept :
        (role : ResolvedRole)
        → has_content (some file) ≡ true
        → Kept (prepare_tokens os config role)
    unfolding prepare_tokens
    prepare_tokens-Kept master filled =
        next-Kept _ _ (ensure_token-Keeps os path file undisturbed config.worker_token_file filled)
          (ensure_token-Keeps os path file undisturbed config.client_token_file filled)
    prepare_tokens-Kept worker filled =
        require_file-Keeps os path file undisturbed config.worker_token_file _

    stages-Kept :
        (polls : List Poll) → has_content (some file) ≡ true → Kept (start os config polls)
    unfolding start
    stages-Kept polls filled =
        next-Kept _ _
          (next-Kept _ _ (create_dir_all-Keeps os path file undisturbed config.runtime_dir)
            (prepare_tokens-Kept (resolved_role config) filled))
          (start_in-Kept config.mode polls (resolved_role config))

    in_tmux-Kept :
        (mode : Mode) (name : Text) (action : Action (Unit {0}))
        → Kept action
        → Kept (in_tmux os mode name action)
    unfolding in_tmux require_tmux
    in_tmux-Kept foreground name action k = λ h e. e
    in_tmux-Kept tmux name action k = next-Kept _ _ (required-Kept _ _ _) k

    -- A file with content that the programs beside the launcher leave alone, a token file above all,
    -- is as it was after any command of the launcher, in either role and mode and however it ends,
    -- unless the path of one of the two logs leads to it.
    pub get-main :
        (command : CommandKind) (polls : List Poll) (h : Host)
        → has_content (some file) ≡ true
        → get path h.disk ≡ some file
        → get path (main os command (Result.ok config) polls h).1.disk ≡ some file
    unfolding main stop status
    get-main CommandKind.start polls h filled = stages-Kept polls filled h
    get-main CommandKind.stop polls h filled = in_tmux-Kept config.mode _ _ (required-Kept _ _ _) h
    get-main CommandKind.status polls h filled =
        in_tmux-Kept config.mode _ _ (required-Kept _ _ _) h

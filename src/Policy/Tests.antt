-- ===== src/Policy/Tests.antt =====
-- A worker's policy at concrete inputs.
use multinode_controller.Base.{
  ◌≡◌, ◌⊎◌, refl, List, [], ◌∷◌, none, some, Text, bytes, text_dec, any, is_empty,
}
use multinode_controller.Protocol.{FilePath, simple, process_start, DecisionKind, RunSpec}
use multinode_controller.Policy.Paths.{IsName, has_slash}
use multinode_controller.Policy.Rules.{ConfigPolicy, default_config, authorize, command_of}
use multinode_controller.Policy.Decisions.{
  Decides, IsPermitted, authorize-Decides, authorize-directory,
}
use multinode_controller.Policy.Launch.{
  start_task, execute, failed, refused, command_for, start_task_lem,
}

abbrev no_rm : ConfigPolicy
no_rm = record { config = record default_config { deny_commands = bytes "rm" ∷ [] }; source = none }

abbrev rm_run : RunSpec
rm_run =
    simple (bytes "j") (bytes "t") (bytes "a") (bytes "/bin/rm" ∷ bytes "-r" ∷ []) (bytes ".") []

rm-IsName : IsName (bytes "rm")
unfolding has_slash any is_empty text_dec bytes
rm-IsName = record { whole = refl; filled = refl; here = refl; up = refl }

authorize-Decides_example :
    Decides
      (authorize no_rm (process_start rm_run (bytes "agent-worker")) rm_run)
      (IsPermitted no_rm.config (command_of rm_run))
authorize-Decides_example =
    authorize-Decides no_rm (process_start rm_run (bytes "agent-worker")) rm_run

authorize-directory_example :
    (authorize no_rm (process_start rm_run (bytes "agent-worker")) rm_run).decision
    ≡ DecisionKind.deny
unfolding bytes simple
authorize-directory_example =
    authorize-directory no_rm (process_start rm_run (bytes "agent-worker")) rm_run (bytes "/bin")
      (bytes "rm") (bytes "-r" ∷ []) [] [] rm-IsName refl refl

start_task_lem_example :
    (IsPermitted no_rm.config (command_of rm_run)
      × (((program : FilePath) × (args : List Text) × (rm_run.argv ≡ program ∷ args)
            × (start_task (record { run = rm_run }) no_rm
                ≡ execute rm_run (command_for rm_run program args)))
          ⊎ ((rm_run.argv ≡ [])
              × ((message : Text) × (start_task (record { run = rm_run }) no_rm
                    ≡ failed message)))))
    ⊎ ((¬ IsPermitted no_rm.config (command_of rm_run))
        × ((reason : Text) × (start_task (record { run = rm_run }) no_rm
              ≡ refused (record {
                node_id = some rm_run.node_id;
                task_id = some rm_run.task_id;
                message = reason;
              }))))
start_task_lem_example = start_task_lem (record { run = rm_run }) no_rm

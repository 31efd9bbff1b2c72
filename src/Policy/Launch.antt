-- ===== src/Policy/Launch.antt =====
-- crates/worker/src/main.rs: `start_task` up to the call of the executor, with the sandbox of
-- crates/sandbox-linux/src/lib.rs.
use multinode_controller.Base.{
  ◌≡◌, ◌⊎◌, inl, inr, refl, ap, Bool, true, List, [], ◌∷◌, Option, none, some, Text, bytes, Map,
}
use multinode_controller.Protocol.{
  FilePath, DecisionKind, PolicyDecision, RunSpec, process_start, TaskSpec, WorkerError,
}
use multinode_controller.Policy.Rules.{ConfigPolicy, command_of, authorize}
use multinode_controller.Policy.Decisions.{IsPermitted, authorize-Decides}

pub record SandboxCommand : Type 0 where
  pub program : FilePath
  pub args : List Text
  pub cwd : FilePath
  pub env : Map Text
  pub kill_process_group : Bool

unfoldable pub split_first : RunSpec → List Text → Option SandboxCommand
split_first spec [] = none
split_first spec (program ∷ args) = some (record {
  program = program;
  args = args;
  cwd = spec.cwd;
  env = spec.env;
  kill_process_group = true;
})

-- `NoneSandbox::prepare`; no arguments, no command.
unfoldable pub prepare : RunSpec → PolicyDecision → Option SandboxCommand
prepare spec decision = split_first spec spec.argv

-- What `start_task` comes to: an error sent to the coordinator, an error of its own, or a call of
-- the executor.
pub data Launch : Type 0 where
  refused : WorkerError → Launch
  failed : Text → Launch
  execute : RunSpec → SandboxCommand → Launch

unfoldable pub refusal : RunSpec → PolicyDecision → WorkerError
refusal run decision = record {
  node_id = some run.node_id;
  task_id = some run.task_id;
  message = decision.reason;
}

unfoldable pub prepared : RunSpec → Option SandboxCommand → Launch
prepared run none = failed (bytes "run spec argv cannot be empty")
prepared run (some command) = execute run command

unfoldable pub on_decision : RunSpec → PolicyDecision → DecisionKind → Launch
on_decision run decision DecisionKind.allow = prepared run (prepare run decision)
on_decision run decision DecisionKind.ask = refused (refusal run decision)
on_decision run decision DecisionKind.deny = refused (refusal run decision)

unfoldable pub start_task : TaskSpec → ConfigPolicy → Launch
start_task spec policy =
    let decision = authorize policy (process_start spec.run (bytes "agent-worker")) spec.run in
    on_decision spec.run decision decision.decision

-- The command of a specification that names a program.
abbrev pub command_for : RunSpec → FilePath → List Text → SandboxCommand
command_for run program args = record {
  program = program;
  args = args;
  cwd = run.cwd;
  env = run.env;
  kill_process_group = true;
}

prepared_lem :
    (run : RunSpec) (decision : PolicyDecision) (argv : List Text)
    → run.argv ≡ argv
    → ((program : FilePath) × (args : List Text) × (run.argv ≡ program ∷ args)
        × (prepared run (prepare run decision) ≡ execute run (command_for run program args)))
      ⊎ ((run.argv ≡ [])
          × ((message : Text) × (prepared run (prepare run decision) ≡ failed message)))
unfolding prepared prepare split_first
prepared_lem run decision [] e =
    inr (e, (bytes "run spec argv cannot be empty", ap (λ a. prepared run (split_first run a)) e))
prepared_lem run decision (program ∷ args) e =
    inl (program, args, e, ap (λ a. prepared run (split_first run a)) e)

decision-cases :
    (d : DecisionKind)
    → (d ≡ DecisionKind.allow) ⊎ ((d ≡ DecisionKind.ask) ⊎ (d ≡ DecisionKind.deny))
decision-cases DecisionKind.allow = inl refl
decision-cases DecisionKind.ask = inr (inl refl)
decision-cases DecisionKind.deny = inr (inr refl)

denied-not-IsPermitted :
    (policy : ConfigPolicy) (spec : TaskSpec)
    → (authorize policy (process_start spec.run (bytes "agent-worker")) spec.run).decision
      ≡ DecisionKind.deny
    → ¬ IsPermitted policy.config (command_of spec.run)
denied-not-IsPermitted policy spec e permitted = cc (
  (authorize-Decides policy (process_start spec.run (bytes "agent-worker")) spec.run).0.1 permitted,
  e,
)

start_task-decision :
    (spec : TaskSpec) (policy : ConfigPolicy) (k : DecisionKind)
    → (authorize policy (process_start spec.run (bytes "agent-worker")) spec.run).decision ≡ k
    → start_task spec policy
      ≡ on_decision spec.run
          (authorize policy (process_start spec.run (bytes "agent-worker")) spec.run)
          k
unfolding start_task
start_task-decision spec policy k e =
    ap
      (on_decision spec.run
        (authorize policy (process_start spec.run (bytes "agent-worker")) spec.run))
      e

-- A worker executes a task exactly if its policy permits the command and there is one, and then
-- with the program, arguments, directory and environment of the specification; a command not
-- permitted is refused with an error that names the task.
pub start_task_lem :
    (spec : TaskSpec) (policy : ConfigPolicy)
    → (IsPermitted policy.config (command_of spec.run)
        × (((program : FilePath) × (args : List Text) × (spec.run.argv ≡ program ∷ args)
              × (start_task spec policy ≡ execute spec.run (command_for spec.run program args)))
            ⊎ ((spec.run.argv ≡ [])
                × ((message : Text) × (start_task spec policy ≡ failed message)))))
      ⊎ ((¬ IsPermitted policy.config (command_of spec.run))
          × ((reason : Text) × (start_task spec policy
                ≡ refused (record {
                  node_id = some spec.run.node_id;
                  task_id = some spec.run.task_id;
                  message = reason;
                }))))
unfolding on_decision refusal
start_task_lem spec policy =
    let op = process_start spec.run (bytes "agent-worker") in
    let decision = authorize policy op spec.run in
    let (iff, unasked) = authorize-Decides policy op spec.run in
    elim (decision-cases decision.decision) [
      | inl allowed ↦ inl (
        iff.0 allowed,
        rw (start_task-decision spec policy DecisionKind.allow allowed)
            (prepared_lem spec.run decision spec.run.argv refl),
      )
      | inr (inl asked) ↦ absurd (unasked asked)
      | inr (inr denied) ↦ inr (
        denied-not-IsPermitted policy spec denied,
        (decision.reason, start_task-decision spec policy DecisionKind.deny denied),
      )
    ]

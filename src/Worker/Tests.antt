-- ===== src/Worker/Tests.antt =====
-- A connection at concrete inputs: a task to start and a kill of one that does not run.
use Prim.Native.Nat.{min}
use multinode_controller.Base.{
  ℤ, ◌≡◌, ◌≤◌, ◌^◌, refl, List, [], ◌∷◌, ◌++◌, map, Text, bytes, Result, ok, err, All, text_dec,
  get,
}
use multinode_controller.Protocol.{simple, TaskSpec, WireMessage, kill_task, start_task}
use multinode_controller.Executor.Runs.{Signal, kill, kill_process}
use multinode_controller.Samples.{info}
use multinode_controller.Worker.Backoff.{main_loop, streak, main_loop-streak}
use multinode_controller.Worker.Connection.{connected, message_loop, task_error}
use multinode_controller.Worker.Answers.{
  Heard, incoming, answers_in, answers_to, answer_to_kill, starts_in, message_loop-answers,
}

abbrev three_failures : List (Result (Unit {0}))
three_failures =
    err (bytes "refused")
    ∷ ok tt
    ∷ err (bytes "refused")
    ∷ err (bytes "refused")
    ∷ err (bytes "refused")
    ∷ []

main_loop-streak_example :
    All (λ seconds. (1 ≤ seconds) × (seconds ≤ 30)) (main_loop three_failures 1).0
    × ((main_loop three_failures 1).1 ≡ min (2 ^ streak 0 three_failures) 30)
main_loop-streak_example = main_loop-streak three_failures

sleeps : (main_loop three_failures 1).0 ≡ 1 ∷ 1 ∷ 2 ∷ 4 ∷ []
unfolding main_loop
sleeps = refl

abbrev task : TaskSpec
task = record { run = simple (bytes "j") (bytes "t") (bytes "a") (bytes "ls" ∷ []) (bytes "/") [] }

-- A stand-in for the format, in which the text "k" is a kill and any other starts the task.
abbrev read_wire : Text → Result WireMessage
read_wire [] = err (bytes "no message")
read_wire (c ∷ []) = ok (WireMessage.coordinator (kill_task (bytes "u")))
read_wire (c ∷ d ∷ rest) = ok (WireMessage.coordinator (start_task task))

abbrev no_kill : ℤ → Signal → Result (Unit {0})
no_kill pid signal = ok tt

abbrev heard : List Heard
heard =
    record {
      executor = record { processes = [] };
      text = 115 ∷ 116 ∷ [];
      wire = WireMessage.coordinator (start_task task);
    }
    ∷ record {
      executor = record { processes = (bytes "t", 42) ∷ [] };
      text = 107 ∷ [];
      wire = WireMessage.coordinator (kill_task (bytes "u"));
    }
    ∷ []

message_loop-answers_example :
    ((message_loop read_wire no_kill (bytes "a") (map incoming heard) (connected info)).0 ≡ ok tt)
    × ((message_loop read_wire no_kill
          (bytes "a")
          (map incoming heard)
          (connected info)).1.out.messages
        ≡ (connected info).out.messages ++ answers_in read_wire no_kill (bytes "a") heard)
    × ((message_loop read_wire no_kill (bytes "a") (map incoming heard) (connected info)).1.spawned
        ≡ (connected info).spawned ++ starts_in heard)
unfolding connected
message_loop-answers_example =
    message_loop-answers read_wire no_kill (bytes "a") heard (connected info) (refl, (refl, tt))
      refl

-- The kill is answered with one error.
answers :
    answers_in read_wire no_kill (bytes "a") heard
    ≡ task_error (bytes "a") (bytes "u") (bytes "task u is not running") ∷ []
unfolding answers_in answers_to answer_to_kill task_error kill kill_process get text_dec bytes
answers = refl

-- ===== src/Coordinator/SystemTests.antt =====
-- A coordinator from its start: a worker joins, a client runs a process on it, and it is lost.
use multinode_controller.Base.{refl, true, [], ◌∷◌, none, bytes, get, arith}
use multinode_controller.Protocol.{RunProcessRequest, ClientRequest}
use multinode_controller.Store.Tables.{empty_store}
use multinode_controller.Store.TaskTable.{find_task}
use multinode_controller.Coordinator.State.{AppState, Served}
use multinode_controller.Coordinator.Workers.{register, mark_node_lost}
use multinode_controller.Coordinator.Runs.{Draws}
use multinode_controller.Coordinator.Runs.{dispatch_loop}
use multinode_controller.Coordinator.Dispatch.{IsDispatch, dispatch_loop-IsDispatch}
use multinode_controller.Coordinator.Clients.{handle_client}
use multinode_controller.Coordinator.Soundness.{IsSound}
use multinode_controller.Coordinator.System.{
  initial, IsSettled, serve, join, lose, Reachable, start, next, Reachable-IsSound,
}
use multinode_controller.Samples.{plain_formats, info, busy, served}

empty-IsSettled : IsSettled empty_store
unfolding find_task
empty-IsSettled k t found pending = absurd (ground arith)

abbrev run_request : RunProcessRequest
run_request = record {
  nodes = [];
  argv = bytes "true" ∷ [];
  cwd = none;
  env = [];
  node_env = [];
  lease_id = none;
  timeout = none;
  wait = true;
}

abbrev draws : Draws
draws = record { job_id = bytes "j"; task_id = λ i. bytes "t"; time = λ i. i }

abbrev joined : AppState
joined = register info 5 1 (initial empty_store)

abbrev asked : Served
asked = record { app = joined; sink = record { written = []; room = 9 } }

abbrev running : AppState
running =
    (handle_client (ClientRequest.run_process run_request) draws (bytes "l") 2 (λ s. true) []
      asked).1.app

joined-Reachable : Reachable joined
unfolding get initial
joined-Reachable =
    next (initial empty_store) joined (start empty_store empty-IsSettled)
      (join info 5 1 (initial empty_store) refl)

running-Reachable : Reachable running
running-Reachable =
    next joined running joined-Reachable
      (serve (ClientRequest.run_process run_request) draws (bytes "l") 2 (λ s. true) [] asked)

abbrev lost : AppState
lost = mark_node_lost (bytes "a") (bytes "gone") (λ i. i) running

lost-Reachable : Reachable lost
lost-Reachable =
    next running lost running-Reachable (lose (bytes "a") (bytes "gone") (λ i. i) running)

Reachable-IsSound_example : IsSound lost
Reachable-IsSound_example = Reachable-IsSound lost lost-Reachable

dispatch_loop-IsDispatch_example :
    IsDispatch run_request draws 0 busy.nodes
      (bytes "b" ∷ bytes "a" ∷ [])
      (dispatch_loop run_request draws 0 (bytes "b" ∷ bytes "a" ∷ []) served)
dispatch_loop-IsDispatch_example =
    dispatch_loop-IsDispatch run_request draws 0 (bytes "b" ∷ bytes "a" ∷ []) served (omega arith)

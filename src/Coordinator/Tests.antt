-- ===== src/Coordinator/Tests.antt =====
-- Runs of the coordinator, and its theorems at concrete inputs.
use multinode_controller.Base.{
  ◌-◌, ◌≡◌, refl, sym, false, true, [], ◌∷◌, ◌++◌, some, none, Text, bytes, text_dec, ite, arith,
  get, insert, any, is_empty, All,
}
use multinode_controller.Protocol.{
  JobId, TaskId, LeaseId, RunProcessRequest, CreateLeaseRequest, ReleaseLeaseRequest,
  ClientResponse, WireMessage, WorkerMessage,
}
use multinode_controller.Store.TaskTable.{find_task}
use multinode_controller.Coordinator.State.{
  CoordinatorEvent, WorkerHandle, LeaseRecord, ok, err, summary,
}
use multinode_controller.Coordinator.Leases.{contains, create_lease, release_lease}
use multinode_controller.Coordinator.LeaseTable.{IsLeaseTable}
use multinode_controller.Coordinator.LeaseRequests.{
  asked_nodes, requested, IsGrantable, create_lease-grants, create_lease-refuses,
  create_lease-IsLeaseTable, release_lease_lem,
}
use multinode_controller.Coordinator.Workers.{
  register, on_message, mark_node_lost, handle_worker, failure,
}
use multinode_controller.Coordinator.Tracking.{IsTracked, NoOrphans}
use multinode_controller.Coordinator.Failures.{IsFailed, tasks_of, mark_node_lost-IsFailed}
use multinode_controller.Coordinator.Losses.{on_message-NoOrphans, register_orphans}
use multinode_controller.Coordinator.Runs.{Draws, wait_loop, event}
use multinode_controller.Coordinator.Runs
use multinode_controller.Coordinator.RunTracking.{run_process-NoOrphans}
use multinode_controller.Coordinator.Waiting.{Finishes, has_exit, wait_loop-Finishes}
use multinode_controller.Coordinator.Sessions.{messages, handle_worker_closed, handle_worker_broken}
use multinode_controller.Samples.{
  plain_formats, info, start_event, exit_event, running_row, busy_worker, busy, served,
}

abbrev shared_request : CreateLeaseRequest
shared_request = record {
  nodes = bytes "a" ∷ [];
  count = none;
  gpus_per_node = none;
  exclusive = false;
}

abbrev exclusive_request : CreateLeaseRequest
exclusive_request = record shared_request { exclusive = true }

busy-IsLeaseTable : IsLeaseTable busy.leases
unfolding is_empty
busy-IsLeaseTable = record { compatible = (tt, tt); keyed = ((refl, refl), tt) }

shared-IsGrantable : IsGrantable shared_request (bytes "lease_2") 4 served
unfolding is_empty asked_nodes get text_dec bytes
shared-IsGrantable = record {
  nonempty = refl;
  connected = ((busy_worker, refl), tt);
  free = (λ n h k. (refl, refl), tt);
}

create_lease-grants_example : create_lease shared_request (bytes "lease_2") 4 served ≡ (
  ok tt,
  record {
    app = record busy {
      leases =
          insert
            (bytes "lease_2")
            (requested shared_request (bytes "lease_2") 4 served)
            busy.leases;
    };
    sink = record {
      written =
          []
          ++ ClientResponse.lease_created
              (summary (requested shared_request (bytes "lease_2") 4 served))
            ∷ [];
      room = 9 - 1;
    };
  },
)
create_lease-grants_example =
    create_lease-grants shared_request (bytes "lease_2") 4 served shared-IsGrantable (omega arith)

exclusive-not-IsGrantable : ¬ IsGrantable exclusive_request (bytes "lease_2") 4 served
unfolding is_empty asked_nodes contains any text_dec bytes
exclusive-not-IsGrantable g = cc ((g.free.0 (bytes "a") refl refl).1)

create_lease-refuses_example :
    ((create_lease exclusive_request (bytes "lease_2") 4 served).1.app ≡ busy)
    × ((message : Text) × ((create_lease exclusive_request
            (bytes "lease_2")
            4
            served).1.sink.written
          ≡ [] ++ ClientResponse.error message ∷ []))
create_lease-refuses_example =
    create_lease-refuses exclusive_request (bytes "lease_2") 4 served exclusive-not-IsGrantable
      (omega arith)

create_lease-IsLeaseTable_example :
    IsLeaseTable (create_lease shared_request (bytes "lease_2") 4 served).1.app.leases
create_lease-IsLeaseTable_example =
    create_lease-IsLeaseTable shared_request (bytes "lease_2") 4 served busy-IsLeaseTable

abbrev release_request : ReleaseLeaseRequest
release_request = record { lease_id = bytes "lease_1" }

release_lease_lem_example :
    let c' = (release_lease release_request served).1 in
    ((k : LeaseId)
      → get k c'.app.leases ≡ ite (text_dec (bytes "lease_1") k) none (get k busy.leases))
    × ((l : LeaseRecord)
        → get (bytes "lease_1") busy.leases ≡ some l
        → c'.sink.written ≡ [] ++ ClientResponse.ack ∷ [])
    × (get (bytes "lease_1") busy.leases ≡ none
        → (message : Text) × (c'.sink.written ≡ [] ++ ClientResponse.error message ∷ []))
release_lease_lem_example = release_lease_lem release_request served (omega arith)

busy-NoOrphans : NoOrphans busy
unfolding find_task get text_dec bytes
busy-NoOrphans k t found pending = elim (text_dec (bytes "t") k) [
  | yes same ↦ (bytes "a", busy_worker, bytes "j", refl, ground arith)
  | no other ↦ absurd (ground arith)
]

on_message-NoOrphans_example :
    NoOrphans (on_message (WireMessage.worker (WorkerMessage.task_exited exit_event)) 9 busy)
on_message-NoOrphans_example =
    on_message-NoOrphans (WireMessage.worker (WorkerMessage.task_exited exit_event)) 9 busy tt
      busy-NoOrphans

mark_node_lost-IsFailed_example :
    NoOrphans (mark_node_lost (bytes "a") (bytes "gone") (λ i. i) busy)
    × All
        (λ (t : TaskId × JobId).
          IsFailed (mark_node_lost (bytes "a") (bytes "gone") (λ i. i) busy) t.0)
        (tasks_of (get (bytes "a") busy.nodes))
mark_node_lost-IsFailed_example =
    mark_node_lost-IsFailed (bytes "a") (bytes "gone") (λ i. i) busy busy-NoOrphans

register_orphans_example :
    (find_task (bytes "t") (register info 6 5 busy).store.tasks ≡ some running_row)
    × (¬ IsTracked (register info 6 5 busy) (bytes "t"))
unfolding find_task get text_dec bytes
register_orphans_example =
    register_orphans info 6 5 busy (bytes "t") running_row refl (λ n w j here on.
      elim (text_dec (bytes "a") n) [ yes same ↦ sym same | no other ↦ absurd (ground arith) ])

handle_worker_closed_example :
    let r =
      handle_worker info 6 5
        (λ i. i)
        (messages ((WireMessage.worker (WorkerMessage.task_started start_event), 6) ∷ []) [])
        busy in
    (r.0 ≡ ok tt) × (get (bytes "a") r.1.nodes ≡ none)
handle_worker_closed_example =
    handle_worker_closed info 6 5 (λ i. i)
      ((WireMessage.worker (WorkerMessage.task_started start_event), 6) ∷ []) busy

handle_worker_broken_example :
    let r =
      handle_worker info 6 5
        (λ i. i)
        (messages
          ((WireMessage.worker (WorkerMessage.task_started start_event), 6) ∷ [])
          (failure (bytes "reset") ∷ []))
        busy in
    (r.0 ≡ err (bytes "reset")) × ((w : WorkerHandle) × (get (bytes "a") r.1.nodes ≡ some w))
handle_worker_broken_example =
    handle_worker_broken info 6 5 (λ i. i)
      ((WireMessage.worker (WorkerMessage.task_started start_event), 6) ∷ []) busy (bytes "reset")
      []

abbrev run_request : RunProcessRequest
run_request = record {
  nodes = bytes "a" ∷ [];
  argv = bytes "true" ∷ [];
  cwd = none;
  env = [];
  node_env = [];
  lease_id = none;
  timeout = none;
  wait = true;
}

abbrev draws : Draws
draws = record { job_id = bytes "j2"; task_id = λ i. bytes "u"; time = λ i. i }

run_process-NoOrphans_example :
    NoOrphans
      (Runs.run_process run_request draws
        (λ s. true)
        (event (CoordinatorEvent.exited exit_event) ∷ [])
        served).1.app
run_process-NoOrphans_example =
    run_process-NoOrphans run_request draws (λ s. true)
      (event (CoordinatorEvent.exited exit_event) ∷ []) served busy-NoOrphans

wait_loop-Finishes_example : Finishes 2 (bytes "t" ∷ []) [] served (
    wait_loop
      (event (CoordinatorEvent.started start_event)
        ∷ event (CoordinatorEvent.exited exit_event)
        ∷ [])
      (bytes "t" ∷ [])
      []
      served)
unfolding has_exit any contains text_dec bytes
wait_loop-Finishes_example =
    wait_loop-Finishes
      (CoordinatorEvent.started start_event ∷ CoordinatorEvent.exited exit_event ∷ [])
      (bytes "t" ∷ []) [] served (λ k on. ground arith) (omega arith)

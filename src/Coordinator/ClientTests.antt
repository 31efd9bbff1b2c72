-- ===== src/Coordinator/ClientTests.antt =====
-- The requests that read the state or stop a job, at concrete inputs.
use multinode_controller.Base.{
  ◌≡◌, refl, false, true, if◌then◌else◌, [], ◌∷◌, none, bytes, text_dec, get, values, select,
  newest, is_empty, arith,
}
use multinode_controller.Protocol.{JobSummary, ClientResponse, KillJobRequest}
use multinode_controller.Coordinator.State.{ok, err}
use multinode_controller.Coordinator.Sends.{after_send}
use multinode_controller.Coordinator.Clients.{kill_targets, kill_job}
use multinode_controller.Coordinator.Kills.{
  job_tasks, reached, ordered, all_open, IsListed, kill_job_lem, get-kill_targets,
}
use multinode_controller.Coordinator.Diagnosis.{
  is_error, build_job_diagnosis, build_job_diagnosis_lem,
}
use multinode_controller.Samples.{line, busy, busy_worker, served}

abbrev some_job : JobSummary
some_job = record {
  job_id = bytes "j";
  status = bytes "failed";
  created_at = none;
  updated_at = none;
  tasks = [];
}

build_job_diagnosis_lem_example :
    ((build_job_diagnosis some_job (line ∷ [])).recent_errors
      ≡ newest 20 (select is_error (line ∷ [])))
    × (is_empty (build_job_diagnosis some_job (line ∷ [])).hints ≡ false)
build_job_diagnosis_lem_example = build_job_diagnosis_lem some_job (line ∷ [])

abbrev kill_request : KillJobRequest
kill_request = record { job_id = bytes "j" }

kill_job_lem_example :
    let ts = job_tasks (bytes "j") (values busy.nodes) in
    let c' = ordered served (reached (λ s. true) ts) in
    kill_job kill_request (λ s. true) served ≡ (
      if all_open (λ s. true) ts
      then (ok tt, after_send ClientResponse.ack c')
      else (err (bytes "failed to dispatch kill to worker"), c'))
kill_job_lem_example = kill_job_lem kill_request (λ s. true) served (omega arith)

get-kill_targets_example : IsListed 5 (bytes "t") (kill_targets (bytes "j") (values busy.nodes))
unfolding get text_dec bytes
get-kill_targets_example =
    get-kill_targets (bytes "j") busy.nodes (bytes "a") busy_worker (bytes "t") refl refl

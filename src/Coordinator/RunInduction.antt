-- ===== src/Coordinator/RunInduction.antt =====
-- crates/coordinator/src/main.rs: a property of the shared state that the steps of `run_process` keep
-- is kept by it, however it ends.
use multinode_controller.Base.{
  ℕ, suc, ◌≡◌, Bool, true, false, if◌then◌else◌, List, [], ◌∷◌, ◌++◌, map, some, get, is_empty,
  Bool-cases, Option-cases, inl, inr,
}
use multinode_controller.Protocol.{
  JobId, TaskId, NodeId, DateTime, TaskSpec, TaskExited, RunProcessRequest, ClientResponse,
  CoordinatorMessage,
}
use multinode_controller.Store.Tables.{Formats}
use multinode_controller.Coordinator.State.{
  WorkerHandle, Sender, CoordinatorEvent, AppState, Served, Outcome, ok, err, waiting, Handler,
  bind_outcome, ◌>>=◌, send,
}
use multinode_controller.Coordinator.Sends.{send-app}
use multinode_controller.Coordinator.Leases.{contains}
use multinode_controller.Coordinator.Runs.{
  Draws, Dispatch, assign, dispatch_loop, send_tasks, Received, event, failure, without, on_event,
  wait_loop, finish, run_assigned, run_process, leased_nodes, or_all_nodes, chosen, refused, Choice,
}

module _ ⦃formats : Formats⦄ (P : AppState → Type 0)
    (P-sent : (s : AppState) (sent : List (Sender × CoordinatorMessage))
      → P s
      → P (record s { sent = sent }))
    (P-assign : (job_id : JobId) (task_id : TaskId) (node_id : NodeId) (now : DateTime)
        (w : WorkerHandle) (s : AppState)
      → get node_id s.nodes ≡ some w
      → P s
      → P (assign job_id task_id node_id now s)) where
  -- A handler that keeps the property, whatever its outcome.
  abbrev Keeps : {A : Type 0} → Handler A → Type 0
  Keeps m = (c : Served) → P c.app → P (m c).1.app

  bind-Keeps :
      {A B : Type 0} (m : Handler A) (f : A → Handler B)
      → Keeps m
      → ((a : A) → Keeps (f a))
      → Keeps (m >>= f)
  bind-Keeps {A} {B} m f hm hf c h = after (m c) (hm c h)
    where
      after : (r : Outcome A × Served) → P r.1.app → P (bind_outcome r.0 r.1 f).1.app
      after (ok a, c') h' = hf a c' h'
      after (err e, c') h' = h'
      after (waiting, c') h' = h'

  send-Keeps : (r : ClientResponse) → Keeps (send r)
  send-Keeps r c h = rw (send-app r c) h

  pub dispatch_loop-Keeps :
      (request : RunProcessRequest) (draws : Draws) (i : ℕ) (ns : List NodeId)
      → Keeps (dispatch_loop request draws i ns)
  unfolding dispatch_loop
  dispatch_loop-Keeps request draws i [] c h = h
  dispatch_loop-Keeps request draws i (n ∷ ns) c h = elim (Option-cases (get n c.app.nodes)) [
    | inl e ↦
        rw (e, dispatch_loop)
          (bind-Keeps (send _) (λ _. dispatch_loop request draws i ns) (send-Keeps _)
            (λ _. dispatch_loop-Keeps request draws i ns) c h)
    | inr (w, e) ↦
        rw (e, dispatch_loop)
          (bind-Keeps (dispatch_loop request draws (suc i) ns) _
            (dispatch_loop-Keeps request draws (suc i) ns) (λ d c' h'. h')
            (record c { app = assign draws.job_id (draws.task_id i) n (draws.time i) c.app })
            (P-assign draws.job_id (draws.task_id i) n (draws.time i) w c.app e h))
  ]

  send_tasks-Keeps :
      (is_open : Sender → Bool) (specs : List (Sender × TaskSpec))
      → Keeps (send_tasks is_open specs)
  unfolding send_tasks
  send_tasks-Keeps is_open [] c h = h
  send_tasks-Keeps is_open ((sender, spec) ∷ rest) c h = elim (Bool-cases (is_open sender)) [
    | inl e ↦ rw (e, send_tasks) (send_tasks-Keeps is_open rest _ (P-sent c.app _ h))
    | inr e ↦ rw (e, send_tasks) h
  ]

  if-Keeps :
      {A : Type 0} (b : Bool) (m n : Handler A) → Keeps m → Keeps n → Keeps (if b then m else n)
  if-Keeps true m n hm hn = hm
  if-Keeps false m n hm hn = hn

  on_event-Keeps :
      (e : CoordinatorEvent) (pending : List TaskId) (exits : List TaskExited)
      (next : List TaskId → List TaskExited → Handler (List TaskExited))
      → ((p : List TaskId) (x : List TaskExited) → Keeps (next p x))
      → Keeps (on_event e pending exits next)
  unfolding on_event
  on_event-Keeps (CoordinatorEvent.started e) pending exits next hn =
      if-Keeps (contains pending e.task_id) _ _
        (bind-Keeps (send _) (λ _. next pending exits) (send-Keeps _) (λ _. hn pending exits))
        (hn pending exits)
  on_event-Keeps (CoordinatorEvent.log e) pending exits next hn =
      if-Keeps (contains pending e.task_id) _ _
        (bind-Keeps (send _) (λ _. next pending exits) (send-Keeps _) (λ _. hn pending exits))
        (hn pending exits)
  on_event-Keeps (CoordinatorEvent.exited e) pending exits next hn =
      if-Keeps (contains pending e.task_id) _ _
        (bind-Keeps (send _) (λ _. next (without e.task_id pending) (exits ++ e ∷ []))
          (send-Keeps _) (λ _. hn (without e.task_id pending) (exits ++ e ∷ [])))
        (hn pending exits)
  on_event-Keeps (CoordinatorEvent.error e) pending exits next hn =
      bind-Keeps (send _) (λ _. next pending exits) (send-Keeps _) (λ _. hn pending exits)

  wait_loop-Keeps :
      (received : List Received) (pending : List TaskId) (exits : List TaskExited)
      → Keeps (wait_loop received pending exits)
  unfolding wait_loop
  wait_loop-Keeps [] pending exits c h = elim (Bool-cases (is_empty pending)) [
    | inl e ↦ rw (e, wait_loop) h
    | inr e ↦ rw (e, wait_loop) h
  ]
  wait_loop-Keeps (event m ∷ rest) pending exits c h = elim (Bool-cases (is_empty pending)) [
    | inl e ↦ rw (e, wait_loop) h
    | inr e ↦
        rw (e, wait_loop)
          (on_event-Keeps m pending exits (wait_loop rest) (wait_loop-Keeps rest) c h)
  ]
  wait_loop-Keeps (failure m ∷ rest) pending exits c h = elim (Bool-cases (is_empty pending)) [
    | inl e ↦ rw (e, wait_loop) h
    | inr e ↦ rw (e, wait_loop) h
  ]

  run_assigned-Keeps :
      (request : RunProcessRequest) (job_id : JobId) (is_open : Sender → Bool)
      (received : List Received) (d : Dispatch)
      → Keeps (run_assigned request job_id is_open received d)
  unfolding run_assigned finish
  run_assigned-Keeps request job_id is_open received d =
      if-Keeps (is_empty d.assignments) _ _ (send-Keeps _) (
        bind-Keeps (send _) _ (send-Keeps _) λ _.
          bind-Keeps (send_tasks is_open d.specs) _ (send_tasks-Keeps is_open d.specs) λ _.
            if-Keeps request.wait _ _
              (bind-Keeps (wait_loop received (map (λ a. a.task_id) d.assignments) [])
                (finish job_id) (wait_loop-Keeps received (map (λ a. a.task_id) d.assignments) [])
                (λ exits. send-Keeps _))
              (send-Keeps _))

  pub run_process-Keeps :
      (request : RunProcessRequest) (draws : Draws) (is_open : Sender → Bool)
      (received : List Received) (c : Served)
      → P c.app
      → P (run_process request draws is_open received c).1.app
  unfolding run_process
  run_process-Keeps request draws is_open received c h = elim (Bool-cases (is_empty request.argv)) [
    | inl e ↦ rw (e, run_process) (send-Keeps _ c h)
    | inr e ↦ rw (e, run_process) (by_choice (leased_nodes request c.app.leases))
  ]
    where
      by_choice :
          (o : Choice)
          → P
              (elim o as (λ _. Outcome (Unit {0}) × Served) [
                | refused message ↦ send (ClientResponse.error message) c
                | chosen selected ↦
                    (dispatch_loop request draws 0 (or_all_nodes c.app.nodes selected)
                        >>= run_assigned request draws.job_id is_open received)
                      c
              ]).1.app
      by_choice (refused message) = send-Keeps (ClientResponse.error message) c h
      by_choice (chosen selected) =
          bind-Keeps (dispatch_loop request draws 0 (or_all_nodes c.app.nodes selected))
            (run_assigned request draws.job_id is_open received)
            (dispatch_loop-Keeps request draws 0 (or_all_nodes c.app.nodes selected))
            (run_assigned-Keeps request draws.job_id is_open received) c h

-- ===== src/Coordinator/Dispatch.antt =====
-- crates/coordinator/src/main.rs: which nodes `run_process` gives a task, and which.
use multinode_controller.Base.{
  ℕ, suc, ◌≤◌, ◌<◌, ◌≡◌, refl, ap, ◌∙◌, subst, Bool, List, [], ◌∷◌, ◌++◌, map, Option, none, some,
  bytes, Map, get, get-modify, length, select, All, arith, Option-cases, inl, inr,
}
use multinode_controller.Protocol.{
  simple, JobId, TaskId, NodeId, DateTime, TaskSpec, TaskAssignment, RunProcessRequest,
  ClientResponse,
}
use multinode_controller.Store.Tables.{Formats}
use multinode_controller.Coordinator.State.{
  WorkerHandle, Sender, AppState, Served, Outcome, ok, bind_outcome, ◌>>=◌, ◌>>◌, return, send,
}
use multinode_controller.Coordinator.Sends.{after_send, send_open}
use multinode_controller.Coordinator.Leases.{contains_key}
use multinode_controller.Coordinator.Queued.{IsQueued, track, assign-IsQueued, assign-keeps}
use multinode_controller.Coordinator.RunInduction.{dispatch_loop-Keeps}
use multinode_controller.Coordinator.Runs.{Draws, Dispatch, push, run_spec, assign, dispatch_loop}

-- The tasks for these nodes, under the identifiers drawn from a number on.
unfoldable pub assignments_of : Draws → ℕ → List NodeId → List TaskAssignment
assignments_of draws i [] = []
assignments_of draws i (n ∷ ns) =
    record { job_id = draws.job_id; task_id = draws.task_id i; node_id = n }
    ∷ assignments_of draws (suc i) ns

-- The identifiers that a task to start has.
abbrev pub assignment_of : Sender × TaskSpec → TaskAssignment
assignment_of s = record {
  job_id = s.1.run.job_id;
  task_id = s.1.run.task_id;
  node_id = s.1.run.node_id;
}

-- The channel of a connected node.
unfoldable pub channel_of : Map WorkerHandle → NodeId → Option Sender
channel_of nodes n = elim (get n nodes) [ none ↦ none | some w ↦ some w.sender ]

-- What the loop over the nodes returns: a task for each connected one, in their order, each under
-- the next identifier drawn, for that node's channel and with the command asked for; and each is
-- queued in the state that the loop leaves.
pub record IsDispatch (request : RunProcessRequest) (draws : Draws) (i : ℕ)
    (nodes : Map WorkerHandle) (ns : List NodeId) (r : Outcome Dispatch × Served) : Type 0 where
  pub dispatch : Dispatch
  pub final : Served
  pub result : r ≡ (ok dispatch, final)
  pub assigned : dispatch.assignments ≡ assignments_of draws i (select (contains_key nodes) ns)
  pub commands : All (λ (s : Sender × TaskSpec). s.1.run.argv ≡ request.argv) dispatch.specs
  pub told : map assignment_of dispatch.specs ≡ dispatch.assignments
  pub channels :
      map (λ (s : Sender × TaskSpec). some s.0) dispatch.specs
      ≡ map (channel_of nodes) (select (contains_key nodes) ns)
  pub queued :
      All (λ (a : TaskAssignment). IsQueued a.node_id a.task_id final.app) dispatch.assignments

contains_key-assign :
    ⦃formats : Formats⦄ (job_id : JobId) (task_id : TaskId) (n : NodeId) (now : DateTime)
    (s : AppState) (k : NodeId)
    → contains_key (assign job_id task_id n now s).nodes k ≡ contains_key s.nodes k
unfolding contains_key assign
contains_key-assign job_id task_id n now s k = elim (Option-cases (get k s.nodes)) [
  | inl e ↦ ground (arith, e, get-modify n k (track task_id job_id) s.nodes)
  | inr (w, e) ↦ ground (arith, e, get-modify n k (track task_id job_id) s.nodes)
]

select-same {ℓ} :
    {A : Type ℓ} (p q : A → Bool) (xs : List A) → ((x : A) → p x ≡ q x) → select p xs ≡ select q xs
unfolding select
select-same p q [] h = refl
select-same p q (x ∷ xs) h = ground (arith, h x, select-same p q xs h)

select-connected :
    (nodes : Map WorkerHandle) (n : NodeId) (w : WorkerHandle) (ns : List NodeId)
    → get n nodes ≡ some w
    → n ∷ select (contains_key nodes) ns ≡ select (contains_key nodes) (n ∷ ns)
unfolding select contains_key
select-connected nodes n w ns e = ground (arith, e)

select-other :
    (nodes : Map WorkerHandle) (n : NodeId) (ns : List NodeId)
    → get n nodes ≡ none
    → select (contains_key nodes) ns ≡ select (contains_key nodes) (n ∷ ns)
unfolding select contains_key
select-other nodes n ns e = ground (arith, e)

channel_of-assign :
    ⦃formats : Formats⦄ (job_id : JobId) (task_id : TaskId) (n : NodeId) (now : DateTime)
    (s : AppState) (k : NodeId)
    → channel_of (assign job_id task_id n now s).nodes k ≡ channel_of s.nodes k
unfolding channel_of assign
channel_of-assign job_id task_id n now s k = elim (Option-cases (get k s.nodes)) [
  | inl e ↦ ground (arith, e, get-modify n k (track task_id job_id) s.nodes)
  | inr (w, e) ↦ ground (arith, e, get-modify n k (track task_id job_id) s.nodes)
]

channel_of-connected :
    (nodes : Map WorkerHandle) (n : NodeId) (w : WorkerHandle)
    → get n nodes ≡ some w
    → some w.sender ≡ channel_of nodes n
unfolding channel_of
channel_of-connected nodes n w e = rw (e, channel_of) refl

map-same : {A B : Type 0} (f g : A → B) (xs : List A) → ((x : A) → f x ≡ g x) → map f xs ≡ map g xs
map-same f g [] h = refl
map-same f g (x ∷ xs) h = rw (h x, map-same f g xs h) refl

module _ ⦃formats : Formats⦄ (request : RunProcessRequest) (draws : Draws) (i : ℕ) (n : NodeId)
    (ns : List NodeId) (c : Served) where
  abbrev refusal : ClientResponse
  refusal = ClientResponse.error (bytes "node " ++ (n ++ bytes " is not connected"))

  skipped :
      0 < c.sink.room
      → get n c.app.nodes ≡ none
      → IsDispatch request draws i c.app.nodes ns
          (dispatch_loop request draws i ns (after_send refusal c))
      → IsDispatch request draws i c.app.nodes
          (n ∷ ns)
          ((send refusal >> dispatch_loop request draws i ns) c)
  unfolding select contains_key
  skipped room e d = rw (send_open refusal c room) (record {
    dispatch = d.dispatch;
    final = d.final;
    result = d.result;
    assigned = d.assigned ∙ ap (assignments_of draws i) (select-other c.app.nodes n ns e);
    commands = d.commands;
    told = d.told;
    channels = d.channels ∙ ap (map (channel_of c.app.nodes)) (select-other c.app.nodes n ns e);
    queued = d.queued;
  })

  abbrev with_task : Served
  with_task = record c { app = assign draws.job_id (draws.task_id i) n (draws.time i) c.app }

  -- What the round for a connected node puts in front.
  abbrev pushed : WorkerHandle → Dispatch → Dispatch
  pushed w d =
      push (w.sender, record { run = run_spec request draws.job_id (draws.task_id i) n })
        (record { job_id = draws.job_id; task_id = draws.task_id i; node_id = n }) d

  added :
      (w : WorkerHandle)
      → get n c.app.nodes ≡ some w
      → IsDispatch request draws
          (suc i)
          with_task.app.nodes
          ns
          (dispatch_loop request draws (suc i) ns with_task)
      → IsDispatch request draws i c.app.nodes
          (n ∷ ns)
          ((dispatch_loop request draws (suc i) ns >>= λ d. return (pushed w d)) with_task)
  unfolding push run_spec simple assignments_of
  added w e d =
      let before = c.app.nodes in
      let after = with_task.app.nodes in
      let same =
        select-same (contains_key after) (contains_key before) ns
          (contains_key-assign draws.job_id (draws.task_id i) n (draws.time i) c.app) in
      let connected = select-connected before n w ns e in
      let a : TaskAssignment = record {
        job_id = draws.job_id;
        task_id = draws.task_id i;
        node_id = n;
      } in
      let kept : IsQueued n (draws.task_id i) d.final.app =
        subst (λ (r : Outcome Dispatch × Served). IsQueued n (draws.task_id i) r.1.app) d.result
          (dispatch_loop-Keeps (IsQueued n (draws.task_id i)) (λ s sent q. q)
            (assign-keeps n (draws.task_id i)) request draws (suc i) ns with_task
            (assign-IsQueued draws.job_id (draws.task_id i) n (draws.time i) w c.app e)) in
      record {
        dispatch = pushed w d.dispatch;
        final = d.final;
        result = ap (λ r. bind_outcome r.0 r.1 (λ d. return (pushed w d))) d.result;
        assigned =
            ap (◌∷◌ a) (d.assigned ∙ ap (assignments_of draws (suc i)) same)
            ∙ ap (assignments_of draws i) connected;
        commands = (refl, d.commands);
        told = ap (◌∷◌ a) d.told;
        channels =
            ap (◌∷◌ (some w.sender)) (
              d.channels
              ∙ ap (map (channel_of after)) same
              ∙ map-same (channel_of after) (channel_of before) (select (contains_key before) ns)
                  (channel_of-assign draws.job_id (draws.task_id i) n (draws.time i) c.app))
            ∙ ap (λ o. o ∷ map (channel_of before) (select (contains_key before) ns))
                (channel_of-connected before n w e)
            ∙ ap (map (channel_of before)) connected;
        queued = (kept, d.queued);
      }

module _ ⦃formats : Formats⦄ (request : RunProcessRequest) (draws : Draws) where
  -- If the client's socket takes an error for each node, the loop over the nodes selected ends with
  -- one task for each connected node among them, in their order: each under the next identifier
  -- drawn, for its node's channel and with the command asked for. In the state that is left, each
  -- is on the list of its node and queued in the store.
  pub dispatch_loop-IsDispatch :
      (i : ℕ) (ns : List NodeId) (c : Served)
      → length ns ≤ c.sink.room
      → IsDispatch request draws i c.app.nodes ns (dispatch_loop request draws i ns c)
  unfolding dispatch_loop select assignments_of
  dispatch_loop-IsDispatch i [] c room = record {
    dispatch = record { specs = []; assignments = [] };
    final = c;
    result = refl;
    assigned = refl;
    commands = tt;
    told = refl;
    channels = refl;
    queued = tt;
  }
  dispatch_loop-IsDispatch i (n ∷ ns) c room = elim (Option-cases (get n c.app.nodes)) [
    | inl e ↦
        rw (e, dispatch_loop)
          (skipped request draws i n ns c (omega arith) e (
            dispatch_loop-IsDispatch i ns
              (after_send (ClientResponse.error (bytes "node " ++ (n ++ bytes " is not connected")))
                c)
              (omega arith)))
    | inr (w, e) ↦
        rw (e, dispatch_loop)
          (added request draws i n ns c w e (
            dispatch_loop-IsDispatch (suc i) ns
              (record c { app = assign draws.job_id (draws.task_id i) n (draws.time i) c.app })
              (omega arith)))
  ]

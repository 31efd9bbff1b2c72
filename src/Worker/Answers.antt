-- ===== src/Worker/Answers.antt =====
-- crates/worker/src/main.rs: what a connection makes of the coordinator's messages, and a task of
-- its events, as long as the worker can send.
use multinode_controller.Base.{
  ℤ, ◌≡◌, refl, sym, ◌∙◌, ap, true, List, [], ◌∷◌, some, ◌++◌, map, append-nil, Text, Result, ok,
  err, try, All,
}
use mathlib.Core.List.{append_assoc}
use multinode_controller.Protocol.{
  TaskId, NodeId, TaskSpec, WorkerMessage, start_task, kill_task, ping, update_policy, WireMessage,
}
use multinode_controller.Socket.{Incoming, frame}
use multinode_controller.Executor.Events.{ExecutionEvent}
use multinode_controller.Executor.Runs.{LocalExecutor, Signal, kill}
use multinode_controller.Worker.Connection.{
  Outbox, post, task_error, worker_message, forward, Connection, on_kill, on_wire, on_parsed,
  message_loop, go_on,
}

abbrev posted : WorkerMessage → Outbox → Outbox
posted message out = record out { messages = out.messages ++ message ∷ [] }

post-open :
    (message : WorkerMessage) (out : Outbox)
    → out.is_open ≡ true
    → post message out ≡ (ok tt, posted message out)
unfolding post
post-open message out e = rw e refl

-- On an open channel every event goes out, in the order of the events.
pub forward-open :
    (events : List ExecutionEvent) (out : Outbox)
    → out.is_open ≡ true
    → forward events out ≡ record out { messages = out.messages ++ map worker_message events }
unfolding forward post
forward-open [] out e = rw (append-nil out.messages) refl
forward-open (event ∷ events) out e = rw e (
    forward-open events
      (record { messages = out.messages ++ worker_message event ∷ []; is_open = true }) refl
    ∙ ap (λ m. record { messages = m; is_open = true })
        (append_assoc out.messages (worker_message event ∷ []) (map worker_message events)))

-- A message with the text that it is read from, and the executor at the time.
pub record Heard : Type 0 where
  pub executor : LocalExecutor
  pub text : Text
  pub wire : WireMessage

unfoldable pub incoming : Heard → LocalExecutor × Incoming Text
incoming heard = (heard.executor, frame (ok heard.text))

-- The tasks that a message asks to start.
unfoldable pub starts_of : WireMessage → List TaskSpec
starts_of (WireMessage.coordinator (start_task spec)) = spec ∷ []
starts_of wire = []

unfoldable pub starts_in : List Heard → List TaskSpec
starts_in [] = []
starts_in (heard ∷ rest) = starts_of heard.wire ++ starts_in rest

module _ (from_text : Text → Result WireMessage) (killpg : ℤ → Signal → Result (Unit {0})) where
  -- A kill that fails is answered with one error, which names the task.
  unfoldable pub answer_to_kill : NodeId → TaskId → Result (Unit {0}) → List WorkerMessage
  answer_to_kill node_id task_id (ok done) = []
  answer_to_kill node_id task_id (err e) =
      WorkerMessage.error (record { node_id = some node_id; task_id = some task_id; message = e })
      ∷ []

  unfoldable pub answers_to : NodeId → LocalExecutor → WireMessage → List WorkerMessage
  answers_to node_id executor (WireMessage.coordinator (kill_task task_id)) =
      answer_to_kill node_id task_id (kill killpg task_id executor)
  answers_to node_id executor wire = []

  unfoldable pub answers_in : NodeId → List Heard → List WorkerMessage
  answers_in node_id [] = []
  answers_in node_id (heard ∷ rest) =
      answers_to node_id heard.executor heard.wire ++ answers_in node_id rest

  -- The messages answered and the tasks spawned so far, one message later.
  abbrev Answered :
      Connection → Result (Unit {0}) × Connection → List WorkerMessage → List TaskSpec → Type 0
  Answered c result answers starts =
      (result.0 ≡ ok tt)
      × (result.1.out.messages ≡ c.out.messages ++ answers)
      × (result.1.spawned ≡ c.spawned ++ starts)
      × (result.1.out.is_open ≡ true)

  on_kill-Answered :
      (node_id : NodeId) (task_id : TaskId) (result : Result (Unit {0})) (c : Connection)
      → c.out.is_open ≡ true
      → Answered c (on_kill node_id task_id result c) (answer_to_kill node_id task_id result) []
  unfolding on_kill answer_to_kill task_error
  on_kill-Answered node_id task_id (ok done) c e =
      (refl, sym (append-nil c.out.messages), sym (append-nil c.spawned), e)
  on_kill-Answered node_id task_id (err x) c e =
      rw (post-open (task_error node_id task_id x) c.out e)
        (refl, refl, sym (append-nil c.spawned), e)

  on_wire-Answered :
      (node_id : NodeId) (wire : WireMessage) (c : Connection)
      → c.out.is_open ≡ true
      → Answered c
          (on_wire from_text killpg node_id wire c)
          (answers_to node_id c.executor wire)
          (starts_of wire)
  unfolding on_wire answers_to starts_of
  on_wire-Answered node_id (WireMessage.coordinator (start_task spec)) c e =
      (refl, sym (append-nil c.out.messages), refl, e)
  on_wire-Answered node_id (WireMessage.coordinator (kill_task task_id)) c e =
      on_kill-Answered node_id task_id (kill killpg task_id c.executor) c e
  on_wire-Answered node_id (WireMessage.coordinator ping) c e =
      (refl, sym (append-nil c.out.messages), sym (append-nil c.spawned), e)
  on_wire-Answered node_id (WireMessage.coordinator (update_policy policy)) c e =
      (refl, sym (append-nil c.out.messages), sym (append-nil c.spawned), e)
  on_wire-Answered node_id (WireMessage.worker m) c e =
      (refl, sym (append-nil c.out.messages), sym (append-nil c.spawned), e)
  on_wire-Answered node_id (WireMessage.client_request m) c e =
      (refl, sym (append-nil c.out.messages), sym (append-nil c.spawned), e)
  on_wire-Answered node_id (WireMessage.client_response m) c e =
      (refl, sym (append-nil c.out.messages), sym (append-nil c.spawned), e)

  loop-step :
      (node_id : NodeId) (h : Heard) (rest : List Heard) (c : Connection)
      → from_text h.text ≡ ok h.wire
      → (on_wire from_text killpg node_id h.wire (record c { executor = h.executor })).0 ≡ ok tt
      → message_loop from_text killpg node_id (map incoming (h ∷ rest)) c
        ≡ message_loop from_text killpg node_id
            (map incoming rest)
            (on_wire from_text killpg node_id h.wire (record c { executor = h.executor })).1
  unfolding message_loop incoming try on_parsed go_on
  loop-step node_id h rest c read done =
      ap after_parsed read ∙ ap (λ result. go_on result (after h.wire) (from_there h.wire)) done
    where
      after : WireMessage → Connection
      after wire = (on_wire from_text killpg node_id wire (record c { executor = h.executor })).1

      from_there : WireMessage → Result (Unit {0}) × Connection
      from_there wire = message_loop from_text killpg node_id (map incoming rest) (after wire)

      after_parsed : Result WireMessage → Result (Unit {0}) × Connection
      after_parsed parsed =
          let (result, c') =
            on_parsed from_text killpg node_id parsed (record c { executor = h.executor }) in
          go_on result c' (message_loop from_text killpg node_id (map incoming rest) c')

  -- As long as the worker can send and the texts are messages, the loop goes on to the end: it
  -- spawns the tasks that are to start, in their order, and answers each kill that fails with one
  -- error that names the task, and nothing else.
  pub message_loop-answers :
      (node_id : NodeId) (heard : List Heard) (c : Connection)
      → All (λ h. from_text h.text ≡ ok h.wire) heard
      → c.out.is_open ≡ true
      → ((message_loop from_text killpg node_id (map incoming heard) c).0 ≡ ok tt)
        × ((message_loop from_text killpg node_id (map incoming heard) c).1.out.messages
            ≡ c.out.messages ++ answers_in node_id heard)
        × ((message_loop from_text killpg node_id (map incoming heard) c).1.spawned
            ≡ c.spawned ++ starts_in heard)
  unfolding answers_in starts_in message_loop
  message_loop-answers node_id [] c reads e =
      (refl, sym (append-nil c.out.messages), sym (append-nil c.spawned))
  message_loop-answers node_id (h ∷ rest) c reads e =
      let here = record c { executor = h.executor } in
      let (done, answers, starts, still) = on_wire-Answered node_id h.wire here e in
      let (ends, later, spawns) =
        message_loop-answers node_id rest (on_wire from_text killpg node_id h.wire here).1 reads.1
          still in
      rw (loop-step node_id h rest c reads.0 done) (
        ends,
        later
            ∙ ap (λ m. m ++ answers_in node_id rest) answers
            ∙ append_assoc c.out.messages (answers_to node_id h.executor h.wire)
                (answers_in node_id rest),
        spawns
            ∙ ap (λ m. m ++ starts_in rest) starts
            ∙ append_assoc c.spawned (starts_of h.wire) (starts_in rest),
      )

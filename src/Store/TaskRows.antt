-- ===== src/Store/TaskRows.antt =====
-- crates/jobstore/src/lib.rs: what the three methods that write the table `tasks` do to it.
use multinode_controller.Base.{
  ◌≡◌, refl, ◌∙◌, List, [], ◌∷◌, Option, none, some, Text, bytes, if◌then◌else◌, text_dec, ite, ap,
  arith,
}
use multinode_controller.Protocol.{JobId, TaskId, NodeId, DateTime, TaskStarted, TaskExited}
use multinode_controller.Store.Tables.{
  Formats, TaskRow, JobStore, coalesce, update_task, exit_status, dispatched_row, redispatched,
  record_task_dispatched, started_row, restarted, record_task_started, exited_row, exit_update,
  record_task_exited,
}
use multinode_controller.Store.TaskTable.{
  find_task, UniqueTasks, find-upsert_task, find-update_task, find-append, count-find,
  upsert_task-UniqueTasks, update_task-UniqueTasks, append-UniqueTasks,
}

-- The writes to the table, and the row that each is about.
pub data TaskEvent : Type 0 where
  dispatched : JobId → TaskId → NodeId → DateTime → TaskEvent
  started : TaskStarted → TaskEvent
  exited : TaskExited → TaskEvent

-- A time that is there, or else the one given.
unfoldable pub first_of : Option Text → Text → Option Text
first_of none time = some time
first_of (some t) time = some t

coalesce-first_of : (o : Option Text) (time : Text) → coalesce o (some time) ≡ first_of o time
unfolding coalesce first_of
coalesce-first_of none time = refl
coalesce-first_of (some t) time = refl

unfoldable pub subject : TaskEvent → TaskId
subject (dispatched job_id task_id node_id timestamp) = task_id
subject (started event) = event.task_id
subject (exited event) = event.task_id

module _ ⦃formats : Formats⦄ where
  open formats use {to_rfc3339}

  unfoldable pub apply : TaskEvent → JobStore → JobStore
  apply (dispatched job_id task_id node_id timestamp) s =
      record_task_dispatched job_id task_id node_id timestamp s
  apply (started event) s = record_task_started event s
  apply (exited event) s = record_task_exited event s

  -- The row after an event, column by column: a fresh one, or the one there with the columns that
  -- the event sets. A creation time that is there stays.
  unfoldable pub effect : TaskEvent → Option TaskRow → TaskRow
  effect (dispatched job_id task_id node_id timestamp) none = record {
    task_id = task_id;
    job_id = job_id;
    node_id = node_id;
    status = bytes "queued";
    created_at = some (to_rfc3339 timestamp);
    started_at = none;
    exited_at = none;
    exit_code = none;
  }
  effect (dispatched job_id task_id node_id timestamp) (some t) = record {
    task_id = t.task_id;
    job_id = job_id;
    node_id = node_id;
    status = bytes "queued";
    created_at = first_of t.created_at (to_rfc3339 timestamp);
    started_at = t.started_at;
    exited_at = t.exited_at;
    exit_code = t.exit_code;
  }
  effect (started event) none = record {
    task_id = event.task_id;
    job_id = event.job_id;
    node_id = event.node_id;
    status = bytes "running";
    created_at = some (to_rfc3339 event.timestamp);
    started_at = some (to_rfc3339 event.timestamp);
    exited_at = none;
    exit_code = none;
  }
  effect (started event) (some t) = record {
    task_id = t.task_id;
    job_id = t.job_id;
    node_id = t.node_id;
    status = bytes "running";
    created_at = first_of t.created_at (to_rfc3339 event.timestamp);
    started_at = some (to_rfc3339 event.timestamp);
    exited_at = t.exited_at;
    exit_code = t.exit_code;
  }
  effect (exited event) none = record {
    task_id = event.task_id;
    job_id = event.job_id;
    node_id = event.node_id;
    status = if event.success then bytes "succeeded" else bytes "failed";
    created_at = some (to_rfc3339 event.timestamp);
    started_at = none;
    exited_at = some (to_rfc3339 event.timestamp);
    exit_code = event.exit_code;
  }
  effect (exited event) (some t) = record {
    task_id = t.task_id;
    job_id = t.job_id;
    node_id = t.node_id;
    status = if event.success then bytes "succeeded" else bytes "failed";
    created_at = t.created_at;
    started_at = t.started_at;
    exited_at = some (to_rfc3339 event.timestamp);
    exit_code = event.exit_code;
  }

  -- The row that the statements write.
  unfoldable written : TaskEvent → Option TaskRow → TaskRow
  written (dispatched job_id task_id node_id timestamp) none =
      dispatched_row job_id task_id node_id timestamp
  written (dispatched job_id task_id node_id timestamp) (some t) =
      redispatched (dispatched_row job_id task_id node_id timestamp) t
  written (started event) none = started_row event
  written (started event) (some t) = restarted (started_row event) t
  written (exited event) none = exited_row event
  written (exited event) (some t) = exit_update event t

  written-effect : (e : TaskEvent) (o : Option TaskRow) → written e o ≡ effect e o
  unfolding written effect redispatched dispatched_row restarted started_row exited_row exit_update
      exit_status
  written-effect (dispatched job_id task_id node_id timestamp) none = refl
  written-effect (dispatched job_id task_id node_id timestamp) (some t) =
      ap
        (λ c. record t {
          job_id = job_id;
          node_id = node_id;
          status = bytes "queued";
          created_at = c;
        })
        (coalesce-first_of t.created_at (to_rfc3339 timestamp))
  written-effect (started event) none = refl
  written-effect (started event) (some t) =
      ap
        (λ c. record t {
          status = bytes "running";
          created_at = c;
          started_at = some (to_rfc3339 event.timestamp);
        })
        (coalesce-first_of t.created_at (to_rfc3339 event.timestamp))
  written-effect (exited event) none = refl
  written-effect (exited event) (some t) = refl

  find-exited :
      (event : TaskExited) (k : Text) (s : JobStore)
      → find_task k (record_task_exited event s).tasks
        ≡ ite
            (text_dec event.task_id k)
            (some (written (exited event) (find_task k s.tasks)))
            (find_task k s.tasks)
  unfolding record_task_exited written exit_update exited_row
  find-exited event k s = ground (
    arith,
    count-find event.task_id s.tasks,
    find-append k (update_task event.task_id (exit_update event) s.tasks) (exited_row event),
    find-update_task k event.task_id (exit_update event) s.tasks (λ t. refl),
  )

  find-written :
      (e : TaskEvent) (k : Text) (s : JobStore)
      → find_task k (apply e s).tasks
        ≡ ite
            (text_dec (subject e) k)
            (some (written e (find_task k s.tasks)))
            (find_task k s.tasks)
  unfolding apply written subject record_task_dispatched record_task_started redispatched restarted
      dispatched_row started_row
  find-written (dispatched job_id task_id node_id timestamp) k s =
      let new = dispatched_row job_id task_id node_id timestamp in
      ground (arith, find-upsert_task k new (redispatched new) s.tasks (λ t. refl))
  find-written (started event) k s =
      let new = started_row event in
      ground (arith, find-upsert_task k new (restarted new) s.tasks (λ t. refl))
  find-written (exited event) k s = find-exited event k s

  -- Each write sets the row of the identifier that it is about, to a fresh row or to the row there
  -- with the event's columns, and leaves every other row as it was.
  pub find-apply :
      (e : TaskEvent) (k : Text) (s : JobStore)
      → find_task k (apply e s).tasks
        ≡ ite (text_dec (subject e) k) (some (effect e (find_task k s.tasks))) (find_task k s.tasks)
  find-apply e k s =
      find-written e k s
      ∙ ap (λ row. ite (text_dec (subject e) k) (some row) (find_task k s.tasks))
          (written-effect e (find_task k s.tasks))

  -- No write puts an identifier into two rows.
  apply-UniqueTasks :
      (e : TaskEvent) (s : JobStore) → UniqueTasks s.tasks → UniqueTasks (apply e s).tasks
  unfolding apply record_task_dispatched record_task_started record_task_exited redispatched
      restarted exit_update exited_row
  apply-UniqueTasks (dispatched job_id task_id node_id timestamp) s u =
      let new = dispatched_row job_id task_id node_id timestamp in
      upsert_task-UniqueTasks new (redispatched new) s.tasks (λ t. refl) u
  apply-UniqueTasks (started event) s u =
      let new = started_row event in
      upsert_task-UniqueTasks new (restarted new) s.tasks (λ t. refl) u
  apply-UniqueTasks (exited event) s u =
      let updated = update_task event.task_id (exit_update event) s.tasks in
      ground (
        arith,
        count-find event.task_id s.tasks,
        find-update_task event.task_id event.task_id (exit_update event) s.tasks (λ t. refl),
        update_task-UniqueTasks event.task_id (exit_update event) s.tasks (λ t. refl) u,
        append-UniqueTasks (exited_row event) updated,
      )

  unfoldable pub run : List TaskEvent → JobStore → JobStore
  run [] s = s
  run (e ∷ es) s = run es (apply e s)

  -- However the writes come, the primary key stays unique.
  pub run-UniqueTasks :
      (es : List TaskEvent) (s : JobStore) → UniqueTasks s.tasks → UniqueTasks (run es s).tasks
  unfolding run
  run-UniqueTasks [] s u = u
  run-UniqueTasks (e ∷ es) s u = run-UniqueTasks es (apply e s) (apply-UniqueTasks e s u)

  effect-created_at :
      (e : TaskEvent) (t : TaskRow) {c : Text}
      → t.created_at ≡ some c
      → (effect e (some t)).created_at ≡ some c
  unfolding effect first_of
  effect-created_at (dispatched job_id task_id node_id timestamp) t h = ground arith
  effect-created_at (started event) t h = ground arith
  effect-created_at (exited event) t h = ground arith

  apply-created_at :
      (e : TaskEvent) (k : Text) (s : JobStore) (t : TaskRow) {c : Text}
      → find_task k s.tasks ≡ some t
      → t.created_at ≡ some c
      → (u : TaskRow) × (find_task k (apply e s).tasks ≡ some u) × (u.created_at ≡ some c)
  apply-created_at e k s t found h = elim (text_dec (subject e) k) [
    | yes same ↦ (effect e (some t), ground (arith, find-apply e k s), effect-created_at e t h)
    | no other ↦ (t, ground (arith, find-apply e k s), h)
  ]

  -- Once a task has a row with a creation time, no later write removes the row or changes that
  -- time.
  pub run-created_at :
      (es : List TaskEvent) (k : Text) (s : JobStore) (t : TaskRow) {c : Text}
      → find_task k s.tasks ≡ some t
      → t.created_at ≡ some c
      → (u : TaskRow) × (find_task k (run es s).tasks ≡ some u) × (u.created_at ≡ some c)
  unfolding run
  run-created_at [] k s t found h = (t, found, h)
  run-created_at (e ∷ es) k s t found h =
      let (u, found', h') = apply-created_at e k s t found h in
      run-created_at es k (apply e s) u found' h'

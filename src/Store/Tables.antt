-- ===== src/Store/Tables.antt =====
-- crates/jobstore/src/lib.rs: the tables, and the methods that write them.
use multinode_controller.Base.{
  ℕ, suc, ◌≡◌, Bool, if◌then◌else◌, ◌==◌, List, [], ◌∷◌, ◌++◌, Option, none, some, Text, text_dec,
  bytes, ite, ℤ, to_i64,
}
use multinode_controller.Protocol.{
  JobId, TaskId, NodeId, DateTime, NodeInfo, TaskStarted, TaskExited, LogLine, stream_text,
}

-- What the store calls of chrono and serde_json. The law is chrono's: what `to_rfc3339` writes,
-- `parse_from_rfc3339` reads back.
pub record Formats : Type 0 where
  pub to_rfc3339 : DateTime → Text
  pub parse_from_rfc3339 : Text → Option DateTime
  pub node_to_json : NodeInfo → Text
  pub parse-to_rfc3339 : (t : DateTime) → parse_from_rfc3339 (to_rfc3339 t) ≡ some t

pub record NodeRow : Type 0 where
  pub node_id : Text
  pub node_name : Text
  pub last_seen : Text
  pub payload : Text

pub record TaskRow : Type 0 where
  pub task_id : Text
  pub job_id : Text
  pub node_id : Text
  pub status : Text
  pub created_at : Option Text
  pub started_at : Option Text
  pub exited_at : Option Text
  pub exit_code : Option ℤ

pub record LogRow : Type 0 where
  pub id : ℕ
  pub job_id : Text
  pub task_id : Text
  pub node_id : Text
  pub stream : Text
  pub timestamp : Text
  pub line : Text
  pub offset : ℤ

-- `next_log_id` is the counter behind AUTOINCREMENT.
pub record JobStore : Type 0 where
  pub nodes : List NodeRow
  pub tasks : List TaskRow
  pub task_logs : List LogRow
  pub next_log_id : ℕ

-- `init` on a new database.
abbrev pub empty_store : JobStore
empty_store = record { nodes = []; tasks = []; task_logs = []; next_log_id = 1 }

-- SQL's COALESCE of two.
unfoldable pub coalesce {ℓ} : {A : Type ℓ} → Option A → Option A → Option A
coalesce none b = b
coalesce (some a) b = some a

-- INSERT … ON CONFLICT(task_id) DO UPDATE, with the update as a function of the row there.
unfoldable pub upsert_task : TaskRow → (TaskRow → TaskRow) → List TaskRow → List TaskRow
upsert_task new update [] = new ∷ []
upsert_task new update (t ∷ ts) =
    ite (text_dec t.task_id new.task_id) (update t ∷ ts) (t ∷ upsert_task new update ts)

-- UPDATE tasks … WHERE task_id = ?1, and the number of rows that it changed.
unfoldable pub update_task : Text → (TaskRow → TaskRow) → List TaskRow → List TaskRow
update_task id update [] = []
update_task id update (t ∷ ts) = ite (text_dec t.task_id id) (update t) t ∷ update_task id update ts

unfoldable pub count_task : Text → List TaskRow → ℕ
count_task id [] = 0
count_task id (t ∷ ts) = ite (text_dec t.task_id id) (suc (count_task id ts)) (count_task id ts)

unfoldable pub upsert_node_row : NodeRow → List NodeRow → List NodeRow
upsert_node_row new [] = new ∷ []
upsert_node_row new (n ∷ ns) =
    ite (text_dec n.node_id new.node_id) (new ∷ ns) (n ∷ upsert_node_row new ns)

unfoldable pub exit_status : Bool → Text
exit_status success = if success then bytes "succeeded" else bytes "failed"

module _ ⦃formats : Formats⦄ where
  open formats use {to_rfc3339, node_to_json}

  unfoldable pub upsert_node : NodeInfo → JobStore → JobStore
  upsert_node node s = record s {
    nodes =
        upsert_node_row
          (record {
            node_id = node.node_id;
            node_name = node.node_name;
            last_seen = to_rfc3339 node.started_at;
            payload = node_to_json node;
          })
          s.nodes;
  }

  unfoldable pub dispatched_row : JobId → TaskId → NodeId → DateTime → TaskRow
  dispatched_row job_id task_id node_id timestamp = record {
    task_id = task_id;
    job_id = job_id;
    node_id = node_id;
    status = bytes "queued";
    created_at = some (to_rfc3339 timestamp);
    started_at = none;
    exited_at = none;
    exit_code = none;
  }

  unfoldable pub redispatched : TaskRow → TaskRow → TaskRow
  redispatched new t = record t {
    job_id = new.job_id;
    node_id = new.node_id;
    status = bytes "queued";
    created_at = coalesce t.created_at new.created_at;
  }

  unfoldable pub record_task_dispatched : JobId → TaskId → NodeId → DateTime → JobStore → JobStore
  record_task_dispatched job_id task_id node_id timestamp s =
      let new = dispatched_row job_id task_id node_id timestamp in
      record s { tasks = upsert_task new (redispatched new) s.tasks }

  unfoldable pub started_row : TaskStarted → TaskRow
  started_row event = record {
    task_id = event.task_id;
    job_id = event.job_id;
    node_id = event.node_id;
    status = bytes "running";
    created_at = some (to_rfc3339 event.timestamp);
    started_at = some (to_rfc3339 event.timestamp);
    exited_at = none;
    exit_code = none;
  }

  unfoldable pub restarted : TaskRow → TaskRow → TaskRow
  restarted new t = record t {
    status = bytes "running";
    created_at = coalesce t.created_at new.created_at;
    started_at = new.started_at;
  }

  unfoldable pub record_task_started : TaskStarted → JobStore → JobStore
  record_task_started event s =
      let new = started_row event in record s { tasks = upsert_task new (restarted new) s.tasks }

  unfoldable pub log_row : ℕ → LogLine → LogRow
  log_row id line = record {
    id = id;
    job_id = line.job_id;
    task_id = line.task_id;
    node_id = line.node_id;
    stream = stream_text line.stream;
    timestamp = to_rfc3339 line.timestamp;
    line = line.line;
    offset = to_i64 line.offset;
  }

  unfoldable pub record_log_line : LogLine → JobStore → JobStore
  unfolding log_row
  record_log_line line s = record s {
    task_logs = s.task_logs ++ log_row s.next_log_id line ∷ [];
    next_log_id = suc s.next_log_id;
  }

  unfoldable pub exited_row : TaskExited → TaskRow
  exited_row event = record {
    task_id = event.task_id;
    job_id = event.job_id;
    node_id = event.node_id;
    status = exit_status event.success;
    created_at = some (to_rfc3339 event.timestamp);
    started_at = none;
    exited_at = some (to_rfc3339 event.timestamp);
    exit_code = event.exit_code;
  }

  unfoldable pub exit_update : TaskExited → TaskRow → TaskRow
  exit_update event t = record t {
    status = exit_status event.success;
    exited_at = some (to_rfc3339 event.timestamp);
    exit_code = event.exit_code;
  }

  unfoldable pub record_task_exited : TaskExited → JobStore → JobStore
  record_task_exited event s =
      let updated = update_task event.task_id (exit_update event) s.tasks in
      record s {
        tasks =
            if count_task event.task_id s.tasks == 0
            then updated ++ exited_row event ∷ []
            else updated;
      }

-- ===== src/Executor/Events.antt =====
-- crates/executor/src/lib.rs: the events of a task, the channel that carries them, and the reader
-- of one of its two output streams.
use multinode_controller.Base.{
  ℕ, ◌+◌, ◌%◌, ◌^◌, Bool, false, List, [], ◌∷◌, ◌++◌, Option, Text, length, if◌then◌else◌,
}
use multinode_controller.Protocol.{
  DateTime, TaskId, RunSpec, TaskStarted, LogStream, LogLine, TaskExited,
}
use multinode_controller.Policy.Launch.{SandboxCommand}

pub data ExecutionEvent : Type 0 where
  started : TaskStarted → ExecutionEvent
  log : LogLine → ExecutionEvent
  exited : TaskExited → ExecutionEvent

pub record ExecutionRequest : Type 0 where
  pub spec : RunSpec
  pub command : SandboxCommand

pub record TaskHandle : Type 0 where
  pub task_id : TaskId
  pub pid : Option ℕ

-- A channel with what was sent on it, open for as long as its receiver lives.
pub record Channel : Type 0 where
  pub sent : List ExecutionEvent
  pub is_open : Bool

-- `Sender::send`; on a closed channel it fails and nothing is sent.
unfoldable pub emit : ExecutionEvent → Channel → Channel
emit event events =
    if events.is_open then record events { sent = events.sent ++ event ∷ [] } else events

-- The loop of `spawn_log_reader` between two lines.
pub record Reader : Type 0 where
  pub stream : LogStream
  pub offset : ℕ
  pub is_reading : Bool

unfoldable pub log_line : RunSpec → LogStream → DateTime → Text → ℕ → LogLine
log_line spec stream now line offset = record {
  job_id = spec.job_id;
  task_id = spec.task_id;
  node_id = spec.node_id;
  stream = stream;
  timestamp = now;
  line = line;
  offset = offset;
}

-- `offset += line_len + 1` on 64 bits.
unfoldable pub next_offset : ℕ → Text → ℕ
next_offset offset line = (offset + (length line + 1)) % 2 ^ 64

-- One turn of the loop, once `next_line` has a line; the loop ends if the channel is closed.
unfoldable pub read_line : RunSpec → DateTime → Text → Reader → Channel → Reader × Channel
read_line spec now line reader events = (
  record reader { offset = next_offset reader.offset line; is_reading = events.is_open },
  emit (log (log_line spec reader.stream now line reader.offset)) events,
)

-- The end of the stream, or an error on it.
unfoldable pub end_of_stream : Reader → Reader
end_of_stream reader = record reader { is_reading = false }

-- ===== src/Executor/Traces.antt =====
-- crates/executor/src/lib.rs: what one task sends on its channel, whatever the order in which its
-- readers and the task that waits for its process come to run.
use multinode_controller.Base.{
  All, All-append, true, false, Bool, ℕ, ◌≤◌, ◌≡◌, refl, sym, ap, subst, List, [], ◌∷◌, ◌++◌,
  append-nil, Text, length, Bool-cases, inl, inr,
}
use mathlib.Core.List.{append_assoc}
use multinode_controller.Protocol.{
  DateTime, RunSpec, LogStream, stdout, stderr, system, LogLine, TaskExited,
}
use multinode_controller.Executor.Events.{
  ExecutionEvent, started, log, exited, Channel, emit, Reader, log_line, next_offset, read_line,
}
use multinode_controller.Executor.Runs.{
  Waiter, waiting, terminating, reaped, removed, finished, Run, task_started,
}
use multinode_controller.Executor.Numbering.{Numbered, Numbered-append}

-- The lines of one stream among the events.
unfoldable pub line_of : LogStream → LogLine → List LogLine
line_of stdout l = elim l.stream [ stdout ↦ l ∷ [] | stderr ↦ [] | system ↦ [] ]
line_of stderr l = elim l.stream [ stdout ↦ [] | stderr ↦ l ∷ [] | system ↦ [] ]
line_of system l = elim l.stream [ stdout ↦ [] | stderr ↦ [] | system ↦ l ∷ [] ]

unfoldable pub lines_in : LogStream → ExecutionEvent → List LogLine
lines_in stream (started s) = []
lines_in stream (log l) = line_of stream l
lines_in stream (exited x) = []

unfoldable pub lines_of : LogStream → List ExecutionEvent → List LogLine
lines_of stream [] = []
lines_of stream (event ∷ events) = lines_in stream event ++ lines_of stream events

unfoldable pub exits_of : List ExecutionEvent → List TaskExited
exits_of [] = []
exits_of (started s ∷ events) = exits_of events
exits_of (log l ∷ events) = exits_of events
exits_of (exited x ∷ events) = x ∷ exits_of events

lines_of-append :
    (stream : LogStream) (events : List ExecutionEvent) (event : ExecutionEvent)
    → lines_of stream (events ++ event ∷ []) ≡ lines_of stream events ++ lines_in stream event
unfolding lines_of
lines_of-append stream [] event = append-nil (lines_in stream event)
lines_of-append stream (e ∷ events) event =
    rw (lines_of-append stream events event)
      (sym (append_assoc (lines_in stream e) (lines_of stream events) (lines_in stream event)))

pub exits_of-append :
    (events : List ExecutionEvent) (event : ExecutionEvent)
    → exits_of (events ++ event ∷ []) ≡ exits_of events ++ exits_of (event ∷ [])
unfolding exits_of
exits_of-append [] event = refl
exits_of-append (started s ∷ events) event = exits_of-append events event
exits_of-append (log l ∷ events) event = exits_of-append events event
exits_of-append (exited x ∷ events) event = ap (◌∷◌ x) (exits_of-append events event)

-- The exits that there may be at each stand of the waiting task.
unfoldable pub ExitsAt : Waiter → List TaskExited → Type 0
ExitsAt waiting exits = exits ≡ []
ExitsAt terminating exits = exits ≡ []
ExitsAt (reaped exit_code success) exits = exits ≡ []
ExitsAt (removed exit_code success) exits = exits ≡ []
ExitsAt finished exits = length exits ≤ 1

-- The lines sent are numbered, and as long as it reads the reader goes on from them.
unfoldable pub IsNumbered : LogStream → Reader → List ExecutionEvent → Type 0
IsNumbered stream reader sent =
    (reader.stream ≡ stream)
    × ((after : ℕ) × Numbered 0 (lines_of stream sent) after
        × (reader.is_reading ≡ true → after ≡ reader.offset))

-- Whether an event is the start of a task.
unfoldable pub is_start : ExecutionEvent → Bool
is_start (started s) = true
is_start (log l) = false
is_start (exited x) = false

unfoldable pub OpensWith : ExecutionEvent → List ExecutionEvent → Type 0
OpensWith first sent =
    (rest : List ExecutionEvent) × ((sent ≡ first ∷ rest) × All (λ e. is_start e ≡ false) rest)

unfoldable pub Opens : Run → Type 0
Opens run =
    (now : DateTime) × OpensWith (started (task_started run.spec run.pid now)) run.events.sent

-- The first event is the start, there is no exit until the process has been waited for and one at
-- most from then on, and the lines of either stream are numbered by their places.
pub record IsTrace (run : Run) : Type 0 where
  pub opens : Opens run
  pub exits : ExitsAt run.waiter (exits_of run.events.sent)
  pub out : IsNumbered stdout run.stdout_reader run.events.sent
  pub errors : IsNumbered stderr run.stderr_reader run.events.sent

pub emit-keeps :
    (event : ExecutionEvent) (events : Channel) (P : List ExecutionEvent → Type 0)
    → P events.sent
    → (events.is_open ≡ true → P (events.sent ++ event ∷ []))
    → P (emit event events).sent
unfolding emit
emit-keeps event events P shut delivered = elim (Bool-cases events.is_open) [
  | inl e ↦ rw (e, emit) (delivered e)
  | inr e ↦ rw (e, emit) shut
]

pub IsNumbered-other :
    (stream : LogStream) (reader : Reader) (events : Channel) (event : ExecutionEvent)
    → lines_in stream event ≡ []
    → IsNumbered stream reader events.sent
    → IsNumbered stream reader (emit event events).sent
unfolding IsNumbered
IsNumbered-other stream reader events event none_in (own, (after, numbered, going)) =
    emit-keeps event events (IsNumbered stream reader) (own, (after, numbered, going))
      (λ is_open. (
        own,
        (
          after,
          rw
              (
                lines_of-append stream events.sent event,
                none_in,
                append-nil (lines_of stream events.sent),
              )
              numbered,
          going,
        ),
      ))

one-more :
    (lines : List LogLine) (l : LogLine) (after : ℕ)
    → after ≡ l.offset
    → Numbered 0 lines after
    → Numbered 0 (lines ++ l ∷ []) (next_offset l.offset l.line)
one-more lines l after e numbered =
    Numbered-append 0 lines l l.offset (subst (Numbered 0 lines) e numbered) refl

pub IsNumbered-own :
    (stream : LogStream) (spec : RunSpec) (now : DateTime) (text : Text) (reader : Reader)
    (events : Channel)
    → lines_in stream (log (log_line spec stream now text reader.offset))
      ≡ log_line spec stream now text reader.offset ∷ []
    → reader.is_reading ≡ true
    → IsNumbered stream reader events.sent
    → IsNumbered stream
        (read_line spec now text reader events).0
        (read_line spec now text reader events).1.sent
unfolding IsNumbered read_line emit log_line
IsNumbered-own stream spec now text reader events one reading (own, (after, numbered, going)) =
    let l = log_line spec stream now text reader.offset in
    elim (Bool-cases events.is_open) [
      | inl e ↦ rw e (
        own,
        (
          next_offset reader.offset text,
          rw (own, lines_of-append stream events.sent (log l), one)
              (one-more (lines_of stream events.sent) l after (going reading) numbered),
          λ h. refl,
        ),
      )
      | inr e ↦ rw e (own, (after, numbered, λ h. absurd (cc h)))
    ]

-- The events begin with the start of the task.
pub emit-Opens :
    (first event : ExecutionEvent) (events : Channel)
    → is_start event ≡ false
    → OpensWith first events.sent
    → OpensWith first (emit event events).sent
unfolding OpensWith
emit-Opens first event events other (rest, (e, later)) =
    emit-keeps event events (OpensWith first) (rest, (e, later))
      (λ is_open. (
        rest ++ event ∷ [],
        (rw e refl, All-append (λ e. is_start e ≡ false) rest (event ∷ []) later (other, tt)),
      ))

-- An event that is no exit leaves the exits as they are.
pub emit-ExitsAt :
    (waiter : Waiter) (l : LogLine) (events : Channel)
    → ExitsAt waiter (exits_of events.sent)
    → ExitsAt waiter (exits_of (emit (log l) events).sent)
unfolding exits_of
emit-ExitsAt waiter l events exits =
    emit-keeps (log l) events (λ sent. ExitsAt waiter (exits_of sent)) exits
      (λ is_open. rw (exits_of-append events.sent (log l), append-nil (exits_of events.sent)) exits)

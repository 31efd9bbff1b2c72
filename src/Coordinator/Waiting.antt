-- ===== src/Coordinator/Waiting.antt =====
-- crates/coordinator/src/main.rs: the loop of `run_process` that waits for the exits of its tasks.
use multinode_controller.Base.{
  ℕ, suc, ◌+◌, ◌≤◌, ◌<◌, ◌≡◌, refl, ap, ◌∙◌, Bool, true, false, ◌||◌, if◌then◌else◌, List, [], ◌∷◌,
  ◌++◌, map, text_dec, eq_text, length, any, select, is_empty, arith, Bool-cases, inl, inr,
}
use multinode_controller.Protocol.{TaskId, TaskExited, ClientResponse}
use multinode_controller.Coordinator.State.{
  CoordinatorEvent, Served, Outcome, ok, Handler, ◌>>◌, send,
}
use multinode_controller.Coordinator.Sends.{after_send, send_open}
use multinode_controller.Coordinator.Leases.{contains}
use multinode_controller.Coordinator.Runs.{event, without, on_event, wait_loop}

-- The number of exits of a task.
unfoldable pub count_exits : TaskId → List TaskExited → ℕ
count_exits k [] = 0
count_exits k (e ∷ es) = (if eq_text e.task_id k then 1 else 0) + count_exits k es

-- Whether an exit of the task is among the events.
unfoldable pub has_exit : TaskId → List CoordinatorEvent → Bool
has_exit k [] = false
has_exit k (CoordinatorEvent.exited e ∷ es) = eq_text e.task_id k || has_exit k es
has_exit k (CoordinatorEvent.started e ∷ es) = has_exit k es
has_exit k (CoordinatorEvent.log line ∷ es) = has_exit k es
has_exit k (CoordinatorEvent.error e ∷ es) = has_exit k es

count_exits-append :
    (k : TaskId) (xs : List TaskExited) (e : TaskExited)
    → count_exits k (xs ++ e ∷ []) ≡ count_exits k xs + (if eq_text e.task_id k then 1 else 0)
unfolding count_exits
count_exits-append k [] e = omega arith
count_exits-append k (x ∷ xs) e = omega (arith, count_exits-append k xs e)

contains-without :
    (k t : TaskId) (pending : List TaskId)
    → contains (without t pending) k ≡ (if eq_text k t then false else contains pending k)
unfolding contains without any select
contains-without k t [] = ground arith
contains-without k t (p ∷ ps) = ground (arith, contains-without k t ps)

-- What a client that waits gets in the end: one exit more for each pending task, and no other.
pub record Finishes (n : ℕ) (pending : List TaskId) (exits : List TaskExited) (c : Served)
    (r : Outcome (List TaskExited) × Served) : Type 0 where
  pub collected : List TaskExited
  pub final : Served
  pub result : r ≡ (ok collected, final)
  pub once :
      (k : TaskId)
      → count_exits k collected ≡ count_exits k exits + (if contains pending k then 1 else 0)
  pub room : c.sink.room ≤ final.sink.room + n

weaken :
    (n : ℕ) (pending : List TaskId) (exits : List TaskExited) (c d : Served)
    (r : Outcome (List TaskExited) × Served)
    → c.sink.room ≤ d.sink.room + 1
    → Finishes n pending exits d r
    → Finishes (suc n) pending exits c r
weaken n pending exits c d r h f = record {
  collected = f.collected;
  final = f.final;
  result = f.result;
  once = f.once;
  room = omega (arith, f.room);
}

contains-nil : (k : TaskId) → contains [] k ≡ false
unfolding contains any
contains-nil k = refl

contains-head : (k : TaskId) (ps : List TaskId) → contains (k ∷ ps) k ≡ true
unfolding contains any
contains-head k ps = ground arith

relay :
    (response : ClientResponse) (next : Handler (List TaskExited)) (n : ℕ) (pending : List TaskId)
    (exits : List TaskExited) (c : Served)
    → 0 < c.sink.room
    → Finishes n pending exits (after_send response c) (next (after_send response c))
    → Finishes (suc n) pending exits c ((send response >> next) c)
relay response next n pending exits c h f = rw (send_open response c h) (
    weaken n pending exits c (after_send response c) (next (after_send response c)) (omega arith) f)

-- An exit that is waited for moves its task from the pending ones to those collected.
move_exit :
    (e : TaskExited) (pending : List TaskId) (exits : List TaskExited) (k : TaskId)
    → contains pending e.task_id ≡ true
    → count_exits k (exits ++ e ∷ []) + (if contains (without e.task_id pending) k then 1 else 0)
      ≡ count_exits k exits + (if contains pending k then 1 else 0)
move_exit e pending exits k h = elim (text_dec e.task_id k) [
  | yes same ↦ ground (
    arith,
    count_exits-append k exits e,
    contains-without k e.task_id pending,
    ap (contains pending) same,
  )
  | no other ↦ ground (arith, count_exits-append k exits e, contains-without k e.task_id pending)
]

collect :
    (n : ℕ) (e : TaskExited) (pending : List TaskId) (exits : List TaskExited) (c : Served)
    (r : Outcome (List TaskExited) × Served)
    → contains pending e.task_id ≡ true
    → Finishes n (without e.task_id pending) (exits ++ e ∷ []) c r
    → Finishes n pending exits c r
collect n e pending exits c r h f = record {
  collected = f.collected;
  final = f.final;
  result = f.result;
  once = λ k. f.once k ∙ move_exit e pending exits k h;
  room = f.room;
}

still_due :
    (e : TaskExited) (pending : List TaskId) (es : List CoordinatorEvent)
    → ((k : TaskId)
        → contains pending k ≡ true
        → has_exit k (CoordinatorEvent.exited e ∷ es) ≡ true)
    → (k : TaskId) → contains (without e.task_id pending) k ≡ true
    → has_exit k es ≡ true
unfolding has_exit
still_due e pending es h k on = ground (arith, contains-without k e.task_id pending, h k)

not_due :
    (e : TaskExited) (pending : List TaskId) (es : List CoordinatorEvent)
    → contains pending e.task_id ≡ false
    → ((k : TaskId)
        → contains pending k ≡ true
        → has_exit k (CoordinatorEvent.exited e ∷ es) ≡ true)
    → (k : TaskId) → contains pending k ≡ true
    → has_exit k es ≡ true
unfolding has_exit
not_due e pending es off h k on = elim (text_dec e.task_id k) [
  | yes same ↦ absurd (ground (arith, ap (contains pending) same))
  | no other ↦ ground (arith, h k on)
]

none_left : (exits : List TaskExited) (n : ℕ) (c : Served) → Finishes n [] exits c (ok exits, c)
none_left exits n c = record {
  collected = exits;
  final = c;
  result = refl;
  once = λ k. ground (arith, contains-nil k);
  room = omega arith;
}

-- If every pending task's exit is among the events delivered, none of which the receiver misses,
-- and the client's socket takes a response for each event, then the wait ends, with exactly one
-- exit for each pending task beside those had before.
pub wait_loop-Finishes :
    (es : List CoordinatorEvent) (pending : List TaskId) (exits : List TaskExited) (c : Served)
    → ((k : TaskId) → contains pending k ≡ true → has_exit k es ≡ true)
    → length es ≤ c.sink.room
    → Finishes (length es) pending exits c (wait_loop (map event es) pending exits c)
unfolding wait_loop is_empty on_event has_exit
wait_loop-Finishes [] [] exits c h room = none_left exits 0 c
wait_loop-Finishes [] (p ∷ ps) exits c h room = absurd (ground (arith, h p (contains-head p ps)))
wait_loop-Finishes (e ∷ es) [] exits c h room = none_left exits (suc (length es)) c
wait_loop-Finishes (CoordinatorEvent.started e ∷ es) (p ∷ ps) exits c h room =
    let rest = wait_loop (map event es) (p ∷ ps) exits in
    elim (Bool-cases (contains (p ∷ ps) e.task_id)) [
      | inl on ↦
          let r = ClientResponse.task_started e in
          rw on (
            relay r rest (length es) (p ∷ ps) exits c (omega arith)
              (wait_loop-Finishes es (p ∷ ps) exits (after_send r c) h (omega arith)))
      | inr off ↦ rw off (
          weaken (length es) (p ∷ ps) exits c c (rest c) (omega arith)
            (wait_loop-Finishes es (p ∷ ps) exits c h (omega arith)))
    ]
wait_loop-Finishes (CoordinatorEvent.log line ∷ es) (p ∷ ps) exits c h room =
    let rest = wait_loop (map event es) (p ∷ ps) exits in
    elim (Bool-cases (contains (p ∷ ps) line.task_id)) [
      | inl on ↦
          let r = ClientResponse.log_line line in
          rw on (
            relay r rest (length es) (p ∷ ps) exits c (omega arith)
              (wait_loop-Finishes es (p ∷ ps) exits (after_send r c) h (omega arith)))
      | inr off ↦ rw off (
          weaken (length es) (p ∷ ps) exits c c (rest c) (omega arith)
            (wait_loop-Finishes es (p ∷ ps) exits c h (omega arith)))
    ]
wait_loop-Finishes (CoordinatorEvent.error e ∷ es) (p ∷ ps) exits c h room =
    let r = ClientResponse.error e.message in
    relay r (wait_loop (map event es) (p ∷ ps) exits) (length es) (p ∷ ps) exits c (omega arith)
      (wait_loop-Finishes es (p ∷ ps) exits (after_send r c) h (omega arith))
wait_loop-Finishes (CoordinatorEvent.exited e ∷ es) (p ∷ ps) exits c h room =
    elim (Bool-cases (contains (p ∷ ps) e.task_id)) [
      | inl on ↦
          let r = ClientResponse.task_exited e in
          let left = without e.task_id (p ∷ ps) in
          let more = exits ++ e ∷ [] in
          rw on (
            collect (suc (length es)) e (p ∷ ps) exits c
              ((send r >> wait_loop (map event es) left more) c) on
              (relay r (wait_loop (map event es) left more) (length es) left more c (omega arith) (
                wait_loop-Finishes es left more (after_send r c) (still_due e (p ∷ ps) es h)
                  (omega arith))))
      | inr off ↦ rw off (
          weaken (length es) (p ∷ ps) exits c c (wait_loop (map event es) (p ∷ ps) exits c)
            (omega arith)
            (wait_loop-Finishes es (p ∷ ps) exits c (not_due e (p ∷ ps) es off h) (omega arith)))
    ]

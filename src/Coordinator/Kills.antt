-- ===== src/Coordinator/Kills.antt =====
-- crates/coordinator/src/main.rs: whom `kill_job` reaches.
use multinode_controller.Base.{
  ◌<◌, ◌≡◌, refl, ap, sym, ◌∙◌, subst, Bool, true, false, if◌then◌else◌, List, [], ◌∷◌, ◌++◌, map,
  some, Text, bytes, text_dec, is_yes, ite, eq_text, Map, get, values, select, all, append-nil,
  arith, Bool-cases, inl, inr,
}
use mathlib.Core.List.{Memᴰ}
use mathlib.Core.List.Memᴰ
use multinode_controller.Protocol.{
  JobId, TaskId, NodeId, CoordinatorMessage, ClientResponse, KillJobRequest,
}
use multinode_controller.Coordinator.State.{
  Sender, WorkerHandle, Served, ok, err, bind_outcome, send,
}
use multinode_controller.Coordinator.Sends.{after_send, send_open}
use multinode_controller.Coordinator.Clients.{targets_on, kill_targets, send_kills, kill_job}

unfoldable pub orders : List (Sender × TaskId) → List (Sender × CoordinatorMessage)
orders = map (λ (d : Sender × TaskId). (d.0, CoordinatorMessage.kill_task d.1))

-- Those before the first whose channel is closed.
unfoldable pub reached : (Sender → Bool) → List (Sender × TaskId) → List (Sender × TaskId)
reached is_open [] = []
reached is_open (d ∷ ds) = if is_open d.0 then d ∷ reached is_open ds else []

abbrev pub ordered : Served → List (Sender × TaskId) → Served
ordered c ts = record c { app = record c.app { sent = c.app.sent ++ orders ts } }

abbrev pub all_open : (Sender → Bool) → List (Sender × TaskId) → Bool
all_open is_open ts = all (λ (d : Sender × TaskId). is_open d.0) ts

append-snoc {ℓ} :
    {A : Type ℓ} (xs : List A) (x : A) (ys : List A) → (xs ++ x ∷ []) ++ ys ≡ xs ++ x ∷ ys
append-snoc [] x ys = refl
append-snoc (y ∷ xs) x ys = ap (◌∷◌ y) (append-snoc xs x ys)

pub send_kills_lem :
    (is_open : Sender → Bool) (ts : List (Sender × TaskId)) (c : Served)
    → send_kills is_open ts c ≡ (
      if all_open is_open ts then ok tt else err (bytes "failed to dispatch kill to worker"),
      ordered c (reached is_open ts),
    )
unfolding send_kills reached orders all
send_kills_lem is_open [] c = rw (append-nil c.app.sent) refl
send_kills_lem is_open ((s, t) ∷ ts) c = elim (Bool-cases (is_open s)) [
  | inl e ↦
      rw (e, send_kills, reached, all)
        (send_kills_lem is_open ts (ordered c ((s, t) ∷ []))
          ∙ ap
              (λ l. (
                if all_open is_open ts
                    then ok tt
                    else err (bytes "failed to dispatch kill to worker"),
                record c { app = record c.app { sent = l } },
              ))
              (append-snoc c.app.sent (s, CoordinatorMessage.kill_task t)
                (orders (reached is_open ts))))
  | inr e ↦ rw (e, send_kills, reached, all, append-nil c.app.sent) refl
]

acknowledge :
    (b : Bool) (message : Text) (c : Served)
    → 0 < c.sink.room
    → bind_outcome (if b then ok tt else err message) c (λ _. send ClientResponse.ack)
      ≡ (if b then (ok tt, after_send ClientResponse.ack c) else (err message, c))
acknowledge true message c h = send_open ClientResponse.ack c h
acknowledge false message c h = refl

-- The tasks of a job on the workers' lists, with the channel of the worker of each.
unfoldable pub listed_tasks : JobId → Sender → Map JobId → List (Sender × TaskId)
listed_tasks job_id sender [] = []
listed_tasks job_id sender ((t, j) ∷ m) =
    let rest = listed_tasks job_id sender m in ite (text_dec j job_id) ((sender, t) ∷ rest) rest

unfoldable pub job_tasks : JobId → List WorkerHandle → List (Sender × TaskId)
job_tasks job_id [] = []
job_tasks job_id (node ∷ nodes) =
    listed_tasks job_id node.sender node.running_tasks ++ job_tasks job_id nodes

selected-listed_tasks :
    (job_id : JobId) (sender : Sender) (m : Map JobId)
    → map
        (λ (e : Text × JobId). (sender, e.0))
        (select (λ (e : Text × JobId). eq_text e.1 job_id) m)
      ≡ listed_tasks job_id sender m
unfolding listed_tasks select
selected-listed_tasks job_id sender [] = refl
selected-listed_tasks job_id sender ((t, j) ∷ m) =
    by_choice (text_dec j job_id) (selected-listed_tasks job_id sender m)
  where
    chosen : List (Text × JobId)
    chosen = select (λ (e : Text × JobId). eq_text e.1 job_id) m

    by_choice :
        (d : Dec (j ≡ job_id))
        → map (λ (e : Text × JobId). (sender, e.0)) chosen ≡ listed_tasks job_id sender m
        → map (λ (e : Text × JobId). (sender, e.0)) (if is_yes d then (t, j) ∷ chosen else chosen)
          ≡ ite d ((sender, t) ∷ listed_tasks job_id sender m) (listed_tasks job_id sender m)
    by_choice (yes same) e = ap (◌∷◌ (sender, t)) e
    by_choice (no other) e = e

kill_targets-job_tasks :
    (job_id : JobId) (nodes : List WorkerHandle)
    → kill_targets job_id nodes ≡ job_tasks job_id nodes
unfolding kill_targets targets_on job_tasks
kill_targets-job_tasks job_id [] = refl
kill_targets-job_tasks job_id (node ∷ nodes) =
    rw
      (
        selected-listed_tasks job_id node.sender node.running_tasks,
        kill_targets-job_tasks job_id nodes,
      )
      refl

-- `kill_job` orders the kills of the tasks that stand under the job on the workers' lists, and of no
-- others, in the order of the workers up to the first whose channel is closed; if there is none, the
-- client is told, else the request fails.
pub kill_job_lem :
    (request : KillJobRequest) (is_open : Sender → Bool) (c : Served)
    → 0 < c.sink.room
    → let ts = job_tasks request.job_id (values c.app.nodes) in
      let c' = ordered c (reached is_open ts) in
      kill_job request is_open c ≡ (
        if all_open is_open ts
        then (ok tt, after_send ClientResponse.ack c')
        else (err (bytes "failed to dispatch kill to worker"), c'))
unfolding kill_job
kill_job_lem request is_open c h =
    let ts = job_tasks request.job_id (values c.app.nodes) in
    ap
      (λ l.
        bind_outcome (send_kills is_open l c).0 (send_kills is_open l c).1
          (λ _. send ClientResponse.ack))
      (kill_targets-job_tasks request.job_id (values c.app.nodes))
    ∙ ap (λ r. bind_outcome r.0 r.1 (λ _. send ClientResponse.ack)) (send_kills_lem is_open ts c)
    ∙ acknowledge (all_open is_open ts) (bytes "failed to dispatch kill to worker")
        (ordered c (reached is_open ts)) h

abbrev pub IsListed : Sender → TaskId → List (Sender × TaskId) → Type 0
IsListed sender t ts = Memᴰ {A = Sender × TaskId} (sender, t) ts

-- The pairs of one worker's tasks.
abbrev paired : Sender → Map JobId → List (Sender × TaskId)
paired sender = map (λ (e : Text × JobId). (sender, e.0))

kept :
    (sender : Sender) (k t : TaskId) (j : JobId) (m : Map JobId) (b : Bool)
    → k ≡ t
    → b ≡ true
    → IsListed sender t (paired sender (if b then (k, j) ∷ m else m))
kept sender k t j m true same h = Memᴰ.head (ap (λ u. (sender, u)) (sym same))
kept sender k t j m false same h = absurd (ground arith)

passed :
    (sender : Sender) (k t : TaskId) (j : JobId) (m : Map JobId) (b : Bool)
    → IsListed sender t (paired sender m)
    → IsListed sender t (paired sender (if b then (k, j) ∷ m else m))
passed sender k t j m true h = Memᴰ.tail h
passed sender k t j m false h = h

get-paired :
    (sender : Sender) (job_id : JobId) (t : TaskId) (m : Map JobId)
    → get t m ≡ some job_id
    → IsListed sender t (paired sender (select (λ (e : Text × JobId). eq_text e.1 job_id) m))
unfolding get select
get-paired sender job_id t [] h = absurd (ground arith)
get-paired sender job_id t ((k, j) ∷ m) h =
    let rest = select (λ (e : Text × JobId). eq_text e.1 job_id) m in
    elim (text_dec k t) [
      | yes same ↦ kept sender k t j rest (eq_text j job_id) same (ground arith)
      | no other ↦
          passed sender k t j rest (eq_text j job_id) (get-paired sender job_id t m (ground arith))
    ]

-- Each task of the job on a connected worker's list is among those to be killed, on that worker's
-- channel.
pub get-kill_targets :
    (job_id : JobId) (nodes : Map WorkerHandle) (n : NodeId) (w : WorkerHandle) (t : TaskId)
    → get n nodes ≡ some w
    → get t w.running_tasks ≡ some job_id
    → IsListed w.sender t (kill_targets job_id (values nodes))
unfolding kill_targets targets_on get
get-kill_targets job_id [] n w t h on = absurd (ground arith)
get-kill_targets job_id ((k, v) ∷ nodes) n w t h on = elim (text_dec k n) [
  | yes same ↦
      let found : v ≡ w = ground arith in
      subst
        (λ (u : WorkerHandle).
          IsListed u.sender t (targets_on job_id v ++ kill_targets job_id (values nodes)))
        found
        (Memᴰ.append_left (kill_targets job_id (values nodes)) (
          get-paired v.sender job_id t v.running_tasks
            (ap (λ (u : WorkerHandle). get t u.running_tasks) found ∙ on)))
  | no other ↦
      Memᴰ.append_right (targets_on job_id v)
        (get-kill_targets job_id nodes n w t (ground arith) on)
]

-- ===== src/Store/TaskTable.antt =====
-- crates/jobstore/src/lib.rs: the table `tasks` as a function from identifiers to rows, and what the
-- statements on it do to that function.
use multinode_controller.Base.{
  ◌≡◌, refl, List, [], ◌∷◌, ◌++◌, true, false, ◌==◌, Option, none, some, Text, text_dec, ite, arith,
}
use multinode_controller.Store.Tables.{TaskRow, upsert_task, update_task, count_task}

unfoldable pub find_task : Text → List TaskRow → Option TaskRow
find_task id [] = none
find_task id (t ∷ ts) = ite (text_dec t.task_id id) (some t) (find_task id ts)

-- The primary key: no identifier stands in two rows.
abbrev pub UniqueTasks : List TaskRow → Type 0
UniqueTasks [] = Unit
UniqueTasks (t ∷ ts) = (find_task t.task_id ts ≡ none) × UniqueTasks ts

pub find-upsert_task :
    (k : Text) (new : TaskRow) (update : TaskRow → TaskRow) (ts : List TaskRow)
    → ((t : TaskRow) → (update t).task_id ≡ t.task_id)
    → find_task k (upsert_task new update ts)
      ≡ ite
          (text_dec new.task_id k)
          (some (elim (find_task k ts) [ none ↦ new | some t ↦ update t ]))
          (find_task k ts)
unfolding find_task upsert_task
find-upsert_task k new update [] h = refl
find-upsert_task k new update (t ∷ ts) h = ground (arith, h t, find-upsert_task k new update ts h)

pub find-update_task :
    (k id : Text) (update : TaskRow → TaskRow) (ts : List TaskRow)
    → ((t : TaskRow) → (update t).task_id ≡ t.task_id)
    → find_task k (update_task id update ts)
      ≡ ite
          (text_dec id k)
          (elim (find_task k ts) [ none ↦ none | some t ↦ some (update t) ])
          (find_task k ts)
unfolding find_task update_task
find-update_task k id update [] h = ground arith
find-update_task k id update (t ∷ ts) h = ground (arith, h t, find-update_task k id update ts h)

pub find-append :
    (k : Text) (ts : List TaskRow) (new : TaskRow)
    → find_task k (ts ++ new ∷ []) ≡ elim (find_task k ts) [
      | none ↦ ite (text_dec new.task_id k) (some new) none
      | some t ↦ some t
    ]
unfolding find_task
find-append k [] new = refl
find-append k (t ∷ ts) new = ground (arith, find-append k ts new)

pub count-find :
    (id : Text) (ts : List TaskRow)
    → (count_task id ts == 0) ≡ elim (find_task id ts) [ none ↦ true | some t ↦ false ]
unfolding find_task count_task
count-find id [] = refl
count-find id (t ∷ ts) = ground (arith, count-find id ts)

pub upsert_task-UniqueTasks :
    (new : TaskRow) (update : TaskRow → TaskRow) (ts : List TaskRow)
    → ((t : TaskRow) → (update t).task_id ≡ t.task_id)
    → UniqueTasks ts
    → UniqueTasks (upsert_task new update ts)
unfolding upsert_task find_task
upsert_task-UniqueTasks new update [] h u = (refl, tt)
upsert_task-UniqueTasks new update (t ∷ ts) h u = ground (
  arith,
  h t,
  find-upsert_task t.task_id new update ts h,
  upsert_task-UniqueTasks new update ts h u.1,
)

pub update_task-UniqueTasks :
    (id : Text) (update : TaskRow → TaskRow) (ts : List TaskRow)
    → ((t : TaskRow) → (update t).task_id ≡ t.task_id)
    → UniqueTasks ts
    → UniqueTasks (update_task id update ts)
unfolding update_task find_task
update_task-UniqueTasks id update [] h u = tt
update_task-UniqueTasks id update (t ∷ ts) h u = ground (
  arith,
  h t,
  find-update_task t.task_id id update ts h,
  update_task-UniqueTasks id update ts h u.1,
)

pub append-UniqueTasks :
    (new : TaskRow) (ts : List TaskRow)
    → find_task new.task_id ts ≡ none
    → UniqueTasks ts
    → UniqueTasks (ts ++ new ∷ [])
unfolding find_task
append-UniqueTasks new [] h u = (refl, tt)
append-UniqueTasks new (t ∷ ts) h u =
    ground (arith, find-append t.task_id ts new, append-UniqueTasks new ts)

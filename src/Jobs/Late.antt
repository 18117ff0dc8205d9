-- ===== src/Jobs/Late.antt =====
-- A report that comes after its job was cancelled (`cancel_job` of
-- legacy/services_python/db/_jobs.py, `complete_task` of legacy/services_python/db/_tasks.py).
use distrib_ai.Base.{
  ℕ, ◌<◌, ◌==◌, ◌≡◌, inl, inr, refl, ap, subst, ◌∙◌, Bool, true, ◌&&◌, some, List, [], ◌∷◌,
  if◌then◌else◌, arith, ltb, keep, Bool-cases,
}
use distrib_ai.Jobs.Tables.{
  TaskRow, JobRow, Db, running, is_in, retryable_statuses, task_is, find_where, find_task, find_job,
  update_where, update_task, budget,
}
use distrib_ai.Jobs.Refresh.{refresh_job_state}
use distrib_ai.Jobs.Tasks.{Report, is_retryable, requeue, settle_assignee, complete_task}
use distrib_ai.Jobs.Admin.{is_active, cancel, cancel_job}
use distrib_ai.Jobs.Keys.{kept_id, this_row}
use distrib_ai.Jobs.Attempts.{refresh_queue-tasks, refresh_job-tasks, settle-tasks}
use distrib_ai.Jobs.Attempts.Steps.{free-tasks}

both : (a b : Bool) → a ≡ true → b ≡ true → (a && b) ≡ true
both a b h k = ground arith

ltb_intro : (a b : ℕ) → a < b → ltb a b ≡ true
ltb_intro a b h = ground arith

find-update :
    (id : ℕ) (p : TaskRow → Bool) (f : TaskRow → TaskRow) (t : TaskRow) (ts : List TaskRow)
    → ((r : TaskRow) → (f r).task_id ≡ r.task_id)
    → find_where (task_is id) ts ≡ some t
    → find_where (task_is id) (update_where p f ts) ≡ some (if p t then f t else t)
find-update id p f t [] k e = ground (arith, e)
find-update id p f t (r ∷ rs) k e =
    let kept : task_is id (if p r then f r else r) ≡ task_is id r =
      ap (λ i. i == id) (kept_id p f r (k r)) in
    elim (Bool-cases (task_is id r)) [
      | inl same ↦
          rw (kept ∙ same)
            (ap (λ x. some (if p x then f x else x)) ((this_row same (rw same at e)).0))
      | inr other ↦ rw (kept ∙ other) (find-update id p f t rs k (rw other at e))
    ]

find-task_is :
    (id : ℕ) (t : TaskRow) (ts : List TaskRow)
    → find_where (task_is id) ts ≡ some t
    → task_is id t ≡ true
find-task_is id t [] e = ground (arith, e)
find-task_is id t (r ∷ rs) e = elim (Bool-cases (task_is id r)) [
  | inl same ↦ subst (λ x. task_is id x ≡ true) ((this_row same (rw same at e)).0) same
  | inr other ↦ find-task_is id t rs (rw other at e)
]

cancel_job-find :
    (text job id now : ℕ) (t : TaskRow) (j : JobRow) (db : Db)
    → find_job job db ≡ some j
    → find_task id db ≡ some t
    → is_active job t ≡ true
    → find_task id (cancel_job text job now db).1 ≡ some (cancel text now t)
unfolding cancel_job
cancel_job-find text job id now t j db e f a =
    let busy = keep (λ x. x.job_id == job && x.status == running) db.tasks in
    let stopped = record db { tasks = update_where (is_active job) (cancel text now) db.tasks } in
    rw (e, cancel_job)
      (ap (find_where (task_is id)) (refresh_queue-tasks now _ ∙ free-tasks now busy stopped)
        ∙ find-update id (is_active job) (cancel text now) t db.tasks (λ r. refl) f
        ∙ rw a refl)

complete_task-find :
    (id : ℕ) (r : Report) (now : ℕ) (t : TaskRow) (db : Db)
    → find_task id db ≡ some t
    → is_retryable r t ≡ true
    → find_task id (complete_task id r now db).1 ≡ some (requeue r now t)
unfolding complete_task
complete_task-find id r now t db e a =
    let ended = update_task id (requeue r now) db in
    let settled = settle_assignee t.assignee_node_id r true now ended in
    rw (e, a, complete_task)
      (ap (find_where (task_is id)) (
          refresh_queue-tasks now (refresh_job_state t.job_id now r.reason id settled)
          ∙ refresh_job-tasks t.job_id now r.reason id settled
          ∙ settle-tasks t.assignee_node_id r true now ended)
        ∙ find-update id (task_is id) (requeue r now) t db.tasks (λ x. refl) e
        ∙ rw (find-task_is id t db.tasks e) refl)

retryable_from :
    (r : Report) (t : TaskRow)
    → is_in r.status retryable_statuses ≡ true
    → t.attempt_count < budget t
    → is_retryable r t ≡ true
retryable_from r t s l =
    both (is_in r.status retryable_statuses) (ltb t.attempt_count (budget t)) s
      (ltb_intro t.attempt_count (budget t) l)

-- A task that `cancel_job` has cancelled goes back into the queue, where a worker's report of a failure
-- comes in later and the task has attempts left: `complete_task` does not look at the task's status.
pub cancel_job-complete_task :
    (text job id now later : ℕ) (r : Report) (t : TaskRow) (j : JobRow) (db : Db)
    → find_job job db ≡ some j
    → find_task id db ≡ some t
    → is_active job t ≡ true
    → is_in r.status retryable_statuses ≡ true
    → t.attempt_count < budget t
    → find_task id (complete_task id r later (cancel_job text job now db).1).1
      ≡ some (requeue r later (cancel text now t))
cancel_job-complete_task text job id now later r t j db e f a s l =
    complete_task-find id r later (cancel text now t) (cancel_job text job now db).1
      (cancel_job-find text job id now t j db e f a) (retryable_from r t s l)

-- ===== src/Jobs/Attempts/Retries.antt =====
-- What an operator's retry adds to the attempts (`operator_retry_job` of
-- legacy/services_python/db/_jobs.py), and what `clear_completed_jobs` leaves of the tasks.
use distrib_ai.Base.{
  ℕ, ◌+◌, ◌≤◌, ◌==◌, ◌≡◌, inl, inr, refl, sym, subst, ◌∙◌, Bool, true, false, not, Option, none,
  some, List, [], ◌∷◌, if◌then◌else◌, arith, Bool-cases, Option-cases, keep, map,
}
use distrib_ai.Jobs.Tables.{
  TaskRow, Db, task_is, find_task, find_job, update_where, update_task, is_in,
}
use distrib_ai.Jobs.Queue.{refresh_queue_positions}
use distrib_ai.Jobs.Refresh.{refresh_job_state}
use distrib_ai.Jobs.Admin.{
  is_over, terminal_task_statuses, retry, retry_tasks, retry_candidates, operator_retry_job,
  clear_completed_jobs,
}
use distrib_ai.Jobs.Keys.{All-map, keep-All, update-All, update-IsKeyed, IsKeyed}
use distrib_ai.Jobs.Attempts.{IsWithin, IsBudgeted, refresh_queue-tasks, refresh_job-tasks}

-- How often a task stands in a list.
abbrev pub times : ℕ → List ℕ → ℕ
times id [] = 0
times id (j ∷ js) = (if j == id then 1 else 0) + times id js

IsWithin-more :
    (extra more : ℕ → ℕ) (t : TaskRow)
    → extra t.task_id ≤ more t.task_id
    → IsWithin extra t
    → IsWithin more t
IsWithin-more extra more t h w = (omega (arith, w.0, h), λ k. omega (arith, w.1 k, h))

pub IsBudgeted-more :
    (extra more : ℕ → ℕ) (ts : List TaskRow)
    → ((id : ℕ) → extra id ≤ more id)
    → IsBudgeted extra ts
    → IsBudgeted more ts
IsBudgeted-more extra more ts h b = record {
  keyed = b.keyed;
  within = All-map ts (λ t w. IsWithin-more extra more t (h t.task_id) w) b.within;
}

-- One attempt more for one task.
abbrev one_more : ℕ → (ℕ → ℕ) → ℕ → ℕ
one_more id extra j = extra j + (if id == j then 1 else 0)

retries :
    (text now id : ℕ) (extra : ℕ → ℕ) (t : TaskRow)
    → task_is id t ≡ true
    → IsWithin extra t
    → IsWithin (one_more id extra) (retry text now t)
retries text now id extra t e w = (ground (arith, w.0), λ k. ground (arith, e, w.0))

retry_one :
    (text now id : ℕ) (extra : ℕ → ℕ) (ts : List TaskRow)
    → IsBudgeted extra ts
    → IsBudgeted (one_more id extra) (update_where (task_is id) (retry text now) ts)
retry_one text now id extra ts b =
    let more = IsBudgeted-more extra (one_more id extra) ts (λ j. omega arith) b in
    record {
      keyed = update-IsKeyed (task_is id) (retry text now) ts (λ t. refl) b.keyed;
      within =
          update-All (IsWithin (one_more id extra)) (task_is id) (retry text now) ts more.within
            (All-map ts (λ t w e v. retries text now id extra t e w) b.within);
    }

-- The tasks that are tried again have one attempt more for each time.
retry_tasks-IsBudgeted :
    (text now : ℕ) (ids : List ℕ) (extra : ℕ → ℕ) (db : Db)
    → IsBudgeted extra db.tasks
    → IsBudgeted
        (λ id. extra id + times id (retry_tasks text now ids db).0)
        (retry_tasks text now ids db).1.tasks
unfolding retry_tasks
retry_tasks-IsBudgeted text now [] extra db b =
    IsBudgeted-more extra (λ id. extra id + 0) db.tasks (λ id. omega arith) b
retry_tasks-IsBudgeted text now (id ∷ ids) extra db b = elim (Option-cases (find_task id db)) [
  | inl e ↦ rw (e, retry_tasks) (retry_tasks-IsBudgeted text now ids extra db b)
  | inr (t, e) ↦ elim (Bool-cases (is_in t.status terminal_task_statuses)) [
    | inr k ↦ rw (e, k, retry_tasks) (retry_tasks-IsBudgeted text now ids extra db b)
    | inl k ↦
        let tried = update_task id (retry text now) db in
        let rest = retry_tasks text now ids tried in
        rw (e, k, retry_tasks)
          (IsBudgeted-more (λ j. one_more id extra j + times j rest.0)
            (λ j. extra j + times j (id ∷ rest.0)) rest.1.tasks (λ j. omega arith)
            (retry_tasks-IsBudgeted text now ids (one_more id extra) tried
              (retry_one text now id extra db.tasks b)))
  ]
]

-- The tasks that a call has put into the queue again.
abbrev pub requeued_of : Option (List ℕ) → List ℕ
requeued_of none = []
requeued_of (some ids) = ids

refreshed-tasks :
    (text now job : ℕ) (ids : List ℕ) (db : Db)
    → (elim ids as (λ _. Db) [
      | [] ↦ db
      | first ∷ rest ↦ refresh_queue_positions now (refresh_job_state job now text first db)
    ]).tasks
      ≡ db.tasks
refreshed-tasks text now job [] db = refl
refreshed-tasks text now job (first ∷ rest) db =
    refresh_queue-tasks now (refresh_job_state job now text first db)
    ∙ refresh_job-tasks job now text first db

pub operator_retry-IsBudgeted :
    (text job now : ℕ) (extra : ℕ → ℕ) (db : Db)
    → IsBudgeted extra db.tasks
    → IsBudgeted
        (λ id. extra id + times id (requeued_of (operator_retry_job text job now db).0))
        (operator_retry_job text job now db).1.tasks
unfolding operator_retry_job
operator_retry-IsBudgeted text job now extra db b = elim (Option-cases (find_job job db)) [
  | inl e ↦
      rw (e, operator_retry_job)
        (IsBudgeted-more extra (λ id. extra id + 0) db.tasks (λ id. omega arith) b)
  | inr (j, e) ↦
      let tried = retry_tasks text now (retry_candidates j db) db in
      rw (e, operator_retry_job)
        (subst (IsBudgeted (λ id. extra id + times id tried.0))
          (sym (refreshed-tasks text now job tried.0 tried.1))
          (retry_tasks-IsBudgeted text now (retry_candidates j db) extra db b))
]

keep-IsKeyed : (p : TaskRow → Bool) (ts : List TaskRow) → IsKeyed ts → IsKeyed (keep p ts)
keep-IsKeyed p [] h = tt
keep-IsKeyed p (t ∷ ts) h = elim (Bool-cases (p t)) [
  | inl e ↦ rw e (keep-All (λ r. task_is t.task_id r ≡ false) p ts h.0, keep-IsKeyed p ts h.1)
  | inr e ↦ rw e (keep-IsKeyed p ts h.1)
]

pub clear-IsBudgeted :
    (extra : ℕ → ℕ) (db : Db)
    → IsBudgeted extra db.tasks
    → IsBudgeted extra (clear_completed_jobs db).1.tasks
unfolding clear_completed_jobs
clear-IsBudgeted extra db b =
    let ids = map (λ j. j.job_id) (keep is_over db.jobs) in
    record {
      keyed = keep-IsKeyed (λ t. not (is_in t.job_id ids)) db.tasks b.keyed;
      within = keep-All (IsWithin extra) (λ t. not (is_in t.job_id ids)) db.tasks b.within;
    }

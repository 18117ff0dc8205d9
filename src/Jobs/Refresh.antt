-- ===== src/Jobs/Refresh.antt =====
-- A job's state as its tasks give it (`_refresh_job_state` and `_job_total_steps` of
-- legacy/services_python/db/_jobs.py).
use distrib_ai.Base.{
  ℕ, ◌+◌, ◌*◌, ◌/◌, ◌==◌, Bool, true, false, ◌&&◌, none, some, List, [], ◌∷◌, if◌then◌else◌, ltb,
}
use distrib_ai.Jobs.Tables.{
  TaskRow, Db, queued, running, succeeded, failed, errored, timed_out, invalid_gradient, rejected,
  cancelled, is_in, find_job, update_job, coalesce, count_tasks,
}

-- `COALESCE(total_steps, steps, 0)`, and 0 where there is no such job.
abbrev pub job_total_steps : ℕ → Db → ℕ
job_total_steps job db = elim (find_job job db) [
  | none ↦ 0
  | some j ↦ coalesce j.total_steps j.steps
]

-- `round((completed / total) * 100, 2)` in hundredths of a percent, to the nearest.
abbrev pub percentage : ℕ → ℕ → ℕ
percentage completed total = if total == 0 then 10000 else (completed * 20000 + total) / (2 * total)

-- `SUM(CASE WHEN status = 'success' THEN steps ELSE 0 END)`
abbrev pub completed_steps : ℕ → List TaskRow → ℕ
completed_steps job [] = 0
completed_steps job (t ∷ ts) =
    (if t.job_id == job && t.status == succeeded then t.steps else 0) + completed_steps job ts

abbrev pub has_failed : ℕ → Bool
has_failed s = is_in s (failed ∷ errored ∷ timed_out ∷ invalid_gradient ∷ rejected ∷ cancelled ∷ [])

abbrev pub tasks_of : ℕ → List TaskRow → ℕ
tasks_of job ts = count_tasks job (λ s. true) ts

-- The status, and whether the job is complete.
unfoldable pub status_of : ℕ → List TaskRow → ℕ × Bool
status_of job ts =
    if count_tasks job (λ s. s == succeeded) ts == tasks_of job ts && ltb 0 (tasks_of job ts)
    then (succeeded, true)
    else if ltb 0 (count_tasks job (λ s. s == running) ts)
    then (running, false)
    else if ltb 0 (count_tasks job (λ s. s == queued) ts)
    then (queued, false)
    else if ltb 0 (count_tasks job has_failed ts)
    then (failed, true)
    else (queued, false)

-- `latest_task_id` is given by every caller.
unfoldable pub refresh_job_state : ℕ → ℕ → ℕ → ℕ → Db → Db
refresh_job_state job now reason task db =
    let total = job_total_steps job db in
    let completed = completed_steps job db.tasks in
    let (status, complete) = status_of job db.tasks in
    update_job job
      (λ j. record j {
        status = status;
        active_nodes = count_tasks job (λ s. s == running) db.tasks;
        progress_pct = percentage completed total;
        current_step = completed;
        total_steps = some total;
        completed_ts = if complete then some now else none;
        latest_reason = if reason == 0 then j.latest_reason else reason;
        latest_task_id = some task;
        updated_ts = now;
      })
      db

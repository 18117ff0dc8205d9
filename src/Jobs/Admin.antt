-- ===== src/Jobs/Admin.antt =====
-- The calls of an operator on jobs (`cancel_job`, `operator_retry_job`, `clear_completed_jobs` and
-- `update_job_status` of legacy/services_python/db/_jobs.py), and votes for them
-- (legacy/services_python/db/_votes.py). The webhooks are not modelled.
use distrib_ai.Base.{
  ℕ, ◌==◌, Bool, true, false, ◌&&◌, not, Option, none, some, List, [], ◌∷◌, ◌++◌, if◌then◌else◌,
  length, keep, map,
}
use distrib_ai.Base.Int.{ℤ, ◌+ℤ◌}
use distrib_ai.Jobs.Tables.{
  TaskRow, JobRow, Db, queued, running, succeeded, failed, errored, timed_out, invalid_gradient,
  rejected, cancelled, idle, is_in, find_task, find_job, update_task, update_node, update_job,
  update_where,
}
use distrib_ai.Jobs.Queue.{refresh_queue_positions}
use distrib_ai.Jobs.Refresh.{refresh_job_state}

abbrev pub free_node : ℕ → Option ℕ → Db → Db
free_node now none db = db
free_node now (some node) db =
    if node == 0
    then db
    else update_node node
        (λ n. record n { status = idle; current_task_id = none; updated_ts = now }) db

-- The assignees of the running tasks that are given.
abbrev pub free_assignees : ℕ → List TaskRow → Db → Db
free_assignees now [] db = db
free_assignees now (t ∷ ts) db = free_assignees now ts (free_node now t.assignee_node_id db)

abbrev pub is_active : ℕ → TaskRow → Bool
is_active job t = t.job_id == job && is_in t.status (queued ∷ running ∷ [])

-- `job_cancelled` is the text "job cancelled".
abbrev pub cancel : ℕ → ℕ → TaskRow → TaskRow
cancel job_cancelled now t = record t {
  status = cancelled;
  updated_ts = now;
  completed_ts = some now;
  last_error = job_cancelled;
}

unfoldable pub cancel_job : ℕ → ℕ → ℕ → Db → Bool × Db
cancel_job job_cancelled job now db = elim (find_job job db) [
  | none ↦ (false, db)
  | some j ↦
      (let busy = keep (λ t. t.job_id == job && t.status == running) db.tasks in
        let stopped = record db {
          tasks = update_where (is_active job) (cancel job_cancelled now) db.tasks;
        } in
        (
          true,
          refresh_queue_positions now (
              update_job job
                (λ k. record k {
                  status = cancelled;
                  completed_ts = some now;
                  updated_ts = now;
                  latest_reason = job_cancelled;
                })
                (free_assignees now busy stopped)),
        ))
]

abbrev pub terminal_task_statuses : List ℕ
terminal_task_statuses =
    failed ∷ errored ∷ timed_out ∷ cancelled ∷ succeeded ∷ invalid_gradient ∷ rejected ∷ []

-- `retry_requested` is the text "operator retry requested".
abbrev pub retry : ℕ → ℕ → TaskRow → TaskRow
retry retry_requested now t = record t {
  status = queued;
  assignee_node_id = none;
  updated_ts = now;
  completed_ts = none;
  last_error = retry_requested;
}

-- The loop over the tasks that may be tried again.
unfoldable pub retry_tasks : ℕ → ℕ → List ℕ → Db → List ℕ × Db
retry_tasks retry_requested now [] db = ([], db)
retry_tasks retry_requested now (id ∷ ids) db =
    let known = elim (find_task id db) as (λ _. Bool) [
      | none ↦ false
      | some t ↦ is_in t.status terminal_task_statuses
    ] in
    let (rest, db') =
      retry_tasks retry_requested now ids
        (if known then update_task id (retry retry_requested now) db else db) in
    (if known then id ∷ rest else rest, db')

-- The latest task, or else all that ended.
abbrev pub retry_candidates : JobRow → Db → List ℕ
retry_candidates j db =
    let ended =
      map (λ t. t.task_id)
        (keep (λ t. t.job_id == j.job_id && is_in t.status terminal_task_statuses) db.tasks) in
    elim j.latest_task_id [
      | none ↦ ended
      | some latest ↦ if latest == 0 then ended else latest ∷ []
    ]

unfoldable pub operator_retry_job : ℕ → ℕ → ℕ → Db → Option (List ℕ) × Db
operator_retry_job retry_requested job now db = elim (find_job job db) [
  | none ↦ (none, db)
  | some j ↦
      (let (requeued, db') = retry_tasks retry_requested now (retry_candidates j db) db in
        (
          some requeued,
          elim requeued [
            | [] ↦ db'
            | first ∷ rest ↦
                refresh_queue_positions now (refresh_job_state job now retry_requested first db')
          ],
        ))
]

abbrev pub is_over : JobRow → Bool
is_over j = is_in j.status (succeeded ∷ failed ∷ cancelled ∷ timed_out ∷ errored ∷ [])

-- The jobs that are over, and their tasks.
unfoldable pub clear_completed_jobs : Db → ℕ × Db
clear_completed_jobs db =
    let ids = map (λ j. j.job_id) (keep is_over db.jobs) in
    (
      length ids,
      record db {
        tasks = keep (λ t. not (is_in t.job_id ids)) db.tasks;
        jobs = keep (λ j. not (is_in j.job_id ids)) db.jobs;
      },
    )

unfoldable pub update_job_status : ℕ → ℕ → ℕ → ℕ → Db → Db
update_job_status job status reason now db =
    update_job job
      (λ j. record j {
        status = status;
        latest_reason = reason;
        updated_ts = now;
        completed_ts =
            if is_in status (succeeded ∷ failed ∷ cancelled ∷ []) then some now else j.completed_ts;
      })
      db

-- `token` is the random identifier. A vote names a job that is there, as the foreign key demands.
unfoldable pub record_vote : ℕ → ℕ → ℕ → ℤ → ℕ → Db → Db
record_vote token job voter credits now db = refresh_queue_positions now (
    update_job job (λ j. record j { total_votes = j.total_votes +ℤ credits; updated_ts = now })
      (record db {
        vote_transactions =
            db.vote_transactions
            ++ record {
              vote_id = token;
              job_id = job;
              voter_id = voter;
              credits = credits;
              created_ts = now;
            }
              ∷ [];
      }))

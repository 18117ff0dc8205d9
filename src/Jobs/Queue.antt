-- ===== src/Jobs/Queue.antt =====
-- The order of the queue (`get_queued_tasks`, `get_next_available_task`, `get_queue_depth`,
-- `get_public_queue` and `refresh_queue_positions` of legacy/services_python/db/_jobs.py).
pub mod Order
use distrib_ai.Base.{
  ℕ, suc, ◌+◌, ◌*◌, ◌-◌, ◌==◌, Bool, true, false, ◌&&◌, ◌||◌, Option, none, some, List, [], ◌∷◌,
  if◌then◌else◌, ltb, leb, length, keep, map, sort_with,
}
use distrib_ai.Base.Int.{ℤ, ◌*ℤ◌, ltb_ℤ, leb_ℤ}
use distrib_ai.Jobs.Tables.{
  Tier, p0, p1, p2, p3, other_tier, TaskRow, JobRow, Db, queued, running, succeeded, failed,
  assigned, is_in, find_job, update_job, coalesce,
}

abbrev pub rank : Tier → ℕ
rank p0 = 0
rank p1 = 1
rank p2 = 2
rank p3 = 3
rank (other_tier name) = 4

-- One key of an ORDER BY after the next.
abbrev pub ascending : ℕ → ℕ → Bool → Bool
ascending a b rest = ltb a b || a == b && rest

abbrev pub descending : ℤ → ℤ → Bool → Bool
descending a b rest = ltb_ℤ b a || leb_ℤ a b && (leb_ℤ b a && rest)

-- A task with its job.
pub record QueuedTask : Type 0 where
  pub task : TaskRow
  pub job : JobRow

abbrev pub join_jobs : Db → List TaskRow → List QueuedTask
join_jobs db [] = []
join_jobs db (t ∷ ts) =
    let rest = join_jobs db ts in
    elim (find_job t.job_id db) [ none ↦ rest | some j ↦ record { task = t; job = j } ∷ rest ]

abbrev pub weighted_votes : JobRow → ℤ
weighted_votes j = j.total_votes *ℤ j.vote_weight

-- The ORDER BY of `get_queued_tasks`: the first does not stand behind the second.
abbrev pub task_before : QueuedTask → QueuedTask → Bool
task_before a b = ascending (rank a.job.priority_tier) (rank b.job.priority_tier) (
    descending a.job.priority b.job.priority (
      descending (weighted_votes a.job) (weighted_votes b.job) (
        ascending a.job.created_ts b.job.created_ts
          (ascending a.task.step_offset b.task.step_offset true))))

abbrev pub is_queued : QueuedTask → Bool
is_queued q = q.task.status == queued

unfoldable pub get_queued_tasks : Db → List QueuedTask
get_queued_tasks db = sort_with task_before (keep is_queued (join_jobs db db.tasks))

abbrev pub get_next_available_task : Db → Option QueuedTask
get_next_available_task db = elim (get_queued_tasks db) [ [] ↦ none | q ∷ qs ↦ some q ]

abbrev pub get_queue_depth : Db → ℕ
get_queue_depth db = length (keep (λ t. t.status == queued) db.tasks)

abbrev pub job_before : JobRow → JobRow → Bool
job_before a b = ascending (rank a.priority_tier) (rank b.priority_tier) (
    descending a.priority b.priority
      (descending a.total_votes b.total_votes (ascending a.created_ts b.created_ts true)))

abbrev pub is_public : JobRow → Bool
is_public j = is_in j.status (queued ∷ assigned ∷ running ∷ succeeded ∷ failed ∷ [])

pub record QueueEntry : Type 0 where
  pub queue_position : ℕ
  pub job : JobRow
  pub estimated_start_hours : ℕ

-- `round((index - 1) * 0.4, 1)` in tenths.
abbrev pub entries_from : ℕ → List JobRow → List QueueEntry
entries_from index [] = []
entries_from index (j ∷ js) =
    record {
      queue_position = index;
      job = j;
      estimated_start_hours = coalesce j.estimated_start_hours ((index - 1) * 4);
    }
    ∷ entries_from (suc index) js

unfoldable pub get_public_queue : Db → List QueueEntry
get_public_queue db = entries_from 1 (sort_with job_before (keep is_public db.jobs))

abbrev pub put_position : ℕ → QueueEntry → Db → Db
put_position now e db =
    update_job e.job.job_id
      (λ j. record j {
        queue_position = some e.queue_position;
        estimated_start_hours = some e.estimated_start_hours;
        updated_ts = now;
      })
      db

abbrev pub put_positions : ℕ → List QueueEntry → Db → Db
put_positions now [] db = db
put_positions now (e ∷ es) db = put_positions now es (put_position now e db)

-- The clock is read for every row, and its readings are taken to be equal.
unfoldable pub refresh_queue_positions : ℕ → Db → Db
refresh_queue_positions now db = put_positions now (get_public_queue db) db

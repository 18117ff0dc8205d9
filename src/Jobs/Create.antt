-- ===== src/Jobs/Create.antt =====
-- Jobs and their tasks (`create_tasks` of legacy/services_python/db/_jobs.py).
pub mod Chunks
use distrib_ai.Base.{
  ℕ, zero, suc, ◌+◌, ◌-◌, ◌==◌, Bool, true, false, Option, none, some, List, [], ◌∷◌, ◌++◌,
  if◌then◌else◌, ltb, map,
}
use distrib_ai.Jobs.Tables.{TaskInputs, TaskRow, Db, queued, coalesce, update_job}
use distrib_ai.Jobs.Queue.{refresh_queue_positions}
use distrib_ai.Jobs.Tasks.{max_ℕ, min_ℕ}

-- What `create_tasks` reads of the job. Where `steps` or `steps_per_task` is negative, it is 0 here,
-- which is handled alike.
pub record NewTasks : Type 0 where
  pub job_id : ℕ
  pub steps : Option ℕ
  pub steps_per_task : Option ℕ
  pub inputs : TaskInputs
  pub deadline_seconds : Option ℕ
  pub max_attempts : Option ℕ

abbrev pub total_of : NewTasks → ℕ
total_of x = max_ℕ 1 (coalesce x.steps 100)

-- `steps_per_task or job.get("steps_per_task", total_steps)`
abbrev pub wanted_chunk : Option ℕ → NewTasks → ℕ
wanted_chunk none x = coalesce x.steps_per_task (total_of x)
wanted_chunk (some n) x = if n == 0 then coalesce x.steps_per_task (total_of x) else n

abbrev pub chunk_size : Option ℕ → NewTasks → ℕ
chunk_size given x = max_ℕ 1 (min_ℕ (wanted_chunk given x) (total_of x))

-- The offset and the steps of a task.
pub record Chunk : Type 0 where
  pub step_offset : ℕ
  pub steps : ℕ

-- The loop, with fuel.
unfoldable pub task_chunks : (chunk total : ℕ) → ℕ → ℕ → List Chunk
task_chunks chunk total zero offset = []
task_chunks chunk total (suc fuel) offset =
    let steps = min_ℕ chunk (total - offset) in
    let rest = task_chunks chunk total fuel (offset + steps) in
    if ltb offset total then record { step_offset = offset; steps = steps } ∷ rest else []

abbrev pub new_task : ℕ → ℕ → NewTasks → Chunk → TaskRow
new_task id now x c = record {
  task_id = id;
  job_id = x.job_id;
  assignee_node_id = none;
  status = queued;
  inputs = x.inputs;
  deadline_ts = some (now + coalesce x.deadline_seconds 600);
  steps = c.steps;
  step_offset = c.step_offset;
  attempt_count = 0;
  max_attempts = some (coalesce x.max_attempts 3);
  created_ts = now;
  updated_ts = now;
  started_ts = none;
  completed_ts = none;
  gradient_blob_url = 0;
  output_json = 0;
  last_error = 0;
}

-- `token` gives the random identifiers.
abbrev pub new_tasks : (ℕ → ℕ) → ℕ → ℕ → NewTasks → List Chunk → List TaskRow
new_tasks token i now x [] = []
new_tasks token i now x (c ∷ cs) = new_task (token i) now x c ∷ new_tasks token (suc i) now x cs

unfoldable pub create_tasks : (ℕ → ℕ) → Option ℕ → NewTasks → ℕ → Db → List ℕ × Db
create_tasks token given x now db =
    let total = total_of x in
    let rows = new_tasks token 0 now x (task_chunks (chunk_size given x) total total 0) in
    let ids = map (λ t. t.task_id) rows in
    let inserted = record db { tasks = db.tasks ++ rows } in
    (
      ids,
      refresh_queue_positions now (
          update_job x.job_id
            (λ j. record j {
              latest_task_id = elim ids [ [] ↦ none | i ∷ rest ↦ some i ];
              updated_ts = now;
              total_steps = some total;
              steps = total;
            })
            inserted),
    )

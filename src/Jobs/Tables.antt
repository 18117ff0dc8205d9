-- ===== src/Jobs/Tables.antt =====
-- The tables active_nodes, jobs and tasks (legacy/services_python/schema.sql, with the columns that
-- legacy/services_python/db/_base.py adds). A table is the list of its rows in the order of their
-- insertion. A status and an error are names, like all strings; 0 is the empty string.
use distrib_ai.Base.{
  ℕ, ◌==◌, Bool, false, ◌&&◌, ◌||◌, Option, none, some, List, [], ◌∷◌, if◌then◌else◌, length, keep,
}
use distrib_ai.Base.Int.{ℤ}

-- The names of the statuses.
abbrev pub queued : ℕ
queued = 1

abbrev pub running : ℕ
running = 2

abbrev pub succeeded : ℕ
succeeded = 3

abbrev pub failed : ℕ
failed = 4

abbrev pub errored : ℕ
errored = 5

abbrev pub timed_out : ℕ
timed_out = 6

abbrev pub invalid_gradient : ℕ
invalid_gradient = 7

abbrev pub rejected : ℕ
rejected = 8

abbrev pub cancelled : ℕ
cancelled = 9

abbrev pub assigned : ℕ
assigned = 10

abbrev pub idle : ℕ
idle = 11

abbrev pub working : ℕ
working = 12

abbrev pub degraded : ℕ
degraded = 13

-- `status IN (...)`
abbrev pub is_in : ℕ → List ℕ → Bool
is_in s [] = false
is_in s (x ∷ xs) = s == x || is_in s xs

-- `RETRYABLE_TASK_STATUSES`
abbrev pub retryable_statuses : List ℕ
retryable_statuses = errored ∷ failed ∷ timed_out ∷ invalid_gradient ∷ []

-- The columns that a task is created with and that no statement changes.
pub record TaskInputs : Type 0 where
  pub weight_blob_url : ℕ
  pub batch_blob_url : ℕ
  pub hparams_json : ℕ
  pub weight_version : ℕ

pub record TaskRow : Type 0 where
  pub task_id : ℕ
  pub job_id : ℕ
  pub assignee_node_id : Option ℕ
  pub status : ℕ
  pub inputs : TaskInputs
  pub deadline_ts : Option ℕ
  pub steps : ℕ
  pub step_offset : ℕ
  pub attempt_count : ℕ
  pub max_attempts : Option ℕ
  pub created_ts : ℕ
  pub updated_ts : ℕ
  pub started_ts : Option ℕ
  pub completed_ts : Option ℕ
  pub gradient_blob_url : ℕ
  pub output_json : ℕ
  pub last_error : ℕ

-- A reliability in hundredths.
pub record NodeRow : Type 0 where
  pub node_id : ℕ
  pub session_token : ℕ
  pub jwt_token : ℕ
  pub hardware_json : ℕ
  pub benchmark_json : ℕ
  pub status : ℕ
  pub contributing : Bool
  pub current_task_id : Option ℕ
  pub last_heartbeat_ts : Option ℕ
  pub heartbeat_seq : ℕ
  pub gpu_util : Option ℕ
  pub vram_free_mb : Option ℕ
  pub jobs_completed : ℕ
  pub jobs_failed : ℕ
  pub reliability_score : ℕ
  pub created_ts : ℕ
  pub updated_ts : ℕ

-- `priority_tier`: one of the four lanes, or another name.
pub data Tier : Type 0 where
  p0 p1 p2 p3 : Tier
  other_tier : (name : ℕ) → Tier

-- A weight in hundredths, a progress in hundredths of a percent, and an estimate in tenths of an hour.
pub record JobRow : Type 0 where
  pub job_id : ℕ
  pub description : ℕ
  pub status : ℕ
  pub priority : ℤ
  pub priority_tier : Tier
  pub total_votes : ℤ
  pub vote_weight : ℤ
  pub submitter_id : ℕ
  pub org : ℕ
  pub created_ts : ℕ
  pub updated_ts : ℕ
  pub started_ts : Option ℕ
  pub completed_ts : Option ℕ
  pub steps : ℕ
  pub total_steps : Option ℕ
  pub queue_position : Option ℕ
  pub estimated_start_hours : Option ℕ
  pub active_nodes : ℕ
  pub progress_pct : ℕ
  pub current_step : ℕ
  pub attempts : ℕ
  pub latest_task_id : Option ℕ
  pub latest_reason : ℕ

pub record VoteRow : Type 0 where
  pub vote_id : ℕ
  pub job_id : ℕ
  pub voter_id : ℕ
  pub credits : ℤ
  pub created_ts : ℕ

pub record Db : Type 0 where
  pub tasks : List TaskRow
  pub nodes : List NodeRow
  pub jobs : List JobRow
  pub vote_transactions : List VoteRow

-- `UPDATE ... WHERE`, and the first row of `SELECT ... WHERE`.
abbrev pub update_where {ℓ} : {A : Type ℓ} → (A → Bool) → (A → A) → List A → List A
update_where p f [] = []
update_where p f (a ∷ rest) = (if p a then f a else a) ∷ update_where p f rest

abbrev pub find_where {ℓ} : {A : Type ℓ} → (A → Bool) → List A → Option A
find_where p [] = none
find_where p (a ∷ rest) = if p a then some a else find_where p rest

abbrev pub task_is : ℕ → TaskRow → Bool
task_is id t = t.task_id == id

abbrev pub node_is : ℕ → NodeRow → Bool
node_is id n = n.node_id == id

abbrev pub job_is : ℕ → JobRow → Bool
job_is id j = j.job_id == id

abbrev pub find_task : ℕ → Db → Option TaskRow
find_task id db = find_where (task_is id) db.tasks

abbrev pub find_job : ℕ → Db → Option JobRow
find_job id db = find_where (job_is id) db.jobs

abbrev pub update_task : ℕ → (TaskRow → TaskRow) → Db → Db
update_task id f db = record db { tasks = update_where (task_is id) f db.tasks }

abbrev pub update_node : ℕ → (NodeRow → NodeRow) → Db → Db
update_node id f db = record db { nodes = update_where (node_is id) f db.nodes }

abbrev pub update_job : ℕ → (JobRow → JobRow) → Db → Db
update_job id f db = record db { jobs = update_where (job_is id) f db.jobs }

-- `COALESCE(column, value)`
abbrev pub coalesce {ℓ} : {A : Type ℓ} → Option A → A → A
coalesce none b = b
coalesce (some a) b = a

-- `3 if max_attempts is None else int(max_attempts)`
abbrev pub budget : TaskRow → ℕ
budget t = coalesce t.max_attempts 3

-- The number of the job's tasks with a status.
abbrev pub count_tasks : ℕ → (ℕ → Bool) → List TaskRow → ℕ
count_tasks job p ts = length (keep (λ t. t.job_id == job && p t.status) ts)

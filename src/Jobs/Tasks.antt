-- ===== src/Jobs/Tasks.antt =====
-- The way of a task through its statuses (`TasksMixin`, legacy/services_python/db/_tasks.py). Each
-- call is one transaction, and so one step. The webhooks behind it are not modelled.
use distrib_ai.Base.{
  ℕ, suc, ◌+◌, ◌==◌, Bool, true, false, ◌&&◌, ◌||◌, not, Option, none, some, List, [], ◌∷◌, ◌++◌,
  if◌then◌else◌, ltb, leb,
}
use distrib_ai.Jobs.Tables.{
  TaskRow, NodeRow, Db, queued, running, succeeded, failed, idle, working, degraded,
  retryable_statuses, is_in, node_is, find_where, find_task, update_task, update_node, update_job,
  coalesce, budget, count_tasks,
}
use distrib_ai.Jobs.Queue.{refresh_queue_positions}
use distrib_ai.Jobs.Refresh.{job_total_steps, percentage, refresh_job_state}

abbrev pub max_ℕ : ℕ → ℕ → ℕ
max_ℕ a b = if ltb a b then b else a

abbrev pub min_ℕ : ℕ → ℕ → ℕ
min_ℕ a b = if ltb b a then b else a

-- What `assign_task` sets in the task and in the node.
abbrev pub start : ℕ → ℕ → TaskRow → TaskRow
start node now t = record t {
  assignee_node_id = some node;
  status = running;
  attempt_count = suc t.attempt_count;
  started_ts = some (coalesce t.started_ts now);
  updated_ts = now;
}

abbrev pub occupy : ℕ → ℕ → NodeRow → NodeRow
occupy task now n = record n { status = working; current_task_id = some task; updated_ts = now }

unfoldable pub assign_task : ℕ → ℕ → ℕ → Db → Db
assign_task task node now db = elim (find_task task db) [
  | none ↦ db
  | some t ↦
      (let started = update_node node (occupy task now) (update_task task (start node now) db) in
        update_job t.job_id
          (λ j. record j {
            status = running;
            active_nodes = count_tasks t.job_id (λ s. s == running) started.tasks;
            latest_task_id = some task;
            attempts = suc j.attempts;
            started_ts = some (coalesce j.started_ts now);
            updated_ts = now;
          })
          started)
]

-- `reason` is the text with the loss.
unfoldable pub record_task_progress : ℕ → ℕ → ℕ → ℕ → Db → Db
record_task_progress task step reason now db = elim (find_task task db) [
  | none ↦ db
  | some t ↦
      (let total = job_total_steps t.job_id db in
        let completed = min_ℕ (t.step_offset + step) total in
        update_job t.job_id
          (λ j. record j {
            status = running;
            current_step = max_ℕ j.current_step completed;
            progress_pct = max_ℕ j.progress_pct (percentage completed total);
            updated_ts = now;
            latest_reason = reason;
          })
          db)
]

-- What a worker reports of a task.
pub record Report : Type 0 where
  pub status : ℕ
  pub gradient_blob_url : ℕ
  pub output_json : ℕ
  pub reason : ℕ

pub record Completed : Type 0 where
  pub job_id : ℕ
  pub task_id : ℕ
  pub status : ℕ
  pub requeued : Bool

abbrev pub is_retryable : Report → TaskRow → Bool
is_retryable r t = is_in r.status retryable_statuses && ltb t.attempt_count (budget t)

abbrev pub requeue : Report → ℕ → TaskRow → TaskRow
requeue r now t = record t {
  assignee_node_id = none;
  status = queued;
  updated_ts = now;
  completed_ts = none;
  last_error = r.reason;
  gradient_blob_url = r.gradient_blob_url;
  output_json = r.output_json;
}

abbrev pub finish : Report → ℕ → TaskRow → TaskRow
finish r now t = record t {
  status = r.status;
  updated_ts = now;
  completed_ts = some now;
  gradient_blob_url = r.gradient_blob_url;
  output_json = r.output_json;
  last_error = r.reason;
}

abbrev pub settle : Report → Bool → ℕ → NodeRow → NodeRow
settle r retryable now n = record n {
  status = idle;
  current_task_id = none;
  jobs_completed = n.jobs_completed + (if r.status == succeeded && not retryable then 1 else 0);
  jobs_failed = n.jobs_failed + (if r.status == succeeded then 0 else 1);
  updated_ts = now;
}

abbrev pub settle_assignee : Option ℕ → Report → Bool → ℕ → Db → Db
settle_assignee assignee r retryable now db = elim assignee [
  | none ↦ db
  | some node ↦ if node == 0 then db else update_node node (settle r retryable now) db
]

unfoldable pub complete_task : ℕ → Report → ℕ → Db → Option Completed × Db
complete_task task r now db = elim (find_task task db) [
  | none ↦ (none, db)
  | some t ↦
      (let retryable = is_retryable r t in
        let ended = update_task task (if retryable then requeue r now else finish r now) db in
        let settled = settle_assignee t.assignee_node_id r retryable now ended in
        (
          some (record {
            job_id = t.job_id;
            task_id = task;
            status = if retryable then queued else r.status;
            requeued = retryable;
          }),
          refresh_queue_positions now (refresh_job_state t.job_id now r.reason task settled),
        ))
]

-- `COALESCE(assignee_node_id, ?)` before the result, where a node is given.
abbrev pub update_task_result : ℕ → Option ℕ → Report → ℕ → Db → Option Completed × Db
update_task_result task node r now db = elim node [
  | none ↦ complete_task task r now db
  | some n ↦
      if n == 0
      then complete_task task r now db
      else complete_task task r now (
          update_task task
            (λ t. record t { assignee_node_id = some (coalesce t.assignee_node_id n) }) db)
]

-- A row of the queries for tasks to be recycled.
pub record StaleRow : Type 0 where
  pub task_id : ℕ
  pub job_id : ℕ
  pub attempt_count : ℕ
  pub attempts_allowed : ℕ
  pub node_id : ℕ

-- The texts of `_recycle_task_rows`: the reason, and the reason with its suffix.
pub record Reasons : Type 0 where
  pub reason : ℕ
  pub exhausted : ℕ
  pub task_failed : ℕ
  pub task_requeued : ℕ

abbrev pub recycle : Reasons → Bool → ℕ → TaskRow → TaskRow
recycle w exhausted now t =
    if exhausted
    then record t {
      status = failed;
      assignee_node_id = none;
      updated_ts = now;
      completed_ts = some now;
      last_error = w.exhausted;
    }
    else record t {
      status = queued;
      assignee_node_id = none;
      updated_ts = now;
      last_error = w.reason;
    }

abbrev pub recycle_row : Reasons → Bool → ℕ → StaleRow → Db → Db
recycle_row w degrade now s db =
    let exhausted = leb s.attempts_allowed s.attempt_count in
    let recycled = update_task s.task_id (recycle w exhausted now) db in
    let freed =
      update_node s.node_id
        (λ n. record n {
          status = if degrade then degraded else idle;
          current_task_id = none;
          updated_ts = now;
        })
        recycled in
    refresh_job_state s.job_id now (if exhausted then w.task_failed else w.task_requeued) s.task_id
      freed

unfoldable pub recycle_task_rows : Reasons → Bool → ℕ → List StaleRow → Db → List ℕ × Db
recycle_task_rows w degrade now [] db = ([], db)
recycle_task_rows w degrade now (s ∷ rows) db =
    let (rest, db') = recycle_task_rows w degrade now rows (recycle_row w degrade now s db) in
    (s.task_id ∷ rest, db')

abbrev pub stale_row : TaskRow → ℕ → StaleRow
stale_row t node = record {
  task_id = t.task_id;
  job_id = t.job_id;
  attempt_count = t.attempt_count;
  attempts_allowed = budget t;
  node_id = node;
}

-- `deadline_ts < now`, or no heartbeat, or one before `now - timeout`.
abbrev pub is_stale : ℕ → ℕ → TaskRow → NodeRow → Bool
is_stale now timeout t n =
    elim t.deadline_ts as (λ _. Bool) [ none ↦ false | some d ↦ ltb d now ]
    || elim n.last_heartbeat_ts as (λ _. Bool) [ none ↦ true | some h ↦ ltb (h + timeout) now ]

abbrev pub stale_of : ℕ → ℕ → Db → TaskRow → List StaleRow
stale_of now timeout db t = elim t.assignee_node_id [
  | none ↦ []
  | some node ↦ elim (find_where (node_is node) db.nodes) [
    | none ↦ []
    | some n ↦ if t.status == running && is_stale now timeout t n then stale_row t node ∷ [] else []
  ]
]

abbrev pub of_node : ℕ → TaskRow → List StaleRow
of_node node t = elim t.assignee_node_id [
  | none ↦ []
  | some n ↦ if t.status == running && n == node then stale_row t n ∷ [] else []
]

abbrev pub select_rows : (TaskRow → List StaleRow) → List TaskRow → List StaleRow
select_rows f [] = []
select_rows f (t ∷ ts) = f t ++ select_rows f ts

-- `if requeued: self.refresh_queue_positions()`
abbrev pub recycle_rows : Reasons → Bool → ℕ → List StaleRow → Db → List ℕ × Db
recycle_rows w degrade now rows db =
    let (requeued, db') = recycle_task_rows w degrade now rows db in
    (requeued, elim requeued [ [] ↦ db' | t ∷ ts ↦ refresh_queue_positions now db' ])

-- `now` is the time that is given, or the clock's where it is 0.
unfoldable pub requeue_stale_tasks : Reasons → ℕ → ℕ → Db → List ℕ × Db
requeue_stale_tasks w now timeout db =
    recycle_rows w true now (select_rows (stale_of now timeout db) db.tasks) db

unfoldable pub requeue_tasks_for_node : Reasons → ℕ → ℕ → Db → List ℕ × Db
requeue_tasks_for_node w node now db =
    recycle_rows w false now (select_rows (of_node node) db.tasks) db

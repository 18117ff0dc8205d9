-- ===== src/Jobs/Attempts/Steps.antt =====
-- Any run of the calls that move tasks, from the scheduler, the workers and the operators
-- (legacy/services_python/db/_tasks.py, legacy/services_python/db/_jobs.py).
use distrib_ai.Base.{
  ℕ, ◌≤◌, ◌==◌, ◌≡◌, ◌≢◌, inl, inr, refl, ◌∙◌, Bool, Option, none, some, List, [], ◌∷◌, ◌++◌,
  Bool-cases,
}
use distrib_ai.Base.Int.{ℤ}
use distrib_ai.Jobs.Tables.{TaskRow, Db, queued, find_task, coalesce}
use distrib_ai.Jobs.Tasks.{
  assign_task, record_task_progress, Report, update_task_result, Reasons, requeue_stale_tasks,
  requeue_tasks_for_node,
}
use distrib_ai.Jobs.Create.{NewTasks, create_tasks}
use distrib_ai.Jobs.Admin.{
  cancel_job, free_node, free_assignees, operator_retry_job, clear_completed_jobs,
  update_job_status, record_vote,
}
use distrib_ai.Jobs.Nodes.{
  Heartbeat, update_heartbeat, Registration, register_node, set_node_contributing,
  update_node_hardware, update_node_benchmark,
}
use distrib_ai.Jobs.Keys.{IsKeyed}
use distrib_ai.Jobs.Attempts.Retries.{requeued_of}

free_one : (now : ℕ) (node : Option ℕ) (db : Db) → (free_node now node db).tasks ≡ db.tasks
free_one now none db = refl
free_one now (some n) db = elim (Bool-cases (n == 0)) [ inl e ↦ rw e refl | inr e ↦ rw e refl ]

pub free-tasks :
    (now : ℕ) (ts : List TaskRow) (db : Db) → (free_assignees now ts db).tasks ≡ db.tasks
free-tasks now [] db = refl
free-tasks now (t ∷ ts) db =
    free-tasks now ts (free_node now t.assignee_node_id db) ∙ free_one now t.assignee_node_id db

-- A call on the store, with the tasks that an operator put into the queue again by it: the scheduler's
-- assignment of a task that is in the queue, a worker's progress, result and heartbeat, the sweep of
-- stale tasks, the end of a node's connection, an operator's cancellation, retry and clearing of jobs,
-- a job's status, a vote, what nodes register and change, and new tasks with identifiers of their own
-- and a budget of one attempt at least.
pub data Step (w : Reasons) : Db → List ℕ → Db → Type 0 where
  assigning :
      (task node now : ℕ) (t : TaskRow) (db : Db)
      → find_task task db ≡ some t
      → t.status ≡ queued
      → Step w db [] (assign_task task node now db)
  progressing :
      (task step reason now : ℕ) (db : Db)
      → Step w db [] (record_task_progress task step reason now db)
  completing :
      (task : ℕ) (node : Option ℕ) (r : Report) (now : ℕ) (db : Db)
      → r.status ≢ queued
      → Step w db [] (update_task_result task node r now db).1
  beating :
      (node : ℕ) (h : Heartbeat) (ts : ℕ) (db : Db) → Step w db [] (update_heartbeat node h ts db)
  sweeping : (now timeout : ℕ) (db : Db) → Step w db [] (requeue_stale_tasks w now timeout db).1
  disconnecting : (node now : ℕ) (db : Db) → Step w db [] (requeue_tasks_for_node w node now db).1
  cancelling : (text job now : ℕ) (db : Db) → Step w db [] (cancel_job text job now db).1
  retrying :
      (text job now : ℕ) (db : Db)
      → Step w db
          (requeued_of (operator_retry_job text job now db).0)
          (operator_retry_job text job now db).1
  clearing : (db : Db) → Step w db [] (clear_completed_jobs db).1
  setting :
      (job status reason now : ℕ) (db : Db)
      → Step w db [] (update_job_status job status reason now db)
  voting :
      (token job voter : ℕ) (credits : ℤ) (now : ℕ) (db : Db)
      → Step w db [] (record_vote token job voter credits now db)
  registering : (r : Registration) (ts : ℕ) (db : Db) → Step w db [] (register_node r ts db)
  contributing :
      (node : ℕ) (b : Bool) (now : ℕ) (db : Db)
      → Step w db [] (set_node_contributing node b now db).1
  equipping :
      (node hardware : ℕ) (benchmark : Option ℕ) (now : ℕ) (db : Db)
      → Step w db [] (update_node_hardware node hardware benchmark now db).1
  measuring :
      (node benchmark now : ℕ) (db : Db)
      → Step w db [] (update_node_benchmark node benchmark now db).1
  creating :
      (token : ℕ → ℕ) (given : Option ℕ) (x : NewTasks) (now : ℕ) (db : Db)
      → 1 ≤ coalesce x.max_attempts 3
      → IsKeyed (create_tasks token given x now db).1.tasks
      → Step w db [] (create_tasks token given x now db).1

-- A run of calls, with the tasks that operators put into the queue again by them.
pub data Reach (w : Reasons) (db : Db) : List ℕ → Db → Type 0 where
  here : Reach w db [] db
  next :
      {ids more : List ℕ} {d e : Db}
      → Reach w db ids d
      → Step w d more e
      → Reach w db (ids ++ more) e

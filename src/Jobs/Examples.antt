-- ===== src/Jobs/Examples.antt =====
-- The theorems on the store of jobs and the scheduler at concrete inputs, and tests
-- (legacy/services_python/db, legacy/services_python/scheduler.py).
use distrib_ai.Base.{
  ℕ, ◌+◌, ◌≡◌, ◌==◌, if◌then◌else◌, ◌&&◌, refl, true, false, none, some, Option, List, [], ◌∷◌,
  length, keep, map, arith, All,
}
use distrib_ai.Base.Int.{pos, ◌*ℤ◌}
use distrib_ai.Jobs.Tables.{
  queued, running, failed, idle, TaskRow, NodeRow, p1, JobRow, Db, find_task, find_job,
}
use distrib_ai.Jobs.Queue.{get_queued_tasks, get_public_queue, refresh_queue_positions}
use distrib_ai.Jobs.Queue.Order.{IsSorted, is_ready, get_queued_tasks-IsOrdered}
use distrib_ai.Jobs.Refresh.{refresh_job_state, status_of}
use distrib_ai.Jobs.Tasks.{
  start, Report, Reasons, assign_task, complete_task, requeue, requeue_stale_tasks,
}
use distrib_ai.Jobs.Create.{
  NewTasks, Chunk, total_of, chunk_size, task_chunks, new_tasks, create_tasks,
}
use distrib_ai.Jobs.Create.Chunks.{Covers, create_tasks-Covers}
use distrib_ai.Jobs.Admin.{cancel, cancel_job, operator_retry_job}
use distrib_ai.Jobs.Attempts.Retries.{requeued_of}
use distrib_ai.Jobs.Attempts.Steps.{
  Reach, here, next, creating, assigning, completing, sweeping, cancelling, retrying,
}
use distrib_ai.Jobs.Late.{cancel_job-complete_task}
use distrib_ai.Jobs.Scheduler.{
  Requirements, Loads, NodeService, node_meets_requirements, pick_node, benchmark_score,
  assign_tasks, Assignment, dict_row, task_requirements, assign_queued_tasks,
}
use distrib_ai.Jobs.Scheduler.Rows.{is_free, IsStuck, assign_queued_tasks-IsStuck}

abbrev node : ℕ → NodeRow
node id = record {
  node_id = id;
  session_token = 0;
  jwt_token = 0;
  hardware_json = id;
  benchmark_json = id;
  status = idle;
  contributing = true;
  current_task_id = none;
  last_heartbeat_ts = some 1000;
  heartbeat_seq = 0;
  gpu_util = none;
  vram_free_mb = none;
  jobs_completed = 0;
  jobs_failed = 0;
  reliability_score = 100;
  created_ts = 900;
  updated_ts = 900;
}

abbrev job : JobRow
job = record {
  job_id = 1;
  description = 0;
  status = queued;
  priority = pos 0;
  priority_tier = p1;
  total_votes = pos 0;
  vote_weight = pos 100;
  submitter_id = 3;
  org = 4;
  created_ts = 950;
  updated_ts = 950;
  started_ts = none;
  completed_ts = none;
  steps = 50;
  total_steps = some 50;
  queue_position = none;
  estimated_start_hours = none;
  active_nodes = 0;
  progress_pct = 0;
  current_step = 0;
  attempts = 0;
  latest_task_id = none;
  latest_reason = 0;
}

abbrev store : Db
store = record { tasks = []; nodes = node 5 ∷ node 6 ∷ []; jobs = job ∷ []; vote_transactions = [] }

-- 50 steps in tasks of 20.
abbrev wanted : NewTasks
wanted = record {
  job_id = 1;
  steps = some 50;
  steps_per_task = some 20;
  inputs = record { weight_blob_url = 0; batch_blob_url = 0; hparams_json = 0; weight_version = 0 };
  deadline_seconds = none;
  max_attempts = some 2;
}

abbrev token : ℕ → ℕ
token i = 100 + i

abbrev created : Db
created = (create_tasks token none wanted 1000 store).1

offsets : map (λ t. t.step_offset) created.tasks ≡ 0 ∷ 20 ∷ 40 ∷ []
unfolding create_tasks task_chunks refresh_queue_positions get_public_queue
offsets = refl

create_tasks-Covers_example :
    (cs : List Chunk) × (created.tasks ≡ new_tasks token 0 1000 wanted cs)
    × Covers (chunk_size none wanted) (total_of wanted) 0 cs
create_tasks-Covers_example = create_tasks-Covers token none wanted 1000 store

get_queued_tasks-IsOrdered_example :
    IsSorted (get_queued_tasks created)
    × All (λ q. find_job q.task.job_id created ≡ some q.job) (get_queued_tasks created)
    × (length (keep (λ q. true) (get_queued_tasks created))
        ≡ length (keep (λ t. is_ready created t && true) created.tasks))
get_queued_tasks-IsOrdered_example = get_queued_tasks-IsOrdered (λ t. true) created

abbrev started : Db
started = assign_task 100 5 1001 created

abbrev report : Report
report = record { status = failed; gradient_blob_url = 0; output_json = 0; reason = 40 }

abbrev reported : Db
reported = (complete_task 100 report 1002 started).1

abbrev texts : Reasons
texts = record { reason = 41; exhausted = 42; task_failed = 43; task_requeued = 44 }

abbrev swept : Db
swept = (requeue_stale_tasks texts 2000 30 reported).1

abbrev first_task : TaskRow
first_task = record {
  task_id = 100;
  job_id = 1;
  assignee_node_id = none;
  status = queued;
  inputs = wanted.inputs;
  deadline_ts = some 1600;
  steps = 20;
  step_offset = 0;
  attempt_count = 0;
  max_attempts = some 2;
  created_ts = 1000;
  updated_ts = 1000;
  started_ts = none;
  completed_ts = none;
  gradient_blob_url = 0;
  output_json = 0;
  last_error = 0;
}

first_found : find_task 100 created ≡ some first_task
unfolding create_tasks task_chunks refresh_queue_positions get_public_queue
first_found = refl

-- The operator cancels the job, and tries its tasks again.
abbrev stopped : Db
stopped = (cancel_job 45 1 1003 swept).1

abbrev tried_again : Option (List ℕ) × Db
tried_again = operator_retry_job 46 1 1004 stopped

run : Reach texts store (requeued_of tried_again.0) tried_again.1
unfolding create_tasks task_chunks refresh_queue_positions get_public_queue
run =
    next
      (next
        (next
          (next
            (next
              (next here (
                creating token none wanted 1000 store (omega arith)
                  ((refl, (refl, tt)), ((refl, tt), (tt, tt)))))
              (assigning 100 5 1001 first_task created refl refl))
            (completing 100 none report 1002 started (omega arith)))
          (sweeping 2000 30 reported))
        (cancelling 45 1 1003 swept))
      (retrying 46 1 1004 stopped)

back_in_queue : map (λ t. t.status) reported.tasks ≡ queued ∷ queued ∷ queued ∷ []
unfolding create_tasks task_chunks refresh_queue_positions get_public_queue assign_task
    complete_task refresh_job_state status_of
back_in_queue = refl

abbrev started_job : JobRow
started_job = record job {
  status = running;
  active_nodes = 1;
  latest_task_id = some 100;
  attempts = 1;
  started_ts = some 1001;
  updated_ts = 1001;
  queue_position = some 1;
  estimated_start_hours = some 0;
}

job_found : find_job 1 started ≡ some started_job
unfolding create_tasks task_chunks refresh_queue_positions get_public_queue assign_task
job_found = refl

started_found : find_task 100 started ≡ some (start 5 1001 first_task)
unfolding create_tasks task_chunks refresh_queue_positions get_public_queue assign_task
started_found = refl

-- The task is running on node 5 when its job is cancelled.
cancel_job-complete_task_example :
    find_task 100 (complete_task 100 report 1004 (cancel_job 45 1 1003 started).1).1
    ≡ some (requeue report 1004 (cancel 45 1003 (start 5 1001 first_task)))
cancel_job-complete_task_example =
    cancel_job-complete_task 45 1 100 1003 1004 report (start 5 1001 first_task) started_job started
      job_found started_found refl refl (omega arith)

-- Node 6 has a GPU, node 5 has none.
abbrev loads : Loads
loads = record {
  hardware =
      λ id. record { vram_mb = if id == 6 then 24000 else 0; gpu_model = id; is_no_gpu = id == 5 };
  benchmark = λ id. record {
    overall = none;
    overall_score = none;
    score = some id;
    total_score = none;
    nested = [];
  };
  requirements = λ json. record { min_gpu_vram_gb = json; required_cuda = false };
}

abbrev on_gpu : Requirements
on_gpu = record { min_gpu_vram_gb = 16; required_cuda = true }

gpu_picked : pick_node loads (node 5 ∷ node 6 ∷ []) on_gpu ≡ some (node 6)
unfolding pick_node node_meets_requirements benchmark_score
gpu_picked = refl

abbrev service : NodeService
service = record { connected_nodes = 5 ∷ 6 ∷ []; pending_assignments = []; sent = [] }

abbrev pass : Assignment loads
pass =
    assign_tasks loads dict_row (get_queued_tasks created) (node 5 ∷ node 6 ∷ []) 1001
      (service, created)

two_assigned : length pass.assigned ≡ 2
unfolding create_tasks task_chunks refresh_queue_positions get_public_queue get_queued_tasks
    assign_tasks task_requirements pick_node node_meets_requirements benchmark_score ◌*ℤ◌
two_assigned = refl

assign_queued_tasks-IsStuck_example :
    IsStuck loads
      (length (keep (is_ready created) created.tasks))
      (length (keep (is_free service created) (5 ∷ 6 ∷ [])))
      (service, created)
      (assign_queued_tasks loads 1001 (service, created))
assign_queued_tasks-IsStuck_example = assign_queued_tasks-IsStuck loads 1001 service created

-- ===== src/Jobs/Scheduler.antt =====
-- `TaskScheduler` (legacy/services_python/scheduler.py): the nodes that may be given a task, the choice
-- among them, and one pass over the queue. The pass is one step here, though it awaits the store. The
-- tasks of a pass are dicts, as its annotations say, or rows of `sqlite3`, which the store hands out.
pub mod Choice
pub mod Pass
pub mod Rows
use distrib_ai.Base.{
  ℕ, suc, ◌+◌, ◌*◌, ◌==◌, Bool, true, false, ◌&&◌, ◌||◌, not, Option, none, some, List, [], ◌∷◌,
  ◌++◌, if◌then◌else◌, ltb, leb, length, keep, elem, sort_with, Outcome, returned, attribute_error,
}
use distrib_ai.Base.Dict.{Dict, lookup, insert, contains}
use distrib_ai.Jobs.Tables.{NodeRow, TaskRow, Db, node_is, find_where}
use distrib_ai.Jobs.Queue.{QueuedTask, get_queued_tasks}
use distrib_ai.Jobs.Tasks.{Reasons, assign_task, requeue_stale_tasks}

-- What the scheduler reads of a node's hardware: `vram_mb` and `gpu_model`, 0 where they are missing,
-- and whether the model is one of "none", "cpu" and "unknown".
pub record Hardware : Type 0 where
  pub vram_mb : ℕ
  pub gpu_model : ℕ
  pub is_no_gpu : Bool

-- The members of a benchmark that are numbers, and the scores in those that are objects.
pub record Benchmark : Type 0 where
  pub overall : Option ℕ
  pub overall_score : Option ℕ
  pub score : Option ℕ
  pub total_score : Option ℕ
  pub nested : List ℕ

-- The gigabytes are whole.
pub record Requirements : Type 0 where
  pub min_gpu_vram_gb : ℕ
  pub required_cuda : Bool

-- `json.loads` of the columns, down to the members that are read.
pub record Loads : Type 0 where
  pub hardware : ℕ → Hardware
  pub benchmark : ℕ → Benchmark
  pub requirements : ℕ → Requirements

-- What a task of the queue is: a `sqlite3.Row` has no method `get`.
pub data RowKind : Type 0 where
  sqlite_row dict_row : RowKind

-- A score as a fraction.
pub record Score : Type 0 where
  pub sum : ℕ
  pub count : ℕ

abbrev pub score_at_most : Score → Score → Bool
score_at_most a b = leb (a.sum * b.count) (b.sum * a.count)

abbrev pub sum : List ℕ → ℕ
sum [] = 0
sum (n ∷ ns) = n + sum ns

abbrev pub mean : List ℕ → Score
mean [] = record { sum = 0; count = 1 }
mean (n ∷ ns) = record { sum = sum (n ∷ ns); count = length (n ∷ ns) }

abbrev pub first_of : List (Option ℕ) → Score → Score
first_of [] other = other
first_of (v ∷ vs) other = elim v [
  | none ↦ first_of vs other
  | some n ↦ record { sum = n; count = 1 }
]

unfoldable pub benchmark_score : Benchmark → Score
benchmark_score b =
    first_of (b.overall ∷ b.overall_score ∷ b.score ∷ b.total_score ∷ []) (mean b.nested)

unfoldable pub node_meets_requirements : Hardware → Requirements → Bool
node_meets_requirements h r =
    if ltb 0 r.min_gpu_vram_gb && ltb h.vram_mb (r.min_gpu_vram_gb * 1024)
    then false
    else if r.required_cuda
    then not (h.gpu_model == 0 || (h.is_no_gpu || h.vram_mb == 0))
    else true

-- The part of `node_service` that the scheduler uses; `sent` are the messages that it put into the
-- queues of the nodes, each with its node and its task.
pub record NodeService : Type 0 where
  pub connected_nodes : List ℕ
  pub pending_assignments : Dict ℕ
  pub sent : List (ℕ × ℕ)

-- `connected_nodes` in order, of those that the store knows and that contribute.
abbrev pub candidates_among : NodeService → Db → List ℕ → List NodeRow
candidates_among s db [] = []
candidates_among s db (id ∷ ids) =
    let rest = candidates_among s db ids in
    elim (find_where (node_is id) db.nodes) [
      | none ↦ rest
      | some n ↦
          if n.contributing && not (contains id s.pending_assignments) then n ∷ rest else rest
    ]

unfoldable pub idle_candidates : NodeService → Db → List NodeRow
idle_candidates s db = candidates_among s db s.connected_nodes

-- `reliability_score or 1.0`
abbrev pub reliability : NodeRow → ℕ
reliability n = if n.reliability_score == 0 then 100 else n.reliability_score

module _ (loads : Loads) where
  abbrev pub meets : Requirements → NodeRow → Bool
  meets r n = node_meets_requirements (loads.hardware n.hardware_json) r

  abbrev pub score_of : NodeRow → Score
  score_of n = benchmark_score (loads.benchmark n.benchmark_json)

  -- The key of the first is not below that of the second, in the order of tuples.
  abbrev pub at_least : NodeRow → NodeRow → Bool
  at_least a b =
      ltb (reliability b) (reliability a)
      || reliability a == reliability b && score_at_most (score_of b) (score_of a)

  unfoldable pub pick_node : List NodeRow → Requirements → Option NodeRow
  pick_node candidates r = elim (sort_with at_least (keep (meets r) candidates)) [
    | [] ↦ none
    | n ∷ ns ↦ some n
  ]

  -- `_task_requirements`, which calls `task.get`.
  unfoldable pub task_requirements : RowKind → QueuedTask → Outcome Requirements
  task_requirements sqlite_row q = attribute_error
  task_requirements dict_row q = returned (loads.requirements q.task.inputs.hparams_json)

  -- The message is sent, and the assignment pending, where the node is still connected.
  unfoldable pub assign_task_to_node : QueuedTask → ℕ → ℕ → NodeService × Db → NodeService × Db
  assign_task_to_node q node now (s, db) =
      let id = q.task.task_id in
      (
        (if elem node s.connected_nodes
            then record s {
              pending_assignments = insert node id s.pending_assignments;
              sent = s.sent ++ (node, id) ∷ [];
            }
            else s),
        assign_task id node now db,
      )

  -- What a pass does: the tasks with their nodes, the tasks that got none, the nodes that are left,
  -- the state, and how it ended.
  pub record Assignment : Type 0 where
    pub assigned : List (QueuedTask × NodeRow)
    pub waiting : List QueuedTask
    pub candidates : List NodeRow
    pub state : NodeService × Db
    pub ended : Outcome {0} Unit

  -- Nothing more is assigned, at a break, at the end, or by an exception.
  abbrev pub stop :
      Outcome {0} Unit → List QueuedTask → List NodeRow → NodeService × Db → Assignment
  stop ended tasks candidates st = record {
    assigned = [];
    waiting = tasks;
    candidates = candidates;
    state = st;
    ended = ended;
  }

  abbrev pub others : NodeRow → List NodeRow → List NodeRow
  others n candidates = keep (λ m. not (m.node_id == n.node_id)) candidates

  -- The loop, which breaks where no node is left.
  unfoldable pub assign_tasks :
      RowKind → List QueuedTask → List NodeRow → ℕ → NodeService × Db → Assignment
  assign_tasks kind [] candidates now st = stop (returned tt) [] candidates st
  assign_tasks kind (q ∷ qs) [] now st = stop (returned tt) (q ∷ qs) [] st
  assign_tasks kind (q ∷ qs) (c ∷ cs) now st = elim (task_requirements kind q) [
    | returned requirements ↦
        (let skipped = assign_tasks kind qs (c ∷ cs) now st in
          elim (pick_node (c ∷ cs) requirements) [
            | none ↦ record skipped { waiting = q ∷ skipped.waiting }
            | some n ↦
                (let rest =
                    assign_tasks kind qs (others n (c ∷ cs)) now
                      (assign_task_to_node q n.node_id now st) in
                  record rest { assigned = (q, n) ∷ rest.assigned })
          ])
    | _ ↦ stop attribute_error (q ∷ qs) (c ∷ cs) st
  ]

  -- The store hands out its rows as `sqlite3` makes them.
  unfoldable pub assign_queued_tasks : ℕ → NodeService × Db → Assignment
  assign_queued_tasks now (s, db) =
      assign_tasks sqlite_row (get_queued_tasks db) (idle_candidates s db) now (s, db)

-- `DEFAULT_REQUEUE_HEARTBEAT_TIMEOUT_SECONDS` is `timeout`.
abbrev pub process_stale_tasks : Reasons → ℕ → ℕ → Db → List ℕ × Db
process_stale_tasks w timeout now db = requeue_stale_tasks w now timeout db

-- ===== src/Jobs/Scheduler/Pass.antt =====
-- What one pass of the scheduler does (`_assign_queued_tasks` of legacy/services_python/scheduler.py).
use distrib_ai.Base.{
  ℕ, ◌==◌, ◌≡◌, true, false, List, [], ◌∷◌, ◌++◌, if◌then◌else◌, elem, map, All, returned,
}
use distrib_ai.Base.Dict.{Dict, insert}
use distrib_ai.Jobs.Tables.{NodeRow, Db}
use distrib_ai.Jobs.Queue.{QueuedTask}
use distrib_ai.Jobs.Tasks.{assign_task}
use distrib_ai.Jobs.Scheduler.{
  Requirements, Loads, NodeService, meets, Assignment, others, assign_tasks, dict_row,
}

-- No node has two tasks.
abbrev pub IsApart : List (QueuedTask × NodeRow) → Type 0
IsApart [] = Unit
IsApart (a ∷ rest) = All (λ b. (b.1.node_id == a.1.node_id) ≡ false) rest × IsApart rest

abbrev pub node_ids : List NodeRow → List ℕ
node_ids ns = map (λ n. n.node_id) ns

-- The tasks in their order, each with a node or waiting.
pub data IsDealt : List QueuedTask → List (QueuedTask × NodeRow) → List QueuedTask → Type 0 where
  all_dealt : IsDealt [] [] []
  gets :
      {q : QueuedTask} {qs ws : List QueuedTask} {as' : List (QueuedTask × NodeRow)} (n : NodeRow)
      → IsDealt qs as' ws
      → IsDealt (q ∷ qs) ((q, n) ∷ as') ws
  waits :
      {q : QueuedTask} {qs ws : List QueuedTask} {as' : List (QueuedTask × NodeRow)}
      → IsDealt qs as' ws
      → IsDealt (q ∷ qs) as' (q ∷ ws)

-- The messages for assignments: to the nodes that are connected.
abbrev pub messages : List ℕ → List (QueuedTask × NodeRow) → List (ℕ × ℕ)
messages connected [] = []
messages connected ((q, n) ∷ rest) =
    let others = messages connected rest in
    if elem n.node_id connected then (n.node_id, q.task.task_id) ∷ others else others

-- Every message leaves its task pending.
abbrev pub pending : List (ℕ × ℕ) → Dict ℕ → Dict ℕ
pending [] d = d
pending (m ∷ ms) d = pending ms (insert m.0 m.1 d)

-- The store behind the assignments.
abbrev pub started_all : ℕ → List (QueuedTask × NodeRow) → Db → Db
started_all now [] db = db
started_all now ((q, n) ∷ rest) db =
    started_all now rest (assign_task q.task.task_id n.node_id now db)

-- The state behind the assignments.
abbrev pub behind : ℕ → List (QueuedTask × NodeRow) → NodeService × Db → NodeService × Db
behind now assigned (s, db) =
    let ms = messages s.connected_nodes assigned in
    (
      record s { pending_assignments = pending ms s.pending_assignments; sent = s.sent ++ ms },
      started_all now assigned db,
    )

module _ (loads : Loads) where
  abbrev pub needs : QueuedTask → Requirements
  needs q = loads.requirements q.task.inputs.hparams_json

  -- A pass over dicts.
  abbrev pub pass : List QueuedTask → List NodeRow → ℕ → NodeService × Db → Assignment loads
  pass qs ns now st = assign_tasks loads dict_row qs ns now st

  -- The nodes can run their tasks, and none has two; no node that is left could run a task that waits;
  -- the tasks are dealt out in their order; and the state is that behind the assignments.
  pub record IsFair (qs : List QueuedTask) (now : ℕ) (st : NodeService × Db) (a : Assignment loads)
      : Type 0 where
    pub able : All (λ x. meets loads (needs x.0) x.1 ≡ true) a.assigned
    pub apart : IsApart a.assigned
    pub useless : All (λ q. All (λ n. meets loads (needs q) n ≡ false) a.candidates) a.waiting
    pub dealt : IsDealt qs a.assigned a.waiting
    pub started : a.state ≡ behind now a.assigned st
    pub ended : a.ended ≡ returned tt

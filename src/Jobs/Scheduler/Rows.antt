-- ===== src/Jobs/Scheduler/Rows.antt =====
-- A pass of the scheduler over the rows of the store (`_assign_queued_tasks` of
-- legacy/services_python/scheduler.py).
use distrib_ai.Base.{
  ℕ, ◌≤◌, ◌≡◌, ◌↔◌, ◌∙◌, inl, inr, refl, sym, subst, Bool, true, false, ◌&&◌, not, none, some, List,
  [], ◌∷◌, arith, length, keep, Option-cases, attribute_error,
}
use distrib_ai.Base.Dict.{contains}
use distrib_ai.Jobs.Tables.{NodeRow, TaskRow, Db, node_is, find_where}
use distrib_ai.Jobs.Queue.{QueuedTask, get_queued_tasks}
use distrib_ai.Jobs.Queue.Order.{is_ready, get_queued_tasks-IsOrdered}
use distrib_ai.Jobs.Scheduler.{
  Loads, NodeService, candidates_among, idle_candidates, Assignment, sqlite_row, assign_tasks,
  assign_queued_tasks, task_requirements,
}

-- The store knows the node, which contributes and has no task pending.
abbrev pub is_free : NodeService → Db → ℕ → Bool
is_free s db id = elim (find_where (node_is id) db.nodes) [
  | none ↦ false
  | some n ↦ n.contributing && not (contains id s.pending_assignments)
]

candidates-count :
    (s : NodeService) (db : Db) (ids : List ℕ)
    → length (candidates_among s db ids) ≡ length (keep (is_free s db) ids)
candidates-count s db [] = refl
candidates-count s db (id ∷ ids) = elim (Option-cases (find_where (node_is id) db.nodes)) [
  | inl e ↦ rw (e, candidates_among) (ground (arith, e, candidates-count s db ids))
  | inr (n, e) ↦ rw (e, candidates_among) (ground (arith, e, candidates-count s db ids))
]

idle-count :
    (s : NodeService) (db : Db)
    → length (idle_candidates s db) ≡ length (keep (is_free s db) s.connected_nodes)
unfolding idle_candidates
idle-count s db = candidates-count s db s.connected_nodes

same_tasks :
    (db : Db) (ts : List TaskRow)
    → length (keep (λ t. is_ready db t && true) ts) ≡ length (keep (is_ready db) ts)
same_tasks db [] = refl
same_tasks db (t ∷ ts) = ground (arith, same_tasks db ts)

all_kept : (qs : List QueuedTask) → length (keep (λ q. true) qs) ≡ length qs
all_kept [] = refl
all_kept (q ∷ qs) = ground (arith, all_kept qs)

queue-count : (db : Db) → length (get_queued_tasks db) ≡ length (keep (is_ready db) db.tasks)
queue-count db =
    sym (all_kept (get_queued_tasks db))
    ∙ (get_queued_tasks-IsOrdered (λ t. true) db).2
    ∙ same_tasks db db.tasks

module _ (loads : Loads) where
  -- Nothing was done, and the pass raised exactly with a task and a node there.
  pub record IsStuck (tasks nodes : ℕ) (st : NodeService × Db) (a : Assignment loads) : Type 0 where
    pub unchanged : a.state ≡ st
    pub nothing : a.assigned ≡ []
    pub raised : (a.ended ≡ attribute_error) ↔ ((1 ≤ tasks) × (1 ≤ nodes))

  rows-IsStuck :
      (qs : List QueuedTask) (ns : List NodeRow) (now : ℕ) (st : NodeService × Db)
      → IsStuck (length qs) (length ns) st (assign_tasks loads sqlite_row qs ns now st)
  unfolding assign_tasks task_requirements
  rows-IsStuck [] ns now st = record {
    unchanged = refl;
    nothing = refl;
    raised = (λ e. ground arith, λ h. absurd (omega (arith, h)));
  }
  rows-IsStuck (q ∷ qs) [] now st = record {
    unchanged = refl;
    nothing = refl;
    raised = (λ e. ground arith, λ h. absurd (omega (arith, h)));
  }
  rows-IsStuck (q ∷ qs) (n ∷ ns) now st = record {
    unchanged = refl;
    nothing = refl;
    raised = (λ e. (omega arith, omega arith), λ h. refl);
  }

  -- A pass of the scheduler, over the rows that its store hands out, assigns nothing and changes
  -- nothing. It raises `AttributeError` exactly when the table has a queued task whose job is known and
  -- a connected node is known, contributes, and has no task pending.
  pub assign_queued_tasks-IsStuck :
      (now : ℕ) (s : NodeService) (db : Db)
      → IsStuck
          (length (keep (is_ready db) db.tasks))
          (length (keep (is_free s db) s.connected_nodes))
          (s, db)
          (assign_queued_tasks loads now (s, db))
  unfolding assign_queued_tasks
  assign_queued_tasks-IsStuck now s db =
      let after = assign_queued_tasks loads now (s, db) in
      subst (λ k. IsStuck k (length (keep (is_free s db) s.connected_nodes)) (s, db) after)
        (queue-count db)
        (subst (λ k. IsStuck (length (get_queued_tasks db)) k (s, db) after) (idle-count s db)
          (rows-IsStuck (get_queued_tasks db) (idle_candidates s db) now (s, db)))

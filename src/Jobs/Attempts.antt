-- ===== src/Jobs/Attempts.antt =====
-- How often a task is tried (legacy/services_python/db/_tasks.py, legacy/services_python/db/_jobs.py).
pub mod Retries
pub mod Steps
use distrib_ai.Base.{
  ℕ, suc, ◌+◌, ◌≤◌, ◌<◌, ◌==◌, ◌≡◌, ◌≢◌, ◌⊎◌, inl, inr, refl, sym, ap, subst, ◌∙◌, Bool, true,
  false, ◌&&◌, Option, none, some, List, [], ◌∷◌, ◌++◌, if◌then◌else◌, ltb, leb, arith, Bool-cases,
  Option-cases, All,
}
use distrib_ai.Jobs.Tables.{
  TaskRow, NodeRow, Db, queued, running, task_is, node_is, find_where, find_task, update_where,
  update_task, update_node, coalesce, budget, is_in, retryable_statuses,
}
use distrib_ai.Jobs.Queue.{
  QueueEntry, put_position, put_positions, get_public_queue, refresh_queue_positions,
}
use distrib_ai.Jobs.Refresh.{refresh_job_state}
use distrib_ai.Jobs.Tasks.{
  start, occupy, assign_task, Report, is_retryable, requeue, finish, settle_assignee, complete_task,
  Reasons, StaleRow, recycle, recycle_row, recycle_task_rows, stale_row, stale_of, of_node,
  select_rows, recycle_rows, requeue_stale_tasks, requeue_tasks_for_node,
}
use distrib_ai.Jobs.Keys.{
  update-All, All-map, All-intro, IsKeyed, IsOnly, keyed-All, found-IsOnly, update-IsKeyed,
}

-- What does not write to the table of tasks.
put_positions-tasks :
    (now : ℕ) (es : List QueueEntry) (db : Db) → (put_positions now es db).tasks ≡ db.tasks
put_positions-tasks now [] db = refl
put_positions-tasks now (e ∷ es) db = put_positions-tasks now es (put_position now e db)

pub refresh_queue-tasks : (now : ℕ) (db : Db) → (refresh_queue_positions now db).tasks ≡ db.tasks
unfolding refresh_queue_positions
refresh_queue-tasks now db = put_positions-tasks now (get_public_queue db) db

pub settle-tasks :
    (node : Option ℕ) (r : Report) (b : Bool) (now : ℕ) (db : Db)
    → (settle_assignee node r b now db).tasks ≡ db.tasks
settle-tasks none r b now db = refl
settle-tasks (some n) r b now db = elim (Bool-cases (n == 0)) [
  | inl e ↦ rw e refl
  | inr e ↦ rw e refl
]

pub refresh_job-tasks :
    (job now reason task : ℕ) (db : Db)
    → (refresh_job_state job now reason task db).tasks ≡ db.tasks
unfolding refresh_job_state
refresh_job-tasks job now reason task db = refl

-- The row that was found is the one that is updated.
pub found_id-IsOnly :
    (id : ℕ) (t : TaskRow) (ts : List TaskRow)
    → IsKeyed ts
    → find_where (task_is id) ts ≡ some t
    → All (λ r. task_is id r ≡ true → r ≡ t) ts
found_id-IsOnly id t ts k e =
    let (only, same) = found-IsOnly id t ts ts (keyed-All ts k) e in
    subst (λ i. All (λ r. task_is i r ≡ true → r ≡ t) ts) same only

and_right : (a b : Bool) → (a && b) ≡ true → b ≡ true
and_right a b h = ground arith

ltb_lem : (a b : ℕ) → ltb a b ≡ true → a < b
ltb_lem a b h = ground arith

completes_id :
    (r : Report) (now : ℕ) (b : Bool) (t : TaskRow)
    → ((if b then requeue r now else finish r now) t).task_id ≡ t.task_id
completes_id r now true t = refl
completes_id r now false t = refl

-- A row of a query has the attempts of its task.
abbrev pub Matches : List TaskRow → StaleRow → Type 0
Matches ts s =
    All
      (λ r.
        task_is s.task_id r ≡ true
        → (r.attempt_count ≡ s.attempt_count) × (budget r ≡ s.attempts_allowed))
      ts

recycle_same :
    (w : Reasons) (x : Bool) (now : ℕ) (t : TaskRow)
    → ((recycle w x now t).task_id ≡ t.task_id)
      × ((recycle w x now t).attempt_count ≡ t.attempt_count)
      × (budget (recycle w x now t) ≡ budget t)
recycle_same w true now t = (refl, refl, refl)
recycle_same w false now t = (refl, refl, refl)

row-Matches :
    (w : Reasons) (degrade : Bool) (now : ℕ) (s s' : StaleRow) (db : Db)
    → Matches db.tasks s'
    → Matches (recycle_row w degrade now s db).tasks s'
unfolding refresh_job_state
row-Matches w degrade now s s' db m =
    let x = leb s.attempts_allowed s.attempt_count in
    update-All
      (λ r.
        task_is s'.task_id r ≡ true
        → (r.attempt_count ≡ s'.attempt_count) × (budget r ≡ s'.attempts_allowed))
      (task_is s.task_id) (recycle w x now) db.tasks m
      (All-intro db.tasks (λ r e same k.
        (let (i, a, b) = recycle_same w x now r in
          let (c, d) = same (subst (λ j. (j == s'.task_id) ≡ true) i k) in (a ∙ c, b ∙ d))))

-- `extra` are further attempts, by the identifier of the task.
module _ (extra : ℕ → ℕ) where
  -- The attempts are within the budget and what is `extra`, and one is left to a task in the queue.
  abbrev pub IsWithin : TaskRow → Type 0
  IsWithin t =
      (t.attempt_count ≤ budget t + extra t.task_id)
      × ((t.status == queued) ≡ true → t.attempt_count < budget t + extra t.task_id)

  pub record IsBudgeted (ts : List TaskRow) : Type 0 where
    pub keyed : IsKeyed ts
    pub within : All IsWithin ts

  pub update-IsBudgeted :
      (p : TaskRow → Bool) (f : TaskRow → TaskRow) (ts : List TaskRow)
      → ((t : TaskRow) → (f t).task_id ≡ t.task_id)
      → IsBudgeted ts
      → All (λ r. p r ≡ true → IsWithin r → IsWithin (f r)) ts
      → IsBudgeted (update_where p f ts)
  update-IsBudgeted p f ts k h a = record {
    keyed = update-IsKeyed p f ts k h.keyed;
    within = update-All IsWithin p f ts h.within a;
  }

  starts :
      (node now : ℕ) (t : TaskRow) → t.status ≡ queued → IsWithin t → IsWithin (start node now t)
  starts node now t e h = (h.1 (rw e refl), λ k. ground (arith, k))

  pub assign_task-IsBudgeted :
      (task node now : ℕ) (t : TaskRow) (db : Db)
      → find_task task db ≡ some t
      → t.status ≡ queued
      → IsBudgeted db.tasks
      → IsBudgeted (assign_task task node now db).tasks
  unfolding assign_task
  assign_task-IsBudgeted task node now t db e q h =
      rw (e, assign_task)
        (update-IsBudgeted (task_is task) (start node now) db.tasks (λ r. refl) h
          (All-map db.tasks (λ r same k w. starts node now r (ap (λ x. x.status) (same k) ∙ q) w)
            (found_id-IsOnly task t db.tasks h.keyed e)))

  completes :
      (r : Report) (now : ℕ) (t : TaskRow)
      → r.status ≢ queued
      → IsWithin t
      → IsWithin ((if is_retryable r t then requeue r now else finish r now) t)
  completes r now t n h = elim (Bool-cases (is_retryable r t)) [
    | inl e ↦
        let lt =
          ltb_lem t.attempt_count (budget t)
            (and_right (is_in r.status retryable_statuses) (ltb t.attempt_count (budget t)) e) in
        rw e (h.0, λ k. omega (arith, lt))
    | inr e ↦ rw e (h.0, λ k. ground (arith, k, n))
  ]

  pub complete_task-IsBudgeted :
      (task : ℕ) (r : Report) (now : ℕ) (db : Db)
      → r.status ≢ queued
      → IsBudgeted db.tasks
      → IsBudgeted (complete_task task r now db).1.tasks
  unfolding complete_task
  complete_task-IsBudgeted task r now db n h = elim (Option-cases (find_task task db)) [
    | inl e ↦ rw (e, complete_task) h
    | inr (t, e) ↦
        let b = is_retryable r t in
        let f = if b then requeue r now else finish r now in
        let ended = update_task task f db in
        let settled = settle_assignee t.assignee_node_id r b now ended in
        let kept =
          refresh_queue-tasks now (refresh_job_state t.job_id now r.reason task settled)
          ∙ refresh_job-tasks t.job_id now r.reason task settled
          ∙ settle-tasks t.assignee_node_id r b now ended in
        rw (e, complete_task)
          (subst IsBudgeted (sym kept) (
            update-IsBudgeted (task_is task) f db.tasks (completes_id r now b) h (
              All-map db.tasks
                (λ x same k w.
                  subst (λ y. IsWithin (f y)) (sym (same k))
                    (completes r now t n (subst IsWithin (same k) w)))
                (found_id-IsOnly task t db.tasks h.keyed e))))
  ]

  recycles :
      (w : Reasons) (now : ℕ) (s : StaleRow) (t : TaskRow)
      → (t.attempt_count ≡ s.attempt_count) × (budget t ≡ s.attempts_allowed)
      → IsWithin t
      → IsWithin (recycle w (leb s.attempts_allowed s.attempt_count) now t)
  recycles w now s t m h = elim (Bool-cases (leb s.attempts_allowed s.attempt_count)) [
    | inl e ↦ rw e (h.0, λ k. ground (arith, k))
    | inr e ↦ rw e (h.0, λ k. ground (arith, e, m))
  ]

  row-IsBudgeted :
      (w : Reasons) (degrade : Bool) (now : ℕ) (s : StaleRow) (db : Db)
      → Matches db.tasks s
      → IsBudgeted db.tasks
      → IsBudgeted (recycle_row w degrade now s db).tasks
  unfolding refresh_job_state
  row-IsBudgeted w degrade now s db m h =
      let x = leb s.attempts_allowed s.attempt_count in
      update-IsBudgeted (task_is s.task_id) (recycle w x now) db.tasks
        (λ t. (recycle_same w x now t).0) h
        (All-map db.tasks (λ r same k v. recycles w now s r (same k) v) m)

  pub rows-IsBudgeted :
      (w : Reasons) (degrade : Bool) (now : ℕ) (rows : List StaleRow) (db : Db)
      → All (Matches db.tasks) rows
      → IsBudgeted db.tasks
      → IsBudgeted (recycle_task_rows w degrade now rows db).1.tasks
  unfolding recycle_task_rows
  rows-IsBudgeted w degrade now [] db m h = h
  rows-IsBudgeted w degrade now (s ∷ rows) db m h =
      rows-IsBudgeted w degrade now rows (recycle_row w degrade now s db)
        (All-map rows (λ s' k. row-Matches w degrade now s s' db k) m.1)
        (row-IsBudgeted w degrade now s db m.0 h)

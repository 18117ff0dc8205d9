-- ===== src/Jobs/Queue/Order.antt =====
-- In what order tasks leave the queue (`get_queued_tasks` of legacy/services_python/db/_jobs.py).
use distrib_ai.Base.{
  ℕ, ◌≤◌, ◌<◌, ◌==◌, ◌≡◌, ◌⊎◌, ◌∙◌, inl, inr, refl, sym, subst, Bool, true, false, ◌&&◌, some,
  is_some, List, [], ◌∷◌, arith, length, keep, Bool-cases, Option-cases, All, place_with, sort_with,
  place-All, sort-All, count-sort,
}
use distrib_ai.Base.Int.{ℤ, ◌≤ℤ◌, ◌*ℤ◌}
use distrib_ai.Jobs.Tables.{Tier, p0, p1, p2, p3, other_tier, TaskRow, queued, Db, find_job}
use distrib_ai.Jobs.Keys.{All-map, keep-All}
use distrib_ai.Jobs.Queue.{
  rank, ascending, descending, weighted_votes, QueuedTask, is_queued, join_jobs, task_before,
  get_queued_tasks,
}

ascending_total :
    (a b : ℕ) (r s : Bool)
    → (r ≡ false → s ≡ true)
    → ascending a b r ≡ false
    → ascending b a s ≡ true
ascending_total a b r s h k = ground arith

descending_total :
    (a b : ℤ) (r s : Bool)
    → (r ≡ false → s ≡ true)
    → descending a b r ≡ false
    → descending b a s ≡ true
descending_total a b r s h k = ground arith

task_before_total : (a b : QueuedTask) → task_before a b ≡ false → task_before b a ≡ true
task_before_total a b = ascending_total (rank a.job.priority_tier) (rank b.job.priority_tier) _ _ (
    descending_total a.job.priority b.job.priority _ _ (
      descending_total (weighted_votes a.job) (weighted_votes b.job) _ _ (
        ascending_total a.job.created_ts b.job.created_ts _ _
          (ascending_total a.task.step_offset b.task.step_offset true true (λ e. refl)))))

-- The lanes in their order; a tier of another name comes last.
abbrev pub lane_number : Tier → ℕ
lane_number p0 = 0
lane_number p1 = 1
lane_number p2 = 2
lane_number p3 = 3
lane_number (other_tier name) = 4

-- The lesser number first, or the greater number first; where they are the same, what follows.
abbrev pub Lesser : ℕ → ℕ → Type 0 → Type 0
Lesser a b Rest = (a < b) ⊎ ((a ≡ b) × Rest)

abbrev pub Greater : ℤ → ℤ → Type 0 → Type 0
Greater a b Rest = (¬ (a ≤ℤ b)) ⊎ ((a ≡ b) × Rest)

-- `a` may stand before `b`: a lower lane; in the same lane, a higher priority; then more votes times
-- their weight; then an older job; then no later a step.
abbrev pub Precedes : QueuedTask → QueuedTask → Type 0
Precedes a b = Lesser (lane_number a.job.priority_tier) (lane_number b.job.priority_tier) (
    Greater a.job.priority b.job.priority (
      Greater (a.job.total_votes *ℤ a.job.vote_weight) (b.job.total_votes *ℤ b.job.vote_weight)
        (Lesser a.job.created_ts b.job.created_ts (a.task.step_offset ≤ b.task.step_offset))))

-- Each may stand before all that follow it.
abbrev pub IsSorted : List QueuedTask → Type 0
IsSorted [] = Unit
IsSorted (q ∷ qs) = All (λ r. Precedes q r) qs × IsSorted qs

lesser_trans :
    {R S T : Type 0} (a b c : ℕ) → (R → S → T) → Lesser a b R → Lesser b c S → Lesser a c T
lesser_trans a b c f (inl h) (inl k) = inl (omega arith)
lesser_trans a b c f (inl h) (inr (e, s)) = inl (omega arith)
lesser_trans a b c f (inr (e, r)) (inl k) = inl (omega arith)
lesser_trans a b c f (inr (e, r)) (inr (e', s)) = inr (e ∙ e', f r s)

greater_left : (a b c : ℤ) → ¬ (a ≤ℤ b) → b ≡ c → ¬ (a ≤ℤ c)
greater_left a b c h e = subst (λ x. ¬ (a ≤ℤ x)) e h

greater_right : (a b c : ℤ) → a ≡ b → ¬ (b ≤ℤ c) → ¬ (a ≤ℤ c)
greater_right a b c e h = subst (λ x. ¬ (x ≤ℤ c)) (sym e) h

greater_both : (a b c : ℤ) → ¬ (a ≤ℤ b) → ¬ (b ≤ℤ c) → ¬ (a ≤ℤ c)
greater_both a b c h k l = ground arith

greater_trans :
    {R S T : Type 0} (a b c : ℤ) → (R → S → T) → Greater a b R → Greater b c S → Greater a c T
greater_trans a b c f (inl h) (inl k) = inl (greater_both a b c h k)
greater_trans a b c f (inl h) (inr (e, s)) = inl (greater_left a b c h e)
greater_trans a b c f (inr (e, r)) (inl k) = inl (greater_right a b c e k)
greater_trans a b c f (inr (e, r)) (inr (e', s)) = inr (e ∙ e', f r s)

Precedes-trans : (a b c : QueuedTask) → Precedes a b → Precedes b c → Precedes a c
Precedes-trans a b c =
    lesser_trans (lane_number a.job.priority_tier) (lane_number b.job.priority_tier)
      (lane_number c.job.priority_tier)
      (greater_trans a.job.priority b.job.priority c.job.priority (
        greater_trans (weighted_votes a.job) (weighted_votes b.job) (weighted_votes c.job) (
          lesser_trans a.job.created_ts b.job.created_ts c.job.created_ts
            (λ (h : a.task.step_offset ≤ b.task.step_offset)
                (k : b.task.step_offset ≤ c.task.step_offset).
              step_trans a.task.step_offset b.task.step_offset c.task.step_offset h k))))
  where
    step_trans : (x y z : ℕ) → x ≤ y → y ≤ z → x ≤ z
    step_trans x y z h k = omega arith

ascending-Lesser :
    {R : Type 0} (a b : ℕ) (r : Bool) → (r ≡ true → R) → ascending a b r ≡ true → Lesser a b R
ascending-Lesser a b r f h = elim (split a b r h) [ inl k ↦ inl k | inr (e, k) ↦ inr (e, f k) ]
  where
    split : (a b : ℕ) (r : Bool) → ascending a b r ≡ true → (a < b) ⊎ ((a ≡ b) × (r ≡ true))
    split a b r h = ground arith

descending-Greater :
    {R : Type 0} (a b : ℤ) (r : Bool) → (r ≡ true → R) → descending a b r ≡ true → Greater a b R
descending-Greater a b r f h = elim (split a b r h) [ inl k ↦ inl k | inr (e, k) ↦ inr (e, f k) ]
  where
    split : (a b : ℤ) (r : Bool) → descending a b r ≡ true → (¬ (a ≤ℤ b)) ⊎ ((a ≡ b) × (r ≡ true))
    split a b r h = ground arith

rank-lane : (t : Tier) → rank t ≡ lane_number t
rank-lane p0 = refl
rank-lane p1 = refl
rank-lane p2 = refl
rank-lane p3 = refl
rank-lane (other_tier name) = refl

step_lem : (x y : ℕ) → ascending x y true ≡ true → x ≤ y
step_lem x y h = ground arith

-- What decides in one lane.
abbrev After : QueuedTask → QueuedTask → Type 0
After a b = Greater a.job.priority b.job.priority (
    Greater (weighted_votes a.job) (weighted_votes b.job)
      (Lesser a.job.created_ts b.job.created_ts (a.task.step_offset ≤ b.task.step_offset)))

task_before-Precedes : (a b : QueuedTask) → task_before a b ≡ true → Precedes a b
task_before-Precedes a b h =
    subst (λ i. Lesser i (lane_number b.job.priority_tier) (After a b))
      (rank-lane a.job.priority_tier)
      (subst (λ i. Lesser (rank a.job.priority_tier) i (After a b)) (rank-lane b.job.priority_tier)
        (ascending-Lesser (rank a.job.priority_tier) (rank b.job.priority_tier) _
          (descending-Greater a.job.priority b.job.priority _ (
            descending-Greater (weighted_votes a.job) (weighted_votes b.job) _ (
              ascending-Lesser a.job.created_ts b.job.created_ts _
                (step_lem a.task.step_offset b.task.step_offset))))
          h))

place-IsSorted :
    (q : QueuedTask) (qs : List QueuedTask) → IsSorted qs → IsSorted (place_with task_before q qs)
place-IsSorted q [] h = (tt, tt)
place-IsSorted q (r ∷ qs) h = elim (Bool-cases (task_before q r)) [
  | inl e ↦
      let k = task_before-Precedes q r e in
      rw e ((k, All-map qs (λ s m. Precedes-trans q r s k m) h.0), h)
  | inr e ↦
      let k = task_before-Precedes r q (task_before_total q r e) in
      rw e (place-All task_before (λ s. Precedes r s) q qs k h.0, place-IsSorted q qs h.1)
]

sort-IsSorted : (qs : List QueuedTask) → IsSorted (sort_with task_before qs)
sort-IsSorted [] = tt
sort-IsSorted (q ∷ qs) = place-IsSorted q (sort_with task_before qs) (sort-IsSorted qs)

-- The task is in the queue, and its job is known.
abbrev pub is_ready : Db → TaskRow → Bool
is_ready db t = t.status == queued && is_some (find_job t.job_id db)

count-rows :
    (p : TaskRow → Bool) (db : Db) (ts : List TaskRow)
    → length (keep (λ q. p q.task) (keep is_queued (join_jobs db ts)))
      ≡ length (keep (λ t. is_ready db t && p t) ts)
count-rows p db [] = refl
count-rows p db (t ∷ ts) = elim (Option-cases (find_job t.job_id db)) [
  | inl e ↦ rw e (ground (arith, count-rows p db ts))
  | inr (j, e) ↦ rw e (ground (arith, count-rows p db ts))
]

rows-job :
    (db : Db) (ts : List TaskRow)
    → All (λ q. find_job q.task.job_id db ≡ some q.job) (join_jobs db ts)
rows-job db [] = tt
rows-job db (t ∷ ts) = elim (Option-cases (find_job t.job_id db)) [
  | inl e ↦ rw (e, join_jobs) (rows-job db ts)
  | inr (j, e) ↦ rw (e, join_jobs) (e, rows-job db ts)
]

-- `get_queued_tasks` lists tasks with their jobs; each may stand before all that follow it, by lane,
-- then the higher priority, the more weighted votes, the older job and the earlier step; and of whatever
-- kind `p`, it lists as many tasks as the table has with the status queued and a job that is known.
pub get_queued_tasks-IsOrdered :
    (p : TaskRow → Bool) (db : Db)
    → IsSorted (get_queued_tasks db)
      × All (λ q. find_job q.task.job_id db ≡ some q.job) (get_queued_tasks db)
      × (length (keep (λ q. p q.task) (get_queued_tasks db))
          ≡ length (keep (λ t. is_ready db t && p t) db.tasks))
unfolding get_queued_tasks
get_queued_tasks-IsOrdered p db =
    let rows = keep is_queued (join_jobs db db.tasks) in
    (
      sort-IsSorted rows,
      sort-All task_before (λ q. find_job q.task.job_id db ≡ some q.job) rows
          (keep-All (λ q. find_job q.task.job_id db ≡ some q.job) is_queued _
            (rows-job db db.tasks)),
      count-sort task_before (λ q. p q.task) rows ∙ count-rows p db db.tasks,
    )

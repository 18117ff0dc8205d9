-- ===== src/Jobs/Create/Chunks.antt =====
-- How `create_tasks` divides the steps of a job (legacy/services_python/db/_jobs.py).
use distrib_ai.Base.{
  ℕ, zero, suc, ◌+◌, ◌-◌, ◌≤◌, ◌<◌, ◌≡◌, inl, inr, refl, true, false, Option, List, [], ◌∷◌, ◌++◌,
  ltb, arith, Bool-cases,
}
use distrib_ai.Jobs.Tables.{Db}
use distrib_ai.Jobs.Tasks.{max_ℕ, min_ℕ}
use distrib_ai.Jobs.Create.{
  NewTasks, Chunk, total_of, wanted_chunk, chunk_size, task_chunks, new_tasks, create_tasks,
}
use distrib_ai.Jobs.Attempts.{refresh_queue-tasks}

-- The chunks follow each other from an offset to the total, each of one step at least and of no more
-- than the size.
abbrev pub Covers : (size total : ℕ) → ℕ → List Chunk → Type 0
Covers size total offset [] = offset ≡ total
Covers size total offset (c ∷ cs) =
    (c.step_offset ≡ offset)
    × (1 ≤ c.steps)
    × (c.steps ≤ size)
    × Covers size total (offset + c.steps) cs

min_one : (a b : ℕ) → 1 ≤ a → 1 ≤ b → 1 ≤ min_ℕ a b
min_one a b h k = ground arith

min_left : (a b : ℕ) → min_ℕ a b ≤ a
min_left a b = ground arith

min_right : (a b : ℕ) → min_ℕ a b ≤ b
min_right a b = ground arith

max_left : (a b : ℕ) → a ≤ max_ℕ a b
max_left a b = ground arith

ltb-true : (a b : ℕ) → ltb a b ≡ true → a < b
ltb-true a b h = ground arith

ltb-false : (a b : ℕ) → ltb a b ≡ false → b ≤ a
ltb-false a b h = ground arith

chunks-Covers :
    (size total fuel offset : ℕ)
    → 1 ≤ size
    → offset ≤ total
    → total ≤ offset + fuel
    → Covers size total offset (task_chunks size total fuel offset)
unfolding task_chunks
chunks-Covers size total zero offset h k f = omega arith
chunks-Covers size total (suc fuel) offset h k f = elim (Bool-cases (ltb offset total)) [
  | inl e ↦
      let lt = ltb-true offset total e in
      let one = min_one size (total - offset) h (omega arith) in
      let right = min_right size (total - offset) in
      rw (e, task_chunks)
        (
          refl,
          one,
          min_left size (total - offset),
          chunks-Covers size total fuel (offset + min_ℕ size (total - offset)) h (omega arith)
              (omega arith),
        )
  | inr e ↦ let ge = ltb-false offset total e in rw (e, task_chunks) (omega arith)
]

-- `create_tasks` adds tasks whose offsets and steps divide the job's steps: from 0 to the total
-- without a gap or an overlap, each of one step at least and of no more than the chunk size. The fuel
-- of the loop is always enough.
pub create_tasks-Covers :
    (token : ℕ → ℕ) (given : Option ℕ) (x : NewTasks) (now : ℕ) (db : Db)
    → (cs : List Chunk) × ((create_tasks token given x now db).1.tasks
        ≡ db.tasks ++ new_tasks token 0 now x cs)
      × Covers (chunk_size given x) (total_of x) 0 cs
unfolding create_tasks
create_tasks-Covers token given x now db =
    let total = total_of x in
    (
      task_chunks (chunk_size given x) total total 0,
      refresh_queue-tasks now _,
      chunks-Covers (chunk_size given x) total total 0
          (max_left 1 (min_ℕ (wanted_chunk given x) (total_of x))) (omega arith) (omega arith),
    )

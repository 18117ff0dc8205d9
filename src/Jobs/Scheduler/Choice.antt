-- ===== src/Jobs/Scheduler/Choice.antt =====
-- Which node a task is given to (`_pick_node` of legacy/services_python/scheduler.py).
use distrib_ai.Base.{
  ◌≡◌, subst, true, false, Option, none, some, List, [], ◌∷◌, keep, sort_with, sort-All, arith, All,
}
use distrib_ai.Jobs.Tables.{NodeRow}
use distrib_ai.Jobs.Keys.{keep-All}
use distrib_ai.Jobs.Scheduler.{Requirements, Loads, meets, at_least, pick_node}

unsome : {m n : NodeRow} → some m ≡ some n → m ≡ n
unsome e = ground (arith, e)

module _ (loads : Loads) where
  -- The first is as good as every other.
  abbrev IsLed : List NodeRow → Type 0
  IsLed [] = Unit
  IsLed (n ∷ ns) = All (λ m. at_least loads n m ≡ true) ns

  -- What can be said of the node that is chosen, and where none is.
  abbrev pub IsBest : Requirements → List NodeRow → Option NodeRow → Type 0
  IsBest r candidates none = All (λ m. meets loads r m ≡ false) candidates
  IsBest r candidates (some n) =
      (meets loads r n ≡ true)
      × All (λ m. meets loads r m ≡ true → at_least loads n m ≡ true) candidates

  -- What holds of all candidates holds of the one that is chosen.
  sorted-All :
      (P : NodeRow → Type 0) (n : NodeRow) (sorted : List NodeRow)
      → All P sorted
      → elim sorted as (λ _. Option NodeRow) [ [] ↦ none | m ∷ ms ↦ some m ] ≡ some n
      → P n
  sorted-All P n [] h e = ground arith
  sorted-All P n (m ∷ ms) h e = subst P (unsome e) h.0

  pub pick_node-All :
      (P : NodeRow → Type 0) (r : Requirements) (candidates : List NodeRow) (n : NodeRow)
      → pick_node loads candidates r ≡ some n
      → All P candidates
      → P n
  unfolding pick_node
  pick_node-All P r candidates n e h =
      sorted-All P n (sort_with (at_least loads) (keep (meets loads r) candidates))
        (sort-All (at_least loads) P _ (keep-All P (meets loads r) candidates h)) e

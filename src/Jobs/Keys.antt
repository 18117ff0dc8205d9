-- ===== src/Jobs/Keys.antt =====
-- Rows found and updated by their primary key (legacy/services_python/schema.sql).
use distrib_ai.Base.{
  ℕ, ◌==◌, ◌≡◌, inl, inr, refl, sym, subst, Bool, true, false, some, List, [], ◌∷◌, if◌then◌else◌,
  arith, Bool-cases, All, keep,
}
use distrib_ai.Jobs.Tables.{TaskRow, task_is, update_where, find_where}

clash {ℓ} : {X : Type ℓ} (b : Bool) → b ≡ false → b ≡ true → X
clash b h k = ground arith

pub update-All {ℓ κ} :
    {A : Type ℓ} (P : A → Type κ) (p : A → Bool) (f : A → A) (xs : List A)
    → All P xs
    → All (λ a. p a ≡ true → P a → P (f a)) xs
    → All P (update_where p f xs)
update-All P p f [] h k = tt
update-All P p f (x ∷ xs) h k = elim (Bool-cases (p x)) [
  | inl e ↦ rw e (k.0 e h.0, update-All P p f xs h.1 k.1)
  | inr e ↦ rw e (h.0, update-All P p f xs h.1 k.1)
]

pub All-map {ℓ κ μ} :
    {A : Type ℓ} {P : A → Type κ} {Q : A → Type μ} (xs : List A)
    → ((a : A) → P a → Q a)
    → All P xs
    → All Q xs
All-map [] g h = tt
All-map (x ∷ xs) g h = (g x h.0, All-map xs g h.1)

pub All-intro {ℓ κ} : {A : Type ℓ} {P : A → Type κ} (xs : List A) → ((a : A) → P a) → All P xs
All-intro [] g = tt
All-intro (x ∷ xs) g = (g x, All-intro xs g)

pub keep-All {ℓ κ} :
    {A : Type ℓ} (P : A → Type κ) (p : A → Bool) (xs : List A) → All P xs → All P (keep p xs)
keep-All P p [] h = tt
keep-All P p (x ∷ xs) h = elim (Bool-cases (p x)) [
  | inl e ↦ rw e (h.0, keep-All P p xs h.1)
  | inr e ↦ rw e (keep-All P p xs h.1)
]

pub unkeep-All {ℓ κ} :
    {A : Type ℓ} (P : A → Type κ) (p : A → Bool) (xs : List A)
    → All P (keep p xs)
    → All (λ a. p a ≡ true → P a) xs
unkeep-All P p [] h = tt
unkeep-All P p (x ∷ xs) h = elim (Bool-cases (p x)) [
  | inl e ↦ let h' : P x × All P (keep p xs) = rw e at h in ((λ k. h'.0), unkeep-All P p xs h'.1)
  | inr e ↦ ((λ k. clash (p x) e k), unkeep-All P p xs (rw e at h))
]

pub keep_holds {ℓ} : {A : Type ℓ} (p : A → Bool) (xs : List A) → All (λ a. p a ≡ true) (keep p xs)
keep_holds p [] = tt
keep_holds p (x ∷ xs) = elim (Bool-cases (p x)) [
  | inl e ↦ rw e (e, keep_holds p xs)
  | inr e ↦ rw e (keep_holds p xs)
]

-- No two rows have the same identifier.
abbrev pub IsKeyed : List TaskRow → Type 0
IsKeyed [] = Unit
IsKeyed (t ∷ ts) = All (λ r. task_is t.task_id r ≡ false) ts × IsKeyed ts

-- Every row with the identifier is this one.
abbrev pub IsOnly : List TaskRow → TaskRow → Type 0
IsOnly ts t = All (λ r. task_is t.task_id r ≡ true → r ≡ t) ts

==_sym : (a b : ℕ) → (a == b) ≡ true → (b == a) ≡ true
==_sym a b h = ground arith

IsOnly-later :
    (t : TaskRow) (rows ts : List TaskRow)
    → All (λ r. task_is t.task_id r ≡ false) ts
    → All (IsOnly rows) ts
    → All (IsOnly (t ∷ rows)) ts
IsOnly-later t rows [] h k = tt
IsOnly-later t rows (r ∷ rs) h k = (
  ((λ e. clash (task_is t.task_id r) h.0 (==_sym t.task_id r.task_id e)), k.0),
  IsOnly-later t rows rs h.1 k.1,
)

pub keyed-All : (ts : List TaskRow) → IsKeyed ts → All (IsOnly ts) ts
keyed-All [] h = tt
keyed-All (t ∷ ts) h = (
  ((λ e. refl), All-map ts (λ r k e. clash (task_is t.task_id r) k e) h.0),
  IsOnly-later t ts ts h.0 (keyed-All ts h.1),
)

pub this_row :
    {id : ℕ} {r t : TaskRow} → task_is id r ≡ true → some r ≡ some t → (r ≡ t) × (r.task_id ≡ id)
this_row k e = ground (arith, k, e)

pub found-IsOnly :
    (id : ℕ) (t : TaskRow) (ts rows : List TaskRow)
    → All (IsOnly rows) ts
    → find_where (task_is id) ts ≡ some t
    → IsOnly rows t × (t.task_id ≡ id)
found-IsOnly id t [] rows h e = ground arith
found-IsOnly id t (r ∷ rs) rows h e = elim (Bool-cases (task_is id r)) [
  | inl k ↦
      (let (q, u) = this_row k (rw k at e) in
        (subst (IsOnly rows) q h.0, subst (λ x. x.task_id ≡ id) q u))
  | inr k ↦ found-IsOnly id t rs rows h.1 (rw k at e)
]

update-absent :
    (id : ℕ) (p : TaskRow → Bool) (f : TaskRow → TaskRow) (ts : List TaskRow)
    → ((t : TaskRow) → (f t).task_id ≡ t.task_id)
    → All (λ r. task_is id r ≡ false) ts
    → All (λ r. task_is id r ≡ false) (update_where p f ts)
update-absent id p f ts k h =
    update-All (λ r. task_is id r ≡ false) p f ts h (All-intro ts (λ r e a. rw (k r) a))

pub kept_id :
    (p : TaskRow → Bool) (f : TaskRow → TaskRow) (t : TaskRow)
    → (f t).task_id ≡ t.task_id
    → (if p t then f t else t).task_id ≡ t.task_id
kept_id p f t k = elim (Bool-cases (p t)) [ inl e ↦ rw e k | inr e ↦ rw e refl ]

pub update-IsKeyed :
    (p : TaskRow → Bool) (f : TaskRow → TaskRow) (ts : List TaskRow)
    → ((t : TaskRow) → (f t).task_id ≡ t.task_id)
    → IsKeyed ts
    → IsKeyed (update_where p f ts)
update-IsKeyed p f [] k h = tt
update-IsKeyed p f (t ∷ ts) k h = (
  subst (λ i. All (λ r. task_is i r ≡ false) (update_where p f ts)) (sym (kept_id p f t (k t)))
      (update-absent t.task_id p f ts k h.0),
  update-IsKeyed p f ts k h.1,
)

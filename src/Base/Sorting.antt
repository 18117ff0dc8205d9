-- ===== src/Base/Sorting.antt =====
-- `sorted(xs, key=key)`: equal keys keep their order.
use Prim.Native.Nat.{ℕ, suc}
use mathlib.Core.Path.{◌≡◌}
use mathlib.Core.Bool.{Bool, true, false}
use mathlib.Core.Path.{refl}
use mathlib.Core.Logic.{inl, inr}
use mathlib.Core.List.{List, [], ◌∷◌}
use native.Mathlib.Omega.{arith}
use distrib_ai.Base.Tests.{leb, if◌then◌else◌, Bool-cases}
use distrib_ai.Base.Lists.{length, keep, All}

module _ {ℓ} {A : Type ℓ} (key : A → ℕ) where
  abbrev pub place : A → List A → List A
  place x [] = x ∷ []
  place x (y ∷ ys) = if leb (key x) (key y) then x ∷ (y ∷ ys) else y ∷ place x ys

  abbrev pub sort_by : List A → List A
  sort_by [] = []
  sort_by (x ∷ xs) = place x (sort_by xs)

  length-place : (x : A) (xs : List A) → length (place x xs) ≡ suc (length xs)
  length-place x [] = omega arith
  length-place x (y ∷ ys) = ground (arith, length-place x ys)

  pub length-sort_by : (xs : List A) → length (sort_by xs) ≡ length xs
  length-sort_by [] = omega arith
  length-sort_by (x ∷ xs) = omega (arith, length-place x (sort_by xs), length-sort_by xs)

-- A sort by a comparison, as ORDER BY does.
module _ {ℓ} {A : Type ℓ} (before : A → A → Bool) where
  abbrev pub place_with : A → List A → List A
  place_with x [] = x ∷ []
  place_with x (y ∷ ys) = if before x y then x ∷ (y ∷ ys) else y ∷ place_with x ys

  abbrev pub sort_with : List A → List A
  sort_with [] = []
  sort_with (x ∷ xs) = place_with x (sort_with xs)

  abbrev pub IsAhead : A → List A → Type 0
  IsAhead x [] = Unit
  IsAhead x (y ∷ ys) = before x y ≡ true

  -- Each element before the next.
  abbrev pub IsOrdered : List A → Type 0
  IsOrdered [] = Unit
  IsOrdered (x ∷ xs) = IsAhead x xs × IsOrdered xs

  head_place :
      (y x : A) (xs : List A) → before y x ≡ true → IsAhead y xs → IsAhead y (place_with x xs)
  head_place y x [] h k = h
  head_place y x (z ∷ zs) h k = elim (Bool-cases (before x z)) [ inl e ↦ rw e h | inr e ↦ rw e k ]

  place-IsOrdered :
      ((a b : A) → before a b ≡ false → before b a ≡ true)
      → (x : A) (xs : List A) → IsOrdered xs
      → IsOrdered (place_with x xs)
  place-IsOrdered total x [] h = (tt, tt)
  place-IsOrdered total x (y ∷ ys) h = elim (Bool-cases (before x y)) [
    | inl e ↦ rw e (e, h)
    | inr e ↦ rw e (head_place y x ys (total x y e) h.0, place-IsOrdered total x ys h.1)
  ]

  pub sort-IsOrdered :
      ((a b : A) → before a b ≡ false → before b a ≡ true)
      → (xs : List A) → IsOrdered (sort_with xs)
  sort-IsOrdered total [] = tt
  sort-IsOrdered total (x ∷ xs) = place-IsOrdered total x (sort_with xs) (sort-IsOrdered total xs)

  -- Whatever is counted, the sort leaves the number of it alone.
  count-place :
      (p : A → Bool) (x : A) (xs : List A)
      → length (keep p (place_with x xs)) ≡ length (keep p (x ∷ xs))
  count-place p x [] = refl
  count-place p x (y ∷ ys) = ground (arith, count-place p x ys)

  pub count-sort :
      (p : A → Bool) (xs : List A) → length (keep p (sort_with xs)) ≡ length (keep p xs)
  count-sort p [] = refl
  count-sort p (x ∷ xs) = ground (arith, count-place p x (sort_with xs), count-sort p xs)

  pub place-All {κ} :
      (P : A → Type κ) (x : A) (xs : List A) → P x → All P xs → All P (place_with x xs)
  place-All P x [] h k = (h, tt)
  place-All P x (y ∷ ys) h k = elim (Bool-cases (before x y)) [
    | inl e ↦ rw e (h, k)
    | inr e ↦ rw e (k.0, place-All P x ys h k.1)
  ]

  pub sort-All {κ} : (P : A → Type κ) (xs : List A) → All P xs → All P (sort_with xs)
  sort-All P [] h = tt
  sort-All P (x ∷ xs) h = place-All P x (sort_with xs) h.0 (sort-All P xs h.1)

  unplace-All {κ} :
      (P : A → Type κ) (x : A) (xs : List A) → All P (place_with x xs) → P x × All P xs
  unplace-All P x [] h = (h.0, tt)
  unplace-All P x (y ∷ ys) h = elim (Bool-cases (before x y)) [
    | inl e ↦ (rw e at h)
    | inr e ↦
        let h' : P y × All P (place_with x ys) = rw e at h in
        let (k, rest) = unplace-All P x ys h'.1 in (k, (h'.0, rest))
  ]

  pub unsort-All {κ} : (P : A → Type κ) (xs : List A) → All P (sort_with xs) → All P xs
  unsort-All P [] h = tt
  unsort-All P (x ∷ xs) h =
      let (k, rest) = unplace-All P x (sort_with xs) h in (k, unsort-All P xs rest)

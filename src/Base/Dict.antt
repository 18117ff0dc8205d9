-- ===== src/Base/Dict.antt =====
-- A Python dict in insertion order, keyed by names. A name is a string of the program, which is
-- compared and tested for emptiness: it stands as a number, and 0 is the empty string.
use Prim.Native.Nat.{ℕ}
use mathlib.Core.Path.{◌≡◌, subst}
use mathlib.Core.Logic.{inl, inr}
use mathlib.Core.Bool.{Bool}
use mathlib.Core.Option.{Option, none, some}
use mathlib.Core.List.{List, [], ◌∷◌}
use native.Mathlib.Omega.{arith}
use distrib_ai.Base.Tests.{◌==◌, if◌then◌else◌, is_some, Bool-cases}

abbrev pub Dict {ℓ} : Type ℓ → Type ℓ
Dict V = List (ℕ × V)

module _ {ℓ} {V : Type ℓ} where
  -- `d[name] = value`: in place if the name is there, else at the end.
  abbrev pub insert : (name : ℕ) (value : V) → Dict V → Dict V
  insert name value [] = (name, value) ∷ []
  insert name value ((key, old) ∷ rest) =
      if name == key then (name, value) ∷ rest else (key, old) ∷ insert name value rest

  -- `d.get(name)`
  abbrev pub lookup : (name : ℕ) → Dict V → Option V
  lookup name ((key, value) ∷ rest) = if name == key then some value else lookup name rest
  lookup name [] = none

  -- `name in d`
  abbrev pub contains : (name : ℕ) → Dict V → Bool
  contains name d = is_some (lookup name d)

  abbrev pub keys : Dict V → List ℕ
  keys [] = []
  keys ((k, v) ∷ d) = k ∷ keys d

  abbrev pub values : Dict V → List V
  values [] = []
  values ((k, v) ∷ d) = v ∷ values d

  -- Every value satisfies `P`.
  abbrev pub Each {κ} : (V → Type κ) → Dict V → Type κ
  Each P [] = Unit
  Each P ((k, v) ∷ d) = P v × Each P d

  pub lookup-insert :
      (k j : ℕ) (v : V) (d : Dict V)
      → lookup j (insert k v d) ≡ (if j == k then some v else lookup j d)
  lookup-insert k j v [] = ground arith
  lookup-insert k j v (e ∷ d) = ground (arith, lookup-insert k j v d)

  pub Each-lookup {κ} :
      (P : V → Type κ) (k : ℕ) (d : Dict V) {v : V} → Each P d → lookup k d ≡ some v → P v
  Each-lookup P k [] h e = absurd (cc)
  Each-lookup P k ((j, w) ∷ d) {v = v} h e = elim (Bool-cases (k == j)) [
    | inl same ↦ let e' : some w ≡ some v = rw same at e in subst P (cc) h.0
    | inr other ↦ Each-lookup P k d h.1 (rw other at e)
  ]

  pub Each-insert {κ} :
      (P : V → Type κ) (k : ℕ) (v : V) (d : Dict V) → Each P d → P v → Each P (insert k v d)
  Each-insert P k v [] h p = (p, tt)
  Each-insert P k v ((j, w) ∷ d) h p = elim (Bool-cases (k == j)) [
    | inl same ↦ rw same (p, h.1)
    | inr other ↦ rw other (h.0, Each-insert P k v d h.1 p)
  ]

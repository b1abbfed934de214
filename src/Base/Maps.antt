-- ===== src/Base/Maps.antt =====
-- Go maps as association lists with distinct keys. A range over a map visits the entries in an order
-- that the language leaves open: here it is the order of the list, and what is proved holds for each.
use mathlib.Core.Path.{◌≡◌, refl}
use mathlib.Core.Logic.{◌↔◌}
use mathlib.Core.Bool.{Bool, true, false}
use mathlib.Core.List.{List, [], ◌∷◌}
use mathlib.Core.Option.{Option, none, some}
use native.Mathlib.Omega.{arith}
use x.Base.Tests.{if◌then◌else◌}

abbrev pub Assoc {ℓ} : Type ℓ → Type ℓ → Type ℓ
Assoc K V = List (K × V)

-- The test on keys, and that it decides equality.
module _ {ℓ} {K V : Type ℓ} (eq : K → K → Bool) where
  unfoldable pub lookup : K → Assoc K V → Option V
  lookup k [] = none
  lookup k ((j, v) ∷ m) = if eq j k then some v else lookup k m

  -- `m[k] = v`.
  unfoldable pub insert : K → V → Assoc K V → Assoc K V
  insert k v [] = (k, v) ∷ []
  insert k v ((j, w) ∷ m) = if eq j k then (k, v) ∷ m else (j, w) ∷ insert k v m

  -- `delete(m, k)`.
  unfoldable pub delete : K → Assoc K V → Assoc K V
  delete k [] = []
  delete k ((j, w) ∷ m) = if eq j k then delete k m else (j, w) ∷ delete k m

  abbrev pub Absent : K → Assoc K V → Type 0
  Absent k [] = Unit
  Absent k ((j, w) ∷ m) = (eq j k ≡ false) × Absent k m

  abbrev pub Distinct : Assoc K V → Type 0
  Distinct [] = Unit
  Distinct ((j, w) ∷ m) = Absent j m × Distinct m

module _ {ℓ} {K V : Type ℓ} (eq : K → K → Bool)
    (eq_ok : (a b : K) → (eq a b ≡ true) ↔ (a ≡ b)) where
  pub lookup-insert :
      (k j : K) (v : V) (m : Assoc K V)
      → lookup eq j (insert eq k v m) ≡ (if eq k j then some v else lookup eq j m)
  unfolding lookup insert
  lookup-insert k j v [] = refl
  lookup-insert k j v ((i, w) ∷ m) =
      ground (arith, eq_ok k j, eq_ok i k, eq_ok i j, lookup-insert k j v m)

  pub lookup-delete :
      (k j : K) (m : Assoc K V)
      → lookup eq j (delete eq k m) ≡ (if eq k j then none else lookup eq j m)
  unfolding lookup delete
  lookup-delete k j [] = ground arith
  lookup-delete k j ((i, w) ∷ m) =
      ground (arith, eq_ok k j, eq_ok i k, eq_ok i j, lookup-delete k j m)

  pub lookup-Absent : (k : K) (m : Assoc K V) → Absent eq k m → lookup eq k m ≡ none
  unfolding lookup
  lookup-Absent k [] h = refl
  lookup-Absent k ((j, w) ∷ m) h = ground (arith, lookup-Absent k m)

  insert-Absent :
      (k j : K) (v : V) (m : Assoc K V)
      → eq k j ≡ false
      → Absent eq j m
      → Absent eq j (insert eq k v m)
  unfolding insert
  insert-Absent k j v [] n h = (n, tt)
  insert-Absent k j v ((i, w) ∷ m) n h = ground (arith, insert-Absent k j v m)

  pub insert-Distinct :
      (k : K) (v : V) (m : Assoc K V) → Distinct eq m → Distinct eq (insert eq k v m)
  unfolding insert
  insert-Distinct k v [] h = (tt, tt)
  insert-Distinct k v ((i, w) ∷ m) h =
      ground (arith, insert-Distinct k v m, insert-Absent k i v m, eq_ok i k, eq_ok k i)

  delete-Absent : (k j : K) (m : Assoc K V) → Absent eq j m → Absent eq j (delete eq k m)
  unfolding delete
  delete-Absent k j [] h = tt
  delete-Absent k j ((i, w) ∷ m) h = ground (arith, delete-Absent k j m)

  pub delete-Distinct : (k : K) (m : Assoc K V) → Distinct eq m → Distinct eq (delete eq k m)
  unfolding delete
  delete-Distinct k [] h = tt
  delete-Distinct k ((i, w) ∷ m) h = ground (arith, delete-Distinct k m, delete-Absent k i m)

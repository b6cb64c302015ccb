-- ===== src/Base/Assoc.antt =====
-- Association lists for the sources' `std::map` and `std::unordered_map`.
use mathlib.Core.Path.{◌≡◌, refl, subst}
use mathlib.Core.Logic.{inl, inr}
use mathlib.Core.List.{List, [], ◌∷◌}
use mathlib.Core.Option.{Option, none, some}
use native.Mathlib.Omega.{arith}
use framekit.Base.Tests.{if◌then◌else◌, Bool-cases, some_injective}
use framekit.Base.Keys.{Comparable, ◌==◌}

module _ {ℓ κ} {K : Type ℓ} {V : Type κ} ⦃e : Comparable K⦄ where
  unfoldable pub lookup : K → List (K × V) → Option V
  lookup k [] = none
  lookup k ((j, v) ∷ m) = if j == k then some v else lookup k m

  -- `m[k] = v`.
  unfoldable pub insert : K → V → List (K × V) → List (K × V)
  insert k v [] = (k, v) ∷ []
  insert k v ((j, w) ∷ m) = if j == k then (j, v) ∷ m else (j, w) ∷ insert k v m

  -- `m.erase(k)`.
  unfoldable pub erase : K → List (K × V) → List (K × V)
  erase k [] = []
  erase k ((j, w) ∷ m) = if j == k then erase k m else (j, w) ∷ erase k m

  -- What is found after an assignment, and after an erasure.
  pub lookup-insert :
      (key other : K) (value : V) (entries : List (K × V))
      → lookup other (insert key value entries)
        ≡ (if key == other then some value else lookup other entries)
  unfolding lookup insert
  lookup-insert key other value [] = refl
  lookup-insert key other value ((first, found) ∷ entries) = ground (
    arith,
    e.is_equal_iff first other,
    e.is_equal_iff first key,
    e.is_equal_iff key other,
    lookup-insert key other value entries,
  )

  pub lookup-erase :
      (key other : K) (entries : List (K × V))
      → lookup other (erase key entries) ≡ (if key == other then none else lookup other entries)
  unfolding lookup erase
  lookup-erase key other [] = ground arith
  lookup-erase key other ((first, found) ∷ entries) = ground (
    arith,
    e.is_equal_iff first other,
    e.is_equal_iff first key,
    e.is_equal_iff key other,
    lookup-erase key other entries,
  )

-- A predicate on all the values of an association list.
abbrev pub AllValues {ℓ κ μ} : {K : Type ℓ} {V : Type κ} → (V → Type μ) → List (K × V) → Type μ
AllValues P [] = Unit
AllValues P ((k, v) ∷ m) = P v × AllValues P m

module _ {ℓ κ μ} {K : Type ℓ} {V : Type κ} ⦃e : Comparable K⦄ (P : V → Type μ) where
  pub AllValues-insert :
      (k : K) (v : V) (m : List (K × V)) → P v → AllValues P m → AllValues P (insert k v m)
  unfolding insert
  AllValues-insert k v [] h hs = (h, tt)
  AllValues-insert k v ((j, w) ∷ m) h hs = ground (arith, AllValues-insert k v m h hs.1)

  pub AllValues-erase : (k : K) (m : List (K × V)) → AllValues P m → AllValues P (erase k m)
  unfolding erase
  AllValues-erase k [] hs = tt
  AllValues-erase k ((j, w) ∷ m) hs = ground (arith, AllValues-erase k m hs.1)

  pub AllValues-lookup :
      (k : K) (v : V) (m : List (K × V)) → AllValues P m → lookup k m ≡ some v → P v
  unfolding lookup
  AllValues-lookup k v [] hs found = absurd (cc)
  AllValues-lookup k v ((j, w) ∷ m) hs found = elim (Bool-cases (j == k)) [
    | inl same ↦ subst P (some_injective (rw (same, lookup) at found)) hs.0
    | inr other ↦ AllValues-lookup k v m hs.1 (rw (other, lookup) at found)
  ]

-- ===== src/Common/Map.antt =====
-- A hash map (`AHashMap`, `DashMap`) as an association list in which a key stands once. Clients
-- have the laws; a hash map iterates in an arbitrary order, here that of `entries`.
pub mod Collect
use mathlib.Core.Path.{◌≡◌, refl, subst₂}
use mathlib.Core.Logic.{inl, inr}
use mathlib.Core.Bool.{Bool}
use mathlib.Core.Option.{Option, none, some}
use mathlib.Core.List.{List, [], ◌∷◌, map}
use native.Mathlib.Omega.{arith}
use Prim.Native.Nat.{ℕ}
use ai_ontology_com.Common.Lists.{length, All}
use ai_ontology_com.Common.Tests.{if◌then◌else◌, is_some, Bool-cases}
use ai_ontology_com.Common.Keys.{Keyed, ◌==◌, ==_iff}

pub record Map {ℓ κ} (K : Type ℓ) (V : Type κ) : Type (ℓ ⊔ κ) where
  pub entries : List (K × V)

module _ {ℓ κ} {K : Type ℓ} {V : Type κ} ⦃e : Keyed K⦄ where
  unfoldable pub find : List (K × V) → K → Option V
  find [] k = none
  find ((j, v) ∷ l) k = if j == k then some v else find l k

  pub without : List (K × V) → K → List (K × V)
  without [] k = []
  without ((j, v) ∷ l) k = let rest = without l k in if j == k then rest else (j, v) ∷ rest

  find-without :
      (l : List (K × V)) (k j : K) → find (without l k) j ≡ (if k == j then none else find l j)
  unfolding find without
  find-without [] k j = ground arith
  find-without ((i, v) ∷ l) k j =
      ground (arith, find-without l k j, ==_iff i k, ==_iff i j, ==_iff k j)

module _ {ℓ κ} {K : Type ℓ} {V : Type κ} where
  unfoldable pub empty : Map K V
  empty = record { entries = [] }

  abbrev pub keys : Map K V → List K
  keys m = map (λ e. e.0) m.entries

module _ {ℓ κ} {K : Type ℓ} {V : Type κ} ⦃e : Keyed K⦄ where
  unfoldable pub get : Map K V → K → Option V
  unfolding find
  get m k = find m.entries k

  unfoldable pub remove : Map K V → K → Map K V
  unfolding without
  remove m k = record { entries = without m.entries k }

  unfoldable pub insert : Map K V → K → V → Map K V
  unfolding without
  insert m k v = record { entries = (k, v) ∷ without m.entries k }

  abbrev pub contains_key : Map K V → K → Bool
  contains_key m k = is_some (get m k)

  pub get-remove : (m : Map K V) (k j : K) → get (remove m k) j ≡ (if k == j then none else get m j)
  unfolding get remove
  get-remove m k j = find-without m.entries k j

  pub get-insert :
      (m : Map K V) (k : K) (v : V) (j : K)
      → get (insert m k v) j ≡ (if k == j then some v else get m j)
  unfolding get insert
  get-insert m k v j = ground (arith, find-without m.entries k j)

  pub get-empty : (k : K) → get (empty {V = V}) k ≡ none
  unfolding get empty
  get-empty k = refl

pub ruleset map_laws = (get-empty, get-remove, get-insert)

module _ {ℓ κ} {K : Type ℓ} {V : Type κ} where
  -- `m.len()`
  abbrev pub len : Map K V → ℕ
  len m = length m.entries

  abbrev pub values : Map K V → List V
  values m = map (λ e. e.1) m.entries

module _ {ℓ κ μ} {K : Type ℓ} {V : Type κ} ⦃e : Keyed K⦄ where
  find_All :
      (P : K → V → Type μ) (l : List (K × V)) (k : K) (v : V)
      → All (λ x. P x.0 x.1) l
      → find l k ≡ some v
      → P k v
  unfolding find
  find_All P [] k v h q = cc
  find_All P ((j, w) ∷ l) k v (p, h) q = elim (Bool-cases (j == k)) [
    | inl t ↦ subst₂ P ((==_iff j k).0 t) (ground arith) p
    | inr t ↦ find_All P l k v h (ground arith)
  ]

  -- What holds of all entries holds of the one that is found.
  pub get_All :
      (P : K → V → Type μ) (m : Map K V) (k : K) (v : V)
      → All (λ x. P x.0 x.1) m.entries
      → get m k ≡ some v
      → P k v
  unfolding get
  get_All P m k v h q = find_All P m.entries k v h q

  All-map_values :
      (P : V → Type μ) (l : List (K × V))
      → All P (map (λ (x : K × V). x.1) l)
      → All (λ (x : K × V). P x.1) l
  All-map_values P [] h = tt
  All-map_values P (x ∷ l) (p, h) = (p, All-map_values P l h)

  -- What holds of all values holds of the one that is found.
  pub get_All_values :
      (P : V → Type μ) (m : Map K V) (k : K) (v : V) → All P (values m) → get m k ≡ some v → P v
  get_All_values P m k v h q = get_All (λ _ w. P w) m k v (All-map_values P m.entries h) q

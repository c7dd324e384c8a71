-- ===== src/Common/Map/Collect.antt =====
-- Pairs sorted by key, and a map collected from pairs (`sort_by`, `into_iter().collect()`).
use mathlib.Core.Path.{◌≡◌, refl, ◌∙◌, subst}
use mathlib.Core.Logic.{inl, inr}
use mathlib.Core.Bool.{Bool, true}
use mathlib.Core.Option.{Option, none, some}
use mathlib.Core.List.{List, [], ◌∷◌}
use native.Mathlib.Omega.{arith}
use ai_ontology_com.Common.Tests.{if◌then◌else◌, if_keeps, Bool-cases}
use ai_ontology_com.Common.Keys.{Keyed, ◌==◌, ==_iff}
use ai_ontology_com.Common.Map.{Map, find, get, insert, empty, get-insert, get-empty}

abbrev pub or_get {ℓ} : {V : Type ℓ} → Option V → Option V → Option V
or_get none other = other
or_get (some v) other = some v

abbrev pub map_some {ℓ κ} : {V : Type ℓ} {W : Type κ} → (V → W) → Option V → Option W
map_some f none = none
map_some f (some v) = some (f v)

module _ {ℓ κ} {K : Type ℓ} {V : Type κ} ⦃e : Keyed K⦄ where
  -- A key stands once.
  abbrev pub IsUnique : List (K × V) → Type κ
  IsUnique [] = Unit
  IsUnique ((k, v) ∷ l) = (find l k ≡ none) × IsUnique l

  -- A stable sort by key, for an order given as a test.
  unfoldable pub insert_by : (K → K → Bool) → K × V → List (K × V) → List (K × V)
  insert_by le (k, v) [] = (k, v) ∷ []
  insert_by le (k, v) ((j, w) ∷ l) =
      let rest = insert_by le (k, v) l in if le k j then (k, v) ∷ ((j, w) ∷ l) else (j, w) ∷ rest

  unfoldable pub sort_by : (K → K → Bool) → List (K × V) → List (K × V)
  unfolding insert_by
  sort_by le [] = []
  sort_by le (x ∷ l) = insert_by le x (sort_by le l)

  -- A later pair replaces an earlier one.
  unfoldable pub collect_into : Map K V → List (K × V) → Map K V
  collect_into m [] = m
  collect_into m ((k, v) ∷ l) = collect_into (insert m k v) l

  abbrev pub collect : List (K × V) → Map K V
  collect l = collect_into empty l

  absent : (l : List (K × V)) (k i : K) → find l k ≡ none → (k == i) ≡ true → find l i ≡ none
  absent l k i h t = subst (λ (x : K). find l x ≡ none) ((==_iff k i).0 t) h

  find-insert_by :
      (le : K → K → Bool) (k : K) (v : V) (l : List (K × V)) (i : K)
      → find l k ≡ none
      → find (insert_by le (k, v) l) i ≡ (if k == i then some v else find l i)
  unfolding insert_by find
  find-insert_by le k v [] i h = ground arith
  find-insert_by le k v ((j, w) ∷ l) i h = elim (Bool-cases (le k j)) [
    | inl t ↦ rw t refl
    | inr t ↦ elim (Bool-cases (k == i)) [
      | inl x ↦
          rw (t, x)
            (ground (
              arith,
              x,
              find-insert_by le k v l i (ground (arith, h)),
              absent ((j, w) ∷ l) k i h x,
            ))
      | inr x ↦ rw (t, x) (ground (arith, x, find-insert_by le k v l i (ground (arith, h))))
    ]
  ]

  insert_by-IsUnique :
      (le : K → K → Bool) (k : K) (v : V) (l : List (K × V))
      → find l k ≡ none
      → IsUnique l
      → IsUnique (insert_by le (k, v) l)
  unfolding insert_by find
  insert_by-IsUnique le k v [] h u = (refl, tt)
  insert_by-IsUnique le k v ((j, w) ∷ l) h (a, u) =
      if_keeps IsUnique (le k j) ((k, v) ∷ ((j, w) ∷ l)) ((j, w) ∷ insert_by le (k, v) l)
        (λ _. (h, (a, u)))
        (λ _.
          let apart : find l k ≡ none = ground (arith, h) in
          (
            ground (arith, h, a, find-insert_by le k v l j apart, ==_iff j k, ==_iff k j),
            insert_by-IsUnique le k v l apart u,
          ))

  pub sort_by_lem :
      (le : K → K → Bool) (l : List (K × V))
      → IsUnique l
      → IsUnique (sort_by le l) × ((i : K) → find (sort_by le l) i ≡ find l i)
  unfolding sort_by find
  sort_by_lem le [] u = (tt, λ i. refl)
  sort_by_lem le ((k, v) ∷ l) (a, u) =
      let (s, same) = sort_by_lem le l u in
      (
        insert_by-IsUnique le k v (sort_by le l) (same k ∙ a) s,
        λ i. ground (arith, find-insert_by le k v (sort_by le l) i (same k ∙ a), same i),
      )

  get-collect_into :
      (m : Map K V) (l : List (K × V)) (i : K)
      → IsUnique l
      → get (collect_into m l) i ≡ or_get (find l i) (get m i)
  unfolding collect_into find
  get-collect_into m [] i u = refl
  get-collect_into m ((k, v) ∷ l) i (a, u) = elim (Bool-cases (k == i)) [
    | inl t ↦
        rw t (get-collect_into (insert m k v) l i u ∙ rw (absent l k i a t, get-insert m k v i, t))
    | inr t ↦ rw t (get-collect_into (insert m k v) l i u ∙ rw (get-insert m k v i, t))
  ]

  -- Pairs with distinct keys, collected, are found by their keys.
  pub get-collect : (l : List (K × V)) (i : K) → IsUnique l → get (collect l) i ≡ find l i
  get-collect l i u =
      get-collect_into empty l i u ∙ rw (get-empty {V = V} i) (or_get_none (find l i))
    where
      or_get_none : (o : Option V) → or_get o none ≡ o
      or_get_none none = refl
      or_get_none (some v) = refl

module _ {ℓ κ μ} {K : Type ℓ} {V : Type κ} {W : Type μ} ⦃e : Keyed K⦄ where
  abbrev pub map_values : (V → W) → List (K × V) → List (K × W)
  map_values f [] = []
  map_values f ((k, v) ∷ l) = (k, f v) ∷ map_values f l

  pub find-map_values :
      (f : V → W) (l : List (K × V)) (k : K) → find (map_values f l) k ≡ map_some f (find l k)
  unfolding find
  find-map_values f [] k = refl
  find-map_values f ((j, v) ∷ l) k = ground (arith, find-map_values f l k)

  pub map_values-IsUnique : (f : V → W) (l : List (K × V)) → IsUnique l → IsUnique (map_values f l)
  map_values-IsUnique f [] u = tt
  map_values-IsUnique f ((k, v) ∷ l) (a, u) =
      (ground (arith, find-map_values f l k, a), map_values-IsUnique f l u)

-- ===== src/Graph/Traversal/Closure.antt =====
-- crates/graph/src/traversal.rs, `closure`: it ends, and returns what can be reached.
use ai_ontology_com.Common.{
  ℕ, zero, suc, ◌+◌, ◌≤◌, ◌<◌, ◌≡◌, ◌↔◌, refl, ap, inl, inr, String, true, false, List, [], ◌∷◌,
  some, arith, ◌==◌, nat_eq, string_eq, ==_iff, leb, if◌then◌else◌, contains, Bool-cases, if_keeps,
  length, length-append,
}
use ai_ontology_com.Common.Map
use ai_ontology_com.Common.Map.{Map}
use ai_ontology_com.Common.Set
use ai_ontology_com.Common.Set.{Set}
use ai_ontology_com.Common.Sort.{keys_of}
use ai_ontology_com.Common.Result.{ok}
use ai_ontology_com.Graph.Model.{Concept, Relation}
use ai_ontology_com.Graph.State.{OntologyGraph, get_concept}
use ai_ontology_com.Graph.Traversal.{
  Walker, visit, visit_all, walk, seeded, neighbours, closure_fuel, closure,
}
use ai_ontology_com.Graph.Traversal.Search.{Walk, walk-reaches}
use ai_ontology_com.Graph.Traversal.Ends.{ends, length-keys_of, neighbours-ends}

-- How many of the nodes were not visited yet.
abbrev fresh : Set ℕ → List ℕ → ℕ
fresh visited [] = 0
fresh visited (n ∷ ns) = let rest = fresh visited ns in if Set.mem visited n then rest else suc rest

fresh-le : (visited : Set ℕ) (ns : List ℕ) → fresh visited ns ≤ length ns
fresh-le visited [] = ground arith
fresh-le visited (n ∷ ns) = ground (arith, fresh-le visited ns)

fresh-insert :
    (visited : Set ℕ) (ns : List ℕ) (v : ℕ) → fresh (Set.insert visited v) ns ≤ fresh visited ns
fresh-insert visited [] v = ground arith
fresh-insert visited (n ∷ ns) v =
    ground (arith, fresh-insert visited ns v, Set.mem-insert visited v n)

fresh-insert_lt :
    (visited : Set ℕ) (ns : List ℕ) (v : ℕ)
    → Set.mem visited v ≡ false
    → contains ns v ≡ true
    → fresh (Set.insert visited v) ns < fresh visited ns
fresh-insert_lt visited [] v h c = absurd (ground (arith, c))
fresh-insert_lt visited (n ∷ ns) v h c = elim (Bool-cases (n == v)) [
  | inl e ↦
      let same : n ≡ v = (==_iff n v).0 e in
      ground (
        arith,
        ap (Set.mem visited) same,
        h,
        fresh-insert visited ns v,
        Set.mem-insert visited v n,
        ==_iff v n,
        same,
      )
  | inr e ↦
      ground
        (arith, fresh-insert_lt visited ns v h (ground (arith, c, e)), Set.mem-insert visited v n)
]

module _ (next : ℕ → List ℕ) (max_depth : ℕ) (nodes : List ℕ) where
  -- What is left to do: the queue, and the nodes that may still join it.
  abbrev left : Walker → ℕ
  left w = length w.queue + fresh w.visited nodes

  visit-left :
      (depth v : ℕ) (w : Walker) → contains nodes v ≡ true → left (visit depth w v) ≤ left w
  unfolding visit
  visit-left depth v w c = elim (Bool-cases (Set.mem w.visited v)) [
    | inl known ↦ rw known (ground arith)
    | inr new ↦ rw new (
        omega (
          arith,
          length-append w.queue ((v, depth + 1) ∷ []),
          fresh-insert_lt w.visited nodes v new c,
        ))
  ]

  visit_all-left :
      (depth : ℕ) (vs : List ℕ) (w : Walker)
      → ((v : ℕ) → contains vs v ≡ true → contains nodes v ≡ true)
      → left (visit_all depth w vs) ≤ left w
  unfolding visit_all
  visit_all-left depth [] w c = ground arith
  visit_all-left depth (v ∷ vs) w c = omega (
    arith,
    visit-left depth v w (c v (ground (arith, ==_iff v v))),
    visit_all-left depth vs (visit depth w v) (λ u h. c u (ground (arith, h))),
  )

  walk-ends :
      (fuel : ℕ) (visited : Set ℕ) (queue : List (ℕ × ℕ)) (so_far : List ℕ)
      → ((u v : ℕ) → contains (next u) v ≡ true → contains nodes v ≡ true)
      → length queue + fresh visited nodes ≤ fuel
      → (out : List ℕ) × (walk next max_depth fuel
            (record { visited = visited; queue = queue; out = so_far })
          ≡ some out)
  unfolding walk
  walk-ends zero visited [] so_far c h = (so_far, refl)
  walk-ends zero visited (x ∷ q) so_far c h = absurd (omega (arith, h))
  walk-ends (suc fuel) visited [] so_far c h = (so_far, refl)
  walk-ends (suc fuel) visited ((node, depth) ∷ q) so_far c h =
      let w : Walker = record { visited = visited; queue = q; out = so_far } in
      let w' : Walker = if leb max_depth depth then w else visit_all depth w (next node) in
      let less : left w' ≤ left w =
        if_keeps (λ (x : Walker). left x ≤ left w) (leb max_depth depth) w
          (visit_all depth w (next node)) (λ _. ground arith)
          (λ _. visit_all-left depth (next node) w (c node)) in
      walk-ends fuel w'.visited w'.queue w'.out c (omega (arith, less, h))

-- From a concept that can be read, `closure` ends within its fuel, and the concepts it returns are,
-- with the seed, exactly those at the end of a walk of at most `max_depth` steps, each to one of the
-- `neighbours`: the far ends of the typed edges that leave or enter a concept, virtual ones included.
pub closure-reaches :
    (g : OntologyGraph) (seed : ℕ) (rel_type : String) (max_depth : ℕ) (c : Concept)
    → get_concept g seed ≡ ok c
    → (out : List ℕ) × (closure g seed rel_type max_depth ≡ ok (some out))
      × ((n : ℕ)
          → (contains (seed ∷ out) n ≡ true)
            ↔ ((k : ℕ) × (k ≤ max_depth) × Walk (neighbours g rel_type) seed k n))
unfolding closure
closure-reaches g seed rel_type max_depth c found =
    let rs = Map.values g.relations in
    let start = seeded seed in
    let (out, ended) =
      walk-ends (neighbours g rel_type) max_depth (ends g) (closure_fuel g) start.visited
        start.queue [] (neighbours-ends g rel_type)
        (omega (
          arith,
          fresh-le start.visited (ends g),
          length-append (keys_of (λ (r : Relation). r.source) rs)
              (keys_of (λ (r : Relation). r.target) rs),
          length-keys_of (λ (r : Relation). r.source) rs,
          length-keys_of (λ (r : Relation). r.target) rs,
        )) in
    (
      out,
      rw found (ap (λ o. ok o) ended),
      λ n. walk-reaches (neighbours g rel_type) max_depth seed (closure_fuel g) out n ended,
    )

-- ===== src/Graph/Traversal.antt =====
-- crates/graph/src/traversal.rs, `closure`; crates/graph/src/graph.rs, `outgoing_typed` and
-- `incoming_typed`.
pub mod Search
pub mod Closure
pub mod History
pub mod Ends
mod Examples
use ai_ontology_com.Common.{
  ℕ, zero, suc, ◌+◌, String, Bool, true, false, List, [], ◌∷◌, ◌++◌, Option, none, some, ◌==◌,
  nat_eq, string_eq, leb, if◌then◌else◌, length,
}
use ai_ontology_com.Common.Map
use ai_ontology_com.Common.Map.{Map}
use ai_ontology_com.Common.Set
use ai_ontology_com.Common.Set.{Set}
use ai_ontology_com.Common.Sort.{keys_of}
use ai_ontology_com.Common.Result.{Result, ok, err, ◌>>=◌}
use ai_ontology_com.Graph.Model.{Relation, GraphResult}
use ai_ontology_com.Graph.Relations.{typed_at}
use ai_ontology_com.Graph.State.{OntologyGraph, AdjList, get_concept}

-- The relations that are there.
unfoldable pub existing : OntologyGraph → List ℕ → List Relation
existing g [] = []
existing g (rid ∷ rids) =
    let rest = existing g rids in elim (Map.get g.relations rid) [ none ↦ rest | some r ↦ r ∷ rest ]

-- An edge seen from its other end, under the type of which it is the inverse.
abbrev pub turned : String → Relation → Relation
turned t r = record r { relation_type = t; source = r.target; target = r.source }

unfoldable pub virtual_edges :
    OntologyGraph → Map ℕ (Map String AdjList) → ℕ → String → List Relation
unfolding existing
virtual_edges g lists id t = elim (Map.get g.ontology.relation_types t) [
  | none ↦ []
  | some rt ↦ elim rt.inverse_of [
    | none ↦ []
    | some real ↦ keys_of (turned t) (existing g (typed_at lists id real))
  ]
]

unfoldable pub outgoing_typed : OntologyGraph → ℕ → List String → List Relation
unfolding virtual_edges
outgoing_typed g id [] = []
outgoing_typed g id (t ∷ types) =
    existing g (typed_at g.out_edges_typed id t)
    ++ (virtual_edges g g.in_edges_typed id t ++ outgoing_typed g id types)

unfoldable pub incoming_typed : OntologyGraph → ℕ → List String → List Relation
unfolding virtual_edges
incoming_typed g id [] = []
incoming_typed g id (t ∷ types) =
    existing g (typed_at g.in_edges_typed id t)
    ++ (virtual_edges g g.out_edges_typed id t ++ incoming_typed g id types)

-- The far ends of the edges at a concept, in the order in which `closure` visits them.
unfoldable pub neighbours : OntologyGraph → String → ℕ → List ℕ
unfolding outgoing_typed incoming_typed
neighbours g rel_type node =
    keys_of (λ (r : Relation). r.target) (outgoing_typed g node (rel_type ∷ []))
    ++ keys_of (λ (r : Relation). r.source) (incoming_typed g node (rel_type ∷ []))

pub record Walker : Type 0 where
  pub visited : Set ℕ
  -- with their depths
  pub queue : List (ℕ × ℕ)
  pub out : List ℕ

unfoldable pub visit : ℕ → Walker → ℕ → Walker
visit depth w nxt = if Set.mem w.visited nxt then w else record {
  visited = Set.insert w.visited nxt;
  queue = w.queue ++ ((nxt, depth + 1) ∷ []);
  out = w.out ++ (nxt ∷ []);
}

unfoldable pub visit_all : ℕ → Walker → List ℕ → Walker
unfolding visit
visit_all depth w [] = w
visit_all depth w (nxt ∷ rest) = visit_all depth (visit depth w nxt) rest

-- `while let Some((node, depth)) = queue.pop_front()`; `none` when the fuel ends first.
module _ (next : ℕ → List ℕ) (max_depth : ℕ) where
  unfoldable pub walk : ℕ → Walker → Option (List ℕ)
  walk zero w = elim w.queue [ [] ↦ some w.out | _ ∷ _ ↦ none ]
  walk (suc fuel) w = elim w.queue [
    | [] ↦ some w.out
    | (node, depth) ∷ queue ↦
        let popped : Walker = record w { queue = queue } in
        walk fuel (if leb max_depth depth then popped else visit_all depth popped (next node))
  ]

abbrev pub seeded : ℕ → Walker
seeded seed = record { visited = Set.insert Set.empty seed; queue = (seed, 0) ∷ []; out = [] }

-- Two ends for each relation, and the seed: a concept is queued once.
abbrev pub closure_fuel : OntologyGraph → ℕ
closure_fuel g = suc (length (Map.values g.relations) + length (Map.values g.relations))

-- `some` for a result of the program; the inner list are the concepts reached, in order.
unfoldable pub closure : OntologyGraph → ℕ → String → ℕ → GraphResult (Option (List ℕ))
unfolding neighbours walk
closure g seed rel_type max_depth = do
  _ ← get_concept g seed
  ok (walk (neighbours g rel_type) max_depth (closure_fuel g) (seeded seed))

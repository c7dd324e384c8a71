-- ===== src/Graph/Removal.antt =====
-- crates/graph/src/graph.rs: removing relations and concepts.
pub mod Cascade
pub mod One
use ai_ontology_com.Common.{
  ℕ, String, Bool, true, false, List, [], ◌∷◌, ◌++◌, Option, none, some, ◌==◌, Keyed, nat_eq,
  string_eq, pair_eq, ltb, if◌then◌else◌,
}
use ai_ontology_com.Common.Map
use ai_ontology_com.Common.Map.{Map}
use ai_ontology_com.Common.Set
use ai_ontology_com.Common.Set.{Set}
use ai_ontology_com.Common.Result.{Result, ok, err, ◌>>=◌, ok_or}
use ai_ontology_com.Graph.Model.{Relation, GraphResult, unknown_concept}
use ai_ontology_com.Graph.State.{
  OntologyGraph, Slot, AdjList, derived, bump_concepts_gen, bump_relations_gen, listed,
}
use ai_ontology_com.Graph.Relations.{get_relation}
use ai_ontology_com.Graph.Concepts.Apply.{unlist_concept}

-- `if let Some(mut adj) = edges.get_mut(&key) { adj.retain(|x| *x != id) }`
unfoldable pub retain {ℓ} : {K : Type ℓ} ⦃e : Keyed K⦄ → Map K AdjList → K → ℕ → Map K AdjList
retain edges key id = elim (Map.get edges key) [
  | none ↦ edges
  | some adj ↦ Map.insert edges key (Set.without adj id)
]

unfoldable pub retain_typed :
    Map ℕ (Map String AdjList) → ℕ → String → ℕ → Map ℕ (Map String AdjList)
unfolding retain
retain_typed edges node rt_name id = elim (Map.get edges node) [
  | none ↦ edges
  | some by_type ↦ Map.insert edges node (retain by_type rt_name id)
]

unfoldable pub unsort : OntologyGraph → ℕ → Set ℕ
unsort g id = if derived g then Set.remove g.relations_sorted id else g.relations_sorted

-- A relation is taken out of the table and of the lists of a node it leaves and one it enters.
unfoldable pub unlink : OntologyGraph → ℕ → String → ℕ → ℕ → OntologyGraph
unfolding retain retain_typed unsort
unlink g id rt_name leaving entering = record g {
  relations = Map.remove g.relations id;
  relations_sorted = unsort g id;
  out_edges = retain g.out_edges leaving id;
  in_edges = retain g.in_edges entering id;
  out_edges_typed = retain_typed g.out_edges_typed leaving rt_name id;
  in_edges_typed = retain_typed g.in_edges_typed entering rt_name id;
}

unfoldable pub remove_relation : OntologyGraph → ℕ → GraphResult OntologyGraph
remove_relation g id = do
  rel ← get_relation g id
  ok (bump_relations_gen (unlink g id rel.relation_type rel.source rel.target))

-- `sort(); dedup()`: in increasing order, each once.
unfoldable pub insert_once : ℕ → List ℕ → List ℕ
insert_once x [] = x ∷ []
insert_once x (y ∷ ys) =
    let rest = insert_once x ys in
    if x == y then y ∷ ys else if ltb x y then x ∷ (y ∷ ys) else y ∷ rest

unfoldable pub sort_dedup : List ℕ → List ℕ
unfolding insert_once
sort_dedup [] = []
sort_dedup (x ∷ xs) = insert_once x (sort_dedup xs)

unfoldable pub edge_ids : OntologyGraph → ℕ → List ℕ
unfolding sort_dedup
edge_ids g id = sort_dedup (listed (Map.get g.out_edges id) ++ listed (Map.get g.in_edges id))

unfoldable pub incident_relation_ids : OntologyGraph → ℕ → GraphResult (List ℕ)
incident_relation_ids g id =
    if Map.contains_key g.concepts id then ok (edge_ids g id) else err (unknown_concept id)

-- The loop of the cascade. The lists of the surviving end lose the relation.
unfoldable pub scrub : OntologyGraph → ℕ → ℕ → OntologyGraph
scrub g id rid = elim (Map.get g.relations rid) [
  | none ↦ g
  | some rel ↦
      let other = if rel.source == id then rel.target else rel.source in
      unlink g rid rel.relation_type other other
]

unfoldable pub scrub_all : OntologyGraph → ℕ → List ℕ → OntologyGraph
unfolding scrub
scrub_all g id [] = g
scrub_all g id (rid ∷ rest) = scrub_all (scrub g id rid) id rest

-- The concept's own lists go as a whole.
unfoldable pub drop_lists : OntologyGraph → ℕ → OntologyGraph
drop_lists g id = record g {
  out_edges = Map.remove g.out_edges id;
  in_edges = Map.remove g.in_edges id;
  out_edges_typed = Map.remove g.out_edges_typed id;
  in_edges_typed = Map.remove g.in_edges_typed id;
}

module _ (to_lowercase : String → String) where
  unfoldable pub forget_concept : OntologyGraph → ℕ → Slot → OntologyGraph
  forget_concept g id slot =
      let g1 : OntologyGraph = record g {
        concepts = Map.remove g.concepts id;
        name_index = Map.remove g.name_index (slot.concept_type, to_lowercase slot.name);
      } in
      if derived g1 then unlist_concept g1 slot.concept_type slot.name id else g1

  unfoldable pub remove_concept : OntologyGraph → ℕ → GraphResult (List ℕ × OntologyGraph)
  unfolding edge_ids
  remove_concept g id = do
    slot ← ok_or (Map.get g.concepts id) (unknown_concept id)
    let removed = edge_ids g id
    ok (
      removed,
      bump_relations_gen
          (bump_concepts_gen (scrub_all (drop_lists (forget_concept g id slot) id) id removed)),
    )

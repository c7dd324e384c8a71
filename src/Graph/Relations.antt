-- ===== src/Graph/Relations.antt =====
-- crates/graph/src/graph.rs: relations and the adjacency lists of their ends.
pub mod Adjacency
pub mod Inverse
pub mod WriteAhead
pub mod Exact
pub mod Update
use ai_ontology_com.Common.{
  ℕ, String, Bool, true, false, not, ◌&&◌, List, [], ◌∷◌, ◌++◌, Option, none, some, ◌==◌, Keyed,
  nat_eq, string_eq, if◌then◌else◌,
}
use ai_ontology_com.Common.Map
use ai_ontology_com.Common.Map.{Map}
use ai_ontology_com.Common.Set
use ai_ontology_com.Common.Result.{Result, ok, err, ◌>>=◌, ok_or}
use ai_ontology_com.Graph.Ids
use ai_ontology_com.Graph.Ids.{fits_storage}
use ai_ontology_com.Graph.Model.{
  Relation, RelationPatch, GraphResult, unknown_concept, unknown_relation, cardinality_violation,
  concept_id_out_of_range, not_prepared, relation_exists,
}
use ai_ontology_com.Graph.Schema.{limits, relation_type, validate_edge}
use ai_ontology_com.Graph.State.{OntologyGraph, AdjList, derived, bump_relations_gen, listed}

-- `edges.entry(key).or_default().push(id)`
unfoldable pub push {ℓ} : {K : Type ℓ} ⦃e : Keyed K⦄ → Map K AdjList → K → ℕ → Map K AdjList
push edges key id = Map.insert edges key (listed (Map.get edges key) ++ (id ∷ []))

abbrev pub typed_of : Option (Map String AdjList) → Map String AdjList
typed_of none = Map.empty
typed_of (some by_type) = by_type

unfoldable pub push_typed : Map ℕ (Map String AdjList) → ℕ → String → ℕ → Map ℕ (Map String AdjList)
unfolding push
push_typed edges node rt_name id =
    Map.insert edges node (push (typed_of (Map.get edges node)) rt_name id)

-- One relation is entered in the four lists and in the table.
unfoldable pub link : OntologyGraph → Relation → OntologyGraph
unfolding push push_typed
link g rel = record g {
  out_edges = push g.out_edges rel.source rel.id;
  in_edges = push g.in_edges rel.target rel.id;
  out_edges_typed = push_typed g.out_edges_typed rel.source rel.relation_type rel.id;
  in_edges_typed = push_typed g.in_edges_typed rel.target rel.relation_type rel.id;
  relations = Map.insert g.relations rel.id rel;
  relations_sorted =
      (if derived g then Set.insert g.relations_sorted rel.id else g.relations_sorted);
}

abbrev pub at_end : OntologyGraph → ℕ → GraphResult String
at_end g id = do slot ← ok_or (Map.get g.concepts id) (unknown_concept id); ok slot.concept_type

unfoldable pub check_end : ℕ → GraphResult (Unit {0})
check_end id = if fits_storage id then ok tt else err (concept_id_out_of_range id)

abbrev pub is_empty : AdjList → Bool
is_empty [] = true
is_empty (_ ∷ _) = false

-- A list of that type that is there and not empty
abbrev pub typed_at : Map ℕ (Map String AdjList) → ℕ → String → AdjList
typed_at edges node rt_name = listed (Map.get (typed_of (Map.get edges node)) rt_name)

unfoldable pub check_limit : Bool → Map ℕ (Map String AdjList) → ℕ → String → GraphResult (Unit {0})
check_limit limited edges node rt_name =
    if limited && not (is_empty (typed_at edges node rt_name))
    then err (cardinality_violation rt_name node)
    else ok tt

unfoldable pub check_relation : OntologyGraph → Relation → GraphResult (Unit {0})
check_relation g rel = do
  src ← at_end g rel.source
  tgt ← at_end g rel.target
  _ ← validate_edge g.ontology rel.relation_type src tgt
  _ ← check_end rel.source
  _ ← check_end rel.target
  rt ← relation_type g.ontology rel.relation_type
  _ ← check_limit (limits rt).0 g.out_edges_typed rel.source rel.relation_type
  check_limit (limits rt).1 g.in_edges_typed rel.target rel.relation_type

-- An id that is taken is reassigned.
unfoldable pub assign_id : OntologyGraph → Relation → Relation × OntologyGraph
assign_id g rel =
    let (id, ids') = Ids.next_relation g.ids in
    if rel.id == 0
    then (record rel { id = id }, record g { ids = ids' })
    else if Map.contains_key g.relations rel.id
    then (record rel { id = id }, record g { ids = ids' })
    else (rel, record g { ids = Ids.observe_relation g.ids rel.id })

unfoldable pub prepare_relation : OntologyGraph → Relation → GraphResult (Relation × OntologyGraph)
prepare_relation g rel = do _ ← check_relation g rel; ok (assign_id g rel)

abbrev pub inverse : Relation → ℕ → Relation
inverse rel id = record rel { id = id; source = rel.target; target = rel.source }

-- The materialised inverse takes the next id.
unfoldable pub link_inverse : OntologyGraph → Relation → OntologyGraph
link_inverse g rel =
    let (inv_id, ids') = Ids.next_relation g.ids in
    link (record g { ids = ids' }) (inverse rel inv_id)

unfoldable pub place_relation : OntologyGraph → Relation → Bool → OntologyGraph
place_relation g rel symmetric =
    let g1 = link (record g { ids = Ids.observe_relation g.ids rel.id }) rel in
    bump_relations_gen
      (if symmetric && not (rel.source == rel.target) then link_inverse g1 rel else g1)

unfoldable pub apply_prepared_relation : OntologyGraph → Relation → GraphResult (ℕ × OntologyGraph)
apply_prepared_relation g rel = if rel.id == 0 then err (not_prepared "relation") else do
  rt ← relation_type g.ontology rel.relation_type
  ok (rel.id, place_relation g rel rt.symmetric)

unfoldable pub add_relation : OntologyGraph → Relation → GraphResult (ℕ × OntologyGraph)
add_relation g rel = do
  prepared ← prepare_relation g rel
  apply_prepared_relation prepared.1 prepared.0

unfoldable pub insert_relation_exact : OntologyGraph → Relation → GraphResult (ℕ × OntologyGraph)
insert_relation_exact g rel =
    if rel.id == 0
    then err (not_prepared "relation")
    else if not (Map.contains_key g.concepts rel.source)
    then err (unknown_concept rel.source)
    else if not (Map.contains_key g.concepts rel.target)
    then err (unknown_concept rel.target)
    else if Map.contains_key g.relations rel.id
    then err (relation_exists rel.id)
    else ok (
      rel.id,
      bump_relations_gen (link (record g { ids = Ids.observe_relation g.ids rel.id }) rel),
    )

unfoldable pub get_relation : OntologyGraph → ℕ → GraphResult Relation
get_relation g id = ok_or (Map.get g.relations id) (unknown_relation id)

abbrev pub targets : Option Relation → ℕ → Bool
targets none target = false
targets (some r) target = r.target == target

-- `.find(|rid| …)`
unfoldable pub find_target : OntologyGraph → AdjList → ℕ → Option ℕ
find_target g [] target = none
find_target g (rid ∷ rest) target =
    if targets (Map.get g.relations rid) target then some rid else find_target g rest target

unfoldable pub relation_between : OntologyGraph → ℕ → ℕ → String → Option ℕ
unfolding find_target
relation_between g source target rt_name =
    find_target g (typed_at g.out_edges_typed source rt_name) target

abbrev pub or_kept {ℓ} : {A : Type ℓ} → Option A → A → A
or_kept none kept = kept
or_kept (some a) kept = a

unfoldable pub preview_relation_update : OntologyGraph → ℕ → RelationPatch → GraphResult Relation
preview_relation_update g id patch = do
  rel ← get_relation g id
  ok (record rel {
    weight = or_kept patch.weight rel.weight;
    properties = or_kept patch.properties rel.properties;
  })

-- The other copy follows, unless it is this relation or is not there.
unfoldable pub follow : OntologyGraph → Relation → Option ℕ → OntologyGraph
follow g snapshot none = g
follow g snapshot (some rid) = elim (Map.get g.relations rid) [
  | none ↦ g
  | some inv ↦ if rid == snapshot.id then g else record g {
    relations =
        Map.insert g.relations rid
          (record inv { weight = snapshot.weight; properties = snapshot.properties });
  }
]

abbrev pub is_symmetric : OntologyGraph → String → Bool
is_symmetric g rt_name = elim (Map.get g.ontology.relation_types rt_name) [
  | none ↦ false
  | some rt ↦ rt.symmetric
]

unfoldable pub apply_relation_update :
    OntologyGraph → Relation → GraphResult (Relation × OntologyGraph)
apply_relation_update g updated = do
  entry ← get_relation g updated.id
  let snapshot : Relation = record entry {
    weight = updated.weight;
    properties = updated.properties;
  }
  let g1 : OntologyGraph = record g { relations = Map.insert g.relations updated.id snapshot }
  ok (
    snapshot,
    bump_relations_gen (
        if is_symmetric g snapshot.relation_type && not (snapshot.source == snapshot.target)
        then follow g1 snapshot
            (relation_between g1 snapshot.target snapshot.source snapshot.relation_type)
        else g1),
  )

unfoldable pub update_relation :
    OntologyGraph → ℕ → RelationPatch → GraphResult (Relation × OntologyGraph)
update_relation g id patch = do
  updated ← preview_relation_update g id patch
  apply_relation_update g updated

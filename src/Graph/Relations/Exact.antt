-- ===== src/Graph/Relations/Exact.antt =====
-- crates/graph/src/graph.rs: `insert_relation_exact`, the path by which a compacted log is replayed.
use ai_ontology_com.Common.{ℕ, ◌-◌, ◌<◌, ◌≡◌, true, none, some, arith, ◌==◌, nat_eq, if◌then◌else◌}
use ai_ontology_com.Common.Map
use ai_ontology_com.Common.Result.{ok}
use ai_ontology_com.Graph.Ids.{u64_mod, observe_relation, observe, observe_least}
use ai_ontology_com.Graph.Model.{Relation}
use ai_ontology_com.Graph.State.{OntologyGraph, bump_relations_gen}
use ai_ontology_com.Graph.Relations.{link, insert_relation_exact}
use ai_ontology_com.Graph.Relations.Inverse.{IsSound, link-IsSound, bump-IsSound, with_ids}

linked : OntologyGraph → Relation → OntologyGraph
linked g rel = bump_relations_gen (link (record g { ids = observe_relation g.ids rel.id }) rel)

linked-IsSound :
    (g : OntologyGraph) (rel : Relation)
    → IsSound g
    → Map.get g.relations rel.id ≡ none
    → rel.id < u64_mod - 1
    → IsSound (linked g rel)
unfolding linked observe_relation with_ids
linked-IsSound g rel s free small =
    let o = observe_least g.ids.relations rel.id (u64_mod - 1) small in
    bump-IsSound (link (with_ids g (observe g.ids.relations rel.id)) rel)
      (link-IsSound g rel (observe g.ids.relations rel.id) s free o.0 o.1)

linked-get :
    (g : OntologyGraph) (rel : Relation) (i : ℕ)
    → Map.get (linked g rel).relations i ≡ (if rel.id == i then some rel else Map.get g.relations i)
unfolding linked link bump_relations_gen
linked-get g rel i = ground (arith, Map.get-insert g.relations rel.id rel i)

-- In a graph whose lists agree with the table and whose allocator is past every id in use: a
-- relation with an id that is set, free and not the largest number, between concepts that are
-- there, is inserted under its own id. The table then has it and is otherwise as before, and the
-- graph is again such a graph.
pub insert_relation_exact-IsSound :
    (g : OntologyGraph) (rel : Relation)
    → IsSound g
    → 0 < rel.id
    → rel.id < u64_mod - 1
    → Map.contains_key g.concepts rel.source ≡ true
    → Map.contains_key g.concepts rel.target ≡ true
    → Map.get g.relations rel.id ≡ none
    → (g' : OntologyGraph) × (insert_relation_exact g rel ≡ ok (rel.id, g'))
      × IsSound g'
      × ((i : ℕ)
          → Map.get g'.relations i ≡ (if rel.id == i then some rel else Map.get g.relations i))
insert_relation_exact-IsSound g rel s set small from to free = (
  linked g rel,
  unfold insert_relation_exact linked in ground arith,
  linked-IsSound g rel s free small,
  linked-get g rel,
)

-- ===== src/Graph/Traversal/Examples.antt =====
-- crates/graph/src/traversal.rs: the closure of a part-of chain.
use ai_ontology_com.Common.{
  ℕ, ◌≤◌, ◌≡◌, ◌↔◌, refl, String, true, List, [], ◌∷◌, none, some, nat_eq, contains,
}
use ai_ontology_com.Common.Map
use ai_ontology_com.Common.Set
use ai_ontology_com.Common.Result.{ok}
use ai_ontology_com.Graph.Model.{Concept, Relation}
use ai_ontology_com.Graph.Schema
use ai_ontology_com.Graph.State
use ai_ontology_com.Graph.State.{OntologyGraph, Slot, get_concept}
use ai_ontology_com.Graph.Traversal.{
  neighbours, closure, walk, outgoing_typed, incoming_typed, existing, virtual_edges, visit_all,
  visit,
}
use ai_ontology_com.Graph.Traversal.Search.{Walk}
use ai_ontology_com.Graph.Traversal.Closure.{closure-reaches}

abbrev named : String → Slot
named name = record {
  concept_type = "Part";
  name = name;
  loc = none;
  payload = some (record { description = ""; properties = Map.empty });
}

abbrev part_of : ℕ → ℕ → ℕ → Relation
part_of id source target = record {
  id = id;
  relation_type = "partOf";
  source = source;
  target = target;
  weight = 0;
  properties = Map.empty;
}

-- A screw of a wheel of a car.
abbrev car : OntologyGraph
car = record (State.new Schema.new) {
  concepts = record {
    entries = (1, named "screw") ∷ ((2, named "wheel") ∷ ((3, named "car") ∷ []));
  };
  relations = record { entries = (1, part_of 1 1 2) ∷ ((2, part_of 2 2 3) ∷ []) };
  out_edges_typed = record {
    entries =
        (1, record { entries = ("partOf", 1 ∷ []) ∷ [] })
        ∷ ((2, record { entries = ("partOf", 2 ∷ []) ∷ [] }) ∷ []);
  };
  in_edges_typed = record {
    entries =
        (2, record { entries = ("partOf", 1 ∷ []) ∷ [] })
        ∷ ((3, record { entries = ("partOf", 2 ∷ []) ∷ [] }) ∷ []);
  };
}

abbrev screw : Concept
screw = record {
  id = 1;
  concept_type = "Part";
  name = "screw";
  description = "";
  properties = Map.empty;
}

screw_found : get_concept car 1 ≡ ok screw
unfolding get_concept Map.get Map.find
screw_found = refl

-- Two steps from the screw lies the car.
screw_part_of : closure car 1 "partOf" 2 ≡ ok (some (2 ∷ (3 ∷ [])))
unfolding closure walk neighbours outgoing_typed incoming_typed existing virtual_edges visit_all
    visit get_concept Map.get Map.find Map.empty Set.mem Set.insert Set.empty State.new
screw_part_of = refl

closure-reaches_example :
    (out : List ℕ) × (closure car 1 "partOf" 2 ≡ ok (some out))
    × ((n : ℕ)
        → (contains (1 ∷ out) n ≡ true)
          ↔ ((k : ℕ) × (k ≤ 2) × Walk (neighbours car "partOf") 1 k n))
closure-reaches_example = closure-reaches car 1 "partOf" 2 screw screw_found

-- ===== src/Graph/Examples.antt =====
-- crates/graph/src: a small ontology and graph, and the theorems at them.
use ai_ontology_com.Common.{
  ℕ, ◌-◌, ◌≤◌, ◌<◌, ◌≡◌, ◌≢◌, refl, String, true, false, List, [], ◌∷◌, none, some, arith, ◌↔◌,
  ◌==◌, nat_eq, string_eq, if◌then◌else◌, contains,
}
use ai_ontology_com.Common.Map
use ai_ontology_com.Common.Map.{Map}
use ai_ontology_com.Common.Result.{ok}
use ai_ontology_com.Graph.Ids.{
  u64_mod, max_concept_id, observe, observe_least, observe_max, fits_storage, next_concept,
  next_relation,
}
use ai_ontology_com.Graph.Model.{Concept, Relation}
use ai_ontology_com.Graph.Schema.{
  Ontology, ConceptType, RelationType, many_to_many, relation_type, concept_type, is_subtype,
  validate_edge, validate_hierarchy, add_concept_type, reaches, limits, walk_parents,
}
use ai_ontology_com.Graph.Schema.Hierarchy.{On, validate_hierarchy-acyclic}
use ai_ontology_com.Graph.Schema.Subtype.{Inherits, is_subtype_iff, validate_edge_iff}
use ai_ontology_com.Graph.Schema.Symmetry.{IsSymmetric, add_concept_type-IsSymmetric}
use ai_ontology_com.Graph.State.{OntologyGraph, Slot, new, find_by_name, bump_concepts_gen}
use ai_ontology_com.Graph.Payloads.Run.{Reachable, initial, then_step, insert}
use ai_ontology_com.Graph.Payloads.Lookup.{find_by_name_iff}
use ai_ontology_com.Graph.Concepts.{
  prepare_concept, validate_concept_schema, check_name, check_type, prepare_fresh, check_range,
}
use ai_ontology_com.Graph.Concepts.Apply.{
  place_concept, apply_prepared_concept, relist, list_concept, push_pending,
}
use ai_ontology_com.Graph.Concepts.WriteAhead.{IdsFresh, prepare_concept-apply}
use ai_ontology_com.Graph.Relations.Exact.{insert_relation_exact-IsSound}
use ai_ontology_com.Graph.Relations.Update.{ends, apply_relation_update-IsIndexed}
use ai_ontology_com.Graph.Relations.{
  insert_relation_exact, apply_relation_update, link, inverse, place_relation, check_relation,
  check_end, check_limit, assign_id, prepare_relation, apply_prepared_relation,
}
use ai_ontology_com.Graph.Relations.Adjacency.{IsIndexed, link-IsIndexed}
use ai_ontology_com.Graph.Relations.Inverse.{
  IsSound, apply_prepared_relation-IsSound, apply_prepared_relation-get,
}
use ai_ontology_com.Graph.Relations.WriteAhead.{prepare_relation-apply}
use ai_ontology_com.Graph.Removal.{remove_relation, remove_concept, incident_relation_ids}
use ai_ontology_com.Graph.Removal.One.{remove_relation-IsIndexed}
use ai_ontology_com.Graph.Removal.Cascade.{touches, remove_concept-IsIndexed}

abbrev lower : String → String
lower s = s

abbrev thing : ConceptType
thing = record {
  name = "Thing";
  properties = none;
  parent = none;
  description = "";
  required_properties = [];
  disjoint_with = [];
  ns = none;
}

abbrev person : ConceptType
person = record thing { name = "Person"; parent = some "Thing" }

abbrev knows : RelationType
knows = record {
  name = "knows";
  domain = "Thing";
  range = "Person";
  cardinality = many_to_many;
  symmetric = true;
  description = "";
  transitive = false;
  inverse_of = none;
  functional = false;
  detail = false;
}

abbrev toy : Ontology
toy = record {
  concept_types = record { entries = ("Thing", thing) ∷ ("Person", person) ∷ [] };
  relation_types = record { entries = ("knows", knows) ∷ [] };
  rule_types = record { entries = [] };
  action_types = record { entries = [] };
}

abbrev slot_of : String → Slot
slot_of name = record {
  concept_type = "Person";
  name = name;
  loc = none;
  payload = some (record { description = ""; properties = record { entries = [] } });
}

abbrev two_people : OntologyGraph
two_people = record {
  ontology = toy;
  concepts = record { entries = (1, slot_of "ann") ∷ (2, slot_of "bob") ∷ [] };
  source = none;
  pending_locs = record { entries = [] };
  sealed = record { items = [] };
  sealable = record { entries = [] };
  relations = record { entries = [] };
  name_index = record { entries = (("Person", "ann"), 1) ∷ (("Person", "bob"), 2) ∷ [] };
  out_edges = record { entries = [] };
  in_edges = record { entries = [] };
  out_edges_typed = record { entries = [] };
  in_edges_typed = record { entries = [] };
  concepts_sorted = record { items = [] };
  concepts_by_type = record { entries = [] };
  concepts_gen = 0;
  relations_gen = 0;
  relations_sorted = record { items = [] };
  rules = record { entries = [] };
  actions = record { entries = [] };
  rules_sorted = record { items = [] };
  actions_sorted = record { items = [] };
  ids = record { concepts = 3; relations = 1; rules = 1; actions = 1 };
  bulk = false;
}

abbrev ann_knows_bob : Relation
ann_knows_bob = record {
  id = 1;
  relation_type = "knows";
  source = 1;
  target = 2;
  weight = 0x3f800000;
  properties = record { entries = [] };
}

abbrev carol : Concept
carol = record {
  id = 0;
  concept_type = "Person";
  name = "carol";
  description = "";
  properties = record { entries = [] };
}

two_people-IdsFresh : IdsFresh two_people
unfolding Map.get
two_people-IdsFresh = record { above = λ id s h. ground arith; positive = omega arith }

two_people-IsSound : IsSound two_people
unfolding Map.get Map.empty
two_people-IsSound = record {
  indexed = record {
    outgoing = λ n i. refl;
    incoming = λ n i. refl;
    outgoing_typed = λ n t i. refl;
    incoming_typed = λ n t i. refl;
  };
  above = λ id r h. ground arith;
  positive = omega arith;
}

carol_prepared : (prepare_concept lower two_people carol).0 ≡ ok (record carol { id = 3 })
unfolding prepare_concept validate_concept_schema concept_type Map.get check_name prepare_fresh
    check_range fits_storage next_concept
carol_prepared = refl

prepare_concept-apply_example :
    (apply_prepared_concept lower
        (prepare_concept lower two_people carol).1
        (record carol { id = 3 })
      ≡ ok (
        3,
        place_concept lower (prepare_concept lower two_people carol).1 (record carol { id = 3 }),
      ))
    × (3 ≤ max_concept_id)
prepare_concept-apply_example =
    prepare_concept-apply lower two_people carol (record carol { id = 3 }) two_people-IdsFresh
      carol_prepared

abbrev unset : Relation
unset = record ann_knows_bob { id = 0 }

abbrev assigned : OntologyGraph
assigned = record two_people { ids = record two_people.ids { relations = 2 } }

knows_prepared : prepare_relation two_people unset ≡ ok (ann_knows_bob, assigned)
unfolding prepare_relation check_relation validate_edge is_subtype reaches relation_type Map.get
    check_end check_limit limits assign_id fits_storage next_relation
knows_prepared = refl

prepare_relation-apply_example :
    (g'' : OntologyGraph) × (apply_prepared_relation assigned ann_knows_bob ≡ ok (1, g''))
    × (Map.get assigned.relations 1 ≡ none)
    × IsSound assigned
prepare_relation-apply_example =
    prepare_relation-apply two_people unset two_people-IsSound (omega arith) (omega arith)
      ann_knows_bob assigned knows_prepared

knows_free : Map.get two_people.relations 1 ≡ none
unfolding Map.get
knows_free = refl

abbrev applied : OntologyGraph
applied = place_relation two_people ann_knows_bob true

knows_applied : apply_prepared_relation two_people ann_knows_bob ≡ ok (1, applied)
unfolding apply_prepared_relation relation_type Map.get
knows_applied = refl

apply_prepared_relation-IsSound_example : IsSound applied
apply_prepared_relation-IsSound_example =
    apply_prepared_relation-IsSound two_people ann_knows_bob two_people-IsSound knows_free
      (omega arith) (omega arith) 1 applied knows_applied

knows_known : relation_type toy "knows" ≡ ok knows
unfolding relation_type Map.get
knows_known = refl

apply_prepared_relation-get_example :
    (inv_id : ℕ) × (Map.get two_people.relations inv_id ≡ none)
    × (inv_id ≢ 1)
    × ((i : ℕ)
        → Map.get applied.relations i ≡ (
            if 1 == i
            then some ann_knows_bob
            else if inv_id == i
            then some (inverse ann_knows_bob inv_id)
            else Map.get two_people.relations i))
apply_prepared_relation-get_example =
    apply_prepared_relation-get two_people ann_knows_bob two_people-IsSound knows_free (omega arith)
      (omega arith) knows 1 applied knows_known knows_applied

abbrev knowing : OntologyGraph
knowing = link two_people ann_knows_bob

knowing-IsIndexed : IsIndexed knowing
knowing-IsIndexed = link-IsIndexed two_people ann_knows_bob two_people-IsSound.indexed knows_free

knowing_there : Map.get knowing.relations 1 ≡ some ann_knows_bob
unfolding link Map.get Map.insert
knowing_there = refl

remove_relation-IsIndexed_example :
    (g' : OntologyGraph) × (remove_relation knowing 1 ≡ ok g')
    × IsIndexed g'
    × ((i : ℕ) → Map.get g'.relations i ≡ (if 1 == i then none else Map.get knowing.relations i))
remove_relation-IsIndexed_example =
    remove_relation-IsIndexed knowing 1 ann_knows_bob knowing-IsIndexed knowing_there

bob_there : Map.get knowing.concepts 2 ≡ some (slot_of "bob")
unfolding link Map.get
bob_there = refl

remove_concept-IsIndexed_example :
    (removed : List ℕ) × (g' : OntologyGraph) × (remove_concept lower knowing 2 ≡ ok (removed, g'))
    × (incident_relation_ids knowing 2 ≡ ok removed)
    × IsIndexed g'
    × ((i : ℕ) → contains removed i ≡ touches (Map.get knowing.relations i) 2)
    × ((i : ℕ)
        → Map.get g'.relations i
          ≡ (if contains removed i then none else Map.get knowing.relations i))
    × ((i : ℕ) → Map.get g'.concepts i ≡ (if 2 == i then none else Map.get knowing.concepts i))
remove_concept-IsIndexed_example =
    remove_concept-IsIndexed lower knowing 2 (slot_of "bob") knowing-IsIndexed bob_there

abbrev company : ConceptType
company = record thing { name = "Company"; disjoint_with = "Person" ∷ [] }

toy-IsSymmetric : IsSymmetric toy
unfolding Map.get
toy-IsSymmetric = record { named_back = λ a b known named. ground arith }

add_concept_type-IsSymmetric_example : IsSymmetric (add_concept_type toy company)
add_concept_type-IsSymmetric_example = add_concept_type-IsSymmetric toy company toy-IsSymmetric

toy_valid : validate_hierarchy toy ≡ ok tt
unfolding validate_hierarchy walk_parents Map.get
toy_valid = refl

person_there : Map.get toy.concept_types "Person" ≡ some person
unfolding Map.get
person_there = refl

validate_hierarchy-acyclic_example : ¬ On toy "Person" 1 (some "Thing")
validate_hierarchy-acyclic_example =
    validate_hierarchy-acyclic toy "Person" person 1 toy_valid person_there refl

is_subtype_iff_example : (is_subtype toy "Person" "Thing" ≡ true) ↔ Inherits toy "Person" "Thing"
is_subtype_iff_example = is_subtype_iff toy "Person" "Thing"

validate_edge_iff_example : (validate_edge toy "knows" "Person" "Person" ≡ ok tt) ↔ (
    (rt : RelationType) × (Map.get toy.relation_types "knows" ≡ some rt)
    × Inherits toy "Person" rt.domain
    × Inherits toy "Person" rt.range)
validate_edge_iff_example = validate_edge_iff toy "knows" "Person" "Person"

observe_least_example : (5 ≤ observe 5 7) × (7 < observe 5 7) × (5 ≤ 8 → 7 < 8 → observe 5 7 ≤ 8)
observe_least_example = observe_least 5 7 8 (omega arith)

observe_max_example : observe 5 (u64_mod - 1) ≡ 0
observe_max_example = observe_max 5 (omega arith)

abbrev carol_placed : OntologyGraph
carol_placed = place_concept lower (new toy) (record carol { id = 3 })

carol_applied :
    apply_prepared_concept lower (new toy) (record carol { id = 3 }) ≡ ok (3, carol_placed)
unfolding apply_prepared_concept new check_type Map.get Map.empty
carol_applied = refl

carol_reached : Reachable lower toy carol_placed
carol_reached =
    then_step (new toy) carol_placed initial
      (insert (record carol { id = 3 }) 3 carol_placed carol_applied)

carol_there : Map.get carol_placed.concepts 3 ≡ some (slot_of "carol")
unfolding place_concept new relist list_concept push_pending bump_concepts_gen Map.get Map.insert
    Map.empty
carol_there = refl

find_by_name_iff_example : (find_by_name lower carol_placed "Person" "carol" ≡ some 3) ↔ (
    (slot : Slot) × (Map.get carol_placed.concepts 3 ≡ some slot)
    × (slot.concept_type ≡ "Person")
    × (lower slot.name ≡ lower "carol"))
find_by_name_iff_example = find_by_name_iff lower toy carol_placed "Person" "carol" 3 carol_reached

insert_relation_exact-IsSound_example :
    (g' : OntologyGraph) × (insert_relation_exact two_people ann_knows_bob ≡ ok (1, g'))
    × IsSound g'
    × ((i : ℕ)
        → Map.get g'.relations i
          ≡ (if 1 == i then some ann_knows_bob else Map.get two_people.relations i))
insert_relation_exact-IsSound_example =
    insert_relation_exact-IsSound two_people ann_knows_bob two_people-IsSound (omega arith)
      (omega arith) (unfold Map.get in refl) (unfold Map.get in refl) knows_free

abbrev heavier : Relation
heavier = record ann_knows_bob { weight = 0x40000000 }

apply_relation_update-IsIndexed_example :
    (g' : OntologyGraph) × (apply_relation_update knowing heavier ≡ ok (heavier, g'))
    × (Map.get g'.relations 1 ≡ some heavier)
    × ((i : ℕ) → ends (Map.get g'.relations i) ≡ ends (Map.get knowing.relations i))
    × IsIndexed g'
apply_relation_update-IsIndexed_example =
    apply_relation_update-IsIndexed knowing heavier ann_knows_bob knowing_there refl
      knowing-IsIndexed

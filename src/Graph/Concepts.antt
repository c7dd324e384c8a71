-- ===== src/Graph/Concepts.antt =====
-- crates/graph/src/graph.rs: validating a concept and choosing its id. A method that can fail
-- returns the new graph with its result; where an error leaves the graph changed too (a consumed
-- id), the graph stands beside the result.
pub mod Apply
pub mod WriteAhead
pub mod Names
use ai_ontology_com.Common.{
  ℕ, ◌+◌, String, Bool, true, false, not, ◌&&◌, ◌||◌, List, [], ◌∷◌, ◌++◌, Option, none, some, ◌==◌,
  nat_eq, string_eq, pair_eq, if◌then◌else◌, is_some, contains, and_then,
}
use ai_ontology_com.Common.Map
use ai_ontology_com.Common.Map.{Map}
use ai_ontology_com.Common.Set
use ai_ontology_com.Common.Set.{Set}
use ai_ontology_com.Common.Result.{Result, ok, err, ◌>>=◌, ok_or}
use ai_ontology_com.Graph.Ids
use ai_ontology_com.Graph.Ids.{IdAllocator, fits_storage}
use ai_ontology_com.Graph.Model.{
  Concept, ConceptPatch, Properties, GraphResult, unknown_concept, invalid_property,
  missing_required_property, disjoint_type_violation, duplicate_concept, immutable_concept_type,
  concept_id_out_of_range, not_prepared,
}
use ai_ontology_com.Graph.Schema.{Ontology, ConceptType, concept_type}
use ai_ontology_com.Graph.State.{
  OntologyGraph, Slot, Loc, Payload, new_slot, derived, bump_concepts_gen, get_concept,
  sealable_push, listed,
}

unfoldable pub check_allowed :
    ConceptType → Option (List String) → List String → GraphResult (Unit {0})
check_allowed ct none ks = ok tt
check_allowed ct (some allowed) [] = ok tt
check_allowed ct (some allowed) (k ∷ ks) =
    if contains allowed k
    then check_allowed ct (some allowed) ks
    else err (invalid_property k ct.name)

unfoldable pub check_required : ConceptType → Properties → List String → GraphResult (Unit {0})
check_required ct properties [] = ok tt
check_required ct properties (req ∷ rest) =
    if Map.contains_key properties req
    then check_required ct properties rest
    else err (missing_required_property req ct.name)

-- The same lowercase name under a disjoint type
unfoldable pub check_disjoint :
    OntologyGraph → ConceptType → String → List String → GraphResult (Unit {0})
check_disjoint g ct lname [] = ok tt
check_disjoint g ct lname (other ∷ rest) =
    if Map.contains_key g.name_index (other, lname)
    then err (disjoint_type_violation ct.name other)
    else check_disjoint g ct lname rest

-- `.get(&key)` names another id
abbrev pub taken_by_other : Option ℕ → ℕ → Bool
taken_by_other none id = false
taken_by_other (some existing) id = not (existing == id)

module _ (to_lowercase : String → String) where
  unfoldable pub validate_concept_schema : OntologyGraph → Concept → GraphResult (Unit {0})
  unfolding check_allowed check_required check_disjoint
  validate_concept_schema g concept = do
    ct ← concept_type g.ontology concept.concept_type
    _ ← check_allowed ct ct.properties (Map.keys concept.properties)
    _ ← check_required ct concept.properties ct.required_properties
    check_disjoint g ct (to_lowercase concept.name) ct.disjoint_with

  abbrev pub name_key : Concept → String × String
  name_key c = (c.concept_type, to_lowercase c.name)

  -- The refusals that come before an id is chosen.
  unfoldable pub check_name : OntologyGraph → Concept → GraphResult (Unit {0})
  check_name g c = elim (Map.get g.name_index (name_key c)) [
    | none ↦ ok tt
    | some existing ↦
        if c.id == 0 || not (existing == c.id)
        then err (duplicate_concept c.name c.concept_type)
        else ok tt
  ]

  -- `prev.concept_type != concept.concept_type`
  unfoldable pub check_type : OntologyGraph → Concept → GraphResult (Unit {0})
  check_type g c = elim (Map.get g.concepts c.id) [
    | none ↦ ok tt
    | some prev ↦
        if prev.concept_type == c.concept_type
        then ok tt
        else err (immutable_concept_type prev.concept_type c.concept_type)
  ]

  unfoldable pub check_range : ℕ → GraphResult (Unit {0})
  check_range id = if fits_storage id then ok tt else err (concept_id_out_of_range id)

  -- A fresh id is consumed even when it is out of range.
  unfoldable pub prepare_fresh : OntologyGraph → Concept → GraphResult Concept × OntologyGraph
  prepare_fresh g c =
      let (id, ids') = Ids.next_concept g.ids in
      (do _ ← check_range id; ok (record c { id = id }), record g { ids = ids' })

  abbrev pub after {ℓ} :
      {A : Type ℓ}
      → OntologyGraph
      → GraphResult (Unit {0})
      → GraphResult A × OntologyGraph
      → GraphResult A × OntologyGraph
  after g (err e) next = (err e, g)
  after g (ok _) next = next

  -- The type is checked before the id is observed.
  unfoldable pub prepare_explicit : OntologyGraph → Concept → GraphResult Concept × OntologyGraph
  prepare_explicit g c =
      after g (check_type g c)
        (after g (check_range c.id) (ok c, record g { ids = Ids.observe_concept g.ids c.id }))

  unfoldable pub prepare_concept : OntologyGraph → Concept → GraphResult Concept × OntologyGraph
  prepare_concept g c =
      after g (validate_concept_schema g c)
        (after g (check_name g c) (if c.id == 0 then prepare_fresh g c else prepare_explicit g c))

-- ===== src/Graph/Payloads/Run.antt =====
-- crates/graph/src/graph.rs: runs of the operations that touch slots, from the empty graph.
use mathlib.Core.Path.{subst}
use ai_ontology_com.Common.{
  ℕ, ◌≡◌, refl, String, Bool, List, [], ◌∷◌, arith, nat_eq, string_eq, inl, inr, Option-cases,
}
use ai_ontology_com.Common.Map
use ai_ontology_com.Common.Result.{ok, Result-cases}
use ai_ontology_com.Graph.Model.{Concept}
use ai_ontology_com.Graph.Schema.{Ontology}
use ai_ontology_com.Graph.State.{
  OntologyGraph, Slot, Loc, PayloadSource, new, bump_concepts_gen, bump_relations_gen,
}
use ai_ontology_com.Graph.Concepts.Apply.{
  place_concept, apply_prepared_concept, apply_concept_update, update_entry, rename_key,
  replace_concept, unlist_concept,
}
use ai_ontology_com.Graph.Removal.{
  remove_concept, scrub, scrub_all, unlink, drop_lists, forget_concept, edge_ids,
}
use ai_ontology_com.Graph.Payloads.{set_payload_source, set_loc, partition_sealed}
use ai_ontology_com.Graph.Payloads.Readable.{
  IsReadable, set_loc-IsReadable, partition_sealed-IsReadable, place_concept-IsReadable,
  replace_concept-IsReadable,
}

pub scrub_all_keeps :
    (g : OntologyGraph) (d : ℕ) (l : List ℕ)
    → ((scrub_all g d l).concepts ≡ g.concepts) × ((scrub_all g d l).source ≡ g.source)
unfolding scrub_all scrub unlink
scrub_all_keeps g d [] = (refl, refl)
scrub_all_keeps g d (rid ∷ rest) = ground (arith, scrub_all_keeps (scrub g d rid) d rest)

attach-IsReadable :
    (g : OntologyGraph) (source : PayloadSource)
    → IsReadable g
    → IsReadable (set_payload_source g source)
unfolding set_payload_source
attach-IsReadable g source r i = ground (arith, r i)

module _ (to_lowercase : String → String) where
  -- One call of a method that reads or writes slots.
  pub data Step (g : OntologyGraph) : OntologyGraph → Type 0 where
    attach : (source : PayloadSource) → Step g (set_payload_source g source)
    locate : (id : ℕ) (loc : Loc) (resident : Bool) → Step g (set_loc g id loc resident)
    seal : (ns_id partition : ℕ) → Step g (partition_sealed g ns_id partition).0
    insert :
        (c : Concept) (id : ℕ) (g' : OntologyGraph)
        → apply_prepared_concept to_lowercase g c ≡ ok (id, g')
        → Step g g'
    update :
        (c c' : Concept) (g' : OntologyGraph)
        → apply_concept_update to_lowercase g c ≡ ok (c', g')
        → Step g g'
    remove :
        (id : ℕ) (cascade : List ℕ) (g' : OntologyGraph)
        → remove_concept to_lowercase g id ≡ ok (cascade, g')
        → Step g g'

  pub data Reachable (o : Ontology) : OntologyGraph → Type 0 where
    initial : Reachable o (new o)
    then_step : (g g' : OntologyGraph) → Reachable o g → Step g g' → Reachable o g'

  apply_prepared_concept-IsReadable :
      (g : OntologyGraph) (c : Concept) (id : ℕ) (g' : OntologyGraph)
      → apply_prepared_concept to_lowercase g c ≡ ok (id, g')
      → IsReadable g
      → IsReadable g'
  unfolding apply_prepared_concept
  apply_prepared_concept-IsReadable g c id g' h r =
      let same : place_concept to_lowercase g c ≡ g' = ground arith in
      subst IsReadable same (place_concept-IsReadable to_lowercase g c r)

  update_entry-IsReadable :
      (g : OntologyGraph) (entry : Slot) (c : Concept) (g' : OntologyGraph)
      → update_entry to_lowercase g entry c ≡ ok g'
      → IsReadable g
      → IsReadable g'
  unfolding update_entry
  update_entry-IsReadable g entry c g' h r =
      elim (Result-cases (rename_key to_lowercase g entry c)) [
        | inr (x, e) ↦ absurd (ground (arith, e))
        | inl (index, e) ↦
            let same : replace_concept to_lowercase g entry c index ≡ g' = ground (arith, e) in
            subst IsReadable same (replace_concept-IsReadable to_lowercase g entry c index r)
      ]

  apply_concept_update-IsReadable :
      (g : OntologyGraph) (c c' : Concept) (g' : OntologyGraph)
      → apply_concept_update to_lowercase g c ≡ ok (c', g')
      → IsReadable g
      → IsReadable g'
  unfolding apply_concept_update
  apply_concept_update-IsReadable g c c' g' h r = elim (Option-cases (Map.get g.concepts c.id)) [
    | inl e ↦ absurd (ground (arith, e))
    | inr (entry, e) ↦ elim (Result-cases (update_entry to_lowercase g entry c)) [
      | inr (x, u) ↦ absurd (ground (arith, e, u))
      | inl (g1, u) ↦
          let same : g1 ≡ g' = ground (arith, e, u) in
          subst IsReadable same (update_entry-IsReadable g entry c g1 u r)
    ]
  ]

  pub removed_keeps :
      (g : OntologyGraph) (id : ℕ) (l : List ℕ) (g' : OntologyGraph)
      → remove_concept to_lowercase g id ≡ ok (l, g')
      → (g'.concepts ≡ Map.remove g.concepts id) × (g'.source ≡ g.source)
  unfolding remove_concept drop_lists forget_concept unlist_concept bump_concepts_gen
      bump_relations_gen
  removed_keeps g id l g' h = elim (Option-cases (Map.get g.concepts id)) [
    | inl e ↦ absurd (ground (arith, e))
    | inr (slot, e) ↦ ground (
      arith,
      e,
      scrub_all_keeps (drop_lists (forget_concept to_lowercase g id slot) id) id (edge_ids g id),
    )
  ]

  remove_concept-IsReadable :
      (g : OntologyGraph) (id : ℕ) (l : List ℕ) (g' : OntologyGraph)
      → remove_concept to_lowercase g id ≡ ok (l, g')
      → IsReadable g
      → IsReadable g'
  remove_concept-IsReadable g id l g' h r i =
      ground (arith, removed_keeps g id l g' h, Map.get-remove g.concepts id i, r i)

  Step-IsReadable : (g g' : OntologyGraph) → Step g g' → IsReadable g → IsReadable g'
  Step-IsReadable g _ (attach source) r = attach-IsReadable g source r
  Step-IsReadable g _ (locate id loc resident) r = set_loc-IsReadable g id loc resident r
  Step-IsReadable g _ (seal ns_id partition) r = partition_sealed-IsReadable g ns_id partition r
  Step-IsReadable g _ (insert c id g' h) r = apply_prepared_concept-IsReadable g c id g' h r
  Step-IsReadable g _ (update c c' g' h) r = apply_concept_update-IsReadable g c c' g' h r
  Step-IsReadable g _ (remove id l g' h) r = remove_concept-IsReadable g id l g' h r

  pub Reachable-IsReadable : (o : Ontology) (g : OntologyGraph) → Reachable o g → IsReadable g
  unfolding new
  Reachable-IsReadable o _ initial = λ i. ground (arith, Map.get-empty {V = Slot} i)
  Reachable-IsReadable o _ (then_step g g' before step) =
      Step-IsReadable g g' step (Reachable-IsReadable o g before)

-- ===== src/Graph/Payloads/Lookup.antt =====
-- crates/graph/src/graph.rs: `find_by_name` in every graph that the operations on slots make.
use mathlib.Core.Path.{subst}
use ai_ontology_com.Common.{
  ℕ, ◌≡◌, ◌↔◌, refl, String, List, [], ◌∷◌, some, arith, nat_eq, string_eq, pair_eq, inl, inr,
  Option-cases, ==_iff,
}
use ai_ontology_com.Common.Map
use ai_ontology_com.Common.Result.{ok, Result-cases}
use ai_ontology_com.Graph.Model.{Concept}
use ai_ontology_com.Graph.Schema.{Ontology}
use ai_ontology_com.Graph.State.{
  OntologyGraph, Slot, new, find_by_name, bump_concepts_gen, bump_relations_gen,
}
use ai_ontology_com.Graph.Concepts.Apply.{
  place_concept, apply_prepared_concept, apply_concept_update, update_entry, rename_key,
  replace_concept, unlist_concept, prev_key,
}
use ai_ontology_com.Graph.Concepts.Names.{
  IsNamed, SameNames-IsNamed, set_loc-SameNames, partition_sealed-SameNames, place_concept-IsNamed,
  replace_concept-IsNamed,
}
use ai_ontology_com.Graph.Removal.{
  remove_concept, scrub, scrub_all, unlink, drop_lists, forget_concept, edge_ids,
}
use ai_ontology_com.Graph.Payloads.{set_payload_source, set_loc, partition_sealed}
use ai_ontology_com.Graph.Payloads.Run.{
  Step, Reachable, attach, locate, seal, insert, update, remove, initial, then_step, removed_keeps,
}

scrub_all-name_index :
    (g : OntologyGraph) (d : ℕ) (l : List ℕ) → (scrub_all g d l).name_index ≡ g.name_index
unfolding scrub_all scrub unlink
scrub_all-name_index g d [] = refl
scrub_all-name_index g d (rid ∷ rest) = ground (arith, scrub_all-name_index (scrub g d rid) d rest)

module _ (to_lowercase : String → String) where
  attach-IsNamed :
      (g : OntologyGraph) (source : _)
      → IsNamed to_lowercase g
      → IsNamed to_lowercase (set_payload_source g source)
  unfolding set_payload_source
  attach-IsNamed g source n = n

  apply_prepared_concept-IsNamed :
      (g : OntologyGraph) (c : Concept) (id : ℕ) (g' : OntologyGraph)
      → apply_prepared_concept to_lowercase g c ≡ ok (id, g')
      → IsNamed to_lowercase g
      → IsNamed to_lowercase g'
  unfolding apply_prepared_concept
  apply_prepared_concept-IsNamed g c id g' h n =
      let same : place_concept to_lowercase g c ≡ g' = ground arith in
      subst (IsNamed to_lowercase) same (place_concept-IsNamed to_lowercase g c n (ground arith))

  apply_concept_update-IsNamed :
      (g : OntologyGraph) (c c' : Concept) (g' : OntologyGraph)
      → apply_concept_update to_lowercase g c ≡ ok (c', g')
      → IsNamed to_lowercase g
      → IsNamed to_lowercase g'
  unfolding apply_concept_update update_entry
  apply_concept_update-IsNamed g c c' g' h n = elim (Option-cases (Map.get g.concepts c.id)) [
    | inl e ↦ absurd (ground (arith, e))
    | inr (entry, e) ↦ elim (Result-cases (rename_key to_lowercase g entry c)) [
      | inr (x, u) ↦ absurd (ground (arith, e, u))
      | inl (index, u) ↦
          let same : replace_concept to_lowercase g entry c index ≡ g' = ground (arith, e, u) in
          subst (IsNamed to_lowercase) same
            (replace_concept-IsNamed to_lowercase g entry c index n e u)
    ]
  ]

  removed_index :
      (g : OntologyGraph) (id : ℕ) (slot : Slot) (l : List ℕ) (g' : OntologyGraph)
      → Map.get g.concepts id ≡ some slot
      → remove_concept to_lowercase g id ≡ ok (l, g')
      → g'.name_index ≡ Map.remove g.name_index (prev_key to_lowercase slot)
  unfolding remove_concept drop_lists forget_concept unlist_concept bump_concepts_gen
      bump_relations_gen
  removed_index g id slot l g' e h = ground (
    arith,
    e,
    scrub_all-name_index (drop_lists (forget_concept to_lowercase g id slot) id) id (edge_ids g id),
  )

  remove_concept-IsNamed :
      (g : OntologyGraph) (id : ℕ) (l : List ℕ) (g' : OntologyGraph)
      → remove_concept to_lowercase g id ≡ ok (l, g')
      → IsNamed to_lowercase g
      → IsNamed to_lowercase g'
  remove_concept-IsNamed g id l g' h n k i = elim (Option-cases (Map.get g.concepts id)) [
    | inl e ↦ absurd (unfold remove_concept in ground (arith, e, h))
    | inr (slot, e) ↦ ground (
      arith,
      e,
      removed_keeps to_lowercase g id l g' h,
      removed_index g id slot l g' e h,
      Map.get-remove g.concepts id i,
      Map.get-remove g.name_index (prev_key to_lowercase slot) k,
      ==_iff (prev_key to_lowercase slot) k,
      ==_iff id i,
      n k i,
      n k id,
    )
  ]

  Step-IsNamed :
      (g g' : OntologyGraph)
      → Step to_lowercase g g'
      → IsNamed to_lowercase g
      → IsNamed to_lowercase g'
  Step-IsNamed g _ (attach source) n = attach-IsNamed g source n
  Step-IsNamed g _ (locate id loc resident) n =
      SameNames-IsNamed to_lowercase g (set_loc g id loc resident)
        (set_loc-SameNames to_lowercase g id loc resident) n
  Step-IsNamed g _ (seal ns_id partition) n =
      SameNames-IsNamed to_lowercase g (partition_sealed g ns_id partition).0
        (partition_sealed-SameNames to_lowercase g ns_id partition) n
  Step-IsNamed g _ (insert c id g' h) n = apply_prepared_concept-IsNamed g c id g' h n
  Step-IsNamed g _ (update c c' g' h) n = apply_concept_update-IsNamed g c c' g' h n
  Step-IsNamed g _ (remove id l g' h) n = remove_concept-IsNamed g id l g' h n

  Reachable-IsNamed :
      (o : Ontology) (g : OntologyGraph) → Reachable to_lowercase o g → IsNamed to_lowercase g
  unfolding new
  Reachable-IsNamed o _ initial =
      λ k i. ground (arith, Map.get-empty {V = Slot} i, Map.get-empty {V = ℕ} k)
  Reachable-IsNamed o _ (then_step g g' before step) =
      Step-IsNamed g g' step (Reachable-IsNamed o g before)

  -- In every graph that calls of `set_payload_source`, `set_loc`, `partition_sealed`,
  -- `apply_prepared_concept`, `apply_concept_update` and `remove_concept` make of an empty one,
  -- `find_by_name` answers an id exactly when the concept with this id has that type and, in
  -- lowercase, that name.
  pub find_by_name_iff :
      (o : Ontology) (g : OntologyGraph) (concept_type name : String) (id : ℕ)
      → Reachable to_lowercase o g
      → (find_by_name to_lowercase g concept_type name ≡ some id) ↔ (
          (slot : Slot) × (Map.get g.concepts id ≡ some slot)
          × (slot.concept_type ≡ concept_type)
          × (to_lowercase slot.name ≡ to_lowercase name))
  unfolding find_by_name
  find_by_name_iff o g concept_type name id reached =
      let n = Reachable-IsNamed o g reached (concept_type, to_lowercase name) id in
      (
        λ found. elim (Option-cases (Map.get g.concepts id)) [
          | inl e ↦ absurd (ground (arith, n, e, found))
          | inr (slot, e) ↦ (slot, e, ground (arith, n, e, found), ground (arith, n, e, found))
        ],
        λ (slot, e, t, l). n.1 (ground (arith, e, t, l)),
      )

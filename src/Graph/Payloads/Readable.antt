-- ===== src/Graph/Payloads/Readable.antt =====
-- crates/graph/src/graph.rs: no payload is dropped that cannot be read back.
use ai_ontology_com.Common.{
  ℕ, ◌≡◌, String, Bool, true, not, ◌&&◌, ◌||◌, List, [], ◌∷◌, Option, none, some, arith, nat_eq,
  pair_eq, string_eq, if_keeps, is_some, inl, inr, Option-cases, Bool-cases,
}
use ai_ontology_com.Common.Map
use ai_ontology_com.Common.Map.{Map}
use ai_ontology_com.Common.Set
use ai_ontology_com.Graph.Ids
use ai_ontology_com.Graph.Model.{Concept}
use ai_ontology_com.Graph.State.{
  OntologyGraph, Slot, Loc, evict_at, sealable_push, listed, new_slot, derived, bump_concepts_gen,
}
use ai_ontology_com.Graph.Concepts.{name_key}
use ai_ontology_com.Graph.Concepts.Apply.{
  push_pending, relist, list_concept, unlist_concept, place_concept, or_else, loc_of,
  unbind_renamed, relist_renamed, replace_concept,
}
use ai_ontology_com.Graph.Payloads.{set_loc, drop_payload, drop_payloads, partition_sealed}

-- The payload is here, or both its place and a source are known.
abbrev pub held : Option Slot → Bool → Bool
held none source = true
held (some slot) source = is_some slot.payload || (is_some slot.loc && source)

abbrev pub IsReadable : OntologyGraph → Type 0
IsReadable g = (id : ℕ) → held (Map.get g.concepts id) (is_some g.source) ≡ true

evict_at-IsReadable :
    (g : OntologyGraph) (id : ℕ) (loc : Loc)
    → is_some g.source ≡ true
    → IsReadable g
    → IsReadable (evict_at g id loc)
unfolding evict_at
evict_at-IsReadable g id loc attached r i = elim (Option-cases (Map.get g.concepts id)) [
  | inl e ↦ ground (arith, e, r i)
  | inr (slot, e) ↦
      ground (arith, e, r i, Map.get-insert g.concepts id (record slot { payload = none }) i)
]

sealable_push-IsReadable :
    (g : OntologyGraph) (id : ℕ) (loc : Loc) → IsReadable g → IsReadable (sealable_push g id loc)
unfolding sealable_push
sealable_push-IsReadable g id loc r =
    if_keeps IsReadable (Set.mem g.sealed (loc.ns_id, loc.partition) && is_some g.source) _ _
      (λ t. evict_at-IsReadable g id loc (ground arith) r) (λ t. r)

pub set_loc-IsReadable :
    (g : OntologyGraph) (id : ℕ) (loc : Loc) (resident : Bool)
    → IsReadable g
    → IsReadable (set_loc g id loc resident)
unfolding set_loc Map.get
set_loc-IsReadable g id loc resident r = elim (Option-cases (Map.get g.concepts id)) [
  | inl e ↦ rw (e, set_loc) r
  | inr (slot, e) ↦
      rw (e, set_loc)
        (if_keeps IsReadable (resident && not (is_some slot.payload)) _ _ (λ _. r)
          (λ t.
            if_keeps IsReadable (not resident && is_some g.source) _ _
              (λ u i. ground (
                arith,
                r i,
                Map.get-insert g.concepts id (record slot { loc = some loc; payload = none }) i,
              ))
              (λ u.
                sealable_push-IsReadable
                  (record g {
                    concepts = Map.insert g.concepts id (record slot { loc = some loc });
                  })
                  id loc
                  (λ i. ground (
                    arith,
                    e,
                    r i,
                    r id,
                    Map.get-insert g.concepts id (record slot { loc = some loc }) i,
                  )))))
]

drop_payload-held :
    (concepts : Map ℕ Slot) (ns_id partition id i : ℕ)
    → held (Map.get concepts i) true ≡ true
    → held (Map.get (drop_payload concepts ns_id partition id).0 i) true ≡ true
unfolding drop_payload
drop_payload-held concepts ns_id partition id i r = elim (Option-cases (Map.get concepts id)) [
  | inl e ↦ ground (arith, e)
  | inr (slot, e) ↦ ground (arith, e, Map.get-insert concepts id (record slot { payload = none }) i)
]

drop_payloads-held :
    (concepts : Map ℕ Slot) (ns_id partition : ℕ) (ids : List ℕ) (i : ℕ)
    → held (Map.get concepts i) true ≡ true
    → held (Map.get (drop_payloads concepts ns_id partition ids).0 i) true ≡ true
unfolding drop_payloads
drop_payloads-held concepts ns_id partition [] i r = r
drop_payloads-held concepts ns_id partition (id ∷ ids) i r =
    drop_payloads-held (drop_payload concepts ns_id partition id).0 ns_id partition ids i
      (drop_payload-held concepts ns_id partition id i r)

pub partition_sealed-IsReadable :
    (g : OntologyGraph) (ns_id partition : ℕ)
    → IsReadable g
    → IsReadable (partition_sealed g ns_id partition).0
unfolding partition_sealed
partition_sealed-IsReadable g ns_id partition r = elim (Bool-cases (is_some g.source)) [
  | inl t ↦ λ i. ground (
    arith,
    t,
    r i,
    drop_payloads-held g.concepts ns_id partition (listed (Map.get g.sealable (ns_id, partition)))
        i,
  )
  | inr t ↦ λ i. ground (arith, t, r i)
]

-- The other fields do not matter.
module _ (g h : OntologyGraph) (slots : h.concepts ≡ g.concepts)
    (source : h.source ≡ g.source) where
  pub same_slots : IsReadable g → IsReadable h
  same_slots r i = ground (arith, slots, source, r i)

module _ (to_lowercase : String → String) where
  push_pending-IsReadable :
      (g : OntologyGraph) (id : ℕ) (loc : Option Loc)
      → IsReadable g
      → IsReadable (push_pending to_lowercase g id loc)
  unfolding push_pending
  push_pending-IsReadable g id none r = r
  push_pending-IsReadable g id (some loc) r = sealable_push-IsReadable g id loc r

  relist_keeps :
      (g : OntologyGraph) (prev : Option Slot) (c : Concept)
      → ((relist to_lowercase g prev c).concepts ≡ g.concepts)
        × ((relist to_lowercase g prev c).source ≡ g.source)
  unfolding relist list_concept unlist_concept bump_concepts_gen
  relist_keeps g none c = ground arith
  relist_keeps g (some prev) c = ground arith

  pub place_concept-IsReadable :
      (g : OntologyGraph) (c : Concept) → IsReadable g → IsReadable (place_concept to_lowercase g c)
  unfolding place_concept
  place_concept-IsReadable g c r =
      let prev = Map.get g.concepts c.id in
      let pending = Map.get g.pending_locs c.id in
      let slot : Slot = record (new_slot c) {
        loc = or_else to_lowercase pending (loc_of to_lowercase prev);
      } in
      let g1 : OntologyGraph = record g {
        ids = Ids.observe_concept g.ids c.id;
        name_index =
            Map.insert (unbind_renamed to_lowercase g.name_index prev c) (name_key to_lowercase c)
              c.id;
        pending_locs = Map.remove g.pending_locs c.id;
        concepts = Map.insert g.concepts c.id slot;
      } in
      let g2 = push_pending to_lowercase g1 c.id pending in
      let placed =
        push_pending-IsReadable g1 c.id pending
          (λ i. ground (arith, r i, Map.get-insert g.concepts c.id slot i)) in
      if_keeps IsReadable (derived g2) (relist to_lowercase g2 prev c) g2
        (λ _.
          same_slots g2 (relist to_lowercase g2 prev c) (relist_keeps g2 prev c).0
            (relist_keeps g2 prev c).1 placed)
        (λ _. placed)

  relist_renamed_keeps :
      (g : OntologyGraph) (entry : Slot) (c : Concept)
      → ((relist_renamed to_lowercase g entry c).concepts ≡ g.concepts)
        × ((relist_renamed to_lowercase g entry c).source ≡ g.source)
  unfolding relist_renamed list_concept unlist_concept
  relist_renamed_keeps g entry c = ground arith

  bump-IsReadable : (g : OntologyGraph) → IsReadable g → IsReadable (bump_concepts_gen g)
  unfolding bump_concepts_gen
  bump-IsReadable g r = same_slots g (bump_concepts_gen g) (ground arith) (ground arith) r

  pub replace_concept-IsReadable :
      (g : OntologyGraph) (entry : Slot) (c : Concept) (index : Map (String × String) ℕ)
      → IsReadable g
      → IsReadable (replace_concept to_lowercase g entry c index)
  unfolding replace_concept
  replace_concept-IsReadable g entry c index r =
      let pending = Map.get g.pending_locs c.id in
      let slot : Slot = record (new_slot c) {
        concept_type = entry.concept_type;
        loc = or_else to_lowercase pending entry.loc;
      } in
      let g1 : OntologyGraph = record g {
        name_index = index;
        pending_locs = Map.remove g.pending_locs c.id;
        concepts = Map.insert g.concepts c.id slot;
      } in
      let g2 = relist_renamed to_lowercase g1 entry c in
      bump-IsReadable (push_pending to_lowercase g2 c.id pending) (
        push_pending-IsReadable g2 c.id pending (
          same_slots g1 g2 (relist_renamed_keeps g1 entry c).0 (relist_renamed_keeps g1 entry c).1
            (λ i. ground (arith, r i, Map.get-insert g.concepts c.id slot i))))

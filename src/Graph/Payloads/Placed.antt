-- ===== src/Graph/Payloads/Placed.antt =====
-- crates/graph/src/graph.rs: a concept that is inserted or replaced takes the location it was announced.
use ai_ontology_com.Common.{
  ℕ, ◌≡◌, refl, String, Bool, true, Option, none, some, arith, nat_eq, pair_eq, string_eq, if_keeps,
}
use ai_ontology_com.Common.Map
use ai_ontology_com.Graph.Ids
use ai_ontology_com.Graph.Model.{Concept}
use ai_ontology_com.Graph.State.{OntologyGraph, Slot, Loc, new_slot, derived, bump_concepts_gen}
use ai_ontology_com.Graph.Concepts.{name_key}
use ai_ontology_com.Graph.Concepts.Apply.{
  push_pending, relist, list_concept, unlist_concept, place_concept, or_else, loc_of,
  unbind_renamed, relist_renamed, replace_concept,
}
use ai_ontology_com.Graph.Payloads.Held.{is_located, is_held, IsHeld, sealable_push-IsHeld}

module _ (located : ℕ → Loc → Bool) (is_sealed : ℕ → ℕ → Bool) where
  or_else-located :
      (lower : String → String) (id : ℕ) (a b : Option Loc)
      → is_located located is_sealed id a ≡ true
      → is_located located is_sealed id b ≡ true
      → is_located located is_sealed id (or_else lower a b) ≡ true
  or_else-located lower id none b ha hb = hb
  or_else-located lower id (some l) b ha hb = ha

  loc_of-located :
      (lower : String → String) (id : ℕ) (prev : Option Slot)
      → is_held located is_sealed id prev ≡ true
      → is_located located is_sealed id (loc_of lower prev) ≡ true
  loc_of-located lower id none h = refl
  loc_of-located lower id (some slot) h = ground (arith, h)

  -- The other fields do not matter.
  pub same-IsHeld :
      (g h : OntologyGraph)
      → h.concepts ≡ g.concepts
      → h.pending_locs ≡ g.pending_locs
      → h.sealed ≡ g.sealed
      → h.source ≡ g.source
      → IsHeld located is_sealed g
      → IsHeld located is_sealed h
  same-IsHeld g h c p s o r = record {
    slots = λ i. ground (arith, c, r.slots i);
    pending = λ i. ground (arith, p, r.pending i);
    sealed = λ k. ground (arith, s, r.sealed k);
    reader = λ source e. r.reader source (ground (arith, o, e));
  }

  module _ (to_lowercase : String → String) where
    push_pending-IsHeld :
        (g : OntologyGraph) (id : ℕ) (loc : Option Loc)
        → IsHeld located is_sealed g
        → IsHeld located is_sealed (push_pending to_lowercase g id loc)
    unfolding push_pending
    push_pending-IsHeld g id none r = r
    push_pending-IsHeld g id (some loc) r = sealable_push-IsHeld located is_sealed g id loc r

    relist-IsHeld :
        (g : OntologyGraph) (prev : Option Slot) (c : Concept)
        → IsHeld located is_sealed g
        → IsHeld located is_sealed (relist to_lowercase g prev c)
    unfolding relist list_concept unlist_concept bump_concepts_gen
    relist-IsHeld g none c r =
        same-IsHeld g (relist to_lowercase g none c) (ground arith) (ground arith) (ground arith)
          (ground arith) r
    relist-IsHeld g (some prev) c r =
        same-IsHeld g (relist to_lowercase g (some prev) c) (ground arith) (ground arith)
          (ground arith) (ground arith) r

    placed_slot :
        (g : OntologyGraph) (id : ℕ) (slot : Slot)
        → is_held located is_sealed id (some slot) ≡ true
        → IsHeld located is_sealed g
        → (names : OntologyGraph) → names.concepts ≡ Map.insert g.concepts id slot
        → names.pending_locs ≡ Map.remove g.pending_locs id
        → names.sealed ≡ g.sealed
        → names.source ≡ g.source
        → IsHeld located is_sealed names
    placed_slot g id slot h r names c p s o = record {
      slots = λ i. ground (arith, c, h, r.slots i, Map.get-insert g.concepts id slot i);
      pending = λ i. ground (arith, p, r.pending i, Map.get-remove g.pending_locs id i);
      sealed = λ k. ground (arith, s, r.sealed k);
      reader = λ source e. r.reader source (ground (arith, o, e));
    }

    pub place_concept-IsHeld :
        (g : OntologyGraph) (c : Concept)
        → IsHeld located is_sealed g
        → IsHeld located is_sealed (place_concept to_lowercase g c)
    unfolding place_concept
    place_concept-IsHeld g c r =
        let prev = Map.get g.concepts c.id in
        let pending = Map.get g.pending_locs c.id in
        let loc = or_else to_lowercase pending (loc_of to_lowercase prev) in
        let slot : Slot = record (new_slot c) { loc = loc } in
        let g1 : OntologyGraph = record g {
          ids = Ids.observe_concept g.ids c.id;
          name_index =
              Map.insert (unbind_renamed to_lowercase g.name_index prev c) (name_key to_lowercase c)
                c.id;
          pending_locs = Map.remove g.pending_locs c.id;
          concepts = Map.insert g.concepts c.id slot;
        } in
        let g2 = push_pending to_lowercase g1 c.id pending in
        let its_loc =
          or_else-located to_lowercase c.id pending (loc_of to_lowercase prev) (r.pending c.id)
            (loc_of-located to_lowercase c.id prev (r.slots c.id)) in
        let placed =
          push_pending-IsHeld g1 c.id pending
            (placed_slot g c.id slot (ground (arith, its_loc)) r g1 refl refl refl refl) in
        if_keeps (IsHeld located is_sealed) (derived g2) (relist to_lowercase g2 prev c) g2
          (λ _. relist-IsHeld g2 prev c placed) (λ _. placed)

    relist_renamed-IsHeld :
        (g : OntologyGraph) (entry : Slot) (c : Concept)
        → IsHeld located is_sealed g
        → IsHeld located is_sealed (relist_renamed to_lowercase g entry c)
    unfolding relist_renamed list_concept unlist_concept
    relist_renamed-IsHeld g entry c r =
        same-IsHeld g (relist_renamed to_lowercase g entry c) (ground arith) (ground arith)
          (ground arith) (ground arith) r

    bump-IsHeld :
        (g : OntologyGraph)
        → IsHeld located is_sealed g
        → IsHeld located is_sealed (bump_concepts_gen g)
    unfolding bump_concepts_gen
    bump-IsHeld g r =
        same-IsHeld g (bump_concepts_gen g) (ground arith) (ground arith) (ground arith)
          (ground arith) r

    pub replace_concept-IsHeld :
        (g : OntologyGraph) (entry : Slot) (c : Concept) (index : Map.Map (String × String) ℕ)
        → Map.get g.concepts c.id ≡ some entry
        → IsHeld located is_sealed g
        → IsHeld located is_sealed (replace_concept to_lowercase g entry c index)
    unfolding replace_concept
    replace_concept-IsHeld g entry c index there r =
        let pending = Map.get g.pending_locs c.id in
        let slot : Slot = record (new_slot c) {
          concept_type = entry.concept_type;
          loc = or_else to_lowercase pending entry.loc;
        } in
        let g1 : OntologyGraph = record g {
          name_index = index;
          pending_locs = Map.remove g.pending_locs c.id;
          concepts = Map.insert g.concepts c.id slot;
        } in
        let g2 = relist_renamed to_lowercase g1 entry c in
        let its_loc =
          or_else-located to_lowercase c.id pending entry.loc (r.pending c.id)
            (ground (arith, there, r.slots c.id)) in
        bump-IsHeld (push_pending to_lowercase g2 c.id pending) (
          push_pending-IsHeld g2 c.id pending (
            relist_renamed-IsHeld g1 entry c
              (placed_slot g c.id slot (ground (arith, its_loc)) r g1 refl refl refl refl)))

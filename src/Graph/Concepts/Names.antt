-- ===== src/Graph/Concepts/Names.antt =====
-- crates/graph/src/graph.rs: `name_index` is the inverse of the names that the slots hold.
use mathlib.Core.Path.{◌∙◌}
use ai_ontology_com.Common.{
  ℕ, ◌≡◌, ◌↔◌, refl, String, Bool, false, not, List, [], ◌∷◌, Option, none, some, arith, nat_eq,
  string_eq, pair_eq, ◌&&◌, inl, inr, if_keeps, is_some, Option-cases, ==_iff,
}
use ai_ontology_com.Common.Map
use ai_ontology_com.Common.Map.{Map}
use ai_ontology_com.Common.Set
use ai_ontology_com.Common.Result.{ok}
use ai_ontology_com.Graph.Ids
use ai_ontology_com.Graph.Model.{Concept}
use ai_ontology_com.Graph.State.{
  OntologyGraph, Slot, Loc, evict_at, sealable_push, listed, new_slot, derived, bump_concepts_gen,
}
use ai_ontology_com.Graph.Concepts.{taken_by_other, name_key}
use ai_ontology_com.Graph.Concepts.Apply.{
  push_pending, relist, list_concept, unlist_concept, place_concept, or_else, loc_of,
  unbind_renamed, relist_renamed, replace_concept, prev_key, rename_key,
}
use ai_ontology_com.Graph.Payloads.{set_loc, drop_payload, drop_payloads, partition_sealed}

module _ (to_lowercase : String → String) where
  abbrev pub key_of : Option Slot → Option (String × String)
  key_of none = none
  key_of (some slot) = some (prev_key to_lowercase slot)

  -- A key stands in the index for the concept that has this type and lowercase name, and no other.
  abbrev pub IsNamed : OntologyGraph → Type 0
  IsNamed g =
      (k : String × String) (id : ℕ)
      → (Map.get g.name_index k ≡ some id) ↔ (key_of (Map.get g.concepts id) ≡ some k)

  abbrev pub SameNames : OntologyGraph → OntologyGraph → Type 0
  SameNames g h =
      ((i : ℕ) → key_of (Map.get h.concepts i) ≡ key_of (Map.get g.concepts i))
      × (h.name_index ≡ g.name_index)

  pub SameNames-IsNamed : (g h : OntologyGraph) → SameNames g h → IsNamed g → IsNamed h
  SameNames-IsNamed g h (slots, index) n k id = ground (arith, slots id, index, n k id)

  then_same : (f g h : OntologyGraph) → SameNames f g → SameNames g h → SameNames f h
  then_same f g h (s, e) (t, u) = (λ i. t i ∙ s i, u ∙ e)

  -- Only the location and the payload of a slot change.
  relocated :
      (g : OntologyGraph) (id : ℕ) (slot slot' : Slot) (i : ℕ)
      → Map.get g.concepts id ≡ some slot
      → slot'.concept_type ≡ slot.concept_type
      → slot'.name ≡ slot.name
      → key_of (Map.get (Map.insert g.concepts id slot') i) ≡ key_of (Map.get g.concepts i)
  relocated g id slot slot' i e t n =
      ground (arith, Map.get-insert g.concepts id slot' i, ==_iff id i, e, t, n)

  evict_at-SameNames : (g : OntologyGraph) (id : ℕ) (loc : Loc) → SameNames g (evict_at g id loc)
  unfolding evict_at
  evict_at-SameNames g id loc = elim (Option-cases (Map.get g.concepts id)) [
    | inl e ↦ (λ i. ground (arith, e), ground (arith, e))
    | inr (slot, e) ↦ (
      λ i. ground (arith, e, relocated g id slot (record slot { payload = none }) i e refl refl),
      ground (arith, e),
    )
  ]

  sealable_push-SameNames :
      (g : OntologyGraph) (id : ℕ) (loc : Loc) → SameNames g (sealable_push g id loc)
  unfolding sealable_push
  sealable_push-SameNames g id loc =
      if_keeps (SameNames g) (Set.mem g.sealed (loc.ns_id, loc.partition) && is_some g.source) _ _
        (λ t. evict_at-SameNames g id loc) (λ t. (λ i. refl, refl))

  pub set_loc-SameNames :
      (g : OntologyGraph) (id : ℕ) (loc : Loc) (resident : Bool)
      → SameNames g (set_loc g id loc resident)
  unfolding set_loc Map.get
  set_loc-SameNames g id loc resident = elim (Option-cases (Map.get g.concepts id)) [
    | inl e ↦ rw (e, set_loc) (λ i. refl, refl)
    | inr (slot, e) ↦
        rw (e, set_loc)
          (if_keeps (SameNames g) (resident && not (is_some slot.payload)) _ _
            (λ _. (λ i. refl, refl))
            (λ t.
              if_keeps (SameNames g) (not resident && is_some g.source) _ _
                (λ u. (
                  λ i.
                      relocated g id slot (record slot { loc = some loc; payload = none }) i e refl
                        refl,
                  refl,
                ))
                (λ u.
                  let g1 : OntologyGraph = record g {
                    concepts = Map.insert g.concepts id (record slot { loc = some loc });
                  } in
                  then_same g g1 (sealable_push g1 id loc)
                    (λ i. relocated g id slot (record slot { loc = some loc }) i e refl refl, refl)
                    (sealable_push-SameNames g1 id loc))))
  ]

  push_pending-SameNames :
      (g : OntologyGraph) (id : ℕ) (loc : Option Loc)
      → SameNames g (push_pending to_lowercase g id loc)
  unfolding push_pending
  push_pending-SameNames g id none = (λ i. refl, refl)
  push_pending-SameNames g id (some loc) = sealable_push-SameNames g id loc

  relist-SameNames :
      (g : OntologyGraph) (prev : Option Slot) (c : Concept)
      → SameNames g (relist to_lowercase g prev c)
  unfolding relist list_concept unlist_concept bump_concepts_gen
  relist-SameNames g none c = (λ i. ground arith, ground arith)
  relist-SameNames g (some prev) c = (λ i. ground arith, ground arith)

  -- The concept takes the key, and gives up the one it had.
  rebound :
      (g : OntologyGraph) (c : Concept) (slot : Slot)
      → IsNamed g
      → taken_by_other (Map.get g.name_index (name_key to_lowercase c)) c.id ≡ false
      → prev_key to_lowercase slot ≡ name_key to_lowercase c
      → (k : String × String) (id : ℕ)
      → (Map.get
            (Map.insert
              (unbind_renamed to_lowercase g.name_index (Map.get g.concepts c.id) c)
              (name_key to_lowercase c)
              c.id)
            k
          ≡ some id)
        ↔ (key_of (Map.get (Map.insert g.concepts c.id slot) id) ≡ some k)
  unfolding unbind_renamed
  rebound g c slot n free same k id = elim (Option-cases (Map.get g.concepts c.id)) [
    | inl e ↦ ground (
      arith,
      e,
      n k id,
      n k c.id,
      Map.get-insert g.concepts c.id slot id,
      Map.get-insert g.name_index (name_key to_lowercase c) c.id k,
      ==_iff (name_key to_lowercase c) k,
      ==_iff c.id id,
    )
    | inr (p, e) ↦ ground (
      arith,
      e,
      n k id,
      n k c.id,
      Map.get-insert g.concepts c.id slot id,
      Map.get-insert g.name_index (name_key to_lowercase c) c.id k,
      Map.get-insert (Map.remove g.name_index (prev_key to_lowercase p)) (name_key to_lowercase c)
          c.id k,
      Map.get-remove g.name_index (prev_key to_lowercase p) k,
      ==_iff (name_key to_lowercase c) k,
      ==_iff (prev_key to_lowercase p) k,
      ==_iff (prev_key to_lowercase p) (name_key to_lowercase c),
      ==_iff c.id id,
    )
  ]

  pub place_concept-IsNamed :
      (g : OntologyGraph) (c : Concept)
      → IsNamed g
      → taken_by_other (Map.get g.name_index (name_key to_lowercase c)) c.id ≡ false
      → IsNamed (place_concept to_lowercase g c)
  unfolding place_concept
  place_concept-IsNamed g c n free =
      let prev = Map.get g.concepts c.id in
      let pending = Map.get g.pending_locs c.id in
      let slot : Slot = record (new_slot c) {
        loc = or_else to_lowercase pending (loc_of to_lowercase prev);
      } in
      let g1 : OntologyGraph = record g {
        ids = Ids.observe_concept g.ids c.id;
        name_index =
            Map.insert (unbind_renamed to_lowercase g.name_index prev c) (name_key to_lowercase c)
              c.id;
        pending_locs = Map.remove g.pending_locs c.id;
        concepts = Map.insert g.concepts c.id slot;
      } in
      let g2 = push_pending to_lowercase g1 c.id pending in
      let named : IsNamed g2 =
        SameNames-IsNamed g1 g2 (push_pending-SameNames g1 c.id pending)
          (rebound g c slot n free refl) in
      if_keeps IsNamed (derived g2) (relist to_lowercase g2 prev c) g2
        (λ _.
          SameNames-IsNamed g2 (relist to_lowercase g2 prev c) (relist-SameNames g2 prev c) named)
        (λ _. named)

  replaced :
      (g : OntologyGraph) (entry : Slot) (c : Concept) (slot : Slot)
      (index : Map (String × String) ℕ)
      → IsNamed g
      → Map.get g.concepts c.id ≡ some entry
      → rename_key to_lowercase g entry c ≡ ok index
      → slot.concept_type ≡ entry.concept_type
      → slot.name ≡ c.name
      → (k : String × String) (id : ℕ)
      → (Map.get index k ≡ some id)
        ↔ (key_of (Map.get (Map.insert g.concepts c.id slot) id) ≡ some k)
  unfolding rename_key
  replaced g entry c slot index n there h t e k id =
      let old = prev_key to_lowercase entry in
      let new_key : String × String = (entry.concept_type, to_lowercase c.name) in
      ground (
        arith,
        there,
        t,
        e,
        n k id,
        n k c.id,
        Map.get-insert g.concepts c.id slot id,
        Map.get-insert (Map.remove g.name_index old) new_key c.id k,
        Map.get-remove g.name_index old k,
        ==_iff new_key k,
        ==_iff old k,
        ==_iff old new_key,
        ==_iff entry.name c.name,
        ==_iff c.id id,
      )

  relist_renamed-SameNames :
      (g : OntologyGraph) (entry : Slot) (c : Concept)
      → SameNames g (relist_renamed to_lowercase g entry c)
  unfolding relist_renamed list_concept unlist_concept
  relist_renamed-SameNames g entry c = (λ i. ground arith, ground arith)

  bump-SameNames : (g : OntologyGraph) → SameNames g (bump_concepts_gen g)
  unfolding bump_concepts_gen
  bump-SameNames g = (λ i. ground arith, ground arith)

  pub replace_concept-IsNamed :
      (g : OntologyGraph) (entry : Slot) (c : Concept) (index : Map (String × String) ℕ)
      → IsNamed g
      → Map.get g.concepts c.id ≡ some entry
      → rename_key to_lowercase g entry c ≡ ok index
      → IsNamed (replace_concept to_lowercase g entry c index)
  unfolding replace_concept
  replace_concept-IsNamed g entry c index n there h =
      let pending = Map.get g.pending_locs c.id in
      let slot : Slot = record (new_slot c) {
        concept_type = entry.concept_type;
        loc = or_else to_lowercase pending entry.loc;
      } in
      let g1 : OntologyGraph = record g {
        name_index = index;
        pending_locs = Map.remove g.pending_locs c.id;
        concepts = Map.insert g.concepts c.id slot;
      } in
      let g2 = relist_renamed to_lowercase g1 entry c in
      let g3 = push_pending to_lowercase g2 c.id pending in
      let all_same = then_same g1 g2 (bump_concepts_gen g3) (relist_renamed-SameNames g1 entry c) (
        then_same g2 g3 (bump_concepts_gen g3) (push_pending-SameNames g2 c.id pending)
          (bump-SameNames g3)) in
      SameNames-IsNamed g1 (bump_concepts_gen g3) all_same
        (replaced g entry c slot index n there h refl refl)

  drop_payload-key :
      (concepts : Map ℕ Slot) (ns_id partition id i : ℕ)
      → key_of (Map.get (drop_payload concepts ns_id partition id).0 i)
        ≡ key_of (Map.get concepts i)
  unfolding drop_payload
  drop_payload-key concepts ns_id partition id i = elim (Option-cases (Map.get concepts id)) [
    | inl e ↦ ground (arith, e)
    | inr (slot, e) ↦
        ground
          (arith, e, ==_iff id i, Map.get-insert concepts id (record slot { payload = none }) i)
  ]

  drop_payloads-key :
      (concepts : Map ℕ Slot) (ns_id partition : ℕ) (ids : List ℕ) (i : ℕ)
      → key_of (Map.get (drop_payloads concepts ns_id partition ids).0 i)
        ≡ key_of (Map.get concepts i)
  unfolding drop_payloads
  drop_payloads-key concepts ns_id partition [] i = refl
  drop_payloads-key concepts ns_id partition (id ∷ ids) i =
      drop_payloads-key (drop_payload concepts ns_id partition id).0 ns_id partition ids i
      ∙ drop_payload-key concepts ns_id partition id i

  pub partition_sealed-SameNames :
      (g : OntologyGraph) (ns_id partition : ℕ) → SameNames g (partition_sealed g ns_id partition).0
  unfolding partition_sealed
  partition_sealed-SameNames g ns_id partition =
      let ids = listed (Map.get g.sealable (ns_id, partition)) in
      (λ i. ground (arith, drop_payloads-key g.concepts ns_id partition ids i), ground arith)

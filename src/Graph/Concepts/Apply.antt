-- ===== src/Graph/Concepts/Apply.antt =====
-- crates/graph/src/graph.rs: inserting, replacing and updating concepts.
use ai_ontology_com.Common.{
  ℕ, String, not, ◌&&◌, ◌||◌, Option, none, some, ◌==◌, nat_eq, string_eq, pair_eq, if◌then◌else◌,
}
use ai_ontology_com.Common.Map
use ai_ontology_com.Common.Map.{Map}
use ai_ontology_com.Common.Set
use ai_ontology_com.Common.Set.{Set}
use ai_ontology_com.Common.Result.{ok, err, ◌>>=◌}
use ai_ontology_com.Graph.Ids
use ai_ontology_com.Graph.Ids.{IdAllocator, fits_storage}
use ai_ontology_com.Graph.Model.{
  Concept, ConceptPatch, GraphResult, unknown_concept, duplicate_concept, immutable_concept_type,
  not_prepared,
}
use ai_ontology_com.Graph.Schema.{concept_type}
use ai_ontology_com.Graph.State.{
  OntologyGraph, Slot, Loc, new_slot, derived, bump_concepts_gen, get_concept, sealable_push,
}
use ai_ontology_com.Graph.Concepts.{
  taken_by_other, name_key, check_type, prepare_concept, validate_concept_schema,
}

-- The index of the listings, without and with a concept.
unfoldable pub unlist_concept : OntologyGraph → String → String → ℕ → OntologyGraph
unlist_concept g concept_type name id = record g {
  concepts_sorted = Set.remove g.concepts_sorted (concept_type, (name, id));
  concepts_by_type = unlisted (Map.get g.concepts_by_type concept_type);
}
  where
    unlisted : Option (Set (String × ℕ)) → Map String (Set (String × ℕ))
    unlisted none = g.concepts_by_type
    unlisted (some bucket) =
        Map.insert g.concepts_by_type concept_type (Set.remove bucket (name, id))

abbrev pub bucket_of : Option (Set (String × ℕ)) → Set (String × ℕ)
bucket_of none = Set.empty
bucket_of (some bucket) = bucket

unfoldable pub list_concept : OntologyGraph → String → String → ℕ → OntologyGraph
list_concept g concept_type name id = record g {
  concepts_sorted = Set.insert g.concepts_sorted (concept_type, (name, id));
  concepts_by_type =
      Map.insert g.concepts_by_type concept_type
        (Set.insert (bucket_of (Map.get g.concepts_by_type concept_type)) (name, id));
}

module _ (to_lowercase : String → String) where
  abbrev pub prev_key : Slot → String × String
  prev_key s = (s.concept_type, to_lowercase s.name)

  -- An upsert with a rename drops the old binding.
  unfoldable pub unbind_renamed :
      Map (String × String) ℕ → Option Slot → Concept → Map (String × String) ℕ
  unbind_renamed index none c = index
  unbind_renamed index (some prev) c =
      if prev_key prev == name_key to_lowercase c then index else Map.remove index (prev_key prev)

  abbrev pub loc_of : Option Slot → Option Loc
  loc_of none = none
  loc_of (some slot) = slot.loc

  abbrev pub or_else {ℓ} : {A : Type ℓ} → Option A → Option A → Option A
  or_else none other = other
  or_else (some a) other = some a

  unfoldable pub push_pending : OntologyGraph → ℕ → Option Loc → OntologyGraph
  push_pending g id none = g
  push_pending g id (some loc) = sealable_push g id loc

  unfoldable pub relist : OntologyGraph → Option Slot → Concept → OntologyGraph
  unfolding unlist_concept list_concept
  relist g none c = bump_concepts_gen (list_concept g c.concept_type c.name c.id)
  relist g (some prev) c = bump_concepts_gen (
      if prev.concept_type == c.concept_type && prev.name == c.name
      then list_concept g c.concept_type c.name c.id
      else list_concept (unlist_concept g prev.concept_type prev.name c.id) c.concept_type c.name
          c.id)

  -- The insertion, once nothing can refuse it.
  unfoldable pub place_concept : OntologyGraph → Concept → OntologyGraph
  unfolding unbind_renamed push_pending relist
  place_concept g c =
      let prev = Map.get g.concepts c.id in
      let pending = Map.get g.pending_locs c.id in
      let slot : Slot = record (new_slot c) { loc = or_else pending (loc_of prev) } in
      let g1 : OntologyGraph = record g {
        ids = Ids.observe_concept g.ids c.id;
        name_index = Map.insert (unbind_renamed g.name_index prev c) (name_key to_lowercase c) c.id;
        pending_locs = Map.remove g.pending_locs c.id;
        concepts = Map.insert g.concepts c.id slot;
      } in
      let g2 = push_pending g1 c.id pending in if derived g2 then relist g2 prev c else g2

  unfoldable pub apply_prepared_concept : OntologyGraph → Concept → GraphResult (ℕ × OntologyGraph)
  unfolding check_type
  apply_prepared_concept g c =
      if c.id == 0
      then err (not_prepared "concept")
      else if taken_by_other (Map.get g.name_index (name_key to_lowercase c)) c.id
      then err (duplicate_concept c.name c.concept_type)
      else do _ ← check_type to_lowercase g c; ok (c.id, place_concept g c)

  -- `upsert_concept`: prepared and applied at once.
  unfoldable pub upsert_concept : OntologyGraph → Concept → GraphResult ℕ × OntologyGraph
  upsert_concept g c = let (prepared, g') = prepare_concept to_lowercase g c in applied prepared g'
    where
      placed : GraphResult (ℕ × OntologyGraph) → OntologyGraph → GraphResult ℕ × OntologyGraph
      placed (err e) g' = (err e, g')
      placed (ok (id, g'')) g' = (ok id, g'')

      applied : GraphResult Concept → OntologyGraph → GraphResult ℕ × OntologyGraph
      applied (err e) g' = (err e, g')
      applied (ok c') g' = placed (apply_prepared_concept g' c') g'

  -- The name that a patch gives, if another concept does not have it.
  unfoldable pub patch_name : OntologyGraph → Concept → Option String → GraphResult Concept
  patch_name g c none = ok c
  patch_name g c (some name) =
      if taken_by_other (Map.get g.name_index (c.concept_type, to_lowercase name)) c.id
      then err (duplicate_concept name c.concept_type)
      else ok (record c { name = name })

  abbrev pub or_kept {ℓ} : {A : Type ℓ} → Option A → A → A
  or_kept none kept = kept
  or_kept (some a) kept = a

  unfoldable pub preview_concept_update : OntologyGraph → ℕ → ConceptPatch → GraphResult Concept
  unfolding patch_name
  preview_concept_update g id patch = do
    c ← get_concept g id
    renamed ← patch_name g c patch.name
    let updated : Concept = record renamed {
      description = or_kept patch.description c.description;
      properties = or_kept patch.properties c.properties;
    }
    _ ← validate_concept_schema to_lowercase g updated
    ok updated

  -- The index of names after a rename; the old and the new key may be one.
  unfoldable pub rename_key : OntologyGraph → Slot → Concept → GraphResult (Map (String × String) ℕ)
  rename_key g entry updated =
      let old_key : String × String = prev_key entry in
      let new_key : String × String = (entry.concept_type, to_lowercase updated.name) in
      if entry.name == updated.name || old_key == new_key
      then ok g.name_index
      else if taken_by_other (Map.get g.name_index new_key) updated.id
      then err (duplicate_concept updated.name entry.concept_type)
      else ok (Map.insert (Map.remove g.name_index old_key) new_key updated.id)

  unfoldable pub relist_renamed : OntologyGraph → Slot → Concept → OntologyGraph
  unfolding unlist_concept list_concept
  relist_renamed g entry updated =
      if not (entry.name == updated.name) && derived g
      then list_concept (unlist_concept g entry.concept_type entry.name updated.id)
          entry.concept_type updated.name updated.id
      else g

  unfoldable pub replace_concept :
      OntologyGraph → Slot → Concept → Map (String × String) ℕ → OntologyGraph
  unfolding relist_renamed push_pending
  replace_concept g entry updated index =
      let pending = Map.get g.pending_locs updated.id in
      let slot : Slot = record (new_slot updated) {
        concept_type = entry.concept_type;
        loc = or_else pending entry.loc;
      } in
      let g1 : OntologyGraph = record g {
        name_index = index;
        pending_locs = Map.remove g.pending_locs updated.id;
        concepts = Map.insert g.concepts updated.id slot;
      } in
      bump_concepts_gen (push_pending (relist_renamed g1 entry updated) updated.id pending)

  unfoldable pub update_entry : OntologyGraph → Slot → Concept → GraphResult OntologyGraph
  unfolding rename_key replace_concept
  update_entry g entry updated =
      if not (entry.concept_type == updated.concept_type)
      then err (immutable_concept_type entry.concept_type updated.concept_type)
      else do index ← rename_key g entry updated; ok (replace_concept g entry updated index)

  -- The returned snapshot is the updated concept itself.
  unfoldable pub apply_concept_update :
      OntologyGraph → Concept → GraphResult (Concept × OntologyGraph)
  unfolding update_entry
  apply_concept_update g updated = elim (Map.get g.concepts updated.id) [
    | none ↦ err (unknown_concept updated.id)
    | some entry ↦ do g' ← update_entry g entry updated; ok (updated, g')
  ]

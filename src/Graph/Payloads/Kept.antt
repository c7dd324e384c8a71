-- ===== src/Graph/Payloads/Kept.antt =====
-- crates/graph/src/graph.rs: in every run that keeps to the contract of `set_loc` and
-- `partition_sealed`, every concept can be answered.
use mathlib.Core.Path.{subst}
use ai_ontology_com.Common.{
  ℕ, ◌≡◌, refl, String, Bool, true, false, List, ◌∷◌, [], some, arith, nat_eq, pair_eq, string_eq,
  inl, inr, ◌⊎◌, Option-cases,
}
use ai_ontology_com.Common.Map
use ai_ontology_com.Common.Set
use ai_ontology_com.Common.Result.{ok, Result-cases}
use ai_ontology_com.Graph.Model.{Concept}
use ai_ontology_com.Graph.Schema.{Ontology}
use ai_ontology_com.Graph.State.{
  OntologyGraph, Slot, Loc, Payload, PayloadSource, new, bump_concepts_gen, bump_relations_gen,
  get_concept, read_payload,
}
use ai_ontology_com.Graph.Concepts.Apply.{
  place_concept, unlist_concept, replace_concept, apply_prepared_concept, apply_concept_update,
  update_entry, rename_key,
}
use ai_ontology_com.Graph.Removal.{
  remove_concept, scrub, scrub_all, unlink, drop_lists, forget_concept, edge_ids,
}
use ai_ontology_com.Graph.Payloads.{set_payload_source}
use ai_ontology_com.Graph.Payloads.Run.{
  Step, attach, locate, seal, insert, update, remove, Reachable, initial, then_step, removed_keeps,
  Reachable-IsReadable,
}
use ai_ontology_com.Graph.Payloads.Held.{Reads, IsHeld, set_loc-IsHeld, partition_sealed-IsHeld}
use ai_ontology_com.Graph.Payloads.Placed.{place_concept-IsHeld, replace_concept-IsHeld}

scrub_all_pending :
    (g : OntologyGraph) (d : ℕ) (l : List ℕ)
    → ((scrub_all g d l).pending_locs ≡ g.pending_locs) × ((scrub_all g d l).sealed ≡ g.sealed)
unfolding scrub_all scrub unlink
scrub_all_pending g d [] = (refl, refl)
scrub_all_pending g d (rid ∷ rest) = ground (arith, scrub_all_pending (scrub g d rid) d rest)

removed_pending :
    (to_lowercase : String → String) (g : OntologyGraph) (id : ℕ) (l : List ℕ) (g' : OntologyGraph)
    → remove_concept to_lowercase g id ≡ ok (l, g')
    → (g'.pending_locs ≡ g.pending_locs) × (g'.sealed ≡ g.sealed)
unfolding remove_concept drop_lists forget_concept unlist_concept bump_concepts_gen
    bump_relations_gen
removed_pending to_lowercase g id l g' h = elim (Option-cases (Map.get g.concepts id)) [
  | inl e ↦ absurd (ground (arith, e))
  | inr (slot, e) ↦ ground (
    arith,
    e,
    scrub_all_pending (drop_lists (forget_concept to_lowercase g id slot) id) id (edge_ids g id),
  )
]

-- `located` tells which concept's record stands where, `is_sealed` which partitions are sealed.
module _ (to_lowercase : String → String) (located : ℕ → Loc → Bool)
    (is_sealed : ℕ → ℕ → Bool) where
  -- What a caller owes: a source that reads what is sealed; the location of the concept's own record,
  -- in a sealed partition when the payload is not to stay in memory; and a partition that is sealed.
  unfoldable pub Owed : (g g' : OntologyGraph) → Step to_lowercase g g' → Type 0
  Owed g _ (attach source) = Reads located is_sealed source
  Owed g _ (locate id loc resident) =
      (located id loc ≡ true) × (resident ≡ false → is_sealed loc.ns_id loc.partition ≡ true)
  Owed g _ (seal ns_id partition) = is_sealed ns_id partition ≡ true
  Owed g _ (insert c id g' h) = Unit {0}
  Owed g _ (update c c' g' h) = Unit {0}
  Owed g _ (remove id l g' h) = Unit {0}

  -- Runs from the empty graph in which each call is as its caller owes.
  pub data Kept (o : Ontology) : OntologyGraph → Type 0 where
    begin : Kept o (new o)
    and_then :
        (g g' : OntologyGraph)
        → Kept o g
        → (step : Step to_lowercase g g') → Owed g g' step
        → Kept o g'

  Kept-Reachable : (o : Ontology) (g : OntologyGraph) → Kept o g → Reachable to_lowercase o g
  Kept-Reachable o _ begin = initial
  Kept-Reachable o _ (and_then g g' before step owed) =
      then_step g g' (Kept-Reachable o g before) step

  inserted-IsHeld :
      (g : OntologyGraph) (c : Concept) (id : ℕ) (g' : OntologyGraph)
      → apply_prepared_concept to_lowercase g c ≡ ok (id, g')
      → IsHeld located is_sealed g
      → IsHeld located is_sealed g'
  unfolding apply_prepared_concept
  inserted-IsHeld g c id g' h r =
      let same : place_concept to_lowercase g c ≡ g' = ground arith in
      subst (IsHeld located is_sealed) same
        (place_concept-IsHeld located is_sealed to_lowercase g c r)

  updated-IsHeld :
      (g : OntologyGraph) (c c' : Concept) (g' : OntologyGraph)
      → apply_concept_update to_lowercase g c ≡ ok (c', g')
      → IsHeld located is_sealed g
      → IsHeld located is_sealed g'
  unfolding apply_concept_update update_entry
  updated-IsHeld g c c' g' h r = elim (Option-cases (Map.get g.concepts c.id)) [
    | inl e ↦ absurd (ground (arith, e))
    | inr (entry, e) ↦ elim (Result-cases (rename_key to_lowercase g entry c)) [
      | inr (x, k) ↦ absurd (ground (arith, e, k))
      | inl (index, k) ↦
          let same : replace_concept to_lowercase g entry c index ≡ g' = ground (arith, e, k) in
          subst (IsHeld located is_sealed) same
            (replace_concept-IsHeld located is_sealed to_lowercase g entry c index e r)
    ]
  ]

  removed-IsHeld :
      (g : OntologyGraph) (id : ℕ) (l : List ℕ) (g' : OntologyGraph)
      → remove_concept to_lowercase g id ≡ ok (l, g')
      → IsHeld located is_sealed g
      → IsHeld located is_sealed g'
  removed-IsHeld g id l g' h r =
      let (concepts, source) = removed_keeps to_lowercase g id l g' h in
      let (pending, sealed) = removed_pending to_lowercase g id l g' h in
      record {
        slots = λ i. ground (arith, concepts, Map.get-remove g.concepts id i, r.slots i);
        pending = λ i. ground (arith, pending, r.pending i);
        sealed = λ k. ground (arith, sealed, r.sealed k);
        reader = λ s e. r.reader s (ground (arith, source, e));
      }

  Step-IsHeld :
      (g g' : OntologyGraph) (step : Step to_lowercase g g')
      → Owed g g' step
      → IsHeld located is_sealed g
      → IsHeld located is_sealed g'
  unfolding set_payload_source Owed
  Step-IsHeld g _ (attach source) owed r = record {
    slots = r.slots;
    pending = r.pending;
    sealed = r.sealed;
    reader = λ s e. subst (Reads located is_sealed) (ground (arith, e)) owed;
  }
  Step-IsHeld g _ (locate id loc resident) (l, s) r =
      set_loc-IsHeld located is_sealed g id loc resident l s r
  Step-IsHeld g _ (seal ns_id partition) s r =
      partition_sealed-IsHeld located is_sealed g ns_id partition s r
  Step-IsHeld g _ (insert c id g' h) _ r = inserted-IsHeld g c id g' h r
  Step-IsHeld g _ (update c c' g' h) _ r = updated-IsHeld g c c' g' h r
  Step-IsHeld g _ (remove id l g' h) _ r = removed-IsHeld g id l g' h r

  Kept-IsHeld : (o : Ontology) (g : OntologyGraph) → Kept o g → IsHeld located is_sealed g
  unfolding new
  Kept-IsHeld o _ begin = record {
    slots = λ i. ground (arith, Map.get-empty {V = Slot} i);
    pending = λ i. ground (arith, Map.get-empty {V = Loc} i);
    sealed = λ k h. absurd (ground (arith, h, Set.mem-empty k));
    reader = λ s e. absurd (ground (arith, e));
  }
  Kept-IsHeld o _ (and_then g g' before step owed) =
      Step-IsHeld g g' step owed (Kept-IsHeld o g before)

  -- In every graph made of an empty one by calls of `set_payload_source`, `set_loc`,
  -- `partition_sealed`, `apply_prepared_concept`, `apply_concept_update` and `remove_concept`, each
  -- concept is answered by `get_concept`: from memory, or by the attached source from the slot's
  -- location, which is that of the concept's own record in a sealed partition. The callers owe a source
  -- that reads the records of sealed partitions, locations of the concept's own record, which are in a
  -- sealed partition where the payload is not to stay in memory, and partitions that are sealed.
  pub get_concept-Kept :
      (o : Ontology) (g : OntologyGraph) (id : ℕ) (slot : Slot)
      → Kept o g
      → Map.get g.concepts id ≡ some slot
      → ((p : Payload) × (slot.payload ≡ some p)
          × (get_concept g id
              ≡ ok (record {
                id = id;
                concept_type = slot.concept_type;
                name = slot.name;
                description = p.description;
                properties = p.properties;
              })))
        ⊎ ((loc : Loc) × (source : PayloadSource) × (c : Concept) × (slot.loc ≡ some loc)
            × (g.source ≡ some source)
            × (located id loc ≡ true)
            × (is_sealed loc.ns_id loc.partition ≡ true)
            × (source loc ≡ ok c)
            × (get_concept g id ≡ ok c))
  unfolding get_concept read_payload
  get_concept-Kept o g id slot kept there =
      let r = Kept-IsHeld o g kept in
      let readable = Reachable-IsReadable to_lowercase o g (Kept-Reachable o g kept) id in
      elim (Option-cases slot.payload) [
        | inr (p, e) ↦ inl (p, e, ground (arith, there, e))
        | inl e ↦ elim (Option-cases slot.loc) [
          | inl l ↦ absurd (ground (arith, readable, there, e, l))
          | inr (loc, l) ↦ elim (Option-cases g.source) [
            | inl s ↦ absurd (ground (arith, readable, there, e, l, s))
            | inr (source, s) ↦
                let its : located id loc ≡ true = ground (arith, r.slots id, there, e, l) in
                let there' : is_sealed loc.ns_id loc.partition ≡ true =
                  ground (arith, r.slots id, there, e, l) in
                let (c, read, own) = r.reader source s id loc its there' in
                inr (
                  loc,
                  source,
                  c,
                  l,
                  s,
                  its,
                  there',
                  read,
                  ground (arith, there, e, l, s, read, own),
                )
          ]
        ]
      ]

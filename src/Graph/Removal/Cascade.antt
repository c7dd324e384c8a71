-- ===== src/Graph/Removal/Cascade.antt =====
-- crates/graph/src/graph.rs: a removed concept takes its relations with it, and no other.
use mathlib.Core.Path.{ap, ◌∙◌}
use ai_ontology_com.Common.{
  ℕ, ◌≡◌, refl, String, Bool, true, false, ◌||◌, List, [], ◌∷◌, ◌++◌, Option, none, some, arith,
  ◌==◌, nat_eq, string_eq, if◌then◌else◌, contains, contains-append, ==_iff, inl, inr, Option-cases,
}
use ai_ontology_com.Common.Map
use ai_ontology_com.Common.Map.{Map}
use ai_ontology_com.Common.Result.{ok}
use ai_ontology_com.Graph.Model.{Relation}
use ai_ontology_com.Graph.State.{OntologyGraph, Slot, listed, bump_concepts_gen, bump_relations_gen}
use ai_ontology_com.Graph.Relations.Adjacency.{IsIndexed, leaves, enters}
use ai_ontology_com.Graph.Concepts.Apply.{unlist_concept}
use ai_ontology_com.Graph.Removal.{
  insert_once, sort_dedup, edge_ids, incident_relation_ids, scrub, scrub_all, drop_lists, unlink,
  forget_concept, remove_concept,
}
use ai_ontology_com.Graph.Removal.One.{IsIndexedBut, unlink-IsIndexedBut}

contains-insert_once :
    (x : ℕ) (l : List ℕ) (i : ℕ) → contains (insert_once x l) i ≡ (x == i || contains l i)
unfolding insert_once
contains-insert_once x [] i = ground arith
contains-insert_once x (y ∷ ys) i = ground (arith, contains-insert_once x ys i)

contains-sort_dedup : (l : List ℕ) (i : ℕ) → contains (sort_dedup l) i ≡ contains l i
unfolding sort_dedup
contains-sort_dedup [] i = refl
contains-sort_dedup (x ∷ xs) i =
    ground (arith, contains-insert_once x (sort_dedup xs) i, contains-sort_dedup xs i)

-- One of the relation's ends is `d`.
abbrev pub touches : Option Relation → ℕ → Bool
touches r d = leaves r d || enters r d

contains-edge_ids :
    (g : OntologyGraph) (d i : ℕ)
    → IsIndexed g
    → contains (edge_ids g d) i ≡ touches (Map.get g.relations i) d
unfolding edge_ids
contains-edge_ids g d i ix = ground (
  arith,
  contains-sort_dedup (listed (Map.get g.out_edges d) ++ listed (Map.get g.in_edges d)) i,
  contains-append (listed (Map.get g.out_edges d)) (listed (Map.get g.in_edges d)) i,
  ix.outgoing d i,
  ix.incoming d i,
)

-- The node whose lists are gone
abbrev only : ℕ → ℕ → Bool
only d n = d == n

drop_lists-IsIndexedBut :
    (g : OntologyGraph) (d : ℕ) → IsIndexed g → IsIndexedBut (only d) (drop_lists g d)
unfolding drop_lists
drop_lists-IsIndexedBut g d ix = record {
  outgoing = λ n i. ground (arith, Map.get-remove g.out_edges d n, ix.outgoing n i);
  incoming = λ n i. ground (arith, Map.get-remove g.in_edges d n, ix.incoming n i);
  outgoing_typed = λ n t i. ground (
    arith,
    Map.get-remove g.out_edges_typed d n,
    ix.outgoing_typed n t i,
    Map.get-empty {V = List ℕ} t,
  );
  incoming_typed = λ n t i. ground (
    arith,
    Map.get-remove g.in_edges_typed d n,
    ix.incoming_typed n t i,
    Map.get-empty {V = List ℕ} t,
  );
}

-- What the loop is given touches `d` or is gone already.
abbrev touches_or_gone : Option Relation → ℕ → Bool
touches_or_gone none d = true
touches_or_gone (some r) d = touches (some r) d

scrub-get :
    (g : OntologyGraph) (d rid i : ℕ)
    → Map.get (scrub g d rid).relations i ≡ (if rid == i then none else Map.get g.relations i)
unfolding scrub unlink
scrub-get g d rid i = elim (Option-cases (Map.get g.relations rid)) [
  | inl e ↦ ground (arith, e, ==_iff rid i)
  | inr (rel, e) ↦ ground (arith, e, Map.get-remove g.relations rid i)
]

scrub-IsIndexedBut :
    (g : OntologyGraph) (d rid : ℕ)
    → IsIndexedBut (only d) g
    → touches_or_gone (Map.get g.relations rid) d ≡ true
    → IsIndexedBut (only d) (scrub g d rid)
unfolding scrub
scrub-IsIndexedBut g d rid ix h = elim (Option-cases (Map.get g.relations rid)) [
  | inl e ↦ rw (e, scrub) ix
  | inr (rel, e) ↦
      let other = if rel.source == d then rel.target else rel.source in
      rw (e, scrub)
        (unlink-IsIndexedBut (only d) g rid rel other other ix e
          (ground (arith, e, ==_iff rel.source d, ==_iff rel.target d))
          (ground (arith, e, ==_iff rel.source d, ==_iff rel.target d)))
]

scrub_all-get :
    (g : OntologyGraph) (d : ℕ) (l : List ℕ) (i : ℕ)
    → Map.get (scrub_all g d l).relations i ≡ (if contains l i then none else Map.get g.relations i)
unfolding scrub_all
scrub_all-get g d [] i = refl
scrub_all-get g d (rid ∷ rest) i =
    ground (arith, scrub_all-get (scrub g d rid) d rest i, scrub-get g d rid i)

scrub_all-IsIndexedBut :
    (g : OntologyGraph) (d : ℕ) (l : List ℕ)
    → IsIndexedBut (only d) g
    → ((i : ℕ) → contains l i ≡ true → touches_or_gone (Map.get g.relations i) d ≡ true)
    → IsIndexedBut (only d) (scrub_all g d l)
unfolding scrub_all
scrub_all-IsIndexedBut g d [] ix h = ix
scrub_all-IsIndexedBut g d (rid ∷ rest) ix h =
    scrub_all-IsIndexedBut (scrub g d rid) d rest
      (scrub-IsIndexedBut g d rid ix (h rid (ground arith)))
      (λ i m. ground (arith, scrub-get g d rid i, h i))

-- The fields that the lists of relations stand in
abbrev SameEdges : OntologyGraph → OntologyGraph → Type 0
SameEdges g h =
    (h.out_edges ≡ g.out_edges)
    × (h.in_edges ≡ g.in_edges)
    × (h.out_edges_typed ≡ g.out_edges_typed)
    × (h.in_edges_typed ≡ g.in_edges_typed)
    × (h.relations ≡ g.relations)

SameEdges-IsIndexed : (g h : OntologyGraph) → SameEdges g h → IsIndexed g → IsIndexed h
SameEdges-IsIndexed g h (o, i, ot, it, r) ix = record {
  outgoing = λ n k. ground (arith, o, r, ix.outgoing n k);
  incoming = λ n k. ground (arith, i, r, ix.incoming n k);
  outgoing_typed = λ n t k. rw (ot, r) (ix.outgoing_typed n t k);
  incoming_typed = λ n t k. rw (it, r) (ix.incoming_typed n t k);
}

bumped_edges : (g : OntologyGraph) → SameEdges g (bump_relations_gen (bump_concepts_gen g))
unfolding bump_relations_gen bump_concepts_gen
bumped_edges g = ground arith

bumped_concepts :
    (g : OntologyGraph) → (bump_relations_gen (bump_concepts_gen g)).concepts ≡ g.concepts
unfolding bump_relations_gen bump_concepts_gen
bumped_concepts g = ground arith

scrub_all-concepts :
    (g : OntologyGraph) (d : ℕ) (l : List ℕ) → (scrub_all g d l).concepts ≡ g.concepts
unfolding scrub_all scrub unlink
scrub_all-concepts g d [] = refl
scrub_all-concepts g d (rid ∷ rest) = ground (arith, scrub_all-concepts (scrub g d rid) d rest)

-- The nodes without lists are the removed concept, which nothing touches any more.
all_gone :
    (g : OntologyGraph) (d : ℕ)
    → IsIndexedBut (only d) g
    → ((i : ℕ) → touches (Map.get g.relations i) d ≡ false)
    → IsIndexed g
all_gone g d ix h = record {
  outgoing = λ n i. ground (arith, ix.outgoing n i, h i, ==_iff d n);
  incoming = λ n i. ground (arith, ix.incoming n i, h i, ==_iff d n);
  outgoing_typed = λ n t i. ground (arith, ix.outgoing_typed n t i, h i, ==_iff d n);
  incoming_typed = λ n t i. ground (arith, ix.incoming_typed n t i, h i, ==_iff d n);
}

module _ (to_lowercase : String → String) where
  forgotten_edges :
      (g : OntologyGraph) (d : ℕ) (slot : Slot) → SameEdges g (forget_concept to_lowercase g d slot)
  unfolding forget_concept unlist_concept
  forgotten_edges g d slot = ground arith

  forgotten_concepts :
      (g : OntologyGraph) (d : ℕ) (slot : Slot)
      → (forget_concept to_lowercase g d slot).concepts ≡ Map.remove g.concepts d
  unfolding forget_concept unlist_concept
  forgotten_concepts g d slot = ground arith

  -- The whole cascade, on a graph whose lists agree with the table.
  module _ (g : OntologyGraph) (d : ℕ) (slot : Slot) (ix : IsIndexed g) where
    dropped : OntologyGraph
    dropped = drop_lists (forget_concept to_lowercase g d slot) d

    dropped_relations : dropped.relations ≡ g.relations
    unfolding dropped drop_lists
    dropped_relations = (forgotten_edges g d slot).4

    cascade : OntologyGraph
    cascade = scrub_all dropped d (edge_ids g d)

    cascade-get :
        (i : ℕ)
        → Map.get cascade.relations i
          ≡ (if touches (Map.get g.relations i) d then none else Map.get g.relations i)
    unfolding cascade
    cascade-get i = ground (
      arith,
      scrub_all-get dropped d (edge_ids g d) i,
      contains-edge_ids g d i ix,
      dropped_relations,
    )

    cascade-IsIndexed : IsIndexed cascade
    cascade-IsIndexed =
        all_gone cascade d
          (unfold cascade dropped in
            scrub_all-IsIndexedBut dropped d (edge_ids g d)
              (drop_lists-IsIndexedBut (forget_concept to_lowercase g d slot) d (
                SameEdges-IsIndexed g (forget_concept to_lowercase g d slot)
                  (forgotten_edges g d slot) ix))
              (λ i m. ground (arith, dropped_relations, contains-edge_ids g d i ix)))
          (λ i. ground (arith, cascade-get i))

    cascade-concepts : cascade.concepts ≡ Map.remove g.concepts d
    unfolding cascade dropped drop_lists
    cascade-concepts = scrub_all-concepts dropped d (edge_ids g d) ∙ forgotten_concepts g d slot

  -- With the lists in agreement with the table, removing a concept that is there succeeds. It
  -- answers what `incident_relation_ids` foretold: the ids of the relations with an end in it. It
  -- takes the concept and these relations out of their tables, and no other, and leaves the lists in
  -- agreement.
  pub remove_concept-IsIndexed :
      (g : OntologyGraph) (d : ℕ) (slot : Slot)
      → IsIndexed g
      → Map.get g.concepts d ≡ some slot
      → (removed : List ℕ) × (g' : OntologyGraph) × (remove_concept to_lowercase g d
          ≡ ok (removed, g'))
        × (incident_relation_ids g d ≡ ok removed)
        × IsIndexed g'
        × ((i : ℕ) → contains removed i ≡ touches (Map.get g.relations i) d)
        × ((i : ℕ)
            → Map.get g'.relations i ≡ (if contains removed i then none else Map.get g.relations i))
        × ((i : ℕ) → Map.get g'.concepts i ≡ (if d == i then none else Map.get g.concepts i))
  remove_concept-IsIndexed g d slot ix there =
      let left = cascade g d slot ix in
      (
        edge_ids g d,
        bump_relations_gen (bump_concepts_gen left),
        unfold remove_concept cascade dropped in ground (arith, there),
        unfold incident_relation_ids in ground (arith, there),
        SameEdges-IsIndexed left (bump_relations_gen (bump_concepts_gen left)) (bumped_edges left)
            (cascade-IsIndexed g d slot ix),
        λ i. contains-edge_ids g d i ix,
        λ i.
            ground
              (arith, bumped_edges left, cascade-get g d slot ix i, contains-edge_ids g d i ix),
        λ i.
            ap (λ (m : Map ℕ Slot). Map.get m i) (bumped_concepts left)
            ∙ ap (λ (m : Map ℕ Slot). Map.get m i) (cascade-concepts g d slot ix)
            ∙ Map.get-remove g.concepts d i,
      )

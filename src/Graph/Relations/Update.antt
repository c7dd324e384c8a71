-- ===== src/Graph/Relations/Update.antt =====
-- crates/graph/src/graph.rs: an update of a relation changes its weight and properties only.
use mathlib.Core.Path.{ap, sym, ◌∙◌}
use ai_ontology_com.Common.{
  ℕ, ◌≡◌, refl, String, not, ◌&&◌, Option, none, some, arith, ◌==◌, nat_eq, string_eq,
  if◌then◌else◌, if_keeps, inl, inr, Option-cases, ==_iff,
}
use ai_ontology_com.Common.Map
use ai_ontology_com.Common.Result.{ok}
use ai_ontology_com.Graph.Model.{Relation}
use ai_ontology_com.Graph.State.{OntologyGraph, bump_relations_gen}
use ai_ontology_com.Graph.Relations.{
  follow, is_symmetric, relation_between, get_relation, apply_relation_update,
}
use ai_ontology_com.Graph.Relations.Adjacency.{IsIndexed, leaves, enters, has_type}

-- The fields that an update must not change
abbrev pub ends : Option Relation → Option (String × (ℕ × ℕ))
ends none = none
ends (some r) = some (r.relation_type, (r.source, r.target))

-- The table keeps these fields, and the lists are as they were.
pub record SameEnds (g h : OntologyGraph) : Type 0 where
  pub table : (i : ℕ) → ends (Map.get h.relations i) ≡ ends (Map.get g.relations i)
  pub out_edges : h.out_edges ≡ g.out_edges
  pub in_edges : h.in_edges ≡ g.in_edges
  pub out_edges_typed : h.out_edges_typed ≡ g.out_edges_typed
  pub in_edges_typed : h.in_edges_typed ≡ g.in_edges_typed

same_leaves : (a b : Option Relation) (n : ℕ) → ends a ≡ ends b → leaves a n ≡ leaves b n
same_leaves none none n h = refl
same_leaves none (some b) n h = cc
same_leaves (some a) none n h = cc
same_leaves (some a) (some b) n h = ground arith

same_enters : (a b : Option Relation) (n : ℕ) → ends a ≡ ends b → enters a n ≡ enters b n
same_enters none none n h = refl
same_enters none (some b) n h = cc
same_enters (some a) none n h = cc
same_enters (some a) (some b) n h = ground arith

same_type : (a b : Option Relation) (t : String) → ends a ≡ ends b → has_type a t ≡ has_type b t
same_type none none t h = refl
same_type none (some b) t h = cc
same_type (some a) none t h = cc
same_type (some a) (some b) t h = ground arith

SameEnds-IsIndexed : (g h : OntologyGraph) → SameEnds g h → IsIndexed g → IsIndexed h
SameEnds-IsIndexed g h s ix = record {
  outgoing = λ n i. rw (s.out_edges) (
      ix.outgoing n i
      ∙ sym (same_leaves (Map.get h.relations i) (Map.get g.relations i) n (s.table i)));
  incoming = λ n i. rw (s.in_edges) (
      ix.incoming n i
      ∙ sym (same_enters (Map.get h.relations i) (Map.get g.relations i) n (s.table i)));
  outgoing_typed = λ n t i.
      rw
        (
          s.out_edges_typed,
          same_leaves (Map.get h.relations i) (Map.get g.relations i) n (s.table i),
          same_type (Map.get h.relations i) (Map.get g.relations i) t (s.table i),
        )
        (ix.outgoing_typed n t i);
  incoming_typed = λ n t i.
      rw
        (
          s.in_edges_typed,
          same_enters (Map.get h.relations i) (Map.get g.relations i) n (s.table i),
          same_type (Map.get h.relations i) (Map.get g.relations i) t (s.table i),
        )
        (ix.incoming_typed n t i);
}

follow-SameEnds :
    (g : OntologyGraph) (snapshot : Relation) (o : Option ℕ) → SameEnds g (follow g snapshot o)
unfolding follow
follow-SameEnds g snapshot none = record {
  table = λ i. refl;
  out_edges = refl;
  in_edges = refl;
  out_edges_typed = refl;
  in_edges_typed = refl;
}
follow-SameEnds g snapshot (some rid) = elim (Option-cases (Map.get g.relations rid)) [
  | inl e ↦ record {
    table = λ i. ground (arith, e);
    out_edges = ground (arith, e);
    in_edges = ground (arith, e);
    out_edges_typed = ground (arith, e);
    in_edges_typed = ground (arith, e);
  }
  | inr (inv, e) ↦ record {
    table = λ i. ground (
      arith,
      e,
      ==_iff rid i,
      Map.get-insert g.relations rid
          (record inv { weight = snapshot.weight; properties = snapshot.properties }) i,
    );
    out_edges = ground (arith, e);
    in_edges = ground (arith, e);
    out_edges_typed = ground (arith, e);
    in_edges_typed = ground (arith, e);
  }
]

-- `follow` leaves the relation itself alone.
follow-get :
    (g : OntologyGraph) (snapshot : Relation) (o : Option ℕ)
    → Map.get (follow g snapshot o).relations snapshot.id ≡ Map.get g.relations snapshot.id
unfolding follow
follow-get g snapshot none = refl
follow-get g snapshot (some rid) = elim (Option-cases (Map.get g.relations rid)) [
  | inl e ↦ ground (arith, e)
  | inr (inv, e) ↦ ground (
    arith,
    e,
    Map.get-insert g.relations rid
        (record inv { weight = snapshot.weight; properties = snapshot.properties }) snapshot.id,
  )
]

then_ends : (f g h : OntologyGraph) → SameEnds f g → SameEnds g h → SameEnds f h
then_ends f g h s t = record {
  table = λ i. t.table i ∙ s.table i;
  out_edges = t.out_edges ∙ s.out_edges;
  in_edges = t.in_edges ∙ s.in_edges;
  out_edges_typed = t.out_edges_typed ∙ s.out_edges_typed;
  in_edges_typed = t.in_edges_typed ∙ s.in_edges_typed;
}

bump_keeps :
    (g : OntologyGraph)
    → SameEnds g (bump_relations_gen g) × ((bump_relations_gen g).relations ≡ g.relations)
unfolding bump_relations_gen
bump_keeps g = (
  record {
    table = λ i. ground arith;
    out_edges = ground arith;
    in_edges = ground arith;
    out_edges_typed = ground arith;
    in_edges_typed = ground arith;
  },
  ground arith,
)

module _ (g : OntologyGraph) (updated entry : Relation)
    (there : Map.get g.relations updated.id ≡ some entry) (own : entry.id ≡ updated.id) where
  abbrev snapshot : Relation
  snapshot = record entry { weight = updated.weight; properties = updated.properties }

  abbrev written : OntologyGraph
  written = record g { relations = Map.insert g.relations updated.id snapshot }

  abbrev followed : OntologyGraph
  followed =
      if is_symmetric g entry.relation_type && not (entry.source == entry.target)
      then follow written snapshot
          (relation_between written entry.target entry.source entry.relation_type)
      else written

  written-SameEnds : SameEnds g written
  written-SameEnds = record {
    table = λ i.
        ground
          (arith, there, ==_iff updated.id i, Map.get-insert g.relations updated.id snapshot i);
    out_edges = refl;
    in_edges = refl;
    out_edges_typed = refl;
    in_edges_typed = refl;
  }

  abbrev Updated : OntologyGraph → Type 0
  Updated h = SameEnds g h × (Map.get h.relations updated.id ≡ some snapshot)

  written-Updated : Updated written
  written-Updated = (
    written-SameEnds,
    ground (
      arith,
      ==_iff updated.id updated.id,
      Map.get-insert g.relations updated.id snapshot updated.id,
    ),
  )

  followed-Updated : Updated followed
  followed-Updated =
      let other = relation_between written entry.target entry.source entry.relation_type in
      if_keeps Updated (is_symmetric g entry.relation_type && not (entry.source == entry.target)) _
        _
        (λ _. (
          then_ends g written (follow written snapshot other) written-SameEnds
              (follow-SameEnds written snapshot other),
          ground (arith, own, follow-get written snapshot other, written-Updated.1),
        ))
        (λ _. written-Updated)

  -- With the lists in agreement with the table, and a relation in the table under its own id: its
  -- update succeeds, answers and stores it with the new weight and properties, changes type, source
  -- and target of no relation, adds and removes none, and keeps the agreement.
  pub apply_relation_update-IsIndexed :
      IsIndexed g
      → (g' : OntologyGraph) × (apply_relation_update g updated
          ≡ ok (record entry { weight = updated.weight; properties = updated.properties }, g'))
        × (Map.get g'.relations updated.id
            ≡ some (record entry { weight = updated.weight; properties = updated.properties }))
        × ((i : ℕ) → ends (Map.get g'.relations i) ≡ ends (Map.get g.relations i))
        × IsIndexed g'
  apply_relation_update-IsIndexed ix =
      let b = bump_keeps followed in
      let all_same = then_ends g followed (bump_relations_gen followed) followed-Updated.0 b.0 in
      (
        bump_relations_gen followed,
        unfold apply_relation_update get_relation in ground (arith, there),
        ap (λ (m : Map.Map ℕ Relation). Map.get m updated.id) b.1 ∙ followed-Updated.1,
        all_same.table,
        SameEnds-IsIndexed g (bump_relations_gen followed) all_same ix,
      )

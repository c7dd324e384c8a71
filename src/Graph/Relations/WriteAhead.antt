-- ===== src/Graph/Relations/WriteAhead.antt =====
-- crates/graph/src/graph.rs: the write-ahead sequence for relations. What `prepare_relation` accepts
-- is journalled before it is applied; then `apply_prepared_relation` must not refuse it.
use mathlib.Core.Path.{subst}
use ai_ontology_com.Common.{
  ℕ, ◌+◌, ◌-◌, ◌%◌, ◌<◌, ◌≤◌, ◌≡◌, none, arith, ◌==◌, nat_eq, if_keeps, inl, inr, Option-cases,
}
use ai_ontology_com.Common.Map
use ai_ontology_com.Common.Result.{ok, Result-cases}
use ai_ontology_com.Graph.Ids
use ai_ontology_com.Graph.Ids.{u64_mod, observe_relation, observe, next_relation}
use ai_ontology_com.Graph.Model.{Relation}
use ai_ontology_com.Graph.Schema.{RelationType, relation_type}
use ai_ontology_com.Graph.State.{OntologyGraph}
use ai_ontology_com.Graph.Relations.{
  check_relation, assign_id, prepare_relation, apply_prepared_relation, place_relation,
}
use ai_ontology_com.Graph.Relations.Inverse.{IsSound}

-- What `apply_prepared_relation` wants of a relation, and what it then needs to keep its invariant.
abbrev pub IsReady : Relation × OntologyGraph → Type 0
IsReady (rel, g) = (0 < rel.id) × (Map.get g.relations rel.id ≡ none) × IsSound g

module _ (g : OntologyGraph) (rel : Relation) (s : IsSound g) (room : g.ids.relations < u64_mod - 1)
    (small : rel.id < u64_mod - 1) where
  next_free : Map.get g.relations g.ids.relations ≡ none
  next_free = elim (Option-cases (Map.get g.relations g.ids.relations)) [
    | inl e ↦ e
    | inr (r, e) ↦ absurd (omega (arith, s.above g.ids.relations r e))
  ]

  raised :
      (counter : ℕ)
      → g.ids.relations ≤ counter
      → IsSound (record g { ids = record g.ids { relations = counter } })
  raised counter h = record {
    indexed = record {
      outgoing = s.indexed.outgoing;
      incoming = s.indexed.incoming;
      outgoing_typed = s.indexed.outgoing_typed;
      incoming_typed = s.indexed.incoming_typed;
    };
    above = λ id r e. omega (arith, s.above id r e);
    positive = omega (arith, s.positive);
  }

  fresh_IsReady : IsReady (
    record rel { id = (Ids.next_relation g.ids).0 },
    record g { ids = (Ids.next_relation g.ids).1 },
  )
  unfolding next_relation
  fresh_IsReady =
      let e : g.ids.relations + 1 ≡ (g.ids.relations + 1) % u64_mod = omega arith in
      (
        s.positive,
        next_free,
        subst (λ (k : ℕ). IsSound (record g { ids = record g.ids { relations = k } })) e
            (raised (g.ids.relations + 1) (omega arith)),
      )

  assign_id-IsReady : IsReady (assign_id g rel)
  unfolding assign_id observe_relation observe
  assign_id-IsReady =
      if_keeps IsReady (rel.id == 0) _ _ (λ _. fresh_IsReady)
        (λ set.
          if_keeps IsReady (Map.contains_key g.relations rel.id) _ _ (λ _. fresh_IsReady)
            (λ free. (ground arith, ground arith, raised _ (ground arith))))

  known_type :
      check_relation g rel ≡ ok tt
      → (rt : RelationType) × (relation_type g.ontology rel.relation_type ≡ ok rt)
  unfolding check_relation
  known_type h = elim (Result-cases (relation_type g.ontology rel.relation_type)) [
    | inl found ↦ found
    | inr (x, e) ↦ absurd (ground (arith, e))
  ]

  abbrev Accepted : Relation × OntologyGraph → Type 0
  Accepted (rel', g') =
      (g'' : OntologyGraph) × (apply_prepared_relation g' rel' ≡ ok (rel'.id, g''))
      × (Map.get g'.relations rel'.id ≡ none)
      × IsSound g'

  assigned_type :
      ((assign_id g rel).0.relation_type ≡ rel.relation_type)
      × ((assign_id g rel).1.ontology ≡ g.ontology)
  unfolding assign_id
  assigned_type = ground arith

  assigned-Accepted : check_relation g rel ≡ ok tt → Accepted (assign_id g rel)
  unfolding apply_prepared_relation
  assigned-Accepted h =
      let (rt, t) = known_type h in
      let (p, free, sound) = assign_id-IsReady in
      (
        place_relation (assign_id g rel).1 (assign_id g rel).0 rt.symmetric,
        ground (arith, t, p, assigned_type),
        free,
        sound,
      )

  -- With the lists in agreement with the table, the allocator past every id in use, and both the
  -- counter and the given id short of the last number: what `prepare_relation` accepts,
  -- `apply_prepared_relation` accepts on the graph that the preparation left, under an id that no
  -- relation has there; and that graph meets the same two conditions.
  pub prepare_relation-apply :
      (rel' : Relation) (g' : OntologyGraph)
      → prepare_relation g rel ≡ ok (rel', g')
      → (g'' : OntologyGraph) × (apply_prepared_relation g' rel' ≡ ok (rel'.id, g''))
        × (Map.get g'.relations rel'.id ≡ none)
        × IsSound g'
  unfolding prepare_relation
  prepare_relation-apply rel' g' h = elim (Result-cases (check_relation g rel)) [
    | inr (x, e) ↦ absurd (ground (arith, e))
    | inl (u, e) ↦
        let same : assign_id g rel ≡ (rel', g') = ground (arith, e) in
        subst Accepted same (assigned-Accepted e)
  ]

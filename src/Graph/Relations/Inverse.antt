-- ===== src/Graph/Relations/Inverse.antt =====
-- crates/graph/src/graph.rs: what inserting a relation leaves in the table and in the lists, the
-- inverse of a symmetric one included.
use mathlib.Core.Path.{subst, ap, sym, ◌∙◌}
use ai_ontology_com.Common.{
  ℕ, ◌+◌, ◌-◌, ◌<◌, ◌≤◌, ◌≡◌, ◌≢◌, Bool, not, ◌&&◌, none, some, arith, ◌==◌, nat_eq, if◌then◌else◌,
  ==_iff, ◌%◌, if_keeps, inl, inr, Option-cases,
}
use ai_ontology_com.Common.Map
use ai_ontology_com.Common.Result.{ok, Result-cases}
use ai_ontology_com.Graph.Ids.{u64_mod, observe, observe_relation, next_relation, observe_least}
use ai_ontology_com.Graph.Model.{Relation}
use ai_ontology_com.Graph.Schema.{RelationType, relation_type}
use ai_ontology_com.Graph.State.{OntologyGraph, derived, bump_relations_gen}
use ai_ontology_com.Graph.Relations.{
  link, link_inverse, inverse, place_relation, apply_prepared_relation,
}
use ai_ontology_com.Graph.Relations.Adjacency.{IsIndexed, link-IsIndexed}

-- The lists agree with the table, and the allocator is past every id in use.
pub record IsSound (g : OntologyGraph) : Type 0 where
  pub indexed : IsIndexed g
  pub above : (id : ℕ) (r : Relation) → Map.get g.relations id ≡ some r → id < g.ids.relations
  pub positive : 0 < g.ids.relations

free_above :
    (g : OntologyGraph) (id : ℕ) → IsSound g → g.ids.relations ≤ id → Map.get g.relations id ≡ none
free_above g id s h = elim (Option-cases (Map.get g.relations id)) [
  | inl e ↦ e
  | inr (r, e) ↦ absurd (omega (arith, s.above id r e))
]

unfoldable pub with_ids : OntologyGraph → ℕ → OntologyGraph
with_ids g counter = record g { ids = record g.ids { relations = counter } }

-- A relation whose id is free and below the allocator's next one.
pub link-IsSound :
    (g : OntologyGraph) (rel : Relation) (counter : ℕ)
    → IsSound g
    → Map.get g.relations rel.id ≡ none
    → g.ids.relations ≤ counter
    → rel.id < counter
    → IsSound (link (with_ids g counter) rel)
unfolding with_ids
link-IsSound g rel counter s free h h' = record {
  indexed =
      link-IsIndexed (with_ids g counter) rel
        (record {
          outgoing = s.indexed.outgoing;
          incoming = s.indexed.incoming;
          outgoing_typed = s.indexed.outgoing_typed;
          incoming_typed = s.indexed.incoming_typed;
        })
        free;
  above = λ id r e.
      unfold link in
      (ground (arith, Map.get-insert g.relations rel.id rel id, s.above id r, ==_iff rel.id id));
  positive = unfold link in (omega (arith, s.positive));
}

pub bump-IsSound : (g : OntologyGraph) → IsSound g → IsSound (bump_relations_gen g)
unfolding bump_relations_gen
bump-IsSound g s =
    if_keeps IsSound (derived g) (record g { relations_gen = (g.relations_gen + 1) % u64_mod }) g
      (λ _. record {
        indexed = record {
          outgoing = s.indexed.outgoing;
          incoming = s.indexed.incoming;
          outgoing_typed = s.indexed.outgoing_typed;
          incoming_typed = s.indexed.incoming_typed;
        };
        above = s.above;
        positive = s.positive;
      })
      (λ _. s)

-- A relation that is entered twice, and its counter far from wrapping.
module _ (g : OntologyGraph) (rel : Relation) (s : IsSound g)
    (free : Map.get g.relations rel.id ≡ none) (small : rel.id < u64_mod - 2)
    (room : g.ids.relations < u64_mod - 2) where
  entered : OntologyGraph
  entered = link (record g { ids = observe_relation g.ids rel.id }) rel

  entered-IsSound : IsSound entered
  unfolding entered observe_relation with_ids
  entered-IsSound =
      let o = observe_least g.ids.relations rel.id (u64_mod - 2) (omega arith) in
      link-IsSound g rel (observe g.ids.relations rel.id) s free o.0 o.1

  entered_counter :
      (rel.id < entered.ids.relations)
      × (g.ids.relations ≤ entered.ids.relations)
      × (entered.ids.relations < u64_mod - 1)
  unfolding entered observe_relation link observe
  entered_counter = ground arith

  linked_inverse-IsSound : IsSound (link_inverse entered rel)
  unfolding link_inverse next_relation with_ids
  linked_inverse-IsSound =
      let c = entered_counter in
      let e : entered.ids.relations + 1 ≡ (entered.ids.relations + 1) % u64_mod =
        omega (arith, c) in
      subst (λ (k : ℕ). IsSound (link (with_ids entered k) (inverse rel entered.ids.relations))) e
        (link-IsSound entered (inverse rel entered.ids.relations) (entered.ids.relations + 1)
          entered-IsSound (free_above entered entered.ids.relations entered-IsSound (omega arith))
          (omega arith) (omega arith))

  placed-IsSound : (symmetric : Bool) → IsSound (place_relation g rel symmetric)
  unfolding place_relation entered
  placed-IsSound symmetric =
      bump-IsSound
        (if symmetric && not (rel.source == rel.target) then link_inverse entered rel else entered)
        (if_keeps IsSound (symmetric && not (rel.source == rel.target)) (link_inverse entered rel)
          entered (λ _. linked_inverse-IsSound) (λ _. entered-IsSound))

  same_graph :
      (rt : RelationType) (id : ℕ) (g' : OntologyGraph)
      → relation_type g.ontology rel.relation_type ≡ ok rt
      → apply_prepared_relation g rel ≡ ok (id, g')
      → place_relation g rel rt.symmetric ≡ g'
  unfolding apply_prepared_relation
  same_graph rt id g' t h = ground (arith, t)

  -- With the lists in agreement with the table, the allocator past every id in use, a free id,
  -- and id and counter away from their last two values: an inserted relation leaves the lists in
  -- agreement and the allocator past every id.
  pub apply_prepared_relation-IsSound :
      (id : ℕ) (g' : OntologyGraph) → apply_prepared_relation g rel ≡ ok (id, g') → IsSound g'
  apply_prepared_relation-IsSound id g' h =
      elim (Result-cases (relation_type g.ontology rel.relation_type)) [
        | inr (x, e) ↦ absurd (unfold apply_prepared_relation in ground (arith, e))
        | inl (rt, e) ↦ subst IsSound (same_graph rt id g' e h) (placed-IsSound rt.symmetric)
      ]

  entered-get :
      (i : ℕ)
      → Map.get entered.relations i ≡ (if rel.id == i then some rel else Map.get g.relations i)
  unfolding entered link
  entered-get i = Map.get-insert g.relations rel.id rel i

  placed-get :
      (symmetric : Bool) (i : ℕ)
      → Map.get (place_relation g rel symmetric).relations i ≡ (
          if rel.id == i
          then some rel
          else if symmetric && not (rel.source == rel.target) && entered.ids.relations == i
          then some (inverse rel entered.ids.relations)
          else Map.get g.relations i)
  unfolding place_relation entered link_inverse next_relation link bump_relations_gen
  placed-get symmetric i = ground (
    arith,
    entered_counter,
    entered-get i,
    Map.get-insert entered.relations entered.ids.relations (inverse rel entered.ids.relations) i,
  )

  -- With the lists in agreement with the table, the allocator past every id in use, a free id,
  -- and id and counter away from their last two values: after a successful insertion the table
  -- has the new relation, its inverse under an id that was free when the type is symmetric and
  -- the ends differ, and is as before at every other id.
  pub apply_prepared_relation-get :
      (rt : RelationType) (id : ℕ) (g' : OntologyGraph)
      → relation_type g.ontology rel.relation_type ≡ ok rt
      → apply_prepared_relation g rel ≡ ok (id, g')
      → (inv_id : ℕ) × (Map.get g.relations inv_id ≡ none)
        × (inv_id ≢ rel.id)
        × ((i : ℕ)
            → Map.get g'.relations i ≡ (
                if rel.id == i
                then some rel
                else if rt.symmetric && not (rel.source == rel.target) && inv_id == i
                then some (inverse rel inv_id)
                else Map.get g.relations i))
  apply_prepared_relation-get rt id g' t h = (
    entered.ids.relations,
    free_above g entered.ids.relations s entered_counter.1,
    ground (arith, entered_counter),
    λ i.
        ap (λ (k : OntologyGraph). Map.get k.relations i) (sym (same_graph rt id g' t h))
        ∙ placed-get rt.symmetric i,
  )

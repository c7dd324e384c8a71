-- ===== src/Graph/Removal/One.antt =====
-- crates/graph/src/graph.rs: one relation taken out of the lists.
use ai_ontology_com.Common.{
  ℕ, ◌+◌, ◌%◌, ◌≡◌, refl, if_keeps, String, Bool, true, false, not, ◌&&◌, ◌||◌, none, some, arith,
  ◌==◌, Keyed, nat_eq, string_eq, if◌then◌else◌, contains, ==_iff, inl, inr, Option-cases,
  Bool-cases,
}
use mathlib.Core.Path.{ap, ◌∙◌}
use ai_ontology_com.Common.Map
use ai_ontology_com.Common.Map.{Map}
use ai_ontology_com.Common.Set
use ai_ontology_com.Common.Result.{ok}
use ai_ontology_com.Graph.Ids.{u64_mod}
use ai_ontology_com.Graph.Model.{Relation}
use ai_ontology_com.Graph.State.{OntologyGraph, AdjList, listed, derived, bump_relations_gen}
use ai_ontology_com.Graph.Relations.{typed_at, get_relation}
use ai_ontology_com.Graph.Relations.Adjacency.{IsIndexed, leaves, enters, has_type}
use ai_ontology_com.Graph.Removal.{retain, retain_typed, unlink, remove_relation}

module _ {ℓ} {K : Type ℓ} ⦃e : Keyed K⦄ where
  pub contains-retain :
      (edges : Map K AdjList) (key : K) (id : ℕ) (k : K) (i : ℕ)
      → contains (listed (Map.get (retain edges key id) k)) i
        ≡ (contains (listed (Map.get edges k)) i && not (key == k && id == i))
  unfolding retain
  contains-retain edges key id k i = elim (Option-cases (Map.get edges key)) [
    | inl t ↦ elim (Bool-cases (key == k)) [
      | inl u ↦ rw (t, retain) (rw (← (==_iff key k).0 u) (rw t (refl)))
      | inr u ↦ ground (arith, t)
    ]
    | inr (adj, t) ↦ ground (
      arith,
      t,
      ==_iff key k,
      Map.get-insert edges key (Set.without adj id) k,
      Set.contains-without adj id i,
    )
  ]

pub contains-retain_typed :
    (edges : Map ℕ (Map String AdjList)) (node : ℕ) (t : String) (id n : ℕ) (u : String) (i : ℕ)
    → contains (typed_at (retain_typed edges node t id) n u) i
      ≡ (contains (typed_at edges n u) i && not (node == n && t == u && id == i))
unfolding retain_typed
contains-retain_typed edges node t id n u i = elim (Option-cases (Map.get edges node)) [
  | inl e ↦ elim (Bool-cases (node == n)) [
    | inl k ↦
        rw (e, retain_typed)
          (rw (← (==_iff node n).0 k) (rw e (ground (arith, Map.get-empty {V = AdjList} u))))
    | inr k ↦ ground (arith, e)
  ]
  | inr (by_type, e) ↦ ground (
    arith,
    e,
    ==_iff node n,
    Map.get-insert edges node (retain by_type t id) n,
    contains-retain by_type t id u i,
  )
]

-- The lists of the nodes that are gone are empty; the others agree with the table.
pub record IsIndexedBut (gone : ℕ → Bool) (g : OntologyGraph) : Type 0 where
  pub outgoing :
      (n id : ℕ)
      → contains (listed (Map.get g.out_edges n)) id
        ≡ (not (gone n) && leaves (Map.get g.relations id) n)
  pub incoming :
      (n id : ℕ)
      → contains (listed (Map.get g.in_edges n)) id
        ≡ (not (gone n) && enters (Map.get g.relations id) n)
  pub outgoing_typed :
      (n : ℕ) (t : String) (id : ℕ)
      → contains (typed_at g.out_edges_typed n t) id
        ≡ (not (gone n) && leaves (Map.get g.relations id) n && has_type (Map.get g.relations id) t)
  pub incoming_typed :
      (n : ℕ) (t : String) (id : ℕ)
      → contains (typed_at g.in_edges_typed n t) id
        ≡ (not (gone n) && enters (Map.get g.relations id) n && has_type (Map.get g.relations id) t)

-- A relation leaves the lists of its ends, where these still have it.
pub unlink-IsIndexedBut :
    (gone : ℕ → Bool) (g : OntologyGraph) (id : ℕ) (rel : Relation) (leaving entering : ℕ)
    → IsIndexedBut gone g
    → Map.get g.relations id ≡ some rel
    → (gone rel.source || rel.source == leaving) ≡ true
    → (gone rel.target || rel.target == entering) ≡ true
    → IsIndexedBut gone (unlink g id rel.relation_type leaving entering)
unfolding unlink
unlink-IsIndexedBut gone g id rel leaving entering ix there left entered = record {
  outgoing = λ n i. ground (
    arith,
    contains-retain g.out_edges leaving id n i,
    ix.outgoing n i,
    Map.get-remove g.relations id i,
    there,
    ==_iff rel.source n,
    ==_iff rel.source leaving,
  );
  incoming = λ n i. ground (
    arith,
    contains-retain g.in_edges entering id n i,
    ix.incoming n i,
    Map.get-remove g.relations id i,
    there,
    ==_iff rel.target n,
    ==_iff rel.target entering,
  );
  outgoing_typed = λ n t i. ground (
    arith,
    contains-retain_typed g.out_edges_typed leaving rel.relation_type id n t i,
    ix.outgoing_typed n t i,
    Map.get-remove g.relations id i,
    there,
    ==_iff rel.source n,
    ==_iff rel.source leaving,
  );
  incoming_typed = λ n t i. ground (
    arith,
    contains-retain_typed g.in_edges_typed entering rel.relation_type id n t i,
    ix.incoming_typed n t i,
    Map.get-remove g.relations id i,
    there,
    ==_iff rel.target n,
    ==_iff rel.target entering,
  );
}

none_gone : ℕ → Bool
none_gone n = false

bump-IsIndexed : (g : OntologyGraph) → IsIndexed g → IsIndexed (bump_relations_gen g)
unfolding bump_relations_gen
bump-IsIndexed g ix =
    if_keeps IsIndexed (derived g) (record g { relations_gen = (g.relations_gen + 1) % u64_mod }) g
      (λ _. record {
        outgoing = ix.outgoing;
        incoming = ix.incoming;
        outgoing_typed = ix.outgoing_typed;
        incoming_typed = ix.incoming_typed;
      })
      (λ _. ix)

bump-relations : (g : OntologyGraph) → (bump_relations_gen g).relations ≡ g.relations
unfolding bump_relations_gen
bump-relations g = ground arith

unlink-IsIndexed :
    (g : OntologyGraph) (id : ℕ) (rel : Relation)
    → IsIndexed g
    → Map.get g.relations id ≡ some rel
    → IsIndexed (unlink g id rel.relation_type rel.source rel.target)
unfolding none_gone
unlink-IsIndexed g id rel ix there =
    let but : IsIndexedBut none_gone g = record {
      outgoing = ix.outgoing;
      incoming = ix.incoming;
      outgoing_typed = ix.outgoing_typed;
      incoming_typed = ix.incoming_typed;
    } in
    let after =
      unlink-IsIndexedBut none_gone g id rel rel.source rel.target but there (ground arith)
        (ground arith) in
    record {
      outgoing = after.outgoing;
      incoming = after.incoming;
      outgoing_typed = after.outgoing_typed;
      incoming_typed = after.incoming_typed;
    }

-- With the lists in agreement with the table, removing a relation that is there succeeds, leaves
-- them in agreement, takes this relation out of the table and no other.
pub remove_relation-IsIndexed :
    (g : OntologyGraph) (id : ℕ) (rel : Relation)
    → IsIndexed g
    → Map.get g.relations id ≡ some rel
    → (g' : OntologyGraph) × (remove_relation g id ≡ ok g')
      × IsIndexed g'
      × ((i : ℕ) → Map.get g'.relations i ≡ (if id == i then none else Map.get g.relations i))
remove_relation-IsIndexed g id rel ix there =
    let done = unlink g id rel.relation_type rel.source rel.target in
    (
      bump_relations_gen done,
      unfold remove_relation get_relation in ground (arith, there),
      bump-IsIndexed done (unlink-IsIndexed g id rel ix there),
      λ i.
          ap (λ (m : Map ℕ Relation). Map.get m i) (bump-relations done)
          ∙ (unfold unlink in Map.get-remove g.relations id i),
    )

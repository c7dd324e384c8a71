-- ===== src/Graph/Relations/Adjacency.antt =====
-- crates/graph/src/graph.rs: the adjacency lists agree with the table of relations.
use ai_ontology_com.Common.{
  ℕ, ◌≡◌, String, Bool, false, ◌&&◌, ◌||◌, Option, none, some, arith, ◌==◌, nat_eq, string_eq,
  Keyed, [], ◌∷◌, ◌++◌, contains, contains-append, ==_iff, inl, inr, Bool-cases,
}
use ai_ontology_com.Common.Map
use ai_ontology_com.Common.Map.{Map}
use ai_ontology_com.Graph.Model.{Relation}
use ai_ontology_com.Graph.State.{OntologyGraph, AdjList, listed}
use ai_ontology_com.Graph.Relations.{typed_at, typed_of, push, push_typed, link}

abbrev pub leaves : Option Relation → ℕ → Bool
leaves none n = false
leaves (some r) n = r.source == n

abbrev pub enters : Option Relation → ℕ → Bool
enters none n = false
enters (some r) n = r.target == n

abbrev pub has_type : Option Relation → String → Bool
has_type none t = false
has_type (some r) t = r.relation_type == t

-- A relation's id stands in exactly the lists of its two ends, and of its type there.
pub record IsIndexed (g : OntologyGraph) : Type 0 where
  pub outgoing :
      (n id : ℕ) → contains (listed (Map.get g.out_edges n)) id ≡ leaves (Map.get g.relations id) n
  pub incoming :
      (n id : ℕ) → contains (listed (Map.get g.in_edges n)) id ≡ enters (Map.get g.relations id) n
  pub outgoing_typed :
      (n : ℕ) (t : String) (id : ℕ)
      → contains (typed_at g.out_edges_typed n t) id
        ≡ (leaves (Map.get g.relations id) n && has_type (Map.get g.relations id) t)
  pub incoming_typed :
      (n : ℕ) (t : String) (id : ℕ)
      → contains (typed_at g.in_edges_typed n t) id
        ≡ (enters (Map.get g.relations id) n && has_type (Map.get g.relations id) t)

module _ {ℓ} {K : Type ℓ} ⦃e : Keyed K⦄ where
  pub contains-push :
      (edges : Map K AdjList) (key : K) (id : ℕ) (k : K) (i : ℕ)
      → contains (listed (Map.get (push edges key id) k)) i
        ≡ (contains (listed (Map.get edges k)) i || (key == k && id == i))
  unfolding push
  contains-push edges key id k i = elim (Bool-cases (key == k)) [
    | inl t ↦
        rw (Map.get-insert edges key (listed (Map.get edges key) ++ (id ∷ [])) k, t)
          (rw ((==_iff key k).0 t)
            (ground (arith, contains-append (listed (Map.get edges k)) (id ∷ []) i)))
    | inr t ↦
        rw (Map.get-insert edges key (listed (Map.get edges key) ++ (id ∷ [])) k, t) (ground arith)
  ]

pub contains-push_typed :
    (edges : Map ℕ (Map String AdjList)) (node : ℕ) (t : String) (id n : ℕ) (u : String) (i : ℕ)
    → contains (typed_at (push_typed edges node t id) n u) i
      ≡ (contains (typed_at edges n u) i || (node == n && t == u && id == i))
unfolding push_typed
contains-push_typed edges node t id n u i = elim (Bool-cases (node == n)) [
  | inl e ↦
      rw (Map.get-insert edges node (push (typed_of (Map.get edges node)) t id) n, e)
        (rw ((==_iff node n).0 e)
          (ground (arith, contains-push (typed_of (Map.get edges n)) t id u i)))
  | inr e ↦
      rw (Map.get-insert edges node (push (typed_of (Map.get edges node)) t id) n, e) (ground arith)
]

module _ (g : OntologyGraph) (rel : Relation) (ix : IsIndexed g)
    (free : Map.get g.relations rel.id ≡ none) where
  pub link-IsIndexed : IsIndexed (link g rel)
  unfolding link
  link-IsIndexed = record {
    outgoing = λ n id. ground (
      arith,
      contains-push g.out_edges rel.source rel.id n id,
      ix.outgoing n id,
      Map.get-insert g.relations rel.id rel id,
      ==_iff rel.id id,
    );
    incoming = λ n id. ground (
      arith,
      contains-push g.in_edges rel.target rel.id n id,
      ix.incoming n id,
      Map.get-insert g.relations rel.id rel id,
    );
    outgoing_typed = λ n t id. ground (
      arith,
      contains-push_typed g.out_edges_typed rel.source rel.relation_type rel.id n t id,
      ix.outgoing_typed n t id,
      Map.get-insert g.relations rel.id rel id,
    );
    incoming_typed = λ n t id. ground (
      arith,
      contains-push_typed g.in_edges_typed rel.target rel.relation_type rel.id n t id,
      ix.incoming_typed n t id,
      Map.get-insert g.relations rel.id rel id,
    );
  }

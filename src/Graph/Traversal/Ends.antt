-- ===== src/Graph/Traversal/Ends.antt =====
-- crates/graph/src/graph.rs: the neighbours of a concept are ends of relations in the table.
use ai_ontology_com.Common.{
  ℕ, suc, ◌≡◌, refl, sym, ap, ◌∙◌, inl, inr, String, true, List, [], ◌∷◌, ◌++◌, none, some, arith,
  ◌==◌, nat_eq, string_eq, ==_iff, ==_refl, contains, contains-append, Bool-cases, Option-cases,
  All, All-append, All_map, length,
}
use mathlib.Core.Path.{subst}
use ai_ontology_com.Common.Map
use ai_ontology_com.Common.Map.{Map}
use ai_ontology_com.Common.Sort.{keys_of}
use ai_ontology_com.Graph.Model.{Relation}
use ai_ontology_com.Graph.State.{OntologyGraph, AdjList}
use ai_ontology_com.Graph.Relations.{typed_at}
use ai_ontology_com.Graph.Traversal.{
  existing, turned, virtual_edges, outgoing_typed, incoming_typed, neighbours,
}

-- The ends of all relations.
abbrev pub ends : OntologyGraph → List ℕ
ends g =
    keys_of (λ (r : Relation). r.source) (Map.values g.relations)
    ++ keys_of (λ (r : Relation). r.target) (Map.values g.relations)

pub length-keys_of : (f : Relation → ℕ) (rs : List Relation) → length (keys_of f rs) ≡ length rs
length-keys_of f [] = refl
length-keys_of f (r ∷ rs) = ap suc (length-keys_of f rs)

-- Both ends of a relation are among them.
abbrev pub HasEnds : List ℕ → Relation → Type 0
HasEnds nodes r = (contains nodes r.source ≡ true) × (contains nodes r.target ≡ true)

pub in_keys :
    (f : Relation → ℕ) (rs : List Relation) → All (λ r. contains (keys_of f rs) (f r) ≡ true) rs
in_keys f [] = tt
in_keys f (r ∷ rs) = (
  ground (arith, ==_refl (f r)),
  All_map (λ x. contains (keys_of f rs) (f x) ≡ true)
      (λ x. contains (keys_of f (r ∷ rs)) (f x) ≡ true) rs (λ x h. ground (arith, h))
      (in_keys f rs),
)

pub both :
    (P Q R : Relation → Type 0) (rs : List Relation)
    → ((r : Relation) → P r → Q r → R r)
    → All P rs
    → All Q rs
    → All R rs
both P Q R [] f _ _ = tt
both P Q R (r ∷ rs) f (p, ps) (q, qs) = (f r p q, both P Q R rs f ps qs)

pub own_ends :
    (rs : List Relation)
    → All
        (HasEnds
          (keys_of (λ (r : Relation). r.source) rs ++ keys_of (λ (r : Relation). r.target) rs))
        rs
own_ends rs =
    let sources = keys_of (λ (r : Relation). r.source) rs in
    let targets = keys_of (λ (r : Relation). r.target) rs in
    both (λ r. contains sources r.source ≡ true) (λ r. contains targets r.target ≡ true)
      (HasEnds (sources ++ targets)) rs
      (λ r s t. (
        ground (arith, s, contains-append sources targets r.source),
        ground (arith, t, contains-append sources targets r.target),
      ))
      (in_keys (λ r. r.source) rs) (in_keys (λ r. r.target) rs)

pub existing-some :
    (g : OntologyGraph) (rid : ℕ) (rids : List ℕ) (r : Relation)
    → Map.get g.relations rid ≡ some r
    → existing g (rid ∷ rids) ≡ r ∷ existing g rids
unfolding existing
existing-some g rid rids r e = ground (arith, e)

pub existing-none :
    (g : OntologyGraph) (rid : ℕ) (rids : List ℕ)
    → Map.get g.relations rid ≡ none
    → existing g (rid ∷ rids) ≡ existing g rids
unfolding existing
existing-none g rid rids e = ground (arith, e)

pub existing-ends : (g : OntologyGraph) (rids : List ℕ) → All (HasEnds (ends g)) (existing g rids)
unfolding existing
existing-ends g [] = tt
existing-ends g (rid ∷ rids) = elim (Option-cases (Map.get g.relations rid)) [
  | inl e ↦ subst (All (HasEnds (ends g))) (sym (existing-none g rid rids e)) (existing-ends g rids)
  | inr (r, e) ↦ subst (All (HasEnds (ends g))) (sym (existing-some g rid rids r e)) (
    Map.get_All_values (HasEnds (ends g)) g.relations rid r (own_ends (Map.values g.relations)) e,
    existing-ends g rids,
  )
]

pub turned-ends :
    (nodes : List ℕ) (t : String) (rs : List Relation)
    → All (HasEnds nodes) rs
    → All (HasEnds nodes) (keys_of (turned t) rs)
turned-ends nodes t [] _ = tt
turned-ends nodes t (r ∷ rs) ((s, d), rest) = ((d, s), turned-ends nodes t rs rest)

pub virtual_edges-ends :
    (g : OntologyGraph) (lists : Map ℕ (Map String AdjList)) (id : ℕ) (t : String)
    → All (HasEnds (ends g)) (virtual_edges g lists id t)
unfolding virtual_edges
virtual_edges-ends g lists id t = elim (Option-cases (Map.get g.ontology.relation_types t)) [
  | inl e ↦ rw (e, virtual_edges) tt
  | inr (rt, e) ↦ elim (Option-cases rt.inverse_of) [
    | inl x ↦ rw (e, x, virtual_edges) tt
    | inr (real, x) ↦
        rw (e, x, virtual_edges)
          (turned-ends (ends g) t (existing g (typed_at lists id real))
            (existing-ends g (typed_at lists id real)))
  ]
]

pub outgoing_typed-ends :
    (g : OntologyGraph) (id : ℕ) (types : List String)
    → All (HasEnds (ends g)) (outgoing_typed g id types)
unfolding outgoing_typed
outgoing_typed-ends g id [] = tt
outgoing_typed-ends g id (t ∷ types) =
    All-append (HasEnds (ends g)) _ _ (existing-ends g (typed_at g.out_edges_typed id t)) (
      All-append (HasEnds (ends g)) _ _ (virtual_edges-ends g g.in_edges_typed id t)
        (outgoing_typed-ends g id types))

pub incoming_typed-ends :
    (g : OntologyGraph) (id : ℕ) (types : List String)
    → All (HasEnds (ends g)) (incoming_typed g id types)
unfolding incoming_typed
incoming_typed-ends g id [] = tt
incoming_typed-ends g id (t ∷ types) =
    All-append (HasEnds (ends g)) _ _ (existing-ends g (typed_at g.in_edges_typed id t)) (
      All-append (HasEnds (ends g)) _ _ (virtual_edges-ends g g.out_edges_typed id t)
        (incoming_typed-ends g id types))

pub contains-end :
    (nodes : List ℕ) (f : Relation → ℕ) (rs : List Relation) (v : ℕ)
    → All (λ r. contains nodes (f r) ≡ true) rs
    → contains (keys_of f rs) v ≡ true
    → contains nodes v ≡ true
contains-end nodes f [] v _ h = absurd (ground (arith, h))
contains-end nodes f (r ∷ rs) v (p, ps) h = elim (Bool-cases (f r == v)) [
  | inl e ↦ ap (contains nodes) (sym ((==_iff (f r) v).0 e)) ∙ p
  | inr e ↦ contains-end nodes f rs v ps (ground (arith, h, e))
]

pub neighbours-ends :
    (g : OntologyGraph) (rel_type : String) (u v : ℕ)
    → contains (neighbours g rel_type u) v ≡ true
    → contains (ends g) v ≡ true
unfolding neighbours
neighbours-ends g rel_type u v h =
    let outs = outgoing_typed g u (rel_type ∷ []) in
    let ins = incoming_typed g u (rel_type ∷ []) in
    let targets = keys_of (λ (r : Relation). r.target) outs in
    let sources = keys_of (λ (r : Relation). r.source) ins in
    elim (Bool-cases (contains targets v)) [
      | inl e ↦
          contains-end (ends g) (λ r. r.target) outs v
            (All_map (HasEnds (ends g)) (λ r. contains (ends g) r.target ≡ true) outs (λ r p. p.1)
              (outgoing_typed-ends g u (rel_type ∷ [])))
            e
      | inr e ↦
          contains-end (ends g) (λ r. r.source) ins v
            (All_map (HasEnds (ends g)) (λ r. contains (ends g) r.source ≡ true) ins (λ r p. p.0)
              (incoming_typed-ends g u (rel_type ∷ [])))
            (ground (arith, h, e, contains-append targets sources v))
    ]

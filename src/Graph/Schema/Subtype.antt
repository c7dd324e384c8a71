-- ===== src/Graph/Schema/Subtype.antt =====
-- crates/graph/src/schema.rs: what `is_subtype` and `validate_edge` accept.

use ai_ontology_com.Common.{
  ℕ, zero, suc, ◌≤◌, ◌<◌, String, ◌≡◌, ◌⊎◌, inl, inr, ◌↔◌, true, Option, none, some, arith, ==_iff,
  string_eq, ◌==◌, Bool-cases, Option-cases, and_then,
}
use ai_ontology_com.Common.Map
use ai_ontology_com.Common.Result.{ok}
use ai_ontology_com.Graph.Schema.{
  Ontology, ConceptType, RelationType, parent_of, reaches, is_subtype, relation_type, validate_edge,
}
use ai_ontology_com.Graph.Schema.Hierarchy.{On}

abbrev above : Option ConceptType → Option String
above cursor = and_then cursor (λ ct. ct.parent)

reaches_sound :
    (o : Ontology) (a : String) (rounds : ℕ) (cursor : Option ConceptType)
    → reaches o a rounds cursor ≡ true
    → (n : ℕ) × (n < rounds) × On o a n (above cursor)
unfolding reaches
reaches_sound o a zero cursor h = absurd (ground arith)
reaches_sound o a (suc rounds) none h = absurd (ground arith)
reaches_sound o a (suc rounds) (some ct) h = elim (Option-cases ct.parent) [
  | inl e ↦ absurd (ground arith)
  | inr (p, e) ↦ elim (Bool-cases (p == a)) [
    | inl t ↦ (0, omega arith, rw e ((==_iff p a).0 t))
    | inr t ↦
        let (n, lt, on) = reaches_sound o a rounds (Map.get o.concept_types p) (ground arith) in
        (suc n, omega arith, rw e on)
  ]
]

On-zero : (o : Ontology) (a p : String) → On o a zero (some p) → p ≡ a
On-zero o a p h = h

reaches_complete :
    (o : Ontology) (a : String) (rounds : ℕ) (cursor : Option ConceptType) (n : ℕ)
    → n < rounds
    → On o a n (above cursor)
    → reaches o a rounds cursor ≡ true
unfolding reaches
reaches_complete o a zero cursor n h on = absurd (omega arith)
reaches_complete o a (suc rounds) none n h on = absurd on
reaches_complete o a (suc rounds) (some ct) zero h on = elim (Option-cases ct.parent) [
  | inl e ↦ absurd (rw e at on)
  | inr (p, e) ↦ ground (arith, ==_iff p a, On-zero o a p (rw e at on))
]
reaches_complete o a (suc rounds) (some ct) (suc n) h on = elim (Option-cases ct.parent) [
  | inl e ↦ absurd (rw e at on)
  | inr (p, e) ↦
      ground (
        arith,
        reaches_complete o a rounds (Map.get o.concept_types p) n (omega arith) (rw e at on),
      )
]

-- The reflexive and transitive closure of `parent`, over at most as many steps as there are types,
-- and one.
abbrev pub Inherits : Ontology → String → String → Type 0
Inherits o child ancestor =
    (child ≡ ancestor)
    ⊎ ((n : ℕ) × (n ≤ Map.len o.concept_types) × On o ancestor n (parent_of o child))

-- `is_subtype` answers true exactly when the ancestor is the type itself or on its chain of
-- parents, no further up than there are types.
pub is_subtype_iff :
    (o : Ontology) (child ancestor : String)
    → (is_subtype o child ancestor ≡ true) ↔ Inherits o child ancestor
unfolding is_subtype
is_subtype_iff o child ancestor = (sound, complete)
  where
    rounds : ℕ
    rounds = suc (Map.len o.concept_types)

    sound : is_subtype o child ancestor ≡ true → Inherits o child ancestor
    sound h = elim (Bool-cases (child == ancestor)) [
      | inl t ↦ inl ((==_iff child ancestor).0 t)
      | inr t ↦
          let (n, lt, on) =
            reaches_sound o ancestor rounds (Map.get o.concept_types child) (ground arith) in
          inr (n, omega arith, on)
    ]

    complete : Inherits o child ancestor → is_subtype o child ancestor ≡ true
    complete (inl e) = ground (arith, ==_iff child ancestor)
    complete (inr (n, le, on)) = ground (
      arith,
      reaches_complete o ancestor rounds (Map.get o.concept_types child) n (omega arith) on,
    )

-- `validate_edge` accepts an edge exactly when its relation type is registered, the source type
-- inherits from the domain and the target type from the range.
pub validate_edge_iff :
    (o : Ontology) (relation source_type target_type : String)
    → (validate_edge o relation source_type target_type ≡ ok tt) ↔ (
        (rt : RelationType) × (Map.get o.relation_types relation ≡ some rt)
        × Inherits o source_type rt.domain
        × Inherits o target_type rt.range)
unfolding validate_edge relation_type
validate_edge_iff o relation source_type target_type = (sound, complete)
  where
    Spec : Type 0
    Spec =
        (rt : RelationType) × (Map.get o.relation_types relation ≡ some rt)
        × Inherits o source_type rt.domain
        × Inherits o target_type rt.range

    sound : validate_edge o relation source_type target_type ≡ ok tt → Spec
    sound h = elim (Option-cases (Map.get o.relation_types relation)) [
      | inl e ↦ absurd (ground arith)
      | inr (rt, e) ↦ (
        rt,
        e,
        (is_subtype_iff o source_type rt.domain).0 (ground arith),
        (is_subtype_iff o target_type rt.range).0 (ground arith),
      )
    ]

    complete : Spec → validate_edge o relation source_type target_type ≡ ok tt
    complete (rt, e, s, t) = ground (
      arith,
      (is_subtype_iff o source_type rt.domain).1 s,
      (is_subtype_iff o target_type rt.range).1 t,
    )

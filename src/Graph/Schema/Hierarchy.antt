-- ===== src/Graph/Schema/Hierarchy.antt =====
-- crates/graph/src/schema.rs: `validate_hierarchy` leaves no cycle of parents.
use ai_ontology_com.Common.{
  ℕ, zero, suc, String, ◌≡◌, List, [], ◌∷◌, Option, none, some, arith, All, inl, inr, ==_iff,
  string_eq,
}
use ai_ontology_com.Common.Map
use ai_ontology_com.Common.Map.{get_All_values}
use ai_ontology_com.Common.Result.{ok, Result-cases}
use ai_ontology_com.Graph.Schema.{
  Ontology, ConceptType, parent_of, walk_parents, walk_all, validate_hierarchy,
}

-- `a` is the n-th type, from 0, on the chain of parents that starts at the cursor.
abbrev pub On : Ontology → String → ℕ → Option String → Type 0
On o a n none = ⊥
On o a zero (some p) = p ≡ a
On o a (suc n) (some p) = On o a n (parent_of o p)

walk_parents_sound :
    (o : Ontology) (start : String) (rounds : ℕ) (cursor : Option String) (n : ℕ)
    → walk_parents o start rounds cursor ≡ ok tt
    → ¬ On o start n cursor
unfolding walk_parents
walk_parents_sound o start rounds none n h on = on
walk_parents_sound o start zero (some p) n h on = cc
walk_parents_sound o start (suc rounds) (some p) zero h on = ground (arith, ==_iff p start)
walk_parents_sound o start (suc rounds) (some p) (suc n) h on =
    ground (arith, walk_parents_sound o start rounds (parent_of o p) n)

abbrev Walked : Ontology → ConceptType → Type 0
Walked o t = walk_parents o t.name (Map.len o.concept_types) t.parent ≡ ok tt

walk_all-All : (o : Ontology) (ts : List ConceptType) → walk_all o ts ≡ ok tt → All (Walked o) ts
unfolding walk_all
walk_all-All o [] h = tt
walk_all-All o (t ∷ ts) h =
    elim (Result-cases (walk_parents o t.name (Map.len o.concept_types) t.parent)) [
      | inl (u, e) ↦ (e, walk_all-All o ts (ground arith))
      | inr (x, e) ↦ absurd (ground arith)
    ]

-- In an ontology that `validate_hierarchy` accepts, no registered type, under its own name, is on
-- the chain of its own parents, at any distance.
pub validate_hierarchy-acyclic :
    (o : Ontology) (c : String) (t : ConceptType) (n : ℕ)
    → validate_hierarchy o ≡ ok tt
    → Map.get o.concept_types c ≡ some t
    → t.name ≡ c
    → ¬ On o c n t.parent
unfolding validate_hierarchy
validate_hierarchy-acyclic o c t n h g e on =
    walk_parents_sound o t.name (Map.len o.concept_types) t.parent n
      (get_All_values (Walked o) o.concept_types c t (walk_all-All o _ h) g) (rw e on)

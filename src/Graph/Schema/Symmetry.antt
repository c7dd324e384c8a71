-- ===== src/Graph/Schema/Symmetry.antt =====
-- crates/graph/src/schema.rs: `add_concept_type` keeps `disjoint_with` symmetric.
use ai_ontology_com.Common.{
  String, ◌≡◌, refl, Bool, true, ◌&&◌, ◌||◌, List, [], ◌∷◌, ◌++◌, Option, none, some, arith, ◌==◌,
  ==_iff, string_eq, contains, contains-append, All, Bool-cases, inl, inr, Option-cases, ◌∙◌,
}
use ai_ontology_com.Common.Map
use ai_ontology_com.Common.Map.{Map, get-insert, get_All}
use ai_ontology_com.Graph.Schema.{
  Ontology, ConceptType, pull_back, name_sibling, push_forward, add_concept_type,
}

-- The names that the type `a` is disjoint with; none, if it is not registered.
abbrev disjoint_names : Option ConceptType → List String
disjoint_names none = []
disjoint_names (some t) = t.disjoint_with

abbrev pub names : Map String ConceptType → String → String → Bool
names types a b = contains (disjoint_names (Map.get types a)) b

names-name_sibling :
    (name other : String) (types : Map String ConceptType) (a b : String)
    → names (name_sibling name other types) a b
      ≡ (names types a b || (name == b && other == a && Map.contains_key types a))
unfolding name_sibling
names-name_sibling name other types a b = elim (Option-cases (Map.get types other)) [
  | inl e ↦ ground (arith, e, ==_iff other a)
  | inr (o, e) ↦ elim (Bool-cases (contains o.disjoint_with name)) [
    | inl t ↦ ground (arith, e, t, ==_iff other a, ==_iff name b)
    | inr t ↦ ground (
      arith,
      e,
      t,
      ==_iff other a,
      ==_iff name b,
      get-insert types other (named o) a,
      contains-append o.disjoint_with (name ∷ []) b,
    )
  ]
]
  where
    named : ConceptType → ConceptType
    named o = record o { disjoint_with = o.disjoint_with ++ (name ∷ []) }

contains_key-name_sibling :
    (name other : String) (types : Map String ConceptType) (a : String)
    → Map.contains_key (name_sibling name other types) a ≡ Map.contains_key types a
unfolding name_sibling
contains_key-name_sibling name other types a = elim (Option-cases (Map.get types other)) [
  | inl e ↦ ground (arith, e)
  | inr (o, e) ↦ ground (
    arith,
    e,
    ==_iff other a,
    get-insert types other (record o { disjoint_with = o.disjoint_with ++ (name ∷ []) }) a,
  )
]

contains_key-push_forward :
    (name : String) (siblings : List String) (types : Map String ConceptType) (a : String)
    → Map.contains_key (push_forward name siblings types) a ≡ Map.contains_key types a
unfolding push_forward
contains_key-push_forward name [] types a = refl
contains_key-push_forward name (other ∷ rest) types a =
    contains_key-push_forward name rest (name_sibling name other types) a
    ∙ contains_key-name_sibling name other types a

-- The siblings that are registered name the new type; nothing else changes.
names-push_forward :
    (name : String) (siblings : List String) (types : Map String ConceptType) (a b : String)
    → names (push_forward name siblings types) a b
      ≡ (names types a b || (name == b && contains siblings a && Map.contains_key types a))
unfolding push_forward
names-push_forward name [] types a b = ground arith
names-push_forward name (other ∷ rest) types a b = ground (
  arith,
  names-push_forward name rest (name_sibling name other types) a b,
  names-name_sibling name other types a b,
  contains_key-name_sibling name other types a,
)

pull_back-keeps :
    (name : String) (l : List (String × ConceptType)) (d : List String) (x : String)
    → contains d x ≡ true
    → contains (pull_back name l d) x ≡ true
unfolding pull_back
pull_back-keeps name [] d x h = h
pull_back-keeps name ((j, t) ∷ l) d x h =
    pull_back-keeps name l _ x (ground (arith, contains-append d (j ∷ []) x))

pull_back-finds :
    (name : String) (l : List (String × ConceptType)) (d : List String)
    → All (λ x. contains x.1.disjoint_with name ≡ true → contains (pull_back name l d) x.0 ≡ true) l
unfolding pull_back
pull_back-finds name [] d = tt
pull_back-finds name ((j, t) ∷ l) d = (
  λ h. pull_back-keeps name l _ j (ground (arith, contains-append d (j ∷ []) j, ==_iff j j)),
  pull_back-finds name l _,
)

pull_back-names :
    (name : String) (types : Map String ConceptType) (d : List String) (a : String)
    → names types a name ≡ true
    → contains (pull_back name types.entries d) a ≡ true
pull_back-names name types d a h = elim (Option-cases (Map.get types a)) [
  | inl e ↦ absurd (ground (arith, e))
  | inr (t, e) ↦
      get_All
        (λ j u.
          contains u.disjoint_with name ≡ true → contains (pull_back name types.entries d) j ≡ true)
        types a t (pull_back-finds name types.entries d) e (ground (arith, e))
]

-- Whatever names a registered type is named by it.
pub record IsSymmetric (o : Ontology) : Type 0 where
  pub named_back :
      (a b : String)
      → Map.contains_key o.concept_types b ≡ true
      → names o.concept_types a b ≡ true
      → names o.concept_types b a ≡ true

-- Registering a type, new or in place of an old one, keeps the relation of disjointness between
-- registered types symmetric.
pub add_concept_type-IsSymmetric :
    (o : Ontology) (ct : ConceptType) → IsSymmetric o → IsSymmetric (add_concept_type o ct)
unfolding add_concept_type
add_concept_type-IsSymmetric o ct sym_o = record {
  named_back = λ a b known named. ground (
    arith,
    names-push_forward ct.name siblings types a b,
    names-push_forward ct.name siblings types b a,
    contains_key-push_forward ct.name siblings types b,
    get-insert o.concept_types ct.name ct' a,
    get-insert o.concept_types ct.name ct' b,
    pull_back-names ct.name o.concept_types ct.disjoint_with a,
    pull_back-names ct.name o.concept_types ct.disjoint_with b,
    sym_o.named_back a b,
    ==_iff ct.name a,
    ==_iff ct.name b,
  );
}
  where
    siblings : List String
    siblings = pull_back ct.name o.concept_types.entries ct.disjoint_with

    ct' : ConceptType
    ct' = record ct { disjoint_with = siblings }

    types : Map String ConceptType
    types = Map.insert o.concept_types ct.name ct'

-- ===== src/Graph/Schema.antt =====
-- crates/graph/src/schema.rs: the ontology. The lazily built cache of descendants is not modelled,
-- so `invalidate_caches` has no counterpart.
pub mod Hierarchy
pub mod Subtype
pub mod Symmetry
use Prim.Native.Char.{code}
use Prim.Native.String
use ai_ontology_com.Common.{
  ℕ, zero, suc, ◌+◌, String, Bool, true, false, not, ◌&&◌, ◌||◌, List, [], ◌∷◌, ◌++◌, Option, none,
  some, ◌==◌, string_eq, nat_eq, ltb, leb, if◌then◌else◌, is_some, contains, and_then,
}
use ai_ontology_com.Common.Map
use ai_ontology_com.Common.Map.{Map}
use ai_ontology_com.Common.Result.{Result, ok, err, ◌>>=◌, ◌>>◌, ok_or}
use ai_ontology_com.Graph.Model.{
  GraphError, GraphResult, unknown_concept_type, unknown_relation_type, schema_violation,
  invalid_namespace, namespace_mismatch, parent_cycle,
}

pub data Cardinality : Type 0 where
  one_to_one one_to_many many_to_one many_to_many : Cardinality

pub record ConceptType : Type 0 where
  pub name : String
  pub properties : Option (List String)
  pub parent : Option String
  pub description : String
  pub required_properties : List String
  pub disjoint_with : List String
  pub ns : Option String

pub record RelationType : Type 0 where
  pub name : String
  pub domain : String
  pub range : String
  pub cardinality : Cardinality
  pub symmetric : Bool
  pub description : String
  pub transitive : Bool
  pub inverse_of : Option String
  pub functional : Bool
  pub detail : Bool

pub record RuleType : Type 0 where
  pub name : String
  pub when : String
  pub then_ : String
  pub applies_to : List String
  pub strict : Bool
  pub description : String

pub record ActionType : Type 0 where
  pub name : String
  pub subject : String
  pub object : Option String
  pub parameters : List String
  pub effect : String
  pub description : String

pub record Ontology : Type 0 where
  pub concept_types : Map String ConceptType
  pub relation_types : Map String RelationType
  pub rule_types : Map String RuleType
  pub action_types : Map String ActionType

abbrev pub new : Ontology
new = record {
  concept_types = Map.empty;
  relation_types = Map.empty;
  rule_types = Map.empty;
  action_types = Map.empty;
}

-- `RelationType::limits`
unfoldable pub limits : RelationType → Bool × Bool
limits rt = (rt.functional || limits_out rt.cardinality, limits_in rt.cardinality)
  where
    limits_out : Cardinality → Bool
    limits_out one_to_one = true
    limits_out many_to_one = true
    limits_out _ = false

    limits_in : Cardinality → Bool
    limits_in one_to_one = true
    limits_in one_to_many = true
    limits_in _ = false

abbrev pub default_ns : String
default_ns = "default"

abbrev pub max_ns_len : ℕ
max_ns_len = 32

abbrev pub reserved_ns : List String
reserved_ns = "meta" ∷ []

-- The tests on bytes are made on code points: both fail on any character outside ASCII.
all_ns_chars : String → Bool
all_ns_chars String.[] = true
all_ns_chars (String.◌∷◌ c s) =
    (leb b'a' (code c) && leb (code c) b'z'
      || leb b'0' (code c) && leb (code c) b'9'
      || code c == b'_'
      || code c == b'-')
    && all_ns_chars s

unfoldable pub is_valid_ns : String → Bool
unfolding all_ns_chars
is_valid_ns ns =
    not (ns == "")
    && leb (String.len ns) max_ns_len
    && not (contains reserved_ns ns)
    && all_ns_chars ns

-- The back-edges: every registered type that already names `name`.
unfoldable pub pull_back : String → List (String × ConceptType) → List String → List String
pull_back name [] disjoint = disjoint
pull_back name ((other_name, other) ∷ rest) disjoint = pull_back name rest (
    if contains other.disjoint_with name && not (contains disjoint other_name)
    then disjoint ++ (other_name ∷ [])
    else disjoint)

-- The forward edges: every sibling that is registered.
unfoldable pub name_sibling : String → String → Map String ConceptType → Map String ConceptType
name_sibling name other types = elim (Map.get types other) [
  | none ↦ types
  | some o ↦
      if contains o.disjoint_with name
      then types
      else Map.insert types other (record o { disjoint_with = o.disjoint_with ++ (name ∷ []) })
]

unfoldable pub push_forward : String → List String → Map String ConceptType → Map String ConceptType
unfolding name_sibling
push_forward name [] types = types
push_forward name (other ∷ rest) types = push_forward name rest (name_sibling name other types)

unfoldable pub add_concept_type : Ontology → ConceptType → Ontology
unfolding pull_back push_forward
add_concept_type o ct =
    let siblings = pull_back ct.name o.concept_types.entries ct.disjoint_with in
    let ct' = record ct { disjoint_with = siblings } in
    record o {
      concept_types = push_forward ct.name siblings (Map.insert o.concept_types ct.name ct');
    }

-- `if decl.x.is_none() { decl.x = existing.x }`, and the same for an empty text or list
abbrev pub or_existing {ℓ} : {A : Type ℓ} → Option A → Option A → Option A
or_existing none existing = existing
or_existing (some a) existing = some a

abbrev pub or_existing_list {ℓ} : {A : Type ℓ} → List A → List A → List A
or_existing_list [] existing = existing
or_existing_list (a ∷ as_) existing = a ∷ as_

unfoldable pub merged_concept_type : Ontology → ConceptType → ConceptType
merged_concept_type o decl = elim (Map.get o.concept_types decl.name) [
  | none ↦ decl
  | some existing ↦ record decl {
    ns = or_existing decl.ns existing.ns;
    parent = or_existing decl.parent existing.parent;
    properties = or_existing decl.properties existing.properties;
    description = (if decl.description == "" then existing.description else decl.description);
    required_properties = or_existing_list decl.required_properties existing.required_properties;
    disjoint_with = or_existing_list decl.disjoint_with existing.disjoint_with;
  }
]

unfoldable pub check_inverse : RelationType → GraphResult (Unit {0})
check_inverse rt = elim rt.inverse_of [
  | none ↦ ok tt
  | some inv ↦
      if inv == ""
      then err (unknown_relation_type inv)
      else if inv == rt.name && not rt.symmetric
      then err (unknown_relation_type inv)
      else ok tt
]

unfoldable pub add_relation_type : Ontology → RelationType → GraphResult Ontology
unfolding check_inverse
add_relation_type o rt =
    if not (Map.contains_key o.concept_types rt.domain)
    then err (unknown_concept_type rt.domain)
    else if not (Map.contains_key o.concept_types rt.range)
    then err (unknown_concept_type rt.range)
    else do
      _ ← check_inverse rt
      ok (record o { relation_types = Map.insert o.relation_types rt.name rt })

unfoldable pub concept_type : Ontology → String → GraphResult ConceptType
concept_type o name = ok_or (Map.get o.concept_types name) (unknown_concept_type name)

unfoldable pub relation_type : Ontology → String → GraphResult RelationType
relation_type o name = ok_or (Map.get o.relation_types name) (unknown_relation_type name)

unfoldable pub all_known : Ontology → List String → GraphResult (Unit {0})
all_known o [] = ok tt
all_known o (ct ∷ rest) =
    if Map.contains_key o.concept_types ct then all_known o rest else err (unknown_concept_type ct)

unfoldable pub add_rule_type : Ontology → RuleType → GraphResult Ontology
unfolding all_known
add_rule_type o rule = do
  _ ← all_known o rule.applies_to
  ok (record o { rule_types = Map.insert o.rule_types rule.name rule })

abbrev object_types : Option String → List String
object_types none = []
object_types (some obj) = obj ∷ []

unfoldable pub add_action_type : Ontology → ActionType → GraphResult Ontology
unfolding all_known
add_action_type o action = do
  _ ← all_known o (action.subject ∷ object_types action.object)
  ok (record o { action_types = Map.insert o.action_types action.name action })

-- `cursor.and_then(|p| self.concept_types.get(p)).and_then(|ct| ct.parent)`
abbrev pub parent_of : Ontology → String → Option String
parent_of o name = and_then (Map.get o.concept_types name) (λ ct. ct.parent)

-- The loops over the `parent` chain run at most `len + 1` times: `hops > len` stops them.
unfoldable pub reaches : Ontology → String → ℕ → Option ConceptType → Bool
reaches o ancestor zero cursor = false
reaches o ancestor (suc rounds) none = false
reaches o ancestor (suc rounds) (some ct) = elim ct.parent [
  | none ↦ false
  | some p ↦ if p == ancestor then true else reaches o ancestor rounds (Map.get o.concept_types p)
]

unfoldable pub is_subtype : Ontology → String → String → Bool
is_subtype o child ancestor =
    if child == ancestor
    then true
    else reaches o ancestor (suc (Map.len o.concept_types)) (Map.get o.concept_types child)

unfoldable pub validate_edge : Ontology → String → String → String → GraphResult (Unit {0})
validate_edge o relation source_type target_type = do
  rt ← relation_type o relation
  if not (is_subtype o source_type rt.domain) || not (is_subtype o target_type rt.range)
      then err (schema_violation relation source_type target_type rt.domain rt.range)
      else ok tt

unfoldable pub nearest_ns : Ontology → ℕ → Option ConceptType → String
nearest_ns o zero cursor = default_ns
nearest_ns o (suc rounds) none = default_ns
nearest_ns o (suc rounds) (some ct) = elim ct.ns [
  | some ns ↦ ns
  | none ↦ nearest_ns o rounds (and_then ct.parent (Map.get o.concept_types))
]

unfoldable pub ns_of_type : Ontology → String → String
unfolding nearest_ns
ns_of_type o name = nearest_ns o (suc (Map.len o.concept_types)) (Map.get o.concept_types name)

unfoldable pub ns_of_relation_type : Ontology → String → GraphResult (String × String)
ns_of_relation_type o name = do
  rt ← relation_type o name
  ok (ns_of_type o rt.domain, ns_of_type o rt.range)

-- The walk from one type: an error when it comes back, or takes more hops than there are types.
unfoldable pub walk_parents : Ontology → String → ℕ → Option String → GraphResult (Unit {0})
walk_parents o start rounds none = ok tt
walk_parents o start zero (some p) = err (parent_cycle start)
walk_parents o start (suc rounds) (some p) =
    let rest = walk_parents o start rounds (parent_of o p) in
    if p == start then err (parent_cycle start) else rest

unfoldable pub walk_all : Ontology → List ConceptType → GraphResult (Unit {0})
walk_all o [] = ok tt
walk_all o (start ∷ rest) = do
  _ ← walk_parents o start.name (Map.len o.concept_types) start.parent
  walk_all o rest

unfoldable pub validate_hierarchy : Ontology → GraphResult (Unit {0})
unfolding walk_all
validate_hierarchy o = walk_all o (Map.values o.concept_types)

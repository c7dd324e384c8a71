-- ===== src/Graph/Model.antt =====
-- crates/graph/src/model.rs: the entities, and crates/graph/src/error.rs: the errors. Ids are
-- numbers; an `f64` and an `f32` are the numbers of their bit patterns.
use ai_ontology_com.Common.{ℕ, String, Bool, List, Option}
use ai_ontology_com.Common.Map.{Map}
use ai_ontology_com.Common.Map
use ai_ontology_com.Common.Result.{Result}

mutual
  pub data PropertyValue : Type 0 where
    text : String → PropertyValue
    number : ℕ → PropertyValue
    bool : Bool → PropertyValue
    list : PropertyValues → PropertyValue

  pub data PropertyValues : Type 0 where
    nil : PropertyValues
    cons : PropertyValue → PropertyValues → PropertyValues

abbrev pub Properties : Type 0
Properties = Map String PropertyValue

pub record Concept : Type 0 where
  pub id : ℕ
  pub concept_type : String
  pub name : String
  pub description : String
  pub properties : Properties

pub record ConceptPatch : Type 0 where
  pub name : Option String
  pub description : Option String
  pub properties : Option Properties

pub record Relation : Type 0 where
  pub id : ℕ
  pub relation_type : String
  pub source : ℕ
  pub target : ℕ
  pub weight : ℕ
  pub properties : Properties

pub record RelationPatch : Type 0 where
  pub weight : Option ℕ
  pub properties : Option Properties

pub record Rule : Type 0 where
  pub id : ℕ
  pub rule_type : String
  pub name : String
  pub when : String
  pub then_ : String
  pub applies_to : List ℕ
  pub strict : Bool
  pub description : String
  pub properties : Properties

pub record Action : Type 0 where
  pub id : ℕ
  pub action_type : String
  pub name : String
  pub subject : ℕ
  pub object : Option ℕ
  pub parameters : Properties
  pub effect : String
  pub description : String

pub record RulePatch : Type 0 where
  pub name : Option String
  pub when : Option String
  pub then_ : Option String
  pub applies_to : Option (List ℕ)
  pub strict : Option Bool
  pub description : Option String
  pub properties : Option Properties

-- The outer option of `object` says whether it is changed.
pub record ActionPatch : Type 0 where
  pub name : Option String
  pub subject : Option ℕ
  pub object : Option (Option ℕ)
  pub parameters : Option Properties
  pub effect : Option String
  pub description : Option String

-- `Concept::new`
unfoldable pub new_concept : ℕ → String → String → Concept
new_concept id concept_type name = record {
  id = id;
  concept_type = concept_type;
  name = name;
  description = "";
  properties = Map.empty;
}

-- `Relation::new`: the weight 1.0 has the bit pattern 0x3f800000.
unfoldable pub new_relation : ℕ → String → ℕ → ℕ → Relation
new_relation id relation_type source target = record {
  id = id;
  relation_type = relation_type;
  source = source;
  target = target;
  weight = 0x3f800000;
  properties = Map.empty;
}

pub data GraphError : Type 0 where
  unknown_concept : ℕ → GraphError
  payload_unavailable : ℕ → String → GraphError
  unknown_relation : ℕ → GraphError
  unknown_concept_type : String → GraphError
  unknown_relation_type : String → GraphError
  -- relation, source type, target type, expected domain, expected range
  schema_violation : String → String → String → String → String → GraphError
  -- relation, concept
  cardinality_violation : String → ℕ → GraphError
  -- name, type
  duplicate_concept : String → String → GraphError
  -- property, concept type
  invalid_property : String → String → GraphError
  missing_required_property : String → String → GraphError
  disjoint_type_violation : String → String → GraphError
  not_prepared : String → GraphError
  -- the type it was, the type it got
  immutable_concept_type : String → String → GraphError
  concept_id_out_of_range : ℕ → GraphError
  -- concept type, domain
  invalid_namespace : String → String → GraphError
  -- concept type, domain, parent, its domain
  namespace_mismatch : String → String → String → String → GraphError
  -- concept type, from, to, instances
  namespace_change_with_instances : String → String → String → ℕ → GraphError
  -- kind, name, instances
  type_in_use : String → String → ℕ → GraphError
  -- relation type, instances
  relation_type_change_with_instances : String → ℕ → GraphError
  relation_exists : ℕ → GraphError
  parent_cycle : String → GraphError

abbrev pub GraphResult {ℓ} : Type ℓ → Type ℓ
GraphResult A = Result GraphError A

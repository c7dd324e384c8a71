-- ===== src/Storage/Mirror.antt =====
-- crates/storage/src/codec.rs: the tagged mirror that the binary codec writes. `text_le` is the
-- standard library's order of strings.
use ai_ontology_com.Common.{ℕ, String, Bool, List, Option, string_eq}
use ai_ontology_com.Common.Map.Collect.{map_values, sort_by, collect}
use ai_ontology_com.Graph.Model.{
  PropertyValue, PropertyValues, Properties, Concept, Relation, Rule, Action,
}
use ai_ontology_com.Graph.Schema.{Ontology}
use ai_ontology_com.Storage.Log.{RecordKind}

mutual
  pub data StoredValue : Type 0 where
    text : String → StoredValue
    number : ℕ → StoredValue
    bool : Bool → StoredValue
    list : StoredValues → StoredValue

  pub data StoredValues : Type 0 where
    nil : StoredValues
    cons : StoredValue → StoredValues → StoredValues

unfoldable mutual
  pub value_out : PropertyValue → StoredValue
  value_out (PropertyValue.text t) = StoredValue.text t
  value_out (PropertyValue.number n) = StoredValue.number n
  value_out (PropertyValue.bool b) = StoredValue.bool b
  value_out (PropertyValue.list items) = StoredValue.list (values_out items)

  pub values_out : PropertyValues → StoredValues
  values_out PropertyValues.nil = StoredValues.nil
  values_out (PropertyValues.cons v vs) = StoredValues.cons (value_out v) (values_out vs)

unfoldable mutual
  pub value_in : StoredValue → PropertyValue
  value_in (StoredValue.text t) = PropertyValue.text t
  value_in (StoredValue.number n) = PropertyValue.number n
  value_in (StoredValue.bool b) = PropertyValue.bool b
  value_in (StoredValue.list items) = PropertyValue.list (values_in items)

  pub values_in : StoredValues → PropertyValues
  values_in StoredValues.nil = PropertyValues.nil
  values_in (StoredValues.cons v vs) = PropertyValues.cons (value_in v) (values_in vs)

abbrev pub StoredProps : Type 0
StoredProps = List (String × StoredValue)

unfoldable pub props_in : StoredProps → Properties
unfolding value_in
props_in v = collect (map_values value_in v)

pub record StoredConcept : Type 0 where
  pub id : ℕ
  pub concept_type : String
  pub name : String
  pub description : String
  pub properties : StoredProps

pub record StoredRelation : Type 0 where
  pub id : ℕ
  pub relation_type : String
  pub source : ℕ
  pub target : ℕ
  pub weight : ℕ
  pub properties : StoredProps

pub record StoredRule : Type 0 where
  pub id : ℕ
  pub rule_type : String
  pub name : String
  pub when : String
  pub then_ : String
  pub applies_to : List ℕ
  pub strict : Bool
  pub description : String
  pub properties : StoredProps

pub record StoredAction : Type 0 where
  pub id : ℕ
  pub action_type : String
  pub name : String
  pub subject : ℕ
  pub object : Option ℕ
  pub parameters : StoredProps
  pub effect : String
  pub description : String

pub data StoredRecord : Type 0 where
  ontology : Ontology → StoredRecord
  concept : StoredConcept → StoredRecord
  relation : StoredRelation → StoredRecord
  update_relation : StoredRelation → StoredRecord
  update_concept : StoredConcept → StoredRecord
  delete_concept : ℕ → StoredRecord
  delete_relation : ℕ → StoredRecord
  rule : StoredRule → StoredRecord
  action : StoredAction → StoredRecord
  delete_rule : ℕ → StoredRecord
  delete_action : ℕ → StoredRecord
  relation_exact : StoredRelation → StoredRecord

unfoldable pub concept_in : StoredConcept → Concept
unfolding props_in
concept_in c = record {
  id = c.id;
  concept_type = c.concept_type;
  name = c.name;
  description = c.description;
  properties = props_in c.properties;
}

unfoldable pub relation_in : StoredRelation → Relation
unfolding props_in
relation_in r = record {
  id = r.id;
  relation_type = r.relation_type;
  source = r.source;
  target = r.target;
  weight = r.weight;
  properties = props_in r.properties;
}

unfoldable pub rule_in : StoredRule → Rule
unfolding props_in
rule_in r = record {
  id = r.id;
  rule_type = r.rule_type;
  name = r.name;
  when = r.when;
  then_ = r.then_;
  applies_to = r.applies_to;
  strict = r.strict;
  description = r.description;
  properties = props_in r.properties;
}

unfoldable pub action_in : StoredAction → Action
unfolding props_in
action_in a = record {
  id = a.id;
  action_type = a.action_type;
  name = a.name;
  subject = a.subject;
  object = a.object;
  parameters = props_in a.parameters;
  effect = a.effect;
  description = a.description;
}

unfoldable pub record_in : StoredRecord → RecordKind
unfolding concept_in relation_in rule_in action_in
record_in (StoredRecord.ontology o) = RecordKind.ontology o
record_in (StoredRecord.concept c) = RecordKind.concept (concept_in c)
record_in (StoredRecord.relation r) = RecordKind.relation (relation_in r)
record_in (StoredRecord.update_relation r) = RecordKind.update_relation (relation_in r)
record_in (StoredRecord.update_concept c) = RecordKind.update_concept (concept_in c)
record_in (StoredRecord.delete_concept id) = RecordKind.delete_concept id
record_in (StoredRecord.delete_relation id) = RecordKind.delete_relation id
record_in (StoredRecord.rule r) = RecordKind.rule (rule_in r)
record_in (StoredRecord.action a) = RecordKind.action (action_in a)
record_in (StoredRecord.delete_rule id) = RecordKind.delete_rule id
record_in (StoredRecord.delete_action id) = RecordKind.delete_action id
record_in (StoredRecord.relation_exact r) = RecordKind.relation_exact (relation_in r)

module _ (text_le : String → String → Bool) where
  unfoldable pub props_out : Properties → StoredProps
  unfolding value_out
  props_out m = sort_by text_le (map_values value_out m.entries)

  unfoldable pub concept_out : Concept → StoredConcept
  unfolding props_out
  concept_out c = record {
    id = c.id;
    concept_type = c.concept_type;
    name = c.name;
    description = c.description;
    properties = props_out c.properties;
  }

  unfoldable pub relation_out : Relation → StoredRelation
  unfolding props_out
  relation_out r = record {
    id = r.id;
    relation_type = r.relation_type;
    source = r.source;
    target = r.target;
    weight = r.weight;
    properties = props_out r.properties;
  }

  unfoldable pub rule_out : Rule → StoredRule
  unfolding props_out
  rule_out r = record {
    id = r.id;
    rule_type = r.rule_type;
    name = r.name;
    when = r.when;
    then_ = r.then_;
    applies_to = r.applies_to;
    strict = r.strict;
    description = r.description;
    properties = props_out r.properties;
  }

  unfoldable pub action_out : Action → StoredAction
  unfolding props_out
  action_out a = record {
    id = a.id;
    action_type = a.action_type;
    name = a.name;
    subject = a.subject;
    object = a.object;
    parameters = props_out a.parameters;
    effect = a.effect;
    description = a.description;
  }

  unfoldable pub record_out : RecordKind → StoredRecord
  unfolding concept_out relation_out rule_out action_out
  record_out (RecordKind.ontology o) = StoredRecord.ontology o
  record_out (RecordKind.concept c) = StoredRecord.concept (concept_out c)
  record_out (RecordKind.relation r) = StoredRecord.relation (relation_out r)
  record_out (RecordKind.update_relation r) = StoredRecord.update_relation (relation_out r)
  record_out (RecordKind.update_concept c) = StoredRecord.update_concept (concept_out c)
  record_out (RecordKind.delete_concept id) = StoredRecord.delete_concept id
  record_out (RecordKind.delete_relation id) = StoredRecord.delete_relation id
  record_out (RecordKind.rule r) = StoredRecord.rule (rule_out r)
  record_out (RecordKind.action a) = StoredRecord.action (action_out a)
  record_out (RecordKind.delete_rule id) = StoredRecord.delete_rule id
  record_out (RecordKind.delete_action id) = StoredRecord.delete_action id
  record_out (RecordKind.relation_exact r) = StoredRecord.relation_exact (relation_out r)

-- ===== src/Storage/Log.antt =====
-- crates/storage/src/log.rs: the records of the log; and crates/storage/src/segment/format.rs: what
-- the index needs to know about one.
use ai_ontology_com.Common.{ℕ, String, Option, none, some}
use ai_ontology_com.Graph.Model.{Concept, Relation, Rule, Action}
use ai_ontology_com.Graph.Schema.{Ontology}
use ai_ontology_com.Segment.Kind.{Kind}
use ai_ontology_com.Segment.Index.{pack_endpoints}

pub data RecordKind : Type 0 where
  ontology : Ontology → RecordKind
  concept : Concept → RecordKind
  relation : Relation → RecordKind
  update_relation : Relation → RecordKind
  update_concept : Concept → RecordKind
  delete_concept : ℕ → RecordKind
  delete_relation : ℕ → RecordKind
  rule : Rule → RecordKind
  action : Action → RecordKind
  delete_rule : ℕ → RecordKind
  delete_action : ℕ → RecordKind
  relation_exact : Relation → RecordKind

pub data RouteHint : Type 0 where
  concept_type : String → RouteHint
  relation_type : String → RouteHint

pub record LogRecord : Type 0 where
  pub seq : ℕ
  pub kind : RecordKind
  pub route : Option RouteHint

-- `LogRecord::new`
unfoldable pub new_record : RecordKind → LogRecord
new_record kind = record { seq = 0; kind = kind; route = none }

unfoldable pub delete_concept_record : ℕ → String → LogRecord
delete_concept_record id type_name = record {
  seq = 0;
  kind = delete_concept id;
  route = some (RouteHint.concept_type type_name);
}

unfoldable pub delete_relation_record : ℕ → String → LogRecord
delete_relation_record id type_name = record {
  seq = 0;
  kind = delete_relation id;
  route = some (RouteHint.relation_type type_name);
}

unfoldable pub with_route : LogRecord → RouteHint → LogRecord
with_route r route = record r { route = some route }

-- `Kind::of`
unfoldable pub kind_of : RecordKind → Kind
kind_of (ontology o) = Kind.ontology
kind_of (concept c) = Kind.concept
kind_of (relation r) = Kind.relation
kind_of (update_relation r) = Kind.update_relation
kind_of (update_concept c) = Kind.update_concept
kind_of (delete_concept id) = Kind.delete_concept
kind_of (delete_relation id) = Kind.delete_relation
kind_of (rule r) = Kind.rule
kind_of (action a) = Kind.action
kind_of (delete_rule id) = Kind.delete_rule
kind_of (delete_action id) = Kind.delete_action
kind_of (relation_exact r) = Kind.relation_exact

pub record RecordMeta : Type 0 where
  pub kind : Kind
  pub entity_id : ℕ
  pub endpoints : ℕ
  pub relation_type : Option String

abbrev plain_meta : Kind → ℕ → RecordMeta
plain_meta kind id = record { kind = kind; entity_id = id; endpoints = 0; relation_type = none }

abbrev relation_meta : Kind → Relation → RecordMeta
relation_meta kind r = record {
  kind = kind;
  entity_id = r.id;
  endpoints = pack_endpoints r.source r.target;
  relation_type = some r.relation_type;
}

-- `RecordMeta::of`
unfoldable pub meta_of : RecordKind → RecordMeta
meta_of (ontology o) = plain_meta Kind.ontology 0
meta_of (concept c) = plain_meta Kind.concept c.id
meta_of (relation r) = relation_meta Kind.relation r
meta_of (update_relation r) = relation_meta Kind.update_relation r
meta_of (update_concept c) = plain_meta Kind.update_concept c.id
meta_of (delete_concept id) = plain_meta Kind.delete_concept id
meta_of (delete_relation id) = plain_meta Kind.delete_relation id
meta_of (rule r) = plain_meta Kind.rule r.id
meta_of (action a) = plain_meta Kind.action a.id
meta_of (delete_rule id) = plain_meta Kind.delete_rule id
meta_of (delete_action id) = plain_meta Kind.delete_action id
meta_of (relation_exact r) = relation_meta Kind.relation_exact r

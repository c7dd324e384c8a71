-- ===== src/Graph/Rules/Examples.antt =====
-- crates/graph/src/graph.rs: a rule that is inserted, renamed and removed.
use ai_ontology_com.Common.{refl, false, true, [], ◌∷◌}
use ai_ontology_com.Common.Map
use ai_ontology_com.Common.Set
use ai_ontology_com.Graph.Model.{Rule}
use ai_ontology_com.Graph.Schema.{Ontology, RuleType}
use ai_ontology_com.Graph.State
use ai_ontology_com.Graph.State.{OntologyGraph}
use ai_ontology_com.Graph.Rules.{upsert_rule}
use ai_ontology_com.Graph.Rules.Run.{IsListed, done, then_step, upsert, RuleRun-IsListed}

abbrev law : RuleType
law = record {
  name = "law";
  when = "";
  then_ = "";
  applies_to = [];
  strict = true;
  description = "";
}

abbrev laws : Ontology
laws = record {
  concept_types = Map.empty;
  relation_types = Map.empty;
  rule_types = record { entries = ("law", law) ∷ [] };
  action_types = Map.empty;
}

abbrev stop_sign : Rule
stop_sign = record {
  id = 0;
  rule_type = "law";
  name = "stop";
  when = "sign";
  then_ = "halt";
  applies_to = [];
  strict = false;
  description = "";
  properties = Map.empty;
}

abbrev no_rules : OntologyGraph
no_rules = State.new laws

no_rules-IsListed : IsListed no_rules
unfolding State.new Map.empty Map.get Map.find Set.mem Set.empty
no_rules-IsListed = record { live = refl; lists = λ t n i. refl }

abbrev one_rule : OntologyGraph
one_rule = (upsert_rule no_rules stop_sign).1

abbrev same_rule : OntologyGraph
same_rule = (upsert_rule one_rule (record stop_sign { id = 1; name = "halt" })).1

RuleRun-IsListed_example : IsListed same_rule
RuleRun-IsListed_example =
    RuleRun-IsListed (λ _. "rule") no_rules same_rule
      (then_step one_rule same_rule (then_step no_rules one_rule done (upsert stop_sign))
        (upsert (record stop_sign { id = 1; name = "halt" })))
      no_rules-IsListed

-- ===== src/Graph/Rules.antt =====
-- crates/graph/src/graph.rs: rules. A rule that is inserted again under its id replaces the old one.
-- The text of an unknown rule's error holds the id in decimal; `rule_text` makes it.
pub mod Run
mod Examples
use ai_ontology_com.Common.{
  ℕ, ◌+◌, String, Bool, true, false, not, ◌&&◌, List, [], ◌∷◌, Option, none, some, ◌==◌, nat_eq,
  string_eq, pair_eq, if◌then◌else◌,
}
use ai_ontology_com.Common.Map
use ai_ontology_com.Common.Set
use ai_ontology_com.Common.Set.{Set}
use ai_ontology_com.Common.Result.{Result, ok, err, ◌>>=◌, ok_or}
use ai_ontology_com.Graph.Ids.{next_rule, observe_rule}
use ai_ontology_com.Graph.Model.{
  Rule, RulePatch, GraphResult, unknown_concept, unknown_relation_type, not_prepared,
}
use ai_ontology_com.Graph.Listing.{Key, relist_key, rename_listed}
use ai_ontology_com.Graph.State.{OntologyGraph, derived}

-- `RuleKey`
abbrev pub rule_key : Rule → Key
rule_key r = (r.rule_type, (r.name, r.id))

-- The first of the ids that is no concept.
unfoldable pub check_concepts : OntologyGraph → List ℕ → GraphResult (Unit {0})
check_concepts g [] = ok tt
check_concepts g (id ∷ ids) =
    if Map.contains_key g.concepts id then check_concepts g ids else err (unknown_concept id)

-- An id that is consumed stays consumed.
unfoldable pub numbered_rule : OntologyGraph → Rule → GraphResult Rule × OntologyGraph
numbered_rule g rule =
    if rule.id == 0
    then (let (id, ids) = next_rule g.ids in (ok (record rule { id = id }), record g { ids = ids }))
    else (ok rule, record g { ids = observe_rule g.ids rule.id })

unfoldable pub prepare_rule : OntologyGraph → Rule → GraphResult Rule × OntologyGraph
unfolding check_concepts numbered_rule
prepare_rule g rule = elim (Map.get g.ontology.rule_types rule.rule_type) [
  | none ↦ (err (unknown_relation_type rule.rule_type), g)
  | some _ ↦ elim (check_concepts g rule.applies_to) [
    | err e ↦ (err e, g)
    | ok _ ↦ numbered_rule g rule
  ]
]

abbrev pub key_of : Option Rule → ℕ → Option Key
key_of none id = none
key_of (some prev) id = some (prev.rule_type, (prev.name, id))

unfoldable pub place_rule : OntologyGraph → Rule → OntologyGraph
unfolding relist_key
place_rule g rule = record g {
  ids = observe_rule g.ids rule.id;
  rules = Map.insert g.rules rule.id rule;
  rules_sorted =
      relist_key (derived g) (key_of (Map.get g.rules rule.id) rule.id) (rule_key rule)
        g.rules_sorted;
}

unfoldable pub apply_prepared_rule : OntologyGraph → Rule → GraphResult (ℕ × OntologyGraph)
unfolding place_rule
apply_prepared_rule g rule =
    if rule.id == 0 then err (not_prepared "rule") else ok (rule.id, place_rule g rule)

abbrev placed : GraphResult (ℕ × OntologyGraph) → OntologyGraph → GraphResult ℕ × OntologyGraph
placed (err e) g = (err e, g)
placed (ok (id, g')) g = (ok id, g')

abbrev applied : GraphResult Rule × OntologyGraph → GraphResult ℕ × OntologyGraph
applied (err e, g) = (err e, g)
applied (ok rule, g) = placed (apply_prepared_rule g rule) g

unfoldable pub upsert_rule : OntologyGraph → Rule → GraphResult ℕ × OntologyGraph
upsert_rule g rule = applied (prepare_rule g rule)

abbrev pub or_kept {ℓ} : {A : Type ℓ} → Option A → A → A
or_kept none kept = kept
or_kept (some a) kept = a

abbrev check_some : OntologyGraph → Option (List ℕ) → GraphResult (Unit {0})
check_some g none = ok tt
check_some g (some ids) = check_concepts g ids

module _ (rule_text : ℕ → String) where
  unfoldable pub get_rule : OntologyGraph → ℕ → GraphResult Rule
  get_rule g id = ok_or (Map.get g.rules id) (unknown_relation_type (rule_text id))

  unfoldable pub remove_rule : OntologyGraph → ℕ → GraphResult OntologyGraph
  remove_rule g id = elim (Map.get g.rules id) [
    | none ↦ err (unknown_relation_type (rule_text id))
    | some removed ↦ ok (record g {
      rules = Map.remove g.rules id;
      rules_sorted =
          if derived g
          then Set.remove g.rules_sorted (removed.rule_type, (removed.name, id))
          else g.rules_sorted;
    })
  ]

  unfoldable pub preview_rule_update : OntologyGraph → ℕ → RulePatch → GraphResult Rule
  unfolding get_rule
  preview_rule_update g id patch = do
    _ ← check_some g patch.applies_to
    rule ← get_rule g id
    ok (record rule {
      name = or_kept patch.name rule.name;
      when = or_kept patch.when rule.when;
      then_ = or_kept patch.then_ rule.then_;
      applies_to = or_kept patch.applies_to rule.applies_to;
      strict = or_kept patch.strict rule.strict;
      description = or_kept patch.description rule.description;
      properties = or_kept patch.properties rule.properties;
    })

  -- The stored rule keeps its id and its type.
  unfoldable pub apply_rule_update : OntologyGraph → Rule → GraphResult (Rule × OntologyGraph)
  unfolding rename_listed
  apply_rule_update g updated = elim (Map.get g.rules updated.id) [
    | none ↦ err (unknown_relation_type (rule_text updated.id))
    | some entry ↦
        let entry' : Rule = record updated { id = entry.id; rule_type = entry.rule_type } in
        ok (
          entry',
          record g {
            rules = Map.insert g.rules updated.id entry';
            rules_sorted =
                rename_listed (derived g) entry.rule_type entry.name updated.name updated.id
                  g.rules_sorted;
          },
        )
  ]

  unfoldable pub update_rule : OntologyGraph → ℕ → RulePatch → GraphResult (Rule × OntologyGraph)
  update_rule g id patch = do updated ← preview_rule_update g id patch; apply_rule_update g updated

-- ===== src/Graph/Rules/Run.antt =====
-- crates/graph/src/graph.rs: in every run of the operations on rules, the ordered listing agrees with
-- the table.
use ai_ontology_com.Common.{
  ℕ, ◌≡◌, inl, inr, String, true, false, arith, ◌==◌, nat_eq, string_eq, pair_eq, ==_iff,
  Option-cases, if_keeps,
}
use mathlib.Core.Path.{subst}
use ai_ontology_com.Common.Map
use ai_ontology_com.Common.Set
use ai_ontology_com.Common.Result.{ok, err, Result-cases}
use ai_ontology_com.Graph.Ids.{IdAllocator}
use ai_ontology_com.Graph.Model.{Rule, RulePatch, GraphResult}
use ai_ontology_com.Graph.Listing.{
  Lists, Carries, rename_listed, relist_key-Lists, rename_listed-Lists, remove-Lists,
}
use ai_ontology_com.Graph.State.{OntologyGraph}
use ai_ontology_com.Graph.Rules.{
  key_of, place_rule, apply_prepared_rule, prepare_rule, numbered_rule, check_concepts, upsert_rule,
  remove_rule, preview_rule_update, apply_rule_update, update_rule, applied,
}

-- Outside a bulk load, the listing holds exactly the keys of the rules.
pub record IsListed (g : OntologyGraph) : Type 0 where
  pub live : g.bulk ≡ false
  pub lists : Lists g.rules_sorted (λ i. key_of (Map.get g.rules i) i)

key_of-Carries : (g : OntologyGraph) → Carries (λ i. key_of (Map.get g.rules i) i)
key_of-Carries g i k h = elim (Option-cases (Map.get g.rules i)) [
  | inl e ↦ absurd (ground (arith, e, h))
  | inr (r, e) ↦ ground (arith, e, h)
]

place_rule-IsListed : (g : OntologyGraph) (rule : Rule) → IsListed g → IsListed (place_rule g rule)
unfolding place_rule
place_rule-IsListed g rule l = record {
  live = l.live;
  lists = rw (l.live) (
      relist_key-Lists g.rules_sorted (λ i. key_of (Map.get g.rules i) i) _ rule.rule_type rule.name
        rule.id l.lists (key_of-Carries g)
        (λ j. ground (arith, Map.get-insert g.rules rule.id rule j, ==_iff rule.id j)));
}

with_ids-IsListed :
    (g : OntologyGraph) (ids : IdAllocator) → IsListed g → IsListed (record g { ids = ids })
with_ids-IsListed g ids l = record { live = l.live; lists = l.lists }

prepare_rule-IsListed :
    (g : OntologyGraph) (rule : Rule) → IsListed g → IsListed (prepare_rule g rule).1
unfolding prepare_rule numbered_rule
prepare_rule-IsListed g rule l =
    elim (Option-cases (Map.get g.ontology.rule_types rule.rule_type)) [
      | inl e ↦ rw (e, prepare_rule) l
      | inr (t, e) ↦ elim (Result-cases (check_concepts g rule.applies_to)) [
        | inr (x, c) ↦ rw (e, c, prepare_rule) l
        | inl (x, c) ↦
            rw (e, c, prepare_rule)
              (if_keeps (λ (p : GraphResult Rule × OntologyGraph). IsListed p.1) (rule.id == 0) _ _
                (λ _. with_ids-IsListed g _ l) (λ _. with_ids-IsListed g _ l))
      ]
    ]

apply_prepared_rule-IsListed :
    (g g' : OntologyGraph) (rule : Rule) (id : ℕ)
    → apply_prepared_rule g rule ≡ ok (id, g')
    → IsListed g
    → IsListed g'
unfolding apply_prepared_rule
apply_prepared_rule-IsListed g g' rule id h l =
    subst IsListed (ground (arith, h)) (place_rule-IsListed g rule l)

applied-IsListed : (p : GraphResult Rule × OntologyGraph) → IsListed p.1 → IsListed (applied p).1
applied-IsListed (err e, g) l = l
applied-IsListed (ok rule, g) l = elim (Result-cases (apply_prepared_rule g rule)) [
  | inl ((id, g'), e) ↦ rw e (apply_prepared_rule-IsListed g g' rule id e l)
  | inr (x, e) ↦ rw e l
]

upsert_rule-IsListed :
    (g : OntologyGraph) (rule : Rule) → IsListed g → IsListed (upsert_rule g rule).1
unfolding upsert_rule
upsert_rule-IsListed g rule l =
    applied-IsListed (prepare_rule g rule) (prepare_rule-IsListed g rule l)

module _ (rule_text : ℕ → String) where
  remove_rule-IsListed :
      (g g' : OntologyGraph) (id : ℕ)
      → remove_rule rule_text g id ≡ ok g'
      → IsListed g
      → IsListed g'
  unfolding remove_rule
  remove_rule-IsListed g g' id h l = elim (Option-cases (Map.get g.rules id)) [
    | inl e ↦ absurd (ground (arith, e, h))
    | inr (r, e) ↦
        let without : OntologyGraph = record g {
          rules = Map.remove g.rules id;
          rules_sorted = Set.remove g.rules_sorted (r.rule_type, (r.name, id));
        } in
        let same : without ≡ g' = ground (arith, e, h, l.live) in
        subst IsListed same (record {
          live = l.live;
          lists =
              remove-Lists g.rules_sorted (λ i. key_of (Map.get g.rules i) i) _ r.rule_type r.name
                id l.lists (ground (arith, e))
                (λ j. ground (arith, Map.get-remove g.rules id j, ==_iff id j));
        })
  ]

  apply_rule_update-IsListed :
      (g g' : OntologyGraph) (updated rule : Rule)
      → apply_rule_update rule_text g updated ≡ ok (rule, g')
      → IsListed g
      → IsListed g'
  unfolding apply_rule_update
  apply_rule_update-IsListed g g' updated rule h l =
      elim (Option-cases (Map.get g.rules updated.id)) [
        | inl e ↦ absurd (ground (arith, e, h))
        | inr (entry, e) ↦
            let entry' : Rule = record updated { id = entry.id; rule_type = entry.rule_type } in
            let replaced : OntologyGraph = record g {
              rules = Map.insert g.rules updated.id entry';
              rules_sorted =
                  rename_listed true entry.rule_type entry.name updated.name updated.id
                    g.rules_sorted;
            } in
            let same : replaced ≡ g' = ground (arith, e, h, l.live) in
            subst IsListed same (record {
              live = l.live;
              lists =
                  rename_listed-Lists g.rules_sorted (λ i. key_of (Map.get g.rules i) i) _
                    entry.rule_type entry.name updated.name updated.id l.lists (ground (arith, e))
                    (λ j.
                      ground
                        (arith, Map.get-insert g.rules updated.id entry' j, ==_iff updated.id j));
            })
      ]

  update_rule-IsListed :
      (g g' : OntologyGraph) (id : ℕ) (patch : RulePatch) (rule : Rule)
      → update_rule rule_text g id patch ≡ ok (rule, g')
      → IsListed g
      → IsListed g'
  unfolding update_rule
  update_rule-IsListed g g' id patch rule h l =
      elim (Result-cases (preview_rule_update rule_text g id patch)) [
        | inl (updated, e) ↦ apply_rule_update-IsListed g g' updated rule (ground (arith, e, h)) l
        | inr (x, e) ↦ absurd (ground (arith, e, h))
      ]

  -- The operations on rules.
  pub data RuleStep (g : OntologyGraph) : OntologyGraph → Type 0 where
    upsert : (rule : Rule) → RuleStep g (upsert_rule g rule).1
    replay :
        (rule : Rule) (id : ℕ) (g' : OntologyGraph)
        → apply_prepared_rule g rule ≡ ok (id, g')
        → RuleStep g g'
    remove : (id : ℕ) (g' : OntologyGraph) → remove_rule rule_text g id ≡ ok g' → RuleStep g g'
    update :
        (id : ℕ) (patch : RulePatch) (rule : Rule) (g' : OntologyGraph)
        → update_rule rule_text g id patch ≡ ok (rule, g')
        → RuleStep g g'

  pub data RuleRun (g : OntologyGraph) : OntologyGraph → Type 0 where
    done : RuleRun g g
    then_step : (g' g'' : OntologyGraph) → RuleRun g g' → RuleStep g' g'' → RuleRun g g''

  RuleStep-IsListed : (g g' : OntologyGraph) → RuleStep g g' → IsListed g → IsListed g'
  RuleStep-IsListed g _ (upsert rule) l = upsert_rule-IsListed g rule l
  RuleStep-IsListed g _ (replay rule id g' h) l = apply_prepared_rule-IsListed g g' rule id h l
  RuleStep-IsListed g _ (remove id g' h) l = remove_rule-IsListed g g' id h l
  RuleStep-IsListed g _ (update id patch rule g' h) l = update_rule-IsListed g g' id patch rule h l

  -- In a graph outside a bulk load whose ordered listing of rules holds exactly the type, name and id
  -- of every rule of the table, it does so after every run of inserting or replacing, replaying,
  -- removing and updating rules, whether the insertions succeed or not.
  pub RuleRun-IsListed : (g g' : OntologyGraph) → RuleRun g g' → IsListed g → IsListed g'
  RuleRun-IsListed g _ done l = l
  RuleRun-IsListed g _ (then_step g' g'' before step) l =
      RuleStep-IsListed g' g'' step (RuleRun-IsListed g g' before l)

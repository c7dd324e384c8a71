-- ===== src/Graph/Actions.antt =====
-- crates/graph/src/graph.rs: actions. An action that is inserted again under its id replaces the old one.
-- The text of an unknown action's error holds the id in decimal; `action_text` makes it.
pub mod Run
use ai_ontology_com.Common.{
  ℕ, ◌+◌, String, Bool, true, false, not, ◌&&◌, List, [], ◌∷◌, Option, none, some, ◌==◌, nat_eq,
  string_eq, pair_eq, if◌then◌else◌,
}
use ai_ontology_com.Common.Map
use ai_ontology_com.Common.Set
use ai_ontology_com.Common.Set.{Set}
use ai_ontology_com.Common.Result.{Result, ok, err, ◌>>=◌, ok_or}
use ai_ontology_com.Graph.Ids.{next_action, observe_action}
use ai_ontology_com.Graph.Model.{
  Action, ActionPatch, GraphResult, unknown_concept, unknown_relation_type, not_prepared,
}
use ai_ontology_com.Graph.Listing.{Key, relist_key, rename_listed}
use ai_ontology_com.Graph.State.{OntologyGraph, derived}

-- `ActionKey`
abbrev pub action_key : Action → Key
action_key r = (r.action_type, (r.name, r.id))

-- Both ends are concepts.
unfoldable pub check_subject : OntologyGraph → ℕ → GraphResult (Unit {0})
check_subject g id = if Map.contains_key g.concepts id then ok tt else err (unknown_concept id)

unfoldable pub check_object : OntologyGraph → Option ℕ → GraphResult (Unit {0})
unfolding check_subject
check_object g none = ok tt
check_object g (some id) = check_subject g id

unfoldable pub check_ends : OntologyGraph → Action → GraphResult (Unit {0})
unfolding check_object
check_ends g action = do _ ← check_subject g action.subject; check_object g action.object

-- An id that is consumed stays consumed.
unfoldable pub numbered_action : OntologyGraph → Action → GraphResult Action × OntologyGraph
numbered_action g action =
    if action.id == 0
    then (let (id, ids) = next_action g.ids in
        (ok (record action { id = id }), record g { ids = ids }))
    else (ok action, record g { ids = observe_action g.ids action.id })

unfoldable pub prepare_action : OntologyGraph → Action → GraphResult Action × OntologyGraph
unfolding check_ends numbered_action
prepare_action g action = elim (Map.get g.ontology.action_types action.action_type) [
  | none ↦ (err (unknown_relation_type action.action_type), g)
  | some _ ↦ elim (check_ends g action) [ err e ↦ (err e, g) | ok _ ↦ numbered_action g action ]
]

abbrev pub key_of : Option Action → ℕ → Option Key
key_of none id = none
key_of (some prev) id = some (prev.action_type, (prev.name, id))

unfoldable pub place_action : OntologyGraph → Action → OntologyGraph
unfolding relist_key
place_action g action = record g {
  ids = observe_action g.ids action.id;
  actions = Map.insert g.actions action.id action;
  actions_sorted =
      relist_key (derived g) (key_of (Map.get g.actions action.id) action.id) (action_key action)
        g.actions_sorted;
}

unfoldable pub apply_prepared_action : OntologyGraph → Action → GraphResult (ℕ × OntologyGraph)
unfolding place_action
apply_prepared_action g action =
    if action.id == 0 then err (not_prepared "action") else ok (action.id, place_action g action)

abbrev placed : GraphResult (ℕ × OntologyGraph) → OntologyGraph → GraphResult ℕ × OntologyGraph
placed (err e) g = (err e, g)
placed (ok (id, g')) g = (ok id, g')

abbrev applied : GraphResult Action × OntologyGraph → GraphResult ℕ × OntologyGraph
applied (err e, g) = (err e, g)
applied (ok action, g) = placed (apply_prepared_action g action) g

unfoldable pub upsert_action : OntologyGraph → Action → GraphResult ℕ × OntologyGraph
upsert_action g action = applied (prepare_action g action)

abbrev pub or_kept {ℓ} : {A : Type ℓ} → Option A → A → A
or_kept none kept = kept
or_kept (some a) kept = a

abbrev check_new_subject : OntologyGraph → Option ℕ → GraphResult (Unit {0})
check_new_subject g none = ok tt
check_new_subject g (some id) = check_subject g id

abbrev check_new_object : OntologyGraph → Option (Option ℕ) → GraphResult (Unit {0})
check_new_object g none = ok tt
check_new_object g (some object) = check_object g object

module _ (action_text : ℕ → String) where
  unfoldable pub get_action : OntologyGraph → ℕ → GraphResult Action
  get_action g id = ok_or (Map.get g.actions id) (unknown_relation_type (action_text id))

  unfoldable pub remove_action : OntologyGraph → ℕ → GraphResult OntologyGraph
  remove_action g id = elim (Map.get g.actions id) [
    | none ↦ err (unknown_relation_type (action_text id))
    | some removed ↦ ok (record g {
      actions = Map.remove g.actions id;
      actions_sorted =
          if derived g
          then Set.remove g.actions_sorted (removed.action_type, (removed.name, id))
          else g.actions_sorted;
    })
  ]

  unfoldable pub preview_action_update : OntologyGraph → ℕ → ActionPatch → GraphResult Action
  unfolding get_action
  preview_action_update g id patch = do
    _ ← check_new_subject g patch.subject
    _ ← check_new_object g patch.object
    action ← get_action g id
    ok (record action {
      name = or_kept patch.name action.name;
      subject = or_kept patch.subject action.subject;
      object = or_kept patch.object action.object;
      parameters = or_kept patch.parameters action.parameters;
      effect = or_kept patch.effect action.effect;
      description = or_kept patch.description action.description;
    })

  -- The stored action keeps its id and its type.
  unfoldable pub apply_action_update : OntologyGraph → Action → GraphResult (Action × OntologyGraph)
  unfolding rename_listed
  apply_action_update g updated = elim (Map.get g.actions updated.id) [
    | none ↦ err (unknown_relation_type (action_text updated.id))
    | some entry ↦
        let entry' : Action = record updated { id = entry.id; action_type = entry.action_type } in
        ok (
          entry',
          record g {
            actions = Map.insert g.actions updated.id entry';
            actions_sorted =
                rename_listed (derived g) entry.action_type entry.name updated.name updated.id
                  g.actions_sorted;
          },
        )
  ]

  unfoldable pub update_action :
      OntologyGraph → ℕ → ActionPatch → GraphResult (Action × OntologyGraph)
  update_action g id patch = do
    updated ← preview_action_update g id patch
    apply_action_update g updated

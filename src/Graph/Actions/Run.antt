-- ===== src/Graph/Actions/Run.antt =====
-- crates/graph/src/graph.rs: in every run of the operations on actions, the ordered listing agrees with
-- the table.
use ai_ontology_com.Common.{
  ℕ, ◌≡◌, inl, inr, String, true, false, arith, ◌==◌, nat_eq, string_eq, pair_eq, ==_iff,
  Option-cases, if_keeps,
}
use mathlib.Core.Path.{subst}
use ai_ontology_com.Common.Map
use ai_ontology_com.Common.Set
use ai_ontology_com.Common.Result.{ok, err, Result-cases}
use ai_ontology_com.Graph.Ids.{IdAllocator}
use ai_ontology_com.Graph.Model.{Action, ActionPatch, GraphResult}
use ai_ontology_com.Graph.Listing.{
  Lists, Carries, rename_listed, relist_key-Lists, rename_listed-Lists, remove-Lists,
}
use ai_ontology_com.Graph.State.{OntologyGraph}
use ai_ontology_com.Graph.Actions.{
  key_of, place_action, apply_prepared_action, prepare_action, numbered_action, check_ends,
  upsert_action, remove_action, preview_action_update, apply_action_update, update_action, applied,
}

-- Outside a bulk load, the listing holds exactly the keys of the actions.
pub record IsListed (g : OntologyGraph) : Type 0 where
  pub live : g.bulk ≡ false
  pub lists : Lists g.actions_sorted (λ i. key_of (Map.get g.actions i) i)

key_of-Carries : (g : OntologyGraph) → Carries (λ i. key_of (Map.get g.actions i) i)
key_of-Carries g i k h = elim (Option-cases (Map.get g.actions i)) [
  | inl e ↦ absurd (ground (arith, e, h))
  | inr (r, e) ↦ ground (arith, e, h)
]

place_action-IsListed :
    (g : OntologyGraph) (action : Action) → IsListed g → IsListed (place_action g action)
unfolding place_action
place_action-IsListed g action l = record {
  live = l.live;
  lists = rw (l.live) (
      relist_key-Lists g.actions_sorted (λ i. key_of (Map.get g.actions i) i) _ action.action_type
        action.name action.id l.lists (key_of-Carries g)
        (λ j. ground (arith, Map.get-insert g.actions action.id action j, ==_iff action.id j)));
}

with_ids-IsListed :
    (g : OntologyGraph) (ids : IdAllocator) → IsListed g → IsListed (record g { ids = ids })
with_ids-IsListed g ids l = record { live = l.live; lists = l.lists }

prepare_action-IsListed :
    (g : OntologyGraph) (action : Action) → IsListed g → IsListed (prepare_action g action).1
unfolding prepare_action numbered_action
prepare_action-IsListed g action l =
    elim (Option-cases (Map.get g.ontology.action_types action.action_type)) [
      | inl e ↦ rw (e, prepare_action) l
      | inr (t, e) ↦ elim (Result-cases (check_ends g action)) [
        | inr (x, c) ↦ rw (e, c, prepare_action) l
        | inl (x, c) ↦
            rw (e, c, prepare_action)
              (if_keeps (λ (p : GraphResult Action × OntologyGraph). IsListed p.1) (action.id == 0)
                _ _ (λ _. with_ids-IsListed g _ l) (λ _. with_ids-IsListed g _ l))
      ]
    ]

apply_prepared_action-IsListed :
    (g g' : OntologyGraph) (action : Action) (id : ℕ)
    → apply_prepared_action g action ≡ ok (id, g')
    → IsListed g
    → IsListed g'
unfolding apply_prepared_action
apply_prepared_action-IsListed g g' action id h l =
    subst IsListed (ground (arith, h)) (place_action-IsListed g action l)

applied-IsListed : (p : GraphResult Action × OntologyGraph) → IsListed p.1 → IsListed (applied p).1
applied-IsListed (err e, g) l = l
applied-IsListed (ok action, g) l = elim (Result-cases (apply_prepared_action g action)) [
  | inl ((id, g'), e) ↦ rw e (apply_prepared_action-IsListed g g' action id e l)
  | inr (x, e) ↦ rw e l
]

upsert_action-IsListed :
    (g : OntologyGraph) (action : Action) → IsListed g → IsListed (upsert_action g action).1
unfolding upsert_action
upsert_action-IsListed g action l =
    applied-IsListed (prepare_action g action) (prepare_action-IsListed g action l)

module _ (action_text : ℕ → String) where
  remove_action-IsListed :
      (g g' : OntologyGraph) (id : ℕ)
      → remove_action action_text g id ≡ ok g'
      → IsListed g
      → IsListed g'
  unfolding remove_action
  remove_action-IsListed g g' id h l = elim (Option-cases (Map.get g.actions id)) [
    | inl e ↦ absurd (ground (arith, e, h))
    | inr (r, e) ↦
        let without : OntologyGraph = record g {
          actions = Map.remove g.actions id;
          actions_sorted = Set.remove g.actions_sorted (r.action_type, (r.name, id));
        } in
        let same : without ≡ g' = ground (arith, e, h, l.live) in
        subst IsListed same (record {
          live = l.live;
          lists =
              remove-Lists g.actions_sorted (λ i. key_of (Map.get g.actions i) i) _ r.action_type
                r.name id l.lists (ground (arith, e))
                (λ j. ground (arith, Map.get-remove g.actions id j, ==_iff id j));
        })
  ]

  apply_action_update-IsListed :
      (g g' : OntologyGraph) (updated action : Action)
      → apply_action_update action_text g updated ≡ ok (action, g')
      → IsListed g
      → IsListed g'
  unfolding apply_action_update
  apply_action_update-IsListed g g' updated action h l =
      elim (Option-cases (Map.get g.actions updated.id)) [
        | inl e ↦ absurd (ground (arith, e, h))
        | inr (entry, e) ↦
            let entry' : Action = record updated {
              id = entry.id;
              action_type = entry.action_type;
            } in
            let replaced : OntologyGraph = record g {
              actions = Map.insert g.actions updated.id entry';
              actions_sorted =
                  rename_listed true entry.action_type entry.name updated.name updated.id
                    g.actions_sorted;
            } in
            let same : replaced ≡ g' = ground (arith, e, h, l.live) in
            subst IsListed same (record {
              live = l.live;
              lists =
                  rename_listed-Lists g.actions_sorted (λ i. key_of (Map.get g.actions i) i) _
                    entry.action_type entry.name updated.name updated.id l.lists (ground (arith, e))
                    (λ j.
                      ground
                        (arith, Map.get-insert g.actions updated.id entry' j, ==_iff updated.id j));
            })
      ]

  update_action-IsListed :
      (g g' : OntologyGraph) (id : ℕ) (patch : ActionPatch) (action : Action)
      → update_action action_text g id patch ≡ ok (action, g')
      → IsListed g
      → IsListed g'
  unfolding update_action
  update_action-IsListed g g' id patch action h l =
      elim (Result-cases (preview_action_update action_text g id patch)) [
        | inl (updated, e) ↦
            apply_action_update-IsListed g g' updated action (ground (arith, e, h)) l
        | inr (x, e) ↦ absurd (ground (arith, e, h))
      ]

  -- The operations on actions.
  pub data ActionStep (g : OntologyGraph) : OntologyGraph → Type 0 where
    upsert : (action : Action) → ActionStep g (upsert_action g action).1
    replay :
        (action : Action) (id : ℕ) (g' : OntologyGraph)
        → apply_prepared_action g action ≡ ok (id, g')
        → ActionStep g g'
    remove :
        (id : ℕ) (g' : OntologyGraph) → remove_action action_text g id ≡ ok g' → ActionStep g g'
    update :
        (id : ℕ) (patch : ActionPatch) (action : Action) (g' : OntologyGraph)
        → update_action action_text g id patch ≡ ok (action, g')
        → ActionStep g g'

  pub data ActionRun (g : OntologyGraph) : OntologyGraph → Type 0 where
    done : ActionRun g g
    then_step : (g' g'' : OntologyGraph) → ActionRun g g' → ActionStep g' g'' → ActionRun g g''

  ActionStep-IsListed : (g g' : OntologyGraph) → ActionStep g g' → IsListed g → IsListed g'
  ActionStep-IsListed g _ (upsert action) l = upsert_action-IsListed g action l
  ActionStep-IsListed g _ (replay action id g' h) l =
      apply_prepared_action-IsListed g g' action id h l
  ActionStep-IsListed g _ (remove id g' h) l = remove_action-IsListed g g' id h l
  ActionStep-IsListed g _ (update id patch action g' h) l =
      update_action-IsListed g g' id patch action h l

  -- In a graph outside a bulk load whose ordered listing of actions holds exactly the type, name and id
  -- of every action of the table, it does so after every run of inserting or replacing, replaying,
  -- removing and updating actions, whether the insertions succeed or not.
  pub ActionRun-IsListed : (g g' : OntologyGraph) → ActionRun g g' → IsListed g → IsListed g'
  ActionRun-IsListed g _ done l = l
  ActionRun-IsListed g _ (then_step g' g'' before step) l =
      ActionStep-IsListed g' g'' step (ActionRun-IsListed g g' before l)

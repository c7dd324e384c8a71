-- ===== src/Graph/Concepts/WriteAhead.antt =====
-- crates/graph/src/graph.rs: the write-ahead sequence. What `prepare_concept` accepts, is journalled
-- before it is applied; then `apply_prepared_concept` must not refuse it.
use mathlib.Core.Path.{subst, subst₂, ap, sym, ◌∙◌}
use ai_ontology_com.Common.{
  ℕ, ◌≤◌, ◌<◌, ◌≡◌, refl, String, true, false, some, arith, ◌==◌, nat_eq, pair_eq, ◌≢◌,
  if◌then◌else◌, inl, inr, Option-cases, Bool-cases, ==_iff, string_eq,
}
use ai_ontology_com.Common.Map
use ai_ontology_com.Common.Result.{ok, Result-cases}
use ai_ontology_com.Graph.Ids.{fits_storage, max_concept_id, next_concept, observe_concept}
use ai_ontology_com.Graph.Model.{Concept, GraphResult}
use ai_ontology_com.Graph.State.{OntologyGraph, Slot}
use ai_ontology_com.Graph.Concepts.{
  taken_by_other, name_key, check_name, check_type, check_range, validate_concept_schema,
  prepare_fresh, prepare_explicit, prepare_concept,
}
use ai_ontology_com.Graph.Concepts.Apply.{place_concept, apply_prepared_concept}

-- The allocator is past every id in use, and past 0, the id that stands for "unset".
pub record IdsFresh (g : OntologyGraph) : Type 0 where
  pub above : (id : ℕ) (s : Slot) → Map.get g.concepts id ≡ some s → id < g.ids.concepts
  pub positive : 0 < g.ids.concepts

module _ (to_lowercase : String → String) where
  abbrev Applies : OntologyGraph → Concept → Type 0
  Applies g c =
      (apply_prepared_concept to_lowercase g c ≡ ok (c.id, place_concept to_lowercase g c))
      × (c.id ≤ max_concept_id)

  -- The order of the tests in `apply_prepared_concept`, all of them passed.
  apply_passes :
      (g : OntologyGraph) (c : Concept)
      → 0 < c.id
      → taken_by_other (Map.get g.name_index (name_key to_lowercase c)) c.id ≡ false
      → check_type to_lowercase g c ≡ ok tt
      → apply_prepared_concept to_lowercase g c ≡ ok (c.id, place_concept to_lowercase g c)
  unfolding apply_prepared_concept
  apply_passes g c pos free type_kept = ground (arith, type_kept)

  fresh_is_free :
      (g : OntologyGraph) (c : Concept) (id : ℕ)
      → c.id ≡ 0
      → check_name to_lowercase g c ≡ ok tt
      → taken_by_other (Map.get g.name_index (name_key to_lowercase c)) id ≡ false
  unfolding check_name
  fresh_is_free g c id unset named = ground arith

  explicit_is_free :
      (g : OntologyGraph) (c : Concept)
      → c.id ≢ 0
      → check_name to_lowercase g c ≡ ok tt
      → taken_by_other (Map.get g.name_index (name_key to_lowercase c)) c.id ≡ false
  unfolding check_name
  explicit_is_free g c set named = ground arith

  -- No concept has the next id yet.
  fresh_type :
      (g : OntologyGraph) (c : Concept)
      → IdsFresh g
      → c.id ≡ g.ids.concepts
      → check_type to_lowercase g c ≡ ok tt
  unfolding check_type
  fresh_type g c fresh e = elim (Option-cases (Map.get g.concepts c.id)) [
    | inl none_yet ↦ ground arith
    | inr (s, there) ↦ absurd (omega (arith, fresh.above c.id s there))
  ]

  fits_le : (id : ℕ) → fits_storage id ≡ true → id ≤ max_concept_id
  unfolding fits_storage
  fits_le id h = ground arith

  fresh-Applies :
      (g : OntologyGraph) (c c' : Concept)
      → IdsFresh g
      → c.id ≡ 0
      → check_name to_lowercase g c ≡ ok tt
      → (prepare_fresh to_lowercase g c).0 ≡ ok c'
      → Applies (prepare_fresh to_lowercase g c).1 c'
  unfolding prepare_fresh check_range next_concept check_type
  fresh-Applies g c c' fresh unset named h = elim (Bool-cases (fits_storage g.ids.concepts)) [
    | inr t ↦ absurd (ground arith)
    | inl t ↦
        let chosen : Concept = record c { id = g.ids.concepts } in
        let is_chosen : chosen ≡ c' = ground arith in
        subst (Applies (prepare_fresh to_lowercase g c).1) is_chosen (
          apply_passes (prepare_fresh to_lowercase g c).1 chosen fresh.positive
              (fresh_is_free g c g.ids.concepts unset named) (fresh_type g chosen fresh refl),
          fits_le g.ids.concepts t,
        )
  ]

  observed : OntologyGraph → ℕ → OntologyGraph
  observed g id = record g { ids = observe_concept g.ids id }

  explicit_outcome :
      (g : OntologyGraph) (c : Concept)
      → check_type to_lowercase g c ≡ ok tt
      → fits_storage c.id ≡ true
      → prepare_explicit to_lowercase g c ≡ (ok c, observed g c.id)
  unfolding prepare_explicit check_range observed
  explicit_outcome g c t f = rw (t, f, prepare_explicit)

  explicit-Applies :
      (g : OntologyGraph) (c c' : Concept)
      → c.id ≢ 0
      → check_name to_lowercase g c ≡ ok tt
      → (prepare_explicit to_lowercase g c).0 ≡ ok c'
      → Applies (prepare_explicit to_lowercase g c).1 c'
  unfolding prepare_explicit check_range
  explicit-Applies g c c' set named h = elim (Result-cases (check_type to_lowercase g c)) [
    | inr (x, t) ↦ absurd (ground arith)
    | inl (u, t) ↦ elim (Bool-cases (fits_storage c.id)) [
      | inr f ↦ absurd (ground arith)
      | inl f ↦
          let whole = explicit_outcome g c t f in
          let same : c ≡ c' = ground (arith, whole) in
          subst₂ Applies (ap (λ (p : GraphResult Concept × OntologyGraph). p.1) (sym whole)) same (
            apply_passes (observed g c.id) c (ground arith)
                (unfold observed in (explicit_is_free g c set named))
                (unfold observed check_type in t),
            fits_le c.id f,
          )
    ]
  ]

  prepared :
      (g : OntologyGraph) (c : Concept)
      → validate_concept_schema to_lowercase g c ≡ ok tt
      → check_name to_lowercase g c ≡ ok tt
      → prepare_concept to_lowercase g c
        ≡ (if c.id == 0 then prepare_fresh to_lowercase g c else prepare_explicit to_lowercase g c)
  unfolding prepare_concept
  prepared g c v n = rw (v, n, prepare_concept)

  Applies-at :
      (g : OntologyGraph) (p q : GraphResult Concept × OntologyGraph) (c' : Concept)
      → p ≡ q
      → (q.0 ≡ ok c' → Applies q.1 c')
      → p.0 ≡ ok c'
      → Applies p.1 c'
  Applies-at g p q c' e f =
      subst (λ (r : GraphResult Concept × OntologyGraph). r.0 ≡ ok c' → Applies r.1 c') (sym e) f

  -- While the allocator is past 0 and past every id in use, a concept that `prepare_concept`
  -- accepts, with its id filled in, is accepted by `apply_prepared_concept` on the graph that
  -- the preparation left, under that id, which fits the 32 bits of the storage format.
  pub prepare_concept-apply :
      (g : OntologyGraph) (c c' : Concept)
      → IdsFresh g
      → (prepare_concept to_lowercase g c).0 ≡ ok c'
      → (apply_prepared_concept to_lowercase (prepare_concept to_lowercase g c).1 c'
          ≡ ok (c'.id, place_concept to_lowercase (prepare_concept to_lowercase g c).1 c'))
        × (c'.id ≤ max_concept_id)
  prepare_concept-apply g c c' fresh h =
      elim (Result-cases (validate_concept_schema to_lowercase g c)) [
        | inr (x, v) ↦ absurd (unfold prepare_concept in ground (arith, v))
        | inl (u, v) ↦ elim (Result-cases (check_name to_lowercase g c)) [
          | inr (x, n) ↦ absurd (unfold prepare_concept in ground (arith, v, n))
          | inl (w, n) ↦ elim (Bool-cases (c.id == 0)) [
            | inl z ↦
                let whole : prepare_concept to_lowercase g c ≡ prepare_fresh to_lowercase g c =
                  prepared g c v n ∙ (rw z) in
                Applies-at g (prepare_concept to_lowercase g c) (prepare_fresh to_lowercase g c) c'
                  whole (fresh-Applies g c c' fresh ((==_iff c.id 0).0 z) n) h
            | inr z ↦
                let whole : prepare_concept to_lowercase g c ≡ prepare_explicit to_lowercase g c =
                  prepared g c v n ∙ (rw z) in
                Applies-at g (prepare_concept to_lowercase g c) (prepare_explicit to_lowercase g c)
                  c' whole (explicit-Applies g c c' (λ e. cc (sym z ∙ (==_iff c.id 0).1 e)) n) h
          ]
        ]
      ]

-- ===== src/Graph/Payloads/Held.antt =====
-- crates/graph/src/graph.rs: where the payloads are that are not in memory.
use ai_ontology_com.Common.{
  ℕ, ◌≡◌, Bool, true, false, not, ◌&&◌, ◌||◌, List, [], ◌∷◌, Option, none, some, arith, nat_eq,
  pair_eq, string_eq, if_keeps, is_some, inl, inr, Option-cases, Bool-cases,
}
use ai_ontology_com.Common.Map
use ai_ontology_com.Common.Map.{Map}
use ai_ontology_com.Common.Set
use ai_ontology_com.Common.Result.{ok}
use ai_ontology_com.Graph.Model.{Concept}
use ai_ontology_com.Graph.State.{
  OntologyGraph, Slot, Loc, PayloadSource, loc_beq, evict_at, sealable_push, listed,
}
use ai_ontology_com.Graph.Payloads.{set_loc, drop_payload, drop_payloads, partition_sealed}

-- Which concept's record stands where, and which partitions are sealed.
module _ (located : ℕ → Loc → Bool) (is_sealed : ℕ → ℕ → Bool) where
  abbrev pub is_located : ℕ → Option Loc → Bool
  is_located id none = true
  is_located id (some loc) = located id loc

  abbrev pub in_sealed : Option Loc → Bool
  in_sealed none = false
  in_sealed (some loc) = is_sealed loc.ns_id loc.partition

  -- A slot's location is that of its concept's record, and in a sealed partition if the payload is not
  -- in memory.
  abbrev pub is_held : ℕ → Option Slot → Bool
  is_held id none = true
  is_held id (some slot) = is_located id slot.loc && (is_some slot.payload || in_sealed slot.loc)

  -- A source reads the record of a concept in a sealed partition.
  abbrev pub Reads : PayloadSource → Type 0
  Reads source =
      (id : ℕ) (loc : Loc)
      → located id loc ≡ true
      → is_sealed loc.ns_id loc.partition ≡ true
      → (c : Concept) × (source loc ≡ ok c) × (c.id ≡ id)

  -- The state of the slots, and of what decides where they are read.
  pub record IsHeld (g : OntologyGraph) : Type 0 where
    pub slots : (i : ℕ) → is_held i (Map.get g.concepts i) ≡ true
    pub pending : (i : ℕ) → is_located i (Map.get g.pending_locs i) ≡ true
    pub sealed : (k : ℕ × ℕ) → Set.mem g.sealed k ≡ true → is_sealed k.0 k.1 ≡ true
    pub reader : (source : PayloadSource) → g.source ≡ some source → Reads source

  evict_at-IsHeld :
      (g : OntologyGraph) (id : ℕ) (loc : Loc)
      → is_sealed loc.ns_id loc.partition ≡ true
      → IsHeld g
      → IsHeld (evict_at g id loc)
  unfolding evict_at loc_beq
  evict_at-IsHeld g id loc s r = elim (Option-cases (Map.get g.concepts id)) [
    | inl e ↦ record {
      slots = λ i. ground (arith, e, r.slots i);
      pending = λ i. ground (arith, e, r.pending i);
      sealed = λ k. ground (arith, e, r.sealed k);
      reader = λ source h. r.reader source (ground (arith, e, h));
    }
    | inr (slot, e) ↦ record {
      slots = λ i. elim (Option-cases slot.loc) [
        | inl n ↦ ground (arith, e, n, r.slots i)
        | inr (l, n) ↦ ground (
          arith,
          e,
          n,
          s,
          r.slots i,
          r.slots id,
          Map.get-insert g.concepts id (record slot { payload = none }) i,
        )
      ];
      pending = λ i. ground (arith, e, r.pending i);
      sealed = λ k. ground (arith, e, r.sealed k);
      reader = λ source h. r.reader source (ground (arith, e, h));
    }
  ]

  pub sealable_push-IsHeld :
      (g : OntologyGraph) (id : ℕ) (loc : Loc) → IsHeld g → IsHeld (sealable_push g id loc)
  unfolding sealable_push
  sealable_push-IsHeld g id loc r =
      if_keeps IsHeld (Set.mem g.sealed (loc.ns_id, loc.partition) && is_some g.source) _ _
        (λ t. evict_at-IsHeld g id loc (r.sealed (loc.ns_id, loc.partition) (ground (arith, t))) r)
        (λ _. record { slots = r.slots; pending = r.pending; sealed = r.sealed; reader = r.reader })

  stash-IsHeld :
      (g : OntologyGraph) (id : ℕ) (loc : Loc)
      → located id loc ≡ true
      → IsHeld g
      → IsHeld (record g { pending_locs = Map.insert g.pending_locs id loc })
  stash-IsHeld g id loc l r = record {
    slots = r.slots;
    pending = λ i. ground (arith, l, r.pending i, Map.get-insert g.pending_locs id loc i);
    sealed = r.sealed;
    reader = r.reader;
  }

  put-IsHeld :
      (g : OntologyGraph) (id : ℕ) (slot : Slot)
      → is_held id (some slot) ≡ true
      → IsHeld g
      → IsHeld (record g { concepts = Map.insert g.concepts id slot })
  put-IsHeld g id slot h r = record {
    slots = λ i. ground (arith, h, r.slots i, Map.get-insert g.concepts id slot i);
    pending = r.pending;
    sealed = r.sealed;
    reader = r.reader;
  }

  pub set_loc-IsHeld :
      (g : OntologyGraph) (id : ℕ) (loc : Loc) (resident : Bool)
      → located id loc ≡ true
      → (resident ≡ false → is_sealed loc.ns_id loc.partition ≡ true)
      → IsHeld g
      → IsHeld (set_loc g id loc resident)
  unfolding set_loc
  set_loc-IsHeld g id loc resident l s r = elim (Option-cases (Map.get g.concepts id)) [
    | inl e ↦ rw (e, set_loc) (stash-IsHeld g id loc l r)
    | inr (slot, e) ↦
        rw (e, set_loc)
          (if_keeps IsHeld (resident && not (is_some slot.payload)) _ _
            (λ _. stash-IsHeld g id loc l r)
            (λ t.
              if_keeps IsHeld (not resident && is_some g.source) _ _
                (λ u.
                  put-IsHeld g id (record slot { loc = some loc; payload = none })
                    (ground (arith, l, s (ground (arith, u)))) r)
                (λ u.
                  sealable_push-IsHeld
                    (record g {
                      concepts = Map.insert g.concepts id (record slot { loc = some loc });
                    })
                    id loc
                    (put-IsHeld g id (record slot { loc = some loc }) (ground (arith, l, s, t))
                      r))))
  ]

  drop_payload-held :
      (concepts : Map ℕ Slot) (ns_id partition id i : ℕ)
      → is_sealed ns_id partition ≡ true
      → ((j : ℕ) → is_held j (Map.get concepts j) ≡ true)
      → is_held i (Map.get (drop_payload concepts ns_id partition id).0 i) ≡ true
  unfolding drop_payload
  drop_payload-held concepts ns_id partition id i s r = elim (Option-cases (Map.get concepts id)) [
    | inl e ↦ ground (arith, e, r i)
    | inr (slot, e) ↦ elim (Option-cases slot.loc) [
      | inl n ↦ ground (arith, e, n, r i)
      | inr (l, n) ↦
          ground (
            arith,
            e,
            n,
            s,
            r i,
            r id,
            Map.get-insert concepts id (record slot { payload = none }) i,
          )
    ]
  ]

  drop_payloads-held :
      (concepts : Map ℕ Slot) (ns_id partition : ℕ) (ids : List ℕ) (i : ℕ)
      → is_sealed ns_id partition ≡ true
      → ((j : ℕ) → is_held j (Map.get concepts j) ≡ true)
      → is_held i (Map.get (drop_payloads concepts ns_id partition ids).0 i) ≡ true
  unfolding drop_payloads
  drop_payloads-held concepts ns_id partition [] i s r = r i
  drop_payloads-held concepts ns_id partition (id ∷ ids) i s r =
      drop_payloads-held (drop_payload concepts ns_id partition id).0 ns_id partition ids i s
        (λ j. drop_payload-held concepts ns_id partition id j s r)

  pub partition_sealed-IsHeld :
      (g : OntologyGraph) (ns_id partition : ℕ)
      → is_sealed ns_id partition ≡ true
      → IsHeld g
      → IsHeld (partition_sealed g ns_id partition).0
  unfolding partition_sealed
  partition_sealed-IsHeld g ns_id partition s r = elim (Bool-cases (is_some g.source)) [
    | inr t ↦ rw t r
    | inl t ↦ rw t (record {
      slots = λ i.
          drop_payloads-held g.concepts ns_id partition
            (listed (Map.get g.sealable (ns_id, partition))) i s r.slots;
      pending = r.pending;
      sealed =
          λ k h. ground (arith, h, s, r.sealed k, Set.mem-insert g.sealed (ns_id, partition) k);
      reader = r.reader;
    })
  ]

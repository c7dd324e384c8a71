-- ===== src/Graph/Payloads.antt =====
-- crates/graph/src/graph.rs: where payloads live, and their eviction once they can be read back.
pub mod Readable
pub mod Run
pub mod Held
pub mod Placed
pub mod Kept
pub mod Lookup
mod Examples
use ai_ontology_com.Common.{
  ℕ, ◌+◌, String, Bool, false, not, ◌&&◌, List, [], ◌∷◌, Option, none, some, ◌==◌, nat_eq,
  string_eq, pair_eq, if◌then◌else◌, is_some,
}
use ai_ontology_com.Common.Map
use ai_ontology_com.Common.Map.{Map}
use ai_ontology_com.Common.Set
use ai_ontology_com.Common.Set.{Set}
use ai_ontology_com.Common.Result.{Result}
use ai_ontology_com.Graph.Model.{Concept}
use ai_ontology_com.Graph.State.{OntologyGraph, Slot, Loc, sealable_push, listed}

unfoldable pub set_payload_source : OntologyGraph → (Loc → Result String Concept) → OntologyGraph
set_payload_source g source = record g { source = some source }

unfoldable pub set_loc : OntologyGraph → ℕ → Loc → Bool → OntologyGraph
set_loc g id loc resident = elim (Map.get g.concepts id) [
  | none ↦ record g { pending_locs = Map.insert g.pending_locs id loc }
  | some slot ↦
      if resident && not (is_some slot.payload)
      then record g { pending_locs = Map.insert g.pending_locs id loc }
      else if not resident && is_some g.source
      then record g {
        concepts = Map.insert g.concepts id (record slot { loc = some loc; payload = none });
      }
      else sealable_push
          (record g { concepts = Map.insert g.concepts id (record slot { loc = some loc }) }) id loc
]

-- The payload of one concept of a sealed partition, if it is still there.
unfoldable pub drop_payload : Map ℕ Slot → ℕ → ℕ → ℕ → Map ℕ Slot × ℕ
drop_payload concepts ns_id partition id = elim (Map.get concepts id) [
  | none ↦ (concepts, 0)
  | some slot ↦
      if here slot.loc && is_some slot.payload
      then (Map.insert concepts id (record slot { payload = none }), 1)
      else (concepts, 0)
]
  where
    here : Option Loc → Bool
    here none = false
    here (some l) = l.ns_id == ns_id && l.partition == partition

unfoldable pub drop_payloads : Map ℕ Slot → ℕ → ℕ → List ℕ → Map ℕ Slot × ℕ
unfolding drop_payload
drop_payloads concepts ns_id partition [] = (concepts, 0)
drop_payloads concepts ns_id partition (id ∷ rest) =
    let (concepts', n) = drop_payload concepts ns_id partition id in
    let (concepts'', m) = drop_payloads concepts' ns_id partition rest in (concepts'', n + m)

unfoldable pub partition_sealed : OntologyGraph → ℕ → ℕ → OntologyGraph × ℕ
unfolding drop_payloads
partition_sealed g ns_id partition =
    let dropped =
      drop_payloads g.concepts ns_id partition (listed (Map.get g.sealable (ns_id, partition))) in
    if is_some g.source
    then (
      record g {
        sealed = Set.insert g.sealed (ns_id, partition);
        sealable = Map.remove g.sealable (ns_id, partition);
        concepts = dropped.0;
      },
      dropped.1,
    )
    else (g, 0)

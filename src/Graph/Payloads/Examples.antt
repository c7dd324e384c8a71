-- ===== src/Graph/Payloads/Examples.antt =====
-- crates/graph/src/graph.rs: a payload that is evicted, and the theorem at it.
use ai_ontology_com.Common.{
  ℕ, ◌≡◌, refl, String, Bool, true, [], none, some, arith, ◌==◌, ◌&&◌, nat_eq, ◌⊎◌, string_eq,
}
use ai_ontology_com.Common.Map
use ai_ontology_com.Common.Set
use ai_ontology_com.Common.Result.{ok}
use ai_ontology_com.Graph.Model.{Concept}
use ai_ontology_com.Graph.Schema.{Ontology}
use ai_ontology_com.Graph.State.{
  OntologyGraph, Slot, Loc, Payload, PayloadSource, new, get_concept, sealable_push,
  bump_concepts_gen,
}
use ai_ontology_com.Graph.Concepts.{check_type}
use ai_ontology_com.Graph.Concepts.Apply.{
  place_concept, apply_prepared_concept, relist, list_concept, push_pending,
}
use ai_ontology_com.Graph.Payloads.{set_payload_source, set_loc, drop_payloads, partition_sealed}
use ai_ontology_com.Graph.Payloads.Run.{attach, locate, seal, insert}
use ai_ontology_com.Graph.Payloads.Held.{Reads}
use ai_ontology_com.Graph.Payloads.Kept.{Owed, Kept, begin, and_then, get_concept-Kept}

abbrev lower : String → String
lower s = s

abbrev no_types : Ontology
no_types = record {
  concept_types = record { entries = [] };
  relation_types = record { entries = [] };
  rule_types = record { entries = [] };
  action_types = record { entries = [] };
}

abbrev metz : Concept
metz = record {
  id = 3;
  concept_type = "City";
  name = "Metz";
  description = "on the Moselle";
  properties = record { entries = [] };
}

abbrev place : Loc
place = record { ns_id = 1; partition = 2; offset = 32 }

-- The record of concept 3 stands in partition 2, which is sealed.
abbrev located : ℕ → Loc → Bool
located id loc = id == 3

abbrev is_sealed : ℕ → ℕ → Bool
is_sealed ns_id partition = ns_id == 1 && partition == 2

abbrev disk : PayloadSource
disk _ = ok metz

disk-Reads : Reads located is_sealed disk
disk-Reads id loc l s = (metz, refl, ground (arith, l))

abbrev attached : OntologyGraph
attached = set_payload_source (new no_types) disk

abbrev inserted : OntologyGraph
inserted = place_concept lower attached metz

abbrev announced : OntologyGraph
announced = set_loc inserted 3 place true

abbrev evicted : OntologyGraph
evicted = (partition_sealed announced 1 2).0

inserted_ok : apply_prepared_concept lower attached metz ≡ ok (3, inserted)
unfolding apply_prepared_concept set_payload_source new check_type Map.get Map.empty
inserted_ok = refl

evicted_kept : Kept lower located is_sealed no_types evicted
unfolding Owed
evicted_kept =
    and_then announced evicted
      (and_then inserted announced
        (and_then attached inserted
          (and_then (new no_types) attached begin (attach disk) disk-Reads)
          (insert metz 3 inserted inserted_ok) tt)
        (locate 3 place true) (refl, λ n. absurd (ground (arith, n))))
      (seal 1 2) refl

abbrev slot : Slot
slot = record { concept_type = "City"; name = "Metz"; loc = some place; payload = none }

evicted_there : Map.get evicted.concepts 3 ≡ some slot
unfolding partition_sealed drop_payloads set_loc sealable_push place_concept new relist list_concept
    push_pending bump_concepts_gen set_payload_source Map.get Map.insert Map.empty Map.remove
    Set.mem Set.empty
evicted_there = refl

get_concept-Kept_example :
    ((p : Payload) × (none ≡ some p)
      × (get_concept evicted 3
          ≡ ok (record {
            id = 3;
            concept_type = "City";
            name = "Metz";
            description = p.description;
            properties = p.properties;
          })))
    ⊎ ((loc : Loc) × (source : PayloadSource) × (c : Concept) × (some place ≡ some loc)
        × (evicted.source ≡ some source)
        × (located 3 loc ≡ true)
        × (is_sealed loc.ns_id loc.partition ≡ true)
        × (source loc ≡ ok c)
        × (get_concept evicted 3 ≡ ok c))
get_concept-Kept_example =
    get_concept-Kept lower located is_sealed no_types evicted 3 slot evicted_kept evicted_there

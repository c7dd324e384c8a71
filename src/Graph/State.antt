-- ===== src/Graph/State.antt =====
-- crates/graph/src/graph.rs: the fields of `OntologyGraph`. Maps and sets are those of `Common`;
-- locks and atomics are plain fields. Name trigrams and the memoised pages are not
-- modelled. `to_lowercase` (Unicode) is a parameter of what uses it.
use ai_ontology_com.Common.{
  ℕ, ◌+◌, ◌%◌, String, Bool, false, not, ◌&&◌, List, [], ◌∷◌, ◌++◌, Option, none, some, ◌==◌,
  nat_eq, string_eq, pair_eq, if◌then◌else◌, is_some,
}
use ai_ontology_com.Common.Map
use ai_ontology_com.Common.Map.{Map}
use ai_ontology_com.Common.Set
use ai_ontology_com.Common.Set.{Set}
use ai_ontology_com.Common.Result.{Result, ok, err, ◌>>=◌, ok_or}
use ai_ontology_com.Graph.Ids
use ai_ontology_com.Graph.Ids.{IdAllocator, u64_mod}
use ai_ontology_com.Graph.Model.{
  Concept, Properties, Relation, Rule, Action, GraphResult, unknown_concept, payload_unavailable,
}
use ai_ontology_com.Graph.Schema.{Ontology}

pub record Loc : Type 0 where
  pub ns_id : ℕ
  pub partition : ℕ
  pub offset : ℕ

unfoldable pub loc_beq : Loc → Loc → Bool
loc_beq a b = a.ns_id == b.ns_id && a.partition == b.partition && a.offset == b.offset

pub record Payload : Type 0 where
  pub description : String
  pub properties : Properties

pub record Slot : Type 0 where
  pub concept_type : String
  pub name : String
  pub loc : Option Loc
  pub payload : Option Payload

-- What a payload source answers: the concept, or why it could not be read.
abbrev pub PayloadSource : Type 0
PayloadSource = Loc → Result String Concept

abbrev pub AdjList : Type 0
AdjList = List ℕ

pub record OntologyGraph : Type 0 where
  pub ontology : Ontology
  pub concepts : Map ℕ Slot
  pub source : Option PayloadSource
  pub pending_locs : Map ℕ Loc
  -- by domain and partition
  pub sealed : Set (ℕ × ℕ)
  pub sealable : Map (ℕ × ℕ) (List ℕ)
  pub relations : Map ℕ Relation
  -- by type and lowercase name
  pub name_index : Map (String × String) ℕ
  pub out_edges : Map ℕ AdjList
  pub in_edges : Map ℕ AdjList
  pub out_edges_typed : Map ℕ (Map String AdjList)
  pub in_edges_typed : Map ℕ (Map String AdjList)
  -- type, name, id
  pub concepts_sorted : Set (String × (String × ℕ))
  pub concepts_by_type : Map String (Set (String × ℕ))
  pub concepts_gen : ℕ
  pub relations_gen : ℕ
  pub relations_sorted : Set ℕ
  pub rules : Map ℕ Rule
  pub actions : Map ℕ Action
  -- type, name, id
  pub rules_sorted : Set (String × (String × ℕ))
  pub actions_sorted : Set (String × (String × ℕ))
  pub ids : IdAllocator
  pub bulk : Bool

unfoldable pub new : Ontology → OntologyGraph
unfolding Ids.new
new ontology = record {
  ontology = ontology;
  concepts = Map.empty;
  source = none;
  pending_locs = Map.empty;
  sealed = Set.empty;
  sealable = Map.empty;
  relations = Map.empty;
  name_index = Map.empty;
  out_edges = Map.empty;
  in_edges = Map.empty;
  out_edges_typed = Map.empty;
  in_edges_typed = Map.empty;
  concepts_sorted = Set.empty;
  concepts_by_type = Map.empty;
  concepts_gen = 0;
  relations_gen = 0;
  relations_sorted = Set.empty;
  rules = Map.empty;
  actions = Map.empty;
  rules_sorted = Set.empty;
  actions_sorted = Set.empty;
  ids = Ids.new 1;
  bulk = false;
}

abbrev pub derived : OntologyGraph → Bool
derived g = not g.bulk

unfoldable pub bump_concepts_gen : OntologyGraph → OntologyGraph
bump_concepts_gen g =
    if derived g then record g { concepts_gen = (g.concepts_gen + 1) % u64_mod } else g

unfoldable pub bump_relations_gen : OntologyGraph → OntologyGraph
bump_relations_gen g =
    if derived g then record g { relations_gen = (g.relations_gen + 1) % u64_mod } else g

-- `Slot::new`
abbrev pub new_slot : Concept → Slot
new_slot c = record {
  concept_type = c.concept_type;
  name = c.name;
  loc = none;
  payload = some (record { description = c.description; properties = c.properties });
}

unfoldable pub read_payload : OntologyGraph → ℕ → Option Loc → GraphResult Concept
read_payload g id loc = do
  l ← ok_or loc (payload_unavailable id "evicted without a location")
  source ← ok_or g.source (payload_unavailable id "no payload source attached")
  checked (source l)
  where
    checked : Result String Concept → GraphResult Concept
    checked (err why) = err (payload_unavailable id why)
    checked (ok c) =
        if c.id == id
        then ok c
        else err (payload_unavailable id "record belongs to another concept")

unfoldable pub get_concept : OntologyGraph → ℕ → GraphResult Concept
unfolding read_payload
get_concept g id = elim (Map.get g.concepts id) [
  | none ↦ err (unknown_concept id)
  | some slot ↦ elim slot.payload [
    | some p ↦ ok (record {
      id = id;
      concept_type = slot.concept_type;
      name = slot.name;
      description = p.description;
      properties = p.properties;
    })
    | none ↦ read_payload g id slot.loc
  ]
]

-- A location whose partition is sealed already is evicted at once.
unfoldable pub evict_at : OntologyGraph → ℕ → Loc → OntologyGraph
evict_at g id loc = elim (Map.get g.concepts id) [
  | none ↦ g
  | some slot ↦
      if loc_is slot.loc
      then record g { concepts = Map.insert g.concepts id (record slot { payload = none }) }
      else g
]
  where
    loc_is : Option Loc → Bool
    loc_is none = false
    loc_is (some l) = loc_beq l loc

abbrev pub listed {ℓ} : {A : Type ℓ} → Option (List A) → List A
listed none = []
listed (some xs) = xs

unfoldable pub sealable_push : OntologyGraph → ℕ → Loc → OntologyGraph
unfolding evict_at
sealable_push g id loc =
    let key : ℕ × ℕ = (loc.ns_id, loc.partition) in
    if Set.mem g.sealed key && is_some g.source then evict_at g id loc else record g {
      sealable = Map.insert g.sealable key (listed (Map.get g.sealable key) ++ (id ∷ []));
    }

module _ (to_lowercase : String → String) where
  unfoldable pub find_by_name : OntologyGraph → String → String → Option ℕ
  find_by_name g concept_type name = Map.get g.name_index (concept_type, to_lowercase name)

-- ===== src/Storage/Manifest.antt =====
-- crates/storage/src/manifest.rs: the ids of domains and the symbols of relation types. Reading and
-- writing the file, the directories' names and the identity of the store are not modelled.
pub mod Frozen
pub mod Apart
use ai_ontology_com.Common.{
  leb, ℕ, ◌+◌, ◌%◌, ◌^◌, String, Bool, true, false, not, ◌&&◌, List, [], ◌∷◌, ◌++◌, Option, none,
  some, ◌==◌, nat_eq, string_eq, if◌then◌else◌,
}
use ai_ontology_com.Common.Map.Collect.{map_some}
use ai_ontology_com.Common.Find.{find_by, filter_by, max_by, sum_by}
use ai_ontology_com.Storage.Codec.{format_version_for}

abbrev pub manifest_version : ℕ
manifest_version = 1

abbrev pub meta_ns_id : ℕ
meta_ns_id = 0

abbrev pub meta_ns : String
meta_ns = "meta"

abbrev pub default_ns_id : ℕ
default_ns_id = 1

abbrev pub default_ns : String
default_ns = "default"

pub record NsEntry : Type 0 where
  pub id : ℕ
  pub name : String
  pub retired : Bool

pub record SymEntry : Type 0 where
  pub sym : ℕ
  pub name : String

pub record PartitionEntry : Type 0 where
  pub id : ℕ
  pub base_seq : ℕ
  pub last_seq : ℕ
  pub records : ℕ
  pub data_bytes : ℕ
  pub payload_bytes : ℕ
  pub entity_min : ℕ
  pub entity_max : ℕ
  pub kinds : ℕ
  pub edges : ℕ

pub record StreamEntry : Type 0 where
  pub ns_id : ℕ
  pub sealed : List PartitionEntry

pub record Manifest : Type 0 where
  pub version : ℕ
  pub format_version : ℕ
  pub codec : ℕ
  pub next_partition_id : ℕ
  pub ns : List NsEntry
  pub relation_types : List SymEntry
  pub streams : List StreamEntry

unfoldable pub new_manifest : ℕ → Manifest
new_manifest codec = record {
  version = manifest_version;
  format_version = format_version_for codec;
  codec = codec;
  next_partition_id = 1;
  ns =
      record { id = meta_ns_id; name = meta_ns; retired = false }
      ∷ record { id = default_ns_id; name = default_ns; retired = false }
      ∷ [];
  relation_types = [];
  streams =
      record { ns_id = meta_ns_id; sealed = [] }
      ∷ record { ns_id = default_ns_id; sealed = [] }
      ∷ [];
}

-- `(sym, newly_allocated)`, and the manifest
unfoldable pub intern_relation_type : Manifest → String → (ℕ × Bool) × Manifest
intern_relation_type m name = elim (find_by (λ e. e.name == name) m.relation_types) [
  | some e ↦ ((e.sym, false), m)
  | none ↦
      let sym = (max_by (λ e. e.sym) m.relation_types + 1) % 2 ^ 32 in
      (
        (sym, true),
        record m { relation_types = m.relation_types ++ (record { sym = sym; name = name } ∷ []) },
      )
]

abbrev pub is_live : String → NsEntry → Bool
is_live name e = e.name == name && not e.retired

unfoldable pub intern_ns : Manifest → String → (ℕ × Bool) × Manifest
intern_ns m name = elim (find_by (is_live name) m.ns) [
  | some e ↦ ((e.id, false), m)
  | none ↦
      let id = (max_by (λ e. e.id) m.ns + 1) % 2 ^ 16 in
      (
        (id, true),
        record m {
          ns = m.ns ++ (record { id = id; name = name; retired = false } ∷ []);
          streams = m.streams ++ (record { ns_id = id; sealed = [] } ∷ []);
        },
      )
]

-- Id of a live domain.
unfoldable pub ns_id : Manifest → String → Option ℕ
ns_id m name = map_some (λ (e : NsEntry). e.id) (find_by (is_live name) m.ns)

-- Name of a domain, retired ones included.
unfoldable pub ns_name : Manifest → ℕ → Option String
ns_name m id = map_some (λ (e : NsEntry). e.name) (find_by (λ e. e.id == id) m.ns)

insert_id : ℕ → List ℕ → List ℕ
insert_id x [] = x ∷ []
insert_id x (y ∷ ys) = let rest = insert_id x ys in if leb x y then x ∷ (y ∷ ys) else y ∷ rest

sort_ids : List NsEntry → List ℕ
unfolding insert_id
sort_ids [] = []
sort_ids (e ∷ es) = insert_id e.id (sort_ids es)

unfoldable pub graph_ns_ids : Manifest → List ℕ
unfolding sort_ids
graph_ns_ids m = sort_ids (filter_by (λ e. not (e.id == meta_ns_id) && not e.retired) m.ns)

unfoldable pub retire_first : ℕ → List NsEntry → List NsEntry
retire_first id [] = []
retire_first id (e ∷ es) =
    let rest = retire_first id es in
    if e.id == id then record e { retired = true } ∷ es else e ∷ rest

unfoldable pub retire_ns : Manifest → ℕ → Manifest
unfolding retire_first
retire_ns m id = record m { ns = retire_first id m.ns }

unfoldable pub relation_type_sym : Manifest → String → Option ℕ
relation_type_sym m name =
    map_some (λ (e : SymEntry). e.sym) (find_by (λ e. e.name == name) m.relation_types)

unfoldable pub relation_type_name : Manifest → ℕ → Option String
relation_type_name m sym =
    map_some (λ (e : SymEntry). e.name) (find_by (λ e. e.sym == sym) m.relation_types)

unfoldable pub stream : Manifest → ℕ → Option StreamEntry
stream m ns_id = find_by (λ s. s.ns_id == ns_id) m.streams

unfoldable pub sealed_records : Manifest → ℕ
sealed_records m =
    sum_by (λ (s : StreamEntry). sum_by (λ (p : PartitionEntry). p.records) s.sealed) m.streams

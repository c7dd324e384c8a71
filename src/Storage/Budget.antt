-- ===== src/Storage/Budget.antt =====
-- crates/storage/src/budget.rs: what a store's domains cost in memory and which of them are loaded.
-- Reading the environment is not modelled; a floating-point number is its bits, and what is computed
-- in floating point is a parameter.
pub mod Plan
pub mod Fits
pub mod Trimming
pub mod Account
pub mod Strict
use ai_ontology_com.Common.{
  leb, ℕ, ◌+◌, ◌-◌, ◌*◌, ◌%◌, ◌^◌, String, Bool, true, false, List, [], ◌∷◌, Option, none, some,
  ◌==◌, nat_eq, if◌then◌else◌,
}
use ai_ontology_com.Common.Sort.{sort_with}
use ai_ontology_com.Storage.Manifest.{
  Manifest, PartitionEntry, StreamEntry, graph_ns_ids, stream, ns_name, meta_ns_id,
}

abbrev pub concept_index_bytes : ℕ
concept_index_bytes = 1500

abbrev pub relation_bytes : ℕ
relation_bytes = 480

abbrev pub rebuild_peak_per_concept : ℕ
rebuild_peak_per_concept = 130

abbrev pub payload_factor_num : ℕ
payload_factor_num = 1

pub data BudgetSource : Type 0 where
  explicit : BudgetSource
  cgroup_v2 : BudgetSource
  cgroup_v1 : BudgetSource
  mem_available : BudgetSource
  windows_avail_phys : BudgetSource
  unknown : BudgetSource

abbrev pub is_hard_limit : BudgetSource → Bool
is_hard_limit explicit = true
is_hard_limit cgroup_v2 = true
is_hard_limit cgroup_v1 = true
is_hard_limit _ = false

pub record MemoryBudget : Type 0 where
  pub available_bytes : Option ℕ
  pub source : BudgetSource
  pub heap_fraction : ℕ
  pub budget_bytes : Option ℕ

-- The bits of 1.0.
abbrev one : ℕ
one = 4607182418800017408

unfoldable pub fixed : ℕ → MemoryBudget
fixed budget_bytes = record {
  available_bytes = some budget_bytes;
  source = explicit;
  heap_fraction = one;
  budget_bytes = some budget_bytes;
}

unfoldable pub unknown_budget : ℕ → MemoryBudget
unknown_budget heap_fraction = record {
  available_bytes = none;
  source = unknown;
  heap_fraction = heap_fraction;
  budget_bytes = none;
}

pub record DomainEstimate : Type 0 where
  pub ns_id : ℕ
  pub ns : String
  pub records : ℕ
  pub edges : ℕ
  pub payload_bytes : ℕ
  pub estimated_bytes : ℕ

pub record ActiveCounters : Type 0 where
  pub records : ℕ
  pub edges : ℕ
  pub payload_bytes : ℕ

-- Sums and differences of `u64`.
infixl 65 ◌+64◌ ◌-64◌
abbrev pub ◌+64◌ : ℕ → ℕ → ℕ
a +64 b = (a + b) % 2 ^ 64

abbrev pub ◌-64◌ : ℕ → ℕ → ℕ
a -64 b = (a + (2 ^ 64 - b)) % 2 ^ 64

unfoldable pub sum64 {ℓ} : {A : Type ℓ} → (A → ℕ) → List A → ℕ
sum64 f [] = 0
sum64 f (x ∷ xs) = f x +64 sum64 f xs

unfoldable pub estimate_bytes : ℕ → ℕ → ℕ → ℕ
estimate_bytes records edges payload_bytes =
    let concept_records = records - edges in
    (payload_bytes * payload_factor_num) % 2 ^ 64
    +64 (concept_records * (concept_index_bytes + rebuild_peak_per_concept)) % 2 ^ 64
    +64 (edges * relation_bytes) % 2 ^ 64

abbrev or_unknown : Option String → String
or_unknown none = "?"
or_unknown (some name) = name

unfoldable pub estimate_stream : Manifest → (ℕ → ActiveCounters) → ℕ → StreamEntry → DomainEstimate
unfolding sum64
estimate_stream manifest active id stream =
    let a = active id in
    let records = sum64 (λ (p : PartitionEntry). p.records) stream.sealed +64 a.records in
    let edges = sum64 (λ (p : PartitionEntry). p.edges) stream.sealed +64 a.edges in
    let payload =
      sum64 (λ (p : PartitionEntry). p.payload_bytes) stream.sealed +64 a.payload_bytes in
    record {
      ns_id = id;
      ns = or_unknown (ns_name manifest id);
      records = records;
      edges = edges;
      payload_bytes = payload;
      estimated_bytes = estimate_bytes records edges payload;
    }

unfoldable pub estimate_ids : Manifest → (ℕ → ActiveCounters) → List ℕ → List DomainEstimate
estimate_ids manifest active [] = []
estimate_ids manifest active (id ∷ ids) =
    let out = estimate_ids manifest active ids in
    if id == meta_ns_id then out else elim (stream manifest id) [
      | none ↦ out
      | some s ↦ estimate_stream manifest active id s ∷ out
    ]

unfoldable pub estimate_domains : Manifest → (ℕ → ActiveCounters) → List DomainEstimate
estimate_domains manifest active =
    sort_with (λ a b. leb a.ns_id b.ns_id) (estimate_ids manifest active (graph_ns_ids manifest))

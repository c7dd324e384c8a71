-- ===== src/Storage/Budget/Plan.antt =====
-- crates/storage/src/budget.rs, `plan_load` and `check_fits`: the plan of what is loaded.
use ai_ontology_com.Common.{
  leb, ltb, ℕ, ◌+◌, ◌/◌, String, Bool, true, false, not, List, [], ◌∷◌, ◌++◌, Option, none, some,
  ◌==◌, nat_eq, string_eq, contains, if◌then◌else◌, take,
}
use ai_ontology_com.Common.Find.{find_by, filter_by}
use ai_ontology_com.Common.Result.{Result, ok, err, ◌>>◌}
use ai_ontology_com.Common.Sort.{sort_with, keys_of}
use ai_ontology_com.Storage.Budget.{
  MemoryBudget, BudgetSource, DomainEstimate, sum64, is_hard_limit, ◌+64◌, ◌-64◌,
}

pub data MemoryMode : Type 0 where
  strict : MemoryMode
  adaptive : MemoryMode

pub record SkippedDomain : Type 0 where
  pub ns : String
  pub estimated_bytes : ℕ

pub record LoadPlan : Type 0 where
  pub mode : MemoryMode
  pub budget : MemoryBudget
  pub estimated_total_bytes : ℕ
  pub estimated_loaded_bytes : ℕ
  pub domains : Option (List String)
  pub skipped : List SkippedDomain
  pub explicit : Bool
  pub over_budget : Bool
  pub p1_domains : List String
  pub estimates : List DomainEstimate

abbrev pub is_partial : LoadPlan → Bool
is_partial plan = elim plan.skipped [ [] ↦ false | _ ∷ _ ↦ true ]

-- The largest domains and the known ones are kept as data, not as their joined texts.
pub data BudgetError : Type 0 where
  exceeds :
      (required_mib required_bytes budget_mib budget_bytes available_mib : ℕ)
      (budget_source : BudgetSource) (fraction : ℕ) (largest : List (String × ℕ))
      → BudgetError
  unknown_domain : String → List String → BudgetError

unfoldable pub mib : ℕ → ℕ
mib bytes = (bytes + 1048575) / 1048576

abbrev name_and_mib : DomainEstimate → String × ℕ
name_and_mib d = (d.ns, mib d.estimated_bytes)

unfoldable pub largest : List DomainEstimate → ℕ → List (String × ℕ)
largest estimates n =
    keys_of name_and_mib
      (take n (sort_with (λ a b. leb b.estimated_bytes a.estimated_bytes) estimates))

abbrev pub skip : DomainEstimate → SkippedDomain
skip d = record { ns = d.ns; estimated_bytes = d.estimated_bytes }

-- What the loop over the domains has decided so far.
pub record Trim : Type 0 where
  pub used : ℕ
  pub chosen : List String
  pub p1 : List String
  pub skipped : List SkippedDomain

abbrev pub p1_cost : DomainEstimate → ℕ
p1_cost d = d.estimated_bytes -64 d.payload_bytes

unfoldable pub consider : ℕ → Trim → DomainEstimate → Trim
consider budget_bytes t d =
    if leb (t.used +64 d.estimated_bytes) budget_bytes
    then record t { used = t.used +64 d.estimated_bytes; chosen = t.chosen ++ (d.ns ∷ []) }
    else if leb (t.used +64 p1_cost d) budget_bytes
    then record t {
      used = t.used +64 p1_cost d;
      chosen = t.chosen ++ (d.ns ∷ []);
      p1 = t.p1 ++ (d.ns ∷ []);
    }
    else record t { skipped = t.skipped ++ (skip d ∷ []) }

unfoldable pub trim : ℕ → Trim → List DomainEstimate → Trim
trim budget_bytes t [] = t
trim budget_bytes t (d ∷ order) = trim budget_bytes (consider budget_bytes t d) order

abbrev pub nothing : Trim
nothing = record { used = 0; chosen = []; p1 = []; skipped = [] }

unfoldable pub first_unknown : List String → List String → Option String
first_unknown known wanted = find_by (λ w. not (contains known w)) wanted

abbrev or_budget : Option ℕ → ℕ → ℕ
or_budget none b = b
or_budget (some available) b = available

-- The order of strings, and what is computed in floating point.
module _ (text_le : String → String → Bool) (mib_f : ℕ → ℕ) (percent : ℕ → ℕ) where
  unfoldable pub check_fits : ℕ → MemoryBudget → List DomainEstimate → Result BudgetError (Unit {0})
  check_fits required budget estimates = elim budget.budget_bytes [
    | none ↦ ok tt
    | some b ↦
        if ltb b required
        then err (
            exceeds (mib_f required) required (mib_f b) b
              (mib_f (or_budget budget.available_bytes b)) budget.source
              (percent budget.heap_fraction) (largest estimates 3))
        else ok tt
  ]

  -- Smaller first, by name among domains of one size.
  abbrev pub smaller : DomainEstimate → DomainEstimate → Bool
  smaller a b =
      if a.estimated_bytes == b.estimated_bytes
      then text_le a.ns b.ns
      else ltb a.estimated_bytes b.estimated_bytes

  -- Everything is loaded.
  abbrev pub load_all : List DomainEstimate → MemoryBudget → MemoryMode → Bool → LoadPlan
  load_all estimates budget mode over_budget = record {
    mode = mode;
    budget = budget;
    estimated_total_bytes = sum64 (λ (d : DomainEstimate). d.estimated_bytes) estimates;
    estimated_loaded_bytes = sum64 (λ (d : DomainEstimate). d.estimated_bytes) estimates;
    domains = none;
    skipped = [];
    explicit = false;
    over_budget = over_budget;
    p1_domains = [];
    estimates = estimates;
  }

  unfoldable pub load_wanted :
      List DomainEstimate → MemoryBudget → MemoryMode → List String → Result BudgetError LoadPlan
  load_wanted estimates budget mode wanted =
      let known = keys_of (λ (d : DomainEstimate). d.ns) estimates in
      let loaded =
        sum64 (λ (d : DomainEstimate). d.estimated_bytes)
          (filter_by (λ d. contains wanted d.ns) estimates) in
      elim (first_unknown known wanted) [
        | some w ↦ err (unknown_domain w known)
        | none ↦
            elim mode [ strict ↦ check_fits loaded budget estimates | adaptive ↦ ok tt ]
            >> ok (record {
              mode = mode;
              budget = budget;
              estimated_total_bytes = sum64 (λ (d : DomainEstimate). d.estimated_bytes) estimates;
              estimated_loaded_bytes = loaded;
              domains = some wanted;
              skipped = keys_of skip (filter_by (λ d. not (contains wanted d.ns)) estimates);
              explicit = true;
              over_budget = false;
              p1_domains = [];
              estimates = estimates;
            })
      ]

  unfoldable pub load_fitting : List DomainEstimate → MemoryBudget → ℕ → LoadPlan
  load_fitting estimates budget budget_bytes =
      let t = trim budget_bytes nothing (sort_with smaller estimates) in
      record {
        mode = adaptive;
        budget = budget;
        estimated_total_bytes = sum64 (λ (d : DomainEstimate). d.estimated_bytes) estimates;
        estimated_loaded_bytes = t.used;
        domains = some (sort_with text_le t.chosen);
        skipped = sort_with (λ (a b : SkippedDomain). text_le a.ns b.ns) t.skipped;
        explicit = false;
        over_budget = false;
        p1_domains = sort_with text_le t.p1;
        estimates = estimates;
      }

  -- `none` is the panic of `unreachable!`.
  unfoldable pub plan_load :
      List DomainEstimate
      → MemoryBudget
      → MemoryMode
      → Option (List String)
      → Option (Result BudgetError LoadPlan)
  plan_load estimates budget mode (some wanted) = some (load_wanted estimates budget mode wanted)
  plan_load estimates budget mode none = elim budget.budget_bytes [
    | none ↦ some (ok (load_all estimates budget mode false))
    | some budget_bytes ↦
        let total = sum64 (λ (d : DomainEstimate). d.estimated_bytes) estimates in
        if leb total budget_bytes
        then some (ok (load_all estimates budget mode false))
        else elim mode [
          | strict ↦ elim (check_fits total budget estimates) [ ok _ ↦ none | err e ↦ some (err e) ]
          | adaptive ↦
              if not (is_hard_limit budget.source)
              then some (ok (load_all estimates budget adaptive true))
              else some (ok (load_fitting estimates budget budget_bytes))
        ]
  ]

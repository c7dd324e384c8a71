-- ===== src/Storage/Budget/Fits.antt =====
-- crates/storage/src/budget.rs, `plan_load`: what is loaded fits the budget.
use ai_ontology_com.Common.{
  ℕ, ◌+◌, ◌^◌, ◌≤◌, ◌<◌, ◌≡◌, refl, sym, String, Bool, true, List, none, some, arith, string_eq,
  contains, All, All_map,
}
use ai_ontology_com.Common.Result.{ok}
use ai_ontology_com.Common.Sort.{
  IsDistinct, sort_with-IsDistinct, sort_with, sum_by-sort_with, All-sort_with, sort_with-All,
  contains-sort_with, contains-sort,
}
use ai_ontology_com.Storage.Budget.{MemoryBudget, DomainEstimate, is_hard_limit}
use ai_ontology_com.Storage.Budget.Plan.{
  adaptive, SkippedDomain, LoadPlan, plan_load, load_fitting, smaller, trim, nothing,
}
use ai_ontology_com.Storage.Budget.Account.{cost, cost_of_all, cost_of_all-same, trim-cost}
use ai_ontology_com.Storage.Budget.Trimming.{IsSane, estimated, settled, trim-Fits, sum64_exact}

-- A plan that keeps a limit: the bytes it counts are the costs of the domains it loads and are within
-- the limit, what is loaded without payloads is loaded, and a domain is loaded, or it is skipped and
-- would not fit beside what is loaded, even without its payloads.
pub record Keeps (b : ℕ) (estimates : List DomainEstimate) (domains : List String) (plan : LoadPlan)
    : Type 0 where
  pub accounted : plan.estimated_loaded_bytes ≡ cost_of_all plan.p1_domains domains estimates
  pub within : plan.estimated_loaded_bytes ≤ b
  pub listed : plan.domains ≡ some domains
  pub p1_loaded : (n : String) → contains plan.p1_domains n ≡ true → contains domains n ≡ true
  pub none_lost :
      All
        (λ (d : DomainEstimate).
          settled b plan.estimated_loaded_bytes domains plan.skipped d ≡ true)
        estimates

module _ (text_le : String → String → Bool) (mib_f : ℕ → ℕ) (percent : ℕ → ℕ) where
  load_fitting-Keeps :
      (estimates : List DomainEstimate) (budget : MemoryBudget) (b : ℕ)
      → estimated estimates < 2 ^ 64
      → All IsSane estimates
      → IsDistinct (λ (d : DomainEstimate). d.ns) estimates
      → Keeps b estimates
          (sort_with text_le
            (trim b nothing (sort_with (smaller text_le mib_f percent) estimates)).chosen)
          (load_fitting text_le mib_f percent estimates budget b)
  unfolding load_fitting
  load_fitting-Keeps estimates budget b room sane once =
      let le = smaller text_le mib_f percent in
      let order = sort_with le estimates in
      let t = trim b nothing order in
      let room' : nothing.used + estimated order < 2 ^ 64 =
        ground (
          arith,
          room,
          sum_by-sort_with (λ (d : DomainEstimate). d.estimated_bytes) le estimates,
        ) in
      let sane' = sort_with-All IsSane le estimates sane in
      let fits = trim-Fits b nothing order (ground arith) room' sane' in
      let by_name = λ (a c : SkippedDomain). text_le a.ns c.ns in
      record {
        accounted = omega (
          arith,
          trim-cost b nothing order (ground arith) room' sane'
              (sort_with-IsDistinct (λ (d : DomainEstimate). d.ns) le estimates once)
              (λ n _. (refl, refl)),
          sum_by-sort_with (cost t.p1 t.chosen) le estimates,
          cost_of_all-same t.p1 (sort_with text_le t.p1) t.chosen (sort_with text_le t.chosen)
              (λ n. sym (contains-sort text_le t.p1 n))
              (λ n. sym (contains-sort text_le t.chosen n)) estimates,
        );
        within = fits.below;
        listed = refl;
        p1_loaded = λ n h. ground (
          arith,
          h,
          contains-sort text_le t.p1 n,
          contains-sort text_le t.chosen n,
          fits.grows.p1 (λ m k. absurd (ground (arith, k))) n,
        );
        none_lost =
            All_map (λ d. settled b t.used t.chosen t.skipped d ≡ true)
              (λ d.
                settled b t.used (sort_with text_le t.chosen) (sort_with by_name t.skipped) d
                ≡ true)
              estimates
              (λ d h. ground (
                arith,
                h,
                contains-sort text_le t.chosen d.ns,
                contains-sort_with (λ (s : SkippedDomain). s.ns) by_name t.skipped d.ns,
              ))
              (All-sort_with (λ d. settled b t.used t.chosen t.skipped d ≡ true) le estimates
                fits.all);
      }

  -- Under a hard limit, in adaptive mode and with no domains named, a store whose estimates exceed the
  -- budget is loaded in part. When the estimates sum to less than 2^64, have distinct names and each
  -- counts its domain's payload, the plan counts exactly what the domains it loads cost (without the
  -- payload for those loaded without it), and that is at most the budget; a domain loaded without its
  -- payloads is among those loaded; and each domain is loaded, or is reported as skipped and even
  -- without its payloads would not fit beside what is loaded.
  pub plan_load-Keeps :
      (estimates : List DomainEstimate) (budget : MemoryBudget) (b : ℕ)
      → budget.budget_bytes ≡ some b
      → is_hard_limit budget.source ≡ true
      → b < estimated estimates
      → estimated estimates < 2 ^ 64
      → All IsSane estimates
      → IsDistinct (λ (d : DomainEstimate). d.ns) estimates
      → (plan : LoadPlan) × (domains : List String) × (plan_load text_le mib_f percent estimates
            budget adaptive none
          ≡ some (ok plan))
        × Keeps b estimates domains plan
  unfolding plan_load
  plan_load-Keeps estimates budget b known hard over room sane once = (
    load_fitting text_le mib_f percent estimates budget b,
    sort_with text_le (trim b nothing (sort_with (smaller text_le mib_f percent) estimates)).chosen,
    rw known (ground (arith, hard, over, sum64_exact estimates room)),
    load_fitting-Keeps estimates budget b room sane once,
  )

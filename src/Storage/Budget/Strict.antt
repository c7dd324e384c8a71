-- ===== src/Storage/Budget/Strict.antt =====
-- crates/storage/src/budget.rs, `plan_load` in strict mode.
use ai_ontology_com.Common.{
  leb, ltb, ℕ, ◌^◌, ◌≤◌, ◌<◌, ◌≡◌, refl, String, Bool, true, false, not, ◌&&◌, ◌==◌, ap, List, [],
  ◌∷◌, Option, none, some, Option-cases, Bool-cases, inl, inr, arith, string_eq, contains, ==_iff,
  ==_refl, All, lt→ltb,
}
use ai_ontology_com.Common.Find.{filter_by}
use ai_ontology_com.Common.Result.{Result, ok, err}
use ai_ontology_com.Common.Sort.{keys_of}
use ai_ontology_com.Storage.Budget.{MemoryBudget, DomainEstimate, sum64}
use ai_ontology_com.Storage.Budget.Plan.{
  strict, SkippedDomain, LoadPlan, BudgetError, unknown_domain, plan_load, check_fits, load_all,
  load_wanted, first_unknown, skip,
}
use ai_ontology_com.Storage.Budget.Trimming.{estimated, sum64_exact}
use ai_ontology_com.Storage.Budget.Account.{names, cost_of_all}

-- A plan without choice of its own: these bytes, and nothing loaded without its payloads.
pub record Loads (bytes : ℕ) (which : Option (List String)) (plan : LoadPlan) : Type 0 where
  pub loaded : plan.estimated_loaded_bytes ≡ bytes
  pub domains : plan.domains ≡ which
  pub whole : plan.p1_domains ≡ []
  pub fitting : plan.over_budget ≡ false

-- What strict mode answers under a budget of `b` bytes.
pub data Answer (b : ℕ) (estimates : List DomainEstimate)
    : Option (List String) → Option (Result BudgetError LoadPlan) → Type 0 where
  everything :
      (plan : LoadPlan)
      → estimated estimates ≤ b
      → Loads (estimated estimates) none plan
      → plan.skipped ≡ []
      → Answer b estimates none (some (ok plan))
  too_much : (e : BudgetError) → b < estimated estimates → Answer b estimates none (some (err e))
  named :
      (wanted : List String) (plan : LoadPlan)
      → All (λ w. contains (names estimates) w ≡ true) wanted
      → cost_of_all [] wanted estimates ≤ b
      → Loads (cost_of_all [] wanted estimates) (some wanted) plan
      → ((n : String)
          → contains (keys_of (λ (s : SkippedDomain). s.ns) plan.skipped) n
            ≡ (contains (names estimates) n && not (contains wanted n)))
      → Answer b estimates (some wanted) (some (ok plan))
  named_too_much :
      (wanted : List String) (e : BudgetError)
      → All (λ w. contains (names estimates) w ≡ true) wanted
      → b < cost_of_all [] wanted estimates
      → Answer b estimates (some wanted) (some (err e))
  not_known :
      (wanted : List String) (w : String)
      → contains wanted w ≡ true
      → contains (names estimates) w ≡ false
      → Answer b estimates (some wanted) (some (err (unknown_domain w (names estimates))))

first_unknown-none :
    (known wanted : List String)
    → first_unknown known wanted ≡ none
    → All (λ w. contains known w ≡ true) wanted
unfolding first_unknown
first_unknown-none known [] h = tt
first_unknown-none known (w ∷ ws) h =
    (ground (arith, h), first_unknown-none known ws (ground (arith, h)))

first_unknown-some :
    (known wanted : List String) (w : String)
    → first_unknown known wanted ≡ some w
    → (contains wanted w ≡ true) × (contains known w ≡ false)
unfolding first_unknown
first_unknown-some known [] w h = absurd (ground (arith, h))
first_unknown-some known (x ∷ xs) w h = ground (arith, h, first_unknown-some known xs w, ==_refl x)

-- The sum over the domains that are wanted.
wanted_sum :
    (wanted : List String) (estimates : List DomainEstimate)
    → estimated estimates < 2 ^ 64
    → (sum64
          (λ (d : DomainEstimate). d.estimated_bytes)
          (filter_by (λ (d : DomainEstimate). contains wanted d.ns) estimates)
        ≡ cost_of_all [] wanted estimates)
      × (cost_of_all [] wanted estimates ≤ estimated estimates)
unfolding sum64
wanted_sum wanted [] room = (refl, omega arith)
wanted_sum wanted (d ∷ ds) room = ground (arith, room, wanted_sum wanted ds (omega (arith, room)))

skipped_names :
    (wanted : List String) (estimates : List DomainEstimate) (n : String)
    → contains
        (keys_of
          (λ (s : SkippedDomain). s.ns)
          (keys_of skip (filter_by (λ (d : DomainEstimate). not (contains wanted d.ns)) estimates)))
        n
      ≡ (contains (names estimates) n && not (contains wanted n))
skipped_names wanted [] n = refl
skipped_names wanted (d ∷ ds) n = elim (Bool-cases (d.ns == n)) [
  | inr apart ↦ ground (arith, apart, skipped_names wanted ds n)
  | inl same ↦
      let together : d.ns ≡ n = (==_iff d.ns n).0 same in
      ground (arith, same, together, ap (contains wanted) together, skipped_names wanted ds n)
]

module _ (text_le : String → String → Bool) (mib_f : ℕ → ℕ) (percent : ℕ → ℕ) where
  check_fits-over :
      (r b : ℕ) (budget : MemoryBudget) (estimates : List DomainEstimate)
      → budget.budget_bytes ≡ some b
      → b < r
      → (e : BudgetError) × (check_fits text_le mib_f percent r budget estimates ≡ err e)
  unfolding check_fits
  check_fits-over r b budget estimates known h = rw (known, lt→ltb b r h) (_, refl)

  check_fits-within :
      (r b : ℕ) (budget : MemoryBudget) (estimates : List DomainEstimate)
      → budget.budget_bytes ≡ some b
      → r ≤ b
      → check_fits text_le mib_f percent r budget estimates ≡ ok tt
  unfolding check_fits
  check_fits-within r b budget estimates known h = rw known (ground (arith, h))

  -- The plan for the domains that are named.
  abbrev plan_for : List DomainEstimate → MemoryBudget → List String → LoadPlan
  plan_for estimates budget wanted = record {
    mode = strict;
    budget = budget;
    estimated_total_bytes = sum64 (λ (d : DomainEstimate). d.estimated_bytes) estimates;
    estimated_loaded_bytes =
        sum64 (λ (d : DomainEstimate). d.estimated_bytes)
          (filter_by (λ (d : DomainEstimate). contains wanted d.ns) estimates);
    domains = some wanted;
    skipped =
        keys_of skip (filter_by (λ (d : DomainEstimate). not (contains wanted d.ns)) estimates);
    explicit = true;
    over_budget = false;
    p1_domains = [];
    estimates = estimates;
  }

  wanted-Answer :
      (estimates : List DomainEstimate) (budget : MemoryBudget) (b : ℕ) (wanted : List String)
      → budget.budget_bytes ≡ some b
      → estimated estimates < 2 ^ 64
      → Answer b estimates
          (some wanted)
          (some (load_wanted text_le mib_f percent estimates budget strict wanted))
  unfolding load_wanted
  wanted-Answer estimates budget b wanted known room =
      let bytes = cost_of_all [] wanted estimates in
      let loaded =
        sum64 (λ (d : DomainEstimate). d.estimated_bytes)
          (filter_by (λ (d : DomainEstimate). contains wanted d.ns) estimates) in
      let sum : loaded ≡ bytes = (wanted_sum wanted estimates room).0 in
      elim (Option-cases (first_unknown (names estimates) wanted)) [
        | inr (w, h) ↦
            let (asked, absent) = first_unknown-some (names estimates) wanted w h in
            let e : load_wanted text_le mib_f percent estimates budget strict wanted
                ≡ err (unknown_domain w (names estimates)) =
              ground (arith, h) in
            rw e (not_known wanted w asked absent)
        | inl h ↦
            let all_known = first_unknown-none (names estimates) wanted h in
            elim (Bool-cases (ltb b loaded)) [
              | inl over ↦
                  let (x, refused) =
                    check_fits-over loaded b budget estimates known (ground (arith, over)) in
                  let e : load_wanted text_le mib_f percent estimates budget strict wanted ≡ err x =
                    ground (arith, h, refused) in
                  rw e (named_too_much wanted x all_known (ground (arith, over, sum)))
              | inr fits ↦
                  let accepted =
                    check_fits-within loaded b budget estimates known (ground (arith, fits)) in
                  let e : load_wanted text_le mib_f percent estimates budget strict wanted
                      ≡ ok (plan_for estimates budget wanted) =
                    ground (arith, h, accepted) in
                  rw e (
                    named wanted (plan_for estimates budget wanted) all_known
                      (ground (arith, fits, sum))
                      (record { loaded = sum; domains = refl; whole = refl; fitting = refl })
                      (λ n. skipped_names wanted estimates n))
            ]
      ]

  all-Answer :
      (estimates : List DomainEstimate) (budget : MemoryBudget) (b : ℕ)
      → budget.budget_bytes ≡ some b
      → estimated estimates < 2 ^ 64
      → Answer b estimates none (plan_load text_le mib_f percent estimates budget strict none)
  unfolding plan_load
  all-Answer estimates budget b known room =
      let total = sum64 (λ (d : DomainEstimate). d.estimated_bytes) estimates in
      let sum = sum64_exact estimates room in
      elim (Bool-cases (leb total b)) [
        | inl fits ↦
            let plan = load_all text_le mib_f percent estimates budget strict false in
            let e : plan_load text_le mib_f percent estimates budget strict none ≡ some (ok plan) =
              rw known (ground (arith, fits)) in
            rw e (
              everything plan (ground (arith, fits, sum))
                (record { loaded = sum; domains = refl; whole = refl; fitting = refl }) refl)
        | inr over ↦
            let (x, refused) =
              check_fits-over total b budget estimates known (ground (arith, over)) in
            let e : plan_load text_le mib_f percent estimates budget strict none ≡ some (err x) =
              ground (arith, known, over, refused) in
            rw e (too_much x (ground (arith, over, sum)))
      ]

  -- In strict mode with a known budget, and estimates that sum to less than 2^64: with no domains
  -- named, everything is loaded when the estimates are within the budget, and otherwise the plan is
  -- refused. With domains named, a name no estimate has is an error that gives it. If all are known,
  -- the plan loads them in full, skips exactly the domains that are not named, and counts the
  -- estimates of those that are; it is refused when these exceed the budget. No case panics.
  pub plan_load-strict :
      (estimates : List DomainEstimate) (budget : MemoryBudget) (b : ℕ)
      (wanted : Option (List String))
      → budget.budget_bytes ≡ some b
      → estimated estimates < 2 ^ 64
      → Answer b estimates wanted (plan_load text_le mib_f percent estimates budget strict wanted)
  plan_load-strict estimates budget b none known room = all-Answer estimates budget b known room
  plan_load-strict estimates budget b (some wanted) known room =
      unfold plan_load in wanted-Answer estimates budget b wanted known room

-- ===== src/Storage/Budget/Account.antt =====
-- crates/storage/src/budget.rs, `plan_load`: the bytes it counts are those of the domains it takes.
use ai_ontology_com.Common.{
  ℕ, ◌+◌, ◌-◌, ◌^◌, ◌≤◌, ◌<◌, ◌≡◌, refl, String, true, false, List, [], ◌∷◌, arith, string_eq,
  contains, contains-append, ◌==◌, ==_iff, ==_refl, if◌then◌else◌, ◌∙◌, All,
}
use ai_ontology_com.Common.Find.{sum_by}
use ai_ontology_com.Common.Sort.{keys_of, IsDistinct}
use ai_ontology_com.Storage.Budget.{DomainEstimate}
use ai_ontology_com.Storage.Budget.Plan.{Trim, consider, trim}
use ai_ontology_com.Storage.Budget.Trimming.{IsSane, estimated, consider_used}

abbrev pub names : List DomainEstimate → List String
names = keys_of (λ d. d.ns)

-- What a domain costs in a plan that loads `domains`, those in `p1` without their payloads.
abbrev pub cost : List String → List String → DomainEstimate → ℕ
cost p1 domains d =
    if contains p1 d.ns
    then d.estimated_bytes - d.payload_bytes
    else if contains domains d.ns
    then d.estimated_bytes
    else 0

abbrev pub cost_of_all : List String → List String → List DomainEstimate → ℕ
cost_of_all p1 domains = sum_by (cost p1 domains)

-- The costs are read off the names only as far as they are taken.
pub cost_of_all-same :
    (p q c d : List String)
    → ((n : String) → contains p n ≡ contains q n)
    → ((n : String) → contains c n ≡ contains d n)
    → (estimates : List DomainEstimate) → cost_of_all p c estimates ≡ cost_of_all q d estimates
cost_of_all-same p q c d hp hc [] = refl
cost_of_all-same p q c d hp hc (e ∷ es) =
    ground (arith, hp e.ns, hc e.ns, cost_of_all-same p q c d hp hc es)

-- None of these names is taken yet.
abbrev pub IsFresh : Trim → List String → Type 0
IsFresh t ns =
    (n : String) → contains ns n ≡ true → (contains t.chosen n ≡ false) × (contains t.p1 n ≡ false)

consider_other :
    (b : ℕ) (t : Trim) (d : DomainEstimate) (n : String)
    → (d.ns == n) ≡ false
    → (contains (consider b t d).chosen n ≡ contains t.chosen n)
      × (contains (consider b t d).p1 n ≡ contains t.p1 n)
unfolding consider
consider_other b t d n h =
    ground (arith, h, contains-append t.chosen (d.ns ∷ []) n, contains-append t.p1 (d.ns ∷ []) n)

trim_other :
    (b : ℕ) (t : Trim) (order : List DomainEstimate) (n : String)
    → contains (names order) n ≡ false
    → (contains (trim b t order).chosen n ≡ contains t.chosen n)
      × (contains (trim b t order).p1 n ≡ contains t.p1 n)
unfolding trim
trim_other b t [] n h = (refl, refl)
trim_other b t (d ∷ order) n h =
    let (c, p) = trim_other b (consider b t d) order n (ground (arith, h)) in
    let (c', p') = consider_other b t d n (ground (arith, h)) in (c ∙ c', p ∙ p')

consider-cost :
    (b : ℕ) (t : Trim) (d : DomainEstimate)
    → t.used + d.estimated_bytes < 2 ^ 64
    → IsSane d
    → contains t.chosen d.ns ≡ false
    → contains t.p1 d.ns ≡ false
    → (consider b t d).used ≡ t.used + cost (consider b t d).p1 (consider b t d).chosen d
unfolding consider
consider-cost b t d room sane c p = ground (
  arith,
  room,
  sane,
  c,
  p,
  contains-append t.chosen (d.ns ∷ []) d.ns,
  contains-append t.p1 (d.ns ∷ []) d.ns,
  ==_refl d.ns,
)

consider-IsFresh :
    (b : ℕ) (t : Trim) (d : DomainEstimate) (ns : List String)
    → contains ns d.ns ≡ false
    → IsFresh t (d.ns ∷ ns)
    → IsFresh (consider b t d) ns
consider-IsFresh b t d ns h fresh n k =
    let other : (d.ns == n) ≡ false = ground (arith, h, k, ==_iff d.ns n) in
    let (c, p) = consider_other b t d n other in
    let (c', p') = fresh n (ground (arith, k)) in (c ∙ c', p ∙ p')

-- The loop counts exactly the costs of the domains it takes.
pub trim-cost :
    (b : ℕ) (t : Trim) (order : List DomainEstimate)
    → t.used ≤ b
    → t.used + estimated order < 2 ^ 64
    → All IsSane order
    → IsDistinct (λ (d : DomainEstimate). d.ns) order
    → IsFresh t (names order)
    → (trim b t order).used ≡ t.used + cost_of_all (trim b t order).p1 (trim b t order).chosen order
unfolding trim
trim-cost b t [] le room sane u fresh = omega arith
trim-cost b t (d ∷ order) le room (s, sane) (once, u) fresh =
    let fits : t.used + d.estimated_bytes < 2 ^ 64 = omega (arith, room) in
    let (below, more, most) = consider_used b t d le fits s in
    let (c, p) = fresh d.ns (ground (arith, ==_refl d.ns)) in
    let (c', p') = trim_other b (consider b t d) order d.ns once in
    ground (
      arith,
      consider-cost b t d fits s c p,
      c',
      p',
      trim-cost b (consider b t d) order below (omega (arith, room, most)) sane u
          (consider-IsFresh b t d (names order) once fresh),
    )

-- ===== src/Storage/Budget/Trimming.antt =====
-- crates/storage/src/budget.rs, `plan_load`: the loop that takes domains while they fit.
use ai_ontology_com.Common.{
  ltb, ℕ, ◌+◌, ◌-◌, ◌*◌, ◌^◌, ◌≤◌, ◌<◌, ◌≡◌, refl, String, Bool, true, ◌&&◌, ◌||◌, List, [], ◌∷◌,
  arith, string_eq, contains, contains-append, ==_refl, All,
}
use ai_ontology_com.Common.Find.{sum_by}
use ai_ontology_com.Common.Sort.{keys_of, contains-keys_of-append}
use ai_ontology_com.Storage.Manifest.{Manifest, StreamEntry}
use ai_ontology_com.Storage.Budget.{
  ActiveCounters, estimate_stream, estimate_bytes, DomainEstimate, sum64,
}
use ai_ontology_com.Storage.Budget.Plan.{SkippedDomain, Trim, consider, trim, skip}

-- An estimate counts the payload.
abbrev pub IsSane : DomainEstimate → Type 0
IsSane d = d.payload_bytes ≤ d.estimated_bytes

abbrev pub estimated : List DomainEstimate → ℕ
estimated = sum_by (λ d. d.estimated_bytes)

-- Chosen, or skipped and too large for what is left.
abbrev pub settled : ℕ → ℕ → List String → List SkippedDomain → DomainEstimate → Bool
settled b used chosen skipped d =
    contains chosen d.ns
    || (contains (keys_of (λ (s : SkippedDomain). s.ns) skipped) d.ns
        && ltb b (used + (d.estimated_bytes - d.payload_bytes)))

pub record Grows (b : ℕ) (t t' : Trim) : Type 0 where
  pub more : t.used ≤ t'.used
  pub kept :
      (d : DomainEstimate)
      → settled b t.used t.chosen t.skipped d ≡ true
      → settled b t'.used t'.chosen t'.skipped d ≡ true
  pub p1 :
      ((n : String) → contains t.p1 n ≡ true → contains t.chosen n ≡ true)
      → (n : String) → contains t'.p1 n ≡ true
      → contains t'.chosen n ≡ true

pub consider_used :
    (b : ℕ) (t : Trim) (d : DomainEstimate)
    → t.used ≤ b
    → t.used + d.estimated_bytes < 2 ^ 64
    → IsSane d
    → ((consider b t d).used ≤ b)
      × (t.used ≤ (consider b t d).used)
      × ((consider b t d).used ≤ t.used + d.estimated_bytes)
unfolding consider
consider_used b t d le room sane = ground (arith, le, room, sane)

pub consider-settled :
    (b : ℕ) (t : Trim) (d : DomainEstimate)
    → t.used + d.estimated_bytes < 2 ^ 64
    → IsSane d
    → settled b (consider b t d).used (consider b t d).chosen (consider b t d).skipped d ≡ true
unfolding consider
consider-settled b t d room sane = ground (
  arith,
  room,
  sane,
  contains-append t.chosen (d.ns ∷ []) d.ns,
  contains-keys_of-append (λ (s : SkippedDomain). s.ns) t.skipped (skip d ∷ []) d.ns,
  ==_refl d.ns,
)

pub consider-Grows :
    (b : ℕ) (t : Trim) (d : DomainEstimate)
    → t.used ≤ b
    → t.used + d.estimated_bytes < 2 ^ 64
    → IsSane d
    → Grows b t (consider b t d)
unfolding consider
consider-Grows b t d le room sane = record {
  more = (consider_used b t d le room sane).1;
  kept = λ e h. ground (
    arith,
    h,
    (consider_used b t d le room sane).1,
    contains-append t.chosen (d.ns ∷ []) e.ns,
    contains-keys_of-append (λ (s : SkippedDomain). s.ns) t.skipped (skip d ∷ []) e.ns,
  );
  p1 = λ sub n h.
      ground (
        arith,
        h,
        sub n,
        contains-append t.chosen (d.ns ∷ []) n,
        contains-append t.p1 (d.ns ∷ []) n,
      );
}

pub record Fits (b : ℕ) (t t' : Trim) (order : List DomainEstimate) : Type 0 where
  pub below : t'.used ≤ b
  pub grows : Grows b t t'
  pub all : All (λ (d : DomainEstimate). settled b t'.used t'.chosen t'.skipped d ≡ true) order

pub trim-Fits :
    (b : ℕ) (t : Trim) (order : List DomainEstimate)
    → t.used ≤ b
    → t.used + estimated order < 2 ^ 64
    → All IsSane order
    → Fits b t (trim b t order) order
unfolding trim
trim-Fits b t [] le room sane = record {
  below = le;
  grows = record { more = ground arith; kept = λ d h. h; p1 = λ sub. sub };
  all = tt;
}
trim-Fits b t (d ∷ order) le room (s, sane) =
    let fits : t.used + d.estimated_bytes < 2 ^ 64 = omega (arith, room) in
    let (below, more, most) = consider_used b t d le fits s in
    let first = consider-Grows b t d le fits s in
    let rest = trim-Fits b (consider b t d) order below (omega (arith, room, most)) sane in
    record {
      below = rest.below;
      grows = record {
        more = omega (arith, more, rest.grows.more);
        kept = λ e h. rest.grows.kept e (first.kept e h);
        p1 = λ sub. rest.grows.p1 (first.p1 sub);
      };
      all = (rest.grows.kept d (consider-settled b t d fits s), rest.all);
    }

pub sum64_exact :
    (estimates : List DomainEstimate)
    → estimated estimates < 2 ^ 64
    → sum64 (λ (d : DomainEstimate). d.estimated_bytes) estimates ≡ estimated estimates
unfolding sum64
sum64_exact [] h = refl
sum64_exact (d ∷ ds) h = omega (arith, h, sum64_exact ds (omega (arith, h)))

-- The estimates of the program count the payload, unless their sum wraps around.
pub estimate_stream-IsSane :
    (manifest : Manifest) (active : ℕ → ActiveCounters) (id : ℕ) (stream : StreamEntry)
    → (estimate_stream manifest active id stream).payload_bytes
        + (estimate_stream manifest active id stream).records * 1630
        + (estimate_stream manifest active id stream).edges * 480
      < 2 ^ 64
    → IsSane (estimate_stream manifest active id stream)
unfolding estimate_stream estimate_bytes
estimate_stream-IsSane manifest active id stream room = omega (arith, room)

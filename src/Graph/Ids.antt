-- ===== src/Graph/Ids.antt =====
-- crates/graph/src/id.rs: the four id allocators. Ids are 64-bit numbers; atomics are plain fields,
-- and sums wrap as they do in a release build. The retry loop of `observe` runs with nothing in
-- between, so its first exchange succeeds.
use ai_ontology_com.Common.{ℕ, ◌+◌, ◌-◌, ◌%◌, ◌^◌, ◌≤◌, ◌<◌, ◌≡◌, Bool, arith, leb, if◌then◌else◌}

abbrev pub u64_mod : ℕ
u64_mod = 2 ^ 64

abbrev pub max_concept_id : ℕ
max_concept_id = 2 ^ 32 - 1

unfoldable pub fits_storage : ℕ → Bool
fits_storage id = leb id max_concept_id

pub record IdAllocator : Type 0 where
  pub concepts : ℕ
  pub relations : ℕ
  pub rules : ℕ
  pub actions : ℕ

unfoldable pub new : ℕ → IdAllocator
new start = record { concepts = start; relations = start; rules = start; actions = start }

-- `fetch_add(1)`
unfoldable pub next_concept : IdAllocator → ℕ × IdAllocator
next_concept ids = (ids.concepts, record ids { concepts = (ids.concepts + 1) % u64_mod })

unfoldable pub next_relation : IdAllocator → ℕ × IdAllocator
next_relation ids = (ids.relations, record ids { relations = (ids.relations + 1) % u64_mod })

unfoldable pub next_rule : IdAllocator → ℕ × IdAllocator
next_rule ids = (ids.rules, record ids { rules = (ids.rules + 1) % u64_mod })

unfoldable pub next_action : IdAllocator → ℕ × IdAllocator
next_action ids = (ids.actions, record ids { actions = (ids.actions + 1) % u64_mod })

unfoldable pub reset : IdAllocator → ℕ → IdAllocator
reset ids start = record { concepts = start; relations = start; rules = start; actions = start }

-- The counter after `observe(counter, value)`.
unfoldable pub observe : ℕ → ℕ → ℕ
observe counter value = if leb counter value then (value + 1) % u64_mod else counter

unfoldable pub observe_concept : IdAllocator → ℕ → IdAllocator
unfolding observe
observe_concept ids id = record ids { concepts = observe ids.concepts id }

unfoldable pub observe_relation : IdAllocator → ℕ → IdAllocator
unfolding observe
observe_relation ids id = record ids { relations = observe ids.relations id }

unfoldable pub observe_rule : IdAllocator → ℕ → IdAllocator
unfolding observe
observe_rule ids id = record ids { rules = observe ids.rules id }

unfoldable pub observe_action : IdAllocator → ℕ → IdAllocator
unfolding observe
observe_action ids id = record ids { actions = observe ids.actions id }

-- Below the largest number, `observe` makes the counter the least one that is neither below itself
-- nor at most the value.
pub observe_least :
    (counter value bound : ℕ)
    → value < u64_mod - 1
    → (counter ≤ observe counter value)
      × (value < observe counter value)
      × (counter ≤ bound → value < bound → observe counter value ≤ bound)
unfolding observe
observe_least counter value bound h = ground arith

-- The largest number wraps every counter to 0, the id that stands for "unset".
pub observe_max : (counter : ℕ) → counter < u64_mod → observe counter (u64_mod - 1) ≡ 0
unfolding observe
observe_max counter h = ground arith

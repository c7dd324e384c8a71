-- ===== src/Graph/Listing.antt =====
-- crates/graph/src/graph.rs: the ordered listings `rules_sorted` and `actions_sorted`, whose keys are
-- type, name and id.
use ai_ontology_com.Common.{
  ℕ, ◌≡◌, inl, inr, String, Bool, true, false, not, ◌&&◌, Option, none, some, arith, ◌==◌, nat_eq,
  string_eq, pair_eq, ==_iff, if◌then◌else◌, Option-cases,
}
use ai_ontology_com.Common.Set
use ai_ontology_com.Common.Set.{Set}

abbrev pub Key : Type 0
Key = String × (String × ℕ)

-- The ordered listing after an entity with the key `new` took the place of one with the key `prev`.
unfoldable pub relist_key : Bool → Option Key → Key → Set Key → Set Key
relist_key false prev new sorted = sorted
relist_key true none new sorted = Set.insert sorted new
relist_key true (some prev) new sorted =
    Set.insert (if prev == new then sorted else Set.remove sorted prev) new

-- After a rename the key changes; the type is that of the stored entity.
unfoldable pub rename_listed : Bool → String → String → String → ℕ → Set Key → Set Key
rename_listed listed type_ old new id sorted =
    if not (old == new) && listed
    then Set.insert (Set.remove sorted (type_, (old, id))) (type_, (new, id))
    else sorted

-- Whether an entity has the key.
abbrev pub has_key : Option Key → Key → Bool
has_key none k = false
has_key (some j) k = j == k

-- A listing against the keys that the table holds under each id.
abbrev pub Lists : Set Key → (ℕ → Option Key) → Type 0
Lists sorted key = (t n : String) (i : ℕ) → Set.mem sorted (t, (n, i)) ≡ has_key (key i) (t, (n, i))

-- A key in the table carries the id under which it stands.
abbrev pub Carries : (ℕ → Option Key) → Type 0
Carries key = (i : ℕ) (k : Key) → key i ≡ some k → k.1.1 ≡ i

pub relist_key-Lists :
    (sorted : Set Key) (key key' : ℕ → Option Key) (t n : String) (i : ℕ)
    → Lists sorted key
    → Carries key
    → ((j : ℕ) → key' j ≡ (if i == j then some (t, (n, i)) else key j))
    → Lists (relist_key true (key i) (t, (n, i)) sorted) key'
unfolding relist_key
relist_key-Lists sorted key key' t n i lists carries e t' n' j = elim (Option-cases (key i)) [
  | inl none_before ↦ rw none_before (
      ground (
        arith,
        none_before,
        e j,
        lists t' n' j,
        Set.mem-insert sorted (t, (n, i)) (t', (n', j)),
        ==_iff i j,
      ))
  | inr ((pt, (pn, pi)), before) ↦
      let prev : Key = (pt, (pn, pi)) in
      let new : Key = (t, (n, i)) in
      rw before (
        ground (
          arith,
          before,
          e j,
          lists t' n' j,
          carries i prev before,
          Set.mem-insert (if prev == new then sorted else Set.remove sorted prev) new (t', (n', j)),
          Set.mem-remove sorted prev (t', (n', j)),
          ==_iff i j,
          ==_iff pi j,
          ==_iff pt t,
          ==_iff pn n,
        ))
]

pub rename_listed-Lists :
    (sorted : Set Key) (key key' : ℕ → Option Key) (t old new : String) (i : ℕ)
    → Lists sorted key
    → key i ≡ some (t, (old, i))
    → ((j : ℕ) → key' j ≡ (if i == j then some (t, (new, i)) else key j))
    → Lists (rename_listed true t old new i sorted) key'
unfolding rename_listed
rename_listed-Lists sorted key key' t old new i lists at e t' n' j = ground (
  arith,
  at,
  e j,
  lists t' n' j,
  Set.mem-insert (Set.remove sorted (t, (old, i))) (t, (new, i)) (t', (n', j)),
  Set.mem-remove sorted (t, (old, i)) (t', (n', j)),
  ==_iff i j,
  ==_iff old new,
)

pub remove-Lists :
    (sorted : Set Key) (key key' : ℕ → Option Key) (t n : String) (i : ℕ)
    → Lists sorted key
    → key i ≡ some (t, (n, i))
    → ((j : ℕ) → key' j ≡ (if i == j then none else key j))
    → Lists (Set.remove sorted (t, (n, i))) key'
remove-Lists sorted key key' t n i lists at e t' n' j =
    ground
      (arith, at, e j, lists t' n' j, Set.mem-remove sorted (t, (n, i)) (t', (n', j)), ==_iff i j)

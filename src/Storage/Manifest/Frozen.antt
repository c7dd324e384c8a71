-- ===== src/Storage/Manifest/Frozen.antt =====
-- crates/storage/src/manifest.rs: ids and symbols are frozen.
use mathlib.Core.Path.{ap, sym, ◌∙◌}
use ai_ontology_com.Common.{
  ℕ, ◌+◌, ◌-◌, ◌%◌, ◌^◌, ◌<◌, ◌≡◌, ◌≢◌, refl, String, Bool, true, false, List, [], ◌∷◌, ◌++◌, none,
  some, arith, ◌==◌, nat_eq, string_eq, ==_iff, ==_refl, nat_beq_iff, Bool-cases, inl, inr,
  Option-cases,
}
use ai_ontology_com.Common.Map.Collect.{map_some}
use ai_ontology_com.Common.Find.{
  find_by, max_by, find_by-append_some, find_by-append_none, find_by-past_max,
}
use ai_ontology_com.Storage.Manifest.{
  Manifest, NsEntry, SymEntry, intern_ns, intern_relation_type, retire_ns, retire_first, is_live,
  ns_id, ns_name, relation_type_sym, relation_type_name,
}

-- The operations on the books of a store, while there is an id or a symbol left for a new name.
pub data Step (m : Manifest) : Manifest → Type 0 where
  intern_domain :
      (name : String)
      → max_by (λ (e : NsEntry). e.id) m.ns < 2 ^ 16 - 1
      → Step m (intern_ns m name).1
  intern_type :
      (name : String)
      → max_by (λ (e : SymEntry). e.sym) m.relation_types < 2 ^ 32 - 1
      → Step m (intern_relation_type m name).1
  retire : (id : ℕ) → Step m (retire_ns m id)

pub data Run (m : Manifest) : Manifest → Type 0 where
  done : Run m m
  then_step : (m' m'' : Manifest) → Run m m' → Step m' m'' → Run m m''

-- What is on disk under an id keeps its meaning.
pub record Frozen (m m' : Manifest) : Type 0 where
  pub domain : (id : ℕ) (name : String) → ns_name m id ≡ some name → ns_name m' id ≡ some name
  pub symbol :
      (sym : ℕ) (name : String)
      → relation_type_name m sym ≡ some name
      → relation_type_name m' sym ≡ some name
  pub type_ :
      (name : String) (sym : ℕ)
      → relation_type_sym m name ≡ some sym
      → relation_type_sym m' name ≡ some sym

map_some-append :
    {A B : Type 0} (f : A → B) (p : A → Bool) (xs ys : List A) (b : B)
    → map_some f (find_by p xs) ≡ some b
    → map_some f (find_by p (xs ++ ys)) ≡ some b
map_some-append f p xs ys b h = elim (Option-cases (find_by p xs)) [
  | inl e ↦ absurd (ground (arith, e, h))
  | inr (a, e) ↦ rw (find_by-append_some p xs ys a e) (sym (ap (map_some f) e) ∙ h)
]

retire_first-name :
    (id i : ℕ) (es : List NsEntry)
    → map_some (λ (e : NsEntry). e.name) (find_by (λ e. e.id == i) (retire_first id es))
      ≡ map_some (λ (e : NsEntry). e.name) (find_by (λ e. e.id == i) es)
unfolding retire_first
retire_first-name id i [] = refl
retire_first-name id i (e ∷ es) = ground (arith, retire_first-name id i es)

abbrev pub next_ns : Manifest → ℕ
next_ns m = (max_by (λ (e : NsEntry). e.id) m.ns + 1) % 2 ^ 16

abbrev pub with_ns : Manifest → String → Manifest
with_ns m name = record m {
  ns = m.ns ++ (record { id = next_ns m; name = name; retired = false } ∷ []);
  streams = m.streams ++ (record { ns_id = next_ns m; sealed = [] } ∷ []);
}

abbrev pub next_sym : Manifest → ℕ
next_sym m = (max_by (λ (e : SymEntry). e.sym) m.relation_types + 1) % 2 ^ 32

abbrev pub with_type : Manifest → String → Manifest
with_type m name = record m {
  relation_types = m.relation_types ++ (record { sym = next_sym m; name = name } ∷ []);
}

pub intern_ns-new :
    (m : Manifest) (name : String)
    → find_by (is_live name) m.ns ≡ none
    → intern_ns m name ≡ ((next_ns m, true), with_ns m name)
unfolding intern_ns
intern_ns-new m name h = rw (intern_ns, h) refl

pub intern_ns-known :
    (m : Manifest) (name : String) (e : NsEntry)
    → find_by (is_live name) m.ns ≡ some e
    → intern_ns m name ≡ ((e.id, false), m)
unfolding intern_ns
intern_ns-known m name e h = rw (intern_ns, h) refl

pub intern_relation_type-new :
    (m : Manifest) (name : String)
    → find_by (λ e. e.name == name) m.relation_types ≡ none
    → intern_relation_type m name ≡ ((next_sym m, true), with_type m name)
unfolding intern_relation_type
intern_relation_type-new m name h = rw (intern_relation_type, h) refl

pub intern_relation_type-known :
    (m : Manifest) (name : String) (e : SymEntry)
    → find_by (λ e. e.name == name) m.relation_types ≡ some e
    → intern_relation_type m name ≡ ((e.sym, false), m)
unfolding intern_relation_type
intern_relation_type-known m name e h = rw (intern_relation_type, h) refl

same-Frozen : (m : Manifest) → Frozen m m
same-Frozen m = record { domain = λ i n h. h; symbol = λ s n h. h; type_ = λ n s h. h }

with_ns-Frozen : (m : Manifest) (name : String) → Frozen m (with_ns m name)
with_ns-Frozen m name = record {
  domain = λ i n g.
      unfold ns_name in
      map_some-append (λ (e : NsEntry). e.name) (λ e. e.id == i) m.ns
        (record { id = next_ns m; name = name; retired = false } ∷ []) n g;
  symbol = λ s n g. unfold relation_type_name in g;
  type_ = λ n s g. unfold relation_type_sym in g;
}

with_type-Frozen : (m : Manifest) (name : String) → Frozen m (with_type m name)
with_type-Frozen m name = record {
  domain = λ i n g. unfold ns_name in g;
  symbol = λ s n g.
      unfold relation_type_name in
      map_some-append (λ (e : SymEntry). e.name) (λ e. e.sym == s) m.relation_types
        (record { sym = next_sym m; name = name } ∷ []) n g;
  type_ = λ n s g.
      unfold relation_type_sym in
      map_some-append (λ (e : SymEntry). e.sym) (λ e. e.name == n) m.relation_types
        (record { sym = next_sym m; name = name } ∷ []) s g;
}

intern_ns-Frozen : (m : Manifest) (name : String) → Frozen m (intern_ns m name).1
intern_ns-Frozen m name = elim (Option-cases (find_by (is_live name) m.ns)) [
  | inr (e, h) ↦ rw (intern_ns-known m name e h) (same-Frozen m)
  | inl h ↦ rw (intern_ns-new m name h) (with_ns-Frozen m name)
]

intern_relation_type-Frozen :
    (m : Manifest) (name : String) → Frozen m (intern_relation_type m name).1
intern_relation_type-Frozen m name =
    elim (Option-cases (find_by (λ e. e.name == name) m.relation_types)) [
      | inr (e, h) ↦ rw (intern_relation_type-known m name e h) (same-Frozen m)
      | inl h ↦ rw (intern_relation_type-new m name h) (with_type-Frozen m name)
    ]

Step-Frozen : (m m' : Manifest) → Step m m' → Frozen m m'
Step-Frozen m _ (intern_domain name _) = intern_ns-Frozen m name
Step-Frozen m _ (intern_type name _) = intern_relation_type-Frozen m name
Step-Frozen m _ (retire id) = record {
  domain = λ i n h. unfold retire_ns ns_name in (retire_first-name id i m.ns ∙ h);
  symbol = λ s n h. unfold retire_ns relation_type_name in h;
  type_ = λ n s h. unfold retire_ns relation_type_sym in h;
}

pub keeps_meaning : (m m' : Manifest) → Run m m' → Frozen m m'
keeps_meaning m _ done = same-Frozen m
keeps_meaning m _ (then_step m' m'' before step) =
    let a = keeps_meaning m m' before in
    let b = Step-Frozen m' m'' step in
    record {
      domain = λ i n h. b.domain i n (a.domain i n h);
      symbol = λ s n h. b.symbol s n (a.symbol s n h);
      type_ = λ n s h. b.type_ n s (a.type_ n s h);
    }

apart : (other name : String) → other ≢ name → (name == other) ≡ false
apart other name d = elim (Bool-cases (name == other)) [
  | inl e ↦ absurd (d (sym ((==_iff name other).0 e)))
  | inr e ↦ e
]

live_end :
    (other name : String) (i : ℕ)
    → other ≢ name
    → find_by (is_live other) (record { id = i; name = name; retired = false } ∷ []) ≡ none
live_end other name i d = ground (arith, apart other name d)

find_live-append :
    (other name : String) (i : ℕ) (es : List NsEntry)
    → other ≢ name
    → find_by (is_live other) (es ++ (record { id = i; name = name; retired = false } ∷ []))
      ≡ find_by (is_live other) es
find_live-append other name i es d = elim (Option-cases (find_by (is_live other) es)) [
  | inr (e, h) ↦ (find_by-append_some (is_live other) es _ e h ∙ sym h)
  | inl h ↦ (find_by-append_none (is_live other) es _ h ∙ live_end other name i d ∙ sym h)
]

live_self :
    (name : String) (i : ℕ)
    → find_by (is_live name) (record { id = i; name = name; retired = false } ∷ [])
      ≡ some (record { id = i; name = name; retired = false })
live_self name i = ground (arith, ==_refl name)

named :
    (name : String) (i : ℕ)
    → find_by (λ (e : NsEntry). e.id == i) (record { id = i; name = name; retired = false } ∷ [])
      ≡ some (record { id = i; name = name; retired = false })
named name i = ground arith

unnamed :
    (m : Manifest)
    → max_by (λ (e : NsEntry). e.id) m.ns < 2 ^ 16 - 1
    → find_by (λ e. e.id == next_ns m) m.ns ≡ none
unnamed m room =
    find_by-past_max (λ e. e.id == next_ns m) (λ e. e.id) (next_ns m) m.ns (ground (arith, room))
      (λ e h. (nat_beq_iff e.id (next_ns m)).0 h)

-- While fewer ids are in use than fit 16 bits, `intern_ns` answers the id by which the domain is
-- found from then on. It says "new" exactly when no live domain had the name, and then the id named
-- no domain before, not even a retired one, and names this one now; otherwise it changes nothing.
-- Other domains are found as before.
pub intern_ns-ns_id :
    (m : Manifest) (name : String)
    → max_by (λ (e : NsEntry). e.id) m.ns < 2 ^ 16 - 1
    → (ns_id (intern_ns m name).1 name ≡ some (intern_ns m name).0.0)
      × ((intern_ns m name).0.1 ≡ true
          → (ns_id m name ≡ none)
            × (ns_name m (intern_ns m name).0.0 ≡ none)
            × (ns_name (intern_ns m name).1 (intern_ns m name).0.0 ≡ some name))
      × ((intern_ns m name).0.1 ≡ false → (intern_ns m name).1 ≡ m)
      × ((other : String) → other ≢ name → ns_id (intern_ns m name).1 other ≡ ns_id m other)
intern_ns-ns_id m name room = elim (Option-cases (find_by (is_live name) m.ns)) [
  | inr (e, h) ↦ rw (intern_ns-known m name e h) (
    unfold ns_id in ap (map_some (λ (e : NsEntry). e.id)) h,
    λ ne. absurd (ground (arith, ne)),
    λ _. refl,
    λ other d. refl,
  )
  | inl h ↦ rw (intern_ns-new m name h) (
    unfold ns_id in
        ap (map_some (λ (e : NsEntry). e.id))
          (find_by-append_none (is_live name) m.ns _ h ∙ live_self name (next_ns m)),
    λ _. (
      unfold ns_id in ap (map_some (λ (e : NsEntry). e.id)) h,
      unfold ns_name in ap (map_some (λ (e : NsEntry). e.name)) (unnamed m room),
      unfold ns_name in
          ap (map_some (λ (e : NsEntry). e.name)) (
            find_by-append_none (λ e. e.id == next_ns m) m.ns _ (unnamed m room)
            ∙ named name (next_ns m)),
    ),
    λ ne. absurd (ground (arith, ne)),
    λ other d.
        unfold ns_id in
        ap (map_some (λ (e : NsEntry). e.id)) (find_live-append other name (next_ns m) m.ns d),
  )
]

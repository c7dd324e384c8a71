-- ===== src/Storage/Manifest/Apart.antt =====
-- crates/storage/src/manifest.rs: no id and no symbol is given twice.
use ai_ontology_com.Common.{
  ℕ, ◌-◌, ◌^◌, ◌<◌, ◌≡◌, refl, ap, ◌∙◌, String, true, false, List, [], ◌∷◌, some, arith, ◌==◌,
  nat_eq, string_eq, ==_iff, contains, if_keeps, Option-cases, inl, inr,
}
use ai_ontology_com.Common.Find.{find_by, max_by}
use ai_ontology_com.Common.Sort.{keys_of, IsDistinct}
use ai_ontology_com.Common.Distinct.{
  find_by_holds, contains-past_max, append-IsDistinct, find_by-key,
}
use ai_ontology_com.Storage.Manifest.{
  Manifest, NsEntry, SymEntry, retire_ns, retire_first, is_live, ns_id, ns_name, relation_type_sym,
  relation_type_name,
}
use ai_ontology_com.Storage.Manifest.Frozen.{
  Step, intern_domain, intern_type, retire, Run, done, then_step, Frozen, keeps_meaning, next_ns,
  with_ns, next_sym, with_type, intern_ns-new, intern_ns-known, intern_relation_type-new,
  intern_relation_type-known,
}

-- No two domains, retired ones included, share an id, and no two relation types a symbol.
pub record IsApart (m : Manifest) : Type 0 where
  pub ids : IsDistinct (λ (e : NsEntry). e.id) m.ns
  pub syms : IsDistinct (λ (e : SymEntry). e.sym) m.relation_types

-- A name's id or symbol stands for that name.
pub record IsReadBack (m : Manifest) : Type 0 where
  pub domain : (name : String) (id : ℕ) → ns_id m name ≡ some id → ns_name m id ≡ some name
  pub type_ :
      (name : String) (s : ℕ)
      → relation_type_sym m name ≡ some s
      → relation_type_name m s ≡ some name

IsApart-domain :
    (m : Manifest)
    → IsApart m
    → (name : String) (id : ℕ) → ns_id m name ≡ some id
    → ns_name m id ≡ some name
unfolding ns_id ns_name
IsApart-domain m a name id h = elim (Option-cases (find_by (is_live name) m.ns)) [
  | inl e ↦ absurd (ground (arith, e, h))
  | inr (x, e) ↦
      let live = find_by_holds (is_live name) m.ns x e in
      let its_id : x.id ≡ id = ground (arith, e, h) in
      let its_name : x.name ≡ name = ground (arith, live, ==_iff x.name name) in
      rw (← its_id, find_by-key (λ (e : NsEntry). e.id) (is_live name) m.ns x a.ids e)
        (ap some its_name)
]

IsApart-type :
    (m : Manifest)
    → IsApart m
    → (name : String) (s : ℕ) → relation_type_sym m name ≡ some s
    → relation_type_name m s ≡ some name
unfolding relation_type_sym relation_type_name
IsApart-type m a name s h = elim (Option-cases (find_by (λ e. e.name == name) m.relation_types)) [
  | inl e ↦ absurd (ground (arith, e, h))
  | inr (x, e) ↦
      let called = find_by_holds (λ (e : SymEntry). e.name == name) m.relation_types x e in
      let its_sym : x.sym ≡ s = ground (arith, e, h) in
      let its_name : x.name ≡ name = ground (arith, called, ==_iff x.name name) in
      rw
        (
          ← its_sym,
          find_by-key (λ (e : SymEntry). e.sym) (λ e. e.name == name) m.relation_types x a.syms e,
        )
        (ap some its_name)
]

with_ns-IsApart :
    (m : Manifest) (name : String)
    → max_by (λ (e : NsEntry). e.id) m.ns < 2 ^ 16 - 1
    → IsApart m
    → IsApart (with_ns m name)
with_ns-IsApart m name room a = record {
  ids =
      append-IsDistinct (λ (e : NsEntry). e.id) m.ns
        (record { id = next_ns m; name = name; retired = false }) a.ids
        (contains-past_max (λ (e : NsEntry). e.id) m.ns (next_ns m) (omega (arith, room)));
  syms = a.syms;
}

with_type-IsApart :
    (m : Manifest) (name : String)
    → max_by (λ (e : SymEntry). e.sym) m.relation_types < 2 ^ 32 - 1
    → IsApart m
    → IsApart (with_type m name)
with_type-IsApart m name room a = record {
  ids = a.ids;
  syms =
      append-IsDistinct (λ (e : SymEntry). e.sym) m.relation_types
        (record { sym = next_sym m; name = name }) a.syms
        (contains-past_max (λ (e : SymEntry). e.sym) m.relation_types (next_sym m)
          (omega (arith, room)));
}

retire_first-id :
    (id : ℕ) (es : List NsEntry) (k : ℕ)
    → contains (keys_of (λ (e : NsEntry). e.id) (retire_first id es)) k
      ≡ contains (keys_of (λ (e : NsEntry). e.id) es) k
unfolding retire_first
retire_first-id id [] k = refl
retire_first-id id (e ∷ es) k = ground (arith, retire_first-id id es k)

retire_first-IsDistinct :
    (id : ℕ) (es : List NsEntry)
    → IsDistinct (λ (e : NsEntry). e.id) es
    → IsDistinct (λ (e : NsEntry). e.id) (retire_first id es)
unfolding retire_first
retire_first-IsDistinct id [] _ = tt
retire_first-IsDistinct id (e ∷ es) (q, u) =
    if_keeps (IsDistinct (λ (e : NsEntry). e.id)) (e.id == id) (record e { retired = true } ∷ es)
      (e ∷ retire_first id es) (λ _. (q, u))
      (λ _. (retire_first-id id es e.id ∙ q, retire_first-IsDistinct id es u))

Step-IsApart : (m m' : Manifest) → Step m m' → IsApart m → IsApart m'
Step-IsApart m _ (intern_domain name room) a = elim (Option-cases (find_by (is_live name) m.ns)) [
  | inr (e, h) ↦ rw (intern_ns-known m name e h) a
  | inl h ↦ rw (intern_ns-new m name h) (with_ns-IsApart m name room a)
]
Step-IsApart m _ (intern_type name room) a =
    elim (Option-cases (find_by (λ e. e.name == name) m.relation_types)) [
      | inr (e, h) ↦ rw (intern_relation_type-known m name e h) a
      | inl h ↦ rw (intern_relation_type-new m name h) (with_type-IsApart m name room a)
    ]
Step-IsApart m _ (retire id) a =
    unfold retire_ns in (record { ids = retire_first-IsDistinct id m.ns a.ids; syms = a.syms })

Run-IsApart : (m m' : Manifest) → Run m m' → IsApart m → IsApart m'
Run-IsApart m _ done a = a
Run-IsApart m _ (then_step m' m'' before step) a =
    Step-IsApart m' m'' step (Run-IsApart m m' before a)

-- Along every run of interning domains and relation types and retiring domains, started where no id
-- and no symbol is given twice, and interning only while ids of 16 bits and symbols of 32 are left:
-- an id of a domain keeps its name, a symbol its relation type and a relation type its symbol. No id
-- and no symbol is given twice at the end either, those of retired domains included, and the id of a
-- live domain and the symbol of a relation type stand for its name.
pub Run-Frozen : (m m' : Manifest) → IsApart m → Run m m' → Frozen m m' × IsApart m' × IsReadBack m'
Run-Frozen m m' a run =
    let apart = Run-IsApart m m' run a in
    (
      keeps_meaning m m' run,
      apart,
      record { domain = IsApart-domain m' apart; type_ = IsApart-type m' apart },
    )

-- ===== src/Storage/Codec/RoundTrip.antt =====
-- crates/storage/src/codec.rs: what `encode` writes, `decode` reads back.
use ai_ontology_com.Common.{
  ℕ, ◌≡◌, refl, String, Bool, true, false, List, [], ◌∷◌, arith, ◌==◌, nat_eq, string_eq, inl, inr,
  Bool-cases,
}
use mathlib.Core.Path.{ap, subst, ◌∙◌}
use ai_ontology_com.Common.Map
use ai_ontology_com.Common.Map.{Map, find}
use ai_ontology_com.Common.Map.Collect.{
  IsUnique, map_values, sort_by, map_some, get-collect, sort_by_lem, find-map_values,
  map_values-IsUnique,
}
use ai_ontology_com.Common.Result.{ok, Result-cases}
use ai_ontology_com.Graph.Model.{
  PropertyValue, PropertyValues, Properties, Concept, Relation, Rule, Action,
}
use ai_ontology_com.Storage.Log.{RecordKind}
use ai_ontology_com.Storage.Mirror.{
  value_out, values_out, value_in, values_in, props_in, props_out, StoredRecord, record_in,
  record_out, concept_in, concept_out, relation_in, relation_out, rule_in, rule_out, action_in,
  action_out,
}
use ai_ontology_com.Storage.Codec.{
  Formats, check_finite, codec_json, codec_postcard, encode, decode, is_ontology, map_err,
  decode_failed,
}

mutual
  unfolding value_in value_out

  value_in-value_out : (v : PropertyValue) → value_in (value_out v) ≡ v
  value_in-value_out (PropertyValue.text t) = refl
  value_in-value_out (PropertyValue.number n) = refl
  value_in-value_out (PropertyValue.bool b) = refl
  value_in-value_out (PropertyValue.list items) = ap PropertyValue.list (values_in-values_out items)

  values_in-values_out : (vs : PropertyValues) → values_in (values_out vs) ≡ vs
  values_in-values_out PropertyValues.nil = refl
  values_in-values_out (PropertyValues.cons v vs) =
      rw (value_in-value_out v, values_in-values_out vs)

-- Two maps with the same look-ups: a hash map has no order of its own.
abbrev pub SameProps : Properties → Properties → Type 0
SameProps m n = (k : String) → Map.get m k ≡ Map.get n k

abbrev pub SameConcept : Concept → Concept → Type 0
SameConcept c d =
    (c.id ≡ d.id)
    × (c.concept_type ≡ d.concept_type)
    × (c.name ≡ d.name)
    × (c.description ≡ d.description)
    × SameProps c.properties d.properties

abbrev pub SameRelation : Relation → Relation → Type 0
SameRelation r s =
    (r.id ≡ s.id)
    × (r.relation_type ≡ s.relation_type)
    × (r.source ≡ s.source)
    × (r.target ≡ s.target)
    × (r.weight ≡ s.weight)
    × SameProps r.properties s.properties

abbrev pub SameRule : Rule → Rule → Type 0
SameRule r s =
    (r.id ≡ s.id)
    × (r.rule_type ≡ s.rule_type)
    × (r.name ≡ s.name)
    × (r.when ≡ s.when)
    × (r.then_ ≡ s.then_)
    × (r.applies_to ≡ s.applies_to)
    × (r.strict ≡ s.strict)
    × (r.description ≡ s.description)
    × SameProps r.properties s.properties

abbrev pub SameAction : Action → Action → Type 0
SameAction a b =
    (a.id ≡ b.id)
    × (a.action_type ≡ b.action_type)
    × (a.name ≡ b.name)
    × (a.subject ≡ b.subject)
    × (a.object ≡ b.object)
    × (a.effect ≡ b.effect)
    × (a.description ≡ b.description)
    × SameProps a.parameters b.parameters

-- One record twice, up to the order of the maps in it.
pub data SameRecord : RecordKind → RecordKind → Type 0 where
  ontology : (o : _) → SameRecord (RecordKind.ontology o) (RecordKind.ontology o)
  concept :
      (c d : Concept) → SameConcept c d → SameRecord (RecordKind.concept c) (RecordKind.concept d)
  update_concept :
      (c d : Concept)
      → SameConcept c d
      → SameRecord (RecordKind.update_concept c) (RecordKind.update_concept d)
  relation :
      (r s : Relation)
      → SameRelation r s
      → SameRecord (RecordKind.relation r) (RecordKind.relation s)
  update_relation :
      (r s : Relation)
      → SameRelation r s
      → SameRecord (RecordKind.update_relation r) (RecordKind.update_relation s)
  relation_exact :
      (r s : Relation)
      → SameRelation r s
      → SameRecord (RecordKind.relation_exact r) (RecordKind.relation_exact s)
  rule : (r s : Rule) → SameRule r s → SameRecord (RecordKind.rule r) (RecordKind.rule s)
  action : (a b : Action) → SameAction a b → SameRecord (RecordKind.action a) (RecordKind.action b)
  delete_concept :
      (id : ℕ) → SameRecord (RecordKind.delete_concept id) (RecordKind.delete_concept id)
  delete_relation :
      (id : ℕ) → SameRecord (RecordKind.delete_relation id) (RecordKind.delete_relation id)
  delete_rule : (id : ℕ) → SameRecord (RecordKind.delete_rule id) (RecordKind.delete_rule id)
  delete_action : (id : ℕ) → SameRecord (RecordKind.delete_action id) (RecordKind.delete_action id)

-- The properties that the record carries
abbrev pub properties_of : RecordKind → Properties
properties_of (RecordKind.concept c) = c.properties
properties_of (RecordKind.update_concept c) = c.properties
properties_of (RecordKind.relation r) = r.properties
properties_of (RecordKind.update_relation r) = r.properties
properties_of (RecordKind.relation_exact r) = r.properties
properties_of (RecordKind.rule r) = r.properties
properties_of (RecordKind.action a) = a.parameters
properties_of _ = Map.empty

module _ (text_le : String → String → Bool) where
  map_values_twice :
      (l : List (String × PropertyValue)) (k : String)
      → map_some value_in (find (map_values value_out l) k) ≡ find l k
  unfolding find
  map_values_twice [] k = refl
  map_values_twice ((j, v) ∷ l) k = ground (arith, map_values_twice l k, value_in-value_out v)

  sorted_back : (m : Properties) → IsUnique m.entries → SameProps (props_in (props_out text_le m)) m
  unfolding props_in props_out Map.get
  sorted_back m u k =
      let out = map_values value_out m.entries in
      let (unique, same) = sort_by_lem text_le out (map_values-IsUnique value_out m.entries u) in
      get-collect (map_values value_in (sort_by text_le out)) k
        (map_values-IsUnique value_in (sort_by text_le out) unique)
      ∙ find-map_values value_in (sort_by text_le out) k
      ∙ ap (map_some value_in) (same k)
      ∙ map_values_twice m.entries k

  concept_back :
      (c : Concept)
      → IsUnique c.properties.entries
      → SameConcept (concept_in (concept_out text_le c)) c
  unfolding concept_in concept_out
  concept_back c u = (refl, refl, refl, refl, sorted_back c.properties u)

  relation_back :
      (r : Relation)
      → IsUnique r.properties.entries
      → SameRelation (relation_in (relation_out text_le r)) r
  unfolding relation_in relation_out
  relation_back r u = (refl, refl, refl, refl, refl, sorted_back r.properties u)

  rule_back : (r : Rule) → IsUnique r.properties.entries → SameRule (rule_in (rule_out text_le r)) r
  unfolding rule_in rule_out
  rule_back r u = (refl, refl, refl, refl, refl, refl, refl, refl, sorted_back r.properties u)

  action_back :
      (a : Action) → IsUnique a.parameters.entries → SameAction (action_in (action_out text_le a)) a
  unfolding action_in action_out
  action_back a u = (refl, refl, refl, refl, refl, refl, refl, sorted_back a.parameters u)

  record_back :
      (k : RecordKind)
      → IsUnique (properties_of k).entries
      → SameRecord (record_in (record_out text_le k)) k
  unfolding record_in record_out
  record_back (RecordKind.ontology o) u = ontology o
  record_back (RecordKind.concept c) u = concept _ c (concept_back c u)
  record_back (RecordKind.relation r) u = relation _ r (relation_back r u)
  record_back (RecordKind.update_relation r) u = update_relation _ r (relation_back r u)
  record_back (RecordKind.update_concept c) u = update_concept _ c (concept_back c u)
  record_back (RecordKind.delete_concept id) u = delete_concept id
  record_back (RecordKind.delete_relation id) u = delete_relation id
  record_back (RecordKind.rule r) u = rule _ r (rule_back r u)
  record_back (RecordKind.action a) u = action _ a (action_back a u)
  record_back (RecordKind.delete_rule id) u = delete_rule id
  record_back (RecordKind.delete_action id) u = delete_action id
  record_back (RecordKind.relation_exact r) u = relation_exact _ r (relation_back r u)

-- The records whose types the module keeps frozen for a format that is positional: all but the
-- ontology, which embeds the types of the graph.
abbrev pub is_frozen : StoredRecord → Bool
is_frozen (StoredRecord.ontology o) = false
is_frozen _ = true

-- What is documented of the positional format: bytes that were written of a frozen type read back.
pub record AreFormats (f : Formats) : Type 0 where
  pub postcard :
      (stored : StoredRecord) (bytes : List ℕ)
      → is_frozen stored ≡ true
      → f.postcard_to_vec stored ≡ ok bytes
      → f.postcard_from_bytes bytes ≡ ok stored

record_out-is_frozen :
    (text_le : String → String → Bool) (kind : RecordKind)
    → is_ontology kind ≡ false
    → is_frozen (record_out text_le kind) ≡ true
unfolding record_out
record_out-is_frozen text_le (RecordKind.ontology o) h = absurd (ground (arith, h))
record_out-is_frozen text_le _ h = refl

-- What `encode` has written with a codec, and how it reads.
pub data ReadsBack (f : Formats) (kind : RecordKind) (bytes : List ℕ) : ℕ → Type 0 where
  by_json :
      f.json_to_vec kind ≡ ok bytes
      → decode f codec_json bytes ≡ map_err codec_json (f.json_from_slice bytes) decode_failed
      → ReadsBack f kind bytes codec_json
  by_postcard :
      (kind' : RecordKind)
      → is_ontology kind ≡ false
      → decode f codec_postcard bytes ≡ ok kind'
      → SameRecord kind' kind
      → ReadsBack f kind bytes codec_postcard

by_postcard_lem :
    (f : Formats) (kind : RecordKind) (bytes : List ℕ)
    → AreFormats f
    → IsUnique (properties_of kind).entries
    → is_ontology kind ≡ false
    → f.postcard_to_vec (record_out f.text_le kind) ≡ ok bytes
    → ReadsBack f kind bytes codec_postcard
by_postcard_lem f kind bytes formats u o wrote =
    let back =
      formats.postcard (record_out f.text_le kind) bytes (record_out-is_frozen f.text_le kind o)
        wrote in
    by_postcard (record_in (record_out f.text_le kind)) o (unfold decode in ground (arith, back))
      (record_back f.text_le kind u)

-- With a positional format that reads back what it writes of the frozen types, and a map in which no
-- key stands twice: bytes that `encode` makes have a known codec and a record that `check_finite` accepts.
-- With postcard the record is not an ontology, and `decode` reads it back as the same record, up to
-- the order of the maps in it. With JSON the bytes are those of the JSON library for the record, and
-- `decode` answers what that library reads in them.
pub decode-encode :
    (f : Formats) (codec : ℕ) (kind : RecordKind) (bytes : List ℕ)
    → AreFormats f
    → IsUnique (properties_of kind).entries
    → encode f codec kind ≡ ok bytes
    → (check_finite kind ≡ ok tt) × ReadsBack f kind bytes codec
decode-encode f codec kind bytes formats u h = elim (Result-cases (check_finite kind)) [
  | inr (x, c) ↦ absurd (unfold encode in ground (arith, c, h))
  | inl (_, c) ↦ (
    c,
    elim (Bool-cases (codec == codec_json)) [
      | inl j ↦
          let known : codec_json ≡ codec = ground (arith, j) in
          subst (ReadsBack f kind bytes) known
            (by_json (unfold encode in ground (arith, c, j, h)) (unfold decode in refl))
      | inr j ↦ elim (Bool-cases (codec == codec_postcard)) [
        | inr q ↦ absurd (unfold encode in ground (arith, c, j, q, h))
        | inl q ↦
            let known : codec_postcard ≡ codec = ground (arith, q) in
            elim (Bool-cases (is_ontology kind)) [
              | inl o ↦ absurd (unfold encode in ground (arith, c, j, q, o, h))
              | inr o ↦ subst (ReadsBack f kind bytes) known (
                  by_postcard_lem f kind bytes formats u o
                    (unfold encode in ground (arith, c, j, q, o, h)))
            ]
      ]
    ],
  )
]

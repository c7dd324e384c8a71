-- ===== src/Storage/Codec.antt =====
-- crates/storage/src/codec.rs: the two codecs of payloads. `serde_json` and `postcard` are
-- parameters, with `text_le` the standard library's order of strings. A float is the number of its
-- bit pattern. The texts of the messages are not kept.
pub mod RoundTrip
use ai_ontology_com.Common.{
  ℕ, ◌-◌, ◌%◌, ◌/◌, ◌^◌, String, Bool, true, false, not, ◌||◌, List, [], ◌∷◌, Option, none, some,
  ◌==◌, nat_eq, string_eq, if◌then◌else◌, contains,
}
use ai_ontology_com.Common.Map
use ai_ontology_com.Common.Map.{Map}
use ai_ontology_com.Common.Map.Collect.{map_values, sort_by, collect}
use ai_ontology_com.Common.Result.{Result, ok, err, ◌>>=◌}
use ai_ontology_com.Graph.Model.{
  PropertyValue, PropertyValues, Properties, Concept, Relation, Rule, Action,
}
use ai_ontology_com.Graph.Schema.{Ontology}
use ai_ontology_com.Segment.Header.{format_version, format_version_codecs}
use ai_ontology_com.Segment.Kind.{is_meta}
use ai_ontology_com.Storage.Log.{RecordKind, kind_of}
use ai_ontology_com.Storage.Mirror.{StoredRecord, record_in, record_out}

abbrev pub codec_json : ℕ
codec_json = 0

abbrev pub codec_postcard : ℕ
codec_postcard = 1

abbrev pub known_codecs : List ℕ
known_codecs = codec_json ∷ codec_postcard ∷ []

unfoldable pub is_known : ℕ → Bool
is_known codec = contains known_codecs codec

pub data CodecError : Type 0 where
  unknown : ℕ → CodecError
  not_finite : CodecError
  json_only : CodecError
  encode_failed decode_failed : ℕ → String → CodecError

unfoldable pub format_version_for : ℕ → ℕ
format_version_for codec = if codec == codec_json then format_version else format_version_codecs

-- Records of the `meta` stream stay JSON.
unfoldable pub codec_for : RecordKind → ℕ → ℕ
codec_for kind store_codec = if is_meta (kind_of kind) then codec_json else store_codec

-- The exponent of an `f64` (11 bits) or an `f32` (8 bits) is not all ones.
unfoldable pub is_finite64 : ℕ → Bool
is_finite64 bits = not (bits / 2 ^ 52 % 2 ^ 11 == 2 ^ 11 - 1)

unfoldable pub is_finite32 : ℕ → Bool
is_finite32 bits = not (bits / 2 ^ 23 % 2 ^ 8 == 2 ^ 8 - 1)

unfoldable mutual
  unfolding is_finite64

  pub walk : PropertyValue → Result CodecError (Unit {0})
  walk (PropertyValue.text t) = ok tt
  walk (PropertyValue.number n) = if is_finite64 n then ok tt else err not_finite
  walk (PropertyValue.bool b) = ok tt
  walk (PropertyValue.list items) = walk_all items

  pub walk_all : PropertyValues → Result CodecError (Unit {0})
  walk_all PropertyValues.nil = ok tt
  walk_all (PropertyValues.cons v vs) = walk v >>= λ _. walk_all vs

unfoldable pub check_props : List (String × PropertyValue) → Result CodecError (Unit {0})
check_props [] = ok tt
check_props ((k, v) ∷ l) = walk v >>= λ _. check_props l

abbrev check_relation : Relation → Result CodecError (Unit {0})
check_relation r = if is_finite32 r.weight then check_props r.properties.entries else err not_finite

unfoldable pub check_finite : RecordKind → Result CodecError (Unit {0})
check_finite (RecordKind.concept c) = check_props c.properties.entries
check_finite (RecordKind.update_concept c) = check_props c.properties.entries
check_finite (RecordKind.relation r) = check_relation r
check_finite (RecordKind.update_relation r) = check_relation r
check_finite (RecordKind.relation_exact r) = check_relation r
check_finite (RecordKind.rule r) = check_props r.properties.entries
check_finite (RecordKind.action a) = check_props a.parameters.entries
check_finite _ = ok tt

abbrev pub is_ontology : RecordKind → Bool
is_ontology (RecordKind.ontology o) = true
is_ontology _ = false

abbrev pub map_err {ℓ} :
    {A : Type ℓ} → ℕ → Result String A → (ℕ → String → CodecError) → Result CodecError A
map_err codec (ok a) f = ok a
map_err codec (err e) f = err (f codec e)

-- The two formats, and the order of strings
pub record Formats : Type 0 where
  pub json_to_vec : RecordKind → Result String (List ℕ)
  pub json_from_slice : List ℕ → Result String RecordKind
  pub postcard_to_vec : StoredRecord → Result String (List ℕ)
  pub postcard_from_bytes : List ℕ → Result String StoredRecord
  pub text_le : String → String → Bool

unfoldable pub encode : Formats → ℕ → RecordKind → Result CodecError (List ℕ)
encode f codec kind = do
  _ ← check_finite kind
  if codec == codec_json
      then map_err codec_json (f.json_to_vec kind) encode_failed
      else if codec == codec_postcard
      then (if is_ontology kind
          then err json_only
          else map_err codec_postcard (f.postcard_to_vec (record_out f.text_le kind)) encode_failed)
      else err (unknown codec)

unfoldable pub decode : Formats → ℕ → List ℕ → Result CodecError RecordKind
decode f codec payload =
    if codec == codec_json
    then map_err codec_json (f.json_from_slice payload) decode_failed
    else if codec == codec_postcard
    then (do
      stored ← map_err codec_postcard (f.postcard_from_bytes payload) decode_failed
      ok (record_in stored))
    else err (unknown codec)

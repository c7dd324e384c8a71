-- ===== src/Storage/Examples.antt =====
-- crates/storage/src: small records, manifests and budgets, and the theorems at them.
use ai_ontology_com.Common.{
  ℕ, ◌-◌, ◌<◌, ◌≡◌, ◌≢◌, refl, String, true, false, List, [], ◌∷◌, none, some, arith, ◌^◌, ◌&&◌,
  ◌==◌, string_eq, ==_iff, if◌then◌else◌,
}
use ai_ontology_com.Common.Result.{Result, ok, err}
use ai_ontology_com.Common.Map
use ai_ontology_com.Common.Map.Collect.{sort_by}
use ai_ontology_com.Common.Find.{max_by}
use ai_ontology_com.Graph.Model.{Concept, PropertyValue}
use ai_ontology_com.Storage.Log.{RecordKind}
use ai_ontology_com.Storage.Mirror.{StoredRecord, StoredValue, record_out, concept_out, props_out}
use ai_ontology_com.Storage.Codec.{Formats, encode, check_finite, check_props, walk, codec_postcard}
use ai_ontology_com.Storage.Codec.RoundTrip.{AreFormats, ReadsBack, decode-encode}
use ai_ontology_com.Storage.Manifest.{
  Manifest, NsEntry, new_manifest, intern_ns, ns_id, ns_name, retire_ns,
}
use ai_ontology_com.Storage.Manifest.Frozen.{
  done, then_step, intern_domain, retire, Frozen, intern_ns-ns_id,
}
use ai_ontology_com.Storage.Manifest.Apart.{IsApart, IsReadBack, Run-Frozen}
use ai_ontology_com.Storage.Budget.{DomainEstimate, fixed}
use ai_ontology_com.Storage.Budget.Plan.{LoadPlan, plan_load, adaptive, strict}
use ai_ontology_com.Storage.Budget.Fits.{Keeps, plan_load-Keeps}
use ai_ontology_com.Storage.Budget.Strict.{Answer, plan_load-strict}

-- Formats that write nothing but deletions and concepts without texts and with at most one property,
-- a number.
unfoldable json_out : RecordKind → Result String (List ℕ)
json_out (RecordKind.delete_concept id) = ok (id ∷ [])
json_out _ = err "not a deletion"

unfoldable json_in : List ℕ → Result String RecordKind
json_in (id ∷ []) = ok (RecordKind.delete_concept id)
json_in _ = err "not one number"

unfoldable number_of : List (String × StoredValue) → ℕ → Result String (List ℕ)
number_of ((k, StoredValue.number n) ∷ []) id =
    if k == "population" then ok (id ∷ (n ∷ [])) else err "another property"
number_of _ id = err "not one number"

unfoldable postcard_out : StoredRecord → Result String (List ℕ)
unfolding number_of
postcard_out (StoredRecord.concept c) =
    if c.concept_type == "City" && c.name == "Metz" && c.description == ""
    then number_of c.properties c.id
    else err "another concept"
postcard_out _ = err "not a concept"

unfoldable postcard_in : List ℕ → Result String StoredRecord
postcard_in (id ∷ (n ∷ [])) = ok (
    StoredRecord.concept (record {
      id = id;
      concept_type = "City";
      name = "Metz";
      description = "";
      properties = ("population", StoredValue.number n) ∷ [];
    }))
postcard_in _ = err "not two numbers"

abbrev formats : Formats
formats = record {
  json_to_vec = json_out;
  json_from_slice = json_in;
  postcard_to_vec = postcard_out;
  postcard_from_bytes = postcard_in;
  text_le = λ _ _. true;
}

number_of_lem :
    (props : List (String × StoredValue)) (id : ℕ) (bytes : List ℕ)
    → number_of props id ≡ ok bytes
    → (n : ℕ) × (bytes ≡ id ∷ (n ∷ [])) × (props ≡ ("population", StoredValue.number n) ∷ [])
unfolding number_of
number_of_lem ((k, StoredValue.number n) ∷ []) id bytes h =
    (n, ground (arith, h), ground (arith, h, ==_iff k "population"))
number_of_lem _ id bytes h = absurd (ground (arith, h))

postcard_back :
    (stored : StoredRecord) (bytes : List ℕ)
    → postcard_out stored ≡ ok bytes
    → postcard_in bytes ≡ ok stored
unfolding postcard_out postcard_in
postcard_back (StoredRecord.concept c) bytes h =
    let (n, b, p) = number_of_lem c.properties c.id bytes (ground (arith, h)) in
    ground
      (arith, h, b, p, ==_iff c.concept_type "City", ==_iff c.name "Metz", ==_iff c.description "")
postcard_back _ bytes h = absurd (ground (arith, h))

formats-AreFormats : AreFormats formats
formats-AreFormats = record { postcard = λ stored bytes _ h. postcard_back stored bytes h }

abbrev city : Concept
city = record {
  id = 7;
  concept_type = "City";
  name = "Metz";
  description = "";
  properties = record { entries = ("population", PropertyValue.number 120000) ∷ [] };
}

city_encoded : encode formats codec_postcard (RecordKind.concept city) ≡ ok (7 ∷ (120000 ∷ []))
unfolding encode check_finite postcard_out record_out concept_out props_out sort_by check_props walk
city_encoded = refl

decode-encode_example :
    (check_finite (RecordKind.concept city) ≡ ok tt)
    × ReadsBack formats (RecordKind.concept city) (7 ∷ (120000 ∷ [])) codec_postcard
unfolding Map.find
decode-encode_example =
    decode-encode formats codec_postcard (RecordKind.concept city) (7 ∷ (120000 ∷ []))
      formats-AreFormats (refl, tt) city_encoded

abbrev books : Manifest
books = new_manifest 0

abbrev more_books : Manifest
more_books = (intern_ns books "photos").1

books_room : max_by (λ (e : NsEntry). e.id) books.ns < 2 ^ 16 - 1
unfolding new_manifest
books_room = ground arith

books-IsApart : IsApart books
unfolding new_manifest
books-IsApart = record { ids = (refl, (refl, tt)); syms = tt }

Run-Frozen_example :
    Frozen books (retire_ns more_books 2)
    × IsApart (retire_ns more_books 2)
    × IsReadBack (retire_ns more_books 2)
Run-Frozen_example = Run-Frozen books (retire_ns more_books 2) books-IsApart (
    then_step more_books (retire_ns more_books 2)
      (then_step books more_books done (intern_domain "photos" books_room)) (retire 2))

intern_ns-ns_id_example :
    (ns_id (intern_ns books "photos").1 "photos" ≡ some (intern_ns books "photos").0.0)
    × ((intern_ns books "photos").0.1 ≡ true
        → (ns_id books "photos" ≡ none)
          × (ns_name books (intern_ns books "photos").0.0 ≡ none)
          × (ns_name (intern_ns books "photos").1 (intern_ns books "photos").0.0 ≡ some "photos"))
    × ((intern_ns books "photos").0.1 ≡ false → (intern_ns books "photos").1 ≡ books)
    × ((other : String)
        → other ≢ "photos"
        → ns_id (intern_ns books "photos").1 other ≡ ns_id books other)
intern_ns-ns_id_example = intern_ns-ns_id books "photos" books_room

abbrev small : DomainEstimate
small = record {
  ns_id = 1;
  ns = "default";
  records = 1;
  edges = 0;
  payload_bytes = 10;
  estimated_bytes = 100;
}

abbrev large : DomainEstimate
large = record {
  ns_id = 2;
  ns = "photos";
  records = 9;
  edges = 0;
  payload_bytes = 900;
  estimated_bytes = 950;
}

plan_load-Keeps_example :
    (plan : LoadPlan) × (domains : List String) × (plan_load
        (λ _ _. true)
        (λ n. n)
        (λ n. n)
        (large ∷ small ∷ [])
        (fixed 200)
        adaptive
        none
      ≡ some (ok plan))
    × Keeps 200 (large ∷ small ∷ []) domains plan
plan_load-Keeps_example =
    plan_load-Keeps (λ _ _. true) (λ n. n) (λ n. n) (large ∷ small ∷ []) (fixed 200) 200
      (unfold fixed in refl) (unfold fixed in refl) (ground arith) (ground arith)
      (omega arith, (omega arith, tt)) (refl, (refl, tt))

plan_load-strict_example : Answer 200 (large ∷ small ∷ []) (some ("default" ∷ [])) (
    plan_load
      (λ _ _. true)
      (λ n. n)
      (λ n. n)
      (large ∷ small ∷ [])
      (fixed 200)
      strict
      (some ("default" ∷ [])))
plan_load-strict_example =
    plan_load-strict (λ _ _. true) (λ n. n) (λ n. n) (large ∷ small ∷ []) (fixed 200) 200
      (some ("default" ∷ [])) (unfold fixed in refl) (ground arith)

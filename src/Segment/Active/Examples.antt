-- ===== src/Segment/Active/Examples.antt =====
-- crates/storage/src/segment: a segment that is written, sealed and searched, and the theorems at it.
use ai_ontology_com.Common.{
  ℕ, ◌+◌, ◌%◌, ◌^◌, ◌≤◌, ◌<◌, ◌≡◌, ◌↔◌, refl, List, [], ◌∷◌, ◌++◌, Option, none, some, arith,
  length, take, All,
}
use ai_ontology_com.Common.Result.{ok}
use ai_ontology_com.Segment.Kind.{Kind, concept}
use ai_ontology_com.Segment.Header.{IsDataHeader, new_data_header}
use ai_ontology_com.Segment.Record.{encode_header, padded_len, record_span}
use ai_ontology_com.Segment.Index.{IdxEntry, IsEntry}
use ai_ontology_com.Segment.Recover.{IndexFields, Recovered, recover_segment, entry_for}
use ai_ontology_com.Segment.Recover.Log.{Written, IsWritten, bytes_of, last_seq_of}
use ai_ontology_com.Segment.Active.{ActiveSegment, create, commit, seal}
use ai_ontology_com.Segment.Active.Durable.{
  Log, whole, record_for, header_of_segment, entries_of, appended, create-Holds, append-Holds,
  commit-Holds,
}
use ai_ontology_com.Segment.Active.Refines.{
  Op, add, flush, run, log_run, nothing_logged, AreAllowed, Related, run-create,
}
use ai_ontology_com.Segment.Active.Crash.{IsCutShort, recover_segment-crash}
use ai_ontology_com.Segment.Sealed.{SealedSegment, open_sealed, entry, find_seq}
use ai_ontology_com.Segment.Sealed.Search.{IsAscending, find_seq_lem}
use ai_ontology_com.Segment.Sealed.Logged.{open_sealed-IsAscending}
use ai_ontology_com.Segment.Sealed.Positions.{nth}
use ai_ontology_com.Segment.Sealed.Open.{open_sealed-seal}

abbrev byte_count : List ℕ → ℕ
byte_count bytes = length bytes

abbrev fields : IndexFields
fields = record { ns_id = 1; entity_id = 7; endpoints = 0; rtype_sym = 0; target_ns_id = 0 }

abbrev resolve : Kind → ℕ → List ℕ → Option IndexFields
resolve _ _ _ = some fields

abbrev ops : List Op
ops =
    add 10 1000 concept 0 (7 ∷ 8 ∷ 9 ∷ []) fields
    ∷ (flush ∷ (add 11 1001 concept 0 (1 ∷ []) fields ∷ []))

abbrev first_record : Written
first_record = record_for byte_count resolve 10 1000 concept 0 (7 ∷ 8 ∷ 9 ∷ []) fields

abbrev second_record : Written
second_record = record_for byte_count resolve 11 1001 concept 0 (1 ∷ []) fields

first_record-IsWritten : IsWritten byte_count resolve first_record
first_record-IsWritten = record {
  header = record {
    seq = omega arith;
    ts_micros = omega arith;
    payload_len = omega arith;
    crc = omega arith;
    codec = omega arith;
    flags = omega arith;
  };
  payload_len = refl;
  crc = refl;
  resolves = refl;
}

second_record-IsWritten : IsWritten byte_count resolve second_record
second_record-IsWritten = record {
  header = record {
    seq = omega arith;
    ts_micros = omega arith;
    payload_len = omega arith;
    crc = omega arith;
    codec = omega arith;
    flags = omega arith;
  };
  payload_len = refl;
  crc = refl;
  resolves = refl;
}

spans : (record_span 3 ≡ 40) × (record_span 1 ≡ 40)
unfolding record_span padded_len
spans = (refl, refl)

sizes : (length (bytes_of (first_record ∷ [])) ≡ 40) × (length (bytes_of (second_record ∷ [])) ≡ 40)
unfolding padded_len encode_header
sizes = (refl, refl)

ops-AreAllowed : AreAllowed byte_count resolve nothing_logged ops
ops-AreAllowed = (
  (first_record-IsWritten, refl, omega (arith, spans.0)),
  (tt, ((second_record-IsWritten, refl, omega (arith, spans.1, sizes.0)), tt)),
)

run-create_example :
    (s : ActiveSegment) × (run byte_count (create 3 10 0) ops ≡ some s)
    × Related byte_count resolve s (log_run byte_count resolve nothing_logged ops)
run-create_example = run-create byte_count resolve 3 10 0 ops ops-AreAllowed

-- The segment after the three operations.
abbrev one_buffered : ActiveSegment
one_buffered = appended byte_count resolve (create 3 10 0) first_record

abbrev one_durable : ActiveSegment
one_durable = (commit one_buffered).1

abbrev written : ActiveSegment
written = appended byte_count resolve one_durable second_record

abbrev logged : Log
logged = record { durable = first_record ∷ []; buffered = second_record ∷ [] }

written-Related : Related byte_count resolve written logged
written-Related = record {
  holds =
      append-Holds byte_count resolve one_durable (first_record ∷ []) [] second_record
        (first_record-IsWritten, refl, tt)
        (commit-Holds byte_count resolve one_buffered [] (first_record ∷ [])
          (first_record-IsWritten, refl, tt)
          (append-Holds byte_count resolve (create 3 10 0) [] [] first_record tt
            (create-Holds byte_count resolve 3 10 0)));
  log = (first_record-IsWritten, refl, (second_record-IsWritten, refl, tt));
}

written-IsDataHeader :
    IsDataHeader (new_data_header written.partition_id written.base_seq written.codec)
unfolding commit create new_data_header
written-IsDataHeader = record {
  version = omega arith;
  codec = omega arith;
  flags = omega arith;
  partition_id = omega arith;
  base_seq = omega arith;
}

synced_part : written.synced ≤ 100
unfolding commit
synced_part = omega (arith, written-Related.holds.synced, sizes.0)

recover_segment-crash_example :
    (front back : List Written) × (report : Recovered) × (idx' : Option (List ℕ)) × (second_record
        ∷ []
      ≡ front ++ back)
    × (32 + length (bytes_of (first_record ∷ front)) ≤ 100)
    × IsCutShort 100 32 (first_record ∷ front) back
    × (report.count ≡ length (first_record ∷ front) % 2 ^ 32)
    × (report.last_seq ≡ last_seq_of byte_count resolve none (first_record ∷ front))
    × (recover_segment byte_count resolve written.partition_id
          (take 100 written.data_file.file)
          none
        ≡ ok (report, header_of_segment written ++ bytes_of (first_record ∷ front), idx'))
recover_segment-crash_example =
    recover_segment-crash byte_count resolve written logged 100 none written-Related
      written-IsDataHeader synced_part

entries-IsEntry : All IsEntry (entries_of 32 (whole logged))
unfolding entry_for record_span padded_len
entries-IsEntry = (omega arith, (omega arith, tt))

room : 32 + length (bytes_of (whole logged)) < 2 ^ 64
unfolding padded_len encode_header
room = omega arith

open_sealed-seal_example :
    (t : SealedSegment) × (open_sealed written.partition_id (seal written).0 (seal written).1
      ≡ ok t)
    × (t.count ≡ 2)
    × ((i : ℕ)
        → i < 2
        → (e : IdxEntry) × (nth (entries_of 32 (whole logged)) i ≡ some e) × (entry t i ≡ some e))
open_sealed-seal_example =
    open_sealed-seal byte_count resolve written logged written-Related written-IsDataHeader
      (omega arith) room entries-IsEntry

abbrev opened : SealedSegment
opened =
    (open_sealed-IsAscending byte_count resolve written logged written-Related written-IsDataHeader
      (omega arith) room entries-IsEntry).0

opened-IsAscending : IsAscending opened
opened-IsAscending =
    (open_sealed-IsAscending byte_count resolve written logged written-Related written-IsDataHeader
      (omega arith) room entries-IsEntry).2

find_seq_lem_example :
    (find_seq opened 11 ≡ some 1) ↔ ((e : IdxEntry) × (entry opened 1 ≡ some e) × (e.seq ≡ 11))
find_seq_lem_example = find_seq_lem opened 11 1 opened-IsAscending

-- ===== src/Segment/Examples.antt =====
-- crates/storage/src/segment: a small segment, and the theorems at it.
use ai_ontology_com.Common.{
  false, ℕ, ◌+◌, ◌%◌, ◌^◌, ◌<◌, ◌≡◌, ◌≢◌, ◌↔◌, refl, true, List, [], ◌∷◌, ◌++◌, Option, none, some,
  arith, length, inr, replicate, take, drop,
}
use ai_ontology_com.Common.Result.{ok, err}
use ai_ontology_com.Segment.Bytes.{bad_magic, unknown_kind, crc_mismatch, to_le_bytes, need}
use ai_ontology_com.Segment.Kind.{Kind, concept, relation, to_u8, from_u8, from_u8_iff}
use ai_ontology_com.Segment.Header.{
  new_idx_header, DataHeader, IdxHeader, IsDataHeader, encode_data_header, decode_data_header,
  encode_idx_header, decode_idx_header, data_magic, idx_magic,
}
use ai_ontology_com.Segment.Header.RoundTrip.{
  decode_data_header-encode, decode_idx_header-encode, decode_data_header-encode_idx,
}
use ai_ontology_com.Segment.Record.{
  RecordHeader, encode_record, decode_record, header_for, encode_header, padded_len, record_span,
  decode_header, header_of,
}
use ai_ontology_com.Segment.Record.RoundTrip.{record_bytes, decode_record-encode_record}
use ai_ontology_com.Segment.Index.{
  IdxEntry, IsEntry, encode_entries, decode_entry, file_offset, count_in, pack_endpoints,
  unpack_endpoints, unpack_endpoints-pack_endpoints,
}
use ai_ontology_com.Segment.Index.Positions.{decode_entry-file_offset, count_in-length}
use ai_ontology_com.Segment.Recover.{
  header_matches, reconcile, IndexFields, ScanState, Reason, corrupt, valid_records_follow,
  out_of_fuel, start, scan, step, recover_segment,
}
use ai_ontology_com.Segment.Recover.Scan.{IsScanned, scan-IsScanned, scan-ne-out_of_fuel}
use ai_ontology_com.Segment.Recover.Log.{Written, bytes_of, IsWritten, IsLog}
use ai_ontology_com.Segment.Recover.TornTail.{IsTail, recover_segment-torn}
use ai_ontology_com.Segment.Recover.Rebuild.{reconcile-rebuilt}
use mathlib.Core.Option.{get_or}
use ai_ontology_com.Segment.Recover.Corrupt.{recover_segment-corrupt}

-- A checksum that is easy to follow: the number of bytes.
abbrev byte_count : List ℕ → ℕ
byte_count bytes = length bytes

abbrev some_fields : IndexFields
some_fields = record { ns_id = 1; entity_id = 5; endpoints = 0; rtype_sym = 0; target_ns_id = 1 }

abbrev resolve_all : Kind → ℕ → List ℕ → Option IndexFields
resolve_all kind codec payload = some some_fields

abbrev file_header : DataHeader
file_header = record { version = 1; codec = 0; flags = 0; partition_id = 3; base_seq = 10 }

abbrev first : RecordHeader
first = record {
  seq = 10;
  ts_micros = 1000;
  payload_len = 3;
  crc = 3;
  kind = concept;
  codec = 0;
  flags = 0;
}

abbrev written : Written
written = record { header = first; payload = 7 ∷ 8 ∷ 9 ∷ []; fields = some_fields }

abbrev damaged : RecordHeader
damaged = record first { seq = 11; crc = 99 }

abbrev idx_header : IdxHeader
idx_header = record { version = 1; entry_size = 48; partition_id = 3; base_seq = 10; count = 2 }

abbrev entry : IdxEntry
entry = record {
  seq = 10;
  offset = 32;
  payload_len = 3;
  kind = concept;
  flags = 0;
  ns_id = 1;
  entity_id = 5;
  endpoints = 0;
  rtype_sym = 0;
  target_ns_id = 1;
}

abbrev last_entry : IdxEntry
last_entry = record entry { seq = 11; offset = 72; kind = relation }

abbrev segment : List ℕ
segment = encode_data_header file_header ++ record_bytes first (7 ∷ 8 ∷ 9 ∷ [])

abbrev scanned : ScanState
scanned = record { at = 72; entries = entry ∷ []; last_seq = some 10 }

file_header-IsDataHeader : IsDataHeader file_header
file_header-IsDataHeader = omega arith

first-IsWritten : IsWritten byte_count resolve_all written
first-IsWritten = record { header = omega arith; payload_len = refl; crc = refl; resolves = refl }

written-IsLog : IsLog byte_count resolve_all none (written ∷ [])
written-IsLog = (first-IsWritten, refl, tt)

-- The first 20 of the 40 bytes of a record
abbrev torn_bytes : List ℕ
torn_bytes = take 20 (record_bytes first (7 ∷ 8 ∷ 9 ∷ []))

torn-IsTail : IsTail byte_count resolve_all torn_bytes
unfolding encode_header padded_len to_le_bytes to_u8
torn-IsTail = inr (
  written,
  first-IsWritten,
  record {
    missing = drop 20 (record_bytes first (7 ∷ 8 ∷ 9 ∷ []));
    whole = refl;
    incomplete = omega arith;
    begun = omega arith;
  },
)

entry-IsEntry : IsEntry entry
entry-IsEntry = omega arith

last_entry-IsEntry : IsEntry last_entry
last_entry-IsEntry = omega arith

segment-scan : scan byte_count resolve_all 72 segment [] start ≡ ok (scanned, none)
unfolding scan encode_data_header encode_header padded_len step decode_record decode_header need
    header_of from_u8 record_span
segment-scan = refl

start-IsScanned : IsScanned byte_count resolve_all segment [] start
unfolding encode_data_header encode_header padded_len
start-IsScanned = record {
  within = omega arith;
  chain = refl;
  ascending = tt;
  last = tt;
  described = tt;
}

recover_segment-torn_example :
    (idx' : Option (List ℕ)) × (n : ℕ) × (recover_segment byte_count resolve_all 3
        (encode_data_header file_header ++ (bytes_of (written ∷ []) ++ torn_bytes))
        none
      ≡ ok (
        record {
          header = file_header;
          data_len = 32 + length (bytes_of (written ∷ []));
          count = 1 % 2 ^ 32;
          last_seq = some 10;
          truncated_bytes = length torn_bytes;
          idx_rewritten = n;
        },
        encode_data_header file_header ++ bytes_of (written ∷ []),
        idx',
      ))
recover_segment-torn_example =
    recover_segment-torn byte_count resolve_all 3 file_header (written ∷ []) torn_bytes none
      file_header-IsDataHeader refl written-IsLog torn-IsTail

-- Thirteen bytes behind the damaged record
recover_segment-corrupt_example :
    recover_segment byte_count resolve_all 3
      (encode_data_header file_header
        ++ (bytes_of (written ∷ []) ++ (record_bytes damaged (7 ∷ 8 ∷ 9 ∷ []) ++ replicate 13 0)))
      none
    ≡ err (
        valid_records_follow (
          corrupt
            (32 + length (bytes_of (written ∷ [])))
            (crc_mismatch (32 + length (bytes_of (written ∷ []))) 99 3)))
recover_segment-corrupt_example =
    recover_segment-corrupt byte_count resolve_all damaged (7 ∷ 8 ∷ 9 ∷ []) (omega arith) refl
      (omega arith) 3 file_header (written ∷ []) (replicate 13 0) none file_header-IsDataHeader refl
      written-IsLog (omega arith)

scan-IsScanned_example :
    IsScanned byte_count resolve_all segment [] scanned
    × (◌≡◌ {A = Option Reason} none none → scanned.at ≡ length segment)
scan-IsScanned_example =
    scan-IsScanned byte_count resolve_all segment [] 72 start scanned none start-IsScanned
      segment-scan

scan-ne-out_of_fuel_example : scan byte_count resolve_all 40 segment [] start ≢ err out_of_fuel
scan-ne-out_of_fuel_example =
    scan-ne-out_of_fuel byte_count resolve_all segment [] 40 start
      (unfold encode_data_header encode_header padded_len in omega arith)

decode_record-encode_record_example :
    (out' : List ℕ) × (encode_record byte_count (1 ∷ []) 10 1000 concept 0 (7 ∷ 8 ∷ 9 ∷ [])
      ≡ some (out', record_span 3))
    × (length out' ≡ 1 + record_span 3)
    × (decode_record byte_count (out' ++ (5 ∷ [])) 1 true
        ≡ ok (record {
          header = header_for byte_count 10 1000 concept 0 (7 ∷ 8 ∷ 9 ∷ []);
          payload = 7 ∷ 8 ∷ 9 ∷ [];
          offset = 1;
          next = length out';
        }))
decode_record-encode_record_example =
    decode_record-encode_record byte_count (1 ∷ []) (5 ∷ []) (7 ∷ 8 ∷ 9 ∷ []) 10 1000 0 concept true
      (omega arith) (omega arith) (omega arith) (omega arith) (omega arith)

decode_entry-file_offset_example :
    decode_entry
      (encode_idx_header idx_header ++ (encode_entries (entry ∷ last_entry ∷ []) ++ (9 ∷ [])))
      (file_offset 1)
    ≡ ok last_entry
decode_entry-file_offset_example =
    decode_entry-file_offset (encode_idx_header idx_header) (9 ∷ []) (entry ∷ []) [] last_entry
      last_entry-IsEntry (unfold encode_idx_header in refl)

count_in-length_example :
    count_in (
      length
        (encode_idx_header idx_header ++ (encode_entries (entry ∷ last_entry ∷ []) ++ (9 ∷ []))))
    ≡ 2
count_in-length_example =
    count_in-length (encode_idx_header idx_header) (9 ∷ []) (entry ∷ last_entry ∷ [])
      (unfold encode_idx_header in refl) (omega arith)

unpack_endpoints-pack_endpoints_example :
    (unpack_endpoints (pack_endpoints 5 4000000000) ≡ (5, 4000000000))
    × (pack_endpoints 5 4000000000 < 2 ^ 64)
unpack_endpoints-pack_endpoints_example =
    unpack_endpoints-pack_endpoints 5 4000000000 (omega arith) (omega arith)

decode_data_header-encode_example :
    decode_data_header (encode_data_header file_header ++ (9 ∷ [])) ≡ ok file_header
decode_data_header-encode_example =
    decode_data_header-encode file_header (9 ∷ []) file_header-IsDataHeader

decode_idx_header-encode_example :
    decode_idx_header (encode_idx_header idx_header ++ (9 ∷ [])) ≡ ok idx_header
decode_idx_header-encode_example = decode_idx_header-encode idx_header (9 ∷ []) (omega arith)

decode_data_header-encode_idx_example :
    (decode_data_header (encode_idx_header idx_header ++ (9 ∷ []))
      ≡ err (bad_magic data_magic idx_magic))
    × (decode_idx_header (encode_data_header file_header ++ (9 ∷ []))
        ≡ err (bad_magic idx_magic data_magic))
decode_data_header-encode_idx_example =
    decode_data_header-encode_idx file_header idx_header (9 ∷ [])

from_u8_iff_example :
    ((k : Kind) → (from_u8 3 ≡ ok k) ↔ (to_u8 k ≡ 3))
    × ((from_u8 3 ≡ err (unknown_kind 3)) ↔ ((k : Kind) → to_u8 k ≢ 3))
from_u8_iff_example = from_u8_iff 3

foreign_header : header_matches (get_or (some (1 ∷ 2 ∷ [])) []) 3 10 ≡ false
unfolding header_matches decode_idx_header need
foreign_header = refl

reconcile-rebuilt_example :
    reconcile 3 file_header (some (1 ∷ 2 ∷ [])) (entry ∷ last_entry ∷ []) ≡ (
      some (encode_idx_header (new_idx_header 3 10 0) ++ encode_entries (entry ∷ last_entry ∷ [])),
      2,
    )
reconcile-rebuilt_example =
    reconcile-rebuilt 3 file_header (some (1 ∷ 2 ∷ [])) (entry ∷ last_entry ∷ []) foreign_header

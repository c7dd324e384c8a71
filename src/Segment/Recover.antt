-- ===== src/Segment/Recover.antt =====
-- crates/storage/src/segment/recover.rs: recovery of a segment that may have been interrupted in
-- the middle of a write. The two files are byte lists (`none`: the index is missing); reading,
-- writing and syncing them does not fail here. `crc32c` and `resolve` are parameters: the one
-- belongs to another package, the other to the store.
pub mod Scan
pub mod Log
pub mod Corrupt
pub mod TornTail
pub mod Rebuild
use mathlib.Core.Option.{get_or}
use ai_ontology_com.Common.{
  ℕ, zero, suc, ◌+◌, ◌-◌, ◌*◌, ◌%◌, ◌^◌, Bool, true, false, not, ◌&&◌, ◌||◌, List, [], ◌∷◌, ◌++◌,
  Option, none, some, ◌==◌, nat_eq, ltb, leb, if◌then◌else◌, length, take, drop, is_some,
}
use ai_ontology_com.Common.Result.{Result, ok, err, ◌>>=◌}
use ai_ontology_com.Segment.Bytes.{FormatError, truncated, resize}
use ai_ontology_com.Segment.Kind.{Kind, to_u8, from_u8}
use ai_ontology_com.Segment.Header.{
  DataHeader, IdxHeader, file_header_len, idx_entry_len, decode_data_header, decode_idx_header,
  new_idx_header, encode_idx_header,
}
use ai_ontology_com.Segment.Record.{
  RecordHeader, RecordView, record_span, decode_header, decode_record,
}
use ai_ontology_com.Segment.Index.{
  IdxEntry, encode_entry, encode_entries, decode_entry, file_offset, count_in,
}

pub record IndexFields : Type 0 where
  pub ns_id : ℕ
  pub entity_id : ℕ
  pub endpoints : ℕ
  pub rtype_sym : ℕ
  pub target_ns_id : ℕ

-- Why the scan stopped: the texts of the messages, with the offset of the record.
pub data Reason : Type 0 where
  does_not_decode : ℕ → Reason
  -- at, seq, previous
  stale_seq : ℕ → ℕ → ℕ → Reason
  torn corrupt : ℕ → FormatError → Reason

pub data RecoverError : Type 0 where
  bad_header : FormatError → RecoverError
  valid_records_follow : Reason → RecoverError
  unknown_extent : Reason → RecoverError
  -- no error of the program: the loop ran out of fuel
  out_of_fuel : RecoverError

pub record ScanState : Type 0 where
  pub at : ℕ
  pub entries : List IdxEntry
  pub last_seq : Option ℕ

pub data Next : Type 0 where
  go_on : ScanState → Next
  cut : Reason → Next

pub record Recovered : Type 0 where
  pub header : DataHeader
  pub data_len : ℕ
  pub count : ℕ
  pub last_seq : Option ℕ
  pub truncated_bytes : ℕ
  pub idx_rewritten : ℕ

unfoldable pub entry_for : RecordView → IndexFields → IdxEntry
entry_for v f = record {
  seq = v.header.seq;
  offset = v.offset;
  payload_len = v.header.payload_len;
  kind = v.header.kind;
  flags = 0;
  ns_id = f.ns_id;
  entity_id = f.entity_id;
  endpoints = f.endpoints;
  rtype_sym = f.rtype_sym;
  target_ns_id = f.target_ns_id;
}

abbrev pub is_ok {ℓ κ} : {E : Type ℓ} {A : Type κ} → Result E A → Bool
is_ok (ok a) = true
is_ok (err e) = false

-- The span of the record at `at`, from its header or else from the index entry in its place.
indexed_span : List ℕ → ScanState → Option ℕ
indexed_span idx_bytes s = elim (decode_entry idx_bytes (file_offset (length s.entries))) [
  | err e ↦ none
  | ok e ↦ if e.offset == s.at then some (record_span e.payload_len) else none
]

unfoldable pub span_at : List ℕ → List ℕ → ScanState → Option ℕ
unfolding indexed_span
span_at data_bytes idx_bytes s = elim (decode_header data_bytes s.at) [
  | err e ↦ indexed_span idx_bytes s
  | ok h ↦
      if is_ok (from_u8 (to_u8 h.kind))
      then some (record_span h.payload_len)
      else indexed_span idx_bytes s
]

-- A bad record is discarded only if it is the last one.
unfoldable pub refuse_unless_last : List ℕ → List ℕ → ScanState → Reason → Result RecoverError Next
refuse_unless_last data_bytes idx_bytes s what = elim (span_at data_bytes idx_bytes s) [
  | none ↦ err (unknown_extent what)
  | some span ↦
      if leb (length data_bytes) (s.at + span)
      then ok (cut what)
      else err (valid_records_follow what)
]

-- `v.header.seq <= prev`, where there is a previous record
abbrev pub is_stale : Option ℕ → ℕ → Bool
is_stale none seq = false
is_stale (some prev) seq = leb seq prev

abbrev pub previous : Option ℕ → ℕ
previous none = 0
previous (some prev) = prev

abbrev pub start : ScanState
start = record { at = file_header_len; entries = []; last_seq = none }

-- The derived equality of index entries.
unfoldable pub entry_beq : IdxEntry → IdxEntry → Bool
entry_beq a b =
    a.seq == b.seq
    && a.offset == b.offset
    && a.payload_len == b.payload_len
    && to_u8 a.kind == to_u8 b.kind
    && a.flags == b.flags
    && a.ns_id == b.ns_id
    && a.entity_id == b.entity_id
    && a.endpoints == b.endpoints
    && a.rtype_sym == b.rtype_sym
    && a.target_ns_id == b.target_ns_id

unfoldable pub decodes_to : Result FormatError IdxEntry → IdxEntry → Bool
unfolding entry_beq
decodes_to (ok a) b = entry_beq a b
decodes_to (err e) b = false

-- The first entry, from `i` on, that the index lacks or holds otherwise than the data says.
unfoldable pub agree_from : List ℕ → List IdxEntry → ℕ → ℕ
unfolding decodes_to
agree_from idx_bytes [] i = i
agree_from idx_bytes (e ∷ es) i =
    let rest = agree_from idx_bytes es (i + 1) in
    if ltb i (count_in (length idx_bytes)) && decodes_to (decode_entry idx_bytes (file_offset i)) e
    then rest
    else i

unfoldable pub header_matches : List ℕ → ℕ → ℕ → Bool
header_matches idx_bytes partition_id base_seq = elim (decode_idx_header idx_bytes) [
  | ok h ↦ h.partition_id == partition_id && h.base_seq == base_seq
  | err e ↦ false
]

-- `f.seek(at); f.write_all(bytes)`: a gap before `at` is filled with zeros.
unfoldable pub write_at : List ℕ → ℕ → List ℕ → List ℕ
unfolding resize
write_at file at bytes = resize file at ++ (bytes ++ drop (at + length bytes) file)

-- Step 3: the index that is on disk afterwards, and the number of entries rewritten.
unfoldable pub reconcile : ℕ → DataHeader → Option (List ℕ) → List IdxEntry → Option (List ℕ) × ℕ
reconcile partition_id header idx entries =
    let idx_bytes = get_or idx [] in
    let header_ok = header_matches idx_bytes partition_id header.base_seq in
    let from = if header_ok then agree_from idx_bytes entries 0 else 0 in
    let rewritten = length entries - from in
    let expected_len = file_header_len + length entries * idx_entry_len in
    if ltb 0 rewritten || not header_ok || not (length idx_bytes == expected_len)
    then (let f0 =
          if header_ok
          then idx_bytes
          else write_at idx_bytes 0
              (encode_idx_header (new_idx_header partition_id header.base_seq 0)) in
        let f1 = write_at f0 (file_offset from) (encode_entries (drop from entries)) in
        (some (resize f1 expected_len), rewritten))
    else (idx, rewritten)

module _ (crc32c : List ℕ → ℕ) (resolve : Kind → ℕ → List ℕ → Option IndexFields) where
  -- One record that decodes.
  unfoldable pub accept : List ℕ → List ℕ → ScanState → RecordView → Result RecoverError Next
  unfolding entry_for
  accept data_bytes idx_bytes s v = elim (resolve v.header.kind v.header.codec v.payload) [
    | none ↦ refuse_unless_last data_bytes idx_bytes s (does_not_decode s.at)
    | some fields ↦
        if is_stale s.last_seq v.header.seq
        then refuse_unless_last data_bytes idx_bytes s
            (stale_seq s.at v.header.seq (previous s.last_seq))
        else ok (
            go_on (record {
              at = v.next;
              entries = s.entries ++ (entry_for v fields ∷ []);
              last_seq = some v.header.seq;
            }))
  ]

  -- One round of the loop.
  unfoldable pub step : List ℕ → List ℕ → ScanState → Result RecoverError Next
  unfolding accept
  step data_bytes idx_bytes s = elim (decode_record crc32c data_bytes s.at true) [
    | ok v ↦ accept data_bytes idx_bytes s v
    | err (truncated at need have) ↦ ok (cut (torn s.at (truncated at need have)))
    | err e ↦ refuse_unless_last data_bytes idx_bytes s (corrupt s.at e)
  ]

  -- `while at < data.len()`: every round passes at least the 32 bytes of a header.
  unfoldable pub scan :
      ℕ → List ℕ → List ℕ → ScanState → Result RecoverError (ScanState × Option Reason)
  scan zero data_bytes idx_bytes s =
      if ltb s.at (length data_bytes) then err out_of_fuel else ok (s, none)
  scan (suc fuel) data_bytes idx_bytes s = elim (ltb s.at (length data_bytes)) [
    | false ↦ ok (s, none)
    | true ↦ elim (step data_bytes idx_bytes s) [
      | err e ↦ err e
      | ok (cut reason) ↦ ok (s, some reason)
      | ok (go_on s') ↦ scan fuel data_bytes idx_bytes s'
    ]
  ]

  -- What the two files hold afterwards, and the report.
  unfoldable pub recover_segment :
      ℕ → List ℕ → Option (List ℕ) → Result RecoverError (Recovered × List ℕ × Option (List ℕ))
  recover_segment partition_id data_bytes idx = elim (decode_data_header data_bytes) [
    | err e ↦ err (bad_header e)
    | ok header ↦ do
      (s, cut_reason) ← scan (length data_bytes) data_bytes (get_or idx []) start
      let (idx', rewritten) = reconcile partition_id header idx s.entries
      ok (
        record {
          header = header;
          data_len = s.at;
          count = length s.entries % 2 ^ 32;
          last_seq = s.last_seq;
          truncated_bytes = length data_bytes - s.at;
          idx_rewritten = rewritten;
        },
        (if is_some cut_reason then resize data_bytes s.at else data_bytes),
        idx',
      )
  ]

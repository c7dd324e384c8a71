-- ===== src/Segment/Sealed.antt =====
-- crates/storage/src/segment/sealed.rs: a segment that no longer changes. The two mapped files are
-- byte lists; the texts of the errors are left out.
pub mod Search
pub mod Open
pub mod Logged
pub mod Positions
use ai_ontology_com.Common.{
  ℕ, zero, suc, ◌+◌, ◌-◌, ◌*◌, ◌/◌, ◌%◌, ◌^◌, Bool, true, false, not, ◌||◌, List, [], ◌∷◌, ◌++◌,
  Option, none, some, ◌==◌, nat_eq, length, leb, ltb, if◌then◌else◌,
}
use ai_ontology_com.Common.Result.{Result, ok, err, ◌>>=◌}
use ai_ontology_com.Segment.Bytes.{FormatError}
use ai_ontology_com.Segment.Header.{
  DataHeader, IdxHeader, file_header_len, decode_data_header, decode_idx_header,
}
use ai_ontology_com.Segment.Record.{RecordView, record_span, decode_record}
use ai_ontology_com.Segment.Index.{IdxEntry, decode_entry, file_offset, count_in}

pub record SealedSegment : Type 0 where
  pub partition_id : ℕ
  pub data_header : DataHeader
  pub idx_header : IdxHeader
  pub data_bytes : List ℕ
  pub idx_bytes : List ℕ
  pub count : ℕ

pub data OpenError : Type 0 where
  bad_format : FormatError → OpenError
  -- what the header says, what the file holds
  wrong_count wrong_cover : ℕ → ℕ → OpenError
  wrong_partition : OpenError

abbrev pub fmt_err {ℓ} : {A : Type ℓ} → Result FormatError A → Result OpenError A
fmt_err (ok a) = ok a
fmt_err (err e) = err (bad_format e)

-- The bytes of data that the index accounts for.
unfoldable pub covered_by : List ℕ → ℕ → Result OpenError ℕ
covered_by idx zero = ok file_header_len
covered_by idx (suc n) = do
  last ← fmt_err (decode_entry idx (file_offset n))
  ok ((last.offset + record_span last.payload_len) % 2 ^ 64)

unfoldable pub open_sealed : ℕ → List ℕ → List ℕ → Result OpenError SealedSegment
unfolding covered_by
open_sealed partition_id data_bytes idx = do
  data_header ← fmt_err (decode_data_header data_bytes)
  idx_header ← fmt_err (decode_idx_header idx)
  let by_len = count_in (length idx)
  if not (idx_header.count == by_len) then err (wrong_count idx_header.count by_len) else do
    covered ← covered_by idx by_len
    if not (covered == length data_bytes)
        then err (wrong_cover covered (length data_bytes))
        else if not (data_header.partition_id == partition_id)
            || not (idx_header.partition_id == partition_id)
        then err wrong_partition
        else ok (record {
          partition_id = partition_id;
          data_header = data_header;
          idx_header = idx_header;
          data_bytes = data_bytes;
          idx_bytes = idx;
          count = by_len;
        })

-- `.ok()`
abbrev pub or_none {ℓ κ} : {E : Type κ} {A : Type ℓ} → Result E A → Option A
or_none (ok a) = some a
or_none (err e) = none

unfoldable pub entry : SealedSegment → ℕ → Option IdxEntry
entry s i = if leb s.count i then none else or_none (decode_entry s.idx_bytes (file_offset i))

abbrev push_some : Option IdxEntry → List IdxEntry → List IdxEntry
push_some none es = es
push_some (some e) es = e ∷ es

unfoldable pub entries_from : SealedSegment → ℕ → ℕ → List IdxEntry
entries_from s i zero = []
entries_from s i (suc n) = push_some (entry s i) (entries_from s (i + 1) n)

abbrev pub entries : SealedSegment → List IdxEntry
entries s = entries_from s 0 s.count

-- `while lo < hi`: every round halves what is left; the fuel is at least `hi - lo`.
unfoldable pub search : SealedSegment → ℕ → ℕ → ℕ → ℕ → Option ℕ
search s seq zero lo hi = none
search s seq (suc fuel) lo hi =
    let mid = lo + (hi - lo) / 2 in
    let right = search s seq fuel (mid + 1) hi in
    let left = search s seq fuel lo mid in
    if ltb lo hi
    then elim (entry s mid) [
      | none ↦ none
      | some e ↦ if ltb e.seq seq then right else if ltb seq e.seq then left else some mid
    ]
    else none

unfoldable pub find_seq : SealedSegment → ℕ → Option ℕ
unfolding search
find_seq s seq = search s seq s.count 0 s.count

-- Seq of the last record, if any.
unfoldable pub last_seq : SealedSegment → Option ℕ
last_seq s = elim s.count [
  | zero ↦ none
  | suc n ↦ elim (entry s n) [ none ↦ none | some e ↦ some e.seq ]
]

module _ (crc32c : List ℕ → ℕ) where
  -- The record described by an entry.
  abbrev pub record_of : SealedSegment → IdxEntry → Bool → Result FormatError RecordView
  record_of s e verify_crc = decode_record crc32c s.data_bytes e.offset verify_crc

  -- Every record in file order, until one does not decode: every round passes at least a header.
  unfoldable pub records_from : SealedSegment → Bool → ℕ → ℕ → List (Result FormatError RecordView)
  records_from s verify_crc zero at = []
  records_from s verify_crc (suc fuel) at =
      if leb (length s.data_bytes) at
      then []
      else elim (decode_record crc32c s.data_bytes at verify_crc) [
        | ok v ↦ ok v ∷ records_from s verify_crc fuel v.next
        | err e ↦ err e ∷ []
      ]

  abbrev pub records : SealedSegment → Bool → List (Result FormatError RecordView)
  records s verify_crc = records_from s verify_crc (length s.data_bytes) file_header_len

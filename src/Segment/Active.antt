-- ===== src/Segment/Active.antt =====
-- crates/storage/src/segment/active.rs: the segment that still grows. A file is its bytes and the
-- position of its writer; `synced` counts the bytes of `.data` that the last `sync_data` made durable.
-- Failing reads and writes, the paths and the moving of files are not modelled.
pub mod Durable
pub mod Refines
pub mod Crash
pub mod Layout
mod Examples
use ai_ontology_com.Common.{
  ℕ, zero, suc, ◌+◌, ◌*◌, ◌%◌, ◌^◌, ◌-◌, Bool, true, false, not, List, [], ◌∷◌, ◌++◌, Option, none,
  some, length, leb, if◌then◌else◌, drop,
}
use ai_ontology_com.Common.Result.{Result, ok, ◌>>=◌}
use ai_ontology_com.Segment.Bytes.{FormatError, slice}
use ai_ontology_com.Segment.Kind.{Kind, relation, relation_exact}
use ai_ontology_com.Segment.Header.{
  DataHeader, file_header_len, idx_entry_len, new_data_header, encode_data_header, new_idx_header,
  encode_idx_header,
}
use ai_ontology_com.Segment.Record.{encode_record}
use ai_ontology_com.Segment.Index.{
  IdxEntry, encode_entry, encode_entries, decode_entry, file_offset, count_in,
}
use ai_ontology_com.Segment.Recover.{IndexFields, write_at}

pub record Writer : Type 0 where
  pub file : List ℕ
  pub pos : ℕ

unfoldable pub write_all : Writer → List ℕ → Writer
write_all w bytes = record { file = write_at w.file w.pos bytes; pos = w.pos + length bytes }

unfoldable pub write_each : Writer → List IdxEntry → Writer
unfolding write_all
write_each w [] = w
write_each w (e ∷ es) = write_each (write_all w (encode_entry e)) es

pub record ActiveSegment : Type 0 where
  pub partition_id : ℕ
  pub base_seq : ℕ
  pub codec : ℕ
  pub data_file : Writer
  pub synced : ℕ
  pub idx_file : Writer
  pub data_len : ℕ
  pub count : ℕ
  pub pending_idx : List IdxEntry
  pub first_seq : Option ℕ
  pub last_seq : ℕ

abbrev pub empty_file : Writer
empty_file = record { file = []; pos = 0 }

unfoldable pub create : ℕ → ℕ → ℕ → ActiveSegment
unfolding write_all
create partition_id base_seq codec =
    let file =
      write_all empty_file (encode_data_header (new_data_header partition_id base_seq codec)) in
    record {
      partition_id = partition_id;
      base_seq = base_seq;
      codec = codec;
      data_file = file;
      synced = length file.file;
      idx_file = write_all empty_file (encode_idx_header (new_idx_header partition_id base_seq 0));
      data_len = file_header_len;
      count = 0;
      pending_idx = [];
      first_seq = none;
      last_seq = 0;
    }

-- The two files are given as they are on disk.
unfoldable pub reopen : ℕ → DataHeader → ℕ → ℕ → ℕ → List ℕ → List ℕ → ActiveSegment
reopen partition_id header data_len count last_seq bytes idx_bytes = record {
  partition_id = partition_id;
  base_seq = header.base_seq;
  codec = header.codec;
  data_file = record { file = bytes; pos = data_len };
  synced = length bytes;
  idx_file = record { file = idx_bytes; pos = file_offset count };
  data_len = data_len;
  count = count;
  pending_idx = [];
  first_seq = none;
  last_seq = last_seq;
}

abbrev pub record_count : ActiveSegment → ℕ
record_count s = (s.count + length s.pending_idx % 2 ^ 32) % 2 ^ 32

abbrev pub has_pending : ActiveSegment → Bool
has_pending s = elim s.pending_idx [ [] ↦ false | _ ∷ _ ↦ true ]

abbrev pub get_or_insert : Option ℕ → ℕ → Option ℕ
get_or_insert none seq = some seq
get_or_insert (some first) seq = some first

-- The number of records made durable, and the segment.
unfoldable pub commit : ActiveSegment → ℕ × ActiveSegment
unfolding write_each
commit s = elim s.pending_idx [
  | [] ↦ (0, s)
  | e ∷ es ↦
      let n = length (e ∷ es) in
      (
        n,
        record s {
          synced = length s.data_file.file;
          idx_file = write_each s.idx_file (e ∷ es);
          count = (s.count + n % 2 ^ 32) % 2 ^ 32;
          pending_idx = [];
        },
      )
]

-- `len` bytes at `offset`, `none` at a read past the end.
unfoldable pub read_span : ActiveSegment → ℕ → ℕ → Option (List ℕ)
read_span s offset len =
    if leb (offset + len) (length s.data_file.file)
    then some (slice s.data_file.file offset len)
    else none

unfoldable pub decode_from : List ℕ → ℕ → ℕ → Result FormatError (List IdxEntry)
decode_from bytes i zero = ok []
decode_from bytes i (suc n) = do
  e ← decode_entry bytes (file_offset i)
  out ← decode_from bytes (i + 1) n
  ok (e ∷ out)

abbrev pub min_of : ℕ → ℕ → ℕ
min_of a b = if leb a b then a else b

unfoldable pub committed_entries : ActiveSegment → Result FormatError (List IdxEntry)
committed_entries s =
    decode_from s.idx_file.file 0 (min_of (count_in (length s.idx_file.file)) s.count)

abbrev is_edge : Kind → Bool
is_edge relation = true
is_edge relation_exact = true
is_edge _ = false

abbrev pub counted : (ℕ × ℕ × ℕ) → IdxEntry → ℕ × ℕ × ℕ
counted (records, edges, payload) e = (
  (records + 1) % 2 ^ 64,
  (if is_edge e.kind then (edges + 1) % 2 ^ 64 else edges),
  (payload + e.payload_len) % 2 ^ 64,
)

unfoldable pub count_all : (ℕ × ℕ × ℕ) → List IdxEntry → ℕ × ℕ × ℕ
count_all acc [] = acc
count_all acc (e ∷ es) = count_all (counted acc e) es

unfoldable pub counters : ActiveSegment → Result FormatError (ℕ × ℕ × ℕ)
counters s = do
  committed ← committed_entries s
  ok (count_all (0, 0, 0) (committed ++ s.pending_idx))

unfoldable pub committed_data : ActiveSegment → Option (List ℕ)
committed_data s =
    if leb s.data_len file_header_len
    then some []
    else read_span s file_header_len (s.data_len - file_header_len)

-- The two files of the closed segment.
unfoldable pub seal : ActiveSegment → List ℕ × List ℕ
seal s =
    let (_, t) = commit s in
    (
      t.data_file.file,
      write_at t.idx_file.file 0
          (encode_idx_header (new_idx_header t.partition_id t.base_seq t.count)),
    )

abbrev pub idx_len_for : ℕ → ℕ
idx_len_for count = file_header_len + count * idx_entry_len

module _ (crc32c : List ℕ → ℕ) where
  -- The record's offset in `.data`, and the segment; `none` is the panic of `encode_record`.
  unfoldable pub append_with_codec :
      ActiveSegment → ℕ → ℕ → Kind → ℕ → List ℕ → IndexFields → Option (ℕ × ActiveSegment)
  unfolding write_all
  append_with_codec s seq ts_micros kind codec payload fields =
      elim (encode_record crc32c [] seq ts_micros kind codec payload) [
        | none ↦ none
        | some (buf, _) ↦ some (
          s.data_len,
          record s {
            data_file = write_all s.data_file buf;
            data_len = (s.data_len + length buf) % 2 ^ 64;
            pending_idx =
                s.pending_idx
                ++ (record {
                  seq = seq;
                  offset = s.data_len;
                  payload_len = length payload % 2 ^ 32;
                  kind = kind;
                  flags = 0;
                  ns_id = fields.ns_id;
                  entity_id = fields.entity_id;
                  endpoints = fields.endpoints;
                  rtype_sym = fields.rtype_sym;
                  target_ns_id = fields.target_ns_id;
                }
                    ∷ []);
            first_seq = get_or_insert s.first_seq seq;
            last_seq = seq;
          },
        )
      ]

  abbrev pub append :
      ActiveSegment → ℕ → ℕ → Kind → List ℕ → IndexFields → Option (ℕ × ActiveSegment)
  append s seq ts_micros kind payload fields =
      append_with_codec s seq ts_micros kind s.codec payload fields

-- ===== src/Segment/Header/RoundTrip.antt =====
-- crates/storage/src/segment/format.rs: what `encode` writes, `decode` reads.
use ai_ontology_com.Common.{
  ℕ, ◌≡◌, List, ◌++◌, ◌==◌, nat_eq, list_eq, list_beq, if◌then◌else◌, arith,
}
use ai_ontology_com.Common.Result.{ok, err}
use ai_ontology_com.Segment.Bytes.{
  bad_magic, bad_entry_size, unsupported_version, from_le_bytes-to_le_bytes,
}
use ai_ontology_com.Segment.Header.{
  data_magic, idx_magic, idx_entry_len, DataHeader, IdxHeader, IsDataHeader, IsIdxHeader,
  format_version, encode_data_header, decode_data_header, encode_idx_header, decode_idx_header,
}

-- A data header reads back when its version is that of this build, whatever follows it; otherwise
-- the version is the error.
pub decode_data_header-encode :
    (h : DataHeader) (rest : List ℕ)
    → IsDataHeader h
    → decode_data_header (encode_data_header h ++ rest)
      ≡ (if h.version == format_version then ok h else err (unsupported_version h.version))
unfolding decode_data_header encode_data_header list_beq
decode_data_header-encode h rest v = ground (
  arith,
  from_le_bytes-to_le_bytes 2 h.version,
  from_le_bytes-to_le_bytes 4 h.partition_id,
  from_le_bytes-to_le_bytes 8 h.base_seq,
)

-- An index header reads back when its version and entry size are those of this build; otherwise
-- the first of the two that differs is the error.
pub decode_idx_header-encode :
    (h : IdxHeader) (rest : List ℕ)
    → IsIdxHeader h
    → decode_idx_header (encode_idx_header h ++ rest) ≡ (
        if h.version == format_version
        then (if h.entry_size == idx_entry_len then ok h else err (bad_entry_size h.entry_size))
        else err (unsupported_version h.version))
unfolding decode_idx_header encode_idx_header list_beq
decode_idx_header-encode h rest v = ground (
  arith,
  from_le_bytes-to_le_bytes 2 h.version,
  from_le_bytes-to_le_bytes 2 h.entry_size,
  from_le_bytes-to_le_bytes 4 h.partition_id,
  from_le_bytes-to_le_bytes 4 h.count,
  from_le_bytes-to_le_bytes 8 h.base_seq,
)

-- The bytes of an index header are refused as a data header, and those of a data header as an index
-- header, each with the magic that was expected and the one that was found.
pub decode_data_header-encode_idx :
    (d : DataHeader) (h : IdxHeader) (rest : List ℕ)
    → (decode_data_header (encode_idx_header h ++ rest) ≡ err (bad_magic data_magic idx_magic))
      × (decode_idx_header (encode_data_header d ++ rest) ≡ err (bad_magic idx_magic data_magic))
unfolding decode_data_header encode_idx_header decode_idx_header encode_data_header list_beq
decode_data_header-encode_idx d h rest = (ground arith, ground arith)

-- ===== src/Segment/Header.antt =====
-- crates/storage/src/segment/format.rs: the headers of the `.data` and `.idx` files.
pub mod RoundTrip
use ai_ontology_com.Common.{
  ℕ, ◌^◌, ◌<◌, ◌≡◌, Bool, true, false, not, List, [], ◌∷◌, ◌++◌, ◌==◌, nat_eq, list_eq, list_beq,
  if◌then◌else◌, get_or, replicate,
}
use ai_ontology_com.Common.Result.{Result, ok, err, ◌>>=◌}
use ai_ontology_com.Segment.Bytes.{
  FormatError, bad_magic, unsupported_version, bad_entry_size, slice, need, u16_at, u32_at, u64_at,
  to_le_bytes, from_le_bytes, copy_from_slice,
}

-- b"GRFD" and b"GRFI"
abbrev pub data_magic : List ℕ
data_magic = b'G' ∷ b'R' ∷ b'F' ∷ b'D' ∷ []

abbrev pub idx_magic : List ℕ
idx_magic = b'G' ∷ b'R' ∷ b'F' ∷ b'I' ∷ []

abbrev pub format_version : ℕ
format_version = 1

abbrev pub format_version_codecs : ℕ
format_version_codecs = 2

abbrev pub file_header_len : ℕ
file_header_len = 32

abbrev pub idx_entry_len : ℕ
idx_entry_len = 48

pub record DataHeader : Type 0 where
  pub version : ℕ
  pub codec : ℕ
  pub flags : ℕ
  pub partition_id : ℕ
  pub base_seq : ℕ

pub record IdxHeader : Type 0 where
  pub version : ℕ
  pub entry_size : ℕ
  pub partition_id : ℕ
  pub base_seq : ℕ
  pub count : ℕ

unfoldable pub new_data_header : ℕ → ℕ → ℕ → DataHeader
new_data_header partition_id base_seq codec = record {
  version = format_version;
  codec = codec;
  flags = 0;
  partition_id = partition_id;
  base_seq = base_seq;
}

unfoldable pub encode_data_header : DataHeader → List ℕ
unfolding to_le_bytes
encode_data_header h =
    let b0 = replicate file_header_len 0 in
    let b1 = copy_from_slice b0 0 data_magic in
    let b2 = copy_from_slice b1 4 (to_le_bytes 2 h.version) in
    let b3 = copy_from_slice b2 6 (h.codec ∷ []) in
    let b4 = copy_from_slice b3 7 (h.flags ∷ []) in
    let b5 = copy_from_slice b4 8 (to_le_bytes 4 h.partition_id) in
    copy_from_slice b5 12 (to_le_bytes 8 h.base_seq)

unfoldable pub decode_data_header : List ℕ → Result FormatError DataHeader
unfolding need u16_at u32_at u64_at from_le_bytes
decode_data_header buf = do
  b ← need buf 0 file_header_len
  let magic = slice b 0 4
  if not (magic == data_magic) then err (bad_magic data_magic magic) else do
    let version = u16_at b 4
    if not (version == format_version)
        then err (unsupported_version version)
        else ok (record {
          version = version;
          codec = get_or b 6 0;
          flags = get_or b 7 0;
          partition_id = u32_at b 8;
          base_seq = u64_at b 12;
        })

unfoldable pub new_idx_header : ℕ → ℕ → ℕ → IdxHeader
new_idx_header partition_id base_seq count = record {
  version = format_version;
  entry_size = idx_entry_len;
  partition_id = partition_id;
  base_seq = base_seq;
  count = count;
}

unfoldable pub encode_idx_header : IdxHeader → List ℕ
unfolding to_le_bytes
encode_idx_header h =
    let b0 = replicate file_header_len 0 in
    let b1 = copy_from_slice b0 0 idx_magic in
    let b2 = copy_from_slice b1 4 (to_le_bytes 2 h.version) in
    let b3 = copy_from_slice b2 6 (to_le_bytes 2 h.entry_size) in
    let b4 = copy_from_slice b3 8 (to_le_bytes 4 h.partition_id) in
    let b5 = copy_from_slice b4 12 (to_le_bytes 8 h.base_seq) in
    copy_from_slice b5 20 (to_le_bytes 4 h.count)

unfoldable pub decode_idx_header : List ℕ → Result FormatError IdxHeader
unfolding need u16_at u32_at u64_at from_le_bytes
decode_idx_header buf = do
  b ← need buf 0 file_header_len
  let magic = slice b 0 4
  if not (magic == idx_magic) then err (bad_magic idx_magic magic) else do
    let version = u16_at b 4
    if not (version == format_version) then err (unsupported_version version) else do
      let entry_size = u16_at b 6
      if not (entry_size == idx_entry_len)
          then err (bad_entry_size entry_size)
          else ok (record {
            version = version;
            entry_size = entry_size;
            partition_id = u32_at b 8;
            base_seq = u64_at b 12;
            count = u32_at b 20;
          })

-- The ranges of the field types.
pub record IsDataHeader (h : DataHeader) : Type 0 where
  pub version : h.version < 2 ^ 16
  pub codec : h.codec < 2 ^ 8
  pub flags : h.flags < 2 ^ 8
  pub partition_id : h.partition_id < 2 ^ 32
  pub base_seq : h.base_seq < 2 ^ 64

pub record IsIdxHeader (h : IdxHeader) : Type 0 where
  pub version : h.version < 2 ^ 16
  pub entry_size : h.entry_size < 2 ^ 16
  pub partition_id : h.partition_id < 2 ^ 32
  pub base_seq : h.base_seq < 2 ^ 64
  pub count : h.count < 2 ^ 32

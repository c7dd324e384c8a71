-- ===== src/Segment/Record.antt =====
-- crates/storage/src/segment/format.rs: record headers, and records as they lie in a `.data` file.
-- `crc32c` belongs to another package: it is a parameter, a number below 2 ^ 32.
pub mod RoundTrip
use ai_ontology_com.Common.{
  ℕ, ◌+◌, ◌-◌, ◌*◌, ◌/◌, ◌^◌, ◌<◌, ◌≤◌, Bool, true, false, not, ◌&&◌, List, [], ◌∷◌, ◌++◌, Option,
  none, some, ◌==◌, nat_eq, ltb, if◌then◌else◌, get_or, replicate, length,
}
use ai_ontology_com.Common.Result.{Result, ok, err, ◌>>=◌}
use ai_ontology_com.Segment.Bytes.{
  FormatError, crc_mismatch, slice, need, u32_at, u64_at, to_le_bytes, from_le_bytes,
  copy_from_slice, resize,
}
use ai_ontology_com.Segment.Kind.{Kind, to_u8, from_u8}

abbrev pub record_header_len : ℕ
record_header_len = 32

abbrev pub payload_align : ℕ
payload_align = 8

-- `payload_len.div_ceil(PAYLOAD_ALIGN) * PAYLOAD_ALIGN`
unfoldable pub padded_len : ℕ → ℕ
padded_len payload_len = (payload_len + (payload_align - 1)) / payload_align * payload_align

unfoldable pub record_span : ℕ → ℕ
unfolding padded_len
record_span payload_len = record_header_len + padded_len payload_len

pub record RecordHeader : Type 0 where
  pub seq : ℕ
  pub ts_micros : ℕ
  pub payload_len : ℕ
  pub crc : ℕ
  pub kind : Kind
  pub codec : ℕ
  pub flags : ℕ

unfoldable pub encode_header : RecordHeader → List ℕ
unfolding to_le_bytes
encode_header h =
    let b0 = replicate record_header_len 0 in
    let b1 = copy_from_slice b0 0 (to_le_bytes 8 h.seq) in
    let b2 = copy_from_slice b1 8 (to_le_bytes 8 h.ts_micros) in
    let b3 = copy_from_slice b2 16 (to_le_bytes 4 h.payload_len) in
    let b4 = copy_from_slice b3 20 (to_le_bytes 4 h.crc) in
    let b5 = copy_from_slice b4 24 (to_u8 h.kind ∷ []) in
    let b6 = copy_from_slice b5 25 (h.codec ∷ []) in copy_from_slice b6 26 (h.flags ∷ [])

-- The fields read from the 32 bytes that `need` returned.
unfoldable pub header_of : List ℕ → Result FormatError RecordHeader
unfolding u32_at u64_at from_le_bytes
header_of b = do
  kind ← from_u8 (get_or b 24 0)
  ok (record {
    seq = u64_at b 0;
    ts_micros = u64_at b 8;
    payload_len = u32_at b 16;
    crc = u32_at b 20;
    kind = kind;
    codec = get_or b 25 0;
    flags = get_or b 26 0;
  })

unfoldable pub decode_header : List ℕ → ℕ → Result FormatError RecordHeader
decode_header buf at = do b ← need buf at record_header_len; header_of b

pub record RecordView : Type 0 where
  pub header : RecordHeader
  pub payload : List ℕ
  -- offset of the header in the buffer
  pub offset : ℕ
  -- offset of the next record
  pub next : ℕ

module _ (crc32c : List ℕ → ℕ) where
  abbrev pub header_for : ℕ → ℕ → Kind → ℕ → List ℕ → RecordHeader
  header_for seq ts_micros kind codec payload = record {
    seq = seq;
    ts_micros = ts_micros;
    payload_len = length payload;
    crc = crc32c payload;
    kind = kind;
    codec = codec;
    flags = 0;
  }

  -- `none` is the panic on a payload longer than `u32::MAX`. The pair is the buffer that `out` has
  -- become and the returned number of bytes.
  unfoldable pub encode_record : List ℕ → ℕ → ℕ → Kind → ℕ → List ℕ → Option (List ℕ × ℕ)
  encode_record out seq ts_micros kind codec payload =
      if ltb (length payload) (2 ^ 32)
      then (let header = header_for seq ts_micros kind codec payload in
          let start = length out in
          let extended = (out ++ encode_header header) ++ payload in
          let out' = resize extended (start + record_span (length payload)) in
          some (out', length out' - start))
      else none

  unfoldable pub decode_record : List ℕ → ℕ → Bool → Result FormatError RecordView
  decode_record buf at verify_crc = do
    header ← decode_header buf at
    payload ← need buf (at + record_header_len) header.payload_len
    let next = at + record_span header.payload_len
    _ ← need buf at (next - at)
    if verify_crc && not (crc32c payload == header.crc)
        then err (crc_mismatch at header.crc (crc32c payload))
        else ok (record { header = header; payload = payload; offset = at; next = next })

-- The ranges of the field types.
pub record IsHeader (h : RecordHeader) : Type 0 where
  pub seq : h.seq < 2 ^ 64
  pub ts_micros : h.ts_micros < 2 ^ 64
  pub payload_len : h.payload_len < 2 ^ 32
  pub crc : h.crc < 2 ^ 32
  pub codec : h.codec < 2 ^ 8
  pub flags : h.flags < 2 ^ 8

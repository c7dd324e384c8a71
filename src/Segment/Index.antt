-- ===== src/Segment/Index.antt =====
-- crates/storage/src/segment/format.rs: index entries and the packing of endpoints.
pub mod Positions
use ai_ontology_com.Common.{
  ℕ, ◌+◌, ◌-◌, ◌*◌, ◌/◌, ◌%◌, ◌^◌, ◌<◌, ◌≤◌, ◌≡◌, refl, List, [], ◌∷◌, ◌++◌, arith, get_or,
  replicate, length,
}
use ai_ontology_com.Common.Result.{Result, ok, err, ◌>>=◌}
use ai_ontology_com.Segment.Bytes.{
  FormatError, need, need_lem, u16_at, u32_at, u64_at, to_le_bytes, from_le_bytes, copy_from_slice,
  from_le_bytes-to_le_bytes,
}
use ai_ontology_com.Segment.Kind.{Kind, to_u8, from_u8, from_u8-to_u8}
use ai_ontology_com.Segment.Header.{file_header_len, idx_entry_len}

-- `((source & 0xFFFF_FFFF) << 32) | (target & 0xFFFF_FFFF)`: the two halves do not overlap, and the
-- mask is the remainder by 2 ^ 32.
unfoldable pub pack_endpoints : ℕ → ℕ → ℕ
pack_endpoints source target = source % 2 ^ 32 * 2 ^ 32 + target % 2 ^ 32

unfoldable pub unpack_endpoints : ℕ → ℕ × ℕ
unpack_endpoints packed = (packed / 2 ^ 32, packed % 2 ^ 32)

pub record IdxEntry : Type 0 where
  pub seq : ℕ
  pub offset : ℕ
  pub payload_len : ℕ
  pub kind : Kind
  pub flags : ℕ
  pub ns_id : ℕ
  pub entity_id : ℕ
  pub endpoints : ℕ
  pub rtype_sym : ℕ
  pub target_ns_id : ℕ

unfoldable pub encode_entry : IdxEntry → List ℕ
unfolding to_le_bytes
encode_entry e =
    let b0 = replicate idx_entry_len 0 in
    let b1 = copy_from_slice b0 0 (to_le_bytes 8 e.seq) in
    let b2 = copy_from_slice b1 8 (to_le_bytes 8 e.offset) in
    let b3 = copy_from_slice b2 16 (to_le_bytes 4 e.payload_len) in
    let b4 = copy_from_slice b3 20 (to_u8 e.kind ∷ []) in
    let b5 = copy_from_slice b4 21 (e.flags ∷ []) in
    let b6 = copy_from_slice b5 22 (to_le_bytes 2 e.ns_id) in
    let b7 = copy_from_slice b6 24 (to_le_bytes 8 e.entity_id) in
    let b8 = copy_from_slice b7 32 (to_le_bytes 8 e.endpoints) in
    let b9 = copy_from_slice b8 40 (to_le_bytes 4 e.rtype_sym) in
    copy_from_slice b9 44 (to_le_bytes 2 e.target_ns_id)

-- The fields read from the 48 bytes that `need` returned.
unfoldable pub entry_of : List ℕ → Result FormatError IdxEntry
unfolding u16_at u32_at u64_at from_le_bytes
entry_of b = do
  kind ← from_u8 (get_or b 20 0)
  ok (record {
    seq = u64_at b 0;
    offset = u64_at b 8;
    payload_len = u32_at b 16;
    kind = kind;
    flags = get_or b 21 0;
    ns_id = u16_at b 22;
    entity_id = u64_at b 24;
    endpoints = u64_at b 32;
    rtype_sym = u32_at b 40;
    target_ns_id = u16_at b 44;
  })

unfoldable pub decode_entry : List ℕ → ℕ → Result FormatError IdxEntry
decode_entry buf at = do b ← need buf at idx_entry_len; entry_of b

unfoldable pub file_offset : ℕ → ℕ
file_offset i = file_header_len + i * idx_entry_len

-- `saturating_sub` is the subtraction of ℕ
unfoldable pub count_in : ℕ → ℕ
count_in file_len = (file_len - file_header_len) / idx_entry_len

-- The ranges of the field types.
pub record IsEntry (e : IdxEntry) : Type 0 where
  pub seq : e.seq < 2 ^ 64
  pub offset : e.offset < 2 ^ 64
  pub payload_len : e.payload_len < 2 ^ 32
  pub flags : e.flags < 2 ^ 8
  pub ns_id : e.ns_id < 2 ^ 16
  pub entity_id : e.entity_id < 2 ^ 64
  pub endpoints : e.endpoints < 2 ^ 64
  pub rtype_sym : e.rtype_sym < 2 ^ 32
  pub target_ns_id : e.target_ns_id < 2 ^ 16

-- Two endpoints within 32 bits pack into 64 bits and come back.
pub unpack_endpoints-pack_endpoints :
    (source target : ℕ)
    → source < 2 ^ 32
    → target < 2 ^ 32
    → (unpack_endpoints (pack_endpoints source target) ≡ (source, target))
      × (pack_endpoints source target < 2 ^ 64)
unfolding pack_endpoints unpack_endpoints
unpack_endpoints-pack_endpoints source target hs ht = (ground arith, omega arith)

pub entry_of-encode_entry : (e : IdxEntry) → IsEntry e → entry_of (encode_entry e) ≡ ok e
unfolding entry_of encode_entry
entry_of-encode_entry e v = ground (
  arith,
  from_u8-to_u8 e.kind,
  from_le_bytes-to_le_bytes 8 e.seq,
  from_le_bytes-to_le_bytes 8 e.offset,
  from_le_bytes-to_le_bytes 4 e.payload_len,
  from_le_bytes-to_le_bytes 2 e.ns_id,
  from_le_bytes-to_le_bytes 8 e.entity_id,
  from_le_bytes-to_le_bytes 8 e.endpoints,
  from_le_bytes-to_le_bytes 4 e.rtype_sym,
  from_le_bytes-to_le_bytes 2 e.target_ns_id,
)

pub length-encode_entry : (e : IdxEntry) → length (encode_entry e) ≡ 48
unfolding encode_entry
length-encode_entry e = refl

-- The entries of an index file, one after the other.
abbrev pub encode_entries : List IdxEntry → List ℕ
encode_entries [] = []
encode_entries (e ∷ es) = encode_entry e ++ encode_entries es

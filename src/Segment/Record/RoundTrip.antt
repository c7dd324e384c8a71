-- ===== src/Segment/Record/RoundTrip.antt =====
-- crates/storage/src/segment/format.rs: a record reads back where it was written.
use mathlib.Core.List.{append_assoc}
use ai_ontology_com.Common.{
  if◌then◌else◌, ◌&&◌, not, ◌==◌, nat_eq, sym, ap, take_all, lt→ltb, ℕ, ◌+◌, ◌-◌, ◌^◌, ◌<◌, ◌≤◌,
  ◌≡◌, refl, Bool, List, ◌++◌, some, arith, length, length-append, length-replicate, replicate,
}
use ai_ontology_com.Common.Result.{ok, err}
use ai_ontology_com.Segment.Bytes.{from_le_bytes-to_le_bytes, crc_mismatch, need_lem, resize}
use ai_ontology_com.Segment.Kind.{Kind, from_u8-to_u8}
use ai_ontology_com.Segment.Record.{
  RecordHeader, IsHeader, record_span, padded_len, encode_header, header_of, decode_header,
  encode_record, decode_record, header_for,
}

pub header_of-encode_header : (h : RecordHeader) → IsHeader h → header_of (encode_header h) ≡ ok h
unfolding header_of encode_header
header_of-encode_header h v = ground (
  arith,
  from_u8-to_u8 h.kind,
  from_le_bytes-to_le_bytes 8 h.seq,
  from_le_bytes-to_le_bytes 8 h.ts_micros,
  from_le_bytes-to_le_bytes 4 h.payload_len,
  from_le_bytes-to_le_bytes 4 h.crc,
)

pub length-encode_header : (h : RecordHeader) → length (encode_header h) ≡ 32
unfolding encode_header
length-encode_header h = refl

-- A record on disk: header, payload, zeros up to the next multiple of 8.
abbrev pub record_bytes : RecordHeader → List ℕ → List ℕ
record_bytes h payload =
    encode_header h ++ (payload ++ replicate (padded_len (length payload) - length payload) 0)

pub length-record_bytes :
    (h : RecordHeader) (payload : List ℕ)
    → length (record_bytes h payload) ≡ record_span (length payload)
unfolding record_span
length-record_bytes h payload =
    let pad = padded_len (length payload) - length payload in
    omega (
      arith,
      length-append (encode_header h) (payload ++ replicate pad 0),
      length-append payload (replicate pad 0),
      length-replicate {A = ℕ} pad 0,
      length-encode_header h,
    )

-- `resize` only adds zeros: the span of a record is at least what was written.
resize_record :
    (out payload : List ℕ) (h : RecordHeader)
    → resize ((out ++ encode_header h) ++ payload) (length out + record_span (length payload))
      ≡ out ++ record_bytes h payload
unfolding resize record_span
resize_record out payload h =
    let written = (out ++ encode_header h) ++ payload in
    let end = length out + record_span (length payload) in
    let size : length written ≡ length out + 32 + length payload = omega (
      arith,
      length-append (out ++ encode_header h) payload,
      length-append out (encode_header h),
      length-encode_header h,
    ) in
    let room : length written ≤ end = omega arith in
    let pad : end - length written ≡ padded_len (length payload) - length payload = omega arith in
    rw (take_all end written room, pad) (simp append_assoc)

pub decode_header-bytes :
    (out rest : List ℕ) (h : RecordHeader) (payload : List ℕ)
    → IsHeader h
    → decode_header (out ++ (record_bytes h payload ++ rest)) (length out) ≡ ok h
unfolding decode_header
decode_header-bytes out rest h payload v =
    rw
      (need_lem (out ++ (record_bytes h payload ++ rest)) out (encode_header h)
        ((payload ++ replicate (padded_len (length payload) - length payload) 0) ++ rest)
        (length out) 32 (simp append_assoc) refl (sym (length-encode_header h)))
      (header_of-encode_header h v)

module _ (crc32c : List ℕ → ℕ) where
  pub encode_record-layout :
      (out : List ℕ) (seq ts : ℕ) (kind : Kind) (codec : ℕ) (payload : List ℕ)
      → length payload < 2 ^ 32
      → encode_record crc32c out seq ts kind codec payload
        ≡ some (
          out ++ record_bytes (header_for crc32c seq ts kind codec payload) payload,
          record_span (length payload),
        )
  unfolding encode_record
  encode_record-layout out seq ts kind codec payload fits = rw (lt→ltb _ _ fits) (
      rw resize_record (
        ground (
          arith,
          length-append out (record_bytes (header_for crc32c seq ts kind codec payload) payload),
          length-record_bytes (header_for crc32c seq ts kind codec payload) payload,
        )))

  -- A record whose header is well formed, with the outcome of the CRC test.
  pub decode_record-bytes_checked :
      (out rest : List ℕ) (h : RecordHeader) (payload : List ℕ) (verify : Bool)
      → IsHeader h
      → h.payload_len ≡ length payload
      → decode_record crc32c (out ++ (record_bytes h payload ++ rest)) (length out) verify ≡ (
          if verify && not (crc32c payload == h.crc)
          then err (crc_mismatch (length out) h.crc (crc32c payload))
          else ok (record {
            header = h;
            payload = payload;
            offset = length out;
            next = length out + record_span (length payload);
          }))
  unfolding decode_record decode_header
  decode_record-bytes_checked out rest h payload verify v el = ground (
    arith,
    header_of-encode_header h v,
    need_lem buf out (encode_header h) ((payload ++ pad) ++ rest) (length out) 32
        (simp append_assoc) refl (sym (length-encode_header h)),
    need_lem buf (out ++ encode_header h) payload (pad ++ rest) (length out + 32) h.payload_len
        (simp append_assoc)
        (omega (arith, length-append out (encode_header h), length-encode_header h)) el,
    need_lem buf out (record_bytes h payload) rest (length out)
        (length out + record_span h.payload_len - length out) refl refl
        (omega (arith, length-record_bytes h payload, ap record_span el)),
  )
    where
      pad : List ℕ
      pad = replicate (padded_len (length payload) - length payload) 0

      buf : List ℕ
      buf = out ++ (record_bytes h payload ++ rest)

  pub decode_record-bytes :
      (out rest : List ℕ) (h : RecordHeader) (payload : List ℕ) (verify : Bool)
      → IsHeader h
      → h.payload_len ≡ length payload
      → h.crc ≡ crc32c payload
      → decode_record crc32c (out ++ (record_bytes h payload ++ rest)) (length out) verify
        ≡ ok (record {
          header = h;
          payload = payload;
          offset = length out;
          next = length out + record_span (length payload);
        })
  decode_record-bytes out rest h payload verify v el ec =
      rw (decode_record-bytes_checked out rest h payload verify v el) (ground arith)

  -- What `encode_record` appends, `decode_record` reads back at the place where it was appended,
  -- whatever follows, and `next` is the end of the appended bytes. The payload is shorter than
  -- 2 ^ 32 bytes and the numbers fit their field types.
  pub decode_record-encode_record :
      (out rest payload : List ℕ) (seq ts codec : ℕ) (kind : Kind) (verify : Bool)
      → length payload < 2 ^ 32
      → seq < 2 ^ 64
      → ts < 2 ^ 64
      → codec < 2 ^ 8
      → crc32c payload < 2 ^ 32
      → (out' : List ℕ) × (encode_record crc32c out seq ts kind codec payload
          ≡ some (out', record_span (length payload)))
        × (length out' ≡ length out + record_span (length payload))
        × (decode_record crc32c (out' ++ rest) (length out) verify
            ≡ ok (record {
              header = header_for crc32c seq ts kind codec payload;
              payload = payload;
              offset = length out;
              next = length out';
            }))
  decode_record-encode_record out rest payload seq ts codec kind verify fits hs ht hc hk =
      let h = header_for crc32c seq ts kind codec payload in
      let end : length (out ++ record_bytes h payload) ≡ length out + record_span (length payload) =
        omega (arith, length-append out (record_bytes h payload), length-record_bytes h payload) in
      let valid : IsHeader h = record {
        seq = hs;
        ts_micros = ht;
        payload_len = fits;
        crc = hk;
        codec = hc;
        flags = omega arith;
      } in
      (
        out ++ record_bytes h payload,
        encode_record-layout out seq ts kind codec payload fits,
        end,
        rw (append_assoc out (record_bytes h payload) rest, end)
            (decode_record-bytes out rest h payload verify valid refl refl),
      )

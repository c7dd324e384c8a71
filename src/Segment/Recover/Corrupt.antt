-- ===== src/Segment/Recover/Corrupt.antt =====
-- crates/storage/src/segment/recover.rs: damage in the middle of a segment is refused, not cut off.
use mathlib.Core.List.{append_assoc}
use mathlib.Core.Option.{get_or}
use ai_ontology_com.Common.{
  [], ℕ, suc, ◌+◌, ◌<◌, ◌≡◌, ◌≢◌, refl, sym, ap, true, List, ◌++◌, Option, none, arith, length,
  length-append,
}
use ai_ontology_com.Common.Result.{err}
use ai_ontology_com.Segment.Bytes.{crc_mismatch}
use ai_ontology_com.Segment.Kind.{Kind, from_u8-to_u8}
use ai_ontology_com.Segment.Header.{DataHeader, IsDataHeader, encode_data_header}
use ai_ontology_com.Segment.Header.RoundTrip.{decode_data_header-encode}
use ai_ontology_com.Segment.Record.{RecordHeader, IsHeader, record_span}
use ai_ontology_com.Segment.Record.RoundTrip.{
  record_bytes, length-record_bytes, decode_header-bytes, decode_record-bytes_checked,
}
use ai_ontology_com.Segment.Recover.{
  IndexFields, ScanState, corrupt, valid_records_follow, start, span_at, refuse_unless_last, step,
  scan, recover_segment,
}
use ai_ontology_com.Segment.Recover.Log.{
  Written, bytes_of, IsLog, after, length-encode_data_header, scan_file, at-after,
  length-bytes_of-ge,
}

module _ (crc32c : List ℕ → ℕ) (resolve : Kind → ℕ → List ℕ → Option IndexFields) (h : RecordHeader)
    (payload : List ℕ) (v : IsHeader h) (el : h.payload_len ≡ length payload)
    (bad : crc32c payload ≢ h.crc) where
  -- A record that fails its CRC, with at least one byte behind it.
  step_corrupt :
      (idx_bytes out rest : List ℕ) (s : ScanState)
      → s.at ≡ length out
      → 0 < length rest
      → step crc32c resolve (out ++ (record_bytes h payload ++ rest)) idx_bytes s
        ≡ err (valid_records_follow (corrupt s.at (crc_mismatch s.at h.crc (crc32c payload))))
  unfolding step refuse_unless_last span_at
  step_corrupt idx_bytes out rest s ea more = ground (
    arith,
    decode_record-bytes_checked crc32c out rest h payload true v el,
    decode_header-bytes out rest h payload v,
    from_u8-to_u8 h.kind,
    length-append out (record_bytes h payload ++ rest),
    length-append (record_bytes h payload) rest,
    length-record_bytes h payload,
    ap record_span el,
  )

  scan_corrupt :
      (idx_bytes out rest : List ℕ) (s : ScanState)
      → s.at ≡ length out
      → 0 < length rest
      → (fuel : ℕ)
      → scan crc32c resolve (suc fuel) (out ++ (record_bytes h payload ++ rest)) idx_bytes s
        ≡ err (valid_records_follow (corrupt s.at (crc_mismatch s.at h.crc (crc32c payload))))
  unfolding scan
  scan_corrupt idx_bytes out rest s ea more fuel = ground (
    arith,
    step_corrupt idx_bytes out rest s ea more,
    length-append out (record_bytes h payload ++ rest),
    length-append (record_bytes h payload) rest,
  )

  -- A segment in which a record behind complete records fails its CRC, and is not the last thing
  -- in the file, is refused: nothing is truncated, whatever the index file holds. (The module's
  -- documentation says that the file is truncated there.)
  pub recover_segment-corrupt :
      (partition_id : ℕ) (hd : DataHeader) (ws : List Written) (rest : List ℕ)
      (idx : Option (List ℕ))
      → IsDataHeader hd
      → hd.version ≡ 1
      → IsLog crc32c resolve none ws
      → 0 < length rest
      → recover_segment crc32c resolve partition_id
          (encode_data_header hd ++ (bytes_of ws ++ (record_bytes h payload ++ rest)))
          idx
        ≡ err (
            valid_records_follow (
              corrupt
                (32 + length (bytes_of ws))
                (crc_mismatch (32 + length (bytes_of ws)) h.crc (crc32c payload))))
  unfolding recover_segment
  recover_segment-corrupt partition_id hd ws rest idx hv version log more =
      let hb = encode_data_header hd in
      let bad_bytes = record_bytes h payload ++ rest in
      let buf = hb ++ (bytes_of ws ++ bad_bytes) in
      let end = after crc32c resolve start ws in
      let place = at-after crc32c resolve none ws start log in
      let there : (after crc32c resolve start ws).at ≡ length (hb ++ bytes_of ws) =
        omega (arith, place, length-append hb (bytes_of ws), length-encode_data_header hd) in
      let failed =
        scan_file crc32c resolve ws buf (get_or idx []) hb bad_bytes (length buf)
          (err (valid_records_follow (corrupt end.at (crc_mismatch end.at h.crc (crc32c payload)))))
          refl (sym (length-encode_data_header hd)) log
          (omega (
            arith,
            length-append hb (bytes_of ws ++ bad_bytes),
            length-append (bytes_of ws) bad_bytes,
            length-encode_data_header hd,
            length-bytes_of-ge crc32c resolve none ws log,
          ))
          (rw (← append_assoc hb (bytes_of ws) bad_bytes) (
            scan_corrupt (get_or idx []) (hb ++ bytes_of ws) rest (after crc32c resolve start ws)
              there more)) in
      ground (arith, failed, place, decode_data_header-encode hd (bytes_of ws ++ bad_bytes) hv)

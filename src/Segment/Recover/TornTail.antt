-- ===== src/Segment/Recover/TornTail.antt =====
-- crates/storage/src/segment/recover.rs: a log of complete records, the last write of which may
-- have been interrupted.
use mathlib.Core.List.{append_assoc, append-nil}
use mathlib.Core.Option.{get_or}
use ai_ontology_com.Segment.Recover.Scan.{IsScanned, scan-IsScanned}
use ai_ontology_com.Common.{
  if◌then◌else◌, is_some, ℕ, suc, ◌+◌, ◌-◌, ◌^◌, ◌%◌, ◌≤◌, ◌<◌, ◌≡◌, refl, sym, ap, ◌∙◌, true, List,
  [], ◌∷◌, ◌++◌, Option, none, some, ◌⊎◌, inl, inr, arith, length, length-append, take, Bool-cases,
  ltb, take-append, drop-append, take-append_le, ltb→lt, take-append_of_length,
}
use ai_ontology_com.Common.Result.{ok, err}
use ai_ontology_com.Segment.Bytes.{need, need_short, need_fits, truncated, resize}
use ai_ontology_com.Segment.Kind.{Kind}
use ai_ontology_com.Segment.Header.{DataHeader, IsDataHeader, encode_data_header}
use ai_ontology_com.Segment.Header.RoundTrip.{decode_data_header-encode}
use ai_ontology_com.Segment.Record.{
  RecordHeader, record_span, encode_header, header_of, decode_header, decode_record,
}
use ai_ontology_com.Segment.Record.RoundTrip.{
  record_bytes, length-record_bytes, header_of-encode_header, length-encode_header,
}
use ai_ontology_com.Segment.Recover.Log.{
  Written, bytes_of, IsWritten, IsLog, after, last_seq_of, length-encode_data_header, scan_file,
  at-after, length-after, last_seq-after, length-bytes_of-ge,
}
use ai_ontology_com.Segment.Recover.{
  IndexFields, ScanState, torn, Reason, start, step, scan, reconcile, recover_segment,
}

-- The bytes at the end of the file: none, or a proper front part of one record.
pub record IsFront (tail : List ℕ) (w : Written) : Type 0 where
  pub missing : List ℕ
  pub whole : tail ++ missing ≡ record_bytes w.header w.payload
  pub incomplete : 0 < length missing
  pub begun : 0 < length tail

module _ (crc32c : List ℕ → ℕ) (resolve : Kind → ℕ → List ℕ → Option IndexFields) where
  abbrev IsTruncated : List ℕ → ℕ → Type 0
  IsTruncated buf at = (a n h : ℕ) × (decode_record crc32c buf at true ≡ err (truncated a n h))

  header_cut : (buf : List ℕ) (at : ℕ) → length buf < at + 32 → IsTruncated buf at
  unfolding decode_record decode_header
  header_cut buf at h = (at, 32, length buf - at, rw (need_short buf at 32 h))

  payload_cut :
      (buf : List ℕ) (at : ℕ) (b : List ℕ) (h : RecordHeader)
      → need buf at 32 ≡ ok b
      → header_of b ≡ ok h
      → length buf < at + record_span h.payload_len
      → IsTruncated buf at
  unfolding decode_record decode_header
  payload_cut buf at b h eb eh short =
      elim (Bool-cases (ltb (length buf) (at + 32 + h.payload_len))) [
        | inl t ↦ (
          at + 32,
          h.payload_len,
          length buf - (at + 32),
          rw (eb, eh, need_short buf (at + 32) h.payload_len (ltb→lt _ _ t)),
        )
        | inr t ↦ (
          at,
          at + record_span h.payload_len - at,
          length buf - at,
          rw (
            eb,
            eh,
            need_fits buf (at + 32) h.payload_len (ground arith),
            need_short buf at (at + record_span h.payload_len - at) (omega arith),
          ),
        )
      ]

  -- The first 32 bytes of a front part that has them are the header.
  need-front :
      (out tail : List ℕ) (w : Written)
      → IsFront tail w
      → 32 ≤ length tail
      → need (out ++ tail) (length out) 32 ≡ ok (encode_header w.header)
  need-front out tail w f long =
      rw (need_fits (out ++ tail) (length out) 32 (omega (arith, length-append out tail)))
        (rw (drop-append out tail) (ap ok (sym (take-append_le 32 tail f.missing long) ∙ first)))
    where
      first : take 32 (tail ++ f.missing) ≡ encode_header w.header
      first =
          rw f.whole
            (take-append_of_length 32 (encode_header w.header) _ (length-encode_header w.header))

  -- Cutting a record anywhere before its end gives `truncated`.
  decode_record_front :
      (out tail : List ℕ) (w : Written)
      → IsWritten crc32c resolve w
      → IsFront tail w
      → IsTruncated (out ++ tail) (length out)
  decode_record_front out tail w v f = elim (Bool-cases (ltb (length tail) 32)) [
    | inl t ↦
        header_cut (out ++ tail) (length out) (omega (arith, length-append out tail, ltb→lt _ _ t))
    | inr t ↦
        payload_cut (out ++ tail) (length out) (encode_header w.header) w.header
          (need-front out tail w f (ground arith)) (header_of-encode_header w.header v.header)
          (omega (
            arith,
            length-append out tail,
            length-append tail f.missing,
            ap length f.whole,
            length-record_bytes w.header w.payload,
            ap record_span v.payload_len,
          ))
  ]

  -- The end of the file: nothing, or the front of a record.
  abbrev pub IsTail : List ℕ → Type 0
  IsTail tail = (tail ≡ []) ⊎ ((w : Written) × IsWritten crc32c resolve w × IsFront tail w)

  abbrev Stops : List ℕ → List ℕ → ScanState → Type 0
  Stops data_bytes idx_bytes s =
      (r : Option Reason) × ((fuel : ℕ)
        → scan crc32c resolve (suc fuel) data_bytes idx_bytes s ≡ ok (s, r))

  scan_tail :
      (data_bytes idx_bytes out tail : List ℕ) (s : ScanState)
      → data_bytes ≡ out ++ tail
      → s.at ≡ length out
      → IsTail tail
      → Stops data_bytes idx_bytes s
  unfolding scan step
  scan_tail data_bytes idx_bytes out tail s eb ea (inl e) =
      (none, λ fuel. ground (arith, ap length eb, length-append out tail))
  scan_tail data_bytes idx_bytes out tail s eb ea (inr (w, v, f)) =
      let (a, n, h, d) = decode_record_front out tail w v f in
      (
        some (torn s.at (truncated a n h)),
        λ fuel. ground (arith, ap length eb, length-append out tail),
      )

  scan_file_tail :
      (ws : List Written) (data_bytes idx_bytes out tail : List ℕ) (fuel : ℕ)
      → data_bytes ≡ out ++ (bytes_of ws ++ tail)
      → 32 ≡ length out
      → IsLog crc32c resolve none ws
      → IsTail tail
      → length ws < fuel
      → (r : Option Reason) × (scan crc32c resolve fuel data_bytes idx_bytes start
          ≡ ok (after crc32c resolve start ws, r))
  scan_file_tail ws data_bytes idx_bytes out tail fuel eb ea log t enough =
      let (r, stop) =
        scan_tail data_bytes idx_bytes (out ++ bytes_of ws) tail (after crc32c resolve start ws)
          (eb ∙ simp append_assoc)
          (omega
            (arith, at-after crc32c resolve none ws start log, length-append out (bytes_of ws)))
          t in
      (r, scan_file crc32c resolve ws data_bytes idx_bytes out tail fuel _ eb ea log enough stop)

  resize_front : (front tail : List ℕ) → resize (front ++ tail) (length front) ≡ front
  unfolding resize
  resize_front front tail =
      let none_added : length front - length (front ++ tail) ≡ 0 =
        omega (arith, length-append front tail) in
      rw (take-append front tail, none_added) (append-nil front)

  start-IsScanned :
      (data_bytes idx_bytes : List ℕ)
      → 32 ≤ length data_bytes
      → IsScanned crc32c resolve data_bytes idx_bytes start
  start-IsScanned data_bytes idx_bytes h = record {
    within = h;
    chain = refl;
    ascending = tt;
    last = tt;
    described = tt;
  }

  -- What is left of the file once it is cut, or not, where the scan stopped.
  kept_bytes :
      (front tail idx_bytes : List ℕ) (s : ScanState) (r : Option Reason) (fuel : ℕ)
      → 32 ≤ length front
      → s.at ≡ length front
      → scan crc32c resolve fuel (front ++ tail) idx_bytes start ≡ ok (s, r)
      → (if is_some r then resize (front ++ tail) s.at else front ++ tail) ≡ front
  kept_bytes front tail idx_bytes s (some reason) fuel big ea e = rw ea (resize_front front tail)
  kept_bytes front [] idx_bytes s none fuel big ea e = append-nil front
  kept_bytes front (x ∷ tail) idx_bytes s none fuel big ea e =
      let first =
        start-IsScanned (front ++ (x ∷ tail)) idx_bytes
          (omega (arith, length-append front (x ∷ tail))) in
      let (_, whole) =
        scan-IsScanned crc32c resolve (front ++ (x ∷ tail)) idx_bytes fuel start s none first e in
      absurd (omega (arith, whole refl, length-append front (x ∷ tail)))

  -- A segment that holds a header, complete records with rising sequence numbers and, at its end,
  -- possibly the front of one more record, is recovered to exactly the header and the complete
  -- records, whatever the index file holds; the report counts them and the bytes discarded.
  pub recover_segment-torn :
      (partition_id : ℕ) (hd : DataHeader) (ws : List Written) (tail : List ℕ)
      (idx : Option (List ℕ))
      → IsDataHeader hd
      → hd.version ≡ 1
      → IsLog crc32c resolve none ws
      → IsTail tail
      → (idx' : Option (List ℕ)) × (n : ℕ) × (recover_segment crc32c resolve partition_id
            (encode_data_header hd ++ (bytes_of ws ++ tail))
            idx
          ≡ ok (
            record {
              header = hd;
              data_len = 32 + length (bytes_of ws);
              count = length ws % 2 ^ 32;
              last_seq = last_seq_of crc32c resolve none ws;
              truncated_bytes = length tail;
              idx_rewritten = n;
            },
            encode_data_header hd ++ bytes_of ws,
            idx',
          ))
  unfolding recover_segment
  recover_segment-torn partition_id hd ws tail idx v version log t =
      let hb = encode_data_header hd in
      let buf = hb ++ (bytes_of ws ++ tail) in
      let size : length buf ≡ 32 + length (bytes_of ws) + length tail = omega (
        arith,
        length-append hb (bytes_of ws ++ tail),
        length-append (bytes_of ws) tail,
        length-encode_data_header hd,
      ) in
      let (r, scanned) =
        scan_file_tail ws buf (get_or idx []) hb tail (length buf) refl
          (sym (length-encode_data_header hd)) log t
          (omega (arith, length-bytes_of-ge crc32c resolve none ws log)) in
      let stop = at-after crc32c resolve none ws start log in
      let kept =
        kept_bytes (hb ++ bytes_of ws) tail (get_or idx []) (after crc32c resolve start ws) r
          (length buf) (omega (arith, length-append hb (bytes_of ws), length-encode_data_header hd))
          (omega (arith, length-append hb (bytes_of ws), length-encode_data_header hd))
          (rw (append_assoc hb (bytes_of ws) tail) scanned) in
      let found = decode_data_header-encode hd (bytes_of ws ++ tail) v in
      let done = reconcile partition_id hd idx (after crc32c resolve start ws).entries in
      (
        done.0,
        done.1,
        ground (
          arith,
          scanned,
          kept,
          found,
          append_assoc hb (bytes_of ws) tail,
          length-after crc32c resolve ws start,
          last_seq-after crc32c resolve ws start,
        ),
      )

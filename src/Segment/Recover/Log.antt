-- ===== src/Segment/Recover/Log.antt =====
-- crates/storage/src/segment/recover.rs: the scan of a file that begins with complete records.
use Prim.Native.Nat.add
use mathlib.Core.Path.{subst}
use mathlib.Core.List.{append_assoc}
use ai_ontology_com.Common.{
  ℕ, suc, ◌+◌, ◌-◌, ◌≤◌, ◌<◌, ◌≡◌, refl, ap, ◌∙◌, true, false, List, [], ◌∷◌, ◌++◌, Option, none,
  some, arith, length, length-append, ltb, lt→ltb,
}
use ai_ontology_com.Common.Result.{Result, ok}
use ai_ontology_com.Segment.Kind.{Kind}
use ai_ontology_com.Segment.Header.{DataHeader, encode_data_header}
use ai_ontology_com.Segment.Record.{RecordHeader, IsHeader, record_span}
use ai_ontology_com.Segment.Record.RoundTrip.{
  record_bytes, length-record_bytes, decode_record-bytes,
}
use ai_ontology_com.Segment.Recover.{
  IndexFields, ScanState, go_on, Reason, RecoverError, start, entry_for, is_stale, step, scan,
}

-- A record as `encode_record` lays it out, with the index fields that the store resolves for it.
pub record Written : Type 0 where
  pub header : RecordHeader
  pub payload : List ℕ
  pub fields : IndexFields

abbrev pub bytes_of : List Written → List ℕ
bytes_of [] = []
bytes_of (w ∷ ws) = record_bytes w.header w.payload ++ bytes_of ws

pub record_span-ge : (n : ℕ) → 32 ≤ record_span n
unfolding record_span
record_span-ge n = omega arith

pub length-encode_data_header : (h : DataHeader) → length (encode_data_header h) ≡ 32
unfolding encode_data_header
length-encode_data_header h = refl

module _ (crc32c : List ℕ → ℕ) (resolve : Kind → ℕ → List ℕ → Option IndexFields) where
  pub record IsWritten (w : Written) : Type 0 where
    pub header : IsHeader w.header
    pub payload_len : w.header.payload_len ≡ length w.payload
    pub crc : w.header.crc ≡ crc32c w.payload
    pub resolves : resolve w.header.kind w.header.codec w.payload ≡ some w.fields

  -- Each record is well formed and has a larger sequence number than the one before it.
  abbrev pub IsLog : Option ℕ → List Written → Type 0
  IsLog last [] = Unit
  IsLog last (w ∷ ws) =
      IsWritten w × (is_stale last w.header.seq ≡ false) × IsLog (some w.header.seq) ws

  abbrev pub passed : ScanState → Written → ScanState
  passed s w = record {
    at = s.at + record_span w.header.payload_len;
    entries =
        s.entries
        ++ (entry_for
              (record {
                header = w.header;
                payload = w.payload;
                offset = s.at;
                next = s.at + record_span w.header.payload_len;
              })
              w.fields
            ∷ []);
    last_seq = some w.header.seq;
  }

  abbrev pub after : ScanState → List Written → ScanState
  after s [] = s
  after s (w ∷ ws) = after (passed s w) ws

  pub step_written :
      (data_bytes idx_bytes out rest : List ℕ) (s : ScanState) (w : Written)
      → data_bytes ≡ out ++ (record_bytes w.header w.payload ++ rest)
      → s.at ≡ length out
      → IsWritten w
      → is_stale s.last_seq w.header.seq ≡ false
      → step crc32c resolve data_bytes idx_bytes s ≡ ok (go_on (passed s w))
  unfolding step
  step_written data_bytes idx_bytes out rest s w eb ea v fresh = ground (
    arith,
    decode_record-bytes crc32c out rest w.header w.payload true v.header v.payload_len v.crc,
  )

  pub scan_round :
      (data_bytes idx_bytes : List ℕ) (s t : ScanState) (fuel : ℕ)
      → ltb s.at (length data_bytes) ≡ true
      → step crc32c resolve data_bytes idx_bytes s ≡ ok (go_on t)
      → scan crc32c resolve (suc fuel) data_bytes idx_bytes s
        ≡ scan crc32c resolve fuel data_bytes idx_bytes t
  unfolding scan
  scan_round data_bytes idx_bytes s t fuel more round = rw (more, scan) (rw (round, scan) refl)

  -- A round for each of the records.
  pub scan_written :
      (ws : List Written) (data_bytes idx_bytes out rest : List ℕ) (s : ScanState) (fuel : ℕ)
      → data_bytes ≡ out ++ (bytes_of ws ++ rest)
      → s.at ≡ length out
      → IsLog s.last_seq ws
      → scan crc32c resolve (length ws + fuel) data_bytes idx_bytes s
        ≡ scan crc32c resolve fuel data_bytes idx_bytes (after s ws)
  scan_written [] data_bytes idx_bytes out rest s fuel eb ea log = rw add.zero
  scan_written (w ∷ ws) data_bytes idx_bytes out rest s fuel eb ea (v, fresh, log) =
      let size = length-record_bytes w.header w.payload in
      let plen = ap record_span v.payload_len in
      let moved : s.at + record_span w.header.payload_len
          ≡ length (out ++ record_bytes w.header w.payload) =
        omega (arith, length-append out (record_bytes w.header w.payload)) in
      let regroup : data_bytes ≡ (out ++ record_bytes w.header w.payload) ++ (bytes_of ws ++ rest) =
        eb ∙ simp append_assoc in
      let front : data_bytes ≡ out ++ (record_bytes w.header w.payload ++ (bytes_of ws ++ rest)) =
        eb ∙ simp append_assoc in
      let more : ltb s.at (length data_bytes) ≡ true = lt→ltb _ _ (
        omega (
          arith,
          ap length front,
          length-append out (record_bytes w.header w.payload ++ (bytes_of ws ++ rest)),
          length-append (record_bytes w.header w.payload) (bytes_of ws ++ rest),
          record_span-ge (length w.payload),
        )) in
      let round =
        step_written data_bytes idx_bytes out (bytes_of ws ++ rest) s w front ea v fresh in
      rw (add.suc (length ws) fuel) (
        scan_round data_bytes idx_bytes s (passed s w) (length ws + fuel) more round
        ∙ scan_written ws data_bytes idx_bytes (out ++ record_bytes w.header w.payload) rest
            (passed s w) fuel regroup moved log)

  -- Then what is behind them decides.
  pub scan_file :
      (ws : List Written) (data_bytes idx_bytes out rest : List ℕ) (fuel : ℕ)
      (r : Result RecoverError (ScanState × Option Reason))
      → data_bytes ≡ out ++ (bytes_of ws ++ rest)
      → 32 ≡ length out
      → IsLog none ws
      → length ws < fuel
      → ((more : ℕ) → scan crc32c resolve (suc more) data_bytes idx_bytes (after start ws) ≡ r)
      → scan crc32c resolve fuel data_bytes idx_bytes start ≡ r
  scan_file ws data_bytes idx_bytes out rest fuel r eb ea log enough stop =
      let split : length ws + suc (fuel - length ws - 1) ≡ fuel = omega arith in
      subst (λ (n : ℕ). scan crc32c resolve n data_bytes idx_bytes start ≡ r) split
        (scan_written ws data_bytes idx_bytes out rest start _ eb ea log ∙ stop _)

  pub at-after :
      (last : Option ℕ) (ws : List Written) (s : ScanState)
      → IsLog last ws
      → (after s ws).at ≡ s.at + length (bytes_of ws)
  at-after last [] s log = omega arith
  at-after last (w ∷ ws) s (v, fresh, log) = omega (
    arith,
    at-after (some w.header.seq) ws (passed s w) log,
    length-append (record_bytes w.header w.payload) (bytes_of ws),
    length-record_bytes w.header w.payload,
    ap record_span v.payload_len,
  )

  pub length-after :
      (ws : List Written) (s : ScanState)
      → length (after s ws).entries ≡ length s.entries + length ws
  length-after [] s = omega arith
  length-after (w ∷ ws) s =
      omega (arith, length-after ws (passed s w), length-append s.entries (_ ∷ []))

  abbrev pub last_seq_of : Option ℕ → List Written → Option ℕ
  last_seq_of last [] = last
  last_seq_of last (w ∷ ws) = last_seq_of (some w.header.seq) ws

  pub last_seq-after :
      (ws : List Written) (s : ScanState) → (after s ws).last_seq ≡ last_seq_of s.last_seq ws
  last_seq-after [] s = refl
  last_seq-after (w ∷ ws) s = last_seq-after ws (passed s w)

  pub length-bytes_of-ge :
      (last : Option ℕ) (ws : List Written) → IsLog last ws → length ws ≤ length (bytes_of ws)
  length-bytes_of-ge last [] log = omega arith
  length-bytes_of-ge last (w ∷ ws) (v, fresh, log) = omega (
    arith,
    length-bytes_of-ge (some w.header.seq) ws log,
    length-append (record_bytes w.header w.payload) (bytes_of ws),
    length-record_bytes w.header w.payload,
    record_span-ge (length w.payload),
  )

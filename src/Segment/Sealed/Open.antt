-- ===== src/Segment/Sealed/Open.antt =====
-- crates/storage/src/segment: what `seal` leaves, `open` accepts.
use mathlib.Core.Path.{subst}
use mathlib.Core.List.{append-nil}
use ai_ontology_com.Common.{
  ℕ, suc, ◌+◌, ◌%◌, ◌^◌, ◌<◌, ◌≡◌, refl, sym, ap, ◌∙◌, ◌⊎◌, inl, inr, List, [], ◌∷◌, ◌++◌, Option,
  none, some, arith, length, length-append, drop-append_of_length, All,
}
use ai_ontology_com.Common.Result.{ok}
use ai_ontology_com.Segment.Kind.{Kind}
use ai_ontology_com.Segment.Header.{
  IsDataHeader, IsIdxHeader, new_data_header, encode_data_header, new_idx_header, encode_idx_header,
}
use ai_ontology_com.Segment.Header.RoundTrip.{decode_data_header-encode, decode_idx_header-encode}
use ai_ontology_com.Segment.Record.{record_span}
use ai_ontology_com.Segment.Record.RoundTrip.{record_bytes, length-record_bytes}
use ai_ontology_com.Segment.Index.{
  IdxEntry, IsEntry, encode_entries, decode_entry, file_offset, count_in,
}
use ai_ontology_com.Segment.Index.Positions.{decode_entry-file_offset, count_in-length}
use ai_ontology_com.Segment.Recover.{IndexFields, entry_for, write_at}
use ai_ontology_com.Segment.Recover.Rebuild.{write_at-start, length-encode_idx_header}
use ai_ontology_com.Segment.Recover.Log.{Written, bytes_of, IsLog, length-encode_data_header}
use ai_ontology_com.Segment.Active.{ActiveSegment, commit, seal}
use ai_ontology_com.Segment.Active.Durable.{
  Log, whole, entries_of, header_of_segment, index_header, commit-Holds, bytes_of-append,
  entries_of-append, IsLog-front, IsLog-back, length-entries_of,
}
use ai_ontology_com.Segment.Active.Refines.{Related}
use ai_ontology_com.Segment.Sealed.{SealedSegment, open_sealed, covered_by, entry}
use ai_ontology_com.Segment.Sealed.Positions.{nth, All-at, decode_nth}

commit-ids :
    (s : ActiveSegment)
    → ((commit s).1.partition_id ≡ s.partition_id)
      × ((commit s).1.base_seq ≡ s.base_seq)
      × ((commit s).1.codec ≡ s.codec)
unfolding commit
commit-ids s = ground arith

module _ (crc32c : List ℕ → ℕ) (resolve : Kind → ℕ → List ℕ → Option IndexFields) where
  abbrev sealed_header : ActiveSegment → Log → List ℕ
  sealed_header s l =
      encode_idx_header (new_idx_header s.partition_id s.base_seq (length (whole l) % 2 ^ 32))

  seal-files :
      (s : ActiveSegment) (l : Log)
      → Related crc32c resolve s l
      → seal s ≡ (
        header_of_segment s ++ bytes_of (whole l),
        sealed_header s l ++ encode_entries (entries_of 32 (whole l)),
      )
  unfolding seal
  seal-files s l r =
      let t = (commit s).1 in
      let h = commit-Holds crc32c resolve s l.durable l.buffered r.log r.holds in
      let (p, b, c) = commit-ids s in
      let old = index_header t in
      let new = encode_idx_header (new_idx_header t.partition_id t.base_seq t.count) in
      let es = encode_entries (entries_of 32 (whole l)) in
      let file : t.data_file.file ≡ header_of_segment s ++ bytes_of (whole l) =
        h.file ∙ rw (p, b, c, append-nil (whole l)) refl in
      let index : write_at t.idx_file.file 0 new ≡ sealed_header s l ++ es =
        ap (λ f. write_at f 0 new) h.index
        ∙ write_at-start (old ++ es) new
        ∙ ap (λ x. new ++ x)
            (drop-append_of_length (length new) old es (
              length-encode_idx_header (new_idx_header t.partition_id t.base_seq 0)
              ∙ sym (length-encode_idx_header (new_idx_header t.partition_id t.base_seq t.count))))
        ∙ rw (p, b, h.count) refl in
      rw (file, index) refl

  covered_by-snoc :
      (header : List ℕ) (front : List Written) (w : Written)
      → IsLog crc32c resolve none (front ++ (w ∷ []))
      → length header ≡ 32
      → All IsEntry (entries_of 32 (front ++ (w ∷ [])))
      → 32 + length (bytes_of (front ++ (w ∷ []))) < 2 ^ 64
      → covered_by
          (header ++ encode_entries (entries_of 32 (front ++ (w ∷ []))))
          (length (front ++ (w ∷ [])))
        ≡ ok (32 + length (bytes_of (front ++ (w ∷ []))))
  unfolding covered_by entry_for
  covered_by-snoc header front w log size valid room =
      let at = 32 + length (bytes_of front) in
      let before = entries_of 32 front in
      let (v, _, _) = IsLog-back crc32c resolve none front (w ∷ []) log in
      let split =
        entries_of-append crc32c resolve front (w ∷ []) none 32 at
          (IsLog-front crc32c resolve none front (w ∷ []) log) refl in
      let last : IdxEntry =
        entry_for
          (record {
            header = w.header;
            payload = w.payload;
            offset = at;
            next = at + record_span w.header.payload_len;
          })
          w.fields in
      let found : decode_entry (header ++ encode_entries (entries_of 32 (front ++ (w ∷ []))))
            (file_offset (length before))
          ≡ ok last =
        subst (λ x. decode_entry (header ++ x) (file_offset (length before)) ≡ ok last)
          (append-nil (encode_entries (before ++ (last ∷ []))) ∙ ap encode_entries (sym split))
          (decode_entry-file_offset header [] before [] last
            (All-at IsEntry before [] last (subst (All IsEntry) split valid)) size) in
      let size_before : length before ≡ length front = length-entries_of 32 front in
      let more : length (front ++ (w ∷ [])) ≡ suc (length front) =
        omega (arith, length-append front (w ∷ [])) in
      rw more (
        rw (← size_before) (
          rw found (
            ap ok (
              omega (
                arith,
                room,
                ap length (bytes_of-append crc32c resolve front (w ∷ [])),
                length-append (bytes_of front) (bytes_of (w ∷ [])),
                length-append (record_bytes w.header w.payload) [],
                length-record_bytes w.header w.payload,
                ap record_span v.payload_len,
              )))))

  snoc-cases :
      (ws : List Written)
      → (ws ≡ []) ⊎ ((front : List Written) × (w : Written) × (ws ≡ front ++ (w ∷ [])))
  snoc-cases [] = inl refl
  snoc-cases (w ∷ ws) = elim (snoc-cases ws) [
    | inl e ↦ inr ([], w, ap (◌∷◌ w) e)
    | inr (front, v, e) ↦ inr (w ∷ front, v, ap (◌∷◌ w) e)
  ]

  -- The bytes that the index of a log accounts for.
  covered_by-log :
      (header : List ℕ) (ws : List Written)
      → IsLog crc32c resolve none ws
      → length header ≡ 32
      → All IsEntry (entries_of 32 ws)
      → 32 + length (bytes_of ws) < 2 ^ 64
      → covered_by (header ++ encode_entries (entries_of 32 ws)) (length ws)
        ≡ ok (32 + length (bytes_of ws))
  unfolding covered_by
  covered_by-log header ws log size valid room = elim (snoc-cases ws) [
    | inl e ↦ rw e (ground arith)
    | inr (front, w, e) ↦ rw e (
        covered_by-snoc header front w (subst (IsLog crc32c resolve none) e log) size
          (subst (λ x. All IsEntry (entries_of 32 x)) e valid)
          (subst (λ x. 32 + length (bytes_of x) < 2 ^ 64) e room))
  ]

  -- Sealing a segment that holds a log, and opening the two files, succeeds when the log has fewer
  -- than 2 ^ 32 records, the file is shorter than 2 ^ 64 bytes and the header and the index entries
  -- fit their field types. The sealed segment counts all records, durable and buffered, and its
  -- entries are those of the records, in order.
  pub open_sealed-seal :
      (s : ActiveSegment) (l : Log)
      → Related crc32c resolve s l
      → IsDataHeader (new_data_header s.partition_id s.base_seq s.codec)
      → length (whole l) < 2 ^ 32
      → 32 + length (bytes_of (whole l)) < 2 ^ 64
      → All IsEntry (entries_of 32 (whole l))
      → (t : SealedSegment) × (open_sealed s.partition_id (seal s).0 (seal s).1 ≡ ok t)
        × (t.count ≡ length (whole l))
        × ((i : ℕ)
            → i < length (whole l)
            → (e : IdxEntry) × (nth (entries_of 32 (whole l)) i ≡ some e) × (entry t i ≡ some e))
  unfolding open_sealed entry new_data_header new_idx_header
  open_sealed-seal s l r fits few room valid =
      let hd = new_data_header s.partition_id s.base_seq s.codec in
      let ix = new_idx_header s.partition_id s.base_seq (length (whole l) % 2 ^ 32) in
      let es = entries_of 32 (whole l) in
      let ranges : IsIdxHeader ix = record {
        version = ground arith;
        entry_size = ground arith;
        partition_id = fits.partition_id;
        base_seq = fits.base_seq;
        count = omega arith;
      } in
      let data_bytes = encode_data_header hd ++ bytes_of (whole l) in
      let idx = encode_idx_header ix ++ encode_entries es in
      let size = length-encode_idx_header ix in
      let counted : count_in (length idx) ≡ length es =
        subst (λ x. count_in (length (encode_idx_header ix ++ x)) ≡ length es)
          (append-nil (encode_entries es))
          (count_in-length (encode_idx_header ix) [] es size (ground arith)) in
      let covers = covered_by-log (encode_idx_header ix) (whole l) r.log size valid room in
      let covered : covered_by idx (count_in (length idx)) ≡ ok (32 + length (bytes_of (whole l))) =
        ap (covered_by idx) (counted ∙ length-entries_of 32 (whole l)) ∙ covers in
      let bytes : length data_bytes ≡ 32 + length (bytes_of (whole l)) = omega (
        arith,
        length-append (encode_data_header hd) (bytes_of (whole l)),
        length-encode_data_header hd,
      ) in
      let t : SealedSegment = record {
        partition_id = s.partition_id;
        data_header = hd;
        idx_header = ix;
        data_bytes = data_bytes;
        idx_bytes = idx;
        count = count_in (length idx);
      } in
      (
        t,
        rw (seal-files s l r) (
            ground (
              arith,
              decode_data_header-encode hd (bytes_of (whole l)) fits,
              decode_idx_header-encode ix (encode_entries es) ranges,
              few,
              counted,
              length-entries_of 32 (whole l),
              covered,
              bytes,
            )),
        counted ∙ length-entries_of 32 (whole l),
        λ i less.
            let (e, n, d) =
              decode_nth (encode_idx_header ix) es i valid size
                (omega (arith, less, length-entries_of 32 (whole l))) in
            (e, n, ground (arith, d, less, counted, length-entries_of 32 (whole l))),
      )

-- ===== src/Segment/Recover/Rebuild.antt =====
-- crates/storage/src/segment/recover.rs: an index file that is missing or foreign is rebuilt.
use mathlib.Core.List.{append_assoc, append-nil}
use mathlib.Core.Option.{get_or}
use ai_ontology_com.Common.{
  ℕ, ◌+◌, ◌*◌, ◌≡◌, refl, sym, false, List, [], ◌∷◌, ◌++◌, Option, some, arith, length,
  length-append, drop, take-append_of_length,
}
use ai_ontology_com.Segment.Bytes.{resize}
use ai_ontology_com.Segment.Header.{DataHeader, encode_idx_header, new_idx_header}
use ai_ontology_com.Segment.Index.{
  IdxEntry, encode_entries, encode_entry, length-encode_entry, file_offset,
}
use ai_ontology_com.Segment.Recover.{header_matches, write_at, reconcile}

-- Bytes that are as long as asked for, with anything behind them.
resize_front : (out rest : List ℕ) (n : ℕ) → n ≡ length out → resize (out ++ rest) n ≡ out
unfolding resize
resize_front out rest n e =
    rw (take-append_of_length n out rest (sym e))
      (ground (arith, length-append out rest, append-nil out))

length-encode_entries : (es : List IdxEntry) → length (encode_entries es) ≡ length es * 48
length-encode_entries [] = refl
length-encode_entries (e ∷ es) = omega (
  arith,
  length-append (encode_entry e) (encode_entries es),
  length-encode_entry e,
  length-encode_entries es,
)

pub write_at-start :
    (file bytes : List ℕ) → write_at file 0 bytes ≡ bytes ++ drop (length bytes) file
unfolding write_at resize
write_at-start file bytes = ground arith

write_at-end :
    (front rest bytes : List ℕ) (at : ℕ)
    → at ≡ length front
    → write_at (front ++ rest) at bytes
      ≡ front ++ (bytes ++ drop (at + length bytes) (front ++ rest))
unfolding write_at
write_at-end front rest bytes at e = rw (resize_front front rest at e)

pub length-encode_idx_header : (h : _) → length (encode_idx_header h) ≡ 32
unfolding encode_idx_header
length-encode_idx_header h = refl

rebuilt :
    (h idx : List ℕ) (entries : List IdxEntry)
    → length h ≡ 32
    → resize (write_at (write_at idx 0 h) 32 (encode_entries entries)) (32 + length entries * 48)
      ≡ h ++ encode_entries entries
rebuilt h idx entries size =
    let behind = drop (length h) idx in
    let left = drop (32 + length (encode_entries entries)) (h ++ behind) in
    rw (write_at-start idx h, write_at-end h behind (encode_entries entries) 32 (sym size))
      (rw (← append_assoc h (encode_entries entries) left) (
        resize_front (h ++ encode_entries entries) left (32 + length entries * 48) (
          omega (
            arith,
            length-append h (encode_entries entries),
            size,
            length-encode_entries entries,
          ))))

-- An index file without a header for this segment, and so also one that is missing, is replaced
-- by a new header and an entry for each record, in order, whatever bytes it had.
pub reconcile-rebuilt :
    (partition_id : ℕ) (header : DataHeader) (idx : Option (List ℕ)) (entries : List IdxEntry)
    → header_matches (get_or idx []) partition_id header.base_seq ≡ false
    → reconcile partition_id header idx entries ≡ (
      some (
          encode_idx_header (new_idx_header partition_id header.base_seq 0)
          ++ encode_entries entries),
      length entries,
    )
unfolding reconcile file_offset
reconcile-rebuilt partition_id header idx entries foreign =
    let h = encode_idx_header (new_idx_header partition_id header.base_seq 0) in
    ground (
      arith,
      foreign,
      rebuilt h (get_or idx []) entries
          (length-encode_idx_header (new_idx_header partition_id header.base_seq 0)),
    )

-- ===== src/Segment/Index/Positions.antt =====
-- crates/storage/src/segment/format.rs: index entries are found by their position in the file.
use mathlib.Core.List.{append_assoc}
use ai_ontology_com.Common.{
  ℕ, ◌+◌, ◌*◌, ◌<◌, ◌≡◌, refl, sym, List, [], ◌∷◌, ◌++◌, arith, length, length-append,
}
use ai_ontology_com.Common.Result.{ok}
use ai_ontology_com.Segment.Bytes.{need_lem}
use ai_ontology_com.Segment.Index.{
  IdxEntry, IsEntry, encode_entry, encode_entries, decode_entry, file_offset, count_in,
  entry_of-encode_entry, length-encode_entry,
}

length-encode_entries : (es : List IdxEntry) → length (encode_entries es) ≡ length es * 48
length-encode_entries [] = refl
length-encode_entries (e ∷ es) = omega (
  arith,
  length-encode_entries es,
  length-append (encode_entry e) (encode_entries es),
  length-encode_entry e,
)

pub encode_entries-append :
    (es fs : List IdxEntry) → encode_entries (es ++ fs) ≡ encode_entries es ++ encode_entries fs
encode_entries-append [] fs = refl
encode_entries-append (e ∷ es) fs =
    rw (encode_entries-append es fs)
      (sym (append_assoc (encode_entry e) (encode_entries es) (encode_entries fs)))

-- Behind a header of 32 bytes, the entry that follows `before` is decoded at
-- `file_offset (length before)`, whatever bytes end the file.
pub decode_entry-file_offset :
    (header tail : List ℕ) (before after : List IdxEntry) (e : IdxEntry)
    → IsEntry e
    → length header ≡ 32
    → decode_entry
        (header ++ (encode_entries (before ++ (e ∷ after)) ++ tail))
        (file_offset (length before))
      ≡ ok e
unfolding decode_entry file_offset
decode_entry-file_offset header tail before after e v size =
    rw
      (need_lem _ (header ++ encode_entries before) (encode_entry e) (encode_entries after ++ tail)
        _ 48 layout place (sym (length-encode_entry e)))
      (entry_of-encode_entry e v)
  where
    layout :
        header ++ (encode_entries (before ++ (e ∷ after)) ++ tail)
        ≡ (header ++ encode_entries before) ++ (encode_entry e ++ (encode_entries after ++ tail))
    layout = rw (encode_entries-append before (e ∷ after)) (simp append_assoc)

    place : 32 + length before * 48 ≡ length (header ++ encode_entries before)
    place =
        omega (arith, length-append header (encode_entries before), length-encode_entries before)

-- The number of entries is read off the length of the file; an incomplete last entry is not counted.
pub count_in-length :
    (header tail : List ℕ) (es : List IdxEntry)
    → length header ≡ 32
    → length tail < 48
    → count_in (length (header ++ (encode_entries es ++ tail))) ≡ length es
unfolding count_in
count_in-length header tail es size short = omega (
  arith,
  length-append header (encode_entries es ++ tail),
  length-append (encode_entries es) tail,
  length-encode_entries es,
)

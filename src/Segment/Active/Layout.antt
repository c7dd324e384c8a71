-- ===== src/Segment/Active/Layout.antt =====
-- crates/storage/src/segment/active.rs: writing at the end of a file.
use mathlib.Core.List.{append_assoc, append-nil}
use ai_ontology_com.Common.{
  ℕ, ◌+◌, ◌≤◌, ◌≡◌, refl, ◌∙◌, List, [], ◌∷◌, ◌++◌, arith, length, length-append, length-drop,
  take_all, drop,
}
use ai_ontology_com.Segment.Bytes.{resize}
use ai_ontology_com.Segment.Index.{IdxEntry, encode_entry, encode_entries}
use ai_ontology_com.Segment.Recover.{write_at}
use ai_ontology_com.Segment.Active.{Writer, write_all, write_each}

pub drop_all : (n : ℕ) (xs : List ℕ) → length xs ≤ n → drop n xs ≡ []
drop_all n xs h = nothing_left (drop n xs) (omega (arith, length-drop n xs))
  where
    nothing_left : (ys : List ℕ) → length ys ≡ 0 → ys ≡ []
    nothing_left [] e = refl
    nothing_left (y ∷ ys) e = absurd (omega arith)

-- At the end of a file, a write appends.
pub write_all-end :
    (w : Writer) (bytes : List ℕ)
    → w.pos ≡ length w.file
    → write_all w bytes ≡ record { file = w.file ++ bytes; pos = length (w.file ++ bytes) }
unfolding write_all write_at resize
write_all-end w bytes e = ground (
  arith,
  e,
  take_all w.pos w.file (omega (arith, e)),
  drop_all (w.pos + length bytes) w.file (omega (arith, e)),
  append-nil w.file,
  append-nil bytes,
  length-append w.file bytes,
)

pub write_each-end :
    (es : List IdxEntry) (w : Writer)
    → w.pos ≡ length w.file
    → write_each w es
      ≡ record { file = w.file ++ encode_entries es; pos = length (w.file ++ encode_entries es) }
unfolding write_each
write_each-end [] w e = rw (append-nil w.file) (ground (arith, e))
write_each-end (x ∷ es) w e =
    rw (write_all-end w (encode_entry x) e) (
      write_each-end es _ refl ∙ rw (append_assoc w.file (encode_entry x) (encode_entries es)) refl)

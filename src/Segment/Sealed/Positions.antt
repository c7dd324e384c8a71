-- ===== src/Segment/Sealed/Positions.antt =====
-- crates/storage/src/segment: the entry at a position of an index file.
use mathlib.Core.Path.{subst}
use mathlib.Core.List.{append-nil}
use ai_ontology_com.Common.{
  ℕ, zero, suc, ◌<◌, ◌≡◌, refl, sym, ap, ◌∙◌, List, [], ◌∷◌, ◌++◌, Option, none, some, arith,
  length, All,
}
use ai_ontology_com.Common.Result.{ok}
use ai_ontology_com.Segment.Index.{IdxEntry, IsEntry, encode_entries, decode_entry, file_offset}
use ai_ontology_com.Segment.Index.Positions.{decode_entry-file_offset}

-- The element at a position.
abbrev pub nth {ℓ} : {A : Type ℓ} → List A → ℕ → Option A
nth [] i = none
nth (x ∷ xs) zero = some x
nth (x ∷ xs) (suc i) = nth xs i

pub nth-split {ℓ} :
    {A : Type ℓ} (xs : List A) (i : ℕ)
    → i < length xs
    → (before : List A) × (x : A) × (after : List A) × (xs ≡ before ++ (x ∷ after))
      × (length before ≡ i)
      × (nth xs i ≡ some x)
nth-split [] i h = absurd (omega arith)
nth-split (x ∷ xs) zero h = ([], x, xs, refl, refl, refl)
nth-split (x ∷ xs) (suc i) h =
    let (before, y, after, e, l, n) = nth-split xs i (omega arith) in
    (x ∷ before, y, after, ap (◌∷◌ x) e, omega (arith, l), n)

pub All-at {ℓ κ} :
    {A : Type ℓ} (Q : A → Type κ) (before after : List A) (x : A)
    → All Q (before ++ (x ∷ after))
    → Q x
All-at Q [] after x (q, _) = q
All-at Q (_ ∷ before) after x (_, qs) = All-at Q before after x qs

-- An index file of a header and entries.
module _ (header : List ℕ) (es : List IdxEntry) where
  abbrev pub index_of : List ℕ
  index_of = header ++ encode_entries es

  pub decode_nth :
      (i : ℕ)
      → All IsEntry es
      → length header ≡ 32
      → i < length es
      → (e : IdxEntry) × (nth es i ≡ some e) × (decode_entry index_of (file_offset i) ≡ ok e)
  decode_nth i valid size less =
      let (before, e, after, split, l, n) = nth-split es i less in
      (
        e,
        n,
        rw (← l) (
            subst (λ x. decode_entry (header ++ x) (file_offset (length before)) ≡ ok e)
              (append-nil (encode_entries (before ++ (e ∷ after))) ∙ ap encode_entries (sym split))
              (decode_entry-file_offset header [] before after e
                (All-at IsEntry before after e (subst (All IsEntry) split valid)) size)),
      )

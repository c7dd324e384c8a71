-- ===== src/Segment/Sealed/Search.antt =====
-- crates/storage/src/segment/sealed.rs, `find_seq`: the binary search.
use ai_ontology_com.Common.{
  ℕ, zero, suc, ◌+◌, ◌-◌, ◌/◌, ◌≤◌, ◌<◌, ◌≡◌, ◌↔◌, some, arith, ltb, inl, inr, Option-cases,
  Bool-cases,
}
use ai_ontology_com.Segment.Index.{IdxEntry}
use ai_ontology_com.Segment.Sealed.{SealedSegment, entry, search, find_seq}

-- Every entry up to the count is read, and their sequence numbers rise.
pub record IsAscending (s : SealedSegment) : Type 0 where
  pub read : (i : ℕ) → i < s.count → (e : IdxEntry) × (entry s i ≡ some e)
  pub rises :
      (i j : ℕ) (a b : IdxEntry) → i < j → entry s i ≡ some a → entry s j ≡ some b → a.seq < b.seq

search-entry :
    (s : SealedSegment) (seq fuel lo hi i : ℕ)
    → search s seq fuel lo hi ≡ some i
    → (e : IdxEntry) × (entry s i ≡ some e) × (e.seq ≡ seq)
unfolding search
search-entry s seq zero lo hi i h = absurd (ground (arith, h))
search-entry s seq (suc fuel) lo hi i h =
    let mid = lo + (hi - lo) / 2 in
    elim (Option-cases (entry s mid)) [
      | inl e ↦ absurd (ground (arith, h, e))
      | inr (x, e) ↦ elim (Bool-cases (ltb x.seq seq)) [
        | inl less ↦ search-entry s seq fuel (mid + 1) hi i (ground (arith, h, e, less))
        | inr le ↦ elim (Bool-cases (ltb seq x.seq)) [
          | inl more ↦ search-entry s seq fuel lo mid i (ground (arith, h, e, le, more))
          | inr ge ↦ (x, ground (arith, h, e, le, ge), ground (arith, le, ge))
        ]
      ]
    ]

search-finds :
    (s : SealedSegment) (seq fuel lo hi i : ℕ) (e : IdxEntry)
    → IsAscending s
    → hi ≤ s.count
    → hi - lo ≤ fuel
    → lo ≤ i
    → i < hi
    → entry s i ≡ some e
    → e.seq ≡ seq
    → search s seq fuel lo hi ≡ some i
unfolding search
search-finds s seq zero lo hi i e up inside enough below above at same = absurd (omega arith)
search-finds s seq (suc fuel) lo hi i e up inside enough below above at same =
    let mid = lo + (hi - lo) / 2 in
    let (x, there) = up.read mid (omega (arith, inside, below, above)) in
    ground (
      arith,
      there,
      at,
      same,
      below,
      above,
      inside,
      enough,
      up.rises i mid e x,
      up.rises mid i x e,
      λ (l : mid + 1 ≤ i).
          search-finds s seq fuel (mid + 1) hi i e up inside (omega (arith, enough)) l above at
            same,
      λ (l : i < mid).
          search-finds s seq fuel lo mid i e up (omega (arith, inside, below, above))
            (omega (arith, enough, below, above)) below l at same,
    )

pub entry-below : (s : SealedSegment) (i : ℕ) (e : IdxEntry) → entry s i ≡ some e → i < s.count
unfolding entry
entry-below s i e h = ground (arith, h)

-- In a segment whose entries are all readable and have rising sequence numbers, `find_seq` answers a
-- position exactly when the entry there has the sequence number.
pub find_seq_lem :
    (s : SealedSegment) (seq i : ℕ)
    → IsAscending s
    → (find_seq s seq ≡ some i) ↔ ((e : IdxEntry) × (entry s i ≡ some e) × (e.seq ≡ seq))
unfolding find_seq
find_seq_lem s seq i up = (
  λ h. search-entry s seq s.count 0 s.count i h,
  λ (e, at, same).
      search-finds s seq s.count 0 s.count i e up (omega arith) (omega arith) (omega arith)
        (entry-below s i e at) at same,
)

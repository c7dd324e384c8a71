-- ===== src/Segment/Sealed/Logged.antt =====
-- crates/storage/src/segment: the entries of a sealed log rise, so its records are found.
use ai_ontology_com.Common.{
  ℕ, zero, suc, ◌+◌, ◌^◌, ◌<◌, ◌≡◌, sym, ◌∙◌, List, [], ◌∷◌, Option, none, some, arith, length, All,
}
use ai_ontology_com.Common.Result.{ok}
use ai_ontology_com.Segment.Kind.{Kind}
use ai_ontology_com.Segment.Header.{IsDataHeader, new_data_header}
use ai_ontology_com.Segment.Record.{record_span}
use ai_ontology_com.Segment.Index.{IdxEntry, IsEntry}
use ai_ontology_com.Segment.Recover.{IndexFields, entry_for}
use ai_ontology_com.Segment.Recover.Log.{Written, bytes_of, IsLog}
use ai_ontology_com.Segment.Active.{ActiveSegment, seal}
use ai_ontology_com.Segment.Active.Durable.{Log, whole, entries_of}
use ai_ontology_com.Segment.Active.Refines.{Related}
use ai_ontology_com.Segment.Sealed.{SealedSegment, open_sealed}
use ai_ontology_com.Segment.Sealed.Search.{IsAscending, entry-below}
use ai_ontology_com.Segment.Sealed.Positions.{nth}
use ai_ontology_com.Segment.Sealed.Open.{open_sealed-seal}

module _ (crc32c : List ℕ → ℕ) (resolve : Kind → ℕ → List ℕ → Option IndexFields) where
  nth-above :
      (ws : List Written) (at last j : ℕ) (b : IdxEntry)
      → IsLog crc32c resolve (some last) ws
      → nth (entries_of at ws) j ≡ some b
      → last < b.seq
  unfolding entry_for
  nth-above [] at last j b log h = absurd (ground (arith, h))
  nth-above (w ∷ ws) at last zero b (_, fresh, _) h = ground (arith, fresh, h)
  nth-above (w ∷ ws) at last (suc j) b (_, fresh, log) h =
      let next = nth-above ws (at + record_span w.header.payload_len) w.header.seq j b log h in
      ground (arith, fresh, next)

  nth-rises :
      (ws : List Written) (at : ℕ) (last : Option ℕ) (i j : ℕ) (a b : IdxEntry)
      → IsLog crc32c resolve last ws
      → i < j
      → nth (entries_of at ws) i ≡ some a
      → nth (entries_of at ws) j ≡ some b
      → a.seq < b.seq
  unfolding entry_for
  nth-rises [] at last i j a b log less ha hb = absurd (ground (arith, ha))
  nth-rises (w ∷ ws) at last i zero a b log less ha hb = absurd (omega (arith, less))
  nth-rises (w ∷ ws) at last zero (suc j) a b (_, _, log) less ha hb =
      let next = nth-above ws (at + record_span w.header.payload_len) w.header.seq j b log hb in
      ground (arith, ha, next)
  nth-rises (w ∷ ws) at last (suc i) (suc j) a b (_, _, log) less ha hb =
      nth-rises ws (at + record_span w.header.payload_len) (some w.header.seq) i j a b log
        (omega (arith, less)) ha hb

  pub open_sealed-IsAscending :
      (s : ActiveSegment) (l : Log)
      → Related crc32c resolve s l
      → IsDataHeader (new_data_header s.partition_id s.base_seq s.codec)
      → length (whole l) < 2 ^ 32
      → 32 + length (bytes_of (whole l)) < 2 ^ 64
      → All IsEntry (entries_of 32 (whole l))
      → (t : SealedSegment) × (open_sealed s.partition_id (seal s).0 (seal s).1 ≡ ok t)
        × IsAscending t
  open_sealed-IsAscending s l r fits few room valid =
      let (t, opened, n, all) = open_sealed-seal crc32c resolve s l r fits few room valid in
      (
        t,
        opened,
        record {
          read = λ i less. let (e, _, h) = all i (omega (arith, less, n)) in (e, h);
          rises = λ i j a b less ha hb.
              let (x, hx, ex) = all i (omega (arith, entry-below t i a ha, n)) in
              let (y, hy, ey) = all j (omega (arith, entry-below t j b hb, n)) in
              nth-rises (whole l) 32 none i j a b r.log less (hx ∙ sym ex ∙ ha) (hy ∙ sym ey ∙ hb);
        },
      )

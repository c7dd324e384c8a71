-- ===== src/Segment/Active/Durable.antt =====
-- crates/storage/src/segment/active.rs: appending and committing, seen as a log of records of which
-- the first part is durable.
use mathlib.Core.List.{append_assoc, append-nil}
use ai_ontology_com.Common.{
  ℕ, ◌+◌, ◌%◌, ◌^◌, ◌<◌, ◌≡◌, refl, sym, ap, ◌∙◌, List, [], ◌∷◌, ◌++◌, Option, none, some, arith,
  length, length-append,
}
use ai_ontology_com.Segment.Kind.{Kind}
use ai_ontology_com.Segment.Header.{
  new_data_header, encode_data_header, new_idx_header, encode_idx_header,
}
use ai_ontology_com.Segment.Record.{header_for, record_span}
use ai_ontology_com.Segment.Record.RoundTrip.{
  record_bytes, length-record_bytes, encode_record-layout,
}
use ai_ontology_com.Segment.Index.{IdxEntry, encode_entries}
use ai_ontology_com.Segment.Index.Positions.{encode_entries-append}
use ai_ontology_com.Segment.Recover.{IndexFields, entry_for, write_at}
use ai_ontology_com.Segment.Recover.Log.{
  Written, bytes_of, IsLog, last_seq_of, length-encode_data_header,
}
use ai_ontology_com.Segment.Active.{
  ActiveSegment, empty_file, get_or_insert, create, commit, append_with_codec,
}
use ai_ontology_com.Segment.Active.Layout.{write_all-end, write_each-end}

-- What a segment promises: a log, the first part of which a crash does not lose.
pub record Log : Type 0 where
  pub durable : List Written
  pub buffered : List Written

abbrev pub whole : Log → List Written
whole l = l.durable ++ l.buffered

-- The index entries of records that lie one behind the other from `at` on.
abbrev pub entries_of : ℕ → List Written → List IdxEntry
entries_of at [] = []
entries_of at (w ∷ ws) =
    entry_for
      (record {
        header = w.header;
        payload = w.payload;
        offset = at;
        next = at + record_span w.header.payload_len;
      })
      w.fields
    ∷ entries_of (at + record_span w.header.payload_len) ws

abbrev pub header_of_segment : ActiveSegment → List ℕ
header_of_segment s = encode_data_header (new_data_header s.partition_id s.base_seq s.codec)

abbrev pub index_header : ActiveSegment → List ℕ
index_header s = encode_idx_header (new_idx_header s.partition_id s.base_seq 0)

commit_nothing : (s : ActiveSegment) → s.pending_idx ≡ [] → commit s ≡ (0, s)
unfolding commit
commit_nothing s e = ground (arith, e)

pub length-entries_of : (at : ℕ) (ws : List Written) → length (entries_of at ws) ≡ length ws
length-entries_of at [] = refl
length-entries_of at (w ∷ ws) =
    omega (arith, length-entries_of (at + record_span w.header.payload_len) ws)

module _ (crc32c : List ℕ → ℕ) (resolve : Kind → ℕ → List ℕ → Option IndexFields) where
  -- A segment whose files hold the log.
  pub record Holds (s : ActiveSegment) (l : Log) : Type 0 where
    pub file : s.data_file.file ≡ header_of_segment s ++ bytes_of (whole l)
    pub pos : s.data_file.pos ≡ length s.data_file.file
    pub synced : s.synced ≡ 32 + length (bytes_of l.durable)
    pub index : s.idx_file.file ≡ index_header s ++ encode_entries (entries_of 32 l.durable)
    pub idx_pos : s.idx_file.pos ≡ length s.idx_file.file
    pub pending : s.pending_idx ≡ entries_of (32 + length (bytes_of l.durable)) l.buffered
    pub data_len : s.data_len ≡ length s.data_file.file
    pub count : s.count ≡ length l.durable % 2 ^ 32

  pub create-Holds :
      (partition_id base_seq codec : ℕ)
      → Holds (create partition_id base_seq codec) (record { durable = []; buffered = [] })
  unfolding create write_at encode_data_header
  create-Holds partition_id base_seq codec =
      let hd = encode_data_header (new_data_header partition_id base_seq codec) in
      let ix = encode_idx_header (new_idx_header partition_id base_seq 0) in
      rw (write_all-end empty_file hd refl, write_all-end empty_file ix refl)
        (record {
          file = sym (append-nil hd);
          pos = refl;
          synced = length-encode_data_header (new_data_header partition_id base_seq codec);
          index = sym (append-nil ix);
          idx_pos = refl;
          pending = refl;
          data_len = sym (length-encode_data_header (new_data_header partition_id base_seq codec));
          count = omega arith;
        })

  pub entries_of-append :
      (ws vs : List Written) (last : Option ℕ) (at end : ℕ)
      → IsLog crc32c resolve last ws
      → end ≡ at + length (bytes_of ws)
      → entries_of at (ws ++ vs) ≡ entries_of at ws ++ entries_of end vs
  entries_of-append [] vs last at end log e = ap (λ n. entries_of n vs) (omega (arith, e))
  entries_of-append (w ∷ ws) vs last at end (v, _, log) e =
      ap
        (◌∷◌ (
          entry_for
            (record {
              header = w.header;
              payload = w.payload;
              offset = at;
              next = at + record_span w.header.payload_len;
            })
            w.fields))
        (entries_of-append ws vs (some w.header.seq) (at + record_span w.header.payload_len) end log
          (omega (
            arith,
            e,
            length-append (record_bytes w.header w.payload) (bytes_of ws),
            length-record_bytes w.header w.payload,
            ap record_span v.payload_len,
          )))

  pub bytes_of-append : (vs ws : List Written) → bytes_of (vs ++ ws) ≡ bytes_of vs ++ bytes_of ws
  bytes_of-append [] ws = refl
  bytes_of-append (v ∷ vs) ws =
      rw (bytes_of-append vs ws)
        (sym (append_assoc (record_bytes v.header v.payload) (bytes_of vs) (bytes_of ws)))

  -- The record that an append writes.
  abbrev pub record_for : ℕ → ℕ → Kind → ℕ → List ℕ → IndexFields → Written
  record_for seq ts_micros kind codec payload fields = record {
    header = header_for crc32c seq ts_micros kind codec payload;
    payload = payload;
    fields = fields;
  }

  pub IsLog-front :
      (last : Option ℕ) (vs ws : List Written)
      → IsLog crc32c resolve last (vs ++ ws)
      → IsLog crc32c resolve last vs
  IsLog-front last [] ws log = tt
  IsLog-front last (v ∷ vs) ws (valid, fresh, log) =
      (valid, fresh, IsLog-front (some v.header.seq) vs ws log)

  -- Committing makes the buffered records durable.
  pub commit-Holds :
      (s : ActiveSegment) (durable buffered : List Written)
      → IsLog crc32c resolve none (durable ++ buffered)
      → Holds s (record { durable = durable; buffered = buffered })
      → Holds (commit s).1 (record { durable = durable ++ buffered; buffered = [] })
  unfolding commit
  commit-Holds s durable [] log h = rw (commit_nothing s h.pending, append-nil durable) h
  commit-Holds s durable (b ∷ bs) log h =
      let hd = header_of_segment s in
      let entries = entries_of (32 + length (bytes_of durable)) (b ∷ bs) in
      rw (h.pending, write_each-end entries s.idx_file h.idx_pos)
        (record {
          file = h.file ∙ rw (append-nil (durable ++ (b ∷ bs))) refl;
          pos = h.pos;
          synced = omega (
            arith,
            ap length h.file,
            length-append hd (bytes_of (durable ++ (b ∷ bs))),
            length-encode_data_header (new_data_header s.partition_id s.base_seq s.codec),
          );
          index =
              ap (λ x. x ++ encode_entries entries) h.index
              ∙ append_assoc (index_header s) (encode_entries (entries_of 32 durable))
                  (encode_entries entries)
              ∙ ap (λ x. index_header s ++ x)
                  (sym (
                    ap encode_entries (
                      entries_of-append durable (b ∷ bs) none 32 (32 + length (bytes_of durable))
                        (IsLog-front none durable (b ∷ bs) log) refl)
                    ∙ encode_entries-append (entries_of 32 durable) entries));
          idx_pos = refl;
          pending = refl;
          data_len = h.data_len;
          count = omega (
            arith,
            h.count,
            length-entries_of (32 + length (bytes_of durable)) (b ∷ bs),
            length-append durable (b ∷ bs),
          );
        })

  abbrev pub appended : ActiveSegment → Written → ActiveSegment
  appended s w =
      let file = s.data_file.file ++ record_bytes w.header w.payload in
      record s {
        data_file = record { file = file; pos = length file };
        data_len = length file;
        pending_idx = s.pending_idx ++ entries_of s.data_len (w ∷ []);
        first_seq = get_or_insert s.first_seq w.header.seq;
        last_seq = w.header.seq;
      }

  pub append_outcome :
      (s : ActiveSegment) (seq ts_micros : ℕ) (kind : Kind) (codec : ℕ) (payload : List ℕ)
      (fields : IndexFields)
      → length payload < 2 ^ 32
      → s.data_file.pos ≡ length s.data_file.file
      → s.data_len ≡ length s.data_file.file
      → length s.data_file.file + record_span (length payload) < 2 ^ 64
      → append_with_codec crc32c s seq ts_micros kind codec payload fields
        ≡ some (s.data_len, appended s (record_for seq ts_micros kind codec payload fields))
  unfolding append_with_codec entry_for
  append_outcome s seq ts_micros kind codec payload fields small pos len room =
      let h = header_for crc32c seq ts_micros kind codec payload in
      let layout = encode_record-layout crc32c [] seq ts_micros kind codec payload small in
      let joined : length (s.data_file.file ++ record_bytes h payload)
          ≡ (s.data_len + length (record_bytes h payload)) % 2 ^ 64 =
        omega (
          arith,
          len,
          room,
          length-append s.data_file.file (record_bytes h payload),
          length-record_bytes h payload,
        ) in
      let short : length payload % 2 ^ 32 ≡ length payload = omega (arith, small) in
      rw (layout, append_with_codec)
        (rw (write_all-end s.data_file (record_bytes h payload) pos, short, joined) refl)

  snoc_bytes :
      (ws : List Written) (w : Written)
      → bytes_of (ws ++ (w ∷ [])) ≡ bytes_of ws ++ record_bytes w.header w.payload
  snoc_bytes ws w =
      bytes_of-append ws (w ∷ [])
      ∙ ap (λ x. bytes_of ws ++ x) (append-nil (record_bytes w.header w.payload))

  pub IsLog-back :
      (last : Option ℕ) (vs ws : List Written)
      → IsLog crc32c resolve last (vs ++ ws)
      → IsLog crc32c resolve (last_seq_of crc32c resolve last vs) ws
  IsLog-back last [] ws log = log
  IsLog-back last (v ∷ vs) ws (_, _, log) = IsLog-back (some v.header.seq) vs ws log

  pub length_file :
      (s : ActiveSegment) (durable buffered : List Written)
      → Holds s (record { durable = durable; buffered = buffered })
      → length s.data_file.file ≡ 32 + length (bytes_of durable) + length (bytes_of buffered)
  length_file s durable buffered h = omega (
    arith,
    ap length h.file,
    length-append (header_of_segment s) (bytes_of (durable ++ buffered)),
    ap length (bytes_of-append durable buffered),
    length-append (bytes_of durable) (bytes_of buffered),
    length-encode_data_header (new_data_header s.partition_id s.base_seq s.codec),
  )

  pub append-Holds :
      (s : ActiveSegment) (durable buffered : List Written) (w : Written)
      → IsLog crc32c resolve none (durable ++ buffered)
      → Holds s (record { durable = durable; buffered = buffered })
      → Holds (appended s w) (record { durable = durable; buffered = buffered ++ (w ∷ []) })
  append-Holds s durable buffered w log h = record {
    file =
        ap (λ x. x ++ record_bytes w.header w.payload) h.file
        ∙ append_assoc (header_of_segment s) (bytes_of (durable ++ buffered))
            (record_bytes w.header w.payload)
        ∙ ap (λ x. header_of_segment s ++ x)
            (sym (snoc_bytes (durable ++ buffered) w)
              ∙ ap bytes_of (append_assoc durable buffered (w ∷ [])));
    pos = refl;
    synced = h.synced;
    index = h.index;
    idx_pos = h.idx_pos;
    pending =
        ap (λ p. p ++ entries_of s.data_len (w ∷ [])) h.pending
        ∙ sym (
            entries_of-append buffered (w ∷ []) (last_seq_of crc32c resolve none durable)
              (32 + length (bytes_of durable)) s.data_len (IsLog-back none durable buffered log)
              (h.data_len ∙ length_file s durable buffered h));
    data_len = refl;
    count = h.count;
  }

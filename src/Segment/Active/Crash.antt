-- ===== src/Segment/Active/Crash.antt =====
-- crates/storage/src/segment: what recovery finds when the writer was stopped. A crash leaves the
-- bytes that were synced, and behind them the front of those written since.
use mathlib.Core.List.{append_assoc}
use ai_ontology_com.Common.{
  ℕ, ◌+◌, ◌-◌, ◌%◌, ◌^◌, ◌≤◌, ◌<◌, ◌≡◌, refl, sym, ap, ◌∙◌, inl, inr, Bool-cases, ltb, ltb→lt, List,
  [], ◌∷◌, ◌++◌, Option, none, some, arith, length, length-append, length-drop, take, drop, zero,
  suc, take-append_le,
}
use ai_ontology_com.Common.Result.{ok}
use ai_ontology_com.Segment.Kind.{Kind}
use ai_ontology_com.Segment.Header.{IsDataHeader, new_data_header}
use ai_ontology_com.Segment.Record.RoundTrip.{record_bytes}
use ai_ontology_com.Segment.Recover.{IndexFields, Recovered, recover_segment}
use ai_ontology_com.Segment.Recover.Log.{
  Written, bytes_of, IsLog, last_seq_of, length-encode_data_header,
}
use ai_ontology_com.Segment.Recover.TornTail.{IsTail, recover_segment-torn}
use ai_ontology_com.Segment.Active.{ActiveSegment}
use ai_ontology_com.Segment.Active.Durable.{
  Log, header_of_segment, bytes_of-append, IsLog-front, IsLog-back,
}
use ai_ontology_com.Segment.Active.Refines.{Related}

take-append_ge :
    (xs ys : List ℕ) (n : ℕ) → length xs ≤ n → take n (xs ++ ys) ≡ xs ++ take (n - length xs) ys
take-append_ge [] ys n h = ap (λ k. take k ys) (omega arith)
take-append_ge (x ∷ xs) ys zero h = absurd (omega arith)
take-append_ge (x ∷ xs) ys (suc n) h =
    ap (◌∷◌ x) (take-append_ge xs ys n (omega arith) ∙ ap (λ k. xs ++ take k ys) (omega arith))

take-drop : (n : ℕ) (xs : List ℕ) → take n xs ++ drop n xs ≡ xs
take-drop zero xs = refl
take-drop (suc n) [] = refl
take-drop (suc n) (x ∷ xs) = ap (◌∷◌ x) (take-drop n xs)

-- The first of the records behind those that are kept ends past the cut.
abbrev pub IsCutShort : ℕ → ℕ → List Written → List Written → Type 0
IsCutShort n begin kept [] = Unit {0}
IsCutShort n begin kept (w ∷ _) = n < begin + length (bytes_of (kept ++ (w ∷ [])))

IsCutShort-cons :
    (n : ℕ) (w : Written) (kept back : List Written)
    → length (record_bytes w.header w.payload) ≤ n
    → IsCutShort (n - length (record_bytes w.header w.payload)) 0 kept back
    → IsCutShort n 0 (w ∷ kept) back
IsCutShort-cons n w kept [] le h = tt
IsCutShort-cons n w kept (x ∷ _) le h =
    omega
      (arith, le, h, length-append (record_bytes w.header w.payload) (bytes_of (kept ++ (x ∷ []))))

module _ (crc32c : List ℕ → ℕ) (resolve : Kind → ℕ → List ℕ → Option IndexFields) where
  -- Any front of the bytes of a log is the bytes of the records that end in it and the front of a
  -- record.
  record Cut (n : ℕ) (ws : List Written) : Type 0 where
    front : List Written
    back : List Written
    tail : List ℕ
    split : ws ≡ front ++ back
    bytes : take n (bytes_of ws) ≡ bytes_of front ++ tail
    torn : IsTail crc32c resolve tail
    fits : length (bytes_of front) ≤ n
    short : IsCutShort n 0 front back

  inside :
      (n : ℕ) (w : Written) (ws : List Written) (last : Option ℕ)
      → IsLog crc32c resolve last (w ∷ ws)
      → n < length (record_bytes w.header w.payload)
      → Cut n (w ∷ ws)
  inside zero w ws last log less = record {
    front = [];
    back = w ∷ ws;
    tail = [];
    split = refl;
    bytes = refl;
    torn = inl refl;
    fits = omega arith;
    short = omega (arith, less, length-append (record_bytes w.header w.payload) []);
  }
  inside (suc n) w ws last (v, _, log) less =
      let bytes = record_bytes w.header w.payload in
      let begin = take (suc n) bytes in
      let end = drop (suc n) bytes in
      record {
        front = [];
        back = w ∷ ws;
        tail = begin;
        split = refl;
        bytes = take-append_le (suc n) bytes (bytes_of ws) (omega (arith, less));
        torn = inr (
          w,
          v,
          record {
            missing = end;
            whole = take-drop (suc n) bytes;
            incomplete = omega (arith, length-drop (suc n) bytes, less);
            begun = omega (
              arith,
              length-drop (suc n) bytes,
              less,
              ap length (take-drop (suc n) bytes),
              length-append begin end,
            );
          },
        );
        fits = omega arith;
        short = omega (arith, less, length-append (record_bytes w.header w.payload) []);
      }

  cut : (ws : List Written) (last : Option ℕ) (n : ℕ) → IsLog crc32c resolve last ws → Cut n ws
  cut [] last n log = record {
    front = [];
    back = [];
    tail = [];
    split = refl;
    bytes = take_nothing n;
    torn = inl refl;
    fits = omega arith;
    short = tt;
  }
    where
      take_nothing : (k : ℕ) → take k (bytes_of []) ≡ []
      take_nothing zero = refl
      take_nothing (suc k) = refl
  cut (w ∷ ws) last n (v, fresh, log) =
      let bytes = record_bytes w.header w.payload in
      elim (Bool-cases (ltb n (length bytes))) [
        | inl t ↦ inside n w ws last (v, fresh, log) (ltb→lt _ _ t)
        | inr t ↦
            let rest = cut ws (some w.header.seq) (n - length bytes) log in
            record {
              front = w ∷ rest.front;
              back = rest.back;
              tail = rest.tail;
              split = ap (◌∷◌ w) rest.split;
              bytes =
                  take-append_ge bytes (bytes_of ws) n (ground (arith, t))
                  ∙ ap (λ x. bytes ++ x) rest.bytes
                  ∙ sym (append_assoc bytes (bytes_of rest.front) rest.tail);
              torn = rest.torn;
              fits = ground (arith, t, rest.fits, length-append bytes (bytes_of rest.front));
              short = IsCutShort-cons n w rest.front rest.back (ground (arith, t)) rest.short;
            }
      ]

  IsCutShort-durable :
      (n size : ℕ) (durable front back : List Written)
      → size + length (bytes_of durable) ≤ n
      → IsCutShort (n - size - length (bytes_of durable)) 0 front back
      → IsCutShort n size (durable ++ front) back
  IsCutShort-durable n size durable front [] le h = tt
  IsCutShort-durable n size durable front (w ∷ _) le h = omega (
    arith,
    le,
    h,
    ap (λ ws. length (bytes_of ws)) (append_assoc durable front (w ∷ [])),
    ap length (bytes_of-append crc32c resolve durable (front ++ (w ∷ []))),
    length-append (bytes_of durable) (bytes_of (front ++ (w ∷ []))),
  )

  -- Where a crash keeps the synced bytes of a segment that holds a log, and any front of the bytes
  -- written since, recovery succeeds whatever the index file holds. It returns the header, all durable
  -- records and of the buffered ones, in their order, exactly those that are complete in the file:
  -- what it keeps lies within the bytes that are left, and the next buffered record ends past them. The
  -- rest is cut off. The partition id, the base sequence number and the codec fit their field types.
  pub recover_segment-crash :
      (s : ActiveSegment) (l : Log) (n : ℕ) (idx : Option (List ℕ))
      → Related crc32c resolve s l
      → IsDataHeader (new_data_header s.partition_id s.base_seq s.codec)
      → s.synced ≤ n
      → (front back : List Written) × (report : Recovered) × (idx' : Option (List ℕ)) × (l.buffered
          ≡ front ++ back)
        × (32 + length (bytes_of (l.durable ++ front)) ≤ n)
        × IsCutShort n 32 (l.durable ++ front) back
        × (report.count ≡ length (l.durable ++ front) % 2 ^ 32)
        × (report.last_seq ≡ last_seq_of crc32c resolve none (l.durable ++ front))
        × (recover_segment crc32c resolve s.partition_id (take n s.data_file.file) idx
            ≡ ok (report, header_of_segment s ++ bytes_of (l.durable ++ front), idx'))
  unfolding new_data_header
  recover_segment-crash s l n idx r fits kept =
      let hd = header_of_segment s in
      let size = length-encode_data_header (new_data_header s.partition_id s.base_seq s.codec) in
      let behind = n - length hd - length (bytes_of l.durable) in
      let c =
        cut l.buffered (last_seq_of crc32c resolve none l.durable) behind
          (IsLog-back crc32c resolve none l.durable l.buffered r.log) in
      let file : take n s.data_file.file ≡ hd ++ (bytes_of (l.durable ++ c.front) ++ c.tail) =
        ap (take n)
          (r.holds.file ∙ ap (λ x. hd ++ x) (bytes_of-append crc32c resolve l.durable l.buffered))
        ∙ take-append_ge hd (bytes_of l.durable ++ bytes_of l.buffered) n
            (omega (arith, kept, r.holds.synced, size))
        ∙ ap (λ x. hd ++ x)
            (take-append_ge (bytes_of l.durable) (bytes_of l.buffered) (n - length hd)
                (omega (arith, kept, r.holds.synced, size))
              ∙ ap (λ x. bytes_of l.durable ++ x) c.bytes
              ∙ sym (append_assoc (bytes_of l.durable) (bytes_of c.front) c.tail)
              ∙ ap (λ x. x ++ c.tail) (sym (bytes_of-append crc32c resolve l.durable c.front))) in
      let (idx', k, e) =
        recover_segment-torn crc32c resolve s.partition_id
          (new_data_header s.partition_id s.base_seq s.codec) (l.durable ++ c.front) c.tail idx fits
          refl
          (IsLog-front crc32c resolve none (l.durable ++ c.front) c.back
            (rw (append_assoc l.durable c.front c.back, ← c.split) r.log))
          c.torn in
      (
        c.front,
        c.back,
        _,
        idx',
        c.split,
        omega (
          arith,
          kept,
          r.holds.synced,
          c.fits,
          ap length (bytes_of-append crc32c resolve l.durable c.front),
          length-append (bytes_of l.durable) (bytes_of c.front),
        ),
        IsCutShort-durable n 32 l.durable c.front c.back (omega (arith, kept, r.holds.synced))
            (rw (← size) c.short),
        refl,
        refl,
        ap (λ file. recover_segment crc32c resolve s.partition_id file idx) file ∙ e,
      )

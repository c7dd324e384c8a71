-- ===== src/Segment/Active/Refines.antt =====
-- crates/storage/src/segment/active.rs: runs of appends and commits against runs on the log.
use mathlib.Core.List.{append_assoc, append-nil}
use ai_ontology_com.Common.{
  ℕ, ◌+◌, ◌^◌, ◌<◌, ◌≡◌, refl, false, List, [], ◌∷◌, ◌++◌, Option, none, some, arith, length,
}
use ai_ontology_com.Segment.Kind.{Kind}
use ai_ontology_com.Segment.Record.{record_span}
use ai_ontology_com.Segment.Recover.{IndexFields, is_stale}
use ai_ontology_com.Segment.Recover.Log.{Written, bytes_of, IsWritten, IsLog, last_seq_of}
use ai_ontology_com.Segment.Active.{ActiveSegment, create, commit, append_with_codec}
use ai_ontology_com.Segment.Active.Durable.{
  Log, whole, Holds, record_for, appended, create-Holds, commit-Holds, append_outcome, append-Holds,
  length_file,
}

-- What a store asks of the segment.
pub data Op : Type 0 where
  add : (seq ts_micros : ℕ) (kind : Kind) (codec : ℕ) (payload : List ℕ) (fields : IndexFields) → Op
  flush : Op

abbrev pub nothing_logged : Log
nothing_logged = record { durable = []; buffered = [] }

module _ (crc32c : List ℕ → ℕ) where
  abbrev on_second : Option (ℕ × ActiveSegment) → Option ActiveSegment
  on_second none = none
  on_second (some (_, s)) = some s

  unfoldable pub apply : ActiveSegment → Op → Option ActiveSegment
  apply s (add seq ts_micros kind codec payload fields) =
      on_second (append_with_codec crc32c s seq ts_micros kind codec payload fields)
  apply s flush = some (commit s).1

  unfoldable pub run : ActiveSegment → List Op → Option ActiveSegment
  run s [] = some s
  run s (op ∷ ops) = elim (apply s op) [ none ↦ none | some s' ↦ run s' ops ]

module _ (crc32c : List ℕ → ℕ) (resolve : Kind → ℕ → List ℕ → Option IndexFields) where
  -- The same on the log.
  abbrev pub log_op : Log → Op → Log
  log_op l (add seq ts_micros kind codec payload fields) = record l {
    buffered =
        l.buffered ++ (record_for crc32c resolve seq ts_micros kind codec payload fields ∷ []);
  }
  log_op l flush = record { durable = whole l; buffered = [] }

  abbrev pub log_run : Log → List Op → Log
  log_run l [] = l
  log_run l (op ∷ ops) = log_run (log_op l op) ops

  -- A record that is appended is well formed, newer than the last one, and the file stays below
  -- 2 ^ 64 bytes.
  abbrev pub IsAllowed : Log → Op → Type 0
  IsAllowed l (add seq ts_micros kind codec payload fields) =
      IsWritten crc32c resolve (record_for crc32c resolve seq ts_micros kind codec payload fields)
      × (is_stale (last_seq_of crc32c resolve none (whole l)) seq ≡ false)
      × (32
            + length (bytes_of l.durable)
            + length (bytes_of l.buffered)
            + record_span (length payload)
          < 2 ^ 64)
  IsAllowed l flush = Unit

  abbrev pub AreAllowed : Log → List Op → Type 0
  AreAllowed l [] = Unit
  AreAllowed l (op ∷ ops) = IsAllowed l op × AreAllowed (log_op l op) ops

  IsLog-snoc :
      (last : Option ℕ) (ws : List Written) (w : Written)
      → IsLog crc32c resolve last ws
      → IsWritten crc32c resolve w
      → is_stale (last_seq_of crc32c resolve last ws) w.header.seq ≡ false
      → IsLog crc32c resolve last (ws ++ (w ∷ []))
  IsLog-snoc last [] w log v fresh = (v, fresh, tt)
  IsLog-snoc last (x ∷ ws) w (vx, fx, log) v fresh =
      (vx, fx, IsLog-snoc (some x.header.seq) ws w log v fresh)

  -- The log and the segment that holds it, after one operation.
  pub record Related (s : ActiveSegment) (l : Log) : Type 0 where
    pub holds : Holds crc32c resolve s l
    pub log : IsLog crc32c resolve none (whole l)

  apply-Related :
      (s : ActiveSegment) (l : Log) (op : Op)
      → Related s l
      → IsAllowed l op
      → (s' : ActiveSegment) × (apply crc32c s op ≡ some s') × Related s' (log_op l op)
  unfolding apply
  apply-Related s l (add seq ts kind codec payload fields) r (w, fresh, room) =
      let v = record_for crc32c resolve seq ts kind codec payload fields in
      (
        appended crc32c resolve s v,
        rw
            (append_outcome crc32c resolve s seq ts kind codec payload fields w.header.payload_len
              r.holds.pos r.holds.data_len
              (omega (arith, room, length_file crc32c resolve s l.durable l.buffered r.holds)))
            refl,
        record {
          holds = append-Holds crc32c resolve s l.durable l.buffered v r.log r.holds;
          log =
              rw (← append_assoc l.durable l.buffered (v ∷ []))
                (IsLog-snoc none (whole l) v r.log w fresh);
        },
      )
  apply-Related s l flush r allowed = (
    (commit s).1,
    refl,
    record {
      holds = commit-Holds crc32c resolve s l.durable l.buffered r.log r.holds;
      log = rw (append-nil (whole l)) r.log;
    },
  )

  run-Related :
      (ops : List Op) (s : ActiveSegment) (l : Log)
      → Related s l
      → AreAllowed l ops
      → (s' : ActiveSegment) × (run crc32c s ops ≡ some s') × Related s' (log_run l ops)
  unfolding run
  run-Related [] s l r _ = (s, refl, r)
  run-Related (op ∷ ops) s l r (allowed, all) =
      let (s', e, r') = apply-Related s l op r allowed in
      let (t, e', r'') = run-Related ops s' (log_op l op) r' all in (t, rw (e, run) e', r'')

  -- A new segment refines an empty log under every sequence of appends and commits, when each record
  -- appended is well formed, has a larger sequence number than the one before it and leaves the file
  -- below 2 ^ 64 bytes: no operation fails, the data file is the header and the records of the log in
  -- order, its synced part ends with the durable records, the index file is a header and an entry for
  -- each durable record, and the pending entries are those of the buffered records.
  pub run-create :
      (partition_id base_seq codec : ℕ) (ops : List Op)
      → AreAllowed nothing_logged ops
      → (s : ActiveSegment) × (run crc32c (create partition_id base_seq codec) ops ≡ some s)
        × Related s (log_run nothing_logged ops)
  run-create partition_id base_seq codec ops allowed =
      run-Related ops (create partition_id base_seq codec) nothing_logged
        (record { holds = create-Holds crc32c resolve partition_id base_seq codec; log = tt })
        allowed

-- ===== src/Segment/Recover/Scan.antt =====
-- crates/storage/src/segment/recover.rs: what the scan has established when it stops, whatever
-- the two files hold.
use ai_ontology_com.Common.{
  ap, ℕ, zero, suc, ◌+◌, ◌≤◌, ◌<◌, ◌≡◌, ◌≢◌, refl, true, false, List, [], ◌∷◌, ◌++◌, Option, none,
  some, inl, inr, arith, length, All, All-append, Option-cases, Bool-cases, ltb,
}
use ai_ontology_com.Common.Result.{ok, err, Result-cases}
use ai_ontology_com.Segment.Bytes.{need}
use ai_ontology_com.Segment.Kind.{Kind}
use ai_ontology_com.Segment.Record.{RecordView, record_span, decode_record}
use ai_ontology_com.Segment.Index.{IdxEntry}
use ai_ontology_com.Segment.Recover.{
  IndexFields, ScanState, go_on, cut, corrupt, does_not_decode, stale_seq, previous, Reason,
  out_of_fuel, entry_for, is_stale, accept, step, scan, refuse_unless_last,
}

-- The entries lie one behind the other from `a` to `b`, with no gap.
abbrev pub Chain : ℕ → List IdxEntry → ℕ → Type 0
Chain a [] b = a ≡ b
Chain a (e ∷ es) b = (e.offset ≡ a) × Chain (a + record_span e.payload_len) es b

Chain-snoc :
    (a b : ℕ) (es : List IdxEntry) (e : IdxEntry)
    → Chain a es b
    → e.offset ≡ b
    → Chain a (es ++ (e ∷ [])) (b + record_span e.payload_len)
Chain-snoc a b [] e c h = ground (arith)
Chain-snoc a b (x ∷ es) e (p, c) h = (p, Chain-snoc (a + record_span x.payload_len) b es e c h)

abbrev pub Ascending : List IdxEntry → Type 0
Ascending [] = Unit
Ascending (e ∷ es) = All (λ f. e.seq < f.seq) es × Ascending es

Ascending-snoc :
    (es : List IdxEntry) (e : IdxEntry)
    → All (λ f. f.seq < e.seq) es
    → Ascending es
    → Ascending (es ++ (e ∷ []))
Ascending-snoc [] e a h = (tt, tt)
Ascending-snoc (x ∷ es) e (p, a) (q, h) =
    (All-append (λ f. x.seq < f.seq) es (e ∷ []) q (p, tt), Ascending-snoc es e a h)

abbrev AtMost : Option ℕ → IdxEntry → Type 0
AtMost none e = ⊥
AtMost (some p) e = e.seq ≤ p

lt_of_fresh :
    (last : Option ℕ) (seq : ℕ) (es : List IdxEntry)
    → is_stale last seq ≡ false
    → All (AtMost last) es
    → All (λ f. f.seq < seq) es
lt_of_fresh last seq [] h a = tt
lt_of_fresh none seq (e ∷ es) h (p, a) = absurd p
lt_of_fresh (some q) seq (e ∷ es) h (p, a) = (ground arith, lt_of_fresh (some q) seq es h a)

le_of_fresh :
    (last : Option ℕ) (seq : ℕ) (es : List IdxEntry)
    → is_stale last seq ≡ false
    → All (AtMost last) es
    → All (AtMost (some seq)) es
le_of_fresh last seq [] h a = tt
le_of_fresh none seq (e ∷ es) h (p, a) = absurd p
le_of_fresh (some q) seq (e ∷ es) h (p, a) = (ground arith, le_of_fresh (some q) seq es h a)

module _ (crc32c : List ℕ → ℕ) (resolve : Kind → ℕ → List ℕ → Option IndexFields)
    (data_bytes idx_bytes : List ℕ) where
  -- The entry describes a record that decodes and passes its CRC.
  abbrev pub Describes : IdxEntry → Type 0
  Describes e =
      (v : RecordView) × (decode_record crc32c data_bytes e.offset true ≡ ok v)
      × (e.seq ≡ v.header.seq)
      × (e.payload_len ≡ v.header.payload_len)
      × (e.kind ≡ v.header.kind)

  pub record IsScanned (s : ScanState) : Type 0 where
    pub within : s.at ≤ length data_bytes
    pub chain : Chain 32 s.entries s.at
    pub ascending : Ascending s.entries
    pub last : All (AtMost s.last_seq) s.entries
    pub described : All Describes s.entries

  decode_record_bounds :
      (at : ℕ) (v : RecordView)
      → decode_record crc32c data_bytes at true ≡ ok v
      → (v.offset ≡ at)
        × (v.next ≡ at + record_span v.header.payload_len)
        × (at + record_span v.header.payload_len ≤ length data_bytes)
        × (32 ≤ record_span v.header.payload_len)
  unfolding decode_record need record_span
  decode_record_bounds at v h = ground arith

  refuse-ne-go_on :
      (s s' : ScanState) (r : Reason) → refuse_unless_last data_bytes idx_bytes s r ≢ ok (go_on s')
  unfolding refuse_unless_last
  refuse-ne-go_on s s' r h = ground arith

  -- A round goes on only past a record that decodes, resolves and has a new sequence number.
  pub Accepted : ScanState → ScanState → Type 0
  Accepted s s' =
      (v : RecordView) × (f : IndexFields) × (decode_record crc32c data_bytes s.at true ≡ ok v)
      × (is_stale s.last_seq v.header.seq ≡ false)
      × (s' ≡ record {
        at = v.next;
        entries = s.entries ++ (entry_for v f ∷ []);
        last_seq = some v.header.seq;
      })

  accept_inv :
      (s s' : ScanState) (v : RecordView)
      → decode_record crc32c data_bytes s.at true ≡ ok v
      → accept crc32c resolve data_bytes idx_bytes s v ≡ ok (go_on s')
      → Accepted s s'
  unfolding accept Accepted
  accept_inv s s' v d h = elim (Option-cases (resolve v.header.kind v.header.codec v.payload)) [
    | inl e ↦ absurd (refuse-ne-go_on s s' _ (rw (e, accept) at h))
    | inr (f, e) ↦ elim (Bool-cases (is_stale s.last_seq v.header.seq)) [
      | inl t ↦ absurd (refuse-ne-go_on s s' _ (rw (e, t, accept) at h))
      | inr t ↦ (v, f, d, t, ground (arith, e))
    ]
  ]

  step_inv :
      (s s' : ScanState)
      → step crc32c resolve data_bytes idx_bytes s ≡ ok (go_on s')
      → Accepted s s'
  unfolding step
  step_inv s s' h = elim (Result-cases (decode_record crc32c data_bytes s.at true)) [
    | inl (v, d) ↦ accept_inv s s' v d (ground arith)
    | inr (e, d) ↦ absurd (ground (arith, refuse-ne-go_on s s' (corrupt s.at e)))
  ]

  IsScanned-step : (s s' : ScanState) → IsScanned s → Accepted s s' → IsScanned s'
  unfolding Accepted entry_for
  IsScanned-step s s' i (v, f, d, t, e) =
      let (place, next, fits, _) = decode_record_bounds s.at v d in
      rw e (record {
        within = omega arith;
        chain = rw next (Chain-snoc 32 s.at s.entries (entry_for v f) i.chain place);
        ascending =
            Ascending-snoc s.entries _ (lt_of_fresh s.last_seq _ s.entries t i.last) i.ascending;
        last =
            All-append _ s.entries (entry_for v f ∷ [])
              (le_of_fresh s.last_seq _ s.entries t i.last) (omega arith, tt);
        described =
            All-append Describes s.entries (entry_for v f ∷ []) i.described
              ((v, simp place d, refl, refl, refl), tt);
      })

  -- When the scan stops without an error, having begun in a state whose entries are such, the
  -- entries describe records that decode, pass their CRC, lie one behind the other from byte 32
  -- to `at` and have ascending sequence numbers; without a reason for a cut the whole file is
  -- covered.
  pub scan-IsScanned :
      (fuel : ℕ) (s s' : ScanState) (r : Option Reason)
      → IsScanned s
      → scan crc32c resolve fuel data_bytes idx_bytes s ≡ ok (s', r)
      → IsScanned s' × (r ≡ none → s'.at ≡ length data_bytes)
  unfolding scan
  scan-IsScanned zero s s' r i h = ground (arith)
  scan-IsScanned (suc fuel) s s' r i h = elim (Bool-cases (ltb s.at (length data_bytes))) [
    | inr e ↦ ground arith
    | inl e ↦ elim (Result-cases (step crc32c resolve data_bytes idx_bytes s)) [
      | inr (x, d) ↦ absurd (ground (arith))
      | inl (cut q, d) ↦ ground (arith)
      | inl (go_on t, d) ↦
          scan-IsScanned fuel t s' r (IsScanned-step s t i (step_inv s t d)) (ground (arith))
    ]
  ]

  refuse-ne-out_of_fuel :
      (s : ScanState) (r : Reason) → refuse_unless_last data_bytes idx_bytes s r ≢ err out_of_fuel
  unfolding refuse_unless_last
  refuse-ne-out_of_fuel s r h = ground arith

  step-ne-out_of_fuel :
      (s : ScanState) → step crc32c resolve data_bytes idx_bytes s ≢ err out_of_fuel
  unfolding step
  step-ne-out_of_fuel s h = elim (Result-cases (decode_record crc32c data_bytes s.at true)) [
    | inl (v, d) ↦ ground (
      arith,
      refuse-ne-out_of_fuel s (does_not_decode s.at),
      refuse-ne-out_of_fuel s (stale_seq s.at v.header.seq (previous s.last_seq)),
    )
    | inr (e, d) ↦ ground (arith, refuse-ne-out_of_fuel s (corrupt s.at e))
  ]

  step_advances :
      (s t : ScanState)
      → step crc32c resolve data_bytes idx_bytes s ≡ ok (go_on t)
      → s.at + 32 ≤ t.at
  unfolding Accepted
  step_advances s t h =
      let (v, f, d, _, e) = step_inv s t h in
      let (_, next, _, span) = decode_record_bounds s.at v d in
      omega (arith, ap (λ (u : ScanState). u.at) e)

  -- With at least as much fuel as bytes are left, the loop does not run out of fuel: it ends by
  -- its own test, by a cut or by an error of the program.
  pub scan-ne-out_of_fuel :
      (fuel : ℕ) (s : ScanState)
      → length data_bytes ≤ s.at + fuel
      → scan crc32c resolve fuel data_bytes idx_bytes s ≢ err out_of_fuel
  unfolding scan
  scan-ne-out_of_fuel zero s h e = ground arith
  scan-ne-out_of_fuel (suc fuel) s h e =
      elim (Result-cases (step crc32c resolve data_bytes idx_bytes s)) [
        | inr (x, d) ↦ ground (arith, step-ne-out_of_fuel s)
        | inl (cut q, d) ↦ ground arith
        | inl (go_on t, d) ↦ ground (arith, step_advances s t d, scan-ne-out_of_fuel fuel t)
      ]

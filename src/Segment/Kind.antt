-- ===== src/Segment/Kind.antt =====
-- crates/storage/src/segment/format.rs: one byte for each kind of record.
use ai_ontology_com.Common.{
  ℕ, ◌<◌, ◌≡◌, ◌≢◌, ◌↔◌, refl, ap, ◌∙◌, inl, inr, Bool, true, false, List, [], ◌∷◌, arith, nat_beq,
  if◌then◌else◌,
}
use ai_ontology_com.Common.Result.{Result, ok, err, Result-cases}
use ai_ontology_com.Segment.Bytes.{FormatError, unknown_kind}

pub data Kind : Type 0 where
  ontology concept relation update_relation update_concept delete_concept : Kind
  delete_relation rule action delete_rule delete_action relation_exact : Kind

-- `kind as u8`
unfoldable pub to_u8 : Kind → ℕ
to_u8 ontology = 1
to_u8 concept = 2
to_u8 relation = 3
to_u8 update_relation = 4
to_u8 update_concept = 5
to_u8 delete_concept = 6
to_u8 delete_relation = 7
to_u8 rule = 8
to_u8 action = 9
to_u8 delete_rule = 10
to_u8 delete_action = 11
to_u8 relation_exact = 12

-- `Kind::ALL`
unfoldable pub all : List Kind
all =
    ontology ∷ concept ∷ relation ∷ update_relation ∷ update_concept ∷ delete_concept
    ∷ delete_relation ∷ rule ∷ action ∷ delete_rule ∷ delete_action ∷ relation_exact ∷ []

find_u8 : ℕ → List Kind → Result FormatError Kind
find_u8 v [] = err (unknown_kind v)
find_u8 v (k ∷ ks) = if nat_beq (to_u8 k) v then ok k else find_u8 v ks

unfoldable pub from_u8 : ℕ → Result FormatError Kind
unfolding find_u8 to_u8 all
from_u8 v = find_u8 v all

unfoldable pub is_meta : Kind → Bool
is_meta ontology = true
is_meta rule = true
is_meta action = true
is_meta delete_rule = true
is_meta delete_action = true
is_meta _ = false

pub from_u8-to_u8 : (k : Kind) → from_u8 (to_u8 k) ≡ ok k
unfolding from_u8
from_u8-to_u8 ontology = refl
from_u8-to_u8 _ = refl

pub to_u8-lt : (k : Kind) → to_u8 k < 256
unfolding to_u8
to_u8-lt ontology = omega arith
to_u8-lt _ = omega arith

find_u8_sound : (v : ℕ) (ks : List Kind) (k : Kind) → find_u8 v ks ≡ ok k → to_u8 k ≡ v
unfolding find_u8
find_u8_sound v [] k h = cc
find_u8_sound v (j ∷ ks) k h = ground (arith, find_u8_sound v ks k)

find_u8_refused :
    (v : ℕ) (ks : List Kind) (e : FormatError) → find_u8 v ks ≡ err e → e ≡ unknown_kind v
unfolding find_u8
find_u8_refused v [] e h = ground (arith, h)
find_u8_refused v (j ∷ ks) e h = ground (arith, find_u8_refused v ks e)

-- A byte reads as a kind exactly when it is the byte of that kind, and it is refused as unknown
-- exactly when it is the byte of no kind.
pub from_u8_iff :
    (v : ℕ)
    → ((k : Kind) → (from_u8 v ≡ ok k) ↔ (to_u8 k ≡ v))
      × ((from_u8 v ≡ err (unknown_kind v)) ↔ ((k : Kind) → to_u8 k ≢ v))
from_u8_iff v = (
  λ k. (λ h. unfold from_u8 in find_u8_sound v all k h, λ e. rw (← e) (from_u8-to_u8 k)),
  (
    λ h k e.
        let reads : from_u8 v ≡ ok k = rw (← e) (from_u8-to_u8 k) in
        absurd (ground (arith, h, reads)),
    λ no. elim (Result-cases (from_u8 v)) [
      | inl (k, h) ↦ absurd (no k (unfold from_u8 in find_u8_sound v all k h))
      | inr (e, h) ↦ h ∙ ap err (unfold from_u8 in find_u8_refused v all e h)
    ],
  ),
)

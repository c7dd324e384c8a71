-- ===== src/Common/Set.antt =====
-- A set (`AHashSet`, `BTreeSet`) as a list without repetition. The order of a `BTreeSet` is not kept.
use mathlib.Core.Path.{◌≡◌, refl}
use mathlib.Core.Bool.{Bool, false, ◌&&◌, ◌||◌, not}
use mathlib.Core.List.{List, [], ◌∷◌}
use native.Mathlib.Omega.{arith}
use ai_ontology_com.Common.Tests.{if◌then◌else◌}
use ai_ontology_com.Common.Keys.{Keyed, ◌==◌, ==_iff, contains}

pub record Set {ℓ} (A : Type ℓ) : Type ℓ where
  pub items : List A

module _ {ℓ} {A : Type ℓ} where
  unfoldable pub empty : Set A
  empty = record { items = [] }

module _ {ℓ} {A : Type ℓ} ⦃e : Keyed A⦄ where
  -- `v.retain(|x| x != a)`
  unfoldable pub without : List A → A → List A
  without [] a = []
  without (x ∷ xs) a = let rest = without xs a in if x == a then rest else x ∷ rest

  pub contains-without :
      (xs : List A) (a b : A) → contains (without xs a) b ≡ (not (a == b) && contains xs b)
  unfolding without
  contains-without [] a b = ground arith
  contains-without (x ∷ xs) a b =
      ground (arith, contains-without xs a b, ==_iff x a, ==_iff x b, ==_iff a b)

  unfoldable pub mem : Set A → A → Bool
  mem s a = contains s.items a

  unfoldable pub insert : Set A → A → Set A
  insert s a = if contains s.items a then s else record { items = a ∷ s.items }

  unfoldable pub remove : Set A → A → Set A
  unfolding without
  remove s a = record { items = without s.items a }

  pub mem-insert : (s : Set A) (a b : A) → mem (insert s a) b ≡ (a == b || mem s b)
  unfolding mem insert
  mem-insert s a b = ground (arith, ==_iff a b)

  pub mem-remove : (s : Set A) (a b : A) → mem (remove s a) b ≡ (not (a == b) && mem s b)
  unfolding mem remove
  mem-remove s a b = contains-without s.items a b

  pub mem-empty : (a : A) → mem empty a ≡ false
  unfolding mem empty
  mem-empty a = refl

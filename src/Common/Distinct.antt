-- ===== src/Common/Distinct.antt =====
-- Lists in which no two elements have one key.
use Prim.Native.Nat.{ℕ, ◌<◌}
use mathlib.Core.Path.{◌≡◌, refl}
use mathlib.Core.Bool.{Bool, true, false}
use mathlib.Core.Option.{some}
use mathlib.Core.List.{List, [], ◌∷◌, ◌++◌}
use native.Mathlib.Omega.{arith}
use ai_ontology_com.Common.Keys.{Keyed, nat_eq, ◌==◌, ==_iff, ==_refl, contains}
use ai_ontology_com.Common.Find.{find_by, max_by}
use ai_ontology_com.Common.Sort.{keys_of, IsDistinct, contains-keys_of-append}

pub find_by_holds {ℓ} :
    {A : Type ℓ} (p : A → Bool) (xs : List A) (a : A) → find_by p xs ≡ some a → p a ≡ true
find_by_holds p [] a h = absurd (ground (arith, h))
find_by_holds p (x ∷ xs) a h = ground (arith, h, find_by_holds p xs a)

pub contains-past_max {ℓ} :
    {A : Type ℓ} (f : A → ℕ) (xs : List A) (k : ℕ)
    → max_by f xs < k
    → contains (keys_of f xs) k ≡ false
contains-past_max f [] k h = refl
contains-past_max f (x ∷ xs) k h = ground (arith, h, contains-past_max f xs k)

module _ {ℓ κ} {A : Type ℓ} {K : Type κ} ⦃e : Keyed K⦄ (f : A → K) where
  pub append-IsDistinct :
      (xs : List A) (y : A)
      → IsDistinct f xs
      → contains (keys_of f xs) (f y) ≡ false
      → IsDistinct f (xs ++ (y ∷ []))
  append-IsDistinct [] y _ h = (refl, tt)
  append-IsDistinct (x ∷ xs) y (q, u) h = (
    ground (
      arith,
      q,
      h,
      contains-keys_of-append f xs (y ∷ []) (f x),
      ==_iff (f x) (f y),
      ==_iff (f y) (f x),
    ),
    append-IsDistinct xs y u (ground (arith, h)),
  )

  find_by-contains :
      (p : A → Bool) (xs : List A) (a : A)
      → find_by p xs ≡ some a
      → contains (keys_of f xs) (f a) ≡ true
  find_by-contains p [] a h = absurd (ground (arith, h))
  find_by-contains p (x ∷ xs) a h = ground (arith, h, find_by-contains p xs a, ==_refl (f x))

  -- An element that is found is found by its key.
  pub find_by-key :
      (p : A → Bool) (xs : List A) (a : A)
      → IsDistinct f xs
      → find_by p xs ≡ some a
      → find_by (λ x. f x == f a) xs ≡ some a
  find_by-key p [] a _ h = absurd (ground (arith, h))
  find_by-key p (x ∷ xs) a (q, u) h = ground (
    arith,
    h,
    q,
    find_by-contains p xs a,
    find_by-key p xs a u,
    ==_iff (f x) (f a),
    ==_refl (f x),
  )

-- ===== src/Common/Find.antt =====
-- `iter().find(p)`, `iter().max()`, `iter().sum()`, `filter`.
use Prim.Native.Nat.{ℕ, ◌<◌, ◌+◌}
use mathlib.Core.Path.{◌≡◌, refl}
use mathlib.Core.Bool.{Bool, true}
use mathlib.Core.Option.{Option, none, some}
use mathlib.Core.List.{List, [], ◌∷◌, ◌++◌}
use native.Mathlib.Omega.{arith}
use ai_ontology_com.Common.Tests.{if◌then◌else◌, leb}

module _ {ℓ} {A : Type ℓ} where
  abbrev pub find_by : (A → Bool) → List A → Option A
  find_by p [] = none
  find_by p (x ∷ xs) = if p x then some x else find_by p xs

  abbrev pub filter_by : (A → Bool) → List A → List A
  filter_by p [] = []
  filter_by p (x ∷ xs) = let rest = filter_by p xs in if p x then x ∷ rest else rest

  -- The largest value, or 0.
  abbrev pub max_by : (A → ℕ) → List A → ℕ
  max_by f [] = 0
  max_by f (x ∷ xs) = let rest = max_by f xs in if leb (f x) rest then rest else f x

  abbrev pub sum_by : (A → ℕ) → List A → ℕ
  sum_by f [] = 0
  sum_by f (x ∷ xs) = f x + sum_by f xs

  pub find_by-append_some :
      (p : A → Bool) (xs ys : List A) (a : A)
      → find_by p xs ≡ some a
      → find_by p (xs ++ ys) ≡ some a
  find_by-append_some p [] ys a h = cc
  find_by-append_some p (x ∷ xs) ys a h = ground (arith, find_by-append_some p xs ys a)

  pub find_by-append_none :
      (p : A → Bool) (xs ys : List A) → find_by p xs ≡ none → find_by p (xs ++ ys) ≡ find_by p ys
  find_by-append_none p [] ys h = refl
  find_by-append_none p (x ∷ xs) ys h = ground (arith, find_by-append_none p xs ys)

  -- Nothing is found that is larger than the largest.
  pub find_by-past_max :
      (p : A → Bool) (f : A → ℕ) (bound : ℕ) (xs : List A)
      → max_by f xs < bound
      → ((x : A) → p x ≡ true → f x ≡ bound)
      → find_by p xs ≡ none
  find_by-past_max p f bound [] h e = refl
  find_by-past_max p f bound (x ∷ xs) h e =
      ground (arith, e x, find_by-past_max p f bound xs (ground arith) e)

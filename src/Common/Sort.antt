-- ===== src/Common/Sort.antt =====
-- `sort`, `sort_by` on elements: a stable insertion sort for an order given as a test.
use Prim.Native.Nat.{ℕ, ◌+◌}
use mathlib.Core.Path.{◌≡◌, refl, ap, sym, ◌∙◌}
use mathlib.Core.Bool.{Bool, false, ◌||◌}
use mathlib.Core.List.{List, [], ◌∷◌, ◌++◌}
use native.Mathlib.Omega.{arith}
use ai_ontology_com.Common.Tests.{if◌then◌else◌, if_keeps}
use ai_ontology_com.Common.Keys.{Keyed, ◌==◌, ==_iff, contains}
use ai_ontology_com.Common.Lists.{All}
use ai_ontology_com.Common.Find.{sum_by}

module _ {ℓ} {A : Type ℓ} where
  abbrev pub keys_of {κ} : {K : Type κ} → (A → K) → List A → List K
  keys_of f [] = []
  keys_of f (x ∷ xs) = f x ∷ keys_of f xs

  insert_in : (A → A → Bool) → A → List A → List A
  insert_in le x [] = x ∷ []
  insert_in le x (y ∷ ys) =
      let rest = insert_in le x ys in if le x y then x ∷ (y ∷ ys) else y ∷ rest

  unfoldable pub sort_with : (A → A → Bool) → List A → List A
  unfolding insert_in
  sort_with le [] = []
  sort_with le (x ∷ xs) = insert_in le x (sort_with le xs)

  All-insert_in {κ} :
      (Q : A → Type κ) (le : A → A → Bool) (x : A) (ys : List A)
      → All Q (insert_in le x ys)
      → Q x × All Q ys
  unfolding insert_in
  All-insert_in Q le x [] = λ (q, _). (q, tt)
  All-insert_in Q le x (y ∷ ys) =
      if_keeps (λ (l : List A). All Q l → Q x × All Q (y ∷ ys)) (le x y) (x ∷ (y ∷ ys))
        (y ∷ insert_in le x ys) (λ _ q. q)
        (λ _ (q, qs). let (a, b) = All-insert_in Q le x ys qs in (a, (q, b)))

  -- What holds of all sorted elements holds of all elements.
  pub All-sort_with {κ} :
      (Q : A → Type κ) (le : A → A → Bool) (xs : List A) → All Q (sort_with le xs) → All Q xs
  unfolding sort_with
  All-sort_with Q le [] q = tt
  All-sort_with Q le (x ∷ xs) q =
      let (a, b) = All-insert_in Q le x (sort_with le xs) q in (a, All-sort_with Q le xs b)

  sum_by-insert_in :
      (f : A → ℕ) (le : A → A → Bool) (x : A) (ys : List A)
      → sum_by f (insert_in le x ys) ≡ f x + sum_by f ys
  unfolding insert_in
  sum_by-insert_in f le x [] = refl
  sum_by-insert_in f le x (y ∷ ys) = ground (arith, sum_by-insert_in f le x ys)

  pub sum_by-sort_with :
      (f : A → ℕ) (le : A → A → Bool) (xs : List A) → sum_by f (sort_with le xs) ≡ sum_by f xs
  unfolding sort_with
  sum_by-sort_with f le [] = refl
  sum_by-sort_with f le (x ∷ xs) =
      omega (arith, sum_by-insert_in f le x (sort_with le xs), sum_by-sort_with f le xs)

  All-insert_in-back {κ} :
      (Q : A → Type κ) (le : A → A → Bool) (x : A) (ys : List A)
      → Q x
      → All Q ys
      → All Q (insert_in le x ys)
  unfolding insert_in
  All-insert_in-back Q le x [] q _ = (q, tt)
  All-insert_in-back Q le x (y ∷ ys) q (p, ps) =
      if_keeps (All Q) (le x y) (x ∷ (y ∷ ys)) (y ∷ insert_in le x ys) (λ _. (q, (p, ps)))
        (λ _. (p, All-insert_in-back Q le x ys q ps))

  pub sort_with-All {κ} :
      (Q : A → Type κ) (le : A → A → Bool) (xs : List A) → All Q xs → All Q (sort_with le xs)
  unfolding sort_with
  sort_with-All Q le [] _ = tt
  sort_with-All Q le (x ∷ xs) (q, qs) =
      All-insert_in-back Q le x (sort_with le xs) q (sort_with-All Q le xs qs)

  contains-insert_in {κ} :
      {K : Type κ} ⦃e : Keyed K⦄ (f : A → K) (le : A → A → Bool) (x : A) (ys : List A) (k : K)
      → contains (keys_of f (insert_in le x ys)) k ≡ (f x == k || contains (keys_of f ys) k)
  unfolding insert_in
  contains-insert_in f le x [] k = refl
  contains-insert_in f le x (y ∷ ys) k = ground (arith, contains-insert_in f le x ys k)

  -- Sorting drops and adds nothing.
  pub contains-sort_with {κ} :
      {K : Type κ} ⦃e : Keyed K⦄ (f : A → K) (le : A → A → Bool) (xs : List A) (k : K)
      → contains (keys_of f (sort_with le xs)) k ≡ contains (keys_of f xs) k
  unfolding sort_with
  contains-sort_with f le [] k = refl
  contains-sort_with f le (x ∷ xs) k =
      ground (arith, contains-insert_in f le x (sort_with le xs) k, contains-sort_with f le xs k)

  pub contains-keys_of-append {κ} :
      {K : Type κ} ⦃e : Keyed K⦄ (f : A → K) (xs ys : List A) (k : K)
      → contains (keys_of f (xs ++ ys)) k ≡ (contains (keys_of f xs) k || contains (keys_of f ys) k)
  contains-keys_of-append f [] ys k = refl
  contains-keys_of-append f (x ∷ xs) ys k = ground (arith, contains-keys_of-append f xs ys k)

module _ {ℓ κ} {A : Type ℓ} {K : Type κ} ⦃e : Keyed K⦄ (f : A → K) where
  -- No two elements have one key.
  abbrev pub IsDistinct : List A → Type 0
  IsDistinct [] = Unit {0}
  IsDistinct (x ∷ xs) = (contains (keys_of f xs) (f x) ≡ false) × IsDistinct xs

  insert_in-IsDistinct :
      (le : A → A → Bool) (x : A) (ys : List A)
      → contains (keys_of f ys) (f x) ≡ false
      → IsDistinct ys
      → IsDistinct (insert_in le x ys)
  unfolding insert_in
  insert_in-IsDistinct le x [] h _ = (refl, tt)
  insert_in-IsDistinct le x (y ∷ ys) h (q, u) =
      if_keeps IsDistinct (le x y) (x ∷ (y ∷ ys)) (y ∷ insert_in le x ys) (λ _. (h, (q, u)))
        (λ _. (
          ground (
            arith,
            h,
            q,
            contains-insert_in f le x ys (f y),
            ==_iff (f x) (f y),
            ==_iff (f y) (f x),
          ),
          insert_in-IsDistinct le x ys (ground (arith, h)) u,
        ))

  pub sort_with-IsDistinct :
      (le : A → A → Bool) (xs : List A) → IsDistinct xs → IsDistinct (sort_with le xs)
  unfolding sort_with
  sort_with-IsDistinct le [] u = tt
  sort_with-IsDistinct le (x ∷ xs) (q, u) =
      insert_in-IsDistinct le x (sort_with le xs)
        (ground (arith, q, contains-sort_with f le xs (f x))) (sort_with-IsDistinct le xs u)

keys_of_same {ℓ} : {A : Type ℓ} (xs : List A) → keys_of (λ x. x) xs ≡ xs
keys_of_same [] = refl
keys_of_same (x ∷ xs) = ap (◌∷◌ x) (keys_of_same xs)

pub contains-sort {ℓ} :
    {A : Type ℓ} ⦃e : Keyed A⦄ (le : A → A → Bool) (xs : List A) (k : A)
    → contains (sort_with le xs) k ≡ contains xs k
contains-sort le xs k =
    ap (λ l. contains l k) (sym (keys_of_same (sort_with le xs)))
    ∙ contains-sort_with (λ x. x) le xs k
    ∙ ap (λ l. contains l k) (keys_of_same xs)

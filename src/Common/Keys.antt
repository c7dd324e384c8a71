-- ===== src/Common/Keys.antt =====
-- Decidable equality of keys as an interface, and its instances.
use text.Mathlib.TextEquality.{eq_iff as text_same_iff}
use Prim.Native.Nat.{ℕ}
use text.Mathlib.Text.{◌==◌ as text_same}
use Prim.Native.String.{String}
use mathlib.Core.Path.{◌≡◌, refl}
use mathlib.Core.Logic.{◌↔◌}
use mathlib.Core.Bool.{Bool, true, false, ◌&&◌, ◌||◌}
use mathlib.Core.List.{List, [], ◌∷◌, ◌++◌}
use native.Mathlib.Omega.{arith}
use ai_ontology_com.Common.Tests.{nat_beq, nat_beq_iff}

pub record Keyed {ℓ} (K : Type ℓ) : Type ℓ where
  pub same : K → K → Bool
  pub same_iff : (j k : K) → (same j k ≡ true) ↔ (j ≡ k)

abbrev pub ◌==◌ {ℓ} : {K : Type ℓ} ⦃keys : Keyed K⦄ → K → K → Bool
◌==◌ ⦃keys⦄ = keys.same

infix 50 ◌==◌
pub ==_iff {ℓ} : {A : Type ℓ} ⦃e : Keyed A⦄ (a b : A) → ((a == b) ≡ true) ↔ (a ≡ b)
==_iff ⦃e⦄ a b = e.same_iff a b

pub ==_refl {ℓ} : {A : Type ℓ} ⦃e : Keyed A⦄ (a : A) → (a == a) ≡ true
==_refl ⦃e⦄ a = (e.same_iff a a).1 refl

instance abbrev pub nat_eq : Keyed ℕ
nat_eq = record { same = nat_beq; same_iff = nat_beq_iff }

instance abbrev pub string_eq : Keyed String
string_eq = record { same = text_same; same_iff = text_same_iff }

pub pair_iff {ℓ κ} :
    {A : Type ℓ} {B : Type κ} ⦃d : Keyed A⦄ ⦃e : Keyed B⦄ (p q : A × B)
    → ((p.0 == q.0 && p.1 == q.1) ≡ true) ↔ (p ≡ q)
pair_iff (a, b) (c, d) = ground (arith, ==_iff a c, ==_iff b d)

instance abbrev pub pair_eq {ℓ κ} :
    {A : Type ℓ} {B : Type κ} ⦃d : Keyed A⦄ ⦃e : Keyed B⦄ → Keyed (A × B)
pair_eq = record { same = λ p q. p.0 == q.0 && p.1 == q.1; same_iff = pair_iff }

unfoldable pub list_beq {ℓ} : {A : Type ℓ} ⦃e : Keyed A⦄ → List A → List A → Bool
list_beq [] [] = true
list_beq (x ∷ xs) (y ∷ ys) = x == y && list_beq xs ys
list_beq _ _ = false

pub list_beq_iff {ℓ} :
    {A : Type ℓ} ⦃e : Keyed A⦄ (xs ys : List A) → (list_beq xs ys ≡ true) ↔ (xs ≡ ys)
unfolding list_beq
list_beq_iff [] [] = ground arith
list_beq_iff (x ∷ xs) (y ∷ ys) = ground (arith, ==_iff x y, list_beq_iff xs ys)
list_beq_iff _ _ = ground arith

instance abbrev pub list_eq {ℓ} : {A : Type ℓ} ⦃e : Keyed A⦄ → Keyed (List A)
list_eq = record { same = list_beq; same_iff = list_beq_iff }

-- `xs.contains(&a)`, `xs.iter().any(|x| x == a)`
module _ {ℓ} {A : Type ℓ} ⦃e : Keyed A⦄ where
  abbrev pub contains : List A → A → Bool
  contains [] wanted = false
  contains (y ∷ ys) wanted = y == wanted || contains ys wanted

  pub contains-append :
      (xs ys : List A) (a : A) → contains (xs ++ ys) a ≡ (contains xs a || contains ys a)
  contains-append [] ys a = refl
  contains-append (x ∷ xs) ys a = ground (arith, contains-append xs ys a)

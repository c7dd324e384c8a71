-- ===== src/Graph/Traversal/History.antt =====
-- crates/graph/src/traversal.rs: lists of queued concepts with their depths.
use mathlib.Core.Path.{subst}
use ai_ontology_com.Common.{
  ℕ, ◌≤◌, ◌≡◌, refl, ap, inl, inr, true, List, [], ◌∷◌, ◌++◌, arith, ◌==◌, nat_eq, pair_eq, ==_iff,
  contains, Bool-cases, All,
}
use ai_ontology_com.Common.Sort.{keys_of}

abbrev pub node_of : ℕ × ℕ → ℕ
node_of p = p.0

abbrev pub Queued : Type 0
Queued = List (ℕ × ℕ)

-- Depths from `lo` on that do not fall.
abbrev pub Rises : ℕ → Queued → Type 0
Rises lo [] = Unit
Rises lo ((n, d) ∷ q) = (lo ≤ d) × Rises d q

abbrev pub IsWithin : ℕ → ℕ × ℕ → Type 0
IsWithin d p = p.1 ≤ d

pub Rises-snoc :
    (lo n d : ℕ) (q : Queued)
    → Rises lo q
    → All (IsWithin d) q
    → lo ≤ d
    → Rises lo (q ++ ((n, d) ∷ []))
Rises-snoc lo n d [] _ _ h = (h, tt)
Rises-snoc lo n d ((m, e) ∷ q) (l, rest) (w, ws) h = (l, Rises-snoc e n d q rest ws w)

-- What is in a list of nodes with depths has an entry there.
pub entry_in :
    (Q : ℕ × ℕ → Type 0) (l : Queued) (n : ℕ)
    → contains (keys_of node_of l) n ≡ true
    → All Q l
    → (d : ℕ) × (contains l (n, d) ≡ true) × Q (n, d)
entry_in Q [] n h _ = absurd (ground (arith, h))
entry_in Q ((m, d) ∷ l) n h (q, qs) = elim (Bool-cases (m == n)) [
  | inl e ↦
      let same : m ≡ n = (==_iff m n).0 e in (d, ground (arith, e), subst (λ k. Q (k, d)) same q)
  | inr e ↦
      let (c, there, p) = entry_in Q l n (ground (arith, h, e)) qs in (c, ground (arith, there), p)
]

pub contains-entry :
    (l : Queued) (n d : ℕ) → contains l (n, d) ≡ true → contains (keys_of node_of l) n ≡ true
contains-entry [] n d h = absurd (ground (arith, h))
contains-entry ((m, e) ∷ l) n d h = ground (arith, h, contains-entry l n d, ==_iff m n)

pub All-back : (Q : ℕ × ℕ → Type 0) (past q : Queued) → All Q (past ++ q) → All Q q
All-back Q [] q a = a
All-back Q (_ ∷ past) q (_, a) = All-back Q past q a

pub keys_of-append :
    (p q : Queued) → keys_of node_of (p ++ q) ≡ keys_of node_of p ++ keys_of node_of q
keys_of-append [] q = refl
keys_of-append (x ∷ p) q = ap (◌∷◌ (node_of x)) (keys_of-append p q)

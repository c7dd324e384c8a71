-- ===== src/Graph/Traversal/Search.antt =====
-- crates/graph/src/traversal.rs, `closure`: what the breadth-first search reaches. The queue is the
-- end of the list of all that were ever queued.
use mathlib.Core.Path.{subst}
use mathlib.Core.List.{append_assoc, append-nil}
use ai_ontology_com.Common.{
  ℕ, zero, suc, ◌+◌, ◌≤◌, ◌<◌, ◌≡◌, ◌↔◌, refl, sym, ap, ◌∙◌, inl, inr, true, false, List, [], ◌∷◌,
  ◌++◌, some, arith, ◌==◌, nat_eq, pair_eq, ==_iff, ==_refl, leb, if◌then◌else◌, contains,
  contains-append, Bool-cases, All, All-append, All_map,
}
use ai_ontology_com.Common.Set
use ai_ontology_com.Common.Set.{Set}
use ai_ontology_com.Common.Sort.{keys_of, contains-keys_of-append}
use ai_ontology_com.Graph.Traversal.{Walker, visit, visit_all, walk, seeded}
use ai_ontology_com.Graph.Traversal.History.{
  node_of, Queued, Rises, IsWithin, Rises-snoc, entry_in, contains-entry, All-back, keys_of-append,
}

-- A walk along the edges from the seed, with its length.
pub data Walk (next : ℕ → List ℕ) (seed : ℕ) : ℕ → ℕ → Type 0 where
  here : Walk next seed 0 seed
  go : (k u v : ℕ) → Walk next seed k u → contains (next u) v ≡ true → Walk next seed (k + 1) v

module _ (next : ℕ → List ℕ) (max_depth seed : ℕ) where
  abbrev IsWalked : ℕ × ℕ → Type 0
  IsWalked p = Walk next seed p.1 p.0 × (p.1 ≤ max_depth)

  -- The neighbours of a node are among those queued, no deeper than one step more.
  abbrev Covers : Queued → ℕ × ℕ → Type 0
  Covers history p =
      p.1 < max_depth
      → (v : ℕ) → contains (next p.0) v ≡ true
      → (d : ℕ) × (contains history (v, d) ≡ true) × (d ≤ p.1 + 1)

  -- The search at depth `lo`, with the history of what was taken off the queue.
  record IsSearch (past : Queued) (lo : ℕ) (w : Walker) : Type 0 where
    walks : All IsWalked (past ++ w.queue)
    seen : (n : ℕ) → Set.mem w.visited n ≡ contains (keys_of node_of (past ++ w.queue)) n
    listed : seed ∷ w.out ≡ keys_of node_of (past ++ w.queue)
    rises : Rises lo w.queue
    level : All (IsWithin (lo + 1)) (past ++ w.queue)
    first : contains (past ++ w.queue) (seed, 0) ≡ true

  seeded-IsSearch : IsSearch [] 0 (seeded seed)
  seeded-IsSearch = record {
    walks = ((here, ground arith), tt);
    seen = λ n. ground (arith, Set.mem-insert Set.empty seed n, Set.mem-empty {A = ℕ} n);
    listed = refl;
    rises = (ground arith, tt);
    level = (ground arith, tt);
    first = ground (arith, ==_refl seed);
  }

  -- After a visit the queue has grown at its end, and the node visited is in the history.
  record Visited (past : Queued) (lo : ℕ) (w w' : Walker) (vs : List ℕ) : Type 0 where
    search : IsSearch past lo w'
    new : Queued
    grown : w'.queue ≡ w.queue ++ new
    reached :
        (v : ℕ)
        → contains vs v ≡ true
        → (d : ℕ) × (contains (past ++ w'.queue) (v, d) ≡ true) × (d ≤ lo + 1)

  visit-new :
      (past : Queued) (lo v : ℕ) (w : Walker)
      → IsSearch past lo w
      → Walk next seed (lo + 1) v
      → lo + 1 ≤ max_depth
      → Set.mem w.visited v ≡ false
      → IsSearch past lo (record {
        visited = Set.insert w.visited v;
        queue = w.queue ++ ((v, lo + 1) ∷ []);
        out = w.out ++ (v ∷ []);
      })
  visit-new past lo v w s path deep fresh =
      let history = past ++ w.queue in
      let added : Queued = (v, lo + 1) ∷ [] in
      let grown : history ++ added ≡ past ++ (w.queue ++ added) = append_assoc past w.queue added in
      record {
        walks =
            subst (All IsWalked) grown
              (All-append IsWalked history added s.walks ((path, deep), tt));
        seen = λ n.
            subst (λ h. Set.mem (Set.insert w.visited v) n ≡ contains (keys_of node_of h) n) grown
              (ground (
                arith,
                Set.mem-insert w.visited v n,
                s.seen n,
                contains-keys_of-append node_of history added n,
              ));
        listed =
            ap (λ l. l ++ (v ∷ [])) s.listed
            ∙ sym (keys_of-append history added)
            ∙ ap (keys_of node_of) grown;
        rises =
            Rises-snoc lo v (lo + 1) w.queue s.rises
              (All-back (IsWithin (lo + 1)) past w.queue s.level) (omega arith);
        level =
            subst (All (IsWithin (lo + 1))) grown
              (All-append (IsWithin (lo + 1)) history added s.level (omega arith, tt));
        first =
            subst (λ h. contains h (seed, 0) ≡ true) grown
              (ground (arith, s.first, contains-append history added (seed, 0)));
      }

  kept :
      (past q q' new : Queued) (x : ℕ × ℕ)
      → q' ≡ q ++ new
      → contains (past ++ q) x ≡ true
      → contains (past ++ q') x ≡ true
  kept past q q' new x e h = rw e (
      ground (
        arith,
        h,
        contains-append past q x,
        contains-append past (q ++ new) x,
        contains-append q new x,
      ))

  visit-Visited :
      (past : Queued) (lo v : ℕ) (w : Walker)
      → IsSearch past lo w
      → Walk next seed (lo + 1) v
      → lo + 1 ≤ max_depth
      → Visited past lo w (visit lo w v) (v ∷ [])
  unfolding visit
  visit-Visited past lo v w s path deep = elim (Bool-cases (Set.mem w.visited v)) [
    | inl known ↦ rw known (record {
      search = s;
      new = [];
      grown = sym (append-nil w.queue);
      reached = λ u h.
          let same : v ≡ u = (==_iff v u).0 (ground (arith, h)) in
          entry_in (IsWithin (lo + 1)) (past ++ w.queue) u
            (sym (s.seen u) ∙ ap (Set.mem w.visited) (sym same) ∙ known) s.level;
    })
    | inr fresh ↦ rw fresh (record {
      search = visit-new past lo v w s path deep fresh;
      new = (v, lo + 1) ∷ [];
      grown = refl;
      reached = λ u h.
          let same : v ≡ u = (==_iff v u).0 (ground (arith, h)) in
          let added : Queued = (v, lo + 1) ∷ [] in
          (
            lo + 1,
            subst (λ x. contains (past ++ (w.queue ++ added)) (x, lo + 1) ≡ true) same
                (ground (
                  arith,
                  contains-append past (w.queue ++ added) (v, lo + 1),
                  contains-append w.queue added (v, lo + 1),
                  ==_refl v,
                  ==_refl (lo + 1),
                )),
            omega arith,
          );
    })
  ]

  visit_all-Visited :
      (past : Queued) (lo : ℕ) (vs : List ℕ) (w : Walker)
      → IsSearch past lo w
      → ((v : ℕ) → contains vs v ≡ true → Walk next seed (lo + 1) v)
      → lo + 1 ≤ max_depth
      → Visited past lo w (visit_all lo w vs) vs
  unfolding visit_all
  visit_all-Visited past lo [] w s paths deep = record {
    search = s;
    new = [];
    grown = sym (append-nil w.queue);
    reached = λ v h. absurd (ground (arith, h));
  }
  visit_all-Visited past lo (v ∷ vs) w s paths deep =
      let one = visit-Visited past lo v w s (paths v (ground (arith, ==_refl v))) deep in
      let all =
        visit_all-Visited past lo vs (visit lo w v) one.search (λ u h. paths u (ground (arith, h)))
          deep in
      record {
        search = all.search;
        new = one.new ++ all.new;
        grown = all.grown ∙ ap (λ q. q ++ all.new) one.grown ∙ append_assoc w.queue one.new all.new;
        reached = λ u h. elim (Bool-cases (v == u)) [
          | inl e ↦
              let (d, there, below) = one.reached u (ground (arith, e)) in
              (d, kept past (visit lo w v).queue _ all.new (u, d) all.grown there, below)
          | inr e ↦ all.reached u (ground (arith, h, e))
        ];
      }

  -- The history, complete: nothing is left to do.
  record IsDone (past : Queued) (out : List ℕ) : Type 0 where
    walks : All IsWalked past
    listed : seed ∷ out ≡ keys_of node_of past
    first : contains past (seed, 0) ≡ true
    covered : All (Covers past) past

  Covers-kept :
      (past q q' new : Queued) (p : ℕ × ℕ)
      → q' ≡ q ++ new
      → Covers (past ++ q) p
      → Covers (past ++ q') p
  Covers-kept past q q' new p e c less v h =
      let (d, there, below) = c less v h in (d, kept past q q' new (v, d) e there, below)

  -- One node is taken off the queue.
  popped :
      (past q : Queued) (lo node depth : ℕ) (visited : Set ℕ) (out : List ℕ)
      → IsSearch past lo (record { visited = visited; queue = (node, depth) ∷ q; out = out })
      → IsSearch
          (past ++ ((node, depth) ∷ []))
          depth
          (record { visited = visited; queue = q; out = out })
  popped past q lo node depth visited out s =
      let moved : past ++ ((node, depth) ∷ q) ≡ (past ++ ((node, depth) ∷ [])) ++ q =
        sym (append_assoc past ((node, depth) ∷ []) q) in
      let (above, rest) = s.rises in
      record {
        walks = subst (All IsWalked) moved s.walks;
        seen = λ n. s.seen n ∙ ap (λ h. contains (keys_of node_of h) n) moved;
        listed = s.listed ∙ ap (keys_of node_of) moved;
        rises = rest;
        level = subst (All (IsWithin (depth + 1))) moved (
            All_map (IsWithin (lo + 1)) (IsWithin (depth + 1)) (past ++ ((node, depth) ∷ q))
              (λ p h. omega (arith, h, above)) s.level);
        first = subst (λ h. contains h (seed, 0) ≡ true) moved s.first;
      }

  finished :
      (past : Queued) (lo : ℕ) (visited : Set ℕ) (out : List ℕ)
      → IsSearch past lo (record { visited = visited; queue = []; out = out })
      → All (Covers (past ++ [])) past
      → IsDone past out
  finished past lo visited out s c = record {
    walks = subst (All IsWalked) (append-nil past) s.walks;
    listed = s.listed ∙ ap (keys_of node_of) (append-nil past);
    first = subst (λ h. contains h (seed, 0) ≡ true) (append-nil past) s.first;
    covered = subst (λ h. All (Covers h) past) (append-nil past) c;
  }

  walk-IsDone :
      (fuel : ℕ) (past : Queued) (lo : ℕ) (visited : Set ℕ) (queue : Queued) (so_far out : List ℕ)
      → IsSearch past lo (record { visited = visited; queue = queue; out = so_far })
      → All (Covers (past ++ queue)) past
      → walk next max_depth fuel (record { visited = visited; queue = queue; out = so_far })
        ≡ some out
      → (all : Queued) × IsDone all out
  unfolding walk
  walk-IsDone zero past lo visited [] so_far out s c h =
      (past, subst (IsDone past) (ground (arith, h)) (finished past lo visited so_far s c))
  walk-IsDone zero past lo visited (x ∷ q) so_far out s c h = absurd (ground (arith, h))
  walk-IsDone (suc fuel) past lo visited [] so_far out s c h =
      (past, subst (IsDone past) (ground (arith, h)) (finished past lo visited so_far s c))
  walk-IsDone (suc fuel) past lo visited ((node, depth) ∷ q) so_far out s c h =
      let w : Walker = record { visited = visited; queue = q; out = so_far } in
      let past' = past ++ ((node, depth) ∷ []) in
      let s' = popped past q lo node depth visited so_far s in
      let moved : past ++ ((node, depth) ∷ q) ≡ past' ++ q =
        sym (append_assoc past ((node, depth) ∷ []) q) in
      let c' = subst (λ l. All (Covers l) past) moved c in
      let ((path, _), _) = All-back IsWalked past ((node, depth) ∷ q) s.walks in
      elim (Bool-cases (leb max_depth depth)) [
        | inl deep ↦
            walk-IsDone fuel past' depth visited q so_far out s'
              (All-append (Covers (past' ++ q)) past ((node, depth) ∷ []) c'
                ((λ less. absurd (ground (arith, less, deep))), tt))
              (subst
                (λ b.
                  walk next max_depth fuel (if b then w else visit_all depth w (next node))
                  ≡ some out)
                deep h)
        | inr shallow ↦
            let w' = visit_all depth w (next node) in
            let v =
              visit_all-Visited past' depth (next node) w s' (λ u k. go depth node u path k)
                (ground (arith, shallow)) in
            walk-IsDone fuel past' depth w'.visited w'.queue w'.out out v.search
              (All-append (Covers (past' ++ w'.queue)) past ((node, depth) ∷ [])
                (All_map (Covers (past' ++ q)) (Covers (past' ++ w'.queue)) past
                  (λ p k. Covers-kept past' q w'.queue v.new p v.grown k) c')
                ((λ less. v.reached), tt))
              (subst
                (λ b.
                  walk next max_depth fuel (if b then w else visit_all depth w (next node))
                  ≡ some out)
                shallow h)
      ]

  All-entry : (Q : ℕ × ℕ → Type 0) (l : Queued) (p : ℕ × ℕ) → contains l p ≡ true → All Q l → Q p
  All-entry Q [] p h _ = absurd (ground (arith, h))
  All-entry Q (x ∷ l) p h (q, qs) = elim (Bool-cases (x == p)) [
    | inl e ↦ subst Q ((==_iff x p).0 e) q
    | inr e ↦ All-entry Q l p (ground (arith, h, e)) qs
  ]

  complete :
      (all : Queued) (out : List ℕ) (k n : ℕ)
      → IsDone all out
      → Walk next seed k n
      → k ≤ max_depth
      → (d : ℕ) × (contains all (n, d) ≡ true) × (d ≤ k)
  complete all out _ _ s here below = (0, s.first, omega arith)
  complete all out _ _ s (go k u v path edge) below =
      let (d, there, le) = complete all out k u s path (omega (arith, below)) in
      let (e, found, le') =
        All-entry (Covers all) all (u, d) there s.covered (omega (arith, le, below)) v edge in
      (e, found, omega (arith, le, le'))

  -- What the search returns, with the seed, are the nodes at the end of a walk of at most
  -- `max_depth` edges.
  pub walk-reaches :
      (fuel : ℕ) (out : List ℕ) (n : ℕ)
      → walk next max_depth fuel (seeded seed) ≡ some out
      → (contains (seed ∷ out) n ≡ true) ↔ ((k : ℕ) × (k ≤ max_depth) × Walk next seed k n)
  walk-reaches fuel out n h =
      let (all, s) =
        walk-IsDone fuel [] 0 (seeded seed).visited (seeded seed).queue [] out seeded-IsSearch tt
          h in
      (
        λ c.
            let (d, _, reached) =
              entry_in IsWalked all n (ap (λ l. contains l n) (sym s.listed) ∙ c) s.walks in
            (d, reached.1, reached.0),
        λ (k, below, path).
            let (d, there, _) = complete all out k n s path below in
            ap (λ l. contains l n) s.listed ∙ contains-entry all n d there,
      )

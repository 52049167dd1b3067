-- ===== src/Dfg/Cycle/Decides.antt =====
-- libaftermath-core/src/dfg_graph.c: what am_dfg_graph_has_cycle answers.
use aftermath.Base.{
  In, ℕ, zero, suc, ◌<◌, ◌≤◌, ◌≡◌, ◌≢◌, ◌⊎◌, refl, ◌∙◌, arith, Bool, true, false, List, [], ◌∷◌,
  inl, inr, Bool-cases, ==_iff, length, get_or, set, map, ◌==◌, ltb, ltb→lt, get_or-set, length-set,
  length-map,
}
use aftermath.Dfg.{Graph, node_at}
use aftermath.Dfg.Cycle.{
  Change, Search, Verdict, no_cycle, has_cycle_found, exhausted, visit, is_root_ign, check_roots,
  any_unmarked, unmark, start, conclude, has_cycle, unmarked, marked, visited,
}
use aftermath.Dfg.Cycle.Walks.{OnCycle, mark_of, ahead, ahead_le_length}
use aftermath.Dfg.Cycle.Visits.{
  Sound, Later, Outcome, clear, cyclic, Closed, Later-refl, Later-Later, stays_visited,
  visit-Outcome,
}

length-unmark : (marks ns : List ℕ) → length (unmark marks ns) ≡ length marks
unfolding unmark
length-unmark marks [] = refl
length-unmark marks (n ∷ ns) = length-unmark (set marks n unmarked) ns ∙ length-set marks n unmarked

-- What is unmarked stays so, and every node of the list becomes so.
unmark_keeps :
    (marks ns : List ℕ) (v : ℕ)
    → get_or marks v unmarked ≡ unmarked
    → get_or (unmark marks ns) v unmarked ≡ unmarked
unfolding unmark
unmark_keeps marks [] v e = e
unmark_keeps marks (n ∷ ns) v e =
    unmark_keeps (set marks n unmarked) ns v
      (ground (arith, get_or-set marks n v unmarked unmarked, e))

unmark_clears :
    (marks ns : List ℕ) (v : ℕ)
    → v < length marks
    → In v ns
    → get_or (unmark marks ns) v unmarked ≡ unmarked
unfolding unmark
unmark_clears marks [] v h i = absurd i
unmark_clears marks (n ∷ ns) v h (inl e) =
    unmark_keeps (set marks n unmarked) ns v
      (ground (arith, get_or-set marks n v unmarked unmarked, e, h))
unmark_clears marks (n ∷ ns) v h (inr i) =
    unmark_clears (set marks n unmarked) ns v (omega (arith, h, length-set marks n unmarked)) i

any_unmarked-false :
    (marks ns : List ℕ) (v : ℕ)
    → any_unmarked marks ns ≡ false
    → In v ns
    → get_or marks v unmarked ≢ unmarked
unfolding any_unmarked
any_unmarked-false marks [] v e i = absurd i
any_unmarked-false marks (n ∷ ns) v e (inl same) = ground (arith, e, same)
any_unmarked-false marks (n ∷ ns) v e (inr i) = any_unmarked-false marks ns v (ground (arith, e)) i

any_unmarked-true :
    (marks ns : List ℕ)
    → any_unmarked marks ns ≡ true
    → (v : ℕ) × In v ns × (get_or marks v unmarked ≡ unmarked)
unfolding any_unmarked
any_unmarked-true marks [] e = absurd (ground (arith, e))
any_unmarked-true marks (n ∷ ns) e = elim (Bool-cases (get_or marks n unmarked == unmarked)) [
  | inl z ↦ (n, inl refl, (==_iff _ _).0 z)
  | inr z ↦ let (v, i, u) = any_unmarked-true marks ns (ground (arith, e, z)) in (v, inr i, u)
]

unmark_out : (marks : List ℕ) (v : ℕ) → length marks ≤ v → get_or marks v unmarked ≡ unmarked
unmark_out [] v h = refl
unmark_out (m ∷ ms) zero h = absurd (omega arith)
unmark_out (m ∷ ms) (suc v) h = unmark_out ms v (omega arith)

module _ (g : Graph) (c : Change) where
  -- The heap holds the nodes of the graph, and edges end in it.
  pub record InHeap : Type 0 where
    pub edges : Closed g c
    pub members_in : (n : ℕ) → In n g.members → n < length g.nodes
    pub members_all : (n : ℕ) → n < length g.nodes → In n g.members

  abbrev pub IsRoot : ℕ → Type 0
  IsRoot n = is_root_ign c n 0 (node_at g n).ports ≡ true

  data RootsOutcome (s : Search) (ns : List ℕ) (r : Search × Verdict) : Type 0 where
    roots_clear :
        r.1 ≡ no_cycle
        → Sound g c r.0
        → Later g c s r.0
        → ((n : ℕ) → In n ns → IsRoot n → mark_of r.0 n ≡ visited)
        → RootsOutcome s ns r
    roots_cyclic : r.1 ≡ has_cycle_found → (v : ℕ) → OnCycle g c v → RootsOutcome s ns r

  add_root :
      {s t : Search} {n : ℕ} {ns : List ℕ} {r : Search × Verdict}
      → Later g c s t
      → (IsRoot n → mark_of t n ≡ visited)
      → RootsOutcome t ns r
      → RootsOutcome s (n ∷ ns) r
  add_root q m (roots_cyclic e v w) = roots_cyclic e v w
  add_root q m (roots_clear e k q' all) = roots_clear e k (Later-Later g c q q') (λ n i root.
      elim i [ inl e ↦ rw (← e) (stays_visited g c q' _ (m (rw (e) root))) | inr i ↦ all n i root ])

  after :
      (rounds : ℕ) (s : Search) (n : ℕ) (ns : List ℕ)
      → Sound g c s
      → Outcome g c s n (visit g c rounds s n)
      → ((t : Search)
          → Later g c s t
          → Sound g c t
          → RootsOutcome t ns (check_roots g c rounds t ns))
      → RootsOutcome s (n ∷ ns) (elim (visit g c rounds s n).1 [
        | no_cycle ↦ check_roots g c rounds (visit g c rounds s n).0 ns
        | has_cycle_found ↦ ((visit g c rounds s n).0, has_cycle_found)
        | exhausted ↦ ((visit g c rounds s n).0, exhausted)
      ])
  after rounds s n ns k (cyclic e v w) rest = rw (e) (roots_cyclic refl v w)
  after rounds s n ns k (clear e k' q m) rest =
      rw (e) (add_root q (λ root. m) (rest (visit g c rounds s n).0 q k'))

  -- Between the visits of roots no node is marked.
  check_roots-RootsOutcome :
      (rounds : ℕ) (s : Search) (ns : List ℕ)
      → Closed g c
      → ((n : ℕ) → In n ns → n < length g.nodes)
      → Sound g c s
      → ahead s.marks < rounds
      → ((v : ℕ) → mark_of s v ≢ marked)
      → RootsOutcome s ns (check_roots g c rounds s ns)
  unfolding check_roots
  check_roots-RootsOutcome rounds s [] cl inside k few none_marked =
      roots_clear refl k (Later-refl g c s) (λ n i. absurd i)
  check_roots-RootsOutcome rounds s (n ∷ ns) cl inside k few none_marked =
      elim (Bool-cases (is_root_ign c n 0 (node_at g n).ports)) [
        | inr e ↦
            rw (check_roots, e)
              (add_root (Later-refl g c s) (λ root. ground (arith, e, root))
                (check_roots-RootsOutcome rounds s ns cl (λ v i. inside v (inr i)) k few
                  none_marked))
        | inl e ↦
            rw (check_roots, e)
              (after rounds s n ns k
                (visit-Outcome g c rounds cl s n k (inside n (inl refl)) few
                  (λ v m. absurd (none_marked v m)))
                (λ t q k'.
                  check_roots-RootsOutcome rounds t ns cl (λ v i. inside v (inr i)) k'
                    (omega (arith, q.fewer))
                    (λ v m. ground (arith, q.settled v, none_marked v, m))))
      ]

  start-length : (path : Bool) → length (start g path).marks ≡ length g.nodes
  unfolding start
  start-length path = length-unmark _ g.members ∙ length-map g.nodes (λ n. n.marking)

  start_unmarked : (path : Bool) (v : ℕ) → InHeap → mark_of (start g path) v ≡ unmarked
  unfolding start
  start_unmarked path v h = elim (Bool-cases (ltb v (length g.nodes))) [
    | inl e ↦
        unmark_clears (map (λ n. n.marking) g.nodes) g.members v
          (omega (arith, ltb→lt v (length g.nodes) e, length-map g.nodes (λ n. n.marking)))
          (h.members_all v (ltb→lt v (length g.nodes) e))
    | inr e ↦ unmark_out (start g path).marks v (ground (arith, e, start-length path))
  ]

  start-Sound : (path : Bool) → InHeap → Sound g c (start g path)
  start-Sound path h = record {
    size = start-length path;
    closed = λ v leg m i. ground (arith, start_unmarked path v h, m);
    acyclic = λ v m. ground (arith, start_unmarked path v h, m);
  }

  abbrev Decides : Verdict → Type 0
  Decides v =
      (v ≡ no_cycle) × ((n : ℕ) → n < length g.nodes → ¬ OnCycle g c n)
      ⊎ (v ≡ has_cycle_found)
        × (((n : ℕ) × OnCycle g c n) ⊎ ((n : ℕ) × (n < length g.nodes) × ¬ IsRoot n))

  conclude-Decides :
      (s : Search) (r : Search × Verdict)
      → InHeap
      → ((v : ℕ) → mark_of s v ≡ unmarked)
      → RootsOutcome s g.members r
      → Decides (conclude g.members r).1
  unfolding conclude
  conclude-Decides s r h fresh (roots_cyclic e v w) = rw (e) (inr (refl, inl (v, w)))
  conclude-Decides s r h fresh (roots_clear e k q all) =
      elim (Bool-cases (any_unmarked r.0.marks g.members)) [
        | inl u ↦
            let (v, i, z) = any_unmarked-true r.0.marks g.members u in
            rw (e, u)
              (inr (refl, inr (v, h.members_in v i, λ root. ground (arith, all v i root, z))))
        | inr u ↦
            rw (e, u)
              (inl (
                refl,
                λ n inside. k.acyclic n (
                    ground (
                      arith,
                      q.settled n,
                      fresh n,
                      any_unmarked-false r.0.marks g.members n u (h.members_all n inside),
                    )),
              ))
      ]

  -- Where the members of the graph are the nodes of the heap and connections end in it, the search ends.
  -- If it reports no cycle, no node lies on one, by the connections of output ports and the extra one
  -- without the one to ignore. If it reports a cycle, there is one, or some node is no root in the sense
  -- of am_dfg_node_is_root_ign.
  pub has_cycle-decides :
      (path : Bool)
      → InHeap
      → ((has_cycle g c path).1 ≡ no_cycle) × ((n : ℕ) → n < length g.nodes → ¬ OnCycle g c n)
        ⊎ ((has_cycle g c path).1 ≡ has_cycle_found)
          × (((n : ℕ) × OnCycle g c n) ⊎ ((n : ℕ) × (n < length g.nodes) × ¬ IsRoot n))
  unfolding has_cycle
  has_cycle-decides path h =
      conclude-Decides (start g path) _ h (λ v. start_unmarked path v h)
        (check_roots-RootsOutcome (suc (length g.nodes)) (start g path) g.members h.edges
          h.members_in (start-Sound path h)
          (omega (arith, ahead_le_length (start g path).marks, start-length path))
          (λ v m. ground (arith, start_unmarked path v h, m)))

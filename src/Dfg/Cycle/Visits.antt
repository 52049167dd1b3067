-- ===== src/Dfg/Cycle/Visits.antt =====
-- libaftermath-core/src/dfg_graph.c: am_dfg_graph_has_cycle_rec returns, finds only cycles, and leaves no
-- node visited that lies on one.
use aftermath.Base.{
  In, ℕ, zero, suc, ◌<◌, ◌≤◌, ◌≡◌, ◌≢◌, ◌⊎◌, refl, sym, ◌∙◌, arith, List, [], ◌∷◌, inl, inr,
  Bool-cases, ==_iff, length, ◌==◌, ltb, ◌&&◌, if◌then◌else◌, get_or-set, length-set,
}
use aftermath.Dfg.{Graph}
use aftermath.Dfg.Cycle.{
  Change, Leg, Search, Verdict, no_cycle, has_cycle_found, legs, mark, visit_legs, leave, visit,
  unmarked, marked, visited,
}
use aftermath.Dfg.Cycle.Edges.{legs-Edge, Edge-legs}
use aftermath.Dfg.Cycle.Walks.{
  Edge, Walk, step, further, Walk-Edge, OnCycle, mark_of, ahead, ahead-set-visited,
  ahead-set-marked,
}

-- The marking of one node.
abbrev marks_with : Search → ℕ → ℕ → ℕ → ℕ
marks_with s n m v = if (n == v) && ltb n (length s.marks) then m else mark_of s v

mark_of-mark : (s : Search) (n m v : ℕ) → mark_of (mark s n m) v ≡ marks_with s n m v
unfolding mark
mark_of-mark s n m v = get_or-set s.marks n v m unmarked

mark-length : (s : Search) (n m : ℕ) → length (mark s n m).marks ≡ length s.marks
unfolding mark
mark-length s n m = length-set s.marks n m

to_visited : (s : Search) (n v : ℕ) → mark_of s v ≡ visited → mark_of (mark s n visited) v ≡ visited
to_visited s n v m = ground (arith, mark_of-mark s n visited v, m)

module _ (g : Graph) (c : Change) where
  -- The nodes visited so far are closed under the edges, and none is on a cycle.
  pub record Sound (s : Search) : Type 0 where
    pub size : length s.marks ≡ length g.nodes
    pub closed :
        (v : ℕ) (leg : Leg)
        → mark_of s v ≡ visited
        → In leg (legs g c v)
        → mark_of s leg.1.node ≡ visited
    pub acyclic : (v : ℕ) → mark_of s v ≡ visited → OnCycle g c v → ⊥

  -- A part of the search leaves marked nodes alone; others it leaves or visits.
  pub record Later (s t : Search) : Type 0 where
    pub settled :
        (v : ℕ) → (mark_of t v ≡ mark_of s v) ⊎ (mark_of s v ≢ marked) × (mark_of t v ≡ visited)
    pub fewer : ahead t.marks ≤ ahead s.marks

  -- What the visit of the node `n` comes to.
  pub data Outcome (s : Search) (n : ℕ) (r : Search × Verdict) : Type 0 where
    clear : r.1 ≡ no_cycle → Sound r.0 → Later s r.0 → mark_of r.0 n ≡ visited → Outcome s n r
    cyclic : r.1 ≡ has_cycle_found → (v : ℕ) → OnCycle g c v → Outcome s n r

  pub data LegsOutcome (s : Search) (ls : List Leg) (r : Search × Verdict) : Type 0 where
    legs_clear :
        r.1 ≡ no_cycle
        → Sound r.0
        → Later s r.0
        → ((leg : Leg) → In leg ls → mark_of r.0 leg.1.node ≡ visited)
        → LegsOutcome s ls r
    legs_cyclic : r.1 ≡ has_cycle_found → (v : ℕ) → OnCycle g c v → LegsOutcome s ls r

  -- The edges end in the heap.
  abbrev pub Closed : Type 0
  Closed = (n m : ℕ) → Edge g c n m → m < length g.nodes

  -- What the visit of a node from which at most so many others are ahead promises.
  abbrev pub Visits : ℕ → (Search → ℕ → Search × Verdict) → Type 0
  Visits rounds f =
      (s : Search) (n : ℕ)
      → Sound s
      → n < length g.nodes
      → ahead s.marks < rounds
      → ((v : ℕ) → mark_of s v ≡ marked → Walk g c v n)
      → Outcome s n (f s n)

  pub Later-refl : (s : Search) → Later s s
  Later-refl s = record { settled = λ v. inl refl; fewer = omega arith }

  pub Later-Later : {s t u : Search} → Later s t → Later t u → Later s u
  Later-Later r q = record {
    settled = λ v. ground (arith, r.settled v, q.settled v);
    fewer = omega (arith, r.fewer, q.fewer);
  }

  -- What holds of all visited nodes stays.
  pub stays_visited :
      {s t : Search} → Later s t → (v : ℕ) → mark_of s v ≡ visited → mark_of t v ≡ visited
  stays_visited r v e = ground (arith, r.settled v, e)

  stays_marked : {s t : Search} → Later s t → (v : ℕ) → mark_of t v ≡ marked → mark_of s v ≡ marked
  stays_marked r v e = ground (arith, r.settled v, e)

  -- The closure of visited nodes under walks.
  Walk-visited :
      {s : Search} {v w : ℕ}
      → Sound s
      → Walk g c v w
      → mark_of s v ≡ visited
      → mark_of s w ≡ visited
  Walk-visited {s} {v} k (step e) m =
      let (leg, i, at) = Edge-legs g c _ _ e in rw (← at) (k.closed v leg m i)
  Walk-visited {s} {v} k (further e w) m =
      let (leg, i, at) = Edge-legs g c _ _ e in Walk-visited k w (rw (← at) (k.closed v leg m i))

  add_leg :
      {s t : Search} {leg : Leg} {ls : List Leg} {r : Search × Verdict}
      → Later s t
      → mark_of t leg.1.node ≡ visited
      → LegsOutcome t ls r
      → LegsOutcome s (leg ∷ ls) r
  add_leg r m (legs_clear e k q all) =
      legs_clear e k (Later-Later r q)
        (λ leg i. elim i [ inl e ↦ rw (← e) (stays_visited q _ m) | inr i ↦ all leg i ])
  add_leg r m (legs_cyclic e v w) = legs_cyclic e v w

  visit_legs-LegsOutcome :
      (rounds n : ℕ) (f : Search → ℕ → Search × Verdict) (s : Search) (ls : List Leg)
      → Closed
      → Visits rounds f
      → ((leg : Leg) → In leg ls → In leg (legs g c n))
      → Sound s
      → ahead s.marks < rounds
      → ((v : ℕ) → mark_of s v ≡ marked → (v ≡ n) ⊎ Walk g c v n)
      → LegsOutcome s ls (visit_legs f s ls)
  unfolding visit_legs
  visit_legs-LegsOutcome rounds n f s [] cl vis sub k few up =
      legs_clear refl k (Later-refl s) (λ leg i. absurd i)
  visit_legs-LegsOutcome rounds n f s (leg ∷ ls) cl vis sub k few up =
      elim (vis s leg.1.node k (cl n leg.1.node (legs-Edge g c n leg own)) few walks) [
        | cyclic e v w ↦ legs_cyclic (rw (visit_legs, e) refl) v w
        | clear e k' r m ↦
            rw (visit_legs, e)
              (add_leg r m (
                visit_legs-LegsOutcome rounds n f (f s leg.1.node).0 ls cl vis
                  (λ l i. sub l (inr i)) k' (omega (arith, r.fewer))
                  (λ v m. up v (stays_marked r v m))))
      ]
    where
      own : In leg (legs g c n)
      own = sub leg (inl refl)

      walks : (v : ℕ) → mark_of s v ≡ marked → Walk g c v leg.1.node
      walks v m = elim (up v m) [
        | inl e ↦ rw (e) (step (legs-Edge g c n leg own))
        | inr w ↦ Walk-Edge w (legs-Edge g c n leg own)
      ]

  -- The node at hand is marked on the way in.
  enter-Sound : (s : Search) (n : ℕ) → mark_of s n ≢ visited → Sound s → Sound (mark s n marked)
  enter-Sound s n fresh k = record {
    size = mark-length s n marked ∙ k.size;
    closed = λ v leg m i. ground (
      arith,
      mark_of-mark s n marked v,
      mark_of-mark s n marked leg.1.node,
      k.closed v leg,
      fresh,
      m,
      i,
    );
    acyclic = λ v m. k.acyclic v (ground (arith, mark_of-mark s n marked v, m));
  }

  -- And visited on the way out, when all it leads to is.
  leave-Sound :
      (t : Search) (n : ℕ)
      → mark_of t n ≡ marked
      → ((leg : Leg) → In leg (legs g c n) → mark_of t leg.1.node ≡ visited)
      → Sound t
      → Sound (mark t n visited)
  leave-Sound t n m all k = record {
    size = mark-length t n visited ∙ k.size;
    closed = λ v leg e i. elim (Bool-cases (n == v)) [
      | inl same ↦ to_visited t n leg.1.node (all leg (rw ((==_iff n v).0 same) i))
      | inr other ↦
          to_visited t n leg.1.node
            (k.closed v leg (ground (arith, mark_of-mark t n visited v, e)) i)
    ];
    acyclic = λ v e w. elim (Bool-cases (n == v)) [
      | inl same ↦ no_return (rw ((==_iff n v).0 same) w)
      | inr other ↦ k.acyclic v (ground (arith, mark_of-mark t n visited v, e)) w
    ];
  }
    where
      no_return : Walk g c n n → ⊥
      no_return (step e) =
          let (leg, i, at) = Edge-legs g c n n e in ground (arith, all leg i, at, m)
      no_return (further e w) =
          let (leg, i, at) = Edge-legs g c _ _ e in
          ground (arith, Walk-visited k w (rw (← at) (all leg i)), m)

  left :
      (s : Search) (n : ℕ) (r : Search × Verdict)
      → n < length g.nodes
      → Sound s
      → mark_of s n ≢ visited
      → mark_of s n ≢ marked
      → LegsOutcome (mark s n marked) (legs g c n) r
      → Outcome s n (leave n r)
  unfolding mark
  left s n r inside k a b (legs_cyclic e v w) = cyclic (rw (e) refl) v w
  left s n r inside k a b (legs_clear e k' q all) = rw (e) (
      clear refl (leave-Sound r.0 n now_marked all k') (record { settled = settled; fewer = fewer })
        (ground (arith, mark_of-mark r.0 n visited n, inside, k'.size)))
    where
      now_marked : mark_of r.0 n ≡ marked
      now_marked = ground (arith, q.settled n, mark_of-mark s n marked n, inside, k.size)

      settled :
          (v : ℕ)
          → (mark_of (mark r.0 n visited) v ≡ mark_of s v)
            ⊎ (mark_of s v ≢ marked) × (mark_of (mark r.0 n visited) v ≡ visited)
      settled v = elim (Bool-cases (n == v)) [
        | inl e ↦ inr (
          rw ((==_iff n v).0 e) at b,
          ground (arith, mark_of-mark r.0 n visited v, inside, k'.size, e),
        )
        | inr e ↦
            ground (arith, mark_of-mark r.0 n visited v, mark_of-mark s n marked v, q.settled v, e)
      ]

      fewer : ahead (mark r.0 n visited).marks ≤ ahead s.marks
      fewer = omega (
        arith,
        ahead-set-visited r.0.marks n,
        q.fewer,
        ahead-set-marked s.marks n (omega (arith, inside, k.size)) a b,
      )

  inner :
      (rounds : ℕ)
      → Closed
      → Visits rounds (visit g c rounds)
      → (s : Search) (n : ℕ) → Sound s
      → n < length g.nodes
      → ahead s.marks < suc rounds
      → ((v : ℕ) → mark_of s v ≡ marked → Walk g c v n)
      → mark_of s n ≢ visited
      → mark_of s n ≢ marked
      → LegsOutcome
          (mark s n marked)
          (legs g c n)
          (visit_legs (visit g c rounds) (mark s n marked) (legs g c n))
  unfolding mark
  inner rounds cl vis s n k inside few up a b =
      visit_legs-LegsOutcome rounds n (visit g c rounds) (mark s n marked) (legs g c n) cl vis
        (λ l i. i) (enter-Sound s n a k) fewer up'
    where
      fewer : ahead (mark s n marked).marks < rounds
      fewer = omega (arith, ahead-set-marked s.marks n (omega (arith, inside, k.size)) a b)

      up' : (v : ℕ) → mark_of (mark s n marked) v ≡ marked → (v ≡ n) ⊎ Walk g c v n
      up' v m = elim (Bool-cases (n == v)) [
        | inl e ↦ inl (sym ((==_iff n v).0 e))
        | inr e ↦ inr (up v (ground (arith, mark_of-mark s n marked v, m)))
      ]

  pub visit-Outcome : (rounds : ℕ) → Closed → Visits rounds (visit g c rounds)
  unfolding visit
  visit-Outcome zero cl s n k inside few up = absurd (omega arith)
  visit-Outcome (suc rounds) cl s n k inside few up = elim (Bool-cases (mark_of s n == visited)) [
    | inl e ↦ rw (e) (clear refl k (Later-refl s) (ground arith))
    | inr e ↦ elim (Bool-cases (mark_of s n == marked)) [
      | inl e' ↦ rw (e, e') (cyclic refl n (up n (ground arith)))
      | inr e' ↦
          rw (e, e')
            (left s n _ inside k (ground arith) (ground arith) (
              inner rounds cl (visit-Outcome rounds cl) s n k inside few up (ground arith)
                (ground arith)))
    ]
  ]

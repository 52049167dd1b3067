-- ===== src/Dfg/Cycle/Edges.antt =====
-- libaftermath-core/src/dfg_graph.c: the connections that am_dfg_graph_has_cycle_rec follows from a node are
-- those that count.
use aftermath.Base.{
  In, ℕ, zero, suc, ◌+◌, ◌≡◌, ◌⊎◌, refl, ap, sym, arith, true, ◌&&◌, Option, none, some, List, [],
  ◌∷◌, ◌++◌, inl, inr, Bool-cases, ==_iff, get_or, ◌==◌,
}
use aftermath.Dfg.{PortRef, Port, Graph, no_port, same_port, node_at, port_at, is_output_port}
use aftermath.Dfg.Cycle.{Change, Leg, is_port, port_legs, ports_legs, legs}
use aftermath.Dfg.Cycle.Walks.{Edge}

In-append : {A : Type 0} (x : A) (xs ys : List A) → In x (xs ++ ys) → In x xs ⊎ In x ys
In-append x [] ys i = inr i
In-append x (y ∷ xs) ys (inl e) = inl (inl e)
In-append x (y ∷ xs) ys (inr i) = elim (In-append x xs ys i) [ inl i ↦ inl (inr i) | inr i ↦ inr i ]

In-append_left : {A : Type 0} (x : A) (xs ys : List A) → In x xs → In x (xs ++ ys)
In-append_left x [] ys i = absurd i
In-append_left x (y ∷ xs) ys (inl e) = inl e
In-append_left x (y ∷ xs) ys (inr i) = inr (In-append_left x xs ys i)

In-append_right : {A : Type 0} (x : A) (xs ys : List A) → In x ys → In x (xs ++ ys)
In-append_right x [] ys i = i
In-append_right x (y ∷ xs) ys i = inr (In-append_right x xs ys i)

same_port-true : (p q : PortRef) → same_port p q ≡ true → p ≡ q
same_port-true p q e = ground (arith, e)

same_port_refl : (p : PortRef) → same_port p p ≡ true
same_port_refl p = ground arith

pub is_port-true : (o : Option PortRef) (p : PortRef) → is_port o p ≡ true → o ≡ some p
unfolding is_port
is_port-true none p e = absurd (ground (arith, e))
is_port-true (some q) p e = ap some (sym (same_port-true p q e))

pub is_port-some : (o : Option PortRef) (p : PortRef) → o ≡ some p → is_port o p ≡ true
unfolding is_port
is_port-some o p e = rw (e) (same_port_refl p)

module _ (c : Change) where
  abbrev Ignored : PortRef → PortRef → Type 0
  Ignored p q = (c.ignore_src ≡ some p) × (c.ignore_dst ≡ some q)

  is_port-Ignored :
      (p q : PortRef) → (is_port c.ignore_src p && is_port c.ignore_dst q) ≡ true → Ignored p q
  is_port-Ignored p q e = (
    is_port-true c.ignore_src p (ground (arith, e)),
    is_port-true c.ignore_dst q (ground (arith, e)),
  )

  Ignored-is_port :
      (p q : PortRef) → Ignored p q → (is_port c.ignore_src p && is_port c.ignore_dst q) ≡ true
  Ignored-is_port p q (s, d) =
      rw (is_port-some c.ignore_src p s, is_port-some c.ignore_dst q d) refl

  port_legs-In :
      (p : PortRef) (qs : List PortRef) (leg : Leg)
      → In leg (port_legs c p qs)
      → (leg.0 ≡ p) × In leg.1 qs × ¬ Ignored p leg.1
  unfolding port_legs
  port_legs-In p [] leg i = absurd i
  port_legs-In p (q ∷ qs) leg i =
      elim (Bool-cases (is_port c.ignore_src p && is_port c.ignore_dst q)) [
        | inl e ↦ let (s, j, k) = port_legs-In p qs leg (rw (e) at i) in (s, inr j, k)
        | inr e ↦ elim (rw (e) at i) [
          | inl same ↦ rw (← same) (refl, inl refl, λ ig. ground (arith, Ignored-is_port p q ig, e))
          | inr j ↦ let (s, j, k) = port_legs-In p qs leg j in (s, inr j, k)
        ]
      ]

  In-port_legs :
      (p : PortRef) (qs : List PortRef) (q : PortRef)
      → In q qs
      → ¬ Ignored p q
      → In (p, q) (port_legs c p qs)
  unfolding port_legs
  In-port_legs p [] q i k = absurd i
  In-port_legs p (x ∷ qs) q i k =
      elim (Bool-cases (is_port c.ignore_src p && is_port c.ignore_dst x)) [
        | inl e ↦ rw (e) (elim i [
          | inl same ↦ absurd (k (rw (← same) (is_port-Ignored p x e)))
          | inr i ↦ In-port_legs p qs q i k
        ])
        | inr e ↦ rw (e) (elim i [
          | inl same ↦ inl (ap (λ (r : PortRef). (p, r)) same)
          | inr i ↦ inr (In-port_legs p qs q i k)
        ])
      ]

  -- The loop over output ports and an output port at an index.
  record Outgoing (n i : ℕ) (ps : List Port) (leg : Leg) : Type 0 where
    index : ℕ
    source : leg.0 ≡ record { node = n; port = i + index }
    outgoing : is_output_port (get_or ps index no_port) ≡ true
    connection : In leg.1 (get_or ps index no_port).connections
    counts : ¬ Ignored leg.0 leg.1

  ports_legs-Outgoing :
      (n i : ℕ) (ps : List Port) (leg : Leg) → In leg (ports_legs c n i ps) → Outgoing n i ps leg
  unfolding ports_legs
  ports_legs-Outgoing n i [] leg e = absurd e
  ports_legs-Outgoing n i (p ∷ ps) leg e = elim (Bool-cases (is_output_port p)) [
    | inr o ↦ later (ports_legs-Outgoing n (i + 1) ps leg (rw (o) at e))
    | inl o ↦
        elim (In-append leg (port_legs c (record { node = n; port = i }) p.connections) _
          (rw (o) at e)) [
            | inl here ↦
                let (s, j, k) = port_legs-In _ p.connections leg here in
                record {
                  index = 0;
                  source = ground (arith, s);
                  outgoing = o;
                  connection = j;
                  counts = rw (s) k;
                }
            | inr there ↦ later (ports_legs-Outgoing n (i + 1) ps leg there)
          ]
  ]
    where
      later : Outgoing n (i + 1) ps leg → Outgoing n i (p ∷ ps) leg
      later r = record {
        index = suc r.index;
        source = ground (arith, r.source);
        outgoing = r.outgoing;
        connection = r.connection;
        counts = r.counts;
      }

  In-ports_legs :
      (n i j k : ℕ) (ps : List Port) (q : PortRef)
      → k ≡ i + j
      → is_output_port (get_or ps j no_port) ≡ true
      → In q (get_or ps j no_port).connections
      → ¬ Ignored (record { node = n; port = k }) q
      → In (record { node = n; port = k }, q) (ports_legs c n i ps)
  unfolding ports_legs
  In-ports_legs n i j k [] q e o m counts = absurd m
  In-ports_legs n i zero k (p ∷ ps) q e o m counts =
      let same : k ≡ i = omega arith in
      rw (o, same)
        (In-append_left _ _ _
          (In-port_legs (record { node = n; port = i }) p.connections q m (rw (same) at counts)))
  In-ports_legs n i (suc j) k (p ∷ ps) q e o m counts =
      let rest = In-ports_legs n (i + 1) j k ps q (omega arith) o m counts in
      elim (Bool-cases (is_output_port p)) [
        | inr z ↦ rw (z) rest
        | inl z ↦ rw (z) (In-append_right _ (port_legs c _ p.connections) _ rest)
      ]

module _ (g : Graph) (c : Change) where
  -- What the search follows is an edge,
  pub legs-Edge : (n : ℕ) (leg : Leg) → In leg (legs g c n) → Edge g c n leg.1.node
  unfolding legs port_at node_at
  legs-Edge n leg i = elim (Bool-cases (n == c.extra_src.node)) [
    | inr e ↦ actual (ports_legs-Outgoing c n 0 (node_at g n).ports leg (rw (e) at i))
    | inl e ↦ elim (rw (e) at i) [
      | inl same ↦ (
        c.extra_src,
        c.extra_dst,
        inl (refl, refl),
        sym ((==_iff n c.extra_src.node).0 e),
        ap (λ (l : Leg). l.1.node) same,
      )
      | inr j ↦ actual (ports_legs-Outgoing c n 0 (node_at g n).ports leg j)
    ]
  ]
    where
      actual : Outgoing c n 0 (node_at g n).ports leg → Edge g c n leg.1.node
      actual r =
          let at : leg.0 ≡ record { node = n; port = r.index } = ground (arith, r.source) in
          (
            record { node = n; port = r.index },
            leg.1,
            inr (r.outgoing, r.connection, rw (at) at r.counts),
            refl,
            refl,
          )

  -- and it follows every edge.
  pub Edge-legs : (n m : ℕ) → Edge g c n m → (leg : Leg) × In leg (legs g c n) × (leg.1.node ≡ m)
  unfolding legs port_at node_at
  Edge-legs n m (p, q, inl (s, d), at_n, at_m) =
      let here : (n == c.extra_src.node) ≡ true =
        (==_iff n c.extra_src.node).1 (ground (arith, s, at_n)) in
      ((c.extra_src, c.extra_dst), rw (here) (inl refl), ground (arith, d, at_m))
  Edge-legs n m (p, q, inr (o, i, counts), at_n, at_m) = rw (← at_n) (
      let found =
        In-ports_legs c p.node 0 p.port p.port (node_at g p.node).ports q (omega arith) o i
          counts in
      elim (Bool-cases (p.node == c.extra_src.node)) [
        | inr z ↦ ((p, q), rw (z) found, at_m)
        | inl z ↦ ((p, q), rw (z) (inr found), at_m)
      ])

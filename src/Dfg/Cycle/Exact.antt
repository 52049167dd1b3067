-- ===== src/Dfg/Cycle/Exact.antt =====
-- libaftermath-core/src/dfg_graph.c and dfg_node.c: am_dfg_graph_has_cycle in graphs as the connecting
-- operations leave them.
use aftermath.Base.{
  In, ℕ, suc, ◌+◌, ◌<◌, ◌≤◌, ◌≡◌, ◌⊎◌, ◌↔◌, refl, arith, Bool, true, false, some, ◌&&◌, List, [],
  ◌∷◌, inl, inr, Bool-cases, length, get_or,
}
use aftermath.Dfg.{PortRef, Port, Graph, no_port, node_at, port_at, is_input_port}
use aftermath.Dfg.Connect.Links.{times}
use aftermath.Dfg.Connect.Graphs.{WellConnected}
use aftermath.Dfg.Cycle.{
  Change, no_cycle, has_cycle_found, is_port, bars_root, is_root_ign, has_cycle,
}
use aftermath.Dfg.Cycle.Walks.{Edge, OnCycle}
use aftermath.Dfg.Cycle.Edges.{is_port-true, is_port-some}
use aftermath.Dfg.Cycle.Decides.{InHeap, IsRoot, has_cycle-decides}

In-times : (q : PortRef) (qs : List PortRef) → In q qs → 0 < times q qs
In-times q [] i = absurd i
In-times q (x ∷ xs) (inl e) = ground (arith, e)
In-times q (x ∷ xs) (inr i) = ground (arith, In-times q xs i)

module _ (c : Change) where
  -- A node is a root if no input port bars it.
  is_root_ign-true :
      (n i : ℕ) (ps : List Port)
      → ((j k : ℕ)
          → k ≡ i + j
          → (is_input_port (get_or ps j no_port)
              && bars_root c (record { node = n; port = k }) (get_or ps j no_port).connections)
            ≡ false)
      → is_root_ign c n i ps ≡ true
  unfolding is_root_ign
  is_root_ign-true n i [] h = refl
  is_root_ign-true n i (p ∷ ps) h =
      rw (h 0 i (omega arith)) (is_root_ign-true n (i + 1) ps (λ j k e. h (suc j) k (omega arith)))

module _ (g : Graph) (c : Change) where
  -- The connection to ignore, if one is named, is the one its input port has.
  abbrev pub IgnoresConnection : Type 0
  IgnoresConnection =
      (p q : PortRef)
      → c.ignore_dst ≡ some p
      → In q (port_at g p).connections
      → c.ignore_src ≡ some q

  pub edges_stay :
      WellConnected g
      → c.extra_dst.node < length g.nodes
      → (n m : ℕ) → Edge g c n m
      → m < length g.nodes
  edges_stay w extra n m (p, q, inl (s, d), at_n, at_m) = rw (← at_m, d) extra
  edges_stay w extra n m (p, q, inr (o, there, counts), at_n, at_m) =
      rw (← at_m) (w.valid p q (In-times q _ there)).0

  not_barred :
      (p : PortRef) (qs : List PortRef)
      → length qs ≤ 1
      → ((q : PortRef) → is_port c.ignore_dst p ≡ true → In q qs → is_port c.ignore_src q ≡ true)
      → bars_root c p qs ≡ false
  unfolding bars_root
  not_barred p [] h ig = refl
  not_barred p (q ∷ []) h ig = elim (Bool-cases (is_port c.ignore_dst p)) [
    | inl e ↦ rw (e, ig q e (inl refl)) refl
    | inr e ↦ rw (e) refl
  ]
  not_barred p (q ∷ q' ∷ qs) h ig = absurd (omega arith)

  port_not_barring :
      (p : PortRef)
      → WellConnected g
      → IgnoresConnection
      → (is_input_port (port_at g p) && bars_root c p (port_at g p).connections) ≡ false
  port_not_barring p w ig = elim (Bool-cases (is_input_port (port_at g p))) [
    | inr e ↦ rw (e) refl
    | inl e ↦ rw (e) (
        not_barred p (port_at g p).connections (w.single p e)
          (λ q d i. is_port-some c.ignore_src q (ig p q (is_port-true c.ignore_dst p d) i)))
  ]

  all_roots : WellConnected g → IgnoresConnection → (n : ℕ) → IsRoot g c n
  unfolding port_at node_at
  all_roots w ig n = is_root_ign-true c n 0 (node_at g n).ports (λ j k e.
      let same : k ≡ j = omega arith in
      rw (same) (port_not_barring (record { node = n; port = j }) w ig))

  -- In a well-connected graph, the heap's nodes being its members, the search ends and reports a cycle if
  -- and only if some node lies on one. The connections of such a cycle are those of output ports and the
  -- extra one, which has to end in the heap, without the one to ignore, which, if its input port is
  -- named, has to be the one that this port has.
  pub has_cycle-exact :
      (path : Bool)
      → WellConnected g
      → ((n : ℕ) → In n g.members ↔ (n < length g.nodes))
      → c.extra_dst.node < length g.nodes
      → IgnoresConnection
      → ((has_cycle g c path).1 ≡ no_cycle) × ((n : ℕ) → n < length g.nodes → ¬ OnCycle g c n)
        ⊎ ((has_cycle g c path).1 ≡ has_cycle_found) × (n : ℕ) × OnCycle g c n
  has_cycle-exact path w members extra ig = elim (has_cycle-decides g c path in_heap) [
    | inl none_on ↦ inl none_on
    | inr (e, inl (n, w)) ↦ inr (e, n, w)
    | inr (e, inr (n, inside, not_root)) ↦ absurd (not_root (all_roots w ig n))
  ]
    where
      in_heap : InHeap g c
      in_heap = record {
        edges = edges_stay w extra;
        members_in = λ n. (members n).0;
        members_all = λ n. (members n).1;
      }

-- ===== src/Dfg/Schedule/Settles.antt =====
-- libaftermath-core/src/dfg_schedule.c: when am_dfg_schedule_converge_deps succeeds, all neighbours agree.
use aftermath.Base.{
  In, ℕ, zero, suc, ◌<◌, ◌≡◌, ◌⊎◌, refl, ap, ◌∙◌, arith, true, false, List, [], ◌∷◌, ◌==◌,
  if◌then◌else◌, length, inl, inr, Bool-cases, ==_iff,
}
use aftermath.Dfg.{PortRef, Node, Graph, node_at, port_at, set_node}
use aftermath.Dfg.Bits.{testbit, testbit-on_bits, set_bits, differ}
use aftermath.Dfg.Mask
use aftermath.Dfg.Mask.{PortMask}
use aftermath.Dfg.Schedule.{
  Schedule, Propagation, pulled_if_new_inputs_to_producer, pulled_always_inputs_to_producer,
  pushed_new_outputs_to_consumers, pushed_same_outputs_to_consumers, ports_of, is_port_type, offers,
  propagate_ports, propagate, propagate_all, all_propagations, set_propagated,
}
use aftermath.Dfg.Schedule.Changes.{
  Covers, has_port, negotiated, node_at-set_node, Later, Later-refl, Later-Later,
}
use aftermath.Dfg.Schedule.Told.{
  Leads, Told, Later-Grows, Told-Grows, Leads-Grows, offers-Later, offers-Covers, offers-negotiated,
  set_bits-In,
}

abbrev pub at_node : ℕ → ℕ → PortRef
at_node n i = record { node = n; port = i }

-- What the propagation for some ports of the node `n` comes to.
pub record Spread (c : Propagation) (n : ℕ) (is : List ℕ) (s t : Schedule) : Type 0 where
  pub later : Later s t
  told : (i : ℕ) → In i is → Told c t.graph (at_node n i)
  own : negotiated t.graph n ≡ negotiated s.graph n

offers-Spread :
    (c : Propagation) (s : Schedule) (n i : ℕ)
    → Leads s.graph
    → Spread c n (i ∷ []) s (offers c s (port_at s.graph (at_node n i)).connections)
offers-Spread c s n i e = record {
  later = later;
  told = λ j own q k c' b lt t. elim own [
    | inr none ↦ absurd none
    | inl same ↦
        offers-Covers c s (port_at s.graph (at_node n i)).connections (e.within (at_node n i)) q
          (rw (← same, (Later-Grows later).same (at_node n i)) at k) c' b lt
          (rw ((Later-Grows later).same q) at t)
  ];
  own = offers-negotiated c s _ n (e.within (at_node n i)) (e.elsewhere (at_node n i));
}
  where
    later : Later s (offers c s (port_at s.graph (at_node n i)).connections)
    later = offers-Later c s _ (e.within (at_node n i))

first_port :
    {s t r : Schedule} (c : Propagation) (n i : ℕ) (is : List ℕ)
    → Spread c n (i ∷ []) s t
    → Spread c n is t r
    → Spread c n (i ∷ is) s r
first_port c n i is p q = record {
  later = Later-Later p.later q.later;
  told = λ j own. elim own [
    | inl same ↦ Told-Grows c (at_node n j) (Later-Grows q.later) (p.told j (inl same))
    | inr k ↦ q.told j k
  ];
  own = q.own ∙ p.own;
}

propagate_ports-Spread :
    (c : Propagation) (s : Schedule) (n : ℕ) (is : List ℕ)
    → Leads s.graph
    → (propagate_ports c s n is).1 ≡ true
    → Spread c n is s (propagate_ports c s n is).0
unfolding propagate_ports
propagate_ports-Spread c s n [] e done = record {
  later = Later-refl s;
  told = λ i none. absurd none;
  own = refl;
}
propagate_ports-Spread c s n (i ∷ is) e done =
    elim (Bool-cases (is_port_type c (port_at s.graph (at_node n i)))) [
      | inr z ↦ ground (arith, rw (z) at done)
      | inl z ↦ rw (z) (
          first_port c n i is (offers-Spread c s n i e) (
            propagate_ports-Spread c (offers c s (port_at s.graph (at_node n i)).connections) n is
              (Leads-Grows (Later-Grows (offers-Spread c s n i e).later) e) (rw (z) at done)))
    ]

-- What the four propagations come to.
pub record SpreadAll (n : ℕ) (d : PortMask) (cs : List Propagation) (s t : Schedule) : Type 0 where
  pub later : Later s t
  pub told :
      (c : Propagation) (i : ℕ)
      → In c cs
      → i < 64
      → has_port c d i ≡ true
      → Told c t.graph (at_node n i)
  pub own : negotiated t.graph n ≡ negotiated s.graph n

pub propagate-Spread :
    (c : Propagation) (s : Schedule) (n : ℕ) (d : PortMask)
    → Leads s.graph
    → (propagate c s n d).1 ≡ true
    → Spread c n (set_bits (ports_of c d)) s (propagate c s n d).0
unfolding propagate
propagate-Spread c s n d e done = propagate_ports-Spread c s n (set_bits (ports_of c d)) e done

first_propagation :
    {s t r : Schedule} (n : ℕ) (d : PortMask) (c : Propagation) (cs : List Propagation)
    → Spread c n (set_bits (ports_of c d)) s t
    → SpreadAll n d cs t r
    → SpreadAll n d (c ∷ cs) s r
first_propagation n d c cs p q = record {
  later = Later-Later p.later q.later;
  told = λ c' i own lt b. elim own [
    | inl same ↦ rw (← same) (
        Told-Grows c (at_node n i) (Later-Grows q.later)
          (p.told i (set_bits-In i (ports_of c d) lt (rw (← same) at b))))
    | inr k ↦ q.told c' i k lt b
  ];
  own = q.own ∙ p.own;
}

pub propagate_all-SpreadAll :
    (s : Schedule) (n : ℕ) (d : PortMask) (cs : List Propagation)
    → Leads s.graph
    → (propagate_all s n d cs).1 ≡ true
    → SpreadAll n d cs s (propagate_all s n d cs).0
unfolding propagate_all
propagate_all-SpreadAll s n d [] e done = record {
  later = Later-refl s;
  told = λ c i none. absurd none;
  own = refl;
}
propagate_all-SpreadAll s n d (c ∷ cs) e done = elim (Bool-cases (propagate c s n d).1) [
  | inr z ↦ ground (arith, rw (z) at done)
  | inl z ↦
      let first = propagate-Spread c s n d e z in
      rw (z) (
        first_propagation n d c cs first (
          propagate_all-SpreadAll (propagate c s n d).0 n d cs
            (Leads-Grows (Later-Grows first.later) e) (rw (z) at done)))
]

pub every_propagation : (c : Propagation) → In c all_propagations
every_propagation pulled_if_new_inputs_to_producer = inl refl
every_propagation pulled_always_inputs_to_producer = inr (inl refl)
every_propagation pushed_new_outputs_to_consumers = inr (inr (inl refl))
every_propagation pushed_same_outputs_to_consumers = inr (inr (inr (inl refl)))

pub has_port-diff :
    (c : Propagation) (a b : PortMask) (i : ℕ)
    → i < 64
    → has_port c (Mask.diff a b) i ≡ differ (has_port c a i) (has_port c b i)
unfolding Mask.diff ports_of
has_port-diff pulled_if_new_inputs_to_producer a b i h =
    testbit-on_bits differ 64 i a.pull_new b.pull_new h
has_port-diff pulled_always_inputs_to_producer a b i h =
    testbit-on_bits differ 64 i a.pull_old b.pull_old h
has_port-diff pushed_new_outputs_to_consumers a b i h =
    testbit-on_bits differ 64 i a.push_new b.push_new h
has_port-diff pushed_same_outputs_to_consumers a b i h =
    testbit-on_bits differ 64 i a.push_old b.push_old h

abbrev pub propagated : Graph → ℕ → PortMask
propagated g u = (node_at g u).propagated_mask

-- What has been propagated has reached the neighbours, and a node with something left to propagate is in
-- the list.
pub record Settling (g : Graph) (ns : List ℕ) : Type 0 where
  pub told :
      (c : Propagation) (n i : ℕ)
      → i < 64
      → has_port c (propagated g n) i ≡ true
      → Told c g (at_node n i)
  pub behind : (n : ℕ) → In n ns ⊎ Covers (propagated g n) (negotiated g n)

testbit-zero : (i : ℕ) → testbit 0 i ≡ false
unfolding testbit
testbit-zero zero = refl
testbit-zero (suc i) = testbit-zero i

has_port-reset : (c : Propagation) (i : ℕ) → has_port c Mask.reset i ≡ false
unfolding Mask.reset ports_of
has_port-reset pulled_if_new_inputs_to_producer i = testbit-zero i
has_port-reset pulled_always_inputs_to_producer i = testbit-zero i
has_port-reset pushed_new_outputs_to_consumers i = testbit-zero i
has_port-reset pushed_same_outputs_to_consumers i = testbit-zero i

-- Where nothing has been propagated yet, the nodes that ask for something are in the list.
pub reset-Settling :
    (g : Graph) (ns : List ℕ)
    → ((n : ℕ) → propagated g n ≡ Mask.reset)
    → ((n : ℕ) → In n ns ⊎ (negotiated g n ≡ Mask.reset))
    → Settling g ns
reset-Settling g ns fresh listed = record {
  told = λ c n i lt b. ground (arith, has_port-reset c i, rw (fresh n) at b);
  behind = λ n. elim (listed n) [
    | inl i ↦ inl i
    | inr e ↦ inr (λ c i lt b. ground (arith, has_port-reset c i, rw (e) at b))
  ];
}

-- A write of a node that leaves its ports and its negotiated mask.
set_node_keeps :
    (g : Graph) (n u : ℕ) (m : Node)
    → n < length g.nodes
    → m.negotiated_mask ≡ negotiated g n
    → m.ports ≡ (node_at g n).ports
    → (negotiated (set_node g n m) u ≡ negotiated g u)
      × ((node_at (set_node g n m) u).ports ≡ (node_at g u).ports)
      × (propagated (set_node g n m) u ≡ (if n == u then m.propagated_mask else propagated g u))
set_node_keeps g n u m h neg ports = elim (Bool-cases (n == u)) [
  | inl e ↦
      let at : node_at (set_node g n m) u ≡ m = rw (e) at (node_at-set_node g n u m h) in
      let same : n ≡ u = (==_iff n u).0 e in
      (
        ap (λ (x : Node). x.negotiated_mask) at ∙ (rw (same) at neg),
        ap (λ (x : Node). x.ports) at ∙ (rw (same) at ports),
        rw (e) (ap (λ (x : Node). x.propagated_mask) at),
      )
  | inr e ↦
      let at : node_at (set_node g n m) u ≡ node_at g u = rw (e) at (node_at-set_node g n u m h) in
      (
        ap (λ (x : Node). x.negotiated_mask) at,
        ap (λ (x : Node). x.ports) at,
        rw (e) (ap (λ (x : Node). x.propagated_mask) at),
      )
]

-- The node at the end of its evaluation.
pub set_propagated_lem :
    (g : Graph) (n u : ℕ)
    → n < length g.nodes
    → (negotiated (set_propagated g n) u ≡ negotiated g u)
      × ((node_at (set_propagated g n) u).ports ≡ (node_at g u).ports)
      × (propagated (set_propagated g n) u
          ≡ (if n == u then Mask.apply (propagated g n) (negotiated g n) else propagated g u))
unfolding set_propagated
set_propagated_lem g n u h = set_node_keeps g n u _ h refl refl

-- ===== src/Dfg/Schedule/Changes.antt =====
-- libaftermath-core/src/dfg_schedule.c: what the offers to neighbours change in a graph.
use aftermath.Base.{
  In, ℕ, ◌<◌, ◌≤◌, ◌≡◌, ◌⊎◌, refl, sym, ap, ◌∙◌, arith, Bool, true, false, ◌&&◌, ◌||◌, List, [],
  ◌∷◌, ◌==◌, if◌then◌else◌, length, get_or-set, length-set, inl, inr, Bool-cases, ==_iff,
}
use aftermath.Dfg.{PortRef, Node, Graph, no_node, node_at, port_at, set_node}
use aftermath.Dfg.Bits.{testbit, testbit-on_bits, and64}
use aftermath.Dfg.Mask
use aftermath.Dfg.Mask.{PortMask}
use aftermath.Dfg.Schedule.Room.{Narrow, IsNarrow, work, offered-work}
use aftermath.Dfg.Schedule.{
  Schedule, Propagation, pulled_if_new_inputs_to_producer, pulled_always_inputs_to_producer,
  pushed_new_outputs_to_consumers, pushed_same_outputs_to_consumers, ports_of, others_mask,
  list_del, list_push_front, offer,
}

abbrev pub has_port : Propagation → PortMask → ℕ → Bool
has_port c m b = testbit (ports_of c m) b

-- All ports of `sub` are in `sup`, in each of the four words.
abbrev pub Covers : PortMask → PortMask → Type 0
Covers sup sub =
    (c : Propagation) (b : ℕ) → b < 64 → has_port c sub b ≡ true → has_port c sup b ≡ true

and64-testbit :
    (sup sub b : ℕ)
    → b < 64
    → (and64 sub sup == sub) ≡ true
    → testbit sub b ≡ true
    → testbit sup b ≡ true
and64-testbit sup sub b h e t = ground (
  arith,
  testbit-on_bits (λ x y. x && y) 64 b sub sup h,
  ap (λ w. testbit w b) ((==_iff _ sub).0 e),
  t,
)

pub is_subset-Covers : (sup sub : PortMask) → Mask.is_subset sup sub ≡ true → Covers sup sub
unfolding Mask.is_subset ports_of
is_subset-Covers sup sub e pulled_if_new_inputs_to_producer b h t =
    and64-testbit sup.pull_new sub.pull_new b h (ground (arith, e)) t
is_subset-Covers sup sub e pulled_always_inputs_to_producer b h t =
    and64-testbit sup.pull_old sub.pull_old b h (ground (arith, e)) t
is_subset-Covers sup sub e pushed_new_outputs_to_consumers b h t =
    and64-testbit sup.push_new sub.push_new b h (ground (arith, e)) t
is_subset-Covers sup sub e pushed_same_outputs_to_consumers b h t =
    and64-testbit sup.push_old sub.push_old b h (ground (arith, e)) t

pub has_port-apply :
    (c : Propagation) (dst src : PortMask) (b : ℕ)
    → b < 64
    → has_port c (Mask.apply dst src) b ≡ (has_port c dst b || has_port c src b)
unfolding Mask.apply ports_of
has_port-apply pulled_if_new_inputs_to_producer dst src b h =
    testbit-on_bits (λ x y. x || y) 64 b dst.pull_new src.pull_new h
has_port-apply pulled_always_inputs_to_producer dst src b h =
    testbit-on_bits (λ x y. x || y) 64 b dst.pull_old src.pull_old h
has_port-apply pushed_new_outputs_to_consumers dst src b h =
    testbit-on_bits (λ x y. x || y) 64 b dst.push_new src.push_new h
has_port-apply pushed_same_outputs_to_consumers dst src b h =
    testbit-on_bits (λ x y. x || y) 64 b dst.push_old src.push_old h

abbrev pub negotiated : Graph → ℕ → PortMask
negotiated g u = (node_at g u).negotiated_mask

-- Masks only grow, and a node whose mask grows is in the list.
pub record Later (s t : Schedule) : Type 0 where
  pub ports : (u : ℕ) → (node_at t.graph u).ports ≡ (node_at s.graph u).ports
  pub propagated :
      (u : ℕ) → (node_at t.graph u).propagated_mask ≡ (node_at s.graph u).propagated_mask
  pub size : length t.graph.nodes ≡ length s.graph.nodes
  pub grows : (u : ℕ) → Covers (negotiated t.graph u) (negotiated s.graph u)
  pub queued : (u : ℕ) → In u s.sched_list → In u t.sched_list
  pub changed : (u : ℕ) → (negotiated t.graph u ≡ negotiated s.graph u) ⊎ In u t.sched_list
  pub entered : (u : ℕ) → In u t.sched_list → In u s.sched_list ⊎ (u < length s.graph.nodes)
  pub less : Narrow s.graph → work t ≤ work s

pub Narrow-ports :
    (g h : Graph) → ((u : ℕ) → (node_at h u).ports ≡ (node_at g u).ports) → Narrow g → Narrow h
unfolding port_at
Narrow-ports g h same narrow r c = rw (same r.node) (narrow r c)

pub Later-refl : (s : Schedule) → Later s s
Later-refl s = record {
  ports = λ u. refl;
  propagated = λ u. refl;
  size = refl;
  grows = λ u c b h t. t;
  queued = λ u i. i;
  changed = λ u. inl refl;
  entered = λ u i. inl i;
  less = λ narrow. omega arith;
}

pub Later-Later : {s t r : Schedule} → Later s t → Later t r → Later s r
Later-Later {s} {t} p q = record {
  ports = λ u. q.ports u ∙ p.ports u;
  propagated = λ u. q.propagated u ∙ p.propagated u;
  size = q.size ∙ p.size;
  grows = λ u c b h t. q.grows u c b h (p.grows u c b h t);
  queued = λ u i. q.queued u (p.queued u i);
  changed = λ u. elim (q.changed u) [
    | inr i ↦ inr i
    | inl e ↦ elim (p.changed u) [ inl e' ↦ inl (e ∙ e') | inr i ↦ inr (q.queued u i) ]
  ];
  entered = λ u i. elim (q.entered u i) [
    | inr lt ↦ inr (omega (arith, lt, p.size))
    | inl j ↦ p.entered u j
  ];
  less =
      λ narrow. omega (arith, p.less narrow, q.less (Narrow-ports s.graph t.graph p.ports narrow));
}

pub node_at-set_node :
    (g : Graph) (i u : ℕ) (n : Node)
    → i < length g.nodes
    → node_at (set_node g i n) u ≡ (if i == u then n else node_at g u)
unfolding node_at set_node
node_at-set_node g i u n h = ground (arith, get_or-set g.nodes i u n no_node, h)

pub negotiated-set_node :
    (g : Graph) (i u : ℕ) (n : Node)
    → i < length g.nodes
    → negotiated (set_node g i n) u ≡ (if i == u then n.negotiated_mask else negotiated g u)
negotiated-set_node g i u n h = elim (Bool-cases (i == u)) [
  | inl e ↦ rw (e) (ap (λ (m : Node). m.negotiated_mask) (rw (e) at (node_at-set_node g i u n h)))
  | inr e ↦ rw (e) (ap (λ (m : Node). m.negotiated_mask) (rw (e) at (node_at-set_node g i u n h)))
]

pub set_node-length :
    (g : Graph) (i : ℕ) (n : Node) → length (set_node g i n).nodes ≡ length g.nodes
unfolding set_node
set_node-length g i n = length-set g.nodes i n

list_del-In : (n u : ℕ) (ns : List ℕ) → In u ns → (n ≡ u) ⊎ In u (list_del n ns)
unfolding list_del
list_del-In n u [] i = absurd i
list_del-In n u (m ∷ ms) (inl e) = elim (Bool-cases (m == n)) [
  | inl d ↦ inl (sym ((==_iff m n).0 d) ∙ e)
  | inr d ↦ rw (d) (inr (inl e))
]
list_del-In n u (m ∷ ms) (inr i) = elim (list_del-In n u ms i) [
  | inl e ↦ inl e
  | inr j ↦ elim (Bool-cases (m == n)) [ inl d ↦ rw (d) (inr j) | inr d ↦ rw (d) (inr (inr j)) ]
]

In-list_del : (n u : ℕ) (ns : List ℕ) → In u (list_del n ns) → In u ns
unfolding list_del
In-list_del n u [] i = i
In-list_del n u (m ∷ ms) i = elim (Bool-cases (m == n)) [
  | inl d ↦ inr (In-list_del n u ms (rw (d) at i))
  | inr d ↦ elim (rw (d) at i) [ inl e ↦ inl e | inr j ↦ inr (In-list_del n u ms j) ]
]

-- A node whose negotiated mask grows by `mask`.
abbrev offered : Graph → ℕ → PortMask → Node
offered g u mask = record (node_at g u) { negotiated_mask = Mask.apply (negotiated g u) mask }

offered-Later :
    (s : Schedule) (n : ℕ) (mask : PortMask)
    → n < length s.graph.nodes
    → (Narrow s.graph → IsNarrow mask)
    → Mask.is_subset (negotiated s.graph n) mask ≡ false
    → Later s (record {
      graph = set_node s.graph n (offered s.graph n mask);
      sched_list = n ∷ list_del n s.sched_list;
    })
offered-Later s n mask h narrow more = record {
  ports = λ u. elim (Bool-cases (n == u)) [
    | inl e ↦ rw (node_at-set_node s.graph n u (offered s.graph n mask) h, e, (==_iff n u).0 e) refl
    | inr e ↦ rw (node_at-set_node s.graph n u (offered s.graph n mask) h, e) refl
  ];
  propagated = λ u. elim (Bool-cases (n == u)) [
    | inl e ↦ rw (node_at-set_node s.graph n u (offered s.graph n mask) h, e, (==_iff n u).0 e) refl
    | inr e ↦ rw (node_at-set_node s.graph n u (offered s.graph n mask) h, e) refl
  ];
  size = set_node-length s.graph n (offered s.graph n mask);
  grows = λ u c b lt t. elim (Bool-cases (n == u)) [
    | inl e ↦
        rw (negotiated-set_node s.graph n u (offered s.graph n mask) h, e, (==_iff n u).0 e)
          (ground (arith, has_port-apply c (negotiated s.graph u) mask b lt, t))
    | inr e ↦ rw (negotiated-set_node s.graph n u (offered s.graph n mask) h, e) t
  ];
  queued = λ u. list_del-In n u s.sched_list;
  changed = λ u. elim (Bool-cases (n == u)) [
    | inl e ↦ inr (inl ((==_iff n u).0 e))
    | inr e ↦ inl (rw (negotiated-set_node s.graph n u (offered s.graph n mask) h, e) refl)
  ];
  entered =
      λ u i. elim i [ inl e ↦ inr (rw (e) at h) | inr j ↦ inl (In-list_del n u s.sched_list j) ];
  less = λ k. offered-work s n (offered s.graph n mask) mask h (narrow k) refl more;
}

pub offer-Later :
    (c : Propagation) (s : Schedule) (other : PortRef)
    → other.node < length s.graph.nodes
    → Later s (offer c s other)
unfolding offer list_push_front
offer-Later c s other h =
    elim (Bool-cases (
      Mask.is_subset (negotiated s.graph other.node)
        (others_mask c (port_at s.graph other).type))) [
          | inl e ↦ rw (e) (Later-refl s)
          | inr e ↦ rw (e) (offered-Later s other.node _ h (λ k. k other c) e)
        ]

pub offer-Covers :
    (c : Propagation) (s : Schedule) (other : PortRef)
    → other.node < length s.graph.nodes
    → Covers
        (negotiated (offer c s other).graph other.node)
        (others_mask c (port_at s.graph other).type)
unfolding offer list_push_front
offer-Covers c s other h = elim (Bool-cases (Mask.is_subset (negotiated s.graph other.node) mask)) [
  | inl e ↦ rw (e) (is_subset-Covers (negotiated s.graph other.node) mask e)
  | inr e ↦ λ c' b lt t.
      rw
        (
          e,
          list_push_front,
          negotiated-set_node s.graph other.node other.node (offered s.graph other.node mask) h,
          (==_iff other.node other.node).1 refl,
        )
        (ground (arith, has_port-apply c' (negotiated s.graph other.node) mask b lt, t))
]
  where
    mask : PortMask
    mask = others_mask c (port_at s.graph other).type

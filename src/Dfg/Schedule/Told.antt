-- ===== src/Dfg/Schedule/Told.antt =====
-- libaftermath-core/src/dfg_schedule.c: after a propagation the neighbours have been told.
use aftermath.Base.{
  In, ℕ, zero, suc, ◌+◌, ◌<◌, ◌≡◌, ◌≢◌, refl, ap, ◌∙◌, arith, true, List, [], ◌∷◌, ◌/◌, length,
  get_or, inl, inr, Bool-cases,
}
use aftermath.Dfg.{PortRef, Graph, no_port, port_at}
use aftermath.Dfg.Bits.{testbit, set_bits, set_bits_from, is_odd}
use aftermath.Dfg.Mask
use aftermath.Dfg.Schedule.{Schedule, Propagation, others_mask, list_push_front, offer, offers}
use aftermath.Dfg.Schedule.Changes.{
  Covers, negotiated, negotiated-set_node, Later, Later-refl, Later-Later, offer-Later,
  offer-Covers,
}

-- Connections end in the heap, and not at the node they start from.
pub record Leads (g : Graph) : Type 0 where
  pub within : (r q : PortRef) → In q (port_at g r).connections → q.node < length g.nodes
  pub elsewhere : (r q : PortRef) → In q (port_at g r).connections → q.node ≢ r.node

-- The mask of each port connected to a port is negotiated by its node.
abbrev pub Told : Propagation → Graph → PortRef → Type 0
Told c g r =
    (q : PortRef)
    → In q (port_at g r).connections
    → Covers (negotiated g q.node) (others_mask c (port_at g q).type)

-- Two graphs with the same ports, the second with larger masks.
pub record Grows (g h : Graph) : Type 0 where
  pub same : (r : PortRef) → port_at h r ≡ port_at g r
  pub grows : (u : ℕ) → Covers (negotiated h u) (negotiated g u)
  pub size : length h.nodes ≡ length g.nodes

pub Later-Grows : {s t : Schedule} → Later s t → Grows s.graph t.graph
unfolding port_at
Later-Grows q = record {
  same = λ r. ap (λ ps. get_or ps r.port no_port) (q.ports r.node);
  grows = q.grows;
  size = q.size;
}

pub Told-Grows : (c : Propagation) {g h : Graph} (r : PortRef) → Grows g h → Told c g r → Told c h r
Told-Grows c r k told q i c' b lt t =
    k.grows q.node c' b lt (told q (rw (k.same _) at i) c' b lt (rw (k.same q) at t))

pub Leads-Grows : {g h : Graph} → Grows g h → Leads g → Leads h
Leads-Grows k e = record {
  within = λ r q i. rw (k.size) (e.within r q (rw (k.same r) at i));
  elsewhere = λ r q i. e.elsewhere r q (rw (k.same r) at i);
}

after_offer :
    (c : Propagation) (s : Schedule) (q : PortRef) (qs : List PortRef)
    → ((r : PortRef) → In r (q ∷ qs) → r.node < length s.graph.nodes)
    → (r : PortRef) → In r qs
    → r.node < length (offer c s q).graph.nodes
after_offer c s q qs h r i = omega (arith, h r (inr i), (offer-Later c s q (h q (inl refl))).size)

pub offers-Later :
    (c : Propagation) (s : Schedule) (qs : List PortRef)
    → ((q : PortRef) → In q qs → q.node < length s.graph.nodes)
    → Later s (offers c s qs)
unfolding offers
offers-Later c s [] h = Later-refl s
offers-Later c s (q ∷ qs) h =
    Later-Later (offer-Later c s q (h q (inl refl)))
      (offers-Later c (offer c s q) qs (after_offer c s q qs h))

-- All the offers of the inner loop are taken.
pub offers-Covers :
    (c : Propagation) (s : Schedule) (qs : List PortRef)
    → ((q : PortRef) → In q qs → q.node < length s.graph.nodes)
    → (q : PortRef) → In q qs
    → Covers (negotiated (offers c s qs).graph q.node) (others_mask c (port_at s.graph q).type)
unfolding offers
offers-Covers c s [] h q i = absurd i
offers-Covers c s (r ∷ qs) h q (inl e) = rw (← e) (λ c' b lt t.
    (offers-Later c (offer c s r) qs (after_offer c s r qs h)).grows r.node c' b lt
      (offer-Covers c s r (h r (inl refl)) c' b lt t))
offers-Covers c s (r ∷ qs) h q (inr i) = λ c' b lt t.
    offers-Covers c (offer c s r) qs (after_offer c s r qs h) q i c' b lt
      (rw ((Later-Grows (offer-Later c s r (h r (inl refl)))).same q) t)

offer-negotiated :
    (c : Propagation) (s : Schedule) (q : PortRef) (n : ℕ)
    → q.node < length s.graph.nodes
    → q.node ≢ n
    → negotiated (offer c s q).graph n ≡ negotiated s.graph n
unfolding offer list_push_front
offer-negotiated c s q n h e =
    elim (Bool-cases
      (Mask.is_subset (negotiated s.graph q.node) (others_mask c (port_at s.graph q).type))) [
        | inl z ↦ rw (z) refl
        | inr z ↦ rw (z) (negotiated-set_node s.graph q.node n _ h ∙ ground (arith, e))
      ]

-- The node itself is not among those that the offers go to.
pub offers-negotiated :
    (c : Propagation) (s : Schedule) (qs : List PortRef) (n : ℕ)
    → ((q : PortRef) → In q qs → q.node < length s.graph.nodes)
    → ((q : PortRef) → In q qs → q.node ≢ n)
    → negotiated (offers c s qs).graph n ≡ negotiated s.graph n
unfolding offers
offers-negotiated c s [] n h e = refl
offers-negotiated c s (q ∷ qs) n h e =
    offers-negotiated c (offer c s q) qs n (after_offer c s q qs h) (λ r i. e r (inr i))
    ∙ offer-negotiated c s q n (h q (inl refl)) (e q (inl refl))

set_bits_from-In :
    (n i j k a : ℕ) → j < n → k ≡ i + j → testbit a j ≡ true → In k (set_bits_from n i a)
unfolding set_bits_from testbit
set_bits_from-In zero i j k a h e t = absurd (omega arith)
set_bits_from-In (suc n) i zero k a h e t = rw (t) (inl (omega arith))
set_bits_from-In (suc n) i (suc j) k a h e t = elim (Bool-cases (is_odd a)) [
  | inl o ↦ rw (o) (inr (set_bits_from-In n (i + 1) j k (a / 2) (omega arith) (omega arith) t))
  | inr o ↦ rw (o) (set_bits_from-In n (i + 1) j k (a / 2) (omega arith) (omega arith) t)
]

pub set_bits-In : (j a : ℕ) → j < 64 → testbit a j ≡ true → In j (set_bits a)
unfolding set_bits
set_bits-In j a h t = set_bits_from-In 64 0 j j a h (omega arith) t

-- ===== src/Dfg/Schedule/Clashes.antt =====
-- libaftermath-core/src/dfg_schedule.c: why am_dfg_schedule_node_eval_dependencies fails.
use aftermath.Base.{
  In, ℕ, zero, suc, ◌+◌, ◌/◌, ◌<◌, ◌≡◌, ◌⊎◌, refl, arith, true, false, List, [], ◌∷◌, inl, inr,
  Bool-cases,
}
use aftermath.Dfg.{Graph, port_at}
use aftermath.Dfg.Bits.{testbit, is_odd, set_bits, set_bits_from}
use aftermath.Dfg.Mask
use aftermath.Dfg.Mask.{PortMask}
use aftermath.Dfg.Schedule.{
  Schedule, Propagation, ports_of, is_port_type, offers, propagate_ports, propagate, propagate_all,
  all_propagations, node_eval_dependencies,
}
use aftermath.Dfg.Schedule.Changes.{has_port, negotiated, Later, Later-refl, Later-Later}
use aftermath.Dfg.Schedule.Told.{Leads, Later-Grows, Leads-Grows, offers-Later}
use aftermath.Dfg.Schedule.Settles.{at_node, has_port-diff, propagated, propagate-Spread}

-- A bit that is listed is set.
In-set_bits_from :
    (n i k a : ℕ)
    → In k (set_bits_from n i a)
    → (j : ℕ) × (j < n) × (k ≡ i + j) × (testbit a j ≡ true)
unfolding set_bits_from testbit
In-set_bits_from zero i k a e = absurd e
In-set_bits_from (suc n) i k a e = elim (Bool-cases (is_odd a)) [
  | inl o ↦ elim (rw (o) at e) [
    | inl same ↦ (0, omega arith, omega arith, o)
    | inr later ↦
        let (j, h, s, t) = In-set_bits_from n (i + 1) k (a / 2) later in
        (suc j, omega arith, omega arith, t)
  ]
  | inr o ↦
      let (j, h, s, t) = In-set_bits_from n (i + 1) k (a / 2) (rw (o) at e) in
      (suc j, omega arith, omega arith, t)
]

In-set_bits : (k a : ℕ) → In k (set_bits a) → (k < 64) × (testbit a k ≡ true)
unfolding set_bits
In-set_bits k a e =
    let (j, h, s, t) = In-set_bits_from 64 0 k a e in
    let same : k ≡ j = omega arith in rw (same) (h, t)

-- The propagation stopped at a port that does not have the type for it.
abbrev Stopped : Propagation → ℕ → List ℕ → Schedule → Schedule → Type 0
Stopped c n is s t =
    Later s t × (i : ℕ) × In i is × (is_port_type c (port_at t.graph (at_node n i)) ≡ false)

propagate_ports-Stopped :
    (c : Propagation) (s : Schedule) (n : ℕ) (is : List ℕ)
    → Leads s.graph
    → (propagate_ports c s n is).1 ≡ false
    → Stopped c n is s (propagate_ports c s n is).0
unfolding propagate_ports
propagate_ports-Stopped c s n [] e failed = absurd (ground (arith, failed))
propagate_ports-Stopped c s n (i ∷ is) e failed =
    elim (Bool-cases (is_port_type c (port_at s.graph (at_node n i)))) [
      | inr z ↦ rw (z) (Later-refl s, i, inl refl, z)
      | inl z ↦
          let later =
            offers-Later c s (port_at s.graph (at_node n i)).connections (e.within (at_node n i)) in
          let (q, j, k, stop) =
            propagate_ports-Stopped c (offers c s (port_at s.graph (at_node n i)).connections) n is
              (Leads-Grows (Later-Grows later) e) (rw (z) at failed) in
          rw (z) (Later-Later later q, j, inr k, stop)
    ]

-- The same of the propagations one after the other.
propagate_all-Stopped :
    (s : Schedule) (n : ℕ) (d : PortMask) (cs : List Propagation)
    → Leads s.graph
    → (propagate_all s n d cs).1 ≡ false
    → (c : Propagation) × Stopped c n (set_bits (ports_of c d)) s (propagate_all s n d cs).0
unfolding propagate_all propagate
propagate_all-Stopped s n d [] e failed = absurd (ground (arith, failed))
propagate_all-Stopped s n d (c ∷ cs) e failed = elim (Bool-cases (propagate c s n d).1) [
  | inr z ↦ rw (z) (c, propagate_ports-Stopped c s n (set_bits (ports_of c d)) e z)
  | inl z ↦
      let first = propagate-Spread c s n d e z in
      let (c', stopped) =
        propagate_all-Stopped (propagate c s n d).0 n d cs (Leads-Grows (Later-Grows first.later) e)
          (rw (z) at failed) in
      let (q, i, k, stop) = stopped in rw (z) (c', (Later-Later first.later q, i, k, stop))
]

-- A node takes part with a port that does not have the type for it: it pulls at what is no input port, or
-- pushes at what is no output port.
abbrev pub Clash : Graph → Type 0
Clash h =
    (c : Propagation) × (n : ℕ) × (i : ℕ) × (i < 64)
    × ((has_port c (negotiated h n) i ≡ true) ⊎ (has_port c (propagated h n) i ≡ true))
    × (is_port_type c (port_at h (at_node n i)) ≡ false)

in_either :
    (c : Propagation) (g t : Graph) (n i : ℕ)
    → i < 64
    → (has_port c (negotiated g n) i ≡ true → has_port c (negotiated t n) i ≡ true)
    → propagated t n ≡ propagated g n
    → has_port c (Mask.diff (negotiated g n) (propagated g n)) i ≡ true
    → (has_port c (negotiated t n) i ≡ true) ⊎ (has_port c (propagated t n) i ≡ true)
in_either c g t n i lt grows same b =
    let d = has_port-diff c (negotiated g n) (propagated g n) i lt in
    elim (Bool-cases (has_port c (negotiated g n) i)) [
      | inl z ↦ inl (grows z)
      | inr z ↦ inr (rw (same) (ground (arith, d, b, z)))
    ]

pub node_eval_dependencies-Clash :
    (g : Graph) (n : ℕ) (ns : List ℕ)
    → Leads g
    → (node_eval_dependencies (record { graph = g; sched_list = ns }) n).1 ≡ false
    → Clash (node_eval_dependencies (record { graph = g; sched_list = ns }) n).0.graph
unfolding node_eval_dependencies
node_eval_dependencies-Clash g n ns e failed =
    let d = Mask.diff (negotiated g n) (propagated g n) in
    elim (Bool-cases
      (propagate_all (record { graph = g; sched_list = ns }) n d all_propagations).1) [
        | inl z ↦ absurd (ground (arith, rw (z) at failed))
        | inr z ↦
            let (c, stopped) =
              propagate_all-Stopped (record { graph = g; sched_list = ns }) n d all_propagations e
                z in
            let (q, i, k, stop) = stopped in
            let (lt, b) = In-set_bits i (ports_of c d) k in
            rw (z) (c, n, i, lt, in_either c g _ n i lt (q.grows n c i lt) (q.propagated n) b, stop)
      ]

-- ===== src/Dfg/Schedule/Agree.antt =====
-- libaftermath-core/src/dfg_schedule.c: the rounds of am_dfg_schedule_converge_deps, and where they end.
use aftermath.Base.{
  In, ℕ, zero, suc, ◌<◌, ◌≤◌, ◌≡◌, refl, ap, ◌∙◌, arith, Bool, true, false, List, [], ◌∷◌, ◌==◌,
  if◌then◌else◌, length, get_or, inl, inr, Bool-cases, ==_iff,
}
use aftermath.Dfg.{Graph, no_port, node_at, port_at}
use aftermath.Dfg.Mask
use aftermath.Dfg.Mask.{PortMask}
use aftermath.Dfg.Schedule.{
  Schedule, Propagation, propagate_all, all_propagations, set_propagated, node_eval_dependencies,
  Converged, converged, conflict, out_of_rounds, converge_deps,
}
use aftermath.Dfg.Schedule.Room.{Narrow, work, set_node-work}
use aftermath.Dfg.Schedule.Changes.{has_port, has_port-apply, negotiated, set_node-length}
use aftermath.Dfg.Schedule.Told.{Leads, Told, Grows, Later-Grows, Told-Grows, Leads-Grows}
use aftermath.Dfg.Schedule.Settles.{
  at_node, SpreadAll, propagate_all-SpreadAll, every_propagation, has_port-diff, propagated,
  Settling, set_propagated_lem,
}

Grows-refl : (g : Graph) → Grows g g
Grows-refl g = record { same = λ r. refl; grows = λ u c b lt t. t; size = refl }

Grows-Grows : {f g h : Graph} → Grows f g → Grows g h → Grows f h
Grows-Grows p q = record {
  same = λ r. q.same r ∙ p.same r;
  grows = λ u c b lt t. q.grows u c b lt (p.grows u c b lt t);
  size = q.size ∙ p.size;
}

set_propagated-Grows : (g : Graph) (n : ℕ) → n < length g.nodes → Grows g (set_propagated g n)
unfolding port_at set_propagated
set_propagated-Grows g n h = record {
  same = λ r. ap (λ ps. get_or ps r.port no_port) ((set_propagated_lem g n r.node h).1);
  grows = λ u c b lt t. rw ((set_propagated_lem g n u h).0) t;
  size = set_node-length g n _;
}

module _ (g : Graph) (t : Schedule) (n : ℕ) (ns : List ℕ) (inside : n < length t.graph.nodes)
    (old : Settling g (n ∷ ns))
    (spread : SpreadAll n
      (Mask.diff (negotiated g n) (propagated g n))
      all_propagations
      (record { graph = g; sched_list = ns })
      t) where
  own_bits :
      (c : Propagation) (i : ℕ)
      → i < 64
      → has_port c (Mask.apply (propagated t.graph n) (negotiated t.graph n)) i ≡ true
      → Told c t.graph (at_node n i)
  own_bits c i lt b = elim (Bool-cases (has_port c (propagated g n) i)) [
    | inl p ↦ Told-Grows c (at_node n i) (Later-Grows spread.later) (old.told c n i lt p)
    | inr p ↦ spread.told c i (every_propagation c) lt (
        ground (
          arith,
          has_port-diff c (negotiated g n) (propagated g n) i lt,
          has_port-apply c (propagated g n) (negotiated g n) i lt,
          rw (spread.later.propagated n, spread.own) at b,
          p,
        ))
  ]

  after :
      (m : ℕ)
      → (negotiated (set_propagated t.graph n) m ≡ negotiated t.graph m)
        × ((node_at (set_propagated t.graph n) m).ports ≡ (node_at t.graph m).ports)
        × (propagated (set_propagated t.graph n) m ≡ (
            if n == m
            then Mask.apply (propagated t.graph n) (negotiated t.graph n)
            else propagated t.graph m))
  after m = set_propagated_lem t.graph n m inside

  evaluated-Settling : Settling (set_propagated t.graph n) t.sched_list
  evaluated-Settling = record {
    told = λ c m i lt b. elim (Bool-cases (n == m)) [
      | inl e ↦
          Told-Grows c (at_node m i) (set_propagated-Grows t.graph n inside)
            (rw (← (==_iff n m).0 e) (own_bits c i lt (rw ((after m).2, e) at b)))
      | inr e ↦ Told-Grows c (at_node m i) (set_propagated-Grows t.graph n inside) (
          Told-Grows c (at_node m i) (Later-Grows spread.later)
            (old.told c m i lt (rw ((after m).2, e, spread.later.propagated m) at b)))
    ];
    behind = λ m. elim (Bool-cases (n == m)) [
      | inl e ↦ inr (λ c i lt b.
          rw ((after m).2, e)
            (ground (
              arith,
              has_port-apply c (propagated t.graph n) (negotiated t.graph n) i lt,
              rw ((after m).0, ← (==_iff n m).0 e) at b,
            )))
      | inr e ↦ elim (old.behind m) [
        | inl (inl e') ↦ absurd (ground (arith, e, e'))
        | inl (inr i) ↦ inl (spread.later.queued m i)
        | inr covered ↦ elim (spread.later.changed m) [
          | inr i ↦ inl i
          | inl unchanged ↦ inr (λ c i lt b.
              rw ((after m).2, e, spread.later.propagated m)
                (covered c i lt (rw ((after m).0, unchanged) at b)))
        ]
      ]
    ];
  }

set_propagated-length : (g : Graph) (n : ℕ) → length (set_propagated g n).nodes ≡ length g.nodes
unfolding set_propagated
set_propagated-length g n = set_node-length g n _

set_propagated-work :
    (g : Graph) (n : ℕ) (ns : List ℕ)
    → n < length g.nodes
    → work (record { graph = set_propagated g n; sched_list = ns })
      ≡ work (record { graph = g; sched_list = ns })
unfolding set_propagated
set_propagated-work g n ns h = set_node-work g n _ ns h refl

schedule_of : Schedule → Converged → Schedule
schedule_of d (converged t) = t
schedule_of d (conflict t) = d
schedule_of d out_of_rounds = d

is_converged : Converged → Bool
is_converged (converged t) = true
is_converged (conflict t) = false
is_converged out_of_rounds = false

-- One evaluation that succeeds.
pub record Evaluated (g : Graph) (ns : List ℕ) (t : Schedule) : Type 0 where
  pub settling : Settling t.graph t.sched_list
  pub grown : Grows g t.graph
  pub listed : (u : ℕ) → In u t.sched_list → u < length t.graph.nodes
  pub less : Narrow g → work t ≤ work (record { graph = g; sched_list = ns })

pub node_eval_dependencies-Evaluated :
    (g : Graph) (n : ℕ) (ns : List ℕ)
    → Leads g
    → ((u : ℕ) → In u (n ∷ ns) → u < length g.nodes)
    → Settling g (n ∷ ns)
    → (node_eval_dependencies (record { graph = g; sched_list = ns }) n).1 ≡ true
    → Evaluated g ns (node_eval_dependencies (record { graph = g; sched_list = ns }) n).0
unfolding node_eval_dependencies
node_eval_dependencies-Evaluated g n ns e inside old done =
    elim (Bool-cases (propagate_all s n d all_propagations).1) [
      | inr z ↦ ground (arith, rw (z) at done)
      | inl z ↦ rw (z) (evaluated (propagate_all-SpreadAll s n d all_propagations e z))
    ]
  where
    s : Schedule
    s = record { graph = g; sched_list = ns }

    d : PortMask
    d = Mask.diff (negotiated g n) (propagated g n)

    evaluated :
        {t : Schedule}
        → SpreadAll n d all_propagations s t
        → Evaluated g ns (record { graph = set_propagated t.graph n; sched_list = t.sched_list })
    evaluated {t} spread = record {
      settling =
          evaluated-Settling g t n ns (omega (arith, spread.later.size, inside n (inl refl))) old
            spread;
      grown =
          Grows-Grows (Later-Grows spread.later) (
            set_propagated-Grows t.graph n (omega (arith, spread.later.size, inside n (inl refl))));
      listed = λ u i. elim (spread.later.entered u i) [
        | inl j ↦
            omega (arith, inside u (inr j), spread.later.size, set_propagated-length t.graph n)
        | inr lt ↦ omega (arith, lt, spread.later.size, set_propagated-length t.graph n)
      ];
      less = λ narrow. omega (
        arith,
        spread.later.less narrow,
        set_propagated-work t.graph n t.sched_list
            (omega (arith, spread.later.size, inside n (inl refl))),
      );
    }

-- Every port of `h` that takes part in the run has told its neighbours.
abbrev pub Agrees : Graph → Type 0
Agrees h =
    (c : Propagation) (n i : ℕ)
    → i < 64
    → has_port c (negotiated h n) i ≡ true
    → Told c h (at_node n i)

-- When the negotiation succeeds, all agree: whatever a node has negotiated for one of its first 64 ports,
-- the nodes at the other ends of the port's connections have negotiated all that their port types ask for
-- in turn. The ports of the graph stay, and no mask has lost a port. This holds where connections end in
-- the heap and none leads from a node to itself, where the listed nodes are in the heap, and where at the
-- start each node with something negotiated that is not propagated is in the list and all that is
-- propagated has reached the nodes at the other ends.
pub converge_deps-Agrees :
    (rounds : ℕ) (g : Graph) (ns : List ℕ) (t : Schedule)
    → Leads g
    → ((u : ℕ) → In u ns → u < length g.nodes)
    → Settling g ns
    → converge_deps rounds g ns ≡ converged t
    → Agrees t.graph × Grows g t.graph
unfolding converge_deps schedule_of is_converged
converge_deps-Agrees zero g ns t e inside old done = ground (arith, ap is_converged done)
converge_deps-Agrees (suc rounds) g [] t e inside old done = rw (← ap (schedule_of t) done) (
  λ c n i lt b. elim (old.behind n) [
    | inl none ↦ absurd none
    | inr covered ↦ old.told c n i lt (covered c i lt b)
  ],
  Grows-refl g,
)
converge_deps-Agrees (suc rounds) g (n ∷ ns) t e inside old done =
    elim (Bool-cases (node_eval_dependencies (record { graph = g; sched_list = ns }) n).1) [
      | inr z ↦ ground (arith, ap is_converged (rw (z) at done))
      | inl z ↦
          let s = node_eval_dependencies-Evaluated g n ns e inside old z in
          let (agrees, grows) =
            converge_deps-Agrees rounds
              (node_eval_dependencies (record { graph = g; sched_list = ns }) n).0.graph
              (node_eval_dependencies (record { graph = g; sched_list = ns }) n).0.sched_list t
              (Leads-Grows s.grown e) s.listed s.settling (rw (z) at done) in
          (agrees, Grows-Grows s.grown grows)
    ]

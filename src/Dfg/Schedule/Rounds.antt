-- ===== src/Dfg/Schedule/Rounds.antt =====
-- libaftermath-core/src/dfg_schedule.c: am_dfg_schedule_converge_deps ends.
use aftermath.Base.{
  In, ℕ, zero, suc, ◌<◌, ◌≡◌, ◌⊎◌, refl, arith, List, [], ◌∷◌, inl, inr, Bool-cases, length,
}
use aftermath.Dfg.{Graph}
use aftermath.Dfg.Schedule.{Schedule, converged, conflict, converge_deps, node_eval_dependencies}
use aftermath.Dfg.Schedule.Room.{Narrow, work}
use aftermath.Dfg.Schedule.Told.{Leads, Grows, Leads-Grows}
use aftermath.Dfg.Schedule.Settles.{Settling}
use aftermath.Dfg.Schedule.Clashes.{Clash, node_eval_dependencies-Clash}
use aftermath.Dfg.Schedule.Agree.{node_eval_dependencies-Evaluated}

Narrow-Grows : {g h : Graph} → Grows g h → Narrow g → Narrow h
Narrow-Grows k narrow r c = rw (k.same r) (narrow r c)

-- Given more rounds than `work` counts, the negotiation ends, with success or with failure, and fails
-- only where a node has negotiated or propagated a pull at a port that is no input or a push at one
-- that is no output. `work` is one for each listed node and one for each of the 256 ports that a
-- node's masks can still gain. This holds where connections end in the heap and none leads from a node
-- to itself, where the masks of port types are 64-bit words, where the listed nodes are in the heap,
-- and where at the start each node with something negotiated that is not propagated is in the list and
-- all that is propagated has reached the nodes at the other ends.
pub converge_deps-ends :
    (rounds : ℕ) (g : Graph) (ns : List ℕ)
    → Leads g
    → Narrow g
    → ((u : ℕ) → In u ns → u < length g.nodes)
    → Settling g ns
    → work (record { graph = g; sched_list = ns }) < rounds
    → (t : Schedule) × ((converge_deps rounds g ns ≡ converged t)
        ⊎ (converge_deps rounds g ns ≡ conflict t) × Clash t.graph)
unfolding converge_deps
converge_deps-ends zero g ns e narrow inside old h = absurd (omega arith)
converge_deps-ends (suc rounds) g [] e narrow inside old h = (_, inl refl)
converge_deps-ends (suc rounds) g (n ∷ ns) e narrow inside old h =
    elim (Bool-cases (node_eval_dependencies (record { graph = g; sched_list = ns }) n).1) [
      | inr z ↦ (
        (node_eval_dependencies (record { graph = g; sched_list = ns }) n).0,
        inr (rw (z) refl, node_eval_dependencies-Clash g n ns e z),
      )
      | inl z ↦ rw (z) (
          let s = node_eval_dependencies-Evaluated g n ns e inside old z in
          converge_deps-ends rounds
            (node_eval_dependencies (record { graph = g; sched_list = ns }) n).0.graph
            (node_eval_dependencies (record { graph = g; sched_list = ns }) n).0.sched_list
            (Leads-Grows s.grown e) (Narrow-Grows s.grown narrow) s.listed s.settling
            (omega (arith, s.less narrow, h)))
    ]

-- ===== src/Examples/Schedules.antt =====
-- dfg_schedule.c at a concrete graph, in which the sink waits for the source.
use aftermath.Base.{
  inr, inl, ltb→lt, In, ℕ, zero, suc, ◌<◌, ◌≡◌, ◌≢◌, ◌⊎◌, refl, arith, true, some, [], ◌∷◌, length,
  ltb,
}
use aftermath.Dfg.{
  PortRef, Graph, port_in, port_out, no_type, port_at, node_at, set_node, is_input_port,
  is_output_port, is_connected,
}
use aftermath.Dfg.Bits.{num_bits_set, set_bits, set_bits_from, testbit, on_bits}
use aftermath.Dfg.Mask
use aftermath.Dfg.Schedule.{
  Schedule, pulled_if_new_inputs_to_producer, pulled_always_inputs_to_producer,
  pushed_new_outputs_to_consumers, pushed_same_outputs_to_consumers, others_mask, converge_deps,
  converged, conflict, node_eval_dependencies, propagate_all, propagate, propagate_ports, offers,
  offer, list_push_front, list_del, ports_of, is_port_type, set_propagated, count_activated,
  activated, any_reads,
}
use aftermath.Dfg.Schedule.Room.{IsNarrow, Narrow, work}
use aftermath.Dfg.Schedule.Told.{Leads, Grows}
use aftermath.Dfg.Schedule.Settles.{Settling, reset-Settling}
use aftermath.Dfg.Schedule.Agree.{Agrees, converge_deps-Agrees}
use aftermath.Dfg.Schedule.Clashes.{Clash}
use aftermath.Dfg.Schedule.Rounds.{converge_deps-ends}
use aftermath.Examples.Graphs.{numbers, port_of, empty_mask, node_of, source_out, sink_in, linked}

-- The sink asks for data that need not be new. The source answers that it gives old data.
abbrev asking : Graph
asking = record linked {
  nodes =
      node_of 1 (
        record (port_of port_out) {
          type = record no_type {
            sample_type = numbers;
            flags = port_out;
            old_mask = record empty_mask { push_old = 1 };
          };
          connections = sink_in ∷ [];
          buffer = some 0;
        }
        ∷ [])
      ∷ node_of 2 (port_of port_in ∷ port_of port_out ∷ [])
      ∷ record (node_of 3
          (record (port_of port_in) { connections = source_out ∷ []; buffer = some 0 } ∷ [])) {
            negotiated_mask = record empty_mask { pull_old = 1 };
          }
      ∷ [];
}

asking_at :
    (n p : ℕ) (q : PortRef)
    → In q (port_at asking (record { node = n; port = p })).connections
    → (q.node < length asking.nodes) × (q.node ≢ n)
unfolding port_at node_at
asking_at zero zero q i = ground (arith, i)
asking_at zero (suc p) q i = absurd i
asking_at (suc zero) zero q i = absurd i
asking_at (suc zero) (suc zero) q i = absurd i
asking_at (suc zero) (suc (suc p)) q i = absurd i
asking_at (suc (suc zero)) zero q i = ground (arith, i)
asking_at (suc (suc zero)) (suc p) q i = absurd i
asking_at (suc (suc (suc n))) p q i = absurd i

asking-Leads : Leads asking
asking-Leads = record {
  within = λ r q i. (asking_at r.node r.port q i).0;
  elsewhere = λ r q i. (asking_at r.node r.port q i).1;
}

empty-IsNarrow : IsNarrow empty_mask
empty-IsNarrow = record {
  pull_new = omega arith;
  pull_old = omega arith;
  push_new = omega arith;
  push_old = omega arith;
}

masks_at :
    (n p : ℕ)
    → let t = (port_at asking (record { node = n; port = p })).type in
      IsNarrow t.new_mask × IsNarrow t.old_mask
unfolding port_at node_at
masks_at zero zero = (
  empty-IsNarrow,
  record {
    pull_new = omega arith;
    pull_old = omega arith;
    push_new = omega arith;
    push_old = omega arith;
  },
)
masks_at zero (suc p) = (empty-IsNarrow, empty-IsNarrow)
masks_at (suc zero) zero = (empty-IsNarrow, empty-IsNarrow)
masks_at (suc zero) (suc zero) = (empty-IsNarrow, empty-IsNarrow)
masks_at (suc zero) (suc (suc p)) = (empty-IsNarrow, empty-IsNarrow)
masks_at (suc (suc zero)) zero = (empty-IsNarrow, empty-IsNarrow)
masks_at (suc (suc zero)) (suc p) = (empty-IsNarrow, empty-IsNarrow)
masks_at (suc (suc (suc n))) p = (empty-IsNarrow, empty-IsNarrow)

asking-Narrow : Narrow asking
unfolding others_mask
asking-Narrow r pulled_if_new_inputs_to_producer = (masks_at r.node r.port).0
asking-Narrow r pulled_always_inputs_to_producer = (masks_at r.node r.port).1
asking-Narrow r pushed_new_outputs_to_consumers = (masks_at r.node r.port).0
asking-Narrow r pushed_same_outputs_to_consumers = (masks_at r.node r.port).1

fresh_at :
    (n : ℕ)
    → ((node_at asking n).propagated_mask ≡ Mask.reset)
      × (In n (2 ∷ []) ⊎ ((node_at asking n).negotiated_mask ≡ Mask.reset))
unfolding node_at Mask.reset
fresh_at zero = (refl, inr refl)
fresh_at (suc zero) = (refl, inr refl)
fresh_at (suc (suc zero)) = (refl, inl (inl refl))
fresh_at (suc (suc (suc n))) = (refl, inr refl)

asking-Settling : Settling asking (2 ∷ [])
asking-Settling = reset-Settling asking (2 ∷ []) (λ n. (fresh_at n).0) (λ n. (fresh_at n).1)

asking_listed : (u : ℕ) → In u (2 ∷ []) → u < length asking.nodes
asking_listed u i = ground (arith, i)

asking-work : ltb (work (record { graph = asking; sched_list = 2 ∷ [] })) 800 ≡ true
unfolding num_bits_set
asking-work = refl

converge_deps-ends_example :
    (t : Schedule) × ((converge_deps 800 asking (2 ∷ []) ≡ converged t)
      ⊎ (converge_deps 800 asking (2 ∷ []) ≡ conflict t) × Clash t.graph)
converge_deps-ends_example =
    converge_deps-ends 800 asking (2 ∷ []) asking-Leads asking-Narrow asking_listed asking-Settling
      (ltb→lt (work (record { graph = asking; sched_list = 2 ∷ [] })) 800 asking-work)

-- The source gives its old data, and the sink has one node to wait for.
abbrev agreed : Schedule
agreed = record {
  graph = record asking {
    nodes =
        record (node_of 1 (
          record (port_of port_out) {
            type = record no_type {
              sample_type = numbers;
              flags = port_out;
              old_mask = record empty_mask { push_old = 1 };
            };
            connections = sink_in ∷ [];
            buffer = some 0;
          }
          ∷ [])) {
            negotiated_mask = record empty_mask { push_old = 1 };
            propagated_mask = record empty_mask { push_old = 1 };
          }
        ∷ node_of 2 (port_of port_in ∷ port_of port_out ∷ [])
        ∷ record (node_of 3
            (record (port_of port_in) { connections = source_out ∷ []; buffer = some 0 } ∷ [])) {
              negotiated_mask = record empty_mask { pull_old = 1 };
              propagated_mask = record empty_mask { pull_old = 1 };
              num_deps_remaining = 1;
            }
        ∷ [];
  };
  sched_list = [];
}

converge_deps_run : converge_deps 3 asking (2 ∷ []) ≡ converged agreed
unfolding converge_deps node_eval_dependencies propagate_all propagate propagate_ports offers offer
    list_push_front list_del ports_of is_port_type others_mask set_propagated count_activated
    activated any_reads node_at port_at set_node is_input_port is_output_port is_connected
    Mask.apply Mask.diff Mask.is_subset set_bits set_bits_from testbit on_bits
converge_deps_run = refl

converge_deps-Agrees_example : Agrees agreed.graph × Grows asking agreed.graph
converge_deps-Agrees_example =
    converge_deps-Agrees 3 asking (2 ∷ []) agreed asking-Leads asking_listed asking-Settling
      converge_deps_run

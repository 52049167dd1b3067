-- ===== src/Dfg/Schedule.antt =====
-- libaftermath-core/src/dfg_schedule.c and dfg_node.h: how the nodes of a graph agree on the ports that
-- take part in a run, and the processing of single nodes. The list of nodes to look at stands beside the
-- graph; a node is in it once, since a node is taken out of the list before it is put in front.
pub mod Room
pub mod Changes
pub mod Told
pub mod Settles
pub mod Agree
pub mod Clashes
pub mod Rounds
use aftermath.Base.{
  ℕ, zero, suc, ◌+◌, ◌-◌, Bool, true, false, not, ◌&&◌, ◌||◌, List, [], ◌∷◌, ◌++◌, ◌==◌,
  if◌then◌else◌, length, get_or,
}
use aftermath.Base.Words.{word_max}
use aftermath.Dfg.{
  PortRef, Port, PortType, Node, Graph, no_port, node_at, port_at, set_node, set_port,
  is_input_port, is_output_port, is_connected,
}
use aftermath.Dfg.Bits.{testbit, or64, set_bits}
use aftermath.Dfg.Mask
use aftermath.Dfg.Mask.{PortMask}

-- The graph and the list of nodes to look at.
pub record Schedule : Type 0 where
  pub graph : Graph
  pub sched_list : List ℕ

-- The four functions of AM_DFG_PORT_DECL_PROPAGATE_FUN, by their suffix.
pub data Propagation : Type 0 where
  pulled_if_new_inputs_to_producer : Propagation
  pulled_always_inputs_to_producer : Propagation
  pushed_new_outputs_to_consumers : Propagation
  pushed_same_outputs_to_consumers : Propagation

-- The ports that one of them is called for.
unfoldable pub ports_of : Propagation → PortMask → ℕ
ports_of pulled_if_new_inputs_to_producer m = m.pull_new
ports_of pulled_always_inputs_to_producer m = m.pull_old
ports_of pushed_new_outputs_to_consumers m = m.push_new
ports_of pushed_same_outputs_to_consumers m = m.push_old

-- The macro's test of the port, from its parameter `port_type`.
unfoldable pub is_port_type : Propagation → Port → Bool
is_port_type pulled_if_new_inputs_to_producer p = is_input_port p
is_port_type pulled_always_inputs_to_producer p = is_input_port p
is_port_type pushed_new_outputs_to_consumers p = is_output_port p
is_port_type pushed_same_outputs_to_consumers p = is_output_port p

-- The mask that the macro's parameter `others_mask_name` names.
unfoldable pub others_mask : Propagation → PortType → PortMask
others_mask pulled_if_new_inputs_to_producer t = t.new_mask
others_mask pulled_always_inputs_to_producer t = t.old_mask
others_mask pushed_new_outputs_to_consumers t = t.new_mask
others_mask pushed_same_outputs_to_consumers t = t.old_mask

unfoldable pub list_del : ℕ → List ℕ → List ℕ
list_del n [] = []
list_del n (m ∷ ms) = let rest = list_del n ms in if m == n then rest else m ∷ rest

-- am_dfg_schedule_list_push_front
unfoldable pub list_push_front : Schedule → ℕ → Schedule
list_push_front s n = record s { sched_list = n ∷ list_del n s.sched_list }

-- The body of the inner loop of the macro, for the connected port `other`.
unfoldable pub offer : Propagation → Schedule → PortRef → Schedule
offer c s other =
    let nother = node_at s.graph other.node in
    let mask = others_mask c (port_at s.graph other).type in
    if Mask.is_subset nother.negotiated_mask mask
    then s
    else list_push_front
        (record s {
          graph =
              set_node s.graph other.node
                (record nother { negotiated_mask = Mask.apply nother.negotiated_mask mask });
        })
        other.node

-- The inner loop.
unfoldable pub offers : Propagation → Schedule → List PortRef → Schedule
offers c s [] = s
offers c s (other ∷ others) = offers c (offer c s other) others

-- The outer loop, over the bits that are set; `false` is the return value 1.
unfoldable pub propagate_ports : Propagation → Schedule → ℕ → List ℕ → Schedule × Bool
propagate_ports c s n [] = (s, true)
propagate_ports c s n (i ∷ is) =
    let p = port_at s.graph (record { node = n; port = i }) in
    let rest = propagate_ports c (offers c s p.connections) n is in
    if not (is_port_type c p) then (s, false) else rest

-- am_dfg_port_propagate_##suffix
unfoldable pub propagate : Propagation → Schedule → ℕ → PortMask → Schedule × Bool
propagate c s n dmask = propagate_ports c s n (set_bits (ports_of c dmask))

-- am_dfg_port_activated's search among the consumers of an output port with old data.
unfoldable pub any_reads : Graph → ℕ → List PortRef → Bool
any_reads g generation [] = false
any_reads g generation (other ∷ others) =
    let mask = (node_at g other.node).negotiated_mask in
    testbit mask.pull_old other.port
    || (testbit mask.pull_new other.port && not (generation == (port_at g other).generation))
    || any_reads g generation others

-- am_dfg_port_activated
unfoldable pub activated : Graph → PortRef → Bool
activated g r =
    let p = port_at g r in
    let mask = (node_at g r.node).negotiated_mask in
    let other = get_or p.connections 0 r in
    if not (is_connected p)
    then false
    else if is_input_port p
    then testbit mask.pull_old r.port
      || (testbit mask.pull_new r.port
          && testbit (node_at g other.node).negotiated_mask.push_new other.port)
    else testbit mask.push_new r.port
      || (testbit mask.push_old r.port && any_reads g p.generation p.connections)

-- How many of the ports of a node are activated.
unfoldable pub count_activated : Graph → ℕ → List ℕ → ℕ
count_activated g n [] = 0
count_activated g n (i ∷ is) =
    let rest = count_activated g n is in
    if activated g (record { node = n; port = i }) then suc rest else rest

-- The calls in the condition of am_dfg_schedule_node_eval_dependencies, in their order.
unfoldable pub propagate_all : Schedule → ℕ → PortMask → List Propagation → Schedule × Bool
propagate_all s n dmask [] = (s, true)
propagate_all s n dmask (c ∷ cs) =
    let (s', done) = propagate c s n dmask in
    let rest = propagate_all s' n dmask cs in if done then rest else (s', false)

abbrev pub all_propagations : List Propagation
all_propagations =
    pulled_if_new_inputs_to_producer ∷ pulled_always_inputs_to_producer
    ∷ pushed_new_outputs_to_consumers ∷ pushed_same_outputs_to_consumers ∷ []

-- The last part of am_dfg_schedule_node_eval_dependencies.
unfoldable pub set_propagated : Graph → ℕ → Graph
set_propagated g n =
    let node = node_at g n in
    let propagated = record node {
      propagated_mask = Mask.apply node.propagated_mask node.negotiated_mask;
    } in
    let in_mask = or64 node.negotiated_mask.pull_old node.negotiated_mask.pull_new in
    set_node g n (record propagated { num_deps_remaining = count_activated g n (set_bits in_mask) })

-- am_dfg_schedule_node_eval_dependencies; `false` is the return value 1.
unfoldable pub node_eval_dependencies : Schedule → ℕ → Schedule × Bool
node_eval_dependencies s n =
    let node = node_at s.graph n in
    let dmask = Mask.diff node.negotiated_mask node.propagated_mask in
    let (s', done) = propagate_all s n dmask all_propagations in
    if done then (record s' { graph = set_propagated s'.graph n }, true) else (s', false)

-- How am_dfg_schedule_converge_deps ends.
pub data Converged : Type 0 where
  converged : Schedule → Converged
  conflict : Schedule → Converged
  out_of_rounds : Converged

-- am_dfg_schedule_converge_deps, with am_dfg_schedule_list_pop_front in its condition.
unfoldable pub converge_deps : ℕ → Graph → List ℕ → Converged
converge_deps zero g ns = out_of_rounds
converge_deps (suc rounds) g [] = converged (record { graph = g; sched_list = [] })
converge_deps (suc rounds) g (n ∷ ns) =
    let (s', done) = node_eval_dependencies (record { graph = g; sched_list = ns }) n in
    let rest = converge_deps rounds s'.graph s'.sched_list in if done then rest else conflict s'

-- ===== src/Examples/Graphs.antt =====
-- dfg_graph.c and dfg_node.c at concrete inputs: a source, a filter and a sink.
use aftermath.Base.{
  In, ℕ, zero, suc, ◌+◌, ◌<◌, ◌≡◌, ◌⊎◌, ◌↔◌, refl, sym, ◌∙◌, ◌/◌, ap, arith, Bool, true, false,
  none, some, List, [], ◌∷◌, length, ltb, ◌&&◌,
}
use aftermath.DfgBuffer
use aftermath.DfgBuffer.{SampleType, DfgBuffer}
use aftermath.Dfg.{
  PortRef, Port, Node, Graph, connect_called, port_in, port_out, no_type, port_at, node_at,
  set_port, set_node, IsPort, is_input_port, is_output_port, is_connected,
}
use aftermath.Dfg.Mask.{PortMask}
use aftermath.Dfg.Connect.{
  Result, success, failure, null_access, connectp, disconnect, reconnectp, types_compatible,
  connect_onesided, assign_buffer, new_buffer, called,
}
use aftermath.Dfg.Connect.Links.{Ends, succeeds, fails, reads_null, Rewired}
use aftermath.Dfg.Connect.Buffers.{both_ways}
use aftermath.Dfg.Connect.Ports.{Joins, Refused, Starved}
use aftermath.Dfg.Connect.Graphs.{
  WellConnected, unconnected-WellConnected, connectp-WellConnected, disconnect-WellConnected,
}
use aftermath.Dfg.Connect.Reconnect.{reconnectp-WellConnected}
use aftermath.Dfg.Remove.{remove_connections}
use aftermath.Dfg.Remove.Half.{remove_connections-length}
use aftermath.Dfg.Cycle.{
  Change, no_cycle, has_cycle_found, has_cycle, start, check_roots, visit, visit_legs, legs,
  ports_legs, port_legs, is_port, is_root_ign, bars_root, append_leg, revpath_ends_closed, mark,
  any_unmarked, unmark, conclude,
}
use aftermath.Dfg.Cycle.Walks.{OnCycle}
use aftermath.Dfg.Cycle.Decides.{IsRoot, has_cycle-decides}
use aftermath.Dfg.Cycle.Exact.{edges_stay, has_cycle-exact}

abbrev pub numbers : SampleType
numbers = record { address = 8; sample_size = 8; destroys = false }

abbrev pub port_of : ℕ → Port
port_of flags = record {
  type = record no_type { sample_type = numbers; flags = flags };
  buffer = none;
  connections = [];
  generation = 0;
}

abbrev pub empty_mask : PortMask
empty_mask = record { pull_new = 0; pull_old = 0; push_new = 0; push_old = 0 }

abbrev pub node_of : ℕ → List Port → Node
node_of id ports = record {
  functions = record { connect = true; disconnect = true; process = true };
  ports = ports;
  num_deps_remaining = 0;
  marking = 0;
  id = id;
  required_mask = empty_mask;
  negotiated_mask = empty_mask;
  propagated_mask = empty_mask;
}

abbrev unlinked : Graph
unlinked = record {
  nodes =
      node_of 1 (port_of port_out ∷ [])
      ∷ node_of 2 (port_of port_in ∷ port_of port_out ∷ [])
      ∷ node_of 3 (port_of port_in ∷ [])
      ∷ [];
  members = 0 ∷ 1 ∷ 2 ∷ [];
  buffers = [];
  calls = [];
}

abbrev pub source_out : PortRef
source_out = record { node = 0; port = 0 }

abbrev filter_in : PortRef
filter_in = record { node = 1; port = 0 }

abbrev filter_out : PortRef
filter_out = record { node = 1; port = 1 }

abbrev pub sink_in : PortRef
sink_in = record { node = 2; port = 0 }

abbrev memory : ℕ → Bool
memory n = true

plain_at :
    (n p : ℕ)
    → let q = port_at unlinked (record { node = n; port = p }) in
      (q.connections ≡ []) × ((is_input_port q && is_output_port q) ≡ false)
unfolding port_at node_at is_input_port is_output_port
plain_at zero zero = (refl, refl)
plain_at zero (suc p) = (refl, refl)
plain_at (suc zero) zero = (refl, refl)
plain_at (suc zero) (suc zero) = (refl, refl)
plain_at (suc zero) (suc (suc p)) = (refl, refl)
plain_at (suc (suc zero)) zero = (refl, refl)
plain_at (suc (suc zero)) (suc p) = (refl, refl)
plain_at (suc (suc (suc n))) p = (refl, refl)

unlinked-WellConnected : WellConnected unlinked
unlinked-WellConnected =
    unconnected-WellConnected unlinked (λ a. (plain_at a.node a.port).0)
      (λ a i. ground (arith, (plain_at a.node a.port).1, i))

in_heap : Graph → PortRef → Bool
in_heap g r = ltb r.node (length g.nodes) && ltb r.port (length (node_at g r.node).ports)

port_in_heap : (g : Graph) (r : PortRef) → in_heap g r ≡ true → IsPort g r
unfolding in_heap
port_in_heap g r h = ground (arith, h)

at_source : IsPort unlinked source_out
unfolding in_heap node_at
at_source = port_in_heap unlinked source_out refl

at_sink : IsPort unlinked sink_in
unfolding in_heap node_at
at_sink = port_in_heap unlinked sink_in refl

connectp-WellConnected_example :
    Ends
      (λ h. WellConnected h × Joins unlinked h source_out sink_in)
      (λ h.
        WellConnected h
        × Rewired unlinked h [] []
        × Refused memory true none unlinked source_out sink_in)
      (Starved memory true none unlinked source_out)
      (connectp memory true none unlinked source_out sink_in)
connectp-WellConnected_example =
    connectp-WellConnected memory true none unlinked source_out sink_in at_source at_sink
      unlinked-WellConnected

-- The graph after that connection, written out.
abbrev link_buffer : DfgBuffer
link_buffer = record {
  sample_type = numbers;
  num_samples = 0;
  max_samples = 0;
  address = 0;
  memory = [];
  num_refs = 0;
  destroyed = [];
}

abbrev pub linked : Graph
linked = record {
  nodes =
      node_of 1 (record (port_of port_out) { connections = sink_in ∷ []; buffer = some 0 } ∷ [])
      ∷ node_of 2 (port_of port_in ∷ port_of port_out ∷ [])
      ∷ node_of 3 (record (port_of port_in) { connections = source_out ∷ []; buffer = some 0 } ∷ [])
      ∷ [];
  members = 0 ∷ 1 ∷ 2 ∷ [];
  buffers = link_buffer ∷ [];
  calls = connect_called sink_in ∷ connect_called source_out ∷ [];
}

-- The source is connected to the sink: the order of the calls and the new buffer.
connectp_run : connectp memory true none unlinked source_out sink_in ≡ success linked
unfolding connectp port_at node_at is_output_port is_input_port types_compatible is_connected
    connect_onesided set_port set_node assign_buffer new_buffer called DfgBuffer.init
connectp_run = refl

succeeded : Result → Graph
succeeded (success g) = g
succeeded (failure g) = g
succeeded null_access = unlinked

is_success : Result → Bool
is_success (success g) = true
is_success (failure g) = false
is_success null_access = false

linked-WellConnected : WellConnected linked
unfolding succeeded is_success
linked-WellConnected = elim connectp-WellConnected_example [
  | succeeds h e (w, j) ↦ rw (ap succeeded (sym connectp_run ∙ e)) w
  | fails h e w ↦ ground (arith, ap is_success (sym connectp_run ∙ e))
  | reads_null e n ↦ ground (arith, ap is_success (sym connectp_run ∙ e))
]

disconnect-WellConnected_example :
    (h : Graph) × (disconnect memory linked source_out sink_in ≡ success h)
    × WellConnected h
    × Rewired linked h (both_ways source_out sink_in) []
unfolding port_at node_at
disconnect-WellConnected_example =
    disconnect-WellConnected memory linked source_out sink_in (λ n. refl) linked-WellConnected
      (omega arith)

-- The end of the connection moves from the sink to the filter.
reconnectp-WellConnected_example :
    (h : Graph) × WellConnected h
    × ((reconnectp memory true none linked source_out sink_in filter_in ≡ success h)
          × Rewired linked h (both_ways source_out sink_in) (both_ways source_out filter_in)
        ⊎ (reconnectp memory true none linked source_out sink_in filter_in ≡ failure h)
          × Rewired linked h (both_ways source_out sink_in) [])
unfolding port_at node_at in_heap
reconnectp-WellConnected_example =
    reconnectp-WellConnected memory true none linked source_out sink_in filter_in (λ n. refl)
      linked-WellConnected (omega arith) (port_in_heap linked filter_in refl)

remove_connections-length_example :
    (h : Graph) × (remove_connections memory 1 linked source_out 0 ≡ success h)
    × WellConnected h
    × (length (port_at h source_out).connections
        ≡ (length (port_at linked source_out).connections + 0) / 2)
unfolding port_at node_at
remove_connections-length_example =
    remove_connections-length memory (λ n. refl) 1 linked source_out 0 linked-WellConnected
      (omega arith) (omega arith)

-- An edge from the sink to the filter is added to the connection from the source to the sink.
abbrev extra : Change
extra = record {
  extra_src = filter_out;
  extra_dst = filter_in;
  ignore_src = none;
  ignore_dst = none;
}

linked_members : (n : ℕ) → In n linked.members ↔ (n < length linked.nodes)
linked_members n = ground arith

-- An edge from the filter to itself closes a cycle, which the search reports with its path.
has_cycle_run : has_cycle linked extra true ≡ (
  record {
    marks = 2 ∷ 1 ∷ 2 ∷ [];
    cycle = some ((filter_out, filter_in) ∷ []);
    add_to_cycle = false;
  },
  has_cycle_found,
)
unfolding has_cycle start check_roots visit visit_legs legs ports_legs port_legs is_port is_root_ign
    bars_root append_leg revpath_ends_closed mark any_unmarked unmark node_at is_output_port
    is_input_port conclude
has_cycle_run = refl

has_cycle-decides_example :
    ((has_cycle linked extra true).1 ≡ no_cycle)
      × ((n : ℕ) → n < length linked.nodes → ¬ OnCycle linked extra n)
    ⊎ ((has_cycle linked extra true).1 ≡ has_cycle_found)
      × (((n : ℕ) × OnCycle linked extra n)
          ⊎ ((n : ℕ) × (n < length linked.nodes) × ¬ IsRoot linked extra n))
has_cycle-decides_example = has_cycle-decides linked extra true (record {
  edges = edges_stay linked extra linked-WellConnected (omega arith);
  members_in = λ n. (linked_members n).0;
  members_all = λ n. (linked_members n).1;
})

has_cycle-exact_example :
    ((has_cycle linked extra true).1 ≡ no_cycle)
      × ((n : ℕ) → n < length linked.nodes → ¬ OnCycle linked extra n)
    ⊎ ((has_cycle linked extra true).1 ≡ has_cycle_found) × (n : ℕ) × OnCycle linked extra n
has_cycle-exact_example =
    has_cycle-exact linked extra true linked-WellConnected linked_members (omega arith)
      (λ p q d i. ground (arith, d))

-- ===== src/Dfg/Connect.antt =====
-- libaftermath-core/src/dfg_node.c, dfg_graph.c and dfg_type_registry.c: the operations that connect and
-- disconnect ports. `realloc` answers whether an array of so many bytes can be had, `malloc` whether a
-- buffer can.
pub mod Links
pub mod Onesided
pub mod Buffers
pub mod Ports
pub mod Disconnects
pub mod Graphs
pub mod Reconnect
use aftermath.Base.{
  ℕ, zero, suc, ◌+◌, ◌*◌, ◌/◌, Bool, true, false, not, ◌&&◌, ◌||◌, Option, none, some, List, [],
  ◌∷◌, ◌++◌, ◌==◌, ltb, if◌then◌else◌, length, get_or, set, map,
}
use aftermath.Base.Words.{word_max}
use aftermath.DfgBuffer
use aftermath.DfgBuffer.{DfgBuffer, SampleType}
use aftermath.Dfg.{
  PortRef, Port, Graph, Call, connect_called, disconnect_called, same_port, node_at, port_at,
  set_port, is_input_port, is_output_port, is_connected,
}

-- How an operation ends: with the return value 0 or 1 and the graph it leaves, or at a read through NULL.
pub data Result : Type 0 where
  success : Graph → Result
  failure : Graph → Result
  null_access : Result

-- The next step is taken on success only.
abbrev pub and_then : Result → (Graph → Result) → Result
and_then (success g) next = next g
and_then (failure g) next = failure g
and_then null_access next = null_access

-- The next step is taken whatever was returned.
abbrev pub regardless : Result → (Graph → Result) → Result
regardless (success g) next = next g
regardless (failure g) next = next g
regardless null_access next = null_access

abbrev no_buffer : DfgBuffer
no_buffer = record {
  sample_type = record { address = 0; sample_size = 0; destroys = false };
  num_samples = 0;
  max_samples = 0;
  address = 0;
  memory = [];
  num_refs = 0;
  destroyed = [];
}

abbrev change_buffer : (DfgBuffer → DfgBuffer) → Graph → ℕ → Graph
change_buffer change g b = record g {
  buffers = set g.buffers b (change (get_or g.buffers b no_buffer));
}

-- am_dfg_buffer_inc_ref and am_dfg_buffer_dec_ref on the buffer of a port.
unfoldable pub inc_ref : Graph → Option ℕ → Result
inc_ref g none = null_access
inc_ref g (some b) = success (change_buffer DfgBuffer.inc_ref g b)

unfoldable pub dec_ref : Graph → Option ℕ → Result
dec_ref g none = null_access
dec_ref g (some b) = success (change_buffer DfgBuffer.dec_ref g b)

-- am_dfg_type_registry_types_compatible; types are told apart by their address.
unfoldable pub types_compatible : Option SampleType → SampleType → SampleType → Bool
types_compatible none tsrc tdst = tsrc.address == tdst.address
types_compatible (some any) tsrc tdst =
    (tsrc.address == tdst.address) || (tsrc.address == any.address) || (tdst.address == any.address)

-- The memmove in the loop of am_dfg_port_disconnect_onesided; `none` if the loop finds nothing.
unfoldable pub remove_first : PortRef → List PortRef → Option (List PortRef)
remove_first other [] = none
remove_first other (x ∷ xs) =
    let rest = remove_first other xs in
    if same_port x other then some xs else elim rest [ none ↦ none | some ys ↦ some (x ∷ ys) ]

-- The call of a node type's function, if there is one.
unfoldable pub called : Graph → Bool → Call → Graph
called g present call = if present then record g { calls = call ∷ g.calls } else g

-- The first branch of am_dfg_graph_connectp's assignment of a buffer.
unfoldable pub share_buffer : Graph → ℕ → PortRef → Result
share_buffer g buffer dst =
    and_then
      (inc_ref (set_port g dst (record (port_at g dst) { buffer = some buffer })) (some buffer))
      (λ g'. success (called g' (node_at g dst.node).functions.connect (connect_called dst)))

-- Its second branch: a new buffer for both ports.
unfoldable pub new_buffer : Graph → PortRef → PortRef → Graph
new_buffer g src dst =
    let buffer = length g.buffers in
    let g1 = record g {
      buffers = g.buffers ++ (DfgBuffer.init (port_at g src).type.sample_type ∷ []);
    } in
    let g2 = set_port g1 dst (record (port_at g1 dst) { buffer = some buffer }) in
    let g3 = set_port g2 src (record (port_at g2 src) { buffer = some buffer }) in
    let g4 = called g3 (node_at g src.node).functions.connect (connect_called src) in
    called g4 (node_at g dst.node).functions.connect (connect_called dst)

module _ (realloc : ℕ → Bool) where
  -- am_dfg_port_connect_onesided; `sizeof(struct am_dfg_port*)` is 8.
  unfoldable pub connect_onesided : Graph → PortRef → PortRef → Result
  connect_onesided g p other =
      let port = port_at g p in
      let num_connections = length port.connections in
      if (num_connections == word_max) || ltb (word_max / 8) (num_connections + 1)
      then failure g
      else if not (realloc ((num_connections + 1) * 8))
      then failure g
      else success (
          set_port g p (record port {
            connections = port.connections ++ (other ∷ []);
            generation = if is_input_port port then 0 else port.generation;
          }))

  -- am_dfg_port_disconnect_onesided
  unfoldable pub disconnect_onesided : Graph → PortRef → PortRef → Result
  disconnect_onesided g p other = and_then (dec_ref g (port_at g p).buffer) (λ g'.
      elim (remove_first other (port_at g p).connections) [
        | none ↦ failure g'
        | some connections ↦
            let removed = set_port g' p (record (port_at g p) { connections = connections }) in
            if length connections == 0
            then success removed
            else if realloc (length connections * 8)
            then success removed
            else failure removed
      ])

  -- am_dfg_port_disconnect
  unfoldable pub disconnect : Graph → PortRef → PortRef → Result
  disconnect g p_out p_in =
      let g' = called g (node_at g p_in.node).functions.disconnect (disconnect_called p_in) in
      let g'' = called g' (node_at g p_out.node).functions.disconnect (disconnect_called p_out) in
      and_then (disconnect_onesided g'' p_out p_in) (λ h. disconnect_onesided h p_in p_out)

  module _ (malloc : Bool) (any_type : Option SampleType) where
    -- The part of am_dfg_graph_connectp after the connection of both sides.
    unfoldable pub assign_buffer : Graph → PortRef → PortRef → Result
    assign_buffer g src dst = elim (port_at g src).buffer [
      | some buffer ↦ share_buffer g buffer dst
      | none ↦
          if malloc
          then success (new_buffer g src dst)
          else regardless (disconnect_onesided g dst src)
              (λ g1. regardless (disconnect_onesided g1 src dst) failure)
    ]

    -- am_dfg_graph_connectp
    unfoldable pub connectp : Graph → PortRef → PortRef → Result
    connectp g src dst =
        if not (is_output_port (port_at g src)) || not (is_input_port (port_at g dst))
        then failure g
        else if not (
            types_compatible any_type (port_at g src).type.sample_type
              (port_at g dst).type.sample_type)
        then failure g
        else if is_connected (port_at g dst)
        then failure g
        else elim (connect_onesided g src dst) [
          | success g1 ↦ elim (connect_onesided g1 dst src) [
            | success g2 ↦ assign_buffer g2 src dst
            | failure g2 ↦ regardless (disconnect_onesided g2 src dst) failure
            | null_access ↦ null_access
          ]
          | failure g1 ↦ failure g1
          | null_access ↦ null_access
        ]

    -- am_dfg_graph_reconnectp
    unfoldable pub reconnectp : Graph → PortRef → PortRef → PortRef → Result
    reconnectp g src old_dst new_dst = and_then (inc_ref g (port_at g src).buffer) (λ g1.
        elim (and_then (disconnect g1 src old_dst) (λ g2. connectp g2 src new_dst)) [
          | success g3 ↦ dec_ref g3 (port_at g3 src).buffer
          | failure g3 ↦ and_then (dec_ref g3 (port_at g3 src).buffer) failure
          | null_access ↦ null_access
        ])

-- ===== src/Dfg.antt =====
-- libaftermath-core/src/{dfg_node,dfg_graph}.h: the nodes of a data-flow graph, their ports and the
-- connections between ports. A node's address is its index in the heap `nodes`, a port's address the
-- node and the port's index there, a buffer's address its index in `buffers`. What a node type's
-- functions do is not modelled; their calls are kept in `calls`, the last first. An access out of the
-- heap, which the code does not make, reads an empty node or port and writes nothing.
pub mod Bits
pub mod Mask
pub mod Connect
pub mod Remove
pub mod Cycle
pub mod Schedule
use Prim.Native.Nat.{bit_and}
use aftermath.Base.{
  ℕ, ◌<◌, ◌≡◌, refl, arith, Bool, true, false, not, ◌&&◌, Option, none, some, List, [], ◌==◌, ltb,
  leb, if◌then◌else◌, length, get_or, set, get_or-set, length-set,
}
use aftermath.DfgBuffer.{DfgBuffer, SampleType}
use Mask.{PortMask}

-- AM_DFG_PORT_IN
abbrev pub port_in : ℕ
port_in = 1

-- AM_DFG_PORT_OUT
abbrev pub port_out : ℕ
port_out = 2

-- AM_DFG_PORT_MANDATORY
abbrev pub port_mandatory : ℕ
port_mandatory = 4

-- `struct am_dfg_port_type`; its field `type` is `sample_type` here, its name a list of bytes.
pub record PortType : Type 0 where
  pub name : List ℕ
  pub sample_type : SampleType
  pub flags : ℕ
  pub new_mask : PortMask
  pub old_mask : PortMask

-- The address of a port.
pub record PortRef : Type 0 where
  pub node : ℕ
  pub port : ℕ

-- `struct am_dfg_port`, the node left to its address; `num_connections` is the list's length.
pub record Port : Type 0 where
  pub type : PortType
  pub buffer : Option ℕ
  pub connections : List PortRef
  pub generation : ℕ

-- `struct am_dfg_node_type_functions`: which of the functions a node type has.
pub record NodeFunctions : Type 0 where
  pub connect : Bool
  pub disconnect : Bool
  pub process : Bool

-- `struct am_dfg_node`; of its type only the functions are kept, since a port holds its own type.
pub record Node : Type 0 where
  pub functions : NodeFunctions
  pub ports : List Port
  pub num_deps_remaining : ℕ
  pub marking : ℕ
  pub id : ℕ
  pub required_mask : PortMask
  pub negotiated_mask : PortMask
  pub propagated_mask : PortMask

-- The functions of a node type that a change of the connections calls.
pub data Call : Type 0 where
  connect_called : PortRef → Call
  disconnect_called : PortRef → Call

-- `struct am_dfg_graph`: `members` are the nodes of its tree in the order of their ids. With it, the
-- heap and the calls made.
pub record Graph : Type 0 where
  pub nodes : List Node
  pub members : List ℕ
  pub buffers : List DfgBuffer
  pub calls : List Call

abbrev pub no_type : PortType
no_type = record {
  name = [];
  sample_type = record { address = 0; sample_size = 0; destroys = false };
  flags = 0;
  new_mask = record { pull_new = 0; pull_old = 0; push_new = 0; push_old = 0 };
  old_mask = record { pull_new = 0; pull_old = 0; push_new = 0; push_old = 0 };
}

abbrev pub no_port : Port
no_port = record { type = no_type; buffer = none; connections = []; generation = 0 }

abbrev pub no_node : Node
no_node = record {
  functions = record { connect = false; disconnect = false; process = false };
  ports = [];
  num_deps_remaining = 0;
  marking = 0;
  id = 0;
  required_mask = record { pull_new = 0; pull_old = 0; push_new = 0; push_old = 0 };
  negotiated_mask = record { pull_new = 0; pull_old = 0; push_new = 0; push_old = 0 };
  propagated_mask = record { pull_new = 0; pull_old = 0; push_new = 0; push_old = 0 };
}

-- The comparison of two pointers to ports.
abbrev pub same_port : PortRef → PortRef → Bool
same_port a b = (a.node == b.node) && (a.port == b.port)

unfoldable pub node_at : Graph → ℕ → Node
node_at g i = get_or g.nodes i no_node

unfoldable pub port_at : Graph → PortRef → Port
unfolding node_at
port_at g r = get_or (node_at g r.node).ports r.port no_port

unfoldable pub set_node : Graph → ℕ → Node → Graph
set_node g i n = record g { nodes = set g.nodes i n }

unfoldable pub set_port : Graph → PortRef → Port → Graph
unfolding set_node node_at
set_port g r p =
    set_node g r.node (record (node_at g r.node) { ports = set (node_at g r.node).ports r.port p })

-- am_dfg_port_is_input_port, by am_dfg_port_type_is_input_type
unfoldable pub is_input_port : Port → Bool
is_input_port p = not (bit_and p.type.flags port_in == 0)

-- am_dfg_port_is_output_port, by am_dfg_port_type_is_output_type
unfoldable pub is_output_port : Port → Bool
is_output_port p = not (bit_and p.type.flags port_out == 0)

-- am_dfg_port_is_mandatory
unfoldable pub is_mandatory : Port → Bool
is_mandatory p = not (bit_and p.type.flags port_mandatory == 0)

-- am_dfg_port_is_optional
unfoldable pub is_optional : Port → Bool
unfolding is_mandatory
is_optional p = not (is_mandatory p)

-- am_dfg_port_is_connected
unfoldable pub is_connected : Port → Bool
is_connected p = ltb 0 (length p.connections)

-- The port lies in the heap.
abbrev pub IsPort : Graph → PortRef → Type 0
IsPort g r = (r.node < length g.nodes) × (r.port < length (node_at g r.node).ports)

pub port_at-set_port :
    (g : Graph) (r a : PortRef) (p : Port)
    → IsPort g r
    → port_at (set_port g r p) a ≡ (if same_port r a then p else port_at g a)
unfolding port_at set_port set_node node_at
port_at-set_port g r a p h = ground (
  arith,
  get_or-set g.nodes r.node a.node
      (record (node_at g r.node) { ports = set (node_at g r.node).ports r.port p }) no_node,
  get_or-set (node_at g r.node).ports r.port a.port p no_port,
)

pub set_port-IsPort :
    (g : Graph) (r a : PortRef) (p : Port) → IsPort g a → IsPort (set_port g r p) a
unfolding node_at set_port set_node
set_port-IsPort g r a p h = ground (
  arith,
  get_or-set g.nodes r.node a.node
      (record (node_at g r.node) { ports = set (node_at g r.node).ports r.port p }) no_node,
  length-set g.nodes r.node
      (record (node_at g r.node) { ports = set (node_at g r.node).ports r.port p }),
  length-set (node_at g r.node).ports r.port p,
)

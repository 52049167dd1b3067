-- ===== src/Dfg/Remove.antt =====
-- libaftermath-core/src/dfg_graph.c: the removal of a node from a graph.
pub mod Half
use aftermath.Base.{
  ℕ, zero, suc, ◌+◌, Bool, List, [], ◌∷◌, ◌==◌, ltb, if◌then◌else◌, length, get_or,
}
use aftermath.Dfg.{PortRef, Graph, node_at, port_at}
use aftermath.Dfg.Connect.{Result, success, and_then, disconnect}

-- am_dfg_node_idtree_remove
unfoldable pub without : ℕ → List ℕ → List ℕ
without n [] = []
without n (m ∷ ms) = if m == n then ms else m ∷ without n ms

-- am_dfg_graph_remove_node_no_disconnect
unfoldable pub remove_node_no_disconnect : Graph → ℕ → Graph
remove_node_no_disconnect g n = record g { members = without n g.members }

module _ (realloc : ℕ → Bool) where
  -- am_dfg_port_for_each_connected_port_safe in am_dfg_graph_remove_node: the counter `c` goes up while
  -- the connections of `p` become fewer. The rounds bound the loop.
  unfoldable pub remove_connections : ℕ → Graph → PortRef → ℕ → Result
  remove_connections zero g p c = success g
  remove_connections (suc rounds) g p c =
      if ltb c (length (port_at g p).connections)
      then and_then (disconnect realloc g p (get_or (port_at g p).connections c p))
          (λ g'. remove_connections rounds g' p (c + 1))
      else success g

  -- The loop over the ports of the node `n`, from the one at index `i`.
  unfoldable pub remove_ports : ℕ → Graph → ℕ → ℕ → Result
  remove_ports zero g n i = success g
  remove_ports (suc num_ports) g n i =
      let p : PortRef = record { node = n; port = i } in
      and_then (remove_connections (length (port_at g p).connections) g p 0)
        (λ g'. remove_ports num_ports g' n (i + 1))

  -- am_dfg_graph_remove_node
  unfoldable pub remove_node : Graph → ℕ → Result
  remove_node g n =
      and_then (remove_ports (length (node_at g n).ports) g n 0)
        (λ g'. success (remove_node_no_disconnect g' n))

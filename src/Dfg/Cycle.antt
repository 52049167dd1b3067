-- ===== src/Dfg/Cycle.antt =====
-- libaftermath-core/src/dfg_graph.c and dfg_node.c: the search for a cycle, with an edge that is not there
-- yet and without one that is to go. The search changes only the markings of nodes, which stand in a
-- list beside the heap; the array of the path it reports is taken to grow.
pub mod Walks
pub mod Edges
pub mod Visits
pub mod Decides
pub mod Exact
use aftermath.Base.{
  ℕ, zero, suc, ◌+◌, Bool, true, false, not, ◌&&◌, ◌||◌, Option, none, some, List, [], ◌∷◌, ◌++◌,
  ◌==◌, ltb, if◌then◌else◌, length, get_or, set, map,
}
use aftermath.Dfg.{
  PortRef, Port, Node, Graph, same_port, node_at, port_at, is_input_port, is_output_port,
}

-- AM_DFG_CYCLE_UNMARKED, AM_DFG_CYCLE_MARKED and AM_DFG_CYCLE_VISITED
abbrev pub unmarked : ℕ
unmarked = 0

abbrev pub marked : ℕ
marked = 1

abbrev pub visited : ℕ
visited = 2

-- A connection, from an output port to an input port: `struct am_dfg_connection`.
abbrev pub Leg : Type 0
Leg = PortRef × PortRef

-- The extra edge, and the ports of the connection to ignore; `none` is NULL.
pub record Change : Type 0 where
  pub extra_src : PortRef
  pub extra_dst : PortRef
  pub ignore_src : Option PortRef
  pub ignore_dst : Option PortRef

-- The markings, the path as far as one is asked for, and whether legs are added to it.
pub record Search : Type 0 where
  pub marks : List ℕ
  pub cycle : Option (List Leg)
  pub add_to_cycle : Bool

-- What a search returns; `exhausted` is the end of the rounds given to it.
pub data Verdict : Type 0 where
  no_cycle : Verdict
  has_cycle_found : Verdict
  exhausted : Verdict

unfoldable pub is_port : Option PortRef → PortRef → Bool
is_port none p = false
is_port (some q) p = same_port p q

-- The connections of the output port `p` in the order of the loop, less the ignored one.
unfoldable pub port_legs : Change → PortRef → List PortRef → List Leg
port_legs c p [] = []
port_legs c p (q ∷ qs) =
    if is_port c.ignore_src p && is_port c.ignore_dst q
    then port_legs c p qs
    else (p, q) ∷ port_legs c p qs

-- The loop over the output ports of the node `n`, from the one at index `i`.
unfoldable pub ports_legs : Change → ℕ → ℕ → List Port → List Leg
ports_legs c n i [] = []
ports_legs c n i (p ∷ ps) =
    if is_output_port p
    then port_legs c (record { node = n; port = i }) p.connections ++ ports_legs c n (i + 1) ps
    else ports_legs c n (i + 1) ps

-- The edges that am_dfg_graph_has_cycle_rec follows from the node `n`, in its order.
unfoldable pub legs : Graph → Change → ℕ → List Leg
legs g c n =
    let actual = ports_legs c n 0 (node_at g n).ports in
    if n == c.extra_src.node then (c.extra_src, c.extra_dst) ∷ actual else actual

-- am_dfg_revpath_ends_closed on the path with a last leg.
unfoldable pub revpath_ends_closed : List Leg → Leg → Bool
revpath_ends_closed [] last = last.1.node == last.0.node
revpath_ends_closed (first ∷ rest) last = first.1.node == last.0.node

-- am_dfg_path_append_leg, as it is called while a cycle is handed up.
unfoldable pub append_leg : Search → Leg → Search
append_leg s leg = elim s.cycle [
  | none ↦ s
  | some path ↦
      if s.add_to_cycle
      then record s {
        cycle = some (path ++ (leg ∷ []));
        add_to_cycle = not (revpath_ends_closed path leg);
      }
      else s
]

unfoldable pub mark : Search → ℕ → ℕ → Search
mark s n m = record s { marks = set s.marks n m }

-- The loop over the edges, which calls `visit` for the node at the end of each.
unfoldable pub visit_legs : (Search → ℕ → Search × Verdict) → Search → List Leg → Search × Verdict
visit_legs visit s [] = (s, no_cycle)
visit_legs visit s (leg ∷ ls) =
    let (s', v) = visit s leg.1.node in
    let rest = visit_legs visit s' ls in
    elim v [
      | no_cycle ↦ rest
      | has_cycle_found ↦ (append_leg s' leg, has_cycle_found)
      | exhausted ↦ (s', exhausted)
    ]

-- The end of a node's visit.
abbrev pub leave : ℕ → Search × Verdict → Search × Verdict
leave n r = elim r.1 [
  | no_cycle ↦ (mark r.0 n visited, no_cycle)
  | has_cycle_found ↦ (r.0, has_cycle_found)
  | exhausted ↦ (r.0, exhausted)
]

-- am_dfg_graph_has_cycle_rec, so many calls deep.
unfoldable pub visit : Graph → Change → ℕ → Search → ℕ → Search × Verdict
visit g c zero s n = (s, exhausted)
visit g c (suc rounds) s n =
    let inside = visit_legs (visit g c rounds) (mark s n marked) (legs g c n) in
    if get_or s.marks n unmarked == visited
    then (s, no_cycle)
    else if get_or s.marks n unmarked == marked
    then (s, has_cycle_found)
    else leave n inside

-- The test of am_dfg_node_is_root_ign on one input port.
unfoldable pub bars_root : Change → PortRef → List PortRef → Bool
bars_root c p [] = false
bars_root c p (q ∷ []) = is_port c.ignore_dst p && not (is_port c.ignore_src q)
bars_root c p (q ∷ q' ∷ qs) = true

-- am_dfg_node_is_root_ign, from the port at index `i` on.
unfoldable pub is_root_ign : Change → ℕ → ℕ → List Port → Bool
is_root_ign c n i [] = true
is_root_ign c n i (p ∷ ps) =
    if is_input_port p && bars_root c (record { node = n; port = i }) p.connections
    then false
    else is_root_ign c n (i + 1) ps

-- The check of all roots in am_dfg_graph_has_cycle.
unfoldable pub check_roots : Graph → Change → ℕ → Search → List ℕ → Search × Verdict
check_roots g c rounds s [] = (s, no_cycle)
check_roots g c rounds s (n ∷ ns) =
    let (s', v) = visit g c rounds s n in
    let rest = check_roots g c rounds s' ns in
    let unchanged = check_roots g c rounds s ns in
    if is_root_ign c n 0 (node_at g n).ports
    then elim v [
      | no_cycle ↦ rest
      | has_cycle_found ↦ (s', has_cycle_found)
      | exhausted ↦ (s', exhausted)
    ]
    else unchanged

-- The search for a node that is still unmarked.
unfoldable pub any_unmarked : List ℕ → List ℕ → Bool
any_unmarked marks [] = false
any_unmarked marks (n ∷ ns) = (get_or marks n unmarked == unmarked) || any_unmarked marks ns

-- The first loop of am_dfg_graph_has_cycle.
unfoldable pub unmark : List ℕ → List ℕ → List ℕ
unmark marks [] = marks
unmark marks (n ∷ ns) = unmark (set marks n unmarked) ns

-- The search before the roots; `path` tells whether `cycle` is other than NULL.
unfoldable pub start : Graph → Bool → Search
start g path = record {
  marks = unmark (map (λ (n : Node). n.marking) g.nodes) g.members;
  cycle = if path then some [] else none;
  add_to_cycle = true;
}

-- The end of am_dfg_graph_has_cycle.
unfoldable pub conclude : List ℕ → Search × Verdict → Search × Verdict
conclude members r = elim r.1 [
  | no_cycle ↦ if any_unmarked r.0.marks members then (r.0, has_cycle_found) else (r.0, no_cycle)
  | has_cycle_found ↦ (r.0, has_cycle_found)
  | exhausted ↦ (r.0, exhausted)
]

-- am_dfg_graph_has_cycle. The calls are as deep as there are nodes and one more.
unfoldable pub has_cycle : Graph → Change → Bool → Search × Verdict
has_cycle g c path =
    conclude g.members (check_roots g c (suc (length g.nodes)) (start g path) g.members)

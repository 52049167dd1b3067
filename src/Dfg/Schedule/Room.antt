-- ===== src/Dfg/Schedule/Room.antt =====
-- libaftermath-core/src/dfg_schedule.c: how much the masks of a graph can still grow.
use aftermath.Base.{
  ℕ, zero, suc, ◌+◌, ◌-◌, ◌^◌, ◌≤◌, ◌<◌, ◌≡◌, ap, arith, true, false, List, [], ◌∷◌, ◌==◌, length,
  get_or, set, ==_iff,
}
use aftermath.Dfg.{PortRef, Node, Graph, no_node, node_at, port_at, set_node}
use aftermath.Dfg.Bits.{
  and64, or64, num_bits_set, num_bits_set_le, num_bits_set-on_bits, on_bits_full,
}
use aftermath.Dfg.Mask
use aftermath.Dfg.Mask.{PortMask}
use aftermath.Dfg.Schedule.{Schedule, Propagation, others_mask, list_del}

-- The number of ports in the four words of a mask.
abbrev pub ports_in : PortMask → ℕ
ports_in m =
    num_bits_set 64 m.pull_new
    + num_bits_set 64 m.pull_old
    + num_bits_set 64 m.push_new
    + num_bits_set 64 m.push_old

-- The four words have 64 bits.
pub record IsNarrow (m : PortMask) : Type 0 where
  pub pull_new : m.pull_new < 2 ^ 64
  pub pull_old : m.pull_old < 2 ^ 64
  pub push_new : m.push_new < 2 ^ 64
  pub push_old : m.push_old < 2 ^ 64

-- The masks of the port types are words.
abbrev pub Narrow : Graph → Type 0
Narrow g = (r : PortRef) (c : Propagation) → IsNarrow (others_mask c (port_at g r).type)

abbrev pub rooms : List Node → ℕ
rooms [] = 0
rooms (n ∷ ns) = (256 - ports_in n.negotiated_mask) + rooms ns

-- The evaluations that can still come.
abbrev pub work : Schedule → ℕ
work s = rooms s.graph.nodes + length s.sched_list

ports_in_le : (m : PortMask) → ports_in m ≤ 256
ports_in_le m = omega (
  arith,
  num_bits_set_le 64 m.pull_new,
  num_bits_set_le 64 m.pull_old,
  num_bits_set_le 64 m.push_new,
  num_bits_set_le 64 m.push_old,
)

word_full :
    (a b : ℕ)
    → b < 2 ^ 64
    → num_bits_set 64 (or64 a b) ≤ num_bits_set 64 a
    → (and64 b a == b) ≡ true
word_full a b h e = (==_iff _ _).1 (on_bits_full 64 a b h e)

-- A mask that is not a subset adds a port.
ports_in-apply :
    (d s : PortMask)
    → IsNarrow s
    → Mask.is_subset d s ≡ false
    → ports_in d < ports_in (Mask.apply d s)
unfolding Mask.apply Mask.is_subset
ports_in-apply d s narrow e = ground (
  arith,
  num_bits_set-on_bits 64 d.pull_new s.pull_new,
  num_bits_set-on_bits 64 d.pull_old s.pull_old,
  num_bits_set-on_bits 64 d.push_new s.push_new,
  num_bits_set-on_bits 64 d.push_old s.push_old,
  word_full d.pull_new s.pull_new narrow.pull_new,
  word_full d.pull_old s.pull_old narrow.pull_old,
  word_full d.push_new s.push_new narrow.push_new,
  word_full d.push_old s.push_old narrow.push_old,
  e,
)

rooms-set :
    (ns : List Node) (i : ℕ) (n : Node)
    → i < length ns
    → rooms (set ns i n) + (256 - ports_in (get_or ns i no_node).negotiated_mask)
      ≡ rooms ns + (256 - ports_in n.negotiated_mask)
rooms-set [] i n h = absurd (omega arith)
rooms-set (m ∷ ns) zero n h = omega arith
rooms-set (m ∷ ns) (suc i) n h = omega (arith, rooms-set ns i n (omega arith))

length-list_del : (n : ℕ) (ns : List ℕ) → length (list_del n ns) ≤ length ns
unfolding list_del
length-list_del n [] = omega arith
length-list_del n (m ∷ ms) = ground (arith, length-list_del n ms)

-- An offer that is taken costs room and puts one node into the list.
pub offered-work :
    (s : Schedule) (i : ℕ) (m : Node) (mask : PortMask)
    → i < length s.graph.nodes
    → IsNarrow mask
    → m.negotiated_mask ≡ Mask.apply (node_at s.graph i).negotiated_mask mask
    → Mask.is_subset (node_at s.graph i).negotiated_mask mask ≡ false
    → work (record { graph = set_node s.graph i m; sched_list = i ∷ list_del i s.sched_list })
      ≤ work s
unfolding node_at set_node
offered-work s i m mask h narrow same e = omega (
  arith,
  rooms-set s.graph.nodes i m h,
  length-list_del i s.sched_list,
  ports_in-apply (node_at s.graph i).negotiated_mask mask narrow e,
  ports_in_le (Mask.apply (node_at s.graph i).negotiated_mask mask),
  ap ports_in same,
)

pub set_node-work :
    (g : Graph) (i : ℕ) (m : Node) (ns : List ℕ)
    → i < length g.nodes
    → m.negotiated_mask ≡ (node_at g i).negotiated_mask
    → work (record { graph = set_node g i m; sched_list = ns })
      ≡ work (record { graph = g; sched_list = ns })
unfolding node_at set_node
set_node-work g i m ns h same = omega (arith, rooms-set g.nodes i m h, ap ports_in same)

-- ===== src/Dfg/Connect/Buffers.antt =====
-- libaftermath-core/src/dfg_graph.c: what the buffers given to connected ports leave as it is, and what
-- taking back leaves.
use aftermath.Base.{
  ℕ, ◌≡◌, ◌≢◌, refl, ◌∙◌, if◌then◌else◌, arith, Bool, true, false, none, some, List, [], ◌∷◌, ◌++◌,
  length,
}
use aftermath.DfgBuffer
use aftermath.DfgBuffer.{SampleType}
use aftermath.Dfg.{
  PortRef, Graph, Call, port_at, set_port, IsPort, port_at-set_port, same_port, node_at,
}
use aftermath.Dfg.Connect.{called, share_buffer, new_buffer, inc_ref}
use aftermath.Dfg.Connect.Links.{
  Ends, succeeds, Rewired, nodes-Rewired, Rewired-Rewired, set_port_keeps,
}

pub Rewired-refl : (g : Graph) → Rewired g g [] []
Rewired-refl g = nodes-Rewired g g refl

pub called-Rewired : (g : Graph) (present : Bool) (c : Call) → Rewired g (called g present c) [] []
unfolding called
called-Rewired g true c = nodes-Rewired g _ refl
called-Rewired g false c = Rewired-refl g

-- The connection of two ports, from both sides.
abbrev pub both_ways : PortRef → PortRef → List (PortRef × PortRef)
both_ways a b = (a, b) ∷ (b, a) ∷ []

-- A change of the connections after which both ports have the same buffer.
pub record Buffered (g h : Graph) (src dst : PortRef) (minus plus : List (PortRef × PortRef))
    : Type 0 where
  pub change : Rewired g h minus plus
  pub src_buffer : (port_at h src).buffer ≢ none
  pub shared : (port_at h dst).buffer ≡ (port_at h src).buffer

-- What was added and taken away again.
pub undone :
    (g h : Graph) (src dst : PortRef)
    → Rewired g h (both_ways dst src) (both_ways src dst)
    → Rewired g h [] []
undone g h src dst r = record {
  links = λ a b. ground (arith, r.links a b);
  sizes = λ a. ground (arith, r.sizes a);
  types = r.types;
  heap = r.heap;
  kept = r.kept;
}

pub undone_one :
    (g h : Graph) (src dst : PortRef)
    → Rewired g h ((src, dst) ∷ []) ((src, dst) ∷ [])
    → Rewired g h [] []
undone_one g h src dst r = record {
  links = λ a b. ground (arith, r.links a b);
  sizes = λ a. ground (arith, r.sizes a);
  types = r.types;
  heap = r.heap;
  kept = r.kept;
}

pub buffer_set-Rewired :
    (g : Graph) (p : PortRef) (b : ℕ)
    → IsPort g p
    → Rewired g (set_port g p (record (port_at g p) { buffer = some b })) [] []
buffer_set-Rewired g p b at_p = set_port_keeps g p p _ at_p refl (λ n. ground (arith, n)) refl

called-nodes : (g : Graph) (present : Bool) (c : Call) → (called g present c).nodes ≡ g.nodes
unfolding called
called-nodes g true c = refl
called-nodes g false c = refl

-- A port's buffer stands with the nodes.
buffer-nodes :
    (g h : Graph) → h.nodes ≡ g.nodes → (a : PortRef) → (port_at h a).buffer ≡ (port_at g a).buffer
unfolding port_at node_at
buffer-nodes g h e a = ground arith

-- A port given a buffer has it, and no other buffer appears.
set_buffer-ports :
    (g : Graph) (p a : PortRef) (b : ℕ)
    → IsPort g p
    → (port_at (set_port g p (record (port_at g p) { buffer = some b })) a).buffer
      ≡ (if same_port p a then some b else (port_at g a).buffer)
set_buffer-ports g p a b at_p =
    ground (arith, port_at-set_port g p a (record (port_at g p) { buffer = some b }) at_p)

pub share_buffer-Ends :
    (F : Graph → Type 0) (N : Type 0) (g : Graph) (b : ℕ) (src dst : PortRef)
    → (port_at g src).buffer ≡ some b
    → IsPort g dst
    → Ends
        (λ h.
          Rewired g h [] [] × ((port_at h src).buffer ≡ some b) × ((port_at h dst).buffer ≡ some b))
        F
        N
        (share_buffer g b dst)
unfolding share_buffer inc_ref
share_buffer-Ends F N g b src dst own at_dst = succeeds _ refl (finish _ (called-nodes _ _ _))
  where
    g' : Graph
    g' = set_port g dst (record (port_at g dst) { buffer = some b })

    finish :
        (h : Graph)
        → h.nodes ≡ g'.nodes
        → Rewired g h [] [] × ((port_at h src).buffer ≡ some b) × ((port_at h dst).buffer ≡ some b)
    finish h same = (
      Rewired-Rewired (buffer_set-Rewired g dst b at_dst) (nodes-Rewired g' h same),
      ground (arith, buffer-nodes g' h same src, set_buffer-ports g dst src b at_dst, own),
      ground (arith, buffer-nodes g' h same dst, set_buffer-ports g dst dst b at_dst),
    )

pub new_buffer-Rewired :
    (g : Graph) (src dst : PortRef)
    → IsPort g src
    → IsPort g dst
    → Buffered g (new_buffer g src dst) src dst [] []
unfolding new_buffer
new_buffer-Rewired g src dst at_src at_dst = record {
  change = Rewired-Rewired set_both (nodes-Rewired g3 _ calls);
  src_buffer = λ n. ground (
    arith,
    n,
    at_end src,
    set_buffer-ports g2 src src (length g.buffers) (set_dst.heap src at_src),
  );
  shared = ground (
    arith,
    at_end src,
    at_end dst,
    set_buffer-ports g2 src src (length g.buffers) (set_dst.heap src at_src),
    set_buffer-ports g2 src dst (length g.buffers) (set_dst.heap src at_src),
    set_buffer-ports g1 dst dst (length g.buffers) ((nodes-Rewired g g1 refl).heap dst at_dst),
  );
}
  where
    g1 : Graph
    g1 = record g { buffers = g.buffers ++ (DfgBuffer.init (port_at g src).type.sample_type ∷ []) }

    g2 : Graph
    g2 = set_port g1 dst (record (port_at g1 dst) { buffer = some (length g.buffers) })

    set_dst : Rewired g g2 [] []
    set_dst =
        Rewired-Rewired (nodes-Rewired g g1 refl)
          (buffer_set-Rewired g1 dst _ ((nodes-Rewired g g1 refl).heap dst at_dst))

    set_both :
        Rewired g
          (set_port g2 src (record (port_at g2 src) { buffer = some (length g.buffers) }))
          []
          []
    set_both = Rewired-Rewired set_dst (buffer_set-Rewired g2 src _ (set_dst.heap src at_src))

    g3 : Graph
    g3 = set_port g2 src (record (port_at g2 src) { buffer = some (length g.buffers) })

    calls : (new_buffer g src dst).nodes ≡ g3.nodes
    calls = called-nodes _ _ _ ∙ called-nodes g3 _ _

    at_end : (a : PortRef) → (port_at (new_buffer g src dst) a).buffer ≡ (port_at g3 a).buffer
    at_end a = buffer-nodes g3 (new_buffer g src dst) calls a

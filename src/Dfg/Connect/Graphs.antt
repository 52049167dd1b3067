-- ===== src/Dfg/Connect/Graphs.antt =====
-- libaftermath-core/src/dfg_graph.c and dfg_node.c: the shape of a graph that connecting, disconnecting
-- and reconnecting ports keep.
use aftermath.Base.{
  ℕ, ◌<◌, ◌≤◌, ◌≡◌, ◌≢◌, ◌⊎◌, refl, arith, Bool, true, false, Option, none, List, [], ◌∷◌, inl, inr,
  length,
}
use aftermath.DfgBuffer.{SampleType}
use aftermath.Dfg.{
  PortRef, Graph, same_port, port_at, IsPort, is_input_port, is_output_port, is_connected,
}
use aftermath.Dfg.Connect.{success, connectp, disconnect}
use aftermath.Dfg.Connect.Links.{
  Ends, succeeds, fails, reads_null, Rewired, joined, times, same_port-port_at,
}
use aftermath.Dfg.Connect.Onesided.{Ends-map}
use aftermath.Dfg.Connect.Buffers.{both_ways}
use aftermath.Dfg.Connect.Ports.{Joins, Refused, Starved, connectp-Ends}
use aftermath.Dfg.Connect.Disconnects.{disconnect-Ends}

-- Each side of a connection knows the other, a connection goes from an output port to an input port,
-- an input port has one connection at most, and connected ports have a buffer.
pub record WellConnected (g : Graph) : Type 0 where
  pub symmetric : (a b : PortRef) → joined g a b ≡ joined g b a
  pub one_way :
      (a : PortRef) → is_input_port (port_at g a) ≡ true → is_output_port (port_at g a) ≡ false
  pub directed :
      (a b : PortRef)
      → 0 < joined g a b
      → (is_output_port (port_at g a) ≡ true) × (is_input_port (port_at g b) ≡ true)
        ⊎ (is_input_port (port_at g a) ≡ true) × (is_output_port (port_at g b) ≡ true)
  pub single :
      (a : PortRef) → is_input_port (port_at g a) ≡ true → length (port_at g a).connections ≤ 1
  pub valid : (a b : PortRef) → 0 < joined g a b → IsPort g b
  pub buffered : (a : PortRef) → 0 < length (port_at g a).connections → (port_at g a).buffer ≢ none

module _ {g h : Graph} {minus plus : List (PortRef × PortRef)} (r : Rewired g h minus plus) where
  pub input_kept : (a : PortRef) → is_input_port (port_at h a) ≡ is_input_port (port_at g a)
  unfolding is_input_port
  input_kept a = rw (r.types a) refl

  pub output_kept : (a : PortRef) → is_output_port (port_at h a) ≡ is_output_port (port_at g a)
  unfolding is_output_port
  output_kept a = rw (r.types a) refl

-- Connections that are as they were.
pub Rewired-WellConnected : {g h : Graph} → Rewired g h [] [] → WellConnected g → WellConnected h
Rewired-WellConnected r w = record {
  symmetric = λ a b. omega (arith, r.links a b, r.links b a, w.symmetric a b);
  one_way = λ a. ground (arith, input_kept r a, output_kept r a, w.one_way a);
  directed = λ a b. ground (
    arith,
    input_kept r a,
    output_kept r a,
    input_kept r b,
    output_kept r b,
    w.directed a b,
    r.links a b,
  );
  single = λ a. ground (arith, input_kept r a, w.single a, r.sizes a);
  valid = λ a b j. r.heap b (w.valid a b (omega (arith, r.links a b)));
  buffered = λ a l n. w.buffered a (omega (arith, r.sizes a)) (r.kept a n);
}

Joins-WellConnected :
    {g h : Graph} {src dst : PortRef}
    → IsPort g src
    → IsPort g dst
    → Joins g h src dst
    → WellConnected g
    → WellConnected h
unfolding is_connected
Joins-WellConnected {g} {h} {src} {dst} at_src at_dst j w = record {
  symmetric = λ a b. ground (arith, r.links a b, r.links b a, w.symmetric a b);
  one_way = λ a. ground (arith, input_kept r a, output_kept r a, w.one_way a);
  directed = λ a b. λ pos. ground (
    arith,
    input_kept r a,
    output_kept r a,
    input_kept r b,
    output_kept r b,
    w.directed a b,
    r.links a b,
    pos,
    j.outgoing,
    j.incoming,
    same_port-port_at g src a,
    same_port-port_at g dst a,
    same_port-port_at g src b,
    same_port-port_at g dst b,
  );
  single = λ a. ground (
    arith,
    input_kept r a,
    w.single a,
    r.sizes a,
    j.free,
    j.outgoing,
    w.one_way a,
    same_port-port_at g src a,
    same_port-port_at g dst a,
  );
  valid = λ a b. λ pos. r.heap b (ground (arith, w.valid a b, r.links a b, pos, at_src, at_dst));
  buffered = λ a. λ l n. ground (
    arith,
    w.buffered a,
    r.sizes a,
    r.kept a n,
    l,
    n,
    j.change.src_buffer,
    j.change.shared,
    same_port-port_at h src a,
    same_port-port_at h dst a,
  );
}
  where
    r : Rewired g h [] (both_ways src dst)
    r = j.change.change

-- A graph without connections.
pub unconnected-WellConnected :
    (g : Graph)
    → ((a : PortRef) → (port_at g a).connections ≡ [])
    → ((a : PortRef) → is_input_port (port_at g a) ≡ true → is_output_port (port_at g a) ≡ false)
    → WellConnected g
unconnected-WellConnected g free one_way = record {
  symmetric = λ a b. ground (arith, free a, free b);
  one_way = one_way;
  directed = λ a b pos. ground (arith, free a, pos);
  single = λ a i. ground (arith, free a);
  valid = λ a b pos. ground (arith, free a, pos);
  buffered = λ a l n. ground (arith, free a, l);
}

-- In a well-connected graph, two ports of it are connected only if the first is an output, the second an
-- input without a connection. Then each has the other as one more connection, and both have the same buffer.
-- Otherwise all connections stay, and there is a reason: the wrong direction, incompatible types, a
-- connection of the second port, no more room in the first port's array, or no memory. The graph stays
-- well-connected in both cases. NULL is read only when the first port has no buffer and memory ends.
pub connectp-WellConnected :
    (realloc : ℕ → Bool) (malloc : Bool) (any_type : Option SampleType) (g : Graph)
    (src dst : PortRef)
    → IsPort g src
    → IsPort g dst
    → WellConnected g
    → Ends
        (λ h. WellConnected h × Joins g h src dst)
        (λ h. WellConnected h × Rewired g h [] [] × Refused realloc malloc any_type g src dst)
        (Starved realloc malloc any_type g src)
        (connectp realloc malloc any_type g src dst)
connectp-WellConnected realloc malloc any_type g src dst at_src at_dst w =
    Ends-map (connectp-Ends realloc malloc any_type g src dst at_src at_dst w.one_way)
      (λ h j. (Joins-WellConnected at_src at_dst j w, j))
      (λ h (r, why). (Rewired-WellConnected r w, r, why)) (λ n. n)

disconnected-WellConnected :
    {g h : Graph} {p q : PortRef}
    → Rewired g h (both_ways p q) []
    → WellConnected g
    → WellConnected h
disconnected-WellConnected r w = record {
  symmetric = λ a b. ground (arith, r.links a b, r.links b a, w.symmetric a b);
  one_way = λ a. ground (arith, input_kept r a, output_kept r a, w.one_way a);
  directed = λ a b. ground (
    arith,
    input_kept r a,
    output_kept r a,
    input_kept r b,
    output_kept r b,
    w.directed a b,
    r.links a b,
  );
  single = λ a. ground (arith, input_kept r a, w.single a, r.sizes a);
  valid = λ a b j. r.heap b (w.valid a b (omega (arith, r.links a b)));
  buffered = λ a l n. w.buffered a (omega (arith, r.sizes a)) (r.kept a n);
}

pub times-length : (b : PortRef) (xs : List PortRef) → times b xs ≤ length xs
times-length b [] = omega arith
times-length b (x ∷ xs) = ground (arith, times-length b xs)

-- No port is connected to itself.
pub apart : (g : Graph) (p q : PortRef) → WellConnected g → 0 < joined g p q → same_port p q ≡ false
apart g p q w there =
    ground (arith, w.directed p q there, w.one_way p, w.one_way q, same_port-port_at g p q)

-- When there is memory, two connected ports are taken apart: each loses the other once, every other
-- connection stays, and the graph keeps its shape.
pub disconnect-WellConnected :
    (realloc : ℕ → Bool) (g : Graph) (p q : PortRef)
    → ((n : ℕ) → realloc n ≡ true)
    → WellConnected g
    → 0 < joined g p q
    → (h : Graph) × (disconnect realloc g p q ≡ success h)
      × WellConnected h
      × Rewired g h (both_ways p q) []
disconnect-WellConnected realloc g p q memory w there =
    elim (disconnect-Ends realloc g p q memory (w.valid q p (omega (arith, w.symmetric p q)))
      (w.valid p q there) (w.symmetric p q) (inl (apart g p q w there))) [
        | succeeds h e r ↦ (h, e, disconnected-WellConnected r w, r)
        | fails h e (r, z) ↦ absurd (omega arith)
        | reads_null e n ↦ absurd (elim n [
          | inl n ↦ w.buffered p (omega (arith, times-length q (port_at g p).connections)) n
          | inr n ↦
              w.buffered q
                (omega (arith, times-length p (port_at g q).connections, w.symmetric p q)) n
        ])
      ]
